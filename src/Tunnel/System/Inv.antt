-- ===== src/Tunnel/System/Inv.antt =====
-- What holds of a tunnel at any time.
use openspoke.Common.{
  ℕ, ◌≤◌, ◌≡◌, refl, sym, subst, ap, ◌∙◌, inl, inr, none, some, List, [], ◌∷◌, ◌++◌, All,
  All-append, All-map,
}
use mathlib.Core.List.{append_assoc}
use openspoke.Common.Eq.{nat_eq, list_eq}
use openspoke.Common.Dict.{get}
use openspoke.Common.Channel.{Channel, Grows}
use openspoke.Wire.{Bytes, ServerFrame}
use openspoke.Server.Metrics.{Metrics}
use openspoke.Server.Receive.Feed as Up
use openspoke.Client.Config.{ClientConfig}
use openspoke.Client.Proxy.{Shared}
use openspoke.Client.Session.Feed as Down
use openspoke.Tunnel.System.{Tunnel}
use openspoke.Tunnel.System.Start.{joined}
use openspoke.Tunnel.System.Sends.{IsWithin}
use openspoke.Tunnel.System.SpokeSends.{IsBelow, HubGrows}
use openspoke.Tunnel.System.HubTakes.{HubHolds}
use openspoke.Tunnel.System.SpokeTakes.{SpokeHolds}
use openspoke.Tunnel.System.Log.{
  IsGiven, OpensFresh, OpensFresh-snoc, KindGiven-mono, KindWithin-KindGiven, KindWithin-KindFresh,
}

-- What a side has sent: what the other has taken, and what is on its way.
abbrev pub Split {ℓ} : {A : Type ℓ} → Channel A → List A → Type ℓ
Split {A = A} c taken = (rest : List A) × (c.sent ≡ taken ++ rest)

pub Split-Grows {ℓ} :
    {A : Type ℓ} (P : A → Type 0) (c c' : Channel A) (taken : List A)
    → Grows P c c'
    → Split c taken
    → Split c' taken
Split-Grows P c c' taken (inl e) (rest, q) = (rest, e ∙ q)
Split-Grows P c c' taken (inr (a, p, e)) (rest, q) =
    (rest ++ a ∷ [], e ∙ ap (λ xs. xs ++ a ∷ []) q ∙ append_assoc taken rest (a ∷ []))

pub Split-take {ℓ} :
    {A : Type ℓ} (c : Channel A) (taken : List A) (f : A) (rest : List A)
    → c.sent ≡ taken ++ f ∷ rest
    → Split c (taken ++ f ∷ [])
Split-take c taken f rest e = (rest, e ∙ sym (append_assoc taken (f ∷ []) rest))

-- Ids of the data frames and the openings of the hub, up to `last`, and its openings all fresh.
pub record Sound (last : ℕ) (c : Channel ServerFrame) : Type 0 where
  pub given : All (IsGiven last) c.sent
  pub fresh : OpensFresh [] c.sent

pub Sound-Grows :
    (last last' : ℕ) (c c' : Channel ServerFrame)
    → last ≤ last'
    → Grows (IsWithin last c.sent) c c'
    → Sound last c
    → Sound last' c'
Sound-Grows last last' c c' le (inl e) h = record {
  given = subst (All (IsGiven last')) (sym e) (
      All-map (IsGiven last) (IsGiven last') c.sent
        (λ f. KindGiven-mono last last' f.stream_id f.kind le) h.given);
  fresh = subst (OpensFresh []) (sym e) h.fresh;
}
Sound-Grows last last' c c' le (inr (f, w, e)) h = record {
  given = subst (All (IsGiven last')) (sym e) (
      All-append (IsGiven last') c.sent (f ∷ [])
        (All-map (IsGiven last) (IsGiven last') c.sent
          (λ g. KindGiven-mono last last' g.stream_id g.kind le) h.given)
        (KindWithin-KindGiven last last' c.sent f.stream_id f.kind le w, tt));
  fresh =
      subst (OpensFresh []) (sym e) (
        OpensFresh-snoc [] c.sent f h.fresh
          (KindWithin-KindFresh last c.sent f.stream_id f.kind w));
}

pub IsBelow-Grows :
    (last : ℕ) (s s' : Shared)
    → HubGrows last s s'
    → All (IsBelow last) s.hub.sent
    → All (IsBelow last) s'.hub.sent
IsBelow-Grows last s s' (inl e) h = subst (All (IsBelow last)) (sym e) h
IsBelow-Grows last s s' (inr (f, b, e)) h =
    subst (All (IsBelow last)) (sym e) (All-append (IsBelow last) s.hub.sent (f ∷ []) h (b, tt))

-- The invariant.
pub record IsOrdered (t : Tunnel) : Type 0 where
  pub sound : Sound t.live.last_sid t.live.conn.session.server_tx
  pub below : All (IsBelow t.live.last_sid) t.spoke.shared.hub.sent
  pub low : All (λ k. k ≤ t.live.last_sid) t.pumps
  pub down_split : Split t.live.conn.session.server_tx t.taken_down
  pub up_split : Split t.spoke.shared.hub t.taken_up
  pub pump : (sid : ℕ) → SpokeHolds sid (Down.data_of sid t.taken_down) t.spoke
  pub writer : (sid : ℕ) → HubHolds sid (Up.data_of sid t.taken_up) t.live.conn

pub joined-IsOrdered :
    (nonce : Bytes) (issued_at : ℕ) (m : Metrics) (last : ℕ) (ccfg : ClientConfig) (sh : Shared)
    → IsOrdered (joined nonce issued_at m last ccfg sh)
unfolding get
joined-IsOrdered nonce issued_at m last ccfg sh = record {
  sound = record { given = (tt, tt); fresh = (tt, tt) };
  below = (tt, tt);
  low = tt;
  down_split = ([], refl);
  up_split = ([], refl);
  pump = λ sid w g. absurd (nothing g);
  writer = λ sid w g. absurd (nothing g);
}
  where
    nothing : {w : Channel Bytes} → none ≡ some w → ⊥
    nothing k = cc
