-- ===== src/Tunnel/System/SpokeTakes.antt =====
-- What becomes of the channel of one stream's pump at the spoke.
use openspoke.Common.{
  ℕ, ◌≡◌, ◌≢◌, refl, sym, ap, ◌∙◌, inl, inr, true, Bool-cases, Option, none, some, List, [], ◌∷◌,
  ◌++◌,
}
use mathlib.Core.List.{append-nil}
use openspoke.Common.Eq.{nat_eq, list_eq, ◌==◌, beq-cases}
use openspoke.Common.Dict.{get, insert, remove, get-insert_hit}
use openspoke.Common.Channel.{Channel, send, send-open, fed, empty_channel}
use openspoke.Common.Text.{Text}
use openspoke.Wire.{Bytes, ServerFrame, ServerKind}
use openspoke.Client.Config.{ClientConfig}
use openspoke.Client.Proxy.{on_http_response}
use openspoke.Client.Session
use openspoke.Client.Session.{
  Session, Handled, goes_on, fails, handle_frame, send_hub, open_known, target_name, to_stream,
  answer_challenge,
}
use openspoke.Client.Session.Feed
use openspoke.Client.Pump
use openspoke.Client.Pump.{PumpEvent, pump_step, drop_ended, Round}
use openspoke.Client.Live.{from_hub, locally, pumped, undialled, outbound_gone, Input, on_input}
use openspoke.Client.Live.Refine.{session_of}
use openspoke.Tunnel.System.{AtSpoke}
use openspoke.Tunnel.System.Each.{Each, Each-gone, Each-some, Each-insert, Each-remove}

-- The channel of the stream's pump is open and was handed `ps`, if there is one.
abbrev pub WasHanded : List Bytes → Channel Bytes → Type 0
WasHanded ps w = (w.is_open ≡ true) × (w.sent ≡ ps)

abbrev pub SpokeHolds : ℕ → List Bytes → Session → Type 0
SpokeHolds sid ps s = Each (WasHanded ps) sid s.streams

-- An opening is one of a stream for which nothing came before.
abbrev pub KindFresh : List ServerFrame → ℕ → Option ServerKind → Type 0
KindFresh log j (some (ServerKind.open_stream o)) = Feed.data_of j log ≡ []
KindFresh log j (some (ServerKind.payload p)) = Unit
KindFresh log j (some (ServerKind.challenge c)) = Unit
KindFresh log j (some (ServerKind.close_stream c)) = Unit
KindFresh log j (some (ServerKind.ping t)) = Unit
KindFresh log j (some (ServerKind.http_response r)) = Unit
KindFresh log j none = Unit

abbrev pub IsFresh : List ServerFrame → ServerFrame → Type 0
IsFresh log f = KindFresh log f.stream_id f.kind

module _ (sid : ℕ) (ps : List Bytes) where
  abbrev More : List Bytes → Session → Type 0
  More qs s = SpokeHolds sid (ps ++ qs) s

  More-nil : (s : Session) → SpokeHolds sid ps s → More [] s
  More-nil s h w g = let (o, e) = h w g in (o, e ∙ sym (append-nil ps))

  challenge-SpokeHolds :
      (cfg : ClientConfig) (s : Session)
      → SpokeHolds sid ps s
      → SpokeHolds sid ps (session_of (answer_challenge cfg s))
  unfolding send_hub send
  challenge-SpokeHolds cfg s h = elim (Bool-cases s.shared.hub.is_open) [
    | inl t ↦ simp t h
    | inr t ↦ simp t h
  ]

  open_known-SpokeHolds :
      (debug : Text → Text) (j : ℕ) (name : Text) (o : Option Text) (s : Session)
      → (j ≡ sid → [] ≡ ps)
      → SpokeHolds sid ps s
      → SpokeHolds sid ps (session_of (open_known debug j name o s))
  unfolding send_hub
  open_known-SpokeHolds debug j name none s new h = h
  open_known-SpokeHolds debug j name (some t) s new h =
      Each-insert (WasHanded ps) sid j empty_channel s.streams (λ e. (refl, new e)) h

  to_stream-hit :
      (j : ℕ) (p : Bytes) (o : Option (Channel Bytes)) (s : Session)
      → j == sid ≡ true
      → get sid s.streams ≡ o
      → SpokeHolds sid ps s
      → More (p ∷ []) (to_stream j p o s)
  to_stream-hit j p none s t g h = Each-gone (WasHanded (ps ++ p ∷ [])) sid s.streams g
  to_stream-hit j p (some v) s t g h =
      let (o, e) = h v g in
      rw (send-open p v o) (
        Each-some (WasHanded (ps ++ p ∷ [])) sid (insert j (fed v (p ∷ [])) s.streams)
          (fed v (p ∷ [])) (get-insert_hit j sid (fed v (p ∷ [])) s.streams t)
          (refl, ap (λ xs. xs ++ p ∷ []) e))

  to_stream-miss :
      (j : ℕ) (p : Bytes) (o : Option (Channel Bytes)) (s : Session)
      → j ≢ sid
      → SpokeHolds sid ps s
      → SpokeHolds sid ps (to_stream j p o s)
  to_stream-miss j p none s ne h = h
  to_stream-miss j p (some v) s ne h = elim (Bool-cases (send p v).1) [
    | inl t ↦ rw t (Each-insert (WasHanded ps) sid j (send p v).0 s.streams (λ e. absurd (ne e)) h)
    | inr t ↦ rw t h
  ]

  to_stream-SpokeHolds :
      (j : ℕ) (p : Bytes) (s : Session)
      → SpokeHolds sid ps s
      → More (Feed.data_in sid j (some (ServerKind.payload p))) (to_stream j p (get j s.streams) s)
  to_stream-SpokeHolds j p s h = elim (beq-cases j sid) [
    | inl (t, e) ↦
        rw t (to_stream-hit j p (get j s.streams) s t (ap (λ i. get i s.streams) (sym e)) h)
    | inr (t, e) ↦
        rw t (
          More-nil (to_stream j p (get j s.streams) s) (to_stream-miss j p (get j s.streams) s e h))
  ]

module _ (sid : ℕ) (log : List ServerFrame) where
  on_kind-SpokeHolds :
      (debug : Text → Text) (cfg : ClientConfig) (j : ℕ) (k : Option ServerKind) (s : Session)
      → KindFresh log j k
      → SpokeHolds sid (Feed.data_of sid log) s
      → SpokeHolds sid
          (Feed.data_of sid log ++ Feed.data_in sid j k)
          (session_of (Session.on_kind debug cfg j k s))
  unfolding send_hub on_http_response
  on_kind-SpokeHolds debug cfg j (some (ServerKind.challenge c)) s new h =
      More-nil sid _ (session_of (answer_challenge cfg s)) (challenge-SpokeHolds sid _ cfg s h)
  on_kind-SpokeHolds debug cfg j (some (ServerKind.open_stream o)) s new h =
      More-nil sid _
        (session_of (open_known debug j (target_name o) (get (target_name o) cfg.targets) s))
        (open_known-SpokeHolds sid _ debug j (target_name o) (get (target_name o) cfg.targets) s
          (λ e. sym new ∙ ap (λ i. Feed.data_of i log) e) h)
  on_kind-SpokeHolds debug cfg j (some (ServerKind.payload p)) s new h =
      to_stream-SpokeHolds sid _ j p s h
  on_kind-SpokeHolds debug cfg j (some (ServerKind.close_stream c)) s new h =
      More-nil sid _ (record s { streams = remove j s.streams }) (Each-remove _ sid j s.streams h)
  on_kind-SpokeHolds debug cfg j (some (ServerKind.ping t)) s new h = More-nil sid _ s h
  on_kind-SpokeHolds debug cfg j (some (ServerKind.http_response r)) s new h = More-nil sid _ s h
  on_kind-SpokeHolds debug cfg j none s new h = More-nil sid _ s h

  -- A frame of the hub behind `log` hands the pump what it carries for the stream.
  pub handle_frame-SpokeHolds :
      (debug : Text → Text) (cfg : ClientConfig) (f : ServerFrame) (s : Session)
      → IsFresh log f
      → SpokeHolds sid (Feed.data_of sid log) s
      → SpokeHolds sid
          (Feed.data_of sid log ++ Feed.data_in sid f.stream_id f.kind)
          (session_of (handle_frame debug cfg f s))
  unfolding handle_frame
  handle_frame-SpokeHolds debug cfg f s new h =
      on_kind-SpokeHolds debug cfg f.stream_id f.kind s new h

module _ (sid : ℕ) (ps : List Bytes) where
  pump_step-SpokeHolds :
      (j : ℕ) (e : PumpEvent) (s : Session)
      → SpokeHolds sid ps s
      → SpokeHolds sid ps (pump_step j e s).session
  unfolding pump_step send_hub
  pump_step-SpokeHolds j (Pump.read_ok []) s h = h
  pump_step-SpokeHolds j (Pump.read_ok (b ∷ bs)) s h = h
  pump_step-SpokeHolds j Pump.read_err s h = h
  pump_step-SpokeHolds j (Pump.inbound p w) s h = h
  pump_step-SpokeHolds j Pump.inbound_closed s h = h

  drop_ended-SpokeHolds :
      (j : ℕ) (r : Round) → SpokeHolds sid ps r.session → SpokeHolds sid ps (drop_ended j r).session
  drop_ended-SpokeHolds j r h = elim (Bool-cases r.running) [
    | inl t ↦ rw t h
    | inr t ↦ rw t (Each-remove (WasHanded ps) sid j r.session.streams h)
  ]

  -- What happens at the spoke by itself hands it nothing.
  pub on_input-SpokeHolds :
      (debug : Text → Text) (cfg : ClientConfig) (i : Input) (s : Session) (pumps : List ℕ)
      → AtSpoke pumps i
      → SpokeHolds sid ps s
      → SpokeHolds sid ps (session_of (on_input debug cfg i s))
  unfolding on_input send_hub
  on_input-SpokeHolds debug cfg (locally l) s pumps at h = h
  on_input-SpokeHolds debug cfg (pumped j e) s pumps at h =
      drop_ended-SpokeHolds j (pump_step j e s) (pump_step-SpokeHolds j e s h)
  on_input-SpokeHolds debug cfg (undialled j reason) s pumps at h =
      Each-remove (WasHanded ps) sid j s.streams h
  on_input-SpokeHolds debug cfg outbound_gone s pumps at h = h
  on_input-SpokeHolds debug cfg (from_hub f) s pumps at h = absurd at
