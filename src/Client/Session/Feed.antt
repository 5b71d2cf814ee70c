-- ===== src/Client/Session/Feed.antt =====
-- The loop of `run_session_impl` of tunnel-client as one stream sees it.
use openspoke.Common.{
  ℕ, ◌≡◌, ◌≢◌, refl, ap, ◌∙◌, true, false, Option, none, some, List, [], ◌∷◌, ◌++◌, map, arith, All,
  ok, if◌then◌else◌, inl, inr, Bool-cases,
}
use mathlib.Core.List.{append_assoc}
use openspoke.Common.Eq.{nat_eq, list_eq, ◌==◌, beq-cases}
use openspoke.Common.Dict.{get, get-insert_miss, get-insert_self, get-remove_miss}
use openspoke.Common.Channel.{Channel, send, send-open, fed, fed-nil}
use openspoke.Common.Text.{Text}
use openspoke.Wire.{Bytes, ServerFrame, ServerKind}
use openspoke.Client.Config.{ClientConfig}
use openspoke.Client.Session.{
  Session, Spawned, Handled, Ended, goes_on, handle_frame, on_kind, send_hub, open_known,
  target_name, to_stream, add_spawned, session_loop,
}

-- The bytes that a frame carries for the stream.
abbrev pub data_in : ℕ → ℕ → Option ServerKind → List Bytes
data_in sid j (some (ServerKind.payload p)) = if j == sid then p ∷ [] else []
data_in sid j _ = []

unfoldable pub data_of : ℕ → List ServerFrame → List Bytes
data_of sid [] = []
data_of sid (f ∷ fs) = data_in sid f.stream_id f.kind ++ data_of sid fs

-- The frame is no challenge, and neither opens nor closes the stream.
abbrev pub KeepsOpen : ℕ → ℕ → Option ServerKind → Type 0
KeepsOpen sid j (some (ServerKind.challenge x)) = ⊥
KeepsOpen sid j (some (ServerKind.open_stream x)) = j ≢ sid
KeepsOpen sid j (some (ServerKind.close_stream x)) = j ≢ sid
KeepsOpen sid j _ = Unit

abbrev pub FrameKeepsOpen : ℕ → ServerFrame → Type 0
FrameKeepsOpen sid f = KeepsOpen sid f.stream_id f.kind

module _ (debug : Text → Text) (cfg : ClientConfig) (sid : ℕ) where
  -- The session goes on, with the stream's channel as given.
  abbrev Has : Handled → Channel Bytes → Type 0
  Has r w = (s : Session) × (t : Option Spawned) × (r ≡ goes_on s t) × (get sid s.streams ≡ some w)

  miss : (j : ℕ) → j ≢ sid → j == sid ≡ false
  miss j h = ground arith

  open_known-Has :
      (j : ℕ) (name : Text) (o : Option Text) (s : Session) (w : Channel Bytes)
      → j ≢ sid
      → get sid s.streams ≡ some w
      → Has (open_known debug j name o s) w
  unfolding send_hub
  open_known-Has j name none s w h g = (_, _, refl, g)
  open_known-Has j name (some t) s w h g =
      (_, _, refl, get-insert_miss j sid _ s.streams (miss j h) ∙ g)

  to_stream-own :
      (p : Bytes) (s : Session) (w : Channel Bytes)
      → get sid s.streams ≡ some w
      → w.is_open ≡ true
      → get sid (to_stream sid p (some w) s).streams ≡ some (fed w (p ∷ []))
  to_stream-own p s w g o = rw (send-open p w o) (get-insert_self sid (fed w (p ∷ [])) s.streams)

  to_stream-other :
      (j : ℕ) (p : Bytes) (o : Option (Channel Bytes)) (s : Session)
      → j == sid ≡ false
      → get sid (to_stream j p o s).streams ≡ get sid s.streams
  to_stream-other j p none s t = refl
  to_stream-other j p (some x) s t = elim (Bool-cases (send p x).1) [
    | inl b ↦ rw b (get-insert_miss j sid _ s.streams t)
    | inr b ↦ rw b
  ]

  on_kind-Has :
      (j : ℕ) (k : Option ServerKind) (s : Session) (w : Channel Bytes)
      → KeepsOpen sid j k
      → get sid s.streams ≡ some w
      → w.is_open ≡ true
      → Has (on_kind debug cfg j k s) (fed w (data_in sid j k))
  unfolding send_hub
  on_kind-Has j (some (ServerKind.challenge x)) s w h g o = absurd h
  on_kind-Has j (some (ServerKind.open_stream x)) s w h g o =
      open_known-Has j (target_name x) (get (target_name x) cfg.targets) s (fed w []) h
        (g ∙ ap some (fed-nil w o))
  on_kind-Has j (some (ServerKind.payload p)) s w h g o = elim (beq-cases j sid) [
    | inl (t, e) ↦
        let own : get j s.streams ≡ some w = ap (λ i. get i s.streams) e ∙ g in
        rw (t, own, e) (_, _, refl, to_stream-own p s w g o)
    | inr (t, e) ↦
        rw t (_, _, refl, to_stream-other j p (get j s.streams) s t ∙ g ∙ ap some (fed-nil w o))
  ]
  on_kind-Has j (some (ServerKind.close_stream x)) s w h g o =
      (_, _, refl, get-remove_miss j sid s.streams (miss j h) ∙ g ∙ ap some (fed-nil w o))
  on_kind-Has j (some (ServerKind.ping x)) s w h g o = (_, _, refl, g ∙ ap some (fed-nil w o))
  on_kind-Has j (some (ServerKind.http_response x)) s w h g o =
      (_, _, refl, g ∙ ap some (fed-nil w o))
  on_kind-Has j none s w h g o = (_, _, refl, g ∙ ap some (fed-nil w o))

  -- The loop ended with its stream, and without an error.
  abbrev pub EndsWith : Ended → Channel Bytes → Type 0
  EndsWith e w = (get sid e.session.streams ≡ some w) × (e.result ≡ ok tt)

  add_spawned-EndsWith :
      (t : Option Spawned) (e : Ended) (w : Channel Bytes)
      → EndsWith e w
      → EndsWith (add_spawned t e) w
  add_spawned-EndsWith none e w h = h
  add_spawned-EndsWith (some t) e w h = h

  -- Over frames that neither open nor close a stream whose pump is there, and once the handshake is
  -- past, the pump gets the bytes of the stream's data frames, in order and nothing else.
  pub session_loop-EndsWith :
      (fs : List ServerFrame) (s : Session) (w : Channel Bytes)
      → All (FrameKeepsOpen sid) fs
      → get sid s.streams ≡ some w
      → w.is_open ≡ true
      → EndsWith (session_loop debug cfg (map ok fs) s) (fed w (data_of sid fs))
  unfolding session_loop handle_frame data_of
  session_loop-EndsWith [] s w h g o = (g ∙ ap some (fed-nil w o), refl)
  session_loop-EndsWith (f ∷ fs) s w h g o =
      let (s', t, e, g') = on_kind-Has f.stream_id f.kind s w h.0 g o in
      let (rest, fine) = session_loop-EndsWith fs s' _ h.1 g' refl in
      rw (e, session_loop)
        (add_spawned-EndsWith t _ _ (
          rest ∙ ap (λ ps. some (record { sent = ps; is_open = true })) (append_assoc w.sent _ _),
          fine,
        ))
