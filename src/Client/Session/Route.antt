-- ===== src/Client/Session/Route.antt =====
-- Where a frame from the hub goes, and what a session leaves behind.
use openspoke.Common.{
  ℕ, ◌≡◌, ◌≢◌, refl, false, Option, none, some, List, [], Bool-cases, Result, inl, inr,
}
use openspoke.Common.Eq.{miss, nat_eq, list_eq}
use openspoke.Common.Dict.{Dict, get, get-insert_miss, get-remove_miss}
use openspoke.Common.Channel.{Channel, send}
use openspoke.Common.Text.{Text}
use openspoke.Wire.{Bytes, ServerFrame, ServerKind}
use openspoke.Client.Config.{ClientConfig}
use openspoke.Client.Proxy.{Shared}
use openspoke.Client.Session.{
  Session, send_hub, Handled, goes_on, fails, open_known, target_name, to_stream, on_kind,
  handle_frame, run_session,
}

-- The streams of the session that goes on, or that failed.
abbrev pub streams_after : Handled → Dict ℕ (Channel Bytes)
streams_after (goes_on s t) = s.streams
streams_after (fails e s) = s.streams

module _ (sid j : ℕ) (other : j ≢ sid) (s : Session) where
  to_stream-other :
      (p : Bytes) (o : Option (Channel Bytes))
      → get j (to_stream sid p o s).streams ≡ get j s.streams
  to_stream-other p none = refl
  to_stream-other p (some tx) = elim (Bool-cases (send p tx).1) [
    | inl t ↦ rw t (get-insert_miss sid j _ s.streams (miss sid j other))
    | inr t ↦ rw t
  ]

  open_known-other :
      (debug : Text → Text) (name : Text) (o : Option Text)
      → get j (streams_after (open_known debug sid name o s)) ≡ get j s.streams
  unfolding send_hub
  open_known-other debug name none = refl
  open_known-other debug name (some t) = get-insert_miss sid j _ s.streams (miss sid j other)

  on_kind-other :
      (debug : Text → Text) (cfg : ClientConfig) (k : Option ServerKind)
      → get j (streams_after (on_kind debug cfg sid k s)) ≡ get j s.streams
  unfolding send_hub
  on_kind-other debug cfg (some (ServerKind.challenge c)) = elim (Bool-cases s.shared.hub.is_open) [
    | inl t ↦ simp t
    | inr t ↦ simp t
  ]
  on_kind-other debug cfg (some (ServerKind.open_stream o)) =
      open_known-other debug (target_name o) (get (target_name o) cfg.targets)
  on_kind-other debug cfg (some (ServerKind.payload p)) = to_stream-other p (get sid s.streams)
  on_kind-other debug cfg (some (ServerKind.close_stream c)) =
      get-remove_miss sid j s.streams (miss sid j other)
  on_kind-other debug cfg (some (ServerKind.ping c)) = refl
  on_kind-other debug cfg (some (ServerKind.http_response c)) = refl
  on_kind-other debug cfg none = refl

-- A frame from the hub touches no stream but its own, whatever its kind.
handle_frame-other :
    (debug : Text → Text) (cfg : ClientConfig) (f : ServerFrame) (j : ℕ) (s : Session)
    → j ≢ f.stream_id
    → get j (streams_after (handle_frame debug cfg f s)) ≡ get j s.streams
unfolding handle_frame
handle_frame-other debug cfg f j s other = on_kind-other f.stream_id j other s debug cfg f.kind

-- However a session ends, connected or not, cleanly or with an error, no request of the proxy is
-- left waiting and the proxy sees no hub.
run_session-flushes :
    (debug : Text → Text) (cfg : ClientConfig)
    (inbound : Result Text (List (Result Text ServerFrame))) (sh : Shared)
    → let after = (run_session debug cfg inbound sh).0 in
      (after.pending ≡ []) × (after.attached ≡ false)
unfolding run_session
run_session-flushes debug cfg inbound sh = (refl, refl)
