-- ===== src/Client/Live/Refine.antt =====
-- A whole session of tunnel-client against the events of its proxy.
use openspoke.Common.{
  ℕ, ◌≡◌, refl, sym, ap, ◌∙◌, Option, none, some, List, [], ◌∷◌, Result, ok, err, true, false,
  Bool-cases, inl, inr,
}
use openspoke.Common.Eq.{nat_eq, list_eq}
use openspoke.Common.Dict.{get}
use openspoke.Common.Channel.{Channel, send}
use openspoke.Common.Text.{Text}
use openspoke.Wire.{Bytes, ClientFrame, ServerKind}
use openspoke.Client.Config.{ClientConfig}
use openspoke.Client.Proxy.{attach_hub, detach_hub_and_flush, Shared, detaches, step, run}
use openspoke.Client.Session.{
  Session, Handled, goes_on, fails, handle_frame, Ended, add_spawned, Spawned, send_hub, on_kind,
  open_known, target_name, to_stream, answer_challenge,
}
use openspoke.Client.Pump.{
  PumpEvent, read_ok, read_err, inbound, inbound_closed, pump_step, Round, drop_ended,
}
use openspoke.Client.Live.{
  Input, from_hub, locally, pumped, undialled, outbound_gone, on_input, and_then, live_loop,
  live_session, attached_session,
}
use openspoke.Client.Live.View.{view, run-view, run-append}
use openspoke.Client.Live.Events.{
  response_of, event_of, of_input, events_of, session_events, local_lem, event_of-attached,
}

abbrev pub session_of : Handled → Session
session_of (goes_on s t) = s
session_of (fails e s) = s

send_hub-view : (f : ClientFrame) (s : Session) → view (send_hub f s).0.shared ≡ view s.shared
unfolding send_hub send
send_hub-view f s = elim (Bool-cases s.shared.hub.is_open) [ inl t ↦ simp t | inr t ↦ simp t ]

pub to_stream-shared :
    (sid : ℕ) (p : Bytes) (o : Option (Channel Bytes)) (s : Session)
    → (to_stream sid p o s).shared ≡ s.shared
to_stream-shared sid p none s = refl
to_stream-shared sid p (some tx) s = elim (Bool-cases (send p tx).1) [
  | inl t ↦ rw t refl
  | inr t ↦ rw t refl
]

challenge-view :
    (cfg : ClientConfig) (s : Session)
    → view (session_of (answer_challenge cfg s)).shared ≡ view s.shared
unfolding send_hub send
challenge-view cfg s = elim (Bool-cases s.shared.hub.is_open) [ inl t ↦ simp t | inr t ↦ simp t ]

open_known-view :
    (debug : Text → Text) (sid : ℕ) (name : Text) (o : Option Text) (s : Session)
    → view (session_of (open_known debug sid name o s)).shared ≡ view s.shared
open_known-view debug sid name none s = send_hub-view _ s
open_known-view debug sid name (some t) s = refl

on_kind-view :
    (debug : Text → Text) (cfg : ClientConfig) (sid : ℕ) (k : Option ServerKind) (s : Session)
    → view (session_of (on_kind debug cfg sid k s)).shared ≡ view (run (response_of sid k) s.shared)
unfolding response_of run step
on_kind-view debug cfg sid (some (ServerKind.challenge c)) s = challenge-view cfg s
on_kind-view debug cfg sid (some (ServerKind.open_stream o)) s =
    open_known-view debug sid (target_name o) (get (target_name o) cfg.targets) s
on_kind-view debug cfg sid (some (ServerKind.payload p)) s =
    ap view (to_stream-shared sid p (get sid s.streams) s)
on_kind-view debug cfg sid (some (ServerKind.close_stream c)) s = refl
on_kind-view debug cfg sid (some (ServerKind.ping t)) s = send_hub-view _ s
on_kind-view debug cfg sid (some (ServerKind.http_response r)) s = refl
on_kind-view debug cfg sid none s = refl

pub drop_ended-shared : (sid : ℕ) (r : Round) → (drop_ended sid r).session.shared ≡ r.session.shared
drop_ended-shared sid r = elim (Bool-cases r.running) [ inl t ↦ rw t refl | inr t ↦ rw t refl ]

pump_step-view :
    (sid : ℕ) (e : PumpEvent) (s : Session)
    → view (pump_step sid e s).session.shared ≡ view s.shared
unfolding pump_step
pump_step-view sid (read_ok []) s = send_hub-view _ s
pump_step-view sid (read_ok (b ∷ bs)) s = send_hub-view _ s
pump_step-view sid read_err s = send_hub-view _ s
pump_step-view sid (inbound p w) s = refl
pump_step-view sid inbound_closed s = refl

add_spawned-session : (t : Option Spawned) (e : Ended) → (add_spawned t e).session ≡ e.session
add_spawned-session none e = refl
add_spawned-session (some t) e = refl

module _ (debug : Text → Text) (cfg : ClientConfig) where
  on_input-view :
      (i : Input) (s : Session)
      → s.shared.attached ≡ true
      → view (session_of (on_input debug cfg i s)).shared ≡ view (run (event_of i) s.shared)
  unfolding on_input handle_frame event_of run step
  on_input-view (from_hub (ok f)) s a = on_kind-view debug cfg f.stream_id f.kind s
  on_input-view (from_hub (err e)) s a = refl
  on_input-view (locally l) s a = ap view (local_lem l s.shared)
  on_input-view (pumped sid e) s a =
      ap view (drop_ended-shared sid (pump_step sid e s)) ∙ pump_step-view sid e s
  on_input-view (undialled sid reason) s a = send_hub-view _ s
  on_input-view outbound_gone s a =
      ap (λ x. record s.shared { hub = record { sent = []; is_open = false }; attached = x }) a

  on_input-attached :
      (i : Input) (s : Session)
      → s.shared.attached ≡ true
      → (session_of (on_input debug cfg i s)).shared.attached ≡ true
  on_input-attached i s a =
      ap (λ x. x.attached) (on_input-view i s a) ∙ event_of-attached i s.shared a

  and_then-view :
      (i : Input) (is : List Input) (s : Session) (h : Handled)
      → view (session_of h).shared ≡ view (run (event_of i) s.shared)
      → view (live_loop debug cfg is (session_of h)).session.shared
        ≡ view (run (events_of debug cfg is (session_of h)) (session_of h).shared)
      → view (and_then h (live_loop debug cfg is)).session.shared
        ≡ view (run (of_input (event_of i) h (events_of debug cfg is)) s.shared)
  and_then-view i is s (goes_on s' t) v rest =
      let es = events_of debug cfg is s' in
      ap (λ (x : Session). view x.shared) (add_spawned-session t (live_loop debug cfg is s'))
      ∙ rest
      ∙ run-view es s'.shared (run (event_of i) s.shared) v
      ∙ ap view (sym (run-append (event_of i) es s.shared))
  and_then-view i is s (fails e s') v rest = v

  live_loop-view :
      (is : List Input) (s : Session)
      → s.shared.attached ≡ true
      → view (live_loop debug cfg is s).session.shared
        ≡ view (run (events_of debug cfg is s) s.shared)
  unfolding live_loop events_of run
  live_loop-view [] s a = refl
  live_loop-view (i ∷ is) s a =
      and_then-view i is s (on_input debug cfg i s) (on_input-view i s a)
        (live_loop-view is (session_of (on_input debug cfg i s)) (on_input-attached i s a))

  -- Whatever happens during a session of the client, in whatever order, up to the input that ends
  -- it or the end of the hub's stream, the proxy sees the events that it means to the proxy between
  -- an attach and a detach, and nothing else: all but what was sent to the hub is as after them. A
  -- session that does not connect is to the proxy a detach.
  pub live_session-Refines :
      (inbound : Result Text (List Input)) (sh : Shared)
      → view (live_session debug cfg inbound sh).0
        ≡ view (run (session_events debug cfg inbound sh) sh)
  unfolding live_session run step attach_hub detach_hub_and_flush
  live_session-Refines (err e) sh = refl
  live_session-Refines (ok is) sh =
      let start = attached_session sh in
      let es = events_of debug cfg is start in
      run-view (detaches ∷ []) (live_loop debug cfg is start).session.shared (run es start.shared)
        (live_loop-view is start refl)
      ∙ ap view (sym (run-append es (detaches ∷ []) start.shared))
