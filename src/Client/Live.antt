-- ===== src/Client/Live.antt =====
-- A session of spoke/images/tunnel-client/src/main.rs with everything that happens beside the loop
-- over the hub's frames: the handlers of the proxy, and the tasks that pump the streams.
pub mod View
pub mod Events
pub mod Refine
pub mod Same
use openspoke.Common.{ℕ, Option, none, List, [], ◌∷◌, if◌then◌else◌, Result, ok, err, false}
use openspoke.Common.Eq.{nat_eq}
use openspoke.Common.Dict.{remove}
use openspoke.Common.Channel.{empty_channel}
use openspoke.Common.Text.{Text}
use openspoke.Wire.{ServerFrame, HttpRequest}
use openspoke.Client.Config.{ClientConfig}
use openspoke.Client.Proxy.{
  Shared, enter_request, queue_request, miss_request, attach_hub, detach_hub_and_flush,
}
use openspoke.Client.Session.{Session, Handled, goes_on, fails, handle_frame, Ended, add_spawned}
use openspoke.Client.Pump.{PumpEvent, pump_step, drop_ended, give_up}

-- What the proxy's handlers do to the shared state: the entry of a request, for a caller, the send of
-- its frame, over the sender of this session or of one that has ended, and a wait that ran out.
pub data Local : Type 0 where
  entered : ℕ → Local
  queued : ℕ → HttpRequest → Local
  missed : ℕ → Local
  expired : ℕ → Local

unfoldable pub on_local : Local → Shared → Shared
unfolding enter_request queue_request miss_request
on_local (entered caller) s = enter_request caller s
on_local (queued sid req) s = (queue_request sid req s).0
on_local (missed sid) s = (miss_request sid s).0
on_local (expired sid) s = record s { pending = remove sid s.pending }

-- What happens during a session, in the order in which it happens: what the hub's stream delivers,
-- the proxy's handlers, a round of a pump, a dial that fails, and the end of the outbound stream.
pub data Input : Type 0 where
  from_hub : Result Text ServerFrame → Input
  locally : Local → Input
  pumped : ℕ → PumpEvent → Input
  undialled : ℕ → Text → Input
  outbound_gone : Input

abbrev pub with_shared : Shared → Session → Session
with_shared sh s = record s { shared = sh }

abbrev pub lose_hub : Shared → Shared
lose_hub s = record s { hub = record s.hub { is_open = false } }

unfoldable pub on_input : (Text → Text) → ClientConfig → Input → Session → Handled
unfolding handle_frame on_local pump_step
on_input debug cfg (from_hub (ok f)) s = handle_frame debug cfg f s
on_input debug cfg (from_hub (err e)) s = fails e s
on_input debug cfg (locally l) s = goes_on (with_shared (on_local l s.shared) s) none
on_input debug cfg (pumped sid e) s = goes_on (drop_ended sid (pump_step sid e s)).session none
on_input debug cfg (undialled sid reason) s = goes_on (give_up sid reason s).session none
on_input debug cfg outbound_gone s = goes_on (with_shared (lose_hub s.shared) s) none

abbrev pub and_then : Handled → (Session → Ended) → Ended
and_then (goes_on s t) rest = add_spawned t (rest s)
and_then (fails e s) rest = record { session = s; spawned = []; result = err e }

-- The hub's stream ends cleanly after the last input.
unfoldable pub live_loop : (Text → Text) → ClientConfig → List Input → Session → Ended
live_loop debug cfg [] s = record { session = s; spawned = []; result = ok tt }
live_loop debug cfg (i ∷ is) s = and_then (on_input debug cfg i s) (live_loop debug cfg is)

abbrev pub attached_session : Shared → Session
attached_session sh = record { shared = attach_hub empty_channel sh; streams = [] }

-- `run_session`, from the outcome of the connection. The pumps of an ended session only touch its
-- own streams and its own outbound channel.
unfoldable pub live_session :
    (Text → Text)
    → ClientConfig
    → Result Text (List Input)
    → Shared
    → Shared × Result Text (Unit {0})
unfolding live_loop attach_hub detach_hub_and_flush
live_session debug cfg (err e) sh = (detach_hub_and_flush sh, err e)
live_session debug cfg (ok is) sh =
    let e = live_loop debug cfg is (attached_session sh) in
    (detach_hub_and_flush e.session.shared, e.result)
