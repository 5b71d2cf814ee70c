-- ===== src/Client/Session.antt =====
-- `run_session` and `run_session_impl` of spoke/images/tunnel-client/src/main.rs. The
-- gRPC transport is what it delivers: whether it connects, and then the frames of the hub.
pub mod Route
pub mod Feed
use openspoke.Common.{
  ℕ, Bool, true, false, Option, none, some, List, [], ◌∷◌, ◌++◌, if◌then◌else◌, Result, ok, err,
}
use openspoke.Common.Eq.{nat_eq, list_eq}
use openspoke.Common.Dict.{Dict, get, insert, remove}
use openspoke.Common.Channel.{Channel, send, empty_channel}
use openspoke.Common.Int.{ℤ}
use openspoke.Common.Text.{Text, codes, as_bytes, is_empty}
use openspoke.Wire.{Bytes, ServerFrame, ServerKind, ClientFrame, ClientKind, OpenStream}
use openspoke.Client.Config.{ClientConfig}
use openspoke.Client.Proxy.{Shared, attach_hub, detach_hub_and_flush, on_http_response}

abbrev pub client_version : Text
client_version = codes "tc-rust/0.1.0"

abbrev pub client_close : ℕ → Bool → Text → ClientFrame
client_close sid half reason = record {
  stream_id = sid;
  kind = some (ClientKind.close_stream (record { half = half; reason = reason }));
}

abbrev pub client_data : ℕ → Bytes → ClientFrame
client_data sid p = record { stream_id = sid; kind = some (ClientKind.payload p) }

abbrev pub client_handshake : Text → Text → ClientFrame
client_handshake spoke_id token = record {
  stream_id = 0;
  kind = some (
      ClientKind.handshake (record {
        spoke_id = spoke_id;
        signature = as_bytes token;
        tunnel_client_ver = client_version;
      }));
}

abbrev pub client_pong : ℤ → ClientFrame
client_pong sent_at = record { stream_id = 0; kind = some (ClientKind.pong sent_at) }

-- The state of a running session: what it shares with the proxy, and its streams.
pub record Session : Type 0 where
  pub shared : Shared
  pub streams : Dict ℕ (Channel Bytes)

-- `hub_tx.send(frame).await`.
unfoldable pub send_hub : ClientFrame → Session → Session × Bool
unfolding send
send_hub f s =
    let (hub, sent) = send f s.shared.hub in
    (record s { shared = record s.shared { hub = hub } }, sent)

-- A task that pumps a stream: its id, and the name and address of its target.
pub record Spawned : Type 0 where
  pub sid : ℕ
  pub target_name : Text
  pub target : Text

-- A frame leaves the session running, with the task that it spawned, or ends it with an error.
pub data Handled : Type 0 where
  goes_on : Session → Option Spawned → Handled
  fails : Text → Session → Handled

abbrev pub answer_challenge : ClientConfig → Session → Handled
answer_challenge cfg s =
    let (s', sent) = send_hub (client_handshake cfg.spoke_id cfg.token) s in
    if sent then goes_on s' none else fails (codes "failed to send handshake (hub_tx closed)") s'

abbrev pub target_name : OpenStream → Text
target_name o = if is_empty o.target then codes "default" else o.target

abbrev pub open_known : (Text → Text) → ℕ → Text → Option Text → Session → Handled
open_known debug sid name none s =
    goes_on (send_hub (client_close sid false (codes "unknown target " ++ debug name)) s).0 none
open_known debug sid name (some target) s =
    goes_on (record s { streams = insert sid empty_channel s.streams })
      (some (record { sid = sid; target_name = name; target = target }))

-- A send that fails leaves the entry: the pump removes it.
abbrev pub to_stream : ℕ → Bytes → Option (Channel Bytes) → Session → Session
to_stream sid p none s = s
to_stream sid p (some tx) s =
    let (tx', sent) = send p tx in
    if sent then record s { streams = insert sid tx' s.streams } else s

abbrev pub on_kind : (Text → Text) → ClientConfig → ℕ → Option ServerKind → Session → Handled
on_kind debug cfg sid (some (ServerKind.challenge c)) s = answer_challenge cfg s
on_kind debug cfg sid (some (ServerKind.open_stream o)) s =
    open_known debug sid (target_name o) (get (target_name o) cfg.targets) s
on_kind debug cfg sid (some (ServerKind.payload p)) s =
    goes_on (to_stream sid p (get sid s.streams) s) none
on_kind debug cfg sid (some (ServerKind.close_stream c)) s =
    goes_on (record s { streams = remove sid s.streams }) none
on_kind debug cfg sid (some (ServerKind.ping sent_at)) s =
    goes_on (send_hub (client_pong sent_at) s).0 none
on_kind debug cfg sid (some (ServerKind.http_response r)) s =
    goes_on (record s { shared = on_http_response sid r s.shared }) none
on_kind debug cfg sid none s = goes_on s none

-- One frame from the hub.
unfoldable pub handle_frame : (Text → Text) → ClientConfig → ServerFrame → Session → Handled
unfolding send_hub
handle_frame debug cfg f s = on_kind debug cfg f.stream_id f.kind s

-- The loop over the hub's frames: the end of the stream is a clean end, an error of the stream or
-- of a frame is one of the session.
pub record Ended : Type 0 where
  pub session : Session
  pub spawned : List Spawned
  pub result : Result Text (Unit {0})

abbrev pub add_spawned : Option Spawned → Ended → Ended
add_spawned none e = e
add_spawned (some t) e = record e { spawned = t ∷ e.spawned }

unfoldable pub session_loop :
    (Text → Text) → ClientConfig → List (Result Text ServerFrame) → Session → Ended
session_loop debug cfg [] s = record { session = s; spawned = []; result = ok tt }
session_loop debug cfg (err e ∷ fs) s = record { session = s; spawned = []; result = err e }
session_loop debug cfg (ok f ∷ fs) s = elim (handle_frame debug cfg f s) [
  | goes_on s' t ↦ add_spawned t (session_loop debug cfg fs s')
  | fails e s' ↦ record { session = s'; spawned = []; result = err e }
]

-- `run_session_impl`: the connection, with its errors, and then the loop.
unfoldable pub run_session_impl :
    (Text → Text) → ClientConfig → Result Text (List (Result Text ServerFrame)) → Shared → Ended
unfolding session_loop attach_hub
run_session_impl debug cfg (err e) sh = record {
  session = record { shared = sh; streams = [] };
  spawned = [];
  result = err e;
}
run_session_impl debug cfg (ok fs) sh =
    session_loop debug cfg fs (record { shared = attach_hub empty_channel sh; streams = [] })

-- `run_session`: the shared state is detached and flushed on every path.
unfoldable pub run_session :
    (Text → Text)
    → ClientConfig
    → Result Text (List (Result Text ServerFrame))
    → Shared
    → Shared × Result Text (Unit {0})
unfolding run_session_impl detach_hub_and_flush
run_session debug cfg inbound sh =
    let e = run_session_impl debug cfg inbound sh in
    (detach_hub_and_flush e.session.shared, e.result)
