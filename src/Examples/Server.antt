-- ===== src/Examples/Server.antt =====
-- The theorems on tunnel-server at concrete inputs.
use openspoke.Common.{
  ℕ, ◌≡◌, ◌↔◌, refl, false, none, some, List, [], ◌∷◌, arith, ok, length, if◌then◌else◌, ◌+◌,
}
use openspoke.Common.Eq.{nat_eq, list_eq, list_beq, ◌==◌}
use openspoke.Common.Dict.{get, insert, contains_key}
use openspoke.Common.Channel.{empty_channel}
use openspoke.Common.Int.{pos, add_ℕ, sub_ℕ, suc_ℤ}
use openspoke.Common.Text.{codes}
use openspoke.Wire.{ClientKind}
use openspoke.Server.Metrics.{gauge, count}
use openspoke.Server.Session.{new_session}
use openspoke.Server.Handshake.{admit}
use openspoke.Server.Handshake.Auth.{IsAdmitted, admit_iff}
use openspoke.Server.Http.{handle_http_request}
use openspoke.Server.Http.Headers.{Reaches, handle_http_request-Reaches}
use openspoke.Server.Receive.{on_data}
use openspoke.Server.Receive.Route.{after_data, received, on_data_lem}
use openspoke.Server.Stream.{
  Event, Live, run, accepted, announced, frame, tcp_read, read_ok, other_sid,
}
use openspoke.Server.Stream.Balance.{IsBalanced, losses, run-IsBalanced}
use openspoke.Server.Registry.{Hub, Entry, Move, arrival, turn, schedule, new_hub, serving}
use openspoke.Server.Registry.Sound.{schedule-IsSound, new_hub-IsSound}
use openspoke.Server.Registry.Entered.{IsSound}
use openspoke.Server.Registry.Displace.{displacement-drift, reconnect}
use openspoke.Examples.Data.{
  hub_config, demo, demo_handshake, first_frame, kernel, question, demo_conn, open_conn,
}
use openspoke.Server.Metrics.{new_metrics}

admit_iff_example :
    (admit hub_config (some (ok first_frame)) new_metrics
      ≡ (ok (demo_handshake, demo), new_metrics))
    ↔ IsAdmitted hub_config (some (ok first_frame)) demo_handshake demo
admit_iff_example = admit_iff hub_config new_metrics demo_handshake demo (some (ok first_frame))

handle_http_request-Reaches_example :
    Reaches hub_config
      (codes "app-demo")
      question
      (handle_http_request kernel hub_config 7 question demo_conn).1
handle_http_request-Reaches_example =
    handle_http_request-Reaches kernel hub_config 7 question demo_conn

on_data_lem_example :
    let sid : ℕ = 5 in
    let c' = on_data sid (1 ∷ []) open_conn in
    let known = contains_key sid open_conn.session.streams in
    (get sid c'.session.streams ≡ (
      if sid == sid
      then after_data (1 ∷ []) (get sid open_conn.session.streams)
      else get sid open_conn.session.streams))
    × (count (open_conn.session.spoke_id ∷ []) c'.metrics.bytes_recv
        ≡ (if known then received open_conn + 1 else received open_conn))
    × ((if known then open_conn else c') ≡ open_conn)
on_data_lem_example = on_data_lem 5 5 (1 ∷ []) open_conn

-- A connection before anything happened on it.
abbrev start : Live
start = record { conn = demo_conn; last_sid = 0 }

-- Two accepts, bytes both ways, and a close of the first stream by the spoke.
abbrev traffic : List Event
traffic =
    accepted
    ∷ other_sid
    ∷ accepted
    ∷ announced 1 (codes "default")
    ∷ announced 3 (codes "default")
    ∷ tcp_read 1 (read_ok (7 ∷ []))
    ∷ frame (record { stream_id = 1; kind = some (ClientKind.payload (8 ∷ [])) })
    ∷ frame (record {
      stream_id = 1;
      kind = some (ClientKind.close_stream (record { half = false; reason = [] }));
    })
    ∷ []

start-IsBalanced : IsBalanced (pos 0) start.last_sid start.conn
unfolding gauge get add_ℕ
start-IsBalanced = record { distinct = tt; below = tt; level = refl }

run-IsBalanced_example :
    IsBalanced
      (sub_ℕ (losses kernel hub_config demo traffic start) (pos 0))
      (run kernel hub_config demo traffic start).last_sid
      (run kernel hub_config demo traffic start).conn
run-IsBalanced_example =
    run-IsBalanced kernel hub_config demo (pos 0) traffic start (omega arith) start-IsBalanced

-- What the tasks of stream 3 still do.
abbrev last_reads : List Event
last_reads = tcp_read 3 (read_ok (7 ∷ [])) ∷ tcp_read 3 (read_ok []) ∷ []

-- A spoke connects, connects again, and the older session ends.
abbrev two_connections : List Move
two_connections =
    arrival 1 (codes "site") empty_channel
    ∷ turn 1
    ∷ arrival 2 (codes "site") empty_channel
    ∷ turn 2
    ∷ turn 2
    ∷ turn 2
    ∷ turn 1
    ∷ turn 1
    ∷ []

schedule-IsSound_example : IsSound (schedule two_connections new_hub)
schedule-IsSound_example = schedule-IsSound two_connections new_hub new_hub-IsSound

abbrev site_entry : Entry
site_entry = record { session = new_session (codes "site") empty_channel; phase = serving }

abbrev one_connection : Hub
one_connection = record {
  sessions = (codes "site", 1) ∷ [];
  store = (1, site_entry) ∷ [];
  connected = pos 1;
}

site_entered : get (codes "site") one_connection.sessions ≡ some 1
unfolding get list_beq
site_entered = refl

site_stored : get 1 one_connection.store ≡ some site_entry
unfolding get
site_stored = refl

site_fresh : get 2 one_connection.store ≡ none
unfolding get
site_fresh = refl

displacement-drift_example :
    let h' = schedule (reconnect (codes "site") 1 2 empty_channel) one_connection in
    (h'.sessions ≡ insert (codes "site") 2 one_connection.sessions)
    × (length h'.sessions ≡ length one_connection.sessions)
    × (h'.connected ≡ suc_ℤ (pos 1))
displacement-drift_example =
    displacement-drift one_connection 1 2 site_entry empty_channel site_entered site_stored refl
      site_fresh
