-- ===== src/Server/Program/Touches.antt =====
-- The label values under which the calls of tunnel-server touch its metrics.
use openspoke.Common.{
  ℕ, ◌≡◌, refl, Bool-cases, inl, inr, Option, none, some, List, [], ◌∷◌, Result, ok, err,
}
use openspoke.Common.Eq.{list_eq, nat_eq, list_beq}
use openspoke.Common.Dict.{get}
use openspoke.Common.Channel.{Channel, send}
use openspoke.Common.Text.{Text, codes, as_bytes}
use openspoke.Wire.{Bytes, ServerFrame, ClientFrame, ClientKind, HandshakeResponse}
use openspoke.Server.Config.{ServerConfig, SpokeConfig, Env, load_config}
use openspoke.Server.Metrics.{Metrics}
use openspoke.Server.Handshake.{connect, Admission, admit, authenticate, check_token, of_kind}
use openspoke.Server.Http.{HttpClient, http_outcome, handle_http_request}
use openspoke.Server.Receive.{recv_step}
use openspoke.Server.Stream.{
  Event, Live, frame, accepted, announced, tcp_read, write_failed, http_task, other_sid, fetch_sid,
  writer_failed, step, run,
}
use openspoke.Server.Registry.{Hub}
use openspoke.Server.Connection.{fresh_live, enter, attend, admitted, handle_connection}
use openspoke.Server.Listen.{bind_ports}
use openspoke.Server.Program.{
  TunnelSvc, new_service, Call, spawned, serve_call, serve_calls, System, main,
}
use openspoke.Server.Metrics.Labels.{
  IsLabelled, reply-IsLabelled, on_kind-IsLabelled, register_stream-IsLabelled, announce-IsLabelled,
  up_step-IsLabelled, hang_up-IsLabelled, count_failure-IsLabelled,
}

step-IsLabelled :
    (client : HttpClient) (cfg : ServerConfig) (sc : SpokeConfig) (e : Event) (l : Live)
    → IsLabelled l.conn.metrics
    → IsLabelled (step client cfg sc e l).conn.metrics
unfolding step recv_step writer_failed handle_http_request
step-IsLabelled client cfg sc (frame f) l h = on_kind-IsLabelled sc f.stream_id f.kind l.conn h
step-IsLabelled client cfg sc accepted l h =
    register_stream-IsLabelled (fetch_sid l.last_sid) l.conn h
step-IsLabelled client cfg sc (announced sid target) l h = announce-IsLabelled sid target l.conn h
step-IsLabelled client cfg sc (tcp_read sid r) l h = up_step-IsLabelled sid r l.conn h
step-IsLabelled client cfg sc (write_failed sid) l h =
    hang_up-IsLabelled sid (get sid l.conn.session.streams) l.conn h
step-IsLabelled client cfg sc (http_task sid req) l h =
    let (outcome, made) = http_outcome client cfg l.conn.session.spoke_id req in
    reply-IsLabelled sid outcome.0 outcome.1 l.conn h
step-IsLabelled client cfg sc other_sid l h = h

run-IsLabelled :
    (client : HttpClient) (cfg : ServerConfig) (sc : SpokeConfig) (es : List Event) (l : Live)
    → IsLabelled l.conn.metrics
    → IsLabelled (run client cfg sc es l).conn.metrics
unfolding run
run-IsLabelled client cfg sc [] l h = h
run-IsLabelled client cfg sc (e ∷ es) l h =
    run-IsLabelled client cfg sc es (step client cfg sc e l) (step-IsLabelled client cfg sc e l h)

check_token-IsLabelled :
    (hs : HandshakeResponse) (m : Metrics) (o : Option SpokeConfig)
    → IsLabelled m
    → IsLabelled (check_token hs m o).1
check_token-IsLabelled hs m none h = count_failure-IsLabelled (codes "unknown_spoke") m h
check_token-IsLabelled hs m (some sc) h =
    elim (Bool-cases (list_beq hs.signature (as_bytes sc.token))) [
      | inl t ↦ rw t h
      | inr t ↦ rw t (count_failure-IsLabelled (codes "bad_token") m h)
    ]

of_kind-IsLabelled :
    (cfg : ServerConfig) (k : Option ClientKind) (m : Metrics)
    → IsLabelled m
    → IsLabelled (of_kind cfg k m).1
unfolding authenticate
of_kind-IsLabelled cfg (some (ClientKind.handshake hs)) m h =
    check_token-IsLabelled hs m (get hs.spoke_id cfg.spokes) h
of_kind-IsLabelled cfg _ m h = count_failure-IsLabelled (codes "no_handshake") m h

admit-IsLabelled :
    (cfg : ServerConfig) (first : Option (Result Text ClientFrame)) (m : Metrics)
    → IsLabelled m
    → IsLabelled (admit cfg first m).1
unfolding admit
admit-IsLabelled cfg none m h = count_failure-IsLabelled (codes "recv_first") m h
admit-IsLabelled cfg (some (err e)) m h = count_failure-IsLabelled (codes "recv_first") m h
admit-IsLabelled cfg (some (ok f)) m h = of_kind-IsLabelled cfg f.kind m h

connect-IsLabelled :
    (nonce : Bytes) (issued_at : ℕ) (tx : Channel ServerFrame) (m : Metrics)
    → IsLabelled m
    → IsLabelled (connect nonce issued_at tx m).1
unfolding connect send
connect-IsLabelled nonce issued_at tx m h = elim (Bool-cases tx.is_open) [
  | inl t ↦ simp t h
  | inr t ↦ simp t (count_failure-IsLabelled (codes "send_challenge") m h)
]

attend-IsLabelled :
    (r : ℕ) (o : Option Text) (l l' : Live) (hub : Hub)
    → IsLabelled l.conn.metrics
    → IsLabelled l'.conn.metrics
    → IsLabelled (attend r o l l' hub).metrics
attend-IsLabelled r none l l' hub h h' = h'
attend-IsLabelled r (some e) l l' hub h h' = h

module _ (client : HttpClient) (cfg : ServerConfig) (bind : ℕ → Option Text) where
  admitted-IsLabelled :
      (r : ℕ) (tx : Channel ServerFrame) (es : List Event) (last : ℕ) (hub : Hub) (a : Admission)
      → IsLabelled a.1
      → IsLabelled (admitted client cfg bind r tx es last hub a).metrics
  admitted-IsLabelled r tx es last hub (err e, m) h = h
  admitted-IsLabelled r tx es last hub (ok (hs, sc), m) h =
      let start = fresh_live hs.spoke_id tx m last in
      attend-IsLabelled r (bind_ports bind sc.ports).1 start (run client cfg sc es start)
        (enter r hs.spoke_id tx hub) h (run-IsLabelled client cfg sc es start h)

  spawned-IsLabelled :
      (c : Call) (r : Result Text (Channel ServerFrame) × Metrics) (s : TunnelSvc)
      → IsLabelled r.1
      → IsLabelled (spawned client cfg bind c r s).metrics
  unfolding handle_connection
  spawned-IsLabelled c (err e, m) s h = h
  spawned-IsLabelled c (ok tx, m) s h =
      admitted-IsLabelled s.next_ref tx c.events s.last_sid s.hub (admit cfg c.first m)
        (admit-IsLabelled cfg c.first m h)

  serve_calls-IsLabelled :
      (cs : List Call) (s : TunnelSvc)
      → IsLabelled s.metrics
      → IsLabelled (serve_calls client cfg bind cs s).metrics
  unfolding serve_calls serve_call
  serve_calls-IsLabelled [] s h = h
  serve_calls-IsLabelled (c ∷ cs) s h = serve_calls-IsLabelled cs (serve_call client cfg bind c s) (
      spawned-IsLabelled c (connect c.nonce c.issued_at c.response s.metrics) s
        (connect-IsLabelled c.nonce c.issued_at c.response s.metrics h))

-- Where the configuration loads, the HTTP client can be built and the address of the server can be
-- bound, the server starts; and after any number of calls whose tasks do not overlap, whatever is
-- sent in them, and whichever ports can be opened, every metric was only touched under as many label
-- values as it is registered with names of labels.
pub server_main-IsLabelled :
    (sys : System) (env : Env) (cfg : ServerConfig) (client : HttpClient) (cs : List Call)
    → load_config sys.parse_addr env ≡ ok cfg
    → sys.build_client ≡ ok client
    → sys.serve cfg.grpc_listen ≡ ok tt
    → let s = serve_calls client cfg sys.bind cs new_service in
      (main sys env cs ≡ ok s) × IsLabelled s.metrics
unfolding main
server_main-IsLabelled sys env cfg client cs loaded built bound = (
  rw (loaded, built, bound) refl,
  serve_calls-IsLabelled client cfg sys.bind cs new_service (tt, tt, tt, tt, tt),
)
