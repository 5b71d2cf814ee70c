-- ===== src/Server/Program.antt =====
-- `main` and `Tunnel::connect` of hub/images/tunnel-server/src/main.rs: the start, and the calls that
-- the server takes one after the other. What is refused by the operating system or by a library is
-- a parameter. That the metrics endpoint cannot be bound is only logged.
pub mod Settle
pub mod Touches
use openspoke.Common.{ℕ, ◌+◌, Option, List, [], ◌∷◌, Result, ok, err, ◌>>=◌}
use openspoke.Common.Channel.{Channel}
use openspoke.Common.Text.{Text}
use openspoke.Wire.{Bytes, ServerFrame, ClientFrame}
use openspoke.Server.Config.{ServerConfig, SocketAddr, Env, load_config}
use openspoke.Server.Metrics.{Metrics, new_metrics}
use openspoke.Server.Handshake.{connect}
use openspoke.Server.Http.{HttpClient}
use openspoke.Server.Stream.{Event}
use openspoke.Server.Registry.{Hub, new_hub}
use openspoke.Server.Connection.{Finished, handle_connection}

-- What the calls share. `next_ref` is the reference of the next session: each is a new object.
pub record TunnelSvc : Type 0 where
  pub hub : Hub
  pub metrics : Metrics
  pub last_sid : ℕ
  pub next_ref : ℕ

abbrev pub new_service : TunnelSvc
new_service = record { hub = new_hub; metrics = new_metrics; last_sid = 0; next_ref = 0 }

-- A call of `connect`: the nonce and the time of its challenge, its response stream, the first item
-- of the client's stream, and what happens from the entry into the table to the stream's end.
pub record Call : Type 0 where
  pub nonce : Bytes
  pub issued_at : ℕ
  pub response : Channel ServerFrame
  pub first : Option (Result Text ClientFrame)
  pub events : List Event

abbrev pub settled : Finished → ℕ → TunnelSvc
settled f r = record { hub = f.hub; metrics = f.metrics; last_sid = f.last_sid; next_ref = r + 1 }

-- The task that is spawned after the challenge; its result is only logged.
abbrev pub spawned :
    HttpClient
    → ServerConfig
    → (ℕ → Option Text)
    → Call
    → Result Text (Channel ServerFrame) × Metrics
    → TunnelSvc
    → TunnelSvc
spawned client cfg bind c (err e, m) s = record s { metrics = m }
spawned client cfg bind c (ok tx, m) s =
    settled (handle_connection client cfg bind s.next_ref tx c.first c.events s.last_sid s.hub m)
      s.next_ref

-- One call whose task ends before the next call.
unfoldable pub serve_call :
    HttpClient → ServerConfig → (ℕ → Option Text) → Call → TunnelSvc → TunnelSvc
unfolding connect handle_connection
serve_call client cfg bind c s =
    spawned client cfg bind c (connect c.nonce c.issued_at c.response s.metrics) s

unfoldable pub serve_calls :
    HttpClient → ServerConfig → (ℕ → Option Text) → List Call → TunnelSvc → TunnelSvc
serve_calls client cfg bind [] s = s
serve_calls client cfg bind (c ∷ cs) s =
    serve_calls client cfg bind cs (serve_call client cfg bind c s)

-- What the start meets: the parser of addresses, the HTTP client's builder, and the bind of the
-- gRPC server; and the binds of the spokes' ports.
pub record System : Type 0 where
  pub parse_addr : Text → Result Text SocketAddr
  pub build_client : Result Text HttpClient
  pub serve : SocketAddr → Result Text (Unit {0})
  pub bind : ℕ → Option Text

unfoldable pub main : System → Env → List Call → Result Text TunnelSvc
unfolding load_config serve_calls
main sys env cs = do
  cfg ← load_config sys.parse_addr env
  client ← sys.build_client
  bound ← sys.serve cfg.grpc_listen
  ok (serve_calls client cfg sys.bind cs new_service)
