-- ===== src/Server/Session.antt =====
-- `SpokeSession` of hub/images/tunnel-server/src/main.rs, and a connection's view of the shared
-- state: its session and the metrics.
use openspoke.Common.{ℕ, Bool, true, false, []}
use openspoke.Common.Dict.{Dict}
use openspoke.Common.Channel.{Channel, send}
use openspoke.Common.Text.{Text}
use openspoke.Wire.{Bytes, ServerFrame}
use openspoke.Server.Metrics.{Metrics}

-- `streams` maps a stream's id to the channel of the task that writes to its TCP connection.
pub record SpokeSession : Type 0 where
  pub spoke_id : Text
  pub server_tx : Channel ServerFrame
  pub streams : Dict ℕ (Channel Bytes)
  pub closed : Bool

abbrev pub new_session : Text → Channel ServerFrame → SpokeSession
new_session id tx = record { spoke_id = id; server_tx = tx; streams = []; closed = false }

-- `SpokeSession::send`.
unfoldable pub send_frame : ServerFrame → SpokeSession → SpokeSession × Bool
unfolding send
send_frame f s = let (tx, done) = send f s.server_tx in (record s { server_tx = tx }, done)

-- `SpokeSession::close`.
unfoldable pub close : SpokeSession → SpokeSession
close s = record s { closed = true; streams = [] }

pub record Conn : Type 0 where
  pub session : SpokeSession
  pub metrics : Metrics
