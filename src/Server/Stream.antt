-- ===== src/Server/Stream.antt =====
-- Virtual TCP streams in hub/images/tunnel-server/src/main.rs: the body of `accept_loop`, and the
-- two tasks that it spawns for a connection. Stream ids are `u64`.
pub mod Held
pub mod Balance
pub mod Identity
use openspoke.Common.{
  ℕ, suc, ◌+◌, ◌%◌, ◌^◌, Bool, true, false, Option, none, some, List, [], ◌∷◌, ◌++◌, if◌then◌else◌,
  length,
}
use openspoke.Common.Eq.{list_eq, nat_eq}
use openspoke.Common.Dict.{Dict, get, insert, remove}
use openspoke.Common.Channel.{Channel, empty_channel}
use openspoke.Common.Text.{Text, codes}
use openspoke.Wire.{Bytes, ServerFrame, ServerKind, ClientFrame, HttpRequest}
use openspoke.Server.Config.{ServerConfig, SpokeConfig}
use openspoke.Server.Metrics.{Metrics, inc_by, gauge_inc, gauge_dec}
use openspoke.Server.Session.{SpokeSession, Conn, send_frame}
use openspoke.Server.Http.{HttpClient, handle_http_request}
use openspoke.Server.Receive.{drop_stream, with_streams, recv_step}

-- `next_sid.fetch_add(1, SeqCst) + 1`; the counter holds the id that was given last.
unfoldable pub fetch_sid : ℕ → ℕ
fetch_sid last = (last + 1) % 2 ^ 64

abbrev pub open_frame : ℕ → Text → ServerFrame
open_frame sid target = record {
  stream_id = sid;
  kind = some (ServerKind.open_stream (record { protocol = codes "tcp"; target = target }));
}

-- The registration of a new stream: the writer's channel and the gauge.
unfoldable pub register_stream : ℕ → Conn → Conn
register_stream sid c = record {
  session = record c.session { streams = insert sid empty_channel c.session.streams };
  metrics = record c.metrics {
    streams_open = gauge_inc (c.session.spoke_id ∷ []) c.metrics.streams_open;
  };
}

-- The roll-back after a failed send lowers the gauge without a look at the map.
unfoldable pub unregister_stream : ℕ → Conn → Conn
unregister_stream sid c = record {
  session = record c.session { streams = remove sid c.session.streams };
  metrics = record c.metrics {
    streams_open = gauge_dec (c.session.spoke_id ∷ []) c.metrics.streams_open;
  };
}

-- The open frame, once it is queued or the queue is gone; `true` where the two tasks are spawned. The
-- send waits for room, and anything may happen between the registration and its end.
unfoldable pub announce : ℕ → Text → Conn → Conn × Bool
unfolding unregister_stream send_frame
announce sid target c =
    let (s, sent) = send_frame (open_frame sid target) c.session in
    if sent
    then (record c { session = s }, true)
    else (unregister_stream sid (record c { session = s }), false)

-- What a read of the TCP connection gives: bytes, none at its end, or an error.
pub data TcpRead : Type 0 where
  read_ok : Bytes → TcpRead
  read_err : TcpRead

abbrev pub data_frame : ℕ → Bytes → ServerFrame
data_frame sid p = record { stream_id = sid; kind = some (ServerKind.payload p) }

abbrev pub eof_frame : ℕ → ServerFrame
eof_frame sid = record {
  stream_id = sid;
  kind = some (ServerKind.close_stream (record { half = true; reason = codes "eof" }));
}

abbrev pub count_sent : ℕ → Conn → Conn
count_sent n c = record c {
  metrics = record c.metrics {
    bytes_sent = inc_by (c.session.spoke_id ∷ []) n c.metrics.bytes_sent;
  };
}

-- One round of the upstream task; after its last round the writer's channel is dropped.
unfoldable pub up_step : ℕ → TcpRead → Conn → Conn
unfolding send_frame drop_stream
up_step sid read_err c = drop_stream sid c
up_step sid (read_ok []) c =
    drop_stream sid (record c { session = (send_frame (eof_frame sid) c.session).0 })
up_step sid (read_ok (b ∷ bs)) c =
    let c' = count_sent (length (b ∷ bs)) c in
    let (s, sent) = send_frame (data_frame sid (b ∷ bs)) c'.session in
    if sent then record c' { session = s } else drop_stream sid (record c' { session = s })

abbrev pub hang_up : Option (Channel Bytes) → ℕ → Conn → Conn
hang_up none sid c = c
hang_up (some w) sid c =
    with_streams (insert sid (record w { is_open = false }) c.session.streams) c

-- The downstream task ends after a failed write: its receiver is gone, and the map keeps the
-- sender until the next frame or the upstream task removes it.
unfoldable pub writer_failed : ℕ → Conn → Conn
writer_failed sid c = hang_up (get sid c.session.streams) sid c

-- What happens on a connection, in the order in which it happens. A TCP connection is `accepted`, and
-- registered under the next id; later the send of its open frame ends, and it is `announced`.
pub data Event : Type 0 where
  frame : ClientFrame → Event
  accepted : Event
  announced : ℕ → Text → Event
  tcp_read : ℕ → TcpRead → Event
  write_failed : ℕ → Event
  http_task : ℕ → HttpRequest → Event
  other_sid : Event

pub record Live : Type 0 where
  pub conn : Conn
  pub last_sid : ℕ

-- `other_sid` is an accept on another session, which draws from the same counter.
unfoldable pub step : HttpClient → ServerConfig → SpokeConfig → Event → Live → Live
unfolding register_stream announce up_step writer_failed recv_step handle_http_request fetch_sid
step client cfg sc (frame f) l = record l { conn = (recv_step sc f l.conn).0 }
step client cfg sc accepted l = record {
  conn = register_stream (fetch_sid l.last_sid) l.conn;
  last_sid = fetch_sid l.last_sid;
}
step client cfg sc (announced sid target) l = record l { conn = (announce sid target l.conn).0 }
step client cfg sc (tcp_read sid r) l = record l { conn = up_step sid r l.conn }
step client cfg sc (write_failed sid) l = record l { conn = writer_failed sid l.conn }
step client cfg sc (http_task sid req) l = record l {
  conn = (handle_http_request client cfg sid req l.conn).0;
}
step client cfg sc other_sid l = record l { last_sid = fetch_sid l.last_sid }

unfoldable pub run : HttpClient → ServerConfig → SpokeConfig → List Event → Live → Live
run client cfg sc [] l = l
run client cfg sc (e ∷ es) l = run client cfg sc es (step client cfg sc e l)
