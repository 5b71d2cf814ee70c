-- ===== src/Server/Receive.antt =====
-- `recv_loop` of hub/images/tunnel-server/src/main.rs. A step takes one frame; the HTTP requests
-- that it hands to tasks of their own are its second result.
pub mod Route
pub mod Feed
use openspoke.Common.{
  ℕ, Bool, true, false, Option, none, some, List, [], ◌∷◌, ◌++◌, if◌then◌else◌, Result, ok, err,
  length, ◌+◌,
}
use openspoke.Common.Eq.{list_eq, nat_eq}
use openspoke.Common.Dict.{Dict, get, insert, remove, contains_key}
use openspoke.Common.Channel.{Channel, send}
use openspoke.Common.Int.{pos}
use openspoke.Common.Text.{Text, codes, as_bytes}
use openspoke.Wire.{Bytes, ClientFrame, ClientKind, HttpRequest, HttpResponse}
use openspoke.Server.Config.{SpokeConfig, SpokeKind, is_cluster}
use openspoke.Server.Metrics.{Metrics, inc_by, gauge_dec}
use openspoke.Server.Session.{SpokeSession, Conn, send_frame}
use openspoke.Server.Http.{reply}

abbrev pub with_streams : Dict ℕ (Channel Bytes) → Conn → Conn
with_streams m c = record c { session = record c.session { streams = m } }

-- `streams.remove(&sid)`, with the gauge lowered if there was one.
unfoldable pub drop_stream : ℕ → Conn → Conn
drop_stream sid c =
    if contains_key sid c.session.streams
    then record {
      session = record c.session { streams = remove sid c.session.streams };
      metrics = record c.metrics {
        streams_open = gauge_dec (c.session.spoke_id ∷ []) c.metrics.streams_open;
      };
    }
    else c

abbrev pub count_recv : ℕ → Conn → Conn
count_recv n c = record c {
  metrics = record c.metrics {
    bytes_recv = inc_by (c.session.spoke_id ∷ []) n c.metrics.bytes_recv;
  };
}

-- The send to the writer, whose channel may have closed.
abbrev pub deliver : ℕ → Channel Bytes → Bool → Conn → Conn
deliver sid w true c = with_streams (insert sid w c.session.streams) c
deliver sid w false c = drop_stream sid c

abbrev pub to_writer : ℕ → Bytes → Option (Channel Bytes) → Conn → Conn
to_writer sid p none c = c
to_writer sid p (some w) c = deliver sid (send p w).0 (send p w).1 (count_recv (length p) c)

unfoldable pub on_data : ℕ → Bytes → Conn → Conn
unfolding send
on_data sid p c = to_writer sid p (get sid c.session.streams) c

abbrev pub rejected_kind : HttpResponse
rejected_kind = record {
  status = pos 403;
  headers = [];
  body = as_bytes (codes "application spoke required");
  error = codes "rejected_kind";
}

abbrev pub Step : Type 0
Step = Conn × List (ℕ × HttpRequest)

unfoldable pub on_http_request : SpokeKind → ℕ → HttpRequest → Conn → Step
unfolding reply
on_http_request kind sid req c =
    if is_cluster kind
    then (reply sid (codes "rejected_kind") rejected_kind c, [])
    else (c, (sid, req) ∷ [])

abbrev pub on_kind : SpokeConfig → ℕ → Option ClientKind → Conn → Step
on_kind sc sid (some (ClientKind.payload p)) c = (on_data sid p c, [])
on_kind sc sid (some (ClientKind.close_stream x)) c = (drop_stream sid c, [])
on_kind sc sid (some (ClientKind.pong x)) c = (c, [])
on_kind sc sid (some (ClientKind.http_request req)) c = on_http_request sc.kind sid req c
on_kind sc sid (some (ClientKind.handshake hs)) c = (c, [])
on_kind sc sid none c = (c, [])

unfoldable pub recv_step : SpokeConfig → ClientFrame → Conn → Step
recv_step sc f c = on_kind sc f.stream_id f.kind c

-- The loop over what the client's stream delivers: it ends with the stream, or with its first
-- error, and in both cases without an error of its own.
unfoldable pub recv_loop : SpokeConfig → List (Result Text ClientFrame) → Conn → Step
recv_loop sc [] c = (c, [])
recv_loop sc (err e ∷ fs) c = (c, [])
recv_loop sc (ok f ∷ fs) c =
    let (c', spawned) = recv_step sc f c in
    let (c'', more) = recv_loop sc fs c' in (c'', spawned ++ more)
