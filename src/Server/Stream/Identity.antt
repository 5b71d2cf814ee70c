-- ===== src/Server/Stream/Identity.antt =====
-- A session keeps its spoke's id, whatever happens on its connection.
use openspoke.Common.{
  ℕ, ◌≡◌, refl, ◌∙◌, Option, none, some, List, [], ◌∷◌, Bool-cases, inl, inr, true, false, Bool,
}
use openspoke.Common.Eq.{nat_eq}
use openspoke.Common.Dict.{get, contains_key}
use openspoke.Common.Channel.{Channel, send}
use openspoke.Common.Text.{Text}
use openspoke.Wire.{Bytes, ClientFrame, ClientKind}
use openspoke.Server.Config.{ServerConfig, SpokeConfig, is_cluster}
use openspoke.Server.Session.{Conn, send_frame}
use openspoke.Server.Http.{HttpClient, handle_http_request}
use openspoke.Server.Receive.{
  drop_stream, deliver, on_data, to_writer, recv_step, on_kind, on_http_request,
}
use openspoke.Server.Stream.{
  announce, register_stream, TcpRead, read_ok, read_err, up_step, writer_failed, hang_up, Event,
  Live, step, run, frame, accepted, announced, tcp_read, write_failed, http_task, other_sid,
}

abbrev Keeps : Conn → Conn → Type 0
Keeps c c' = c'.session.spoke_id ≡ c.session.spoke_id

drop_stream-spoke_id : (sid : ℕ) (c : Conn) → Keeps c (drop_stream sid c)
unfolding drop_stream
drop_stream-spoke_id sid c = elim (Bool-cases (contains_key sid c.session.streams)) [
  | inl t ↦ rw t refl
  | inr t ↦ rw t refl
]

deliver-spoke_id :
    (sid : ℕ) (w : Channel Bytes) (sent : Bool) (c : Conn) → Keeps c (deliver sid w sent c)
deliver-spoke_id sid w true c = refl
deliver-spoke_id sid w false c = drop_stream-spoke_id sid c

to_writer-spoke_id :
    (sid : ℕ) (p : Bytes) (o : Option (Channel Bytes)) (c : Conn) → Keeps c (to_writer sid p o c)
to_writer-spoke_id sid p none c = refl
to_writer-spoke_id sid p (some w) c = deliver-spoke_id sid (send p w).0 (send p w).1 _

recv_step-spoke_id : (sc : SpokeConfig) (f : ClientFrame) (c : Conn) → Keeps c (recv_step sc f c).0
unfolding recv_step on_data on_http_request send_frame
recv_step-spoke_id sc f c = by_kind f.kind
  where
    by_kind : (k : Option ClientKind) → Keeps c (on_kind sc f.stream_id k c).0
    by_kind (some (ClientKind.payload p)) =
        to_writer-spoke_id f.stream_id p (get f.stream_id c.session.streams) c
    by_kind (some (ClientKind.close_stream x)) = drop_stream-spoke_id f.stream_id c
    by_kind (some (ClientKind.http_request req)) = elim (Bool-cases (is_cluster sc.kind)) [
      | inl t ↦ rw t refl
      | inr t ↦ rw t refl
    ]
    by_kind (some (ClientKind.pong x)) = refl
    by_kind (some (ClientKind.handshake hs)) = refl
    by_kind none = refl

up_step-spoke_id : (sid : ℕ) (r : TcpRead) (c : Conn) → Keeps c (up_step sid r c)
unfolding up_step send_frame
up_step-spoke_id sid read_err c = drop_stream-spoke_id sid c
up_step-spoke_id sid (read_ok []) c = drop_stream-spoke_id sid _
up_step-spoke_id sid (read_ok (b ∷ bs)) c = elim (Bool-cases c.session.server_tx.is_open) [
  | inl t ↦ rw t refl
  | inr t ↦ simp t (drop_stream-spoke_id sid _)
]

announce-spoke_id : (sid : ℕ) (target : Text) (c : Conn) → Keeps c (announce sid target c).0
unfolding announce send_frame
announce-spoke_id sid target c = elim (Bool-cases c.session.server_tx.is_open) [
  | inl t ↦ rw t refl
  | inr t ↦ rw t refl
]

hang_up-spoke_id : (sid : ℕ) (o : Option (Channel Bytes)) (c : Conn) → Keeps c (hang_up o sid c)
hang_up-spoke_id sid none c = refl
hang_up-spoke_id sid (some w) c = refl

module _ (client : HttpClient) (cfg : ServerConfig) (sc : SpokeConfig) where
  step-spoke_id : (e : Event) (l : Live) → Keeps l.conn (step client cfg sc e l).conn
  unfolding step register_stream writer_failed handle_http_request send_frame
  step-spoke_id (frame f) l = recv_step-spoke_id sc f l.conn
  step-spoke_id accepted l = refl
  step-spoke_id (announced sid target) l = announce-spoke_id sid target l.conn
  step-spoke_id (tcp_read sid r) l = up_step-spoke_id sid r l.conn
  step-spoke_id (write_failed sid) l = hang_up-spoke_id sid (get sid l.conn.session.streams) l.conn
  step-spoke_id (http_task sid req) l = refl
  step-spoke_id other_sid l = refl

  pub run-spoke_id : (es : List Event) (l : Live) → Keeps l.conn (run client cfg sc es l).conn
  unfolding run
  run-spoke_id [] l = refl
  run-spoke_id (e ∷ es) l = run-spoke_id es (step client cfg sc e l) ∙ step-spoke_id e l
