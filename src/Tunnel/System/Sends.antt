-- ===== src/Tunnel/System/Sends.antt =====
-- What the hub of a tunnel adds to its outbound channel: at most one frame at a time, and its
-- data frames only carry ids that the hub has given out.
use openspoke.Common.{
  List, ◌≡◌, ℕ, ◌≤◌, refl, sym, subst, inl, inr, Bool-cases, Option, none, some, [], ◌∷◌,
}
use openspoke.Common.Eq.{nat_eq, list_eq}
use openspoke.Common.Dict.{get}
use openspoke.Common.Channel.{send, Grows, Grows-send, Grows-same}
use openspoke.Common.Text.{Text}
use openspoke.Wire.{ServerFrame, ServerKind, ClientFrame, ClientKind}
use openspoke.Server.Config.{ServerConfig, SpokeConfig, is_cluster}
use openspoke.Server.Session.{Conn, send_frame}
use openspoke.Server.Http.{HttpClient, handle_http_request, reply}
use openspoke.Server.Receive.{recv_step, on_kind, on_data, on_http_request}
use openspoke.Server.Stream.{
  Event, Live, frame, accepted, announced, tcp_read, write_failed, http_task, other_sid, TcpRead,
  read_ok, read_err, eof_frame, announce, register_stream, unregister_stream, up_step,
  writer_failed, step,
}
use openspoke.Client.Session.Feed.{data_of}
use openspoke.Tunnel.Sent.{drop_stream-tx, to_writer-tx, hang_up-tx}
use openspoke.Tunnel.System.{AtHub}

-- A frame of the hub behind `log`: data for an id up to the counter, or the opening of one for which
-- nothing came.
abbrev pub KindWithin : ℕ → List ServerFrame → ℕ → Option ServerKind → Type 0
KindWithin last log j (some (ServerKind.payload p)) = j ≤ last
KindWithin last log j (some (ServerKind.open_stream o)) = (j ≤ last) × (data_of j log ≡ [])
KindWithin last log j (some (ServerKind.challenge c)) = Unit
KindWithin last log j (some (ServerKind.close_stream c)) = Unit
KindWithin last log j (some (ServerKind.ping t)) = Unit
KindWithin last log j (some (ServerKind.http_response r)) = Unit
KindWithin last log j none = Unit

abbrev pub IsWithin : ℕ → List ServerFrame → ServerFrame → Type 0
IsWithin last log f = KindWithin last log f.stream_id f.kind

module _ (last : ℕ) (log : List ServerFrame) where
  on_kind-Grows :
      (sc : SpokeConfig) (j : ℕ) (k : Option ClientKind) (c : Conn)
      → Grows (IsWithin last log) c.session.server_tx (on_kind sc j k c).0.session.server_tx
  unfolding on_data on_http_request reply send_frame
  on_kind-Grows sc j (some (ClientKind.payload p)) c =
      Grows-same _ _ _ (to_writer-tx j p (get j c.session.streams) c)
  on_kind-Grows sc j (some (ClientKind.close_stream x)) c = Grows-same _ _ _ (drop_stream-tx j c)
  on_kind-Grows sc j (some (ClientKind.http_request q)) c = elim (Bool-cases (is_cluster sc.kind)) [
    | inl t ↦ rw t (Grows-send (IsWithin last log) _ c.session.server_tx tt)
    | inr t ↦ rw t (inl refl)
  ]
  on_kind-Grows sc j (some (ClientKind.pong x)) c = inl refl
  on_kind-Grows sc j (some (ClientKind.handshake x)) c = inl refl
  on_kind-Grows sc j none c = inl refl

  up_step-Grows :
      (j : ℕ) (r : TcpRead) (c : Conn)
      → j ≤ last
      → Grows (IsWithin last log) c.session.server_tx (up_step j r c).session.server_tx
  unfolding up_step send_frame send
  up_step-Grows j read_err c le = Grows-same _ _ _ (drop_stream-tx j c)
  up_step-Grows j (read_ok []) c le =
      subst (Grows (IsWithin last log) c.session.server_tx) (sym (drop_stream-tx j _))
        (Grows-send (IsWithin last log) (eof_frame j) c.session.server_tx tt)
  up_step-Grows j (read_ok (b ∷ bs)) c le = elim (Bool-cases c.session.server_tx.is_open) [
    | inl t ↦ simp t (inr (_, le, refl))
    | inr t ↦ simp t (Grows-same _ _ _ (drop_stream-tx j _))
  ]

  announce-Grows :
      (j : ℕ) (target : Text) (c : Conn)
      → j ≤ last
      → data_of j log ≡ []
      → Grows (IsWithin last log) c.session.server_tx (announce j target c).0.session.server_tx
  unfolding announce send_frame unregister_stream send
  announce-Grows j target c le new = elim (Bool-cases c.session.server_tx.is_open) [
    | inl t ↦ simp t (inr (_, (le, new), refl))
    | inr t ↦ simp t (inl refl)
  ]

-- What happens at the hub by itself.
pub step-Grows :
    (client : HttpClient) (cfg : ServerConfig) (sc : SpokeConfig) (e : Event) (l : Live)
    → AtHub l.last_sid l.conn.session.server_tx.sent e
    → let tx = l.conn.session.server_tx in
      Grows (IsWithin l.last_sid tx.sent) tx (step client cfg sc e l).conn.session.server_tx
unfolding step register_stream writer_failed handle_http_request reply send_frame
step-Grows client cfg sc accepted l at = inl refl
step-Grows client cfg sc (announced sid target) l at =
    announce-Grows l.last_sid l.conn.session.server_tx.sent sid target l.conn at.0 at.1
step-Grows client cfg sc (tcp_read sid r) l at =
    up_step-Grows l.last_sid l.conn.session.server_tx.sent sid r l.conn at
step-Grows client cfg sc (write_failed sid) l at =
    Grows-same _ _ _ (hang_up-tx sid (get sid l.conn.session.streams) l.conn)
step-Grows client cfg sc (http_task sid req) l at =
    Grows-send (IsWithin l.last_sid l.conn.session.server_tx.sent) _ l.conn.session.server_tx tt
step-Grows client cfg sc other_sid l at = inl refl
step-Grows client cfg sc (frame f) l at = absurd at

-- A frame of the spoke, at the hub.
pub recv_step-Grows :
    (sc : SpokeConfig) (last : ℕ) (log : List ServerFrame) (f : ClientFrame) (c : Conn)
    → Grows (IsWithin last log) c.session.server_tx (recv_step sc f c).0.session.server_tx
unfolding recv_step
recv_step-Grows sc last log f c = on_kind-Grows last log sc f.stream_id f.kind c
