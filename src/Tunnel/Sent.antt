-- ===== src/Tunnel/Sent.antt =====
-- What tunnel-server sends to the spoke while things happen on a connection, as one stream of
-- tunnel-client sees it.
use openspoke.Common.{
  ℕ, ◌+◌, ◌^◌, ◌≤◌, ◌<◌, ◌≡◌, ◌≢◌, refl, sym, ap, ◌∙◌, Bool, true, Option, none, some, List, [],
  ◌∷◌, ◌++◌, arith, All, All-append, length, if◌then◌else◌, inl, inr, Bool-cases,
}
use mathlib.Core.List.{append_assoc, append-nil}
use openspoke.Common.Eq.{nat_eq, list_eq, ◌==◌}
use openspoke.Common.Dict.{get}
use openspoke.Common.Channel.{Channel, send, send-open, fed, fed-nil}
use openspoke.Common.Text.{Text}
use openspoke.Wire.{Bytes, ServerFrame, ClientKind}
use openspoke.Server.Config.{ServerConfig, SpokeConfig, is_cluster}
use openspoke.Server.Session.{SpokeSession, Conn, send_frame}
use openspoke.Server.Http.{HttpClient, handle_http_request, reply}
use openspoke.Server.Receive.{
  recv_step, on_kind, on_data, on_http_request, drop_stream, to_writer, count_recv,
}
use openspoke.Server.Stream.{
  Event, Live, frame, accepted, announced, tcp_read, write_failed, http_task, other_sid, TcpRead,
  read_ok, read_err, open_frame, data_frame, eof_frame, register_stream, announce, up_step,
  writer_failed, hang_up, step, run,
}
use openspoke.Server.Stream.Balance.{fetch_sid-lt, step-last_sid}
use openspoke.Client.Session.Feed.{data_of, data_in, FrameKeepsOpen}

-- The bytes that an event reads from the stream's connection, and that it is not that one's end.
abbrev pub reads_in : ℕ → Event → List Bytes
reads_in sid (tcp_read j (read_ok (b ∷ bs))) = if j == sid then (b ∷ bs) ∷ [] else []
reads_in sid _ = []

unfoldable pub reads_of : ℕ → List Event → List Bytes
reads_of sid [] = []
reads_of sid (e ∷ es) = reads_in sid e ++ reads_of sid es

abbrev pub GoesOn : ℕ → Event → Type 0
GoesOn sid (tcp_read j (read_ok [])) = j ≢ sid
GoesOn sid (announced j target) = j ≢ sid
GoesOn sid _ = Unit

pub data_of-append :
    (sid : ℕ) (xs ys : List ServerFrame) → data_of sid (xs ++ ys) ≡ data_of sid xs ++ data_of sid ys
unfolding data_of
data_of-append sid [] ys = refl
data_of-append sid (x ∷ xs) ys =
    ap (λ ps. data_in sid x.stream_id x.kind ++ ps) (data_of-append sid xs ys)
    ∙ sym (append_assoc (data_in sid x.stream_id x.kind) (data_of sid xs) (data_of sid ys))

-- From one state of the outbound channel to another: the frames between them, none of which opens
-- or closes the stream, and the bytes that they carry for it.
pub record Sends (sid : ℕ) (tx tx' : Channel ServerFrame) (ps : List Bytes) : Type 0 where
  pub frames : List ServerFrame
  pub sent : tx' ≡ fed tx frames
  pub keep : All (FrameKeepsOpen sid) frames
  pub carry : data_of sid frames ≡ ps

module _ (sid : ℕ) where
  Sends-nothing :
      (tx tx' : Channel ServerFrame) → tx.is_open ≡ true → tx' ≡ tx → Sends sid tx tx' []
  unfolding data_of
  Sends-nothing tx tx' o e = record {
    frames = [];
    sent = e ∙ fed-nil tx o;
    keep = tt;
    carry = refl;
  }

  Sends-fed :
      (f : ServerFrame) (tx : Channel ServerFrame)
      → FrameKeepsOpen sid f
      → Sends sid tx (fed tx (f ∷ [])) (data_in sid f.stream_id f.kind)
  unfolding data_of
  Sends-fed f tx k = record { frames = f ∷ []; sent = refl; keep = (k, tt); carry = append-nil _ }

  Sends-same :
      (tx tx' tx'' : Channel ServerFrame) (ps : List Bytes)
      → tx'' ≡ tx'
      → Sends sid tx tx' ps
      → Sends sid tx tx'' ps
  Sends-same tx tx' tx'' ps e a = record {
    frames = a.frames;
    sent = e ∙ a.sent;
    keep = a.keep;
    carry = a.carry;
  }

  Sends-one :
      (f : ServerFrame) (s : SpokeSession)
      → s.server_tx.is_open ≡ true
      → FrameKeepsOpen sid f
      → Sends sid s.server_tx (send_frame f s).0.server_tx (data_in sid f.stream_id f.kind)
  unfolding send_frame
  Sends-one f s o k =
      Sends-same _ _ _ _ (ap (λ (x : Channel ServerFrame × Bool). x.0) (send-open f s.server_tx o))
        (Sends-fed f s.server_tx k)

  Sends-then :
      (tx tx' tx'' : Channel ServerFrame) (ps qs : List Bytes)
      → Sends sid tx tx' ps
      → Sends sid tx' tx'' qs
      → Sends sid tx tx'' (ps ++ qs)
  Sends-then tx tx' tx'' ps qs a b = record {
    frames = a.frames ++ b.frames;
    sent =
        b.sent
        ∙ ap (λ x. fed x b.frames) a.sent
        ∙ ap (λ xs. record { sent = xs; is_open = true }) (append_assoc tx.sent a.frames b.frames);
    keep = All-append (FrameKeepsOpen sid) a.frames b.frames a.keep b.keep;
    carry = data_of-append sid a.frames b.frames ∙ rw (a.carry, b.carry) refl;
  }

pub drop_stream-tx :
    (sid : ℕ) (c : Conn) → (drop_stream sid c).session.server_tx ≡ c.session.server_tx
unfolding drop_stream
drop_stream-tx sid c = ground arith

pub to_writer-tx :
    (j : ℕ) (p : Bytes) (o : Option (Channel Bytes)) (c : Conn)
    → (to_writer j p o c).session.server_tx ≡ c.session.server_tx
to_writer-tx j p none c = refl
to_writer-tx j p (some w) c = elim (Bool-cases (send p w).1) [
  | inl t ↦ rw t
  | inr t ↦ rw t (drop_stream-tx j (count_recv (length p) c))
]

pub hang_up-tx :
    (j : ℕ) (o : Option (Channel Bytes)) (c : Conn)
    → (hang_up o j c).session.server_tx ≡ c.session.server_tx
hang_up-tx j none c = refl
hang_up-tx j (some w) c = refl

module _ (client : HttpClient) (cfg : ServerConfig) (sc : SpokeConfig) (sid : ℕ) where
  on_kind-Sends :
      (j : ℕ) (k : Option ClientKind) (c : Conn)
      → c.session.server_tx.is_open ≡ true
      → Sends sid c.session.server_tx (on_kind sc j k c).0.session.server_tx []
  unfolding on_data on_http_request
  on_kind-Sends j (some (ClientKind.payload p)) c o =
      Sends-nothing sid _ _ o (to_writer-tx j p (get j c.session.streams) c)
  on_kind-Sends j (some (ClientKind.close_stream x)) c o =
      Sends-nothing sid _ _ o (drop_stream-tx j c)
  on_kind-Sends j (some (ClientKind.http_request q)) c o = elim (Bool-cases (is_cluster sc.kind)) [
    | inl t ↦ rw t (unfold reply in Sends-one sid _ c.session o tt)
    | inr t ↦ rw t (Sends-nothing sid c.session.server_tx c.session.server_tx o refl)
  ]
  on_kind-Sends j (some (ClientKind.pong x)) c o = Sends-nothing sid _ _ o refl
  on_kind-Sends j (some (ClientKind.handshake x)) c o = Sends-nothing sid _ _ o refl
  on_kind-Sends j none c o = Sends-nothing sid _ _ o refl

  up_step-Sends :
      (j : ℕ) (r : TcpRead) (c : Conn)
      → c.session.server_tx.is_open ≡ true
      → GoesOn sid (tcp_read j r)
      → Sends sid c.session.server_tx
          (up_step j r c).session.server_tx
          (reads_in sid (tcp_read j r))
  unfolding up_step send_frame
  up_step-Sends j read_err c o h = Sends-nothing sid _ _ o (drop_stream-tx j c)
  up_step-Sends j (read_ok []) c o h =
      Sends-same sid _ _ _ _ (drop_stream-tx j _) (Sends-one sid (eof_frame j) c.session o h)
  up_step-Sends j (read_ok (b ∷ bs)) c o h =
      simp o (Sends-fed sid (data_frame j (b ∷ bs)) c.session.server_tx tt)

  announce-Sends :
      (j : ℕ) (target : Text) (c : Conn)
      → c.session.server_tx.is_open ≡ true
      → j ≢ sid
      → Sends sid c.session.server_tx (announce j target c).0.session.server_tx []
  unfolding announce send_frame
  announce-Sends j target c o h = simp o (Sends-fed sid (open_frame j target) c.session.server_tx h)

  step-Sends :
      (e : Event) (l : Live)
      → l.conn.session.server_tx.is_open ≡ true
      → GoesOn sid e
      → sid ≤ l.last_sid
      → l.last_sid + 1 < 2 ^ 64
      → Sends sid l.conn.session.server_tx
          (step client cfg sc e l).conn.session.server_tx
          (reads_in sid e)
  unfolding step register_stream recv_step writer_failed handle_http_request
  step-Sends (frame f) l o h le lt = on_kind-Sends f.stream_id f.kind l.conn o
  step-Sends accepted l o h le lt = Sends-nothing sid _ _ o refl
  step-Sends (announced j target) l o h le lt = announce-Sends j target l.conn o h
  step-Sends (tcp_read j r) l o h le lt = up_step-Sends j r l.conn o h
  step-Sends (write_failed j) l o h le lt =
      Sends-nothing sid _ _ o (hang_up-tx j (get j l.conn.session.streams) l.conn)
  step-Sends (http_task j req) l o h le lt = unfold reply in Sends-one sid _ l.conn.session o tt
  step-Sends other_sid l o h le lt = Sends-nothing sid _ _ o refl

  -- Ids are drawn upwards.
  pub step-le :
      (e : Event) (l : Live)
      → l.last_sid + 1 < 2 ^ 64
      → l.last_sid ≤ (step client cfg sc e l).last_sid
  unfolding step
  step-le accepted l lt = omega (arith, fetch_sid-lt l.last_sid lt)
  step-le other_sid l lt = omega (arith, fetch_sid-lt l.last_sid lt)
  step-le _ l lt = omega arith

  -- While the outbound channel is open and the stream's connection has not ended, what is read from
  -- it goes out in its data frames, in order, among frames that neither open nor close the stream.
  pub run-Sends :
      (es : List Event) (l : Live)
      → l.conn.session.server_tx.is_open ≡ true
      → All (GoesOn sid) es
      → sid ≤ l.last_sid
      → l.last_sid + length es < 2 ^ 64
      → Sends sid l.conn.session.server_tx
          (run client cfg sc es l).conn.session.server_tx
          (reads_of sid es)
  unfolding run reads_of
  run-Sends [] l o h le lt = Sends-nothing sid _ _ o refl
  run-Sends (e ∷ es) l o h le lt =
      let l' = step client cfg sc e l in
      let now = step-Sends e l o h.0 le (omega arith) in
      let still : l'.conn.session.server_tx.is_open ≡ true =
        ap (λ (x : Channel ServerFrame). x.is_open) now.sent in
      let rest =
        run-Sends es l' still h.1 (omega (arith, step-le e l))
          (omega (arith, step-last_sid client cfg sc e l)) in
      Sends-then sid _ _ _ _ _ now rest
