-- ===== src/Server/Stream/Balance.antt =====
-- The gauge of open streams against the streams that are open.
use openspoke.Common.{
  if◌then◌else◌, ℕ, ◌+◌, ◌^◌, ◌≤◌, ◌<◌, ◌≡◌, refl, Option, none, some, List, [], ◌∷◌, length, arith,
  Bool-cases, Option-cases, inl, inr,
}
use openspoke.Common.Eq.{list_eq, nat_eq}
use openspoke.Common.Dict.{get, contains_key, remove_missing}
use openspoke.Common.Int.{ℤ, sub_ℕ, sub_ℕ-add}
use openspoke.Common.Channel.{Channel, send, empty_channel}
use openspoke.Common.Text.{Text}
use openspoke.Wire.{Bytes, ClientFrame, ClientKind}
use openspoke.Server.Config.{ServerConfig, SpokeConfig, is_cluster}
use openspoke.Server.Session.{Conn, send_frame, close}
use openspoke.Server.Http.{HttpClient, handle_http_request}
use openspoke.Server.Receive.{
  drop_stream, on_data, to_writer, recv_step, on_kind, on_http_request, count_recv,
}
use openspoke.Server.Stream.{
  fetch_sid, register_stream, unregister_stream, announce, TcpRead, read_ok, read_err, up_step,
  writer_failed, hang_up, Event, Live, step, run, frame, accepted, announced, tcp_read,
  write_failed, http_task, other_sid, count_sent,
}
use openspoke.Server.Stream.Held.{
  IsHeld, insert_old-IsHeld, insert_new-IsHeld, remove-IsHeld, later-IsHeld, lost-IsHeld,
}

abbrev pub IsBalanced : ℤ → ℕ → Conn → Type 0
IsBalanced base last c =
    IsHeld base last c.session.spoke_id c.session.streams c.metrics.streams_open

module _ (base : ℤ) (last : ℕ) where
  drop_stream-IsBalanced :
      (sid : ℕ) (c : Conn) → IsBalanced base last c → IsBalanced base last (drop_stream sid c)
  unfolding drop_stream contains_key
  drop_stream-IsBalanced sid c h = elim (Option-cases (get sid c.session.streams)) [
    | inl e ↦ rw (e, contains_key) h
    | inr (w, e) ↦ rw (e, contains_key) (remove-IsHeld h sid w e)
  ]

  to_writer-IsBalanced :
      (sid : ℕ) (p : Bytes) (o : Option (Channel Bytes)) (c : Conn)
      → get sid c.session.streams ≡ o
      → IsBalanced base last c
      → IsBalanced base last (to_writer sid p o c)
  unfolding send
  to_writer-IsBalanced sid p none c e h = h
  to_writer-IsBalanced sid p (some w) c e h = elim (Bool-cases w.is_open) [
    | inl t ↦ rw t (insert_old-IsHeld h sid _ w e)
    | inr t ↦ rw t (drop_stream-IsBalanced sid (count_recv (length p) c) h)
  ]

  on_kind-IsBalanced :
      (sc : SpokeConfig) (sid : ℕ) (k : Option ClientKind) (c : Conn)
      → IsBalanced base last c
      → IsBalanced base last (on_kind sc sid k c).0
  unfolding on_data on_http_request send_frame
  on_kind-IsBalanced sc sid (some (ClientKind.payload p)) c h =
      to_writer-IsBalanced sid p (get sid c.session.streams) c refl h
  on_kind-IsBalanced sc sid (some (ClientKind.close_stream x)) c h = drop_stream-IsBalanced sid c h
  on_kind-IsBalanced sc sid (some (ClientKind.http_request req)) c h =
      elim (Bool-cases (is_cluster sc.kind)) [ inl t ↦ rw t h | inr t ↦ rw t h ]
  on_kind-IsBalanced sc sid (some (ClientKind.pong x)) c h = h
  on_kind-IsBalanced sc sid (some (ClientKind.handshake hs)) c h = h
  on_kind-IsBalanced sc sid none c h = h

  recv_step-IsBalanced :
      (sc : SpokeConfig) (f : ClientFrame) (c : Conn)
      → IsBalanced base last c
      → IsBalanced base last (recv_step sc f c).0
  unfolding recv_step
  recv_step-IsBalanced sc f c h = on_kind-IsBalanced sc f.stream_id f.kind c h

  up_step-IsBalanced :
      (sid : ℕ) (r : TcpRead) (c : Conn)
      → IsBalanced base last c
      → IsBalanced base last (up_step sid r c)
  unfolding up_step send_frame
  up_step-IsBalanced sid read_err c h = drop_stream-IsBalanced sid c h
  up_step-IsBalanced sid (read_ok []) c h = drop_stream-IsBalanced sid _ h
  up_step-IsBalanced sid (read_ok (b ∷ bs)) c h = elim (Bool-cases c.session.server_tx.is_open) [
    | inl t ↦ rw t h
    | inr t ↦ simp t (drop_stream-IsBalanced sid (count_sent (length (b ∷ bs)) c) h)
  ]

  hang_up-IsBalanced :
      (sid : ℕ) (o : Option (Channel Bytes)) (c : Conn)
      → get sid c.session.streams ≡ o
      → IsBalanced base last c
      → IsBalanced base last (hang_up o sid c)
  hang_up-IsBalanced sid none c e h = h
  hang_up-IsBalanced sid (some w) c e h = insert_old-IsHeld h sid _ w e

  register_stream-IsBalanced :
      (sid : ℕ) (c : Conn)
      → last < sid
      → IsBalanced base last c
      → IsBalanced base sid (register_stream sid c)
  unfolding register_stream
  register_stream-IsBalanced sid c lt h = insert_new-IsHeld h sid empty_channel lt

-- A roll-back of a registration that is no longer there.
abbrev pub lost_in : Event → Conn → ℕ
lost_in (announced sid target) c =
    if c.session.server_tx.is_open then 0 else if contains_key sid c.session.streams then 0 else 1
lost_in _ c = 0

module _ (base : ℤ) (last : ℕ) where
  unregister_stream-IsBalanced :
      (sid : ℕ) (c : Conn)
      → IsBalanced base last c
      → IsBalanced
          (sub_ℕ (if contains_key sid c.session.streams then 0 else 1) base)
          last
          (unregister_stream sid c)
  unfolding unregister_stream contains_key sub_ℕ
  unregister_stream-IsBalanced sid c h = elim (Option-cases (get sid c.session.streams)) [
    | inl e ↦ rw (e, contains_key, remove_missing sid c.session.streams e) (lost-IsHeld h)
    | inr (w, e) ↦ rw (e, contains_key) (remove-IsHeld h sid w e)
  ]

  announce-IsBalanced :
      (sid : ℕ) (target : Text) (c : Conn)
      → IsBalanced base last c
      → IsBalanced (sub_ℕ (lost_in (announced sid target) c) base) last (announce sid target c).0
  unfolding announce send_frame send sub_ℕ
  announce-IsBalanced sid target c h = elim (Bool-cases c.session.server_tx.is_open) [
    | inl t ↦ simp t h
    | inr t ↦ simp t (unregister_stream-IsBalanced sid c h)
  ]

-- Another session may have drawn ids in between, so the bound is the counter.
pub fetch_sid-lt : (n : ℕ) → n + 1 < 2 ^ 64 → n < fetch_sid n
unfolding fetch_sid
fetch_sid-lt n h = omega arith

fetch_sid-le : (n : ℕ) → fetch_sid n ≤ n + 1
unfolding fetch_sid
fetch_sid-le n = omega arith

abbrev pub close_session : Live → Live
close_session l = record l { conn = record l.conn { session = close l.conn.session } }

module _ (client : HttpClient) (cfg : ServerConfig) (sc : SpokeConfig) where
  -- The roll-backs among the events of registrations that are no longer there.
  unfoldable pub losses : List Event → Live → ℕ
  losses [] l = 0
  losses (e ∷ es) l = lost_in e l.conn + losses es (step client cfg sc e l)

  pub step-last_sid : (e : Event) (l : Live) → (step client cfg sc e l).last_sid ≤ l.last_sid + 1
  unfolding step
  step-last_sid accepted l = fetch_sid-le l.last_sid
  step-last_sid other_sid l = fetch_sid-le l.last_sid
  step-last_sid _ l = omega arith

  step-IsBalanced :
      (base : ℤ) (e : Event) (l : Live)
      → l.last_sid + 1 < 2 ^ 64
      → IsBalanced base l.last_sid l.conn
      → let l' = step client cfg sc e l in
        IsBalanced (sub_ℕ (lost_in e l.conn) base) l'.last_sid l'.conn
  unfolding step writer_failed handle_http_request send_frame sub_ℕ
  step-IsBalanced base (frame f) l lt h = recv_step-IsBalanced base l.last_sid sc f l.conn h
  step-IsBalanced base accepted l lt h =
      register_stream-IsBalanced base l.last_sid (fetch_sid l.last_sid) l.conn
        (fetch_sid-lt l.last_sid lt) h
  step-IsBalanced base (announced sid target) l lt h =
      announce-IsBalanced base l.last_sid sid target l.conn h
  step-IsBalanced base (tcp_read sid r) l lt h = up_step-IsBalanced base l.last_sid sid r l.conn h
  step-IsBalanced base (write_failed sid) l lt h =
      hang_up-IsBalanced base l.last_sid sid (get sid l.conn.session.streams) l.conn refl h
  step-IsBalanced base (http_task sid req) l lt h = h
  step-IsBalanced base other_sid l lt h =
      later-IsHeld h (fetch_sid l.last_sid) (omega (arith, fetch_sid-lt l.last_sid lt))

  -- Through any sequence of frames, accepts, ends of the sends of open frames, reads, failed writes
  -- and HTTP tasks, in any order, the gauge of open streams stays at its level before the session
  -- plus the number of streams that the session has open, less one for each roll-back of a
  -- registration that a frame of the spoke or a task had removed before, if it stands there at the
  -- start with distinct ids up to the counter, and as long as the 64-bit counter does not wrap.
  pub run-IsBalanced :
      (base : ℤ) (es : List Event) (l : Live)
      → l.last_sid + length es < 2 ^ 64
      → IsBalanced base l.last_sid l.conn
      → let l' = run client cfg sc es l in IsBalanced (sub_ℕ (losses es l) base) l'.last_sid l'.conn
  unfolding run losses sub_ℕ
  run-IsBalanced base [] l lt h = h
  run-IsBalanced base (e ∷ es) l lt h =
      let l' = step client cfg sc e l in
      rw (sub_ℕ-add (lost_in e l.conn) (losses es l') base) (
        run-IsBalanced (sub_ℕ (lost_in e l.conn) base) es l' (omega (arith, step-last_sid e l))
          (step-IsBalanced base e l (omega arith) h))
