-- ===== src/Tunnel/System/HubTakes.antt =====
-- What becomes of the writer of one stream at the hub.
use openspoke.Common.{
  ℕ, ◌≡◌, refl, sym, ap, ◌∙◌, inl, inr, Bool, true, false, Bool-cases, Option, none, some, List, [],
  ◌∷◌, ◌++◌, if◌then◌else◌,
}
use mathlib.Core.List.{append-nil}
use openspoke.Common.Eq.{nat_eq, list_eq, ◌==◌, beq-cases}
use openspoke.Common.Dict.{get, contains_key}
use openspoke.Common.Channel.{Channel, send, empty_channel}
use openspoke.Common.Text.{Text}
use openspoke.Wire.{Bytes, ClientFrame, ClientKind}
use openspoke.Server.Config.{ServerConfig, SpokeConfig, is_cluster}
use openspoke.Server.Session.{Conn, send_frame}
use openspoke.Server.Http.{HttpClient, handle_http_request, reply}
use openspoke.Server.Receive
use openspoke.Server.Receive.{recv_step, drop_stream, on_data, on_http_request}
use openspoke.Server.Receive.Feed
use openspoke.Server.Receive.Route.{get-on_data, after_data}
use openspoke.Server.Stream.{
  Event, Live, frame, accepted, announced, tcp_read, write_failed, http_task, other_sid, TcpRead,
  read_ok, read_err, fetch_sid, announce, register_stream, unregister_stream, up_step,
  writer_failed, hang_up, step,
}
use openspoke.Tunnel.System.{AtHub}
use openspoke.Tunnel.System.Each.{Each, none-ne-some, Each-same, Each-insert, Each-remove}

module _ (P : Channel Bytes → Type 0) (sid : ℕ) where
  drop_stream-Each :
      (j : ℕ) (c : Conn)
      → Each P sid c.session.streams
      → Each P sid (drop_stream j c).session.streams
  unfolding drop_stream
  drop_stream-Each j c h = elim (Bool-cases (contains_key j c.session.streams)) [
    | inl t ↦ rw t (Each-remove P sid j c.session.streams h)
    | inr t ↦ rw t h
  ]

-- The writer of the stream at the hub was handed `ps`, if there is one.
abbrev pub HubHolds : ℕ → List Bytes → Conn → Type 0
HubHolds sid ps c = Each (λ w. w.sent ≡ ps) sid c.session.streams

module _ (sid : ℕ) (ps : List Bytes) where
  after_data-sent :
      (p : Bytes) (o : Option (Channel Bytes)) (w : Channel Bytes)
      → ((v : Channel Bytes) → o ≡ some v → v.sent ≡ ps)
      → after_data p o ≡ some w
      → w.sent ≡ ps ++ p ∷ []
  after_data-sent p none w h e = absurd (none-ne-some e)
  after_data-sent p (some v) w h e = by_test v.is_open e
    where
      by_test :
          (b : Bool)
          → (if b then some (record { sent = v.sent ++ p ∷ []; is_open = true }) else none) ≡ some w
          → w.sent ≡ ps ++ p ∷ []
      by_test true q =
          let same : record { sent = v.sent ++ p ∷ []; is_open = true } ≡ w = cc q in
          ap (λ (x : Channel Bytes). x.sent) (sym same) ∙ ap (λ xs. xs ++ p ∷ []) (h v refl)
      by_test false q = absurd (none-ne-some q)

  -- Behind what it was handed.
  abbrev More : List Bytes → Conn → Type 0
  More qs c = HubHolds sid (ps ++ qs) c

  More-nil : (c : Conn) → HubHolds sid ps c → More [] c
  More-nil c h w g = h w g ∙ sym (append-nil ps)

  on_data-HubHolds :
      (j : ℕ) (p : Bytes) (c : Conn)
      → HubHolds sid ps c
      → More (Feed.data_in sid j (some (ClientKind.payload p))) (on_data j p c)
  on_data-HubHolds j p c h = elim (beq-cases j sid) [
    | inl (t, e) ↦
        let at : get sid (on_data j p c).session.streams ≡ after_data p (get j c.session.streams) =
          get-on_data j sid p c ∙ here t in
        rw t (λ w g.
          after_data-sent p (get j c.session.streams) w
            (λ v o. h v (ap (λ i. get i c.session.streams) (sym e) ∙ o)) (sym at ∙ g))
    | inr (t, e) ↦
        let at : get sid (on_data j p c).session.streams ≡ get sid c.session.streams =
          get-on_data j sid p c ∙ here t in
        rw t (
          More-nil (on_data j p c)
            (Each-same _ sid c.session.streams (on_data j p c).session.streams at h))
  ]
    where
      here :
          {b : Bool}
          → j == sid ≡ b
          → (if j == sid then after_data p (get j c.session.streams) else get sid c.session.streams)
            ≡ (if b then after_data p (get j c.session.streams) else get sid c.session.streams)
      here t =
          ap (λ b. if b then after_data p (get j c.session.streams) else get sid c.session.streams)
            t

  on_kind-HubHolds :
      (sc : SpokeConfig) (j : ℕ) (k : Option ClientKind) (c : Conn)
      → HubHolds sid ps c
      → More (Feed.data_in sid j k) (Receive.on_kind sc j k c).0
  unfolding on_http_request reply send_frame
  on_kind-HubHolds sc j (some (ClientKind.payload p)) c h = on_data-HubHolds j p c h
  on_kind-HubHolds sc j (some (ClientKind.close_stream x)) c h =
      More-nil (drop_stream j c) (drop_stream-Each _ sid j c h)
  on_kind-HubHolds sc j (some (ClientKind.http_request q)) c h =
      elim (Bool-cases (is_cluster sc.kind)) [
        | inl t ↦ rw t (More-nil c h)
        | inr t ↦ rw t (More-nil c h)
      ]
  on_kind-HubHolds sc j (some (ClientKind.pong x)) c h = More-nil c h
  on_kind-HubHolds sc j (some (ClientKind.handshake x)) c h = More-nil c h
  on_kind-HubHolds sc j none c h = More-nil c h

  -- A frame of the spoke hands the writer what it carries for the stream.
  pub recv_step-HubHolds :
      (sc : SpokeConfig) (f : ClientFrame) (c : Conn)
      → HubHolds sid ps c
      → HubHolds sid (ps ++ Feed.data_in sid f.stream_id f.kind) (recv_step sc f c).0
  unfolding recv_step
  recv_step-HubHolds sc f c h = on_kind-HubHolds sc f.stream_id f.kind c h

  up_step-HubHolds :
      (j : ℕ) (r : TcpRead) (c : Conn) → HubHolds sid ps c → HubHolds sid ps (up_step j r c)
  unfolding up_step send_frame send
  up_step-HubHolds j read_err c h = drop_stream-Each _ sid j c h
  up_step-HubHolds j (read_ok []) c h = drop_stream-Each _ sid j _ h
  up_step-HubHolds j (read_ok (b ∷ bs)) c h = elim (Bool-cases c.session.server_tx.is_open) [
    | inl t ↦ simp t h
    | inr t ↦ simp t (drop_stream-Each _ sid j _ h)
  ]

  register_stream-HubHolds :
      (j : ℕ) (c : Conn)
      → (j ≡ sid → [] ≡ ps)
      → HubHolds sid ps c
      → HubHolds sid ps (register_stream j c)
  unfolding register_stream
  register_stream-HubHolds j c new h =
      Each-insert (λ w. w.sent ≡ ps) sid j empty_channel c.session.streams new h

  announce-HubHolds :
      (j : ℕ) (target : Text) (c : Conn)
      → HubHolds sid ps c
      → HubHolds sid ps (announce j target c).0
  unfolding announce send_frame unregister_stream send
  announce-HubHolds j target c h = elim (Bool-cases c.session.server_tx.is_open) [
    | inl t ↦ simp t h
    | inr t ↦ simp t (Each-remove _ sid j _ h)
  ]

  hang_up-HubHolds :
      (j : ℕ) (o : Option (Channel Bytes)) (c : Conn)
      → get j c.session.streams ≡ o
      → HubHolds sid ps c
      → HubHolds sid ps (hang_up o j c)
  hang_up-HubHolds j none c g h = h
  hang_up-HubHolds j (some w) c g h =
      Each-insert _ sid j (record w { is_open = false }) c.session.streams
        (λ e. h w (ap (λ i. get i c.session.streams) (sym e) ∙ g)) h

  -- What happens at the hub by itself hands it nothing, where the next id is not one of a stream for
  -- which something came.
  pub step-HubHolds :
      (client : HttpClient) (cfg : ServerConfig) (sc : SpokeConfig) (e : Event) (l : Live)
      → AtHub l.last_sid l.conn.session.server_tx.sent e
      → (fetch_sid l.last_sid ≡ sid → [] ≡ ps)
      → HubHolds sid ps l.conn
      → HubHolds sid ps (step client cfg sc e l).conn
  unfolding step writer_failed handle_http_request reply send_frame
  step-HubHolds client cfg sc accepted l at new h =
      register_stream-HubHolds (fetch_sid l.last_sid) l.conn new h
  step-HubHolds client cfg sc (announced j target) l at new h = announce-HubHolds j target l.conn h
  step-HubHolds client cfg sc (tcp_read j r) l at new h = up_step-HubHolds j r l.conn h
  step-HubHolds client cfg sc (write_failed j) l at new h =
      hang_up-HubHolds j (get j l.conn.session.streams) l.conn refl h
  step-HubHolds client cfg sc (http_task j req) l at new h = h
  step-HubHolds client cfg sc other_sid l at new h = h
  step-HubHolds client cfg sc (frame f) l at new h = absurd at
