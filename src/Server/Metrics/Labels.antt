-- ===== src/Server/Metrics/Labels.antt =====
-- The label values under which tunnel-server touches its metrics: `with_label_values` panics unless
-- there are as many as the metric has names of labels. A map of a metric keeps every key that was
-- touched.
use openspoke.Common.{ℕ, ◌≡◌, refl, Bool-cases, inl, inr, Option, none, some, [], ◌∷◌, All, length}
use openspoke.Common.Eq.{list_eq, nat_eq, ◌==◌}
use openspoke.Common.Dict.{Dict, get, insert, contains_key}
use openspoke.Common.Channel.{Channel, send}
use openspoke.Common.Text.{Text, codes}
use openspoke.Wire.{Bytes, ClientKind, HttpResponse}
use openspoke.Server.Config.{SpokeConfig, is_cluster}
use openspoke.Server.Metrics.{Labels, Metrics, inc_by, gauge_inc, gauge_dec}
use openspoke.Server.Metrics.Register
use openspoke.Server.Session.{Conn, send_frame}
use openspoke.Server.Handshake.{count_failure}
use openspoke.Server.Http.{reply}
use openspoke.Server.Receive
use openspoke.Server.Receive.{
  drop_stream, on_data, to_writer, count_recv, recv_step, on_http_request,
}
use openspoke.Server.Stream.{
  TcpRead, read_ok, read_err, register_stream, unregister_stream, announce, up_step, hang_up,
}

-- Every key has a value for each name of a label.
abbrev pub HasLabels {ℓ} : {V : Type ℓ} → Register.Description → Dict Labels V → Type 0
HasLabels {V = V} d m = All (λ (e : Labels × V). length e.0 ≡ length d.label_names) m

abbrev pub IsLabelled : Metrics → Type 0
IsLabelled m =
    HasLabels Register.streams_open m.streams_open
    × HasLabels Register.bytes_sent m.bytes_sent
    × HasLabels Register.bytes_recv m.bytes_recv
    × HasLabels Register.handshake_fail m.handshake_fail
    × HasLabels Register.http_requests m.http_requests

insert-HasLabels {ℓ} :
    {V : Type ℓ} (d : Register.Description) (l : Labels) (v : V) (m : Dict Labels V)
    → length l ≡ length d.label_names
    → HasLabels d m
    → HasLabels d (insert l v m)
unfolding insert
insert-HasLabels d l v [] e h = (e, tt)
insert-HasLabels d l v ((k, w) ∷ m) e h = elim (Bool-cases (k == l)) [
  | inl t ↦ rw t (e, h.1)
  | inr t ↦ rw t (h.0, insert-HasLabels d l v m e h.1)
]

drop_stream-IsLabelled :
    (j : ℕ) (c : Conn) → IsLabelled c.metrics → IsLabelled (drop_stream j c).metrics
unfolding drop_stream gauge_dec
drop_stream-IsLabelled j c (a, b, r, f, q) = elim (Bool-cases (contains_key j c.session.streams)) [
  | inl t ↦
      rw t (insert-HasLabels Register.streams_open _ _ c.metrics.streams_open refl a, b, r, f, q)
  | inr t ↦ rw t (a, b, r, f, q)
]

count_recv-IsLabelled :
    (n : ℕ) (c : Conn) → IsLabelled c.metrics → IsLabelled (count_recv n c).metrics
unfolding inc_by
count_recv-IsLabelled n c (a, b, r, f, q) =
    (a, b, insert-HasLabels Register.bytes_recv _ _ c.metrics.bytes_recv refl r, f, q)

to_writer-IsLabelled :
    (j : ℕ) (p : Bytes) (o : Option (Channel Bytes)) (c : Conn)
    → IsLabelled c.metrics
    → IsLabelled (to_writer j p o c).metrics
to_writer-IsLabelled j p none c h = h
to_writer-IsLabelled j p (some w) c h =
    let counted = count_recv-IsLabelled (length p) c h in
    elim (Bool-cases (send p w).1) [
      | inl t ↦ rw t counted
      | inr t ↦ rw t (drop_stream-IsLabelled j (count_recv (length p) c) counted)
    ]

pub reply-IsLabelled :
    (j : ℕ) (result : Text) (r : HttpResponse) (c : Conn)
    → IsLabelled c.metrics
    → IsLabelled (reply j result r c).metrics
unfolding reply inc_by
reply-IsLabelled j result r c (a, b, s, f, q) =
    (a, b, s, f, insert-HasLabels Register.http_requests _ _ c.metrics.http_requests refl q)

pub on_kind-IsLabelled :
    (sc : SpokeConfig) (j : ℕ) (k : Option ClientKind) (c : Conn)
    → IsLabelled c.metrics
    → IsLabelled (Receive.on_kind sc j k c).0.metrics
unfolding on_data on_http_request
on_kind-IsLabelled sc j (some (ClientKind.payload p)) c h =
    to_writer-IsLabelled j p (get j c.session.streams) c h
on_kind-IsLabelled sc j (some (ClientKind.close_stream x)) c h = drop_stream-IsLabelled j c h
on_kind-IsLabelled sc j (some (ClientKind.http_request x)) c h =
    elim (Bool-cases (is_cluster sc.kind)) [
      | inl t ↦ rw t (reply-IsLabelled j (codes "rejected_kind") Receive.rejected_kind c h)
      | inr t ↦ rw t h
    ]
on_kind-IsLabelled sc j (some (ClientKind.pong x)) c h = h
on_kind-IsLabelled sc j (some (ClientKind.handshake x)) c h = h
on_kind-IsLabelled sc j none c h = h

pub register_stream-IsLabelled :
    (j : ℕ) (c : Conn) → IsLabelled c.metrics → IsLabelled (register_stream j c).metrics
unfolding register_stream gauge_inc
register_stream-IsLabelled j c (a, b, r, f, q) = (
  insert-HasLabels Register.streams_open (c.session.spoke_id ∷ []) _ c.metrics.streams_open refl a,
  b,
  r,
  f,
  q,
)

pub announce-IsLabelled :
    (j : ℕ) (target : Text) (c : Conn)
    → IsLabelled c.metrics
    → IsLabelled (announce j target c).0.metrics
unfolding announce unregister_stream send_frame send gauge_dec
announce-IsLabelled j target c (a, b, r, f, q) =
    let less =
      insert-HasLabels Register.streams_open (c.session.spoke_id ∷ []) _ c.metrics.streams_open refl
        a in
    elim (Bool-cases c.session.server_tx.is_open) [
      | inl t ↦ simp t (a, b, r, f, q)
      | inr t ↦ simp t (less, b, r, f, q)
    ]

pub up_step-IsLabelled :
    (j : ℕ) (r : TcpRead) (c : Conn) → IsLabelled c.metrics → IsLabelled (up_step j r c).metrics
unfolding up_step send_frame send inc_by
up_step-IsLabelled j read_err c h = drop_stream-IsLabelled j c h
up_step-IsLabelled j (read_ok []) c h = drop_stream-IsLabelled j _ h
up_step-IsLabelled j (read_ok (b ∷ bs)) c (a, s, r, f, q) =
    let counted =
      insert-HasLabels Register.bytes_sent (c.session.spoke_id ∷ []) _ c.metrics.bytes_sent refl
        s in
    elim (Bool-cases c.session.server_tx.is_open) [
      | inl t ↦ simp t (a, counted, r, f, q)
      | inr t ↦ simp t (drop_stream-IsLabelled j _ (a, counted, r, f, q))
    ]

pub hang_up-IsLabelled :
    (j : ℕ) (o : Option (Channel Bytes)) (c : Conn)
    → IsLabelled c.metrics
    → IsLabelled (hang_up o j c).metrics
hang_up-IsLabelled j none c h = h
hang_up-IsLabelled j (some w) c h = h

pub count_failure-IsLabelled :
    (reason : Text) (m : Metrics) → IsLabelled m → IsLabelled (count_failure reason m)
unfolding count_failure inc_by
count_failure-IsLabelled reason m (a, b, r, f, q) =
    (a, b, r, insert-HasLabels Register.handshake_fail (reason ∷ []) _ m.handshake_fail refl f, q)
