-- ===== src/Server/Receive/Feed.antt =====
-- `recv_loop` of tunnel-server as one stream sees it.
use openspoke.Common.{
  ℕ, ◌≡◌, ◌≢◌, refl, ap, ◌∙◌, true, false, Option, none, some, List, [], ◌∷◌, ◌++◌, map, arith, All,
  ok, if◌then◌else◌, inl, inr, Bool-cases,
}
use mathlib.Core.List.{append_assoc}
use openspoke.Common.Eq.{nat_eq, list_eq, ◌==◌, beq-cases}
use openspoke.Common.Dict.{get}
use openspoke.Common.Channel.{Channel, fed, fed-nil}
use openspoke.Wire.{Bytes, ClientFrame, ClientKind}
use openspoke.Server.Config.{SpokeConfig, is_cluster}
use openspoke.Server.Session.{Conn, send_frame}
use openspoke.Server.Receive.{recv_step, recv_loop, on_kind, on_http_request}
use openspoke.Server.Receive.Route.{get-on_data, get-drop_stream, after_data}

-- The bytes that a frame carries for the stream.
abbrev pub data_in : ℕ → ℕ → Option ClientKind → List Bytes
data_in sid j (some (ClientKind.payload p)) = if j == sid then p ∷ [] else []
data_in sid j _ = []

unfoldable pub data_of : ℕ → List ClientFrame → List Bytes
data_of sid [] = []
data_of sid (f ∷ fs) = data_in sid f.stream_id f.kind ++ data_of sid fs

-- The frame does not close the stream.
abbrev pub KeepsOpen : ℕ → ℕ → Option ClientKind → Type 0
KeepsOpen sid j (some (ClientKind.close_stream x)) = j ≢ sid
KeepsOpen sid j _ = Unit

abbrev pub FrameKeepsOpen : ℕ → ClientFrame → Type 0
FrameKeepsOpen sid f = KeepsOpen sid f.stream_id f.kind

module _ (sc : SpokeConfig) (sid : ℕ) where
  on_kind-feeds :
      (j : ℕ) (k : Option ClientKind) (c : Conn) (w : Channel Bytes)
      → KeepsOpen sid j k
      → get sid c.session.streams ≡ some w
      → w.is_open ≡ true
      → get sid (on_kind sc j k c).0.session.streams ≡ some (fed w (data_in sid j k))
  unfolding on_http_request send_frame
  on_kind-feeds j (some (ClientKind.payload p)) c w h g o = elim (beq-cases j sid) [
    | inl (t, e) ↦
        let own : get j c.session.streams ≡ some w = ap (λ i. get i c.session.streams) e ∙ g in
        rw (get-on_data j sid p c, t, own) (simp (o, after_data))
    | inr (t, e) ↦ rw (get-on_data j sid p c, t) (g ∙ ap some (fed-nil w o))
  ]
  on_kind-feeds j (some (ClientKind.close_stream x)) c w h g o =
      let t : j == sid ≡ false = ground arith in
      rw (get-drop_stream j sid c, t) (g ∙ ap some (fed-nil w o))
  on_kind-feeds j (some (ClientKind.http_request q)) c w h g o =
      elim (Bool-cases (is_cluster sc.kind)) [
        | inl t ↦ rw t (g ∙ ap some (fed-nil w o))
        | inr t ↦ rw t (g ∙ ap some (fed-nil w o))
      ]
  on_kind-feeds j (some (ClientKind.pong x)) c w h g o = g ∙ ap some (fed-nil w o)
  on_kind-feeds j (some (ClientKind.handshake x)) c w h g o = g ∙ ap some (fed-nil w o)
  on_kind-feeds j none c w h g o = g ∙ ap some (fed-nil w o)

  -- Over frames that do not close a stream whose writer is there, the writer gets the bytes of the
  -- stream's data frames, in order and nothing else, whatever the other streams get.
  pub recv_loop-feeds :
      (fs : List ClientFrame) (c : Conn) (w : Channel Bytes)
      → All (FrameKeepsOpen sid) fs
      → get sid c.session.streams ≡ some w
      → w.is_open ≡ true
      → get sid (recv_loop sc (map ok fs) c).0.session.streams ≡ some (fed w (data_of sid fs))
  unfolding recv_loop recv_step data_of
  recv_loop-feeds [] c w h g o = g ∙ ap some (fed-nil w o)
  recv_loop-feeds (f ∷ fs) c w h g o =
      let now = on_kind-feeds f.stream_id f.kind c w h.0 g o in
      let rest = recv_loop-feeds fs (on_kind sc f.stream_id f.kind c).0 _ h.1 now refl in
      rest ∙ ap (λ ps. some (record { sent = ps; is_open = true })) (append_assoc w.sent _ _)
