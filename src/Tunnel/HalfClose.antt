-- ===== src/Tunnel/HalfClose.antt =====
-- What a half-close does to the other direction.
use openspoke.Tunnel.Sent.{drop_stream-tx}
use openspoke.Server.Stream.{up_step, read_ok}
use openspoke.Common.Channel.{Channel, send, fed}
use openspoke.Common.{ℕ, ◌≡◌, refl, ap, Bool, none, some, [], arith, ◌∙◌, true, ◌∷◌}
use openspoke.Common.Eq.{nat_eq, list_eq}
use openspoke.Common.Dict.{get, remove, get-remove_self}
use openspoke.Common.Text.{Text}
use openspoke.Wire.{Bytes, ServerFrame, ServerKind, ClientFrame, ClientKind}
use openspoke.Server.Config.{SpokeConfig}
use openspoke.Server.Session.{Conn, send_frame}
use openspoke.Server.Receive.{recv_step, drop_stream, on_data, to_writer}
use openspoke.Server.Receive.Route.{get-drop_stream}
use openspoke.Client.Config.{ClientConfig}
use openspoke.Client.Session.{Session, handle_frame, goes_on, to_stream}

abbrev pub from_spoke : ℕ → ClientKind → ClientFrame
from_spoke sid k = record { stream_id = sid; kind = some k }

abbrev pub from_hub : ℕ → ServerKind → ServerFrame
from_hub sid k = record { stream_id = sid; kind = some k }

closed_at_server :
    (sid : ℕ) (p : Bytes) (c : Conn) → on_data sid p (drop_stream sid c) ≡ drop_stream sid c
unfolding on_data
closed_at_server sid p c =
    let gone : get sid (drop_stream sid c).session.streams ≡ none =
      ground (arith, get-drop_stream sid sid c) in
    ap (λ o. to_writer sid p o (drop_stream sid c)) gone

still_sent :
    (sid b : ℕ) (bs : Bytes) (c : Conn)
    → c.session.server_tx.is_open ≡ true
    → (up_step sid (read_ok (b ∷ bs)) c).session.server_tx
      ≡ fed c.session.server_tx (from_hub sid (ServerKind.payload (b ∷ bs)) ∷ [])
unfolding up_step send_frame send
still_sent sid b bs c o = simp o

-- A close frame, whether it says half or full, drops its stream at the side that takes it, at the hub
-- and at the spoke, and data that arrives on it afterwards changes nothing there. It does not stop the
-- other direction at the hub: while the stream between the programs stands, what is read from the TCP
-- connection afterwards still goes out as data of the stream.
pub close_drops_stream :
    (sc : SpokeConfig) (debug : Text → Text) (cfg : ClientConfig) (sid : ℕ) (half : Bool)
    (reason : Text) (p : Bytes) (b : ℕ) (bs : Bytes) (c : Conn) (s : Session)
    → c.session.server_tx.is_open ≡ true
    → let at_hub = drop_stream sid c in
      let at_spoke = record s { streams = remove sid s.streams } in
      (recv_step sc
          (from_spoke sid (ClientKind.close_stream (record { half = half; reason = reason })))
          c
        ≡ (at_hub, []))
      × (recv_step sc (from_spoke sid (ClientKind.payload p)) at_hub ≡ (at_hub, []))
      × ((up_step sid (read_ok (b ∷ bs)) at_hub).session.server_tx
          ≡ fed c.session.server_tx (from_hub sid (ServerKind.payload (b ∷ bs)) ∷ []))
      × (handle_frame debug cfg
            (from_hub sid (ServerKind.close_stream (record { half = half; reason = reason })))
            s
          ≡ goes_on at_spoke none)
      × (handle_frame debug cfg (from_hub sid (ServerKind.payload p)) at_spoke
          ≡ goes_on at_spoke none)
unfolding recv_step handle_frame
close_drops_stream sc debug cfg sid half reason p b bs c s o = (
  refl,
  ap (λ x. (x, [])) (closed_at_server sid p c),
  still_sent sid b bs (drop_stream sid c) (ap (λ (x : Channel ServerFrame). x.is_open) same ∙ o)
      ∙ ap (λ tx. fed tx (from_hub sid (ServerKind.payload (b ∷ bs)) ∷ [])) same,
  refl,
  ap (λ o. goes_on (to_stream sid p o (record s { streams = remove sid s.streams })) none)
      (get-remove_self sid s.streams),
)
  where
    same : (drop_stream sid c).session.server_tx ≡ c.session.server_tx
    same = drop_stream-tx sid c
