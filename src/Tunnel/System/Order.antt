-- ===== src/Tunnel/System/Order.antt =====
-- What holds of a tunnel however its two sides take turns.
use openspoke.Common.{ℕ, ◌≡◌, sym, ap, ◌∙◌, some, List, ◌++◌}
use openspoke.Common.Eq.{nat_eq, list_eq}
use openspoke.Common.Dict.{get}
use openspoke.Common.Channel.{Channel}
use openspoke.Common.Text.{Text}
use openspoke.Wire.{Bytes, ServerFrame, ClientFrame}
use openspoke.Server.Config.{ServerConfig, SpokeConfig}
use openspoke.Server.Http.{HttpClient}
use openspoke.Server.Metrics.{Metrics}
use openspoke.Server.Receive.Feed as Up
use openspoke.Client.Config.{ClientConfig}
use openspoke.Client.Proxy.{Shared}
use openspoke.Client.Session.Feed as Down
use openspoke.Tunnel.Sent.{data_of-append}
use openspoke.Tunnel.System.{Tunnel, Reach}
use openspoke.Tunnel.System.Start.{joined}
use openspoke.Tunnel.System.Log.{up_append}
use openspoke.Tunnel.System.Keeps.{Reach-IsOrdered}
use openspoke.Tunnel.System.Inv.{joined-IsOrdered}

-- From the start of a session on, in whichever order the two ends go on by themselves and take each
-- other's frames, and while the counter of stream ids does not come to its end: the spoke has taken
-- the first of the hub's frames; and for a stream that is open at the spoke, what the hub has sent
-- for it is what its pump was handed, followed by what the frames on their way carry for it.
pub in_order_down :
    (client : HttpClient) (cfg : ServerConfig) (sc : SpokeConfig) (debug : Text → Text)
    (ccfg : ClientConfig) (nonce : Bytes) (issued_at : ℕ) (m : Metrics) (last : ℕ) (sh : Shared)
    (t : Tunnel) (sid : ℕ) (w : Channel Bytes)
    → Reach client cfg sc debug ccfg (joined nonce issued_at m last ccfg sh) t
    → get sid t.spoke.streams ≡ some w
    → (rest : List ServerFrame) × (t.live.conn.session.server_tx.sent ≡ t.taken_down ++ rest)
      × (Down.data_of sid t.live.conn.session.server_tx.sent ≡ w.sent ++ Down.data_of sid rest)
in_order_down client cfg sc debug ccfg nonce issued_at m last sh t sid w r g =
    let h =
      Reach-IsOrdered client cfg sc debug ccfg r
        (joined-IsOrdered nonce issued_at m last ccfg sh) in
    let (rest, e) = h.down_split in
    (
      rest,
      e,
      ap (Down.data_of sid) e
          ∙ data_of-append sid t.taken_down rest
          ∙ ap (λ ps. ps ++ Down.data_of sid rest) (sym (h.pump sid w g).1),
    )

-- From the start of a session on, in whichever order the two ends go on by themselves and take each
-- other's frames, and while the counter of stream ids does not come to its end: the hub has taken the
-- first of the spoke's frames; and for a stream that is open at the hub, what the spoke has sent for
-- it is what its writer was handed, followed by what the frames on their way carry for it.
pub in_order_up :
    (client : HttpClient) (cfg : ServerConfig) (sc : SpokeConfig) (debug : Text → Text)
    (ccfg : ClientConfig) (nonce : Bytes) (issued_at : ℕ) (m : Metrics) (last : ℕ) (sh : Shared)
    (t : Tunnel) (sid : ℕ) (w : Channel Bytes)
    → Reach client cfg sc debug ccfg (joined nonce issued_at m last ccfg sh) t
    → get sid t.live.conn.session.streams ≡ some w
    → (rest : List ClientFrame) × (t.spoke.shared.hub.sent ≡ t.taken_up ++ rest)
      × (Up.data_of sid t.spoke.shared.hub.sent ≡ w.sent ++ Up.data_of sid rest)
in_order_up client cfg sc debug ccfg nonce issued_at m last sh t sid w r g =
    let h =
      Reach-IsOrdered client cfg sc debug ccfg r
        (joined-IsOrdered nonce issued_at m last ccfg sh) in
    let (rest, e) = h.up_split in
    (
      rest,
      e,
      ap (Up.data_of sid) e
          ∙ up_append sid t.taken_up rest
          ∙ ap (λ ps. ps ++ Up.data_of sid rest) (sym (h.writer sid w g)),
    )
