-- ===== src/Tunnel/System.antt =====
-- A tunnel-server's connection and the tunnel-client's session at its other end, with the frames that
-- are on their way between them. Either side goes on by itself, and takes the other's frames in the
-- order in which they were sent, whenever it comes to them.
pub mod Sends
pub mod SpokeSends
pub mod Each
pub mod HubTakes
pub mod SpokeTakes
pub mod Start
pub mod Log
pub mod Pumps
pub mod Inv
pub mod Keeps
pub mod Order
use openspoke.Common.{
  ℕ, ◌+◌, ◌^◌, ◌≤◌, ◌<◌, ◌≡◌, true, Option, none, some, List, [], ◌∷◌, ◌++◌, Result,
}
use openspoke.Common.Eq.{nat_eq}
use openspoke.Common.Dict.{contains}
use openspoke.Common.Text.{Text}
use openspoke.Wire.{ServerFrame, ClientFrame}
use openspoke.Server.Config.{ServerConfig, SpokeConfig}
use openspoke.Server.Http.{HttpClient}
use openspoke.Server.Receive.{recv_step}
use openspoke.Server.Stream.{
  Event, Live, frame, accepted, announced, tcp_read, write_failed, http_task, other_sid, step,
}
use openspoke.Client.Config.{ClientConfig}
use openspoke.Client.Session.{Session, Spawned, goes_on, handle_frame}
use openspoke.Client.Session.Feed.{data_of}
use openspoke.Client.Live.{
  Input, Local, locally, pumped, undialled, outbound_gone, from_hub, on_input,
}

-- The two sides; the frames of either that the other has taken; and the streams for which the spoke
-- has started a pump.
pub record Tunnel : Type 0 where
  pub live : Live
  pub spoke : Session
  pub taken_down : List ServerFrame
  pub taken_up : List ClientFrame
  pub pumps : List ℕ

-- What happens at the hub but for the spoke's frames: a read is one of a stream that was accepted, and
-- the send of an open frame is for one of which nothing was read yet, since what reads it starts after.
abbrev pub AtHub : ℕ → List ServerFrame → Event → Type 0
AtHub last log (frame f) = ⊥
AtHub last log (tcp_read sid r) = sid ≤ last
AtHub last log accepted = Unit
AtHub last log (announced sid target) = (sid ≤ last) × (data_of sid log ≡ [])
AtHub last log (write_failed sid) = Unit
AtHub last log (http_task sid req) = Unit
AtHub last log other_sid = Unit

-- What happens at the spoke but for the hub's frames: a pump is one that was started.
abbrev pub AtSpoke : List ℕ → Input → Type 0
AtSpoke pumps (from_hub f) = ⊥
AtSpoke pumps (pumped sid e) = contains sid pumps ≡ true
AtSpoke pumps (undialled sid reason) = contains sid pumps ≡ true
AtSpoke pumps (locally l) = Unit
AtSpoke pumps outbound_gone = Unit

abbrev pub started_pumps : Option Spawned → List ℕ → List ℕ
started_pumps none pumps = pumps
started_pumps (some p) pumps = p.sid ∷ pumps

module _ (client : HttpClient) (cfg : ServerConfig) (sc : SpokeConfig) (debug : Text → Text)
    (ccfg : ClientConfig) where
  -- The counter of stream ids has not come to its end.
  pub data Step (t : Tunnel) : Tunnel → Type 0 where
    at_hub :
        (e : Event)
        → AtHub t.live.last_sid t.live.conn.session.server_tx.sent e
        → t.live.last_sid + 1 < 2 ^ 64
        → Step t (record t { live = step client cfg sc e t.live })
    at_spoke :
        (i : Input) (s : Session) (p : Option Spawned)
        → AtSpoke t.pumps i
        → on_input debug ccfg i t.spoke ≡ goes_on s p
        → Step t (record t { spoke = s })
    down :
        (f : ServerFrame) (rest : List ServerFrame) (s : Session) (p : Option Spawned)
        → t.live.conn.session.server_tx.sent ≡ t.taken_down ++ f ∷ rest
        → handle_frame debug ccfg f t.spoke ≡ goes_on s p
        → Step t (record t {
          spoke = s;
          taken_down = t.taken_down ++ f ∷ [];
          pumps = started_pumps p t.pumps;
        })
    up :
        (f : ClientFrame) (rest : List ClientFrame)
        → t.spoke.shared.hub.sent ≡ t.taken_up ++ f ∷ rest
        → Step t (record t {
          live = record t.live { conn = (recv_step sc f t.live.conn).0 };
          taken_up = t.taken_up ++ f ∷ [];
        })

  pub data Reach (s : Tunnel) : Tunnel → Type 0 where
    here : Reach s s
    next : {t u : Tunnel} → Reach s t → Step t u → Reach s u
