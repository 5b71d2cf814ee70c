-- ===== src/Server/Listen.antt =====
-- The listeners of a session in hub/images/tunnel-server/src/main.rs: the loop of
-- `handle_connection` that binds the spoke's ports, and the loop of `accept_loop`. The operating
-- system is what it answers: `none` for a port that binds, or the error.
pub mod Ports
use openspoke.Common.{ℕ, Bool, Option, none, some, List, [], ◌∷◌, ◌++◌, if◌then◌else◌}
use openspoke.Common.Text.{Text, codes, show_nat}
use openspoke.Server.Config.{ServerConfig, SpokeConfig, SpokePortBinding}
use openspoke.Server.Http.{HttpClient}
use openspoke.Server.Stream.{Event, Live, accepted, announced, fetch_sid, step, run}

abbrev pub listen_error : ℕ → Text → Text
listen_error port e = codes "listen " ++ (show_nat port ++ (codes ": " ++ e))

abbrev pub after_bind :
    SpokePortBinding
    → Option Text
    → List SpokePortBinding × Option Text
    → List SpokePortBinding × Option Text
after_bind b none (opened, failure) = (b ∷ opened, failure)
after_bind b (some e) rest = ([], some (listen_error b.port e))

-- The listeners that are opened, in order, and the error that stops the loop.
unfoldable pub bind_ports :
    (ℕ → Option Text) → List SpokePortBinding → List SpokePortBinding × Option Text
bind_ports bind [] = ([], none)
bind_ports bind (b ∷ bs) = after_bind b (bind b.port) (bind_ports bind bs)

-- One round of a listener: what happens on the connection until `accept` ends, what it gives, and what
-- happens until the send of the open frame ends.
pub record Round : Type 0 where
  pub meanwhile : List Event
  pub failure : Option Text
  pub queueing : List Event

-- A failed accept ends the loop whether or not the session is closed.
unfoldable pub accept_loop :
    HttpClient → ServerConfig → SpokeConfig → Text → List Round → Live → Live
unfolding run step
accept_loop client cfg sc target [] l = l
accept_loop client cfg sc target (r ∷ rs) l =
    let waited = run client cfg sc r.meanwhile l in
    let queued = run client cfg sc r.queueing (step client cfg sc accepted waited) in
    let sid = fetch_sid waited.last_sid in
    let next =
      accept_loop client cfg sc target rs (step client cfg sc (announced sid target) queued) in
    if l.conn.session.closed then l else elim r.failure [ none ↦ next | some e ↦ waited ]
