-- ===== src/Server/Ports.antt =====
-- The listeners of hub/images/tunnel-server/src/main.rs across connections: a port belongs to the
-- process, so a listener of one session keeps the others from the port for as long as it lives.
-- `handle_connection` aborts its listeners only where it comes to its own end; where it returns early
-- it leaves them to end by themselves, which `accept_loop` does at its next connection.
pub mod Held
pub mod Owned
pub mod Refused
pub mod Displaced
pub mod Leak
use openspoke.Common.{ℕ, Bool, true, false, Option, none, some, List, [], ◌∷◌, if◌then◌else◌}
use openspoke.Common.Eq.{nat_eq, list_eq, ◌==◌}
use openspoke.Common.Dict.{Dict, get, insert, remove, contains_key}
use openspoke.Common.Channel.{Channel}
use openspoke.Common.Text.{Text}
use openspoke.Wire.{ServerFrame}
use openspoke.Server.Config.{ServerConfig, SpokeConfig, SpokePortBinding}
use openspoke.Server.Listen.{listen_error}
use openspoke.Server.Registry.{
  Phase, Entry, Hub, arrived, displacing, replacing, serving, leaving, gone, is_closed, advance,
  arrive,
}

-- The table of sessions, the reference of the session whose listener holds a port, and how the
-- listeners of a task were opened: its error, if there was one.
pub record Net : Type 0 where
  pub hub : Hub
  pub held : Dict ℕ ℕ
  pub outcomes : Dict ℕ (Option Text)

-- The operating system: why it refuses a port of its own accord, if it does, and what it says of a
-- port that is held.
pub record Os : Type 0 where
  pub refuses : ℕ → Option Text
  pub in_use : Text

abbrev pub ports_in : Option SpokeConfig → List SpokePortBinding
ports_in none = []
ports_in (some sc) = sc.ports

abbrev pub ports_of : ServerConfig → Text → List SpokePortBinding
ports_of cfg id = ports_in (get id cfg.spokes)

-- `TcpListener::bind`.
abbrev pub bind : Os → Dict ℕ ℕ → ℕ → Option Text
bind os held port = if contains_key port held then some os.in_use else os.refuses port

abbrev pub Opening : Type 0
Opening = Dict ℕ ℕ × Option Text

abbrev pub and_open : SpokePortBinding → ℕ → Dict ℕ ℕ → Option Text → (Dict ℕ ℕ → Opening) → Opening
and_open b r held none rest = rest (insert b.port r held)
and_open b r held (some e) rest = (held, some (listen_error b.port e))

-- The loop over the ports of a session's spoke.
unfoldable pub open_ports : Os → ℕ → List SpokePortBinding → Dict ℕ ℕ → Opening
open_ports os r [] held = (held, none)
open_ports os r (b ∷ bs) held = and_open b r held (bind os held b.port) (open_ports os r bs)

unfoldable pub listen : Os → ServerConfig → ℕ → Entry → Net → Net
unfolding open_ports
listen os cfg r e n =
    let (held, failure) = open_ports os r (ports_of cfg e.session.spoke_id) n.held in
    record n { held = held; outcomes = insert r failure n.outcomes }

-- `h.abort()` for each listener of the session.
unfoldable pub release : ℕ → Dict ℕ ℕ → Dict ℕ ℕ
release r [] = []
release r ((port, owner) ∷ m) =
    let rest = release r m in if owner == r then rest else (port, owner) ∷ rest

abbrev pub on_hub : ℕ → Net → Net
on_hub r n = record n { hub = advance r n.hub }

-- A task that is in the table opens its listeners; after that, whether they are open or not, the
-- next turn is the closing of its session.
abbrev pub serve_turn : Os → ServerConfig → ℕ → Entry → Option (Option Text) → Net → Net
serve_turn os cfg r e none n = listen os cfg r e n
serve_turn os cfg r e (some outcome) n = on_hub r n

-- The last turn: the clean-up, and the abort where all the ports were open.
abbrev pub leave_turn : ℕ → Option (Option Text) → Net → Net
leave_turn r (some none) n = record (on_hub r n) { held = release r n.held }
leave_turn r (some (some e)) n = on_hub r n
leave_turn r none n = on_hub r n

abbrev pub phase_turn : Os → ServerConfig → ℕ → Entry → Phase → Net → Net
phase_turn os cfg r e serving n = serve_turn os cfg r e (get r n.outcomes) n
phase_turn os cfg r e leaving n = leave_turn r (get r n.outcomes) n
phase_turn os cfg r e arrived n = on_hub r n
phase_turn os cfg r e (displacing old) n = on_hub r n
phase_turn os cfg r e replacing n = on_hub r n
phase_turn os cfg r e gone n = on_hub r n

abbrev pub entry_turn : Os → ServerConfig → ℕ → Option Entry → Net → Net
entry_turn os cfg r none n = n
entry_turn os cfg r (some e) n = phase_turn os cfg r e e.phase n

-- The next turn of the task of `r`.
unfoldable pub net_turn : Os → ServerConfig → ℕ → Net → Net
unfolding listen release
net_turn os cfg r n = entry_turn os cfg r (get r n.hub.store) n

-- A connection to a port: the listener of a closed session takes it as its last.
abbrev pub on_port : Option ℕ → ℕ → Net → Net
on_port none port n = n
on_port (some r) port n =
    if is_closed (get r n.hub.store) then record n { held = remove port n.held } else n

unfoldable pub dial : ℕ → Net → Net
dial port n = on_port (get port n.held) port n

-- `accept_fails` is an error of `accept`, with which a listener ends.
pub data NetMove : Type 0 where
  calls : ℕ → Text → Channel ServerFrame → NetMove
  goes : ℕ → NetMove
  dials : ℕ → NetMove
  accept_fails : ℕ → NetMove

unfoldable pub net_move : Os → ServerConfig → NetMove → Net → Net
unfolding net_turn dial
net_move os cfg (calls r id tx) n = record n { hub = arrive r id tx n.hub }
net_move os cfg (goes r) n = net_turn os cfg r n
net_move os cfg (dials port) n = dial port n
net_move os cfg (accept_fails port) n = record n { held = remove port n.held }

unfoldable pub net_schedule : Os → ServerConfig → List NetMove → Net → Net
net_schedule os cfg [] n = n
net_schedule os cfg (m ∷ ms) n = net_schedule os cfg ms (net_move os cfg m n)
