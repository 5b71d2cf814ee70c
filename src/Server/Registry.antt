-- ===== src/Server/Registry.antt =====
-- The table of sessions in hub/images/tunnel-server/src/main.rs: how `handle_connection` registers
-- a session and displaces an older one, and `cleanup_session`. A connection's task runs in steps
-- between its waits, and the steps of several connections interleave. Sessions are shared, so the
-- table holds references into a store.
pub mod Entered
pub mod Sound
pub mod Turns
pub mod Follow
pub mod Displace
pub mod Orphan
pub mod Count
pub mod Ends
use openspoke.Common.{ℕ, Bool, true, false, Option, none, some, List, [], ◌∷◌, if◌then◌else◌}
use openspoke.Common.Eq.{list_eq, nat_eq}
use openspoke.Common.Dict.{Dict, get, insert, remove, contains_key}
use openspoke.Common.Channel.{Channel}
use openspoke.Common.Int.{ℤ, suc_ℤ, pred_ℤ}
use openspoke.Common.Text.{Text}
use openspoke.Wire.{ServerFrame}
use openspoke.Server.Session.{SpokeSession, new_session, close}

-- Where the task of a connection stands, from the admission of its handshake on: before its look
-- into the table; about to close the session that it found there; about to enter itself; serving
-- (its listeners and `recv_loop`); closed and about to clean up; ended.
pub data Phase : Type 0 where
  arrived : Phase
  displacing : ℕ → Phase
  replacing serving leaving gone : Phase

pub record Entry : Type 0 where
  pub session : SpokeSession
  pub phase : Phase

pub record Hub : Type 0 where
  pub sessions : Dict Text ℕ
  pub store : Dict ℕ Entry
  pub connected : ℤ

abbrev pub set_entry : ℕ → Entry → Hub → Hub
set_entry r e h = record h { store = insert r e h.store }

-- The insertion into the table, and `metrics.connected.inc()`.
abbrev pub register : ℕ → Entry → Hub → Hub
register r e h = record h {
  sessions = insert e.session.spoke_id r h.sessions;
  store = insert r (record e { phase = serving }) h.store;
  connected = suc_ℤ h.connected;
}

abbrev pub look_up : ℕ → Entry → Option ℕ → Hub → Hub
look_up r e none h = register r e h
look_up r e (some old) h = set_entry r (record e { phase = displacing old }) h

abbrev pub closed_entry : Option Entry → ℕ → Hub → Hub
closed_entry none r h = h
closed_entry (some e) r h = set_entry r (record e { session = close e.session }) h

-- `old_clone.close()`.
abbrev pub close_other : ℕ → Hub → Hub
close_other r h = closed_entry (get r h.store) r h

abbrev pub is_closed : Option Entry → Bool
is_closed none = false
is_closed (some e) = e.session.closed

abbrev pub clean : Option ℕ → Text → Hub → Hub
clean none id h = h
clean (some cur) id h =
    if is_closed (get cur h.store)
    then record h { sessions = remove id h.sessions; connected = pred_ℤ h.connected }
    else h

unfoldable pub cleanup_session : Text → Hub → Hub
cleanup_session id h = clean (get id h.sessions) id h

-- The next step of the task of connection `r`.
abbrev pub act : ℕ → Entry → Phase → Hub → Hub
act r e arrived h = look_up r e (get e.session.spoke_id h.sessions) h
act r e (displacing old) h = close_other old (set_entry r (record e { phase = replacing }) h)
act r e replacing h = register r e h
act r e serving h = set_entry r (record { session = close e.session; phase = leaving }) h
act r e leaving h = set_entry r (record e { phase = gone }) (cleanup_session e.session.spoke_id h)
act r e gone h = h

abbrev pub advance_entry : ℕ → Option Entry → Hub → Hub
advance_entry r none h = h
advance_entry r (some e) h = act r e e.phase h

unfoldable pub advance : ℕ → Hub → Hub
unfolding close cleanup_session
advance r h = advance_entry r (get r h.store) h

-- A new connection whose handshake was admitted; a reference that is in use is no new one.
unfoldable pub arrive : ℕ → Text → Channel ServerFrame → Hub → Hub
arrive r id tx h =
    if contains_key r h.store
    then h
    else set_entry r (record { session = new_session id tx; phase = arrived }) h

pub data Move : Type 0 where
  arrival : ℕ → Text → Channel ServerFrame → Move
  turn : ℕ → Move

unfoldable pub move : Move → Hub → Hub
move (arrival r id tx) h = arrive r id tx h
move (turn r) h = advance r h

-- A schedule: which task takes the next step.
unfoldable pub schedule : List Move → Hub → Hub
schedule [] h = h
schedule (m ∷ ms) h = schedule ms (move m h)

abbrev pub new_hub : Hub
new_hub = record { sessions = []; store = []; connected = openspoke.Common.Int.pos 0 }
