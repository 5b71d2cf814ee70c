-- ===== src/Server/Connection.antt =====
-- `handle_connection` of hub/images/tunnel-server/src/main.rs from end to end, for a task that runs
-- alone: the handshake, the entry into the table, the listeners, what happens on the connection until
-- its stream ends, and the clean-up.
pub mod Alone
use openspoke.Common.{ℕ, Option, none, some, List, [], ◌∷◌, if◌then◌else◌, Result, ok, err}
use openspoke.Common.Eq.{list_eq, nat_eq}
use openspoke.Common.Dict.{contains_key}
use openspoke.Common.Channel.{Channel}
use openspoke.Common.Text.{Text}
use openspoke.Wire.{ServerFrame, ClientFrame, HandshakeResponse}
use openspoke.Server.Config.{ServerConfig, SpokeConfig}
use openspoke.Server.Metrics.{Metrics}
use openspoke.Server.Session.{SpokeSession, Conn, new_session}
use openspoke.Server.Handshake.{Admission, admit}
use openspoke.Server.Http.{HttpClient}
use openspoke.Server.Stream.{Event, Live, step, run}
use openspoke.Server.Registry.{Hub, serving, set_entry, arrive, advance}
use openspoke.Server.Listen.{bind_ports}

-- What the task leaves behind.
pub record Finished : Type 0 where
  pub result : Result Text (Unit {0})
  pub hub : Hub
  pub metrics : Metrics
  pub last_sid : ℕ

-- A connection's view of the shared state as its session begins.
abbrev pub fresh_live : Text → Channel ServerFrame → Metrics → ℕ → Live
fresh_live id tx m last = record {
  conn = record { session = new_session id tx; metrics = m };
  last_sid = last;
}

-- The turns up to the entry into the table: three where an older session is displaced.
unfoldable pub enter : ℕ → Text → Channel ServerFrame → Hub → Hub
enter r id tx h =
    let h' = advance r (arrive r id tx h) in
    if contains_key id h.sessions then advance r (advance r h') else h'

-- `session.close()` and `cleanup_session`, with the session as it is by then.
unfoldable pub leave : ℕ → SpokeSession → Hub → Hub
leave r s h = advance r (advance r (set_entry r (record { session = s; phase = serving }) h))

abbrev pub finish : ℕ → Result Text (Unit {0}) → Live → Hub → Finished
finish r result l h = record {
  result = result;
  hub = leave r l.conn.session h;
  metrics = l.conn.metrics;
  last_sid = l.last_sid;
}

-- After the attempt to open the ports: what happens on the connection only happens if they are open.
abbrev pub attend : ℕ → Option Text → Live → Live → Hub → Finished
attend r none l l' h = finish r (ok tt) l' h
attend r (some e) l l' h = finish r (err e) l h

-- The connection `r`, whose stream ends after `es`; `bind` says which ports can be opened.
abbrev pub admitted :
    HttpClient
    → ServerConfig
    → (ℕ → Option Text)
    → ℕ
    → Channel ServerFrame
    → List Event
    → ℕ
    → Hub
    → Admission
    → Finished
admitted client cfg bind r tx es last h (err e, m) = record {
  result = err e;
  hub = h;
  metrics = m;
  last_sid = last;
}
admitted client cfg bind r tx es last h (ok (hs, sc), m) =
    let start = fresh_live hs.spoke_id tx m last in
    attend r (bind_ports bind sc.ports).1 start (run client cfg sc es start)
      (enter r hs.spoke_id tx h)

unfoldable pub handle_connection :
    HttpClient
    → ServerConfig
    → (ℕ → Option Text)
    → ℕ
    → Channel ServerFrame
    → Option (Result Text ClientFrame)
    → List Event
    → ℕ
    → Hub
    → Metrics
    → Finished
unfolding admit enter leave run bind_ports
handle_connection client cfg bind r tx first es last h m =
    admitted client cfg bind r tx es last h (admit cfg first m)
