-- ===== src/Client/Pump.antt =====
-- `run_stream` of spoke/images/tunnel-client/src/main.rs: the task that pumps one stream between its
-- target and the hub.
pub mod Frames
use openspoke.Common.{ℕ, Bool, true, false, List, [], ◌∷◌, ◌++◌, if◌then◌else◌}
use openspoke.Common.Eq.{nat_eq}
use openspoke.Common.Dict.{remove}
use openspoke.Common.Text.{Text, codes}
use openspoke.Wire.{Bytes}
use openspoke.Client.Session.{Session, send_hub, client_close, client_data}

-- What `TcpStream::connect` within five seconds gives.
pub data Dial : Type 0 where
  dialled dial_timeout : Dial
  dial_failed : Text → Dial

-- What the pump's `select!` meets: a read of the target (none at its end), an error of it, or what
-- the session hands over, with whether the write of it succeeds; `none` where it dropped the sender.
pub data PumpEvent : Type 0 where
  read_ok : Bytes → PumpEvent
  read_err : PumpEvent
  inbound : Bytes → Bool → PumpEvent
  inbound_closed : PumpEvent

-- One round: the state, the bytes written to the target, and whether the loop goes on.
pub record Round : Type 0 where
  pub session : Session
  pub written : List Bytes
  pub running : Bool

unfoldable pub pump_step : ℕ → PumpEvent → Session → Round
pump_step sid (read_ok []) s = record {
  session = (send_hub (client_close sid true (codes "eof")) s).0;
  written = [];
  running = false;
}
pump_step sid (read_ok (b ∷ bs)) s =
    let (s', sent) = send_hub (client_data sid (b ∷ bs)) s in
    record { session = s'; written = []; running = sent }
pump_step sid read_err s = record {
  session = (send_hub (client_close sid true (codes "eof")) s).0;
  written = [];
  running = false;
}
pump_step sid (inbound p written) s = record {
  session = s;
  written = if written then p ∷ [] else [];
  running = written;
}
pump_step sid inbound_closed s = record { session = s; written = []; running = false }

-- The loop over what happens; `running` is `true` where it still waits for more.
unfoldable pub pump_loop : ℕ → List PumpEvent → Session → Round
pump_loop sid [] s = record { session = s; written = []; running = true }
pump_loop sid (e ∷ es) s =
    let r = pump_step sid e s in
    let rest = pump_loop sid es r.session in
    if r.running
    then record {
      session = rest.session;
      written = r.written ++ rest.written;
      running = rest.running;
    }
    else r

abbrev pub drop_ended : ℕ → Round → Round
drop_ended sid r =
    if r.running
    then r
    else record r { session = record r.session { streams = remove sid r.session.streams } }

abbrev pub give_up : ℕ → Text → Session → Round
give_up sid reason s =
    let s' = (send_hub (client_close sid false reason) s).0 in
    record {
      session = record s' { streams = remove sid s'.streams };
      written = [];
      running = false;
    }

unfoldable pub run_stream : ℕ → Dial → List PumpEvent → Session → Round
unfolding send_hub pump_loop
run_stream sid dialled es s = drop_ended sid (pump_loop sid es s)
run_stream sid dial_timeout es s = give_up sid (codes "dial timeout") s
run_stream sid (dial_failed e) es s = give_up sid e s
