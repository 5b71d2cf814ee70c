-- ===== src/Client/Pump/Frames.antt =====
-- What a pump carries between its target and the hub.
use openspoke.Common.{ℕ, ◌≡◌, refl, sym, ap, ◌∙◌, true, false, List, [], ◌∷◌, ◌++◌}
use mathlib.Core.List.{append_assoc, append-nil}
use openspoke.Common.Eq.{nat_eq}
use openspoke.Common.Channel.{send-open}
use openspoke.Common.Text.{codes}
use openspoke.Wire.{Bytes, ClientFrame}
use openspoke.Client.Session.{Session, send_hub, client_data, client_close}
use openspoke.Client.Pump.{
  PumpEvent, read_ok, read_err, inbound, inbound_closed, pump_step, pump_loop,
}

-- The frames that the events of a pump make, in order, up to and with the one that ends it.
unfoldable pub frames_of : ℕ → List PumpEvent → List ClientFrame
frames_of sid [] = []
frames_of sid (read_ok [] ∷ es) = client_close sid true (codes "eof") ∷ []
frames_of sid (read_ok (b ∷ bs) ∷ es) = client_data sid (b ∷ bs) ∷ frames_of sid es
frames_of sid (read_err ∷ es) = client_close sid true (codes "eof") ∷ []
frames_of sid (inbound p true ∷ es) = frames_of sid es
frames_of sid (inbound p false ∷ es) = []
frames_of sid (inbound_closed ∷ es) = []

-- The bytes that they write to the target.
unfoldable pub writes_of : List PumpEvent → List Bytes
writes_of [] = []
writes_of (read_ok [] ∷ es) = []
writes_of (read_ok (b ∷ bs) ∷ es) = writes_of es
writes_of (read_err ∷ es) = []
writes_of (inbound p true ∷ es) = p ∷ writes_of es
writes_of (inbound p false ∷ es) = []
writes_of (inbound_closed ∷ es) = []

-- The session after a frame was queued.
abbrev sent_session : ClientFrame → Session → Session
sent_session f s = record s {
  shared = record s.shared { hub = record { sent = s.shared.hub.sent ++ f ∷ []; is_open = true } };
}

send_hub-open :
    (f : ClientFrame) (s : Session)
    → s.shared.hub.is_open ≡ true
    → send_hub f s ≡ (sent_session f s, true)
unfolding send_hub
send_hub-open f s h = rw (send-open f s.shared.hub h)

eof_sent :
    (sid : ℕ) (s : Session)
    → s.shared.hub.is_open ≡ true
    → (send_hub (client_close sid true (codes "eof")) s).0.shared.hub.sent
      ≡ s.shared.hub.sent ++ client_close sid true (codes "eof") ∷ []
eof_sent sid s h = rw (send_hub-open (client_close sid true (codes "eof")) s h)

-- While the channel to the hub is open, every chunk that is read from the target is sent to the hub
-- as one data frame, in the order of the reads, the end of the target or an error of it as one
-- half-close behind them; and every chunk that the hub sent is written to the target, in order.
pub pump_loop-frames :
    (sid : ℕ) (es : List PumpEvent) (s : Session)
    → s.shared.hub.is_open ≡ true
    → ((pump_loop sid es s).session.shared.hub.sent ≡ s.shared.hub.sent ++ frames_of sid es)
      × ((pump_loop sid es s).written ≡ writes_of es)
unfolding pump_loop pump_step frames_of writes_of
pump_loop-frames sid [] s h = (sym (append-nil _), refl)
pump_loop-frames sid (read_ok [] ∷ es) s h = (eof_sent sid s h, refl)
pump_loop-frames sid (read_ok (b ∷ bs) ∷ es) s h =
    let f = client_data sid (b ∷ bs) in
    let rest = pump_loop-frames sid es (sent_session f s) refl in
    rw (send_hub-open f s h)
      (rest.0 ∙ append_assoc s.shared.hub.sent (f ∷ []) (frames_of sid es), rest.1)
pump_loop-frames sid (read_err ∷ es) s h = (eof_sent sid s h, refl)
pump_loop-frames sid (inbound p true ∷ es) s h =
    let rest = pump_loop-frames sid es s h in (rest.0, ap (λ ws. p ∷ ws) rest.1)
pump_loop-frames sid (inbound p false ∷ es) s h = (sym (append-nil _), refl)
pump_loop-frames sid (inbound_closed ∷ es) s h = (sym (append-nil _), refl)
