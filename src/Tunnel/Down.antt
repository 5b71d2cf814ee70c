-- ===== src/Tunnel/Down.antt =====
-- The bytes of a TCP connection at the hub on their way to the target at the spoke: `accept_loop` of
-- tunnel-server, then `run_session_impl` and `run_stream` of tunnel-client.
use openspoke.Common.{
  ℕ, ◌+◌, ◌^◌, ◌≤◌, ◌<◌, ◌≡◌, refl, ap, ◌∙◌, true, false, some, List, [], ◌∷◌, ◌++◌, map, All,
  length, ok,
}
use openspoke.Common.Eq.{nat_eq}
use openspoke.Common.Dict.{get}
use openspoke.Common.Channel.{Channel, fed}
use openspoke.Common.Text.{Text}
use openspoke.Wire.{Bytes, ServerFrame}
use openspoke.Server.Config.{ServerConfig, SpokeConfig}
use openspoke.Server.Http.{HttpClient}
use openspoke.Server.Stream.{Event, Live, run}
use openspoke.Client.Config.{ClientConfig}
use openspoke.Client.Session.{Session, session_loop}
use openspoke.Client.Session.Feed.{EndsWith, session_loop-EndsWith}
use openspoke.Client.Pump.{PumpEvent, read_ok, read_err, inbound, inbound_closed, pump_loop}
use openspoke.Client.Pump.Frames.{writes_of, pump_loop-frames}
use openspoke.Tunnel.Sent.{GoesOn, reads_of, run-Sends}

-- Nothing that ends the pump: neither the end of the target nor a failed write.
abbrev pub KeepsPumping : PumpEvent → Type 0
KeepsPumping (read_ok []) = ⊥
KeepsPumping (read_ok (b ∷ bs)) = Unit
KeepsPumping read_err = ⊥
KeepsPumping (inbound p done) = done ≡ true
KeepsPumping inbound_closed = ⊥

-- What the pump takes from its channel.
abbrev pub taken_in : PumpEvent → List Bytes
taken_in (inbound p done) = p ∷ []
taken_in _ = []

unfoldable pub taken : List PumpEvent → List Bytes
taken [] = []
taken (e ∷ es) = taken_in e ++ taken es

writes_of-taken : (es : List PumpEvent) → All KeepsPumping es → writes_of es ≡ taken es
unfolding writes_of taken
writes_of-taken [] h = refl
writes_of-taken (read_ok [] ∷ es) h = absurd h.0
writes_of-taken (read_ok (b ∷ bs) ∷ es) h = writes_of-taken es h.1
writes_of-taken (read_err ∷ es) h = absurd h.0
writes_of-taken (inbound p true ∷ es) h = ap (λ ps. p ∷ ps) (writes_of-taken es h.1)
writes_of-taken (inbound p false ∷ es) h = absurd (clash h.0)
  where
    clash : false ≡ true → ⊥
    clash k = cc
writes_of-taken (inbound_closed ∷ es) h = absurd h.0

-- What tunnel-server sent on a connection after `l`, as tunnel-client's session gets it.
abbrev pub Delivered :
    (Text → Text) → ClientConfig → ℕ → Live → Live → Session → Channel Bytes → Type 0
Delivered debug ccfg sid l l' s w =
    (frames : List ServerFrame) × (l'.conn.session.server_tx ≡ fed l.conn.session.server_tx frames)
    × EndsWith debug ccfg sid (session_loop debug ccfg (map ok frames) s) w

-- From when both sides have a stream open, and while its TCP connection at the hub has not ended, it
-- is not announced again and the stream between the programs stands, the frames that the hub sends,
-- whatever else happens on the connection, hand the spoke's pump exactly the chunks that the hub reads from the TCP
-- connection, in order; and a pump that takes them, and whose writes succeed, writes exactly these
-- to the target.
pub down_stream :
    (client : HttpClient) (cfg : ServerConfig) (sc : SpokeConfig) (debug : Text → Text)
    (ccfg : ClientConfig) (sid : ℕ) (es : List Event) (l : Live) (s t : Session) (w : Channel Bytes)
    (pes : List PumpEvent)
    → l.conn.session.server_tx.is_open ≡ true
    → All (GoesOn sid) es
    → sid ≤ l.last_sid
    → l.last_sid + length es < 2 ^ 64
    → get sid s.streams ≡ some w
    → w.is_open ≡ true
    → t.shared.hub.is_open ≡ true
    → All KeepsPumping pes
    → taken pes ≡ w.sent ++ reads_of sid es
    → Delivered debug ccfg sid l (run client cfg sc es l) s (fed w (reads_of sid es))
      × ((pump_loop sid pes t).written ≡ w.sent ++ reads_of sid es)
down_stream client cfg sc debug ccfg sid es l s t w pes o h le lt g ow ot k q =
    let sends = run-Sends client cfg sc sid es l o h le lt in
    let ended = session_loop-EndsWith debug ccfg sid sends.frames s w sends.keep g ow in
    (
      (sends.frames, sends.sent, rw (← sends.carry) ended),
      (pump_loop-frames sid pes t ot).1 ∙ writes_of-taken pes k ∙ q,
    )
