-- ===== src/Tunnel/Up.antt =====
-- The bytes of a target at the spoke on their way to the TCP connection at the hub: `run_stream` of
-- tunnel-client, then `recv_loop` of tunnel-server.
use openspoke.Common.{
  ℕ, ◌≡◌, ◌≢◌, refl, sym, ap, subst, true, false, Option, none, some, List, [], ◌∷◌, ◌++◌, map,
  arith, All, ok, if◌then◌else◌, inl, inr,
}
use openspoke.Common.Eq.{nat_eq, ◌==◌, beq-cases, beq_refl}
use openspoke.Common.Dict.{get}
use openspoke.Common.Channel.{Channel, fed}
use openspoke.Wire.{Bytes, ClientFrame, ClientKind}
use openspoke.Server.Config.{SpokeConfig}
use openspoke.Server.Session.{Conn}
use openspoke.Server.Receive.{recv_loop}
use openspoke.Server.Receive.Feed.{data_in, data_of, KeepsOpen, FrameKeepsOpen, recv_loop-feeds}
use openspoke.Client.Session.{Session, client_data}
use openspoke.Client.Pump.{PumpEvent, read_ok, read_err, inbound, inbound_closed, pump_loop}
use openspoke.Client.Pump.Frames.{frames_of, pump_loop-frames}
use openspoke.Tunnel.Down.{KeepsPumping}

-- What the pump reads from the target.
abbrev pub chunks_in : PumpEvent → List Bytes
chunks_in (read_ok (b ∷ bs)) = (b ∷ bs) ∷ []
chunks_in _ = []

unfoldable pub chunks_of : List PumpEvent → List Bytes
chunks_of [] = []
chunks_of (e ∷ es) = chunks_in e ++ chunks_of es

-- The frames of one stream among those of a connection.
unfoldable pub about : ℕ → List ClientFrame → List ClientFrame
about sid [] = []
about sid (f ∷ fs) = let rest = about sid fs in if f.stream_id == sid then f ∷ rest else rest

-- Data frames of the stream, with what they carry.
pub data IsData (sid : ℕ) : List ClientFrame → List Bytes → Type 0 where
  done : IsData sid [] []
  more :
      {fs : List ClientFrame} {ps : List Bytes} (p : Bytes)
      → IsData sid fs ps
      → IsData sid (client_data sid p ∷ fs) (p ∷ ps)

frames_of-IsData :
    (sid : ℕ) (es : List PumpEvent)
    → All KeepsPumping es
    → IsData sid (frames_of sid es) (chunks_of es)
unfolding frames_of chunks_of
frames_of-IsData sid [] h = done
frames_of-IsData sid (read_ok [] ∷ es) h = absurd h.0
frames_of-IsData sid (read_ok (b ∷ bs) ∷ es) h = more (b ∷ bs) (frames_of-IsData sid es h.1)
frames_of-IsData sid (read_err ∷ es) h = absurd h.0
frames_of-IsData sid (inbound p true ∷ es) h = frames_of-IsData sid es h.1
frames_of-IsData sid (inbound p false ∷ es) h = absurd (clash h.0)
  where
    clash : false ≡ true → ⊥
    clash k = cc
frames_of-IsData sid (inbound_closed ∷ es) h = absurd h.0

-- Frames among which those of the stream are such.
abbrev Carries : ℕ → List ClientFrame → List Bytes → Type 0
Carries sid fs ps = All (FrameKeepsOpen sid) fs × (data_of sid fs ≡ ps)

KeepsOpen-other :
    (sid j : ℕ) (k : Option ClientKind) → j ≢ sid → KeepsOpen sid j k × (data_in sid j k ≡ [])
KeepsOpen-other sid j (some (ClientKind.payload p)) h =
    let t : j == sid ≡ false = ground arith in (tt, rw t refl)
KeepsOpen-other sid j (some (ClientKind.close_stream x)) h = (h, refl)
KeepsOpen-other sid j (some (ClientKind.pong x)) h = (tt, refl)
KeepsOpen-other sid j (some (ClientKind.handshake x)) h = (tt, refl)
KeepsOpen-other sid j (some (ClientKind.http_request x)) h = (tt, refl)
KeepsOpen-other sid j none h = (tt, refl)

-- The first of such frames.
IsData-first :
    (sid : ℕ) (f : ClientFrame) (rest gs : List ClientFrame) (ps : List Bytes)
    → IsData sid gs ps
    → f ∷ rest ≡ gs
    → (p : Bytes) × (qs : List Bytes) × (f ≡ client_data sid p) × (ps ≡ p ∷ qs) × IsData sid rest qs
IsData-first sid f rest _ _ done e = cc
IsData-first sid f rest _ _ (more {fs = gs} {ps} p d) e =
    let tails : rest ≡ gs = cc e in
    (p, ps, cc e, refl, subst (λ xs. IsData sid xs ps) (sym tails) d)

about-Carries :
    (sid : ℕ) (fs gs : List ClientFrame) (ps : List Bytes)
    → about sid fs ≡ gs
    → IsData sid gs ps
    → Carries sid fs ps
unfolding about data_of
about-Carries sid [] _ _ e done = (tt, refl)
about-Carries sid [] _ _ e (more p d) = cc
about-Carries sid (f ∷ fs) gs ps e d = elim (beq-cases f.stream_id sid) [
  | inl (t, p) ↦
      let (b, qs, own, whole, d') = IsData-first sid f (about sid fs) gs ps d (rw t at e) in
      let (ks, q) = about-Carries sid fs (about sid fs) qs refl d' in
      rw (own, whole) ((tt, ks), rw (beq_refl sid) (ap (λ xs. b ∷ xs) q))
  | inr (t, p) ↦
      let (k, none_in) = KeepsOpen-other sid f.stream_id f.kind p in
      let (ks, q) = about-Carries sid fs gs ps (rw t at e) d in ((k, ks), rw none_in q)
]

-- While neither end of a stream is closed, a spoke's pump sends the hub one data frame for each chunk
-- that it reads from the target; and from any frames in which these are the stream's own, in their
-- order, the hub hands the writer of the stream's TCP connection exactly those chunks, in order.
pub up_stream :
    (sc : SpokeConfig) (sid : ℕ) (pes : List PumpEvent) (s : Session) (fs : List ClientFrame)
    (c : Conn) (w : Channel Bytes)
    → s.shared.hub.is_open ≡ true
    → All KeepsPumping pes
    → about sid fs ≡ frames_of sid pes
    → get sid c.session.streams ≡ some w
    → w.is_open ≡ true
    → ((pump_loop sid pes s).session.shared.hub.sent ≡ s.shared.hub.sent ++ frames_of sid pes)
      × (get sid (recv_loop sc (map ok fs) c).0.session.streams ≡ some (fed w (chunks_of pes)))
up_stream sc sid pes s fs c w o h e g ow =
    let (keep, carry) =
      about-Carries sid fs (frames_of sid pes) (chunks_of pes) e (frames_of-IsData sid pes h) in
    ((pump_loop-frames sid pes s o).0, rw (← carry) (recv_loop-feeds sc sid fs c w keep g ow))
