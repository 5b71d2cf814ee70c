-- ===== src/Tunnel/System/Log.antt =====
-- The frames of one side of a tunnel in the order in which they were sent.
use openspoke.Common.{
  ℕ, ◌≤◌, ◌<◌, ◌≡◌, refl, sym, subst, ap, ◌∙◌, Option, none, some, List, [], ◌∷◌, ◌++◌, arith, All,
  false,
}
use mathlib.Core.List.{append-nil, append_assoc}
use openspoke.Common.Eq.{nat_eq, ◌==◌}
use openspoke.Wire.{ServerFrame, ServerKind, ClientFrame, ClientKind}
use openspoke.Server.Receive.Feed as Up
use openspoke.Tunnel.System.Sends.{KindWithin}
use openspoke.Tunnel.System.SpokeSends.{IsBelow, KindBelow}
use openspoke.Tunnel.System.SpokeTakes.{KindFresh, IsFresh}

-- A frame of the hub with data for an id, or the opening of one, that the hub has given out.
abbrev pub KindGiven : ℕ → ℕ → Option ServerKind → Type 0
KindGiven last j (some (ServerKind.payload p)) = j ≤ last
KindGiven last j (some (ServerKind.open_stream o)) = j ≤ last
KindGiven last j (some (ServerKind.challenge c)) = Unit
KindGiven last j (some (ServerKind.close_stream c)) = Unit
KindGiven last j (some (ServerKind.ping t)) = Unit
KindGiven last j (some (ServerKind.http_response r)) = Unit
KindGiven last j none = Unit

abbrev pub IsGiven : ℕ → ServerFrame → Type 0
IsGiven last f = KindGiven last f.stream_id f.kind

-- Every opening is one of a stream for which nothing came before, `seen` being in front.
abbrev pub OpensFresh : List ServerFrame → List ServerFrame → Type 0
OpensFresh seen [] = Unit
OpensFresh seen (f ∷ fs) = IsFresh seen f × OpensFresh (seen ++ f ∷ []) fs

pub OpensFresh-snoc :
    (seen fs : List ServerFrame) (g : ServerFrame)
    → OpensFresh seen fs
    → IsFresh (seen ++ fs) g
    → OpensFresh seen (fs ++ g ∷ [])
OpensFresh-snoc seen [] g h new = (subst (λ xs. IsFresh xs g) (append-nil seen) new, tt)
OpensFresh-snoc seen (f ∷ fs) g h new = (
  h.0,
  OpensFresh-snoc (seen ++ f ∷ []) fs g h.1
      (subst (λ xs. IsFresh xs g) (sym (append_assoc seen (f ∷ []) fs)) new),
)

pub OpensFresh-at :
    (seen fs : List ServerFrame) (g : ServerFrame) (rest : List ServerFrame)
    → OpensFresh seen (fs ++ g ∷ rest)
    → IsFresh (seen ++ fs) g
OpensFresh-at seen [] g rest h = subst (λ xs. IsFresh xs g) (sym (append-nil seen)) h.0
OpensFresh-at seen (f ∷ fs) g rest h =
    subst (λ xs. IsFresh xs g) (append_assoc seen (f ∷ []) fs)
      (OpensFresh-at (seen ++ f ∷ []) fs g rest h.1)

-- A higher counter.
pub KindGiven-mono : (m n j : ℕ) (k : Option ServerKind) → m ≤ n → KindGiven m j k → KindGiven n j k
KindGiven-mono m n j (some (ServerKind.payload p)) le h = omega arith
KindGiven-mono m n j (some (ServerKind.open_stream o)) le h = omega arith
KindGiven-mono m n j (some (ServerKind.challenge c)) le h = tt
KindGiven-mono m n j (some (ServerKind.close_stream c)) le h = tt
KindGiven-mono m n j (some (ServerKind.ping t)) le h = tt
KindGiven-mono m n j (some (ServerKind.http_response r)) le h = tt
KindGiven-mono m n j none le h = tt

pub KindBelow-mono : (m n j : ℕ) (k : Option ClientKind) → m ≤ n → KindBelow m j k → KindBelow n j k
KindBelow-mono m n j (some (ClientKind.payload p)) le h = omega arith
KindBelow-mono m n j (some (ClientKind.handshake c)) le h = tt
KindBelow-mono m n j (some (ClientKind.close_stream c)) le h = tt
KindBelow-mono m n j (some (ClientKind.pong t)) le h = tt
KindBelow-mono m n j (some (ClientKind.http_request r)) le h = tt
KindBelow-mono m n j none le h = tt

pub KindWithin-KindGiven :
    (m n : ℕ) (log : List ServerFrame) (j : ℕ) (k : Option ServerKind)
    → m ≤ n
    → KindWithin m log j k
    → KindGiven n j k
KindWithin-KindGiven m n log j (some (ServerKind.payload p)) le h = omega arith
KindWithin-KindGiven m n log j (some (ServerKind.open_stream o)) le h = omega (arith, h.0)
KindWithin-KindGiven m n log j (some (ServerKind.challenge c)) le h = tt
KindWithin-KindGiven m n log j (some (ServerKind.close_stream c)) le h = tt
KindWithin-KindGiven m n log j (some (ServerKind.ping t)) le h = tt
KindWithin-KindGiven m n log j (some (ServerKind.http_response r)) le h = tt
KindWithin-KindGiven m n log j none le h = tt

-- Above the counter, nothing came for an id.
KindBelow-above :
    (m sid j : ℕ) (k : Option ClientKind) → m < sid → KindBelow m j k → Up.data_in sid j k ≡ []
KindBelow-above m sid j (some (ClientKind.payload p)) lt h =
    let t : j == sid ≡ false = ground arith in rw t refl
KindBelow-above m sid j (some (ClientKind.handshake c)) lt h = refl
KindBelow-above m sid j (some (ClientKind.close_stream c)) lt h = refl
KindBelow-above m sid j (some (ClientKind.pong t)) lt h = refl
KindBelow-above m sid j (some (ClientKind.http_request r)) lt h = refl
KindBelow-above m sid j none lt h = refl

pub up_above :
    (m sid : ℕ) (log : List ClientFrame) → m < sid → All (IsBelow m) log → Up.data_of sid log ≡ []
unfolding Up.data_of
up_above m sid [] lt h = refl
up_above m sid (f ∷ fs) lt h =
    rw (KindBelow-above m sid f.stream_id f.kind lt h.0) (up_above m sid fs lt h.1)

-- A frame behind `log` opens no stream for which something came.
pub KindWithin-KindFresh :
    (last : ℕ) (log : List ServerFrame) (j : ℕ) (k : Option ServerKind)
    → KindWithin last log j k
    → KindFresh log j k
KindWithin-KindFresh last log j (some (ServerKind.open_stream o)) h = h.1
KindWithin-KindFresh last log j (some (ServerKind.payload p)) h = tt
KindWithin-KindFresh last log j (some (ServerKind.challenge c)) h = tt
KindWithin-KindFresh last log j (some (ServerKind.close_stream c)) h = tt
KindWithin-KindFresh last log j (some (ServerKind.ping t)) h = tt
KindWithin-KindFresh last log j (some (ServerKind.http_response r)) h = tt
KindWithin-KindFresh last log j none h = tt

pub up_append :
    (sid : ℕ) (xs ys : List ClientFrame)
    → Up.data_of sid (xs ++ ys) ≡ Up.data_of sid xs ++ Up.data_of sid ys
unfolding Up.data_of
up_append sid [] ys = refl
up_append sid (x ∷ xs) ys =
    ap (λ ps. Up.data_in sid x.stream_id x.kind ++ ps) (up_append sid xs ys)
    ∙ sym (append_assoc (Up.data_in sid x.stream_id x.kind) (Up.data_of sid xs) (Up.data_of sid ys))
