-- ===== src/Common/Channel.antt =====
-- The sending half of a `tokio::sync::mpsc` channel: what the receiver has been handed, in order,
-- and whether the receiver is still there. A send waits while the channel is full; the wait ends
-- with one of the two outcomes of `send`.
use mathlib.Core.Path.{◌≡◌, refl, ap}
use mathlib.Core.Logic.{◌⊎◌, inl, inr}
use mathlib.Core.Bool.{Bool, true, false}
use mathlib.Core.List.{List, [], ◌∷◌, ◌++◌}
use mathlib.Core.List.{append-nil}
use native.Mathlib.Omega.{arith}
use openspoke.Common.Tests.{if◌then◌else◌, Bool-cases}

pub record Channel {ℓ} (A : Type ℓ) : Type ℓ where
  pub sent : List A
  pub is_open : Bool

abbrev pub empty_channel {ℓ} : {A : Type ℓ} → Channel A
empty_channel = record { sent = []; is_open = true }

-- `tx.send(a).await`: the channel after it, and whether it succeeded.
unfoldable pub send {ℓ} : {A : Type ℓ} → A → Channel A → Channel A × Bool
send a c = if c.is_open then (record c { sent = c.sent ++ a ∷ [] }, true) else (c, false)

pub send-open {ℓ} :
    {A : Type ℓ} (a : A) (c : Channel A)
    → c.is_open ≡ true
    → send a c ≡ (record { sent = c.sent ++ a ∷ []; is_open = true }, true)
unfolding send
send-open a c h = rw h

-- A channel that is open, after more was sent.
abbrev pub fed {ℓ} : {A : Type ℓ} → Channel A → List A → Channel A
fed c xs = record { sent = c.sent ++ xs; is_open = true }

pub fed-nil {ℓ} : {A : Type ℓ} (c : Channel A) → c.is_open ≡ true → c ≡ fed c []
fed-nil c o = ground (arith, append-nil c.sent, o)

-- At most one more item was handed over, and that one satisfies `P`.
abbrev pub Grows {ℓ} : {A : Type ℓ} → (A → Type 0) → Channel A → Channel A → Type ℓ
Grows {A = A} P c c' = (c'.sent ≡ c.sent) ⊎ ((a : A) × P a × (c'.sent ≡ c.sent ++ a ∷ []))

pub Grows-send {ℓ} :
    {A : Type ℓ} (P : A → Type 0) (a : A) (c : Channel A) → P a → Grows P c (send a c).0
unfolding send
Grows-send P a c p = elim (Bool-cases c.is_open) [
  | inl t ↦ rw t (inr (a, p, refl))
  | inr t ↦ rw t (inl refl)
]

pub Grows-same {ℓ} : {A : Type ℓ} (P : A → Type 0) (c c' : Channel A) → c' ≡ c → Grows P c c'
Grows-same {A = A} P c c' e = inl (ap (λ (x : Channel A). x.sent) e)
