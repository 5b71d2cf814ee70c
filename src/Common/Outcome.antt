-- ===== src/Common/Outcome.antt =====
-- What a fallible computation gives where it succeeds, one rule for each way to build one.
use mathlib.Core.Path.{◌≡◌, subst}
use mathlib.Core.Bool.{Bool, true, false}
use openspoke.Common.Tests.{Result, ok, err, ◌>>=◌, if◌then◌else◌}
use mathlib.Core.Path.{refl}

-- The value of `r` satisfies `P`, if `r` has one.
abbrev pub Yields {ℓ κ μ} : {E : Type μ} {A : Type ℓ} → (A → Type κ) → Result E A → Type κ
Yields P (ok a) = P a
Yields P (err e) = Unit

module _ {ℓ κ μ} {E : Type μ} {A : Type ℓ} (P : A → Type κ) where
  pub Yields-ok : (r : Result E A) (a : A) → r ≡ ok a → Yields P r → P a
  Yields-ok r a e h = subst (Yields P) e h

  pub Yields-if :
      (b : Bool) (r s : Result E A)
      → (b ≡ true → Yields P r)
      → (b ≡ false → Yields P s)
      → Yields P (if b then r else s)
  Yields-if true r s h k = h refl
  Yields-if false r s h k = k refl

  pub Yields-bind {ℓ' κ'} :
      {B : Type ℓ'} (Q : B → Type κ') (m : Result E B) (f : B → Result E A)
      → Yields Q m
      → ((b : B) → Q b → Yields P (f b))
      → Yields P (m >>= f)
  Yields-bind Q (ok b) f h k = k b h
  Yields-bind Q (err e) f h k = tt

  -- The rule for a step of which nothing is needed.
  pub Yields-then {ℓ'} :
      {B : Type ℓ'} (m : Result E B) (f : B → Result E A)
      → ((b : B) → Yields P (f b))
      → Yields P (m >>= f)
  Yields-then (ok b) f k = k b
  Yields-then (err e) f k = tt
