-- ===== src/Common/Eq.antt =====
-- Rust's `Eq`: a Boolean test that decides equality. Keys of maps and members of sets have one.
use Prim.Native.Nat.{ℕ}
use mathlib.Core.Path.{◌≡◌, refl}
use mathlib.Core.Logic.{◌≢◌, ◌↔◌, ◌⊎◌, inl, inr}
use mathlib.Core.Bool.{Bool, true, false, ◌&&◌}
use mathlib.Core.List.{List, [], ◌∷◌}
use native.Mathlib.Omega.{arith}
use openspoke.Common.Tests.{nat_beq, nat_beq_iff, Bool-cases}

pub record Eq {κ} (K : Type κ) : Type κ where
  pub test : K → K → Bool
  pub decides : (x y : K) → (test x y ≡ true) ↔ (x ≡ y)

instance abbrev pub nat_eq : Eq ℕ
nat_eq = record { test = nat_beq; decides = nat_beq_iff }

-- Rust's `==`.
infix 50 ◌==◌
abbrev pub ◌==◌ {κ} : {K : Type κ} ⦃d : Eq K⦄ → K → K → Bool
◌==◌ ⦃d⦄ = d.test

module _ {ℓ} {A : Type ℓ} ⦃e : Eq A⦄ where
  -- Equality of sequences: `Vec<A> == Vec<A>`, and of texts.
  unfoldable pub list_beq : List A → List A → Bool
  list_beq [] [] = true
  list_beq (x ∷ xs) (y ∷ ys) = x == y && list_beq xs ys
  list_beq _ _ = false

  pub list_beq_iff : (xs ys : List A) → (list_beq xs ys ≡ true) ↔ (xs ≡ ys)
  unfolding list_beq
  list_beq_iff [] [] = ground arith
  list_beq_iff (x ∷ xs) (y ∷ ys) = ground (arith, e.decides x y, list_beq_iff xs ys)
  list_beq_iff [] (y ∷ ys) = ground arith
  list_beq_iff (x ∷ xs) [] = ground arith

  pub beq_refl : (a : A) → a == a ≡ true
  beq_refl a = (e.decides a a).1 refl

  -- The two answers of the test, each with what it says.
  pub beq-cases : (a b : A) → ((a == b ≡ true) × (a ≡ b)) ⊎ ((a == b ≡ false) × ¬ (a ≡ b))
  beq-cases a b = elim (Bool-cases (a == b)) [
    | inl h ↦ inl (h, (e.decides a b).0 h)
    | inr h ↦ inr (h, λ p. ground (arith, (e.decides a b).1 p))
  ]

instance abbrev pub list_eq {ℓ} : {A : Type ℓ} ⦃e : Eq A⦄ → Eq (List A)
list_eq = record { test = list_beq; decides = list_beq_iff }

-- Different numbers fail the test.
pub miss : (n p : ℕ) → p ≢ n → n == p ≡ false
miss n p h = ground (arith, nat_beq_iff n p)
