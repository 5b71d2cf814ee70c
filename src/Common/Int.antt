-- ===== src/Common/Int.antt =====
-- Integers, for gauges that go up and down.
use Prim.Native.Nat.{ℕ, zero, suc, ◌+◌}
use mathlib.Core.Path.{◌≡◌, refl, sym, ap, ◌∙◌}
use native.Mathlib.Omega.{arith}

-- `negsuc n` is -(n + 1).
pub data ℤ : Type 0 where
  pos : ℕ → ℤ
  negsuc : ℕ → ℤ

unfoldable pub suc_ℤ : ℤ → ℤ
suc_ℤ (pos n) = pos (suc n)
suc_ℤ (negsuc zero) = pos zero
suc_ℤ (negsuc (suc n)) = negsuc n

unfoldable pub pred_ℤ : ℤ → ℤ
pred_ℤ (pos zero) = negsuc zero
pred_ℤ (pos (suc n)) = pos n
pred_ℤ (negsuc n) = negsuc (suc n)

pub pred_ℤ-suc_ℤ : (a : ℤ) → pred_ℤ (suc_ℤ a) ≡ a
unfolding pred_ℤ suc_ℤ
pred_ℤ-suc_ℤ (pos n) = refl
pred_ℤ-suc_ℤ (negsuc zero) = refl
pred_ℤ-suc_ℤ (negsuc (suc n)) = refl

pub suc_ℤ-pred_ℤ : (a : ℤ) → suc_ℤ (pred_ℤ a) ≡ a
unfolding pred_ℤ suc_ℤ
suc_ℤ-pred_ℤ (pos zero) = refl
suc_ℤ-pred_ℤ (pos (suc n)) = refl
suc_ℤ-pred_ℤ (negsuc n) = refl

-- n + a.
unfoldable pub add_ℕ : ℕ → ℤ → ℤ
add_ℕ zero a = a
add_ℕ (suc n) a = suc_ℤ (add_ℕ n a)

pub pred_ℤ-add_ℕ : (n : ℕ) (a : ℤ) → pred_ℤ (add_ℕ n a) ≡ add_ℕ n (pred_ℤ a)
unfolding add_ℕ
pred_ℤ-add_ℕ zero a = refl
pred_ℤ-add_ℕ (suc n) a =
    pred_ℤ-suc_ℤ (add_ℕ n a) ∙ sym (ap suc_ℤ (sym (pred_ℤ-add_ℕ n a)) ∙ suc_ℤ-pred_ℤ (add_ℕ n a))

-- a - n.
unfoldable pub sub_ℕ : ℕ → ℤ → ℤ
sub_ℕ zero a = a
sub_ℕ (suc n) a = sub_ℕ n (pred_ℤ a)

pub sub_ℕ-add : (m n : ℕ) (a : ℤ) → sub_ℕ (m + n) a ≡ sub_ℕ n (sub_ℕ m a)
unfolding sub_ℕ
sub_ℕ-add zero n a = let e : zero + n ≡ n = omega arith in ap (λ k. sub_ℕ k a) e
sub_ℕ-add (suc m) n a =
    let e : suc m + n ≡ suc (m + n) = omega arith in
    ap (λ k. sub_ℕ k a) e ∙ sub_ℕ-add m n (pred_ℤ a)
