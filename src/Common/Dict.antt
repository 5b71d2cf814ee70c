-- ===== src/Common/Dict.antt =====
-- Rust's `HashMap` as an association list. The order of the entries stands for the order of
-- iteration, which Rust leaves open: a theorem over every list covers every order.
use Prim.Native.Nat.{ℕ, suc, ◌≤◌, ◌<◌}
use mathlib.Core.Path.{◌≡◌, refl}
use mathlib.Core.Logic.{inl, inr}
use mathlib.Core.Bool.{Bool, true, false, ◌||◌}
use mathlib.Core.Option.{Option, none, some}
use mathlib.Core.List.{List, [], ◌∷◌}
use native.Mathlib.Omega.{arith}
use openspoke.Common.Tests.{if◌then◌else◌}
use openspoke.Common.Eq.{Eq, nat_eq, ◌==◌, beq_refl, beq-cases}
use openspoke.Common.Lists.{length}

abbrev pub Dict {ℓ κ} : Type ℓ → Type κ → Type (ℓ ⊔ κ)
Dict K V = List (K × V)

module _ {ℓ κ} {K : Type ℓ} {V : Type κ} ⦃e : Eq K⦄ where
  unfoldable pub get : K → Dict K V → Option V
  get k [] = none
  get k ((j, v) ∷ m) = if j == k then some v else get k m

  -- A key that is there keeps its place and gets the new value.
  unfoldable pub insert : K → V → Dict K V → Dict K V
  insert k v [] = (k, v) ∷ []
  insert k v ((j, w) ∷ m) = if j == k then (k, v) ∷ m else (j, w) ∷ insert k v m

  unfoldable pub remove : K → Dict K V → Dict K V
  remove k [] = []
  remove k ((j, v) ∷ m) = let rest = remove k m in if j == k then rest else (j, v) ∷ rest

  pub get-insert :
      (k j : K) (v : V) (m : Dict K V) → get j (insert k v m) ≡ (if k == j then some v else get j m)
  unfolding get insert
  get-insert k j v [] = refl
  get-insert k j v ((i, w) ∷ m) =
      ground (arith, e.decides k j, e.decides i k, e.decides i j, get-insert k j v m)

  pub get-insert_self : (k : K) (v : V) (m : Dict K V) → get k (insert k v m) ≡ some v
  get-insert_self k v m = rw (get-insert, beq_refl k)

  pub get-remove :
      (k j : K) (m : Dict K V) → get j (remove k m) ≡ (if k == j then none else get j m)
  unfolding get remove
  get-remove k j [] = ground arith
  get-remove k j ((i, w) ∷ m) =
      ground (arith, e.decides k j, e.decides i k, e.decides i j, get-remove k j m)

  -- The laws with the test decided.
  pub get-insert_hit :
      (k j : K) (v : V) (m : Dict K V) → k == j ≡ true → get j (insert k v m) ≡ some v
  get-insert_hit k j v m t = rw (get-insert k j v m, t)

  pub get-insert_miss :
      (k j : K) (v : V) (m : Dict K V) → k == j ≡ false → get j (insert k v m) ≡ get j m
  get-insert_miss k j v m t = rw (get-insert k j v m, t)

  pub get-remove_hit : (k j : K) (m : Dict K V) → k == j ≡ true → get j (remove k m) ≡ none
  get-remove_hit k j m t = rw (get-remove k j m, t)

  pub get-remove_miss : (k j : K) (m : Dict K V) → k == j ≡ false → get j (remove k m) ≡ get j m
  get-remove_miss k j m t = rw (get-remove k j m, t)

  pub get-remove_self : (k : K) (m : Dict K V) → get k (remove k m) ≡ none
  get-remove_self k m = rw (get-remove, beq_refl k)

  -- No key stands twice: what a `HashMap` keeps by itself.
  abbrev pub IsDistinct : Dict K V → Type κ
  IsDistinct [] = Unit
  IsDistinct ((k, v) ∷ m) = (get k m ≡ none) × IsDistinct m

  pub insert-IsDistinct : (k : K) (v : V) (m : Dict K V) → IsDistinct m → IsDistinct (insert k v m)
  unfolding insert get
  insert-IsDistinct k v [] h = (refl, tt)
  insert-IsDistinct k v ((j, w) ∷ m) h = elim (beq-cases j k) [
    | inl (t, p) ↦ ground arith
    | inr (t, p) ↦ ground (arith, get-insert k j v m, e.decides k j, insert-IsDistinct k v m h.1)
  ]

  pub remove-IsDistinct : (k : K) (m : Dict K V) → IsDistinct m → IsDistinct (remove k m)
  unfolding remove
  remove-IsDistinct k [] h = tt
  remove-IsDistinct k ((j, w) ∷ m) h = ground (arith, get-remove k j m, remove-IsDistinct k m h.1)

  pub remove_missing : (k : K) (m : Dict K V) → get k m ≡ none → remove k m ≡ m
  unfolding remove get
  remove_missing k [] h = refl
  remove_missing k ((j, w) ∷ m) h = ground (arith, remove_missing k m)

  pub remove-insert_new :
      (k : K) (v : V) (m : Dict K V) → get k m ≡ none → remove k (insert k v m) ≡ m
  unfolding remove insert get
  remove-insert_new k v [] h = ground (arith, beq_refl k)
  remove-insert_new k v ((j, w) ∷ m) h = ground (arith, beq_refl k, remove-insert_new k v m)

  pub length-insert_new :
      (k : K) (v : V) (m : Dict K V) → get k m ≡ none → length (insert k v m) ≡ suc (length m)
  unfolding insert get
  length-insert_new k v [] h = refl
  length-insert_new k v ((j, w) ∷ m) h = ground (arith, length-insert_new k v m)

  pub length-insert_old :
      (k : K) (v w : V) (m : Dict K V) → get k m ≡ some w → length (insert k v m) ≡ length m
  unfolding insert get
  length-insert_old k v w [] h = cc
  length-insert_old k v w ((j, x) ∷ m) h = ground (arith, length-insert_old k v w m)

  pub length-remove :
      (k : K) (v : V) (m : Dict K V)
      → IsDistinct m
      → get k m ≡ some v
      → suc (length (remove k m)) ≡ length m
  unfolding remove get
  length-remove k v [] d h = ground arith
  length-remove k v ((j, w) ∷ m) d h = elim (beq-cases j k) [
    | inl (t, p) ↦ ground (arith, remove_missing k m)
    | inr (t, p) ↦ ground (arith, length-remove k v m d.1)
  ]

  unfoldable pub contains_key : K → Dict K V → Bool
  contains_key k m = elim (get k m) [ none ↦ false | some v ↦ true ]

module _ {ℓ} {K : Type ℓ} ⦃e : Eq K⦄ where
  -- Membership in a `HashSet`, given as the list of its members.
  unfoldable pub contains : K → List K → Bool
  contains k [] = false
  contains k (j ∷ js) = j == k || contains k js

-- Keys that are numbers, none above `n`.
module _ {ℓ} {V : Type ℓ} where
  abbrev pub IsBelow : ℕ → Dict ℕ V → Type 0
  IsBelow n [] = Unit
  IsBelow n ((k, v) ∷ m) = (k ≤ n) × IsBelow n m

  pub IsBelow-mono : (n p : ℕ) (m : Dict ℕ V) → n ≤ p → IsBelow n m → IsBelow p m
  IsBelow-mono n p [] h b = tt
  IsBelow-mono n p ((k, v) ∷ m) h b = (omega arith, IsBelow-mono n p m h b.1)

  pub get_above : (n k : ℕ) (m : Dict ℕ V) → n < k → IsBelow n m → get k m ≡ none
  unfolding get
  get_above n k [] h b = refl
  get_above n k ((j, v) ∷ m) h b = ground (arith, get_above n k m h b.1)

  pub insert-IsBelow :
      (n k : ℕ) (v : V) (m : Dict ℕ V) → k ≤ n → IsBelow n m → IsBelow n (insert k v m)
  unfolding insert
  insert-IsBelow n k v [] h b = (h, tt)
  insert-IsBelow n k v ((j, w) ∷ m) h b = ground (arith, insert-IsBelow n k v m h b.1)

  pub remove-IsBelow : (n k : ℕ) (m : Dict ℕ V) → IsBelow n m → IsBelow n (remove k m)
  unfolding remove
  remove-IsBelow n k [] b = tt
  remove-IsBelow n k ((j, w) ∷ m) b = ground (arith, remove-IsBelow n k m b.1)

  pub key_below : (n k : ℕ) (v : V) (m : Dict ℕ V) → get k m ≡ some v → IsBelow n m → k ≤ n
  unfolding get
  key_below n k v [] h b = cc
  key_below n k v ((j, w) ∷ m) h b = ground (arith, key_below n k v m)
