-- ===== src/Common/Text/Laws.antt =====
-- What the methods of `str` do on text put together from clean pieces.
use Prim.Native.Nat.{ℕ}
use mathlib.Core.Path.{◌≡◌, refl}
use mathlib.Core.Logic.{◌≢◌}
use mathlib.Core.Bool.{false}
use mathlib.Core.Option.{none, some}
use mathlib.Core.List.{List, [], ◌∷◌, ◌++◌}
use native.Mathlib.Omega.{arith}
use openspoke.Common.Lists.{All}
use openspoke.Common.Eq.{nat_eq}
use openspoke.Common.Text.Defs.{
  Text, split, split_once, rsplit_once, splitn, trim, trim_start, trim_end, is_whitespace,
}

-- The separator does not occur.
abbrev pub IsFree : ℕ → Text → Type 0
IsFree sep = All (λ c. c ≢ sep)

-- No character is white space.
abbrev pub IsSolid : Text → Type 0
IsSolid = All (λ c. is_whitespace c ≡ false)

-- The pieces with the separator between them.
unfoldable pub join : ℕ → List Text → Text
join sep [] = []
join sep (p ∷ []) = p
join sep (p ∷ q ∷ ps) = p ++ sep ∷ join sep (q ∷ ps)

pub split-free : (sep : ℕ) (p : Text) → IsFree sep p → split sep p ≡ p ∷ []
unfolding split
split-free sep [] h = refl
split-free sep (c ∷ p) h = ground (arith, split-free sep p h.1)

split-append : (sep : ℕ) (p s : Text) → IsFree sep p → split sep (p ++ sep ∷ s) ≡ p ∷ split sep s
unfolding split
split-append sep [] s h = ground arith
split-append sep (c ∷ p) s h = ground (arith, split-append sep p s h.1)

pub split-join :
    (sep : ℕ) (p : Text) (ps : List Text)
    → IsFree sep p
    → All (IsFree sep) ps
    → split sep (join sep (p ∷ ps)) ≡ p ∷ ps
unfolding join
split-join sep p [] h hs = split-free sep p h
split-join sep p (q ∷ ps) h hs =
    ground (arith, split-append sep p (join sep (q ∷ ps)) h, split-join sep q ps hs.0 hs.1)

pub split_once-append :
    (sep : ℕ) (p s : Text) → IsFree sep p → split_once sep (p ++ sep ∷ s) ≡ some (p, s)
unfolding split_once
split_once-append sep [] s h = ground arith
split_once-append sep (c ∷ p) s h = ground (arith, split_once-append sep p s h.1)

pub rsplit_once-free : (sep : ℕ) (p : Text) → IsFree sep p → rsplit_once sep p ≡ none
unfolding rsplit_once
rsplit_once-free sep [] h = refl
rsplit_once-free sep (c ∷ p) h = ground (arith, rsplit_once-free sep p h.1)

pub rsplit_once-append :
    (sep : ℕ) (s p : Text) → IsFree sep p → rsplit_once sep (s ++ sep ∷ p) ≡ some (s, p)
unfolding rsplit_once
rsplit_once-append sep [] p h = ground (arith, rsplit_once-free sep p h)
rsplit_once-append sep (c ∷ s) p h = rw (rsplit_once-append sep s p h)

pub splitn-three :
    (sep : ℕ) (p q s : Text)
    → IsFree sep p
    → IsFree sep q
    → splitn sep 3 (p ++ sep ∷ (q ++ sep ∷ s)) ≡ p ∷ q ∷ s ∷ []
unfolding splitn
splitn-three sep p q s h k =
    rw (split_once-append sep p (q ++ sep ∷ s) h, splitn, split_once-append sep q s k, splitn)

trim_start_solid : (s : Text) → IsSolid s → trim_start s ≡ s
unfolding trim_start
trim_start_solid [] h = refl
trim_start_solid (c ∷ s) h = ground arith

trim_end_solid : (s : Text) → IsSolid s → trim_end s ≡ s
unfolding trim_end
trim_end_solid [] h = refl
trim_end_solid (c ∷ []) h = ground arith
trim_end_solid (c ∷ d ∷ s) h = ground (arith, trim_end_solid (d ∷ s) h.1)

-- Text with no white space is its own `trim`.
pub trim_solid : (s : Text) → IsSolid s → trim s ≡ s
unfolding trim
trim_solid s h = ground (arith, trim_start_solid s h, trim_end_solid s h)
