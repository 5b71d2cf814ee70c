-- ===== src/Common/Text/Number.antt =====
-- `str::parse::<u16>` with its errors, and the decimal form that `format!` writes.
use Prim.Native.Nat.{ℕ, zero, suc, ◌+◌, ◌-◌, ◌*◌, ◌/◌, ◌%◌, ◌≤◌, ◌<◌}
use mathlib.Core.Path.{◌≡◌, refl, ◌∙◌}
use mathlib.Core.Logic.{◌≢◌}
use mathlib.Core.Bool.{Bool, ◌&&◌, ◌||◌}
use mathlib.Core.List.{[], ◌∷◌, ◌++◌, append_assoc, append-nil}
use native.Mathlib.Omega.{arith}
use openspoke.Common.Tests.{leb, ltb, if◌then◌else◌, Result, ok, err}
use openspoke.Common.Lists.{All, All-append}
use openspoke.Common.Eq.{◌==◌, nat_eq}
use openspoke.Common.Text.Defs.{Text, codes}

pub data ParseIntError : Type 0 where
  empty invalid_digit pos_overflow : ParseIntError

unfoldable pub show_parse_error : ParseIntError → Text
show_parse_error empty = codes "cannot parse integer from empty string"
show_parse_error invalid_digit = codes "invalid digit found in string"
show_parse_error pos_overflow = codes "number too large to fit in target type"

abbrev is_digit : ℕ → Bool
is_digit c = leb b'0' c && leb c b'9'

-- The digit is read before the overflow is reported.
unfoldable pub parse_digits : ℕ → Text → Result ParseIntError ℕ
parse_digits acc [] = ok acc
parse_digits acc (c ∷ s) =
    let n = acc * 10 + (c - b'0') in
    let rest = parse_digits n s in
    if is_digit c then if ltb 65535 n then err pos_overflow else rest else err invalid_digit

unfoldable pub parse_u16 : Text → Result ParseIntError ℕ
unfolding parse_digits
parse_u16 [] = err empty
parse_u16 (c ∷ []) = if c == b'+' || c == b'-' then err invalid_digit else parse_digits 0 (c ∷ [])
parse_u16 (c ∷ d ∷ s) = if c == b'+' then parse_digits 0 (d ∷ s) else parse_digits 0 (c ∷ d ∷ s)

-- The fuel `suc n` is enough, since `n / 10 < n` for a number of two digits.
unfoldable pub show_digits : ℕ → ℕ → Text
show_digits zero n = []
show_digits (suc f) n =
    let more = show_digits f (n / 10) in
    if ltb n 10 then (n + b'0') ∷ [] else more ++ (n % 10 + b'0') ∷ []

unfoldable pub show_nat : ℕ → Text
show_nat n = show_digits (suc n) n

abbrev IsDigit : ℕ → Type 0
IsDigit c = (b'0' ≤ c) × (c ≤ b'9')

show_digits-All : (f n : ℕ) → All IsDigit (show_digits f n)
unfolding show_digits
show_digits-All zero n = tt
show_digits-All (suc f) n = ground (
  arith,
  show_digits-All f (n / 10),
  All-append IsDigit (show_digits f (n / 10)) ((n % 10 + b'0') ∷ []),
)

pub show_nat-All : (n : ℕ) → All IsDigit (show_nat n)
unfolding show_nat
show_nat-All n = show_digits-All (suc n) n

append-ne-nil : (s : Text) (c : ℕ) → (s ++ c ∷ []) ≢ []
append-ne-nil [] c = λ p. cc
append-ne-nil (d ∷ s) c = λ p. cc

pub show_nat-ne-nil : (n : ℕ) → show_nat n ≢ []
unfolding show_nat show_digits
show_nat-ne-nil n = ground (arith, append-ne-nil (show_digits n (n / 10)) (n % 10 + b'0'))

parse_digits-lt : (acc : ℕ) (s : Text) (n : ℕ) → acc < 65536 → parse_digits acc s ≡ ok n → n < 65536
unfolding parse_digits
parse_digits-lt acc [] n h e = ground arith
parse_digits-lt acc (c ∷ s) n h e = ground (arith, parse_digits-lt (acc * 10 + (c - b'0')) s n)

-- What is parsed fits in 16 bits.
pub parse_u16-lt : (s : Text) (n : ℕ) → parse_u16 s ≡ ok n → n < 65536
unfolding parse_u16
parse_u16-lt [] n e = ground arith
parse_u16-lt (c ∷ []) n e = ground (arith, parse_digits-lt 0 (c ∷ []) n)
parse_u16-lt (c ∷ d ∷ s) n e =
    ground (arith, parse_digits-lt 0 (c ∷ d ∷ s) n, parse_digits-lt 0 (d ∷ s) n)

parse_digits-step :
    (n : ℕ) (s : Text) → n < 65536 → parse_digits (n / 10) ((n % 10 + b'0') ∷ s) ≡ parse_digits n s
unfolding parse_digits
parse_digits-step n s h =
    let e : (n / 10) * 10 + (n % 10 + b'0' - b'0') ≡ n = omega arith in rw e (ground arith)

parse_digits-step_small :
    (n : ℕ) (s : Text) → n < 10 → parse_digits 0 ((n + b'0') ∷ s) ≡ parse_digits n s
unfolding parse_digits
parse_digits-step_small n s h =
    let e : 0 * 10 + (n + b'0' - b'0') ≡ n = omega arith in rw e (ground arith)

parse_digits-show_digits :
    (f n : ℕ) (s : Text)
    → n < f
    → n < 65536
    → parse_digits 0 (show_digits f n ++ s) ≡ parse_digits n s
unfolding show_digits
parse_digits-show_digits zero n s h k = elim h [ ]
parse_digits-show_digits (suc f) n s h k = ground (
  arith,
  append_assoc (show_digits f (n / 10)) ((n % 10 + b'0') ∷ []) s,
  parse_digits-show_digits f (n / 10) ((n % 10 + b'0') ∷ s),
  parse_digits-step n s,
  parse_digits-step_small n s,
)

parse_digits-show_nat : (n : ℕ) → n < 65536 → parse_digits 0 (show_nat n) ≡ ok n
unfolding show_nat parse_digits
parse_digits-show_nat n h =
    ground (arith, append-nil (show_digits (suc n) n), parse_digits-show_digits (suc n) n [])

-- Text of digits alone has no sign to strip.
parse_u16_digits : (s : Text) → s ≢ [] → All IsDigit s → parse_u16 s ≡ parse_digits 0 s
unfolding parse_u16
parse_u16_digits [] h a = absurd (h refl)
parse_u16_digits (c ∷ []) h a = ground arith
parse_u16_digits (c ∷ d ∷ s) h a = ground arith

-- Every port is read back from its decimal form.
pub parse_u16-show_nat : (n : ℕ) → n < 65536 → parse_u16 (show_nat n) ≡ ok n
parse_u16-show_nat n h =
    parse_u16_digits (show_nat n) (show_nat-ne-nil n) (show_nat-All n) ∙ parse_digits-show_nat n h
