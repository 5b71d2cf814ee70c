-- ===== src/Common/Text/Utf8.antt =====
-- `str::as_bytes`: the UTF-8 encoding.
use Prim.Native.Nat.{ℕ, ◌+◌, ◌/◌, ◌%◌, ◌<◌}
use mathlib.Core.Path.{◌≡◌, refl, sym}
use mathlib.Core.List.{List, [], ◌∷◌, ◌++◌}
use native.Mathlib.Omega.{arith}
use openspoke.Common.Tests.{ltb, if◌then◌else◌}
use openspoke.Common.Lists.{All}
use openspoke.Common.Text.Defs.{Text}

-- The bytes of one character, in front of those that follow.
abbrev encode : ℕ → List ℕ → List ℕ
encode c rest =
    if ltb c 0x80
    then c ∷ rest
    else if ltb c 0x800
    then (0xC0 + c / 64) ∷ (0x80 + c % 64) ∷ rest
    else if ltb c 0x10000
    then (0xE0 + c / 4096) ∷ (0x80 + c / 64 % 64) ∷ (0x80 + c % 64) ∷ rest
    else (0xF0 + c / 262144)
      ∷ (0x80 + c / 4096 % 64)
      ∷ (0x80 + c / 64 % 64)
      ∷ (0x80 + c % 64)
      ∷ rest

unfoldable pub as_bytes : Text → List ℕ
as_bytes [] = []
as_bytes (c ∷ s) = encode c (as_bytes s)

-- A character is below 0x110000.
abbrev pub IsScalar : ℕ → Type 0
IsScalar c = c < 0x110000

encode-injective :
    (c d : ℕ) (x y : List ℕ) → IsScalar c → IsScalar d → encode c x ≡ encode d y → (c ≡ d) × (x ≡ y)
encode-injective c d x y p q e = (ground arith, ground arith)

encode-ne-nil : (c : ℕ) (x : List ℕ) → ¬ (encode c x ≡ [])
encode-ne-nil c x = ground arith

pub as_bytes-injective :
    (s t : Text) → All IsScalar s → All IsScalar t → as_bytes s ≡ as_bytes t → s ≡ t
unfolding as_bytes
as_bytes-injective [] [] p q e = refl
as_bytes-injective [] (d ∷ t) p q e = absurd (encode-ne-nil d (as_bytes t) (sym e))
as_bytes-injective (c ∷ s) [] p q e = absurd (encode-ne-nil c (as_bytes s) e)
as_bytes-injective (c ∷ s) (d ∷ t) p q e =
    let (h, k) = encode-injective c d (as_bytes s) (as_bytes t) p.0 q.0 e in
    cc (h, as_bytes-injective s t p.1 q.1 k)

encode-append : (c : ℕ) (x y : List ℕ) → encode c x ++ y ≡ encode c (x ++ y)
encode-append c x y = ground arith

pub as_bytes-append : (s t : Text) → as_bytes (s ++ t) ≡ as_bytes s ++ as_bytes t
unfolding as_bytes
as_bytes-append [] t = refl
as_bytes-append (c ∷ s) t =
    ground (arith, as_bytes-append s t, encode-append c (as_bytes s) (as_bytes t))
