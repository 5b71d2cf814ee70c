-- ===== src/Tunnel/System/Each.antt =====
-- What holds of the channel of one stream, in the map of an end of a tunnel.
use openspoke.Common.{ℕ, ◌≡◌, sym, subst, ◌∙◌, inl, inr, none, some}
use openspoke.Common.Eq.{nat_eq, beq-cases}
use openspoke.Common.Dict.{
  Dict, get, insert, remove, get-insert_hit, get-insert_miss, get-remove_hit, get-remove_miss,
}
use openspoke.Common.Channel.{Channel}
use openspoke.Wire.{Bytes}

-- What holds of the stream's channel, if it has one.
abbrev pub Each : (Channel Bytes → Type 0) → ℕ → Dict ℕ (Channel Bytes) → Type 0
Each P sid m = (w : Channel Bytes) → get sid m ≡ some w → P w

pub none-ne-some {ℓ} : {A : Type ℓ} {x : A} → none ≡ some x → ⊥
none-ne-some k = cc

module _ (P : Channel Bytes → Type 0) (sid : ℕ) where
  pub Each-same :
      (m m' : Dict ℕ (Channel Bytes)) → get sid m' ≡ get sid m → Each P sid m → Each P sid m'
  Each-same m m' e h w g = h w (sym e ∙ g)

  pub Each-gone : (m : Dict ℕ (Channel Bytes)) → get sid m ≡ none → Each P sid m
  Each-gone m e w g = absurd (none-ne-some (sym e ∙ g))

  pub Each-some :
      (m : Dict ℕ (Channel Bytes)) (v : Channel Bytes) → get sid m ≡ some v → P v → Each P sid m
  Each-some m v e p w g = let same : v ≡ w = cc (sym e ∙ g) in subst P same p

  pub Each-insert :
      (j : ℕ) (v : Channel Bytes) (m : Dict ℕ (Channel Bytes))
      → (j ≡ sid → P v)
      → Each P sid m
      → Each P sid (insert j v m)
  Each-insert j v m p h = elim (beq-cases j sid) [
    | inl (t, e) ↦ Each-some (insert j v m) v (get-insert_hit j sid v m t) (p e)
    | inr (t, e) ↦ Each-same m (insert j v m) (get-insert_miss j sid v m t) h
  ]

  pub Each-remove : (j : ℕ) (m : Dict ℕ (Channel Bytes)) → Each P sid m → Each P sid (remove j m)
  Each-remove j m h = elim (beq-cases j sid) [
    | inl (t, e) ↦ Each-gone (remove j m) (get-remove_hit j sid m t)
    | inr (t, e) ↦ Each-same m (remove j m) (get-remove_miss j sid m t) h
  ]
