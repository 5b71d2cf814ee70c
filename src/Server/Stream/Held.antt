-- ===== src/Server/Stream/Held.antt =====
-- The streams of a session of tunnel-server against the gauge of open streams.
use openspoke.Common.{ℕ, ◌≤◌, ◌<◌, ◌≡◌, sym, ap, ◌∙◌, some, [], ◌∷◌, length, arith}
use openspoke.Common.Eq.{list_eq, nat_eq}
use openspoke.Common.Dict.{
  Dict, get, insert, remove, IsDistinct, IsBelow, IsBelow-mono, get_above, insert-IsBelow,
  remove-IsBelow, key_below, insert-IsDistinct, remove-IsDistinct, length-insert_new,
  length-insert_old, length-remove,
}
use openspoke.Common.Int.{ℤ, suc_ℤ, pred_ℤ, add_ℕ, pred_ℤ-suc_ℤ, pred_ℤ-add_ℕ}
use openspoke.Common.Channel.{Channel}
use openspoke.Common.Text.{Text}
use openspoke.Wire.{Bytes}
use openspoke.Server.Metrics.{Labels, gauge, gauge_inc, gauge_dec, gauge-gauge_inc, gauge-gauge_dec}

-- The streams have distinct ids up to `last`, and the gauge of the spoke stands at `base` plus
-- their number.
pub record IsHeld (base : ℤ) (last : ℕ) (id : Text) (m : Dict ℕ (Channel Bytes)) (g : Dict Labels ℤ)
    : Type 0 where
  pub distinct : IsDistinct m
  pub below : IsBelow last m
  pub level : gauge (id ∷ []) g ≡ add_ℕ (length m) base

module _ {base : ℤ} {last : ℕ} {id : Text} {m : Dict ℕ (Channel Bytes)} {g : Dict Labels ℤ}
    (h : IsHeld base last id m g) where
  pub insert_old-IsHeld :
      (sid : ℕ) (v w : Channel Bytes) → get sid m ≡ some w → IsHeld base last id (insert sid v m) g
  insert_old-IsHeld sid v w e = record {
    distinct = insert-IsDistinct sid v m h.distinct;
    below = insert-IsBelow last sid v m (key_below last sid w m e h.below) h.below;
    level = rw (length-insert_old sid v w m e) h.level;
  }

  pub insert_new-IsHeld :
      (sid : ℕ) (v : Channel Bytes)
      → last < sid
      → IsHeld base sid id (insert sid v m) (gauge_inc (id ∷ []) g)
  unfolding add_ℕ
  insert_new-IsHeld sid v lt = record {
    distinct = insert-IsDistinct sid v m h.distinct;
    below =
        insert-IsBelow sid sid v m (omega arith) (IsBelow-mono last sid m (omega arith) h.below);
    level =
        rw
          (length-insert_new sid v m (get_above last sid m lt h.below), gauge-gauge_inc (id ∷ []) g)
          (ap suc_ℤ h.level);
  }

  pub remove-IsHeld :
      (sid : ℕ) (w : Channel Bytes)
      → get sid m ≡ some w
      → IsHeld base last id (remove sid m) (gauge_dec (id ∷ []) g)
  unfolding add_ℕ
  remove-IsHeld sid w e =
      let shorter = length-remove sid w m h.distinct e in
      record {
        distinct = remove-IsDistinct sid m h.distinct;
        below = remove-IsBelow last sid m h.below;
        level =
            gauge-gauge_dec (id ∷ []) g
            ∙ ap pred_ℤ (h.level ∙ ap (λ n. add_ℕ n base) (sym shorter))
            ∙ pred_ℤ-suc_ℤ (add_ℕ (length (remove sid m)) base);
      }

  pub later-IsHeld : (n : ℕ) → last ≤ n → IsHeld base n id m g
  later-IsHeld n le = record {
    distinct = h.distinct;
    below = IsBelow-mono last n m le h.below;
    level = h.level;
  }

  -- The gauge falls by one under the same streams.
  pub lost-IsHeld : IsHeld (pred_ℤ base) last id m (gauge_dec (id ∷ []) g)
  lost-IsHeld = record {
    distinct = h.distinct;
    below = h.below;
    level = gauge-gauge_dec (id ∷ []) g ∙ ap pred_ℤ h.level ∙ pred_ℤ-add_ℕ (length m) base;
  }
