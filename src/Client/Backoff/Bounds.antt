-- ===== src/Client/Backoff/Bounds.antt =====
-- How long the client waits before it connects again.
use openspoke.Common.{
  ℕ, ◌*◌, ◌^◌, ◌≤◌, ◌<◌, min, ◌≡◌, refl, ap, ◌∙◌, Option, none, some, List, [], ◌∷◌, length, All,
  arith,
}
use native.Mathlib.Nat.{pow-suc}
use openspoke.Client.Config.{ClientConfig, from_secs}
use openspoke.Client.Backoff.{SessionEnd, clean, failed, reset_if_long, round, rounds, main_loop}

-- A round sleeps exactly after an error, and then between the two bounds.
abbrev pub IsWait : ClientConfig → SessionEnd → Option ℕ → Type 0
IsWait cfg clean o = o ≡ none
IsWait cfg (failed t) none = ⊥
IsWait cfg (failed t) (some n) = (cfg.backoff_min ≤ n) × (n ≤ cfg.backoff_max)

abbrev pub AreWaits : ClientConfig → List SessionEnd → List (Option ℕ) → Type 0
AreWaits cfg [] [] = Unit
AreWaits cfg (e ∷ es) (o ∷ os) = IsWait cfg e o × AreWaits cfg es os
AreWaits cfg _ _ = ⊥

module _ (cfg : ClientConfig) (order : cfg.backoff_min ≤ cfg.backoff_max) where
  reset_bounds :
      (t b : ℕ)
      → cfg.backoff_min ≤ b
      → b ≤ cfg.backoff_max
      → (cfg.backoff_min ≤ reset_if_long cfg t b) × (reset_if_long cfg t b ≤ cfg.backoff_max)
  reset_bounds t b lo hi = ground arith

  pub rounds-AreWaits :
      (es : List SessionEnd) (b : ℕ)
      → cfg.backoff_min ≤ b
      → b ≤ cfg.backoff_max
      → AreWaits cfg es (rounds cfg es b).0
  unfolding rounds round
  rounds-AreWaits [] b lo hi = tt
  rounds-AreWaits (clean ∷ es) b lo hi =
      (refl, rounds-AreWaits es cfg.backoff_min (omega arith) order)
  rounds-AreWaits (failed t ∷ es) b lo hi =
      let kept = reset_bounds t b lo hi in
      (
        kept,
        rounds-AreWaits es (min cfg.backoff_max (reset_if_long cfg t b * 2)) (omega (arith, kept))
            (omega arith),
      )

  -- Where the minimum is at most the maximum, the client sleeps after every failed session, each
  -- time between the two, and after none that ended cleanly.
  main_loop-AreWaits : (es : List SessionEnd) → AreWaits cfg es (main_loop cfg es).0
  unfolding main_loop
  main_loop-AreWaits es = rounds-AreWaits es cfg.backoff_min (omega arith) order

abbrev pub IsQuick : SessionEnd → Type 0
IsQuick clean = ⊥
IsQuick (failed t) = t < from_secs 10

rounds_quick :
    (cfg : ClientConfig) (es : List SessionEnd) (p : ℕ)
    → All IsQuick es
    → (rounds cfg es (min cfg.backoff_max (cfg.backoff_min * p))).1
      ≡ min cfg.backoff_max (cfg.backoff_min * (p * 2 ^ length es))
unfolding rounds round
rounds_quick cfg [] p q = ap (λ n. min cfg.backoff_max (cfg.backoff_min * n)) (omega arith)
rounds_quick cfg (clean ∷ es) p q = absurd q.0
rounds_quick cfg (failed t ∷ es) p q =
    let same : reset_if_long cfg t (min cfg.backoff_max (cfg.backoff_min * p))
        ≡ min cfg.backoff_max (cfg.backoff_min * p) =
      ground arith in
    let next : min cfg.backoff_max (min cfg.backoff_max (cfg.backoff_min * p) * 2)
        ≡ min cfg.backoff_max (cfg.backoff_min * (p * 2)) =
      omega arith in
    rw (same, next, rounds_quick cfg es (p * 2) q.1)
      (ap (λ n. min cfg.backoff_max (cfg.backoff_min * n)) (rw pow-suc (omega arith)))

-- Where the minimum is at most the maximum, a chain of failures within ten seconds each doubles
-- the wait each time, up to the maximum.
main_loop_quick :
    (cfg : ClientConfig) (es : List SessionEnd)
    → cfg.backoff_min ≤ cfg.backoff_max
    → All IsQuick es
    → (main_loop cfg es).1 ≡ min cfg.backoff_max (cfg.backoff_min * 2 ^ length es)
unfolding main_loop
main_loop_quick cfg es order q =
    let start : cfg.backoff_min ≡ min cfg.backoff_max (cfg.backoff_min * 1) = omega arith in
    ap (λ b. (rounds cfg es b).1) start
    ∙ rounds_quick cfg es 1 q
    ∙ ap (λ n. min cfg.backoff_max (cfg.backoff_min * n)) (omega arith)
