-- ===== src/Client/Backoff.antt =====
-- The reconnect loop of `main` in spoke/images/tunnel-client/src/main.rs.
pub mod Bounds
use openspoke.Common.{ℕ, ◌*◌, min, Bool, Option, none, some, List, [], ◌∷◌, leb, if◌then◌else◌}
use openspoke.Client.Config.{ClientConfig, from_secs}

-- How `run_session` ended: cleanly, or with an error after the time given.
pub data SessionEnd : Type 0 where
  clean : SessionEnd
  failed : ℕ → SessionEnd

-- The wait that the loop starts from after a failure.
abbrev pub reset_if_long : ClientConfig → ℕ → ℕ → ℕ
reset_if_long cfg elapsed backoff = if leb (from_secs 10) elapsed then cfg.backoff_min else backoff

-- One round: how long it sleeps, if it does, and the next backoff.
unfoldable pub round : ClientConfig → SessionEnd → ℕ → Option ℕ × ℕ
round cfg clean backoff = (none, cfg.backoff_min)
round cfg (failed elapsed) backoff =
    let b = reset_if_long cfg elapsed backoff in (some b, min cfg.backoff_max (b * 2))

-- The sleeps of the loop, one for each round, and its backoff after them.
unfoldable pub rounds : ClientConfig → List SessionEnd → ℕ → List (Option ℕ) × ℕ
rounds cfg [] backoff = ([], backoff)
rounds cfg (e ∷ es) backoff =
    let (slept, next) = round cfg e backoff in
    let (more, last) = rounds cfg es next in (slept ∷ more, last)

unfoldable pub main_loop : ClientConfig → List SessionEnd → List (Option ℕ) × ℕ
main_loop cfg es = rounds cfg es cfg.backoff_min
