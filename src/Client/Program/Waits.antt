-- ===== src/Client/Program/Waits.antt =====
-- The waits of a client between its sessions.
use openspoke.Common.{◌≡◌, sym, subst, ◌∙◌, List, [], ◌∷◌, ◌++◌, ok, arith}
use mathlib.Core.List.{append_assoc, append-nil}
use openspoke.Common.Text.{Text}
use openspoke.Client.Config.{ClientConfig, Env, load_config}
use openspoke.Client.Config.Valid.{load_config-IsClient}
use openspoke.Client.Backoff.{SessionEnd, rounds}
use openspoke.Client.Backoff.Bounds.{AreWaits, rounds-AreWaits}
use openspoke.Client.Program.{
  Attempt, Running, attempted, end_of, main_round, main_rounds, started_loop,
}

-- How the sessions of the attempts end, from a state of the loop.
unfoldable pub ends_of : (Text → Text) → ClientConfig → List Attempt → Running → List SessionEnd
ends_of debug cfg [] p = []
ends_of debug cfg (a ∷ tries) p =
    end_of (attempted debug cfg a p.shared).1 a.elapsed
    ∷ ends_of debug cfg tries (main_round debug cfg a p)

main_rounds-slept :
    (debug : Text → Text) (cfg : ClientConfig) (tries : List Attempt) (p : Running)
    → (main_rounds debug cfg tries p).slept
      ≡ p.slept ++ (rounds cfg (ends_of debug cfg tries p) p.backoff).0
unfolding main_rounds main_round rounds ends_of
main_rounds-slept debug cfg [] p = sym (append-nil p.slept)
main_rounds-slept debug cfg (a ∷ tries) p =
    main_rounds-slept debug cfg tries (main_round debug cfg a p) ∙ append_assoc p.slept _ _

-- A client whose configuration loads sleeps after every session that failed, each time
-- between the two bounds of its configuration, and after none that ended cleanly, over any number of attempts.
pub main_rounds-AreWaits :
    (debug : Text → Text) (env : Env) (cfg : ClientConfig) (tries : List Attempt)
    → load_config debug env ≡ ok cfg
    → let p = started_loop cfg in
      AreWaits cfg (ends_of debug cfg tries p) (main_rounds debug cfg tries p).slept
main_rounds-AreWaits debug env cfg tries loaded =
    let valid = load_config-IsClient debug env cfg loaded in
    let p = started_loop cfg in
    subst (AreWaits cfg (ends_of debug cfg tries p)) (sym (main_rounds-slept debug cfg tries p)) (
      rounds-AreWaits cfg valid.backoff_order (ends_of debug cfg tries p) cfg.backoff_min
        (omega arith) valid.backoff_order)
