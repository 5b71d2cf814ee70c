-- ===== src/Client/Program.antt =====
-- `main` of spoke/images/tunnel-client/src/main.rs: the configuration, and one session after the
-- other with the waits between them, over the state that they share with the proxy.
pub mod Settle
pub mod Waits
use openspoke.Common.{ℕ, Option, List, [], ◌∷◌, ◌++◌, Result, ok, err, ◌>>=◌}
use openspoke.Common.Text.{Text}
use openspoke.Client.Config.{ClientConfig, Env, load_config}
use openspoke.Client.Backoff.{SessionEnd, clean, failed, round}
use openspoke.Client.Proxy.{Shared, new_shared}
use openspoke.Client.Endpoint.{Transport, dial}
use openspoke.Client.Live.{Local, on_local, Input, live_session}

-- One round of the loop: what the proxy's handlers do before it, while the client sleeps; how the
-- connection goes; and how long the session lasts.
pub record Attempt : Type 0 where
  pub before : List Local
  pub transport : Transport (List Input)
  pub elapsed : ℕ

unfoldable pub on_locals : List Local → Shared → Shared
unfolding on_local
on_locals [] s = s
on_locals (l ∷ ls) s = on_locals ls (on_local l s)

abbrev pub end_of : Result Text (Unit {0}) → ℕ → SessionEnd
end_of (ok u) elapsed = clean
end_of (err e) elapsed = failed elapsed

-- The loop's state, with its sleeps so far.
pub record Running : Type 0 where
  pub shared : Shared
  pub backoff : ℕ
  pub slept : List (Option ℕ)

abbrev pub attempted :
    (Text → Text) → ClientConfig → Attempt → Shared → Shared × Result Text (Unit {0})
attempted debug cfg a s = live_session debug cfg (dial a.transport cfg) (on_locals a.before s)

unfoldable pub main_round : (Text → Text) → ClientConfig → Attempt → Running → Running
unfolding live_session dial on_locals round
main_round debug cfg a p =
    let (sh, result) = attempted debug cfg a p.shared in
    let (slept, next) = round cfg (end_of result a.elapsed) p.backoff in
    record { shared = sh; backoff = next; slept = p.slept ++ slept ∷ [] }

unfoldable pub main_rounds : (Text → Text) → ClientConfig → List Attempt → Running → Running
main_rounds debug cfg [] p = p
main_rounds debug cfg (a ∷ tries) p = main_rounds debug cfg tries (main_round debug cfg a p)

abbrev pub started_loop : ClientConfig → Running
started_loop cfg = record { shared = new_shared; backoff = cfg.backoff_min; slept = [] }

-- An error is one of the configuration, with which the process exits. Else: where the proxy's server
-- is started, if it is, and the loop, which has no end, after the attempts so far.
unfoldable pub main : (Text → Text) → Env → List Attempt → Result Text (Option Text × Running)
unfolding load_config main_rounds
main debug env tries = do
  cfg ← load_config debug env
  ok (cfg.kernel_proxy_listen, main_rounds debug cfg tries (started_loop cfg))
