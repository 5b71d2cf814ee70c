-- ===== src/Client/Program/Settle.antt =====
-- Over the whole run of a client, every request of its proxy is settled.
use openspoke.Common.{
  ℕ, ◌+◌, ◌^◌, ◌<◌, ◌≡◌, refl, sym, ap, ◌∙◌, List, [], ◌∷◌, ◌++◌, length, Result, ok, err, false,
  ◌>>=◌, arith,
}
use openspoke.Common.Text.{Text}
use openspoke.Client.Config.{ClientConfig, Env, load_config}
use openspoke.Client.Proxy.{Shared, new_shared, Event, run, detach_hub_and_flush}
use openspoke.Client.Proxy.Flush.{answers, waiting, entered, given_up, IsOrdered, run_balance}
use openspoke.Client.Endpoint.{dial}
use openspoke.Client.Live.{Local, on_local, Input, live_session}
use openspoke.Client.Live.View.{view, run-view, run-append}
use openspoke.Client.Live.Refine.{live_session-Refines}
use openspoke.Client.Live.Events.{local_event, local_lem, session_events}
use openspoke.Client.Program.{
  Attempt, on_locals, Running, attempted, main_round, main_rounds, started_loop, main,
}

unfoldable pub local_events : List Local → List Event
local_events [] = []
local_events (l ∷ ls) = local_event l ∷ local_events ls

on_locals-run : (ls : List Local) (s : Shared) → on_locals ls s ≡ run (local_events ls) s
unfolding on_locals local_events run
on_locals-run [] s = refl
on_locals-run (l ∷ ls) s =
    on_locals-run ls (on_local l s) ∙ ap (run (local_events ls)) (local_lem l s)

-- What the proxy sees of one attempt, and of the attempts from a state of the loop.
unfoldable pub attempt_events : (Text → Text) → ClientConfig → Attempt → Shared → List Event
attempt_events debug cfg a s =
    local_events a.before ++ session_events debug cfg (dial a.transport cfg) (on_locals a.before s)

unfoldable pub main_events : (Text → Text) → ClientConfig → List Attempt → Running → List Event
main_events debug cfg [] p = []
main_events debug cfg (a ∷ tries) p =
    attempt_events debug cfg a p.shared ++ main_events debug cfg tries (main_round debug cfg a p)

module _ (debug : Text → Text) (cfg : ClientConfig) where
  attempted-view :
      (a : Attempt) (s : Shared)
      → view (attempted debug cfg a s).0 ≡ view (run (attempt_events debug cfg a s) s)
  unfolding attempt_events
  attempted-view a s =
      let s' = on_locals a.before s in
      let es = session_events debug cfg (dial a.transport cfg) s' in
      live_session-Refines debug cfg (dial a.transport cfg) s'
      ∙ ap (λ x. view (run es x)) (on_locals-run a.before s)
      ∙ ap view (sym (run-append (local_events a.before) es s))

  main_rounds-view :
      (tries : List Attempt) (p : Running)
      → view (main_rounds debug cfg tries p).shared
        ≡ view (run (main_events debug cfg tries p) p.shared)
  unfolding main_rounds main_events run main_round
  main_rounds-view [] p = refl
  main_rounds-view (a ∷ tries) p =
      let p' = main_round debug cfg a p in
      let es = attempt_events debug cfg a p.shared in
      let rest = main_events debug cfg tries p' in
      main_rounds-view tries p'
      ∙ run-view rest p'.shared (run es p.shared) (attempted-view a p.shared)
      ∙ ap view (sym (run-append es rest p.shared))

  abbrev IsIdle : Running → Type 0
  IsIdle p = (p.shared.pending ≡ []) × (p.shared.attached ≡ false)

  idle_after :
      (inbound : Result Text (List Input)) (s : Shared)
      → let sh = (live_session debug cfg inbound s).0 in (sh.pending ≡ []) × (sh.attached ≡ false)
  unfolding live_session detach_hub_and_flush
  idle_after (err e) s = (refl, refl)
  idle_after (ok is) s = (refl, refl)

  main_round-IsIdle : (a : Attempt) (p : Running) → IsIdle (main_round debug cfg a p)
  unfolding main_round live_session detach_hub_and_flush
  main_round-IsIdle a p = idle_after (dial a.transport cfg) (on_locals a.before p.shared)

  main_rounds-IsIdle :
      (tries : List Attempt) (p : Running) → IsIdle p → IsIdle (main_rounds debug cfg tries p)
  unfolding main_rounds
  main_rounds-IsIdle [] p h = h
  main_rounds-IsIdle (a ∷ tries) p h =
      main_rounds-IsIdle tries (main_round debug cfg a p) (main_round-IsIdle a p)

-- A client whose configuration loads starts, and, over fewer than 2^63 events at its proxy, after
-- any number of attempts, whatever happens before, during and between its sessions: for every caller,
-- as many answers were sent to it as requests were entered for it, less those that were taken back
-- because their wait ran out or their frame could not be sent.
pub main-Settles :
    (debug : Text → Text) (env : Env) (cfg : ClientConfig) (caller : ℕ) (tries : List Attempt)
    → load_config debug env ≡ ok cfg
    → length (main_events debug cfg tries (started_loop cfg)) < 2 ^ 63
    → let p0 = started_loop cfg in
      let p = main_rounds debug cfg tries p0 in
      let es = main_events debug cfg tries p0 in
      (main debug env tries ≡ ok (cfg.kernel_proxy_listen, p))
      × (answers caller p.shared.delivered + given_up caller es new_shared ≡ entered caller es)
unfolding main answers waiting
main-Settles debug env cfg caller tries loaded few =
    let p0 = started_loop cfg in
    let es = main_events debug cfg tries p0 in
    let same = main_rounds-view debug cfg tries p0 in
    let (idle, alone) = main_rounds-IsIdle debug cfg tries p0 (refl, refl) in
    let total = run_balance caller es new_shared fresh-IsOrdered (omega (arith, few)) in
    (
      ap (λ c. c >>= (λ k. ok (k.kernel_proxy_listen, main_rounds debug k tries (started_loop k))))
          loaded,
      omega (
        arith,
        total,
        ap (λ x. answers caller x.delivered) same,
        ap (λ x. waiting caller x.pending) same,
        ap (waiting caller) idle,
      ),
    )
  where
    fresh-IsOrdered : IsOrdered new_shared
    fresh-IsOrdered = record { distinct = tt; below = tt; positive = omega arith }
