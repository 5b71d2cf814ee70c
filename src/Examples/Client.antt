-- ===== src/Examples/Client.antt =====
-- The theorems on tunnel-client at concrete inputs.
use openspoke.Common.{◌^◌, ◌+◌, ◌≡◌, refl, none, List, [], ◌∷◌, ◌++◌, arith}
use openspoke.Common.Eq.{nat_eq, list_eq}
use openspoke.Common.Dict.{get}
use openspoke.Common.Channel.{send}
use openspoke.Common.Text.{codes}
use openspoke.Wire.{HttpRequest}
use openspoke.Client.Config.Valid.{IsClient, load_config-IsClient}
use openspoke.Client.Proxy.{
  Event, enters, queues, responds, expires, detaches, enter_request, queue_request, step, run,
  on_http_response,
}
use openspoke.Client.Proxy.Match.{response_reaches_caller}
use openspoke.Client.Proxy.Flush.{IsOrdered, answers, waiting, given_up, entered, run_balance}
use openspoke.Examples.Data.{attached, answer, quoted, spoke_env, loaded, spoke_loads}

load_config-IsClient_example : IsClient loaded
load_config-IsClient_example = load_config-IsClient quoted spoke_env loaded spoke_loads

abbrev asked : HttpRequest
asked = record { method = codes "POST"; path = codes "/ask"; headers = []; body = [] }

-- Another request is entered, and its frame queued.
abbrev before_send : List Event
before_send = enters 2 ∷ queues (2 ^ 63 + 1) asked ∷ []

-- It is answered, and another wait runs out.
abbrev after_send : List Event
after_send = responds (2 ^ 63 + 1) answer ∷ expires 4 ∷ []

first_is_queued :
    (queue_request (2 ^ 63) asked (run before_send (enter_request 1 attached))).1 ≡ none
unfolding queue_request run step enter_request send
first_is_queued = refl

response_reaches_caller_example :
    let entered = run before_send (enter_request 1 attached) in
    let last = run after_send (queue_request (2 ^ 63) asked entered).0 in
    ((on_http_response (2 ^ 63) answer last).delivered ≡ last.delivered ++ (1, answer) ∷ [])
    × (get (2 ^ 63) (on_http_response (2 ^ 63) answer last).pending ≡ none)
response_reaches_caller_example =
    response_reaches_caller 1 asked attached before_send after_send answer (tt, (omega arith, tt))
      first_is_queued (omega arith, (omega arith, tt)) (omega arith)

attached-IsOrdered : IsOrdered attached
attached-IsOrdered = record { distinct = tt; below = tt; positive = omega arith }

-- Caller 2 is answered, and another one is left for the end of the session.
abbrev busy_day : List Event
busy_day = enters 2 ∷ enters 3 ∷ queues (2 ^ 63) asked ∷ responds (2 ^ 63) answer ∷ detaches ∷ []

run_balance_example :
    answers 3 (run busy_day attached).delivered
      + waiting 3 (run busy_day attached).pending
      + given_up 3 busy_day attached
    ≡ answers 3 attached.delivered + waiting 3 attached.pending + entered 3 busy_day
run_balance_example = run_balance 3 busy_day attached attached-IsOrdered (omega arith)
