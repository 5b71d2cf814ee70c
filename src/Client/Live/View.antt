-- ===== src/Client/Live/View.antt =====
-- The proxy's view of the shared state of tunnel-client: all but what was sent to the hub.
use openspoke.Common.{
  ℕ, Option, none, some, ◌≡◌, refl, sym, ap, ◌∙◌, List, [], ◌∷◌, ◌++◌, Bool-cases, inl, inr,
}
use openspoke.Common.Eq.{nat_eq}
use openspoke.Common.Dict.{get}
use openspoke.Common.Channel.{send}
use openspoke.Wire.{HttpRequest, HttpResponse}
use openspoke.Client.Proxy.{
  Shared, enter_request, queue_request, miss_request, on_http_response, hand_off, attach_hub,
  detach_hub_and_flush, Event, enters, queues, misses, responds, expires, attaches, detaches, step,
  run,
}

abbrev pub view : Shared → Shared
view s = record s { hub = record s.hub { sent = [] } }

queue_request-view :
    (sid : ℕ) (req : HttpRequest) (s : Shared)
    → view (queue_request sid req (view s)).0 ≡ view (queue_request sid req s).0
unfolding queue_request miss_request send
queue_request-view sid req s = elim (Bool-cases s.hub.is_open) [
  | inl t ↦ rw t refl
  | inr t ↦ rw t refl
]

hand_off-view :
    (o : Option ℕ) (sid : ℕ) (r : HttpResponse) (s : Shared)
    → view (hand_off o sid r (view s)) ≡ view (hand_off o sid r s)
hand_off-view none sid r s = refl
hand_off-view (some caller) sid r s = refl

-- A step of the proxy sees no more than that.
step-view : (e : Event) (s : Shared) → view (step e (view s)) ≡ view (step e s)
unfolding step enter_request miss_request on_http_response attach_hub detach_hub_and_flush
step-view (enters caller) s = refl
step-view (queues sid req) s = queue_request-view sid req s
step-view (misses sid) s = refl
step-view (responds sid r) s = hand_off-view (get sid s.pending) sid r s
step-view (expires sid) s = refl
step-view (attaches tx) s = refl
step-view detaches s = refl

-- So do any number of them: runs from states that look alike end in states that look alike.
pub run-view :
    (es : List Event) (a b : Shared) → view a ≡ view b → view (run es a) ≡ view (run es b)
unfolding run
run-view [] a b h = h
run-view (e ∷ es) a b h =
    run-view es (step e a) (step e b)
      (sym (step-view e a) ∙ ap (λ x. view (step e x)) h ∙ step-view e b)

pub run-append : (es fs : List Event) (s : Shared) → run (es ++ fs) s ≡ run fs (run es s)
unfolding run
run-append [] fs s = refl
run-append (e ∷ es) fs s = run-append es fs (step e s)
