-- ===== src/Client/Proxy/Match.antt =====
-- The requests of `handle_http_proxy` in tunnel-client, and the responses under their stream ids.
use openspoke.Common.{
  ℕ, ◌+◌, ◌^◌, ◌≤◌, ◌<◌, ◌≡◌, ◌≢◌, refl, ◌∙◌, inl, inr, false, Option, none, some, List, [], ◌∷◌,
  ◌++◌, length, All, arith, Bool-cases,
}
use openspoke.Common.Eq.{nat_eq, list_eq, ◌==◌}
use openspoke.Common.Dict.{
  get, remove, get-insert_self, get-insert_miss, get-remove_miss, get-remove_self,
}
use openspoke.Common.Channel.{send}
use openspoke.Wire.{HttpRequest, HttpResponse}
use openspoke.Client.Proxy.{
  Shared, Reply, next_stream_id, enter_request, queue_request, miss_request, on_http_response,
  hand_off, Event, enters, queues, misses, responds, expires, attaches, detaches, step, run,
}

-- The event leaves the request `sid` alone: it is not its send, no answer to it, not its time-out, and
-- not the end of the session.
abbrev pub Spares : ℕ → Event → Type 0
Spares sid (enters caller) = Unit
Spares sid (queues j req) = j ≢ sid
Spares sid (misses j) = j ≢ sid
Spares sid (responds j r) = j ≢ sid
Spares sid (expires j) = j ≢ sid
Spares sid (attaches tx) = Unit
Spares sid detaches = ⊥

-- The caller waits under `sid`, and later ids are larger.
pub record Awaits (sid caller : ℕ) (s : Shared) : Type 0 where
  pub entered : get sid s.pending ≡ some caller
  pub older : sid < s.stream_id_counter

miss : (j sid : ℕ) → j ≢ sid → j == sid ≡ false
miss j sid h = ground arith

next_stream_id-eq : (n : ℕ) → n + 1 < 2 ^ 64 → next_stream_id n ≡ n + 1
unfolding next_stream_id
next_stream_id-eq n h = omega arith

module _ (sid caller : ℕ) where
  enter_request-Awaits :
      (c : ℕ) (s : Shared)
      → s.stream_id_counter + 1 < 2 ^ 64
      → Awaits sid caller s
      → Awaits sid caller (enter_request c s)
  unfolding enter_request
  enter_request-Awaits c s lt a =
      let other = miss s.stream_id_counter sid (omega (arith, a.older)) in
      record {
        entered = get-insert_miss s.stream_id_counter sid c s.pending other ∙ a.entered;
        older = omega (arith, next_stream_id-eq s.stream_id_counter lt, a.older);
      }

  removed-Awaits :
      (j : ℕ) (s : Shared)
      → j ≢ sid
      → Awaits sid caller s
      → Awaits sid caller (record s { pending = remove j s.pending })
  removed-Awaits j s h a = record {
    entered = get-remove_miss j sid s.pending (miss j sid h) ∙ a.entered;
    older = a.older;
  }

  queue_request-Awaits :
      (j : ℕ) (req : HttpRequest) (s : Shared)
      → j ≢ sid
      → Awaits sid caller s
      → Awaits sid caller (queue_request j req s).0
  unfolding queue_request miss_request send
  queue_request-Awaits j req s h a = elim (Bool-cases s.hub.is_open) [
    | inl t ↦ simp t (record { entered = a.entered; older = a.older })
    | inr t ↦ simp t (removed-Awaits j s h a)
  ]

  hand_off-Awaits :
      (o : Option ℕ) (j : ℕ) (r : HttpResponse) (s : Shared)
      → j ≢ sid
      → Awaits sid caller s
      → Awaits sid caller (hand_off o j r s)
  hand_off-Awaits none j r s h a = a
  hand_off-Awaits (some c) j r s h a = record {
    entered = get-remove_miss j sid s.pending (miss j sid h) ∙ a.entered;
    older = a.older;
  }

  step-Awaits :
      (e : Event) (s : Shared)
      → Spares sid e
      → s.stream_id_counter + 1 < 2 ^ 64
      → Awaits sid caller s
      → Awaits sid caller (step e s)
  unfolding step miss_request
  step-Awaits (enters c) s h lt a = enter_request-Awaits c s lt a
  step-Awaits (queues j req) s h lt a = queue_request-Awaits j req s h a
  step-Awaits (misses j) s h lt a = removed-Awaits j s h a
  step-Awaits (responds j r) s h lt a = hand_off-Awaits (get j s.pending) j r s h a
  step-Awaits (expires j) s h lt a = removed-Awaits j s h a
  step-Awaits (attaches tx) s h lt a = record { entered = a.entered; older = a.older }
  step-Awaits detaches s h lt a = absurd h

next_stream_id-le : (n : ℕ) → next_stream_id n ≤ n + 1
unfolding next_stream_id
next_stream_id-le n = omega arith

enter-counter :
    (c : ℕ) (s : Shared) → (enter_request c s).stream_id_counter ≤ s.stream_id_counter + 1
unfolding enter_request
enter-counter c s = next_stream_id-le s.stream_id_counter

queue-counter :
    (j : ℕ) (req : HttpRequest) (s : Shared)
    → (queue_request j req s).0.stream_id_counter ≡ s.stream_id_counter
unfolding queue_request miss_request
queue-counter j req s = ground arith

step-counter : (e : Event) (s : Shared) → (step e s).stream_id_counter ≤ s.stream_id_counter + 1
unfolding step enter_request queue_request miss_request on_http_response
step-counter (enters c) s = enter-counter c s
step-counter (queues j req) s = omega (arith, queue-counter j req s)
step-counter (responds j r) s = ground arith
step-counter _ s = omega arith

run-counter :
    (es : List Event) (s : Shared) → (run es s).stream_id_counter ≤ s.stream_id_counter + length es
unfolding run
run-counter [] s = omega arith
run-counter (e ∷ es) s = omega (arith, step-counter e s, run-counter es (step e s))

module _ (sid caller : ℕ) where
  run-Awaits :
      (es : List Event) (s : Shared)
      → All (Spares sid) es
      → s.stream_id_counter + length es < 2 ^ 64
      → Awaits sid caller s
      → Awaits sid caller (run es s)
  unfolding run
  run-Awaits [] s h lt a = a
  run-Awaits (e ∷ es) s h lt a =
      run-Awaits es (step e s) h.1 (omega (arith, step-counter e s))
        (step-Awaits sid caller e s h.0 (omega arith) a)

entered-Awaits :
    (caller : ℕ) (s : Shared)
    → s.stream_id_counter + 1 < 2 ^ 64
    → Awaits s.stream_id_counter caller (enter_request caller s)
unfolding enter_request
entered-Awaits caller s lt = record {
  entered = get-insert_self s.stream_id_counter caller s.pending;
  older = omega (arith, next_stream_id-eq s.stream_id_counter lt);
}

queued-Awaits :
    (caller sid : ℕ) (req : HttpRequest) (s : Shared)
    → (queue_request sid req s).1 ≡ none
    → Awaits sid caller s
    → Awaits sid caller (queue_request sid req s).0
unfolding queue_request miss_request send
queued-Awaits caller sid req s e a = elim (Bool-cases s.hub.is_open) [
  | inl t ↦ simp t (record { entered = a.entered; older = a.older })
  | inr t ↦ absurd (clash (simp t at e))
]
  where
    clash : {r : Reply} → some r ≡ none → ⊥
    clash k = cc

-- A request is entered under the next id, and its frame is queued later; from then on it waits. It
-- gets the response that arrives under its id, whatever other requests, responses, time-outs and new
-- connections come before the frame is queued and after it, unless the session ends, the wait runs
-- out, or the id is answered before, and as long as the 64-bit counter does not wrap; its entry is
-- then gone.
pub response_reaches_caller :
    (caller : ℕ) (req : HttpRequest) (s : Shared) (before after : List Event) (resp : HttpResponse)
    → let sid = s.stream_id_counter in
      let entered = run before (enter_request caller s) in
      All (Spares sid) before
      → (queue_request sid req entered).1 ≡ none
      → All (Spares sid) after
      → sid + 1 + length before + length after < 2 ^ 64
      → let last = run after (queue_request sid req entered).0 in
        ((on_http_response sid resp last).delivered ≡ last.delivered ++ (caller, resp) ∷ [])
        × (get sid (on_http_response sid resp last).pending ≡ none)
unfolding on_http_response
response_reaches_caller caller req s before after resp hb q ha lt =
    let sid = s.stream_id_counter in
    let first = enter_request caller s in
    let more = enter-counter caller s in
    let entered =
      run-Awaits sid caller before first hb (omega (arith, more))
        (entered-Awaits caller s (omega arith)) in
    let queued = queued-Awaits caller sid req (run before first) q entered in
    let last =
      run-Awaits sid caller after (queue_request sid req (run before first)).0 ha
        (omega (arith, more, run-counter before first, queue-counter sid req (run before first)))
        queued in
    rw last.entered (refl, get-remove_self sid _)
