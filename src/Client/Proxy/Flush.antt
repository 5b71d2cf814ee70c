-- ===== src/Client/Proxy/Flush.antt =====
-- The callers of the requests in `SharedProxyState` of tunnel-client, through the events of its proxy
-- and its sessions.
use openspoke.Common.{
  ℕ, ◌+◌, ◌-◌, ◌^◌, ◌≤◌, ◌<◌, ◌≡◌, refl, sym, ap, ◌∙◌, inl, inr, Option, none, some, List, [], ◌∷◌,
  ◌++◌, length, arith, if◌then◌else◌, Bool-cases,
}
use openspoke.Common.Eq.{nat_eq, list_eq, ◌==◌, beq-cases}
use openspoke.Common.Channel.{send}
use openspoke.Common.Dict.{
  Dict, get, insert, remove, IsDistinct, IsBelow, IsBelow-mono, get_above, insert-IsDistinct,
  remove-IsDistinct, insert-IsBelow, remove-IsBelow, remove_missing,
}
use openspoke.Wire.{HttpRequest, HttpResponse}
use openspoke.Client.Proxy.{
  Shared, next_stream_id, enter_request, queue_request, miss_request, on_http_response, hand_off,
  Event, enters, queues, misses, responds, expires, attaches, detaches, step, run, release_all,
  attach_hub,
}

-- The pending requests have distinct ids below the counter.
pub record IsOrdered (s : Shared) : Type 0 where
  pub distinct : IsDistinct s.pending
  pub below : IsBelow (s.stream_id_counter - 1) s.pending
  pub positive : 0 < s.stream_id_counter

next_lt : (n : ℕ) → n + 1 < 2 ^ 64 → next_stream_id n ≡ n + 1
unfolding next_stream_id
next_lt n h = omega arith

module _ (caller : ℕ) where
  -- How often a number is the caller's.
  unfoldable pub is_own : ℕ → ℕ
  is_own k = if k == caller then 1 else 0

  -- The answers that were sent to the caller, and its requests that are pending.
  unfoldable pub answers : List (ℕ × HttpResponse) → ℕ
  unfolding is_own
  answers [] = 0
  answers ((k, r) ∷ xs) = is_own k + answers xs

  unfoldable pub waiting : Dict ℕ ℕ → ℕ
  unfolding is_own
  waiting [] = 0
  waiting ((sid, k) ∷ m) = is_own k + waiting m

  abbrev pub held : Option ℕ → ℕ
  held none = 0
  held (some k) = is_own k

  -- The caller's request that an event enters, and the one that it takes back: where the wait runs out,
  -- or the frame could not be sent.
  abbrev pub entered_in : Event → ℕ
  entered_in (enters k) = is_own k
  entered_in _ = 0

  abbrev pub given_up_in : Event → Shared → ℕ
  given_up_in (queues sid req) s = if s.hub.is_open then 0 else held (get sid s.pending)
  given_up_in (misses sid) s = held (get sid s.pending)
  given_up_in (expires sid) s = held (get sid s.pending)
  given_up_in _ s = 0

  unfoldable pub entered : List Event → ℕ
  entered [] = 0
  entered (e ∷ es) = entered_in e + entered es

  unfoldable pub given_up : List Event → Shared → ℕ
  given_up [] s = 0
  given_up (e ∷ es) s = given_up_in e s + given_up es (step e s)

  answers_one : (k : ℕ) (r : HttpResponse) → answers ((k, r) ∷ []) ≡ is_own k
  unfolding answers
  answers_one k r = omega arith

  answers-append : (xs ys : List (ℕ × HttpResponse)) → answers (xs ++ ys) ≡ answers xs + answers ys
  unfolding answers
  answers-append [] ys = omega arith
  answers-append ((k, r) ∷ xs) ys = omega (arith, answers-append xs ys)

  answers-release_all : (m : Dict ℕ ℕ) → answers (release_all m) ≡ waiting m
  unfolding answers waiting release_all
  answers-release_all [] = refl
  answers-release_all ((sid, k) ∷ m) = omega (arith, answers-release_all m)

  waiting-insert_new :
      (sid k : ℕ) (m : Dict ℕ ℕ)
      → get sid m ≡ none
      → waiting (insert sid k m) ≡ waiting m + is_own k
  unfolding waiting insert get
  waiting-insert_new sid k [] h = omega arith
  waiting-insert_new sid k ((j, w) ∷ m) h = elim (beq-cases j sid) [
    | inl (t, p) ↦ absurd (clash (rw t at h))
    | inr (t, p) ↦ rw t (omega (arith, waiting-insert_new sid k m (rw t at h)))
  ]
    where
      clash : {x : ℕ} → some x ≡ none → ⊥
      clash q = cc

  waiting-remove :
      (sid : ℕ) (m : Dict ℕ ℕ)
      → IsDistinct m
      → waiting (remove sid m) + held (get sid m) ≡ waiting m
  unfolding waiting remove get
  waiting-remove sid [] d = refl
  waiting-remove sid ((j, w) ∷ m) d = elim (beq-cases j sid) [
    | inl (t, p) ↦
        let free : get sid m ≡ none = ap (λ i. get i m) (sym p) ∙ d.0 in
        rw (t, remove_missing sid m free) (omega arith)
    | inr (t, p) ↦ rw t (omega (arith, waiting-remove sid m d.1))
  ]

  -- What one step adds to the caller's answers and pending requests, and takes from them.
  record Balances (before after : Shared) (more less : ℕ) : Type 0 where
    ordered : IsOrdered after
    total :
        answers after.delivered + waiting after.pending + less
        ≡ answers before.delivered + waiting before.pending + more
    counter : after.stream_id_counter ≤ before.stream_id_counter + 1

  module _ (s : Shared) (o : IsOrdered s) (room : s.stream_id_counter + 1 < 2 ^ 64) where
    enter_request-Balances : (k : ℕ) → Balances s (enter_request k s) (is_own k) 0
    unfolding enter_request
    enter_request-Balances k =
        let n = s.stream_id_counter in
        let next = next_lt n room in
        let free = get_above (n - 1) n s.pending (omega (arith, o.positive)) o.below in
        record {
          ordered = record {
            distinct = insert-IsDistinct n k s.pending o.distinct;
            below = IsBelow-mono n (next_stream_id n - 1) _ (omega (arith, next)) (
                insert-IsBelow n n k s.pending (omega arith)
                  (IsBelow-mono (n - 1) n s.pending (omega arith) o.below));
            positive = omega (arith, next);
          };
          total = omega (arith, waiting-insert_new n k s.pending free);
          counter = omega (arith, next);
        }

    stays : Balances s s 0 0
    stays = record { ordered = o; total = refl; counter = omega arith }

    removed-Balances :
        (sid : ℕ)
        → Balances s (record s { pending = remove sid s.pending }) 0 (held (get sid s.pending))
    removed-Balances sid = record {
      ordered = record {
        distinct = remove-IsDistinct sid s.pending o.distinct;
        below = remove-IsBelow (s.stream_id_counter - 1) sid s.pending o.below;
        positive = o.positive;
      };
      total = omega (arith, waiting-remove sid s.pending o.distinct);
      counter = omega arith;
    }

    queue_request-Balances :
        (sid : ℕ) (req : HttpRequest)
        → Balances s (queue_request sid req s).0 0 (given_up_in (queues sid req) s)
    unfolding queue_request miss_request send
    queue_request-Balances sid req = elim (Bool-cases s.hub.is_open) [
      | inl t ↦ simp t (record {
        ordered = record { distinct = o.distinct; below = o.below; positive = o.positive };
        total = refl;
        counter = omega arith;
      })
      | inr t ↦ simp t (removed-Balances sid)
    ]

    hand_off-Balances :
        (p : Option ℕ) (sid : ℕ) (r : HttpResponse)
        → get sid s.pending ≡ p
        → Balances s (hand_off p sid r s) 0 0
    hand_off-Balances none sid r e = stays
    hand_off-Balances (some c) sid r e =
        let less = removed-Balances sid in
        record {
          ordered = record {
            distinct = less.ordered.distinct;
            below = less.ordered.below;
            positive = o.positive;
          };
          total = omega (
            arith,
            answers-append s.delivered ((c, r) ∷ []),
            answers_one c r,
            less.total,
            ap held e,
          );
          counter = omega arith;
        }

    detaches-Balances : Balances s (step detaches s) 0 0
    unfolding step waiting
    detaches-Balances = record {
      ordered = record { distinct = tt; below = tt; positive = o.positive };
      total = omega (
        arith,
        answers-append s.delivered (release_all s.pending),
        answers-release_all s.pending,
      );
      counter = omega arith;
    }

    step-Balances : (e : Event) → Balances s (step e s) (entered_in e) (given_up_in e s)
    unfolding step miss_request on_http_response attach_hub
    step-Balances (enters k) = enter_request-Balances k
    step-Balances (queues sid req) = queue_request-Balances sid req
    step-Balances (misses sid) = removed-Balances sid
    step-Balances (responds sid r) = hand_off-Balances (get sid s.pending) sid r refl
    step-Balances (expires sid) = removed-Balances sid
    step-Balances (attaches tx) = record {
      ordered = record { distinct = o.distinct; below = o.below; positive = o.positive };
      total = refl;
      counter = omega arith;
    }
    step-Balances detaches = detaches-Balances

-- From a state whose pending ids are distinct and below the counter, for every caller: the requests
-- that it enters are pending, or were answered to that caller, once each, or were taken back because
-- their wait ran out or their frame could not be sent, whatever entries, sends, responses, time-outs,
-- new connections and ends of sessions come, of this caller and of others, in whatever order, as long
-- as the 64-bit counter does not wrap.
pub run_balance :
    (caller : ℕ) (es : List Event) (s : Shared)
    → IsOrdered s
    → s.stream_id_counter + length es < 2 ^ 64
    → answers caller (run es s).delivered + waiting caller (run es s).pending + given_up caller es s
      ≡ answers caller s.delivered + waiting caller s.pending + entered caller es
unfolding run entered given_up
run_balance caller [] s o lt = refl
run_balance caller (e ∷ es) s o lt =
    let b = step-Balances caller s o (omega arith) e in
    omega (arith, b.total, run_balance caller es (step e s) b.ordered (omega (arith, b.counter)))
