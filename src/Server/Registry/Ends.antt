-- ===== src/Server/Registry/Ends.antt =====
-- The tasks of the connections of tunnel-server: how many turns each of them takes.
use openspoke.Common.{
  ℕ, ◌+◌, ◌-◌, ◌≤◌, ◌≡◌, ◌≢◌, refl, sym, ap, ◌∙◌, subst, inl, inr, Option, none, some, List, [],
  ◌∷◌, arith, Option-cases, if◌then◌else◌,
}
use openspoke.Common.Eq.{list_eq, nat_eq, ◌==◌, beq-cases}
use openspoke.Common.Dict.{get, contains_key, get-insert_self, get-insert_hit, get-insert_miss}
use openspoke.Common.Channel.{Channel}
use openspoke.Common.Text.{Text}
use openspoke.Wire.{ServerFrame}
use openspoke.Server.Session.{close}
use openspoke.Server.Registry.{
  Phase, Entry, Hub, arrived, displacing, replacing, serving, leaving, gone, set_entry, look_up,
  closed_entry, close_other, clean, cleanup_session, act, advance_entry, advance, arrive, Move,
  arrival, turn, move, schedule,
}
use openspoke.Server.Registry.Sound.{schedule-IsSound}
use openspoke.Server.Registry.Entered.{IsSound, StaysIn}

-- The turns that a task has left at most, the end of its stream being the one of `serving`.
abbrev pub rank : Phase → ℕ
rank arrived = 5
rank (displacing old) = 4
rank replacing = 3
rank serving = 2
rank leaving = 1
rank gone = 0

abbrev pub takes : ℕ → Move → ℕ
takes r (arrival j id tx) = 0
takes r (turn j) = if j == r then 1 else 0

unfoldable pub turns_of : ℕ → List Move → ℕ
turns_of r [] = 0
turns_of r (m ∷ ms) = takes r m + turns_of r ms

-- The task of `r` is there, with at most `n` turns left.
abbrev pub Left : ℕ → ℕ → Hub → Type 0
Left r n h = (e : Entry) × (get r h.store ≡ some e) × (rank e.phase ≤ n)

Left-le : (r n p : ℕ) (h : Hub) → n ≤ p → Left r n h → Left r p h
Left-le r n p h le (e, g, k) = (e, g, omega arith)

set_entry-Left :
    (r j n : ℕ) (x : Entry) (h : Hub)
    → (j ≡ r → rank x.phase ≤ n)
    → (j ≢ r → Left r n h)
    → Left r n (set_entry j x h)
set_entry-Left r j n x h same other = elim (beq-cases j r) [
  | inl (t, p) ↦ (x, get-insert_hit j r x h.store t, same p)
  | inr (t, p) ↦ let (e, g, k) = other p in (e, get-insert_miss j r x h.store t ∙ g, k)
]

-- Closing a session leaves its task's phase.
close_other-Left : (r j n : ℕ) (h : Hub) → Left r n h → Left r n (close_other j h)
close_other-Left r j n h (e, g, k) = at (get j h.store) refl
  where
    at : (o : Option Entry) → get j h.store ≡ o → Left r n (closed_entry o j h)
    at none q = (e, g, k)
    at (some x) q =
        set_entry-Left r j n (record x { session = close x.session }) h
          (λ p.
            let same : x ≡ e = cc (q, g, p) in subst (λ (y : Entry). rank y.phase ≤ n) (sym same) k)
          (λ _. (e, g, k))

clean-store : (o : Option ℕ) (id : Text) (h : Hub) → (clean o id h).store ≡ h.store
clean-store none id h = refl
clean-store (some cur) id h = ground arith

cleanup-Left : (r n : ℕ) (id : Text) (h : Hub) → Left r n h → Left r n (cleanup_session id h)
unfolding cleanup_session
cleanup-Left r n id h (e, g, k) = (e, ap (get r) (clean-store (get id h.sessions) id h) ∙ g, k)

-- A turn of another task.
act-other :
    (r j n : ℕ) (x : Entry) (p : Phase) (h : Hub) → j ≢ r → Left r n h → Left r n (act j x p h)
act-other r j n x arrived h d l = at (get x.session.spoke_id h.sessions)
  where
    at : (o : Option ℕ) → Left r n (look_up j x o h)
    at none = set_entry-Left r j n _ h (λ p. absurd (d p)) (λ _. l)
    at (some old) = set_entry-Left r j n _ h (λ p. absurd (d p)) (λ _. l)
act-other r j n x (displacing old) h d l =
    close_other-Left r old n _ (set_entry-Left r j n _ h (λ p. absurd (d p)) (λ _. l))
act-other r j n x replacing h d l = set_entry-Left r j n _ h (λ p. absurd (d p)) (λ _. l)
act-other r j n x serving h d l = set_entry-Left r j n _ h (λ p. absurd (d p)) (λ _. l)
act-other r j n x leaving h d l =
    set_entry-Left r j n _ (cleanup_session x.session.spoke_id h) (λ p. absurd (d p))
      (λ _. cleanup-Left r n x.session.spoke_id h l)
act-other r j n x gone h d l = l

-- A turn of its own.
act-own :
    (r : ℕ) (x : Entry) (p : Phase) (h : Hub)
    → get r h.store ≡ some x
    → x.phase ≡ p
    → Left r (rank p - 1) (act r x p h)
act-own r x arrived h g q = at (get x.session.spoke_id h.sessions)
  where
    at : (o : Option ℕ) → Left r 4 (look_up r x o h)
    at none = (record x { phase = serving }, get-insert_self r _ h.store, omega arith)
    at (some old) = (record x { phase = displacing old }, get-insert_self r _ h.store, omega arith)
act-own r x (displacing old) h g q =
    close_other-Left r old 3 _
      (record x { phase = replacing }, get-insert_self r _ h.store, omega arith)
act-own r x replacing h g q =
    (record x { phase = serving }, get-insert_self r _ h.store, omega arith)
act-own r x serving h g q = (
  record { session = close x.session; phase = leaving },
  get-insert_self r _ h.store,
  omega arith,
)
act-own r x leaving h g q = (record x { phase = gone }, get-insert_self r _ _, omega arith)
act-own r x gone h g q = (x, g, rw q (omega arith))

advance-Left : (r j n : ℕ) (h : Hub) → Left r n h → Left r (n - takes r (turn j)) (advance j h)
unfolding advance
advance-Left r j n h (e, g, k) = elim (beq-cases j r) [
  | inl (t, p) ↦
      let own : get j h.store ≡ some e = ap (λ i. get i h.store) p ∙ g in
      let next : Left j (rank e.phase - 1) (act j e e.phase h) = act-own j e e.phase h own refl in
      let moved = subst (λ i. Left i (rank e.phase - 1) (act j e e.phase h)) p next in
      rw (t, own) (Left-le r (rank e.phase - 1) (n - 1) (act j e e.phase h) (omega arith) moved)
  | inr (t, p) ↦
      rw t (
        Left-le r n (n - 0) (advance_entry j (get j h.store) h) (omega arith)
          (at p (get j h.store)))
]
  where
    at : j ≢ r → (o : Option Entry) → Left r n (advance_entry j o h)
    at d none = (e, g, k)
    at d (some x) = act-other r j n x x.phase h d (e, g, k)

arrive-Left :
    (r j n : ℕ) (id : Text) (tx : Channel ServerFrame) (h : Hub)
    → Left r n h
    → Left r n (arrive j id tx h)
unfolding arrive contains_key
arrive-Left r j n id tx h (e, g, k) = elim (Option-cases (get j h.store)) [
  | inl q ↦
      rw (q, contains_key)
        (set_entry-Left r j n _ h (λ p. absurd (clash (sym q ∙ ap (λ i. get i h.store) p ∙ g)))
          (λ _. (e, g, k)))
  | inr (x, q) ↦ rw (q, contains_key) (e, g, k)
]
  where
    clash : none ≡ some e → ⊥
    clash c = cc

move-Left : (r n : ℕ) (m : Move) (h : Hub) → Left r n h → Left r (n - takes r m) (move m h)
unfolding move
move-Left r n (turn j) h l = advance-Left r j n h l
move-Left r n (arrival j id tx) h l =
    Left-le r n (n - 0) (arrive j id tx h) (omega arith) (arrive-Left r j n id tx h l)

schedule-Left :
    (r n : ℕ) (ms : List Move) (h : Hub) → Left r n h → Left r (n - turns_of r ms) (schedule ms h)
unfolding schedule turns_of
schedule-Left r n [] h l = Left-le r n (n - 0) h (omega arith) l
schedule-Left r n (m ∷ ms) h l =
    Left-le r _ _ (schedule ms (move m h)) (omega arith)
      (schedule-Left r (n - takes r m) ms (move m h) (move-Left r n m h l))

rank_zero : (p : Phase) → rank p ≤ 0 → p ≡ gone
rank_zero gone h = refl
rank_zero arrived h = absurd (omega arith)
rank_zero (displacing old) h = absurd (omega arith)
rank_zero replacing h = absurd (omega arith)
rank_zero serving h = absurd (omega arith)
rank_zero leaving h = absurd (omega arith)

rank-le : (p : Phase) → rank p ≤ 5
rank-le arrived = omega arith
rank-le (displacing old) = omega arith
rank-le replacing = omega arith
rank-le serving = omega arith
rank-le leaving = omega arith
rank-le gone = omega arith

-- From a sound table, the task of a connection has ended after five turns of its own, whatever the
-- others do in between, and the table then holds its session under no id.
pub five_turns_end :
    (r : ℕ) (e : Entry) (ms : List Move) (h : Hub)
    → IsSound h
    → get r h.store ≡ some e
    → 5 ≤ turns_of r ms
    → ((e' : Entry) × (get r (schedule ms h).store ≡ some e') × (e'.phase ≡ gone))
      × ((id : Text) → get id (schedule ms h).sessions ≢ some r)
five_turns_end r e ms h s g turns =
    let (x, q, k) = schedule-Left r 5 ms h (e, g, rank-le e.phase) in
    let ended = rank_zero x.phase (omega arith) in
    (
      (x, q, ended),
      λ id t.
          let (y, p, own, stays) = (schedule-IsSound ms h s).entered id r t in
          let same : y ≡ x = cc (p, q) in
          subst (StaysIn x.session) ended
            (subst (λ (z : Entry). StaysIn z.session z.phase) same stays),
    )
