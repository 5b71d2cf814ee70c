-- ===== src/Server/Registry/Sound.antt =====
-- The table of sessions of tunnel-server under every schedule of its tasks.
use openspoke.Common.{
  ℕ, ◌≡◌, ◌≢◌, refl, sym, ap, ◌∙◌, subst, ◌⊎◌, inl, inr, Bool, true, false, Option, none, some,
  List, [], ◌∷◌, arith, Bool-cases, Option-cases, if◌then◌else◌,
}
use openspoke.Common.Eq.{list_eq, nat_eq, beq-cases}
use openspoke.Common.Dict.{
  Dict, get, remove, contains_key, get-remove_self, get-insert_hit, get-insert_miss, get-remove_hit,
  get-remove_miss,
}
use openspoke.Common.Channel.{Channel}
use openspoke.Common.Text.{Text}
use openspoke.Wire.{ServerFrame}
use openspoke.Server.Session.{SpokeSession, new_session, close}
use openspoke.Server.Registry.{
  Phase, Entry, Hub, arrived, displacing, replacing, serving, leaving, gone, register, look_up,
  closed_entry, close_other, is_closed, clean, cleanup_session, act, advance_entry, advance, arrive,
  Move, arrival, turn, move, schedule, new_hub,
}
use openspoke.Server.Registry.Entered.{
  StaysIn, IsSound, insert-IsEntered, Fits, set_entry-IsSound, known-Fits, absent-Fits,
}

register-IsSound :
    (h : Hub) (r : ℕ) (e : Entry) → get r h.store ≡ some e → IsSound h → IsSound (register r e h)
register-IsSound h r e g s = record {
  entered = λ id j q. elim (beq-cases e.session.spoke_id id) [
    | inl (t, p) ↦
        let same : r ≡ j = cc (get-insert_hit e.session.spoke_id id r h.sessions t, q) in
        insert-IsEntered h.store id r j (record e { phase = serving }) (λ _. (p, tt))
          (λ ne. absurd (ne same))
    | inr (t, p) ↦
        let q' : get id h.sessions ≡ some j =
          cc (get-insert_miss e.session.spoke_id id r h.sessions t, q) in
        insert-IsEntered h.store id r j (record e { phase = serving })
          (λ p'. ((known-Fits h r e g s id (q' ∙ ap some (sym p'))).0, tt)) (λ _. s.entered id j q')
  ];
}

unregister-IsSound :
    (h : Hub) (id : Text) (n : openspoke.Common.Int.ℤ)
    → IsSound h
    → IsSound (record h { sessions = remove id h.sessions; connected = n })
unregister-IsSound h id n s = record {
  entered = λ i j q. elim (beq-cases id i) [
    | inl (t, p) ↦ absurd (clash (sym (get-remove_hit id i h.sessions t) ∙ q))
    | inr (t, p) ↦ s.entered i j (sym (get-remove_miss id i h.sessions t) ∙ q)
  ];
}
  where
    clash : {x : ℕ} → none ≡ some x → ⊥
    clash k = cc

clean-IsSound : (h : Hub) (o : Option ℕ) (id : Text) → IsSound h → IsSound (clean o id h)
clean-IsSound h none id s = s
clean-IsSound h (some cur) id s = elim (Bool-cases (is_closed (get cur h.store))) [
  | inl t ↦ rw t (unregister-IsSound h id _ s)
  | inr t ↦ rw t s
]

-- Closing a session leaves its task where it is.
closed-Fits :
    (h : Hub) (r : ℕ) (e : Entry) → Fits h r e → Fits h r (record e { session = close e.session })
unfolding close
closed-Fits h r e f id q = ((f id q).0, stays e.session e.phase (f id q).1)
  where
    stays :
        (s : SpokeSession) (p : Phase)
        → StaysIn s p
        → StaysIn (record s { closed = true; streams = [] }) p
    stays s serving k = tt
    stays s leaving k = refl
    stays s arrived k = k
    stays s (displacing o) k = k
    stays s replacing k = k
    stays s gone k = k

close_other-IsSound : (h : Hub) (r : ℕ) → IsSound h → IsSound (close_other r h)
close_other-IsSound h r s = closed_entry-IsSound (get r h.store) refl
  where
    closed_entry-IsSound : (o : Option Entry) → get r h.store ≡ o → IsSound (closed_entry o r h)
    closed_entry-IsSound none e = s
    closed_entry-IsSound (some x) e =
        set_entry-IsSound h r _ (closed-Fits h r x (known-Fits h r x e s)) s

none-ne-some : {x : ℕ} → none ≡ some x → ⊥
none-ne-some k = cc

remove-get : (k i : Text) (r : ℕ) (m : Dict Text ℕ) → get i (remove k m) ≡ some r → get i m ≡ some r
remove-get k i r m q = elim (beq-cases k i) [
  | inl (t, p) ↦ absurd (none-ne-some (sym (get-remove_hit k i m t) ∙ q))
  | inr (t, p) ↦ sym (get-remove_miss k i m t) ∙ q
]

clean-get :
    (h : Hub) (o : Option ℕ) (k i : Text) (r : ℕ)
    → get i (clean o k h).sessions ≡ some r
    → get i h.sessions ≡ some r
clean-get h none k i r q = q
clean-get h (some cur) k i r q = elim (Bool-cases (is_closed (get cur h.store))) [
  | inl t ↦ remove-get k i r h.sessions (rw t at q)
  | inr t ↦ rw t at q
]

-- After its own clean-up a session stands in the table under no id.
cleaned :
    (h : Hub) (r : ℕ) (e : Entry) (id : Text)
    → get r h.store ≡ some e
    → e.phase ≡ leaving
    → IsSound h
    → get id (cleanup_session e.session.spoke_id h).sessions ≢ some r
unfolding cleanup_session
cleaned h r e id g l s q =
    let before = clean-get h (get e.session.spoke_id h.sessions) e.session.spoke_id id r q in
    let fit = known-Fits h r e g s id before in
    let own : get e.session.spoke_id h.sessions ≡ some r =
      ap (λ i. get i h.sessions) fit.0 ∙ before in
    let shut : e.session.closed ≡ true = subst (StaysIn e.session) l fit.1 in
    let q' = rw (own, g, shut) at q in
    none-ne-some (
      sym (get-remove_self e.session.spoke_id h.sessions)
      ∙ ap (λ i. get i (remove e.session.spoke_id h.sessions)) fit.0
      ∙ q')

look_up-IsSound :
    (h : Hub) (r : ℕ) (e : Entry) (o : Option ℕ)
    → get r h.store ≡ some e
    → e.phase ≡ arrived
    → IsSound h
    → IsSound (look_up r e o h)
look_up-IsSound h r e none g p s = register-IsSound h r e g s
look_up-IsSound h r e (some old) g p s =
    set_entry-IsSound h r _
      (λ id q. absurd (subst (StaysIn e.session) p (known-Fits h r e g s id q).1)) s

act-IsSound :
    (h : Hub) (r : ℕ) (e : Entry) (p : Phase)
    → get r h.store ≡ some e
    → e.phase ≡ p
    → IsSound h
    → IsSound (act r e p h)
unfolding close
act-IsSound h r e arrived g p s = look_up-IsSound h r e (get e.session.spoke_id h.sessions) g p s
act-IsSound h r e (displacing old) g p s = close_other-IsSound _ old (
    set_entry-IsSound h r _
      (λ id q. absurd (subst (StaysIn e.session) p (known-Fits h r e g s id q).1)) s)
act-IsSound h r e replacing g p s = register-IsSound h r e g s
act-IsSound h r e serving g p s =
    set_entry-IsSound h r _ (λ id q. ((known-Fits h r e g s id q).0, refl)) s
act-IsSound h r e leaving g p s =
    set_entry-IsSound _ r _ (λ id q. absurd (cleaned h r e id g p s q))
      (unfold cleanup_session in
        clean-IsSound h (get e.session.spoke_id h.sessions) e.session.spoke_id s)
act-IsSound h r e gone g p s = s

advance-IsSound : (h : Hub) (r : ℕ) → IsSound h → IsSound (advance r h)
unfolding advance
advance-IsSound h r s = go (get r h.store) refl
  where
    go : (o : Option Entry) → get r h.store ≡ o → IsSound (advance_entry r o h)
    go none g = s
    go (some e) g = act-IsSound h r e e.phase g refl s

arrive-IsSound :
    (h : Hub) (r : ℕ) (id : Text) (tx : Channel ServerFrame)
    → IsSound h
    → IsSound (arrive r id tx h)
unfolding arrive contains_key
arrive-IsSound h r id tx s = elim (Option-cases (get r h.store)) [
  | inl g ↦
      rw (g, contains_key)
        (set_entry-IsSound h r _
          (absent-Fits h r (record { session = new_session id tx; phase = arrived }) g s) s)
  | inr (e, g) ↦ rw (g, contains_key) s
]

move-IsSound : (m : Move) (h : Hub) → IsSound h → IsSound (move m h)
unfolding move
move-IsSound (arrival r id tx) h s = arrive-IsSound h r id tx s
move-IsSound (turn r) h s = advance-IsSound h r s

-- Whatever connections arrive, and in whatever order their tasks take their steps, a table that
-- only holds sessions under their own spoke id whose tasks serve, or are closed and about to clean
-- up, stays such a table.
pub schedule-IsSound : (ms : List Move) (h : Hub) → IsSound h → IsSound (schedule ms h)
unfolding schedule
schedule-IsSound [] h s = s
schedule-IsSound (m ∷ ms) h s = schedule-IsSound ms (move m h) (move-IsSound m h s)

pub new_hub-IsSound : IsSound new_hub
unfolding get
new_hub-IsSound = record { entered = λ id r q. absurd (none-ne-some q) }
