-- ===== src/Server/Registry/Count.antt =====
-- The gauge of connected spokes of tunnel-server against its table of sessions.
use openspoke.Common.{
  ℕ, suc, ◌+◌, ◌≡◌, refl, ap, ◌∙◌, inl, inr, Option, none, some, List, [], ◌∷◌, length, arith,
  Bool-cases,
}
use openspoke.Common.Eq.{list_eq, nat_eq}
use openspoke.Common.Dict.{
  Dict, get, remove, IsDistinct, insert-IsDistinct, remove-IsDistinct, length-insert_new,
  length-insert_old, length-remove,
}
use openspoke.Common.Int.{ℤ, pos, suc_ℤ, pred_ℤ}
use openspoke.Common.Text.{Text}
use openspoke.Server.Registry.{
  Phase, Entry, Hub, arrived, displacing, replacing, serving, leaving, gone, set_entry, register,
  look_up, closed_entry, is_closed, clean, cleanup_session, act, advance_entry, advance, arrive,
  Move, arrival, turn, move, schedule,
}

-- How many table entries a step overwrites.
abbrev pub overwritten : Option ℕ → ℕ
overwritten none = 0
overwritten (some r) = 1

abbrev pub replaced_in : Entry → Phase → Hub → ℕ
replaced_in e replacing h = overwritten (get e.session.spoke_id h.sessions)
replaced_in e _ h = 0

abbrev pub replaced_at : Option Entry → Hub → ℕ
replaced_at none h = 0
replaced_at (some e) h = replaced_in e e.phase h

abbrev pub replaced_by : Move → Hub → ℕ
replaced_by (arrival r id tx) h = 0
replaced_by (turn r) h = replaced_at (get r h.store) h

unfoldable pub replacements : List Move → Hub → ℕ
replacements [] h = 0
replacements (m ∷ ms) h = replaced_by m h + replacements ms (move m h)

-- The table has each spoke once, and the gauge stands above its size by `k`.
pub record IsCounted (k : ℕ) (h : Hub) : Type 0 where
  pub distinct : IsDistinct h.sessions
  pub level : h.connected ≡ pos (length h.sessions + k)

register-IsCounted :
    (k : ℕ) (r : ℕ) (e : Entry) (h : Hub) (o : Option ℕ)
    → get e.session.spoke_id h.sessions ≡ o
    → IsCounted k h
    → IsCounted (k + overwritten o) (register r e h)
unfolding suc_ℤ
register-IsCounted k r e h none q c = record {
  distinct = insert-IsDistinct e.session.spoke_id r h.sessions c.distinct;
  level =
      ap suc_ℤ c.level
      ∙ ap pos (omega (arith, length-insert_new e.session.spoke_id r h.sessions q));
}
register-IsCounted k r e h (some old) q c = record {
  distinct = insert-IsDistinct e.session.spoke_id r h.sessions c.distinct;
  level =
      ap suc_ℤ c.level
      ∙ ap pos (omega (arith, length-insert_old e.session.spoke_id r old h.sessions q));
}

store-IsCounted :
    (k : ℕ) (s : Dict ℕ Entry) (h : Hub)
    → IsCounted k h
    → IsCounted (k + 0) (record h { store = s })
store-IsCounted k s h c = record { distinct = c.distinct; level = c.level ∙ ap pos (omega arith) }

lowered : (a : ℤ) (n k : ℕ) → a ≡ pos (suc n + k) → pred_ℤ a ≡ pos (n + k)
unfolding pred_ℤ
lowered a n k e =
    let shifted : suc n + k ≡ suc (n + k) = omega arith in ap pred_ℤ (e ∙ ap pos shifted)

clean-IsCounted :
    (k : ℕ) (o : Option ℕ) (id : Text) (h : Hub)
    → get id h.sessions ≡ o
    → IsCounted k h
    → IsCounted k (clean o id h)
clean-IsCounted k none id h q c = c
clean-IsCounted k (some cur) id h q c = elim (Bool-cases (is_closed (get cur h.store))) [
  | inl t ↦ rw t (record {
    distinct = remove-IsDistinct id h.sessions c.distinct;
    level =
        lowered h.connected (length (remove id h.sessions)) k
          (c.level ∙ ap pos (omega (arith, length-remove id cur h.sessions c.distinct q)));
  })
  | inr t ↦ rw t c
]

close_other-IsCounted :
    (k : ℕ) (r : ℕ) (o : Option Entry) (h : Hub)
    → IsCounted k h
    → IsCounted (k + 0) (closed_entry o r h)
close_other-IsCounted k r none h c = store-IsCounted k h.store h c
close_other-IsCounted k r (some e) h c = store-IsCounted k _ h c

look_up-IsCounted :
    (k : ℕ) (r : ℕ) (e : Entry) (h : Hub) (o : Option ℕ)
    → get e.session.spoke_id h.sessions ≡ o
    → IsCounted k h
    → IsCounted (k + 0) (look_up r e o h)
look_up-IsCounted k r e h none q c = register-IsCounted k r e h none q c
look_up-IsCounted k r e h (some old) q c = store-IsCounted k _ h c

act-IsCounted :
    (k : ℕ) (r : ℕ) (e : Entry) (p : Phase) (h : Hub)
    → IsCounted k h
    → IsCounted (k + replaced_in e p h) (act r e p h)
act-IsCounted k r e arrived h c =
    look_up-IsCounted k r e h (get e.session.spoke_id h.sessions) refl c
act-IsCounted k r e (displacing old) h c =
    let h' = set_entry r (record e { phase = replacing }) h in
    close_other-IsCounted k old (get old h'.store) h'
      (record { distinct = c.distinct; level = c.level })
act-IsCounted k r e replacing h c =
    register-IsCounted k r e h (get e.session.spoke_id h.sessions) refl c
act-IsCounted k r e serving h c = store-IsCounted k _ h c
act-IsCounted k r e leaving h c =
    let cleaned : IsCounted k (cleanup_session e.session.spoke_id h) =
      unfold cleanup_session in
      clean-IsCounted k (get e.session.spoke_id h.sessions) e.session.spoke_id h refl c in
    store-IsCounted k _ _ cleaned
act-IsCounted k r e gone h c = store-IsCounted k h.store h c

move-IsCounted :
    (k : ℕ) (m : Move) (h : Hub) → IsCounted k h → IsCounted (k + replaced_by m h) (move m h)
unfolding move arrive advance
move-IsCounted k (arrival r id tx) h c = ground (arith, c)
move-IsCounted k (turn r) h c = at (get r h.store)
  where
    at : (o : Option Entry) → IsCounted (k + replaced_at o h) (advance_entry r o h)
    at none = store-IsCounted k h.store h c
    at (some e) = act-IsCounted k r e e.phase h c

-- Over every schedule, the gauge of connected spokes exceeds the size of the table by what it
-- exceeded it before and the number of table entries that newcomers have overwritten.
pub schedule-IsCounted :
    (ms : List Move) (k : ℕ) (h : Hub)
    → IsCounted k h
    → IsCounted (k + replacements ms h) (schedule ms h)
unfolding schedule replacements
schedule-IsCounted [] k h c = store-IsCounted k h.store h c
schedule-IsCounted (m ∷ ms) k h c =
    let rest = schedule-IsCounted ms (k + replaced_by m h) (move m h) (move-IsCounted k m h c) in
    record { distinct = rest.distinct; level = rest.level ∙ ap pos (omega arith) }
