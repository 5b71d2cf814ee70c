-- ===== src/Server/Registry/Displace.antt =====
-- A spoke that connects again while its older session is still registered.
use openspoke.Common.{
  ℕ, ◌≡◌, refl, sym, ap, ◌∙◌, false, none, some, List, [], ◌∷◌, length, arith, inl, inr,
}
use openspoke.Common.Eq.{list_eq, nat_eq, ◌==◌, beq-cases}
use openspoke.Common.Dict.{get, insert, get-insert_self, get-insert_miss, length-insert_old}
use openspoke.Common.Channel.{Channel}
use openspoke.Common.Int.{suc_ℤ}
use openspoke.Common.Text.{Text}
use openspoke.Wire.{ServerFrame}
use openspoke.Server.Session.{new_session, close}
use openspoke.Server.Registry.{
  Phase, Entry, Hub, arrived, displacing, replacing, serving, leaving, gone, set_entry, register,
  advance, arrive, Move, arrival, turn, move, schedule, closed_entry,
}
use openspoke.Server.Registry.Turns.{
  arrive-new, advance_arrived, advance_displacing, advance_replacing, advance_serving,
  advance_leaving,
}

-- The older task learns that its stream has ended after the newcomer has taken its place.
abbrev pub reconnect : Text → ℕ → ℕ → Channel ServerFrame → List Move
reconnect id old r tx = arrival r id tx ∷ turn r ∷ turn r ∷ turn r ∷ turn old ∷ turn old ∷ []

module _ (h : Hub) (old r : ℕ) (e : Entry) (tx : Channel ServerFrame)
    (entered : get e.session.spoke_id h.sessions ≡ some old) (stored : get old h.store ≡ some e)
    (serves : e.phase ≡ serving) (fresh : get r h.store ≡ none) where
  pub distinct : r == old ≡ false
  distinct = elim (beq-cases r old) [
    | inl (t, p) ↦ absurd (clash (sym fresh ∙ ap (λ i. get i h.store) p ∙ stored))
    | inr (t, p) ↦ t
  ]
    where
      clash : none ≡ some e → ⊥
      clash k = cc

  pub distinct' : old == r ≡ false
  distinct' = ground (arith, distinct)

  unfoldable pub newcomer : Phase → Entry
  newcomer p = record { session = new_session e.session.spoke_id tx; phase = p }

  unfoldable pub h1 : Hub
  h1 = set_entry r (newcomer arrived) h

  unfoldable pub h2 : Hub
  h2 = set_entry r (newcomer (displacing old)) h1

  unfoldable pub h3 : Hub
  h3 = set_entry old (record e { session = close e.session }) (set_entry r (newcomer replacing) h2)

  unfoldable pub h4 : Hub
  h4 = register r (newcomer replacing) h3

  h5 : Hub
  h5 = set_entry old (record { session = close (close e.session); phase = leaving }) h4

  h6 : Hub
  h6 = set_entry old (record { session = close (close e.session); phase = gone }) h5

  pub step1 : arrive r e.session.spoke_id tx h ≡ h1
  unfolding h1 newcomer
  step1 = arrive-new h r e.session.spoke_id tx fresh

  pub step2 : advance r h1 ≡ h2
  unfolding h1 h2 newcomer
  step2 = advance_arrived h1 r old (newcomer arrived) (get-insert_self r _ h.store) refl entered

  old_in_h2 : get old (set_entry r (newcomer replacing) h2).store ≡ some e
  unfolding h2 h1
  old_in_h2 =
      get-insert_miss r old _ _ distinct
      ∙ get-insert_miss r old _ _ distinct
      ∙ get-insert_miss r old _ _ distinct
      ∙ stored

  pub step3 : advance r h2 ≡ h3
  unfolding h2 h3 newcomer
  step3 =
      advance_displacing h2 r old (newcomer (displacing old)) (get-insert_self r _ h1.store) refl
      ∙ ap (λ o. closed_entry o old (set_entry r (newcomer replacing) h2)) old_in_h2

  pub step4 : advance r h3 ≡ h4
  unfolding h3 h4 newcomer
  step4 =
      advance_replacing h3 r (newcomer replacing)
        (get-insert_miss old r _ _ distinct' ∙ get-insert_self r _ h2.store) refl

  step5 : advance old h4 ≡ h5
  unfolding h4 h5 h3
  step5 =
      advance_serving h4 old (record e { session = close e.session })
        (get-insert_miss r old _ _ distinct ∙ get-insert_self old _ _) serves

  step6 : advance old h5 ≡ h6
  unfolding h5 h6 h4 newcomer
  step6 =
      advance_leaving h5 old r (record { session = close (close e.session); phase = leaving })
        (newcomer serving) (get-insert_self old _ _) refl
        (unfold close in get-insert_self e.session.spoke_id r _)
        (get-insert_miss old r _ _ distinct' ∙ get-insert_self r _ _) refl

  schedule-reconnect : schedule (reconnect e.session.spoke_id old r tx) h ≡ h6
  unfolding schedule move
  schedule-reconnect =
      ap (λ x. advance old (advance old (advance r (advance r (advance r x))))) step1
      ∙ ap (λ x. advance old (advance old (advance r (advance r x)))) step2
      ∙ ap (λ x. advance old (advance old (advance r x))) step3
      ∙ ap (λ x. advance old (advance old x)) step4
      ∙ ap (advance old) step5
      ∙ step6

  -- When a spoke connects again under a new reference while its older session is registered and
  -- serves, and the older task then ends, the newcomer stands in the table in the older one's
  -- place, the table is as long as before, and the gauge of connected spokes is one higher than
  -- before.
  pub displacement-drift :
      let h' = schedule (reconnect e.session.spoke_id old r tx) h in
      (h'.sessions ≡ insert e.session.spoke_id r h.sessions)
      × (length h'.sessions ≡ length h.sessions)
      × (h'.connected ≡ suc_ℤ h.connected)
  unfolding h6 h5 h4 h3 h2 h1 newcomer
  displacement-drift = (
    ap (λ x. x.sessions) schedule-reconnect,
    ap (λ x. length x.sessions) schedule-reconnect
        ∙ length-insert_old e.session.spoke_id r old h.sessions entered,
    ap (λ x. x.connected) schedule-reconnect,
  )
