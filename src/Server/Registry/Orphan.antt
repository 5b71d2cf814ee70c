-- ===== src/Server/Registry/Orphan.antt =====
-- Two connections of one spoke that displace the same older session of tunnel-server.
use openspoke.Common.{
  ℕ, ◌≡◌, ◌≢◌, refl, sym, ap, ◌∙◌, false, none, some, List, [], ◌∷◌, arith, inl, inr,
}
use openspoke.Common.Eq.{list_eq, nat_eq, ◌==◌, beq-cases}
use openspoke.Common.Dict.{get, get-insert_self, get-insert_miss}
use openspoke.Common.Channel.{Channel}
use openspoke.Common.Int.{suc_ℤ}
use openspoke.Common.Text.{Text}
use openspoke.Wire.{ServerFrame}
use openspoke.Server.Session.{new_session, close}
use openspoke.Server.Registry.{
  Phase, Entry, Hub, arrived, displacing, replacing, serving, set_entry, register, advance, arrive,
  Move, arrival, turn, move, schedule, closed_entry,
}
use openspoke.Server.Registry.Turns.{
  arrive-new, advance_arrived, advance_displacing, advance_replacing,
}

-- Both look into the table before either enters itself.
abbrev pub overlap : Text → ℕ → ℕ → Channel ServerFrame → Channel ServerFrame → List Move
overlap id a b tx ty =
    arrival a id tx ∷ arrival b id ty ∷ turn a ∷ turn b ∷ turn a ∷ turn a ∷ turn b ∷ turn b ∷ []

module _ (h : Hub) (old a b : ℕ) (e : Entry) (tx ty : Channel ServerFrame)
    (entered : get e.session.spoke_id h.sessions ≡ some old) (stored : get old h.store ≡ some e)
    (fresh_a : get a h.store ≡ none) (fresh_b : get b h.store ≡ none) (apart : a ≢ b) where
  fresh-distinct : (r : ℕ) → get r h.store ≡ none → r == old ≡ false
  fresh-distinct r fresh = elim (beq-cases r old) [
    | inl (t, p) ↦ absurd (clash (sym fresh ∙ ap (λ i. get i h.store) p ∙ stored))
    | inr (t, p) ↦ t
  ]
    where
      clash : none ≡ some e → ⊥
      clash k = cc

  ab : a == b ≡ false
  ab = ground arith

  ba : b == a ≡ false
  ba = ground arith

  ao : a == old ≡ false
  ao = fresh-distinct a fresh_a

  bo : b == old ≡ false
  bo = fresh-distinct b fresh_b

  oa : old == a ≡ false
  oa = ground (arith, ao)

  ob : old == b ≡ false
  ob = ground (arith, bo)

  first : Phase → Entry
  first p = record { session = new_session e.session.spoke_id tx; phase = p }

  second : Phase → Entry
  second p = record { session = new_session e.session.spoke_id ty; phase = p }

  shut : Entry
  shut = record e { session = close e.session }

  g1 : Hub
  g1 = set_entry a (first arrived) h

  g2 : Hub
  g2 = set_entry b (second arrived) g1

  g3 : Hub
  g3 = set_entry a (first (displacing old)) g2

  g4 : Hub
  g4 = set_entry b (second (displacing old)) g3

  g5 : Hub
  g5 = set_entry old shut (set_entry a (first replacing) g4)

  g6 : Hub
  g6 = register a (first replacing) g5

  g7 : Hub
  g7 =
      set_entry old (record shut { session = close shut.session })
        (set_entry b (second replacing) g6)

  g8 : Hub
  g8 = register b (second replacing) g7

  step1 : arrive a e.session.spoke_id tx h ≡ g1
  unfolding g1 first
  step1 = arrive-new h a e.session.spoke_id tx fresh_a

  step2 : arrive b e.session.spoke_id ty g1 ≡ g2
  unfolding g2 g1 second
  step2 = arrive-new g1 b e.session.spoke_id ty (get-insert_miss a b _ h.store ab ∙ fresh_b)

  step3 : advance a g2 ≡ g3
  unfolding g3 g2 g1 first
  step3 =
      advance_arrived g2 a old (first arrived)
        (get-insert_miss b a _ _ ba ∙ get-insert_self a _ h.store) refl entered

  step4 : advance b g3 ≡ g4
  unfolding g4 g3 g2 g1 second
  step4 =
      advance_arrived g3 b old (second arrived) (get-insert_miss a b _ _ ab ∙ get-insert_self b _ _)
        refl entered

  old_in_g4 : get old (set_entry a (first replacing) g4).store ≡ some e
  unfolding g4 g3 g2 g1
  old_in_g4 =
      get-insert_miss a old _ _ ao
      ∙ get-insert_miss b old _ _ bo
      ∙ get-insert_miss a old _ _ ao
      ∙ get-insert_miss b old _ _ bo
      ∙ get-insert_miss a old _ _ ao
      ∙ stored

  step5 : advance a g4 ≡ g5
  unfolding g5 g4 g3 first shut
  step5 =
      advance_displacing g4 a old (first (displacing old))
        (get-insert_miss b a _ _ ba ∙ get-insert_self a _ _) refl
      ∙ ap (λ o. closed_entry o old (set_entry a (first replacing) g4)) old_in_g4

  step6 : advance a g5 ≡ g6
  unfolding g6 g5 first
  step6 =
      advance_replacing g5 a (first replacing)
        (get-insert_miss old a _ _ oa ∙ get-insert_self a _ g4.store) refl

  old_in_g6 : get old (set_entry b (second replacing) g6).store ≡ some shut
  unfolding g6 g5
  old_in_g6 = get-insert_miss b old _ _ bo ∙ get-insert_miss a old _ _ ao ∙ get-insert_self old _ _

  second_in_g6 : get b g6.store ≡ some (second (displacing old))
  unfolding g6 g5 g4
  second_in_g6 =
      get-insert_miss a b _ _ ab
      ∙ get-insert_miss old b _ _ ob
      ∙ get-insert_miss a b _ _ ab
      ∙ get-insert_self b _ _

  step7 : advance b g6 ≡ g7
  unfolding g7 second
  step7 =
      advance_displacing g6 b old (second (displacing old)) second_in_g6 refl
      ∙ ap (λ o. closed_entry o old (set_entry b (second replacing) g6)) old_in_g6

  step8 : advance b g7 ≡ g8
  unfolding g8 g7 second
  step8 =
      advance_replacing g7 b (second replacing)
        (get-insert_miss old b _ _ ob ∙ get-insert_self b _ g6.store) refl

  schedule-overlap : schedule (overlap e.session.spoke_id a b tx ty) h ≡ g8
  unfolding schedule move
  schedule-overlap =
      ap
        (λ x. advance b (
          advance b
            (advance a (advance a (advance b (advance a (arrive b e.session.spoke_id ty x)))))))
        step1
      ∙ ap (λ x. advance b (advance b (advance a (advance a (advance b (advance a x)))))) step2
      ∙ ap (λ x. advance b (advance b (advance a (advance a (advance b x))))) step3
      ∙ ap (λ x. advance b (advance b (advance a (advance a x)))) step4
      ∙ ap (λ x. advance b (advance b (advance a x))) step5
      ∙ ap (λ x. advance b (advance b x)) step6
      ∙ ap (advance b) step7
      ∙ step8

  first_in_g8 : get a g8.store ≡ some (first serving)
  unfolding g8 g7 g6 first second
  first_in_g8 =
      get-insert_miss b a _ _ ba
      ∙ get-insert_miss old a _ _ oa
      ∙ get-insert_miss b a _ _ ba
      ∙ get-insert_self a _ _

  -- When two new connections of a spoke both find the same older session before either of them has
  -- entered itself, the later one stands in the table, while the earlier one serves on, open and no
  -- longer in the table under its id, and the gauge of connected spokes is two higher.
  pub overlap_orphan :
      let h' = schedule (overlap e.session.spoke_id a b tx ty) h in
      (get e.session.spoke_id h'.sessions ≡ some b)
      × ((x : Entry) × (get a h'.store ≡ some x) × (x.phase ≡ serving) × (x.session.closed ≡ false))
      × (h'.connected ≡ suc_ℤ (suc_ℤ h.connected))
  unfolding g8 g7 g6 g5 g4 g3 g2 g1 first second
  overlap_orphan = (
    ap (λ x. get e.session.spoke_id x.sessions) schedule-overlap
        ∙ get-insert_self e.session.spoke_id b _,
    (first serving, ap (λ x. get a x.store) schedule-overlap ∙ first_in_g8, refl, refl),
    ap (λ x. x.connected) schedule-overlap,
  )
