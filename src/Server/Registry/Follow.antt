-- ===== src/Server/Registry/Follow.antt =====
-- What a turn of one task of tunnel-server does to the entry of any task.
use openspoke.Common.{
  ℕ, ◌≡◌, ◌≢◌, refl, sym, ap, ◌∙◌, ◌⊎◌, inl, inr, Option, none, some, Bool-cases, Option-cases,
}
use openspoke.Common.Eq.{miss, list_eq, nat_eq, beq-cases}
use openspoke.Common.Dict.{get, contains_key, get-insert_hit, get-insert_miss}
use openspoke.Common.Channel.{Channel}
use openspoke.Common.Text.{Text}
use openspoke.Wire.{ServerFrame}
use openspoke.Server.Session.{close}
use openspoke.Server.Registry.{
  Phase, Entry, Hub, arrived, displacing, replacing, serving, leaving, gone, set_entry, look_up,
  closed_entry, close_other, is_closed, clean, cleanup_session, act, advance_entry, advance, arrive,
}
use openspoke.Server.Registry.Turns.{arrive-new}

-- The entry of `j` before and after a turn of `r`: the same spoke, and only its own last turn ends it.
pub record Follows (r j : ℕ) (e e' : Entry) : Type 0 where
  pub same_spoke : e'.session.spoke_id ≡ e.session.spoke_id
  pub ends : e'.phase ≡ gone → (e.phase ≡ gone) ⊎ ((j ≡ r) × (e.phase ≡ leaving))

abbrev pub After : ℕ → ℕ → Entry → Hub → Type 0
After r j e h = (e' : Entry) × (get j h.store ≡ some e') × Follows r j e e'

Follows-same : (r j : ℕ) (e : Entry) → Follows r j e e
Follows-same r j e = record { same_spoke = refl; ends = λ q. inl q }

module _ (r j : ℕ) (e : Entry) where
  set_entry-After :
      (k : ℕ) (x : Entry) (h : Hub)
      → (k ≡ j → Follows r j e x)
      → (k ≢ j → After r j e h)
      → After r j e (set_entry k x h)
  set_entry-After k x h hit other = elim (beq-cases k j) [
    | inl (t, p) ↦ (x, get-insert_hit k j x h.store t, hit p)
    | inr (t, p) ↦ let (e', g, f) = other p in (e', get-insert_miss k j x h.store t ∙ g, f)
  ]

  close_other-After : (k : ℕ) (h : Hub) → After r j e h → After r j e (close_other k h)
  unfolding close
  close_other-After k h (e', g, f) = by_entry (get k h.store) refl
    where
      by_entry : (o : Option Entry) → get k h.store ≡ o → After r j e (closed_entry o k h)
      by_entry none q = (e', g, f)
      by_entry (some x) q =
          set_entry-After k (record x { session = close x.session }) h
            (λ p.
              let same : x ≡ e' = cc (q, g, p) in
              record {
                same_spoke = ap (λ (y : Entry). y.session.spoke_id) same ∙ f.same_spoke;
                ends = λ z. f.ends (sym (ap (λ (y : Entry). y.phase) same) ∙ z);
              })
            (λ _. (e', g, f))

  clean-After : (o : Option ℕ) (id : Text) (h : Hub) → After r j e h → After r j e (clean o id h)
  clean-After none id h a = a
  clean-After (some cur) id h a = elim (Bool-cases (is_closed (get cur h.store))) [
    | inl t ↦ rw t a
    | inr t ↦ rw t a
  ]

-- The next entry of the task itself.
module _ (r j : ℕ) (x e : Entry) (h : Hub) (own : get r h.store ≡ some x)
    (stored : get j h.store ≡ some e) where
  moved :
      (y : Entry)
      → y.session.spoke_id ≡ x.session.spoke_id
      → (y.phase ≡ gone → x.phase ≡ leaving)
      → r ≡ j
      → Follows r j e y
  moved y id last p =
      let same : x ≡ e = cc (own, stored, p) in
      record {
        same_spoke = id ∙ ap (λ (z : Entry). z.session.spoke_id) same;
        ends = λ q. inr (sym p, sym (ap (λ (z : Entry). z.phase) same) ∙ last q);
      }

  stays : After r j e h
  stays = (e, stored, Follows-same r j e)

  look_up-After : (o : Option ℕ) → After r j e (look_up r x o h)
  unfolding stays
  look_up-After none = set_entry-After r j e r _ h (moved _ refl (λ q. cc)) (λ _. stays)
  look_up-After (some old) = set_entry-After r j e r _ h (moved _ refl (λ q. cc)) (λ _. stays)

  act-After : (p : Phase) → x.phase ≡ p → After r j e (act r x p h)
  unfolding stays close cleanup_session
  act-After arrived q = look_up-After (get x.session.spoke_id h.sessions)
  act-After (displacing old) q =
      close_other-After r j e old _
        (set_entry-After r j e r _ h (moved _ refl (λ q. cc)) (λ _. stays))
  act-After replacing q = look_up-After none
  act-After serving q = set_entry-After r j e r _ h (moved _ refl (λ q. cc)) (λ _. stays)
  act-After leaving q =
      set_entry-After r j e r _ (cleanup_session x.session.spoke_id h) (moved _ refl (λ _. q))
        (λ _. clean-After r j e (get x.session.spoke_id h.sessions) x.session.spoke_id h stays)
  act-After gone q = stays

pub advance-After :
    (r j : ℕ) (e : Entry) (h : Hub) → get j h.store ≡ some e → After r j e (advance r h)
unfolding advance
advance-After r j e h g = by_entry (get r h.store) refl
  where
    by_entry : (o : Option Entry) → get r h.store ≡ o → After r j e (advance_entry r o h)
    by_entry none q = (e, g, Follows-same r j e)
    by_entry (some x) q = act-After r j x e h q g x.phase refl

-- An arrival leaves every entry as it is.
pub arrive-keeps :
    (r j : ℕ) (id : Text) (tx : Channel ServerFrame) (e : Entry) (h : Hub)
    → get j h.store ≡ some e
    → get j (arrive r id tx h).store ≡ some e
unfolding arrive contains_key
arrive-keeps r j id tx e h g = elim (Option-cases (get r h.store)) [
  | inl q ↦
      ap (λ (x : Hub). get j x.store) (arrive-new h r id tx q)
      ∙ get-insert_miss r j _ h.store
          (miss r j (λ p. absurd (clash (sym q ∙ ap (λ i. get i h.store) (sym p) ∙ g))))
      ∙ g
  | inr (x, q) ↦ rw (q, contains_key) g
]
  where
    clash : none ≡ some e → ⊥
    clash k = cc
