-- ===== src/Server/Registry/Entered.antt =====
-- Which sessions the table of tunnel-server may hold.
use openspoke.Common.{ℕ, ◌≡◌, ◌≢◌, sym, ap, ◌∙◌, subst, inl, inr, true, none, some}
use openspoke.Common.Eq.{list_eq, nat_eq, beq-cases}
use openspoke.Common.Dict.{Dict, get, insert, get-insert}
use openspoke.Common.Text.{Text}
use openspoke.Server.Session.{SpokeSession}
use openspoke.Server.Registry.{Phase, Entry, Hub, serving, leaving, set_entry}

-- A session may stand in the table while it serves, or while it is closed and not yet cleaned up.
abbrev pub StaysIn : SpokeSession → Phase → Type 0
StaysIn s serving = Unit
StaysIn s leaving = s.closed ≡ true
StaysIn s _ = ⊥

abbrev pub IsEntered : Dict ℕ Entry → Text → ℕ → Type 0
IsEntered store id r =
    (e : Entry) × (get r store ≡ some e) × (e.session.spoke_id ≡ id) × StaysIn e.session e.phase

-- Whatever the table holds is a session of that spoke whose task has not ended.
pub record IsSound (h : Hub) : Type 0 where
  pub entered : (id : Text) (r : ℕ) → get id h.sessions ≡ some r → IsEntered h.store id r

pub insert-IsEntered :
    (store : Dict ℕ Entry) (id : Text) (r j : ℕ) (e : Entry)
    → ((r ≡ j) → (e.session.spoke_id ≡ id) × StaysIn e.session e.phase)
    → ((r ≢ j) → IsEntered store id j)
    → IsEntered (insert r e store) id j
insert-IsEntered store id r j e same other = elim (beq-cases r j) [
  | inl (t, p) ↦ let (a, b) = same p in (e, rw (get-insert r j e store, t), a, b)
  | inr (t, p) ↦ let (x, q, a, b) = other p in (x, rw (get-insert r j e store, t) q, a, b)
]

abbrev pub Fits : Hub → ℕ → Entry → Type 0
Fits h r e =
    (id : Text) → get id h.sessions ≡ some r → (e.session.spoke_id ≡ id) × StaysIn e.session e.phase

pub set_entry-IsSound :
    (h : Hub) (r : ℕ) (e : Entry) → Fits h r e → IsSound h → IsSound (set_entry r e h)
set_entry-IsSound h r e f s = record {
  entered = λ id j q.
      insert-IsEntered h.store id r j e (λ p. f id (q ∙ ap some (sym p))) (λ _. s.entered id j q);
}

pub known-Fits : (h : Hub) (r : ℕ) (e : Entry) → get r h.store ≡ some e → IsSound h → Fits h r e
known-Fits h r e g s id q =
    let (x, p, a, b) = s.entered id r q in
    let same : x ≡ e = cc (g, p) in
    (
      subst (λ (y : Entry). y.session.spoke_id ≡ id) same a,
      subst (λ (y : Entry). StaysIn y.session y.phase) same b,
    )

pub absent-Fits : (h : Hub) (r : ℕ) (e : Entry) → get r h.store ≡ none → IsSound h → Fits h r e
absent-Fits h r e g s id q = let (x, p, a, b) = s.entered id r q in absurd (clash (sym g ∙ p))
  where
    clash : {x : Entry} → none ≡ some x → ⊥
    clash k = cc
