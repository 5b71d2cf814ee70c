-- ===== src/Server/Ports/Held.antt =====
-- The ports that are held, through the loops over them.
use openspoke.Common.{
  ℕ, ◌≡◌, ◌≢◌, refl, sym, ◌∙◌, ◌⊎◌, inl, inr, Option, none, some, List, [], ◌∷◌, arith,
}
use openspoke.Common.Eq.{nat_eq, list_eq, beq-cases}
use openspoke.Common.Dict.{
  Dict, get, insert, remove, IsDistinct, insert-IsDistinct, get-insert_hit, get-insert_miss,
  get-remove_hit, get-remove_miss,
}
use openspoke.Common.Text.{Text}
use openspoke.Server.Config.{SpokePortBinding}
use openspoke.Server.Ports.{Os, bind, and_open, open_ports, release}

-- One of the bindings is of that port.
abbrev pub HasPort : ℕ → List SpokePortBinding → Type 0
HasPort port [] = ⊥
HasPort port (b ∷ bs) = (b.port ≡ port) ⊎ HasPort port bs

pub none-ne-some {ℓ} : {A : Type ℓ} {x : A} → none ≡ some x → ⊥
none-ne-some k = cc

pub remove-get :
    (k port r : ℕ) (m : Dict ℕ ℕ) → get port (remove k m) ≡ some r → get port m ≡ some r
remove-get k port r m q = elim (beq-cases k port) [
  | inl (t, p) ↦ absurd (none-ne-some (sym (get-remove_hit k port m t) ∙ q))
  | inr (t, p) ↦ sym (get-remove_miss k port m t) ∙ q
]

-- What is left after a release was there before and belongs to another.
get-release-none : (r port : ℕ) (m : Dict ℕ ℕ) → get port m ≡ none → get port (release r m) ≡ none
unfolding get release
get-release-none r port [] q = refl
get-release-none r port ((k, o) ∷ m) q = ground (arith, get-release-none r port m)

pub release-get :
    (r port j : ℕ) (m : Dict ℕ ℕ)
    → IsDistinct m
    → get port (release r m) ≡ some j
    → (get port m ≡ some j) × (j ≢ r)
unfolding get release
release-get r port j [] d q = absurd (none-ne-some q)
release-get r port j ((k, o) ∷ m) d q = ground (arith, release-get r port j m d.1)

pub release-IsDistinct : (r : ℕ) (m : Dict ℕ ℕ) → IsDistinct m → IsDistinct (release r m)
unfolding release
release-IsDistinct r [] d = tt
release-IsDistinct r ((k, o) ∷ m) d =
    ground (arith, get-release-none r k m d.0, release-IsDistinct r m d.1)

module _ (os : Os) (r : ℕ) where
  pub open_ports-IsDistinct :
      (bs : List SpokePortBinding) (m : Dict ℕ ℕ)
      → IsDistinct m
      → IsDistinct (open_ports os r bs m).0
  unfolding open_ports
  open_ports-IsDistinct [] m d = d
  open_ports-IsDistinct (b ∷ bs) m d =
      by_bind (bind os m b.port)
        (open_ports-IsDistinct bs (insert b.port r m) (insert-IsDistinct b.port r m d))
    where
      by_bind :
          (o : Option Text)
          → IsDistinct (open_ports os r bs (insert b.port r m)).0
          → IsDistinct (and_open b r m o (open_ports os r bs)).0
      by_bind none rest = rest
      by_bind (some e) rest = d

  -- A port that is held after the loop was held before, or is one of those that it opened.
  abbrev pub Explained : Dict ℕ ℕ → List SpokePortBinding → ℕ → ℕ → Type 0
  Explained m bs port j = (get port m ≡ some j) ⊎ ((j ≡ r) × HasPort port bs)

  later_port :
      (b : SpokePortBinding) (bs : List SpokePortBinding) (m : Dict ℕ ℕ) (port j : ℕ)
      → Explained (insert b.port r m) bs port j
      → Explained m (b ∷ bs) port j
  later_port b bs m port j (inr (p, h)) = inr (p, inr h)
  later_port b bs m port j (inl q) = elim (beq-cases b.port port) [
    | inl (t, p) ↦
        let same : r ≡ j = cc (get-insert_hit b.port port r m t, q) in inr (sym same, inl p)
    | inr (t, p) ↦ inl (sym (get-insert_miss b.port port r m t) ∙ q)
  ]

  pub open_ports-get :
      (bs : List SpokePortBinding) (m : Dict ℕ ℕ) (port j : ℕ)
      → get port (open_ports os r bs m).0 ≡ some j
      → Explained m bs port j
  unfolding open_ports
  open_ports-get [] m port j q = inl q
  open_ports-get (b ∷ bs) m port j q =
      by_bind (bind os m b.port) q
        (λ k. later_port b bs m port j (open_ports-get bs (insert b.port r m) port j k))
    where
      by_bind :
          (o : Option Text)
          → get port (and_open b r m o (open_ports os r bs)).0 ≡ some j
          → (get port (open_ports os r bs (insert b.port r m)).0 ≡ some j
              → Explained m (b ∷ bs) port j)
          → Explained m (b ∷ bs) port j
      by_bind none k rest = rest k
      by_bind (some e) k rest = inl k
