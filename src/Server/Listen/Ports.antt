-- ===== src/Server/Listen/Ports.antt =====
-- Which ports of a spoke are opened, and what the error names.
use openspoke.Common.{ℕ, ◌≡◌, refl, sym, ◌∙◌, ap, Option, none, some, List, [], ◌∷◌, ◌++◌, All}
use openspoke.Common.Text.{Text, codes, show_nat}
use openspoke.Server.Config.{SpokePortBinding}
use openspoke.Server.Listen.{bind_ports, after_bind, listen_error}

-- The ways in which the loop ends: every port is open, or the ones before the first that fails.
data Opened (bind : ℕ → Option Text) (bs : List SpokePortBinding)
    (r : List SpokePortBinding × Option Text) : Type 0 where
  all_open : All (λ b. bind b.port ≡ none) bs → r ≡ (bs, none) → Opened bind bs r
  stopped :
      (before : List SpokePortBinding) (b : SpokePortBinding) (after : List SpokePortBinding)
      (e : Text)
      → bs ≡ before ++ b ∷ after
      → All (λ x. bind x.port ≡ none) before
      → bind b.port ≡ some e
      → r ≡ (before, some (listen_error b.port e))
      → Opened bind bs r

module _ (bind : ℕ → Option Text) where
  after_bind-Opened :
      (b : SpokePortBinding) (bs : List SpokePortBinding) (o : Option Text)
      (r : List SpokePortBinding × Option Text)
      → bind b.port ≡ o
      → Opened bind bs r
      → Opened bind (b ∷ bs) (after_bind b o r)
  after_bind-Opened b bs none r q (all_open a e) = all_open (q, a) (ap (after_bind b none) e)
  after_bind-Opened b bs none r q (stopped before x after f s a g e) =
      stopped (b ∷ before) x after f (ap (λ xs. b ∷ xs) s) (q, a) g (ap (after_bind b none) e)
  after_bind-Opened b bs (some f) r q h = stopped [] b bs f refl tt q refl

  bind_ports-Opened : (bs : List SpokePortBinding) → Opened bind bs (bind_ports bind bs)
  unfolding bind_ports
  bind_ports-Opened [] = all_open tt refl
  bind_ports-Opened (b ∷ bs) =
      after_bind-Opened b bs (bind b.port) (bind_ports bind bs) refl (bind_ports-Opened bs)

-- The first port that cannot be bound, and the error, with the port and the reason.
pub record IsBlocked (bind : ℕ → Option Text) (bs : List SpokePortBinding) (e : Text) : Type 0 where
  pub before : List SpokePortBinding
  pub blocked : SpokePortBinding
  pub after : List SpokePortBinding
  pub reason : Text
  pub whole : bs ≡ before ++ blocked ∷ after
  pub free : All (λ (x : SpokePortBinding). bind x.port ≡ none) before
  pub refused : bind blocked.port ≡ some reason
  pub named : e ≡ codes "listen " ++ (show_nat blocked.port ++ (codes ": " ++ reason))

pub bind_ports-IsBlocked :
    (bind : ℕ → Option Text) (bs : List SpokePortBinding) (e : Text)
    → (bind_ports bind bs).1 ≡ some e
    → IsBlocked bind bs e
bind_ports-IsBlocked bind bs e q = from (bind_ports bind bs) q (bind_ports-Opened bind bs)
  where
    clash : {x : Text} → none ≡ some x → ⊥
    clash k = cc

    from :
        (r : List SpokePortBinding × Option Text)
        → r.1 ≡ some e
        → Opened bind bs r
        → IsBlocked bind bs e
    from r q (all_open a p) =
        let no : none ≡ some e =
          sym (ap (λ (x : List SpokePortBinding × Option Text). x.1) p) ∙ q in
        absurd (clash no)
    from r q (stopped before b after f whole free refused p) =
        let same : some (listen_error b.port f) ≡ some e =
          sym (ap (λ (x : List SpokePortBinding × Option Text). x.1) p) ∙ q in
        record {
          before = before;
          blocked = b;
          after = after;
          reason = f;
          whole = whole;
          free = free;
          refused = refused;
          named = cc same;
        }
