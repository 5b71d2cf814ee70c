-- ===== src/Server/Ports/Owned.antt =====
-- Which sessions of tunnel-server may hold a port.
use openspoke.Common.{
  ℕ, ◌≡◌, ◌≢◌, refl, sym, ap, ◌∙◌, subst, ◌⊎◌, inl, inr, Bool-cases, Option, none, some, List, [],
  ◌∷◌,
}
use openspoke.Common.Eq.{nat_eq, list_eq, beq-cases}
use openspoke.Common.Dict.{
  Dict, get, remove, IsDistinct, remove-IsDistinct, get-insert_miss, get-insert_self,
}
use openspoke.Common.Text.{Text}
use openspoke.Server.Config.{ServerConfig}
use openspoke.Server.Registry.{
  Phase, Entry, arrived, displacing, replacing, serving, leaving, gone, is_closed,
}
use openspoke.Server.Registry.Follow.{Follows, advance-After, arrive-keeps}
use openspoke.Server.Ports.{
  Net, Os, ports_of, open_ports, listen, release, on_hub, serve_turn, leave_turn, phase_turn,
  entry_turn, net_turn, on_port, dial, NetMove, calls, goes, dials, accept_fails, net_move,
  net_schedule,
}
use openspoke.Server.Ports.Held.{
  HasPort, none-ne-some, remove-get, release-get, release-IsDistinct, open_ports-IsDistinct,
  open_ports-get,
}

-- The task of `r` opened the listener: the port is one of its spoke's, and the task has not ended, or
-- it ended early because another port could not be opened.
pub record Owner (cfg : ServerConfig) (port r : ℕ) (n : Net) : Type 0 where
  pub entry : Entry
  pub outcome : Option Text
  pub stored : get r n.hub.store ≡ some entry
  pub listened : get r n.outcomes ≡ some outcome
  pub holds : (entry.phase ≢ gone) ⊎ ((x : Text) × (outcome ≡ some x))
  pub configured : HasPort port (ports_of cfg entry.session.spoke_id)

pub record IsOwned (cfg : ServerConfig) (n : Net) : Type 0 where
  pub distinct : IsDistinct n.held
  pub owned : (port r : ℕ) → get port n.held ≡ some r → Owner cfg port r n

gone-cases : (p : Phase) → (p ≡ gone) ⊎ (p ≢ gone)
gone-cases gone = inl refl
gone-cases arrived = inr (λ q. cc)
gone-cases (displacing old) = inr (λ q. cc)
gone-cases replacing = inr (λ q. cc)
gone-cases serving = inr (λ q. cc)
gone-cases leaving = inr (λ q. cc)

module _ (cfg : ServerConfig) where
  -- A turn on the table leaves an owner one, unless it is the owner's last after it opened its ports.
  module _ (port j r : ℕ) (n : Net) (o : Owner cfg port j n)
      (early : (e : Entry)
        → get r n.hub.store ≡ some e
        → e.phase ≡ leaving
        → j ≡ r
        → (x : Text) × (get r n.outcomes ≡ some (some x))) where
    still_holds :
        (e' : Entry)
        → Follows r j o.entry e'
        → (e'.phase ≢ gone) ⊎ ((x : Text) × (o.outcome ≡ some x))
    still_holds e' f = elim (gone-cases e'.phase) [
      | inr ne ↦ inl ne
      | inl q ↦ elim (f.ends q) [
        | inl p ↦ elim o.holds [ inl ne ↦ absurd (ne p) | inr x ↦ inr x ]
        | inr (p, l) ↦
            let own : get r n.hub.store ≡ some o.entry =
              ap (λ i. get i n.hub.store) (sym p) ∙ o.stored in
            let (x, k) = early o.entry own l p in
            let heard : get r n.outcomes ≡ some o.outcome =
              ap (λ i. get i n.outcomes) (sym p) ∙ o.listened in
            inr (x, cc (k, heard))
      ]
    ]

    moved-Owner : (m : Dict ℕ ℕ) → Owner cfg port j (record (on_hub r n) { held = m })
    moved-Owner m =
        let (e', g, f) = advance-After r j o.entry n.hub o.stored in
        record {
          entry = e';
          outcome = o.outcome;
          stored = g;
          listened = o.listened;
          holds = still_holds e' f;
          configured = rw f.same_spoke o.configured;
        }

  on_hub-IsOwned :
      (r : ℕ) (n : Net)
      → IsOwned cfg n
      → ((e : Entry) (o : Option Text)
          → get r n.hub.store ≡ some e
          → get r n.outcomes ≡ some o
          → e.phase ≡ leaving
          → (x : Text) × (o ≡ some x))
      → IsOwned cfg (on_hub r n)
  on_hub-IsOwned r n w early = record {
    distinct = w.distinct;
    owned = λ port j q.
        let o = w.owned port j q in
        moved-Owner port j r n o
          (λ e g l p.
            let heard : get r n.outcomes ≡ some o.outcome =
              ap (λ i. get i n.outcomes) (sym p) ∙ o.listened in
            let (x, k) = early e o.outcome g heard l in (x, heard ∙ ap some k))
          n.held;
  }

  -- The task is not in its last turn.
  early-IsOwned :
      (r : ℕ) (e : Entry) (n : Net)
      → get r n.hub.store ≡ some e
      → e.phase ≢ leaving
      → IsOwned cfg n
      → IsOwned cfg (on_hub r n)
  early-IsOwned r e n g ne w = on_hub-IsOwned r n w (λ y o k h l.
      let same : y ≡ e = cc (g, k) in absurd (ne (sym (ap (λ (z : Entry). z.phase) same) ∙ l)))

  released-IsOwned :
      (r : ℕ) (n : Net)
      → IsOwned cfg n
      → IsOwned cfg (record (on_hub r n) { held = release r n.held })
  released-IsOwned r n w = record {
    distinct = release-IsDistinct r n.held w.distinct;
    owned = λ port j q.
        let (before, other) = release-get r port j n.held w.distinct q in
        moved-Owner port j r n (w.owned port j before) (λ e g l p. absurd (other p))
          (release r n.held);
  }

  abbrev listen_outcome : Os → ℕ → Entry → Net → Option Text
  listen_outcome os r e n = (open_ports os r (ports_of cfg e.session.spoke_id) n.held).1

  module _ (os : Os) (r : ℕ) (e : Entry) (n : Net) (w : IsOwned cfg n)
      (own : get r n.hub.store ≡ some e) (serves : e.phase ≡ serving) where
    new-Owner :
        (port j : ℕ)
        → r ≡ j
        → HasPort port (ports_of cfg e.session.spoke_id)
        → Owner cfg port j (listen os cfg r e n)
    unfolding listen
    new-Owner port j p h = record {
      entry = e;
      outcome = listen_outcome os r e n;
      stored = ap (λ i. get i n.hub.store) (sym p) ∙ own;
      listened =
          ap (λ i. get i (listen os cfg r e n).outcomes) (sym p)
          ∙ get-insert_self r (listen_outcome os r e n) n.outcomes;
      holds = inl (λ z. cc (serves, z));
      configured = h;
    }

    -- An owner of before, whose outcome is another now if it is the task itself.
    old-Owner : (port j : ℕ) → Owner cfg port j n → Owner cfg port j (listen os cfg r e n)
    unfolding listen
    old-Owner port j o = elim (beq-cases r j) [
      | inl (t, p) ↦
          let same : o.entry ≡ e = cc (own, o.stored, p) in
          new-Owner port j p (
            subst (λ (x : Entry). HasPort port (ports_of cfg x.session.spoke_id)) same o.configured)
      | inr (t, p) ↦ record {
        entry = o.entry;
        outcome = o.outcome;
        stored = o.stored;
        listened = get-insert_miss r j _ n.outcomes t ∙ o.listened;
        holds = o.holds;
        configured = o.configured;
      }
    ]

    listen-IsOwned : IsOwned cfg (listen os cfg r e n)
    unfolding listen
    listen-IsOwned = record {
      distinct = open_ports-IsDistinct os r (ports_of cfg e.session.spoke_id) n.held w.distinct;
      owned = λ port j q.
          elim (open_ports-get os r (ports_of cfg e.session.spoke_id) n.held port j q) [
            | inl before ↦ old-Owner port j (w.owned port j before)
            | inr (p, h) ↦ new-Owner port j (sym p) h
          ];
    }

  serve_turn-IsOwned :
      (os : Os) (r : ℕ) (e : Entry) (o : Option (Option Text)) (n : Net)
      → get r n.hub.store ≡ some e
      → e.phase ≡ serving
      → IsOwned cfg n
      → IsOwned cfg (serve_turn os cfg r e o n)
  serve_turn-IsOwned os r e none n g q w = listen-IsOwned os r e n w g q
  serve_turn-IsOwned os r e (some x) n g q w = early-IsOwned r e n g (λ z. cc (q, z)) w

  leave_turn-IsOwned :
      (r : ℕ) (o : Option (Option Text)) (n : Net)
      → get r n.outcomes ≡ o
      → IsOwned cfg n
      → IsOwned cfg (leave_turn r o n)
  leave_turn-IsOwned r none n q w =
      on_hub-IsOwned r n w (λ e o g h l. absurd (none-ne-some (sym q ∙ h)))
  leave_turn-IsOwned r (some none) n q w = released-IsOwned r n w
  leave_turn-IsOwned r (some (some x)) n q w = on_hub-IsOwned r n w (λ e o g h l. (x, cc (q, h)))

  phase_turn-IsOwned :
      (os : Os) (r : ℕ) (e : Entry) (p : Phase) (n : Net)
      → get r n.hub.store ≡ some e
      → e.phase ≡ p
      → IsOwned cfg n
      → IsOwned cfg (phase_turn os cfg r e p n)
  phase_turn-IsOwned os r e serving n g q w = serve_turn-IsOwned os r e (get r n.outcomes) n g q w
  phase_turn-IsOwned os r e leaving n g q w = leave_turn-IsOwned r (get r n.outcomes) n refl w
  phase_turn-IsOwned os r e arrived n g q w = early-IsOwned r e n g (λ z. cc (q, z)) w
  phase_turn-IsOwned os r e (displacing old) n g q w = early-IsOwned r e n g (λ z. cc (q, z)) w
  phase_turn-IsOwned os r e replacing n g q w = early-IsOwned r e n g (λ z. cc (q, z)) w
  phase_turn-IsOwned os r e gone n g q w = early-IsOwned r e n g (λ z. cc (q, z)) w

  net_turn-IsOwned : (os : Os) (r : ℕ) (n : Net) → IsOwned cfg n → IsOwned cfg (net_turn os cfg r n)
  unfolding net_turn
  net_turn-IsOwned os r n w = by_entry (get r n.hub.store) refl
    where
      by_entry : (o : Option Entry) → get r n.hub.store ≡ o → IsOwned cfg (entry_turn os cfg r o n)
      by_entry none q = w
      by_entry (some e) q = phase_turn-IsOwned os r e e.phase n q refl w

  freed-IsOwned :
      (port : ℕ) (n : Net) → IsOwned cfg n → IsOwned cfg (record n { held = remove port n.held })
  freed-IsOwned port n w = record {
    distinct = remove-IsDistinct port n.held w.distinct;
    owned = λ p j q. same_owner p j (w.owned p j (remove-get port p j n.held q));
  }
    where
      same_owner :
          (p j : ℕ) → Owner cfg p j n → Owner cfg p j (record n { held = remove port n.held })
      same_owner p j o = record {
        entry = o.entry;
        outcome = o.outcome;
        stored = o.stored;
        listened = o.listened;
        holds = o.holds;
        configured = o.configured;
      }

  on_port-IsOwned :
      (o : Option ℕ) (port : ℕ) (n : Net) → IsOwned cfg n → IsOwned cfg (on_port o port n)
  on_port-IsOwned none port n w = w
  on_port-IsOwned (some r) port n w = elim (Bool-cases (is_closed (get r n.hub.store))) [
    | inl t ↦ rw t (freed-IsOwned port n w)
    | inr t ↦ rw t w
  ]

  net_move-IsOwned :
      (os : Os) (m : NetMove) (n : Net) → IsOwned cfg n → IsOwned cfg (net_move os cfg m n)
  unfolding net_move dial
  net_move-IsOwned os (calls r id tx) n w = record {
    distinct = w.distinct;
    owned = λ port j q.
        let o = w.owned port j q in
        record {
          entry = o.entry;
          outcome = o.outcome;
          stored = arrive-keeps r j id tx o.entry n.hub o.stored;
          listened = o.listened;
          holds = o.holds;
          configured = o.configured;
        };
  }
  net_move-IsOwned os (goes r) n w = net_turn-IsOwned os r n w
  net_move-IsOwned os (dials port) n w = on_port-IsOwned (get port n.held) port n w
  net_move-IsOwned os (accept_fails port) n w = freed-IsOwned port n w

  -- From a state of which this holds, it holds over every schedule, whatever the operating system
  -- refuses: no port stands twice among those that are held, and the session that holds a port is
  -- one of a spoke that is configured with it, whose task has not ended, or has ended early because
  -- another port could not be opened.
  pub net_schedule-IsOwned :
      (os : Os) (ms : List NetMove) (n : Net)
      → IsOwned cfg n
      → IsOwned cfg (net_schedule os cfg ms n)
  unfolding net_schedule
  net_schedule-IsOwned os [] n w = w
  net_schedule-IsOwned os (m ∷ ms) n w =
      net_schedule-IsOwned os ms (net_move os cfg m n) (net_move-IsOwned os m n w)
