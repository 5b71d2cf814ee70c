-- ===== src/Server/Ports/Refused.antt =====
-- A connection of tunnel-server whose first port is held.
use openspoke.Common.{ℕ, ◌≡◌, refl, ap, ◌∙◌, false, none, some, List, [], ◌∷◌}
use openspoke.Common.Eq.{list_eq, nat_eq, ◌==◌}
use openspoke.Common.Dict.{
  Dict, get, insert, remove, contains_key, get-insert_self, get-insert_miss, remove-insert_new,
}
use openspoke.Common.Channel.{Channel}
use openspoke.Common.Int.{pred_ℤ, pred_ℤ-suc_ℤ}
use openspoke.Common.Text.{Text}
use openspoke.Wire.{ServerFrame}
use openspoke.Server.Config.{ServerConfig, SpokePortBinding}
use openspoke.Server.Session.{new_session, close}
use openspoke.Server.Listen.{listen_error}
use openspoke.Server.Registry.{
  Phase, Entry, Hub, arrived, serving, leaving, gone, set_entry, register,
}
use openspoke.Server.Registry.Turns.{
  arrive-new, advance_entering, advance_serving, advance_leaving_own,
}
use openspoke.Server.Ports.{
  Net, Os, Opening, ports_of, bind, and_open, open_ports, listen, serve_turn, leave_turn,
  phase_turn, entry_turn, net_turn, NetMove, calls, goes, net_move, net_schedule,
}

-- The hub after a task has closed its session, and after it has then cleaned up as the registered one.
abbrev pub closing_hub : ℕ → Entry → Hub → Hub
closing_hub r e h = set_entry r (record { session = close e.session; phase = leaving }) h

abbrev pub ended_hub : ℕ → Entry → Hub → Hub
ended_hub r e h =
    set_entry r (record { session = close e.session; phase = gone })
      (record (closing_hub r e h) {
        sessions = remove e.session.spoke_id h.sessions;
        connected = pred_ℤ h.connected;
      })

-- What a task is told of a port that is held.
abbrev pub refusal : Os → SpokePortBinding → Text
refusal os b = listen_error b.port os.in_use

module _ (os : Os) (cfg : ServerConfig) (r : ℕ) where
  pub net_turn-phase :
      (n : Net) (e : Entry) (p : Phase)
      → get r n.hub.store ≡ some e
      → e.phase ≡ p
      → net_turn os cfg r n ≡ phase_turn os cfg r e p n
  unfolding net_turn
  net_turn-phase n e p g q =
      ap (λ o. entry_turn os cfg r o n) g ∙ ap (λ x. phase_turn os cfg r e x n) q

  module _ (n : Net) (e : Entry) (m : Dict ℕ ℕ) (why : Text) (stored : get r n.hub.store ≡ some e)
      (serves : e.phase ≡ serving) (entered : get e.session.spoke_id n.hub.sessions ≡ some r)
      (new : get r n.outcomes ≡ none)
      (opening : open_ports os r (ports_of cfg e.session.spoke_id) n.held ≡ (m, some why)) where
    told : Net
    told = record n { held = m; outcomes = insert r (some why) n.outcomes }

    turn_listen : net_turn os cfg r n ≡ told
    unfolding told listen
    turn_listen =
        net_turn-phase n e serving stored serves
        ∙ ap (λ o. serve_turn os cfg r e o n) new
        ∙ ap (λ (p : Opening). record n { held = p.0; outcomes = insert r p.1 n.outcomes }) opening

    turn_close : net_turn os cfg r told ≡ record told { hub = closing_hub r e n.hub }
    unfolding told
    turn_close =
        net_turn-phase told e serving stored serves
        ∙ ap (λ o. serve_turn os cfg r e o told) (get-insert_self r _ n.outcomes)
        ∙ ap (λ h. record told { hub = h }) (advance_serving n.hub r e stored serves)

    turn_leave :
        net_turn os cfg r (record told { hub = closing_hub r e n.hub })
        ≡ record told { hub = ended_hub r e n.hub }
    unfolding told close
    turn_leave =
        let x : Entry = record { session = close e.session; phase = leaving } in
        net_turn-phase (record told { hub = closing_hub r e n.hub }) x leaving
          (get-insert_self r x n.hub.store) refl
        ∙ ap (λ o. leave_turn r o (record told { hub = closing_hub r e n.hub }))
            (get-insert_self r _ n.outcomes)
        ∙ ap (λ h. record told { hub = h })
            (advance_leaving_own (closing_hub r e n.hub) r x (get-insert_self r x n.hub.store) refl
              entered refl)

    -- The three turns in which the task fails to open a port, closes its session and cleans up.
    pub schedule-refused :
        net_schedule os cfg (goes r ∷ goes r ∷ goes r ∷ []) n
        ≡ record { hub = ended_hub r e n.hub; held = m; outcomes = insert r (some why) n.outcomes }
    unfolding net_schedule net_move told
    schedule-refused =
        ap (λ x. net_turn os cfg r (net_turn os cfg r x)) turn_listen
        ∙ ap (net_turn os cfg r) turn_close
        ∙ turn_leave

-- A spoke connects, finds no session of its own, and its task takes all its turns.
abbrev pub attempt : ℕ → Text → Channel ServerFrame → List NetMove
attempt r id tx = calls r id tx ∷ goes r ∷ goes r ∷ goes r ∷ goes r ∷ []

-- The first port is held.
module _ (os : Os) (r : ℕ) (held : Dict ℕ ℕ) (b : SpokePortBinding) (bs ps : List SpokePortBinding)
    (x : ℕ) (ports : ps ≡ b ∷ bs) (taken : get b.port held ≡ some x) where
  bind_held : bind os held b.port ≡ some os.in_use
  unfolding contains_key
  bind_held = rw (taken, contains_key) refl

  pub open_held : open_ports os r ps held ≡ (held, some (refusal os b))
  unfolding open_ports
  open_held =
      ap (λ qs. open_ports os r qs held) ports
      ∙ ap (λ o. and_open b r held o (open_ports os r bs)) bind_held

module _ (os : Os) (cfg : ServerConfig) (n : Net) (r : ℕ) (id : Text) (tx : Channel ServerFrame)
    (fresh : get r n.hub.store ≡ none) (new : get r n.outcomes ≡ none)
    (absent : get id n.hub.sessions ≡ none) where
  newcomer : Phase → Entry
  newcomer p = record { session = new_session id tx; phase = p }

  after_call : Net
  after_call = record n { hub = set_entry r (newcomer arrived) n.hub }

  registered : Net
  registered = record n { hub = register r (newcomer arrived) after_call.hub }

  called : net_move os cfg (calls r id tx) n ≡ after_call
  unfolding net_move after_call newcomer
  called = ap (λ h. record n { hub = h }) (arrive-new n.hub r id tx fresh)

  turn_enter : net_turn os cfg r after_call ≡ registered
  unfolding after_call registered newcomer
  turn_enter =
      net_turn-phase os cfg r after_call (newcomer arrived) arrived
        (get-insert_self r _ n.hub.store) refl
      ∙ ap (λ h. record n { hub = h })
          (advance_entering after_call.hub r (newcomer arrived) (get-insert_self r _ n.hub.store)
            refl absent)

  pub attempted_hub : Hub
  unfolding registered newcomer
  attempted_hub = ended_hub r (newcomer serving) registered.hub

  pub attempted :
      (m : Dict ℕ ℕ) (why : Text)
      → open_ports os r (ports_of cfg id) n.held ≡ (m, some why)
      → net_schedule os cfg (attempt r id tx) n
        ≡ record { hub = attempted_hub; held = m; outcomes = insert r (some why) n.outcomes }
  unfolding net_schedule net_move registered after_call newcomer attempted_hub
  attempted m why opening =
      ap (λ y. net_turn os cfg r (net_turn os cfg r (net_turn os cfg r (net_turn os cfg r y))))
        called
      ∙ ap (λ y. net_turn os cfg r (net_turn os cfg r (net_turn os cfg r y))) turn_enter
      ∙ schedule-refused os cfg r registered (newcomer serving) m why (get-insert_self r _ _) refl
          (get-insert_self id r n.hub.sessions) new opening

  -- Such a task leaves the table and the gauge as they were, and no other session is touched.
  pub attempted_hub-sessions : attempted_hub.sessions ≡ n.hub.sessions
  unfolding attempted_hub registered after_call newcomer
  attempted_hub-sessions = remove-insert_new id r n.hub.sessions absent

  attempted_hub-connected : attempted_hub.connected ≡ n.hub.connected
  unfolding attempted_hub registered after_call newcomer
  attempted_hub-connected = pred_ℤ-suc_ℤ n.hub.connected

  pub attempted_hub-gone :
      get r attempted_hub.store
      ≡ some (record { session = close (new_session id tx); phase = gone })
  unfolding attempted_hub registered after_call newcomer
  attempted_hub-gone = get-insert_self r _ _

  pub attempted_hub-other : (j : ℕ) → r == j ≡ false → get j attempted_hub.store ≡ get j n.hub.store
  unfolding attempted_hub registered after_call newcomer
  attempted_hub-other j d =
      get-insert_miss r j _ _ d
      ∙ get-insert_miss r j _ _ d
      ∙ get-insert_miss r j _ _ d
      ∙ get-insert_miss r j _ _ d

  -- A spoke that has no session in the table connects under a new reference while any listener
  -- holds its first port: its task ends with the error that names the port, and the table, the
  -- gauge and the ports are as before.
  pub attempt-refused :
      (b : SpokePortBinding) (bs : List SpokePortBinding) (x : ℕ)
      → ports_of cfg id ≡ b ∷ bs
      → get b.port n.held ≡ some x
      → let n' = net_schedule os cfg (attempt r id tx) n in
        (get r n'.outcomes ≡ some (some (refusal os b)))
        × (n'.hub.sessions ≡ n.hub.sessions)
        × (n'.hub.connected ≡ n.hub.connected)
        × (n'.held ≡ n.held)
  attempt-refused b bs x ports taken =
      let whole =
        attempted n.held (refusal os b)
          (open_held os r n.held b bs (ports_of cfg id) x ports taken) in
      (
        ap (λ (y : Net). get r y.outcomes) whole ∙ get-insert_self r _ n.outcomes,
        ap (λ (y : Net). y.hub.sessions) whole ∙ attempted_hub-sessions,
        ap (λ (y : Net). y.hub.connected) whole ∙ attempted_hub-connected,
        ap (λ (y : Net). y.held) whole,
      )
