-- ===== src/Server/Ports/Displaced.antt =====
-- A spoke of tunnel-server that connects again while its older session serves and holds its ports.
use openspoke.Common.{false, ℕ, ◌≡◌, refl, ap, ◌∙◌, none, some, List, [], ◌∷◌}
use openspoke.Common.Eq.{list_eq, nat_eq, ◌==◌}
use openspoke.Common.Dict.{get, insert, get-insert_self, get-insert_miss, get-remove_self}
use openspoke.Common.Channel.{Channel}
use openspoke.Common.Int.{pred_ℤ-suc_ℤ}
use openspoke.Common.Text.{Text}
use openspoke.Wire.{ServerFrame}
use openspoke.Server.Config.{ServerConfig, SpokePortBinding}
use openspoke.Server.Session.{close}
use openspoke.Server.Registry.{Phase, Entry, Hub, arrived, displacing, replacing, serving}
use openspoke.Server.Registry.Displace.{
  h1, h2, h3, h4, newcomer, distinct, distinct', step1, step2, step3, step4,
}
use openspoke.Server.Ports.{
  Net, Os, ports_of, net_turn, NetMove, calls, goes, net_move, net_schedule,
}
use openspoke.Server.Ports.Refused.{open_held, net_turn-phase, refusal, ended_hub, schedule-refused}

-- The newcomer finds the older session, closes it, enters itself, and comes to its end.
abbrev pub takeover : ℕ → Text → Channel ServerFrame → List NetMove
takeover r id tx = calls r id tx ∷ goes r ∷ goes r ∷ goes r ∷ goes r ∷ goes r ∷ goes r ∷ []

module _ (os : Os) (cfg : ServerConfig) (n : Net) (old r : ℕ) (e : Entry) (tx : Channel ServerFrame)
    (b : SpokePortBinding) (bs : List SpokePortBinding) (x : ℕ)
    (entered : get e.session.spoke_id n.hub.sessions ≡ some old)
    (stored : get old n.hub.store ≡ some e) (serves : e.phase ≡ serving)
    (fresh : get r n.hub.store ≡ none) (new : get r n.outcomes ≡ none)
    (ports : ports_of cfg e.session.spoke_id ≡ b ∷ bs) (held : get b.port n.held ≡ some x) where
  g1 : Hub
  g1 = h1 n.hub old r e tx entered stored serves fresh

  g2 : Hub
  g2 = h2 n.hub old r e tx entered stored serves fresh

  g3 : Hub
  g3 = h3 n.hub old r e tx entered stored serves fresh

  g4 : Hub
  g4 = h4 n.hub old r e tx entered stored serves fresh

  nc : Phase → Entry
  nc = newcomer n.hub old r e tx entered stored serves fresh

  apart : old == r ≡ false
  apart = distinct' n.hub old r e tx entered stored serves fresh

  with_hub : Hub → Net
  with_hub h = record n { hub = h }

  in_g3 : get r g3.store ≡ some (nc replacing)
  unfolding g3 nc h3
  in_g3 = get-insert_miss old r _ _ apart ∙ get-insert_self r _ _

  called : net_move os cfg (calls r e.session.spoke_id tx) n ≡ with_hub g1
  unfolding net_move with_hub g1
  called = ap (λ h. record n { hub = h }) (step1 n.hub old r e tx entered stored serves fresh)

  turn1 : net_turn os cfg r (with_hub g1) ≡ with_hub g2
  unfolding with_hub g1 g2 nc h1 newcomer
  turn1 =
      net_turn-phase os cfg r (with_hub g1) (nc arrived) arrived (get-insert_self r _ _) refl
      ∙ ap with_hub (step2 n.hub old r e tx entered stored serves fresh)

  turn2 : net_turn os cfg r (with_hub g2) ≡ with_hub g3
  unfolding with_hub g2 g3 nc h2 newcomer
  turn2 =
      net_turn-phase os cfg r (with_hub g2) (nc (displacing old)) (displacing old)
        (get-insert_self r _ _) refl
      ∙ ap with_hub (step3 n.hub old r e tx entered stored serves fresh)

  turn3 : net_turn os cfg r (with_hub g3) ≡ with_hub g4
  unfolding with_hub g3 g4 nc newcomer
  turn3 =
      net_turn-phase os cfg r (with_hub g3) (nc replacing) replacing in_g3 refl
      ∙ ap with_hub (step4 n.hub old r e tx entered stored serves fresh)

  taken_over : net_schedule os cfg (takeover r e.session.spoke_id tx) n ≡ record n {
    hub = ended_hub r (nc serving) g4;
    outcomes = insert r (some (refusal os b)) n.outcomes;
  }
  unfolding net_schedule net_move with_hub g4 nc h4 newcomer
  taken_over =
      let go = net_turn os cfg r in
      ap (λ y. go (go (go (go (go (go y)))))) called
      ∙ ap (λ y. go (go (go (go (go y))))) turn1
      ∙ ap (λ y. go (go (go (go y)))) turn2
      ∙ ap (λ y. go (go (go y))) turn3
      ∙ schedule-refused os cfg r (with_hub g4) (nc serving) n.held (refusal os b)
          (get-insert_self r _ _) refl (get-insert_self e.session.spoke_id r _) new
          (open_held os r n.held b bs (ports_of cfg e.session.spoke_id) x ports held)

  -- A spoke connects under a new reference while its older session is in the table and serves, and
  -- a listener holds the spoke's first port, as one of the older session does. The newcomer closes
  -- the older session and is then refused the port, and cleans up: the spoke stands in the table no
  -- longer, while the older session is closed, its task not ended, and every port held as before.
  pub takeover-refused :
      let n' = net_schedule os cfg (takeover r e.session.spoke_id tx) n in
      (get r n'.outcomes ≡ some (some (refusal os b)))
      × (get e.session.spoke_id n'.hub.sessions ≡ none)
      × (get old n'.hub.store ≡ some (record e { session = close e.session }))
      × (n'.hub.connected ≡ n.hub.connected)
      × (n'.held ≡ n.held)
  unfolding g4 nc h4 h3 h2 h1 newcomer
  takeover-refused =
      let miss_r : r == old ≡ false = distinct n.hub old r e tx entered stored serves fresh in
      (
        ap (λ (y : Net). get r y.outcomes) taken_over ∙ get-insert_self r _ n.outcomes,
        ap (λ (y : Net). get e.session.spoke_id y.hub.sessions) taken_over
            ∙ get-remove_self e.session.spoke_id _,
        ap (λ (y : Net). get old y.hub.store) taken_over
            ∙ get-insert_miss r old _ _ miss_r
            ∙ get-insert_miss r old _ _ miss_r
            ∙ get-insert_miss r old _ _ miss_r
            ∙ get-insert_self old _ _,
        ap (λ (y : Net). y.hub.connected) taken_over ∙ pred_ℤ-suc_ℤ n.hub.connected,
        ap (λ (y : Net). y.held) taken_over,
      )
