-- ===== src/Server/Ports/Leak.antt =====
-- A spoke of tunnel-server one of whose ports cannot be opened.
use openspoke.Common.{ℕ, ◌≡◌, ap, ◌∙◌, false, none, some, List, ◌∷◌}
use openspoke.Common.Eq.{list_eq, nat_eq, ◌==◌}
use openspoke.Common.Dict.{get, insert, get-insert_self, get-insert_miss}
use openspoke.Common.Channel.{Channel}
use openspoke.Common.Text.{Text}
use openspoke.Wire.{ServerFrame}
use openspoke.Server.Config.{ServerConfig, SpokePortBinding}
use openspoke.Server.Session.{new_session, close}
use openspoke.Server.Listen.{listen_error}
use openspoke.Server.Registry.{gone}
use openspoke.Server.Ports.{Net, Os, ports_of, bind, and_open, open_ports, net_schedule}
use openspoke.Server.Ports.Refused.{
  attempt, refusal, attempted, attempted_hub, attempted_hub-sessions, attempted_hub-gone,
  attempted_hub-other, attempt-refused,
}

module _ (os os' : Os) (cfg : ServerConfig) (n : Net) (r r' : ℕ) (id : Text)
    (tx tx' : Channel ServerFrame) (b c : SpokePortBinding) (bs : List SpokePortBinding)
    (why : Text) (fresh : get r n.hub.store ≡ none) (new : get r n.outcomes ≡ none)
    (fresh' : get r' n.hub.store ≡ none) (new' : get r' n.outcomes ≡ none) (apart : r == r' ≡ false)
    (absent : get id n.hub.sessions ≡ none) (ports : ports_of cfg id ≡ b ∷ c ∷ bs)
    (free : bind os n.held b.port ≡ none)
    (refused : bind os (insert b.port r n.held) c.port ≡ some why) where
  half_open :
      open_ports os r (ports_of cfg id) n.held
      ≡ (insert b.port r n.held, some (listen_error c.port why))
  unfolding open_ports
  half_open =
      ap (λ ps. open_ports os r ps n.held) ports
      ∙ ap (λ o. and_open b r n.held o (open_ports os r (c ∷ bs))) free
      ∙ ap (λ o. and_open c r (insert b.port r n.held) o (open_ports os r bs)) refused

  abbrev n1 : Net
  n1 = net_schedule os cfg (attempt r id tx) n

  leaked : n1 ≡ record {
    hub = attempted_hub os cfg n r id tx fresh new absent;
    held = insert b.port r n.held;
    outcomes = insert r (some (listen_error c.port why)) n.outcomes;
  }
  leaked =
      attempted os cfg n r id tx fresh new absent (insert b.port r n.held) (listen_error c.port why)
        half_open

  -- A spoke that is not in the table connects, its first port is opened, and its second is refused.
  -- Its task ends, and its session is closed and in the table no longer, but its listener holds the
  -- first port. When the spoke then connects again, the first port is refused because of it,
  -- whatever the operating system would allow by then.
  pub half_open-refused :
      let n2 = net_schedule os' cfg (attempt r' id tx') n1 in
      (get r n1.outcomes ≡ some (some (listen_error c.port why)))
      × (get r n1.hub.store ≡ some (record { session = close (new_session id tx); phase = gone }))
      × (n1.hub.sessions ≡ n.hub.sessions)
      × (get b.port n1.held ≡ some r)
      × (get r' n2.outcomes ≡ some (some (refusal os' b)))
      × (n2.hub.sessions ≡ n.hub.sessions)
      × (get b.port n2.held ≡ some r)
  half_open-refused =
      let gone_hub = attempted_hub os cfg n r id tx fresh new absent in
      let sessions : n1.hub.sessions ≡ n.hub.sessions =
        ap (λ (y : Net). y.hub.sessions) leaked
        ∙ attempted_hub-sessions os cfg n r id tx fresh new absent in
      let holds : get b.port n1.held ≡ some r =
        ap (λ (y : Net). get b.port y.held) leaked ∙ get-insert_self b.port r n.held in
      let (told, kept, level, ports') =
        attempt-refused os' cfg n1 r' id tx'
          (ap (λ (y : Net). get r' y.hub.store) leaked
            ∙ attempted_hub-other os cfg n r id tx fresh new absent r' apart
            ∙ fresh')
          (ap (λ (y : Net). get r' y.outcomes) leaked
            ∙ get-insert_miss r r' _ n.outcomes apart
            ∙ new')
          (ap (get id) sessions ∙ absent) b (c ∷ bs) r ports holds in
      (
        ap (λ (y : Net). get r y.outcomes) leaked ∙ get-insert_self r _ n.outcomes,
        ap (λ (y : Net). get r y.hub.store) leaked
            ∙ attempted_hub-gone os cfg n r id tx fresh new absent,
        sessions,
        holds,
        told,
        kept ∙ sessions,
        ap (get b.port) ports' ∙ holds,
      )
