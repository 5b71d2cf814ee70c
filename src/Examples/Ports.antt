-- ===== src/Examples/Ports.antt =====
-- The theorems on the ports of tunnel-server at concrete schedules.
use openspoke.Common.{ℕ, if◌then◌else◌, ◌≡◌, refl, none, some, List, [], ◌∷◌}
use openspoke.Common.Eq.{nat_eq, list_eq, list_beq, ◌==◌}
use openspoke.Common.Dict.{get, insert, contains_key}
use openspoke.Common.Channel.{empty_channel}
use openspoke.Common.Int.{pos}
use openspoke.Common.Text.{codes}
use openspoke.Server.Config.{ServerConfig, SpokeConfig, SpokePortBinding, cluster}
use openspoke.Server.Session.{new_session, close}
use openspoke.Server.Listen.{listen_error}
use openspoke.Server.Registry.{Entry, serving, gone, new_hub}
use openspoke.Server.Ports.{
  Net, Os, bind, ports_of, NetMove, calls, goes, dials, accept_fails, net_schedule,
}
use openspoke.Server.Ports.Owned.{IsOwned, net_schedule-IsOwned}
use openspoke.Server.Ports.Refused.{attempt, refusal}
use openspoke.Server.Ports.Displaced.{takeover, takeover-refused}
use openspoke.Server.Ports.Leak.{half_open-refused}
use openspoke.Examples.Data.{hub_config}

-- Nothing is refused but what is held; and a system that keeps port 10002 for another process.
abbrev easy : Os
easy = record { refuses = λ port. none; in_use = codes "in use" }

abbrev strict : Os
strict = record {
  refuses = λ port. if port == 10002 then some (codes "taken") else none;
  in_use = codes "in use";
}

abbrev first : SpokePortBinding
first = record { port = 10001; target = codes "default" }

abbrev second : SpokePortBinding
second = record { port = 10002; target = codes "apiserver" }

abbrev edge : SpokeConfig
edge = record {
  spoke_id = codes "edge";
  kind = cluster;
  ports = first ∷ second ∷ [];
  token = codes "tok";
}

abbrev edge_config : ServerConfig
edge_config = record hub_config { spokes = (codes "edge", edge) ∷ [] }

abbrev nobody : Net
nobody = record { hub = new_hub; held = []; outcomes = [] }

abbrev edge_entry : Entry
edge_entry = record { session = new_session (codes "edge") empty_channel; phase = serving }

-- Session 1 of the spoke serves.
abbrev one_serves : Net
one_serves = record {
  hub = record {
    sessions = (codes "edge", 1) ∷ [];
    store = (1, edge_entry) ∷ [];
    connected = pos 1;
  };
  held = (10001, 1) ∷ (10002, 1) ∷ [];
  outcomes = (1, none) ∷ [];
}

abbrev busy : List NetMove
busy =
    calls 1 (codes "edge") empty_channel
    ∷ goes 1
    ∷ goes 1
    ∷ dials 10001
    ∷ calls 2 (codes "edge") empty_channel
    ∷ goes 2
    ∷ goes 2
    ∷ accept_fails 10002
    ∷ goes 1
    ∷ dials 10001
    ∷ []

nobody-IsOwned : IsOwned edge_config nobody
unfolding get
nobody-IsOwned = record { distinct = tt; owned = λ port r q. cc }

edge_ports : ports_of edge_config (codes "edge") ≡ first ∷ second ∷ []
unfolding get list_beq
edge_ports = refl

one_entered : get (codes "edge") one_serves.hub.sessions ≡ some 1
unfolding get list_beq
one_entered = refl

one_stored : get 1 one_serves.hub.store ≡ some edge_entry
unfolding get
one_stored = refl

two_fresh : get 2 one_serves.hub.store ≡ none
unfolding get
two_fresh = refl

two_new : get 2 one_serves.outcomes ≡ none
unfolding get
two_new = refl

first_held : get first.port one_serves.held ≡ some 1
unfolding get
first_held = refl

none_stored : (r : ℕ) → get r nobody.hub.store ≡ none
unfolding get
none_stored r = refl

none_told : (r : ℕ) → get r nobody.outcomes ≡ none
unfolding get
none_told r = refl

none_entered : get (codes "edge") nobody.hub.sessions ≡ none
unfolding get
none_entered = refl

first_free : bind strict nobody.held first.port ≡ none
unfolding contains_key get
first_free = refl

second_refused : bind strict (insert first.port 1 nobody.held) second.port ≡ some (codes "taken")
unfolding contains_key get insert
second_refused = refl

net_schedule-IsOwned_example : IsOwned edge_config (net_schedule strict edge_config busy nobody)
net_schedule-IsOwned_example = net_schedule-IsOwned edge_config strict busy nobody nobody-IsOwned

takeover-refused_example :
    let n' = net_schedule easy edge_config (takeover 2 (codes "edge") empty_channel) one_serves in
    (get 2 n'.outcomes ≡ some (some (refusal easy first)))
    × (get (codes "edge") n'.hub.sessions ≡ none)
    × (get 1 n'.hub.store ≡ some (record edge_entry { session = close edge_entry.session }))
    × (n'.hub.connected ≡ one_serves.hub.connected)
    × (n'.held ≡ one_serves.held)
takeover-refused_example =
    takeover-refused easy edge_config one_serves 1 2 edge_entry empty_channel first (second ∷ []) 1
      one_entered one_stored refl two_fresh two_new edge_ports first_held

half_open-refused_example :
    let n1 = net_schedule strict edge_config (attempt 1 (codes "edge") empty_channel) nobody in
    let n2 = net_schedule easy edge_config (attempt 2 (codes "edge") empty_channel) n1 in
    (get 1 n1.outcomes ≡ some (some (listen_error second.port (codes "taken"))))
    × (get 1 n1.hub.store
        ≡ some
            (record { session = close (new_session (codes "edge") empty_channel); phase = gone }))
    × (n1.hub.sessions ≡ nobody.hub.sessions)
    × (get first.port n1.held ≡ some 1)
    × (get 2 n2.outcomes ≡ some (some (refusal easy first)))
    × (n2.hub.sessions ≡ nobody.hub.sessions)
    × (get first.port n2.held ≡ some 1)
half_open-refused_example =
    half_open-refused strict easy edge_config nobody 1 2 (codes "edge") empty_channel empty_channel
      first second [] (codes "taken") (none_stored 1) (none_told 1) (none_stored 2) (none_told 2)
      refl none_entered edge_ports first_free second_refused
