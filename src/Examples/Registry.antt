-- ===== src/Examples/Registry.antt =====
-- The theorems on the table of sessions of tunnel-server at concrete schedules.
use openspoke.Common.{◌+◌, ◌≤◌, ◌≡◌, ◌≢◌, refl, false, none, some, List, [], ◌∷◌, arith}
use openspoke.Common.Eq.{nat_eq, list_eq, list_beq}
use openspoke.Common.Dict.{get}
use openspoke.Common.Channel.{empty_channel}
use openspoke.Common.Int.{pos, suc_ℤ}
use openspoke.Common.Text.{Text, codes}
use openspoke.Server.Session.{new_session}
use openspoke.Server.Registry.{
  Entry, Hub, Move, arrival, turn, schedule, new_hub, serving, arrived, gone,
}
use openspoke.Server.Registry.Entered.{IsSound}
use openspoke.Server.Registry.Count.{IsCounted, replacements, schedule-IsCounted}
use openspoke.Server.Registry.Ends.{turns_of, five_turns_end}
use openspoke.Server.Registry.Orphan.{overlap, overlap_orphan}

-- A spoke connects twice, and the older session ends.
abbrev twice : List Move
twice =
    arrival 1 (codes "site") empty_channel
    ∷ turn 1
    ∷ arrival 2 (codes "site") empty_channel
    ∷ turn 2
    ∷ turn 2
    ∷ turn 2
    ∷ turn 1
    ∷ turn 1
    ∷ []

empty-IsCounted : IsCounted 0 new_hub
empty-IsCounted = record { distinct = tt; level = refl }

schedule-IsCounted_example : IsCounted (0 + replacements twice new_hub) (schedule twice new_hub)
schedule-IsCounted_example = schedule-IsCounted twice 0 new_hub empty-IsCounted

-- A task that has just arrived, before anything stands in the table.
abbrev newcomer : Entry
newcomer = record { session = new_session (codes "site") empty_channel; phase = arrived }

abbrev one_arrived : Hub
one_arrived = record { sessions = []; store = (1, newcomer) ∷ []; connected = pos 0 }

one_arrived-IsSound : IsSound one_arrived
unfolding get
one_arrived-IsSound = record { entered = λ id r q. cc }

abbrev five_turns : List Move
five_turns =
    turn 1
    ∷ turn 1
    ∷ arrival 2 (codes "site") empty_channel
    ∷ turn 1
    ∷ turn 2
    ∷ turn 1
    ∷ turn 1
    ∷ []

newcomer_stored : get 1 one_arrived.store ≡ some newcomer
unfolding get
newcomer_stored = refl

five : 5 ≤ turns_of 1 five_turns
unfolding turns_of
five = omega arith

five_turns_end_example :
    ((e' : Entry) × (get 1 (schedule five_turns one_arrived).store ≡ some e') × (e'.phase ≡ gone))
    × ((id : Text) → get id (schedule five_turns one_arrived).sessions ≢ some 1)
five_turns_end_example =
    five_turns_end 1 newcomer five_turns one_arrived one_arrived-IsSound newcomer_stored five

abbrev served : Entry
served = record { session = new_session (codes "site") empty_channel; phase = serving }

abbrev one_served : Hub
one_served = record {
  sessions = (codes "site", 1) ∷ [];
  store = (1, served) ∷ [];
  connected = pos 1;
}

served_entered : get (codes "site") one_served.sessions ≡ some 1
unfolding get list_beq
served_entered = refl

served_stored : get 1 one_served.store ≡ some served
unfolding get
served_stored = refl

second_fresh : get 2 one_served.store ≡ none
unfolding get
second_fresh = refl

third_fresh : get 3 one_served.store ≡ none
unfolding get
third_fresh = refl

overlap_orphan_example :
    let h' = schedule (overlap (codes "site") 2 3 empty_channel empty_channel) one_served in
    (get (codes "site") h'.sessions ≡ some 3)
    × ((x : Entry) × (get 2 h'.store ≡ some x) × (x.phase ≡ serving) × (x.session.closed ≡ false))
    × (h'.connected ≡ suc_ℤ (suc_ℤ (pos 1)))
overlap_orphan_example =
    overlap_orphan one_served 1 2 3 served empty_channel empty_channel served_entered served_stored
      second_fresh third_fresh (omega arith)
