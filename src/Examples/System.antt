-- ===== src/Examples/System.antt =====
-- The theorems on a tunnel as a whole in a concrete run of it.
use openspoke.Common.{ℕ, ◌≡◌, refl, none, some, List, [], ◌∷◌, ◌++◌, arith}
use openspoke.Common.Eq.{nat_eq, list_eq, list_beq}
use openspoke.Common.Dict.{get, insert, contains}
use openspoke.Common.Channel.{Channel, send, empty_channel, fed}
use openspoke.Common.Text.{codes}
use openspoke.Wire.{Bytes, ServerFrame, ClientFrame}
use openspoke.Server.Metrics.{new_metrics}
use openspoke.Server.Receive.Feed as Up
use openspoke.Server.Session.{send_frame}
use openspoke.Server.Receive.{recv_step, on_data}
use openspoke.Server.Stream.{
  Live, accepted, announced, tcp_read, read_ok, open_frame, data_frame, fetch_sid, announce,
  register_stream, up_step, step,
}
use openspoke.Client.Proxy.{new_shared}
use openspoke.Client.Session.{Session, client_data, handle_frame, send_hub}
use openspoke.Client.Session.Feed as Down
use openspoke.Client.Pump
use openspoke.Client.Pump.{pump_step}
use openspoke.Client.Live.{pumped, on_input}
use openspoke.Tunnel.System.{Tunnel, at_hub, at_spoke, down, up, Reach, here, next}
use openspoke.Tunnel.System.Start.{joined}
use openspoke.Tunnel.System.Order.{in_order_down, in_order_up}
use openspoke.Examples.Data.{hub_config, site, kernel, client_config, quoted}

abbrev start : Tunnel
start = joined (7 ∷ []) 0 new_metrics 4 client_config new_shared

-- Reads of the connection of stream 5, one byte each.
abbrev live_of : Live → List ℕ → Live
live_of l [] = l
live_of l (n ∷ ns) = live_of (step kernel hub_config site (tcp_read 5 (read_ok (n ∷ []))) l) ns

abbrev accepted_five : Live
accepted_five =
    step kernel hub_config site (announced 5 (codes "default"))
      (step kernel hub_config site accepted start.live)

abbrev opened : Session
opened = record start.spoke { streams = (5, empty_channel) ∷ [] }

abbrev one_in : Session
one_in = record start.spoke { streams = (5, fed empty_channel ((1 ∷ []) ∷ [])) ∷ [] }

abbrev read_one : Session
read_one = (send_hub (client_data 5 (9 ∷ [])) one_in).0

abbrev before_up : Tunnel
before_up = record {
  live = live_of accepted_five (1 ∷ 2 ∷ []);
  spoke = read_one;
  taken_down = start.taken_down ++ open_frame 5 (codes "default") ∷ data_frame 5 (1 ∷ []) ∷ [];
  taken_up = start.taken_up;
  pumps = 5 ∷ [];
}

abbrev after_up : Tunnel
after_up = record before_up {
  live = record before_up.live {
    conn = (recv_step site (client_data 5 (9 ∷ [])) before_up.live.conn).0;
  };
  taken_up = start.taken_up ++ client_data 5 (9 ∷ []) ∷ [];
}

before_up-Reach : Reach kernel hub_config site quoted client_config start before_up
unfolding step announce register_stream send_frame send up_step handle_frame send_hub on_input
    pump_step get insert contains fetch_sid list_beq Down.data_of
before_up-Reach =
    next
      (next
        (next
          (next
            (next
              (next (next here (at_hub accepted tt (omega arith)))
                (at_hub (announced 5 (codes "default")) (omega arith, refl) (omega arith)))
              (at_hub (tcp_read 5 (read_ok (1 ∷ []))) (omega arith) (omega arith)))
            (down (open_frame 5 (codes "default")) (data_frame 5 (1 ∷ []) ∷ []) opened _ refl refl))
          (at_hub (tcp_read 5 (read_ok (2 ∷ []))) (omega arith) (omega arith)))
        (down (data_frame 5 (1 ∷ [])) (data_frame 5 (2 ∷ []) ∷ []) one_in none refl refl))
      (at_spoke (pumped 5 (Pump.read_ok (9 ∷ []))) read_one none refl refl)

after_up-Reach : Reach kernel hub_config site quoted client_config start after_up
unfolding send_hub send
after_up-Reach = next before_up-Reach (up (client_data 5 (9 ∷ [])) [] refl)

abbrev given_down : Channel Bytes
given_down = fed empty_channel ((1 ∷ []) ∷ [])

abbrev given_up : Channel Bytes
given_up = fed empty_channel ((9 ∷ []) ∷ [])

pump_is_open : get 5 after_up.spoke.streams ≡ some given_down
unfolding get send_hub send
pump_is_open = refl

writer_is_open : get 5 after_up.live.conn.session.streams ≡ some given_up
unfolding get send recv_step on_data step announce register_stream send_frame up_step insert
    fetch_sid
writer_is_open = refl

in_order_down_example :
    (rest : List ServerFrame) × (after_up.live.conn.session.server_tx.sent
      ≡ after_up.taken_down ++ rest)
    × (Down.data_of 5 after_up.live.conn.session.server_tx.sent
        ≡ given_down.sent ++ Down.data_of 5 rest)
in_order_down_example =
    in_order_down kernel hub_config site quoted client_config (7 ∷ []) 0 new_metrics 4 new_shared
      after_up 5 given_down after_up-Reach pump_is_open

in_order_up_example :
    (rest : List ClientFrame) × (after_up.spoke.shared.hub.sent ≡ after_up.taken_up ++ rest)
    × (Up.data_of 5 after_up.spoke.shared.hub.sent ≡ given_up.sent ++ Up.data_of 5 rest)
in_order_up_example =
    in_order_up kernel hub_config site quoted client_config (7 ∷ []) 0 new_metrics 4 new_shared
      after_up 5 given_up after_up-Reach writer_is_open
