-- ===== src/Examples/Streams.antt =====
-- The theorems on the way of bytes and requests through both programs at concrete inputs.
use openspoke.Common.{
  ℕ, ◌≡◌, refl, Bool, true, Option, none, some, List, [], ◌∷◌, ◌++◌, map, arith, All, ok,
}
use openspoke.Common.Eq.{nat_eq, list_eq}
use openspoke.Common.Dict.{get}
use openspoke.Common.Channel.{empty_channel, fed}
use openspoke.Common.Text.{Text, codes}
use openspoke.Wire.{ClientFrame, HttpRequest}
use openspoke.Server.Http.{http_outcome, handle_http_request, response_frame}
use openspoke.Server.Receive.{recv_loop, recv_step}
use openspoke.Server.Stream.{Event, Live, tcp_read, read_ok, accepted, announced, run}
use openspoke.Client.Proxy
use openspoke.Client.Proxy.{
  Shared, begin_request, enter_request, queue_request, enters, client_http_request, expires,
  finish_request, answered, build,
}
use openspoke.Client.Session.{Session, client_data, handle_frame}
use openspoke.Client.Pump
use openspoke.Client.Pump.{PumpEvent, inbound, pump_loop}
use openspoke.Client.Pump.Frames.{frames_of}
use openspoke.Tunnel.Sent.{GoesOn, reads_of}
use openspoke.Tunnel.Down.{Delivered, taken, down_stream}
use openspoke.Tunnel.Up.{about, chunks_of, up_stream}
use openspoke.Tunnel.Exchange.{request_of, contract, Delivers, exchange_lem}
use openspoke.Examples.Data.{
  hub_config, demo, site, kernel, demo_conn, open_conn, client_config, attached, proxy_request,
  running, quoted,
}

-- Stream 5 is open on both sides.
abbrev busy : Live
busy = record { conn = open_conn; last_sid = 5 }

abbrev reads : List Event
reads =
    tcp_read 5 (read_ok (1 ∷ 2 ∷ []))
    ∷ accepted
    ∷ announced 6 (codes "default")
    ∷ tcp_read 6 (read_ok [])
    ∷ tcp_read 5 (read_ok (3 ∷ []))
    ∷ []

abbrev writes : List PumpEvent
writes = inbound (1 ∷ 2 ∷ []) true ∷ inbound (3 ∷ []) true ∷ []

reads-GoesOn : All (GoesOn 5) reads
reads-GoesOn = (tt, (tt, (omega arith, (omega arith, (tt, tt)))))

five_is_open : get 5 running.streams ≡ some empty_channel
unfolding get
five_is_open = refl

all_taken : taken writes ≡ [] ++ reads_of 5 reads
unfolding taken reads_of
all_taken = refl

down_stream_example :
    Delivered quoted client_config 5 busy
      (run kernel hub_config site reads busy)
      running
      (fed empty_channel (reads_of 5 reads))
    × ((pump_loop 5 writes running).written ≡ [] ++ reads_of 5 reads)
down_stream_example =
    down_stream kernel hub_config site quoted client_config 5 reads busy running running
      empty_channel writes refl reads-GoesOn (omega arith) (omega arith) five_is_open refl refl
      (refl, (refl, tt)) all_taken

abbrev pumped : List PumpEvent
pumped = Pump.read_ok (4 ∷ []) ∷ inbound (1 ∷ []) true ∷ Pump.read_ok (5 ∷ 6 ∷ []) ∷ []

-- The pump's frames among others.
abbrev mixed : List ClientFrame
mixed = client_data 5 (4 ∷ []) ∷ client_data 6 (9 ∷ []) ∷ client_data 5 (5 ∷ 6 ∷ []) ∷ []

own_frames : about 5 mixed ≡ frames_of 5 pumped
unfolding about frames_of
own_frames = refl

writer_is_open : get 5 open_conn.session.streams ≡ some empty_channel
unfolding get
writer_is_open = refl

up_stream_example :
    ((pump_loop 5 pumped running).session.shared.hub.sent
      ≡ running.shared.hub.sent ++ frames_of 5 pumped)
    × (get 5 (recv_loop site (map ok mixed) open_conn).0.session.streams
        ≡ some (fed empty_channel (chunks_of pumped)))
up_stream_example =
    up_stream site 5 pumped running mixed open_conn empty_channel refl (tt, (refl, (tt, tt)))
      own_frames writer_is_open refl

abbrev any_status : ℕ → Option ℕ
any_status n = some n

abbrev any_header : Text → Text → Bool
any_header k v = true

-- Another request is entered before the frame is queued, and another wait runs out after it.
abbrev before_send : List Proxy.Event
before_send = enters 2 ∷ []

abbrev after_send : List Proxy.Event
after_send = expires 3 ∷ []

abbrev asked : HttpRequest
asked = request_of proxy_request (1 ∷ 2 ∷ [])

abbrev first_part : Shared
first_part = Proxy.run before_send (enter_request 1 attached)

abbrev later : Session
later = record running {
  shared = Proxy.run after_send (queue_request attached.stream_id_counter asked first_part).0;
}

still_open : first_part.hub.is_open ≡ true
unfolding Proxy.run Proxy.step enter_request
still_open = refl

exchange_lem_example :
    let sid = attached.stream_id_counter in
    let resp = (http_outcome kernel hub_config (codes "app-demo") asked).0.1 in
    let s2 = (queue_request sid asked first_part).0 in
    (begin_request proxy_request attached ≡ ok asked)
    × ((queue_request sid asked first_part).1 ≡ none)
    × (s2.hub ≡ fed first_part.hub (client_http_request sid asked ∷ []))
    × (recv_step demo (client_http_request sid asked) demo_conn ≡ (demo_conn, (sid, asked) ∷ []))
    × ((handle_http_request kernel hub_config sid asked demo_conn).0.session.server_tx
        ≡ fed demo_conn.session.server_tx (response_frame sid resp ∷ []))
    × Delivers
        (handle_frame quoted client_config (response_frame sid resp) later)
        later.shared
        1
        resp
    × ((finish_request any_status any_header sid (answered resp) later.shared).1
        ≡ build any_header (contract kernel hub_config (codes "app-demo") asked))
exchange_lem_example =
    exchange_lem any_status any_header kernel hub_config demo quoted client_config 1 proxy_request
      (1 ∷ 2 ∷ []) attached demo_conn before_send after_send later refl refl still_open refl refl
      (tt, tt) (omega arith, tt) (omega arith) refl refl (omega arith, refl)
