-- ===== src/Examples/Connection.antt =====
-- The theorems on whole connections at a concrete hub, where another spoke is connected.
use openspoke.Common.{false, ◌≡◌, refl, ap, subst, ◌∙◌, none, some, List, [], ◌∷◌, ok}
use openspoke.Common.Eq.{nat_eq, list_eq, list_beq}
use openspoke.Common.Dict.{get}
use openspoke.Common.Channel.{empty_channel}
use openspoke.Common.Int.{pos}
use openspoke.Common.Text.{codes, as_bytes}
use openspoke.Wire.{ClientFrame, ClientKind, HandshakeResponse}
use openspoke.Server.Config.{SpokeConfig}
use openspoke.Server.Metrics.{new_metrics}
use openspoke.Server.Session.{new_session}
use openspoke.Server.Handshake.Auth.{IsAdmitted}
use openspoke.Server.Stream.{Event, accepted, announced, tcp_read, read_ok, frame}
use openspoke.Server.Registry.{Hub, serving}
use openspoke.Server.Connection.{handle_connection}
use openspoke.Server.Connection.Alone.{Ended, handle_connection-Ended}
use openspoke.Server.Program.{System, Call, new_service, serve_calls, main}
use openspoke.Server.Program.Settle.{server_main-Settles}
use openspoke.Examples.Configs.{some_addr, hub_env, loaded, hub_loads}
use openspoke.Examples.Data.{hub_config, kernel}

abbrev one_connected : Hub
one_connected = record {
  sessions = (codes "app-demo", 1) ∷ [];
  store =
      (1, record { session = new_session (codes "app-demo") empty_channel; phase = serving }) ∷ [];
  connected = pos 1;
}

abbrev site_handshake : HandshakeResponse
site_handshake = record {
  spoke_id = codes "site";
  signature = as_bytes (codes "tok");
  tunnel_client_ver = codes "1";
}

abbrev site_frame : ClientFrame
site_frame = record { stream_id = 0; kind = some (ClientKind.handshake site_handshake) }

abbrev busy_time : List Event
busy_time =
    accepted
    ∷ announced 1 (codes "default")
    ∷ tcp_read 1 (read_ok (1 ∷ 2 ∷ []))
    ∷ frame (record { stream_id = 1; kind = some (ClientKind.payload (3 ∷ [])) })
    ∷ []

site_is_new :
    (hs : HandshakeResponse) (sc : SpokeConfig)
    → IsAdmitted hub_config (some (ok site_frame)) hs sc
    → get hs.spoke_id one_connected.sessions ≡ none
unfolding get list_beq
site_is_new hs sc (f, e, k, g, t) =
    let same : site_frame ≡ f = cc e in
    let whole : some (ClientKind.handshake site_handshake) ≡ some (ClientKind.handshake hs) =
      ap (λ (x : ClientFrame). x.kind) same ∙ k in
    let named : site_handshake ≡ hs = cc whole in
    subst (λ (x : HandshakeResponse). get x.spoke_id one_connected.sessions ≡ none) named refl

two_is_new : get 2 one_connected.store ≡ none
unfolding get
two_is_new = refl

handle_connection-Ended_example :
    Ended kernel hub_config
      (λ port. none)
      empty_channel
      (some (ok site_frame))
      busy_time
      0
      one_connected
      new_metrics
      2
      (handle_connection kernel hub_config
        (λ port. none)
        2
        empty_channel
        (some (ok site_frame))
        busy_time
        0
        one_connected
        new_metrics)
handle_connection-Ended_example =
    handle_connection-Ended kernel hub_config (λ port. none) 2 empty_channel (some (ok site_frame))
      busy_time 0 one_connected new_metrics two_is_new site_is_new

-- A system that allows everything.
abbrev pub free_system : System
free_system = record {
  parse_addr = some_addr;
  build_client = ok kernel;
  serve = λ a. ok tt;
  bind = λ port. none;
}

-- The spoke of the configuration connects.
abbrev small_frame : ClientFrame
small_frame = record {
  stream_id = 0;
  kind = some (
      ClientKind.handshake
        (record site_handshake { spoke_id = codes "s"; signature = as_bytes (codes "t") }));
}

-- A stranger, the spoke, and a caller that goes away at once.
abbrev pub calls : List Call
calls =
    record {
      nonce = [];
      issued_at = 1;
      response = empty_channel;
      first = some (ok site_frame);
      events = [];
    }
    ∷ record {
      nonce = [];
      issued_at = 2;
      response = empty_channel;
      first = some (ok small_frame);
      events = busy_time;
    }
    ∷ record {
      nonce = [];
      issued_at = 3;
      response = record empty_channel { is_open = false };
      first = none;
      events = [];
    }
    ∷ []

server_main-Settles_example :
    let s = serve_calls kernel loaded (λ port. none) calls new_service in
    (main free_system hub_env calls ≡ ok s) × (s.hub.sessions ≡ []) × (s.hub.connected ≡ pos 0)
server_main-Settles_example =
    server_main-Settles free_system hub_env loaded kernel calls hub_loads refl refl
