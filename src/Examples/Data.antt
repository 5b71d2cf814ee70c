-- ===== src/Examples/Data.antt =====
-- A hub with an application spoke and a cluster spoke, a kernel that answers, and frames.
use openspoke.Common.{◌≡◌, refl, true, false, Option, none, some, List, [], ◌∷◌, ok, if◌then◌else◌}
use openspoke.Common.Eq.{list_beq, nat_eq, list_eq}
use openspoke.Common.Dict.{insert}
use openspoke.Common.Channel.{empty_channel}
use openspoke.Common.Int.{pos}
use openspoke.Common.Text.{Text, codes, as_bytes, trim, is_whitespace, split, split_once}
use openspoke.Wire.{ClientFrame, ClientKind, HandshakeResponse, HttpRequest, HttpResponse}
use openspoke.Server.Config.{ServerConfig, SpokeConfig, SocketAddr, application, cluster}
use openspoke.Server.Metrics.{new_metrics}
use openspoke.Server.Session.{Conn, new_session}
use openspoke.Server.Http.{HttpClient, Upstream}
use openspoke.Client.Config.{
  ClientConfig, from_secs, load_config, targets_of, parse_targets, parse_target, required,
  with_legacy,
}
use openspoke.Client.Proxy.{Shared, new_shared, ProxyRequest}
use openspoke.Client.Session.{Session}

abbrev pub any_port : SocketAddr
any_port = record { ip = 0 ∷ 0 ∷ 0 ∷ 0 ∷ []; addr_port = 8080 }

-- An environment that is given as a list.
abbrev pub lookup_var : List (Text × Text) → Text → Option Text
lookup_var [] k = none
lookup_var ((n, v) ∷ vs) k = if list_beq n k then some v else lookup_var vs k

abbrev pub demo : SpokeConfig
demo = record {
  spoke_id = codes "app-demo";
  kind = application;
  ports = [];
  token = codes "s3cret";
}

abbrev pub site : SpokeConfig
site = record {
  spoke_id = codes "site";
  kind = cluster;
  ports = record { port = 10001; target = codes "default" } ∷ [];
  token = codes "tok";
}

abbrev pub hub_config : ServerConfig
hub_config = record {
  grpc_listen = any_port;
  metrics_listen = any_port;
  spokes = (codes "app-demo", demo) ∷ (codes "site", site) ∷ [];
  kernel_url = codes "http://kernel";
  allowed_paths = codes "/ask" ∷ [];
}

abbrev pub demo_handshake : HandshakeResponse
demo_handshake = record {
  spoke_id = codes "app-demo";
  signature = as_bytes (codes "s3cret");
  tunnel_client_ver = codes "1";
}

abbrev pub first_frame : ClientFrame
first_frame = record { stream_id = 0; kind = some (ClientKind.handshake demo_handshake) }

abbrev pub kernel_answer : Upstream
kernel_answer = record {
  status = 200;
  headers = (codes "content-type", some (codes "text/plain")) ∷ [];
  body = ok (104 ∷ 105 ∷ []);
}

-- A kernel that gives the same answer to everything.
abbrev pub kernel : HttpClient
kernel = record { method_of_bytes = λ b. some b; execute = λ out. ok kernel_answer }

abbrev pub question : HttpRequest
question = record {
  method = codes "POST";
  path = codes "/ask";
  headers =
      (codes "Host", codes "elsewhere")
      ∷ (codes "X-OpenSpoke-Spoke-Id", codes "other")
      ∷ (codes "accept", codes "*/*")
      ∷ [];
  body = 1 ∷ 2 ∷ [];
}

abbrev pub demo_conn : Conn
demo_conn = record { session = new_session (codes "app-demo") empty_channel; metrics = new_metrics }

-- A connection with stream 5 open.
abbrev pub open_conn : Conn
open_conn = record demo_conn {
  session = record demo_conn.session { streams = (5, empty_channel) ∷ [] };
}

abbrev pub answer : HttpResponse
answer = record { status = pos 200; headers = []; body = 104 ∷ 105 ∷ []; error = [] }

abbrev pub client_config : ClientConfig
client_config = record {
  hub_url = codes "hub:443";
  spoke_id = codes "app-demo";
  token = codes "s3cret";
  targets = (codes "default", codes "mcp:8000") ∷ [];
  insecure = false;
  backoff_min = from_secs 1;
  backoff_max = from_secs 30;
  kernel_proxy_listen = none;
}

abbrev pub attached : Shared
attached = record new_shared { attached = true }

-- Caller 1 waits under stream id 9.
abbrev pub waiting : Shared
waiting = record attached { pending = (9, 1) ∷ [] }

abbrev pub proxy_request : ProxyRequest
proxy_request = record {
  method = codes "POST";
  path_and_query = codes "/ask";
  headers = [];
  body = ok (1 ∷ 2 ∷ []);
}

abbrev pub running : Session
running = record { shared = attached; streams = (5, empty_channel) ∷ (6, empty_channel) ∷ [] }

abbrev pub quoted : Text → Text
quoted t = t

abbrev pub spoke_env : Text → Option Text
spoke_env k =
    lookup_var
      ((codes "HUB_URL", codes "h")
        ∷ (codes "SPOKE_ID", codes "s")
        ∷ (codes "TUNNEL_TOKEN", codes "t")
        ∷ (codes "TARGETS", codes "default=a:1")
        ∷ [])
      k

abbrev pub loaded : ClientConfig
loaded = record {
  hub_url = codes "h";
  spoke_id = codes "s";
  token = codes "t";
  targets = (codes "default", codes "a:1") ∷ [];
  insecure = false;
  backoff_min = from_secs 1;
  backoff_max = from_secs 30;
  kernel_proxy_listen = none;
}

pub spoke_loads : load_config quoted spoke_env ≡ ok loaded
unfolding load_config targets_of trim list_beq is_whitespace parse_targets split parse_target
    split_once required with_legacy insert
spoke_loads = refl
