-- ===== src/Client/Endpoint.antt =====
-- How `run_session_impl` of spoke/images/tunnel-client/src/main.rs sets up its connection. The
-- gRPC library is a parameter.
pub mod Domain
use openspoke.Common.{
  ℕ, ◌*◌, Bool, true, Option, none, some, List, ◌++◌, if◌then◌else◌, Result, ok, err, ◌>>=◌,
}
use openspoke.Common.Text.{Text, codes, rsplit_once}
use openspoke.Client.Config.{ClientConfig, from_secs}

-- `tonic::transport::Endpoint` with its options; `tls_domain` where TLS is configured, with the
-- name that the certificate is checked for.
pub record Endpoint : Type 0 where
  pub uri : Text
  pub initial_stream_window_size : ℕ
  pub initial_connection_window_size : ℕ
  pub keep_alive_while_idle : Bool
  pub http2_keep_alive_interval : ℕ
  pub keep_alive_timeout : ℕ
  pub tls_domain : Option Text

-- What the library answers: whether a text is a URI, whether a name is a TLS domain, whether an
-- endpoint connects, and what the call of `connect` then delivers; an error is its text.
pub record Transport (A : Type 0) : Type 0 where
  pub from_shared : Text → Result Text (Unit {0})
  pub tls_config : Text → Result Text (Unit {0})
  pub connect : Endpoint → Result Text (Unit {0})
  pub call : Endpoint → Result Text A

abbrev pub scheme : ClientConfig → Text
scheme cfg = if cfg.insecure then codes "http" else codes "https"

abbrev pub uri_string : ClientConfig → Text
uri_string cfg = scheme cfg ++ (codes "://" ++ cfg.hub_url)

abbrev pub before_port : Text → Option (Text × Text) → Text
before_port url none = url
before_port url (some (h, p)) = h

unfoldable pub host_of : Text → Text
host_of url = before_port url (rsplit_once b':' url)

abbrev pub plain_endpoint : Text → Endpoint
plain_endpoint uri = record {
  uri = uri;
  initial_stream_window_size = 4 * 1024 * 1024;
  initial_connection_window_size = 16 * 1024 * 1024;
  keep_alive_while_idle = true;
  http2_keep_alive_interval = from_secs 30;
  keep_alive_timeout = from_secs 20;
  tls_domain = none;
}

abbrev pub with_tls : {A : Type 0} → Transport A → Text → Endpoint → Result Text Endpoint
with_tls t host e = do done ← t.tls_config host; ok (record e { tls_domain = some host })

unfoldable pub secured : {A : Type 0} → Transport A → ClientConfig → Endpoint → Result Text Endpoint
unfolding host_of
secured t cfg e = if cfg.insecure then ok e else with_tls t (host_of cfg.hub_url) e

unfoldable pub endpoint_of : {A : Type 0} → Transport A → ClientConfig → Result Text Endpoint
unfolding secured
endpoint_of t cfg = do
  done ← t.from_shared (uri_string cfg)
  secured t cfg (plain_endpoint (uri_string cfg))

-- Up to the hub's stream.
unfoldable pub dial : {A : Type 0} → Transport A → ClientConfig → Result Text A
unfolding endpoint_of
dial t cfg = do e ← endpoint_of t cfg; done ← t.connect e; t.call e
