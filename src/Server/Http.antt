-- ===== src/Server/Http.antt =====
-- `handle_http_request` of hub/images/tunnel-server/src/main.rs. The HTTP client and the kernel
-- behind it are a parameter: a function from the request that is sent to what comes back.
pub mod Headers
pub mod Reply
use openspoke.Common.{
  ℕ, Bool, true, false, not, Option, none, some, List, [], ◌∷◌, ◌++◌, if◌then◌else◌, Result, ok,
  err,
}
use openspoke.Common.Eq.{list_eq, nat_eq}
use openspoke.Common.Dict.{Dict, insert, contains}
use openspoke.Common.Int.{ℤ, pos}
use openspoke.Common.Text.{
  Text, codes, as_bytes, eq_ignore_ascii_case, to_ascii_lowercase, starts_with,
}
use openspoke.Wire.{Bytes, ServerFrame, ServerKind, HttpRequest, HttpResponse}
use openspoke.Server.Config.{ServerConfig}
use openspoke.Server.Metrics.{Metrics, inc_by}
use openspoke.Server.Session.{SpokeSession, Conn, send_frame}

-- What goes to the kernel.
pub record OutRequest : Type 0 where
  pub method : Text
  pub url : Text
  pub headers : List (Text × Text)
  pub body : Bytes

-- What comes back: a header value that is no visible ASCII is `none`, and reading the body may fail.
pub record Upstream : Type 0 where
  pub status : ℕ
  pub headers : List (Text × Option Text)
  pub body : Result Text Bytes

-- `reqwest`: `Method::from_bytes`, and `builder.send().await`.
pub record HttpClient : Type 0 where
  pub method_of_bytes : Bytes → Option Text
  pub execute : OutRequest → Result Text Upstream

unfoldable pub is_host : Text → Bool
is_host k = eq_ignore_ascii_case k (codes "host")

unfoldable pub is_reserved : Text → Bool
is_reserved k = starts_with (codes "x-openspoke-") (to_ascii_lowercase k)

-- The loop over the request's headers.
unfoldable pub forward_headers : Dict Text Text → List (Text × Text)
forward_headers [] = []
forward_headers ((k, v) ∷ hs) =
    let rest = forward_headers hs in
    if is_host k then rest else if is_reserved k then rest else (k, v) ∷ rest

abbrev pub spoke_id_header : Text
spoke_id_header = codes "x-openspoke-spoke-id"

abbrev pub or_get : Option Text → Text
or_get none = codes "GET"
or_get (some m) = m

unfoldable pub build_request : HttpClient → ServerConfig → Text → HttpRequest → OutRequest
build_request client cfg spoke_id req = record {
  method = or_get (client.method_of_bytes (as_bytes req.method));
  url = cfg.kernel_url ++ req.path;
  headers = forward_headers req.headers ++ (spoke_id_header, spoke_id) ∷ [];
  body = req.body;
}

-- The loop over the response's headers: a later value replaces an earlier one of the same name.
unfoldable pub response_headers : List (Text × Option Text) → Dict Text Text → Dict Text Text
response_headers [] m = m
response_headers ((k, none) ∷ hs) m = response_headers hs m
response_headers ((k, some v) ∷ hs) m = response_headers hs (insert k v m)

abbrev pub response_frame : ℕ → HttpResponse → ServerFrame
response_frame sid r = record { stream_id = sid; kind = some (ServerKind.http_response r) }

-- The counter, and then the frame; a failure to send is ignored.
unfoldable pub reply : ℕ → Text → HttpResponse → Conn → Conn
reply sid result r c = record {
  session = (send_frame (response_frame sid r) c.session).0;
  metrics = record c.metrics {
    http_requests = inc_by (c.session.spoke_id ∷ result ∷ []) 1 c.metrics.http_requests;
  };
}

abbrev pub failed : Text → HttpResponse
failed e = record { status = pos 0; headers = []; body = []; error = e }

abbrev pub rejected_path : Text → HttpResponse
rejected_path path = record {
  status = pos 403;
  headers = [];
  body = as_bytes (codes "path not allowed: " ++ path);
  error = codes "rejected_path";
}

-- The result's label and the response, from what the kernel gave.
abbrev pub of_body : Upstream → Result Text Bytes → Text × HttpResponse
of_body up (ok body) = (
  codes "ok",
  record {
    status = pos up.status;
    headers = response_headers up.headers [];
    body = body;
    error = [];
  },
)
of_body up (err e) = (codes "upstream_err", failed (codes "upstream body error: " ++ e))

abbrev pub of_upstream : Result Text Upstream → Text × HttpResponse
of_upstream (ok up) = of_body up up.body
of_upstream (err e) = (codes "upstream_err", failed (codes "upstream error: " ++ e))

-- What one request leads to: the label, the response, and the requests sent to the kernel.
unfoldable pub http_outcome :
    HttpClient → ServerConfig → Text → HttpRequest → (Text × HttpResponse) × List OutRequest
http_outcome client cfg spoke_id req =
    if not (contains req.path cfg.allowed_paths)
    then ((codes "rejected_path", rejected_path req.path), [])
    else let out = build_request client cfg spoke_id req in
      (of_upstream (client.execute out), out ∷ [])

unfoldable pub handle_http_request :
    HttpClient → ServerConfig → ℕ → HttpRequest → Conn → Conn × List OutRequest
unfolding http_outcome reply
handle_http_request client cfg sid req c =
    let (outcome, made) = http_outcome client cfg c.session.spoke_id req in
    (reply sid outcome.0 outcome.1 c, made)
