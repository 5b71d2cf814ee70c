-- ===== src/Tunnel/HttpProxy.antt =====
-- One HTTP request through both programs: what the hub answers, and what the caller on the spoke
-- gets.
use openspoke.Common.{
  ℕ, ◌<◌, ◌%◌, ◌^◌, inl, inr, Bool-cases, ◌≡◌, refl, Option, some, [], ◌++◌, arith, if◌then◌else◌,
  Result, ok, err,
}
use openspoke.Common.Eq.{nat_eq, list_eq}
use openspoke.Common.Dict.{contains}
use openspoke.Common.Text.{Text, codes, as_bytes}
use openspoke.Wire.{Bytes, HttpRequest}
use openspoke.Server.Config.{ServerConfig}
use openspoke.Server.Http
use openspoke.Server.Http.{HttpClient, Upstream, http_outcome, build_request, response_headers}
use openspoke.Client.Proxy.{Reply, reply_of}

module _ (client : HttpClient) (cfg : ServerConfig) (id : Text) (req : HttpRequest)
    (status_of : ℕ → Option ℕ) where
  -- What the caller gets for the request, the frames between the two programs apart.
  abbrev pub end_to_end : Reply
  end_to_end = reply_of status_of (http_outcome client cfg id req).0.1

-- The contract: a path that is not allowed is a 403 that says so, a kernel that cannot be reached
-- or read is a 502 with the reason, and all else is the kernel's own response.
abbrev pub of_body : Upstream → Result Text Bytes → Reply
of_body up (ok body) = record {
  status = up.status;
  headers = response_headers up.headers [];
  body = body;
}
of_body up (err e) = record {
  status = 502;
  headers = [];
  body = as_bytes (codes "upstream body error: " ++ e);
}

abbrev pub of_kernel : Result Text Upstream → Reply
of_kernel (ok up) = of_body up up.body
of_kernel (err e) = record {
  status = 502;
  headers = [];
  body = as_bytes (codes "upstream error: " ++ e);
}

abbrev pub not_allowed : Text → Reply
not_allowed path = record {
  status = 403;
  headers = [];
  body = as_bytes (codes "path not allowed: " ++ path);
}

-- `StatusCode::from_u16` takes the status that a response of the HTTP client carries.
abbrev pub TakesStatus : (ℕ → Option ℕ) → Result Text Upstream → Type 0
TakesStatus status_of (ok up) = (up.status < 2 ^ 16) × (status_of up.status ≡ some up.status)
TakesStatus status_of (err e) = Unit

module _ (status_of : ℕ → Option ℕ) where
  reply_of-of_body :
      (up : Upstream) (b : Result Text Bytes)
      → up.status < 2 ^ 16
      → status_of up.status ≡ some up.status
      → reply_of status_of (Http.of_body up b).1 ≡ of_body up b
  unfolding reply_of
  reply_of-of_body up (ok body) lt takes =
      let small : up.status % 2 ^ 16 ≡ up.status = omega arith in rw (small, takes)
  reply_of-of_body up (err e) lt takes = refl

  reply_of-of_upstream :
      (u : Result Text Upstream)
      → TakesStatus status_of u
      → reply_of status_of (Http.of_upstream u).1 ≡ of_kernel u
  unfolding reply_of
  reply_of-of_upstream (ok up) takes = reply_of-of_body up up.body takes.0 takes.1
  reply_of-of_upstream (err e) takes = refl

  -- What the caller on the spoke gets is what the contract says of the hub's allowlist and the
  -- kernel's answer, provided the status codes 403 and the kernel's own are ones that the HTTP
  -- library accepts.
  pub end_to_end_lem :
      (client : HttpClient) (cfg : ServerConfig) (id : Text) (req : HttpRequest)
      → status_of 403 ≡ some 403
      → TakesStatus status_of (client.execute (build_request client cfg id req))
      → end_to_end client cfg id req status_of ≡ (
          if contains req.path cfg.allowed_paths
          then of_kernel (client.execute (build_request client cfg id req))
          else not_allowed req.path)
  unfolding http_outcome
  end_to_end_lem client cfg id req forbidden takes =
      elim (Bool-cases (contains req.path cfg.allowed_paths)) [
        | inl t ↦
            rw t (reply_of-of_upstream (client.execute (build_request client cfg id req)) takes)
        | inr t ↦ rw t (unfold reply_of as_bytes in rw forbidden)
      ]
