-- ===== src/Server/Http/Headers.antt =====
-- The requests that `handle_http_request` of tunnel-server sends to the kernel.
use openspoke.Common.{
  ℕ, ◌≡◌, refl, sym, ap, ◌∙◌, ◌⊎◌, inl, inr, true, false, List, [], ◌∷◌, ◌++◌, All, arith,
  Bool-cases,
}
use openspoke.Common.Eq.{list_eq, nat_eq, list_beq, list_beq_iff}
use openspoke.Common.Dict.{Dict, get, contains}
use openspoke.Common.Text.{Text, starts_with, to_ascii_lowercase}
use openspoke.Wire.{HttpRequest}
use openspoke.Server.Config.{ServerConfig}
use openspoke.Server.Session.{Conn}
use openspoke.Server.Http.{
  OutRequest, HttpClient, is_host, is_reserved, forward_headers, spoke_id_header, build_request,
  handle_http_request,
}

abbrev pub IsForwardable : Text × Text → Type 0
IsForwardable (k, v) = (is_host k ≡ false) × (is_reserved k ≡ false)

forward_headers-All : (hs : Dict Text Text) → All IsForwardable (forward_headers hs)
unfolding forward_headers
forward_headers-All [] = tt
forward_headers-All ((k, v) ∷ hs) = ground (arith, forward_headers-All hs)

-- No other header is touched.
get-forward_headers :
    (k : Text) (hs : Dict Text Text)
    → is_host k ≡ false
    → is_reserved k ≡ false
    → get k (forward_headers hs) ≡ get k hs
unfolding forward_headers get
get-forward_headers k [] h r = refl
get-forward_headers k ((j, v) ∷ hs) h r =
    ground (arith, get-forward_headers k hs h r, list_beq_iff j k)

-- The requests that go to the kernel for one request of a spoke.
pub record IsForwarded (cfg : ServerConfig) (spoke_id : Text) (req : HttpRequest) (out : OutRequest)
    : Type 0 where
  pub pinned_url : out.url ≡ cfg.kernel_url ++ req.path
  pub same_body : out.body ≡ req.body
  pub identity :
      (kept : List (Text × Text)) × (out.headers ≡ kept ++ (spoke_id_header, spoke_id) ∷ [])
      × All IsForwardable kept
  pub untouched :
      (k : Text)
      → (is_host k ≡ true) ⊎ (is_reserved k ≡ true) ⊎ (get k out.headers ≡ get k req.headers)

get-append-last :
    (k j : Text) (v : Text) (m : List (Text × Text))
    → list_beq j k ≡ false
    → get k (m ++ (j, v) ∷ []) ≡ get k m
unfolding get
get-append-last k j v [] h = rw h refl
get-append-last k j v ((i, w) ∷ m) h = ground (arith, get-append-last k j v m h)

is_reserved-spoke_id_header : is_reserved spoke_id_header ≡ true
unfolding is_reserved starts_with to_ascii_lowercase
is_reserved-spoke_id_header = refl

other_name : (k : Text) → is_reserved k ≡ false → list_beq spoke_id_header k ≡ false
other_name k r = elim (Bool-cases (list_beq spoke_id_header k)) [
  | inl t ↦
      let same = (list_beq_iff spoke_id_header k).0 t in
      absurd (clash (sym is_reserved-spoke_id_header ∙ ap is_reserved same ∙ r))
  | inr t ↦ t
]
  where
    clash : true ≡ false → ⊥
    clash e = cc

untouched_lem :
    (client : HttpClient) (cfg : ServerConfig) (id : Text) (req : HttpRequest) (k : Text)
    → (is_host k ≡ true)
      ⊎ (is_reserved k ≡ true)
      ⊎ (get k (build_request client cfg id req).headers ≡ get k req.headers)
unfolding build_request
untouched_lem client cfg id req k = elim (Bool-cases (is_host k)) [
  | inl h ↦ inl h
  | inr h ↦ elim (Bool-cases (is_reserved k)) [
    | inl r ↦ inr (inl r)
    | inr r ↦ inr (
        inr (
          get-append-last k spoke_id_header id (forward_headers req.headers) (other_name k r)
          ∙ get-forward_headers k req.headers h r))
  ]
]

build_request-IsForwarded :
    (client : HttpClient) (cfg : ServerConfig) (id : Text) (req : HttpRequest)
    → IsForwarded cfg id req (build_request client cfg id req)
unfolding build_request
build_request-IsForwarded client cfg id req = record {
  pinned_url = refl;
  same_body = refl;
  identity = (forward_headers req.headers, refl, forward_headers-All req.headers);
  untouched = untouched_lem client cfg id req;
}

-- What one request of a spoke makes of the kernel: nothing where the path is not allowed, and
-- otherwise one request.
abbrev pub Reaches : ServerConfig → Text → HttpRequest → List OutRequest → Type 0
Reaches cfg id req [] = contains req.path cfg.allowed_paths ≡ false
Reaches cfg id req (out ∷ []) =
    (contains req.path cfg.allowed_paths ≡ true) × IsForwarded cfg id req out
Reaches cfg id req (out ∷ o ∷ os) = ⊥

-- A request reaches the kernel exactly when its path is allowed, and then once: at the kernel's
-- address, with its body, with one header that gives the session's own spoke id in front of which
-- no host header and no reserved header is left, and with every other header as it was.
pub handle_http_request-Reaches :
    (client : HttpClient) (cfg : ServerConfig) (sid : ℕ) (req : HttpRequest) (c : Conn)
    → Reaches cfg c.session.spoke_id req (handle_http_request client cfg sid req c).1
unfolding handle_http_request
handle_http_request-Reaches client cfg sid req c =
    elim (Bool-cases (contains req.path cfg.allowed_paths)) [
      | inl t ↦ rw t (t, build_request-IsForwarded client cfg c.session.spoke_id req)
      | inr t ↦ rw t t
    ]
