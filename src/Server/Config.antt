-- ===== src/Server/Config.antt =====
-- `load_config` of hub/images/tunnel-server/src/main.rs and the types that it fills. The process
-- environment is a function of the variable's name; the parser of socket addresses is an argument.
pub mod Valid
pub mod Entry
pub mod RoundTrip
use openspoke.Common.{
  ℕ, ◌≡◌, Bool, true, false, ◌&&◌, Option, none, some, List, [], ◌∷◌, ◌++◌, if◌then◌else◌, Result,
  ok, err, ◌>>=◌,
}
use openspoke.Common.Eq.{◌==◌, list_eq, nat_eq}
use openspoke.Common.Dict.{Dict, insert}
use openspoke.Common.Text.{
  Text, codes, split, split_once, splitn, trim, starts_with, parse_u16, show_parse_error, is_empty,
}

pub record SpokePortBinding : Type 0 where
  pub port : ℕ
  pub target : Text

pub data SpokeKind : Type 0 where
  cluster application : SpokeKind

pub record SpokeConfig : Type 0 where
  pub spoke_id : Text
  pub kind : SpokeKind
  pub ports : List SpokePortBinding
  pub token : Text

pub record SocketAddr : Type 0 where
  pub ip : List ℕ
  pub addr_port : ℕ

pub record ServerConfig : Type 0 where
  pub grpc_listen : SocketAddr
  pub metrics_listen : SocketAddr
  pub spokes : Dict Text SpokeConfig
  pub kernel_url : Text
  pub allowed_paths : List Text

-- `env::var(k).ok()`.
abbrev pub Env : Type 0
Env = Text → Option Text

unfoldable pub env_default : Env → Text → Text → Text
env_default env k d = elim (env k) [ none ↦ d | some s ↦ if is_empty s then d else s ]

-- `env::var(k).unwrap_or_default()`.
unfoldable pub env_or_empty : Env → Text → Text
env_or_empty env k = elim (env k) [ none ↦ [] | some s ↦ s ]

unfoldable pub parse_listen : (Text → Result Text SocketAddr) → Text → Result Text SocketAddr
parse_listen parse_addr s =
    let full = if starts_with (codes ":") s then codes "0.0.0.0" ++ s else s in
    elim (parse_addr full) [
      | ok a ↦ ok a
      | err e ↦ err (codes "bad listen " ++ (full ++ (codes ": " ++ e)))
    ]

-- Application spokes are told by the prefix of their id.
unfoldable pub kind_of : Text → SpokeKind
kind_of id = if starts_with (codes "app-") id then application else cluster

unfoldable pub parse_port : Text → Text → Text → Result Text (Option SpokePortBinding)
parse_port entry port_str target = elim (parse_u16 port_str) [
  | ok p ↦ ok (some (record { port = p; target = target }))
  | err e ↦ err (
      codes "bad port "
      ++ (port_str ++ (codes " in " ++ (entry ++ (codes ": " ++ show_parse_error e)))))
]

-- One part of the port list, trimmed; an empty one is skipped.
unfoldable pub parse_binding : Text → Text → Result Text (Option SpokePortBinding)
unfolding parse_port
parse_binding entry pb = if is_empty pb then ok none else elim (split_once b'@' pb) [
  | none ↦ parse_port entry pb (codes "default")
  | some (port_str, rest) ↦
      if is_empty (trim rest)
      then err (codes "empty target after '@' in " ++ entry)
      else parse_port entry port_str (trim rest)
]

abbrev pub push : Option SpokePortBinding → List SpokePortBinding → List SpokePortBinding
push none bs = bs
push (some b) bs = b ∷ bs

-- The loop over the parts of the port list.
unfoldable pub parse_bindings : Text → List Text → Result Text (List SpokePortBinding)
unfolding parse_binding
parse_bindings entry [] = ok []
parse_bindings entry (p ∷ ps) = do
  b ← parse_binding entry (trim p)
  bs ← parse_bindings entry ps
  ok (push b bs)

abbrev pub is_cluster : SpokeKind → Bool
is_cluster cluster = true
is_cluster application = false

abbrev pub no_ports : List SpokePortBinding → Bool
no_ports [] = true
no_ports (b ∷ bs) = false

unfoldable pub spoke_of : Text → Text → Text → Text → Result Text SpokeConfig
unfolding parse_bindings kind_of
spoke_of entry id port_spec token = do
  bindings ← parse_bindings entry (split b';' port_spec)
  if is_cluster (kind_of id) && no_ports bindings
      then err (codes "no ports in " ++ entry)
      else ok (record { spoke_id = id; kind = kind_of id; ports = bindings; token = token })

abbrev pub spoke_of_parts : Text → List Text → Result Text SpokeConfig
spoke_of_parts entry (id ∷ port_spec ∷ token ∷ []) = spoke_of entry id port_spec token
spoke_of_parts entry _ = err (codes "bad TUNNEL_SPOKES entry: " ++ entry)

-- One entry, trimmed and not empty: `spoke-id:ports:token`.
unfoldable pub parse_entry : Text → Result Text SpokeConfig
unfolding spoke_of
parse_entry entry = spoke_of_parts entry (splitn b':' 3 entry)

-- The loop over the entries: a later entry of the same id replaces an earlier one.
unfoldable pub parse_spokes :
    List Text → Dict Text SpokeConfig → Result Text (Dict Text SpokeConfig)
parse_spokes [] m = ok m
parse_spokes (e ∷ es) m =
    let skipped = parse_spokes es m in
    if is_empty (trim e)
    then skipped
    else (do sc ← parse_entry (trim e); parse_spokes es (insert sc.spoke_id sc m))

abbrev pub default_paths : List Text
default_paths =
    codes "/core/orchestrator/triage"
    ∷ codes "/core/orchestrator/answer"
    ∷ codes "/core/claude/generate-text"
    ∷ codes "/core/swallow/generate-text"
    ∷ codes "/core/jev/decide"
    ∷ codes "/core/embedding/single"
    ∷ codes "/core/embedding/batch"
    ∷ codes "/core/appspoke/usage-chat"
    ∷ []

-- The members of the set that a comma-separated list gives.
unfoldable pub parse_paths : List Text → List Text
parse_paths [] = []
parse_paths (p ∷ ps) =
    let rest = parse_paths ps in if is_empty (trim p) then rest else trim p ∷ rest

unfoldable pub allowed_paths_of : Env → List Text
unfolding parse_paths
allowed_paths_of env = elim (env (codes "TUNNEL_ALLOWED_PATHS")) [
  | none ↦ default_paths
  | some raw ↦ if is_empty (trim raw) then default_paths else parse_paths (split b',' (trim raw))
]

abbrev pub default_kernel_url : Text
default_kernel_url = codes "http://rag-backend-kernel.rag-company1.svc.cluster.local:8000"

unfoldable pub load_config : (Text → Result Text SocketAddr) → Env → Result Text ServerConfig
load_config parse_addr env = do
  grpc ← parse_listen parse_addr (env_default env (codes "TUNNEL_GRPC_LISTEN") (codes ":8080"))
  metrics ←
      parse_listen parse_addr (env_default env (codes "TUNNEL_METRICS_LISTEN") (codes ":9090"))
  let raw = trim (env_or_empty env (codes "TUNNEL_SPOKES"))
  if is_empty raw
      then err (
          codes
            "TUNNEL_SPOKES env is required (format: spoke-id:port[@target][;port[@target]...]:token,...)")
      else do
        spokes ← parse_spokes (split b',' raw) []
        ok (record {
          grpc_listen = grpc;
          metrics_listen = metrics;
          spokes = spokes;
          kernel_url = env_default env (codes "KERNEL_URL") default_kernel_url;
          allowed_paths = allowed_paths_of env;
        })
