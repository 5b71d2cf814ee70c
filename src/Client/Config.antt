-- ===== src/Client/Config.antt =====
-- `load_config` of spoke/images/tunnel-client/src/main.rs. The process environment is a function
-- of the variable's name; `{:?}` on text is an argument. Durations are in nanoseconds.
pub mod Valid
use openspoke.Common.{
  ℕ, ◌*◌, Bool, true, false, not, ◌&&◌, ◌||◌, Option, none, some, List, [], ◌∷◌, ◌++◌,
  if◌then◌else◌, Result, ok, err, ◌>>=◌,
}
use openspoke.Common.Eq.{list_eq, nat_eq}
use openspoke.Common.Dict.{Dict, get, insert, contains_key}
use openspoke.Common.Text.{
  Text, codes, split, split_once, trim, starts_with, eq_ignore_ascii_case, is_empty,
}

pub record ClientConfig : Type 0 where
  pub hub_url : Text
  pub spoke_id : Text
  pub token : Text
  pub targets : Dict Text Text
  pub insecure : Bool
  pub backoff_min : ℕ
  pub backoff_max : ℕ
  pub kernel_proxy_listen : Option Text

-- `env::var(k).ok()`.
abbrev pub Env : Type 0
Env = Text → Option Text

abbrev pub or_empty : Option Text → Text
or_empty none = []
or_empty (some s) = s

-- `Duration::from_secs`.
abbrev pub from_secs : ℕ → ℕ
from_secs n = n * 1000000000

-- One entry of TARGETS, trimmed and not empty: its name and its host and port.
unfoldable pub parse_target : (Text → Text) → Text → Result Text (Text × Text)
parse_target debug entry = elim (split_once b'=' entry) [
  | none ↦ err (codes "bad TARGETS entry (expected name=host:port): " ++ debug entry)
  | some (name, host_port) ↦
      if is_empty (trim name) || is_empty (trim host_port)
      then err (codes "empty name or host:port in TARGETS entry: " ++ debug entry)
      else ok (trim name, trim host_port)
]

-- The loop over the entries.
unfoldable pub parse_targets :
    (Text → Text) → List Text → Dict Text Text → Result Text (Dict Text Text)
parse_targets debug [] m = ok m
parse_targets debug (e ∷ es) m =
    let skipped = parse_targets debug es m in
    if is_empty (trim e)
    then skipped
    else (do t ← parse_target debug (trim e); parse_targets debug es (insert t.0 t.1 m))

unfoldable pub targets_of : (Text → Text) → Text → Result Text (Dict Text Text)
targets_of debug targets_raw =
    if is_empty (trim targets_raw)
    then ok []
    else parse_targets debug (split b',' (trim targets_raw)) []

-- The legacy TARGET: `entry("default").or_insert(target)`.
unfoldable pub with_legacy : Text → Dict Text Text → Dict Text Text
with_legacy target m =
    if is_empty target
    then m
    else if contains_key (codes "default") m
    then m
    else insert (codes "default") target m

abbrev pub no_targets : Dict Text Text → Bool
no_targets [] = true
no_targets (t ∷ m) = false

abbrev pub is_true : Option Text → Bool
is_true none = false
is_true (some v) = eq_ignore_ascii_case v (codes "true")

abbrev pub non_empty : Option Text → Option Text
non_empty none = none
non_empty (some s) = if is_empty (trim s) then none else some (trim s)

-- The checks of what is required, and the configuration.
unfoldable pub required :
    Text → Text → Text → Dict Text Text → Bool → Option Text → Result Text ClientConfig
required hub_url spoke_id token targets insecure listen =
    if is_empty hub_url || is_empty spoke_id || is_empty token
    then err (codes "HUB_URL / SPOKE_ID / TUNNEL_TOKEN are required")
    else if no_targets targets && not (starts_with (codes "app-") spoke_id)
    then err (codes "TARGET or TARGETS is required")
    else ok (record {
      hub_url = hub_url;
      spoke_id = spoke_id;
      token = token;
      targets = targets;
      insecure = insecure;
      backoff_min = from_secs 1;
      backoff_max = from_secs 30;
      kernel_proxy_listen = listen;
    })

unfoldable pub load_config : (Text → Text) → Env → Result Text ClientConfig
load_config debug env = do
  listed ← targets_of debug (or_empty (env (codes "TARGETS")))
  required (or_empty (env (codes "HUB_URL"))) (or_empty (env (codes "SPOKE_ID")))
      (or_empty (env (codes "TUNNEL_TOKEN"))) (with_legacy (or_empty (env (codes "TARGET"))) listed)
      (is_true (env (codes "TUNNEL_INSECURE"))) (non_empty (env (codes "KERNEL_PROXY_LISTEN")))
