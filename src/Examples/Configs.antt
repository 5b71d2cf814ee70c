-- ===== src/Examples/Configs.antt =====
-- The theorems on the configuration of tunnel-server at a concrete environment.
use openspoke.Common.{◌≡◌, inr, refl, Option, some, [], ◌∷◌, arith, Result, ok}
use openspoke.Common.Eq.{nat_eq, list_eq, list_beq}
use openspoke.Common.Dict.{get, insert}
use openspoke.Common.Text.{
  Text, codes, is_whitespace, trim, split, splitn, split_once, parse_u16, starts_with, show_nat,
  show_digits, join,
}
use openspoke.Server.Config.{
  ServerConfig, SocketAddr, SpokeConfig, parse_listen, env_default, allowed_paths_of, default_paths,
  default_kernel_url, load_config, cluster, env_or_empty, parse_spokes, parse_entry, kind_of,
}
use openspoke.Server.Config.Valid.{IsSpoke, load_config-IsSpoke}
use openspoke.Server.Config.Entry.{IsWritable, show_spoke}
use openspoke.Server.Config.RoundTrip.{show_table, show_spokes, table, load_config-show_table}
use openspoke.Examples.Data.{any_port, lookup_var}

-- A parser that takes every address for the same one.
abbrev pub some_addr : Text → Result Text SocketAddr
some_addr t = ok any_port

abbrev pub hub_env : Text → Option Text
hub_env k = lookup_var ((codes "TUNNEL_SPOKES", codes "s:1@a:t") ∷ []) k

abbrev small : SpokeConfig
small = record {
  spoke_id = codes "s";
  kind = cluster;
  ports = record { port = 1; target = codes "a" } ∷ [];
  token = codes "t";
}

abbrev pub loaded : ServerConfig
loaded = record {
  grpc_listen = any_port;
  metrics_listen = any_port;
  spokes = (codes "s", small) ∷ [];
  kernel_url = default_kernel_url;
  allowed_paths = default_paths;
}

pub hub_loads : load_config some_addr hub_env ≡ ok loaded
unfolding load_config parse_listen trim env_or_empty list_beq is_whitespace parse_spokes split
    parse_entry splitn split_once parse_u16 starts_with insert env_default allowed_paths_of
hub_loads = refl

load_config-IsSpoke_example : IsSpoke (codes "s") small
unfolding get list_beq
load_config-IsSpoke_example =
    load_config-IsSpoke some_addr hub_env loaded (codes "s") small hub_loads refl

small-IsWritable : IsWritable small
unfolding is_whitespace kind_of starts_with
small-IsWritable = record {
  plain_id = (
    (record { solid = refl; comma = omega arith; colon = omega arith; semicolon = omega arith }),
    tt,
  );
  kind_by_id = refl;
  bindings = (
    (
      omega arith,
      (λ e. cc),
      (
        record { solid = refl; comma = omega arith; colon = omega arith; semicolon = omega arith },
        tt,
      ),
    ),
    tt,
  );
  some_port = inr (λ e. cc);
  token_chars = (record { solid = refl; comma = omega arith }, tt);
}

listens : (s : Text) → parse_listen some_addr s ≡ ok any_port
unfolding parse_listen
listens s = refl

written : hub_env (codes "TUNNEL_SPOKES") ≡ some (show_table (small ∷ []))
unfolding list_beq show_table show_spokes show_spoke show_nat show_digits join
written = refl

load_config-show_table_example :
    (cfg : ServerConfig) × (load_config some_addr hub_env ≡ ok cfg)
    × (cfg.spokes ≡ table (small ∷ []) [])
    × (cfg.allowed_paths ≡ allowed_paths_of hub_env)
load_config-show_table_example =
    load_config-show_table some_addr hub_env any_port any_port small [] (listens _) (listens _)
      written (small-IsWritable, tt)
