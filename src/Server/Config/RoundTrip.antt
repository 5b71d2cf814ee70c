-- ===== src/Server/Config/RoundTrip.antt =====
-- A whole table of spokes in the format of TUNNEL_SPOKES, for `load_config` of tunnel-server.
use openspoke.Common.{◌≡◌, refl, false, List, [], ◌∷◌, ◌++◌, some, All, All-append, Result, ok}
use openspoke.Common.Eq.{nat_eq, list_eq}
use openspoke.Common.Dict.{Dict, insert}
use openspoke.Common.Text.{
  Text, codes, split, trim, is_whitespace, is_empty, join, split-join, trim_solid, IsFree, IsSolid,
}
use openspoke.Server.Config.{
  SpokeConfig, default_kernel_url, SocketAddr, ServerConfig, Env, env_default, env_or_empty,
  parse_listen, parse_spokes, allowed_paths_of, load_config,
}
use openspoke.Server.Config.Entry.{
  show_bindings, show_spoke, IsWritable, IsTokenChar, IsTokenChar-colon, port_spec-chars, weaken,
  append-ne, parse_entry-show_spoke, All-join,
}

unfoldable pub show_spokes : List SpokeConfig → List Text
unfolding show_spoke
show_spokes [] = []
show_spokes (sc ∷ scs) = show_spoke sc ∷ show_spokes scs

show_spoke-chars : (sc : SpokeConfig) → IsWritable sc → All IsTokenChar (show_spoke sc)
unfolding show_spoke
show_spoke-chars sc w =
    let spec = join b';' (show_bindings sc.ports) in
    All-append IsTokenChar sc.spoke_id (b':' ∷ (spec ++ b':' ∷ sc.token))
      (weaken (λ c k. record { solid = k.solid; comma = k.comma }) _ w.plain_id)
      (
        IsTokenChar-colon,
        All-append IsTokenChar spec (b':' ∷ sc.token)
            (weaken (λ c k. record { solid = k.solid; comma = k.comma }) spec
              (port_spec-chars sc.ports w.bindings))
            (IsTokenChar-colon, w.token_chars),
      )

-- The table that a list of spokes makes: a later one replaces an earlier one of the same id.
pub table : List SpokeConfig → Dict Text SpokeConfig → Dict Text SpokeConfig
table [] m = m
table (sc ∷ scs) m = table scs (insert sc.spoke_id sc m)

show_spoke-ne : (sc : SpokeConfig) → is_empty (show_spoke sc) ≡ false
unfolding show_spoke
show_spoke-ne sc = append-ne sc.spoke_id b':' _

trim-show_spoke : (sc : SpokeConfig) → IsWritable sc → trim (show_spoke sc) ≡ show_spoke sc
trim-show_spoke sc w =
    trim_solid (show_spoke sc) (weaken (λ c k. k.solid) _ (show_spoke-chars sc w))

parse_spokes-show_spokes :
    (scs : List SpokeConfig) (m : Dict Text SpokeConfig)
    → All IsWritable scs
    → parse_spokes (show_spokes scs) m ≡ ok (table scs m)
unfolding parse_spokes show_spokes table
parse_spokes-show_spokes [] m w = refl
parse_spokes-show_spokes (sc ∷ scs) m w =
    let rest = parse_spokes-show_spokes scs (insert sc.spoke_id sc m) w.1 in
    rw (trim-show_spoke sc w.0, show_spoke-ne sc, parse_entry-show_spoke sc w.0) rest

show_spokes-chars :
    (scs : List SpokeConfig) → All IsWritable scs → All (All IsTokenChar) (show_spokes scs)
unfolding show_spokes
show_spokes-chars [] w = tt
show_spokes-chars (sc ∷ scs) w = (show_spoke-chars sc w.0, show_spokes-chars scs w.1)

show_spokes-IsFree :
    (scs : List SpokeConfig) → All IsWritable scs → All (IsFree b',') (show_spokes scs)
unfolding show_spokes
show_spokes-IsFree [] w = tt
show_spokes-IsFree (sc ∷ scs) w =
    (weaken (λ c k. k.comma) _ (show_spoke-chars sc w.0), show_spokes-IsFree scs w.1)

IsSolid-comma : is_whitespace b',' ≡ false
unfolding is_whitespace
IsSolid-comma = refl

unfoldable pub show_table : List SpokeConfig → Text
show_table scs = join b',' (show_spokes scs)

trim-show_table :
    (scs : List SpokeConfig) → All IsWritable scs → trim (show_table scs) ≡ show_table scs
unfolding show_table
trim-show_table scs w = trim_solid _ (
    All-join (λ c. is_whitespace c ≡ false) b',' (show_spokes scs) IsSolid-comma
      (solid (show_spokes scs) (show_spokes-chars scs w)))
  where
    solid : (ps : List Text) → All (All IsTokenChar) ps → All IsSolid ps
    solid [] k = tt
    solid (p ∷ ps) k = (weaken (λ c j. j.solid) p k.0, solid ps k.1)

split-show_table :
    (sc : SpokeConfig) (scs : List SpokeConfig)
    → All IsWritable (sc ∷ scs)
    → split b',' (show_table (sc ∷ scs)) ≡ show_spokes (sc ∷ scs)
unfolding show_table show_spokes
split-show_table sc scs w =
    let frees = show_spokes-IsFree (sc ∷ scs) w in
    split-join b',' (show_spoke sc) (show_spokes scs) frees.0 frees.1

show_table-ne :
    (sc : SpokeConfig) (scs : List SpokeConfig) → is_empty (show_table (sc ∷ scs)) ≡ false
unfolding show_table show_spokes show_spoke join
show_table-ne sc [] = append-ne sc.spoke_id b':' _
show_table-ne sc (x ∷ scs) = append-ne (show_spoke sc) b',' _

env_or_empty-some : (env : Env) (k v : Text) → env k ≡ some v → env_or_empty env k ≡ v
unfolding env_or_empty
env_or_empty-some env k v e = rw (e, env_or_empty)

module _ (parse_addr : Text → Result Text SocketAddr) (env : Env) where
  -- A table of spokes written in the format of TUNNEL_SPOKES is the one that the server loads,
  -- provided both listen addresses parse, the table is not empty, and each spoke can be written:
  -- its kind follows from its id, its ports fit in 16 bits and have targets, there is one unless
  -- it is an application spoke, and neither ids and targets nor tokens hold white space or a
  -- separator that would end them.
  pub load_config-show_table :
      (grpc metrics : SocketAddr) (sc : SpokeConfig) (scs : List SpokeConfig)
      → parse_listen parse_addr (env_default env (codes "TUNNEL_GRPC_LISTEN") (codes ":8080"))
        ≡ ok grpc
      → parse_listen parse_addr (env_default env (codes "TUNNEL_METRICS_LISTEN") (codes ":9090"))
        ≡ ok metrics
      → env (codes "TUNNEL_SPOKES") ≡ some (show_table (sc ∷ scs))
      → All IsWritable (sc ∷ scs)
      → (cfg : ServerConfig) × (load_config parse_addr env ≡ ok cfg)
        × (cfg.spokes ≡ table (sc ∷ scs) [])
        × (cfg.allowed_paths ≡ allowed_paths_of env)
  unfolding load_config
  load_config-show_table grpc metrics sc scs g m e w = (
    record {
      grpc_listen = grpc;
      metrics_listen = metrics;
      spokes = table (sc ∷ scs) [];
      kernel_url = env_default env (codes "KERNEL_URL") default_kernel_url;
      allowed_paths = allowed_paths_of env;
    },
    rw (
      g,
      m,
      env_or_empty-some env _ _ e,
      trim-show_table (sc ∷ scs) w,
      show_table-ne sc scs,
      split-show_table sc scs w,
      parse_spokes-show_spokes (sc ∷ scs) [] w,
    ),
    refl,
    refl,
  )
