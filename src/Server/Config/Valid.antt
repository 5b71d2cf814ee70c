-- ===== src/Server/Config/Valid.antt =====
-- What every configuration that `load_config` accepts has.
use openspoke.Common.{
  ◌<◌, ◌≡◌, refl, ◌≢◌, ◌⊎◌, subst, Yields-then, inl, inr, false, Option, none, some, List, [], ◌∷◌,
  All, Yields, Yields-ok, Yields-if, Yields-bind, arith, if◌then◌else◌, ◌++◌, sym, ◌∙◌, Result, ok,
  err, Result-cases, ◌&&◌,
}
use openspoke.Common.Eq.{list_eq, nat_eq, beq-cases}
use openspoke.Common.Dict.{Dict, insert, get, get-insert}
use openspoke.Common.Text.{
  Text, codes, split, split_once, trim, splitn, parse_u16, parse_u16-lt, is_empty,
}
use openspoke.Server.Config.{
  SpokePortBinding, SpokeKind, SpokeConfig, ServerConfig, SocketAddr, application, cluster,
  is_cluster, no_ports, Env, kind_of, parse_binding, parse_bindings, spoke_of, parse_port,
  spoke_of_parts, parse_entry, parse_spokes, load_config, push, parse_listen, env_or_empty,
}

abbrev pub IsBinding : SpokePortBinding → Type 0
IsBinding b = (b.port < 65536) × (b.target ≢ [])

pub record IsSpoke (id : Text) (sc : SpokeConfig) : Type 0 where
  pub same_id : sc.spoke_id ≡ id
  pub kind_by_id : sc.kind ≡ kind_of id
  pub bindings : All IsBinding sc.ports
  pub some_port : (sc.kind ≡ application) ⊎ (sc.ports ≢ [])

abbrev IsPushable : Option SpokePortBinding → Type 0
IsPushable none = Unit
IsPushable (some b) = IsBinding b

parse_port-IsPushable :
    (entry port_str target : Text)
    → target ≢ []
    → Yields IsPushable (parse_port entry port_str target)
unfolding parse_port
parse_port-IsPushable entry port_str target h = elim (Result-cases (parse_u16 port_str)) [
  | inl (n, e) ↦ rw (e, parse_port) (parse_u16-lt port_str n e, h)
  | inr (x, e) ↦ rw (e, parse_port) tt
]

ne-nil_of_test : (t : Text) → is_empty t ≡ false → t ≢ []
ne-nil_of_test t h e = ground arith

parse_binding-IsPushable : (entry pb : Text) → Yields IsPushable (parse_binding entry pb)
unfolding parse_binding
parse_binding-IsPushable entry pb =
    Yields-if IsPushable (is_empty pb) _ _ (λ _. tt) λ _. split_case (split_once b'@' pb)
  where
    split_case :
        (o : Option (Text × Text))
        → Yields IsPushable (elim o [
          | none ↦ parse_port entry pb (codes "default")
          | some (port_str, rest) ↦
              if is_empty (trim rest)
              then err (codes "empty target after '@' in " ++ entry)
              else parse_port entry port_str (trim rest)
        ])
    split_case none = parse_port-IsPushable entry pb (codes "default") (λ q. cc)
    split_case (some (port_str, rest)) =
        Yields-if IsPushable (is_empty (trim rest)) _ _ (λ _. tt)
          λ t. parse_port-IsPushable entry port_str (trim rest) (ne-nil_of_test (trim rest) t)

push-All :
    (o : Option SpokePortBinding) (bs : List SpokePortBinding)
    → IsPushable o
    → All IsBinding bs
    → All IsBinding (push o bs)
push-All none bs h k = k
push-All (some b) bs h k = (h, k)

parse_bindings-All :
    (entry : Text) (ps : List Text) → Yields (All IsBinding) (parse_bindings entry ps)
unfolding parse_bindings
parse_bindings-All entry [] = tt
parse_bindings-All entry (p ∷ ps) =
    let rest = parse_bindings-All entry ps in
    Yields-bind (All IsBinding) IsPushable (parse_binding entry (trim p)) _
      (parse_binding-IsPushable entry (trim p))
      λ o h.
        Yields-bind (All IsBinding) (All IsBinding) (parse_bindings entry ps) _ rest
          λ bs k. push-All o bs h k

-- The shape of a spoke under the id that it carries.
abbrev IsOwn : SpokeConfig → Type 0
IsOwn sc = IsSpoke sc.spoke_id sc

some_port_of_test :
    (k : SpokeKind) (bs : List SpokePortBinding)
    → (is_cluster k && no_ports bs) ≡ false
    → (k ≡ application) ⊎ (bs ≢ [])
some_port_of_test cluster [] h = cc
some_port_of_test cluster (b ∷ bs) h = inr (λ e. cc)
some_port_of_test application bs h = inl refl

spoke_of-IsOwn : (entry id spec token : Text) → Yields IsOwn (spoke_of entry id spec token)
unfolding spoke_of
spoke_of-IsOwn entry id spec token =
    Yields-bind IsOwn (All IsBinding) (parse_bindings entry (split b';' spec)) _
      (parse_bindings-All entry (split b';' spec))
      λ bs h.
        Yields-if IsOwn (is_cluster (kind_of id) && no_ports bs) _ _ (λ _. tt)
          λ t. record {
            same_id = refl;
            kind_by_id = refl;
            bindings = h;
            some_port = some_port_of_test (kind_of id) bs t;
          }

spoke_of_parts-IsOwn :
    (entry : Text) (parts : List Text) → Yields IsOwn (spoke_of_parts entry parts)
spoke_of_parts-IsOwn entry (id ∷ spec ∷ token ∷ []) = spoke_of-IsOwn entry id spec token
spoke_of_parts-IsOwn entry _ = tt

parse_entry-IsOwn : (entry : Text) → Yields IsOwn (parse_entry entry)
unfolding parse_entry
parse_entry-IsOwn entry = spoke_of_parts-IsOwn entry (splitn b':' 3 entry)

-- Each spoke of the table stands under its own id.
abbrev AreSpokes : Dict Text SpokeConfig → Type 0
AreSpokes m = (id : Text) (sc : SpokeConfig) → get id m ≡ some sc → IsSpoke id sc

insert-AreSpokes :
    (sc : SpokeConfig) (m : Dict Text SpokeConfig)
    → IsOwn sc
    → AreSpokes m
    → AreSpokes (insert sc.spoke_id sc m)
insert-AreSpokes sc m h k id x e = elim (beq-cases sc.spoke_id id) [
  | inl (t, p) ↦
      let q : sc ≡ x = ground (arith, get-insert sc.spoke_id id sc m) in
      subst (λ i. IsSpoke i x) p (subst (IsSpoke sc.spoke_id) q h)
  | inr (t, p) ↦ k id x (sym (rw (get-insert sc.spoke_id id sc m, t)) ∙ e)
]

parse_spokes-AreSpokes :
    (es : List Text) (m : Dict Text SpokeConfig)
    → AreSpokes m
    → Yields AreSpokes (parse_spokes es m)
unfolding parse_spokes
parse_spokes-AreSpokes [] m h = h
parse_spokes-AreSpokes (e ∷ es) m h =
    let skipped = parse_spokes-AreSpokes es m h in
    Yields-if AreSpokes (is_empty (trim e)) _ _ (λ _. skipped)
      λ _.
        Yields-bind AreSpokes IsOwn (parse_entry (trim e)) _ (parse_entry-IsOwn (trim e))
          λ sc k. parse_spokes-AreSpokes es (insert sc.spoke_id sc m) (insert-AreSpokes sc m k h)

AreSpokes-nil : AreSpokes []
unfolding get
AreSpokes-nil id sc e = cc

abbrev HasSpokes : ServerConfig → Type 0
HasSpokes cfg = AreSpokes cfg.spokes

load_config-HasSpokes :
    (parse_addr : Text → Result Text SocketAddr) (env : Env)
    → Yields HasSpokes (load_config parse_addr env)
unfolding load_config
load_config-HasSpokes parse_addr env = Yields-then HasSpokes (parse_listen parse_addr _) _ λ grpc.
    Yields-then HasSpokes (parse_listen parse_addr _) _ λ metrics.
      Yields-if HasSpokes (is_empty (trim (env_or_empty env (codes "TUNNEL_SPOKES")))) _ _ (λ _. tt)
        λ _.
          Yields-bind HasSpokes AreSpokes (parse_spokes _ []) _
            (parse_spokes-AreSpokes _ [] AreSpokes-nil) λ m h. h

-- A configuration that loads maps each id to a spoke of that id whose kind follows from the id,
-- whose ports fit in 16 bits and have targets, and which has a port unless it is an application
-- spoke.
pub load_config-IsSpoke :
    (parse_addr : Text → Result Text SocketAddr) (env : Env) (cfg : ServerConfig) (id : Text)
    (sc : SpokeConfig)
    → load_config parse_addr env ≡ ok cfg
    → get id cfg.spokes ≡ some sc
    → IsSpoke id sc
unfolding load_config
load_config-IsSpoke parse_addr env cfg id sc h =
    Yields-ok HasSpokes _ cfg h (load_config-HasSpokes parse_addr env) id sc
