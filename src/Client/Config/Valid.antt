-- ===== src/Client/Config/Valid.antt =====
-- What every configuration that the client accepts has.
use openspoke.Common.{
  ◌≤◌, ◌<◌, ◌≡◌, ◌≢◌, sym, ◌∙◌, subst, ◌⊎◌, inl, inr, Bool, true, false, not, ◌&&◌, ◌||◌, Option,
  some, List, [], ◌∷◌, arith, ok, Option-cases, Yields, Yields-ok, Yields-if, Yields-bind,
}
use openspoke.Common.Eq.{list_eq, nat_eq, beq-cases}
use openspoke.Common.Dict.{Dict, get, insert, contains_key, get-insert_hit, get-insert_miss}
use openspoke.Common.Text.{Text, codes, split_once, trim, split, starts_with, is_empty}
use openspoke.Client.Config.{
  ClientConfig, Env, parse_target, parse_targets, targets_of, with_legacy, no_targets, required,
  load_config, or_empty,
}

abbrev pub HasTargets : Dict Text Text → Type 0
HasTargets m = (name host : Text) → get name m ≡ some host → (name ≢ []) × (host ≢ [])

pub record IsClient (cfg : ClientConfig) : Type 0 where
  pub hub_url : cfg.hub_url ≢ []
  pub spoke_id : cfg.spoke_id ≢ []
  pub token : cfg.token ≢ []
  pub targets : HasTargets cfg.targets
  pub some_target : (cfg.targets ≢ []) ⊎ (starts_with (codes "app-") cfg.spoke_id ≡ true)
  pub backoff_positive : 0 < cfg.backoff_min
  pub backoff_order : cfg.backoff_min ≤ cfg.backoff_max

abbrev IsTarget : Text × Text → Type 0
IsTarget (name, host) = (name ≢ []) × (host ≢ [])

ne-nil_of_test : (s : Text) → is_empty s ≡ false → s ≢ []
ne-nil_of_test [] h = λ e. cc
ne-nil_of_test (c ∷ s) h = λ e. cc

or-false : (a b : Bool) → (a || b) ≡ false → (a ≡ false) × (b ≡ false)
or-false a b h = ground arith

parse_target-IsTarget : (debug : Text → Text) (e : Text) → Yields IsTarget (parse_target debug e)
unfolding parse_target
parse_target-IsTarget debug e = elim (Option-cases (split_once b'=' e)) [
  | inl q ↦ rw (q, parse_target) tt
  | inr ((n, h), q) ↦
      rw (q, parse_target)
        (Yields-if IsTarget (is_empty (trim n) || is_empty (trim h)) _ _ (λ _. tt)
          λ t.
            let (a, b) = or-false _ _ t in (ne-nil_of_test (trim n) a, ne-nil_of_test (trim h) b))
]

insert-HasTargets :
    (m : Dict Text Text) (name host : Text)
    → IsTarget (name, host)
    → HasTargets m
    → HasTargets (insert name host m)
insert-HasTargets m name host t h n v e = elim (beq-cases name n) [
  | inl (b, p) ↦
      let q : host ≡ v = cc (get-insert_hit name n host m b, e) in
      (subst (λ x. x ≢ []) p t.0, subst (λ x. x ≢ []) q t.1)
  | inr (b, p) ↦ h n v (sym (get-insert_miss name n host m b) ∙ e)
]

HasTargets-nil : HasTargets []
unfolding get
HasTargets-nil n v e = cc

parse_targets-HasTargets :
    (debug : Text → Text) (es : List Text) (m : Dict Text Text)
    → HasTargets m
    → Yields HasTargets (parse_targets debug es m)
unfolding parse_targets
parse_targets-HasTargets debug [] m h = h
parse_targets-HasTargets debug (e ∷ es) m h =
    let skipped = parse_targets-HasTargets debug es m h in
    Yields-if HasTargets (is_empty (trim e)) _ _ (λ _. skipped)
      λ _.
        Yields-bind HasTargets IsTarget (parse_target debug (trim e)) _
          (parse_target-IsTarget debug (trim e))
          λ t k.
            parse_targets-HasTargets debug es (insert t.0 t.1 m) (insert-HasTargets m t.0 t.1 k h)

targets_of-HasTargets :
    (debug : Text → Text) (raw : Text) → Yields HasTargets (targets_of debug raw)
unfolding targets_of
targets_of-HasTargets debug raw =
    Yields-if HasTargets (is_empty (trim raw)) _ _ (λ _. HasTargets-nil)
      λ _. parse_targets-HasTargets debug (split b',' (trim raw)) [] HasTargets-nil

with_legacy-HasTargets :
    (t : Text) (m : Dict Text Text) → HasTargets m → HasTargets (with_legacy t m)
unfolding with_legacy contains_key
with_legacy-HasTargets [] m h = h
with_legacy-HasTargets (c ∷ t) m h = elim (Option-cases (get (codes "default") m)) [
  | inl q ↦
      rw (q, contains_key) (insert-HasTargets m (codes "default") (c ∷ t) ((λ e. cc), (λ e. cc)) h)
  | inr (v, q) ↦ rw (q, contains_key) h
]

some_target_of_test :
    (m : Dict Text Text) (b : Bool) → (no_targets m && not b) ≡ false → (m ≢ []) ⊎ (b ≡ true)
some_target_of_test [] b h = inr (ground arith)
some_target_of_test (t ∷ m) b h = inl (λ e. cc)

required-IsClient :
    (hub id token : Text) (m : Dict Text Text) (b : Bool) (l : Option Text)
    → HasTargets m
    → Yields IsClient (required hub id token m b l)
unfolding required
required-IsClient hub id token m b l h =
    Yields-if IsClient (is_empty hub || is_empty id || is_empty token) _ _ (λ _. tt)
      λ given.
        Yields-if IsClient (no_targets m && not (starts_with (codes "app-") id)) _ _ (λ _. tt)
          λ test.
            let (ab, c) = or-false (is_empty hub || is_empty id) (is_empty token) given in
            let (a, b') = or-false (is_empty hub) (is_empty id) ab in
            record {
              hub_url = ne-nil_of_test hub a;
              spoke_id = ne-nil_of_test id b';
              token = ne-nil_of_test token c;
              targets = h;
              some_target = some_target_of_test m _ test;
              backoff_positive = omega arith;
              backoff_order = omega arith;
            }

load_config-Yields : (debug : Text → Text) (env : Env) → Yields IsClient (load_config debug env)
unfolding load_config
load_config-Yields debug env =
    Yields-bind IsClient HasTargets (targets_of debug (or_empty (env (codes "TARGETS")))) _
      (targets_of-HasTargets debug _)
      λ listed h. required-IsClient _ _ _ _ _ _ (with_legacy-HasTargets _ listed h)

-- A client that starts has a hub, an id and a token, has a name and an address in each target, has
-- a target unless its id marks an application spoke, and waits between two positive bounds.
pub load_config-IsClient :
    (debug : Text → Text) (env : Env) (cfg : ClientConfig)
    → load_config debug env ≡ ok cfg
    → IsClient cfg
load_config-IsClient debug env cfg e = Yields-ok IsClient _ cfg e (load_config-Yields debug env)
