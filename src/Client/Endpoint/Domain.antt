-- ===== src/Client/Endpoint/Domain.antt =====
-- To which name a client's connection is bound.
use openspoke.Common.{
  ◌≡◌, refl, sym, subst, ap, ◌∙◌, ◌↔◌, ◌⊎◌, inl, inr, Bool-cases, true, false, ◌>>=◌, none, some,
  ◌∷◌, ◌++◌, Result, ok, err, if◌then◌else◌,
}
use openspoke.Common.Eq.{nat_eq}
use openspoke.Common.Text.{Text, IsFree, rsplit_once-free, rsplit_once-append}
use openspoke.Client.Config.{ClientConfig}
use openspoke.Client.Endpoint.{
  Endpoint, Transport, uri_string, host_of, plain_endpoint, secured, endpoint_of, dial,
}

-- The hub's address is a host with a port behind its last colon, or a host alone.
abbrev pub IsAddress : Text → Text → Type 0
IsAddress host url =
    ((port : Text) × IsFree b':' port × (url ≡ host ++ b':' ∷ port))
    ⊎ (IsFree b':' host × (url ≡ host))

host_of-IsAddress : (host url : Text) → IsAddress host url → host_of url ≡ host
unfolding host_of
host_of-IsAddress host url (inl (port, f, e)) = rw (e, rsplit_once-append b':' host port f) refl
host_of-IsAddress host url (inr (f, e)) = rw (e, rsplit_once-free b':' host f) refl

-- What a call that succeeds rests on, and what it gives: the address is a URI, its host a TLS name
-- unless TLS is off, and the endpoint with both connects.
abbrev pub bound_to : ClientConfig → Text → Endpoint
bound_to cfg host = record (plain_endpoint (uri_string cfg)) {
  tls_domain = if cfg.insecure then none else some host;
}

abbrev pub Reaches : {A : Type 0} → Transport A → ClientConfig → Text → A → Type 0
Reaches t cfg host a =
    (t.from_shared (uri_string cfg) ≡ ok tt)
    × ((cfg.insecure ≡ true) ⊎ (t.tls_config host ≡ ok tt))
    × (t.connect (bound_to cfg host) ≡ ok tt)
    × (t.call (bound_to cfg host) ≡ ok a)

-- A chain of two steps that succeeded.
bind-ok :
    {A B : Type 0} (x : Result Text A) (k : A → Result Text B) (b : B)
    → (x >>= k) ≡ ok b
    → (a : A) × (x ≡ ok a) × (k a ≡ ok b)
bind-ok (ok a) k b e = (a, refl, e)
bind-ok (err m) k b e = cc

ok-injective : {A : Type 0} (a b : A) → ◌≡◌ {A = Result Text A} (ok a) (ok b) → a ≡ b
ok-injective a b e = cc

module _ {A : Type 0} (t : Transport A) (cfg : ClientConfig) (host : Text)
    (address : IsAddress host cfg.hub_url) where
  secured-lem : secured t cfg (plain_endpoint (uri_string cfg)) ≡ (
      if cfg.insecure
      then ok (bound_to cfg host)
      else t.tls_config host >>= (λ u. ok (bound_to cfg host)))
  unfolding secured
  secured-lem = elim (Bool-cases cfg.insecure) [
    | inl i ↦ simp i
    | inr i ↦ simp (i, host_of-IsAddress host cfg.hub_url address)
  ]

  checked : Result Text Endpoint
  checked = t.tls_config host >>= (λ u. ok (bound_to cfg host))

  secured_plain :
      cfg.insecure ≡ true → secured t cfg (plain_endpoint (uri_string cfg)) ≡ ok (bound_to cfg host)
  unfolding checked
  secured_plain i = secured-lem ∙ ap (λ b. if b then ok (bound_to cfg host) else checked) i

  secured_tls : cfg.insecure ≡ false → secured t cfg (plain_endpoint (uri_string cfg)) ≡ checked
  unfolding checked
  secured_tls i = secured-lem ∙ ap (λ b. if b then ok (bound_to cfg host) else checked) i

  secured_sound :
      (e : Endpoint)
      → secured t cfg (plain_endpoint (uri_string cfg)) ≡ ok e
      → (e ≡ bound_to cfg host) × ((cfg.insecure ≡ true) ⊎ (t.tls_config host ≡ ok tt))
  unfolding checked
  secured_sound e q = elim (Bool-cases cfg.insecure) [
    | inl i ↦ (sym (ok-injective _ _ (sym (secured_plain i) ∙ q)), inl i)
    | inr i ↦
        let (u, tls, last) = bind-ok (t.tls_config host) _ e (sym (secured_tls i) ∙ q) in
        (sym (ok-injective _ _ last), inr tls)
  ]

  secured_complete :
      (cfg.insecure ≡ true) ⊎ (t.tls_config host ≡ ok tt)
      → secured t cfg (plain_endpoint (uri_string cfg)) ≡ ok (bound_to cfg host)
  unfolding checked
  secured_complete (inl i) = secured_plain i
  secured_complete (inr tls) = elim (Bool-cases cfg.insecure) [
    | inl i ↦ secured_plain i
    | inr i ↦ secured_tls i ∙ ap (λ x. x >>= (λ u. ok (bound_to cfg host))) tls
  ]

  dial_sound : (a : A) → dial t cfg ≡ ok a → Reaches t cfg host a
  unfolding dial endpoint_of
  dial_sound a q =
      let (e, made, rest) = bind-ok (endpoint_of t cfg) _ a q in
      let (u, uri, built) = bind-ok (t.from_shared (uri_string cfg)) _ e made in
      let (same, tls) = secured_sound e built in
      let (v, connected, called) = bind-ok (t.connect e) _ a rest in
      (
        uri,
        tls,
        subst (λ x. t.connect x ≡ ok tt) same connected,
        subst (λ x. t.call x ≡ ok a) same called,
      )

  dial_complete : (a : A) → Reaches t cfg host a → dial t cfg ≡ ok a
  unfolding dial endpoint_of
  dial_complete a (uri, tls, connected, called) =
      ap (λ x. (x >>= (λ u. secured t cfg (plain_endpoint (uri_string cfg)))) >>= onward) uri
      ∙ ap (λ x. x >>= onward) (secured_complete tls)
      ∙ ap (λ x. x >>= (λ u. t.call (bound_to cfg host))) connected
      ∙ called
    where
      onward : Endpoint → Result Text A
      onward e = t.connect e >>= (λ u. t.call e)

  -- Where the hub's address is a host with a port behind its last colon, or a host alone, a client
  -- reaches the hub exactly when the address behind its scheme is a URI, TLS takes the host as the
  -- name to check unless it is turned off, and the endpoint with both connects and takes the call;
  -- what it then reads is what the call gives.
  pub dial_iff : (a : A) → (dial t cfg ≡ ok a) ↔ Reaches t cfg host a
  dial_iff a = (dial_sound a, dial_complete a)
