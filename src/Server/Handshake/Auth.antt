-- ===== src/Server/Handshake/Auth.antt =====
-- Who is admitted, and what a refusal leaves behind.
use openspoke.Common.{
  ◌≡◌, refl, ap, subst, ◌++◌, [], ◌∷◌, ◌↔◌, ◌⊎◌, inl, inr, Option, none, some, Result, ok, err,
  Bool-cases, ◌+◌,
}
use openspoke.Common.Eq.{list_eq, nat_eq, list_beq, list_beq_iff}
use openspoke.Common.Dict.{get, insert}
use openspoke.Common.Text.{Text, codes, as_bytes}
use openspoke.Wire.{ClientFrame, ClientKind, HandshakeResponse}
use openspoke.Server.Config.{ServerConfig, SpokeConfig}
use openspoke.Server.Metrics.{Metrics, inc_by, count}
use openspoke.Server.Handshake.{admit, authenticate, check_token, of_kind, Admission, count_failure}

-- What admission rests on.
abbrev pub IsAdmitted :
    ServerConfig → Option (Result Text ClientFrame) → HandshakeResponse → SpokeConfig → Type 0
IsAdmitted cfg first hs sc =
    (f : ClientFrame) × (first ≡ some (ok f))
    × (f.kind ≡ some (ClientKind.handshake hs))
    × (get hs.spoke_id cfg.spokes ≡ some sc)
    × (hs.signature ≡ as_bytes sc.token)

module _ (m : Metrics) (hs : HandshakeResponse) (sc : SpokeConfig) where
  check_token_sound :
      (k : HandshakeResponse) (o : Option SpokeConfig)
      → (check_token k m o).0 ≡ ok (hs, sc)
      → (k ≡ hs) × (o ≡ some sc) × (k.signature ≡ as_bytes sc.token)
  check_token_sound k none e = cc
  check_token_sound k (some x) e = elim (Bool-cases (list_beq k.signature (as_bytes x.token))) [
    | inl t ↦
        let same = (list_beq_iff k.signature (as_bytes x.token)).0 t in
        let e' : ◌≡◌ {A = Result Text (HandshakeResponse × SpokeConfig)} (ok (k, x)) (ok (hs, sc)) =
          rw t at e in
        (cc e', cc e', cc (e', same))
    | inr t ↦ let e' : err (codes "bad token for " ++ k.spoke_id) ≡ ok (hs, sc) = rw t at e in cc e'
  ]

module _ (cfg : ServerConfig) (m : Metrics) (hs : HandshakeResponse) (sc : SpokeConfig) where
  of_kind_sound :
      (k : Option ClientKind)
      → (of_kind cfg k m).0 ≡ ok (hs, sc)
      → (k ≡ some (ClientKind.handshake hs))
        × (get hs.spoke_id cfg.spokes ≡ some sc)
        × (hs.signature ≡ as_bytes sc.token)
  unfolding authenticate
  of_kind_sound (some (ClientKind.handshake k)) e =
      let (p, q, r) = check_token_sound m hs sc k (get k.spoke_id cfg.spokes) e in
      (
        ap (λ x. some (ClientKind.handshake x)) p,
        subst (λ (x : HandshakeResponse). get x.spoke_id cfg.spokes ≡ some sc) p q,
        subst (λ (x : HandshakeResponse). x.signature ≡ as_bytes sc.token) p r,
      )
  of_kind_sound none e = cc
  of_kind_sound (some (ClientKind.payload b)) e = cc
  of_kind_sound (some (ClientKind.close_stream b)) e = cc
  of_kind_sound (some (ClientKind.pong b)) e = cc
  of_kind_sound (some (ClientKind.http_request b)) e = cc

  pub admit_sound :
      (first : Option (Result Text ClientFrame))
      → (admit cfg first m).0 ≡ ok (hs, sc)
      → IsAdmitted cfg first hs sc
  unfolding admit
  admit_sound none e = cc
  admit_sound (some (err x)) e = cc
  admit_sound (some (ok f)) e = let (p, q, r) = of_kind_sound f.kind e in (f, refl, p, q, r)

  admit_complete :
      (first : Option (Result Text ClientFrame))
      → IsAdmitted cfg first hs sc
      → admit cfg first m ≡ (ok (hs, sc), m)
  unfolding admit authenticate
  admit_complete first (f, e, k, g, t) =
      rw (e, k, g, (list_beq_iff hs.signature (as_bytes sc.token)).1 t)

  -- A connection is admitted exactly when its first frame arrives, is a handshake, names a
  -- configured spoke, and carries the bytes of that spoke's token; the metrics stay as they were.
  pub admit_iff :
      (first : Option (Result Text ClientFrame))
      → (admit cfg first m ≡ (ok (hs, sc), m)) ↔ IsAdmitted cfg first hs sc
  admit_iff first = (λ e. admit_sound first (ap (λ (r : Admission). r.0) e), admit_complete first)

abbrev pub IsReason : Text → Type 0
IsReason r =
    (r ≡ codes "recv_first")
    ⊎ (r ≡ codes "no_handshake")
    ⊎ (r ≡ codes "unknown_spoke")
    ⊎ (r ≡ codes "bad_token")

-- The metrics with one more failure for the reason.
abbrev pub with_failure : Text → Metrics → Metrics
with_failure reason m = record m {
  handshake_fail = insert (reason ∷ []) (count (reason ∷ []) m.handshake_fail + 1) m.handshake_fail;
}

-- A refusal is counted once, under one of four reasons.
abbrev pub IsCounted : Metrics → Admission → Type 0
IsCounted m (ok p, m') = m' ≡ m
IsCounted m (err e, m') = (reason : Text) × IsReason reason × (m' ≡ with_failure reason m)

check_token-IsCounted :
    (k : HandshakeResponse) (m : Metrics) (o : Option SpokeConfig) → IsCounted m (check_token k m o)
unfolding count_failure inc_by
check_token-IsCounted k m none = (codes "unknown_spoke", inr (inr (inl refl)), refl)
check_token-IsCounted k m (some sc) = elim (Bool-cases (list_beq k.signature (as_bytes sc.token))) [
  | inl t ↦ rw t refl
  | inr t ↦ rw t (codes "bad_token", inr (inr (inr refl)), refl)
]

of_kind-IsCounted :
    (cfg : ServerConfig) (k : Option ClientKind) (m : Metrics) → IsCounted m (of_kind cfg k m)
unfolding authenticate count_failure inc_by
of_kind-IsCounted cfg (some (ClientKind.handshake k)) m =
    check_token-IsCounted k m (get k.spoke_id cfg.spokes)
of_kind-IsCounted cfg _ m = (codes "no_handshake", inr (inl refl), refl)

-- Admission changes no metric, and a refusal adds one to the failures of exactly one reason.
pub admit-IsCounted :
    (cfg : ServerConfig) (first : Option (Result Text ClientFrame)) (m : Metrics)
    → IsCounted m (admit cfg first m)
unfolding admit count_failure inc_by
admit-IsCounted cfg none m = (codes "recv_first", inl refl, refl)
admit-IsCounted cfg (some (err e)) m = (codes "recv_first", inl refl, refl)
admit-IsCounted cfg (some (ok f)) m = of_kind-IsCounted cfg f.kind m
