-- ===== src/Server/Config/Entry.antt =====
-- One entry of TUNNEL_SPOKES: how it is written, for `parse_entry` of tunnel-server.
use openspoke.Common.{
  ℕ, ◌≤◌, ◌<◌, ◌≡◌, refl, ◌≢◌, ◌⊎◌, false, List, [], ◌∷◌, ◌++◌, ◌∙◌, ap, ◌&&◌, some, All,
  All-append, arith, ok,
}
use openspoke.Common.Eq.{nat_eq, list_eq}
use openspoke.Common.Text.{
  Text, split, trim, is_whitespace, is_empty, join, split-join, split_once-append, splitn-three,
  trim_solid, IsFree, show_nat, show_nat-All, parse_u16-show_nat,
}
use openspoke.Server.Config.{
  SpokePortBinding, SpokeConfig, application, kind_of, parse_binding, parse_bindings, parse_port,
  spoke_of, spoke_of_parts, parse_entry, is_cluster, no_ports,
}

unfoldable pub show_binding : SpokePortBinding → Text
show_binding b = show_nat b.port ++ b'@' ∷ b.target

unfoldable pub show_bindings : List SpokePortBinding → List Text
unfolding show_binding
show_bindings [] = []
show_bindings (b ∷ bs) = show_binding b ∷ show_bindings bs

-- `spoke-id:port@target;port@target:token`.
unfoldable pub show_spoke : SpokeConfig → Text
unfolding show_bindings
show_spoke sc = sc.spoke_id ++ b':' ∷ (join b';' (show_bindings sc.ports) ++ b':' ∷ sc.token)

-- A character that ends nothing: no white space, no separator.
pub record IsPlain (c : ℕ) : Type 0 where
  pub solid : is_whitespace c ≡ false
  pub comma : c ≢ b','
  pub colon : c ≢ b':'
  pub semicolon : c ≢ b';'

pub record IsTokenChar (c : ℕ) : Type 0 where
  pub solid : is_whitespace c ≡ false
  pub comma : c ≢ b','

abbrev pub IsWritableBinding : SpokePortBinding → Type 0
IsWritableBinding b = (b.port < 65536) × (b.target ≢ []) × All IsPlain b.target

pub record IsWritable (sc : SpokeConfig) : Type 0 where
  pub plain_id : All IsPlain sc.spoke_id
  pub kind_by_id : sc.kind ≡ kind_of sc.spoke_id
  pub bindings : All IsWritableBinding sc.ports
  pub some_port : (sc.kind ≡ application) ⊎ (sc.ports ≢ [])
  pub token_chars : All IsTokenChar sc.token

module _ {P Q : ℕ → Type 0} (f : (c : ℕ) → P c → Q c) where
  pub weaken : (s : Text) → All P s → All Q s
  weaken [] h = tt
  weaken (c ∷ s) h = (f c h.0, weaken s h.1)

IsDigit-IsPlain : (c : ℕ) → (b'0' ≤ c) × (c ≤ b'9') → IsPlain c
unfolding is_whitespace
IsDigit-IsPlain c h = ground arith

IsDigit-at : (c : ℕ) → (b'0' ≤ c) × (c ≤ b'9') → c ≢ b'@'
IsDigit-at c h = omega arith

IsPlain-at : IsPlain b'@'
unfolding is_whitespace
IsPlain-at = ground arith

show_binding-IsPlain : (b : SpokePortBinding) → IsWritableBinding b → All IsPlain (show_binding b)
unfolding show_binding
show_binding-IsPlain b h =
    All-append IsPlain (show_nat b.port) (b'@' ∷ b.target)
      (weaken IsDigit-IsPlain (show_nat b.port) (show_nat-All b.port)) (IsPlain-at, h.2)

is_empty-ne : (s : Text) → s ≢ [] → is_empty s ≡ false
is_empty-ne [] h = absurd (h refl)
is_empty-ne (c ∷ s) h = refl

pub append-ne : (s : Text) (c : ℕ) (t : Text) → is_empty (s ++ c ∷ t) ≡ false
append-ne [] c t = refl
append-ne (d ∷ s) c t = refl

parse_binding-show_binding :
    (entry : Text) (b : SpokePortBinding)
    → IsWritableBinding b
    → parse_binding entry (trim (show_binding b)) ≡ ok (some b)
unfolding parse_binding show_binding
parse_binding-show_binding entry b h = rw (
  trim_solid (show_binding b) (weaken (λ c k. k.solid) (show_binding b) (show_binding-IsPlain b h)),
  append-ne (show_nat b.port) b'@' b.target,
  split_once-append b'@' (show_nat b.port) b.target (weaken IsDigit-at _ (show_nat-All b.port)),
  trim_solid b.target (weaken (λ c k. k.solid) b.target h.2),
  is_empty-ne b.target h.1,
  parse_u16-show_nat b.port h.0,
  parse_port,
  trim_solid b.target (weaken (λ c k. k.solid) b.target h.2),
)

show_bindings-IsFree :
    (bs : List SpokePortBinding) → All IsWritableBinding bs → All (IsFree b';') (show_bindings bs)
unfolding show_bindings
show_bindings-IsFree [] h = tt
show_bindings-IsFree (b ∷ bs) h =
    (weaken (λ c k. k.semicolon) _ (show_binding-IsPlain b h.0), show_bindings-IsFree bs h.1)

parse_bindings-show_bindings :
    (entry : Text) (bs : List SpokePortBinding)
    → All IsWritableBinding bs
    → parse_bindings entry (show_bindings bs) ≡ ok bs
unfolding parse_bindings show_bindings
parse_bindings-show_bindings entry [] h = refl
parse_bindings-show_bindings entry (b ∷ bs) h =
    rw (parse_binding-show_binding entry b h.0, parse_bindings-show_bindings entry bs h.1)

parse_bindings-split :
    (entry : Text) (bs : List SpokePortBinding)
    → All IsWritableBinding bs
    → parse_bindings entry (split b';' (join b';' (show_bindings bs))) ≡ ok bs
unfolding show_bindings
parse_bindings-split entry [] h =
    unfold parse_bindings parse_binding show_bindings join split trim in refl
parse_bindings-split entry (b ∷ bs) h =
    let frees = show_bindings-IsFree (b ∷ bs) h in
    ap (parse_bindings entry) (split-join b';' (show_binding b) (show_bindings bs) frees.0 frees.1)
    ∙ parse_bindings-show_bindings entry (b ∷ bs) h

-- The characters of a joined text.
pub All-join :
    (P : ℕ → Type 0) (sep : ℕ) (ps : List Text) → P sep → All (All P) ps → All P (join sep ps)
unfolding join
All-join P sep [] h k = tt
All-join P sep (p ∷ []) h k = k.0
All-join P sep (p ∷ q ∷ ps) h k =
    All-append P p (sep ∷ join sep (q ∷ ps)) k.0 (h, All-join P sep (q ∷ ps) h k.1)

show_bindings-IsPlain :
    (bs : List SpokePortBinding) → All IsWritableBinding bs → All (All IsPlain) (show_bindings bs)
unfolding show_bindings
show_bindings-IsPlain [] h = tt
show_bindings-IsPlain (b ∷ bs) h = (show_binding-IsPlain b h.0, show_bindings-IsPlain bs h.1)

-- What the list of ports may hold: no colon, but semicolons.
pub record IsPortChar (c : ℕ) : Type 0 where
  pub solid : is_whitespace c ≡ false
  pub comma : c ≢ b','
  pub colon : c ≢ b':'

IsPortChar-semicolon : IsPortChar b';'
unfolding is_whitespace
IsPortChar-semicolon = ground arith

pub IsTokenChar-colon : IsTokenChar b':'
unfolding is_whitespace
IsTokenChar-colon = ground arith

pub port_spec-chars :
    (bs : List SpokePortBinding)
    → All IsWritableBinding bs
    → All IsPortChar (join b';' (show_bindings bs))
port_spec-chars bs h =
    All-join IsPortChar b';' (show_bindings bs) IsPortChar-semicolon
      (weaken_all (show_bindings bs) (show_bindings-IsPlain bs h))
  where
    weaken_all : (ps : List Text) → All (All IsPlain) ps → All (All IsPortChar) ps
    weaken_all [] k = tt
    weaken_all (p ∷ ps) k = (
      weaken (λ c j. record { solid = j.solid; comma = j.comma; colon = j.colon }) p k.0,
      weaken_all ps k.1,
    )

some_port-test :
    (sc : SpokeConfig)
    → IsWritable sc
    → (is_cluster (kind_of sc.spoke_id) && no_ports sc.ports) ≡ false
some_port-test sc w = ground (arith, w.kind_by_id, w.some_port)

spoke_of_lem :
    (entry : Text) (sc : SpokeConfig)
    → IsWritable sc
    → spoke_of entry sc.spoke_id (join b';' (show_bindings sc.ports)) sc.token ≡ ok sc
unfolding spoke_of
spoke_of_lem entry sc w =
    rw (parse_bindings-split entry sc.ports w.bindings, spoke_of, some_port-test sc w)
      (cc w.kind_by_id)

pub parse_entry-show_spoke :
    (sc : SpokeConfig) → IsWritable sc → parse_entry (show_spoke sc) ≡ ok sc
unfolding parse_entry show_spoke
parse_entry-show_spoke sc w =
    let spec = join b';' (show_bindings sc.ports) in
    ap (spoke_of_parts (show_spoke sc)) (
      splitn-three b':' sc.spoke_id spec sc.token (weaken (λ c k. k.colon) _ w.plain_id)
        (weaken (λ c k. k.colon) spec (port_spec-chars sc.ports w.bindings)))
    ∙ spoke_of_lem (show_spoke sc) sc w
