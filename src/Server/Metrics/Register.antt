-- ===== src/Server/Metrics/Register.antt =====
-- `Metrics::new` and `Metrics::encode` of hub/images/tunnel-server/src/main.rs. The metrics library is
-- a parameter: a registry, the registration of a metric, and the text that shows what it gathers.
use openspoke.Common.{
  ℕ, ◌≡◌, refl, ap, ◌∙◌, Bool, true, false, not, ◌&&◌, ◌||◌, Option, none, some, List, [], ◌∷◌,
  ◌>>=◌, Result, ok, leb, nat_beq,
}
use openspoke.Common.Eq.{list_eq, nat_eq, list_beq}
use openspoke.Common.Dict.{contains}
use openspoke.Common.Text.{Text, codes, is_empty}
use openspoke.Wire.{Bytes}
use openspoke.Server.Metrics.{Metrics}

pub record Description : Type 0 where
  pub name : Text
  pub help : Text
  pub label_names : List Text

-- `rendered` is what the encoder has written by its end, or by its error.
pub record MetricsLibrary (R : Type 0) : Type 0 where
  pub empty : R
  pub register : Description → R → Result Text R
  pub rendered : R → Metrics → Bytes
  pub from_utf8 : Bytes → Option Text

abbrev pub connected_spokes : Description
connected_spokes = record {
  name = codes "openspoke_tunnel_connected_spokes";
  help = codes "Number of currently connected spokes.";
  label_names = [];
}

abbrev pub streams_open : Description
streams_open = record {
  name = codes "openspoke_tunnel_streams_open";
  help = codes "Open virtual TCP streams per spoke.";
  label_names = codes "spoke_id" ∷ [];
}

abbrev pub bytes_sent : Description
bytes_sent = record {
  name = codes "openspoke_tunnel_bytes_sent_total";
  help = codes "Bytes sent hub->spoke via tunnel.";
  label_names = codes "spoke_id" ∷ [];
}

abbrev pub bytes_recv : Description
bytes_recv = record {
  name = codes "openspoke_tunnel_bytes_recv_total";
  help = codes "Bytes received spoke->hub via tunnel.";
  label_names = codes "spoke_id" ∷ [];
}

abbrev pub handshake_fail : Description
handshake_fail = record {
  name = codes "openspoke_tunnel_handshake_failures_total";
  help = codes "Handshake failures.";
  label_names = codes "reason" ∷ [];
}

abbrev pub http_requests : Description
http_requests = record {
  name = codes "openspoke_tunnel_http_requests_total";
  help = codes "Application spoke HTTP requests proxied to hub kernel (labels: spoke_id, result).";
  label_names = codes "spoke_id" ∷ codes "result" ∷ [];
}

abbrev pub descriptions : List Description
descriptions =
    connected_spokes ∷ streams_open ∷ bytes_sent ∷ bytes_recv ∷ handshake_fail ∷ http_requests ∷ []

-- One registration after the other; with an error, an `expect` ends the program.
unfoldable pub register_all : {R : Type 0} → MetricsLibrary R → List Description → R → Result Text R
register_all lib [] r = ok r
register_all lib (d ∷ ds) r = do r' ← lib.register d r; register_all lib ds r'

unfoldable pub registry : {R : Type 0} → MetricsLibrary R → Result Text R
unfolding register_all
registry lib = register_all lib descriptions lib.empty

abbrev pub or_default : Option Text → Text
or_default none = []
or_default (some t) = t

unfoldable pub encode : {R : Type 0} → MetricsLibrary R → R → Metrics → Text
encode lib r m = or_default (lib.from_utf8 (lib.rendered r m))

-- What the library documents of a description: it has a help text, and names of letters, digits and
-- underscores that begin with no digit.
abbrev pub is_digit : ℕ → Bool
is_digit c = leb b'0' c && leb c b'9'

abbrev pub is_name_char : ℕ → Bool
is_name_char c =
    is_digit c || (leb b'a' c && leb c b'z') || (leb b'A' c && leb c b'Z') || nat_beq c b'_'

abbrev pub name_chars : Text → Bool
name_chars [] = true
name_chars (c ∷ cs) = is_name_char c && name_chars cs

abbrev pub is_name : Text → Bool
is_name [] = false
is_name (c ∷ cs) = not (is_digit c) && name_chars (c ∷ cs)

abbrev pub are_names : List Text → Bool
are_names [] = true
are_names (t ∷ ts) = is_name t && not (contains t ts) && are_names ts

abbrev pub is_described : Description → Bool
is_described d = is_name d.name && not (is_empty d.help) && are_names d.label_names

-- The contract: an empty registry has no names, and a description is registered if its name is not.
pub record Contract {R : Type 0} (lib : MetricsLibrary R) : Type 0 where
  pub names : R → List Text
  pub names_of_empty : names lib.empty ≡ []
  pub accepts :
      (d : Description) (r : R)
      → is_described d ≡ true
      → contains d.name (names r) ≡ false
      → (r' : R) × (lib.register d r ≡ ok r') × (names r' ≡ d.name ∷ names r)

-- Each is well described, and has a name that is neither one of `used` nor one of those before it.
unfoldable are_new : List Description → List Text → Bool
are_new [] used = true
are_new (d ∷ ds) used = is_described d && not (contains d.name used) && are_new ds (d.name ∷ used)

abbrev pub names_after : List Description → List Text → List Text
names_after [] used = used
names_after (d ∷ ds) used = names_after ds (d.name ∷ used)

new-split : (a b c : Bool) → a && not b && c ≡ true → (a ≡ true) × (b ≡ false) × (c ≡ true)
new-split true false true e = (refl, refl, refl)
new-split true false false e = cc
new-split true true c e = cc
new-split false b c e = cc

module _ {R : Type 0} (lib : MetricsLibrary R) (k : Contract lib) where
  register_all-ok :
      (ds : List Description) (r : R)
      → are_new ds (k.names r) ≡ true
      → (r' : R) × (register_all lib ds r ≡ ok r') × (k.names r' ≡ names_after ds (k.names r))
  unfolding register_all are_new
  register_all-ok [] r h = (r, refl, refl)
  register_all-ok (d ∷ ds) r h =
      let (described, unused, rest) = new-split _ _ _ h in
      let (r', e, n) = k.accepts d r described unused in
      let (r'', e', n') = register_all-ok ds r' (rw n rest) in (r'', rw e e', rw n at n')

all_new : are_new descriptions [] ≡ true
unfolding are_new contains list_beq
all_new = refl

-- Where the metrics library registers what is well described under a name that is not taken, all the
-- metrics of the server are registered, so that it starts, and the registry has exactly their names.
pub registry-ok :
    {R : Type 0} (lib : MetricsLibrary R) (k : Contract lib)
    → (r : R) × (registry lib ≡ ok r) × (k.names r ≡ names_after descriptions [])
unfolding registry
registry-ok lib k =
    let start : are_new descriptions (k.names lib.empty) ≡ true = rw k.names_of_empty all_new in
    let (r, e, n) = register_all-ok lib k descriptions lib.empty start in
    (r, e, n ∙ ap (names_after descriptions) k.names_of_empty)
