-- ===== src/Tunnel/Login.antt =====
-- The client's handshake at the server.
use openspoke.Common.{◌≡◌, refl, ap, ◌↔◌, some, All, ok}
use openspoke.Common.Eq.{nat_eq, list_eq}
use openspoke.Common.Dict.{get}
use openspoke.Common.Text.{Text, as_bytes, as_bytes-injective, IsScalar}
use openspoke.Wire.{HandshakeResponse}
use openspoke.Server.Config.{ServerConfig, SpokeConfig}
use openspoke.Server.Metrics.{Metrics}
use openspoke.Server.Handshake.{admit}
use openspoke.Server.Handshake.Auth.{admit_iff}
use openspoke.Client.Session.{client_handshake, client_version}

abbrev pub response_of : Text → Text → HandshakeResponse
response_of id token = record {
  spoke_id = id;
  signature = as_bytes token;
  tunnel_client_ver = client_version;
}

-- The handshake that a client sends is admitted exactly when the server knows the client's spoke id
-- and has the same token for it, both tokens being texts.
pub login_iff :
    (cfg : ServerConfig) (m : Metrics) (id token : Text) (sc : SpokeConfig)
    → All IsScalar token
    → All IsScalar sc.token
    → (admit cfg (some (ok (client_handshake id token))) m ≡ (ok (response_of id token, sc), m))
      ↔ ((get id cfg.spokes ≡ some sc) × (token ≡ sc.token))
login_iff cfg m id token sc u v =
    let both = admit_iff cfg m (response_of id token) sc (some (ok (client_handshake id token))) in
    (
      (λ e. let (f, a, b, g, s) = both.0 e in (g, as_bytes-injective token sc.token u v s)),
      (λ k. both.1 (client_handshake id token, refl, refl, k.0, ap as_bytes k.1)),
    )
