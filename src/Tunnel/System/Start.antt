-- ===== src/Tunnel/System/Start.antt =====
-- A tunnel as a session begins at both of its ends.
use openspoke.Common.{ℕ, true, [], ◌∷◌}
use openspoke.Wire.{Bytes}
use openspoke.Server.Handshake.{challenge_frame}
use openspoke.Server.Connection.{fresh_live}
use openspoke.Server.Metrics.{Metrics}
use openspoke.Client.Config.{ClientConfig}
use openspoke.Client.Proxy.{Shared}
use openspoke.Client.Session.{client_handshake}
use openspoke.Tunnel.System.{Tunnel}

-- The hub has sent its challenge and the spoke its handshake, each to the other; `last` is the id
-- that the hub gave out last, on whichever session, and `sh` is what the spoke's sessions share.
abbrev pub joined : Bytes → ℕ → Metrics → ℕ → ClientConfig → Shared → Tunnel
joined nonce issued_at m last ccfg sh =
    let challenge = challenge_frame nonce issued_at ∷ [] in
    let handshake = client_handshake ccfg.spoke_id ccfg.token ∷ [] in
    record {
      live = fresh_live ccfg.spoke_id (record { sent = challenge; is_open = true }) m last;
      spoke = record {
        shared = record sh { hub = record { sent = handshake; is_open = true }; attached = true };
        streams = [];
      };
      taken_down = challenge;
      taken_up = handshake;
      pumps = [];
    }
