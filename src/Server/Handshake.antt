-- ===== src/Server/Handshake.antt =====
-- `connect` and the handshake of `handle_connection` in hub/images/tunnel-server/src/main.rs.
pub mod Auth
use openspoke.Common.{
  ℕ, Bool, Option, none, some, List, [], ◌∷◌, ◌++◌, if◌then◌else◌, Result, ok, err,
}
use openspoke.Common.Eq.{list_beq, list_eq, nat_eq}
use openspoke.Common.Dict.{get}
use openspoke.Common.Channel.{Channel, send}
use openspoke.Common.Text.{Text, codes, as_bytes}
use openspoke.Wire.{Bytes, ServerFrame, ServerKind, ClientFrame, ClientKind, HandshakeResponse}
use openspoke.Server.Config.{ServerConfig, SpokeConfig}
use openspoke.Server.Metrics.{Metrics, inc_by}

-- `handshake_fail.with_label_values(&[reason]).inc()`.
unfoldable pub count_failure : Text → Metrics → Metrics
count_failure reason m = record m { handshake_fail = inc_by (reason ∷ []) 1 m.handshake_fail }

abbrev pub challenge_frame : Bytes → ℕ → ServerFrame
challenge_frame nonce issued_at = record {
  stream_id = 0;
  kind = some (ServerKind.challenge (record { nonce = nonce; issued_at = issued_at }));
}

-- `Tunnel::connect`, up to the task that it spawns; an error is the status that it returns.
unfoldable pub connect :
    Bytes → ℕ → Channel ServerFrame → Metrics → Result Text (Channel ServerFrame) × Metrics
unfolding send
connect nonce issued_at tx m =
    let (tx', sent) = send (challenge_frame nonce issued_at) tx in
    if sent
    then (ok tx', m)
    else (err (codes "send challenge failed"), count_failure (codes "send_challenge") m)

abbrev pub Admission : Type 0
Admission = Result Text (HandshakeResponse × SpokeConfig) × Metrics

abbrev pub refuse : Text → Text → Metrics → Admission
refuse reason message m = (err message, count_failure reason m)

-- The test of the pre-shared token, after the look-up.
abbrev pub check_token : HandshakeResponse → Metrics → Option SpokeConfig → Admission
check_token hs m none = refuse (codes "unknown_spoke") (codes "unknown spoke_id: " ++ hs.spoke_id) m
check_token hs m (some sc) =
    if list_beq hs.signature (as_bytes sc.token)
    then (ok (hs, sc), m)
    else refuse (codes "bad_token") (codes "bad token for " ++ hs.spoke_id) m

unfoldable pub authenticate : ServerConfig → HandshakeResponse → Metrics → Admission
authenticate cfg hs m = check_token hs m (get hs.spoke_id cfg.spokes)

abbrev pub of_kind : ServerConfig → Option ClientKind → Metrics → Admission
of_kind cfg (some (ClientKind.handshake hs)) m = authenticate cfg hs m
of_kind cfg _ m = refuse (codes "no_handshake") (codes "expected HandshakeResponse") m

-- The first frame of the client: the stream may have ended, or have failed.
unfoldable pub admit : ServerConfig → Option (Result Text ClientFrame) → Metrics → Admission
unfolding authenticate
admit cfg none m = refuse (codes "recv_first") (codes "recv first: stream closed") m
admit cfg (some (err e)) m = refuse (codes "recv_first") (codes "recv first: " ++ e) m
admit cfg (some (ok f)) m = of_kind cfg f.kind m
