-- ===== src/Examples/Tunnel.antt =====
-- The theorems on the two programs together at concrete inputs.
use openspoke.Server.Stream.{up_step, read_ok}
use openspoke.Common.Channel.{fed}
use openspoke.Common.{
  ℕ, ◌^◌, ◌<◌, ◌≤◌, ◌≡◌, ◌↔◌, refl, true, Option, none, some, [], ◌∷◌, arith, All, ok,
  if◌then◌else◌,
}
use openspoke.Common.Eq.{nat_eq, list_eq}
use openspoke.Common.Dict.{get, remove, contains}
use openspoke.Common.Text.{codes, IsScalar}
use openspoke.Wire.{ServerKind, ClientKind}
use openspoke.Server.Metrics.{new_metrics}
use openspoke.Server.Handshake.{admit}
use openspoke.Server.Receive.{recv_step, drop_stream}
use openspoke.Server.Http.{build_request}
use openspoke.Client.Proxy.{new_shared}
use openspoke.Client.Session.{client_handshake, handle_frame, goes_on}
use openspoke.Tunnel.StreamIds.{server_ids, client_ids, stream_ids_apart}
use openspoke.Tunnel.Login.{response_of, login_iff}
use openspoke.Tunnel.HttpProxy.{end_to_end, end_to_end_lem, of_kernel, not_allowed}
use openspoke.Tunnel.HalfClose.{from_spoke, from_hub, close_drops_stream}
use openspoke.Examples.Data.{
  hub_config, demo, kernel, question, client_config, open_conn, running, quoted,
}

stream_ids_apart_example :
    All (λ a. (0 < a) × (a < 2 ^ 63)) (server_ids 3 0)
    × All (λ a. (2 ^ 63 ≤ a) × (a < 2 ^ 64)) (client_ids 2 new_shared.stream_id_counter)
stream_ids_apart_example = stream_ids_apart 3 2 (omega arith) (omega arith)

token-IsScalar : All IsScalar (codes "s3cret")
token-IsScalar =
    (omega arith, (omega arith, (omega arith, (omega arith, (omega arith, (omega arith, tt))))))

login_iff_example :
    (admit hub_config (some (ok (client_handshake (codes "app-demo") (codes "s3cret")))) new_metrics
      ≡ (ok (response_of (codes "app-demo") (codes "s3cret"), demo), new_metrics))
    ↔ ((get (codes "app-demo") hub_config.spokes ≡ some demo) × (codes "s3cret" ≡ demo.token))
login_iff_example =
    login_iff hub_config new_metrics (codes "app-demo") (codes "s3cret") demo token-IsScalar
      token-IsScalar

abbrev accepts_all : ℕ → Option ℕ
accepts_all n = some n

end_to_end_lem_example : end_to_end kernel hub_config (codes "app-demo") question accepts_all ≡ (
    if contains question.path hub_config.allowed_paths
    then of_kernel (kernel.execute (build_request kernel hub_config (codes "app-demo") question))
    else not_allowed question.path)
end_to_end_lem_example =
    end_to_end_lem accepts_all kernel hub_config (codes "app-demo") question refl
      (omega arith, refl)

close_drops_stream_example :
    let at_hub = drop_stream 5 open_conn in
    let at_spoke = record running { streams = remove 5 running.streams } in
    (recv_step demo
        (from_spoke 5 (ClientKind.close_stream (record { half = true; reason = codes "eof" })))
        open_conn
      ≡ (at_hub, []))
    × (recv_step demo (from_spoke 5 (ClientKind.payload (1 ∷ []))) at_hub ≡ (at_hub, []))
    × ((up_step 5 (read_ok (7 ∷ 8 ∷ [])) at_hub).session.server_tx
        ≡ fed open_conn.session.server_tx (from_hub 5 (ServerKind.payload (7 ∷ 8 ∷ [])) ∷ []))
    × (handle_frame quoted client_config
          (from_hub 5 (ServerKind.close_stream (record { half = true; reason = codes "eof" })))
          running
        ≡ goes_on at_spoke none)
    × (handle_frame quoted client_config (from_hub 5 (ServerKind.payload (1 ∷ []))) at_spoke
        ≡ goes_on at_spoke none)
close_drops_stream_example =
    close_drops_stream demo quoted client_config 5 true (codes "eof") (1 ∷ []) 7 (8 ∷ []) open_conn
      running refl
