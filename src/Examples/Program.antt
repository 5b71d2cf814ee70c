-- ===== src/Examples/Program.antt =====
-- The theorems on a whole run of tunnel-client at concrete attempts.
use openspoke.Common.{
  ◌≡◌, ◌<◌, ◌+◌, ◌^◌, ◌↔◌, refl, inl, none, some, List, [], ◌∷◌, arith, ok, err, length,
}
use openspoke.Common.Eq.{nat_eq, list_eq}
use openspoke.Common.Text.{codes}
use openspoke.Wire.{ServerFrame, ServerKind, HttpRequest}
use openspoke.Client.Proxy.{new_shared, run}
use openspoke.Client.Proxy.Flush.{answers, given_up}
use openspoke.Client.Proxy.Flush as Flush
use openspoke.Client.Session.{handle_frame, send_hub}
use openspoke.Client.Backoff.Bounds.{AreWaits}
use openspoke.Client.Endpoint.{Transport, dial, endpoint_of, secured}
use openspoke.Client.Endpoint.Domain.{Reaches, IsAddress, dial_iff}
use openspoke.Client.Live.{
  Input, from_hub, locally, entered, queued, pumped, live_session, on_input, on_local,
}
use openspoke.Client.Live.View.{view}
use openspoke.Client.Live.Refine.{live_session-Refines}
use openspoke.Client.Live.Events.{session_events, events_of, event_of, response_of}
use openspoke.Client.Pump.{read_ok}
use openspoke.Client.Program.{Attempt, on_locals, main_round, main, main_rounds, started_loop}
use openspoke.Client.Program.Settle.{main_events, attempt_events, local_events, main-Settles}
use openspoke.Client.Program.Waits.{ends_of, main_rounds-AreWaits}
use openspoke.Examples.Data.{client_config, answer, quoted, spoke_env, loaded, spoke_loads}

abbrev challenge : ServerFrame
challenge = record {
  stream_id = 0;
  kind = some (ServerKind.challenge (record { nonce = []; issued_at = 0 }));
}

abbrev asked : HttpRequest
asked = record { method = codes "POST"; path = codes "/ask"; headers = []; body = [] }

abbrev response : ServerFrame
response = record { stream_id = 2 ^ 63; kind = some (ServerKind.http_response answer) }

-- Caller 1 is answered, caller 2 is not.
abbrev inputs : List Input
inputs =
    from_hub (ok challenge)
    ∷ locally (entered 1)
    ∷ locally (queued (2 ^ 63) asked)
    ∷ from_hub (ok response)
    ∷ locally (entered 2)
    ∷ pumped 4 (read_ok (1 ∷ []))
    ∷ from_hub (err (codes "reset"))
    ∷ []

-- A library that takes everything, and one that cannot connect.
abbrev working : Transport (List Input)
working = record {
  from_shared = λ t. ok tt;
  tls_config = λ t. ok tt;
  connect = λ e. ok tt;
  call = λ e. ok inputs;
}

abbrev offline : Transport (List Input)
offline = record working { connect = λ e. err (codes "no route") }

abbrev tries : List Attempt
tries =
    record { before = entered 9 ∷ []; transport = offline; elapsed = 5 }
    ∷ record { before = []; transport = working; elapsed = 7 }
    ∷ []

hub-IsAddress : IsAddress (codes "hub") client_config.hub_url
hub-IsAddress = inl (codes "443", (omega arith, (omega arith, (omega arith, tt))), refl)

dial_iff_example :
    (dial working client_config ≡ ok inputs) ↔ Reaches working client_config (codes "hub") inputs
dial_iff_example = dial_iff working client_config (codes "hub") hub-IsAddress inputs

live_session-Refines_example :
    view (live_session quoted client_config (ok inputs) new_shared).0
    ≡ view (run (session_events quoted client_config (ok inputs) new_shared) new_shared)
live_session-Refines_example = live_session-Refines quoted client_config (ok inputs) new_shared

eight : length (main_events quoted loaded tries (started_loop loaded)) ≡ 8
unfolding main_events attempt_events local_events events_of event_of response_of on_input
    handle_frame send_hub main_round on_locals on_local dial endpoint_of secured live_session
eight = refl

few : length (main_events quoted loaded tries (started_loop loaded)) < 2 ^ 63
few = omega (arith, eight)

main-Settles_example :
    let p0 = started_loop loaded in
    let p = main_rounds quoted loaded tries p0 in
    let es = main_events quoted loaded tries p0 in
    (main quoted spoke_env tries ≡ ok (none, p))
    × (answers 9 p.shared.delivered + given_up 9 es new_shared ≡ Flush.entered 9 es)
main-Settles_example = main-Settles quoted spoke_env loaded 9 tries spoke_loads few

main_rounds-AreWaits_example :
    let p = started_loop loaded in
    AreWaits loaded (ends_of quoted loaded tries p) (main_rounds quoted loaded tries p).slept
main_rounds-AreWaits_example = main_rounds-AreWaits quoted spoke_env loaded tries spoke_loads
