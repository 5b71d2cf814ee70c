-- ===== src/Server/Program/Settle.antt =====
-- What calls one after the other leave behind in a tunnel-server.
use openspoke.Common.{
  ℕ, ◌≤◌, ◌≡◌, refl, ap, ◌∙◌, Option, none, List, [], ◌∷◌, Result, ok, err, arith,
}
use openspoke.Common.Eq.{list_eq, nat_eq}
use openspoke.Common.Dict.{Dict, get}
use openspoke.Common.Channel.{Channel}
use openspoke.Common.Int.{pos}
use openspoke.Common.Text.{Text}
use openspoke.Wire.{ServerFrame}
use openspoke.Server.Config.{ServerConfig, Env, load_config}
use openspoke.Server.Metrics.{Metrics}
use openspoke.Server.Handshake.{connect}
use openspoke.Server.Http.{HttpClient}
use openspoke.Server.Connection.{Finished}
use openspoke.Server.Connection.Alone.{
  Ended, refused, unbound, served, IsAsBefore, handle_connection-Ended,
}
use openspoke.Server.Program.{
  TunnelSvc, new_service, Call, settled, spawned, serve_call, serve_calls, System, main,
}

-- No spoke is connected, and the references from the next on are free.
abbrev pub IsQuiet : TunnelSvc → Type 0
IsQuiet s =
    (s.hub.sessions ≡ [])
    × (s.hub.connected ≡ pos 0)
    × ((k : ℕ) → s.next_ref ≤ k → get k s.hub.store ≡ none)

settled-IsQuiet :
    (s : TunnelSvc) (f : Finished)
    → IsAsBefore s.next_ref s.hub f.hub
    → IsQuiet s
    → IsQuiet (settled f s.next_ref)
settled-IsQuiet s f (a, b, c) (p, q, free) =
    (a ∙ p, b ∙ q, λ k le. c k (λ e. omega arith) ∙ free k (omega arith))

get_of_empty : (id : Text) (m : Dict Text ℕ) → m ≡ [] → get id m ≡ none
unfolding get
get_of_empty id m e = ap (get id) e

module _ (client : HttpClient) (cfg : ServerConfig) (bind : ℕ → Option Text) where
  ended-IsQuiet :
      (c : Call) (tx : Channel ServerFrame) (s : TunnelSvc) (m : Metrics) (f : Finished)
      → Ended client cfg bind tx c.first c.events s.last_sid s.hub m s.next_ref f
      → IsQuiet s
      → IsQuiet (settled f s.next_ref)
  ended-IsQuiet c tx s m f (refused e r i h l) quiet =
      settled-IsQuiet s f
        (ap (λ x. x.sessions) h, ap (λ x. x.connected) h, λ k other. ap (λ x. get k x.store) h)
        quiet
  ended-IsQuiet c tx s m f (unbound hs sc e i b r n before) quiet = settled-IsQuiet s f before quiet
  ended-IsQuiet c tx s m f (served hs sc i b r n before) quiet = settled-IsQuiet s f before quiet

  after_challenge :
      (c : Call) (s : TunnelSvc) (r : Result Text (Channel ServerFrame) × Metrics)
      → IsQuiet s
      → IsQuiet (spawned client cfg bind c r s)
  after_challenge c s (err e, m) quiet = quiet
  after_challenge c s (ok tx, m) quiet =
      let (p, q, free) = quiet in
      ended-IsQuiet c tx s m _
        (handle_connection-Ended client cfg bind s.next_ref tx c.first c.events s.last_sid s.hub m
          (free s.next_ref (omega arith)) (λ hs sc a. get_of_empty hs.spoke_id s.hub.sessions p))
        quiet

  serve_call-IsQuiet :
      (c : Call) (s : TunnelSvc) → IsQuiet s → IsQuiet (serve_call client cfg bind c s)
  unfolding serve_call
  serve_call-IsQuiet c s quiet =
      after_challenge c s (connect c.nonce c.issued_at c.response s.metrics) quiet

  serve_calls-IsQuiet :
      (cs : List Call) (s : TunnelSvc) → IsQuiet s → IsQuiet (serve_calls client cfg bind cs s)
  unfolding serve_calls
  serve_calls-IsQuiet [] s quiet = quiet
  serve_calls-IsQuiet (c ∷ cs) s quiet =
      serve_calls-IsQuiet cs (serve_call client cfg bind c s) (serve_call-IsQuiet c s quiet)

-- Where the configuration loads, the HTTP client can be built and the address of the server can be
-- bound, the server starts; and after any number of calls whose tasks do not overlap, whatever is
-- sent in them, and whichever ports can be opened, no spoke stands in the table and the gauge of
-- connected spokes is zero.
pub server_main-Settles :
    (sys : System) (env : Env) (cfg : ServerConfig) (client : HttpClient) (cs : List Call)
    → load_config sys.parse_addr env ≡ ok cfg
    → sys.build_client ≡ ok client
    → sys.serve cfg.grpc_listen ≡ ok tt
    → let s = serve_calls client cfg sys.bind cs new_service in
      (main sys env cs ≡ ok s) × (s.hub.sessions ≡ []) × (s.hub.connected ≡ pos 0)
unfolding main get
server_main-Settles sys env cfg client cs loaded built bound =
    let (p, q, free) =
      serve_calls-IsQuiet client cfg sys.bind cs new_service (refl, refl, λ k le. refl) in
    (rw (loaded, built, bound) refl, p, q)
