-- ===== src/Tunnel/Exchange.antt =====
-- One HTTP request of an application spoke, frame by frame: `handle_http_proxy` of tunnel-client,
-- `recv_loop` and `handle_http_request` of tunnel-server, and the client's session again.
use openspoke.Common.{
  ℕ, ◌+◌, ◌^◌, ◌<◌, ◌≡◌, refl, sym, ap, subst, ◌∙◌, Bool, true, Option, none, some, List, [], ◌∷◌,
  ◌++◌, All, length, ok, if◌then◌else◌,
}
use openspoke.Common.Eq.{nat_eq, list_eq}
use openspoke.Common.Dict.{contains}
use openspoke.Common.Channel.{Channel, send, send-open, fed}
use openspoke.Common.Text.{Text}
use openspoke.Wire.{Bytes, ServerFrame, HttpRequest, HttpResponse}
use openspoke.Server.Config.{ServerConfig, SpokeConfig, application}
use openspoke.Server.Session.{Conn, send_frame}
use openspoke.Server.Http.{
  HttpClient, http_outcome, handle_http_request, response_frame, build_request, reply,
}
use openspoke.Server.Receive.{recv_step, on_http_request}
use openspoke.Client.Config.{ClientConfig}
use openspoke.Client.Proxy.{
  Shared, Reply, ProxyRequest, Event, begin_request, enter_request, queue_request, with_body,
  collect_headers, client_http_request, on_http_response, run, answered, finish_request, build,
}
use openspoke.Client.Proxy.Match.{Spares, response_reaches_caller}
use openspoke.Client.Session.{Session, Handled, goes_on, handle_frame}
use openspoke.Tunnel.HttpProxy.{of_kernel, not_allowed, TakesStatus, end_to_end_lem}

-- The request as the proxy puts it into its frame.
abbrev pub request_of : ProxyRequest → Bytes → HttpRequest
request_of r body = record {
  method = r.method;
  path = r.path_and_query;
  headers = collect_headers r.headers [];
  body = body;
}

-- The contract on the caller's reply.
abbrev pub contract : HttpClient → ServerConfig → Text → HttpRequest → Reply
contract client cfg id req =
    if contains req.path cfg.allowed_paths
    then of_kernel (client.execute (build_request client cfg id req))
    else not_allowed req.path

-- The session goes on, with one more delivery.
abbrev pub Delivers : Handled → Shared → ℕ → HttpResponse → Type 0
Delivers h before caller resp =
    (s : Session) × (h ≡ goes_on s none)
    × (s.shared.delivered ≡ before.delivered ++ (caller, resp) ∷ [])

begins :
    (r : ProxyRequest) (body : Bytes) (s : Shared)
    → r.body ≡ ok body
    → s.attached ≡ true
    → begin_request r s ≡ ok (request_of r body)
unfolding begin_request
begins r body s e a = ap (λ b. with_body r b s) e ∙ simp a

queued_lem :
    (sid : ℕ) (req : HttpRequest) (s : Shared)
    → s.hub.is_open ≡ true
    → queue_request sid req s
      ≡ (record s { hub = fed s.hub (client_http_request sid req ∷ []) }, none)
unfolding queue_request send
queued_lem sid req s o = simp o

answers :
    (client : HttpClient) (cfg : ServerConfig) (sid : ℕ) (req : HttpRequest) (c : Conn)
    → c.session.server_tx.is_open ≡ true
    → (handle_http_request client cfg sid req c).0.session.server_tx
      ≡ fed c.session.server_tx
          (response_frame sid (http_outcome client cfg c.session.spoke_id req).0.1 ∷ [])
unfolding handle_http_request reply send_frame
answers client cfg sid req c o =
    ap (λ (x : Channel ServerFrame × Bool). x.0) (send-open _ c.session.server_tx o)

spawns :
    (sc : SpokeConfig) (sid : ℕ) (req : HttpRequest) (c : Conn)
    → sc.kind ≡ application
    → recv_step sc (client_http_request sid req) c ≡ (c, (sid, req) ∷ [])
unfolding recv_step on_http_request
spawns sc sid req c kind = rw kind refl

delivers :
    (debug : Text → Text) (ccfg : ClientConfig) (caller : ℕ) (req : HttpRequest) (s : Shared)
    (before after : List Event) (resp : HttpResponse) (t : Session)
    → let sid = s.stream_id_counter in
      let s1 = run before (enter_request caller s) in
      All (Spares sid) before
      → (queue_request sid req s1).1 ≡ none
      → All (Spares sid) after
      → sid + 1 + length before + length after < 2 ^ 64
      → t.shared ≡ run after (queue_request sid req s1).0
      → Delivers (handle_frame debug ccfg (response_frame sid resp) t) t.shared caller resp
unfolding handle_frame
delivers debug ccfg caller req s before after resp t hb q ha lt e =
    let sid = s.stream_id_counter in
    let reached = (response_reaches_caller caller req s before after resp hb q ha lt).0 in
    (
      record t { shared = on_http_response sid resp t.shared },
      refl,
      subst (λ x. (on_http_response sid resp x).delivered ≡ x.delivered ++ (caller, resp) ∷ [])
          (sym e) reached,
    )

returns :
    (status_of : ℕ → Option ℕ) (is_valid : Text → Text → Bool) (client : HttpClient)
    (cfg : ServerConfig) (id : Text) (req : HttpRequest) (sid : ℕ) (s : Shared)
    → status_of 403 ≡ some 403
    → TakesStatus status_of (client.execute (build_request client cfg id req))
    → (finish_request status_of is_valid sid (answered (http_outcome client cfg id req).0.1) s).1
      ≡ build is_valid (contract client cfg id req)
unfolding finish_request
returns status_of is_valid client cfg id req sid s forbidden takes =
    ap (build is_valid) (end_to_end_lem status_of client cfg id req forbidden takes)

-- An application spoke's proxy turns a request that it could read, while a session runs, into one
-- frame, enters its caller under a new id, and later queues the frame, if the session's stream still
-- stands, and waits; the hub hands that frame to a task of its own and changes nothing else; the task
-- sends back one frame under the same id; the client's session delivers it to the caller, whatever
-- came to the proxy before the frame was queued and after it, short of the end of the session, of the
-- wait, or an earlier answer under that id; and the caller gets what the contract says of the
-- allowlist and the kernel's answer, less the headers that are not valid in HTTP.
pub exchange_lem :
    (status_of : ℕ → Option ℕ) (is_valid : Text → Text → Bool) (client : HttpClient)
    (cfg : ServerConfig) (sc : SpokeConfig) (debug : Text → Text) (ccfg : ClientConfig) (caller : ℕ)
    (r : ProxyRequest) (body : Bytes) (s : Shared) (c : Conn) (before after : List Event)
    (t : Session)
    → let id = c.session.spoke_id in
      let sid = s.stream_id_counter in
      let req = request_of r body in
      let resp = (http_outcome client cfg id req).0.1 in
      let s1 = run before (enter_request caller s) in
      let s2 = (queue_request sid req s1).0 in
      r.body ≡ ok body
      → s.attached ≡ true
      → s1.hub.is_open ≡ true
      → sc.kind ≡ application
      → c.session.server_tx.is_open ≡ true
      → All (Spares sid) before
      → All (Spares sid) after
      → sid + 1 + length before + length after < 2 ^ 64
      → t.shared ≡ run after s2
      → status_of 403 ≡ some 403
      → TakesStatus status_of (client.execute (build_request client cfg id req))
      → (begin_request r s ≡ ok req)
        × ((queue_request sid req s1).1 ≡ none)
        × (s2.hub ≡ fed s1.hub (client_http_request sid req ∷ []))
        × (recv_step sc (client_http_request sid req) c ≡ (c, (sid, req) ∷ []))
        × ((handle_http_request client cfg sid req c).0.session.server_tx
            ≡ fed c.session.server_tx (response_frame sid resp ∷ []))
        × Delivers (handle_frame debug ccfg (response_frame sid resp) t) t.shared caller resp
        × ((finish_request status_of is_valid sid (answered resp) t.shared).1
            ≡ build is_valid (contract client cfg id req))
exchange_lem status_of is_valid client cfg sc debug ccfg caller r body s c before after t e a o kind
      oc hb ha lt shared forbidden takes =
    let id = c.session.spoke_id in
    let sid = s.stream_id_counter in
    let req = request_of r body in
    let resp = (http_outcome client cfg id req).0.1 in
    let whole = queued_lem sid req (run before (enter_request caller s)) o in
    let waiting = ap (λ (x : Shared × Option Reply). x.1) whole in
    (
      begins r body s e a,
      waiting,
      ap (λ (x : Shared × Option Reply). x.0.hub) whole,
      spawns sc sid req c kind,
      answers client cfg sid req c oc,
      delivers debug ccfg caller req s before after resp t hb waiting ha lt shared,
      returns status_of is_valid client cfg id req sid t.shared forbidden takes,
    )
