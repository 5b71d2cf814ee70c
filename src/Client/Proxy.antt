-- ===== src/Client/Proxy.antt =====
-- `SharedProxyState` and `handle_http_proxy` of spoke/images/tunnel-client/src/main.rs. The handler
-- is cut where others may come in between: after it has taken the sender of the session, after it
-- has entered its oneshot channel, and after its frame is queued. A oneshot channel is a number, and
-- `delivered` lists what was sent on them, in order.
pub mod Match
pub mod Flush
use openspoke.Common.{
  ℕ, zero, suc, ◌+◌, ◌-◌, ◌%◌, ◌^◌, Bool, true, false, Option, none, some, List, [], ◌∷◌, ◌++◌,
  if◌then◌else◌, Result, ok, err,
}
use openspoke.Common.Eq.{nat_eq, list_eq}
use openspoke.Common.Dict.{Dict, get, insert, remove}
use openspoke.Common.Channel.{Channel, send, empty_channel}
use openspoke.Common.Int.{ℤ, pos, negsuc}
use openspoke.Common.Text.{Text, codes, as_bytes, is_empty}
use openspoke.Wire.{Bytes, ClientFrame, ClientKind, HttpRequest, HttpResponse}

-- `hub` is the outbound channel of the current session, which the proxy sees while `attached`.
pub record Shared : Type 0 where
  pub hub : Channel ClientFrame
  pub attached : Bool
  pub pending : Dict ℕ ℕ
  pub stream_id_counter : ℕ
  pub delivered : List (ℕ × HttpResponse)

-- `SharedProxyState::new`.
abbrev pub new_shared : Shared
new_shared = record {
  hub = empty_channel;
  attached = false;
  pending = [];
  stream_id_counter = 2 ^ 63;
  delivered = [];
}

-- The counter after `next_stream_id`, which returns the counter before it.
unfoldable pub next_stream_id : ℕ → ℕ
next_stream_id n = (n + 1) % 2 ^ 64

unfoldable pub attach_hub : Channel ClientFrame → Shared → Shared
attach_hub tx s = record s { hub = tx; attached = true }

abbrev pub session_ended : HttpResponse
session_ended = record {
  status = pos 503;
  headers = [];
  body = as_bytes (codes "tunnel session ended");
  error = codes "tunnel session ended";
}

-- The loop over the drained map.
unfoldable pub release_all : Dict ℕ ℕ → List (ℕ × HttpResponse)
release_all [] = []
release_all ((sid, caller) ∷ m) = (caller, session_ended) ∷ release_all m

unfoldable pub detach_hub_and_flush : Shared → Shared
unfolding release_all
detach_hub_and_flush s = record s {
  attached = false;
  pending = [];
  delivered = s.delivered ++ release_all s.pending;
}

abbrev pub client_http_request : ℕ → HttpRequest → ClientFrame
client_http_request sid req = record { stream_id = sid; kind = some (ClientKind.http_request req) }

-- What the HTTP caller gets. `axum` adds headers of its own to a plain text.
pub record Reply : Type 0 where
  pub status : ℕ
  pub headers : Dict Text Text
  pub body : Bytes

abbrev pub plain : ℕ → Text → Reply
plain status t = record { status = status; headers = []; body = as_bytes t }

-- The headers whose value is visible ASCII; a later one replaces an earlier one.
unfoldable pub collect_headers : List (Text × Option Text) → Dict Text Text → Dict Text Text
collect_headers [] m = m
collect_headers ((k, none) ∷ hs) m = collect_headers hs m
collect_headers ((k, some v) ∷ hs) m = collect_headers hs (insert k v m)

-- The parts of the HTTP request: `path_and_query`, and the body as `to_bytes` read it, up to 32 MiB.
pub record ProxyRequest : Type 0 where
  pub method : Text
  pub path_and_query : Text
  pub headers : List (Text × Option Text)
  pub body : Result Text Bytes

abbrev pub with_body : ProxyRequest → Result Text Bytes → Shared → Result Reply HttpRequest
with_body r (err e) s = err (plain 400 (codes "body read failed: " ++ e))
with_body r (ok body) s =
    if s.attached
    then ok (record {
      method = r.method;
      path = r.path_and_query;
      headers = collect_headers r.headers [];
      body = body;
    })
    else err (plain 503 (codes "tunnel not connected"))

-- The handler up to its sender: the reply that ends it, or the request with which it goes on.
unfoldable pub begin_request : ProxyRequest → Shared → Result Reply HttpRequest
begin_request r s = with_body r r.body s

-- The entry of the caller's oneshot, under the id that the counter gives. The session whose sender
-- the handler has taken may have ended by now.
unfoldable pub enter_request : ℕ → Shared → Shared
unfolding next_stream_id
enter_request caller s = record s {
  pending = insert s.stream_id_counter caller s.pending;
  stream_id_counter = next_stream_id s.stream_id_counter;
}

-- The handler's send over a sender that nobody receives from.
unfoldable pub miss_request : ℕ → Shared → Shared × Option Reply
miss_request sid s =
    (record s { pending = remove sid s.pending }, some (plain 503 (codes "tunnel send failed")))

-- Its send over the sender of the session that runs; without a reply it goes on to wait.
unfoldable pub queue_request : ℕ → HttpRequest → Shared → Shared × Option Reply
unfolding miss_request send
queue_request sid req s =
    let (hub, sent) = send (client_http_request sid req) s.hub in
    if sent then (record s { hub = hub }, none) else miss_request sid s

-- The frame with a response, in `run_session_impl`.
abbrev pub hand_off : Option ℕ → ℕ → HttpResponse → Shared → Shared
hand_off none sid r s = s
hand_off (some caller) sid r s = record s {
  pending = remove sid s.pending;
  delivered = s.delivered ++ (caller, r) ∷ [];
}

unfoldable pub on_http_response : ℕ → HttpResponse → Shared → Shared
on_http_response sid r s = hand_off (get sid s.pending) sid r s

-- What the wait of 60 seconds ends with.
pub data Waited : Type 0 where
  answered : HttpResponse → Waited
  channel_closed timed_out : Waited

-- `status as u16` of an `i32`.
abbrev pub as_u16 : ℤ → ℕ
as_u16 (pos n) = n % 2 ^ 16
as_u16 (negsuc n) = (2 ^ 16 - suc n % 2 ^ 16) % 2 ^ 16

abbrev pub is_positive : ℤ → Bool
is_positive (pos zero) = false
is_positive (negsuc n) = false
is_positive (pos (suc n)) = true

abbrev pub or_bad_gateway : Option ℕ → ℕ
or_bad_gateway none = 502
or_bad_gateway (some n) = n

abbrev pub body_or_error : HttpResponse → Bytes
body_or_error r = if is_empty r.body then as_bytes r.error else r.body

-- `status_of` is `StatusCode::from_u16`.
unfoldable pub reply_of : (ℕ → Option ℕ) → HttpResponse → Reply
reply_of status_of r =
    if is_empty r.error
    then record {
      status = or_bad_gateway (status_of (as_u16 r.status));
      headers = r.headers;
      body = r.body;
    }
    else if is_positive r.status
    then record {
      status = or_bad_gateway (status_of (as_u16 r.status));
      headers = r.headers;
      body = body_or_error r;
    }
    else record { status = 502; headers = []; body = as_bytes r.error }

-- The headers that are valid in HTTP, as `HeaderName` and `HeaderValue` tell.
unfoldable pub valid_headers : (Text → Text → Bool) → Dict Text Text → Dict Text Text
valid_headers is_valid [] = []
valid_headers is_valid ((k, v) ∷ hs) =
    let rest = valid_headers is_valid hs in if is_valid k v then (k, v) ∷ rest else rest

abbrev pub build : (Text → Text → Bool) → Reply → Reply
build is_valid r = record r { headers = valid_headers is_valid r.headers }

-- The rest of the handler, after its wait.
unfoldable pub finish_request :
    (ℕ → Option ℕ) → (Text → Text → Bool) → ℕ → Waited → Shared → Shared × Reply
unfolding reply_of
finish_request status_of is_valid sid (answered r) s = (s, build is_valid (reply_of status_of r))
finish_request status_of is_valid sid channel_closed s =
    (s, plain 502 (codes "response channel closed"))
finish_request status_of is_valid sid timed_out s =
    (record s { pending = remove sid s.pending }, plain 504 (codes "hub response timeout"))

-- What happens to the shared state, in the order in which it happens. A handler that has taken the
-- sender of a session `enters`, and then `queues` its frame there, or `misses` it if that session has
-- ended; a frame that is still queued for an ended session is no event.
pub data Event : Type 0 where
  enters : ℕ → Event
  queues : ℕ → HttpRequest → Event
  misses : ℕ → Event
  responds : ℕ → HttpResponse → Event
  expires : ℕ → Event
  attaches : Channel ClientFrame → Event
  detaches : Event

unfoldable pub step : Event → Shared → Shared
unfolding enter_request queue_request miss_request on_http_response attach_hub detach_hub_and_flush
step (enters caller) s = enter_request caller s
step (queues sid req) s = (queue_request sid req s).0
step (misses sid) s = (miss_request sid s).0
step (responds sid r) s = on_http_response sid r s
step (expires sid) s = record s { pending = remove sid s.pending }
step (attaches tx) s = attach_hub tx s
step detaches s = detach_hub_and_flush s

unfoldable pub run : List Event → Shared → Shared
run [] s = s
run (e ∷ es) s = run es (step e s)
