-- ===== src/Client/Live/Events.antt =====
-- What the inputs of a session of tunnel-client mean to its proxy.
use openspoke.Common.{
  ℕ, ◌≡◌, refl, ◌∙◌, Option, none, some, List, [], ◌∷◌, ◌++◌, Result, ok, err, true, false,
  Bool-cases, inl, inr,
}
use openspoke.Common.Eq.{nat_eq, list_eq}
use openspoke.Common.Dict.{get}
use openspoke.Common.Channel.{send, empty_channel}
use openspoke.Common.Text.{Text}
use openspoke.Wire.{HttpRequest, HttpResponse, ServerKind}
use openspoke.Client.Config.{ClientConfig}
use openspoke.Client.Proxy.{
  enter_request, queue_request, miss_request, hand_off, on_http_response, attach_hub, Shared, Event,
  enters, queues, misses, responds, expires, attaches, detaches, step, run,
}
use openspoke.Client.Session.{Session, Handled, goes_on, fails}
use openspoke.Client.Live.{
  Local, entered, queued, missed, expired, on_local, Input, from_hub, locally, pumped, undialled,
  outbound_gone, on_input, attached_session,
}

-- What an input means to the proxy.
unfoldable pub response_of : ℕ → Option ServerKind → List Event
response_of sid (some (ServerKind.http_response r)) = responds sid r ∷ []
response_of sid (some (ServerKind.challenge c)) = []
response_of sid (some (ServerKind.open_stream o)) = []
response_of sid (some (ServerKind.payload p)) = []
response_of sid (some (ServerKind.close_stream c)) = []
response_of sid (some (ServerKind.ping t)) = []
response_of sid none = []

abbrev pub local_event : Local → Event
local_event (entered caller) = enters caller
local_event (queued sid req) = queues sid req
local_event (missed sid) = misses sid
local_event (expired sid) = expires sid

unfoldable pub event_of : Input → List Event
event_of (from_hub (ok f)) = response_of f.stream_id f.kind
event_of (from_hub (err e)) = []
event_of (locally l) = local_event l ∷ []
event_of (pumped sid e) = []
event_of (undialled sid reason) = []
event_of outbound_gone = attaches (record { sent = []; is_open = false }) ∷ []

abbrev pub of_input : List Event → Handled → (Session → List Event) → List Event
of_input es (goes_on s t) rest = es ++ rest s
of_input es (fails e s) rest = es

-- Up to the input that ends the session.
unfoldable pub events_of : (Text → Text) → ClientConfig → List Input → Session → List Event
events_of debug cfg [] s = []
events_of debug cfg (i ∷ is) s =
    of_input (event_of i) (on_input debug cfg i s) (events_of debug cfg is)

abbrev pub session_events :
    (Text → Text) → ClientConfig → Result Text (List Input) → Shared → List Event
session_events debug cfg (err e) sh = detaches ∷ []
session_events debug cfg (ok is) sh =
    attaches empty_channel ∷ (events_of debug cfg is (attached_session sh) ++ detaches ∷ [])

pub local_lem : (l : Local) (s : Shared) → on_local l s ≡ step (local_event l) s
unfolding on_local step
local_lem (entered caller) s = refl
local_lem (queued sid req) s = refl
local_lem (missed sid) s = refl
local_lem (expired sid) s = refl

queue_request-attached :
    (sid : ℕ) (req : HttpRequest) (s : Shared) → (queue_request sid req s).0.attached ≡ s.attached
unfolding queue_request miss_request send
queue_request-attached sid req s = elim (Bool-cases s.hub.is_open) [
  | inl t ↦ simp t
  | inr t ↦ simp t
]

hand_off-attached :
    (o : Option ℕ) (sid : ℕ) (r : HttpResponse) (s : Shared)
    → (hand_off o sid r s).attached ≡ s.attached
hand_off-attached none sid r s = refl
hand_off-attached (some c) sid r s = refl

response_of-attached :
    (sid : ℕ) (k : Option ServerKind) (s : Shared)
    → s.attached ≡ true
    → (run (response_of sid k) s).attached ≡ true
unfolding response_of run step on_http_response
response_of-attached sid (some (ServerKind.challenge c)) s a = a
response_of-attached sid (some (ServerKind.open_stream o)) s a = a
response_of-attached sid (some (ServerKind.payload p)) s a = a
response_of-attached sid (some (ServerKind.close_stream c)) s a = a
response_of-attached sid (some (ServerKind.ping t)) s a = a
response_of-attached sid (some (ServerKind.http_response r)) s a =
    hand_off-attached (get sid s.pending) sid r s ∙ a
response_of-attached sid none s a = a

pub event_of-attached :
    (i : Input) (s : Shared) → s.attached ≡ true → (run (event_of i) s).attached ≡ true
unfolding event_of run step enter_request miss_request attach_hub
event_of-attached (from_hub (ok f)) s a = response_of-attached f.stream_id f.kind s a
event_of-attached (from_hub (err e)) s a = a
event_of-attached (locally (entered caller)) s a = a
event_of-attached (locally (queued sid req)) s a = queue_request-attached sid req s ∙ a
event_of-attached (locally (missed sid)) s a = a
event_of-attached (locally (expired sid)) s a = a
event_of-attached (pumped sid e) s a = a
event_of-attached (undialled sid reason) s a = a
event_of-attached outbound_gone s a = refl
