-- ===== src/Tunnel/System/SpokeSends.antt =====
-- What the spoke of a tunnel adds to its outbound channel: at most one frame at a time, and its data
-- frames only carry ids that the hub has given out.
use openspoke.Common.{
  ℕ, ◌≤◌, ◌≡◌, refl, sym, subst, ap, inl, inr, Bool-cases, Option, none, some, List, [], ◌∷◌, arith,
  All, true,
}
use openspoke.Common.Eq.{nat_eq, list_eq}
use openspoke.Common.Dict.{get, contains}
use openspoke.Common.Channel.{send, Grows, Grows-send, Grows-same}
use openspoke.Common.Text.{Text}
use openspoke.Wire.{HttpResponse, ServerFrame, ServerKind, ClientFrame, ClientKind, HttpRequest}
use openspoke.Client.Config.{ClientConfig}
use openspoke.Client.Proxy.{
  on_http_response, hand_off, Shared, enter_request, queue_request, miss_request,
}
use openspoke.Client.Session
use openspoke.Client.Session.{
  Session, Handled, goes_on, fails, handle_frame, send_hub, open_known, target_name, to_stream,
  answer_challenge,
}
use openspoke.Client.Pump
use openspoke.Client.Pump.{PumpEvent, pump_step, drop_ended, Round, give_up}
use openspoke.Client.Live.{
  Local, entered, queued, missed, expired, on_local, Input, from_hub, locally, pumped, undialled,
  outbound_gone, on_input,
}
use openspoke.Client.Live.Refine.{session_of, to_stream-shared, drop_ended-shared}
use openspoke.Tunnel.System.{AtSpoke}

-- A frame of the spoke: data for an id up to the hub's counter.
abbrev pub KindBelow : ℕ → ℕ → Option ClientKind → Type 0
KindBelow last j (some (ClientKind.payload p)) = j ≤ last
KindBelow last j (some (ClientKind.handshake h)) = Unit
KindBelow last j (some (ClientKind.close_stream c)) = Unit
KindBelow last j (some (ClientKind.pong t)) = Unit
KindBelow last j (some (ClientKind.http_request r)) = Unit
KindBelow last j none = Unit

abbrev pub IsBelow : ℕ → ClientFrame → Type 0
IsBelow last f = KindBelow last f.stream_id f.kind

All-contains :
    (last sid : ℕ) (ks : List ℕ) → All (λ k. k ≤ last) ks → contains sid ks ≡ true → sid ≤ last
unfolding contains
All-contains last sid [] h c = cc
All-contains last sid (k ∷ ks) h c = ground (arith, All-contains last sid ks h.1)

-- The spoke's outbound channel.
abbrev pub HubGrows : ℕ → Shared → Shared → Type 0
HubGrows last s s' = Grows (IsBelow last) s.hub s'.hub

hand_off-hub :
    (o : Option ℕ) (sid : ℕ) (r : HttpResponse) (s : Shared) → (hand_off o sid r s).hub ≡ s.hub
hand_off-hub none sid r s = refl
hand_off-hub (some c) sid r s = refl

module _ (last : ℕ) where
  send_hub-Grows :
      (f : ClientFrame) (s : Session)
      → IsBelow last f
      → HubGrows last s.shared (send_hub f s).0.shared
  unfolding send_hub
  send_hub-Grows f s b = Grows-send (IsBelow last) f s.shared.hub b

  challenge-Grows :
      (cfg : ClientConfig) (s : Session)
      → HubGrows last s.shared (session_of (answer_challenge cfg s)).shared
  unfolding send_hub send
  challenge-Grows cfg s = elim (Bool-cases s.shared.hub.is_open) [
    | inl t ↦ simp t (inr (_, tt, refl))
    | inr t ↦ simp t (inl refl)
  ]

  open_known-Grows :
      (debug : Text → Text) (sid : ℕ) (name : Text) (o : Option Text) (s : Session)
      → HubGrows last s.shared (session_of (open_known debug sid name o s)).shared
  open_known-Grows debug sid name none s = send_hub-Grows _ s tt
  open_known-Grows debug sid name (some t) s = inl refl

  pub handle_frame-Grows :
      (debug : Text → Text) (cfg : ClientConfig) (f : ServerFrame) (s : Session)
      → HubGrows last s.shared (session_of (handle_frame debug cfg f s)).shared
  unfolding handle_frame on_http_response
  handle_frame-Grows debug cfg f s = by_kind f.kind
    where
      by_kind :
          (k : Option ServerKind)
          → HubGrows last s.shared (session_of (Session.on_kind debug cfg f.stream_id k s)).shared
      by_kind (some (ServerKind.challenge c)) = challenge-Grows cfg s
      by_kind (some (ServerKind.open_stream o)) =
          open_known-Grows debug f.stream_id (target_name o) (get (target_name o) cfg.targets) s
      by_kind (some (ServerKind.payload p)) = Grows-same _ _ _ (
          ap (λ (x : Shared). x.hub) (to_stream-shared f.stream_id p (get f.stream_id s.streams) s))
      by_kind (some (ServerKind.close_stream c)) = inl refl
      by_kind (some (ServerKind.ping t)) = send_hub-Grows _ s tt
      by_kind (some (ServerKind.http_response r)) =
          Grows-same _ _ _ (hand_off-hub (get f.stream_id s.shared.pending) f.stream_id r s.shared)
      by_kind none = inl refl

  queue_request-Grows :
      (sid : ℕ) (req : HttpRequest) (s : Shared) → HubGrows last s (queue_request sid req s).0
  unfolding queue_request miss_request send
  queue_request-Grows sid req s = elim (Bool-cases s.hub.is_open) [
    | inl t ↦ simp t (inr (_, tt, refl))
    | inr t ↦ simp t (inl refl)
  ]

  on_local-Grows : (l : Local) (s : Shared) → HubGrows last s (on_local l s)
  unfolding on_local enter_request miss_request
  on_local-Grows (entered caller) s = inl refl
  on_local-Grows (queued sid req) s = queue_request-Grows sid req s
  on_local-Grows (missed sid) s = inl refl
  on_local-Grows (expired sid) s = inl refl

  pump_step-Grows :
      (sid : ℕ) (e : PumpEvent) (s : Session)
      → sid ≤ last
      → HubGrows last s.shared (pump_step sid e s).session.shared
  unfolding pump_step
  pump_step-Grows sid (Pump.read_ok []) s le = send_hub-Grows _ s tt
  pump_step-Grows sid (Pump.read_ok (b ∷ bs)) s le = send_hub-Grows _ s le
  pump_step-Grows sid Pump.read_err s le = send_hub-Grows _ s tt
  pump_step-Grows sid (Pump.inbound p w) s le = inl refl
  pump_step-Grows sid Pump.inbound_closed s le = inl refl

  -- What happens at the spoke by itself, where its pumps are those of ids up to `last`.
  pub on_input-Grows :
      (debug : Text → Text) (cfg : ClientConfig) (i : Input) (s : Session) (pumps : List ℕ)
      → All (λ k. k ≤ last) pumps
      → AtSpoke pumps i
      → HubGrows last s.shared (session_of (on_input debug cfg i s)).shared
  unfolding on_input
  on_input-Grows debug cfg (locally l) s pumps low at = on_local-Grows l s.shared
  on_input-Grows debug cfg (pumped sid e) s pumps low at =
      subst (λ x. HubGrows last s.shared x) (sym (drop_ended-shared sid (pump_step sid e s)))
        (pump_step-Grows sid e s (All-contains last sid pumps low at))
  on_input-Grows debug cfg (undialled sid reason) s pumps low at = send_hub-Grows _ s tt
  on_input-Grows debug cfg outbound_gone s pumps low at = inl refl
  on_input-Grows debug cfg (from_hub f) s pumps low at = absurd at
