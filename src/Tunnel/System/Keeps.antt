-- ===== src/Tunnel/System/Keeps.antt =====
-- What each step of a tunnel keeps.
use openspoke.Common.{
  ℕ, ◌+◌, ◌^◌, ◌<◌, ◌≡◌, sym, subst, ap, List, [], ◌∷◌, ◌++◌, arith, All, All-map, All-left, All-at,
}
use mathlib.Core.List.{append-nil}
use openspoke.Common.Eq.{nat_eq, list_eq}
use openspoke.Common.Channel.{Channel}
use openspoke.Common.Text.{Text}
use openspoke.Wire.{ServerFrame, ClientFrame}
use openspoke.Server.Config.{ServerConfig, SpokeConfig}
use openspoke.Server.Http.{HttpClient}
use openspoke.Server.Session.{Conn}
use openspoke.Server.Receive.{recv_step}
use openspoke.Server.Receive.Feed as Up
use openspoke.Server.Stream.{Event, fetch_sid, step}
use openspoke.Server.Stream.Balance.{fetch_sid-lt}
use openspoke.Client.Config.{ClientConfig}
use openspoke.Client.Session.{Session, handle_frame}
use openspoke.Client.Session.Feed as Down
use openspoke.Client.Live.{Input, on_input}
use openspoke.Client.Live.Refine.{session_of}
use openspoke.Tunnel.Sent.{data_of-append, step-le}
use openspoke.Tunnel.System.{
  Tunnel, AtHub, AtSpoke, started_pumps, Step, at_hub, at_spoke, down, up, Reach, here, next,
}
use openspoke.Tunnel.System.Sends.{IsWithin, step-Grows, recv_step-Grows}
use openspoke.Tunnel.System.SpokeSends.{IsBelow, handle_frame-Grows, on_input-Grows}
use openspoke.Tunnel.System.HubTakes.{step-HubHolds, recv_step-HubHolds}
use openspoke.Tunnel.System.SpokeTakes.{handle_frame-SpokeHolds, on_input-SpokeHolds}
use openspoke.Tunnel.System.Log.{
  IsGiven, OpensFresh, OpensFresh-at, KindBelow-mono, up_above, up_append,
}
use openspoke.Tunnel.System.Pumps.{spawned_of, handle_frame-low}
use openspoke.Tunnel.System.Inv.{Split-Grows, Split-take, Sound-Grows, IsBelow-Grows, IsOrdered}

abbrev tx : Conn → Channel ServerFrame
tx c = c.session.server_tx

module _ (client : HttpClient) (cfg : ServerConfig) (sc : SpokeConfig) (debug : Text → Text)
    (ccfg : ClientConfig) where
  -- The hub by itself.
  hub-IsOrdered :
      (e : Event) (t : Tunnel)
      → AtHub t.live.last_sid t.live.conn.session.server_tx.sent e
      → t.live.last_sid + 1 < 2 ^ 64
      → IsOrdered t
      → IsOrdered (record t { live = step client cfg sc e t.live })
  hub-IsOrdered e t at lt h =
      let l' = step client cfg sc e t.live in
      let grows = step-Grows client cfg sc e t.live at in
      let le = step-le client cfg sc 0 e t.live lt in
      record {
        sound =
            Sound-Grows t.live.last_sid l'.last_sid (tx t.live.conn) (tx l'.conn) le grows h.sound;
        below =
            All-map (IsBelow t.live.last_sid) (IsBelow l'.last_sid) t.spoke.shared.hub.sent
              (λ f. KindBelow-mono t.live.last_sid l'.last_sid f.stream_id f.kind le) h.below;
        low = All-map _ _ t.pumps (λ k b. omega (arith, b, le)) h.low;
        down_split =
            Split-Grows (IsWithin t.live.last_sid (tx t.live.conn).sent) (tx t.live.conn)
              (tx l'.conn) t.taken_down grows h.down_split;
        up_split = h.up_split;
        pump = h.pump;
        writer = λ sid.
            step-HubHolds sid (Up.data_of sid t.taken_up) client cfg sc e t.live at (new sid)
              (h.writer sid);
      }
    where
      taken_below : All (IsBelow t.live.last_sid) t.taken_up
      taken_below =
          let (rest, e) = h.up_split in
          All-left (IsBelow t.live.last_sid) t.taken_up rest
            (subst (All (IsBelow t.live.last_sid)) e h.below)

      new : (sid : ℕ) → fetch_sid t.live.last_sid ≡ sid → [] ≡ Up.data_of sid t.taken_up
      new sid e = sym (
          up_above t.live.last_sid sid t.taken_up (omega (arith, fetch_sid-lt t.live.last_sid lt))
            taken_below)

  -- The spoke by itself.
  spoke-IsOrdered :
      (i : Input) (s : Session) (t : Tunnel)
      → AtSpoke t.pumps i
      → s ≡ session_of (on_input debug ccfg i t.spoke)
      → IsOrdered t
      → IsOrdered (record t { spoke = s })
  spoke-IsOrdered i s t at e h =
      let s' = session_of (on_input debug ccfg i t.spoke) in
      let grows = on_input-Grows t.live.last_sid debug ccfg i t.spoke t.pumps h.low at in
      rw e (record {
        sound = h.sound;
        below = IsBelow-Grows t.live.last_sid t.spoke.shared s'.shared grows h.below;
        low = h.low;
        down_split = h.down_split;
        up_split =
            Split-Grows (IsBelow t.live.last_sid) t.spoke.shared.hub s'.shared.hub t.taken_up grows
              h.up_split;
        pump = λ sid.
            on_input-SpokeHolds sid (Down.data_of sid t.taken_down) debug ccfg i t.spoke t.pumps at
              (h.pump sid);
        writer = h.writer;
      })

  -- A frame of the hub, at the spoke.
  down-IsOrdered :
      (f : ServerFrame) (rest : List ServerFrame) (s : Session) (pumps : List ℕ) (t : Tunnel)
      → t.live.conn.session.server_tx.sent ≡ t.taken_down ++ f ∷ rest
      → s ≡ session_of (handle_frame debug ccfg f t.spoke)
      → pumps ≡ started_pumps (spawned_of (handle_frame debug ccfg f t.spoke)) t.pumps
      → IsOrdered t
      → IsOrdered (record t { spoke = s; taken_down = t.taken_down ++ f ∷ []; pumps = pumps })
  unfolding Down.data_of
  down-IsOrdered f rest s pumps t e es ep h =
      let s' = session_of (handle_frame debug ccfg f t.spoke) in
      let grows = handle_frame-Grows t.live.last_sid debug ccfg f t.spoke in
      let given =
        All-at (IsGiven t.live.last_sid) t.taken_down f rest
          (subst (All (IsGiven t.live.last_sid)) e h.sound.given) in
      let fresh = OpensFresh-at [] t.taken_down f rest (subst (OpensFresh []) e h.sound.fresh) in
      rw (es, ep)
        (record {
          sound = h.sound;
          below = IsBelow-Grows t.live.last_sid t.spoke.shared s'.shared grows h.below;
          low = handle_frame-low debug ccfg t.live.last_sid f t.spoke t.pumps given h.low;
          down_split = Split-take (tx t.live.conn) t.taken_down f rest e;
          up_split =
              Split-Grows (IsBelow t.live.last_sid) t.spoke.shared.hub s'.shared.hub t.taken_up
                grows h.up_split;
          pump = λ sid.
              rw
                (
                  data_of-append sid t.taken_down (f ∷ []),
                  append-nil (Down.data_in sid f.stream_id f.kind),
                )
                (handle_frame-SpokeHolds sid t.taken_down debug ccfg f t.spoke fresh (h.pump sid));
          writer = h.writer;
        })

  -- A frame of the spoke, at the hub.
  up-IsOrdered :
      (f : ClientFrame) (rest : List ClientFrame) (t : Tunnel)
      → t.spoke.shared.hub.sent ≡ t.taken_up ++ f ∷ rest
      → IsOrdered t
      → IsOrdered (record t {
        live = record t.live { conn = (recv_step sc f t.live.conn).0 };
        taken_up = t.taken_up ++ f ∷ [];
      })
  unfolding Up.data_of
  up-IsOrdered f rest t e h =
      let c' = (recv_step sc f t.live.conn).0 in
      let grows = recv_step-Grows sc t.live.last_sid (tx t.live.conn).sent f t.live.conn in
      record {
        sound =
            Sound-Grows t.live.last_sid t.live.last_sid (tx t.live.conn) (tx c') (omega arith) grows
              h.sound;
        below = h.below;
        low = h.low;
        down_split =
            Split-Grows (IsWithin t.live.last_sid (tx t.live.conn).sent) (tx t.live.conn) (tx c')
              t.taken_down grows h.down_split;
        up_split = Split-take t.spoke.shared.hub t.taken_up f rest e;
        pump = h.pump;
        writer = λ sid.
            rw (up_append sid t.taken_up (f ∷ []), append-nil (Up.data_in sid f.stream_id f.kind))
              (recv_step-HubHolds sid (Up.data_of sid t.taken_up) sc f t.live.conn (h.writer sid));
      }

  Step-IsOrdered : {t u : Tunnel} → Step client cfg sc debug ccfg t u → IsOrdered t → IsOrdered u
  Step-IsOrdered {t} (at_hub e at lt) h = hub-IsOrdered e t at lt h
  Step-IsOrdered {t} (at_spoke i s p at e) h = spoke-IsOrdered i s t at (sym (ap session_of e)) h
  Step-IsOrdered {t} (down f rest s p e k) h =
      down-IsOrdered f rest s (started_pumps p t.pumps) t e (sym (ap session_of k))
        (ap (λ r. started_pumps (spawned_of r) t.pumps) (sym k)) h
  Step-IsOrdered {t} (up f rest e) h = up-IsOrdered f rest t e h

  pub Reach-IsOrdered :
      {s t : Tunnel} → Reach client cfg sc debug ccfg s t → IsOrdered s → IsOrdered t
  Reach-IsOrdered here h = h
  Reach-IsOrdered (next r k) h = Step-IsOrdered k (Reach-IsOrdered r h)
