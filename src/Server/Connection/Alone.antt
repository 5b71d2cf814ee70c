-- ===== src/Server/Connection/Alone.antt =====
-- What a connection of tunnel-server leaves behind, where no other task has a turn meanwhile.
use openspoke.Common.{
  ℕ, ◌≡◌, ◌≢◌, refl, sym, ap, subst, ◌∙◌, Option, none, some, List, Result, ok, err,
}
use openspoke.Common.Eq.{miss, list_eq, nat_eq}
use openspoke.Common.Dict.{
  get, insert, remove, contains_key, get-insert_self, get-insert_miss, remove-insert_new,
}
use openspoke.Common.Channel.{Channel}
use openspoke.Common.Int.{pred_ℤ, pred_ℤ-suc_ℤ}
use openspoke.Common.Text.{Text}
use openspoke.Wire.{ServerFrame, ClientFrame, HandshakeResponse}
use openspoke.Server.Config.{ServerConfig, SpokeConfig}
use openspoke.Server.Metrics.{Metrics}
use openspoke.Server.Session.{SpokeSession, new_session, close}
use openspoke.Server.Handshake.{admit, Admission}
use openspoke.Server.Handshake.Auth.{IsAdmitted, IsCounted, admit_sound, admit-IsCounted}
use openspoke.Server.Http.{HttpClient}
use openspoke.Server.Stream.{Event, run}
use openspoke.Server.Stream.Identity.{run-spoke_id}
use openspoke.Server.Registry.{
  Entry, Hub, arrived, serving, leaving, gone, set_entry, register, advance,
}
use openspoke.Server.Registry.Turns.{
  arrive-new, advance_entering, advance_serving, advance_leaving_own,
}
use openspoke.Server.Listen.{bind_ports}
use openspoke.Server.Listen.Ports.{IsBlocked, bind_ports-IsBlocked}
use openspoke.Server.Connection.{
  Finished, fresh_live, enter, leave, attend, admitted, handle_connection,
}

-- The table, the gauge of connected spokes, and the sessions of all other connections.
abbrev pub IsAsBefore : ℕ → Hub → Hub → Type 0
IsAsBefore r h h' =
    (h'.sessions ≡ h.sessions)
    × (h'.connected ≡ h.connected)
    × ((k : ℕ) → k ≢ r → get k h'.store ≡ get k h.store)

module _ (r : ℕ) (id : Text) (tx : Channel ServerFrame) (h : Hub) (fresh : get r h.store ≡ none)
    (absent : get id h.sessions ≡ none) where
  newcomer : Entry
  newcomer = record { session = new_session id tx; phase = arrived }

  enter_new : enter r id tx h ≡ register r newcomer (set_entry r newcomer h)
  unfolding enter newcomer contains_key
  enter_new =
      rw (absent, contains_key)
        (ap (advance r) (arrive-new h r id tx fresh)
          ∙ advance_entering (set_entry r newcomer h) r newcomer (get-insert_self r _ h.store) refl
              absent)

  module _ (s : SpokeSession) (same : s.spoke_id ≡ id) where
    h1 : Hub
    h1 = register r newcomer (set_entry r newcomer h)

    h2 : Hub
    h2 = set_entry r (record { session = s; phase = serving }) h1

    h3 : Hub
    h3 = set_entry r (record { session = close s; phase = leaving }) h2

    found : get s.spoke_id (insert id r h.sessions) ≡ some r
    found = rw same (get-insert_self id r h.sessions)

    left :
        advance r (advance r h2)
        ≡ set_entry r
            (record { session = close s; phase = gone })
            (record h3 {
              sessions = remove s.spoke_id h3.sessions;
              connected = pred_ℤ h3.connected;
            })
    unfolding h3 h2 h1 newcomer close
    left =
        ap (advance r) (
          advance_serving h2 r (record { session = s; phase = serving }) (get-insert_self r _ _)
            refl)
        ∙ advance_leaving_own h3 r (record { session = close s; phase = leaving })
            (get-insert_self r _ _) refl found refl

    leave_new : IsAsBefore r h (leave r s (enter r id tx h))
    unfolding leave h3 h2 h1 newcomer remove
    leave_new =
        let whole = ap (leave r s) enter_new ∙ left in
        (
          ap (λ x. x.sessions) whole
              ∙ ap (λ k. remove k (insert id r h.sessions)) same
              ∙ remove-insert_new id r h.sessions absent,
          ap (λ x. x.connected) whole ∙ pred_ℤ-suc_ℤ h.connected,
          λ k other.
              let apart = miss r k other in
              ap (λ x. get k x.store) whole
              ∙ get-insert_miss r k _ _ apart
              ∙ get-insert_miss r k _ _ apart
              ∙ get-insert_miss r k _ _ apart
              ∙ get-insert_miss r k _ _ apart
              ∙ get-insert_miss r k _ _ apart,
        )

-- How the connection `r` ends: refused, without its ports, or served to the end of its stream.
pub data Ended (client : HttpClient) (cfg : ServerConfig) (bind : ℕ → Option Text)
    (tx : Channel ServerFrame) (first : Option (Result Text ClientFrame)) (es : List Event)
    (last : ℕ) (h : Hub) (m : Metrics) (r : ℕ) (f : Finished) : Type 0 where
  refused :
      (e : Text)
      → f.result ≡ err e
      → IsCounted m (err e, f.metrics)
      → f.hub ≡ h
      → f.last_sid ≡ last
      → Ended client cfg bind tx first es last h m r f
  unbound :
      (hs : HandshakeResponse) (sc : SpokeConfig) (e : Text)
      → IsAdmitted cfg first hs sc
      → IsBlocked bind sc.ports e
      → f.result ≡ err e
      → f.metrics ≡ m
      → IsAsBefore r h f.hub
      → Ended client cfg bind tx first es last h m r f
  served :
      (hs : HandshakeResponse) (sc : SpokeConfig)
      → IsAdmitted cfg first hs sc
      → (bind_ports bind sc.ports).1 ≡ none
      → f.result ≡ ok tt
      → f.metrics ≡ (run client cfg sc es (fresh_live hs.spoke_id tx m last)).conn.metrics
      → IsAsBefore r h f.hub
      → Ended client cfg bind tx first es last h m r f

module _ (client : HttpClient) (cfg : ServerConfig) (bind : ℕ → Option Text) (r : ℕ)
    (tx : Channel ServerFrame) (first : Option (Result Text ClientFrame)) (es : List Event)
    (last : ℕ) (h : Hub) (m : Metrics) (fresh : get r h.store ≡ none)
    (absent : (hs : HandshakeResponse) (sc : SpokeConfig)
      → IsAdmitted cfg first hs sc
      → get hs.spoke_id h.sessions ≡ none) where
  attend-Ended :
      (hs : HandshakeResponse) (sc : SpokeConfig) (o : Option Text)
      → IsAdmitted cfg first hs sc
      → (bind_ports bind sc.ports).1 ≡ o
      → let start = fresh_live hs.spoke_id tx m last in
        Ended client cfg bind tx first es last h m r
          (attend r o start (run client cfg sc es start) (enter r hs.spoke_id tx h))
  attend-Ended hs sc none a b =
      let start = fresh_live hs.spoke_id tx m last in
      served hs sc a b refl refl (
        leave_new r hs.spoke_id tx h fresh (absent hs sc a)
          (run client cfg sc es start).conn.session (run-spoke_id client cfg sc es start))
  attend-Ended hs sc (some e) a b =
      unbound hs sc e a (bind_ports-IsBlocked bind sc.ports e b) refl refl
        (leave_new r hs.spoke_id tx h fresh (absent hs sc a) (new_session hs.spoke_id tx) refl)

  admitted-Ended :
      (a : Admission)
      → admit cfg first m ≡ a
      → Ended client cfg bind tx first es last h m r (admitted client cfg bind r tx es last h a)
  admitted-Ended (err e, m') g =
      refused e refl (subst (IsCounted m) g (admit-IsCounted cfg first m)) refl refl
  admitted-Ended (ok (hs, sc), m') g =
      let same : m' ≡ m = subst (IsCounted m) g (admit-IsCounted cfg first m) in
      let a = admit_sound cfg m hs sc first (ap (λ (x : Admission). x.0) g) in
      subst
        (λ x.
          Ended client cfg bind tx first es last h m r
            (admitted client cfg bind r tx es last h (ok (hs, sc), x)))
        (sym same) (attend-Ended hs sc (bind_ports bind sc.ports).1 a refl)

  -- A connection under a new reference, whose spoke, if it is admitted, is not in the table, ends
  -- in one of three ways, where no other task has a turn meanwhile: it is refused with an error
  -- that raises the failures of one of four reasons by one, and touches nothing else; it is
  -- admitted, and the error names the first of its ports that cannot be opened, and why; or it is
  -- admitted and ends without an error, with the metrics that its events lead to. In the last two
  -- the table, the gauge of connected spokes and the sessions of all other connections are as
  -- before.
  pub handle_connection-Ended :
      Ended client cfg bind tx first es last h m r
        (handle_connection client cfg bind r tx first es last h m)
  unfolding handle_connection
  handle_connection-Ended = admitted-Ended (admit cfg first m) refl
