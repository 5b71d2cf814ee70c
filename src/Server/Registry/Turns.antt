-- ===== src/Server/Registry/Turns.antt =====
-- One turn of a task of tunnel-server's connections, for each phase that it may be in.
use openspoke.Common.{ℕ, ◌≡◌, ap, ◌∙◌, true, false, none, some}
use openspoke.Common.Eq.{list_eq, nat_eq}
use openspoke.Common.Dict.{remove, get, insert, contains_key}
use openspoke.Common.Channel.{Channel}
use openspoke.Common.Int.{pred_ℤ}
use openspoke.Common.Text.{Text}
use openspoke.Wire.{ServerFrame}
use openspoke.Server.Session.{new_session, close}
use openspoke.Server.Registry.{
  Entry, Hub, arrived, displacing, replacing, serving, leaving, gone, set_entry, register, act,
  advance, arrive, cleanup_session, look_up, close_other, clean,
}

advance-act :
    (h : Hub) (r : ℕ) (e : Entry) → get r h.store ≡ some e → advance r h ≡ act r e e.phase h
unfolding advance
advance-act h r e g = rw g

pub arrive-new :
    (h : Hub) (r : ℕ) (id : Text) (tx : Channel ServerFrame)
    → get r h.store ≡ none
    → arrive r id tx h ≡ set_entry r (record { session = new_session id tx; phase = arrived }) h
unfolding arrive contains_key insert
arrive-new h r id tx g = rw (g, contains_key)

pub advance_arrived :
    (h : Hub) (r old : ℕ) (e : Entry)
    → get r h.store ≡ some e
    → e.phase ≡ arrived
    → get e.session.spoke_id h.sessions ≡ some old
    → advance r h ≡ set_entry r (record e { phase = displacing old }) h
advance_arrived h r old e g p q =
    advance-act h r e g ∙ ap (λ x. act r e x h) p ∙ ap (λ o. look_up r e o h) q

pub advance_displacing :
    (h : Hub) (r old : ℕ) (e : Entry)
    → get r h.store ≡ some e
    → e.phase ≡ displacing old
    → advance r h ≡ close_other old (set_entry r (record e { phase = replacing }) h)
advance_displacing h r old e g p = advance-act h r e g ∙ ap (λ x. act r e x h) p

pub advance_replacing :
    (h : Hub) (r : ℕ) (e : Entry)
    → get r h.store ≡ some e
    → e.phase ≡ replacing
    → advance r h ≡ register r e h
advance_replacing h r e g p = advance-act h r e g ∙ ap (λ x. act r e x h) p

pub advance_serving :
    (h : Hub) (r : ℕ) (e : Entry)
    → get r h.store ≡ some e
    → e.phase ≡ serving
    → advance r h ≡ set_entry r (record { session = close e.session; phase = leaving }) h
advance_serving h r e g p = advance-act h r e g ∙ ap (λ x. act r e x h) p

-- A clean-up leaves the table alone where the registered session is another one and is open.
pub advance_leaving :
    (h : Hub) (r cur : ℕ) (e x : Entry)
    → get r h.store ≡ some e
    → e.phase ≡ leaving
    → get e.session.spoke_id h.sessions ≡ some cur
    → get cur h.store ≡ some x
    → x.session.closed ≡ false
    → advance r h ≡ set_entry r (record e { phase = gone }) h
advance_leaving h r cur e x g p q k c =
    advance-act h r e g
    ∙ ap (λ y. act r e y h) p
    ∙ ap (set_entry r (record e { phase = gone })) kept
  where
    kept : cleanup_session e.session.spoke_id h ≡ h
    kept = unfold cleanup_session in rw (q, clean, k, c)

pub advance_entering :
    (h : Hub) (r : ℕ) (e : Entry)
    → get r h.store ≡ some e
    → e.phase ≡ arrived
    → get e.session.spoke_id h.sessions ≡ none
    → advance r h ≡ register r e h
advance_entering h r e g p q =
    advance-act h r e g ∙ ap (λ x. act r e x h) p ∙ ap (λ o. look_up r e o h) q

-- A clean-up by the registered session itself, which is closed.
pub advance_leaving_own :
    (h : Hub) (r : ℕ) (e : Entry)
    → get r h.store ≡ some e
    → e.phase ≡ leaving
    → get e.session.spoke_id h.sessions ≡ some r
    → e.session.closed ≡ true
    → advance r h
      ≡ set_entry r
          (record e { phase = gone })
          (record h {
            sessions = remove e.session.spoke_id h.sessions;
            connected = pred_ℤ h.connected;
          })
advance_leaving_own h r e g p q c =
    advance-act h r e g
    ∙ ap (λ y. act r e y h) p
    ∙ ap (set_entry r (record e { phase = gone })) removed
  where
    removed : cleanup_session e.session.spoke_id h ≡ record h {
      sessions = remove e.session.spoke_id h.sessions;
      connected = pred_ℤ h.connected;
    }
    removed = unfold cleanup_session in rw (q, clean, g, c)
