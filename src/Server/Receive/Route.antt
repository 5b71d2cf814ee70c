-- ===== src/Server/Receive/Route.antt =====
-- Where a frame from the spoke goes.
use openspoke.Server.Metrics.{count, inc_by}
use openspoke.Common.{
  ℕ, ◌≡◌, refl, inl, inr, true, Option, none, some, [], ◌∷◌, ◌++◌, arith, length, if◌then◌else◌,
  Bool-cases, Option-cases, ap, ◌∙◌, ◌+◌,
}
use openspoke.Common.Eq.{list_eq, nat_eq, ◌==◌}
use openspoke.Common.Dict.{get, contains_key, get-insert, get-remove, get-insert_self}
use openspoke.Common.Channel.{Channel, send}
use openspoke.Wire.{Bytes}
use openspoke.Server.Session.{Conn}
use openspoke.Server.Receive.{on_data, drop_stream, to_writer, count_recv}

-- What becomes of the writer that data is for: it is handed the bytes at the end of what it had,
-- or, if its channel has closed, it is dropped.
abbrev pub after_data : Bytes → Option (Channel Bytes) → Option (Channel Bytes)
after_data p none = none
after_data p (some w) =
    if w.is_open then some (record { sent = w.sent ++ p ∷ []; is_open = true }) else none

pub get-drop_stream :
    (sid j : ℕ) (c : Conn)
    → get j (drop_stream sid c).session.streams
      ≡ (if sid == j then none else get j c.session.streams)
unfolding drop_stream contains_key
get-drop_stream sid j c =
    ground (arith, get-remove sid j c.session.streams, Option-cases (get sid c.session.streams))

get-to_writer :
    (sid j : ℕ) (p : Bytes) (o : Option (Channel Bytes)) (c : Conn)
    → get sid c.session.streams ≡ o
    → get j (to_writer sid p o c).session.streams
      ≡ (if sid == j then after_data p o else get j c.session.streams)
unfolding send
get-to_writer sid j p none c e = ground arith
get-to_writer sid j p (some w) c e = elim (Bool-cases w.is_open) [
  | inl t ↦
      rw
        (t, get-insert sid j (record { sent = w.sent ++ p ∷ []; is_open = true }) c.session.streams)
  | inr t ↦ rw t (get-drop_stream sid j (count_recv (length p) c))
]

-- The writers after data from the spoke.
pub get-on_data :
    (sid j : ℕ) (p : Bytes) (c : Conn)
    → get j (on_data sid p c).session.streams
      ≡ (if sid == j then after_data p (get sid c.session.streams) else get j c.session.streams)
unfolding on_data
get-on_data sid j p c = get-to_writer sid j p (get sid c.session.streams) c refl

drop_stream-bytes_recv :
    (sid : ℕ) (c : Conn) → (drop_stream sid c).metrics.bytes_recv ≡ c.metrics.bytes_recv
unfolding drop_stream
drop_stream-bytes_recv sid c = ground arith

-- What has been counted for the session's spoke.
abbrev pub received : Conn → ℕ
received c = count (c.session.spoke_id ∷ []) c.metrics.bytes_recv

count_recv-received :
    (n : ℕ) (c : Conn)
    → count (c.session.spoke_id ∷ []) (count_recv n c).metrics.bytes_recv ≡ received c + n
unfolding count inc_by
count_recv-received n c = rw (get-insert_self (c.session.spoke_id ∷ []) _ c.metrics.bytes_recv) refl

to_writer-received :
    (sid : ℕ) (p : Bytes) (w : Channel Bytes) (c : Conn)
    → count (c.session.spoke_id ∷ []) (to_writer sid p (some w) c).metrics.bytes_recv
      ≡ received c + length p
to_writer-received sid p w c = elim (Bool-cases (send p w).1) [
  | inl t ↦ rw t (count_recv-received (length p) c)
  | inr t ↦ rw t (
      ap (count (c.session.spoke_id ∷ [])) (drop_stream-bytes_recv sid (count_recv (length p) c))
      ∙ count_recv-received (length p) c)
]

-- Data goes to the writer of its own stream, at the end of what was sent there before, and every
-- other stream's writer stays as it was; a stream whose writer has gone is dropped. The bytes are
-- counted where the stream is open, and data for one that is not changes nothing at all.
pub on_data_lem :
    (sid j : ℕ) (p : Bytes) (c : Conn)
    → let c' = on_data sid p c in
      let known = contains_key sid c.session.streams in
      (get j c'.session.streams
        ≡ (if sid == j then after_data p (get sid c.session.streams) else get j c.session.streams))
      × (count (c.session.spoke_id ∷ []) c'.metrics.bytes_recv
          ≡ (if known then received c + length p else received c))
      × ((if known then c else c') ≡ c)
unfolding on_data contains_key
on_data_lem sid j p c = (
  get-on_data sid j p c,
  elim (Option-cases (get sid c.session.streams)) [
    | inl e ↦ rw (e, contains_key) refl
    | inr (w, e) ↦ rw (e, contains_key) (to_writer-received sid p w c)
  ],
  elim (Option-cases (get sid c.session.streams)) [
    | inl e ↦ rw (e, contains_key) refl
    | inr (w, e) ↦ rw (e, contains_key) refl
  ],
)
