-- ===== src/Tunnel/StreamIds.antt =====
-- The ids of the two sides share the 64-bit range.
use openspoke.Common.{ℕ, zero, suc, ◌+◌, ◌^◌, ◌≤◌, ◌<◌, ◌≡◌, List, [], ◌∷◌, All, arith}
use openspoke.Server.Stream.{fetch_sid}
use openspoke.Client.Proxy.{new_shared, next_stream_id}

-- The ids of `n` accepted connections, the counter standing at `last`.
pub server_ids : ℕ → ℕ → List ℕ
server_ids zero last = []
server_ids (suc n) last = fetch_sid last ∷ server_ids n (fetch_sid last)

-- The ids of `n` proxied requests, the counter standing at `next`.
pub client_ids : ℕ → ℕ → List ℕ
client_ids zero next = []
client_ids (suc n) next = next ∷ client_ids n (next_stream_id next)

fetch_sid-eq : (n : ℕ) → n + 1 < 2 ^ 64 → fetch_sid n ≡ n + 1
unfolding fetch_sid
fetch_sid-eq n h = omega arith

next_stream_id-eq : (n : ℕ) → n + 1 < 2 ^ 64 → next_stream_id n ≡ n + 1
unfolding next_stream_id
next_stream_id-eq n h = omega arith

abbrev IsTcp : ℕ → Type 0
IsTcp a = (0 < a) × (a < 2 ^ 63)

abbrev IsHttp : ℕ → Type 0
IsHttp a = (2 ^ 63 ≤ a) × (a < 2 ^ 64)

server_ids-All : (n last : ℕ) → last + n < 2 ^ 63 → All IsTcp (server_ids n last)
unfolding server_ids
server_ids-All zero last h = tt
server_ids-All (suc n) last h =
    let e = fetch_sid-eq last (omega arith) in
    (omega (arith, e), server_ids-All n (fetch_sid last) (omega (arith, e)))

client_ids-All : (n next : ℕ) → 2 ^ 63 ≤ next → next + n < 2 ^ 64 → All IsHttp (client_ids n next)
unfolding client_ids
client_ids-All zero next l h = tt
client_ids-All (suc n) next l h =
    let e = next_stream_id-eq next (omega arith) in
    (omega arith, client_ids-All n (next_stream_id next) (omega (arith, e)) (omega (arith, e)))

-- Over fewer than 2^63 connections and fewer than 2^63 requests, the hub's stream ids lie between 1
-- and 2^63 - 1 and the spoke's between 2^63 and 2^64 - 1, so none of one side is one of the other,
-- and none is the 0 of control frames.
pub stream_ids_apart :
    (n m : ℕ)
    → n < 2 ^ 63
    → m < 2 ^ 63
    → All (λ a. (0 < a) × (a < 2 ^ 63)) (server_ids n 0)
      × All (λ a. (2 ^ 63 ≤ a) × (a < 2 ^ 64)) (client_ids m new_shared.stream_id_counter)
stream_ids_apart n m h k =
    (server_ids-All n 0 (omega arith), client_ids-All m (2 ^ 63) (omega arith) (omega arith))
