-- ===== src/Server/Metrics.antt =====
-- `Metrics` of hub/images/tunnel-server/src/main.rs. A vector of metrics maps its label values to
-- a value; a label that was never touched reads 0. The `f64` of a counter is a number without
-- bound, that of a gauge an integer. The gauge of connected spokes stands with the table of sessions,
-- in Server.Registry.
pub mod Register
pub mod Labels
use openspoke.Common.{ℕ, ◌+◌, ◌≡◌, Option, none, some, List, [], if◌then◌else◌, arith}
use openspoke.Common.Eq.{◌==◌, list_eq, nat_eq}
use openspoke.Common.Dict.{Dict, get, insert, get-insert, get-insert_self}
use openspoke.Common.Int.{ℤ, pos, suc_ℤ, pred_ℤ}
use openspoke.Common.Text.{Text}

abbrev pub Labels : Type 0
Labels = List Text

pub record Metrics : Type 0 where
  pub streams_open : Dict Labels ℤ
  pub bytes_sent : Dict Labels ℕ
  pub bytes_recv : Dict Labels ℕ
  pub handshake_fail : Dict Labels ℕ
  pub http_requests : Dict Labels ℕ

abbrev pub new_metrics : Metrics
new_metrics = record {
  streams_open = [];
  bytes_sent = [];
  bytes_recv = [];
  handshake_fail = [];
  http_requests = [];
}

abbrev pub count_or_zero : Option ℕ → ℕ
count_or_zero none = 0
count_or_zero (some n) = n

abbrev pub gauge_or_zero : Option ℤ → ℤ
gauge_or_zero none = pos 0
gauge_or_zero (some a) = a

-- What a scrape shows.
unfoldable pub count : Labels → Dict Labels ℕ → ℕ
count l m = count_or_zero (get l m)

unfoldable pub gauge : Labels → Dict Labels ℤ → ℤ
gauge l m = gauge_or_zero (get l m)

-- `with_label_values(l).inc_by(n)`.
unfoldable pub inc_by : Labels → ℕ → Dict Labels ℕ → Dict Labels ℕ
unfolding count
inc_by l n m = insert l (count l m + n) m

-- `with_label_values(l).inc()` and `.dec()` of a gauge.
unfoldable pub gauge_inc : Labels → Dict Labels ℤ → Dict Labels ℤ
unfolding gauge
gauge_inc l m = insert l (suc_ℤ (gauge l m)) m

unfoldable pub gauge_dec : Labels → Dict Labels ℤ → Dict Labels ℤ
unfolding gauge
gauge_dec l m = insert l (pred_ℤ (gauge l m)) m

count-inc_by :
    (l k : Labels) (n : ℕ) (m : Dict Labels ℕ)
    → count k (inc_by l n m) ≡ (if l == k then count l m + n else count k m)
unfolding count inc_by
count-inc_by l k n m = ground (arith, get-insert l k (count_or_zero (get l m) + n) m)

pub gauge-gauge_inc : (l : Labels) (m : Dict Labels ℤ) → gauge l (gauge_inc l m) ≡ suc_ℤ (gauge l m)
unfolding gauge gauge_inc
gauge-gauge_inc l m = rw (get-insert_self l (suc_ℤ (gauge_or_zero (get l m))) m)

pub gauge-gauge_dec :
    (l : Labels) (m : Dict Labels ℤ) → gauge l (gauge_dec l m) ≡ pred_ℤ (gauge l m)
unfolding gauge gauge_dec
gauge-gauge_dec l m = rw (get-insert_self l (pred_ℤ (gauge_or_zero (get l m))) m)
