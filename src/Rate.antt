-- ===== src/Rate.antt =====
-- src/util/bwestimation.cpp: RateEstimator, and src/io/net/bandwidth.cpp: BandwidthManager. The time
-- is an argument: seconds, from no earlier than the epoch. A size_t wraps.
pub mod Steady
mod Tests
use samurai.Prelude.{ℕ, ◌+◌, ◌/◌, ◌%◌, List, [], ◌∷◌, if◌then◌else◌, get_or, set, ltb, ◌==◌, wrap}

pub record RateEstimator : Type 0 where
  pub current : ℕ
  pub last : ℕ
  pub log : List ℕ

abbrev pub bandwidth_estimation_timeout : ℕ
bandwidth_estimation_timeout = 3

abbrev pub new_estimator : RateEstimator
new_estimator = record { current = 0; last = 0; log = 0 ∷ 0 ∷ 0 ∷ [] }

-- The bucket of a second.
abbrev pub bucket : RateEstimator → ℕ → ℕ
bucket r now = get_or r.log (now % 3) 0

-- The first test of `add`: everything is too old.
unfoldable pub forget : ℕ → RateEstimator → RateEstimator
forget now r =
    if ltb (r.current + bandwidth_estimation_timeout) now
    then record r { log = 0 ∷ 0 ∷ 0 ∷ [] }
    else r

-- The second test: a new second begins.
unfoldable pub tick : ℕ → RateEstimator → RateEstimator
tick now r =
    if now == r.current
    then r
    else record { current = now; last = bucket r now; log = set r.log (now % 3) 0 }

unfoldable pub count_bytes : ℕ → RateEstimator → RateEstimator
count_bytes bytes r = record r {
  log = set r.log (r.current % 3) (wrap (bucket r r.current + bytes));
}

unfoldable pub add_transfer : ℕ → ℕ → RateEstimator → RateEstimator
add_transfer now bytes r = count_bytes bytes (tick now (forget now r))

unfoldable pub sum_log : List ℕ → ℕ → ℕ
sum_log [] bps = bps
sum_log (total ∷ log) bps = sum_log log (wrap (bps + total))

unfoldable pub get_bps : ℕ → RateEstimator → ℕ
get_bps now r =
    if ltb (r.current + bandwidth_estimation_timeout) now
    then 0
    else if now == r.current
    then wrap (sum_log (set r.log (now % 3) 0) 0 + r.last) / bandwidth_estimation_timeout
    else sum_log r.log 0 / bandwidth_estimation_timeout

pub record BandwidthManager : Type 0 where
  pub count_accepted : ℕ
  pub count_connected : ℕ
  pub count_errors : ℕ
  pub data_tcp_tx : ℕ
  pub data_tcp_rx : ℕ
  pub data_udp_tx : ℕ
  pub data_udp_rx : ℕ
  pub rate_peak : ℕ
  pub estimator_send : RateEstimator
  pub estimator_recv : RateEstimator

unfoldable pub data_send_tcp : ℕ → ℕ → BandwidthManager → BandwidthManager
data_send_tcp now bytes m = record m {
  data_tcp_tx = wrap (m.data_tcp_tx + bytes);
  estimator_send = add_transfer now bytes m.estimator_send;
}

unfoldable pub data_send_udp : ℕ → ℕ → BandwidthManager → BandwidthManager
data_send_udp now bytes m = record m {
  data_udp_tx = wrap (m.data_udp_tx + bytes);
  estimator_send = add_transfer now bytes m.estimator_send;
}

unfoldable pub data_recv_tcp : ℕ → ℕ → BandwidthManager → BandwidthManager
data_recv_tcp now bytes m = record m {
  data_tcp_rx = wrap (m.data_tcp_rx + bytes);
  estimator_recv = add_transfer now bytes m.estimator_recv;
}

unfoldable pub data_recv_udp : ℕ → ℕ → BandwidthManager → BandwidthManager
data_recv_udp now bytes m = record m {
  data_udp_rx = wrap (m.data_udp_rx + bytes);
  estimator_recv = add_transfer now bytes m.estimator_recv;
}

unfoldable pub accept : BandwidthManager → BandwidthManager
accept m = record m { count_accepted = wrap (m.count_accepted + 1) }

unfoldable pub connected : BandwidthManager → BandwidthManager
connected m = record m { count_connected = wrap (m.count_connected + 1) }

unfoldable pub count_error : BandwidthManager → BandwidthManager
count_error m = record m { count_errors = wrap (m.count_errors + 1) }

unfoldable pub get_send_bps : ℕ → BandwidthManager → ℕ
get_send_bps now m = get_bps now m.estimator_send

unfoldable pub get_recv_bps : ℕ → BandwidthManager → ℕ
get_recv_bps now m = get_bps now m.estimator_recv
