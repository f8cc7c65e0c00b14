-- ===== src/Rate/Tests.antt =====
-- The theorems on rates at concrete transfers.
use samurai.Prelude.{ℕ, List, Bool, ◌+◌, ◌/◌, ◌≡◌, refl, true, false, [], ◌∷◌, arith}
use samurai.Rate.{new_estimator, forget, tick, count_bytes, add_transfer, sum_log, get_bps}
use samurai.Rate.Steady.{
  AreModest, following, add_all, record_all, recorded, get_bps-add_all, get_bps-later,
}

-- Nothing was transferred up to second 103.
abbrev nothing : ℕ → ℕ
nothing k = 0

-- The first transfer after a long time leaves what `following` says.
test_first : add_transfer 103 9 new_estimator ≡ following 100 (recorded nothing 103 9)
unfolding add_transfer forget tick count_bytes
test_first = refl

abbrev transfers : List (Bool × ℕ)
transfers = (false, 3) ∷ (true, 6) ∷ (true, 9) ∷ (false, 1) ∷ (true, 4) ∷ []

transfers-AreModest : AreModest (record_all 103 transfers nothing)
transfers-AreModest k = ground arith

get_bps_example :
    get_bps 106 (add_all 103 transfers (following 100 nothing))
    ≡ (record_all 103 transfers nothing 103
        + record_all 103 transfers nothing 104
        + record_all 103 transfers nothing 105)
      / 3
get_bps_example = get_bps-add_all 100 transfers nothing (λ k h. refl) transfers-AreModest

get_bps-later_example :
    get_bps 105 (following 100 nothing) ≡ (nothing 101 + nothing 102 + nothing 103) / 3
get_bps-later_example = get_bps-later 100 105 nothing (λ k. omega arith) (omega arith) (omega arith)

-- The nine bytes of second 100 count in second 104, though none came in the three seconds before it.
test_stale :
    get_bps 104 (
      add_transfer 104 3
        (add_transfer 102 0 (add_transfer 100 9 (add_transfer 10 0 new_estimator))))
    ≡ 3
unfolding get_bps add_transfer forget tick count_bytes sum_log
test_stale = refl
