-- ===== src/Rate/Steady.antt =====
-- src/util/bwestimation.cpp: what the estimator reports while something is transferred each second.
use samurai.Prelude.{
  ℕ, suc, ◌+◌, ◌/◌, ◌%◌, ◌^◌, ◌≤◌, ◌<◌, ◌≡◌, refl, ◌⊎◌, inl, inr, Bool, true, false, List, [], ◌∷◌,
  arith, Bool-cases, if◌then◌else◌, ◌==◌,
}
use samurai.Rate.{RateEstimator, forget, tick, count_bytes, add_transfer, sum_log, get_bps}

-- The bytes of each second, with those of one more transfer.
abbrev pub recorded : (ℕ → ℕ) → ℕ → ℕ → ℕ → ℕ
recorded total now bytes k = if k == now then total k + bytes else total k

-- What the bucket of a remainder holds when the seconds from `start + 1` to `start + 3` are known.
abbrev slot : ℕ → (ℕ → ℕ) → ℕ → ℕ
slot start total i =
    if (start + 1) % 3 == i
    then total (start + 1)
    else if (start + 2) % 3 == i
    then total (start + 2)
    else total (start + 3)

-- The estimator whose current second is `start + 3`, with the bytes of that second and of the three
-- before it.
abbrev pub following : ℕ → (ℕ → ℕ) → RateEstimator
following start total = record {
  current = start + 3;
  last = total start;
  log = slot start total 0 ∷ slot start total 1 ∷ slot start total 2 ∷ [];
}

-- No second has so many bytes that a sum wraps.
abbrev pub AreModest : (ℕ → ℕ) → Type 0
AreModest total = (k : ℕ) → total k < 2 ^ 61

-- The remainders of three seconds in a row.
abbrev Remainders : ℕ → ℕ → ℕ → ℕ → Type 0
Remainders start i j k = ((start + 1) % 3 ≡ i) × ((start + 2) % 3 ≡ j) × ((start + 3) % 3 ≡ k)

remainder_cases :
    (start : ℕ) → Remainders start 0 1 2 ⊎ (Remainders start 1 2 0 ⊎ Remainders start 2 0 1)
remainder_cases start = elim (Bool-cases ((start + 1) % 3 == 0)) [
  | inl zero_first ↦ inl (ground (arith, zero_first))
  | inr other ↦ elim (Bool-cases ((start + 1) % 3 == 1)) [
    | inl one_first ↦ inr (inl (ground (arith, one_first)))
    | inr last ↦ inr (inr (ground (arith, other, last)))
  ]
]

-- The average of the three seconds before the current one.
pub get_bps-current :
    (start : ℕ) (total : ℕ → ℕ)
    → AreModest total
    → get_bps (start + 3) (following start total)
      ≡ (total start + total (start + 1) + total (start + 2)) / 3
unfolding get_bps sum_log
get_bps-current start total small =
    let bounds : (total start < 2 ^ 61)
        × (total (start + 1) < 2 ^ 61)
        × (total (start + 2) < 2 ^ 61) =
      (small start, small (start + 1), small (start + 2)) in
    elim (remainder_cases start) [
      | inl r ↦ rw (r.0, r.1, r.2) (ground arith)
      | inr (inl r) ↦ rw (r.0, r.1, r.2) (ground arith)
      | inr (inr r) ↦ rw (r.0, r.1, r.2) (ground arith)
    ]

-- From such an estimator, when no second has 2^61 bytes or more, getBps one to three seconds after
-- the current second is the average of the current second and the two before it, also when these
-- are not the three seconds before the call.
pub get_bps-later :
    (start now : ℕ) (total : ℕ → ℕ)
    → AreModest total
    → start + 3 < now
    → now ≤ start + 6
    → get_bps now (following start total)
      ≡ (total (start + 1) + total (start + 2) + total (start + 3)) / 3
unfolding get_bps sum_log
get_bps-later start now total small h l =
    let bounds : (total (start + 3) < 2 ^ 61)
        × (total (start + 1) < 2 ^ 61)
        × (total (start + 2) < 2 ^ 61) =
      (small (start + 3), small (start + 1), small (start + 2)) in
    elim (remainder_cases start) [
      | inl r ↦ rw (r.0, r.1) (ground arith)
      | inr (inl r) ↦ rw (r.0, r.1) (ground arith)
      | inr (inr r) ↦ rw (r.0, r.1) (ground arith)
    ]

-- A transfer in the current second.
add_same :
    (start bytes : ℕ) (total : ℕ → ℕ)
    → AreModest (recorded total (start + 3) bytes)
    → add_transfer (start + 3) bytes (following start total)
      ≡ following start (recorded total (start + 3) bytes)
unfolding add_transfer forget tick count_bytes
add_same start bytes total small = elim (remainder_cases start) [
  | inl r ↦ rw (r.0, r.1, r.2) (ground (arith, small (start + 3)))
  | inr (inl r) ↦ rw (r.0, r.1, r.2) (ground (arith, small (start + 3)))
  | inr (inr r) ↦ rw (r.0, r.1, r.2) (ground (arith, small (start + 3)))
]

-- A transfer in the next second, of which nothing is known yet.
add_next :
    (start bytes : ℕ) (total : ℕ → ℕ)
    → total (start + 4) ≡ 0
    → AreModest (recorded total (start + 4) bytes)
    → add_transfer (start + 4) bytes (following start total)
      ≡ following (start + 1) (recorded total (start + 4) bytes)
unfolding add_transfer forget tick count_bytes
add_next start bytes total new small =
    let e : start + 1 + 1 ≡ start + 2 = omega arith in
    let f : start + 1 + 2 ≡ start + 3 = omega arith in
    let g : start + 1 + 3 ≡ start + 4 = omega arith in
    elim (remainder_cases start) [
      | inl r ↦
          let last : (start + 4) % 3 ≡ 0 = omega arith in
          rw (e, f, g, r.0, r.1, r.2, last) (ground (arith, small (start + 4), new))
      | inr (inl r) ↦
          let last : (start + 4) % 3 ≡ 1 = omega arith in
          rw (e, f, g, r.0, r.1, r.2, last) (ground (arith, small (start + 4), new))
      | inr (inr r) ↦
          let last : (start + 4) % 3 ≡ 2 = omega arith in
          rw (e, f, g, r.0, r.1, r.2, last) (ground (arith, small (start + 4), new))
    ]

-- Transfers with no second left out: each is in the second of the one before, or in the next.
abbrev Transfers : Type 0
Transfers = List (Bool × ℕ)

abbrev pub seconds : Transfers → ℕ
seconds [] = 0
seconds ((true, bytes) ∷ more) = suc (seconds more)
seconds ((false, bytes) ∷ more) = seconds more

abbrev pub add_all : ℕ → Transfers → RateEstimator → RateEstimator
add_all now [] r = r
add_all now ((true, bytes) ∷ more) r = add_all (now + 1) more (add_transfer (now + 1) bytes r)
add_all now ((false, bytes) ∷ more) r = add_all now more (add_transfer now bytes r)

-- The bytes of each second after the transfers.
abbrev pub record_all : ℕ → Transfers → (ℕ → ℕ) → ℕ → ℕ
record_all now [] total = total
record_all now ((true, bytes) ∷ more) total =
    record_all (now + 1) more (recorded total (now + 1) bytes)
record_all now ((false, bytes) ∷ more) total = record_all now more (recorded total now bytes)

recorded_grows : (total : ℕ → ℕ) (now bytes k : ℕ) → total k ≤ recorded total now bytes k
recorded_grows total now bytes k = ground arith

record_all_grows :
    (now : ℕ) (more : Transfers) (total : ℕ → ℕ) (k : ℕ) → total k ≤ record_all now more total k
record_all_grows now [] total k = omega arith
record_all_grows now ((true, bytes) ∷ more) total k = omega (
  arith,
  recorded_grows total (now + 1) bytes k,
  record_all_grows (now + 1) more (recorded total (now + 1) bytes) k,
)
record_all_grows now ((false, bytes) ∷ more) total k = omega (
  arith,
  recorded_grows total now bytes k,
  record_all_grows now more (recorded total now bytes) k,
)

modest_before :
    (now : ℕ) (more : Transfers) (total : ℕ → ℕ)
    → AreModest (record_all now more total)
    → AreModest total
modest_before now more total small k = omega (arith, record_all_grows now more total k, small k)

add_all-following :
    (start : ℕ) (transfers : Transfers) (total : ℕ → ℕ)
    → ((k : ℕ) → start + 3 < k → total k ≡ 0)
    → AreModest (record_all (start + 3) transfers total)
    → add_all (start + 3) transfers (following start total)
      ≡ following (start + seconds transfers) (record_all (start + 3) transfers total)
add_all-following start [] total later small = let e : start + 0 ≡ start = omega arith in rw e refl
add_all-following start ((false, bytes) ∷ more) total later small =
    rw (add_same start bytes total (modest_before (start + 3) more _ small)) (
      add_all-following start more (recorded total (start + 3) bytes)
        (λ k h. ground (arith, later k, h)) small)
add_all-following start ((true, bytes) ∷ more) total later small =
    let e : start + 3 + 1 ≡ start + 4 = omega arith in
    let f : start + 4 ≡ start + 1 + 3 = omega arith in
    let g : start + suc (seconds more) ≡ start + 1 + seconds more = omega arith in
    let small' = rw e at small in
    rw
      (
        e,
        g,
        add_next start bytes total (later (start + 4) (omega arith))
            (modest_before (start + 4) more _ small'),
        f,
      )
      (add_all-following (start + 1) more (recorded total (start + 1 + 3) bytes)
        (λ k h. ground (arith, later k, h)) (rw f at small'))

-- From an estimator that knows the bytes of its current second and of the three before it, after
-- any transfers of which each is in the same second as the one before or in the next, and when no
-- second has 2^61 bytes or more, getBps in the second of the last transfer is the average of the
-- three seconds before that.
pub get_bps-add_all :
    (start : ℕ) (transfers : Transfers) (total : ℕ → ℕ)
    → ((k : ℕ) → start + 3 < k → total k ≡ 0)
    → AreModest (record_all (start + 3) transfers total)
    → (let last = start + seconds transfers in
        let after = record_all (start + 3) transfers total in
        get_bps (last + 3) (add_all (start + 3) transfers (following start total))
        ≡ (after last + after (last + 1) + after (last + 2)) / 3)
get_bps-add_all start transfers total later small =
    rw (add_all-following start transfers total later small)
      (get_bps-current (start + seconds transfers) (record_all (start + 3) transfers total) small)
