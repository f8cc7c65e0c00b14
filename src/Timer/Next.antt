-- ===== src/Timer/Next.antt =====
-- src/timer.cpp: TimerManager::timeToNext.
use samurai.Prelude.{
  ℕ, ◌+◌, ◌-◌, ◌*◌, ◌/◌, ◌%◌, ◌^◌, refl, ◌<◌, ◌≤◌, ◌≡◌, sym, ◌∙◌, ◌⊎◌, inl, inr, Bool, true, false,
  not, Option, none, some, List, [], ◌∷◌, arith, Bool-cases, Option-cases, if◌then◌else◌, if_cases,
  some_cases, ltb, leb,
}
use samurai.Timer.{
  Timer, Entry, Manager, is_current, next_loop, ℤ, pos, negsuc, to_int, time_to_next,
}
use samurai.Timer.Count.{count, Heaps, count_other}
use samurai.Timer.Keep.{of_timer, IsValid}
use samurai.Timer.Process.{is_current-true, of_timer-is_current}

-- A deadline that is past counts as now.
abbrev pub not_before : ℕ → ℕ → ℕ
not_before now due = if leb due now then now else due

-- A deadline is found, and it is no later than `k`.
abbrev Within : ℕ → Option ℕ → Type 0
Within k none = ⊥
Within k (some d) = d ≤ k

stale_not : (s : Manager) (e : Entry) → is_current s e ≡ true → is_current s e ≡ false → ⊥
stale_not s e p q = let both : true ≡ false = sym p ∙ q in cc

-- What holds on each branch of the loop's body holds of its result.
next_step {κ} :
    (P : Option ℕ → Type κ) (s : Manager) (now : ℕ) (e : Entry) (es : List Entry) (best : Option ℕ)
    → (is_current s e ≡ false → P (next_loop s now es best))
    → (is_current s e ≡ true → e.due ≤ now → P (some now))
    → (is_current s e ≡ true → now < e.due → P (next_loop s now es (some e.due)))
    → ((b : ℕ) → best ≡ some b → b ≤ e.due → P (next_loop s now es best))
    → P (next_loop s now (e ∷ es) best)
unfolding next_loop
next_step P s now e es best stale past better kept = elim (Bool-cases (is_current s e)) [
  | inr other ↦ rw other (stale other)
  | inl live ↦ rw live (
      if_cases P (leb e.due now) (λ due. past live (ground (arith, due)))
        (λ later.
          let future : now < e.due = ground (arith, later) in
          some_cases P best (better live future) (λ b found.
            if_cases P (ltb e.due b) (λ _. better live future)
              (λ no_less. kept b found (ground (arith, no_less))))))
]

-- The loop gives no later deadline than the best so far.
next_best :
    (s : Manager) (now : ℕ) (es : List Entry) (best : Option ℕ) (k : ℕ)
    → now ≤ k
    → Within k best
    → Within k (next_loop s now es best)
unfolding next_loop
next_best s now [] best k low w = w
next_best s now (e ∷ es) none k low w = elim w [ ]
next_best s now (e ∷ es) (some b) k low w =
    if_cases (Within k) (not (is_current s e)) (λ _. next_best s now es (some b) k low w)
      (λ _.
        if_cases (Within k) (leb e.due now) (λ _. low)
          (λ _.
            if_cases (Within k) (ltb e.due b)
              (λ less. next_best s now es (some e.due) k low (ground (arith, less, w)))
              (λ _. next_best s now es (some b) k low w)))

-- Nor one that is later than that of a current entry.
next_first :
    (s : Manager) (now : ℕ) (es : List Entry) (best : Option ℕ) (k : ℕ) (p : Entry → Bool)
    → ((e : Entry) → p e ≡ true → (is_current s e ≡ true) × (e.due ≡ k))
    → 0 < count p es
    → Within (not_before now k) (next_loop s now es best)
next_first s now [] best k p fits some_p = absurd (omega arith)
next_first s now (e ∷ es) best k p fits some_p = elim (Bool-cases (p e)) [
  | inl here ↦
      let fit = fits e here in
      let low : now ≤ not_before now k = ground arith in
      let high : e.due ≤ not_before now k = ground (arith, fit.1) in
      next_step (Within (not_before now k)) s now e es best
        (λ stale. absurd (stale_not s e fit.0 stale)) (λ _ _. low)
        (λ _ _. next_best s now es (some e.due) _ low high)
        (λ b found less. next_best s now es best _ low (rw found (omega arith)))
  | inr other ↦
      let more : 0 < count p es = omega (arith, count_other p e other) in
      next_step (Within (not_before now k)) s now e es best
        (λ _. next_first s now es best k p fits more) (λ _ _. ground arith)
        (λ _ _. next_first s now es (some e.due) k p fits more)
        (λ _ _ _. next_first s now es best k p fits more)
]

-- A deadline that is found is that of a current entry, or the best so far.
abbrev Found : Manager → ℕ → Option ℕ → Option ℕ → Type 0
Found s now best r =
    (d : ℕ)
    → r ≡ some d
    → (best ≡ some d) ⊎ ((e : Entry) × (is_current s e ≡ true) × (not_before now e.due ≡ d))

next-Found :
    (s : Manager) (now : ℕ) (es : List Entry) (best : Option ℕ)
    → Found s now best (next_loop s now es best)
next-Found s now [] best = unfold next_loop in λ d h. inl h
next-Found s now (e ∷ es) best =
    next_step (Found s now best) s now e es best (λ _. next-Found s now es best)
      (λ live due d same. inr (e, live, ground (arith, due, same)))
      (λ live later d same. elim (next-Found s now es (some e.due) d same) [
        | inl own ↦ inr (e, live, ground (arith, later, own))
        | inr other ↦ inr other
      ])
      (λ _ _ _. next-Found s now es best)

-- What timeToNext must return: -1 if no timer is live, and otherwise the fewest milliseconds after
-- which one of them is due.
abbrev pub Awaits : Manager → ℕ → ℤ → Type 0
Awaits s now (negsuc k) = (k ≡ 0) × ((a : ℕ) → s.live a ≡ true → ⊥)
Awaits s now (pos ms) =
    ((a : ℕ) (t : Timer)
      → s.live a ≡ true
      → s.memory a ≡ some t
      → (ms ≡ 0) ⊎ (now + (ms - 1) * 1000000 < t.due))
    × ((a : ℕ) × (t : Timer) × (s.live a ≡ true)
        × (s.memory a ≡ some t)
        × (t.due ≤ now + ms * 1000000))

-- No live timer is due more than INT_MAX milliseconds from now.
abbrev pub AreNear : Manager → ℕ → Type 0
AreNear s now =
    (a : ℕ) (t : Timer)
    → s.live a ≡ true
    → s.memory a ≡ some t
    → t.due ≤ now + (2 ^ 31 - 1) * 1000000

to_int-near :
    (now d due : ℕ)
    → not_before now due ≡ d
    → due ≤ now + (2 ^ 31 - 1) * 1000000
    → to_int ((d - now + 999999) / 1000000) ≡ pos ((d - now + 999999) / 1000000)
unfolding to_int
to_int-near now d due h near =
    let ms = (d - now + 999999) / 1000000 in
    let early : d ≤ now + (2 ^ 31 - 1) * 1000000 = ground (arith, h, near) in
    let small : ms < 2 ^ 31 = omega (arith, early) in
    let same : ms % 2 ^ 32 ≡ ms = omega (arith, small) in
    let fits : ltb ms (2 ^ 31) ≡ true = ground (arith, small) in rw (same, fits) refl

shortest :
    (now d due : ℕ)
    → d ≤ not_before now due
    → ((d - now + 999999) / 1000000 ≡ 0)
      ⊎ (now + ((d - now + 999999) / 1000000 - 1) * 1000000 < due)
shortest now d due h = elim (Bool-cases (ltb now d)) [
  | inl later ↦ inr (ground (arith, later, h))
  | inr past ↦ inl (ground (arith, past))
]

long_enough :
    (now d due : ℕ) → not_before now due ≡ d → due ≤ now + (d - now + 999999) / 1000000 * 1000000
long_enough now d due h = elim (Bool-cases (leb due now)) [
  | inl past ↦ ground (arith, past)
  | inr later ↦ ground (arith, later, h)
]

module _ {push_heap pop_heap : List Entry → List Entry} (h : Heaps push_heap pop_heap) where
  -- A deadline is found for each live timer.
  live_found :
      (s : Manager) (now a : ℕ) (t : Timer)
      → IsValid h [] s
      → s.live a ≡ true
      → s.memory a ≡ some t
      → Within (not_before now t.due) (next_loop s now s.heap none)
  live_found s now a t v l m =
      next_first s now s.heap none t.due (of_timer a t)
        (λ e made. (of_timer-is_current s a t e l m made, ground (arith, made)))
        (omega (arith, v.scheduled a t l m))

  -- On a valid manager, when no live timer is due more than 2^31 - 1 milliseconds from now,
  -- timeToNext is -1 only if no timer is live; otherwise a live timer is due after the milliseconds
  -- that it returns, and, unless they are 0, no live timer is due one millisecond before.
  pub time_to_next-Awaits :
      (s : Manager) (now : ℕ) → IsValid h [] s → AreNear s now → Awaits s now (time_to_next s now)
  unfolding time_to_next
  time_to_next-Awaits s now v near = elim (Option-cases (next_loop s now s.heap none)) [
    | inl nothing ↦
        rw (nothing, time_to_next)
          (refl, λ a l. let t = v.allocated a l in rw nothing at (live_found s now a t.0 v l t.1))
    | inr (d, found) ↦ elim (next-Found s now s.heap none d found) [
      | inl best ↦ cc
      | inr (e, live, due) ↦
          let t = is_current-true s e live in
          let wait = to_int-near now d e.due due (rw⁻¹ t.3 (near e.timer t.0 t.1 t.2)) in
          rw (found, time_to_next)
            (rw wait (
              (λ a t l m. shortest now d t.due (rw found at (live_found s now a t v l m))),
              (e.timer, t.0, t.1, t.2, rw t.3 (long_enough now d e.due due)),
            ))
    ]
  ]
