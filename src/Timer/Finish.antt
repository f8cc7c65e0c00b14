-- ===== src/Timer/Finish.antt =====
-- src/timer.cpp: TimerManager::process returns.
use samurai.Prelude.{
  ℕ, zero, suc, ◌+◌, ◌<◌, ◌≤◌, ◌≡◌, refl, inl, inr, Bool, not, some, List, [], ◌∷◌, arith,
  Bool-cases, if_cases, some_cases, leb, ◌==◌,
}
use samurai.Timer.{
  Timer, Entry, Manager, last_entry, without_last, is_current, remove, schedule, restart, rearm,
  internal_fire, process_entry, process_round, front_is_due, process_due,
}
use samurai.Timer.Count.{count, Heaps, count-push, count-pop, count_one, count_other}
use samurai.Timer.Keep.{IsValid}
use samurai.Timer.Process.{
  due_front, Performs, process_round-IsValid, IsSettled, process_due-IsSettled,
}

abbrev pub is_due : ℕ → Entry → Bool
is_due now e = leb e.due now

-- How many entries of the heap are due.
abbrev pub due_entries : ℕ → Manager → ℕ
due_entries now s = count (is_due now) s.heap

-- No timer has an interval of zero.
abbrev pub ArePositive : Manager → Type 0
ArePositive s = (a : ℕ) (t : Timer) → s.memory a ≡ some t → 0 < t.interval

-- No more entries are due than before, and the intervals are positive.
abbrev NoneAdded : ℕ → Manager → Manager → Type 0
NoneAdded now s u = (due_entries now u ≤ due_entries now s) × ArePositive u

module _ {push_heap pop_heap : List Entry → List Entry} (h : Heaps push_heap pop_heap) where
  -- A timer that is armed again is not due.
  restart_later :
      (now a : ℕ) (t : Timer) (s : Manager)
      → 0 < t.interval
      → ArePositive s
      → NoneAdded now s (restart push_heap pop_heap now a t s)
  unfolding restart schedule
  restart_later now a t s some_time p =
      let made : Entry = record { due = now + t.interval; timer = a; serial = t.serial } in
      (
        omega (
          arith,
          count-push h (is_due now) s.heap made,
          count_other (is_due now) made (ground (arith, some_time)),
        ),
        λ b u m. elim (Bool-cases (b == a)) [
          | inl here ↦
              let moved : some (record t { due = now + t.interval }) ≡ some u = rw here at m in
              let same : t.interval ≡ u.interval = cc in omega arith
          | inr other ↦ p b u (rw other at m)
        ],
      )

  rearm_later :
      (now a : ℕ) (t : Timer) (s : Manager)
      → 0 < t.interval
      → ArePositive s
      → NoneAdded now s (rearm push_heap pop_heap now a t s)
  unfolding rearm remove
  rearm_later now a t s some_time p =
      if_cases (NoneAdded now s) t.single_shot (λ _. (omega arith, p))
        (λ _. restart_later now a t s some_time p)

  module _ (event_timeout : ℕ → Manager → Manager)
      (performs : (a : ℕ) (s : Manager) → Performs h s (event_timeout a s)) (now : ℕ)
      (not_due : (a : ℕ) (s : Manager) → due_entries now (event_timeout a s) ≤ due_entries now s)
      (positive : (a : ℕ) (s : Manager) → ArePositive s → ArePositive (event_timeout a s)) where
    process_entry_later :
        (e : Entry) (s : Manager)
        → ArePositive s
        → NoneAdded now s (process_entry push_heap pop_heap event_timeout now e s)
    unfolding process_entry internal_fire
    process_entry_later e s p =
        if_cases (NoneAdded now s) (not (is_current s e)) (λ _. (omega arith, p))
          (λ _.
            some_cases (NoneAdded now s) (s.memory e.timer) (omega arith, p)
              (λ t there.
                let armed = rearm_later now e.timer t s (p e.timer t there) p in
                if_cases (NoneAdded now s) t.callback
                  (λ _. (
                    omega (
                      arith,
                      armed.0,
                      not_due e.timer (rearm push_heap pop_heap now e.timer t s),
                    ),
                    positive e.timer _ armed.1,
                  ))
                  (λ _. armed)))

    process_round_later :
        (e : Entry) (es : List Entry) (s : Manager)
        → s.heap ≡ e ∷ es
        → e.due ≤ now
        → IsValid h [] s
        → ArePositive s
        → (due_entries now (process_round push_heap pop_heap event_timeout now s)
            < due_entries now s)
          × ArePositive (process_round push_heap pop_heap event_timeout now s)
    unfolding process_round
    process_round_later e es s there due v p =
        let heap = rw there at v.is_heap in
        let first : last_entry (pop_heap s.heap) ≡ some e = rw there (h.pop_front e es heap) in
        let rest : Manager = record s { heap = without_last (pop_heap s.heap) } in
        let fewer : due_entries now rest < due_entries now s =
          omega
            (arith, rest_of (is_due now) heap, count_one (is_due now) e (ground (arith, due))) in
        let after = process_entry_later e rest p in
        rw (first, process_round) (omega (arith, fewer, after.0), after.1)
      where
        rest_of :
            (q : Entry → Bool)
            → h.IsHeap (e ∷ es)
            → count q (without_last (pop_heap s.heap)) + count q (e ∷ []) ≡ count q s.heap
        rest_of q heap = rw there (count-pop h q e es heap)

    loop_returns :
        (fuel : ℕ) (s : Manager)
        → IsValid h [] s
        → ArePositive s
        → due_entries now s < fuel
        → (t : Manager) × (process_due push_heap pop_heap event_timeout fuel now s ≡ some t)
    unfolding process_due
    loop_returns zero s v p enough = absurd (omega arith)
    loop_returns (suc fuel) s v p enough = elim (Bool-cases (front_is_due now s.heap)) [
      | inl due ↦
          let first = due_front now s.heap due in
          let valid =
            process_round-IsValid h event_timeout performs now first.0 first.1 s first.2 v in
          let fewer = process_round_later first.0 first.1 s first.2 first.3 v p in
          rw due (
            loop_returns fuel (process_round push_heap pop_heap event_timeout now s) valid fewer.1
              (omega (arith, fewer.0)))
      | inr done ↦ (s, rw done refl)
    ]

    -- With heap operations that obey the C++ standard, from a valid manager whose timers have
    -- positive intervals, with listeners that create, reset and destroy timers in any order, do not
    -- add to the entries that are due, and keep the intervals positive: the loop of `process`
    -- returns after at most as many rounds as entries were due, the manager is valid then, and no
    -- live timer in it is due. Valid means that every live timer stands in memory and has an entry
    -- in the heap that is current.
    pub process_due_total :
        (fuel : ℕ) (s : Manager)
        → IsValid h [] s
        → ArePositive s
        → due_entries now s < fuel
        → (t : Manager) × (process_due push_heap pop_heap event_timeout fuel now s ≡ some t)
          × IsSettled h event_timeout performs now t
    process_due_total fuel s v p enough =
        let done = loop_returns fuel s v p enough in
        (done.0, done.1, process_due-IsSettled h event_timeout performs fuel now s done.0 v done.1)
