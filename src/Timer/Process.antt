-- ===== src/Timer/Process.antt =====
-- src/timer.cpp: TimerManager::process, for listeners that create, reset and destroy timers.
use samurai.Prelude.{
  ℕ, zero, suc, ◌+◌, ◌<◌, ◌≤◌, ◌≡◌, refl, ap, ◌⊎◌, inl, inr, Bool, true, false, not, none, some,
  List, [], ◌∷◌, arith, Bool-cases, Option-cases, if◌then◌else◌, if_cases, leb, ◌==◌,
}
use samurai.Timer.{
  Timer, Entry, Manager, last_entry, without_last, is_current, destroy, create, reset,
  internal_fire, process_entry, process_round, front_is_due, process_due,
}
use samurai.Timer.Count.{count, Heaps, count-pop, count_other, front_least}
use samurai.Timer.Keep.{
  of_timer, Concern, IsValid, destroy-IsValid, create-IsValid, reset-IsValid, rearm-IsValid,
}

-- What is known of the timer that an entry in hand is made for.

pub is_current-true :
    (s : Manager) (e : Entry)
    → is_current s e ≡ true
    → (t : Timer) × (s.live e.timer ≡ true) × (s.memory e.timer ≡ some t) × (t.due ≡ e.due)
unfolding is_current
is_current-true s e h = elim (Bool-cases (s.live e.timer)) [
  | inl alive ↦ elim (Option-cases (s.memory e.timer)) [
    | inl gone ↦ let no_entry : false ≡ true = rw (alive, gone, is_current) at h in cc
    | inr (t, there) ↦
        let test : (if not (t.serial == e.serial) then false else t.due == e.due) ≡ true =
          rw (alive, there, is_current) at h in
        (t, alive, there, ground (arith, test))
  ]
  | inr dead ↦ let no_entry : false ≡ true = rw dead at h in cc
]

-- An entry that is made for a live timer as it is now is current.

pub of_timer-is_current :
    (s : Manager) (a : ℕ) (t : Timer) (e : Entry)
    → s.live a ≡ true
    → s.memory a ≡ some t
    → of_timer a t e ≡ true
    → is_current s e ≡ true
unfolding is_current
of_timer-is_current s a t e l m h =
    let same : e.timer ≡ a = ground (arith, h) in rw (same, l, m, is_current) (ground (arith, h))

pub due_front :
    (now : ℕ) (heap : List Entry)
    → front_is_due now heap ≡ true
    → (e : Entry) × (es : List Entry) × (heap ≡ e ∷ es) × (e.due ≤ now)
unfolding front_is_due
due_front now [] h = cc
due_front now (e ∷ es) h = (e, es, refl, ground (arith, h))

Concern-entry : (e : Entry) → Concern e.timer (e ∷ [])
Concern-entry e b u other = count_other (of_timer b u) e (ground (arith, other))

module _ {push_heap pop_heap : List Entry → List Entry} (h : Heaps push_heap pop_heap) where
  -- A listener creates timers at free addresses, resets timers and destroys timers, in any order.
  pub data Performs (s : Manager) : Manager → Type 0 where
    stays : Performs s s
    creates :
        {t : Manager} (now a : ℕ) (callback : Bool) (interval : ℕ) (single_shot : Bool)
        → Performs s t
        → t.memory a ≡ none
        → Performs s (create push_heap pop_heap now a callback interval single_shot t)
    resets :
        {t : Manager} (now a : ℕ) → Performs s t → Performs s (reset push_heap pop_heap now a t)
    destroys : {t : Manager} (a : ℕ) → Performs s t → Performs s (destroy a t)

  Performs-IsValid : {s t : Manager} → Performs s t → IsValid h [] s → IsValid h [] t
  Performs-IsValid stays v = v
  Performs-IsValid (creates now a callback interval single_shot p free) v =
      create-IsValid h now a callback interval single_shot _ (Performs-IsValid p v)
  Performs-IsValid (resets now a p) v = reset-IsValid h now a _ (Performs-IsValid p v)
  Performs-IsValid (destroys a p) v = destroy-IsValid h _ a (Performs-IsValid p v)

  module _ (event_timeout : ℕ → Manager → Manager)
      (performs : (a : ℕ) (s : Manager) → Performs s (event_timeout a s)) where
    internal_fire-IsValid :
        (in_hand : List Entry) (now a : ℕ) (t : Timer) (s : Manager)
        → IsValid h in_hand s
        → Concern a in_hand
        → IsValid h [] (internal_fire push_heap pop_heap event_timeout now a t s)
    unfolding internal_fire
    internal_fire-IsValid in_hand now a t s v c =
        let armed = rearm-IsValid h in_hand now a t s v c in
        if_cases (IsValid h []) t.callback (λ _. Performs-IsValid (performs a _) armed) (λ _. armed)

    -- An entry that is not current is of no timer.
    stale-IsValid :
        (e : Entry) (s : Manager) → IsValid h (e ∷ []) s → is_current s e ≡ false → IsValid h [] s
    stale-IsValid e s v stale = record {
      is_heap = v.is_heap;
      allocated = v.allocated;
      scheduled = λ a t l m. elim (Bool-cases (of_timer a t e)) [
        | inl made ↦ let now_current = of_timer-is_current s a t e l m made in cc
        | inr other ↦ omega (arith, v.scheduled a t l m, count_other (of_timer a t) e other)
      ];
    }

    process_entry-IsValid :
        (now : ℕ) (e : Entry) (s : Manager)
        → IsValid h (e ∷ []) s
        → IsValid h [] (process_entry push_heap pop_heap event_timeout now e s)
    unfolding process_entry
    process_entry-IsValid now e s v = elim (Bool-cases (is_current s e)) [
      | inl live ↦
          let found = is_current-true s e live in
          rw (live, found.2, process_entry)
            (internal_fire-IsValid (e ∷ []) now e.timer found.0 s v (Concern-entry e))
      | inr stale ↦ rw stale (stale-IsValid e s v stale)
    ]

    -- The state with its first entry off the heap.
    popped-IsValid :
        (e : Entry) (es : List Entry) (s : Manager)
        → s.heap ≡ e ∷ es
        → IsValid h [] s
        → (last_entry (pop_heap s.heap) ≡ some e)
          × IsValid h (e ∷ []) (record s { heap = without_last (pop_heap s.heap) })
    popped-IsValid e es s there v =
        let heap = rw there at v.is_heap in
        (
          rw there (h.pop_front e es heap),
          record {
            is_heap = h.pop_IsHeap s.heap v.is_heap;
            allocated = v.allocated;
            scheduled = λ a t l m. omega (arith, v.scheduled a t l m, rest (of_timer a t) heap);
          },
        )
      where
        rest :
            (p : Entry → Bool)
            → h.IsHeap (e ∷ es)
            → count p (without_last (pop_heap s.heap)) + count p (e ∷ []) ≡ count p s.heap
        rest p heap = rw there (count-pop h p e es heap)

    pub process_round-IsValid :
        (now : ℕ) (e : Entry) (es : List Entry) (s : Manager)
        → s.heap ≡ e ∷ es
        → IsValid h [] s
        → IsValid h [] (process_round push_heap pop_heap event_timeout now s)
    unfolding process_round
    process_round-IsValid now e es s there v =
        let popped = popped-IsValid e es s there v in
        rw (popped.0, process_round) (process_entry-IsValid now e _ popped.1)
        -- A round drops an entry, or fires a timer that is live and due.

    -- A round of `process` on a valid manager whose first entry is due takes an entry off the heap,
    -- and then either does nothing more, or fires a timer that is live, stands in memory and is
    -- due.
    pub process_round_lem :
        (now : ℕ) (s : Manager)
        → IsValid h [] s
        → front_is_due now s.heap ≡ true
        → (process_round push_heap pop_heap event_timeout now s
            ≡ record s { heap = without_last (pop_heap s.heap) })
          ⊎ ((a : ℕ) × (t : Timer) × (s.live a ≡ true)
              × (s.memory a ≡ some t)
              × (t.due ≤ now)
              × (process_round push_heap pop_heap event_timeout now s
                  ≡ internal_fire push_heap pop_heap event_timeout now a t
                      (record s { heap = without_last (pop_heap s.heap) })))
    unfolding process_round process_entry
    process_round_lem now s v due =
        let first = due_front now s.heap due in
        let e = first.0 in
        let rest : Manager = record s { heap = without_last (pop_heap s.heap) } in
        let popped = popped-IsValid e first.1 s first.2 v in
        elim (Bool-cases (is_current rest e)) [
          | inl fires ↦
              let t = is_current-true rest e fires in
              inr (
                e.timer,
                t.0,
                t.1,
                t.2,
                omega (arith, t.3, first.3),
                rw (popped.0, process_round, fires, t.2) refl,
              )
          | inr stale ↦ inl (rw (popped.0, process_round, stale) refl)
        ]

    -- The state is valid, and no live timer in it is due.
    pub record IsSettled (now : ℕ) (s : Manager) : Type 0 where
      pub valid : IsValid h [] s
      pub later : (a : ℕ) (t : Timer) → s.live a ≡ true → s.memory a ≡ some t → now < t.due

    nothing_due :
        (now : ℕ) (s : Manager) (heap : List Entry)
        → s.heap ≡ heap
        → front_is_due now heap ≡ false
        → IsValid h [] s
        → IsSettled now s
    unfolding front_is_due
    nothing_due now s [] there e v = record {
      valid = v;
      later = λ a t l m.
          let none_there = ap (count (of_timer a t)) there in
          absurd (omega (arith, v.scheduled a t l m, none_there));
    }
    nothing_due now s (e ∷ es) there later v = record {
      valid = v;
      later = λ a t l m. elim (Bool-cases (leb t.due now)) [
        | inl due ↦
            let there_too = ap (count (of_timer a t)) there in
            absurd (
              front_least e es (of_timer a t) (h.front_first e es (rw there at v.is_heap))
                (omega (arith, v.scheduled a t l m, there_too))
                (λ x made. ground (arith, made, due, later)))
        | inr future ↦ ground (arith, future)
      ];
    }

    -- When `process` returns, the manager is valid and no live timer is due, whatever the listeners
    -- did.
    pub process_due-IsSettled :
        (fuel now : ℕ) (s t : Manager)
        → IsValid h [] s
        → process_due push_heap pop_heap event_timeout fuel now s ≡ some t
        → IsSettled now t
    unfolding process_due
    process_due-IsSettled zero now s t v e = cc
    process_due-IsSettled (suc fuel) now s t v e = elim (Bool-cases (front_is_due now s.heap)) [
      | inl due ↦
          let first = due_front now s.heap due in
          let after_round = process_round-IsValid now first.0 first.1 s first.2 v in
          process_due-IsSettled fuel now (process_round push_heap pop_heap event_timeout now s) t
            after_round (rw due at e)
      | inr done ↦
          let same : some s ≡ some t = rw done at e in
          let here : s ≡ t = cc in rw (← here) (nothing_due now s s.heap refl done v)
    ]
