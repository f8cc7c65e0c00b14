-- ===== src/Timer/Keep.antt =====
-- src/timer.cpp: no live timer is forgotten. The invariant of the manager, and what the operations
-- on one timer do to it.
use samurai.Prelude.{
  ℕ, ◌+◌, ◌<◌, ◌≡◌, refl, sym, ◌∙◌, inl, inr, Bool, true, false, ◌&&◌, some, List, [], arith,
  Bool-cases, if_cases, some_cases, ◌==◌,
}
use samurai.Timer.{
  Timer, Entry, Manager, put_at, remove, destroy, schedule, create, restart, reset, rearm,
}
use samurai.Timer.Count.{count, Heaps, count-push, count_one}

-- The entries that were made for a timer as it is now.
abbrev pub of_timer : ℕ → Timer → Entry → Bool
of_timer a t e = e.timer == a && (e.serial == t.serial && e.due == t.due)

-- The entries say nothing of other timers than the one at `a`.
abbrev pub Concern : ℕ → List Entry → Type 0
Concern a es = (b : ℕ) (u : Timer) → (b == a) ≡ false → count (of_timer b u) es ≡ 0

-- The entry that `schedule` makes.
abbrev entry_of : ℕ → Timer → Entry
entry_of a t = record { due = t.due; timer = a; serial = t.serial }

of_timer_made :
    (a b : ℕ) (t u : Timer) → (b == a) ≡ true → some t ≡ some u → of_timer b u (entry_of a t) ≡ true
of_timer_made a b t u here same = let e : t ≡ u = cc in rw (← e) (ground (arith, here))

module _ {push_heap pop_heap : List Entry → List Entry} (h : Heaps push_heap pop_heap) where
  -- Every live timer stands in memory, and has an entry in the heap or among those in hand.
  pub record IsValid (in_hand : List Entry) (s : Manager) : Type 0 where
    pub is_heap : h.IsHeap s.heap
    pub allocated : (a : ℕ) → s.live a ≡ true → (t : Timer) × (s.memory a ≡ some t)
    pub scheduled :
        (a : ℕ) (t : Timer)
        → s.live a ≡ true
        → s.memory a ≡ some t
        → 0 < count (of_timer a t) s.heap + count (of_timer a t) in_hand

  -- The timer at `a` is put in place and scheduled; the other timers are as they were.
  placed-IsValid :
      (in_hand : List Entry) (s : Manager) (a n : ℕ) (t : Timer) (live : ℕ → Bool)
      → IsValid in_hand s
      → Concern a in_hand
      → ((b : ℕ) → (b == a) ≡ false → live b ≡ s.live b)
      → IsValid [] (
          schedule push_heap pop_heap a t
            (record s { memory = put_at s.memory a (some t); live = live; counter = n }))
  unfolding schedule
  placed-IsValid in_hand s a n t live v c same = record {
    is_heap = h.push_IsHeap s.heap _ v.is_heap;
    allocated = λ b l. elim (Bool-cases (b == a)) [
      | inl here ↦ (t, rw here refl)
      | inr other ↦ let old = v.allocated b (sym (same b other) ∙ l) in (old.0, rw other old.1)
    ];
    scheduled = λ b u l m. elim (Bool-cases (b == a)) [
      | inl here ↦
          let moved : some t ≡ some u = rw here at m in
          let made = entry_of a t in
          let fits : of_timer b u made ≡ true = of_timer_made a b t u here moved in
          omega (arith, count-push h (of_timer b u) s.heap made, count_one (of_timer b u) made fits)
      | inr other ↦
          let stood : s.memory b ≡ some u = rw other at m in
          let before = v.scheduled b u (sym (same b other) ∙ l) stood in
          omega (arith, before, c b u other, count-push h (of_timer b u) s.heap (entry_of a t))
    ];
  }

  -- A timer that is no longer live is not missed.
  remove-IsValid :
      (in_hand : List Entry) (s : Manager) (a : ℕ)
      → IsValid in_hand s
      → Concern a in_hand
      → IsValid [] (remove a s)
  unfolding remove
  remove-IsValid in_hand s a v c = record {
    is_heap = v.is_heap;
    allocated = λ b l. elim (Bool-cases (b == a)) [
      | inl here ↦ let dead : false ≡ true = rw here at l in cc
      | inr other ↦ v.allocated b (rw other at l)
    ];
    scheduled = λ b u l m. elim (Bool-cases (b == a)) [
      | inl here ↦ let dead : false ≡ true = rw here at l in cc
      | inr other ↦ omega (arith, v.scheduled b u (rw other at l) m, c b u other)
    ];
  }

  pub destroy-IsValid : (s : Manager) (a : ℕ) → IsValid [] s → IsValid [] (destroy a s)
  unfolding destroy remove
  destroy-IsValid s a v =
      let removed = remove-IsValid [] s a v (λ b u e. refl) in
      record {
        is_heap = v.is_heap;
        allocated = λ b l. elim (Bool-cases (b == a)) [
          | inl here ↦ let dead : false ≡ true = rw here at l in cc
          | inr other ↦ let old = removed.allocated b l in (old.0, rw other old.1)
        ];
        scheduled = λ b u l m. elim (Bool-cases (b == a)) [
          | inl here ↦ let dead : false ≡ true = rw here at l in cc
          | inr other ↦ removed.scheduled b u l (rw other at m)
        ];
      }

  pub create-IsValid :
      (now a : ℕ) (callback : Bool) (interval : ℕ) (single_shot : Bool) (s : Manager)
      → IsValid [] s
      → IsValid [] (create push_heap pop_heap now a callback interval single_shot s)
  unfolding create
  create-IsValid now a callback interval single_shot s v =
      placed-IsValid [] s a (s.counter + 1) _ (put_at s.live a true) v (λ b u e. refl)
        (λ b other. rw other refl)

  restart-IsValid :
      (in_hand : List Entry) (now a : ℕ) (t : Timer) (s : Manager)
      → IsValid in_hand s
      → Concern a in_hand
      → IsValid [] (restart push_heap pop_heap now a t s)
  unfolding restart
  restart-IsValid in_hand now a t s v c =
      placed-IsValid in_hand s a s.counter (record t { due = now + t.interval }) s.live v c
        (λ b other. refl)

  pub reset-IsValid :
      (now a : ℕ) (s : Manager) → IsValid [] s → IsValid [] (reset push_heap pop_heap now a s)
  unfolding reset
  reset-IsValid now a s v =
      some_cases (IsValid []) (s.memory a) v (λ t m. restart-IsValid [] now a t s v (λ b u e. refl))

  pub rearm-IsValid :
      (in_hand : List Entry) (now a : ℕ) (t : Timer) (s : Manager)
      → IsValid in_hand s
      → Concern a in_hand
      → IsValid [] (rearm push_heap pop_heap now a t s)
  unfolding rearm
  rearm-IsValid in_hand now a t s v c =
      if_cases (IsValid []) t.single_shot (λ _. remove-IsValid in_hand s a v c)
        (λ _. restart-IsValid in_hand now a t s v c)
