-- ===== src/Timer/Tests.antt =====
-- The theorems on timers at concrete managers.
use samurai.Prelude.{
  ℕ, ◌-◌, ◌*◌, ◌^◌, ◌≤◌, ◌≡◌, refl, ap, ◌∙◌, ◌⊎◌, Bool, true, false, none, some, List, [], ◌∷◌,
  ◌++◌, arith, inl, inr, Bool-cases, if◌then◌else◌, if_cases, ltb, leb, ◌==◌,
}
use samurai.Timer.{
  Timer, Entry, Manager, last_entry, without_last, is_current, schedule, create, internal_fire,
  process_round, front_is_due, process_due, next_loop, pos, negsuc, time_to_next,
}
use samurai.Timer.Count.{count, SameEntries, Heaps, count-append, count_mono}
use samurai.Timer.Keep.{IsValid, create-IsValid}
use samurai.Timer.Process.{stays, IsSettled, process_round_lem}
use samurai.Timer.Finish.{ArePositive, due_entries, process_due_total}
use samurai.Timer.Next.{Awaits, AreNear, time_to_next-Awaits}
use samurai.Timer.Endless.{Spins, process_due_endless}

-- A heap that is sorted.
insert : Entry → List Entry → List Entry
insert e [] = e ∷ []
insert e (x ∷ xs) = if leb e.due x.due then e ∷ x ∷ xs else x ∷ insert e xs

push_heap : List Entry → List Entry
unfolding insert
push_heap [] = []
push_heap (e ∷ es) = insert e (push_heap es)

pop_heap : List Entry → List Entry
pop_heap [] = []
pop_heap (e ∷ es) = es ++ e ∷ []

abbrev IsSorted : List Entry → Type 0
IsSorted [] = Unit
IsSorted (e ∷ es) = (count (λ x. ltb x.due e.due) es ≡ 0) × IsSorted es

count-insert :
    (p : Entry → Bool) (e : Entry) (es : List Entry) → count p (insert e es) ≡ count p (e ∷ es)
unfolding insert
count-insert p e [] = refl
count-insert p e (x ∷ xs) =
    if_cases (λ (r : List Entry). count p r ≡ count p (e ∷ x ∷ xs)) (leb e.due x.due) (λ _. refl)
      (λ _. omega (arith, count-insert p e xs))

push_same : (es : List Entry) → SameEntries (push_heap es) es
unfolding push_heap
push_same [] p = refl
push_same (e ∷ es) p = omega (arith, count-insert p e (push_heap es), push_same es p)

less_first :
    (a b : ℕ) (es : List Entry)
    → a ≤ b
    → count (λ x. ltb x.due b) es ≡ 0
    → count (λ x. ltb x.due a) es ≡ 0
less_first a b es h z = omega (
  arith,
  count_mono (λ x. ltb x.due a) (λ x. ltb x.due b) es (λ x less. ground (arith, less, h)),
  z,
)

insert-IsSorted : (e : Entry) (es : List Entry) → IsSorted es → IsSorted (insert e es)
unfolding insert
insert-IsSorted e [] s = (refl, tt)
insert-IsSorted e (x ∷ xs) s = elim (Bool-cases (leb e.due x.due)) [
  | inl first ↦
      rw first ((ground (arith, first, less_first e.due x.due xs (ground (arith, first)) s.0), s))
  | inr later ↦ rw later (
    count-insert (λ y. ltb y.due x.due) e xs ∙ ground (arith, later, s.0),
    insert-IsSorted e xs s.1,
  )
]

push-IsSorted : (es : List Entry) → IsSorted (push_heap es)
unfolding push_heap
push-IsSorted [] = tt
push-IsSorted (e ∷ es) = insert-IsSorted e (push_heap es) (push-IsSorted es)

without_last_last :
    (es : List Entry) (e : Entry)
    → (without_last (es ++ e ∷ []) ≡ es) × (last_entry (es ++ e ∷ []) ≡ some e)
unfolding without_last last_entry
without_last_last [] e = (refl, refl)
without_last_last (x ∷ []) e = (refl, refl)
without_last_last (x ∷ y ∷ ys) e =
    let rest = without_last_last (y ∷ ys) e in (ap (◌∷◌ x) rest.0, rest.1)

pop-IsSorted : (es : List Entry) → IsSorted es → IsSorted (without_last (pop_heap es))
unfolding pop_heap without_last
pop-IsSorted [] s = tt
pop-IsSorted (e ∷ es) s = rw (without_last_last es e).0 s.1

pop_same : (es : List Entry) → SameEntries (pop_heap es) es
unfolding pop_heap
pop_same [] p = refl
pop_same (e ∷ es) p = omega (arith, count-append p es (e ∷ []))

sorted_first :
    (e : Entry) (es : List Entry) → IsSorted (e ∷ es) → count (λ x. ltb x.due e.due) (e ∷ es) ≡ 0
sorted_first e es s = ground (arith, s.0)

pop_front : (e : Entry) (es : List Entry) → last_entry (pop_heap (e ∷ es)) ≡ some e
unfolding pop_heap
pop_front e es = (without_last_last es e).1

abbrev sorted : Heaps push_heap pop_heap
sorted = record {
  IsHeap = IsSorted;
  empty = tt;
  front_first = sorted_first;
  push_IsHeap = λ es e s. push-IsSorted (es ++ e ∷ []);
  push_same = push_same;
  pop_IsHeap = pop-IsSorted;
  pop_same = pop_same;
  pop_front = λ e es s. pop_front e es;
}

-- The manager without timers, and with one at address 8 that repeats every five nanoseconds.
abbrev idle : Manager
idle = record { memory = λ a. none; heap = []; live = λ a. false; counter = 0 }

idle-IsValid : IsValid sorted [] idle
idle-IsValid = record { is_heap = tt; allocated = λ a l. cc; scheduled = λ a t l m. cc }

abbrev one : Manager
one = create push_heap pop_heap 10 8 true 5 false idle

one-IsValid : IsValid sorted [] one
one-IsValid = create-IsValid sorted 10 8 true 5 false idle idle-IsValid

abbrev timer : Timer
timer = record { callback = true; single_shot = false; interval = 5; due = 15; serial = 1 }

one_due : due_entries 20 one ≡ 1
unfolding create schedule push_heap insert
one_due = refl

one-front : front_is_due 20 one.heap ≡ true
unfolding create schedule push_heap insert front_is_due
one-front = refl

one-ArePositive : ArePositive one
unfolding create schedule
one-ArePositive a t m = elim (Bool-cases (a == 8)) [
  | inl here ↦
      let t' : some timer ≡ some t = rw here at m in
      let same : timer ≡ t = cc in let i = ap (λ (u : Timer). u.interval) same in omega arith
  | inr other ↦ let nobody : none ≡ some t = rw other at m in cc
]

-- A listener that does nothing.
abbrev nothing : ℕ → Manager → Manager
nothing a s = s

process_due_example :
    (t : Manager) × (process_due push_heap pop_heap nothing 2 20 one ≡ some t)
    × IsSettled sorted nothing (λ a s. stays) 20 t
process_due_example =
    process_due_total sorted nothing (λ a s. stays) 20 (λ a s. omega arith) (λ a s p. p) 2 one
      one-IsValid one-ArePositive (omega (arith, one_due))

one-AreNear : AreNear one 11
unfolding create schedule
one-AreNear a t l m = elim (Bool-cases (a == 8)) [
  | inl here ↦
      let t' : some timer ≡ some t = rw here at m in
      let same : timer ≡ t = cc in let d = ap (λ (u : Timer). u.due) same in omega arith
  | inr other ↦ let nobody : none ≡ some t = rw other at m in cc
]

time_to_next_example : Awaits one 11 (time_to_next one 11)
time_to_next_example = time_to_next-Awaits sorted one 11 one-IsValid one-AreNear

process_round_example :
    (process_round push_heap pop_heap nothing 20 one
      ≡ record one { heap = without_last (pop_heap one.heap) })
    ⊎ ((a : ℕ) × (t : Timer) × (one.live a ≡ true)
        × (one.memory a ≡ some t)
        × (t.due ≤ 20)
        × (process_round push_heap pop_heap nothing 20 one
            ≡ internal_fire push_heap pop_heap nothing 20 a t
                (record one { heap = without_last (pop_heap one.heap) })))
process_round_example = process_round_lem sorted nothing (λ a s. stays) 20 one one-IsValid one-front

-- A timer with no interval, at the same address.
abbrev spinning : Manager
spinning = create push_heap pop_heap 10 8 true 0 false idle

spinning-Spins : Spins 20 8 spinning
unfolding create schedule
spinning-Spins = record {
  live = refl;
  timer = record timer { interval = 0; due = 10 };
  there = refl;
  repeats = refl;
  no_interval = refl;
  due = omega arith;
}

process_due_endless_example : process_due push_heap pop_heap nothing 100 20 spinning ≡ none
process_due_endless_example =
    process_due_endless sorted nothing (λ a s. stays) 20 8 (λ b s v. v) 100 spinning
      (create-IsValid sorted 10 8 true 0 false idle idle-IsValid) spinning-Spins

-- After four milliseconds and a bit the timer is due.
test_time_to_next : time_to_next (create push_heap pop_heap 10 8 true 4000001 true idle) 10 ≡ pos 5
unfolding time_to_next next_loop is_current create schedule push_heap insert
test_time_to_next = refl

-- A timer that is due after 2^32 - 1 milliseconds counts as none.
test_time_to_next_far :
    time_to_next (create push_heap pop_heap 0 8 true ((2 ^ 32 - 1) * 1000000) true idle) 0
    ≡ negsuc 0
unfolding time_to_next next_loop is_current create schedule push_heap insert
test_time_to_next_far = refl
