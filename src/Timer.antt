-- ===== src/Timer.antt =====
-- src/timer.cpp, include/samurai/timer.h: timers and their manager. A time and an interval are
-- nanoseconds, from no earlier than the clock's start; a timer is its address. What a listener does
-- in EventTimeout is an argument. std::push_heap and std::pop_heap are arguments too, with what the
-- C++ standard says of them as the laws of `Heaps`.
pub mod Count
pub mod Keep
pub mod Process
pub mod Finish
pub mod Next
pub mod Endless
mod Tests
use samurai.Prelude.{
  ℕ, zero, suc, ◌+◌, ◌-◌, ◌/◌, ◌%◌, ◌^◌, Bool, true, false, not, Option, none, some, List, [], ◌∷◌,
  ◌++◌, if◌then◌else◌, ltb, leb, ◌==◌,
}

pub record Timer : Type 0 where
  pub callback : Bool
  pub single_shot : Bool
  pub interval : ℕ
  pub due : ℕ
  pub serial : ℕ

pub record Entry : Type 0 where
  pub due : ℕ
  pub timer : ℕ
  pub serial : ℕ

-- The timers that stand in memory, the manager's `heap` and `live`, and the last serial.
pub record Manager : Type 0 where
  pub memory : ℕ → Option Timer
  pub heap : List Entry
  pub live : ℕ → Bool
  pub counter : ℕ

-- A map with one value changed.
abbrev pub put_at {ℓ} : {A : Type ℓ} → (ℕ → A) → ℕ → A → ℕ → A
put_at f a v b = if b == a then v else f b

-- back() and pop_back().
unfoldable pub last_entry : List Entry → Option Entry
last_entry [] = none
last_entry (e ∷ []) = some e
last_entry (e ∷ f ∷ es) = last_entry (f ∷ es)

unfoldable pub without_last : List Entry → List Entry
without_last [] = []
without_last (e ∷ []) = []
without_last (e ∷ f ∷ es) = e ∷ without_last (f ∷ es)

-- TimerManager::current.
unfoldable pub is_current : Manager → Entry → Bool
is_current s e = if not (s.live e.timer) then false else elim (s.memory e.timer) [
  | none ↦ false
  | some t ↦ if not (t.serial == e.serial) then false else t.due == e.due
]

-- TimerManager::remove.
unfoldable pub remove : ℕ → Manager → Manager
remove a s = record s { live = put_at s.live a false }

-- The destructor of a timer, and its storage.
unfoldable pub destroy : ℕ → Manager → Manager
unfolding remove
destroy a s = record (remove a s) { memory = put_at s.memory a none }

-- The loop of timeToNext, with `best` where it is `found`.
unfoldable pub next_loop : Manager → ℕ → List Entry → Option ℕ → Option ℕ
next_loop s now [] best = best
next_loop s now (e ∷ es) best =
    let skip = next_loop s now es best in
    let better = next_loop s now es (some e.due) in
    if not (is_current s e)
    then skip
    else if leb e.due now
    then some now
    else elim best [ none ↦ better | some b ↦ if ltb e.due b then better else skip ]

-- The integers, for an int.
pub data ℤ : Type 0 where
  pos : ℕ → ℤ
  negsuc : ℕ → ℤ

-- The conversion of a count of milliseconds to an int of 32 bits, which wraps.
unfoldable pub to_int : ℕ → ℤ
to_int count =
    let low = count % 2 ^ 32 in if ltb low (2 ^ 31) then pos low else negsuc (2 ^ 32 - 1 - low)

-- Milliseconds, rounded up, or -1.
unfoldable pub time_to_next : Manager → ℕ → ℤ
unfolding to_int
time_to_next s now = elim (next_loop s now s.heap none) [
  | none ↦ negsuc 0
  | some best ↦ to_int ((best - now + 999999) / 1000000)
]

-- The test of the loop of `process`.
unfoldable pub front_is_due : ℕ → List Entry → Bool
front_is_due now [] = false
front_is_due now (e ∷ es) = leb e.due now

module _ (push_heap pop_heap : List Entry → List Entry) where
  -- TimerManager::schedule, for the timer `t` at the address `a`.
  unfoldable pub schedule : ℕ → Timer → Manager → Manager
  schedule a t s = record s {
    heap = push_heap (s.heap ++ record { due = t.due; timer = a; serial = t.serial } ∷ []);
  }

  -- The constructor of a timer at the free address `a`, and TimerManager::add.
  unfoldable pub create : ℕ → ℕ → Bool → ℕ → Bool → Manager → Manager
  create now a callback interval single_shot s =
      let serial = s.counter + 1 in
      let t : Timer = record {
        callback = callback;
        single_shot = single_shot;
        interval = interval;
        due = now + interval;
        serial = serial;
      } in
      schedule a t (record s {
        memory = put_at s.memory a (some t);
        live = put_at s.live a true;
        counter = serial;
      })

  -- The timer is due after its interval, and is scheduled.
  unfoldable pub restart : ℕ → ℕ → Timer → Manager → Manager
  restart now a t s =
      let u = record t { due = now + t.interval } in
      schedule a u (record s { memory = put_at s.memory a (some u) })

  -- Timer::reset.
  unfoldable pub reset : ℕ → ℕ → Manager → Manager
  reset now a s = elim (s.memory a) [ none ↦ s | some t ↦ restart now a t s ]

  -- Timer::internal_fire up to the call of EventTimeout.
  unfoldable pub rearm : ℕ → ℕ → Timer → Manager → Manager
  rearm now a t s = if t.single_shot then remove a s else restart now a t s

  module _ (event_timeout : ℕ → Manager → Manager) where
    -- Timer::internal_fire, for the timer `t` at the address `a`.
    unfoldable pub internal_fire : ℕ → ℕ → Timer → Manager → Manager
    internal_fire now a t s =
        if t.callback then event_timeout a (rearm now a t s) else rearm now a t s

    -- One round of the loop of `process`, for an entry taken off the heap.
    unfoldable pub process_entry : ℕ → Entry → Manager → Manager
    process_entry now e s =
        if not (is_current s e)
        then s
        else elim (s.memory e.timer) [ none ↦ s | some t ↦ internal_fire now e.timer t s ]

    -- pop_heap, back and pop_back.
    unfoldable pub process_round : ℕ → Manager → Manager
    process_round now s =
        let popped = pop_heap s.heap in
        let rest = record s { heap = without_last popped } in
        elim (last_entry popped) [ none ↦ rest | some e ↦ process_entry now e rest ]

    -- The loop, with fuel; `none` means that it ran out.
    unfoldable pub process_due : ℕ → ℕ → Manager → Option Manager
    process_due zero now s = none
    process_due (suc fuel) now s =
        let more = process_due fuel now (process_round now s) in
        if front_is_due now s.heap then more else some s
