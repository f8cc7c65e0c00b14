-- ===== src/Buffer/Refines.antt =====
-- src/io/buffer.cpp: the calls that change a buffer, and a list of bytes that follows them.
use samurai.Prelude.{
  ℕ, ◌<◌, ◌≡◌, refl, Bool, true, List, [], ◌∷◌, ◌++◌, arith, drop, length-replicate, Bytes,
  size_max, wrap, ◌==◌, if◌then◌else◌, Bool-cases, inl, inr,
}
use samurai.Buffer.Room.{IsValid, contents, resize-Room}
use samurai.Buffer.Fifo.{append-Appends, append_char-Appends, remove-IsValid, contents-remove}
use samurai.Buffer.{Buffer, Allocator, make, append, append_char, remove, reserve, clear}

-- The calls that change a buffer.
pub data Call : Type 0 where
  appends : Bytes → Call
  appends_char removes reserves : ℕ → Call
  clears : Call

-- The calls that can fail say so; a failed `reserve` is silent. Its argument is a size_t.
pub step : Allocator → Buffer → Call → Buffer × Bool
step al b (appends bytes) = append al b bytes
step al b (appends_char c) = append_char al b c
step al b (removes n) = (remove b n, true)
step al b (reserves n) = (reserve al b (wrap n), true)
step al b clears = (clear b, true)

-- The same call on a list of bytes. An append that failed does nothing.
pub queue_step : Bytes → Call → Bool → Bytes
queue_step q (appends bytes) done = if done then q ++ bytes else q
queue_step q (appends_char c) done = if done then q ++ c ∷ [] else q
queue_step q (removes n) done = drop n q
queue_step q (reserves n) done = q
queue_step q clears done = []

pub run : Allocator → Buffer → List Call → Buffer
run al b [] = b
run al b (c ∷ cs) = run al (step al b c).0 cs

-- The list follows the outcomes that the buffer reports.
pub queue_run : Allocator → Buffer → Bytes → List Call → Bytes
queue_run al b q [] = q
queue_run al b q (c ∷ cs) = queue_run al (step al b c).0 (queue_step q c (step al b c).1) cs

make-IsValid : (n : ℕ) → n < size_max → IsValid (make n)
unfolding make
make-IsValid n h = omega (arith, length-replicate {A = ℕ} n 0)

clear-IsValid : (b : Buffer) → IsValid b → IsValid (clear b)
unfolding clear
clear-IsValid b v = omega (arith, length-replicate {A = ℕ} b.initial_capasity 0, v.resettable)

module _ (al : Allocator) (bound : al.max_size < size_max) where
  step_lem :
      (b : Buffer) (c : Call)
      → IsValid b
      → IsValid (step al b c).0
        × (contents (step al b c).0 ≡ queue_step (contents b) c (step al b c).1)
  unfolding step queue_step reserve clear
  step_lem b (appends bytes) v = let a = append-Appends al bound b v bytes in (a.valid, a.reads)
  step_lem b (appends_char c) v = let a = append_char-Appends al bound b v c in (a.valid, a.reads)
  step_lem b (removes n) v = (remove-IsValid b n v, contents-remove b n v)
  step_lem b (reserves n) v = elim (Bool-cases (wrap n == 0)) [
    | inl nothing ↦ rw (nothing, reserve) (v, refl)
    | inr more ↦
        let r = resize-Room al bound b (wrap n) v (omega arith) in
        rw (more, reserve) (r.valid, r.same)
  ]
  step_lem b clears v = (clear-IsValid b v, refl)

  -- With an allocator whose max_size is below SIZE_MAX, every sequence of appends, appended
  -- characters, removals, reservations and clears takes a valid buffer to a valid buffer, whose
  -- live bytes are those that the same calls leave of a plain list of bytes, where an append that
  -- reports a failure does nothing.
  pub run-queue_run :
      (b : Buffer) (cs : List Call)
      → IsValid b
      → IsValid (run al b cs) × (contents (run al b cs) ≡ queue_run al b (contents b) cs)
  unfolding run queue_run
  run-queue_run b [] v = (v, refl)
  run-queue_run b (c ∷ cs) v =
      let (w, e) = step_lem b c v in
      let (z, f) = run-queue_run (step al b c).0 cs w in (z, rw (← e) f)
