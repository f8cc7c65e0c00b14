-- ===== src/Buffer/Tests.antt =====
-- The theorems on the buffer at concrete buffers.
use samurai.Prelude.{◌⊎◌, ◌+◌, ◌≤◌, false, length, ◌<◌, ◌≡◌, true, List, [], ◌∷◌, arith, size_max}
use samurai.Buffer.{Buffer, Allocator, resize, append_buffer}
use samurai.Buffer.Room.{IsValid, contents, Refuses, resize_lem}
use samurai.Buffer.Fifo.{Appends}
use samurai.Buffer.Reads.{append_buffer-Appends}
use samurai.Buffer.Refines.{
  Call, appends, appends_char, removes, reserves, run, queue_run, run-queue_run,
}
use samurai.Buffer.Search.{find_string, find_string_portable}
use samurai.Buffer.Search.Agree.{find_string_portable-find_string}

-- An allocator that grants every size up to a bound.
abbrev pub heap : Allocator
heap = record { max_size = 1000000; grants = λ n. true }

abbrev pub heap_bound : heap.max_size < size_max
heap_bound = omega arith

-- A buffer of four bytes, the first of them consumed.
abbrev pub used : Buffer
used = record { buf = 1 ∷ 2 ∷ 3 ∷ 0 ∷ []; head = 1; len = 3; initial_capasity = 4 }

abbrev pub used-IsValid : IsValid used
used-IsValid = record {
  ordered = omega arith;
  stored = omega arith;
  addressable = omega arith;
  resettable = omega arith;
}

abbrev calls : List Call
calls = appends (7 ∷ 8 ∷ 9 ∷ []) ∷ removes 1 ∷ appends_char 5 ∷ reserves 20 ∷ []

run-queue_run_example :
    IsValid (run heap used calls)
    × (contents (run heap used calls) ≡ queue_run heap used (2 ∷ 3 ∷ []) calls)
run-queue_run_example = run-queue_run heap heap_bound used calls used-IsValid

resize_example :
    (let r = resize heap used 6 in
      IsValid r.0
      × (contents r.0 ≡ 2 ∷ 3 ∷ [])
      × ((r.1 ≡ true) × (r.0.len + 6 ≤ length r.0.buf) ⊎ (r.1 ≡ false) × Refuses heap r.0.len 6))
resize_example = resize_lem heap heap_bound used 6 used-IsValid (omega arith)

append_buffer_example : Appends used (2 ∷ []) (append_buffer heap used used 1)
append_buffer_example = append_buffer-Appends heap heap_bound used used used-IsValid used-IsValid 1

find_string_example : find_string_portable used (3 ∷ []) 0 ≡ find_string used (3 ∷ []) 0
find_string_example = find_string_portable-find_string used used-IsValid (3 ∷ []) 0
