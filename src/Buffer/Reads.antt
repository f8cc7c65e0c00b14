-- ===== src/Buffer/Reads.antt =====
-- src/io/buffer.cpp: the operations that copy bytes out, in terms of the live bytes.
use samurai.Prelude.{
  ℕ, ◌+◌, ◌-◌, ◌≤◌, ◌<◌, ◌≡◌, refl, sym, ◌∙◌, inl, inr, true, [], ◌||◌, arith, Bool-cases, length,
  take, drop, take-take, take_all, drop-take, drop-drop, drop_all, get_or, get_or-take, get_or-drop,
  get_or_past, length-drop, take-nil, append-nil, Bytes, size_max, slice, ltb, leb, ◌==◌,
  if◌then◌else◌,
}
use samurai.Buffer.Room.{IsValid, contents, length-contents}
use samurai.Buffer.Fifo.{Appends, append-Appends}
use samurai.Buffer.{
  Buffer, Allocator, size, append, append_buffer, append_all, pop_at, pop, copy_range, at,
}

-- Inside the live range, reading the vector is reading the live bytes.
pub slice-contents :
    (b : Buffer) (o n : ℕ) → o + n ≤ size b → slice b.buf (b.head + o) n ≡ slice (contents b) o n
slice-contents b o n h =
    rw
      (drop-take o (b.len - b.head) (drop b.head b.buf), drop-drop o b.head (b.head + o) b.buf refl)
      (sym (take-take n (b.len - b.head - o) (drop (b.head + o) b.buf) (omega arith)))

pub at_lem : (b : Buffer) (offset : ℕ) → IsValid b → at b offset ≡ get_or (contents b) offset 0
unfolding at
at_lem b offset v = elim (Bool-cases (leb (b.len - b.head) offset)) [
  | inl past ↦
      rw (past, at) (sym (get_or_past offset (contents b) 0 (ground (arith, length-contents b v))))
  | inr inside ↦
      rw (inside, at)
        (sym (
          get_or-take (b.len - b.head) offset (drop b.head b.buf) 0 (ground arith)
          ∙ get_or-drop b.head offset (b.head + offset) b.buf 0 refl))
]

-- On a valid buffer, `pop` at an offset copies the live bytes from there, `n` of them or as many as
-- there are.
pub pop_at_lem :
    (b : Buffer) (offset n : ℕ) → IsValid b → pop_at b offset n ≡ slice (contents b) offset n
unfolding pop_at
pop_at_lem b offset n v = elim (Bool-cases (leb (b.len - b.head) offset)) [
  | inl past ↦
      rw (past, pop_at)
        (rw (drop_all offset (contents b) (ground (arith, length-contents b v))) (sym (take-nil n)))
  | inr inside ↦ elim (Bool-cases (ltb (b.len - b.head - offset) n)) [
    | inl short ↦
        rw (inside, short, pop_at)
          (slice-contents b offset _ (ground arith)
            ∙ take_all _ _ (rest (b.len - b.head - offset) (omega arith))
            ∙ sym (take_all n _ (rest n (ground arith))))
    | inr enough ↦ rw (inside, enough, pop_at) (slice-contents b offset n (ground arith))
  ]
]
  where
    rest : (k : ℕ) → b.len - b.head - offset ≤ k → length (drop offset (contents b)) ≤ k
    rest k h = omega (arith, length-drop offset (contents b), length-contents b v)

pub pop_lem : (b : Buffer) (n : ℕ) → IsValid b → pop b n ≡ take n (contents b)
unfolding pop
pop_lem b n v = elim (Bool-cases (b.len - b.head == 0)) [
  | inl empty ↦
      rw (empty, pop) (let e : b.len - b.head ≡ 0 = ground arith in rw e (sym (take-nil n)))
  | inr more ↦ elim (Bool-cases (ltb (b.len - b.head) n)) [
    | inl short ↦
        rw (more, short, pop) (sym (take_all n (contents b) (ground (arith, length-contents b v))))
    | inr enough ↦
        rw (more, enough, pop)
          (sym (take-take n (b.len - b.head) (drop b.head b.buf) (ground arith)))
  ]
]

-- A range that is not entirely live gives nothing; any other gives its bytes.
pub copy_range_lem :
    (b : Buffer) (offset end : ℕ)
    → copy_range b offset end ≡ (
        if ltb end offset || ltb (size b) end then [] else slice (contents b) offset (end - offset))
unfolding copy_range
copy_range_lem b offset end = elim (Bool-cases (ltb end offset || ltb (b.len - b.head) end)) [
  | inl outside ↦ rw (outside, copy_range)
  | inr inside ↦ rw (inside, copy_range) (slice-contents b offset (end - offset) (ground arith))
]

-- Appending a part of another buffer appends the first of its live bytes.
module _ (al : Allocator) (bound : al.max_size < size_max) (b other : Buffer) (v : IsValid b)
    (w : IsValid other) where
  append_part :
      (k : ℕ) (bytes : Bytes)
      → slice other.buf other.head k ≡ bytes
      → Appends b bytes (if k == 0 then (b, true) else append al b (slice other.buf other.head k))
  append_part k bytes e = elim (Bool-cases (k == 0)) [
    | inl none_left ↦
        let z : k ≡ 0 = ground arith in
        let nil : [] ≡ bytes = rw z at e in
        rw none_left (rw (← nil) (record { valid = v; reads = sym (append-nil (contents b)) }))
    | inr some_left ↦ rw (some_left, e) (append-Appends al bound b v bytes)
  ]

  -- With an allocator whose max_size is below SIZE_MAX, appending from another valid buffer to a
  -- valid buffer appends the first `n` of its live bytes, or reports a failure and leaves the live
  -- bytes as they are; the buffer stays valid.
  pub append_buffer-Appends :
      (n : ℕ) → Appends b (take n (contents other)) (append_buffer al b other n)
  unfolding append_buffer
  append_buffer-Appends n = elim (Bool-cases (ltb (size other) n)) [
    | inl all ↦
        rw (all, append_buffer)
          (append_part (size other) (take n (contents other))
            (sym (take_all n (contents other) (ground (arith, length-contents other w)))))
    | inr part ↦
        rw (part, append_buffer)
          (append_part n (take n (contents other))
            (sym (take-take n (size other) (drop other.head other.buf) (ground arith))))
  ]

  pub append_all-Appends : Appends b (contents other) (append_all al b other)
  unfolding append_all
  append_all-Appends = append_part (size other) (contents other) refl
