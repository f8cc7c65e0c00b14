-- ===== src/Buffer/Fifo.antt =====
-- src/io/buffer.cpp: append and remove in terms of the live bytes.
use samurai.Prelude.{
  ℕ, ◌+◌, ◌-◌, ◌*◌, ◌/◌, not, ◌&&◌, ◌≤◌, ◌<◌, ◌≡◌, refl, sym, ap, ◌∙◌, inl, inr, Bool, true, false,
  [], ◌∷◌, ◌++◌, arith, Bool-cases, length, drop, drop-take, drop-drop, drop_all, Bytes, size_max,
  wrap, slice, length-write, slice-write, ltb, leb, ◌==◌, if◌then◌else◌,
}
use samurai.Buffer.Room.{
  IsValid, contents, length-contents, compact-IsValid, contents-compact, Room, resize-Room,
}
use samurai.Buffer.{
  Buffer, Allocator, size, compact, store, store_if, compact, resize, make_room, append,
  append_char, settle, advance, remove,
}

store-IsValid :
    (b : Buffer) (bytes : Bytes)
    → IsValid b
    → b.len + length bytes ≤ length b.buf
    → IsValid (store b bytes)
store-IsValid b bytes v h = ground (arith, length-write b.buf b.len bytes)

contents-store :
    (b : Buffer) (bytes : Bytes)
    → IsValid b
    → b.len + length bytes ≤ length b.buf
    → contents (store b bytes) ≡ contents b ++ bytes
contents-store b bytes v h =
    let w : wrap (b.len + length bytes) ≡ b.len + length bytes = omega (arith, v.addressable) in
    rw w (
      slice-write b.buf b.head b.len (b.len + length bytes - b.head) bytes v.ordered
        (omega (arith, v.ordered)) h)

-- All of the bytes are appended, or the live bytes are as before.
pub record Appends (b : Buffer) (bytes : Bytes) (r : Buffer × Bool) : Type 0 where
  pub valid : IsValid r.0
  pub reads : contents r.0 ≡ (if r.1 then contents b ++ bytes else contents b)

store-Appends :
    (b c : Buffer) (bytes : Bytes)
    → IsValid c
    → contents c ≡ contents b
    → c.len + length bytes ≤ length c.buf
    → Appends b bytes (store c bytes, true)
store-Appends b c bytes v e h = record {
  valid = store-IsValid c bytes v h;
  reads = contents-store c bytes v h ∙ ap (λ (t : Bytes). t ++ bytes) e;
}

store_if-Appends :
    (al : Allocator) (b : Buffer) (bytes : Bytes) (r : Buffer × Bool)
    → Room al b (length bytes) r
    → Appends b bytes (store_if bytes r)
store_if-Appends al b bytes (c, true) room =
    store-Appends b c bytes room.valid room.same (room.fits refl)
store_if-Appends al b bytes (c, false) room = record { valid = room.valid; reads = room.same }

module _ (al : Allocator) (bound : al.max_size < size_max) (b : Buffer) (v : IsValid b) where
  pub append-Appends : (bytes : Bytes) → Appends b bytes (append al b bytes)
  unfolding append
  append-Appends bytes = elim (Bool-cases (ltb (size_max - b.len) (length bytes))) [
    | inl long ↦ rw (long, append) (record { valid = v; reads = refl })
    | inr short ↦ elim (Bool-cases (ltb (length b.buf) (wrap (b.len + length bytes)))) [
      | inl full ↦
          rw (short, full, append)
            (store_if-Appends al b bytes (resize al b (length bytes))
              (resize-Room al bound b (length bytes) v (ground arith)))
      | inr free ↦
          rw (short, free, append) (store-Appends b b bytes v refl (ground (arith, v.addressable)))
    ]
  ]

  pub append_char-Appends : (c : ℕ) → Appends b (c ∷ []) (append_char al b c)
  unfolding append_char
  append_char-Appends c = elim (Bool-cases (ltb (length b.buf) (wrap (b.len + 1)))) [
    | inl full ↦
        rw (full, append_char)
          (store_if-Appends al b (c ∷ []) (resize al b 1)
            (resize-Room al bound b 1 v (omega arith)))
    | inr free ↦
        rw (free, append_char)
          (store-Appends b b (c ∷ []) v refl (ground (arith, v.stored, v.addressable)))
  ]

-- An allocator that grants every size that a size_t holds.
abbrev IsGenerous : Allocator → Type 0
IsGenerous al = (size_max ≤ al.max_size) × ((n : ℕ) → al.grants n ≡ true)

settle-IsValid : (b : Buffer) → IsValid b → IsValid (settle b)
unfolding settle
settle-IsValid b v = elim (Bool-cases (b.head == b.len)) [
  | inl drained ↦ rw (drained, settle) (omega (arith, v.addressable, v.resettable))
  | inr live ↦ elim (Bool-cases (leb (length b.buf / 2) b.head)) [
    | inl dominated ↦ rw (live, dominated, settle) (compact-IsValid b v)
    | inr light ↦ rw (live, light, settle) v
  ]
]

contents-settle : (b : Buffer) → IsValid b → contents (settle b) ≡ contents b
unfolding settle
contents-settle b v = elim (Bool-cases (b.head == b.len)) [
  | inl drained ↦ rw (drained, settle) (let e : b.len - b.head ≡ 0 = ground arith in rw e)
  | inr live ↦ elim (Bool-cases (leb (length b.buf / 2) b.head)) [
    | inl dominated ↦ rw (live, dominated, settle) (contents-compact b v)
    | inr light ↦ rw (live, light, settle)
  ]
]

-- Advancing `head` by no more than the live bytes drops that many of them.
settle-advance :
    (b : Buffer) (n : ℕ)
    → IsValid b
    → n ≤ size b
    → IsValid (settle (advance b n)) × (contents (settle (advance b n)) ≡ drop n (contents b))
settle-advance b n v h =
    (settle-IsValid (advance b n) moved, contents-settle (advance b n) moved ∙ dropped)
  where
    moved : IsValid (advance b n)
    moved = omega (arith, v.ordered, v.stored, v.addressable, v.resettable)

    dropped : contents (advance b n) ≡ drop n (contents b)
    dropped =
        rw
          (
            drop-take n (b.len - b.head) (drop b.head b.buf),
            drop-drop n b.head (b.head + n) b.buf refl,
          )
          (let e : b.len - b.head - n ≡ b.len - (b.head + n) = omega arith in rw e)

pub remove-IsValid : (b : Buffer) (count : ℕ) → IsValid b → IsValid (remove b count)
unfolding remove
remove-IsValid b count v =
    (settle-advance b (if ltb (size b) count then size b else count) v (ground arith)).0

-- Removing from a valid buffer drops that many of its live bytes, or all if there are fewer, also
-- when the buffer is compacted.
pub contents-remove :
    (b : Buffer) (count : ℕ) → IsValid b → contents (remove b count) ≡ drop count (contents b)
unfolding remove
contents-remove b count v = elim (Bool-cases (ltb (b.len - b.head) count)) [
  | inl more ↦
      rw (more, remove)
        ((settle-advance b (size b) v (omega arith)).1
          ∙ drop_all (size b) (contents b) (omega (arith, length-contents b v))
          ∙ sym (drop_all count (contents b) (ground (arith, length-contents b v))))
  | inr less ↦ rw (less, remove) (settle-advance b count v (ground arith)).1
]

pub contents-append :
    (al : Allocator)
    → al.max_size < size_max
    → (b : Buffer) (bytes : Bytes) → IsValid b
    → (append al b bytes).1 ≡ true
    → contents (append al b bytes).0 ≡ contents b ++ bytes
contents-append al bound b bytes v done =
    (append-Appends al bound b v bytes).reads
    ∙ ap (λ (t : Bool). if t then contents b ++ bytes else contents b) done

make_room_in_place :
    (al : Allocator) (b : Buffer) (n : ℕ)
    → IsValid b
    → b.len + n ≤ length b.buf
    → (make_room al b n).1 ≡ true
unfolding make_room
make_room_in_place al b n v h = ground (arith, v.addressable)

compact_room :
    (b : Buffer) (n : ℕ)
    → (b.head == 0) ≡ false
    → size b + n ≤ length b.buf
    → (compact b).len + n ≤ length (compact b).buf
unfolding compact
compact_room b n moved h =
    rw (moved, compact) (ground (arith, length-write b.buf 0 (slice b.buf b.head (size b))))

resize_in_place :
    (al : Allocator) (b : Buffer) (n : ℕ)
    → IsValid b
    → size b + n ≤ length b.buf
    → length b.buf * 2 < size_max
    → (resize al b n).1 ≡ true
unfolding resize
resize_in_place al b n v h small =
    elim (Bool-cases (not (b.head == 0) && ltb (length b.buf) (wrap (b.len + n)))) [
      | inl packs ↦
          rw (packs, resize)
            (make_room_in_place al (compact b) n (compact-IsValid b v)
              (compact_room b n (ground arith) h))
      | inr keeps ↦
          rw (keeps, resize) (make_room_in_place al b n v (ground (arith, v.stored, v.ordered)))
    ]

store_if-flag : (bytes : Bytes) (r : Buffer × Bool) → (store_if bytes r).1 ≡ r.1
store_if-flag bytes (c, true) = refl
store_if-flag bytes (c, false) = refl

-- An append to a valid buffer whose capacity holds the live bytes and the new ones, and is below
-- half of SIZE_MAX, succeeds whatever the allocator does.
pub append_in_place :
    (al : Allocator) (b : Buffer) (bytes : Bytes)
    → IsValid b
    → size b + length bytes ≤ length b.buf
    → length b.buf * 2 < size_max
    → (append al b bytes).1 ≡ true
unfolding append
append_in_place al b bytes v h small =
    elim (Bool-cases (ltb (length b.buf) (wrap (b.len + length bytes)))) [
      | inl full ↦
          rw (short, full, append)
            (store_if-flag bytes (resize al b (length bytes))
              ∙ resize_in_place al b (length bytes) v h small)
      | inr free ↦ rw (short, free, append)
    ]
  where
    short : ltb (size_max - b.len) (length bytes) ≡ false
    short = ground (arith, v.stored, v.ordered)
