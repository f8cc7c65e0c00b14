-- ===== src/Digest/Hash/Padding.antt =====
-- src/crypto/digest/hash.cpp: the padding of a message, and its blocks.
use samurai.Prelude.{
  ℕ, zero, suc, ◌+◌, ◌-◌, ◌*◌, ◌≤◌, ◌<◌, ◌≡◌, refl, sym, ap, ◌∙◌, Bool, false, List, [], ◌∷◌, ◌++◌,
  foldl, ltb, leb, arith, if◌then◌else◌, length, length-drop, length-take, length-replicate,
  replicate, replicate-add, take, drop, take-append-drop, Bytes, write, length-write, write-write,
  write-write_same, write_after, write_all, write-nil, Bool-cases, inl, inr, some, if_true, ◌%◌,
  ◌^◌,
}
use mathlib.Core.List.{foldl-append}
use samurai.Digest.Hash.{Config, Hash, count_octets, finalize_count, pad_loop, pad_block}
use samurai.Digest.Hash.Stream.{take_byte, IsOpen, fill-take_byte_pos, fill_full}

-- The blocks of `n * size` bytes.
unfoldable pub blocks : ℕ → ℕ → Bytes → List Bytes
blocks size zero xs = []
blocks size (suc n) xs = take size xs ∷ blocks size n (drop size xs)

pub length-count_octets : (big : Bool) (n : ℕ) → length (count_octets big n) ≡ 8
unfolding count_octets
length-count_octets big n = refl

module _ {ℓ} {S : Type ℓ} (c : Config) (compress : S → Bytes → S) where
  abbrev pub mark : ℕ
  mark = if c.big_bit_endian then 0x80 else 0x01

  -- The padding behind `index` bytes of the last block.
  abbrev pub padding : ℕ → ℕ → Bytes
  padding index file_size =
      let zeros =
        if leb (c.block_size - c.count_size) index
        then c.block_size - (index + 1) + (c.block_size - 8)
        else c.block_size - 8 - (index + 1) in
      mark ∷ (replicate zeros 0 ++ count_octets c.big_byte_endian file_size)

  -- The blocks that the last `index` bytes and the padding take.
  abbrev pub last_blocks : ℕ → ℕ
  last_blocks index = if leb (c.block_size - c.count_size) index then 2 else 1

  -- Feeding exactly one block's rest compresses it.
  pub take_byte_full :
      (h : Hash S) (xs : Bytes)
      → 0 < length xs
      → h.current_block_index + length xs ≡ c.block_size
      → foldl (take_byte c compress) h xs ≡ (
          let block = write h.current_block h.current_block_index xs in
          record h {
            current_block = block;
            current_block_index = 0;
            state = compress h.state block;
          })
  take_byte_full h xs pos e =
      sym (fill-take_byte_pos c compress h xs pos (omega arith)) ∙ fill_full c compress h xs e

  -- From a block boundary, take_byteing whole blocks compresses each in turn.
  pub take_byte-blocks :
      (n : ℕ) (h : Hash S) (xs : Bytes)
      → IsOpen c compress h
      → h.current_block_index ≡ 0
      → length xs ≡ n * c.block_size
      → (foldl (take_byte c compress) h xs).state
        ≡ foldl compress h.state (blocks c.block_size n xs)
  unfolding blocks
  take_byte-blocks zero h [] o z e = refl
  take_byte-blocks zero h (x ∷ xs) o z e = absurd (omega arith)
  take_byte-blocks (suc n) h xs o z e =
      ap (λ (t : Bytes). (foldl f h t).state) (sym (take-append-drop c.block_size xs))
      ∙ ap (λ (g : Hash S). g.state) (foldl-append f h first rest)
      ∙ ap (λ (g : Hash S). (foldl f g rest).state)
          (take_byte_full h first (omega (arith, first_length, o.room))
            (omega (arith, first_length)))
      ∙ take_byte-blocks n next rest next-IsOpen refl (omega (arith, length-drop c.block_size xs))
      ∙ ap (λ (b : Bytes). foldl compress (compress h.state b) (blocks c.block_size n rest)) written
    where
      f : Hash S → ℕ → Hash S
      f = take_byte c compress

      first : Bytes
      first = take c.block_size xs

      rest : Bytes
      rest = drop c.block_size xs

      block : Bytes
      block = write h.current_block h.current_block_index first

      next : Hash S
      next = record h {
        current_block = block;
        current_block_index = 0;
        state = compress h.state block;
      }

      first_length : length first ≡ c.block_size
      first_length = omega (arith, length-take c.block_size xs)

      next-IsOpen : IsOpen c compress next
      next-IsOpen = record {
        room = omega (arith, o.room);
        block = length-write h.current_block h.current_block_index first ∙ o.block;
      }

      written : block ≡ first
      written = rw z (write_all h.current_block first (omega (arith, first_length, o.block)))

  -- The block with the mark behind `i` bytes, and zeros behind the mark.
  abbrev pub padded_block : Bytes → ℕ → Bytes
  padded_block block i = write block i (mark ∷ replicate (c.block_size - (i + 1)) 0)

  pad_loop_lem :
      (rounds j : ℕ) (block : Bytes)
      → c.block_size < 2 ^ 32
      → j ≤ c.block_size
      → c.block_size ≤ j + rounds
      → pad_loop c compress rounds j block ≡ some (write block j (replicate (c.block_size - j) 0))
  unfolding pad_loop
  pad_loop_lem zero j block small le enough =
      let over : ltb j c.block_size ≡ false = ground (arith, enough) in
      let none_left : c.block_size - j ≡ 0 = omega (arith, enough) in
      rw (over, none_left, write-nil block j) refl
  pad_loop_lem (suc rounds) j block small le enough = elim (Bool-cases (ltb j c.block_size)) [
    | inl more ↦
        let lt : j < c.block_size = ground (arith, more) in
        let next : (j + 1) % 2 ^ 32 ≡ j + 1 = omega (arith, lt, small) in
        let left : c.block_size - j ≡ suc (c.block_size - (j + 1)) = omega (arith, lt) in
        if_true _ _ more
        ∙ ap (λ (k : ℕ). pad_loop c compress rounds k (write block j (0 ∷ []))) next
        ∙ pad_loop_lem rounds (j + 1) (write block j (0 ∷ [])) small (omega (arith, lt))
            (omega (arith, enough))
        ∙ ap some (
            write-write block j (j + 1) (0 ∷ []) (replicate (c.block_size - (j + 1)) 0) refl
            ∙ ap (λ (n : ℕ). write block j (replicate n 0)) (sym left))
    | inr over ↦
        let none_left : c.block_size - j ≡ 0 = ground (arith, over) in
        rw (over, none_left, write-nil block j) refl
  ]

  -- The loop ends, and pads.
  pub pad_block_lem :
      (block : Bytes) (i : ℕ)
      → c.block_size < 2 ^ 32
      → i < c.block_size
      → pad_block c compress block i ≡ some (padded_block block i)
  unfolding pad_block
  pad_block_lem block i small lt =
      let first : (i + 1) % 2 ^ 32 ≡ i + 1 = omega (arith, lt, small) in
      ap (λ (k : ℕ). pad_loop c compress c.block_size k (write block i (mark ∷ []))) first
      ∙ pad_loop_lem c.block_size (i + 1) (write block i (mark ∷ [])) small (omega (arith, lt))
          (omega arith)
      ∙ ap some
          (write-write block i (i + 1) (mark ∷ []) (replicate (c.block_size - (i + 1)) 0) refl)

  finalize_count_lem :
      8 ≤ c.block_size
      → (block : Bytes) (n : ℕ)
      → finalize_count c compress block n
        ≡ write block (c.block_size - 8) (count_octets c.big_byte_endian n)
  unfolding finalize_count
  finalize_count_lem wide block n =
      let t : ltb c.block_size 8 ≡ false = ground arith in rw (t, finalize_count)

  -- The last block when the count fits behind the mark.
  pub one_block :
      8 ≤ c.block_size
      → (block : Bytes) (i n : ℕ) → i + 1 ≤ c.block_size - 8
      → finalize_count c compress (padded_block block i) n
        ≡ write block i
            (mark ∷ (replicate (c.block_size - 8 - (i + 1)) 0 ++ count_octets c.big_byte_endian n))
  one_block wide block i n le =
      finalize_count_lem wide (padded_block block i) n
      ∙ ap (λ (b : Bytes). write b (c.block_size - 8) octets)
          (ap (λ (t : Bytes). write block i (mark ∷ t)) (replicate-add _ zeros 8 (omega arith))
            ∙ sym (
                write-write block i (c.block_size - 8) (mark ∷ replicate zeros 0) (replicate 8 0)
                  placed))
      ∙ write-write_same (write block i (mark ∷ replicate zeros 0)) (c.block_size - 8)
          (replicate 8 0) octets (sym (length-count_octets c.big_byte_endian n))
      ∙ write-write block i (c.block_size - 8) (mark ∷ replicate zeros 0) octets placed
    where
      octets : Bytes
      octets = count_octets c.big_byte_endian n

      zeros : ℕ
      zeros = c.block_size - 8 - (i + 1)

      placed : c.block_size - 8 ≡ i + length (mark ∷ replicate zeros 0)
      placed = omega (arith, length-replicate {A = ℕ} zeros 0)

  -- The block of its own that the count gets otherwise.
  pub count_block :
      8 ≤ c.block_size
      → (n : ℕ)
      → finalize_count c compress (replicate c.block_size 0) n
        ≡ replicate (c.block_size - 8) 0 ++ count_octets c.big_byte_endian n
  count_block wide n =
      finalize_count_lem wide (replicate c.block_size 0) n
      ∙ ap (λ (b : Bytes). write b (c.block_size - 8) (count_octets c.big_byte_endian n))
          (replicate-add c.block_size (c.block_size - 8) 8 (omega arith))
      ∙ write_after (replicate (c.block_size - 8) 0) (replicate 8 0)
          (count_octets c.big_byte_endian n) (c.block_size - 8)
          (sym (length-replicate (c.block_size - 8) 0))
          (sym (length-count_octets c.big_byte_endian n))
