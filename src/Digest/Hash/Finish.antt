-- ===== src/Digest/Hash/Finish.antt =====
-- src/crypto/digest/hash.cpp: `finalize` in terms of single bytes.
use mathlib.Core.List.{foldl-append}
use samurai.Prelude.{
  word_mod, wrap, ℕ, ◌+◌, ◌-◌, ◌^◌, ◌<◌, ◌≤◌, ◌≡◌, some, refl, sym, ap, ◌∙◌, inl, inr, Bool, true,
  false, ◌∷◌, ◌++◌, append_assoc, foldl, leb, arith, Bool-cases, if_false, length, length-append,
  length-replicate, replicate, replicate-add, Bytes, write, length-write, write_all,
}
use samurai.Digest.Hash.Padding.{
  mark, padding, padded_block, take_byte_full, pad_block_lem, one_block, count_block,
  length-count_octets,
}
use samurai.Digest.Hash.Stream.{take_byte, IsOpen}
use samurai.Digest.Hash.{Config, Hash, count_octets, finalize_count, pad_block, hash_last, finalize}

module _ {ℓ} {S : Type ℓ} (c : Config) (compress : S → Bytes → S) (wide : 8 ≤ c.block_size)
    (octets : c.count_size ≡ 8) where
  module _ (h : Hash S) (o : IsOpen c compress h) where
    abbrev tail : Bytes
    tail = count_octets c.big_byte_endian h.file_size

    -- The flag that the count no longer fits into the last block.
    abbrev spills : Bool
    spills = leb (c.block_size - c.count_size) h.current_block_index

    -- The zeros behind the mark, and the count, end the block.
    take_byte_one :
        spills ≡ false
        → (foldl
            (take_byte c compress)
            h
            (padding c compress h.current_block_index h.file_size)).state
          ≡ compress h.state (
              finalize_count c compress
                (padded_block c compress h.current_block h.current_block_index)
                h.file_size)
    take_byte_one no_spill = rw no_spill (
        ap (λ (g : Hash S). g.state)
          (take_byte_full c compress h (mark c compress ∷ (replicate zeros 0 ++ tail)) (omega arith)
            (omega (
              arith,
              fit,
              length-append (replicate zeros 0) tail,
              length-replicate {A = ℕ} zeros 0,
              length-count_octets c.big_byte_endian h.file_size,
            )))
        ∙ ap (compress h.state)
            (sym (one_block c compress wide h.current_block h.current_block_index h.file_size fit)))
      where
        zeros : ℕ
        zeros = c.block_size - 8 - (h.current_block_index + 1)

        fit : h.current_block_index + 1 ≤ c.block_size - 8
        fit = ground (arith, octets, o.room, no_spill)

    -- The zeros behind the mark end the block, and the count has one of its own.
    take_byte_two :
        spills ≡ true
        → (foldl
            (take_byte c compress)
            h
            (padding c compress h.current_block_index h.file_size)).state
          ≡ compress
              (compress h.state (padded_block c compress h.current_block h.current_block_index))
              (finalize_count c compress (replicate c.block_size 0) h.file_size)
    take_byte_two spill = rw spill (
        ap (λ (t : Bytes). (foldl f h t).state) cut
        ∙ ap (λ (g : Hash S). g.state) (foldl-append f h first last)
        ∙ ap (λ (g : Hash S). (foldl f g last).state)
            (take_byte_full c compress h first (omega arith)
              (omega (arith, o.room, length-replicate {A = ℕ} zeros 0)))
        ∙ ap (λ (g : Hash S). g.state)
            (take_byte_full c compress next last (omega (arith, last_length))
              (omega (arith, last_length)))
        ∙ ap (compress (compress h.state block)) (
            write_all block last (omega (arith, last_length, block_length))
            ∙ sym (count_block c compress wide h.file_size)))
      where
        f : Hash S → ℕ → Hash S
        f = take_byte c compress

        zeros : ℕ
        zeros = c.block_size - (h.current_block_index + 1)

        first : Bytes
        first = mark c compress ∷ replicate zeros 0

        last : Bytes
        last = replicate (c.block_size - 8) 0 ++ tail

        block : Bytes
        block = write h.current_block h.current_block_index first

        next : Hash S
        next = record h {
          current_block = block;
          current_block_index = 0;
          state = compress h.state block;
        }

        cut : mark c compress ∷ (replicate (zeros + (c.block_size - 8)) 0 ++ tail) ≡ first ++ last
        cut =
            ap (λ (t : Bytes). mark c compress ∷ (t ++ tail))
              (replicate-add (zeros + (c.block_size - 8)) zeros (c.block_size - 8) refl)
            ∙ ap (λ (t : Bytes). mark c compress ∷ t)
                (append_assoc (replicate zeros 0) (replicate (c.block_size - 8) 0) tail)

        last_length : length last ≡ c.block_size
        last_length = omega (
          arith,
          wide,
          length-append (replicate (c.block_size - 8) 0) tail,
          length-replicate {A = ℕ} (c.block_size - 8) 0,
          length-count_octets c.big_byte_endian h.file_size,
        )

        block_length : length block ≡ c.block_size
        block_length = length-write h.current_block h.current_block_index first ∙ o.block

    -- The difference in the test does not wrap.
    test-spills :
        c.block_size < 2 ^ 32
        → leb (wrap (c.block_size + (word_mod - c.count_size))) h.current_block_index ≡ spills
    test-spills small =
        ap (λ (n : ℕ). leb n h.current_block_index) (omega (arith, wide, octets, small))

    hash_last_two :
        c.block_size < 2 ^ 32
        → spills ≡ true
        → (hash_last c compress h
            (padded_block c compress h.current_block h.current_block_index)).state
          ≡ compress
              (compress h.state (padded_block c compress h.current_block h.current_block_index))
              (finalize_count c compress (replicate c.block_size 0) h.file_size)
    unfolding hash_last
    hash_last_two small spill = rw (test-spills small ∙ spill, hash_last)

    hash_last_one :
        c.block_size < 2 ^ 32
        → spills ≡ false
        → (hash_last c compress h
            (padded_block c compress h.current_block h.current_block_index)).state
          ≡ compress h.state (
              finalize_count c compress
                (padded_block c compress h.current_block h.current_block_index)
                h.file_size)
    unfolding hash_last
    hash_last_one small no_spill = rw (test-spills small ∙ no_spill, hash_last)

    -- Hashing the last block is taking the padding byte by byte.
    hash_last-take_byte :
        c.block_size < 2 ^ 32
        → (hash_last c compress h
            (padded_block c compress h.current_block h.current_block_index)).state
          ≡ (foldl
              (take_byte c compress)
              h
              (padding c compress h.current_block_index h.file_size)).state
    hash_last-take_byte small = elim (Bool-cases spills) [
      | inl spill ↦ hash_last_two small spill ∙ sym (take_byte_two spill)
      | inr no_spill ↦ hash_last_one small no_spill ∙ sym (take_byte_one no_spill)
    ]

    finalize_padded :
        (b : Bytes)
        → h.finalized ≡ false
        → pad_block c compress h.current_block h.current_block_index ≡ some b
        → finalize c compress h ≡ some (hash_last c compress h b)
    unfolding finalize
    finalize_padded b f e = if_false _ _ f ∙ rw e refl

    -- Finalizing ends, and is taking the padding byte by byte.
    pub finalize-take_byte :
        c.block_size < 2 ^ 32
        → h.finalized ≡ false
        → (done : Hash S) × (finalize c compress h ≡ some done)
          × (done.finalized ≡ false)
          × (done.finalized_value ≡ h.finalized_value)
          × (done.state
              ≡ (foldl
                  (take_byte c compress)
                  h
                  (padding c compress h.current_block_index h.file_size)).state)
    unfolding finalize hash_last
    finalize-take_byte small f =
        let padded = pad_block_lem c compress h.current_block h.current_block_index small o.room in
        let done =
          hash_last c compress h (padded_block c compress h.current_block h.current_block_index) in
        (done, finalize_padded _ f padded, f, refl, hash_last-take_byte small)
