-- ===== src/Digest/Hash/Reference.antt =====
-- src/crypto/digest/hash.cpp: `update` and `finalize` against the textbook construction on blocks.
use mathlib.Core.List.{foldl-append}
use samurai.Prelude.{
  ◌⊎◌, ℕ, zero, suc, ◌+◌, ◌-◌, ◌*◌, ◌^◌, ◌≤◌, ◌<◌, ◌≡◌, sym, ap, ◌∙◌, inl, inr, false, some, [],
  ◌∷◌, ◌++◌, foldl, leb, arith, Bool-cases, ◌==◌, length, length-append, length-replicate,
  replicate, Bytes, wrap,
}
use samurai.Digest.Hash.Padding.{
  blocks, last_blocks, padding, take_byte-blocks, length-count_octets,
}
use samurai.Digest.Hash.Stream.{
  take_byte, IsOpen, fill_full, fill_short, with_size, update-take_byte, take_byte-IsOpen,
  foldl-take_byte-with_size, foldl-take_byte-IsOpen, foldl-take_byte-kept,
}
use samurai.Digest.Hash.{Config, Hash, count_octets, finalize, update}
use samurai.Digest.Hash.Finish.{finalize-take_byte}

module _ {ℓ} {S : Type ℓ} (c : Config) (compress : S → Bytes → S) (wide : 8 ≤ c.block_size)
    (octets : c.count_size ≡ 8) where
  take_byte-index :
      (h : Hash S) (x : ℕ)
      → IsOpen c compress h
      → ((take_byte c compress h x).current_block_index ≡ 0)
          × (h.current_block_index + 1 ≡ c.block_size)
        ⊎ ((take_byte c compress h x).current_block_index ≡ h.current_block_index + 1)
  unfolding take_byte
  take_byte-index h x o = elim (Bool-cases (h.current_block_index + 1 == c.block_size)) [
    | inl full ↦
        let e : h.current_block_index + 1 ≡ c.block_size = ground (arith, full) in
        inl (ap (λ (g : Hash S). g.current_block_index) (fill_full c compress h (x ∷ []) e), e)
    | inr short ↦
        let lt : h.current_block_index + 1 < c.block_size = ground (arith, short, o.room) in
        inr (ap (λ (g : Hash S). g.current_block_index) (fill_short c compress h (x ∷ []) lt))
  ]

  -- Where the index stands behind `n` whole blocks and `r` bytes.
  foldl-take_byte-index :
      (xs : Bytes) (h : Hash S) (n r : ℕ)
      → IsOpen c compress h
      → h.current_block_index + length xs ≡ n * c.block_size + r
      → r < c.block_size
      → (foldl (take_byte c compress) h xs).current_block_index ≡ r
  foldl-take_byte-index [] h zero r o e lt = omega arith
  foldl-take_byte-index [] h (suc n) r o e lt = absurd (omega (arith, o.room))
  foldl-take_byte-index (x ∷ xs) h zero r o e lt = elim (take_byte-index h x o) [
    | inl full ↦ absurd (omega (arith, full.1))
    | inr next ↦
        foldl-take_byte-index xs (take_byte c compress h x) zero r
          (take_byte-IsOpen c compress h x o) (omega (arith, next)) lt
  ]
  foldl-take_byte-index (x ∷ xs) h (suc n) r o e lt = elim (take_byte-index h x o) [
    | inl full ↦
        foldl-take_byte-index xs (take_byte c compress h x) n r (take_byte-IsOpen c compress h x o)
          (omega (arith, full.0, full.1)) lt
    | inr next ↦
        foldl-take_byte-index xs (take_byte c compress h x) (suc n) r
          (take_byte-IsOpen c compress h x o) (omega (arith, next)) lt
  ]

  length-padding :
      (r n : ℕ)
      → r < c.block_size
      → r + length (padding c compress r n) ≡ last_blocks c compress r * c.block_size
  length-padding r n lt = elim (Bool-cases (leb (c.block_size - c.count_size) r)) [
    | inl spill ↦ rw spill (
        omega (
          arith,
          wide,
          lt,
          length-append (replicate (c.block_size - (r + 1) + (c.block_size - 8)) 0) tail,
          length-replicate {A = ℕ} (c.block_size - (r + 1) + (c.block_size - 8)) 0,
          length-count_octets c.big_byte_endian n,
        ))
    | inr no_spill ↦
        let fit : r + 1 ≤ c.block_size - 8 = ground (arith, octets, lt, no_spill) in
        rw no_spill (
          omega (
            arith,
            wide,
            fit,
            length-append (replicate (c.block_size - 8 - (r + 1)) 0) tail,
            length-replicate {A = ℕ} (c.block_size - 8 - (r + 1)) 0,
            length-count_octets c.big_byte_endian n,
          ))
  ]
    where
      tail : Bytes
      tail = count_octets c.big_byte_endian n

  -- For blocks of at least 8 bytes and fewer than 2^32, a count of 8, and any compression function:
  -- after `update` with a message of `n` blocks and `r` bytes on a hash that is empty and not
  -- finalized, `finalize` ends, keeps the flag and the value, and leaves the fold of the
  -- compression function over the blocks of the message, the mark, the zeros and the count, of
  -- which the last `r` bytes and the padding take one block or two.
  pub finalize-update :
      (h : Hash S) (msg : Bytes) (n r : ℕ)
      → c.block_size < 2 ^ 32
      → IsOpen c compress h
      → h.current_block_index ≡ 0
      → h.file_size ≡ 0
      → h.finalized ≡ false
      → length msg ≡ n * c.block_size + r
      → r < c.block_size
      → (done : Hash S) × (finalize c compress (update c compress h msg) ≡ some done)
        × (done.finalized ≡ false)
        × (done.finalized_value ≡ h.finalized_value)
        × (done.state
            ≡ foldl compress h.state (
                blocks c.block_size
                  (n + last_blocks c compress r)
                  (msg ++ padding c compress r (wrap (length msg)))))
  unfolding with_size
  finalize-update h msg n r small o index_zero size_zero f e lt =
      let (still, _, same) = foldl-take_byte-kept c compress msg h in
      let (done, ends, unfinished, value, state) =
        finalize-take_byte c compress wide octets counted counted-IsOpen small (still ∙ f) in
      (
        done,
        ap (finalize c compress) (
              update-take_byte c compress h msg o f (omega (arith, size_zero))
              ∙ ap (λ (k : ℕ). with_size c compress (wrap k) fed) sizes)
            ∙ ends,
        unfinished,
        value ∙ same,
        state
            ∙ ap
                (λ (i : ℕ).
                  (foldl (take_byte c compress) counted (padding c compress i size)).state)
                index
            ∙ ap (λ (g : Hash S). g.state)
                (foldl-take_byte-with_size c compress size (padding c compress r size) fed)
            ∙ ap (λ (g : Hash S). g.state)
                (sym (foldl-append (take_byte c compress) h msg (padding c compress r size)))
            ∙ take_byte-blocks c compress (n + last_blocks c compress r) h
                (msg ++ padding c compress r size) o index_zero
                (omega (
                  arith,
                  e,
                  length-append msg (padding c compress r size),
                  length-padding r size lt,
                )),
      )
    where
      size : ℕ
      size = wrap (length msg)

      fed : Hash S
      fed = foldl (take_byte c compress) h msg

      counted : Hash S
      counted = with_size c compress size fed

      counted-IsOpen : IsOpen c compress counted
      counted-IsOpen =
          let w = foldl-take_byte-IsOpen c compress msg h o in
          record { room = w.room; block = w.block }

      sizes : h.file_size + length msg ≡ length msg
      sizes = omega (arith, size_zero)

      index : counted.current_block_index ≡ r
      index = foldl-take_byte-index msg h n r o (omega (arith, e, index_zero)) lt
