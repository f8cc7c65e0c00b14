-- ===== src/Digest/Hash/Stream.antt =====
-- src/crypto/digest/hash.cpp: `update` in terms of single bytes.
use samurai.Prelude.{
  ℕ, zero, suc, ◌+◌, ◌^◌, ◌≤◌, ◌<◌, ◌≡◌, refl, sym, ap, ◌∙◌, inl, inr, true, false, ◌||◌, [], ◌∷◌,
  ◌++◌, foldl, leb, arith, Bool-cases, ◌==◌, length, length-append, length-drop, length-take, take,
  drop, take-append-drop, Bytes, wrap, write, length-write, write-write,
}
use mathlib.Core.List.{foldl-append}
use samurai.Digest.Hash.{Config, Hash, flush, blocklen, fill, update_loop, update}

module _ {ℓ} {S : Type ℓ} (c : Config) (compress : S → Bytes → S) where
  -- One byte, as the buffer takes it.
  unfoldable pub take_byte : Hash S → ℕ → Hash S
  unfolding fill
  take_byte h x = fill c compress h (x ∷ [])

  pub record IsOpen (h : Hash S) : Type 0 where
    pub room : h.current_block_index < c.block_size
    pub block : length h.current_block ≡ c.block_size

  abbrev stored : Hash S → Bytes → Hash S
  stored h bytes = record h {
    current_block = write h.current_block h.current_block_index bytes;
    current_block_index = h.current_block_index + length bytes;
  }

  pub fill_short :
      (h : Hash S) (bytes : Bytes)
      → h.current_block_index + length bytes < c.block_size
      → fill c compress h bytes ≡ stored h bytes
  unfolding fill flush
  fill_short h bytes lt =
      let t : (h.current_block_index + length bytes == c.block_size) ≡ false = ground arith in
      rw (t, fill, flush)

  pub fill_full :
      (h : Hash S) (bytes : Bytes)
      → h.current_block_index + length bytes ≡ c.block_size
      → fill c compress h bytes ≡ (
          let block = write h.current_block h.current_block_index bytes in
          record h {
            current_block = block;
            current_block_index = 0;
            state = compress h.state block;
          })
  unfolding fill flush
  fill_full h bytes e =
      let t : (h.current_block_index + length bytes == c.block_size) ≡ true = ground arith in
      rw (t, fill, flush)

  fill_more :
      (h : Hash S) (x : ℕ) (ys : Bytes)
      → fill c compress h (x ∷ ys) ≡ fill c compress (stored h (x ∷ [])) ys
  unfolding fill
  fill_more h x ys = rw (
    write-write h.current_block h.current_block_index (h.current_block_index + 1) (x ∷ []) ys refl,
    shift,
  )
    where
      shift : h.current_block_index + 1 + length ys ≡ h.current_block_index + length (x ∷ ys)
      shift = omega arith

  -- Filling that does not pass the end of the block is take_byteing byte by byte.
  pub fill-take_byte :
      (xs : Bytes) (h : Hash S) (x : ℕ)
      → h.current_block_index + length (x ∷ xs) ≤ c.block_size
      → fill c compress h (x ∷ xs) ≡ foldl take_byte h (x ∷ xs)
  unfolding take_byte
  fill-take_byte [] h x le = refl
  fill-take_byte (y ∷ ys) h x le =
      fill_more h x (y ∷ ys)
      ∙ fill-take_byte ys (stored h (x ∷ [])) y (omega arith)
      ∙ ap (λ (g : Hash S). foldl take_byte g (y ∷ ys)) (sym (fill_short h (x ∷ []) (omega arith)))

  fill-IsOpen :
      (h : Hash S) (bytes : Bytes)
      → IsOpen h
      → h.current_block_index + length bytes ≤ c.block_size
      → IsOpen (fill c compress h bytes)
  unfolding fill flush
  fill-IsOpen h bytes o le =
      ground (arith, length-write h.current_block h.current_block_index bytes)

  -- So is filling with at least one byte.
  pub fill-take_byte_pos :
      (h : Hash S) (xs : Bytes)
      → 0 < length xs
      → h.current_block_index + length xs ≤ c.block_size
      → fill c compress h xs ≡ foldl take_byte h xs
  fill-take_byte_pos h [] pos le = absurd (omega arith)
  fill-take_byte_pos h (x ∷ xs) pos le = fill-take_byte xs h x le

  blocklen_bounds :
      (h : Hash S) (n : ℕ)
      → IsOpen h
      → 0 < n
      → (0 < blocklen c compress h n)
        × (blocklen c compress h n ≤ n)
        × (h.current_block_index + blocklen c compress h n ≤ c.block_size)
  blocklen_bounds h n o pos =
      (ground (arith, o.room), ground (arith, o.room), ground (arith, o.room))

  -- The loop, with a round for each byte that is left, take_bytes them all.
  update_loop-take_byte :
      (fuel : ℕ) (h : Hash S) (left : Bytes)
      → IsOpen h
      → length left ≤ fuel
      → update_loop c compress fuel h left ≡ foldl take_byte h left
  unfolding update_loop
  update_loop-take_byte zero h [] o le = refl
  update_loop-take_byte zero h (x ∷ xs) o le = absurd (omega arith)
  update_loop-take_byte (suc fuel) h [] o le = refl
  update_loop-take_byte (suc fuel) h (x ∷ xs) o le =
      let left = x ∷ xs in
      let n = blocklen c compress h (length left) in
      let (pos, few, fits) = blocklen_bounds h (length left) o (omega arith) in
      let taken : length (take n left) ≡ n = omega (arith, length-take n left) in
      let t : (length left == 0) ≡ false = ground arith in
      rw t (
        update_loop-take_byte fuel (fill c compress h (take n left)) (drop n left)
          (fill-IsOpen h (take n left) o (omega arith)) (omega (arith, length-drop n left))
        ∙ ap (λ (g : Hash S). foldl take_byte g (drop n left))
            (fill-take_byte_pos h (take n left) (omega arith) (omega arith))
        ∙ sym (foldl-append take_byte h (take n left) (drop n left))
        ∙ ap (foldl take_byte h) (take-append-drop n left))

  pub take_byte-IsOpen : (h : Hash S) (x : ℕ) → IsOpen h → IsOpen (take_byte h x)
  unfolding take_byte
  take_byte-IsOpen h x o = fill-IsOpen h (x ∷ []) o (omega (arith, o.room))

  pub foldl-take_byte-IsOpen : (xs : Bytes) (h : Hash S) → IsOpen h → IsOpen (foldl take_byte h xs)
  foldl-take_byte-IsOpen [] h o = o
  foldl-take_byte-IsOpen (x ∷ xs) h o =
      foldl-take_byte-IsOpen xs (take_byte h x) (take_byte-IsOpen h x o)

  -- `take_byte` sees the file size and the flag, and leaves them alone.
  unfoldable pub with_size : ℕ → Hash S → Hash S
  with_size n h = record h { file_size = n }

  take_byte-with_size :
      (n : ℕ) (h : Hash S) (x : ℕ) → take_byte (with_size n h) x ≡ with_size n (take_byte h x)
  unfolding take_byte fill flush with_size
  take_byte-with_size n h x = elim (Bool-cases (h.current_block_index + 1 == c.block_size)) [
    | inl full ↦ rw (full, fill, flush)
    | inr short ↦ rw (short, fill, flush)
  ]

  pub foldl-take_byte-with_size :
      (n : ℕ) (xs : Bytes) (h : Hash S)
      → foldl take_byte (with_size n h) xs ≡ with_size n (foldl take_byte h xs)
  foldl-take_byte-with_size n [] h = refl
  foldl-take_byte-with_size n (x ∷ xs) h =
      ap (λ (g : Hash S). foldl take_byte g xs) (take_byte-with_size n h x)
      ∙ foldl-take_byte-with_size n xs (take_byte h x)

  take_byte-kept :
      (h : Hash S) (x : ℕ)
      → ((take_byte h x).finalized ≡ h.finalized)
        × ((take_byte h x).file_size ≡ h.file_size)
        × ((take_byte h x).finalized_value ≡ h.finalized_value)
  unfolding take_byte fill flush
  take_byte-kept h x = (ground arith, ground arith, ground arith)

  pub foldl-take_byte-kept :
      (xs : Bytes) (h : Hash S)
      → ((foldl take_byte h xs).finalized ≡ h.finalized)
        × ((foldl take_byte h xs).file_size ≡ h.file_size)
        × ((foldl take_byte h xs).finalized_value ≡ h.finalized_value)
  foldl-take_byte-kept [] h = (refl, refl, refl)
  foldl-take_byte-kept (x ∷ xs) h =
      let (a, b, d) = foldl-take_byte-kept xs (take_byte h x) in
      let (p, q, r) = take_byte-kept h x in (a ∙ p, b ∙ q, d ∙ r)

  -- `update` takes its input byte by byte, and counts it.
  pub update-take_byte :
      (h : Hash S) (input : Bytes)
      → IsOpen h
      → h.finalized ≡ false
      → h.file_size < 2 ^ 64
      → update c compress h input
        ≡ with_size (wrap (h.file_size + length input)) (foldl take_byte h input)
  unfolding update with_size
  update-take_byte h [] o f lt =
      let e : wrap (h.file_size + length {A = ℕ} []) ≡ h.file_size = omega arith in rw e
  update-take_byte h (x ∷ xs) o f lt =
      let t : leb c.block_size h.current_block_index ≡ false = ground (arith, o.room) in
      let g : (length (x ∷ xs) == 0 || h.finalized) ≡ false = ground (arith, f) in
      rw (g, t)
        (ap (λ (k : Hash S). record k { file_size = wrap (h.file_size + length (x ∷ xs)) })
          (update_loop-take_byte (length (x ∷ xs)) h (x ∷ xs) o (omega arith)))

  update-IsOpen :
      (h : Hash S) (input : Bytes)
      → IsOpen h
      → h.finalized ≡ false
      → h.file_size < 2 ^ 64
      → IsOpen (update c compress h input)
  unfolding with_size
  update-IsOpen h input o f lt =
      let w = foldl-take_byte-IsOpen input h o in
      rw (update-take_byte h input o f lt) (record { room = w.room; block = w.block })

  -- On a hash that is not finalized, whose block has the block size and room in it, and whose count
  -- is below 2^64, two calls of `update` in turn leave what one call with both inputs leaves,
  -- whatever the compression function.
  pub update-update :
      (h : Hash S) (xs ys : Bytes)
      → IsOpen h
      → h.finalized ≡ false
      → h.file_size < 2 ^ 64
      → update c compress (update c compress h xs) ys ≡ update c compress h (xs ++ ys)
  unfolding with_size
  update-update h xs ys o f lt =
      ap (λ (g : Hash S). update c compress g ys) (update-take_byte h xs o f lt)
      ∙ update-take_byte mid ys mid-IsOpen mid-open (omega arith)
      ∙ ap (with_size (wrap (wrap (h.file_size + length xs) + length ys))) (
          foldl-take_byte-with_size (wrap (h.file_size + length xs)) ys (foldl take_byte h xs)
          ∙ ap (with_size (wrap (h.file_size + length xs))) (sym (foldl-append take_byte h xs ys)))
      ∙ ap (λ (n : ℕ). with_size n (foldl take_byte h (xs ++ ys))) sizes
      ∙ sym (update-take_byte h (xs ++ ys) o f lt)
    where
      mid : Hash S
      mid = with_size (wrap (h.file_size + length xs)) (foldl take_byte h xs)

      mid-IsOpen : IsOpen mid
      mid-IsOpen =
          let w = foldl-take_byte-IsOpen xs h o in record { room = w.room; block = w.block }

      mid-open : mid.finalized ≡ false
      mid-open = (foldl-take_byte-kept xs h).0 ∙ f

      sizes :
          wrap (wrap (h.file_size + length xs) + length ys) ≡ wrap (h.file_size + length (xs ++ ys))
      sizes = omega (arith, length-append xs ys)

  -- Once the hash is finalized, `update` does nothing.
  pub update_finalized :
      (h : Hash S) (input : Bytes) → h.finalized ≡ true → update c compress h input ≡ h
  unfolding update
  update_finalized h input f =
      let t : (length input == 0 || h.finalized) ≡ true = ground (arith, f) in rw (t, update)

  pub update-kept :
      (h : Hash S) (input : Bytes)
      → IsOpen h
      → h.finalized ≡ false
      → h.file_size < 2 ^ 64
      → ((update c compress h input).finalized ≡ h.finalized)
        × ((update c compress h input).finalized_value ≡ h.finalized_value)
  unfolding with_size
  update-kept h input o f lt =
      let fed = update-take_byte h input o f lt in
      let kept = foldl-take_byte-kept input h in
      (
        ap (λ (g : Hash S). g.finalized) fed ∙ kept.0,
        ap (λ (g : Hash S). g.finalized_value) fed ∙ kept.2,
      )
