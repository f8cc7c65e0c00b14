-- ===== src/Digest/Merkle/Message.antt =====
-- src/crypto/digest/merkletree.cpp: the blocks of a message, their digests, and what `update` keeps
-- of them.
use mathlib.Core.List.{foldl-append}
use samurai.Prelude.{
  ℕ, zero, suc, ◌*◌, ◌<◌, ◌≡◌, refl, sym, ap, ◌∙◌, ◌||◌, List, [], ◌∷◌, ◌++◌, foldl, map, arith,
  if◌then◌else◌, ltb, ◌==◌, length, length-take, length-drop, take, drop, take-append-drop, Bytes,
  write, slice-write, subst,
}
use samurai.Digest.Hash.{Config, Hash}
use samurai.Digest.Hash.Stream.{
  take_byte, IsOpen, fill_short, fill-take_byte_pos, foldl-take_byte-IsOpen,
}
use samurai.Digest.Hash.Padding.{blocks, take_byte_full}
use samurai.Digest.Merkle.{leaf_hash}
use samurai.Digest.Merkle.Pairing.{level}
use samurai.Digest.Merkle.Levels.{levels}

-- The blocks of a message of `n` blocks and a rest. The rest is a block of its own unless it is empty
-- and there are others.
abbrev pub tree_blocks : ℕ → ℕ → Bytes → Bytes → List Bytes
tree_blocks size n whole rest =
    if ltb 0 (length rest) || n == 0 then blocks size n whole ++ rest ∷ [] else blocks size n whole

pub length-blocks : (size n : ℕ) (xs : Bytes) → length (blocks size n xs) ≡ n
unfolding blocks
length-blocks size zero xs = refl
length-blocks size (suc n) xs = ap suc (length-blocks size n (drop size xs))

module _ (size : ℕ) (digest_of : List Bytes → Bytes)
    (sized : (parts : List Bytes) → length (digest_of parts) ≡ size) where
  abbrev AllSized : List Bytes → Type 0
  AllSized [] = Unit
  AllSized (x ∷ xs) = (length x ≡ size) × AllSized xs

  level-AllSized : (xs : List Bytes) → AllSized xs → AllSized (level digest_of xs)
  level-AllSized [] h = tt
  level-AllSized (a ∷ []) h = h
  level-AllSized (a ∷ b ∷ xs) h = (sized _, level-AllSized xs h.1.1)

  levels-AllSized : (k : ℕ) (xs : List Bytes) → AllSized xs → AllSized (levels digest_of k xs)
  levels-AllSized zero xs h = h
  levels-AllSized (suc k) xs h = levels-AllSized k (level digest_of xs) (level-AllSized xs h)

  leaves-AllSized : (bs : List Bytes) → AllSized (map (leaf_hash digest_of) bs)
  leaves-AllSized [] = tt
  leaves-AllSized (b ∷ bs) = (sized _, leaves-AllSized bs)

  pub length-root :
      (k : ℕ) (bs : List Bytes) (root : Bytes)
      → levels digest_of k (map (leaf_hash digest_of) bs) ≡ root ∷ []
      → length root ≡ size
  length-root k bs root e =
      (subst AllSized e (levels-AllSized k (map (leaf_hash digest_of) bs) (leaves-AllSized bs))).0

module _ {ℓ} {S : Type ℓ} (c : Config) (compress : S → Bytes → S) where
  -- Whole blocks leave the index at the start of a block.
  pub index_blocks :
      (n : ℕ) (h : Hash S) (xs : Bytes)
      → IsOpen c compress h
      → h.current_block_index ≡ 0
      → length xs ≡ n * c.block_size
      → (foldl (take_byte c compress) h xs).current_block_index ≡ 0
  index_blocks zero h [] o z e = z
  index_blocks zero h (x ∷ xs) o z e = absurd (omega arith)
  index_blocks (suc n) h xs o z e =
      let f = take_byte c compress in
      let first = take c.block_size xs in
      let rest = drop c.block_size xs in
      let first_length : length first ≡ c.block_size =
        omega (arith, e, length-take c.block_size xs) in
      let first_full =
        take_byte_full c compress h first (omega (arith, first_length, o.room))
          (omega (arith, first_length, z)) in
      ap (λ (t : Bytes). (foldl f h t).current_block_index) (sym (take-append-drop c.block_size xs))
      ∙ ap (λ (g : Hash S). g.current_block_index) (foldl-append f h first rest)
      ∙ index_blocks n (foldl f h first) rest (foldl-take_byte-IsOpen c compress first h o)
          (ap (λ (g : Hash S). g.current_block_index) first_full)
          (omega (arith, e, length-drop c.block_size xs))

  -- The rest of a message, which does not fill the block.
  pub fed_rest :
      (h : Hash S) (rest : Bytes)
      → IsOpen c compress h
      → h.current_block_index ≡ 0
      → length rest < c.block_size
      → (let g = foldl (take_byte c compress) h rest in
          (g.state ≡ h.state)
          × (g.current_block_index ≡ length rest)
          × (take (length rest) g.current_block ≡ rest))
  fed_rest h [] o z lt = (refl, z, refl)
  fed_rest h (x ∷ xs) o z lt =
      let rest = x ∷ xs in
      let fed =
        sym (fill-take_byte_pos c compress h rest (omega arith) (omega (arith, z, lt)))
        ∙ fill_short c compress h rest (omega (arith, z, lt)) in
      (
        ap (λ (g : Hash S). g.state) fed,
        ap (λ (g : Hash S). g.current_block_index) fed ∙ omega (arith, z),
        ap (λ (g : Hash S). take (length rest) g.current_block) fed
            ∙ ap (λ (i : ℕ). take (length rest) (write h.current_block i rest)) z
            ∙ slice-write h.current_block 0 0 (length rest) rest (omega arith) (omega arith)
                (omega (arith, lt, o.block)),
      )
