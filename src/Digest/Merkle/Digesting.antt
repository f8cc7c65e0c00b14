-- ===== src/Digest/Merkle/Digesting.antt =====
-- src/crypto/digest/merkletree.cpp: the digest of a message, from `update` and `finalize`.
use mathlib.Core.List.{foldl-append}
use samurai.Prelude.{
  ℕ, suc, ◌+◌, ◌*◌, ◌^◌, ◌≤◌, ◌<◌, ◌≡◌, refl, sym, ap, ◌∙◌, false, ◌||◌, inl, inr, List, [], ◌∷◌,
  ◌++◌, foldl, map, some, arith, Bool-cases, if_cases, if◌then◌else◌, ltb, ◌==◌, length,
  length-append, length-map, take, length-replicate, Bytes, wrap,
}
use samurai.Digest.Hash.{Config, Hash, make, update, set_finalized_value}
use samurai.Digest.Hash.Stream.{
  take_byte, IsOpen, with_size, update-take_byte, foldl-take_byte-IsOpen, foldl-take_byte-kept,
}
use samurai.Digest.Hash.Padding.{blocks, take_byte-blocks}
use samurai.Digest.Merkle.{
  Tree, new_tree, leaf_hash, hash_block, finish_tree, finalize_tree, value_of,
}
use samurai.Digest.Merkle.Levels.{levels}
use samurai.Digest.Merkle.Root.{tree-IsRoot}
use samurai.Digest.Merkle.Message.{tree_blocks, length-blocks, length-root, index_blocks, fed_rest}

-- What `finalize` does, on a hash that has taken a message.
module _ (c : Config) (digest_of : List Bytes → Bytes) (d n : ℕ) (whole rest : Bytes)
    (some_block : 0 < c.block_size) (whole_length : length whole ≡ n * c.block_size)
    (rest_length : length rest < c.block_size) where
  abbrev h0 : Hash Tree
  h0 = make c (new_tree (suc (suc d)))

  abbrev compress : Tree → Bytes → Tree
  compress = hash_block digest_of

  fresh-IsOpen : IsOpen c compress h0
  unfolding make
  fresh-IsOpen = record { room = some_block; block = length-replicate {A = ℕ} c.block_size 0 }

  middle : Hash Tree
  middle = foldl (take_byte c compress) h0 whole

  fed : Hash Tree
  fed = foldl (take_byte c compress) middle rest

  middle-index : middle.current_block_index ≡ 0
  unfolding middle make
  middle-index = index_blocks c compress n h0 whole fresh-IsOpen refl whole_length

  middle-state :
      middle.state ≡ foldl compress (new_tree (suc (suc d))) (blocks c.block_size n whole)
  unfolding middle make
  middle-state = take_byte-blocks c compress n h0 whole fresh-IsOpen refl whole_length

  fed_all :
      (fed.state ≡ middle.state)
      × (fed.current_block_index ≡ length rest)
      × (take (length rest) fed.current_block ≡ rest)
  unfolding fed middle
  fed_all =
      fed_rest c compress middle rest (foldl-take_byte-IsOpen c compress whole h0 fresh-IsOpen)
        middle-index rest_length

  fed_kept : (fed.finalized ≡ false) × (length fed.finalized_value ≡ c.size)
  unfolding fed middle make
  fed_kept =
      let (a, _, v) = foldl-take_byte-kept c compress rest middle in
      let (b, _, w) = foldl-take_byte-kept c compress whole h0 in
      (a ∙ b, ap length (v ∙ w) ∙ length-replicate {A = ℕ} c.size 0)

  updated :
      update c compress h0 (whole ++ rest)
      ≡ with_size c compress (wrap (length (whole ++ rest))) fed
  unfolding fed middle make
  updated =
      update-take_byte c compress h0 (whole ++ rest) fresh-IsOpen refl (omega arith)
      ∙ ap
          (λ (k : ℕ).
            with_size c compress (wrap k) (foldl (take_byte c compress) h0 (whole ++ rest)))
          zero_more
      ∙ ap (with_size c compress (wrap (length (whole ++ rest))))
          (foldl-append (take_byte c compress) h0 whole rest)
    where
      zero_more : 0 + length (whole ++ rest) ≡ length (whole ++ rest)
      zero_more = omega arith

  blocks-count :
      (bs : List Bytes) (t : Tree)
      → t.count + length bs < 2 ^ 64
      → (foldl compress t bs).count ≡ t.count + length bs
  unfolding hash_block
  blocks-count [] t lt = omega arith
  blocks-count (b ∷ bs) t lt =
      let one : (compress t b).count ≡ t.count + 1 = omega (arith, lt) in
      omega (arith, one, blocks-count bs (compress t b) (omega (arith, one, lt)))

  taken : Tree
  taken = foldl compress (new_tree (suc (suc d))) (blocks c.block_size n whole)

  -- The last block, as `finalize` takes it.
  last_of : Tree → ℕ → Bytes → ℕ → Tree
  last_of t index bytes count = if ltb 0 index || count == 0 then compress t bytes else t

  message_blocks : List Bytes
  message_blocks = tree_blocks c.block_size n whole rest

  last_taken :
      last_of taken (length rest) rest n ≡ foldl compress (new_tree (suc (suc d))) message_blocks
  unfolding last_of taken message_blocks
  last_taken = elim (Bool-cases (ltb 0 (length rest) || n == 0)) [
    | inl more ↦ rw more (
        sym (
          foldl-append compress (new_tree (suc (suc d))) (blocks c.block_size n whole) (rest ∷ [])))
    | inr over ↦ rw over refl
  ]

  taken-count : suc n < 2 ^ 64 → taken.count ≡ n
  unfolding taken new_tree
  taken-count few =
      let size = length-blocks c.block_size n whole in
      omega (
        arith,
        size,
        blocks-count (blocks c.block_size n whole) (new_tree (suc (suc d)))
            (omega (arith, few, size)),
      )

  at_blocks : middle.state ≡ taken
  unfolding taken
  at_blocks = middle-state

  fed_last :
      suc n < 2 ^ 64
      → last_of fed.state fed.current_block_index
          (take fed.current_block_index fed.current_block)
          fed.state.count
        ≡ foldl compress (new_tree (suc (suc d))) message_blocks
  fed_last few =
      let (state, index, block) = fed_all in
      let same : fed.state ≡ taken = state ∙ at_blocks in
      ap
        (λ (t : Tree).
          last_of t fed.current_block_index (take fed.current_block_index fed.current_block)
            t.count)
        same
      ∙ ap (λ (i : ℕ). last_of taken i (take i fed.current_block) taken.count) index
      ∙ ap (λ (b : Bytes). last_of taken (length rest) b taken.count) block
      ∙ ap (last_of taken (length rest) rest) (taken-count few)
      ∙ last_taken

  finalize_value :
      (h : Hash Tree) (root : Bytes)
      → h.finalized ≡ false
      → length h.finalized_value ≡ c.size
      → (finish_tree digest_of (
          last_of h.state h.current_block_index
            (take h.current_block_index h.current_block)
            h.state.count)).1
        ≡ some root
      → length root ≡ c.size
      → (finalize_tree digest_of h).finalized_value ≡ root
  unfolding finalize_tree last_of set_finalized_value
  finalize_value h root f size e root_size =
      let P : Hash Tree → Type 0 = λ g. g.finalized_value ≡ root in
      let value = ap (value_of digest_of) e in
      if_cases P h.finalized (λ yes. absurd (ground (arith, yes, f)))
        (λ _.
          if_cases P h.finalized (λ yes. absurd (ground (arith, yes, f)))
            (λ _.
              if_cases P
                (length (
                    value_of digest_of
                      (finish_tree digest_of (
                        last_of h.state h.current_block_index
                          (take h.current_block_index h.current_block) h.state.count)).1)
                  == length h.finalized_value)
                (λ _. value)
                (λ differ. absurd (ground (arith, differ, size, root_size, ap length value)))))

  length-message_blocks : (length message_blocks ≤ suc n) × (0 < length message_blocks)
  unfolding message_blocks
  length-message_blocks =
      let bs = blocks c.block_size n whole in
      let size = length-blocks c.block_size n whole in
      if_cases (λ (l : List Bytes). (length l ≤ suc n) × (0 < length l))
        (ltb 0 (length rest) || n == 0)
        (λ _. (
          omega (arith, size, length-append bs (rest ∷ [])),
          omega (arith, length-append bs (rest ∷ [])),
        ))
        (λ more. (omega (arith, size), ground (arith, more, size)))

  -- For a tree of a depth from two to 60, a block size that is not 0, and a hasher whose digests
  -- have the size of the tree's: `update` with a message of `n` blocks, fewer than 2^64 - 1, and a
  -- rest shorter than a block, on a new tree, and then `finalize`, give as value the root of the
  -- leaf digests of the blocks and the rest (which is no leaf when it is empty and there are
  -- blocks), that is, the only node left when neighbours are combined level by level and an odd
  -- node goes up as it is. The depth, and with it how often the leaf nodes were compacted, makes no
  -- difference.
  pub tree_digest :
      d ≤ 58
      → suc n < 2 ^ 64
      → ((parts : List Bytes) → length (digest_of parts) ≡ c.size)
      → levels digest_of
          (length (tree_blocks c.block_size n whole rest))
          (map (leaf_hash digest_of) (tree_blocks c.block_size n whole rest))
        ≡ (finalize_tree digest_of (update c compress h0 (whole ++ rest))).finalized_value ∷ []
  unfolding message_blocks with_size
  tree_digest depth few sized =
      let bs = message_blocks in
      let r =
        tree-IsRoot digest_of d bs depth length-message_blocks.1
          (omega (arith, few, length-message_blocks.0)) in
      let is_root =
        ap (λ (k : ℕ). levels digest_of k (map (leaf_hash digest_of) bs))
          (sym (length-map bs (leaf_hash digest_of)))
        ∙ r.is_root in
      is_root
      ∙ ap (λ (b : Bytes). b ∷ [])
          (sym (
            ap (λ (h : Hash Tree). (finalize_tree digest_of h).finalized_value) updated
            ∙ finalize_value (with_size c compress (wrap (length (whole ++ rest))) fed) r.root
                fed_kept.0 fed_kept.1
                (ap (λ (t : Tree). (finish_tree digest_of t).1) (fed_last few) ∙ r.found)
                (length-root c.size digest_of sized (length bs) bs r.root is_root)))
