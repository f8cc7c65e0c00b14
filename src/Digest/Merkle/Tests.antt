-- ===== src/Digest/Merkle/Tests.antt =====
-- The theorems on trees at concrete messages, and the published digest of the empty message.
use samurai.Prelude.{
  ℕ, false, ◌+◌, ◌%◌, ◌≡◌, refl, List, [], ◌∷◌, ◌++◌, map, foldl, none, some, arith, length, Bytes,
}
use samurai.Digest.Hash.{Config, make, update}
use samurai.Digest.Tiger.{tiger, tiger_update, digest}
use samurai.Digest.Hash.{set_finalized_value, pad_block, pad_loop, hash_last}
use samurai.Digest.Merkle.{
  new_stack, calc_max_num_leaves, double_level, new_tree, is_full, grow_stack, add_node,
  release_first, clear_stack, set_position, combine, compact_loop, compact_stack, compact_loop_all,
  compact_all, promote, make_leaf_room, leaf_hash, hash_block, finish_tree, finalize_tree,
}
use samurai.Digest.Merkle.Stack.{holding}
use samurai.Digest.Merkle.Levels.{levels, Holds, compact_all-levels}
use samurai.Digest.Merkle.Message.{tree_blocks}
use samurai.Digest.Merkle.Digesting.{tree_digest}

-- A digest of one byte: the sum of what it is given.
abbrev sum : ℕ → Bytes → ℕ
sum n [] = n
sum n (x ∷ xs) = sum (n + x) xs

abbrev check_sum : List Bytes → Bytes
check_sum parts = foldl sum 0 parts % 256 ∷ []

abbrev config : Config
config = record {
  size = 1;
  block_size = 2;
  count_size = 0;
  big_bit_endian = false;
  big_byte_endian = false;
}

-- Five blocks of two bytes, and one of one byte.
abbrev whole : Bytes
whole = 1 ∷ 2 ∷ 3 ∷ 4 ∷ 5 ∷ 6 ∷ 7 ∷ 8 ∷ 9 ∷ 10 ∷ []

abbrev three_nodes : List Bytes
three_nodes = (1 ∷ []) ∷ (2 ∷ []) ∷ (3 ∷ []) ∷ []

tree_digest_example :
    levels check_sum
      (length (tree_blocks 2 5 whole (11 ∷ [])))
      (map (leaf_hash check_sum) (tree_blocks 2 5 whole (11 ∷ [])))
    ≡ (finalize_tree check_sum (
        update config
          (hash_block check_sum)
          (make config (new_tree 2))
          (whole ++ 11 ∷ []))).finalized_value
      ∷ []
tree_digest_example =
    tree_digest config check_sum 0 5 whole (11 ∷ []) (omega arith) refl (omega arith) (omega arith)
      (omega arith) (λ parts. refl)

compact_all-levels_example :
    Holds check_sum
      (compact_all check_sum (holding three_nodes 1 3))
      (levels check_sum 3 three_nodes)
    × (length (levels check_sum 3 three_nodes) ≡ 1)
compact_all-levels_example = compact_all-levels check_sum three_nodes 1 3 (omega arith)

-- What stands behind a block.
abbrev zeros : ℕ → ℕ
zeros i = 0

-- Tiger as the hasher.
tiger_of : List Bytes → Bytes
tiger_of parts =
    elim (digest zeros 3 64 (foldl (tiger_update zeros 3 64) (tiger zeros 3 64) parts)) [
      | none ↦ []
      | some (done, value) ↦ value
    ]

abbrev tth_config : Config
tth_config = record {
  size = 24;
  block_size = 1024;
  count_size = 0;
  big_bit_endian = false;
  big_byte_endian = false;
}

-- The published tree hash of the empty message: LWPNACQDBZRYXW3VHJVCJ64QBZNGHOHHHZWCLNQ.
tth_empty :
    (finalize_tree tiger_of (make tth_config (new_tree 7))).finalized_value
    ≡ 0x5D ∷ 0x9E ∷ 0xD0 ∷ 0x0A ∷ 0x03 ∷ 0x0E ∷ 0x63 ∷ 0x8B ∷ 0xDB ∷ 0x75 ∷ 0x3A ∷ 0x6A ∷ 0x24
      ∷ 0xFB ∷ 0x90 ∷ 0x0E ∷ 0x5A ∷ 0x63 ∷ 0xB8 ∷ 0xE7 ∷ 0x3E ∷ 0x6C ∷ 0x25 ∷ 0xB6 ∷ []
unfolding tiger_of finalize_tree make new_tree new_stack calc_max_num_leaves double_level hash_block
    make_leaf_room is_full grow_stack add_node promote finish_tree compact_all compact_loop_all
    release_first clear_stack set_finalized_value digest tiger tiger_update pad_block pad_loop
    hash_last
tth_empty = refl

-- A tree of one level has no pair to make room with: its second block leaves a null pointer where
-- the leaf node was.
one_level :
    (hash_block check_sum (hash_block check_sum (new_tree 1) whole) whole).leaf_nodes.nodes
    ≡ none ∷ []
unfolding new_tree new_stack calc_max_num_leaves double_level hash_block make_leaf_room is_full
    grow_stack add_node promote compact_stack compact_loop combine set_position compact_all
    compact_loop_all release_first clear_stack
one_level = refl
