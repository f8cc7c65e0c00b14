-- ===== src/Digest/Merkle.antt =====
-- src/crypto/digest/merkletree.cpp: the tree of digests over the blocks of its input. The members
-- that the tree inherits from Hash, with the block that is not full, are those of Digest/Hash.antt,
-- and the tree is the state that `hash` changes. The hasher is an argument: `digest_of` gives the
-- digest that it returns after a reset and an update with each of the parts.
pub mod Stack
pub mod Pairing
pub mod Levels
pub mod Heights
pub mod Growing
pub mod Compacting
pub mod Promoting
pub mod Streaming
pub mod Root
pub mod Message
pub mod Digesting
mod Tests
use samurai.Prelude.{
  ℕ, zero, suc, ◌+◌, ◌-◌, ◌*◌, ◌/◌, ◌%◌, Bool, true, false, ◌||◌, List, [], ◌∷◌, ◌++◌, foldl,
  Option, none, some, if◌then◌else◌, ltb, ◌==◌, length, take, replicate, set, get_or, Bytes, wrap,
}
use samurai.Digest.Hash.{Hash, set_finalized_value}

-- MerkleWorkStack. A node is its digest, and a null pointer is none.
pub record WorkStack : Type 0 where
  pub nodes : List (Option Bytes)
  pub pos : ℕ
  pub size : ℕ

unfoldable pub new_stack : ℕ → WorkStack
new_stack capacity = record { nodes = replicate capacity none; pos = 0; size = 0 }

unfoldable pub is_full : WorkStack → Bool
is_full s = s.pos == length s.nodes

-- resize to twice the capacity
unfoldable pub grow_stack : WorkStack → WorkStack
grow_stack s = record s { nodes = s.nodes ++ replicate (length s.nodes) none }

unfoldable pub add_node : WorkStack → Option Bytes → WorkStack
add_node s node =
    let room = if is_full s then grow_stack s else s in
    record room { nodes = set room.nodes room.pos node; pos = room.pos + 1; size = room.size + 1 }

-- A read past the end, which the source leaves undefined, gives a null pointer.
abbrev pub get_node : WorkStack → ℕ → Option Bytes
get_node s i = get_or s.nodes i none

-- What `release` and `destroy` leave.
abbrev pub without : WorkStack → ℕ → WorkStack
without s i = record s { nodes = set s.nodes i none }

unfoldable pub release_first : WorkStack → Option Bytes × WorkStack
release_first s = (get_node s (s.pos - 1), record (without s (s.pos - 1)) { pos = s.pos - 1 })

unfoldable pub clear_stack : WorkStack → WorkStack
clear_stack s = record { nodes = replicate (length s.nodes) none; pos = 0; size = 0 }

unfoldable pub set_position : WorkStack → ℕ → WorkStack
set_position s npos = record s {
  nodes = take npos s.nodes ++ replicate (length s.nodes - npos) none;
  pos = npos;
}

-- The members of MerkleTree.
pub record Tree : Type 0 where
  pub max_levels : ℕ
  pub max_leaves : ℕ
  pub blocks_per_leaf : ℕ
  pub count : ℕ
  pub leaf_nodes : WorkStack
  pub work : WorkStack

-- The loop of calcMaxNumLeaves, on a size_t, which wraps to 0 at the 64th round.
unfoldable pub double_level : ℕ → ℕ
double_level zero = 1
double_level (suc n) = wrap (double_level n * 2)

unfoldable pub calc_max_num_leaves : ℕ → ℕ
calc_max_num_leaves depth = if ltb depth 1 then 1 else double_level (depth - 1)

-- The constructor, and what `reset` leaves.
unfoldable pub new_tree : ℕ → Tree
new_tree max_levels =
    let most = calc_max_num_leaves max_levels in
    record {
      max_levels = max_levels;
      max_leaves = most;
      blocks_per_leaf = 1;
      count = 0;
      leaf_nodes = new_stack most;
      work = new_stack most;
    }

module _ (digest_of : List Bytes → Bytes) where
  -- leaf_hash_prefix and node_hash_prefix
  abbrev pub leaf_hash : Bytes → Bytes
  leaf_hash block = digest_of ((0x00 ∷ []) ∷ block ∷ [])

  abbrev pub node_hash : Bytes → Bytes → Bytes
  node_hash a b = digest_of ((0x01 ∷ []) ∷ a ∷ b ∷ [])

  unfoldable pub combine : Option Bytes → Option Bytes → Option Bytes
  combine none b = none
  combine (some a) none = none
  combine (some a) (some b) = some (node_hash a b)

  -- The loop of `compact`, for the pairs from `i` on. As many rounds as half the position are enough.
  unfoldable pub compact_loop : ℕ → WorkStack → ℕ → ℕ → WorkStack × ℕ
  compact_loop zero s i j = (s, j)
  compact_loop (suc rounds) s i j =
      let combined = combine (get_node s i) (get_node s (suc i)) in
      let emptied = without (without s i) (suc i) in
      compact_loop rounds (record emptied { nodes = set emptied.nodes j combined }) (suc (suc i))
        (suc j)

  unfoldable pub compact_stack : WorkStack → WorkStack
  compact_stack s = let r = compact_loop ((s.pos + 1) / 2) s 0 0 in set_position r.0 r.1

  -- A round of the loop of compact_all: an odd node at the end is set aside.
  unfoldable pub compact_round : WorkStack → WorkStack
  compact_round s =
      if s.pos % 2 == 1
      then add_node (compact_stack (release_first s).1) (release_first s).0
      else compact_stack s

  -- The loop of compact_all. Each round leaves fewer nodes.
  unfoldable pub compact_loop_all : ℕ → WorkStack → WorkStack
  compact_loop_all zero s = s
  compact_loop_all (suc rounds) s = elim (ltb 1 s.pos) [
    | true ↦ compact_loop_all rounds (compact_round s)
    | false ↦ s
  ]

  unfoldable pub compact_all : WorkStack → WorkStack
  compact_all s = compact_loop_all s.pos s

  -- The end of `hash` and of `finalize`: the work stack becomes one leaf node.
  unfoldable pub promote : Tree → Tree
  promote t =
      let (node, rest) = release_first (compact_all t.work) in
      record t { leaf_nodes = add_node t.leaf_nodes node; work = clear_stack rest }

  -- The start of `hash`.
  unfoldable pub make_leaf_room : Tree → Tree
  make_leaf_room t =
      if is_full t.leaf_nodes
      then record t {
        leaf_nodes = compact_stack t.leaf_nodes;
        blocks_per_leaf = wrap (t.blocks_per_leaf * 2);
      }
      else t

  -- `hash` on a tree that is not finalized, which both of its callers test first.
  unfoldable pub hash_block : Tree → Bytes → Tree
  hash_block t block =
      let room = make_leaf_room t in
      let more = record room { work = add_node room.work (some (leaf_hash block)) } in
      let done = if more.work.size == more.blocks_per_leaf then promote more else more in
      record done { count = wrap (t.count + 1) }

  -- `finalize` behind the last block: the work stack becomes a leaf node, the leaf nodes are saved on
  -- it, reduced to the root, and put back.
  unfoldable pub finish_tree : Tree → Tree × Option Bytes
  finish_tree t =
      let promoted = if t.work.size == 0 then t else promote t in
      let saved =
        foldl add_node promoted.work (take promoted.leaf_nodes.pos promoted.leaf_nodes.nodes) in
      let reduced = compact_all promoted.leaf_nodes in
      (
        record promoted {
          leaf_nodes = foldl add_node (clear_stack reduced) (take saved.pos saved.nodes);
          work = clear_stack saved;
        },
        get_node reduced (reduced.pos - 1),
      )

  -- The value that the root node gives. A null pointer, which a tree never has there, gives nothing.
  abbrev pub value_of : Option Bytes → Bytes
  value_of none = []
  value_of (some root) = root

  -- `finalize`, with the block that is not full.
  unfoldable pub finalize_tree : Hash Tree → Hash Tree
  finalize_tree h =
      let last =
        if ltb 0 h.current_block_index || h.state.count == 0
        then hash_block h.state (take h.current_block_index h.current_block)
        else h.state in
      let finished = finish_tree last in
      if h.finalized
      then h
      else record (set_finalized_value (record h { state = finished.0 }) (value_of finished.1)) {
        finalized = true;
      }
