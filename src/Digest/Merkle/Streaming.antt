-- ===== src/Digest/Merkle/Streaming.antt =====
-- src/crypto/digest/merkletree.cpp: a tree that takes its blocks one at a time and compacts its leaf
-- nodes whenever they fill their stack.
use samurai.Prelude.{
  ℕ, suc, ◌+◌, ◌-◌, ◌*◌, ◌^◌, ◌<◌, ◌≡◌, sym, ap, ◌∙◌, inl, List, [], ◌∷◌, ◌++◌, append_assoc, some,
  arith, if_cases, if◌then◌else◌, ◌==◌, length, length-append, Bytes, wrap,
}
use samurai.Digest.Merkle.{
  WorkStack, Tree, add_node, leaf_hash, promote, make_leaf_room, hash_block,
}
use samurai.Digest.Merkle.Stack.{places, holding}
use samurai.Digest.Merkle.Levels.{levels}
use samurai.Digest.Merkle.Growing.{add_node-any}
use samurai.Digest.Merkle.Compacting.{Streams, make_leaf_room-Ready}
use samurai.Digest.Merkle.Promoting.{promoted-Streams}

module _ (digest_of : List Bytes → Bytes) where
  Streams-count :
      (top : ℕ) (t : Tree) (ls : List Bytes) (c : ℕ)
      → Streams digest_of top t ls
      → Streams digest_of top (record t { count = c }) ls
  Streams-count top t ls c s = record {
    height = s.height;
    full = s.full;
    pending = s.pending;
    nodes = s.nodes;
    free = s.free;
    free_work = s.free_work;
    added = s.added;
    all_leaves = s.all_leaves;
    blocks = s.blocks;
    whole = s.whole;
    partial = s.partial;
    capacity = s.capacity;
    between = s.between;
    leaf_nodes = s.leaf_nodes;
    work = s.work;
    some_work = s.some_work;
  }

  -- The leaf on the work stack, which becomes a node when it is full.
  add_leaf-Streams :
      (top : ℕ) (u : Tree) (ls : List Bytes) (leaf : Bytes)
      → (s : Streams digest_of top u ls) → s.nodes < top
      → (let more = record u { work = add_node u.work (some leaf) } in
          Streams digest_of top
            (if more.work.size == more.blocks_per_leaf then promote digest_of more else more)
            (ls ++ leaf ∷ []))
  add_leaf-Streams top u ls leaf s room =
      let (left, added) = add_node-any s.pending leaf s.free_work (length s.pending) s.some_work in
      let longer : length (s.pending ++ leaf ∷ []) ≡ length s.pending + 1 =
        length-append s.pending (leaf ∷ []) in
      let more = record u { work = add_node u.work (some leaf) } in
      let held : more.work ≡ holding (s.pending ++ leaf ∷ []) left (length s.pending + 1) =
        ap (λ (w : WorkStack). add_node w (some leaf)) s.work
        ∙ added
        ∙ ap
            (λ (k : ℕ). record {
              nodes = places (s.pending ++ leaf ∷ []) left;
              pos = k;
              size = length s.pending + 1;
            })
            (sym longer) in
      let size : more.work.size ≡ length s.pending + 1 = ap (λ (w : WorkStack). w.size) held in
      let all : s.full ++ (s.pending ++ leaf ∷ []) ≡ ls ++ leaf ∷ [] =
        sym (append_assoc s.full s.pending (leaf ∷ []))
        ∙ ap (λ (l : List Bytes). l ++ leaf ∷ []) s.all_leaves in
      let one_free : s.free ≡ suc (s.free - 1) = omega (arith, s.capacity, room) in
      if_cases (λ (v : Tree). Streams digest_of top v (ls ++ leaf ∷ []))
        (more.work.size == more.blocks_per_leaf)
        (λ full.
          promoted-Streams digest_of top more (ls ++ leaf ∷ []) s.full (s.pending ++ leaf ∷ [])
            s.height s.nodes (s.free - 1) left s.added (length s.pending + 1) all s.blocks s.whole
            (ground (arith, full, longer, size, s.blocks)) (omega (arith, s.capacity, room))
            (s.leaf_nodes
              ∙ ap (λ (k : ℕ). holding (levels digest_of s.height s.full) k s.added) one_free)
            held)
        (λ short. record {
          height = s.height;
          full = s.full;
          pending = s.pending ++ leaf ∷ [];
          nodes = s.nodes;
          free = s.free;
          free_work = left;
          added = s.added;
          all_leaves = all;
          blocks = s.blocks;
          whole = s.whole;
          partial = ground (arith, short, longer, size, s.blocks, s.partial);
          capacity = s.capacity;
          between = inl room;
          leaf_nodes = s.leaf_nodes;
          work = held ∙ ap (λ (k : ℕ). holding (s.pending ++ leaf ∷ []) left k) (sym longer);
          some_work = omega (arith, longer);
        })

  pub hash_block-Streams :
      (half : ℕ) (t : Tree) (ls : List Bytes) (block : Bytes)
      → 0 < half
      → length ls < 2 ^ 64
      → Streams digest_of (half * 2) t ls
      → Streams digest_of
          (half * 2)
          (hash_block digest_of t block)
          (ls ++ leaf_hash digest_of block ∷ [])
  unfolding hash_block
  hash_block-Streams half t ls block pos few s =
      let (ready, room) = make_leaf_room-Ready digest_of half t ls pos few s in
      Streams-count (half * 2) _ (ls ++ leaf_hash digest_of block ∷ []) (wrap (t.count + 1)) (
        add_leaf-Streams (half * 2) (make_leaf_room digest_of t) ls (leaf_hash digest_of block)
          ready room)
