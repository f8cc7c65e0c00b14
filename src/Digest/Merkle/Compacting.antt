-- ===== src/Digest/Merkle/Compacting.antt =====
-- src/crypto/digest/merkletree.cpp: the leaf nodes of a tree that takes blocks, and their
-- compaction when the stack is full.
use samurai.Prelude.{
  ℕ, suc, ◌+◌, ◌*◌, ◌^◌, ◌≤◌, ◌<◌, ◌≡◌, ◌⊎◌, sym, ap, ◌∙◌, false, inl, inr, List, ◌++◌, arith,
  if_cases, ◌==◌, length, length-append, Bytes, wrap, double_pow,
}
use native.Mathlib.Nat.{pow-suc, mul-le-mul_right}
use samurai.Digest.Merkle.{Tree, is_full, compact_stack, make_leaf_room}
use samurai.Digest.Merkle.Stack.{holding}
use samurai.Digest.Merkle.Pairing.{length-level, compact_stack-level}
use samurai.Digest.Merkle.Levels.{levels}
use samurai.Digest.Merkle.Heights.{levels-suc, length-levels}
use samurai.Digest.Merkle.Growing.{is_full-holding}

module _ (digest_of : List Bytes → Bytes) where
  -- The leaves so far: those below the leaf nodes, and those on the work stack.
  pub record Streams (top : ℕ) (t : Tree) (ls : List Bytes) : Type 0 where
    pub height : ℕ
    pub full : List Bytes
    pub pending : List Bytes
    pub nodes : ℕ
    pub free : ℕ
    pub free_work : ℕ
    pub added : ℕ
    pub all_leaves : full ++ pending ≡ ls
    pub blocks : t.blocks_per_leaf ≡ 2 ^ height
    pub whole : length full ≡ nodes * 2 ^ height
    pub partial : length pending < 2 ^ height
    pub capacity : nodes + free ≡ top
    pub between : (nodes < top) ⊎ (length pending ≡ 0)
    pub leaf_nodes : t.leaf_nodes ≡ holding (levels digest_of height full) free added
    pub work : t.work ≡ holding pending free_work (length pending)
    pub some_work : 0 < length pending + free_work

  -- With room for one more leaf node.
  abbrev pub Ready : ℕ → Tree → List Bytes → Type 0
  Ready top t ls = (s : Streams top t ls) × (s.nodes < top)

  pairs_of : (half k : ℕ) → half * 2 * 2 ^ k ≡ half * 2 ^ suc k
  pairs_of half k = grind (arith, double_pow half k)

  at_least : (half k : ℕ) → 0 < half → 2 ^ suc k ≤ half * 2 ^ suc k
  at_least half k pos = grind (arith, mul-le-mul_right (2 ^ suc k) pos)

  after_compact :
      (half : ℕ) (t : Tree) (ls : List Bytes)
      → 0 < half
      → length ls < 2 ^ 64
      → (s : Streams (half * 2) t ls) → s.free ≡ 0
      → Ready
          (half * 2)
          (record t {
            leaf_nodes = compact_stack digest_of t.leaf_nodes;
            blocks_per_leaf = wrap (t.blocks_per_leaf * 2);
          })
          ls
  after_compact half t ls pos few s none_free =
      let filled : s.nodes ≡ half * 2 = omega (arith, s.capacity, none_free) in
      let below = levels digest_of s.height s.full in
      let size : length below ≡ half * 2 =
        length-levels digest_of s.height s.nodes s.full s.whole ∙ filled in
      let (more, (room, compacted)) =
        compact_stack-level digest_of half below s.free s.added size in
      let taller : length s.full ≡ half * 2 ^ suc s.height =
        s.whole ∙ ap (λ (n : ℕ). n * 2 ^ s.height) filled ∙ pairs_of half s.height in
      let bounded : 2 ^ suc s.height ≤ length ls = omega (
        arith,
        at_least half s.height pos,
        taller,
        length-append s.full s.pending,
        ap length s.all_leaves,
      ) in
      let empty : length s.pending ≡ 0 = elim s.between [
        | inl lt ↦ absurd (omega (arith, lt, filled))
        | inr e ↦ e
      ] in
      (
        record {
          height = suc s.height;
          full = s.full;
          pending = s.pending;
          nodes = half;
          free = more;
          free_work = s.free_work;
          added = s.added;
          all_leaves = s.all_leaves;
          blocks = omega (arith, s.blocks, pow-suc 2 s.height, bounded, few);
          whole = taller;
          partial = omega (arith, empty, pow-suc 2 s.height, s.partial);
          capacity = omega (arith, room, size, none_free, length-level digest_of below);
          between = inl (omega (arith, pos));
          leaf_nodes =
              ap (compact_stack digest_of) s.leaf_nodes
              ∙ compacted
              ∙ ap (λ (l : List Bytes). holding l more s.added)
                  (levels-suc digest_of s.height s.full);
          work = s.work;
          some_work = s.some_work;
        },
        omega (arith, pos),
      )

  pub make_leaf_room-Ready :
      (half : ℕ) (t : Tree) (ls : List Bytes)
      → 0 < half
      → length ls < 2 ^ 64
      → Streams (half * 2) t ls
      → Ready (half * 2) (make_leaf_room digest_of t) ls
  unfolding make_leaf_room
  make_leaf_room-Ready half t ls pos few s =
      let fullness : is_full t.leaf_nodes ≡ (s.free == 0) =
        ap is_full s.leaf_nodes
        ∙ is_full-holding (levels digest_of s.height s.full) s.free s.added in
      if_cases (λ (u : Tree). Ready (half * 2) u ls) (is_full t.leaf_nodes)
        (λ full. after_compact half t ls pos few s (ground (arith, sym fullness ∙ full)))
        (λ room. (s, omega (arith, s.capacity, not_zero s.free (sym fullness ∙ room))))
    where
      not_zero : (n : ℕ) → (n == 0) ≡ false → 0 < n
      not_zero n e = ground (arith, e)
