-- ===== src/Digest/Merkle/Root.antt =====
-- src/crypto/digest/merkletree.cpp: the root of a tree that has taken all its blocks.
use samurai.Prelude.{
  ℕ, zero, suc, ◌+◌, ◌-◌, ◌*◌, ◌^◌, ◌<◌, ◌≡◌, refl, sym, ap, ◌∙◌, false, inl, inr, List, [], ◌∷◌,
  ◌++◌, append_assoc, append-nil, foldl, map, Option, some, arith, if_false, if_cases, ltb, ◌≤◌,
  ◌==◌, length, length-append, length-map, Bytes, subst,
}
use native.Mathlib.Nat.{pow-suc, one-le-pow, pow-le-pow_right}
use samurai.Digest.Merkle.{
  WorkStack, Tree, get_node, calc_max_num_leaves, double_level, new_stack, new_tree, leaf_hash,
  compact_all, promote, hash_block, finish_tree,
}
use samurai.Digest.Merkle.Stack.{holding}
use samurai.Digest.Merkle.Levels.{levels, compact_all-levels}
use samurai.Digest.Merkle.Heights.{levels-levels, same_root, levels-append, levels_fit, levels_some}
use samurai.Digest.Merkle.Compacting.{Streams}
use samurai.Digest.Merkle.Promoting.{single, promote-Promoted}
use samurai.Digest.Merkle.Streaming.{hash_block-Streams}

-- Before the 64th round nothing has wrapped.
double_level_pow : (d : ℕ) → d < 64 → double_level d ≡ 2 ^ d
unfolding double_level
double_level_pow zero lt = refl
double_level_pow (suc d) lt =
    let below : 2 ^ suc d ≤ 2 ^ 63 =
      pow-le-pow_right (omega arith) {i = suc d} {j = 63} (omega (arith, lt)) in
    omega (arith, below, pow-suc 2 d, double_level_pow d (omega (arith, lt)))

double_level_bounds :
    (d : ℕ) → d ≤ 58 → (0 < double_level d) × (double_level (suc d) ≡ double_level d * 2)
double_level_bounds d h =
    let here = double_level_pow d (omega (arith, h)) in
    let next = double_level_pow (suc d) (omega (arith, h)) in
    (omega (arith, here, one-le-pow d 2 (omega arith)), omega (arith, here, next, pow-suc 2 d))

calc_max_num_leaves-double :
    (d : ℕ) → d ≤ 58 → calc_max_num_leaves (suc (suc d)) ≡ double_level d * 2
unfolding calc_max_num_leaves double_level
calc_max_num_leaves-double d h =
    let deep : ltb (suc (suc d)) 1 ≡ false = ground arith in
    let one_less : suc (suc d) - 1 ≡ suc d = omega arith in
    if_false _ _ deep ∙ ap double_level one_less ∙ (double_level_bounds d h).1

module _ (digest_of : List Bytes → Bytes) where
  start : (d : ℕ) → d ≤ 58 → Streams digest_of (double_level d * 2) (new_tree (suc (suc d))) []
  unfolding new_tree new_stack
  start d h =
      let top = calc_max_num_leaves-double d h in
      record {
        height = 0;
        full = [];
        pending = [];
        nodes = 0;
        free = double_level d * 2;
        free_work = double_level d * 2;
        added = 0;
        all_leaves = refl;
        blocks = omega arith;
        whole = omega arith;
        partial = omega arith;
        capacity = omega arith;
        between = inr refl;
        leaf_nodes = ap (λ (n : ℕ). holding [] n 0) top;
        work = ap (λ (n : ℕ). holding [] n 0) top;
        some_work = omega (arith, (double_level_bounds d h).0);
      }

  pub blocks-Streams :
      (half : ℕ) (blocks : List Bytes) (t : Tree) (ls : List Bytes)
      → 0 < half
      → length ls + length blocks < 2 ^ 64
      → Streams digest_of (half * 2) t ls
      → Streams digest_of
          (half * 2)
          (foldl (hash_block digest_of) t blocks)
          (ls ++ map (leaf_hash digest_of) blocks)
  blocks-Streams half [] t ls pos few s =
      subst (λ (l : List Bytes). Streams digest_of (half * 2) t l) (sym (append-nil ls)) s
  blocks-Streams half (b ∷ bs) t ls pos few s =
      let leaf = leaf_hash digest_of b in
      subst
        (λ (l : List Bytes).
          Streams digest_of (half * 2) (foldl (hash_block digest_of) (hash_block digest_of t b) bs)
            l)
        (append_assoc ls (leaf ∷ []) (map (leaf_hash digest_of) bs))
        (blocks-Streams half bs (hash_block digest_of t b) (ls ++ leaf ∷ []) pos
          (omega (arith, few, length-append ls (leaf ∷ [])))
          (hash_block-Streams digest_of half t ls b pos (omega (arith, few)) s))

  -- The root of some leaves, in a node.
  pub record IsRoot (ls : List Bytes) (node : Option Bytes) : Type 0 where
    pub root : Bytes
    pub found : node ≡ some root
    pub is_root : levels digest_of (length ls) ls ≡ root ∷ []

  top_node : WorkStack → Option Bytes
  top_node s = let reduced = compact_all digest_of s in get_node reduced (reduced.pos - 1)

  reduced-IsRoot :
      (ls : List Bytes) (k : ℕ) (s : WorkStack) (free added : ℕ)
      → 0 < length ls
      → 0 < length (levels digest_of k ls)
      → s ≡ holding (levels digest_of k ls) free added
      → IsRoot ls (top_node s)
  unfolding top_node
  reduced-IsRoot ls k s free added pos some_nodes e =
      let xs = levels digest_of k ls in
      let (held, one) = compact_all-levels digest_of xs free added some_nodes in
      let (root, is_root) = single digest_of (levels digest_of (length xs) xs) one in
      let reduced : compact_all digest_of s ≡ holding (root ∷ []) held.free held.added =
        ap (compact_all digest_of) e
        ∙ held.same
        ∙ ap (λ (l : List Bytes). holding l held.free held.added) is_root in
      let total = levels-levels digest_of (length xs) k (k + length xs) ls refl in
      record {
        root = root;
        found = ap (λ (r : WorkStack). get_node r (r.pos - 1)) reduced;
        is_root =
            same_root digest_of (length ls) (k + length xs) ls
              (compact_all-levels digest_of ls 0 0 pos).1 (ap length (sym total) ∙ one)
            ∙ sym total
            ∙ is_root;
      }

  no_nodes : (xs : List Bytes) → length xs ≡ 0 → xs ≡ []
  no_nodes [] e = refl
  no_nodes (x ∷ xs) e = absurd (omega (arith, e))

  nothing_pending :
      (top : ℕ) (t : Tree) (ls : List Bytes)
      → (s : Streams digest_of top t ls) → length s.pending ≡ 0
      → t.leaf_nodes ≡ holding (levels digest_of s.height ls) s.free s.added
  nothing_pending top t ls s e =
      s.leaf_nodes
      ∙ ap (λ (l : List Bytes). holding (levels digest_of s.height l) s.free s.added)
          (sym (append-nil s.full)
            ∙ ap (λ (l : List Bytes). s.full ++ l) (sym (no_nodes s.pending e))
            ∙ s.all_leaves)

  still_pending :
      (top : ℕ) (t : Tree) (ls : List Bytes)
      → (s : Streams digest_of top t ls) → 0 < length s.pending
      → (promote digest_of t).leaf_nodes
        ≡ holding (levels digest_of s.height ls) (s.free - 1) (s.added + 1)
  still_pending top t ls s pos =
      let room : s.nodes < top = elim s.between [
        | inl lt ↦ lt
        | inr e ↦ absurd (omega (arith, e, pos))
      ] in
      let one_free : s.free ≡ suc (s.free - 1) = omega (arith, s.capacity, room) in
      let k = s.height in
      let p =
        promote-Promoted digest_of t (levels digest_of k s.full) s.pending (s.free - 1) s.added
          s.free_work (length s.pending)
          (s.leaf_nodes ∙ ap (λ (n : ℕ). holding (levels digest_of k s.full) n s.added) one_free)
          s.work pos in
      let pending_root : levels digest_of k s.pending ≡ p.root ∷ [] =
        same_root digest_of k (length s.pending) s.pending
          (levels_fit digest_of k s.pending pos (omega (arith, s.partial))) (ap length p.is_root)
        ∙ p.is_root in
      p.leaves
      ∙ ap (λ (l : List Bytes). holding l (s.free - 1) (s.added + 1))
          (ap (λ (l : List Bytes). levels digest_of k s.full ++ l) (sym pending_root)
            ∙ sym (levels-append digest_of k s.nodes s.full s.pending s.whole)
            ∙ ap (levels digest_of k) s.all_leaves)

  finish_tree-IsRoot :
      (top : ℕ) (t : Tree) (ls : List Bytes)
      → 0 < length ls
      → Streams digest_of top t ls
      → IsRoot ls (finish_tree digest_of t).1
  unfolding finish_tree top_node
  finish_tree-IsRoot top t ls pos s =
      let size : t.work.size ≡ length s.pending = ap (λ (w : WorkStack). w.size) s.work in
      let some_nodes = levels_some digest_of s.height ls pos in
      if_cases (λ (u : Tree). IsRoot ls (top_node u.leaf_nodes)) (t.work.size == 0)
        (λ empty.
          reduced-IsRoot ls s.height t.leaf_nodes s.free s.added pos some_nodes
            (nothing_pending top t ls s (ground (arith, empty, size))))
        (λ more.
          reduced-IsRoot ls s.height (promote digest_of t).leaf_nodes (s.free - 1) (s.added + 1) pos
            some_nodes (still_pending top t ls s (ground (arith, more, size))))

  -- The root of a tree of a depth from two to 60, whatever it is.
  pub tree-IsRoot :
      (d : ℕ) (blocks : List Bytes)
      → d ≤ 58
      → 0 < length blocks
      → length blocks < 2 ^ 64
      → IsRoot
          (map (leaf_hash digest_of) blocks)
          (finish_tree digest_of (foldl (hash_block digest_of) (new_tree (suc (suc d))) blocks)).1
  tree-IsRoot d blocks depth pos few =
      finish_tree-IsRoot (double_level d * 2) _ (map (leaf_hash digest_of) blocks)
        (omega (arith, pos, length-map blocks (leaf_hash digest_of)))
        (blocks-Streams (double_level d) blocks (new_tree (suc (suc d))) []
          (double_level_bounds d depth).0 (omega (arith, few)) (start d depth))
