-- ===== src/Digest/Merkle/Promoting.antt =====
-- src/crypto/digest/merkletree.cpp: a full work stack, which becomes one leaf node.
use samurai.Prelude.{
  ℕ, suc, ◌+◌, ◌*◌, ◌^◌, ◌<◌, ◌≡◌, refl, sym, ap, ◌∙◌, inr, List, [], ◌∷◌, ◌++◌, append-nil, Option,
  some, arith, length, length-append, Bytes,
}
use native.Mathlib.Nat.{one-le-pow}
use samurai.Digest.Merkle.{
  WorkStack, Tree, add_node, release_first, clear_stack, compact_all, promote,
}
use samurai.Digest.Merkle.Stack.{places, holding, add_node-room, release_first-snoc}
use samurai.Digest.Merkle.Levels.{levels, compact_all-levels}
use samurai.Digest.Merkle.Heights.{length-levels, levels-append, same_root}
use samurai.Digest.Merkle.Growing.{clear_stack-holding}
use samurai.Digest.Merkle.Compacting.{Streams}

module _ (digest_of : List Bytes → Bytes) where
  -- A work stack that has become one leaf node.
  pub record Promoted (t : Tree) (xs ws : List Bytes) (free added : ℕ) : Type 0 where
    pub root : Bytes
    pub is_root : levels digest_of (length ws) ws ≡ root ∷ []
    pub free_work : ℕ
    pub leaves : (promote digest_of t).leaf_nodes ≡ holding (xs ++ root ∷ []) free (added + 1)
    pub emptied : (promote digest_of t).work ≡ holding [] (suc free_work) 0

  pub single : (xs : List Bytes) → length xs ≡ 1 → (r : Bytes) × (xs ≡ r ∷ [])
  single [] e = absurd (omega (arith, e))
  single (r ∷ []) e = (r, refl)
  single (r ∷ s ∷ xs) e = absurd (omega (arith, e))

  pub promote-Promoted :
      (t : Tree) (xs ws : List Bytes) (free added free_work n : ℕ)
      → t.leaf_nodes ≡ holding xs (suc free) added
      → t.work ≡ holding ws free_work n
      → 0 < length ws
      → Promoted t xs ws free added
  unfolding promote
  promote-Promoted t xs ws free added free_work n leaves work pos =
      let (held, one) = compact_all-levels digest_of ws free_work n pos in
      let (root, is_root) = single (levels digest_of (length ws) ws) one in
      let released =
        ap (λ (s : WorkStack). release_first (compact_all digest_of s)) work
        ∙ ap release_first held.same
        ∙ ap (λ (l : List Bytes). release_first (holding l held.free held.added)) is_root
        ∙ release_first-snoc [] root held.free held.added in
      record {
        root = root;
        is_root = is_root;
        free_work = held.free;
        leaves =
            ap (λ (r : Option Bytes × WorkStack). add_node t.leaf_nodes r.0) released
            ∙ ap (λ (s : WorkStack). add_node s (some root)) leaves
            ∙ add_node-room xs root free added
            ∙ ap
                (λ (k : ℕ). record {
                  nodes = places (xs ++ root ∷ []) free;
                  pos = k;
                  size = added + 1;
                })
                (sym (length-append xs (root ∷ [])));
        emptied =
            ap (λ (r : Option Bytes × WorkStack). clear_stack r.1) released
            ∙ clear_stack-holding (suc held.free) held.added;
      }

  -- The work stack of 2 ^ height leaves, as a node at that height.
  at_height :
      (k : ℕ) (ws : List Bytes) (root : Bytes)
      → length ws ≡ 2 ^ k
      → levels digest_of (length ws) ws ≡ root ∷ []
      → levels digest_of k ws ≡ root ∷ []
  at_height k ws root e is_root =
      same_root digest_of k (length ws) ws (length-levels digest_of k 1 ws (omega (arith, e)))
        (ap length is_root)
      ∙ is_root

  pub promoted-Streams :
      (top : ℕ) (t : Tree) (ls full ws : List Bytes) (k nodes free free_work added n : ℕ)
      → full ++ ws ≡ ls
      → t.blocks_per_leaf ≡ 2 ^ k
      → length full ≡ nodes * 2 ^ k
      → length ws ≡ 2 ^ k
      → nodes + suc free ≡ top
      → t.leaf_nodes ≡ holding (levels digest_of k full) (suc free) added
      → t.work ≡ holding ws free_work n
      → Streams digest_of top (promote digest_of t) ls
  unfolding promote
  promoted-Streams top t ls full ws k nodes free free_work added n all blocks whole last capacity
        leaves work =
      let positive = one-le-pow k 2 (omega arith) in
      let p =
        promote-Promoted t (levels digest_of k full) ws free added free_work n leaves work
          (omega (arith, last, positive)) in
      record {
        height = k;
        full = full ++ ws;
        pending = [];
        nodes = nodes + 1;
        free = free;
        free_work = suc p.free_work;
        added = added + 1;
        all_leaves = append-nil (full ++ ws) ∙ all;
        blocks = blocks;
        whole = length-append full ws ∙ one_more nodes k whole last;
        partial = positive;
        capacity = omega (arith, capacity);
        between = inr refl;
        leaf_nodes =
            p.leaves
            ∙ ap (λ (l : List Bytes). holding l free (added + 1))
                (ap (λ (l : List Bytes). levels digest_of k full ++ l)
                    (sym (at_height k ws p.root last p.is_root))
                  ∙ sym (levels-append digest_of k nodes full ws whole));
        work = p.emptied;
        some_work = omega arith;
      }
    where
      one_more :
          (nodes k : ℕ)
          → length full ≡ nodes * 2 ^ k
          → length ws ≡ 2 ^ k
          → length full + length ws ≡ (nodes + 1) * 2 ^ k
      one_more nodes k e f = grind (arith, e, f)
