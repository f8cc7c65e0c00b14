-- ===== src/Digest/Merkle/Levels.antt =====
-- src/crypto/digest/merkletree.cpp: compact_all, and the levels of a tree.
use samurai.Prelude.{
  ℕ, zero, suc, ◌+◌, ◌-◌, ◌*◌, ◌/◌, ◌%◌, ◌≤◌, ◌<◌, ◌≡◌, refl, sym, ap, ◌∙◌, true, false, inl, inr,
  List, [], ◌∷◌, ◌++◌, Option, some, arith, Bool-cases, if_true, if_false, ltb, ◌==◌, length,
  length-append, Bytes, subst,
}
use samurai.Digest.Merkle.{
  WorkStack, add_node, node_hash, compact_stack, compact_round, compact_loop_all, compact_all,
}
use samurai.Digest.Merkle.Stack.{places, holding, add_node-room, release_first-snoc}
use samurai.Digest.Merkle.Pairing.{level, length-level, compact_stack-level}

module _ (digest_of : List Bytes → Bytes) where
  -- So many levels up.
  abbrev pub levels : ℕ → List Bytes → List Bytes
  levels zero xs = xs
  levels (suc k) xs = levels k (level digest_of xs)

  -- A stack that holds these digests, whatever its capacity and its count of additions.
  pub record Holds (s : WorkStack) (xs : List Bytes) : Type 0 where
    pub free : ℕ
    pub added : ℕ
    pub same : s ≡ holding xs free added

  pub levels_one : (k : ℕ) (r : Bytes) → levels k (r ∷ []) ≡ r ∷ []
  levels_one zero r = refl
  levels_one (suc k) r = levels_one k r

  -- Levels of an even number of nodes and more nodes.
  pub level-append :
      (m : ℕ) (xs ys : List Bytes)
      → length xs ≡ m * 2
      → level digest_of (xs ++ ys) ≡ level digest_of xs ++ level digest_of ys
  level-append m [] ys e = refl
  level-append m (a ∷ []) ys e = absurd (omega (arith, e))
  level-append zero (a ∷ b ∷ xs) ys e = absurd (omega (arith, e))
  level-append (suc m) (a ∷ b ∷ xs) ys e =
      ap (◌∷◌ (node_hash digest_of a b)) (level-append m xs ys (omega (arith, e)))

  levels_shrink :
      (k : ℕ) (xs : List Bytes) → 0 < length xs → length xs ≤ k + 1 → length (levels k xs) ≡ 1
  levels_shrink zero xs pos le = omega (arith, pos, le)
  levels_shrink (suc k) [] pos le = absurd (omega (arith, pos))
  levels_shrink (suc k) (a ∷ []) pos le = ap length (levels_one k a)
  levels_shrink (suc k) (a ∷ b ∷ xs) pos le =
      let smaller = length-level digest_of (a ∷ b ∷ xs) in
      levels_shrink k (level digest_of (a ∷ b ∷ xs)) (omega (arith, smaller))
        (omega (arith, smaller, le))

  unsnoc :
      (x : Bytes) (xs : List Bytes) → (ys : List Bytes) × ((y : Bytes) × (x ∷ xs ≡ ys ++ y ∷ []))
  unsnoc x [] = ([], (x, refl))
  unsnoc x (z ∷ zs) = let (ys, (y, e)) = unsnoc z zs in (x ∷ ys, (y, ap (◌∷◌ x) e))

  odd_round :
      (m : ℕ) (ys : List Bytes) (y : Bytes) (free n : ℕ)
      → length ys ≡ m * 2
      → 0 < m
      → Holds
          (compact_round digest_of (holding (ys ++ y ∷ []) free n))
          (level digest_of (ys ++ y ∷ []))
  unfolding compact_round
  odd_round m ys y free n e pos =
      let odd : (length (ys ++ y ∷ []) % 2 == 1) ≡ true =
        ground (arith, length-append ys (y ∷ []), e) in
      let (more, (room, compacted)) = compact_stack-level digest_of m ys (suc free) n e in
      let one_more : more ≡ suc (more - 1) =
        omega (arith, room, length-level digest_of ys, e, pos) in
      record {
        free = more - 1;
        added = n + 1;
        same =
            if_true _ _ odd
            ∙ ap (λ (r : Option Bytes × WorkStack). add_node (compact_stack digest_of r.1) r.0)
                (release_first-snoc ys y free n)
            ∙ ap (λ (s : WorkStack). add_node s (some y)) compacted
            ∙ ap (λ (k : ℕ). add_node (holding (level digest_of ys) k n) (some y)) one_more
            ∙ add_node-room (level digest_of ys) y (more - 1) n
            ∙ ap
                (λ (k : ℕ). record {
                  nodes = places (level digest_of ys ++ y ∷ []) (more - 1);
                  pos = k;
                  size = n + 1;
                })
                (sym (length-append (level digest_of ys) (y ∷ [])))
            ∙ ap (λ (xs : List Bytes). holding xs (more - 1) (n + 1))
                (sym (level-append m ys (y ∷ []) e));
      }

  even_round :
      (m : ℕ) (xs : List Bytes) (free n : ℕ)
      → length xs ≡ m * 2
      → Holds (compact_round digest_of (holding xs free n)) (level digest_of xs)
  unfolding compact_round
  even_round m xs free n e =
      let even : (length xs % 2 == 1) ≡ false = ground (arith, e) in
      let (more, (room, compacted)) = compact_stack-level digest_of m xs free n e in
      record { free = more; added = n; same = if_false _ _ even ∙ compacted }

  compact_round-level :
      (xs : List Bytes) (free n : ℕ)
      → 1 < length xs
      → Holds (compact_round digest_of (holding xs free n)) (level digest_of xs)
  compact_round-level [] free n h = absurd (omega (arith, h))
  compact_round-level (x ∷ xs) free n h = elim (Bool-cases (length (x ∷ xs) % 2 == 1)) [
    | inl odd ↦
        let (ys, (y, e)) = unsnoc x xs in
        let size : length (x ∷ xs) ≡ length ys + 1 = ap length e ∙ length-append ys (y ∷ []) in
        let round =
          odd_round (length ys / 2) ys y free n (ground (arith, odd, size))
            (ground (arith, odd, size, h)) in
        subst
          (λ (zs : List Bytes).
            Holds (compact_round digest_of (holding zs free n)) (level digest_of zs))
          (sym e) round
    | inr even ↦ even_round (length (x ∷ xs) / 2) (x ∷ xs) free n (ground (arith, even))
  ]

  loop_again :
      (rounds : ℕ) (s : WorkStack)
      → ltb 1 s.pos ≡ true
      → compact_loop_all digest_of (suc rounds) s
        ≡ compact_loop_all digest_of rounds (compact_round digest_of s)
  unfolding compact_loop_all
  loop_again rounds s e = rw (e, compact_loop_all) refl

  compact_loop_all-levels :
      (rounds : ℕ) (xs : List Bytes) (free n : ℕ)
      → 0 < length xs
      → Holds (compact_loop_all digest_of rounds (holding xs free n)) (levels rounds xs)
  unfolding compact_loop_all
  compact_loop_all-levels zero xs free n pos = record { free = free; added = n; same = refl }
  compact_loop_all-levels (suc rounds) [] free n pos = absurd (omega (arith, pos))
  compact_loop_all-levels (suc rounds) (x ∷ []) free n pos = record {
    free = free;
    added = n;
    same = ap (λ (xs : List Bytes). holding xs free n) (sym (levels_one rounds x));
  }
  compact_loop_all-levels (suc rounds) (x ∷ y ∷ xs) free n pos =
      let r = compact_round-level (x ∷ y ∷ xs) free n (omega arith) in
      let again =
        compact_loop_all-levels rounds (level digest_of (x ∷ y ∷ xs)) r.free r.added
          (omega arith) in
      record {
        free = again.free;
        added = again.added;
        same =
            loop_again rounds (holding (x ∷ y ∷ xs) free n) (ground arith)
            ∙ ap (compact_loop_all digest_of rounds) r.same
            ∙ again.same;
      }

  -- On a stack of one digest or more, in its first places and with null pointers behind them,
  -- compact_all leaves a stack that holds what the list of digests becomes when it goes up one
  -- level as many times as it is long, and that is one digest.
  pub compact_all-levels :
      (xs : List Bytes) (free n : ℕ)
      → 0 < length xs
      → Holds (compact_all digest_of (holding xs free n)) (levels (length xs) xs)
        × (length (levels (length xs) xs) ≡ 1)
  unfolding compact_all
  compact_all-levels xs free n pos = (
    compact_loop_all-levels (length xs) xs free n pos,
    levels_shrink (length xs) xs pos (omega arith),
  )
