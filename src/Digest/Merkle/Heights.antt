-- ===== src/Digest/Merkle/Heights.antt =====
-- src/crypto/digest/merkletree.cpp: the levels of a tree, by their heights.
use samurai.Prelude.{
  ℕ, zero, suc, ◌+◌, ◌*◌, ◌^◌, ◌≤◌, ◌<◌, ◌≡◌, refl, sym, ap, ◌∙◌, List, [], ◌∷◌, ◌++◌, arith,
  length, Bytes, double_pow,
}
use native.Mathlib.Nat.{pow-suc}
use samurai.Digest.Merkle.Pairing.{level, length-level}
use samurai.Digest.Merkle.Levels.{levels, levels_one, level-append}

module _ (digest_of : List Bytes → Bytes) where
  pub levels-suc :
      (k : ℕ) (xs : List Bytes)
      → level digest_of (levels digest_of k xs) ≡ levels digest_of (suc k) xs
  levels-suc zero xs = refl
  levels-suc (suc k) xs = levels-suc k (level digest_of xs)

  half_level :
      (m k : ℕ) (xs : List Bytes)
      → length xs ≡ m * 2 ^ suc k
      → (length xs ≡ m * 2 ^ k * 2) × (length (level digest_of xs) ≡ m * 2 ^ k)
  half_level m k xs e = (
    omega (arith, e, double_pow m k),
    omega (arith, e, double_pow m k, length-level digest_of xs),
  )

  pub length-levels :
      (k m : ℕ) (xs : List Bytes) → length xs ≡ m * 2 ^ k → length (levels digest_of k xs) ≡ m
  length-levels zero m xs e = omega (arith, e)
  length-levels (suc k) m xs e = length-levels k m (level digest_of xs) (half_level m k xs e).1

  pub levels-append :
      (k m : ℕ) (xs ys : List Bytes)
      → length xs ≡ m * 2 ^ k
      → levels digest_of k (xs ++ ys) ≡ levels digest_of k xs ++ levels digest_of k ys
  levels-append zero m xs ys e = refl
  levels-append (suc k) m xs ys e =
      ap (levels digest_of k) (level-append digest_of (m * 2 ^ k) xs ys (half_level m k xs e).0)
      ∙ levels-append k m (level digest_of xs) (level digest_of ys) (half_level m k xs e).1

  -- The sum is a variable with an equation, since `k + j` is stuck.
  pub levels-levels :
      (j k n : ℕ) (xs : List Bytes)
      → n ≡ k + j
      → levels digest_of j (levels digest_of k xs) ≡ levels digest_of n xs
  levels-levels j zero n xs e = let e' : n ≡ j = omega (arith, e) in rw e' refl
  levels-levels j (suc k) zero xs e = absurd (omega (arith, e))
  levels-levels j (suc k) (suc n) xs e = levels-levels j k n (level digest_of xs) (omega (arith, e))

  -- One node is the root, at whatever level.
  pub one_root : (xs : List Bytes) (k : ℕ) → length xs ≡ 1 → levels digest_of k xs ≡ xs
  one_root [] k e = absurd (omega (arith, e))
  one_root (x ∷ []) k e = levels_one digest_of k x
  one_root (x ∷ y ∷ xs) k e = absurd (omega (arith, e))

  pub same_root :
      (j k : ℕ) (xs : List Bytes)
      → length (levels digest_of j xs) ≡ 1
      → length (levels digest_of k xs) ≡ 1
      → levels digest_of j xs ≡ levels digest_of k xs
  same_root j k xs p q =
      sym (one_root (levels digest_of j xs) k p)
      ∙ levels-levels k j (j + k) xs refl
      ∙ sym (levels-levels j k (j + k) xs (omega arith))
      ∙ one_root (levels digest_of k xs) j q

  -- As many nodes as a height has room for have their root there.
  pub levels_fit :
      (k : ℕ) (xs : List Bytes)
      → 0 < length xs
      → length xs ≤ 2 ^ k
      → length (levels digest_of k xs) ≡ 1
  levels_fit zero xs pos le = omega (arith, pos, le)
  levels_fit (suc k) xs pos le =
      let shorter = length-level digest_of xs in
      levels_fit k (level digest_of xs) (omega (arith, shorter, pos))
        (omega (arith, shorter, le, pow-suc 2 k))

  pub levels_some : (k : ℕ) (xs : List Bytes) → 0 < length xs → 0 < length (levels digest_of k xs)
  levels_some zero xs pos = pos
  levels_some (suc k) xs pos =
      levels_some k (level digest_of xs) (omega (arith, pos, length-level digest_of xs))
