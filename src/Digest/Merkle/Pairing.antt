-- ===== src/Digest/Merkle/Pairing.antt =====
-- src/crypto/digest/merkletree.cpp: what `compact` leaves of a stack that holds digests.
use samurai.Prelude.{
  ℕ, zero, suc, ◌+◌, ◌-◌, ◌*◌, ◌/◌, ◌≡◌, refl, sym, ap, ◌∙◌, List, [], ◌∷◌, ◌++◌, append_assoc,
  append-nil, map, Option, none, some, arith, length, length-append, length-map, length-replicate,
  take, replicate, set, Bytes,
}
use mathlib.Core.Path.{ap₂}
use samurai.Digest.Merkle.{WorkStack, set_position, node_hash, combine, compact_loop, compact_stack}
use samurai.Digest.Merkle.Stack.{
  get_or_at, get_or_next, set_at, set_next, take_at, replicate-snoc, map-append, places, holding,
  length-places,
}

module _ (digest_of : List Bytes → Bytes) where
  -- One level up: the nodes in pairs, and an odd one at the end as it is.
  abbrev pub level : List Bytes → List Bytes
  level [] = []
  level (a ∷ []) = a ∷ []
  level (a ∷ b ∷ xs) = node_hash digest_of a b ∷ level xs

  -- The nodes in the loop of `compact`: the results, the places that they left, and the pairs to come.
  abbrev in_loop : List Bytes → ℕ → List Bytes → ℕ → List (Option Bytes)
  in_loop results left pairs free = (map some results ++ replicate left none) ++ places pairs free

  length-front :
      (results : List Bytes) (left : ℕ)
      → length (map some results ++ replicate left none) ≡ length results + left
  length-front results left = length-places results left

  -- A pair of places that is emptied joins those that were left.
  emptied :
      (results : List Bytes) (left : ℕ) (c : Bytes) (r : List (Option Bytes))
      → set ((map some results ++ replicate left none) ++ none ∷ none ∷ r) (length results) (some c)
        ≡ (map some (results ++ c ∷ []) ++ replicate (suc left) none) ++ r
  emptied results left c r =
      ap (λ (l : List (Option Bytes)). set l (length results) (some c))
        (append_assoc front gap (none ∷ none ∷ r)
          ∙ ap (λ (l : List (Option Bytes)). front ++ l) (replicate-snoc left none (none ∷ r)))
      ∙ set_at front none (some c) (gap ++ none ∷ r) (length results)
          (sym (length-map results (λ (b : Bytes). some b)))
      ∙ ap (λ (l : List (Option Bytes)). front ++ some c ∷ l) (replicate-snoc left none r)
      ∙ sym (append_assoc front (some c ∷ []) (replicate (suc left) none ++ r))
      ∙ ap (λ (l : List (Option Bytes)). l ++ (replicate (suc left) none ++ r))
          (sym (map-append results (c ∷ [])))
      ∙ sym (append_assoc (map some (results ++ c ∷ [])) (replicate (suc left) none) r)
    where
      front : List (Option Bytes)
      front = map some results

      gap : List (Option Bytes)
      gap = replicate left none

  one_pair :
      (rounds : ℕ) (results xs : List Bytes) (a b : Bytes) (left free p n i j : ℕ)
      → i ≡ length results + left
      → j ≡ length results
      → compact_loop digest_of
          (suc rounds)
          (record { nodes = in_loop results left (a ∷ b ∷ xs) free; pos = p; size = n })
          i
          j
        ≡ compact_loop digest_of rounds
            (record {
              nodes = in_loop (results ++ node_hash digest_of a b ∷ []) (suc left) xs free;
              pos = p;
              size = n;
            })
            (suc (suc i))
            (suc j)
  unfolding compact_loop combine
  one_pair rounds results xs a b left free p n i j ei ej =
      ap (λ (o : Option Bytes). next (set (set (set all i none) (suc i) none) j o))
        (ap₂ (combine digest_of) (get_or_at front (some a) none (some b ∷ rest) i place)
          (get_or_next front (some a) (some b) none rest i place))
      ∙ ap
          (λ (l : List (Option Bytes)).
            next (set (set l (suc i) none) j (some (node_hash digest_of a b))))
          (set_at front (some a) none (some b ∷ rest) i place)
      ∙ ap (λ (l : List (Option Bytes)). next (set l j (some (node_hash digest_of a b))))
          (set_next front none (some b) none rest i place)
      ∙ ap next (
          ap (λ (k : ℕ). set (front ++ none ∷ none ∷ rest) k (some (node_hash digest_of a b))) ej
          ∙ emptied results left (node_hash digest_of a b) rest)
    where
      front : List (Option Bytes)
      front = map some results ++ replicate left none

      rest : List (Option Bytes)
      rest = places xs free

      all : List (Option Bytes)
      all = front ++ some a ∷ some b ∷ rest

      place : i ≡ length front
      place = omega (arith, ei, length-front results left)

      next : List (Option Bytes) → WorkStack × ℕ
      next l =
          compact_loop digest_of rounds (record { nodes = l; pos = p; size = n }) (suc (suc i))
            (suc j)

  compact_loop-pairs :
      (rounds : ℕ) (results pairs : List Bytes) (left free p n i j : ℕ)
      → i ≡ length results + left
      → j ≡ length results
      → length pairs ≡ rounds * 2
      → (gone : ℕ) × ((gone ≡ left + rounds)
          × (compact_loop digest_of rounds
                (record { nodes = in_loop results left pairs free; pos = p; size = n })
                i
                j
              ≡ (
                record {
                  nodes =
                      (map some (results ++ level pairs) ++ replicate gone none)
                      ++ replicate free none;
                  pos = p;
                  size = n;
                },
                j + rounds,
              )))
  unfolding compact_loop combine
  compact_loop-pairs zero results [] left free p n i j ei ej l = (
    left,
    (
      omega arith,
      ap (λ (k : ℕ). (record { nodes = in_loop results left [] free; pos = p; size = n }, k))
            (omega arith)
          ∙ ap
              (λ (r : List Bytes). (
                record {
                  nodes = (map some r ++ replicate left none) ++ replicate free none;
                  pos = p;
                  size = n;
                },
                j + 0,
              ))
              (sym (append-nil results)),
    ),
  )
  compact_loop-pairs zero results (a ∷ xs) left free p n i j ei ej l = absurd (omega (arith, l))
  compact_loop-pairs (suc rounds) results [] left free p n i j ei ej l = absurd (omega (arith, l))
  compact_loop-pairs (suc rounds) results (a ∷ []) left free p n i j ei ej l =
      absurd (omega (arith, l))
  compact_loop-pairs (suc rounds) results (a ∷ b ∷ xs) left free p n i j ei ej l =
      let c = node_hash digest_of a b in
      let (gone, (count, e)) =
        compact_loop-pairs rounds (results ++ c ∷ []) xs (suc left) free p n (suc (suc i)) (suc j)
          (omega (arith, ei, length-append results (c ∷ [])))
          (omega (arith, ej, length-append results (c ∷ []))) (omega (arith, l)) in
      (
        gone,
        (
          omega (arith, count),
          one_pair rounds results xs a b left free p n i j ei ej
              ∙ e
              ∙ ap
                  (λ (r : List Bytes). (
                    record {
                      nodes = (map some r ++ replicate gone none) ++ replicate free none;
                      pos = p;
                      size = n;
                    },
                    suc j + rounds,
                  ))
                  (append_assoc results (c ∷ []) (level xs))
              ∙ ap
                  (λ (k : ℕ). (
                    record {
                      nodes =
                          (map some (results ++ c ∷ level xs) ++ replicate gone none)
                          ++ replicate free none;
                      pos = p;
                      size = n;
                    },
                    k,
                  ))
                  (omega arith),
        ),
      )

  pub length-level : (xs : List Bytes) → length (level xs) ≡ (length xs + 1) / 2
  length-level [] = refl
  length-level (a ∷ []) = refl
  length-level (a ∷ b ∷ xs) = omega (arith, length-level xs)

  -- `compact` on an even number of digests leaves one level up, in a stack of the same capacity.
  pub compact_stack-level :
      (m : ℕ) (xs : List Bytes) (free n : ℕ)
      → length xs ≡ m * 2
      → (more : ℕ) × ((length (level xs) + more ≡ length xs + free)
          × (compact_stack digest_of (holding xs free n) ≡ holding (level xs) more n))
  unfolding compact_stack set_position
  compact_stack-level m xs free n l =
      let (gone, (count, e)) = compact_loop-pairs m [] xs 0 free (length xs) n 0 0 refl refl l in
      (
        gone + free,
        (
          omega (arith, count, length-level xs, l),
          ap (λ (k : ℕ). reposition (compact_loop digest_of k (holding xs free n) 0 0))
                (omega (arith, l))
              ∙ ap reposition e
              ∙ ap (λ (k : ℕ). set_position (reached gone) k) (omega (arith, length-level xs, l))
              ∙ ap
                  (λ (t : List (Option Bytes)). record {
                    nodes = t ++ replicate (length (reached gone).nodes - length (level xs)) none;
                    pos = length (level xs);
                    size = n;
                  })
                  (ap (take (length (level xs))) (
                      append_assoc (map some (level xs)) (replicate gone none)
                        (replicate free none))
                    ∙ take_at (map some (level xs)) (replicate gone none ++ replicate free none)
                        (length (level xs)) (sym (length-map (level xs) (λ (b : Bytes). some b))))
              ∙ ap (λ (k : ℕ). holding (level xs) k n)
                  (omega (
                    arith,
                    length-append (map some (level xs) ++ replicate gone none)
                        (replicate {A = Option Bytes} free none),
                    length-front (level xs) gone,
                    length-replicate {A = Option Bytes} free none,
                  )),
        ),
      )
    where
      reposition : WorkStack × ℕ → WorkStack
      reposition r = set_position r.0 r.1

      reached : ℕ → WorkStack
      reached gone = record {
        nodes = (map some (level xs) ++ replicate gone none) ++ replicate free none;
        pos = length xs;
        size = n;
      }
