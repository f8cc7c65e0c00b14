-- ===== src/Digest/Merkle/Stack.antt =====
-- src/crypto/digest/merkletree.cpp: what the operations of a work stack leave of a stack that holds
-- digests.
use samurai.Prelude.{
  ℕ, zero, suc, ◌+◌, ◌≡◌, refl, sym, ap, ◌∙◌, false, List, [], ◌∷◌, ◌++◌, append_assoc, map, Option,
  none, some, arith, ◌==◌, length, length-append, length-map, length-replicate, take, replicate,
  set, get_or, Bytes, take-append_length,
}
use samurai.Digest.Merkle.{WorkStack, is_full, add_node, release_first}

module _ {ℓ} {A : Type ℓ} where
  pub get_or_at :
      (p : List A) (x d : A) (r : List A) (i : ℕ) → i ≡ length p → get_or (p ++ x ∷ r) i d ≡ x
  get_or_at [] x d r zero e = refl
  get_or_at [] x d r (suc i) e = absurd (omega (arith, e))
  get_or_at (y ∷ p) x d r zero e = absurd (omega (arith, e))
  get_or_at (y ∷ p) x d r (suc i) e = get_or_at p x d r i (omega (arith, e))

  pub get_or_next :
      (p : List A) (x y d : A) (r : List A) (i : ℕ)
      → i ≡ length p
      → get_or (p ++ x ∷ y ∷ r) (suc i) d ≡ y
  get_or_next [] x y d r zero e = refl
  get_or_next [] x y d r (suc i) e = absurd (omega (arith, e))
  get_or_next (z ∷ p) x y d r zero e = absurd (omega (arith, e))
  get_or_next (z ∷ p) x y d r (suc i) e = get_or_next p x y d r i (omega (arith, e))

  pub set_at :
      (p : List A) (x v : A) (r : List A) (i : ℕ) → i ≡ length p → set (p ++ x ∷ r) i v ≡ p ++ v ∷ r
  set_at [] x v r zero e = refl
  set_at [] x v r (suc i) e = absurd (omega (arith, e))
  set_at (y ∷ p) x v r zero e = absurd (omega (arith, e))
  set_at (y ∷ p) x v r (suc i) e = ap (◌∷◌ y) (set_at p x v r i (omega (arith, e)))

  pub set_next :
      (p : List A) (x y v : A) (r : List A) (i : ℕ)
      → i ≡ length p
      → set (p ++ x ∷ y ∷ r) (suc i) v ≡ p ++ x ∷ v ∷ r
  set_next [] x y v r zero e = refl
  set_next [] x y v r (suc i) e = absurd (omega (arith, e))
  set_next (z ∷ p) x y v r zero e = absurd (omega (arith, e))
  set_next (z ∷ p) x y v r (suc i) e = ap (◌∷◌ z) (set_next p x y v r i (omega (arith, e)))

  pub take_at : (p r : List A) (k : ℕ) → k ≡ length p → take k (p ++ r) ≡ p
  take_at p r k e = rw e (take-append_length p r)

  pub replicate-snoc :
      (n : ℕ) (a : A) (r : List A) → replicate n a ++ a ∷ r ≡ a ∷ (replicate n a ++ r)
  replicate-snoc zero a r = refl
  replicate-snoc (suc n) a r = ap (◌∷◌ a) (replicate-snoc n a r)

pub map-append :
    (xs ys : List Bytes) → map some (xs ++ ys) ≡ map (λ (b : Bytes). some b) xs ++ map some ys
map-append [] ys = refl
map-append (x ∷ xs) ys = ap (◌∷◌ (some x)) (map-append xs ys)

-- The nodes of a stack that holds digests, with so many free places behind them.
abbrev pub places : List Bytes → ℕ → List (Option Bytes)
places xs free = map some xs ++ replicate free none

abbrev pub holding : List Bytes → ℕ → ℕ → WorkStack
holding xs free n = record { nodes = places xs free; pos = length xs; size = n }

pub length-places : (xs : List Bytes) (free : ℕ) → length (places xs free) ≡ length xs + free
length-places xs free = omega (
  arith,
  length-append (map (λ (b : Bytes). some b) xs) (replicate free none),
  length-map xs (λ (b : Bytes). some b),
  length-replicate {A = Option Bytes} free none,
)

pub set-places :
    (xs : List Bytes) (x : Bytes) (free : ℕ)
    → set (places xs (suc free)) (length xs) (some x) ≡ places (xs ++ x ∷ []) free
set-places xs x free =
    set_at (map some xs) none (some x) (replicate free none) (length xs)
      (sym (length-map xs (λ (b : Bytes). some b)))
    ∙ sym (append_assoc (map some xs) (some x ∷ []) (replicate free none))
    ∙ ap (λ (l : List (Option Bytes)). l ++ replicate free none) (sym (map-append xs (x ∷ [])))

pub add_node-room :
    (xs : List Bytes) (x : Bytes) (free n : ℕ)
    → add_node (holding xs (suc free) n) (some x)
      ≡ record { nodes = places (xs ++ x ∷ []) free; pos = length xs + 1; size = n + 1 }
unfolding add_node is_full
add_node-room xs x free n =
    let more : (length xs == length (places xs (suc free))) ≡ false =
      ground (arith, length-places xs (suc free)) in
    rw more (
      ap (λ (l : List (Option Bytes)). record { nodes = l; pos = length xs + 1; size = n + 1 })
        (set-places xs x free))

last_place :
    (xs : List Bytes) (x : Bytes) (free : ℕ)
    → places (xs ++ x ∷ []) free ≡ map some xs ++ some x ∷ replicate free none
last_place xs x free =
    ap (λ (l : List (Option Bytes)). l ++ replicate free none) (map-append xs (x ∷ []))
    ∙ append_assoc (map some xs) (some x ∷ []) (replicate free none)

pub release_first-snoc :
    (xs : List Bytes) (x : Bytes) (free n : ℕ)
    → release_first (holding (xs ++ x ∷ []) free n) ≡ (some x, holding xs (suc free) n)
unfolding release_first
release_first-snoc xs x free n =
    ap (λ (i : ℕ). released (places (xs ++ x ∷ []) free) i)
      (omega (arith, length-append xs (x ∷ [])))
    ∙ ap (λ (l : List (Option Bytes)). released l (length xs)) (last_place xs x free)
    ∙ ap
        (λ (o : Option Bytes). (
          o,
          record {
            nodes = set (map some xs ++ some x ∷ replicate free none) (length xs) none;
            pos = length xs;
            size = n;
          },
        ))
        (get_or_at (map some xs) (some x) none (replicate free none) (length xs) position)
    ∙ ap (λ (l : List (Option Bytes)). (some x, record { nodes = l; pos = length xs; size = n }))
        (set_at (map some xs) (some x) none (replicate free none) (length xs) position)
  where
    position : length xs ≡ length (map (λ (b : Bytes). some b) xs)
    position = sym (length-map xs (λ (b : Bytes). some b))

    released : List (Option Bytes) → ℕ → Option Bytes × WorkStack
    released l i = (get_or l i none, record { nodes = set l i none; pos = i; size = n })
