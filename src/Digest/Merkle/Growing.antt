-- ===== src/Digest/Merkle/Growing.antt =====
-- src/crypto/digest/merkletree.cpp: a work stack that grows, is full or is cleared.
use samurai.Prelude.{
  ℕ, zero, suc, ◌+◌, ◌-◌, ◌<◌, ◌≡◌, ap, ◌∙◌, true, List, [], ◌∷◌, ◌++◌, append-nil, map, Option,
  none, some, arith, if_true, ◌==◌, length, replicate, length-replicate, set, Bytes,
}
use samurai.Digest.Merkle.{WorkStack, is_full, grow_stack, add_node, clear_stack}
use samurai.Digest.Merkle.Stack.{places, length-places, set-places, holding, add_node-room}

grow_stack-places :
    (xs : List Bytes) (n : ℕ) → grow_stack (holding xs 0 n) ≡ holding xs (length xs) n
unfolding grow_stack
grow_stack-places xs n =
    ap (λ (k : ℕ). record { nodes = places xs 0 ++ replicate k none; pos = length xs; size = n })
      (length-places xs 0 ∙ whole)
    ∙ ap
        (λ (l : List (Option Bytes)). record {
          nodes = l ++ replicate (length xs) none;
          pos = length xs;
          size = n;
        })
        (append-nil (map some xs))
  where
    whole : length xs + 0 ≡ length xs
    whole = omega arith

-- A stack that is full doubles first; only one of no capacity has no place then.
pub add_node-any :
    (xs : List Bytes) (x : Bytes) (free n : ℕ)
    → 0 < length xs + free
    → (left : ℕ) × (add_node (holding xs free n) (some x)
        ≡ record { nodes = places (xs ++ x ∷ []) left; pos = length xs + 1; size = n + 1 })
unfolding add_node is_full
add_node-any xs x (suc free) n h = (free, add_node-room xs x free n)
add_node-any xs x zero n h =
    let full : (length xs == length (places xs 0)) ≡ true = ground (arith, length-places xs 0) in
    let some_place : length xs ≡ suc (length xs - 1) = omega (arith, h) in
    (
      length xs - 1,
      ap put (if_true _ _ full ∙ grow_stack-places xs n)
          ∙ ap (λ (k : ℕ). put (holding xs k n)) some_place
          ∙ ap
              (λ (l : List (Option Bytes)). record { nodes = l; pos = length xs + 1; size = n + 1 })
              (set-places xs x (length xs - 1)),
    )
  where
    put : WorkStack → WorkStack
    put room = record {
      nodes = set room.nodes room.pos (some x);
      pos = room.pos + 1;
      size = room.size + 1;
    }

pub is_full-holding : (xs : List Bytes) (free n : ℕ) → is_full (holding xs free n) ≡ (free == 0)
unfolding is_full
is_full-holding xs free n = ground (arith, length-places xs free)

pub clear_stack-holding : (free n : ℕ) → clear_stack (holding [] free n) ≡ holding [] free 0
unfolding clear_stack
clear_stack-holding free n =
    ap (λ (k : ℕ). record { nodes = replicate k none; pos = 0; size = 0 })
      (length-replicate {A = Option Bytes} free none)
