-- ===== src/Timer/Count.antt =====
-- src/timer.cpp: what the C++ standard says of std::push_heap and std::pop_heap, and how many
-- entries of a heap have a property.
use samurai.Prelude.{
  ℕ, ◌+◌, ◌<◌, ◌≤◌, ◌≡◌, refl, ◌∙◌, inl, inr, Bool, true, false, some, List, [], ◌∷◌, ◌++◌, arith,
  Bool-cases, if◌then◌else◌, ltb,
}
use samurai.Timer.{Entry, last_entry, without_last}

abbrev pub count : (Entry → Bool) → List Entry → ℕ
count p [] = 0
count p (e ∷ es) = (if p e then 1 else 0) + count p es

-- The same entries, each as often: every property holds of as many.
abbrev pub SameEntries : List Entry → List Entry → Type 0
SameEntries xs ys = (p : Entry → Bool) → count p xs ≡ count p ys

-- The operations on a vector that is a heap: its front is an entry that is due first.
pub record Heaps (push_heap pop_heap : List Entry → List Entry) : Type 1 where
  pub IsHeap : List Entry → Type 0
  pub empty : IsHeap []
  pub front_first :
      (e : Entry) (es : List Entry) → IsHeap (e ∷ es) → count (λ x. ltb x.due e.due) (e ∷ es) ≡ 0
  pub push_IsHeap : (es : List Entry) (e : Entry) → IsHeap es → IsHeap (push_heap (es ++ e ∷ []))
  pub push_same : (es : List Entry) → SameEntries (push_heap es) es
  pub pop_IsHeap : (es : List Entry) → IsHeap es → IsHeap (without_last (pop_heap es))
  pub pop_same : (es : List Entry) → SameEntries (pop_heap es) es
  pub pop_front :
      (e : Entry) (es : List Entry) → IsHeap (e ∷ es) → last_entry (pop_heap (e ∷ es)) ≡ some e

pub count-append :
    (p : Entry → Bool) (xs ys : List Entry) → count p (xs ++ ys) ≡ count p xs + count p ys
count-append p [] ys = omega arith
count-append p (x ∷ xs) ys = omega (arith, count-append p xs ys)

pub count-without_last :
    (p : Entry → Bool) (xs : List Entry) (e : Entry)
    → last_entry xs ≡ some e
    → count p (without_last xs) + count p (e ∷ []) ≡ count p xs
unfolding last_entry without_last
count-without_last p [] e h = cc
count-without_last p (x ∷ []) e h = let same : x ≡ e = cc in rw same (omega arith)
count-without_last p (x ∷ y ∷ ys) e h = omega (arith, count-without_last p (y ∷ ys) e h)

-- Where one property excludes another, at least as many entries do not have it.
pub count_mono :
    (p q : Entry → Bool) (xs : List Entry)
    → ((e : Entry) → p e ≡ true → q e ≡ true)
    → count p xs ≤ count q xs
count_mono p q [] h = omega arith
count_mono p q (x ∷ xs) h = elim (Bool-cases (p x)) [
  | inl yes_p ↦ rw (yes_p, h x yes_p) (omega (arith, count_mono p q xs h))
  | inr no_p ↦ rw no_p (omega (arith, count_mono p q xs h))
]

pub count_one : (p : Entry → Bool) (e : Entry) → p e ≡ true → count p (e ∷ []) ≡ 1
count_one p e h = rw h refl

pub count_other : (p : Entry → Bool) (e : Entry) → p e ≡ false → count p (e ∷ []) ≡ 0
count_other p e h = rw h refl

-- An entry that is there comes no earlier than the front.
pub front_least :
    (e : Entry) (es : List Entry) (p : Entry → Bool)
    → count (λ x. ltb x.due e.due) (e ∷ es) ≡ 0
    → 0 < count p (e ∷ es)
    → ((x : Entry) → p x ≡ true → ltb x.due e.due ≡ true)
    → ⊥
front_least e es p none_before some_p before =
    absurd (omega (arith, count_mono p (λ x. ltb x.due e.due) (e ∷ es) before))

module _ {push_heap pop_heap : List Entry → List Entry} (h : Heaps push_heap pop_heap) where
  pub count-push :
      (p : Entry → Bool) (es : List Entry) (e : Entry)
      → count p (push_heap (es ++ e ∷ [])) ≡ count p es + count p (e ∷ [])
  count-push p es e = h.push_same (es ++ e ∷ []) p ∙ count-append p es (e ∷ [])

  pub count-pop :
      (p : Entry → Bool) (e : Entry) (es : List Entry)
      → h.IsHeap (e ∷ es)
      → count p (without_last (pop_heap (e ∷ es))) + count p (e ∷ []) ≡ count p (e ∷ es)
  count-pop p e es i =
      count-without_last p (pop_heap (e ∷ es)) e (h.pop_front e es i) ∙ h.pop_same (e ∷ es) p
