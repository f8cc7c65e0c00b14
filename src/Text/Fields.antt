-- ===== src/Text/Fields.antt =====
-- src/util/string.cpp: what `split` and `trim` return.
use samurai.Prelude.{
  ℕ, zero, suc, ◌+◌, ◌<◌, ◌≡◌, refl, ap, ◌∙◌, false, none, some, [], ◌∷◌, ◌++◌, List, inl, inr,
  arith, Bool-cases, Option-cases, length, take, drop, length-drop, ◌==◌, Bytes, index_of,
}
use samurai.Text.{split_loop, split}

-- The fields with the separator between them.
abbrev pub join : ℕ → List Bytes → Bytes
join sep [] = []
join sep (f ∷ []) = f
join sep (f ∷ g ∷ fs) = f ++ sep ∷ join sep (g ∷ fs)

-- The byte does not occur.
abbrev pub Lacks : ℕ → Bytes → Type 0
Lacks c [] = Unit
Lacks c (x ∷ xs) = ((x == c) ≡ false) × Lacks c xs

abbrev pub AllLack : ℕ → List Bytes → Type 0
AllLack c [] = Unit
AllLack c (f ∷ fs) = Lacks c f × AllLack c fs

pub record Cut (c : ℕ) (xs : Bytes) (i : ℕ) : Type 0 where
  pub before : Lacks c (take i xs)
  pub whole : take i xs ++ c ∷ drop (suc i) xs ≡ xs
  pub inside : i < length xs

Cut-next : (c x : ℕ) (xs : Bytes) (i : ℕ) → (x == c) ≡ false → Cut c xs i → Cut c (x ∷ xs) (suc i)
Cut-next c x xs i e cut = record {
  before = (e, cut.before);
  whole = ap (◌∷◌ x) cut.whole;
  inside = omega (arith, cut.inside);
}

pub index_of-Cut : (c : ℕ) (xs : Bytes) (i : ℕ) → index_of c xs ≡ some i → Cut c xs i
index_of-Cut c [] i e = cc
index_of-Cut c (x ∷ xs) i e = elim (Bool-cases (x == c)) [
  | inl hit ↦
      let z : i ≡ 0 = ground arith in
      let same : c ≡ x = ground arith in
      rw z (record { before = tt; whole = ap (λ (t : ℕ). t ∷ xs) same; inside = omega arith })
  | inr miss ↦ elim (Option-cases (index_of c xs)) [
    | inl nowhere ↦ ground arith
    | inr (j, found) ↦
        let next : i ≡ suc j = ground arith in
        rw next (Cut-next c x xs j miss (index_of-Cut c xs j found))
  ]
]

pub index_of-Lacks : (c : ℕ) (xs : Bytes) → index_of c xs ≡ none → Lacks c xs
index_of-Lacks c [] e = tt
index_of-Lacks c (x ∷ xs) e = elim (Bool-cases (x == c)) [
  | inl hit ↦ ground arith
  | inr miss ↦ elim (Option-cases (index_of c xs)) [
    | inl nowhere ↦ (miss, index_of-Lacks c xs nowhere)
    | inr (j, found) ↦ ground arith
  ]
]

-- What a list of fields must be to be the fields of a text.
pub record Splits (sep : ℕ) (text : Bytes) (fields : List Bytes) : Type 0 where
  pub joined : join sep fields ≡ text
  pub clean : AllLack sep fields
  pub some_field : 0 < length fields

Splits-next :
    (sep : ℕ) (f rest text : Bytes) (fields : List Bytes)
    → Lacks sep f
    → f ++ sep ∷ rest ≡ text
    → Splits sep rest fields
    → Splits sep text (f ∷ fields)
Splits-next sep f rest text [] l e s = absurd (omega (arith, s.some_field))
Splits-next sep f rest text (g ∷ gs) l e s = record {
  joined = ap (λ (t : Bytes). f ++ sep ∷ t) s.joined ∙ e;
  clean = (l, s.clean);
  some_field = omega arith;
}

split_loop-Splits :
    (fuel sep : ℕ) (text : Bytes) → length text < fuel → Splits sep text (split_loop fuel sep text)
unfolding split_loop
split_loop-Splits zero sep text h = absurd (omega arith)
split_loop-Splits (suc fuel) sep text h = elim (Option-cases (index_of sep text)) [
  | inl last ↦
      rw (last, split_loop)
        (record {
          joined = refl;
          clean = (index_of-Lacks sep text last, tt);
          some_field = omega arith;
        })
  | inr (pos, found) ↦
      let cut = index_of-Cut sep text pos found in
      rw (found, split_loop)
        (Splits-next sep (take pos text) (drop (suc pos) text) text _ cut.before cut.whole (
          split_loop-Splits fuel sep (drop (suc pos) text)
            (omega (arith, length-drop (suc pos) text, cut.inside))))
]

-- The fields of `split` joined with the separator are the text, none of them has the separator in
-- it, and there is at least one.
pub split-Splits : (text : Bytes) (sep : ℕ) → Splits sep text (split text sep)
unfolding split
split-Splits text sep = split_loop-Splits (length text + 1) sep text (omega arith)
