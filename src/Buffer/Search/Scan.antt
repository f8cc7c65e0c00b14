-- ===== src/Buffer/Search/Scan.antt =====
-- Where a string can start: the lemmas about memmem, memchr and memrchr.
use mathlib.Core.Option
use samurai.Prelude.{
  ℕ, zero, suc, ◌+◌, ◌-◌, leb, slice, if_true, if_false, ◌≤◌, ◌<◌, ◌≡◌, refl, sym, ap, ◌∙◌, inl,
  inr, true, false, [], ◌∷◌, Option, none, some, arith, Bool-cases, Option-cases, ◌==◌,
  if◌then◌else◌, length, take, drop, get_or, Bytes, index_of, last_index_of, same_bytes,
  same_bytes-eq, length-take, ◌++◌,
}
use samurai.Buffer.{Buffer, size}
use samurai.Buffer.Search.{find, search}

pub index_of-bound : (c : ℕ) (xs : Bytes) {i : ℕ} → index_of c xs ≡ some i → i < length xs
index_of-bound c [] e = cc
index_of-bound c (x ∷ xs) {i} e = elim (Bool-cases (x == c)) [
  | inl hit ↦ ground arith
  | inr miss ↦ elim (Option-cases (index_of c xs)) [
    | inl nowhere ↦ ground arith
    | inr (j, found) ↦ ground (arith, index_of-bound c xs found)
  ]
]

same_bytes-length : (xs ys : Bytes) → same_bytes xs ys ≡ true → length xs ≡ length ys
same_bytes-length xs ys h = ap length (same_bytes-eq xs ys h)

-- A string starts nowhere but where its first byte is.
search_miss :
    (c x : ℕ) (cs xs : Bytes)
    → (x == c) ≡ false
    → search (c ∷ cs) (x ∷ xs) ≡ Option.map (λ i. i + 1) (search (c ∷ cs) xs)
unfolding search
search_miss c x cs xs miss = rw miss

map-map : (f g : ℕ → ℕ) (o : Option ℕ) → Option.map f (Option.map g o) ≡ Option.map (λ k. f (g k)) o
map-map f g none = refl
map-map f g (some k) = refl

map_zero-add : (o : Option ℕ) → Option.map (λ k. 0 + k) o ≡ o
map_zero-add none = refl
map_zero-add (some k) = ap some (omega arith)

map_suc-add :
    (j i : ℕ) (o : Option ℕ)
    → i ≡ j + 1
    → Option.map (λ n. n + 1) (Option.map (λ k. j + k) o) ≡ Option.map (λ k. i + k) o
map_suc-add j i none e = refl
map_suc-add j i (some k) e = ap some (omega arith)

pub search-index_of :
    (c : ℕ) (cs xs : Bytes) (i : ℕ)
    → index_of c xs ≡ some i
    → search (c ∷ cs) xs ≡ Option.map (λ k. i + k) (search (c ∷ cs) (drop i xs))
search-index_of c cs [] i e = cc
search-index_of c cs (x ∷ xs) i e = elim (Bool-cases (x == c)) [
  | inl hit ↦ let z : i ≡ 0 = ground arith in rw z (sym (map_zero-add _))
  | inr miss ↦ elim (Option-cases (index_of c xs)) [
    | inl nowhere ↦ absurd (ground arith)
    | inr (j, found) ↦
        let z : i ≡ suc j = ground arith in
        rw z (
          search_miss c x cs xs miss
          ∙ ap (Option.map (λ n. n + 1)) (search-index_of c cs xs j found)
          ∙ map_suc-add j (suc j) (search (c ∷ cs) (drop j xs)) (omega arith))
  ]
]

pub search-none : (c : ℕ) (cs xs : Bytes) → index_of c xs ≡ none → search (c ∷ cs) xs ≡ none
unfolding search
search-none c cs [] e = ground arith
search-none c cs (x ∷ xs) e = ground (arith, search-none c cs xs)

-- Nor where too few bytes are left.
pub search_short : (str xs : Bytes) → length xs < length str → search str xs ≡ none
unfolding search
search_short str [] h = ground arith
search_short str (x ∷ xs) h = elim (Bool-cases (same_bytes (take (length str) (x ∷ xs)) str)) [
  | inl hit ↦ absurd (
      omega (
        arith,
        same_bytes-length (take (length str) (x ∷ xs)) str hit,
        length-take (length str) (x ∷ xs),
      ))
  | inr miss ↦ rw miss (ap (Option.map (λ i. i + 1)) (search_short str xs (omega arith)))
]

pub search_hit :
    (str xs : Bytes)
    → length str ≤ length xs
    → same_bytes (take (length str) xs) str ≡ true
    → search str xs ≡ some 0
unfolding search
search_hit str [] h e = ground arith
search_hit str (x ∷ xs) h e = rw e

pub search_next :
    (str xs : Bytes)
    → 0 < length xs
    → same_bytes (take (length str) xs) str ≡ false
    → search str xs ≡ Option.map (λ i. i + 1) (search str (drop 1 xs))
unfolding search
search_next str [] h e = absurd (omega arith)
search_next str (x ∷ xs) h e = rw e

pub take_last :
    (n : ℕ) (xs : Bytes) → n < length xs → take (suc n) xs ≡ take n xs ++ get_or xs n 0 ∷ []
take_last n [] h = absurd (omega arith)
take_last zero (x ∷ xs) h = refl
take_last (suc n) (x ∷ xs) h = ap (◌∷◌ x) (take_last n xs (omega arith))

pub last_index_of-concat :
    (c : ℕ) (xs : Bytes) (y : ℕ)
    → last_index_of c (xs ++ y ∷ []) ≡ (if y == c then some (length xs) else last_index_of c xs)
last_index_of-concat c [] y = refl
last_index_of-concat c (x ∷ xs) y = elim (Bool-cases (y == c)) [
  | inl hit ↦ ground (arith, last_index_of-concat c xs y)
  | inr miss ↦ ground (arith, last_index_of-concat c xs y)
]

pub map_sum :
    (f g h : ℕ → ℕ) (o : Option ℕ)
    → ((k : ℕ) → f (g k) ≡ h k)
    → Option.map f (Option.map g o) ≡ Option.map h o
map_sum f g h none e = refl
map_sum f g h (some k) e = ap some (e k)

-- What `find` finds from the front is inside the live bytes.
pub found_inside : (b : Buffer) (c i : ℕ) → find b c 0 ≡ some i → i < size b
unfolding find
found_inside b c i e =
    let bytes = slice b.buf (b.head + 0) (b.len - b.head - 0) in
    elim (Bool-cases (leb (b.len - b.head) 0)) [
      | inl empty ↦ absurd (ground (arith, sym (if_true _ _ empty) ∙ e))
      | inr more ↦
          let hit : Option.map (λ j. 0 + j) (index_of c bytes) ≡ some i =
            sym (if_false _ _ more) ∙ e in
          elim (Option-cases (index_of c bytes)) [
            | inl nowhere ↦ absurd (ground (arith, nowhere, hit))
            | inr (j, found) ↦
                let same : i ≡ j = ground (arith, found, hit) in
                omega (
                  arith,
                  same,
                  index_of-bound c bytes found,
                  length-take (b.len - b.head - 0) (drop (b.head + 0) b.buf),
                )
          ]
    ]
