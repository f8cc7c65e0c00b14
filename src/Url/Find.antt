-- ===== src/Url/Find.antt =====
-- src/io/net/url.cpp: what its searches find in a text that is put together.
use samurai.Prelude.{
  ℕ, suc, ◌+◌, ◌≡◌, refl, true, some, none, [], ◌∷◌, ◌++◌, arith, length, drop, Bytes,
  last_index_of, index_of,
}
use samurai.Text.Fields.{Lacks}
use samurai.Url.Parse.{is_delimiter, authority_end}
use samurai.Url.Parts.{Undelimited}

-- The first slash behind a segment without one.
pub index_of_after :
    (c : ℕ) (xs ys : Bytes) → Lacks c xs → index_of c (xs ++ c ∷ ys) ≡ some (length xs)
index_of_after c [] ys l = ground arith
index_of_after c (x ∷ xs) ys l = rw (l.0, index_of_after c xs ys l.1) (ground arith)

pub index_of_nowhere : (c : ℕ) (xs : Bytes) → Lacks c xs → index_of c xs ≡ none
index_of_nowhere c [] l = refl
index_of_nowhere c (x ∷ xs) l = rw (l.0, index_of_nowhere c xs l.1) refl

pub drop-suc : (xs : Bytes) (c : ℕ) (ys : Bytes) → drop (suc (length xs)) (xs ++ c ∷ ys) ≡ ys
drop-suc [] c ys = refl
drop-suc (x ∷ xs) c ys = drop-suc xs c ys

pub Undelimited-append : (xs ys : Bytes) → Undelimited xs → Undelimited ys → Undelimited (xs ++ ys)
Undelimited-append [] ys p q = q
Undelimited-append (x ∷ xs) ys p q = (p.0, Undelimited-append xs ys p.1 q)

pub Lacks-append : (c : ℕ) (xs ys : Bytes) → Lacks c xs → Lacks c ys → Lacks c (xs ++ ys)
Lacks-append c [] ys p q = q
Lacks-append c (x ∷ xs) ys p q = (p.0, Lacks-append c xs ys p.1 q)

abbrev pub StartsDelimiter : Bytes → Type 0
StartsDelimiter [] = Unit
StartsDelimiter (c ∷ cs) = is_delimiter c ≡ true

pub authority_end_lem :
    (xs ys : Bytes) → Undelimited xs → StartsDelimiter ys → authority_end (xs ++ ys) ≡ length xs
unfolding authority_end
authority_end_lem [] [] p q = refl
authority_end_lem [] (y ∷ ys) p q = rw q refl
authority_end_lem (x ∷ xs) ys p q = rw (p.0, authority_end_lem xs ys p.1 q) (omega arith)

pub last_index_of_nowhere : (c : ℕ) (xs : Bytes) → Lacks c xs → last_index_of c xs ≡ none
last_index_of_nowhere c [] l = refl
last_index_of_nowhere c (x ∷ xs) l = rw (last_index_of_nowhere c xs l.1, l.0) refl

pub last_index_of_after :
    (c : ℕ) (xs ys : Bytes) → Lacks c ys → last_index_of c (xs ++ c ∷ ys) ≡ some (length xs)
last_index_of_after c [] ys l = rw (last_index_of_nowhere c ys l) (ground arith)
last_index_of_after c (x ∷ xs) ys l = rw (last_index_of_after c xs ys l) (ground arith)

pub drop_next : (xs : Bytes) (c : ℕ) (ys : Bytes) → drop (length xs + 1) (xs ++ c ∷ ys) ≡ ys
drop_next xs c ys = let e : length xs + 1 ≡ suc (length xs) = omega arith in rw e (drop-suc xs c ys)
