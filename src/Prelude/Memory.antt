-- ===== src/Prelude/Memory.antt =====
-- Memory as lists of bytes: what memcpy, memmove, memcmp and memchr do, and machine words.
use Prim.Native.Nat.{ℕ, zero, suc, ◌+◌, ◌-◌, ◌*◌, ◌%◌, ◌^◌, ◌≤◌, ◌<◌}
use mathlib.Core.Path.{◌≡◌, refl, ap}
use mathlib.Core.Bool.{Bool, true, false, ◌&&◌}
use mathlib.Core.List.{List, [], ◌∷◌, ◌++◌}
use mathlib.Core.Option
use mathlib.Core.Option.{Option, none, some}
use native.Mathlib.Nat.{pow-suc}
use native.Mathlib.Numerals.{add_eight}
use native.Mathlib.Omega.{arith}
use samurai.Prelude.Tests.{◌==◌, if◌then◌else◌}
use samurai.Prelude.Lists.{length, replicate, take, drop}

-- A char is its value as an unsigned byte.
abbrev pub Bytes : Type 0
Bytes = List ℕ

-- The number of values of a size_t, and of the other 64-bit words.
abbrev pub word_mod : ℕ
word_mod = 2 ^ 64

abbrev pub size_max : ℕ
size_max = 2 ^ 64 - 1

-- The value that a 64-bit unsigned computation leaves.
abbrev pub wrap : ℕ → ℕ
wrap n = n % 2 ^ 64

-- memcpy and memmove to position `i`. Bytes past the end of the target are dropped.
abbrev pub write : Bytes → ℕ → Bytes → Bytes
write [] i ys = []
write (x ∷ xs) zero [] = x ∷ xs
write (x ∷ xs) zero (y ∷ ys) = y ∷ write xs zero ys
write (x ∷ xs) (suc i) ys = x ∷ write xs i ys

-- The `n` bytes from position `i`.
abbrev pub slice : Bytes → ℕ → ℕ → Bytes
slice xs i n = take n (drop i xs)

-- memcmp(xs, ys, n) == 0, for n bytes on both sides.
abbrev pub same_bytes : Bytes → Bytes → Bool
same_bytes [] [] = true
same_bytes [] (y ∷ ys) = false
same_bytes (x ∷ xs) [] = false
same_bytes (x ∷ xs) (y ∷ ys) = x == y && same_bytes xs ys

pub same_bytes-eq : (xs ys : Bytes) → same_bytes xs ys ≡ true → xs ≡ ys
same_bytes-eq [] [] h = refl
same_bytes-eq [] (y ∷ ys) h = ground arith
same_bytes-eq (x ∷ xs) [] h = ground arith
same_bytes-eq (x ∷ xs) (y ∷ ys) h = ground (arith, same_bytes-eq xs ys)

-- memchr: the first position of a byte.
abbrev pub index_of : ℕ → Bytes → Option ℕ
index_of c [] = none
index_of c (x ∷ xs) = if x == c then some 0 else Option.map (λ i. i + 1) (index_of c xs)

-- memrchr: the last position of a byte.
abbrev pub last_index_of : ℕ → Bytes → Option ℕ
last_index_of c [] = none
last_index_of c (x ∷ xs) = elim (last_index_of c xs) [
  | some i ↦ some (i + 1)
  | none ↦ if x == c then some 0 else none
]

pub length-write : (xs : Bytes) (i : ℕ) (ys : Bytes) → length (write xs i ys) ≡ length xs
length-write [] i ys = refl
length-write (x ∷ xs) zero [] = refl
length-write (x ∷ xs) zero (y ∷ ys) = ap suc (length-write xs zero ys)
length-write (x ∷ xs) (suc i) ys = ap suc (length-write xs i ys)

take-write_start : (xs ys : Bytes) → length ys ≤ length xs → take (length ys) (write xs 0 ys) ≡ ys
take-write_start xs [] h = refl
take-write_start [] (y ∷ ys) h = absurd (omega arith)
take-write_start (x ∷ xs) (y ∷ ys) h = ap (◌∷◌ y) (take-write_start xs ys (omega arith))

take-write :
    (xs : Bytes) (l m : ℕ) (ys : Bytes)
    → m ≡ l + length ys
    → m ≤ length xs
    → take m (write xs l ys) ≡ take l xs ++ ys
take-write xs zero m ys e h =
    let e' : m ≡ length ys = omega arith in rw e' (take-write_start xs ys (omega arith))
take-write [] (suc l) m ys e h = absurd (omega arith)
take-write (x ∷ xs) (suc l) zero ys e h = absurd (omega arith)
take-write (x ∷ xs) (suc l) (suc m) ys e h =
    ap (◌∷◌ x) (take-write xs l m ys (omega arith) (omega arith))

-- Bytes written at `l` follow those that stood between `h` and `l`.
pub slice-write :
    (xs : Bytes) (h l m : ℕ) (ys : Bytes)
    → h ≤ l
    → h + m ≡ l + length ys
    → l + length ys ≤ length xs
    → slice (write xs l ys) h m ≡ slice xs h (l - h) ++ ys
slice-write xs zero l m ys p e q =
    let s : l - 0 ≡ l = omega arith in rw s (take-write xs l m ys (omega arith) (omega arith))
slice-write xs (suc h) zero m ys p e q = absurd (omega arith)
slice-write [] (suc h) (suc l) m ys p e q = absurd (omega arith)
slice-write (x ∷ xs) (suc h) (suc l) m ys p e q =
    let s : suc l - suc h ≡ l - h = omega arith in
    rw s (slice-write xs h l m ys (omega arith) (omega arith) (omega arith))

-- Every entry is a byte.
abbrev pub AreBytes : Bytes → Type 0
AreBytes [] = Unit
AreBytes (x ∷ xs) = (x < 256) × AreBytes xs

pub AreBytes-append : (xs ys : Bytes) → AreBytes xs → AreBytes ys → AreBytes (xs ++ ys)
AreBytes-append [] ys p q = q
AreBytes-append (x ∷ xs) ys p q = (p.0, AreBytes-append xs ys p.1 q)

pub AreBytes-take : (n : ℕ) (xs : Bytes) → AreBytes xs → AreBytes (take n xs)
AreBytes-take zero xs p = tt
AreBytes-take (suc n) [] p = tt
AreBytes-take (suc n) (x ∷ xs) p = (p.0, AreBytes-take n xs p.1)

pub AreBytes-drop : (n : ℕ) (xs : Bytes) → AreBytes xs → AreBytes (drop n xs)
AreBytes-drop zero xs p = p
AreBytes-drop (suc n) [] p = tt
AreBytes-drop (suc n) (x ∷ xs) p = AreBytes-drop n xs p.1

pub two-pow-add_eight : (n : ℕ) → 2 ^ (n + 8) ≡ 2 ^ n * 256
two-pow-add_eight n = rw add_eight (
    omega (
      arith,
      pow-suc 2 n,
      pow-suc 2 (suc n),
      pow-suc 2 (suc (suc n)),
      pow-suc 2 (suc (suc (suc n))),
      pow-suc 2 (suc (suc (suc (suc n)))),
      pow-suc 2 (suc (suc (suc (suc (suc n))))),
      pow-suc 2 (suc (suc (suc (suc (suc (suc n)))))),
      pow-suc 2 (suc (suc (suc (suc (suc (suc (suc n))))))),
    ))

-- One byte more.
pub two-pow_byte : (k : ℕ) → 2 ^ (8 * suc k) ≡ 2 ^ (8 * k) * 256
two-pow_byte k = let e : 8 * suc k ≡ 8 * k + 8 = omega arith in rw e (two-pow-add_eight (8 * k))

pub write-nil : (xs : Bytes) (i : ℕ) → write xs i [] ≡ xs
write-nil [] i = refl
write-nil (x ∷ xs) zero = refl
write-nil (x ∷ xs) (suc i) = ap (◌∷◌ x) (write-nil xs i)

-- Writes that follow one another are one write.
pub write-write :
    (xs : Bytes) (i k : ℕ) (ys zs : Bytes)
    → k ≡ i + length ys
    → write (write xs i ys) k zs ≡ write xs i (ys ++ zs)
write-write xs i k [] zs e = let e' : k ≡ i = omega arith in rw (e', write-nil xs i)
write-write [] i k (y ∷ ys) zs e = refl
write-write (x ∷ xs) zero zero (y ∷ ys) zs e = absurd (omega arith)
write-write (x ∷ xs) zero (suc k) (y ∷ ys) zs e =
    ap (◌∷◌ y) (write-write xs zero k ys zs (omega arith))
write-write (x ∷ xs) (suc i) zero (y ∷ ys) zs e = absurd (omega arith)
write-write (x ∷ xs) (suc i) (suc k) (y ∷ ys) zs e =
    ap (◌∷◌ x) (write-write xs i k (y ∷ ys) zs (omega arith))

-- A write over everything leaves nothing of what was there.
pub write_all : (xs ys : Bytes) → length ys ≡ length xs → write xs 0 ys ≡ ys
write_all [] [] e = refl
write_all [] (y ∷ ys) e = absurd (omega arith)
write_all (x ∷ xs) [] e = absurd (omega arith)
write_all (x ∷ xs) (y ∷ ys) e = ap (◌∷◌ y) (write_all xs ys (omega arith))

-- A second write of the same length at the same place.
pub write-write_same :
    (xs : Bytes) (i : ℕ) (ys zs : Bytes)
    → length ys ≡ length zs
    → write (write xs i ys) i zs ≡ write xs i zs
write-write_same [] i ys zs e = refl
write-write_same (x ∷ xs) zero [] [] e = refl
write-write_same (x ∷ xs) zero [] (z ∷ zs) e = absurd (omega arith)
write-write_same (x ∷ xs) zero (y ∷ ys) [] e = absurd (omega arith)
write-write_same (x ∷ xs) zero (y ∷ ys) (z ∷ zs) e =
    ap (◌∷◌ z) (write-write_same xs zero ys zs (omega arith))
write-write_same (x ∷ xs) (suc i) ys zs e = ap (◌∷◌ x) (write-write_same xs i ys zs e)

pub write_after :
    (xs ys zs : Bytes) (i : ℕ)
    → i ≡ length xs
    → length ys ≡ length zs
    → write (xs ++ ys) i zs ≡ xs ++ zs
write_after [] ys zs i e f = let e' : i ≡ 0 = omega arith in rw e' (write_all ys zs (omega arith))
write_after (x ∷ xs) ys zs zero e f = absurd (omega arith)
write_after (x ∷ xs) ys zs (suc i) e f = ap (◌∷◌ x) (write_after xs ys zs i (omega arith) f)

pub replicate-add : (k n m : ℕ) → k ≡ n + m → replicate {A = ℕ} k 0 ≡ replicate n 0 ++ replicate m 0
replicate-add k zero m e = let e' : k ≡ m = omega arith in rw e'
replicate-add zero (suc n) m e = absurd (omega arith)
replicate-add (suc k) (suc n) m e = ap (◌∷◌ 0) (replicate-add k n m (omega arith))

-- The numbers below `n`, in order.
abbrev pub upto_from : ℕ → ℕ → Bytes
upto_from i zero = []
upto_from i (suc n) = i ∷ upto_from (i + 1) n

abbrev pub upto : ℕ → Bytes
upto n = upto_from 0 n
