-- ===== src/Digest/Tiger/Bounds.antt =====
-- src/crypto/digest/tiger.cpp: the sizes of the words of `round` and `pass`.
use samurai.Prelude.{
  ℕ, zero, suc, ◌^◌, ◌<◌, ◌≡◌, refl, Bool, true, ◌&&◌, List, [], ◌∷◌, get_or, ltb, arith, wrap,
  bit_or, bit_xor, or-lt, xor-lt,
}
use samurai.Digest.Tiger.{
  sbox1, sbox2, sbox3, sbox4, octet, Result, Key, even_octets, odd_octets, round, round_bca,
  round_cab, pass, bca, cab,
}
use samurai.Digest.Tiger.Sbox1.{sbox1_table}
use samurai.Digest.Tiger.Sbox2.{sbox2_table}
use samurai.Digest.Tiger.Sbox3.{sbox3_table}
use samurai.Digest.Tiger.Sbox4.{sbox4_table}

-- The test that every entry of a table is below 2^64.
are_words : List ℕ → Bool
are_words [] = true
are_words (x ∷ xs) = ltb x (2 ^ 64) && are_words xs

get_or-lt : (xs : List ℕ) (i : ℕ) → are_words xs ≡ true → get_or xs i 0 < 2 ^ 64
unfolding are_words
get_or-lt [] i e = omega arith
get_or-lt (x ∷ xs) zero e = ground (arith, e)
get_or-lt (x ∷ xs) (suc i) e = get_or-lt xs i (ground (arith, e))

sbox1-lt : (i : ℕ) → sbox1 i < 2 ^ 64
unfolding sbox1 are_words
sbox1-lt i = get_or-lt sbox1_table i refl

sbox2-lt : (i : ℕ) → sbox2 i < 2 ^ 64
unfolding sbox2 are_words
sbox2-lt i = get_or-lt sbox2_table i refl

sbox3-lt : (i : ℕ) → sbox3 i < 2 ^ 64
unfolding sbox3 are_words
sbox3-lt i = get_or-lt sbox3_table i refl

sbox4-lt : (i : ℕ) → sbox4 i < 2 ^ 64
unfolding sbox4 are_words
sbox4-lt i = get_or-lt sbox4_table i refl

xor-word : (a b : ℕ) → a < 2 ^ 64 → b < 2 ^ 64 → bit_xor a b < 2 ^ 64
xor-word = xor-lt 64

or-word : (a b : ℕ) → a < 2 ^ 64 → b < 2 ^ 64 → bit_or a b < 2 ^ 64
or-word = or-lt 64

wrap-lt : (a : ℕ) → wrap a < 2 ^ 64
wrap-lt a = omega arith

pub even_octets-lt : (c : ℕ) → even_octets c < 2 ^ 64
unfolding even_octets
even_octets-lt c =
    xor-word _ _
      (xor-word _ _ (xor-word _ _ (sbox1-lt (octet c 0x00)) (sbox2-lt (octet c 0x10)))
        (sbox3-lt (octet c 0x20)))
      (sbox4-lt (octet c 0x30))

pub odd_octets-lt : (c : ℕ) → odd_octets c < 2 ^ 64
unfolding odd_octets
odd_octets-lt c =
    xor-word _ _
      (xor-word _ _ (xor-word _ _ (sbox4-lt (octet c 0x08)) (sbox3-lt (octet c 0x18)))
        (sbox2-lt (octet c 0x28)))
      (sbox1-lt (octet c 0x38))

pub record AreWords (r : Result) : Type 0 where
  pub a : r.a < 2 ^ 64
  pub b : r.b < 2 ^ 64
  pub c : r.c < 2 ^ 64

pub record KeyIsWords (k : Key) : Type 0 where
  pub x0 : k.x0 < 2 ^ 64
  pub x1 : k.x1 < 2 ^ 64
  pub x2 : k.x2 < 2 ^ 64
  pub x3 : k.x3 < 2 ^ 64
  pub x4 : k.x4 < 2 ^ 64
  pub x5 : k.x5 < 2 ^ 64
  pub x6 : k.x6 < 2 ^ 64
  pub x7 : k.x7 < 2 ^ 64

pub round-AreWords : (r : Result) (x mul : ℕ) → AreWords r → x < 2 ^ 64 → AreWords (round r x mul)
unfolding round
round-AreWords r x mul w lt = record { a = wrap-lt _; b = wrap-lt _; c = xor-word _ _ w.c lt }

turn : (r : Result) → AreWords r → AreWords (bca r)
turn r w = record { a = w.b; b = w.c; c = w.a }

returned : (r : Result) → AreWords r → AreWords (cab r)
returned r w = record { a = w.c; b = w.a; c = w.b }

pub round_bca-AreWords :
    (r : Result) (x mul : ℕ) → AreWords r → x < 2 ^ 64 → AreWords (round_bca r x mul)
unfolding round_bca
round_bca-AreWords r x mul w lt = returned _ (round-AreWords (bca r) x mul (turn r w) lt)

pub round_cab-AreWords :
    (r : Result) (x mul : ℕ) → AreWords r → x < 2 ^ 64 → AreWords (round_cab r x mul)
unfolding round_cab
round_cab-AreWords r x mul w lt = turn _ (round-AreWords (cab r) x mul (returned r w) lt)

pub pass-AreWords :
    (r : Result) (k : Key) (mul : ℕ) → AreWords r → KeyIsWords k → AreWords (pass r k mul)
unfolding pass
pass-AreWords r k mul w kw =
    round_bca-AreWords _ _ mul
      (round-AreWords _ _ mul
        (round_cab-AreWords _ _ mul
          (round_bca-AreWords _ _ mul
            (round-AreWords _ _ mul
              (round_cab-AreWords _ _ mul
                (round_bca-AreWords _ _ mul (round-AreWords r _ mul w kw.x0) kw.x1) kw.x2)
              kw.x3)
            kw.x4)
          kw.x5)
        kw.x6)
      kw.x7
