-- ===== src/Prelude/Bits.antt =====
-- The laws of `|` and `^` at variables, from the digit recursions that the operations stand for.
use Prim.Native.Nat.{ℕ, zero, suc, ◌+◌, ◌-◌, ◌*◌, ◌/◌, ◌%◌, ◌^◌, ◌≤◌, ◌<◌, max, differ}
use Prim.Native.Nat.{
  digits, bit_and, bit_or, bit_xor, bit_or-bitwise, bit_xor-bitwise, bit_and-bitwise, min,
}
use mathlib.Core.Path.{◌≡◌, refl, sym, ap, ap₂}
use native.Mathlib.Nat.{pow-suc, one-le-pow, mod-lt, div-add-mod'}
use native.Mathlib.Omega.{arith}

module _ (pad : ℕ → ℕ) (op : ℕ → ℕ → ℕ) where
  -- Any two amounts of fuel that reach the first number give the same digits.
  same_digits :
      (a b : ℕ) (more less : ℕ)
      → a ≤ less
      → a ≤ more
      → digits pad op more a b ≡ digits pad op less a b
  same_digits zero b zero zero low high = refl
  same_digits zero b (suc more) zero low high = refl
  same_digits zero b zero (suc less) low high = refl
  same_digits zero b (suc more) (suc less) low high = refl
  same_digits (suc a) b more zero low high = absurd (omega arith)
  same_digits (suc a) b zero (suc less) low high = absurd (omega arith)
  same_digits (suc a) b (suc more) (suc less) low high =
      let half = suc a / 2 in
      let halved = same_digits half (b / 2) more less (omega arith) (omega arith) in
      ap (λ (rest : ℕ). rest * 2 + op (suc a % 2) (b % 2)) halved

-- Each operation goes by the lowest digits and the rest.
pub or_step : (a b : ℕ) → bit_or a b ≡ bit_or (a / 2) (b / 2) * 2 + max (a % 2) (b % 2)
or_step zero b = omega (arith, bit_or-bitwise 0 b, bit_or-bitwise 0 (b / 2))
or_step (suc a) b = omega (
  arith,
  bit_or-bitwise (suc a) b,
  bit_or-bitwise (suc a / 2) (b / 2),
  same_digits (λ x. x) max (suc a / 2) (b / 2) a (suc a / 2) (omega arith) (omega arith),
)

pub xor_step : (a b : ℕ) → bit_xor a b ≡ bit_xor (a / 2) (b / 2) * 2 + differ (a % 2) (b % 2)
xor_step zero b = omega (arith, bit_xor-bitwise 0 b, bit_xor-bitwise 0 (b / 2))
xor_step (suc a) b = omega (
  arith,
  bit_xor-bitwise (suc a) b,
  bit_xor-bitwise (suc a / 2) (b / 2),
  same_digits (λ x. x) differ (suc a / 2) (b / 2) a (suc a / 2) (omega arith) (omega arith),
)

pub and_step : (a b : ℕ) → bit_and a b ≡ bit_and (a / 2) (b / 2) * 2 + min (a % 2) (b % 2)
and_step zero b = omega (arith, bit_and-bitwise 0 b, bit_and-bitwise 0 (b / 2))
and_step (suc a) b = omega (
  arith,
  bit_and-bitwise (suc a) b,
  bit_and-bitwise (suc a / 2) (b / 2),
  same_digits (λ x. zero) min (suc a / 2) (b / 2) a (suc a / 2) (omega arith) (omega arith),
)

or-zero : (k a : ℕ) → a ≤ k → bit_or a 0 ≡ a
or-zero zero zero h = refl
or-zero (suc k) zero h = refl
or-zero zero (suc a) h = absurd (omega arith)
or-zero (suc k) (suc a) h = omega (arith, or_step (suc a) 0, or-zero k (suc a / 2) (omega arith))

pub double_pow : (q k : ℕ) → q * 2 ^ suc k ≡ q * 2 ^ k * 2
double_pow q k = omega (arith, ap (λ (t : ℕ). q * t) (pow-suc 2 k))

-- `q << k | r` is a sum when `r` fits the `k` low digits.
pub or_fields : (k q r : ℕ) → r < 2 ^ k → bit_or (q * 2 ^ k) r ≡ q * 2 ^ k + r
or_fields zero q r h =
    let e : r ≡ 0 = omega arith in rw e (omega (arith, or-zero (q * 1) (q * 1) (omega arith)))
or_fields (suc k) q r h = rw (double_pow q k) (
    omega
      (arith, or_step (q * 2 ^ k * 2) r, half, or_fields k q (r / 2) (omega (arith, pow-suc 2 k))))
  where
    half : bit_or (q * 2 ^ k * 2 / 2) (r / 2) ≡ bit_or (q * 2 ^ k) (r / 2)
    half = ap (λ (t : ℕ). bit_or t (r / 2)) (omega arith)

pub or-lt : (k a b : ℕ) → a < 2 ^ k → b < 2 ^ k → bit_or a b < 2 ^ k
or-lt zero a b ha hb =
    let e : a ≡ 0 = omega arith in let f : b ≡ 0 = omega arith in rw (e, f) (omega arith)
or-lt (suc k) a b ha hb = omega (
  arith,
  or_step a b,
  pow-suc 2 k,
  or-lt k (a / 2) (b / 2) (omega (arith, pow-suc 2 k)) (omega (arith, pow-suc 2 k)),
)

differ_bits : (a b : ℕ) → a < 2 → b < 2 → (differ a b < 2) × (differ (differ a b) b ≡ a)
differ_bits zero zero p q = omega arith
differ_bits zero (suc zero) p q = omega arith
differ_bits (suc zero) zero p q = omega arith
differ_bits (suc zero) (suc zero) p q = omega arith
differ_bits zero (suc (suc b)) p q = absurd (omega arith)
differ_bits (suc zero) (suc (suc b)) p q = absurd (omega arith)
differ_bits (suc (suc a)) b p q = absurd (omega arith)

pub xor-lt : (k a b : ℕ) → a < 2 ^ k → b < 2 ^ k → bit_xor a b < 2 ^ k
xor-lt zero a b ha hb =
    let e : a ≡ 0 = omega arith in let f : b ≡ 0 = omega arith in rw (e, f) (omega arith)
xor-lt (suc k) a b ha hb = omega (
  arith,
  xor_step a b,
  pow-suc 2 k,
  (differ_bits (a % 2) (b % 2) (omega arith) (omega arith)).0,
  xor-lt k (a / 2) (b / 2) (omega (arith, pow-suc 2 k)) (omega (arith, pow-suc 2 k)),
)

-- Doing `^` twice undoes it.
pub xor_cancel : (k a b : ℕ) → a < 2 ^ k → b < 2 ^ k → bit_xor (bit_xor a b) b ≡ a
xor_cancel zero a b ha hb = let e : a ≡ 0 = omega arith in let f : b ≡ 0 = omega arith in rw (e, f)
xor_cancel (suc k) a b ha hb = omega (
  arith,
  xor_step (bit_xor a b) b,
  ap (λ (t : ℕ). bit_xor t (b / 2)) rest,
  ap (λ (t : ℕ). differ t (b % 2)) low,
  bits.1,
  xor_cancel k (a / 2) (b / 2) (omega (arith, pow-suc 2 k)) (omega (arith, pow-suc 2 k)),
)
  where
    bits : (differ (a % 2) (b % 2) < 2) × (differ (differ (a % 2) (b % 2)) (b % 2) ≡ a % 2)
    bits = differ_bits (a % 2) (b % 2) (omega arith) (omega arith)

    rest : bit_xor a b / 2 ≡ bit_xor (a / 2) (b / 2)
    rest = omega (arith, xor_step a b, bits.0)

    low : bit_xor a b % 2 ≡ differ (a % 2) (b % 2)
    low = omega (arith, xor_step a b, bits.0)

and-zero : (k a : ℕ) → a ≤ k → bit_and a 0 ≡ 0
and-zero zero zero h = refl
and-zero (suc k) zero h = refl
and-zero zero (suc a) h = absurd (omega arith)
and-zero (suc k) (suc a) h = omega (arith, and_step (suc a) 0, and-zero k (suc a / 2) (omega arith))

-- `& (2 ^ k - 1)` is the remainder, at the masks that the sources use.
and_fields : (k q r : ℕ) → r < 2 ^ k → bit_and (q * 2 ^ k + r) (2 ^ k - 1) ≡ r
and_fields zero q r h = omega (arith, and-zero (q * 1 + r) (q * 1 + r) (omega arith))
and_fields (suc k) q r h = rw (double_pow q k) (
    omega (
      arith,
      and_step (q * 2 ^ k * 2 + r) (2 ^ suc k - 1),
      pow-suc 2 k,
      halves,
      one-le-pow k 2 (omega arith),
      and_fields k q (r / 2) (omega (arith, pow-suc 2 k)),
    ))
  where
    halves :
        bit_and ((q * 2 ^ k * 2 + r) / 2) ((2 ^ suc k - 1) / 2)
        ≡ bit_and (q * 2 ^ k + r / 2) (2 ^ k - 1)
    halves = ap₂ bit_and (omega arith) (omega (arith, pow-suc 2 k, one-le-pow k 2 (omega arith)))

pub and_mask : (k a : ℕ) → bit_and a (2 ^ k - 1) ≡ a % 2 ^ k
and_mask k a =
    rw (← divided) at
      (and_fields k (a / 2 ^ k) (a % 2 ^ k) (mod-lt a (one-le-pow k 2 (omega arith))))
  where
    divided : a ≡ a / 2 ^ k * 2 ^ k + a % 2 ^ k
    divided = sym (div-add-mod' a (2 ^ k))
