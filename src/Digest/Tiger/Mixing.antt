-- ===== src/Digest/Tiger/Mixing.antt =====
-- src/crypto/digest/tiger.cpp: `round` and `pass`, and inverses of them.
use native.Mathlib.Nat.{div-add-mod', add-mul-mod_self_right}
use samurai.Prelude.{
  ℕ, ◌+◌, ◌*◌, ◌/◌, ◌%◌, ◌^◌, ◌<◌, ◌≡◌, sym, ap, ◌∙◌, arith, word_mod, wrap, bit_xor, xor_cancel,
}
use samurai.Digest.Tiger.{
  Result, Key, sub, even_octets, odd_octets, round, round_bca, round_cab, pass, bca, cab,
}
use samurai.Digest.Tiger.Bounds.{
  AreWords, KeyIsWords, even_octets-lt, odd_octets-lt, round-AreWords, round_bca-AreWords,
  round_cab-AreWords,
}

-- What `round` did, undone: `inverse` is the inverse of the multiplier modulo 2^64.
pub unround : Result → ℕ → ℕ → Result
unround r x inverse = record {
  a = wrap (r.a + even_octets r.c);
  b = sub (wrap (r.b * inverse)) (odd_octets r.c);
  c = bit_xor r.c x;
}

regroup : (q r n w : ℕ) → (q * w + r) * n ≡ r * n + q * n * w
regroup q r n w = omega arith

mod-mul-mod : (z n w : ℕ) → (z % w) * n % w ≡ z * n % w
mod-mul-mod z n w = sym (
    ap (λ t. t * n % w) (sym (div-add-mod' z w))
    ∙ ap (λ t. t % w) (regroup (z / w) (z % w) n w)
    ∙ add-mul-mod_self_right (z % w * n) (z / w * n) w)

-- A multiplication modulo 2^64 is undone by one with the inverse.
wrap-wrap_mul : (y m n : ℕ) → wrap (m * n) ≡ 1 → wrap (wrap (y * m) * n) ≡ wrap y
wrap-wrap_mul y m n e =
    mod-mul-mod (y * m) n word_mod
    ∙ ap wrap (swap y m n)
    ∙ sym (mod-mul-mod (m * n) y word_mod)
    ∙ ap (λ t. wrap (t * y)) e
    ∙ ap wrap (one y)
  where
    swap : (a b c : ℕ) → a * b * c ≡ b * c * a
    swap a b c = omega arith

    one : (a : ℕ) → 1 * a ≡ a
    one a = omega arith

sub-add : (a e : ℕ) → a < 2 ^ 64 → e < 2 ^ 64 → wrap (sub a e + e) ≡ a
sub-add a e p q = omega arith

add-sub : (b e : ℕ) → b < 2 ^ 64 → e < 2 ^ 64 → sub (wrap (wrap (b + e))) e ≡ b
add-sub b e p q = omega arith

-- A round on words of 64 bits, with an odd multiplier, is undone by `unround`: it takes no two states
-- to the same one.
pub unround-round :
    (r : Result) (x mul inverse : ℕ)
    → AreWords r
    → x < 2 ^ 64
    → wrap (mul * inverse) ≡ 1
    → unround (round r x mul) x inverse ≡ r
unfolding round unround
unround-round r x mul inverse w lt e =
    let c = bit_xor r.c x in
    rw
      (
        sub-add r.a (even_octets c) w.a (even_octets-lt c),
        wrap-wrap_mul (wrap (r.b + odd_octets c)) mul inverse e,
        xor_cancel 64 r.c x w.c lt,
      )
      (ap (λ (b : ℕ). record r { b = b }) (add-sub r.b (odd_octets c) w.b (odd_octets-lt c)))

-- The rounds on turned arguments, undone.
pub unround_bca : Result → ℕ → ℕ → Result
unfolding unround
unround_bca r x inverse = cab (unround (bca r) x inverse)

pub unround_cab : Result → ℕ → ℕ → Result
unfolding unround
unround_cab r x inverse = bca (unround (cab r) x inverse)

module _ (mul inverse : ℕ) (e : wrap (mul * inverse) ≡ 1) where
  unround_bca-round_bca :
      (r : Result) (x : ℕ) → AreWords r → x < 2 ^ 64 → unround_bca (round_bca r x mul) x inverse ≡ r
  unfolding round_bca unround_bca
  unround_bca-round_bca r x w lt =
      ap (λ (t : Result). cab t)
        (unround-round (bca r) x mul inverse (record { a = w.b; b = w.c; c = w.a }) lt e)

  unround_cab-round_cab :
      (r : Result) (x : ℕ) → AreWords r → x < 2 ^ 64 → unround_cab (round_cab r x mul) x inverse ≡ r
  unfolding round_cab unround_cab
  unround_cab-round_cab r x w lt =
      ap (λ (t : Result). bca t)
        (unround-round (cab r) x mul inverse (record { a = w.c; b = w.a; c = w.b }) lt e)

-- What `pass` did, undone, the last round first.
pub unpass : Result → Key → ℕ → Result
unpass r8 k inverse =
    let r7 = unround_bca r8 k.x7 inverse in
    let r6 = unround r7 k.x6 inverse in
    let r5 = unround_cab r6 k.x5 inverse in
    let r4 = unround_bca r5 k.x4 inverse in
    let r3 = unround r4 k.x3 inverse in
    let r2 = unround_cab r3 k.x2 inverse in
    let r1 = unround_bca r2 k.x1 inverse in unround r1 k.x0 inverse

-- On words of 64 bits, and for a multiplier with an inverse modulo 2^64, `pass` is undone by
-- `unpass`, so that for a given key it takes no two states to the same one.
pub unpass-pass :
    (r : Result) (k : Key) (mul inverse : ℕ)
    → AreWords r
    → KeyIsWords k
    → wrap (mul * inverse) ≡ 1
    → unpass (pass r k mul) k inverse ≡ r
unfolding pass unpass
unpass-pass r0 k mul inverse w0 kw e =
    let w1 = round-AreWords r0 k.x0 mul w0 kw.x0 in
    let w2 = round_bca-AreWords _ k.x1 mul w1 kw.x1 in
    let w3 = round_cab-AreWords _ k.x2 mul w2 kw.x2 in
    let w4 = round-AreWords _ k.x3 mul w3 kw.x3 in
    let w5 = round_bca-AreWords _ k.x4 mul w4 kw.x4 in
    let w6 = round_cab-AreWords _ k.x5 mul w5 kw.x5 in
    let w7 = round-AreWords _ k.x6 mul w6 kw.x6 in
    rw (
      unround_bca-round_bca mul inverse e _ k.x7 w7 kw.x7,
      unround-round _ k.x6 mul inverse w6 kw.x6 e,
      unround_cab-round_cab mul inverse e _ k.x5 w5 kw.x5,
      unround_bca-round_bca mul inverse e _ k.x4 w4 kw.x4,
      unround-round _ k.x3 mul inverse w3 kw.x3 e,
      unround_cab-round_cab mul inverse e _ k.x2 w2 kw.x2,
      unround_bca-round_bca mul inverse e _ k.x1 w1 kw.x1,
      unround-round _ k.x0 mul inverse w0 kw.x0 e,
    )
