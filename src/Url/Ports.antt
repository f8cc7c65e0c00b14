-- ===== src/Url/Ports.antt =====
-- src/io/net/url.cpp, src/stdc.cpp: a port that std::to_string prints is the port that to_uint16
-- reads.
use samurai.Prelude.{
  ℕ, zero, suc, ◌+◌, ◌-◌, ◌*◌, ◌/◌, ◌%◌, ◌^◌, ◌≤◌, ◌<◌, ◌≡◌, refl, ap, ◌∙◌, inl, inr, true, false,
  [], ◌∷◌, arith, Bool-cases, if_cases, length, ltb, lt→ltb, Bytes,
}
use native.Mathlib.Nat.{pow-suc}
use samurai.Text.Numbers.{
  is_digit, is_c_space, take_sign, skip_ws_sign, all_digits, decimal, to_uint16,
  conversions_saturate,
}
use samurai.Url.Resolve.{to_string_loop, to_string}

digit_byte : (d : ℕ) → d < 10 → is_digit (d + 0x30) ≡ true
unfolding is_digit
digit_byte d h = ground arith

-- The digits have the value of the number, in front of any text.
decimal-to_string_loop :
    (digits n : ℕ) (out : Bytes)
    → n < 10 ^ suc digits
    → decimal (to_string_loop (suc digits) n out) 0 ≡ decimal out n
unfolding to_string_loop
decimal-to_string_loop zero n out h =
    let small : n < 10 = omega arith in
    let e : 0 * 10 + (n + 0x30 - 0x30) ≡ n = omega arith in
    rw (lt→ltb n 10 small, digit_byte n small, e) refl
decimal-to_string_loop (suc digits) n out h = elim (Bool-cases (ltb n 10)) [
  | inl last ↦
      let e : 0 * 10 + (n + 0x30 - 0x30) ≡ n = omega arith in
      rw (last, digit_byte n (ground (arith, last)), e) refl
  | inr more ↦
      let digit = digit_byte (n % 10) (omega arith) in
      let e : n / 10 * 10 + (n % 10 + 0x30 - 0x30) ≡ n = omega arith in
      rw more (
        decimal-to_string_loop digits (n / 10) ((n % 10 + 0x30) ∷ out)
          (omega (arith, pow-suc 10 (suc digits)))
        ∙ (rw digit (ap (decimal out) e)))
]

all_digits-to_string_loop :
    (digits n : ℕ) (out : Bytes)
    → all_digits out ≡ true
    → all_digits (to_string_loop digits n out) ≡ true
unfolding to_string_loop all_digits
all_digits-to_string_loop zero n out h = h
all_digits-to_string_loop (suc digits) n out h = elim (Bool-cases (ltb n 10)) [
  | inl last ↦ rw (last, digit_byte n (ground (arith, last))) h
  | inr more ↦ rw more (
      all_digits-to_string_loop digits (n / 10) ((n % 10 + 0x30) ∷ out)
        (rw (digit_byte (n % 10) (omega arith)) h))
]

length-to_string_loop :
    (digits n : ℕ) (out : Bytes)
    → 0 < length out + digits
    → 0 < length (to_string_loop digits n out)
unfolding to_string_loop
length-to_string_loop zero n out h = omega arith
length-to_string_loop (suc digits) n out h =
    if_cases (λ (text : Bytes). 0 < length text) (ltb n 10) (λ _. omega arith)
      (λ _. length-to_string_loop digits (n / 10) ((n % 10 + 0x30) ∷ out) (omega arith))

pub all_digits-to_string : (n : ℕ) → all_digits (to_string n) ≡ true
unfolding to_string
all_digits-to_string n = unfold all_digits in all_digits-to_string_loop 20 n [] refl

-- A text of digits has no white space and no sign in front.
skip_digits : (text : Bytes) → all_digits text ≡ true → skip_ws_sign text ≡ (false, text)
unfolding skip_ws_sign take_sign is_c_space all_digits is_digit
skip_digits [] h = refl
skip_digits (c ∷ cs) h = ground arith

-- What to_uint16 returns of a text of digits.
to_uint16-decimal :
    (text : Bytes)
    → all_digits text ≡ true
    → 0 < length text
    → decimal text 0 ≤ 65535
    → to_uint16 text ≡ decimal text 0
unfolding to_uint16
to_uint16-decimal text digits some small =
    let value = conversions_saturate text in
    let signs = skip_digits text digits in rw (value.0, signs, digits) (ground arith)

pub to_uint16-to_string : (n : ℕ) → n ≤ 65535 → to_uint16 (to_string n) ≡ n
unfolding to_string
to_uint16-to_string n h =
    let value = decimal-to_string_loop 19 n [] (omega arith) in
    to_uint16-decimal (to_string n) (all_digits-to_string n)
      (length-to_string_loop 20 n [] (omega arith)) (omega (arith, value))
    ∙ value

pub to_uint16-le : (text : Bytes) → to_uint16 text ≤ 65535
unfolding to_uint16
to_uint16-le text = ground arith
