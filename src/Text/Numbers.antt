-- ===== src/Text/Numbers.antt =====
-- src/stdc.cpp: the conversions from text to integers. A C string is its bytes with the terminating
-- zero taken off; an int64_t is a sign and a magnitude.
use samurai.Prelude.{
  ℕ, ◌+◌, ◌-◌, ◌*◌, ◌/◌, ◌^◌, ◌≤◌, ◌<◌, ◌≡◌, ap, ◌∙◌, Bool, true, false, not, ◌||◌, ◌&&◌, [], ◌∷◌,
  inl, inr, arith, Bool-cases, if◌then◌else◌, if_cases, length, ltb, leb, ◌==◌, Bytes, size_max,
  min,
}

unfoldable pub is_digit : ℕ → Bool
is_digit c = leb 0x30 c && leb c 0x39

-- The white space of samurai_skip_ws_sign.
unfoldable pub is_c_space : ℕ → Bool
is_c_space c = c == 0x20 || c == 0x09 || c == 0x0A || c == 0x0D || c == 0x0B || c == 0x0C

-- The sign, and the text behind it.
unfoldable pub take_sign : Bytes → Bool × Bytes
take_sign [] = (false, [])
take_sign (c ∷ cs) =
    if c == 0x2D then (true, cs) else if c == 0x2B then (false, cs) else (false, c ∷ cs)

unfoldable pub skip_ws_sign : Bytes → Bool × Bytes
skip_ws_sign [] = take_sign []
skip_ws_sign (c ∷ cs) = if is_c_space c then skip_ws_sign cs else take_sign (c ∷ cs)

-- The loop over the digits, which stops at `limit` before the value would pass it.
unfoldable pub digits_loop : ℕ → Bytes → ℕ → ℕ
digits_loop limit [] val = val
digits_loop limit (c ∷ cs) val =
    let digit = c - 0x30 in
    let rest = digits_loop limit cs (val * 10 + digit) in
    if is_digit c then (if ltb ((limit - digit) / 10) val then limit else rest) else val

abbrev pub int64_min_magnitude : ℕ
int64_min_magnitude = 2 ^ 63

abbrev pub int64_max : ℕ
int64_max = 2 ^ 63 - 1

-- An int64_t: whether it is negative, and its absolute value.
pub record Int64 : Type 0 where
  pub negative : Bool
  pub magnitude : ℕ

unfoldable pub to_int64 : Bytes → Int64
to_int64 value =
    let signed = skip_ws_sign value in
    let limit = if signed.0 then int64_min_magnitude else int64_max in
    record { negative = signed.0; magnitude = digits_loop limit signed.1 0 }

unfoldable pub to_uint64 : Bytes → ℕ
to_uint64 value =
    let signed = skip_ws_sign value in if signed.0 then 0 else digits_loop size_max signed.1 0

-- The comparisons with INT32_MAX and INT32_MIN.
unfoldable pub clamp_int32 : Int64 → Int64
clamp_int32 val =
    if not val.negative && ltb 2147483647 val.magnitude
    then record { negative = false; magnitude = 2147483647 }
    else if val.negative && ltb 2147483648 val.magnitude
    then record { negative = true; magnitude = 2147483648 }
    else val

unfoldable pub to_int32 : Bytes → Int64
to_int32 value = clamp_int32 (to_int64 value)

unfoldable pub all_digits : Bytes → Bool
all_digits [] = true
all_digits (c ∷ cs) = is_digit c && all_digits cs

unfoldable pub to_uint16 : Bytes → ℕ
to_uint16 str =
    if length str == 0
    then 0
    else if not (all_digits str)
    then 0
    else let n = to_int64 str in
      if n.negative && ltb 0 n.magnitude || ltb 65535 n.magnitude then 0 else n.magnitude

-- The value of the digits in front, with no bound, after those that gave `val`.
abbrev pub decimal : Bytes → ℕ → ℕ
decimal [] val = val
decimal (c ∷ cs) val =
    let rest = decimal cs (val * 10 + (c - 0x30)) in if is_digit c then rest else val

pub decimal_grows : (text : Bytes) (val : ℕ) → val ≤ decimal text val
decimal_grows [] val = omega arith
decimal_grows (c ∷ cs) val =
    if_cases (λ (d : ℕ). val ≤ d) (is_digit c)
      (λ _. omega (arith, decimal_grows cs (val * 10 + (c - 0x30)))) (λ _. omega arith)

-- The loop computes the decimal number, cut to the limit.
pub digits_loop-decimal :
    (limit : ℕ) (text : Bytes) (val : ℕ)
    → 9 ≤ limit
    → val ≤ limit
    → digits_loop limit text val ≡ min (decimal text val) limit
unfolding digits_loop is_digit
digits_loop-decimal limit [] val big h = omega arith
digits_loop-decimal limit (c ∷ cs) val big h =
    let digit = c - 0x30 in
    let next = val * 10 + digit in
    elim (Bool-cases (is_digit c)) [
      | inl d ↦ elim (Bool-cases (ltb ((limit - digit) / 10) val)) [
        | inl over ↦
            let passes : limit < next = ground (arith, d, over) in
            rw (d, over, digits_loop, decimal) (omega (arith, decimal_grows cs next))
        | inr fits ↦
            rw (d, fits, digits_loop, decimal)
              (digits_loop-decimal limit cs next big (ground (arith, d, fits)))
      ]
      | inr other ↦ rw (other, digits_loop, decimal) (omega arith)
    ]

-- The value of a signed text, cut to a range of `w` bits in two's complement.
abbrev pub saturated : ℕ → Bytes → Int64
saturated half text =
    let signed = skip_ws_sign text in
    record {
      negative = signed.0;
      magnitude = min (decimal signed.1 0) (if signed.0 then half else half - 1);
    }

to_int64-saturated : (value : Bytes) → to_int64 value ≡ saturated (2 ^ 63) value
unfolding to_int64
to_int64-saturated value =
    ap (λ (m : ℕ). record { negative = (skip_ws_sign value).0; magnitude = m })
      (digits_loop-decimal _ (skip_ws_sign value).1 0 (big (skip_ws_sign value).0) (omega arith))
  where
    big : (b : Bool) → 9 ≤ (if b then int64_min_magnitude else int64_max)
    big true = omega arith
    big false = omega arith

-- An integer with this sign and at most this magnitude.
abbrev bounded : Bool → ℕ → ℕ → Int64
bounded negative d half = record {
  negative = negative;
  magnitude = min d (if negative then half else half - 1);
}

clamp_int32-bounded :
    (negative : Bool) (d : ℕ)
    → clamp_int32 (bounded negative d (2 ^ 63)) ≡ bounded negative d (2 ^ 31)
unfolding clamp_int32
clamp_int32-bounded true d =
    if_cases (λ (r : Int64). r ≡ bounded true d (2 ^ 31)) (ltb 2147483648 (min d (2 ^ 63)))
      (λ over. ap (λ (m : ℕ). record { negative = true; magnitude = m }) (ground (arith, over)))
      (λ fits. ap (λ (m : ℕ). record { negative = true; magnitude = m }) (ground (arith, fits)))
clamp_int32-bounded false d =
    if_cases (λ (r : Int64). r ≡ bounded false d (2 ^ 31)) (ltb 2147483647 (min d (2 ^ 63 - 1)))
      (λ over. ap (λ (m : ℕ). record { negative = false; magnitude = m }) (ground (arith, over)))
      (λ fits. ap (λ (m : ℕ). record { negative = false; magnitude = m }) (ground (arith, fits)))

-- to_int64, to_int32 and to_uint64 return the decimal value of the digits behind the white space
-- and the sign, cut to the range of their type; to_uint64 returns 0 for a negative sign.
pub conversions_saturate :
    (value : Bytes)
    → (to_int64 value ≡ saturated (2 ^ 63) value)
      × (to_int32 value ≡ saturated (2 ^ 31) value)
      × (to_uint64 value
          ≡ (if (skip_ws_sign value).0 then 0 else min (decimal (skip_ws_sign value).1 0) size_max))
unfolding to_int32 to_uint64
conversions_saturate value = (
  to_int64-saturated value,
  ap clamp_int32 (to_int64-saturated value)
      ∙ clamp_int32-bounded (skip_ws_sign value).0 (decimal (skip_ws_sign value).1 0),
  ap (λ (m : ℕ). if (skip_ws_sign value).0 then 0 else m)
      (digits_loop-decimal size_max (skip_ws_sign value).1 0 (omega arith) (omega arith)),
)
