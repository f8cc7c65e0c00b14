-- ===== src/Text/Utf8.antt =====
-- src/util/string.cpp: append_utf8, and a decoder of one character to state what it encodes.
use samurai.Prelude.{
  ℕ, ◌+◌, ◌-◌, ◌*◌, ◌/◌, ◌%◌, ◌≤◌, ◌<◌, ◌≡◌, refl, ap, Bool, true, false, ◌||◌, ◌&&◌, ◌⊎◌, Option,
  none, some, [], ◌∷◌, ◌++◌, inl, inr, arith, Bool-cases, if◌then◌else◌, if_cases, ltb, leb, Bytes,
  bit_or, bit_and, or_fields, and_mask,
}

-- 0x80 | (part & 0x3f)
unfoldable pub continuation : ℕ → ℕ
continuation part = bit_or 0x80 (bit_and part 0x3F)

-- append_utf8: the text that it leaves, and whether the code point has an encoding.
unfoldable pub append_utf8 : ℕ → Bytes → Bytes × Bool
append_utf8 codepoint out =
    if ltb 0x10FFFF codepoint
    then (out, false)
    else if leb 0xD800 codepoint && leb codepoint 0xDFFF
    then (out, false)
    else if ltb codepoint 0x80
    then (out ++ codepoint ∷ [], true)
    else if ltb codepoint 0x800
    then (out ++ bit_or 0xC0 (codepoint / 64) ∷ continuation codepoint ∷ [], true)
    else if ltb codepoint 0x10000
    then (
      out
          ++ bit_or 0xE0 (codepoint / 4096)
            ∷ continuation (codepoint / 64)
            ∷ continuation codepoint
            ∷ [],
      true,
    )
    else (
      out
          ++ bit_or 0xF0 (codepoint / 262144)
            ∷ continuation (codepoint / 4096)
            ∷ continuation (codepoint / 64)
            ∷ continuation codepoint
            ∷ [],
      true,
    )

-- A character of RFC 3629, by its first byte: the lead's bits and six of each continuation byte.
-- Nothing else is read, neither overlong forms nor surrogates.
abbrev pub is_scalar : ℕ → Bool
is_scalar c = ltb c 0xD800 || (ltb 0xDFFF c && ltb c 0x110000)

abbrev is_continuation : ℕ → Bool
is_continuation b = leb 0x80 b && ltb b 0xC0

unfoldable pub decode_utf8 : Bytes → Option ℕ
decode_utf8 [] = none
decode_utf8 (a ∷ []) = if ltb a 0x80 then some a else none
decode_utf8 (a ∷ b ∷ []) =
    let c = (a - 0xC0) * 64 + (b - 0x80) in
    if leb 0xC0 a && ltb a 0xE0 && is_continuation b && leb 0x80 c then some c else none
decode_utf8 (a ∷ b ∷ d ∷ []) =
    let c = (a - 0xE0) * 4096 + (b - 0x80) * 64 + (d - 0x80) in
    if leb 0xE0 a
      && ltb a 0xF0
      && is_continuation b
      && is_continuation d
      && leb 0x800 c
      && is_scalar c
    then some c
    else none
decode_utf8 (a ∷ b ∷ d ∷ e ∷ []) =
    let c = (a - 0xF0) * 262144 + (b - 0x80) * 4096 + (d - 0x80) * 64 + (e - 0x80) in
    if leb 0xF0 a
      && ltb a 0xF8
      && is_continuation b
      && is_continuation d
      && is_continuation e
      && leb 0x10000 c
      && is_scalar c
    then some c
    else none
decode_utf8 (a ∷ b ∷ d ∷ e ∷ f ∷ rest) = none

continuation_lem : (part : ℕ) → continuation part ≡ 0x80 + part % 64
unfolding continuation
continuation_lem part = omega (
  arith,
  ap (λ (t : ℕ). bit_or 0x80 t) (and_mask 6 part),
  or_fields 6 2 (part % 64) (omega arith),
)

two : (c : ℕ) → 0x80 ≤ c → c < 0x800 → decode_utf8 ((0xC0 + c / 64) ∷ (0x80 + c % 64) ∷ []) ≡ some c
unfolding decode_utf8
two c low high = ground arith

three :
    (c : ℕ)
    → 0x800 ≤ c
    → c < 0x10000
    → is_scalar c ≡ true
    → decode_utf8 ((0xE0 + c / 4096) ∷ (0x80 + c / 64 % 64) ∷ (0x80 + c % 64) ∷ []) ≡ some c
unfolding decode_utf8
three c low high s = ground arith

four :
    (c : ℕ)
    → 0x10000 ≤ c
    → c < 0x110000
    → decode_utf8
        ((0xF0 + c / 262144) ∷ (0x80 + c / 4096 % 64) ∷ (0x80 + c / 64 % 64) ∷ (0x80 + c % 64) ∷ [])
      ≡ some c
unfolding decode_utf8
four c low high = ground arith

-- What `append_utf8` adds for a code point is its encoding.
pub record Adds (c : ℕ) (out : Bytes) (r : Bytes × Bool) : Type 0 where
  pub bytes : Bytes
  pub added : r ≡ (out ++ bytes, true)
  pub decodes : decode_utf8 bytes ≡ some c

lead_two : (c : ℕ) → c < 0x800 → bit_or 0xC0 (c / 64) ≡ 0xC0 + c / 64
lead_two c h = omega (arith, or_fields 5 6 (c / 64) (omega arith))

lead_three : (c : ℕ) → c < 0x10000 → bit_or 0xE0 (c / 4096) ≡ 0xE0 + c / 4096
lead_three c h = omega (arith, or_fields 4 14 (c / 4096) (omega arith))

lead_four : (c : ℕ) → c < 0x110000 → bit_or 0xF0 (c / 262144) ≡ 0xF0 + c / 262144
lead_four c h = omega (arith, or_fields 3 30 (c / 262144) (omega arith))

append_utf8-Adds : (c : ℕ) (out : Bytes) → is_scalar c ≡ true → Adds c out (append_utf8 c out)
unfolding append_utf8 decode_utf8
append_utf8-Adds c out s =
    if_cases P (ltb 0x10FFFF c) (λ e. absurd (ground (arith, s, e)))
      (λ valid.
        if_cases P (leb 0xD800 c && leb c 0xDFFF) (λ e. absurd (ground (arith, s, e)))
          (λ _.
            if_cases P (ltb c 0x80)
              (λ e. record { bytes = c ∷ []; added = refl; decodes = ground arith })
              (λ one.
                if_cases P (ltb c 0x800)
                  (λ e.
                    let h : c < 0x800 = ground arith in
                    rw (lead_two c h, continuation_lem c)
                      (record { bytes = _; added = refl; decodes = two c (ground arith) h }))
                  (λ more.
                    if_cases P (ltb c 0x10000)
                      (λ e.
                        let h : c < 0x10000 = ground arith in
                        rw (lead_three c h, continuation_lem c, continuation_lem (c / 64))
                          (record {
                            bytes = _;
                            added = refl;
                            decodes = three c (ground arith) h s;
                          }))
                      (λ e.
                        let h : c < 0x110000 = ground arith in
                        rw
                          (
                            lead_four c h,
                            continuation_lem c,
                            continuation_lem (c / 64),
                            continuation_lem (c / 4096),
                          )
                          (record {
                            bytes = _;
                            added = refl;
                            decodes = four c (ground arith) h;
                          }))))))
  where
    P : Bytes × Bool → Type 0
    P = Adds c out

-- For every code point and text, either the code point is a scalar value, append_utf8 succeeds, and
-- what it adds to the text is what the decoder of RFC 3629 reads as the code point; or it is a
-- surrogate or above 0x10FFFF, and append_utf8 fails and leaves the text.
pub decode_utf8-append_utf8 :
    (c : ℕ) (out : Bytes)
    → ((is_scalar c ≡ true) × Adds c out (append_utf8 c out))
      ⊎ ((is_scalar c ≡ false) × (append_utf8 c out ≡ (out, false)))
unfolding append_utf8
decode_utf8-append_utf8 c out = elim (Bool-cases (is_scalar c)) [
  | inl s ↦ inl (s, append_utf8-Adds c out s)
  | inr s ↦ inr (s, ground (arith, s))
]
