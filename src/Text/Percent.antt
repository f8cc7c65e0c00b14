-- ===== src/Text/Percent.antt =====
-- src/util/string.cpp: percent_encode, percent_decode and the round trip.
use samurai.Prelude.{
  ℕ, ◌+◌, ◌-◌, ◌*◌, ◌/◌, ◌%◌, ◌<◌, ◌≡◌, ap, ◌∙◌, Bool, true, false, ◌||◌, ◌&&◌, Option, none, some,
  [], ◌∷◌, ◌++◌, append_assoc, append-nil, inl, inr, arith, Bool-cases, if◌then◌else◌, leb, ◌==◌,
  Bytes, AreBytes, bit_or, or_fields,
}

unfoldable pub is_unreserved : ℕ → Bool
is_unreserved c =
    (leb 0x41 c && leb c 0x5A)
    || (leb 0x61 c && leb c 0x7A)
    || (leb 0x30 c && leb c 0x39)
    || c == 0x2D
    || c == 0x2E
    || c == 0x5F
    || c == 0x7E

-- The value of a hexadecimal digit; -1 in the source is `none`.
unfoldable pub hex_value : ℕ → Option ℕ
hex_value c =
    if leb 0x30 c && leb c 0x39
    then some (c - 0x30)
    else if leb 0x61 c && leb c 0x66
    then some (c - 0x61 + 10)
    else if leb 0x41 c && leb c 0x46
    then some (c - 0x41 + 10)
    else none

-- (hi << 4) | lo, when both are digits.
unfoldable pub escaped_byte : Option ℕ → Option ℕ → Option ℕ
escaped_byte none lo = none
escaped_byte (some hi) none = none
escaped_byte (some hi) (some lo) = some (bit_or (hi * 16) lo % 256)

-- The loop of percent_decode: the bytes left, what is decoded so far, and the result.
unfoldable pub decode_loop : Bytes → Bytes → Bytes × Bool
decode_loop [] out = (out, true)
decode_loop (c ∷ []) out = if c == 0x25 then (out, false) else (out ++ c ∷ [], true)
decode_loop (c ∷ h ∷ []) out = elim (c == 0x25) [
  | true ↦ (out, false)
  | false ↦ decode_loop (h ∷ []) (out ++ c ∷ [])
]
decode_loop (c ∷ h ∷ l ∷ rest) out = elim (c == 0x25) [
  | true ↦ elim (escaped_byte (hex_value h) (hex_value l)) [
    | none ↦ (out, false)
    | some byte ↦ decode_loop rest (out ++ byte ∷ [])
  ]
  | false ↦ decode_loop (h ∷ l ∷ rest) (out ++ c ∷ [])
]

unfoldable pub percent_decode : Bytes → Bytes × Bool
percent_decode text = decode_loop text []

-- "0123456789ABCDEF"
unfoldable pub hex_digit : ℕ → ℕ
hex_digit d = if leb d 9 then 0x30 + d else 0x41 + (d - 10)

unfoldable pub percent_encode_char : ℕ → Bytes
percent_encode_char c =
    if is_unreserved c then c ∷ [] else 0x25 ∷ hex_digit (c / 16) ∷ hex_digit (c % 16) ∷ []

unfoldable pub percent_encode : Bytes → Bytes
percent_encode [] = []
percent_encode (c ∷ cs) = percent_encode_char c ++ percent_encode cs

hex_value-hex_digit : (d : ℕ) → d < 16 → hex_value (hex_digit d) ≡ some d
unfolding hex_value hex_digit
hex_value-hex_digit d h = ground arith

escaped_byte-hex :
    (c : ℕ)
    → c < 256
    → escaped_byte (hex_value (hex_digit (c / 16))) (hex_value (hex_digit (c % 16))) ≡ some c
unfolding escaped_byte
escaped_byte-hex c h =
    rw (hex_value-hex_digit (c / 16) (omega arith), hex_value-hex_digit (c % 16) (omega arith))
      (ap some (omega (arith, or_fields 4 (c / 16) (c % 16) (omega arith))))

unreserved_not_percent : (c : ℕ) → is_unreserved c ≡ true → (c == 0x25) ≡ false
unfolding is_unreserved
unreserved_not_percent c h = ground arith

-- A byte that is no percent sign is decoded to itself, whatever follows.
decode_loop-plain :
    (c : ℕ) (rest out : Bytes)
    → (c == 0x25) ≡ false
    → decode_loop (c ∷ rest) out ≡ decode_loop rest (out ++ c ∷ [])
unfolding decode_loop
decode_loop-plain c [] out e = rw (e, decode_loop)
decode_loop-plain c (h ∷ []) out e = rw (e, decode_loop)
decode_loop-plain c (h ∷ l ∷ rest) out e = rw (e, decode_loop)

decode_loop_coded :
    (c : ℕ) (rest out : Bytes)
    → c < 256
    → decode_loop (0x25 ∷ hex_digit (c / 16) ∷ hex_digit (c % 16) ∷ rest) out
      ≡ decode_loop rest (out ++ c ∷ [])
unfolding decode_loop
decode_loop_coded c rest out h = rw (decode_loop, escaped_byte-hex c h)

decode_loop-char :
    (c : ℕ) (rest out : Bytes)
    → c < 256
    → decode_loop (percent_encode_char c ++ rest) out ≡ decode_loop rest (out ++ c ∷ [])
unfolding percent_encode_char
decode_loop-char c rest out h = elim (Bool-cases (is_unreserved c)) [
  | inl plain ↦ rw plain (decode_loop-plain c rest out (unreserved_not_percent c plain))
  | inr coded ↦ rw coded (decode_loop_coded c rest out h)
]

decode_loop-encode :
    (text out : Bytes) → AreBytes text → decode_loop (percent_encode text) out ≡ (out ++ text, true)
unfolding percent_encode decode_loop
decode_loop-encode [] out p = rw (append-nil out)
decode_loop-encode (c ∷ cs) out p =
    decode_loop-char c (percent_encode cs) out p.0
    ∙ decode_loop-encode cs (out ++ c ∷ []) p.1
    ∙ ap (λ (t : Bytes). (t, true)) (append_assoc out (c ∷ []) cs)

-- Decoding the percent encoding of a text of bytes succeeds and gives the text back.
pub percent_decode-percent_encode :
    (text : Bytes) → AreBytes text → percent_decode (percent_encode text) ≡ (text, true)
unfolding percent_decode
percent_decode-percent_encode text p = decode_loop-encode text [] p
