-- ===== src/Text/Tests.antt =====
-- The theorems on the text utilities at concrete texts.
use samurai.Prelude.{
  ◌^◌, ◌≡◌, ◌⊎◌, refl, true, false, [], ◌∷◌, some, arith, Bytes, if◌then◌else◌, min, size_max,
}
use samurai.Text.{trim, split, split_loop, ifind, ifind_from, iequals}
use samurai.Text.Fields.{Splits, split-Splits}
use samurai.Text.Trim.{Trims, trim-Trims}
use samurai.Text.Percent.{
  is_unreserved, hex_value, escaped_byte, decode_loop, hex_digit, percent_encode_char,
  percent_encode, percent_decode, percent_decode-percent_encode,
}
use samurai.Text.Utf8.{continuation, append_utf8, is_scalar, Adds, decode_utf8-append_utf8}
use samurai.Text.Numbers.{
  is_digit, is_c_space, take_sign, digits_loop, clamp_int32, to_int64, to_int32, to_uint64,
  saturated, skip_ws_sign, decimal, conversions_saturate,
}

-- "a b"
abbrev a_b : Bytes
a_b = 0x61 ∷ 0x20 ∷ 0x62 ∷ []

-- " -70000000000 "
abbrev number : Bytes
number =
    0x20 ∷ 0x2D ∷ 0x37 ∷ 0x30 ∷ 0x30 ∷ 0x30 ∷ 0x30 ∷ 0x30 ∷ 0x30 ∷ 0x30 ∷ 0x30 ∷ 0x30 ∷ 0x30 ∷ 0x20
    ∷ []

-- "a%20b"
test_percent_encode : percent_encode a_b ≡ 0x61 ∷ 0x25 ∷ 0x32 ∷ 0x30 ∷ 0x62 ∷ []
unfolding percent_encode percent_encode_char is_unreserved hex_digit
test_percent_encode = refl

test_percent_decode : percent_decode (0x61 ∷ 0x25 ∷ 0x32 ∷ []) ≡ (0x61 ∷ [], false)
unfolding percent_decode decode_loop hex_value escaped_byte
test_percent_decode = refl

test_split : split a_b 0x20 ≡ (0x61 ∷ []) ∷ (0x62 ∷ []) ∷ []
unfolding split split_loop
test_split = refl

-- "B" in "a b"
test_ifind : ifind a_b (0x42 ∷ []) ≡ some 2
unfolding ifind ifind_from iequals
test_ifind = refl

test_euro : append_utf8 0x20AC [] ≡ (0xE2 ∷ 0x82 ∷ 0xAC ∷ [], true)
unfolding append_utf8 continuation
test_euro = refl

test_to_int32 : to_int32 number ≡ record { negative = true; magnitude = 2147483648 }
unfolding to_int32 clamp_int32 to_int64 skip_ws_sign take_sign is_c_space digits_loop is_digit
test_to_int32 = refl

percent_decode_example : percent_decode (percent_encode a_b) ≡ (a_b, true)
percent_decode_example =
    percent_decode-percent_encode a_b (omega arith, (omega arith, (omega arith, tt)))

split_example : Splits 0x20 a_b (split a_b 0x20)
split_example = split-Splits a_b 0x20

trim_example : Trims number (trim number)
trim_example = trim-Trims number

utf8_example :
    ((is_scalar 0x20AC ≡ true) × Adds 0x20AC [] (append_utf8 0x20AC []))
    ⊎ ((is_scalar 0x20AC ≡ false) × (append_utf8 0x20AC [] ≡ ([], false)))
utf8_example = decode_utf8-append_utf8 0x20AC []

conversions_example :
    (to_int64 number ≡ saturated (2 ^ 63) number)
    × (to_int32 number ≡ saturated (2 ^ 31) number)
    × (to_uint64 number
        ≡ (if (skip_ws_sign number).0 then 0 else min (decimal (skip_ws_sign number).1 0) size_max))
conversions_example = conversions_saturate number
