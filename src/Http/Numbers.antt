-- ===== src/Http/Numbers.antt =====
-- src/io/net/http/response.cpp: parse_size and parse_chunk_size.
use samurai.Prelude.{
  ℕ, ◌+◌, ◌-◌, ◌*◌, ◌/◌, ◌≤◌, ◌<◌, ◌≡◌, refl, sym, Bool, true, false, not, ◌&&◌, Option, none, some,
  [], ◌∷◌, inl, inr, arith, Bool-cases, if◌then◌else◌, length, take, ltb, leb, ◌==◌, Bytes,
  size_max, index_of,
}
use samurai.Text.{trim}
use samurai.Text.Percent.{hex_value}
use samurai.Text.Numbers.{is_digit, all_digits, decimal, decimal_grows}

-- The loop of parse_size. The source's `value > (SIZE_MAX - 9) / 10` comes before the digit is added.
unfoldable pub parse_size_loop : Bytes → ℕ → Option ℕ
parse_size_loop [] value = some value
parse_size_loop (c ∷ cs) value =
    let rest = parse_size_loop cs (value * 10 + (c - 0x30)) in
    if not (is_digit c) then none else if ltb ((size_max - 9) / 10) value then none else rest

unfoldable pub parse_size : Bytes → Option ℕ
parse_size text = if length text == 0 then none else parse_size_loop text 0

-- The loop of parse_chunk_size, on hexadecimal digits.
unfoldable pub parse_chunk_loop : Bytes → ℕ → Option ℕ
parse_chunk_loop [] value = some value
parse_chunk_loop (c ∷ cs) value = elim (hex_value c) [
  | none ↦ none
  | some d ↦
      let rest = parse_chunk_loop cs (value * 16 + d) in
      if ltb ((size_max - 15) / 16) value then none else rest
]

-- The text in front of a chunk extension.
unfoldable pub before_extension : Bytes → Bytes
before_extension text = elim (index_of 0x3B text) [ none ↦ text | some semi ↦ take semi text ]

unfoldable pub parse_chunk_size : Bytes → Option ℕ
parse_chunk_size text =
    let digits = trim (before_extension text) in
    if length digits == 0 then none else parse_chunk_loop digits 0

-- The largest number that parse_size takes another digit after.
abbrev pub size_limit : ℕ
size_limit = (size_max - 9) / 10

-- A number of digits, when all of them are digits and it is at most that much.
abbrev pub capped : Bool → ℕ → Option ℕ
capped all d = if all && leb (d / 10) size_limit then some d else none

capped_over : (all : Bool) (d : ℕ) → size_limit < d / 10 → capped all d ≡ none
capped_over true d h = ground (arith, h)
capped_over false d h = refl

one_digit :
    (v digit : ℕ)
    → digit ≤ 9
    → (if ltb size_limit v then none else some (v * 10 + digit)) ≡ capped true (v * 10 + digit)
one_digit v digit h = ground (arith, h)

parse_size_loop-decimal :
    (c : ℕ) (cs : Bytes) (value : ℕ)
    → parse_size_loop (c ∷ cs) value ≡ capped (all_digits (c ∷ cs)) (decimal (c ∷ cs) value)
unfolding parse_size_loop all_digits is_digit
parse_size_loop-decimal c [] value = elim (Bool-cases (is_digit c)) [
  | inl d ↦ rw (d, parse_size_loop) (one_digit value (c - 0x30) (ground (arith, d)))
  | inr other ↦ rw (other, parse_size_loop) refl
]
parse_size_loop-decimal c (e ∷ es) value =
    let next = value * 10 + (c - 0x30) in
    elim (Bool-cases (is_digit c)) [
      | inl d ↦ elim (Bool-cases (ltb size_limit value)) [
        | inl over ↦
            rw (d, over, parse_size_loop)
              (sym (
                capped_over (all_digits (e ∷ es)) (decimal (e ∷ es) next)
                  (ground (arith, over, decimal_grows (e ∷ es) next))))
        | inr fits ↦ rw (d, fits, parse_size_loop) (parse_size_loop-decimal e es next)
      ]
      | inr other ↦ rw (other, parse_size_loop) refl
    ]

-- parse_size accepts the texts of one digit or more whose value without the last digit is at most
-- (SIZE_MAX - 9) / 10, and returns their decimal value, which nothing wraps; it refuses every other
-- text.
pub parse_size-decimal :
    (text : Bytes)
    → parse_size text
      ≡ (if length text == 0 then none else capped (all_digits text) (decimal text 0))
unfolding parse_size
parse_size-decimal [] = refl
parse_size-decimal (c ∷ cs) =
    let e : (length (c ∷ cs) == 0) ≡ false = ground arith in rw e (parse_size_loop-decimal c cs 0)
