-- ===== src/Text.antt =====
-- src/util/string.cpp and the comparisons of src/stdc.cpp: trimming, splitting, escaping, and
-- matching without regard to case. A view is the list of its bytes; npos is `none`.
pub mod Fields
pub mod Trim
pub mod Percent
pub mod Utf8
pub mod Numbers
mod Tests
use samurai.Prelude.{
  ℕ, zero, suc, ◌+◌, ◌-◌, Bool, false, ◌||◌, ◌&&◌, Option, none, some, [], ◌∷◌, ◌++◌, List, map,
  if◌then◌else◌, length, take, drop, ltb, leb, ◌==◌, Bytes, index_of, same_bytes,
}

unfoldable pub is_space : ℕ → Bool
is_space c = c == 0x20 || c == 0x09 || c == 0x0D || c == 0x0A

-- The first loop of `trim`.
unfoldable pub skip_spaces : Bytes → Bytes
skip_spaces [] = []
skip_spaces (c ∷ cs) = if is_space c then skip_spaces cs else c ∷ cs

-- The second loop of `trim`, which takes the spaces off the end.
unfoldable pub drop_spaces : Bytes → Bytes
drop_spaces [] = []
drop_spaces (c ∷ cs) = elim (drop_spaces cs) [
  | [] ↦ if is_space c then [] else c ∷ []
  | d ∷ ds ↦ c ∷ d ∷ ds
]

unfoldable pub trim : Bytes → Bytes
trim text = drop_spaces (skip_spaces text)

-- The loop of `split`, on the text from `begin`. Each round takes a separator, so that one round
-- more than there are bytes is enough.
unfoldable pub split_loop : ℕ → ℕ → Bytes → List Bytes
split_loop zero sep text = []
split_loop (suc fuel) sep text = elim (index_of sep text) [
  | none ↦ text ∷ []
  | some pos ↦ take pos text ∷ split_loop fuel sep (drop (suc pos) text)
]

unfoldable pub split : Bytes → ℕ → List Bytes
split text sep = split_loop (length text + 1) sep text

unfoldable pub split_once : Bytes → ℕ → Option (Bytes × Bytes)
split_once text sep = elim (index_of sep text) [
  | none ↦ none
  | some pos ↦ some (take pos text, drop (suc pos) text)
]

-- One character of xml_escape.
unfoldable pub xml_escape_char : ℕ → Bytes
xml_escape_char c =
    if c == 0x26
    then 0x26 ∷ 0x61 ∷ 0x6D ∷ 0x70 ∷ 0x3B ∷ []
    else if c == 0x3C
    then 0x26 ∷ 0x6C ∷ 0x74 ∷ 0x3B ∷ []
    else if c == 0x3E
    then 0x26 ∷ 0x67 ∷ 0x74 ∷ 0x3B ∷ []
    else if c == 0x22
    then 0x26 ∷ 0x71 ∷ 0x75 ∷ 0x6F ∷ 0x74 ∷ 0x3B ∷ []
    else if c == 0x27
    then 0x26 ∷ 0x61 ∷ 0x70 ∷ 0x6F ∷ 0x73 ∷ 0x3B ∷ []
    else c ∷ []

unfoldable pub xml_escape : Bytes → Bytes
xml_escape [] = []
xml_escape (c ∷ cs) = xml_escape_char c ++ xml_escape cs

-- src/stdc.cpp: samurai_ascii_lower, iequals, istarts_with and ifind.
unfoldable pub ascii_lower : ℕ → ℕ
ascii_lower c = if leb 0x41 c && leb c 0x5A then c - 0x41 + 0x61 else c

unfoldable pub iequals : Bytes → Bytes → Bool
unfolding ascii_lower
iequals a b = same_bytes (map ascii_lower a) (map ascii_lower b)

unfoldable pub istarts_with : Bytes → Bytes → Bool
istarts_with str prefix =
    if ltb (length str) (length prefix) then false else iequals (take (length prefix) str) prefix

-- The loop of `ifind`, for `rounds` places from `at`.
unfoldable pub ifind_from : ℕ → Bytes → Bytes → ℕ → Option ℕ
ifind_from zero haystack needle at = none
ifind_from (suc rounds) haystack needle at =
    let rest = ifind_from rounds haystack needle (at + 1) in
    if iequals (take (length needle) (drop at haystack)) needle then some at else rest

unfoldable pub ifind : Bytes → Bytes → Option ℕ
ifind haystack needle =
    if length needle == 0
    then some 0
    else if ltb (length haystack) (length needle)
    then none
    else ifind_from (length haystack - length needle + 1) haystack needle 0
