-- ===== src/Buffer/Search.antt =====
-- find and rfind of src/io/buffer.cpp. The source has two bodies for rfind and for the search of a
-- string, one that calls memrchr and memmem, where glibc has them, and a portable loop.
pub mod Scan
pub mod Agree
use mathlib.Core.Option
use samurai.Prelude.{
  ℕ, zero, suc, ◌+◌, ◌-◌, [], ◌∷◌, Option, none, some, ltb, leb, ◌==◌, if◌then◌else◌, length, take,
  get_or, Bytes, slice, index_of, last_index_of, same_bytes,
}
use samurai.Buffer.{Buffer}

-- find(char achar, size_t offset)
unfoldable pub find : Buffer → ℕ → ℕ → Option ℕ
find b c offset =
    let live = b.len - b.head in
    if leb live offset
    then none
    else Option.map (λ i. offset + i) (index_of c (slice b.buf (b.head + offset) (live - offset)))

-- rfind, with memrchr
pub rfind : Buffer → ℕ → Option ℕ
rfind b c =
    let live = b.len - b.head in
    if live == 0 then none else last_index_of c (slice b.buf b.head live)

-- The loop of rfind without memrchr, for the positions below `x`.
pub rfind_down : Buffer → ℕ → ℕ → Option ℕ
rfind_down b c zero = none
rfind_down b c (suc x) = if get_or b.buf (b.head + x) 0 == c then some x else rfind_down b c x

pub rfind_portable : Buffer → ℕ → Option ℕ
unfolding rfind_down
rfind_portable b c = let live = b.len - b.head in if live == 0 then none else rfind_down b c live

-- memmem: the first place where the bytes of `str` stand.
pub search : Bytes → Bytes → Option ℕ
search str [] = if length str == 0 then some 0 else none
search str (x ∷ xs) =
    if same_bytes (take (length str) (x ∷ xs)) str
    then some 0
    else Option.map (λ i. i + 1) (search str xs)

-- find(const char* str, size_t offset), with memmem
pub find_string : Buffer → Bytes → ℕ → Option ℕ
find_string b str offset =
    let live = b.len - b.head in
    if length str == 0
    then (if leb offset live then some offset else none)
    else if leb live offset
    then none
    else if ltb (live - offset) (length str)
    then none
    else Option.map (λ i. offset + i) (search str (slice b.buf (b.head + offset) (live - offset)))

-- The loop of the search without memmem, from `p`.
pub find_string_from : ℕ → Buffer → Bytes → ℕ → Option ℕ
find_string_from zero b str p = none
find_string_from (suc fuel) b str p = elim (find b (get_or str 0 0) p) [
  | none ↦ none
  | some found ↦
      let rest = find_string_from fuel b str (found + 1) in
      if ltb (b.len - b.head - found) (length str)
      then none
      else if same_bytes (slice b.buf (b.head + found) (length str)) str
      then some found
      else rest
]

-- Each round moves at least one byte on, so one round more than there are bytes is enough.
pub find_string_portable : Buffer → Bytes → ℕ → Option ℕ
unfolding find_string_from
find_string_portable b str offset =
    let live = b.len - b.head in
    if length str == 0
    then (if leb offset live then some offset else none)
    else if leb live offset
    then none
    else if ltb (live - offset) (length str)
    then none
    else find_string_from (live + 1) b str offset
