-- ===== src/Buffer/Binary.antt =====
-- appendBinary and popBinary of src/io/buffer.cpp: integers of two, four and eight bytes. The host's
-- byte order is an argument; a width is its number of bytes, sizeof(T).
pub mod Layout
pub mod RoundTrip
mod Tests
use samurai.Prelude.{
  ℕ, zero, suc, ◌+◌, ◌-◌, ◌*◌, ◌/◌, ◌%◌, ◌^◌, Bool, ◌||◌, [], ◌∷◌, ◌++◌, Option, none, some, bit_or,
  bit_and, ltb, if◌then◌else◌, Bytes, slice,
}
use samurai.Buffer.{Buffer, Allocator, append}

pub data BinaryMode : Type 0 where
  big_endian little_endian native_endian : BinaryMode

-- One round of `byteswap` at `sizeof(T) == w`: the bytes swapped so far, and the rest of the value.
abbrev swap_step : ℕ → ℕ × ℕ → ℕ × ℕ
swap_step w (swapped, value) =
    (bit_or (swapped * 2 ^ 8) (bit_and value 0xff) % 2 ^ (8 * w), value / 2 ^ 8)

-- The loop of `byteswap`, with the rounds that are left.
pub swap_loop : ℕ → ℕ → ℕ × ℕ → ℕ
swap_loop w zero s = s.0
swap_loop w (suc n) s = swap_loop w n (swap_step w s)

pub byteswap : ℕ → ℕ → ℕ
unfolding swap_loop
byteswap w value = swap_loop w w (0, value)

pub reorder : Bool → ℕ → ℕ → BinaryMode → ℕ
reorder host_big w value big_endian = if host_big then value else byteswap w value
reorder host_big w value little_endian = if host_big then byteswap w value else value
reorder host_big w value native_endian = value

-- The bytes of an integer of `w` bytes, the lowest first.
pub little_bytes : ℕ → ℕ → Bytes
little_bytes zero value = []
little_bytes (suc w) value = value % 2 ^ 8 ∷ little_bytes w (value / 2 ^ 8)

pub big_bytes : ℕ → ℕ → Bytes
big_bytes zero value = []
big_bytes (suc w) value = big_bytes w (value / 2 ^ 8) ++ value % 2 ^ 8 ∷ []

-- std::bit_cast to an array of bytes, as the host lays an integer out.
pub to_bytes : Bool → ℕ → ℕ → Bytes
to_bytes host_big w value = if host_big then big_bytes w value else little_bytes w value

-- The integer that bytes stand for, and memcpy into one on the host.
pub of_little : Bytes → ℕ
of_little [] = 0
of_little (x ∷ xs) = x + of_little xs * 2 ^ 8

pub of_big : ℕ → Bytes → ℕ
of_big acc [] = acc
of_big acc (x ∷ xs) = of_big (acc * 2 ^ 8 + x) xs

pub of_bytes : Bool → Bytes → ℕ
of_bytes host_big bytes = if host_big then of_big 0 bytes else of_little bytes

-- appendBinary, by appendValue
pub append_binary : Allocator → Bool → ℕ → Buffer → ℕ → BinaryMode → Buffer × Bool
append_binary al host_big w b number mode =
    append al b (to_bytes host_big w (reorder host_big w number mode))

-- popBinary; `none` is the result false, with the number untouched.
pub pop_binary : Bool → ℕ → Buffer → ℕ → BinaryMode → Option ℕ
pop_binary host_big w b offset mode =
    if ltb (b.len - b.head) offset || ltb (b.len - b.head - offset) w
    then none
    else some (reorder host_big w (of_bytes host_big (slice b.buf (b.head + offset) w)) mode)
