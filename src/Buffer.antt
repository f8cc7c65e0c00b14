-- ===== src/Buffer.antt =====
-- src/io/buffer.cpp, include/samurai/io/buffer.h: the FIFO byte buffer. The vector is a list of
-- bytes; a size_t is a number below 2 ^ 64. What std::vector needs of its allocator is the
-- argument `Allocator`. A missing match, npos in the source, is `none`.
pub mod Room
pub mod Fifo
pub mod Reads
pub mod Refines
pub mod Search
pub mod Binary
mod Tests
use samurai.Prelude.{
  ℕ, zero, suc, ◌+◌, ◌-◌, ◌*◌, ◌/◌, Bool, true, false, not, ◌&&◌, ◌||◌, [], ◌∷◌, ◌++◌, Option, none,
  some, ltb, leb, ◌==◌, if◌then◌else◌, length, replicate, get_or, Bytes, size_max, wrap, write,
  slice,
}

pub record Buffer : Type 0 where
  pub buf : Bytes
  pub head : ℕ
  pub len : ℕ
  pub initial_capasity : ℕ

-- The allocator behind the vector: its max_size(), and whether it grants a size or throws bad_alloc.
pub record Allocator : Type 0 where
  pub max_size : ℕ
  pub grants : ℕ → Bool

abbrev pub init_buf_size : ℕ
init_buf_size = 8192

-- Buffer(size_t bufsize)
pub make : ℕ → Buffer
make bufsize = record { buf = replicate bufsize 0; head = 0; len = 0; initial_capasity = bufsize }

-- The move constructor: the new buffer, and what is left of the other. (The moved-from vector is
-- empty, as std::vector promises.)
pub move : Buffer → Buffer × Buffer
move b = (b, record b { buf = []; head = 0; len = 0 })

abbrev pub size : Buffer → ℕ
size b = b.len - b.head

unfoldable pub compact : Buffer → Buffer
compact b =
    let live = b.len - b.head in
    if b.head == 0 then b else record b {
      buf = if live == 0 then b.buf else write b.buf 0 (slice b.buf b.head live);
      head = 0;
      len = live;
    }

-- The doubling loop of `resize`; `none` means that the fuel ran out.
pub grow : ℕ → ℕ → ℕ → Option ℕ
grow zero nsize required = none
grow (suc fuel) nsize required =
    let rest = grow fuel (wrap (nsize * 2)) required in
    if ltb nsize required
    then (if leb (wrap (nsize * 2)) nsize then some required else rest)
    else some nsize

-- vector::resize for a larger size.
abbrev pub extend : Bytes → ℕ → Bytes
extend xs n = xs ++ replicate (n - length xs) 0

-- The end of `resize`, from `nsize > buf.max_size()`.
pub reallocate : Allocator → Buffer → Option ℕ → Buffer × Bool
reallocate al b none = (b, false)
reallocate al b (some nsize) =
    if ltb al.max_size nsize
    then (b, false)
    else if al.grants nsize
    then (record b { buf = extend b.buf nsize }, true)
    else (b, false)

-- 64 doublings exceed every size_t, so 65 rounds are enough.
abbrev pub grow_fuel : ℕ
grow_fuel = 65

-- `resize` behind its first line, on the buffer that it leaves.
pub make_room : Allocator → Buffer → ℕ → Buffer × Bool
unfolding reallocate
make_room al b needed =
    let required = wrap (b.len + needed) in
    if ltb required b.len
    then (b, false)
    else if leb required (length b.buf)
    then (b, true)
    else reallocate al b
        (grow grow_fuel (if length b.buf == 0 then init_buf_size else length b.buf) required)

pub resize : Allocator → Buffer → ℕ → Buffer × Bool
unfolding make_room
resize al b needed =
    make_room al
      (if not (b.head == 0) && ltb (length b.buf) (wrap (b.len + needed)) then compact b else b)
      needed

-- memcpy(&buf[len], data, n); len += n
abbrev pub store : Buffer → Bytes → Buffer
store b bytes = record b { buf = write b.buf b.len bytes; len = wrap (b.len + length bytes) }

abbrev store_if : Bytes → Buffer × Bool → Buffer × Bool
store_if bytes (b, true) = (store b bytes, true)
store_if bytes (b, false) = (b, false)

-- append(const char* data, size_t len_), to which every overload for text comes down.
pub append : Allocator → Buffer → Bytes → Buffer × Bool
append al b bytes =
    if ltb (size_max - b.len) (length bytes)
    then (b, false)
    else if ltb (length b.buf) (wrap (b.len + length bytes))
    then store_if bytes (resize al b (length bytes))
    else (store b bytes, true)

-- append(char c)
pub append_char : Allocator → Buffer → ℕ → Buffer × Bool
append_char al b c =
    if ltb (length b.buf) (wrap (b.len + 1))
    then store_if (c ∷ []) (resize al b 1)
    else (store b (c ∷ []), true)

-- The first `n` live bytes of the argument, or all if there are fewer: append(const Buffer&, size_t).
pub append_buffer : Allocator → Buffer → Buffer → ℕ → Buffer × Bool
append_buffer al b other n =
    let mylen = if ltb (size other) n then size other else n in
    if mylen == 0 then (b, true) else append al b (slice other.buf other.head mylen)

-- append(const Buffer&)
pub append_all : Allocator → Buffer → Buffer → Buffer × Bool
append_all al b other =
    if size other == 0 then (b, true) else append al b (slice other.buf other.head (size other))

-- pop(char* data, size_t offset, size_t len_), as the bytes that it copies; it consumes nothing.
pub pop_at : Buffer → ℕ → ℕ → Bytes
pop_at b offset n =
    let live = b.len - b.head in
    let available = live - offset in
    if leb live offset
    then []
    else slice b.buf (b.head + offset) (if ltb available n then available else n)

-- pop(size_t len_) and pop(char* data, size_t len_)
pub pop : Buffer → ℕ → Bytes
pop b n =
    let live = b.len - b.head in
    if live == 0 then [] else slice b.buf b.head (if ltb live n then live else n)

-- copyRange
unfoldable pub copy_range : Buffer → ℕ → ℕ → Bytes
copy_range b offset end =
    let live = b.len - b.head in
    if ltb end offset || ltb live end then [] else slice b.buf (b.head + offset) (end - offset)

-- The end of `remove`: start over at the front when everything is consumed, and move the live
-- bytes down once the dead prefix dominates.
unfoldable pub settle : Buffer → Buffer
settle b =
    if b.head == b.len
    then record b { head = 0; len = 0 }
    else if leb (length b.buf / 2) b.head
    then compact b
    else b

abbrev pub advance : Buffer → ℕ → Buffer
advance b n = record b { head = b.head + n }

unfoldable pub remove : Buffer → ℕ → Buffer
unfolding settle
remove b count =
    let live = b.len - b.head in settle (advance b (if ltb live count then live else count))

pub reserve : Allocator → Buffer → ℕ → Buffer
reserve al b n = if n == 0 then b else (resize al b n).0

pub clear : Buffer → Buffer
clear b = record b { buf = replicate b.initial_capasity 0; head = 0; len = 0 }

-- at: bounds checked, 0 past the end of the live bytes.
unfoldable pub at : Buffer → ℕ → ℕ
at b offset = if leb (b.len - b.head) offset then 0 else get_or b.buf (b.head + offset) 0
