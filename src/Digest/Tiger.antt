-- ===== src/Digest/Tiger.antt =====
-- src/crypto/digest/tiger.cpp and include/samurai/crypto/digest/tiger.h: the Tiger hash, a subclass
-- of `Hash`. The members `result` and `X` are the records `Result` and `Key`; `X` is written at the
-- beginning of every call of `hash` and read nowhere else, so it is not part of the state.
pub mod Sbox1
pub mod Sbox2
pub mod Sbox3
pub mod Sbox4
pub mod Bounds
pub mod Mixing
pub mod Digesting
use samurai.Prelude.{
  ℕ, zero, suc, ◌+◌, ◌-◌, ◌*◌, ◌/◌, ◌%◌, ◌^◌, true, false, Option, none, some, map, if◌then◌else◌,
  get_or, ◌==◌, length, replicate, upto, Bytes, word_mod, wrap, bit_and, bit_or, bit_xor,
}
use samurai.Digest.Hash.{Config, Hash, get_byte, make, update, finalize, set_finalized_value}
use Sbox1.{sbox1_table}
use Sbox2.{sbox2_table}
use Sbox3.{sbox3_table}
use Sbox4.{sbox4_table}

-- TIGER_HASH_SIZE
abbrev pub tiger_hash_size : ℕ
tiger_hash_size = 192 / 8

-- `a -= b` on uint64_t
abbrev pub sub : ℕ → ℕ → ℕ
sub a b = wrap (a + (word_mod - b))

-- `~x` on uint64_t
abbrev pub complement : ℕ → ℕ
complement x = word_mod - 1 - x

-- `(x >> k) & 0xFF`
abbrev pub octet : ℕ → ℕ → ℕ
octet x k = bit_and (x / 2 ^ k) 0xFF

-- SBOX1 to SBOX4 at an index
pub sbox1 : ℕ → ℕ
sbox1 i = get_or sbox1_table i 0

pub sbox2 : ℕ → ℕ
sbox2 i = get_or sbox2_table i 0

pub sbox3 : ℕ → ℕ
sbox3 i = get_or sbox3_table i 0

pub sbox4 : ℕ → ℕ
sbox4 i = get_or sbox4_table i 0

pub record Result : Type 0 where
  pub a : ℕ
  pub b : ℕ
  pub c : ℕ

pub record Key : Type 0 where
  pub x0 : ℕ
  pub x1 : ℕ
  pub x2 : ℕ
  pub x3 : ℕ
  pub x4 : ℕ
  pub x5 : ℕ
  pub x6 : ℕ
  pub x7 : ℕ

-- What `round` takes from `a`, and what it adds to `b`.
pub even_octets : ℕ → ℕ
unfolding sbox1 sbox2 sbox3 sbox4
even_octets c =
    bit_xor (bit_xor (bit_xor (sbox1 (octet c 0x00)) (sbox2 (octet c 0x10))) (sbox3 (octet c 0x20)))
      (sbox4 (octet c 0x30))

pub odd_octets : ℕ → ℕ
unfolding sbox1 sbox2 sbox3 sbox4
odd_octets c =
    bit_xor (bit_xor (bit_xor (sbox4 (octet c 0x08)) (sbox3 (octet c 0x18))) (sbox2 (octet c 0x28)))
      (sbox1 (octet c 0x38))

-- The references `a`, `b` and `c` of `round` are the fields of a `Result`.
pub round : Result → ℕ → ℕ → Result
unfolding even_octets odd_octets
round r x mul =
    let c = bit_xor r.c x in
    record { a = sub r.a (even_octets c); b = wrap (wrap (r.b + odd_octets c) * mul); c = c }

-- The arguments in the order `b, c, a`, and in the order `c, a, b`.
abbrev pub bca : Result → Result
bca r = record { a = r.b; b = r.c; c = r.a }

abbrev pub cab : Result → Result
cab r = record { a = r.c; b = r.a; c = r.b }

-- The calls `round(b, c, a, x, mul)` and `round(c, a, b, x, mul)`.
pub round_bca : Result → ℕ → ℕ → Result
unfolding round
round_bca r x mul = cab (round (bca r) x mul)

pub round_cab : Result → ℕ → ℕ → Result
unfolding round
round_cab r x mul = bca (round (cab r) x mul)

pub pass : Result → Key → ℕ → Result
pass r0 k mul =
    let r1 = round r0 k.x0 mul in
    let r2 = round_bca r1 k.x1 mul in
    let r3 = round_cab r2 k.x2 mul in
    let r4 = round r3 k.x3 mul in
    let r5 = round_bca r4 k.x4 mul in
    let r6 = round_cab r5 k.x5 mul in let r7 = round r6 k.x6 mul in round_bca r7 k.x7 mul

-- The first and the second half of `key_schedule`.
pub schedule_down : Key → Key
schedule_down k =
    let x0 = sub k.x0 (bit_xor k.x7 0xA5A5A5A5A5A5A5A5) in
    let x1 = bit_xor k.x1 x0 in
    let x2 = wrap (k.x2 + x1) in
    let x3 = sub k.x3 (bit_xor x2 (wrap (complement x1 * 2 ^ 19))) in
    let x4 = bit_xor k.x4 x3 in
    let x5 = wrap (k.x5 + x4) in
    let x6 = sub k.x6 (bit_xor x5 (complement x4 / 2 ^ 23)) in
    let x7 = bit_xor k.x7 x6 in
    record { x0 = x0; x1 = x1; x2 = x2; x3 = x3; x4 = x4; x5 = x5; x6 = x6; x7 = x7 }

pub schedule_up : Key → Key
schedule_up k =
    let x0 = wrap (k.x0 + k.x7) in
    let x1 = sub k.x1 (bit_xor x0 (wrap (complement k.x7 * 2 ^ 19))) in
    let x2 = bit_xor k.x2 x1 in
    let x3 = wrap (k.x3 + x2) in
    let x4 = sub k.x4 (bit_xor x3 (complement x2 / 2 ^ 23)) in
    let x5 = bit_xor k.x5 x4 in
    let x6 = wrap (k.x6 + x5) in
    let x7 = sub k.x7 (bit_xor x6 0x0123456789ABCDEF) in
    record { x0 = x0; x1 = x1; x2 = x2; x3 = x3; x4 = x4; x5 = x5; x6 = x6; x7 = x7 }

pub key_schedule : Key → Key
unfolding schedule_down schedule_up
key_schedule k = schedule_up (schedule_down k)

-- make_uint64_t of the bytes `8 * j + 7` to `8 * j` of a block. `hash` reads 64 bytes whatever the
-- length of the block; `beyond` is what stands in memory behind a shorter one.
pub word : (ℕ → ℕ) → Bytes → ℕ → ℕ
word beyond bytes j =
    let at = λ (i : ℕ). get_or bytes (8 * j + i) (beyond (8 * j + i)) in
    bit_or
      (bit_or
        (bit_or
          (bit_or
            (bit_or (bit_or (bit_or (at 7 * 2 ^ 56) (at 6 * 2 ^ 48)) (at 5 * 2 ^ 40))
              (at 4 * 2 ^ 32))
            (at 3 * 2 ^ 24))
          (at 2 * 2 ^ 16))
        (at 1 * 2 ^ 8))
      (at 0)

pub words : (ℕ → ℕ) → Bytes → Key
unfolding word
words beyond bytes = record {
  x0 = word beyond bytes 0;
  x1 = word beyond bytes 1;
  x2 = word beyond bytes 2;
  x3 = word beyond bytes 3;
  x4 = word beyond bytes 4;
  x5 = word beyond bytes 5;
  x6 = word beyond bytes 6;
  x7 = word beyond bytes 7;
}

-- The loop of `hash` for the passes from the fourth on.
pub more_passes : ℕ → Result → Key → Result
more_passes zero r k = r
more_passes (suc n) r k = let next = key_schedule k in more_passes n (cab (pass r next 9)) next

pub hash : (ℕ → ℕ) → ℕ → Result → Bytes → Result
unfolding words round round_bca round_cab pass key_schedule more_passes
hash beyond passes result bytes =
    let k0 = words beyond bytes in
    let r0 = pass result k0 5 in
    let k1 = key_schedule k0 in
    let r1 = bca (pass (cab r0) k1 7) in
    let k2 = key_schedule k1 in
    let r2 = cab (pass (bca r1) k2 9) in
    let r = more_passes (passes - 3) r2 k2 in
    record { a = bit_xor r.a result.a; b = sub r.b result.b; c = wrap (r.c + result.c) }

-- The bytes of `result` at an index, as `internal_finalize` reads them.
abbrev result_at : Result → ℕ → ℕ
result_at r j = if j == 0 then r.a else if j == 1 then r.b else r.c

-- The loop of `internal_finalize` over the bytes of the value.
pub value_bytes : Result → Bytes
unfolding get_byte
value_bytes r = map (λ j. get_byte (7 - j % 8) (result_at r (j / 8))) (upto tiger_hash_size)

abbrev pub tiger_config : ℕ → Config
tiger_config block_size = record {
  size = tiger_hash_size;
  block_size = block_size;
  count_size = 8;
  big_bit_endian = false;
  big_byte_endian = false;
}

-- The three words that `reset` sets.
abbrev pub initial : Result
initial = record { a = 0x0123456789ABCDEF; b = 0xFEDCBA9876543210; c = 0xF096A5B4C3B2E187 }

pub reset : Hash Result → Hash Result
reset h = record h {
  state = initial;
  current_block = replicate (length h.current_block) 0;
  current_block_index = 0;
  file_size = 0;
  finalized = false;
}

module _ (beyond : ℕ → ℕ) (passes block_size : ℕ) where
  abbrev config : Config
  config = tiger_config block_size

  unfoldable pub tiger : Hash Result
  unfolding reset make
  tiger = reset (make config (record { a = 0; b = 0; c = 0 }))

  unfoldable pub tiger_update : Hash Result → Bytes → Hash Result
  unfolding update hash
  tiger_update = update config (hash beyond passes)

  -- The hash after the call, if the loop of `finalize` ends.
  unfoldable pub internal_finalize : Hash Result → Option (Hash Result)
  unfolding finalize hash value_bytes set_finalized_value
  internal_finalize h =
      if h.finalized then some h else elim (finalize config (hash beyond passes) h) [
        | none ↦ none
        | some padded ↦
            some
              (record (set_finalized_value padded (value_bytes padded.state)) { finalized = true })
      ]

  -- The hash after the call, and the value that the call returns.
  unfoldable pub digest : Hash Result → Option (Hash Result × Bytes)
  unfolding internal_finalize
  digest h = elim (internal_finalize h) [
    | none ↦ none
    | some done ↦ some (done, done.finalized_value)
  ]
