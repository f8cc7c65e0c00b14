-- ===== src/Digest/Hash.antt =====
-- src/crypto/digest/hash.cpp and include/samurai/crypto/digest/hash.h: the base class, which cuts
-- its input into blocks and pads the last one. The virtual function `hash` is the argument
-- `compress` on the state of the subclass.
pub mod Stream
pub mod Padding
pub mod Finish
pub mod Reference
use samurai.Prelude.{
  ℕ, zero, suc, ◌+◌, ◌-◌, ◌*◌, ◌/◌, ◌%◌, ◌^◌, Bool, false, ◌||◌, Option, none, some, [], ◌∷◌, map,
  ltb, leb, ◌==◌, if◌then◌else◌, length, take, drop, replicate, Bytes, word_mod, wrap, write,
  bit_and,
}

-- The members that do not change after construction.
pub record Config : Type 0 where
  pub size : ℕ
  pub block_size : ℕ
  pub count_size : ℕ
  pub big_bit_endian : Bool
  pub big_byte_endian : Bool

pub record Hash {ℓ} (S : Type ℓ) : Type ℓ where
  pub current_block : Bytes
  pub current_block_index : ℕ
  pub file_size : ℕ
  pub finalized : Bool
  pub finalized_value : Bytes
  pub state : S

-- The constructor.
unfoldable pub make {ℓ} : {S : Type ℓ} → Config → S → Hash S
make c s = record {
  current_block = replicate c.block_size 0;
  current_block_index = 0;
  file_size = 0;
  finalized = false;
  finalized_value = replicate c.size 0;
  state = s;
}

-- get_byte at uint64_t
unfoldable pub get_byte : ℕ → ℕ → ℕ
get_byte offset input = input / 2 ^ ((7 - bit_and offset 7) * 2 ^ 3) % 2 ^ 8

-- The octets that finalize_count writes.
pub count_octets : Bool → ℕ → Bytes
unfolding get_byte
count_octets big file_size =
    map (λ j. get_byte (if big then j else 7 - j) (wrap (8 * file_size)))
      (0 ∷ 1 ∷ 2 ∷ 3 ∷ 4 ∷ 5 ∷ 6 ∷ 7 ∷ [])

module _ {ℓ} {S : Type ℓ} (c : Config) (compress : S → Bytes → S) where
  -- The end of a round of `update`: a full block is hashed.
  pub flush : Hash S → Hash S
  flush h =
      if h.current_block_index == c.block_size
      then record h { current_block_index = 0; state = compress h.state h.current_block }
      else h

  -- The bytes that a round of `update` takes of those that are left.
  abbrev pub blocklen : Hash S → ℕ → ℕ
  blocklen h left =
      let room = c.block_size - h.current_block_index in if ltb room left then room else left

  pub fill : Hash S → Bytes → Hash S
  unfolding flush
  fill h bytes = flush (record h {
    current_block = write h.current_block h.current_block_index bytes;
    current_block_index = h.current_block_index + length bytes;
  })

  -- The loop of `update` on the bytes that are left.
  pub update_loop : ℕ → Hash S → Bytes → Hash S
  unfolding fill
  update_loop zero h left = h
  update_loop (suc fuel) h left =
      let n = blocklen h (length left) in
      let rest = update_loop fuel (fill h (take n left)) (drop n left) in
      if length left == 0 then h else rest

  -- Each round takes at least one byte, so as many rounds as bytes are enough.
  unfoldable pub update : Hash S → Bytes → Hash S
  unfolding update_loop
  update h input =
      if length input == 0 || h.finalized
      then h
      else if leb c.block_size h.current_block_index
      then h
      else record (update_loop (length input) h input) {
        file_size = wrap (h.file_size + length input);
      }

  -- finalize_count, on the block.
  pub finalize_count : Bytes → ℕ → Bytes
  unfolding count_octets
  finalize_count block file_size =
      if ltb c.block_size 8
      then block
      else write block (c.block_size - 8) (count_octets c.big_byte_endian file_size)

  -- The loop of `finalize` that fills the block with zeros. Its counter is a uint32_t, which wraps,
  -- so that the loop never ends for blocks of 2^32 bytes or more: there is a result only if the loop
  -- ends within the rounds.
  unfoldable pub pad_loop : ℕ → ℕ → Bytes → Option Bytes
  pad_loop zero j block = if ltb j c.block_size then none else some block
  pad_loop (suc rounds) j block =
      let rest = pad_loop rounds ((j + 1) % 2 ^ 32) (write block j (0 ∷ [])) in
      if ltb j c.block_size then rest else some block

  -- The first byte of the padding, and the zeros behind it. As many rounds as the block has bytes are
  -- enough for a counter that does not wrap.
  unfoldable pub pad_block : Bytes → ℕ → Option Bytes
  pad_block block index =
      pad_loop c.block_size ((index + 1) % 2 ^ 32)
        (write block index ((if c.big_bit_endian then 0x80 else 0x01) ∷ []))

  -- `finalize` behind the padding.
  unfoldable pub hash_last : Hash S → Bytes → Hash S
  unfolding finalize_count
  hash_last h padded =
      let spill = leb (wrap (c.block_size + (word_mod - c.count_size))) h.current_block_index in
      let s = if spill then compress h.state padded else h.state in
      let block = finalize_count (if spill then replicate c.block_size 0 else padded) h.file_size in
      record h { current_block = block; state = compress s block }

  unfoldable pub finalize : Hash S → Option (Hash S)
  finalize h =
      if h.finalized then some h else elim (pad_block h.current_block h.current_block_index) [
        | none ↦ none
        | some padded ↦ some (hash_last h padded)
      ]

-- set_finalized_value
unfoldable pub set_finalized_value {ℓ} : {S : Type ℓ} → Hash S → Bytes → Hash S
set_finalized_value h bytes =
    if h.finalized
    then h
    else if length bytes == length h.finalized_value
    then record h { finalized_value = bytes }
    else h
