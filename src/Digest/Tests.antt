-- ===== src/Digest/Tests.antt =====
-- The theorems on the digests at concrete messages, and the published digests of two messages.
use samurai.Prelude.{
  ℕ, ◌≡◌, Option, none, some, refl, true, false, [], ◌∷◌, ◌++◌, foldl, arith, replicate, Bytes,
}
use samurai.Digest.Hash.{Config, Hash, update, finalize, pad_block, pad_loop, hash_last}
use samurai.Digest.Hash.Stream.{IsOpen, update-update}
use samurai.Digest.Hash.Padding.{blocks, padding}
use samurai.Digest.Hash.Reference.{finalize-update}
use samurai.Digest.Tiger.{
  Result, Key, pass, initial, tiger_config, hash, value_bytes, tiger, tiger_update, digest,
}
use samurai.Digest.Tiger.Bounds.{AreWords, KeyIsWords}
use samurai.Digest.Tiger.Mixing.{unpass, unpass-pass}
use samurai.Digest.Tiger.Digesting.{tiger-IsFresh, digest-tiger_update}

-- A hash with blocks of 16 bytes whose state is the bytes that it has compressed.
abbrev config : Config
config = record {
  size = 4;
  block_size = 16;
  count_size = 8;
  big_bit_endian = true;
  big_byte_endian = true;
}

abbrev keep : Bytes → Bytes → Bytes
keep s block = s ++ block

abbrev started : Hash Bytes
started = record {
  current_block = replicate 16 0;
  current_block_index = 0;
  file_size = 0;
  finalized = false;
  finalized_value = replicate 4 0;
  state = [];
}

abbrev started-IsOpen : IsOpen config keep started
started-IsOpen = record { room = omega arith; block = refl }

abbrev abc : Bytes
abc = 0x61 ∷ 0x62 ∷ 0x63 ∷ []

update-update_example :
    update config keep (update config keep started abc) (1 ∷ 2 ∷ [])
    ≡ update config keep started (abc ++ 1 ∷ 2 ∷ [])
update-update_example =
    update-update config keep started abc (1 ∷ 2 ∷ []) started-IsOpen refl (omega arith)

finalize-update_example :
    (done : Hash Bytes) × (finalize config keep (update config keep started abc) ≡ some done)
    × (done.finalized ≡ false)
    × (done.finalized_value ≡ replicate 4 0)
    × (done.state ≡ foldl keep [] (blocks 16 1 (abc ++ padding config keep 3 3)))
finalize-update_example =
    finalize-update config keep (omega arith) refl started abc 0 3 (omega arith) started-IsOpen refl
      refl refl refl (omega arith)

-- What stands behind a block.
abbrev zeros : ℕ → ℕ
zeros i = 0

digest-tiger_update_example :
    (done : Hash Result) × (digest zeros 3 64 (tiger_update zeros 3 64 (tiger zeros 3 64) abc)
      ≡ some (
        done,
        value_bytes (
            foldl
              (hash zeros 3)
              initial
              (blocks 64 1 (abc ++ padding (tiger_config 64) (hash zeros 3) 3 3))),
      ))
    × (done.finalized ≡ true)
digest-tiger_update_example =
    digest-tiger_update zeros 3 64 (tiger zeros 3 64) abc 0 3 (omega arith) (omega arith)
      (tiger-IsFresh zeros 3 64 (omega arith)) refl (omega arith)

abbrev key : Key
key = record { x0 = 1; x1 = 2; x2 = 3; x3 = 4; x4 = 5; x5 = 6; x6 = 7; x7 = 8 }

abbrev key-KeyIsWords : KeyIsWords key
key-KeyIsWords = record {
  x0 = omega arith;
  x1 = omega arith;
  x2 = omega arith;
  x3 = omega arith;
  x4 = omega arith;
  x5 = omega arith;
  x6 = omega arith;
  x7 = omega arith;
}

abbrev initial-AreWords : AreWords initial
initial-AreWords = record { a = omega arith; b = omega arith; c = omega arith }

-- The inverse of 5 modulo 2^64.
unpass-pass_example : unpass (pass initial key 5) key 0xCCCCCCCCCCCCCCCD ≡ initial
unpass-pass_example =
    unpass-pass initial key 5 0xCCCCCCCCCCCCCCCD initial-AreWords key-KeyIsWords refl

-- The value that `digest` returns.
abbrev returned_value : Option (Hash Result × Bytes) → Option Bytes
returned_value none = none
returned_value (some (done, value)) = some value

-- The published digest of the empty message: 3293AC630C13F024 5F92BBB1766E1616 7A4E58492DDE73F3.
tiger_empty :
    returned_value (digest zeros 3 64 (tiger zeros 3 64))
    ≡ some (
        0x32 ∷ 0x93 ∷ 0xAC ∷ 0x63 ∷ 0x0C ∷ 0x13 ∷ 0xF0 ∷ 0x24 ∷ 0x5F ∷ 0x92 ∷ 0xBB ∷ 0xB1 ∷ 0x76
        ∷ 0x6E ∷ 0x16 ∷ 0x16 ∷ 0x7A ∷ 0x4E ∷ 0x58 ∷ 0x49 ∷ 0x2D ∷ 0xDE ∷ 0x73 ∷ 0xF3 ∷ [])
unfolding tiger digest pad_block pad_loop hash_last
tiger_empty = refl

-- And of "abc": 2AAB1484E8C158F2 BFB8C5FF41B57A52 5129131C957B5F93.
tiger-abc :
    returned_value (digest zeros 3 64 (tiger_update zeros 3 64 (tiger zeros 3 64) abc))
    ≡ some (
        0x2A ∷ 0xAB ∷ 0x14 ∷ 0x84 ∷ 0xE8 ∷ 0xC1 ∷ 0x58 ∷ 0xF2 ∷ 0xBF ∷ 0xB8 ∷ 0xC5 ∷ 0xFF ∷ 0x41
        ∷ 0xB5 ∷ 0x7A ∷ 0x52 ∷ 0x51 ∷ 0x29 ∷ 0x13 ∷ 0x1C ∷ 0x95 ∷ 0x7B ∷ 0x5F ∷ 0x93 ∷ [])
unfolding tiger tiger_update digest pad_block pad_loop hash_last
tiger-abc = refl
