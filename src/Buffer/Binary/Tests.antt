-- ===== src/Buffer/Binary/Tests.antt =====
-- The theorems on the integers in a buffer at concrete values.
use samurai.Prelude.{◌≡◌, refl, false, some, arith}
use samurai.Buffer.{append, compact, resize, grow}
use samurai.Buffer.Binary.{
  big_endian, little_bytes, to_bytes, swap_loop, byteswap, reorder, append_binary, pop_binary,
}
use samurai.Buffer.Binary.RoundTrip.{pop_binary-append_binary}
use samurai.Buffer.Tests.{heap, heap_bound, used, used-IsValid}

pop_binary_example :
    pop_binary false 2 (append_binary heap false 2 used 0x1234 big_endian).0 2 big_endian
    ≡ some 0x1234
unfolding append_binary append compact resize grow to_bytes little_bytes reorder byteswap swap_loop
pop_binary_example =
    pop_binary-append_binary heap heap_bound false 2 0x1234 big_endian used used-IsValid
      (omega arith) refl
