-- ===== src/Buffer/Binary/RoundTrip.antt =====
-- src/io/buffer.cpp: appendBinary and popBinary, one behind the other.
use samurai.Prelude.{
  ℕ, ◌+◌, ◌-◌, ◌*◌, ◌^◌, ◌<◌, ◌≡◌, ap, ◌∙◌, Bool, true, false, ◌||◌, ◌++◌, some, arith, ltb, Bytes,
  slice, length, length-append, size_max, take, take_all, drop-append_length,
}
use samurai.Buffer.Fifo.{append-Appends, contents-append}
use samurai.Buffer.Room.{IsValid, contents, length-contents}
use samurai.Buffer.Reads.{slice-contents}
use samurai.Buffer.{Buffer, Allocator, append, size}
use samurai.Buffer.Binary.Layout.{
  layout, wire, of_bytes-to_bytes, reorder-lt, reorder_involutive, length-to_bytes,
}
use samurai.Buffer.Binary.{BinaryMode, reorder, to_bytes, of_bytes, append_binary, pop_binary}

-- An append of an integer that succeeds adds the bytes of its layout at the end.
pub contents-append_binary :
    (al : Allocator)
    → al.max_size < size_max
    → (host_big : Bool) (w number : ℕ) (mode : BinaryMode) (b : Buffer) → IsValid b
    → (append_binary al host_big w b number mode).1 ≡ true
    → contents (append_binary al host_big w b number mode).0
      ≡ contents b ++ layout host_big w number mode
unfolding append_binary
contents-append_binary al bound host_big w number mode b v done =
    contents-append al bound b (to_bytes host_big w (reorder host_big w number mode)) v done
    ∙ ap (λ (t : Bytes). contents b ++ t) (wire host_big w number mode)

pop_binary_lem :
    (host_big : Bool) (c : Buffer) (mode : BinaryMode) (xs bytes : Bytes) (w o : ℕ)
    → IsValid c
    → contents c ≡ xs ++ bytes
    → length bytes ≡ w
    → length xs ≡ o
    → pop_binary host_big w c o mode ≡ some (reorder host_big w (of_bytes host_big bytes) mode)
unfolding pop_binary
pop_binary_lem host_big c mode xs bytes w o v e ew eo = rw (inside, read)
  where
    sizes : size c ≡ o + w
    sizes = omega (arith, length-contents c v, ap length e, length-append xs bytes)

    inside : (ltb (c.len - c.head) o || ltb (c.len - c.head - o) w) ≡ false
    inside = ground (arith, sizes)

    read : slice c.buf (c.head + o) w ≡ bytes
    read =
        slice-contents c o w (omega (arith, sizes))
        ∙ ap (λ (t : Bytes). slice t o w) e
        ∙ rw (← eo) (ap (take w) (drop-append_length xs bytes))
        ∙ take_all w bytes (omega arith)

-- With an allocator whose max_size is below SIZE_MAX, when the append of an integer of `w` bytes to
-- a valid buffer succeeds, popBinary at the place where it was appended gives the integer back, in
-- every mode and on either host.
pub pop_binary-append_binary :
    (al : Allocator)
    → al.max_size < size_max
    → (host_big : Bool) (w number : ℕ) (mode : BinaryMode) (b : Buffer) → IsValid b
    → number < 2 ^ (8 * w)
    → (append_binary al host_big w b number mode).1 ≡ true
    → pop_binary host_big w (append_binary al host_big w b number mode).0 (size b) mode
      ≡ some number
unfolding append_binary
pop_binary-append_binary al bound host_big w number mode b v h done =
    pop_binary_lem host_big (append al b wired).0 mode (contents b) wired w (size b)
      (append-Appends al bound b v wired).valid (contents-append al bound b wired v done)
      (length-to_bytes host_big w sent) (length-contents b v)
    ∙ ap (λ (t : ℕ). some (reorder host_big w t mode))
        (of_bytes-to_bytes host_big w sent (reorder-lt host_big w number mode h))
    ∙ ap some (reorder_involutive host_big w number mode h)
  where
    sent : ℕ
    sent = reorder host_big w number mode

    wired : Bytes
    wired = to_bytes host_big w sent
