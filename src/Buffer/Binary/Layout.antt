-- ===== src/Buffer/Binary/Layout.antt =====
-- src/io/buffer.cpp: the byte orders of an integer, `byteswap` and `reorder`.
use samurai.Prelude.{
  ℕ, zero, suc, ◌+◌, ◌*◌, ◌/◌, ◌%◌, ◌^◌, ◌≤◌, ◌<◌, ◌≡◌, refl, sym, ap, ◌∙◌, Bool, true, false, [],
  ◌∷◌, ◌++◌, or_fields, and_mask, arith, Bytes, length, length-append, AreBytes, AreBytes-append,
  two-pow_byte,
}
use mathlib.Core.List.{reverse, reverse-cons, reverse-reverse}
use native.Mathlib.Nat.{mod-eq_of_lt, lt_of_lt_of_le, pow-le-pow_right}
use samurai.Buffer.Binary.{
  BinaryMode, big_endian, little_endian, native_endian, swap_step, swap_loop, byteswap, reorder,
  little_bytes, big_bytes, to_bytes, of_little, of_big, of_bytes,
}

-- A byte pushed in from the right.
swap_step_lem :
    (w swapped value : ℕ)
    → swap_step w (swapped, value) ≡ ((swapped * 256 + value % 256) % 2 ^ (8 * w), value / 256)
swap_step_lem w swapped value =
    rw (and_mask 8 value, or_fields 8 swapped (value % 2 ^ 8) (omega arith))

length-little_bytes : (w v : ℕ) → length (little_bytes w v) ≡ w
unfolding little_bytes
length-little_bytes zero v = refl
length-little_bytes (suc w) v = ap suc (length-little_bytes w (v / 2 ^ 8))

little_bytes-AreBytes : (w v : ℕ) → AreBytes (little_bytes w v)
unfolding little_bytes
little_bytes-AreBytes zero v = tt
little_bytes-AreBytes (suc w) v = (omega arith, little_bytes-AreBytes w (v / 2 ^ 8))

of_little-little_bytes : (w v : ℕ) → v < 2 ^ (8 * w) → of_little (little_bytes w v) ≡ v
unfolding of_little little_bytes
of_little-little_bytes zero v h = omega arith
of_little-little_bytes (suc w) v h =
    omega (arith, of_little-little_bytes w (v / 2 ^ 8) (omega (arith, two-pow_byte w)))

little_bytes-of_little :
    (xs : Bytes) (w : ℕ) → length xs ≡ w → AreBytes xs → little_bytes w (of_little xs) ≡ xs
unfolding of_little little_bytes
little_bytes-of_little [] zero e h = refl
little_bytes-of_little [] (suc w) e h = absurd (omega arith)
little_bytes-of_little (x ∷ xs) zero e h = absurd (omega arith)
little_bytes-of_little (x ∷ xs) (suc w) e h =
    let low : (x + of_little xs * 2 ^ 8) % 2 ^ 8 ≡ x = omega (arith, h.0) in
    let high : (x + of_little xs * 2 ^ 8) / 2 ^ 8 ≡ of_little xs = omega (arith, h.0) in
    rw (low, high, little_bytes-of_little xs w (omega arith) h.1)

big_bytes-reverse : (w v : ℕ) → big_bytes w v ≡ reverse (little_bytes w v)
unfolding big_bytes little_bytes
big_bytes-reverse zero v = refl
big_bytes-reverse (suc w) v =
    rw (big_bytes-reverse w (v / 2 ^ 8))
      (sym (reverse-cons (v % 2 ^ 8) (little_bytes w (v / 2 ^ 8))))

of_big-concat :
    (acc : ℕ) (xs : Bytes) (y : ℕ) → of_big acc (xs ++ y ∷ []) ≡ of_big acc xs * 2 ^ 8 + y
unfolding of_big
of_big-concat acc [] y = refl
of_big-concat acc (x ∷ xs) y = of_big-concat (acc * 2 ^ 8 + x) xs y

of_big-reverse : (xs : Bytes) → of_big 0 (reverse xs) ≡ of_little xs
unfolding of_big of_little
of_big-reverse [] = refl
of_big-reverse (x ∷ xs) =
    rw reverse-cons (omega (arith, of_big-concat 0 (reverse xs) x, of_big-reverse xs))

pub of_bytes-to_bytes :
    (host_big : Bool) (w v : ℕ) → v < 2 ^ (8 * w) → of_bytes host_big (to_bytes host_big w v) ≡ v
unfolding of_bytes to_bytes
of_bytes-to_bytes true w v h =
    rw (big_bytes-reverse w v, of_big-reverse (little_bytes w v)) (of_little-little_bytes w v h)
of_bytes-to_bytes false w v h = of_little-little_bytes w v h

swap_loop-of_big :
    (w n k swapped value : ℕ)
    → k + n ≡ w
    → swapped < 2 ^ (8 * k)
    → swap_loop w n (swapped, value) ≡ of_big swapped (little_bytes n value)
unfolding swap_loop of_big little_bytes
swap_loop-of_big w zero k swapped value e h = refl
swap_loop-of_big w (suc n) k swapped value e h =
    let fits : swapped * 256 + value % 256 < 2 ^ (8 * suc k) = omega (arith, two-pow_byte k) in
    let below : 2 ^ (8 * suc k) ≤ 2 ^ (8 * w) = pow-le-pow_right (omega arith) (omega arith) in
    ap (swap_loop w n) (swap_step_lem w swapped value)
    ∙ rw (mod-eq_of_lt (lt_of_lt_of_le fits below)) (
        swap_loop-of_big w n (suc k) (swapped * 256 + value % 256) (value / 256) (omega arith) fits)

byteswap-of_little : (w v : ℕ) → byteswap w v ≡ of_little (big_bytes w v)
unfolding byteswap
byteswap-of_little w v =
    swap_loop-of_big w w 0 0 v (omega arith) (omega arith)
    ∙ ap (of_big 0) (sym (reverse-reverse (little_bytes w v)))
    ∙ of_big-reverse (reverse (little_bytes w v))
    ∙ ap of_little (sym (big_bytes-reverse w v))

length-big_bytes : (w v : ℕ) → length (big_bytes w v) ≡ w
unfolding big_bytes
length-big_bytes zero v = refl
length-big_bytes (suc w) v = omega (
  arith,
  length-append (big_bytes w (v / 2 ^ 8)) (v % 2 ^ 8 ∷ []),
  length-big_bytes w (v / 2 ^ 8),
)

big_bytes-AreBytes : (w v : ℕ) → AreBytes (big_bytes w v)
unfolding big_bytes
big_bytes-AreBytes zero v = tt
big_bytes-AreBytes (suc w) v =
    AreBytes-append (big_bytes w (v / 2 ^ 8)) (v % 2 ^ 8 ∷ []) (big_bytes-AreBytes w (v / 2 ^ 8))
      (omega arith, tt)

-- Swapping the bytes turns one layout into the other.
little_bytes-byteswap : (w v : ℕ) → little_bytes w (byteswap w v) ≡ big_bytes w v
little_bytes-byteswap w v =
    ap (little_bytes w) (byteswap-of_little w v)
    ∙ little_bytes-of_little (big_bytes w v) w (length-big_bytes w v) (big_bytes-AreBytes w v)

big_bytes-byteswap : (w v : ℕ) → big_bytes w (byteswap w v) ≡ little_bytes w v
big_bytes-byteswap w v =
    big_bytes-reverse w (byteswap w v)
    ∙ ap reverse (little_bytes-byteswap w v ∙ big_bytes-reverse w v)
    ∙ reverse-reverse (little_bytes w v)

of_little-lt : (xs : Bytes) (w : ℕ) → length xs ≡ w → AreBytes xs → of_little xs < 2 ^ (8 * w)
unfolding of_little
of_little-lt [] zero e h = omega arith
of_little-lt [] (suc w) e h = absurd (omega arith)
of_little-lt (x ∷ xs) zero e h = absurd (omega arith)
of_little-lt (x ∷ xs) (suc w) e h =
    omega (arith, two-pow_byte w, of_little-lt xs w (omega arith) h.1, h.0)

byteswap-lt : (w v : ℕ) → byteswap w v < 2 ^ (8 * w)
byteswap-lt w v =
    rw (byteswap-of_little w v)
      (of_little-lt (big_bytes w v) w (length-big_bytes w v) (big_bytes-AreBytes w v))

-- On values of `w` bytes, `byteswap` is its own inverse.
pub byteswap_involutive : (w v : ℕ) → v < 2 ^ (8 * w) → byteswap w (byteswap w v) ≡ v
byteswap_involutive w v h =
    byteswap-of_little w (byteswap w v)
    ∙ ap of_little (big_bytes-byteswap w v)
    ∙ of_little-little_bytes w v h

-- The layout that each mode asks for.
pub layout : Bool → ℕ → ℕ → BinaryMode → Bytes
layout host_big w v big_endian = big_bytes w v
layout host_big w v little_endian = little_bytes w v
layout host_big w v native_endian = to_bytes host_big w v

-- The bytes written are those of the mode, on either host.
pub wire :
    (host_big : Bool) (w v : ℕ) (mode : BinaryMode)
    → to_bytes host_big w (reorder host_big w v mode) ≡ layout host_big w v mode
unfolding to_bytes reorder layout
wire true w v big_endian = refl
wire true w v little_endian = big_bytes-byteswap w v
wire true w v native_endian = refl
wire false w v big_endian = little_bytes-byteswap w v
wire false w v little_endian = refl
wire false w v native_endian = refl

pub reorder_involutive :
    (host_big : Bool) (w v : ℕ) (mode : BinaryMode)
    → v < 2 ^ (8 * w)
    → reorder host_big w (reorder host_big w v mode) mode ≡ v
unfolding reorder
reorder_involutive true w v big_endian h = refl
reorder_involutive true w v little_endian h = byteswap_involutive w v h
reorder_involutive true w v native_endian h = refl
reorder_involutive false w v big_endian h = byteswap_involutive w v h
reorder_involutive false w v little_endian h = refl
reorder_involutive false w v native_endian h = refl

pub reorder-lt :
    (host_big : Bool) (w v : ℕ) (mode : BinaryMode)
    → v < 2 ^ (8 * w)
    → reorder host_big w v mode < 2 ^ (8 * w)
unfolding reorder
reorder-lt true w v big_endian h = h
reorder-lt true w v little_endian h = byteswap-lt w v
reorder-lt true w v native_endian h = h
reorder-lt false w v big_endian h = byteswap-lt w v
reorder-lt false w v little_endian h = h
reorder-lt false w v native_endian h = h

pub length-to_bytes : (host_big : Bool) (w v : ℕ) → length (to_bytes host_big w v) ≡ w
unfolding to_bytes
length-to_bytes true w v = length-big_bytes w v
length-to_bytes false w v = length-little_bytes w v
