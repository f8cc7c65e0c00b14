-- ===== src/InetAddress/Ranges.antt =====
-- src/io/net/inetaddress.cpp: the masks of the IPv4 ranges, octet by octet.
use native.Mathlib.Nat.{pow-suc, div-div-eq-div-mul}
use samurai.Prelude.{
  double_pow, ℕ, zero, suc, ◌+◌, ◌-◌, ◌*◌, ◌/◌, ◌%◌, ◌^◌, ◌<◌, ◌≡◌, sym, ap, ◌∙◌, not, ◌&&◌, ◌||◌,
  ◌∷◌, arith, ltb, leb, ◌==◌, bit_and, and_step, and_mask, Bytes,
}
use samurai.InetAddress.{
  InetAddress, ipv4, resolved, get_ipv4_host_order, is_valid, is_multicast, is_private,
  is_link_local, is_loopback,
}

-- A mask of high bits looks at the number above them.
and_high : (k x m : ℕ) → bit_and x (m * 2 ^ k) ≡ bit_and (x / 2 ^ k) m * 2 ^ k
and_high zero x m =
    let one : m * 2 ^ 0 ≡ m = omega arith in
    let whole : x / 2 ^ 0 ≡ x = omega arith in rw (one, whole) (omega arith)
and_high (suc k) x m =
    let mask = m * 2 ^ k in
    let doubled : m * 2 ^ suc k ≡ mask * 2 = double_pow m k in
    let half : mask * 2 / 2 ≡ mask = omega arith in
    let even : mask * 2 % 2 ≡ 0 = omega arith in
    let shifted : x / 2 ^ suc k ≡ x / 2 / 2 ^ k =
      sym (div-div-eq-div-mul x 2 (2 ^ k) ∙ ap (λ t. x / t) (omega (arith, pow-suc 2 k))) in
    ap (bit_and x) doubled
    ∙ and_step x (mask * 2)
    ∙ rw (half, even, and_high k (x / 2) m, shifted, double_pow (bit_and (x / 2 / 2 ^ k) m) k)
        (omega arith)

-- An address `a.b.c.d`.
abbrev pub quad : ℕ → ℕ → ℕ → ℕ → Bytes → Bytes → InetAddress
quad a b c d rest name = record {
  version = ipv4;
  bytes = a ∷ b ∷ c ∷ d ∷ rest;
  resolve_state = resolved;
  hostname = name;
}

abbrev host_order : ℕ → ℕ → ℕ → ℕ → ℕ
host_order a b c d = a * 2 ^ 24 + b * 2 ^ 16 + c * 2 ^ 8 + d

-- A mask of `m` bits.
pub high : (k m x : ℕ) → bit_and x ((2 ^ m - 1) * 2 ^ k) ≡ x / 2 ^ k % 2 ^ m * 2 ^ k
high k m x = and_high k x (2 ^ m - 1) ∙ ap (λ t. t * 2 ^ k) (and_mask m (x / 2 ^ k))

module _ (a b c d : ℕ) (rest name : Bytes) (pa : a < 256) (pb : b < 256) (pc : c < 256)
    (pd : d < 256) where
  abbrev n : ℕ
  n = host_order a b c d

  abbrev address : InetAddress
  address = quad a b c d rest name

  first : bit_and n 0xFF000000 ≡ a * 2 ^ 24
  first = high 24 8 n ∙ omega arith

  both : bit_and n 0xFFFF0000 ≡ a * 2 ^ 24 + b * 2 ^ 16
  both = high 16 16 n ∙ omega arith

  nibble : bit_and n 0xFFF00000 ≡ a * 2 ^ 24 + b / 16 * 2 ^ 20
  nibble = high 20 12 n ∙ omega arith

  top : bit_and n 0xF0000000 ≡ a / 16 * 2 ^ 28
  top = high 28 4 n ∙ omega arith

  -- 127.0.0.0/8
  pub is_loopback-quad : is_loopback address ≡ (a == 127)
  unfolding is_loopback get_ipv4_host_order
  is_loopback-quad = ap (λ t. t == 0x7F000000) first ∙ ground arith

  -- 169.254.0.0/16
  pub is_link_local-quad : is_link_local address ≡ (a == 169 && b == 254)
  unfolding is_link_local get_ipv4_host_order
  is_link_local-quad = ap (λ t. t == 0xA9FE0000) both ∙ ground arith

  -- 224.0.0.0/4
  pub is_multicast-quad : is_multicast address ≡ (leb 224 a && ltb a 240)
  unfolding is_multicast get_ipv4_host_order
  is_multicast-quad = ground arith

  -- 10.0.0.0/8, 172.16.0.0/12 and 192.168.0.0/16
  pub is_private-quad :
      is_private address ≡ (a == 10 || (a == 172 && leb 16 b && ltb b 32) || (a == 192 && b == 168))
  unfolding is_private get_ipv4_host_order
  is_private-quad = rw (first, nibble, both) (ground arith)

  -- Neither 0.0.0.0 nor 240.0.0.0/4
  pub is_valid-quad : is_valid address ≡ (not (a == 0 && b == 0 && c == 0 && d == 0) && ltb a 240)
  unfolding is_valid get_ipv4_host_order
  is_valid-quad = rw top (ground arith)
