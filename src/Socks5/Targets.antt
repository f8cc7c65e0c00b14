-- ===== src/Socks5/Targets.antt =====
-- src/io/net/socks5.cpp: the ranges of is_local_address.
use samurai.Prelude.{
  ℕ, ◌<◌, ◌≡◌, refl, false, ◌&&◌, ◌||◌, [], ◌∷◌, ◌++◌, arith, ltb, leb, ◌==◌, replicate, Bytes,
  same_bytes, length, Bool, true, sym, ap, ◌∙◌, not,
}
use samurai.InetAddress.{
  InetAddress, ipv6, resolved, is_valid, is_multicast, is_private, is_link_local, is_loopback,
}
use samurai.InetAddress.Ranges.{
  quad, is_valid-quad, is_multicast-quad, is_private-quad, is_link_local-quad, is_loopback-quad,
  high,
}
use samurai.Socks5.Request.{is_local_address}

-- An IPv4 address of four octets is local in these ranges and no others: 0.0.0.0, 10/8, 127/8,
-- 169.254/16, 172.16/12, 192.168/16, and everything from 224.0.0.0 on.
pub is_local_address-quad :
    (a b c d : ℕ) (rest name : Bytes)
    → a < 256
    → b < 256
    → c < 256
    → d < 256
    → is_local_address (quad a b c d rest name) ≡ (
        a == 10
        || a == 127
        || (a == 169 && b == 254)
        || (a == 172 && leb 16 b && ltb b 32)
        || (a == 192 && b == 168)
        || leb 224 a
        || (a == 0 && b == 0 && c == 0 && d == 0))
unfolding is_local_address
is_local_address-quad a b c d rest name pa pb pc pd =
    rw
      (
        is_valid-quad a b c d rest name pa pb pc pd,
        is_multicast-quad a b c d rest name pa pb pc pd,
        is_private-quad a b c d rest name pa pb pc pd,
        is_link_local-quad a b c d rest name pa pb pc pd,
        is_loopback-quad a b c d rest name pa pb pc pd,
      )
      (ground arith)

-- An IPv6 address, from its 16 octets.
abbrev pub ipv6_address :
    (a b x2 x3 x4 x5 x6 x7 x8 x9 x10 x11 x12 x13 x14 x15 : ℕ) → Bytes → InetAddress
ipv6_address a b x2 x3 x4 x5 x6 x7 x8 x9 x10 x11 x12 x13 x14 x15 name = record {
  version = ipv6;
  bytes = a ∷ b ∷ x2 ∷ x3 ∷ x4 ∷ x5 ∷ x6 ∷ x7 ∷ x8 ∷ x9 ∷ x10 ∷ x11 ∷ x12 ∷ x13 ∷ x14 ∷ x15 ∷ [];
  resolve_state = resolved;
  hostname = name;
}

and_assoc : (x y z : Bool) → ((x && y) && z) ≡ (x && (y && z))
and_assoc true y z = refl
and_assoc false y z = refl

any_word : (v w x y : Bool) → (not v || not w || not x || not y) ≡ not (v && (w && (x && y)))
any_word v w x y = ground arith

and_true : (x : Bool) → (x && true) ≡ x
and_true true = refl
and_true false = refl

all_words :
    (v w x y p q : Bool)
    → (v && w && x && y && p && q) ≡ (v && (w && (x && (y && (p && (q && true))))))
all_words v w x y p q = ground arith

reordered : (z l p k m : Bool) → (not (not z) || l || p || k || m) ≡ (m || p || k || z || l)
reordered z l p k m = ground arith

same_bytes-append :
    (xs us ys vs : Bytes)
    → length xs ≡ length us
    → same_bytes (xs ++ ys) (us ++ vs) ≡ (same_bytes xs us && same_bytes ys vs)
same_bytes-append [] [] ys vs e = refl
same_bytes-append [] (u ∷ us) ys vs e = absurd (omega (arith, e))
same_bytes-append (x ∷ xs) [] ys vs e = absurd (omega (arith, e))
same_bytes-append (x ∷ xs) (u ∷ us) ys vs e =
    ap (λ (t : Bool). x == u && t) (same_bytes-append xs us ys vs (omega (arith, e)))
    ∙ sym (and_assoc (x == u) (same_bytes xs us) (same_bytes ys vs))

module _ (a b x2 x3 x4 x5 x6 x7 x8 x9 x10 x11 x12 x13 x14 x15 : ℕ) (name : Bytes) (pa : a < 256)
    (pb : b < 256) where
  abbrev octets : Bytes
  octets = a ∷ b ∷ x2 ∷ x3 ∷ x4 ∷ x5 ∷ x6 ∷ x7 ∷ x8 ∷ x9 ∷ x10 ∷ x11 ∷ x12 ∷ x13 ∷ x14 ∷ x15 ∷ []

  abbrev address : InetAddress
  address = ipv6_address a b x2 x3 x4 x5 x6 x7 x8 x9 x10 x11 x12 x13 x14 x15 name

  -- The words of the address are all of its octets.
  is_valid-ipv6 : is_valid address ≡ not (same_bytes octets (replicate 16 0))
  unfolding is_valid
  is_valid-ipv6 =
      any_word (same_bytes (a ∷ b ∷ x2 ∷ x3 ∷ []) (replicate 4 0))
        (same_bytes (x4 ∷ x5 ∷ x6 ∷ x7 ∷ []) (replicate 4 0))
        (same_bytes (x8 ∷ x9 ∷ x10 ∷ x11 ∷ []) (replicate 4 0))
        (same_bytes (x12 ∷ x13 ∷ x14 ∷ x15 ∷ []) (replicate 4 0))
      ∙ ap not (
          sym (
            same_bytes-append (a ∷ b ∷ x2 ∷ x3 ∷ []) (replicate 4 0)
              (x4 ∷ x5 ∷ x6 ∷ x7 ∷ x8 ∷ x9 ∷ x10 ∷ x11 ∷ x12 ∷ x13 ∷ x14 ∷ x15 ∷ [])
              (replicate 12 0) refl
            ∙ ap (λ (t : Bool). same_bytes (a ∷ b ∷ x2 ∷ x3 ∷ []) (replicate 4 0) && t)
                (same_bytes-append (x4 ∷ x5 ∷ x6 ∷ x7 ∷ []) (replicate 4 0)
                    (x8 ∷ x9 ∷ x10 ∷ x11 ∷ x12 ∷ x13 ∷ x14 ∷ x15 ∷ []) (replicate 8 0) refl
                  ∙ ap (λ (t : Bool). same_bytes (x4 ∷ x5 ∷ x6 ∷ x7 ∷ []) (replicate 4 0) && t)
                      (same_bytes-append (x8 ∷ x9 ∷ x10 ∷ x11 ∷ []) (replicate 4 0)
                        (x12 ∷ x13 ∷ x14 ∷ x15 ∷ []) (replicate 4 0) refl))))

  is_loopback-ipv6 : is_loopback address ≡ same_bytes octets (replicate 15 0 ++ 1 ∷ [])
  unfolding is_loopback
  is_loopback-ipv6 =
      all_words (same_bytes (a ∷ b ∷ x2 ∷ x3 ∷ []) (replicate 4 0))
        (same_bytes (x4 ∷ x5 ∷ x6 ∷ x7 ∷ []) (replicate 4 0))
        (same_bytes (x8 ∷ x9 ∷ x10 ∷ x11 ∷ []) (replicate 4 0))
        (same_bytes (x12 ∷ x13 ∷ []) (replicate 2 0)) (x14 == 0) (x15 == 1)
      ∙ sym (
          same_bytes-append (a ∷ b ∷ x2 ∷ x3 ∷ []) (replicate 4 0)
            (x4 ∷ x5 ∷ x6 ∷ x7 ∷ x8 ∷ x9 ∷ x10 ∷ x11 ∷ x12 ∷ x13 ∷ x14 ∷ x15 ∷ [])
            (replicate 11 0 ++ 1 ∷ []) refl
          ∙ ap (λ (t : Bool). same_bytes (a ∷ b ∷ x2 ∷ x3 ∷ []) (replicate 4 0) && t)
              (same_bytes-append (x4 ∷ x5 ∷ x6 ∷ x7 ∷ []) (replicate 4 0)
                  (x8 ∷ x9 ∷ x10 ∷ x11 ∷ x12 ∷ x13 ∷ x14 ∷ x15 ∷ []) (replicate 7 0 ++ 1 ∷ []) refl
                ∙ ap (λ (t : Bool). same_bytes (x4 ∷ x5 ∷ x6 ∷ x7 ∷ []) (replicate 4 0) && t)
                    (same_bytes-append (x8 ∷ x9 ∷ x10 ∷ x11 ∷ []) (replicate 4 0)
                        (x12 ∷ x13 ∷ x14 ∷ x15 ∷ []) (replicate 3 0 ++ 1 ∷ []) refl
                      ∙ ap
                          (λ (t : Bool). same_bytes (x8 ∷ x9 ∷ x10 ∷ x11 ∷ []) (replicate 4 0) && t)
                          (same_bytes-append (x12 ∷ x13 ∷ []) (replicate 2 0) (x14 ∷ x15 ∷ [])
                            (0 ∷ 1 ∷ []) refl))))

  is_private-ipv6 : is_private address ≡ (leb 0xFC a && ltb a 0xFE)
  unfolding is_private
  is_private-ipv6 = rw (high 1 7 a) (ground arith)

  is_link_local-ipv6 : is_link_local address ≡ (a == 0xFE && (leb 0x80 b && ltb b 0xC0))
  unfolding is_link_local
  is_link_local-ipv6 = rw (high 6 2 b) (ground arith)

  is_multicast-ipv6 : is_multicast address ≡ (a == 0xFF)
  unfolding is_multicast
  is_multicast-ipv6 = refl

  -- An IPv6 address is local in these ranges and no others: ff00::/8, fc00::/7, fe80::/10, :: and
  -- ::1. So no address ::ffff:a.b.c.d is local, also when the IPv4 address in it is.
  pub is_local_address-ipv6 :
      is_local_address (ipv6_address a b x2 x3 x4 x5 x6 x7 x8 x9 x10 x11 x12 x13 x14 x15 name) ≡ (
        a == 0xFF
        || (leb 0xFC a && ltb a 0xFE)
        || (a == 0xFE && (leb 0x80 b && ltb b 0xC0))
        || same_bytes octets (replicate 16 0)
        || same_bytes octets (replicate 15 0 ++ 1 ∷ []))
  unfolding is_local_address
  is_local_address-ipv6 =
      ap
        (λ (v : Bool).
          not v
          || is_loopback address
          || is_private address
          || is_link_local address
          || is_multicast address)
        is_valid-ipv6
      ∙ ap
          (λ (l : Bool).
            not (not (same_bytes octets (replicate 16 0)))
            || l
            || is_private address
            || is_link_local address
            || is_multicast address)
          is_loopback-ipv6
      ∙ rw (is_private-ipv6, is_link_local-ipv6, is_multicast-ipv6)
          (reordered (same_bytes octets (replicate 16 0))
            (same_bytes octets (replicate 15 0 ++ 1 ∷ [])) (leb 0xFC a && ltb a 0xFE)
            (a == 0xFE && (leb 0x80 b && ltb b 0xC0)) (a == 0xFF))
