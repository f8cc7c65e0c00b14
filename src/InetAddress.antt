-- ===== src/InetAddress.antt =====
-- src/io/net/inetaddress.cpp: the literals that an InetAddress takes, the ranges it tells apart, and
-- setRawAddress. The bytes of an address are in network order, as `__InternalAddress` holds them; the
-- POSIX branches are modelled. inet_pton is the argument `inet_pton`, on the family and the text.
-- Not modelled: the resolver and its events, and inet_ntop.
pub mod Ranges
use samurai.Prelude.{
  ℕ, ◌+◌, ◌-◌, ◌*◌, ◌^◌, Bool, true, false, not, ◌&&◌, ◌||◌, Option, none, some, [], ◌∷◌, ◌++◌,
  if◌then◌else◌, get_or, length, drop, replicate, ltb, leb, ◌==◌, bit_and, Bytes, slice, index_of,
  last_index_of, same_bytes,
}

pub data Version : Type 0 where
  unspecified : Version
  ipv4 : Version
  ipv6 : Version

pub data ResolveState : Type 0 where
  unresolved : ResolveState
  resolving : ResolveState
  resolve_error : ResolveState
  resolved : ResolveState

pub record InetAddress : Type 0 where
  pub version : Version
  pub bytes : Bytes
  pub resolve_state : ResolveState
  pub hostname : Bytes

abbrev pub same_version : Version → Version → Bool
same_version unspecified unspecified = true
same_version ipv4 ipv4 = true
same_version ipv6 ipv6 = true
same_version _ _ = false

abbrev pub zero_bytes : Bytes
zero_bytes = replicate 16 0

-- The address without arguments.
abbrev pub no_address : InetAddress
no_address = record {
  version = unspecified;
  bytes = zero_bytes;
  resolve_state = unresolved;
  hostname = [];
}

-- The loop of is_canonical_dotted_quad: the digits of the octet, whether the last one is a zero, and
-- the octets so far.
pub quad_loop : ℕ → Bool → ℕ → Bytes → Bool
quad_loop digits after_zero octets [] = ltb 0 digits && octets == 4
quad_loop digits after_zero octets (p ∷ rest) =
    let next = quad_loop 0 false (octets + 1) rest in
    let digit = quad_loop (digits + 1) (p == 0x30) octets rest in
    if p == 0x2E
    then (if digits == 0 then false else next)
    else if ltb p 0x30 || ltb 0x39 p
    then false
    else if digits == 1 && after_zero
    then false
    else if ltb 3 (digits + 1)
    then false
    else digit

pub is_canonical_dotted_quad : Bytes → Bool
unfolding quad_loop
is_canonical_dotted_quad text = quad_loop 0 false 1 text

pub has_canonical_embedded_ipv4 : Bytes → Bool
unfolding is_canonical_dotted_quad
has_canonical_embedded_ipv4 text = elim (index_of 0x2E text) [
  | none ↦ true
  | some _ ↦ elim (last_index_of 0x3A text) [
    | none ↦ is_canonical_dotted_quad text
    | some colon ↦ is_canonical_dotted_quad (drop (colon + 1) text)
  ]
]

-- The text without the brackets of `[...]`.
pub unbracket : Bytes → Bytes
unbracket text =
    if ltb 2 (length text) && get_or text 0 0 == 0x5B && get_or text (length text - 1) 0 == 0x5D
    then slice text 1 (length text - 2)
    else text

module _ (inet_pton : Version → Bytes → Option Bytes) where
  -- The bytes that stringToAddress stores, if it succeeds. The text has no zero byte.
  pub string_to_address : Version → Bytes → Option Bytes
  unfolding unbracket is_canonical_dotted_quad has_canonical_embedded_ipv4
  string_to_address unspecified address = none
  string_to_address ipv4 address =
      let text = unbracket address in
      if length address == 0
      then none
      else if is_canonical_dotted_quad text
      then inet_pton ipv4 text
      else none
  string_to_address ipv6 address =
      let text = unbracket address in
      if length address == 0
      then none
      else if has_canonical_embedded_ipv4 text
      then inet_pton ipv6 text
      else none

  -- What the constructor makes of a literal of a family, and of a text that is none.
  abbrev pub literal : Bytes → Version → Bytes → InetAddress
  literal address version bytes = record {
    version = version;
    bytes = bytes ++ replicate (16 - length bytes) 0;
    resolve_state = resolved;
    hostname = address;
  }

  -- The constructor from a text, with no family given.
  unfoldable pub parse_address : Bytes → InetAddress
  unfolding string_to_address
  parse_address address =
      if length address == 0
      then literal address ipv4 zero_bytes
      else elim (string_to_address ipv4 address) [
        | some bytes ↦ literal address ipv4 bytes
        | none ↦ elim (string_to_address ipv6 address) [
          | some bytes ↦ literal address ipv6 bytes
          | none ↦ record no_address { hostname = address }
        ]
      ]

-- setRawAddress, and whether it takes the bytes.
unfoldable pub set_raw_address : InetAddress → Bytes → Version → InetAddress × Bool
set_raw_address a bytes version =
    if same_version version ipv4 && ltb (length bytes) 4
    then (a, false)
    else if same_version version ipv6 && ltb (length bytes) 16
    then (a, false)
    else (
      record a {
        version = version;
        bytes = bytes ++ replicate (16 - length bytes) 0;
        resolve_state = resolved;
      },
      true,
    )

-- A byte of the address.
abbrev pub byte_at : InetAddress → ℕ → ℕ
byte_at a i = get_or a.bytes i 0

-- getIPv4HostOrder: ntohl of the first word.
unfoldable pub get_ipv4_host_order : InetAddress → ℕ
get_ipv4_host_order a =
    if same_version a.version ipv4
    then byte_at a 0 * 2 ^ 24 + byte_at a 1 * 2 ^ 16 + byte_at a 2 * 2 ^ 8 + byte_at a 3
    else 0

-- Whether all of `n` bytes from a position are zero, as a word of theirs is then.
abbrev pub zero_word : InetAddress → ℕ → ℕ → Bool
zero_word a i n = same_bytes (slice a.bytes i n) (replicate n 0)

unfoldable pub is_valid : InetAddress → Bool
unfolding get_ipv4_host_order
is_valid a = elim a.version [
  | ipv4 ↦
      let host_order = get_ipv4_host_order a in
      if host_order == 0
      then false
      else if bit_and host_order 0xF0000000 == 0xF0000000
      then false
      else true
  | ipv6 ↦
      not (zero_word a 0 4)
      || not (zero_word a 4 4)
      || not (zero_word a 8 4)
      || not (zero_word a 12 4)
  | unspecified ↦ false
]

unfoldable pub is_multicast : InetAddress → Bool
unfolding get_ipv4_host_order
is_multicast a = elim a.version [
  | ipv4 ↦
      let host_order = get_ipv4_host_order a in
      leb 0xE0000000 host_order && ltb host_order 0xF0000000
  | ipv6 ↦ byte_at a 0 == 0xFF
  | unspecified ↦ false
]

unfoldable pub is_private : InetAddress → Bool
unfolding get_ipv4_host_order
is_private a = elim a.version [
  | ipv4 ↦
      let host_order = get_ipv4_host_order a in
      if bit_and host_order 0xFF000000 == 0x0A000000
      then true
      else if bit_and host_order 0xFFF00000 == 0xAC100000
      then true
      else if bit_and host_order 0xFFFF0000 == 0xC0A80000
      then true
      else false
  | ipv6 ↦ bit_and (byte_at a 0) 0xFE == 0xFC
  | unspecified ↦ false
]

unfoldable pub is_link_local : InetAddress → Bool
unfolding get_ipv4_host_order
is_link_local a = elim a.version [
  | ipv4 ↦ bit_and (get_ipv4_host_order a) 0xFFFF0000 == 0xA9FE0000
  | ipv6 ↦ byte_at a 0 == 0xFE && bit_and (byte_at a 1) 0xC0 == 0x80
  | unspecified ↦ false
]

unfoldable pub is_loopback : InetAddress → Bool
unfolding get_ipv4_host_order
is_loopback a = elim a.version [
  | ipv4 ↦ bit_and (get_ipv4_host_order a) 0xFF000000 == 0x7F000000
  | ipv6 ↦
      zero_word a 0 4
      && zero_word a 4 4
      && zero_word a 8 4
      && zero_word a 12 2
      && byte_at a 14 == 0
      && byte_at a 15 == 1
  | unspecified ↦ false
]
