-- ===== src/Socks5/Request.antt =====
-- src/io/net/socks5.cpp: the constructor, with the request and the greeting that it encodes, and the peers
-- that it refuses. inet_pton is an argument.
use samurai.Prelude.{
  ℕ, ◌/◌, ◌%◌, Bool, true, false, not, ◌&&◌, ◌||◌, Option, none, some, [], ◌∷◌, ◌++◌, if◌then◌else◌,
  length, take, drop, ltb, ◌==◌, Bytes, last_index_of,
}
use samurai.Text.{iequals}
use samurai.InetAddress.{
  Version, unspecified, ipv4, ipv6, InetAddress, no_address, same_version, parse_address, is_valid,
  is_loopback, is_private, is_link_local, is_multicast,
}
use samurai.Socks5.{
  ProxySettings, has_credentials, Command, connect, resolve, resolve_ptr, command_byte, need_write,
  method_reply, proxy_refused, proxy_protocol, socket_unknown, Handshake, fail, queue,
}

-- is_local_address
unfoldable pub is_local_address : InetAddress → Bool
is_local_address a =
    not (is_valid a) || is_loopback a || is_private a || is_link_local a || is_multicast a

-- "localhost", ".local" and ".localhost"
abbrev localhost : Bytes
localhost = 0x6C ∷ 0x6F ∷ 0x63 ∷ 0x61 ∷ 0x6C ∷ 0x68 ∷ 0x6F ∷ 0x73 ∷ 0x74 ∷ []

abbrev dot_local : Bytes
dot_local = 0x2E ∷ 0x6C ∷ 0x6F ∷ 0x63 ∷ 0x61 ∷ 0x6C ∷ []

unfoldable pub is_local_name : Bytes → Bool
unfolding iequals
is_local_name name = if iequals name localhost then true else elim (last_index_of 0x2E name) [
  | none ↦ false
  | some dot ↦ iequals (drop dot name) dot_local || iequals (drop dot name) (0x2E ∷ localhost)
]

unfoldable pub encode_greeting : Handshake → Handshake
unfolding queue has_credentials
encode_greeting h =
    queue h
      (if has_credentials h.settings then 0x05 ∷ 2 ∷ 0x00 ∷ 0x02 ∷ [] else 0x05 ∷ 1 ∷ 0x00 ∷ [])

-- htons and the two bytes of the port.
abbrev pub port_bytes : ℕ → Bytes
port_bytes port = port / 256 % 256 ∷ port % 256 ∷ []

abbrev pub is_resolve_ptr : Command → Bool
is_resolve_ptr connect = false
is_resolve_ptr resolve = false
is_resolve_ptr resolve_ptr = true

-- The members as the constructor finds them.
abbrev pub blank : ProxySettings → Command → Bytes → ℕ → Handshake
blank settings command target port = record {
  settings = settings;
  command = command;
  target = target;
  target_port = port;
  status = need_write;
  step = method_reply;
  out = [];
  out_sent = 0;
  request = [];
  input = [];
  need = 0;
  method = 0;
  reply_atyp = 0;
  result = record { reply = 0; address = no_address; name = []; port = 0 };
  error = socket_unknown;
}

module _ (inet_pton : Version → Bytes → Option Bytes) where
  -- The address and the port of a request for a peer, by the family of the literal.
  unfoldable pub destination : InetAddress → Bytes → Bytes
  destination address target = elim address.version [
    | unspecified ↦ 0x03 ∷ length target % 256 ∷ target
    | ipv4 ↦ 0x01 ∷ take 4 address.bytes
    | ipv6 ↦ 0x04 ∷ take 16 address.bytes
  ]

  -- encodeRequest, and whether it succeeds.
  unfoldable pub encode_request : Handshake → Handshake × Bool
  encode_request h =
      let address = parse_address inet_pton h.target in
      let is_literal = not (same_version address.version unspecified) in
      if not h.settings.allow_private && is_literal && is_local_address address
      then (fail h proxy_refused, false)
      else if not h.settings.allow_private && not is_literal && is_local_name h.target
      then (fail h proxy_refused, false)
      else if not is_literal && is_resolve_ptr h.command
      then (fail h proxy_protocol, false)
      else (
        record h {
          request =
              0x05
              ∷ command_byte h.command
              ∷ 0x00
              ∷ (destination address h.target ++ port_bytes h.target_port);
        },
        true,
      )

  -- The constructor.
  unfoldable pub make : ProxySettings → Command → Bytes → ℕ → Handshake
  make settings command target port =
      let h = blank settings command target port in
      let encoded = encode_request h in
      if length target == 0
      then fail h proxy_protocol
      else if ltb 255 (length target)
      then fail h proxy_protocol
      else if ltb 255 (length settings.username) || ltb 255 (length settings.password)
      then fail h proxy_protocol
      else if encoded.1
      then encode_greeting encoded.0
      else encoded.0
