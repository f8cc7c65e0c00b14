-- ===== src/Url/Parse.antt =====
-- src/io/net/url.cpp: URL::parse and getEffectivePort.
use samurai.Prelude.{
  ℕ, ◌+◌, Bool, true, false, not, ◌||◌, ◌&&◌, Option, none, some, List, [], ◌∷◌, map, if◌then◌else◌,
  length, take, drop, leb, ◌==◌, Bytes, index_of, last_index_of, same_bytes,
}
use samurai.Text.{ascii_lower, iequals}
use samurai.Text.Percent.{percent_decode}
use samurai.Text.Numbers.{is_digit, to_uint16}
use samurai.InetAddress.{Version, InetAddress, no_address, parse_address}

pub record Url : Type 0 where
  pub url : Bytes
  pub scheme : Bytes
  pub host : InetAddress
  pub hostname : Bytes
  pub zone : Bytes
  pub port : ℕ
  pub path : Bytes
  pub username : Bytes
  pub password : Bytes
  pub file : Bytes
  pub query : Bytes
  pub valid : Bool

-- The reset at the start of `parse`.
abbrev pub cleared : Bytes → Url
cleared text = record {
  url = text;
  scheme = [];
  host = no_address;
  hostname = [];
  zone = [];
  port = 0;
  path = [];
  username = [];
  password = [];
  file = [];
  query = [];
  valid = false;
}

-- isalpha and isalnum of the C locale.
unfoldable pub is_alpha : ℕ → Bool
is_alpha c = (leb 0x41 c && leb c 0x5A) || (leb 0x61 c && leb c 0x7A)

unfoldable pub is_scheme_char : ℕ → Bool
is_scheme_char c = is_alpha c || is_digit c || c == 0x2B || c == 0x2D || c == 0x2E

unfoldable pub all_scheme_chars : Bytes → Bool
all_scheme_chars [] = true
all_scheme_chars (c ∷ cs) = is_scheme_char c && all_scheme_chars cs

-- The tests of the scheme, which is not empty.
unfoldable pub is_scheme : Bytes → Bool
is_scheme [] = false
is_scheme (c ∷ cs) = is_alpha c && all_scheme_chars (c ∷ cs)

-- '/', '?' or '#'.
abbrev pub is_delimiter : ℕ → Bool
is_delimiter c = c == 0x2F || c == 0x3F || c == 0x23

-- find_first_of("/?#"), or the size.
unfoldable pub authority_end : Bytes → ℕ
authority_end [] = 0
authority_end (c ∷ cs) = if is_delimiter c then 0 else authority_end cs + 1

-- The user information, and the rest of the authority.
unfoldable pub take_userinfo : Url → Bytes → Url × Bytes
take_userinfo u authority = elim (last_index_of 0x40 authority) [
  | none ↦ (u, authority)
  | some at ↦
      let userinfo = take at authority in
      let rest = drop (at + 1) authority in
      elim (index_of 0x3A userinfo) [
        | none ↦ (record u { username = userinfo }, rest)
        | some colon ↦ (
          record u { username = take colon userinfo; password = drop (colon + 1) userinfo },
          rest,
        )
      ]
]

-- What a stage of `parse` leaves: whether it goes on, the members, and the text of the port.
pub data Stage : Type 0 where
  stopped : Url → Stage
  going : Url → Option Bytes → Stage

-- The zone behind the '%' of an address in brackets, or nothing if `parse` stops; the members are
-- those that it leaves.
unfoldable pub take_zone : Url → Url × Bool
take_zone u = elim (index_of 0x25 u.hostname) [
  | none ↦ (u, true)
  | some pct ↦
      let encoded = drop (pct + 1) u.hostname in
      let v = record u { hostname = take pct u.hostname } in
      if length v.hostname == 0
      then (v, false)
      else let text =
          if same_bytes (take 2 encoded) (0x32 ∷ 0x35 ∷ []) then drop 2 encoded else encoded in
        let decoded = percent_decode text in
        let w = record v { zone = decoded.0 } in
        if not decoded.1 then (w, false) else if length w.zone == 0 then (w, false) else (w, true)
]

-- The host in brackets; `inside` is the authority behind the '['.
unfoldable pub take_literal : Url → Bytes → Stage
take_literal u inside = elim (index_of 0x5D inside) [
  | none ↦ stopped u
  | some close ↦
      let zoned = take_zone (record u { hostname = take close inside }) in
      if not zoned.1 then stopped zoned.0 else elim (drop (close + 1) inside) [
        | [] ↦ going zoned.0 none
        | c ∷ cs ↦ if c == 0x3A then going zoned.0 (some cs) else stopped zoned.0
      ]
]

-- The host that is a name.
unfoldable pub take_name : Url → Bytes → Stage
take_name u authority = elim (index_of 0x3A authority) [
  | none ↦ going (record u { hostname = authority }) none
  | some colon ↦
      let portstr = drop (colon + 1) authority in
      let v = record u { hostname = take colon authority } in
      elim (index_of 0x3A portstr) [ none ↦ going v (some portstr) | some _ ↦ stopped v ]
]

unfoldable pub take_host : Url → Bytes → Stage
take_host u [] = take_name u []
take_host u (c ∷ cs) = if c == 0x5B then take_literal u cs else take_name u (c ∷ cs)

-- The port, and whether `parse` goes on.
unfoldable pub take_port : Url → Option Bytes → Url × Bool
take_port u none = (u, true)
take_port u (some portstr) = let v = record u { port = to_uint16 portstr } in (v, not (v.port == 0))

-- The text before the first byte `c`.
unfoldable pub text_before : ℕ → Bytes → Bytes
text_before c text = elim (index_of c text) [ none ↦ text | some pos ↦ take pos text ]

-- `"/"` for an empty text.
abbrev pub or_root : Bytes → Bytes
or_root [] = 0x2F ∷ []
or_root (c ∷ cs) = c ∷ cs

-- The path and the query, from the text between the authority and the fragment.
unfoldable pub take_query : Url → Bytes → Url
take_query u rest = elim (index_of 0x3F rest) [
  | some q ↦ record u { query = drop (q + 1) rest; path = or_root (take q rest) }
  | none ↦ record u { path = or_root rest }
]

-- The path, the query and the request target, from the text behind the authority.
unfoldable pub take_path : Url → Bytes → Url
take_path u after = record (take_query u (text_before 0x23 after)) {
  file = or_root after;
  valid = true;
}

module _ (inet_pton : Version → Bytes → Option Bytes) where
  -- An InetAddress from the name, unless that is empty.
  unfoldable pub set_host : Url → Url
  set_host u =
      if length u.hostname == 0 then u else record u { host = parse_address inet_pton u.hostname }

  -- From the port on.
  unfoldable pub finish_parse : Stage → Bytes → Url
  finish_parse (stopped u) after = u
  finish_parse (going u portstr) after =
      let ported = take_port u portstr in
      if ported.1 then take_path (set_host ported.0) after else ported.0

  -- From the authority on.
  unfoldable pub parse_hierarchy : Url → Bytes → Url
  parse_hierarchy u text =
      let auth_end = authority_end text in
      let split_user = take_userinfo u (take auth_end text) in
      finish_parse (take_host split_user.0 split_user.1) (drop auth_end text)

  unfoldable pub parse_url : Bytes → Url
  parse_url text = elim (index_of 0x3A text) [
    | none ↦ cleared text
    | some pos ↦
        let u = record (cleared text) { scheme = map ascii_lower (take pos text) } in
        if pos == 0
        then cleared text
        else if not (is_scheme u.scheme)
        then u
        else if not (same_bytes (take 2 (drop (pos + 1) text)) (0x2F ∷ 0x2F ∷ []))
        then u
        else parse_hierarchy u (drop 2 (drop (pos + 1) text))
  ]

-- The table `scheme_ports`: http, https, ftp, ws and wss.
abbrev pub scheme_ports : List (Bytes × ℕ)
scheme_ports =
    (0x68 ∷ 0x74 ∷ 0x74 ∷ 0x70 ∷ [], 80)
    ∷ (0x68 ∷ 0x74 ∷ 0x74 ∷ 0x70 ∷ 0x73 ∷ [], 443)
    ∷ (0x66 ∷ 0x74 ∷ 0x70 ∷ [], 21)
    ∷ (0x77 ∷ 0x73 ∷ [], 80)
    ∷ (0x77 ∷ 0x73 ∷ 0x73 ∷ [], 443)
    ∷ []

-- The loop of getDefaultPort over a table.
unfoldable pub port_of : List (Bytes × ℕ) → Bytes → ℕ
port_of [] scheme_name = 0
port_of (entry ∷ entries) scheme_name =
    if iequals entry.0 scheme_name then entry.1 else port_of entries scheme_name

unfoldable pub get_default_port : Bytes → ℕ
get_default_port scheme_name = port_of scheme_ports scheme_name

unfoldable pub get_effective_port : Url → ℕ
get_effective_port u =
    if not u.valid then 0 else if not (u.port == 0) then u.port else get_default_port u.scheme

-- operator==, on two objects.
unfoldable pub same_url : Url → Url → Bool
same_url a b = same_bytes a.url b.url
