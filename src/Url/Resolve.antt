-- ===== src/Url/Resolve.antt =====
-- src/io/net/url.cpp: URL::resolve. A URL that stands on its own is parsed alone.
use samurai.Prelude.{
  ℕ, zero, suc, ◌+◌, ◌/◌, ◌%◌, Bool, false, not, ◌&&◌, Option, none, some, [], ◌∷◌, ◌++◌,
  if◌then◌else◌, length, take, drop, ltb, ◌==◌, Bytes, index_of, same_bytes,
}
use samurai.InetAddress.{Version}
use samurai.Url.Parse.{Url, is_scheme, authority_end, text_before, parse_url}
use samurai.Url.Paths.{remove_dot_segments, merge_paths, is_absolute}

-- std::to_string of a number of up to `digits` digits.
unfoldable pub to_string_loop : ℕ → ℕ → Bytes → Bytes
to_string_loop zero n out = out
to_string_loop (suc digits) n out =
    let rest = to_string_loop digits (n / 10) ((n % 10 + 0x30) ∷ out) in
    if ltb n 10 then (n + 0x30) ∷ out else rest

unfoldable pub to_string : ℕ → Bytes
to_string n = to_string_loop 20 n []

-- Whether the reference has a scheme of its own: a colon before any delimiter, behind what is shaped
-- like a scheme.
unfoldable pub has_scheme : Bytes → Bool
has_scheme reference = elim (index_of 0x3A reference) [
  | none ↦ false
  | some colon ↦ ltb colon (authority_end reference) && is_scheme (take colon reference)
]

-- The user information of base_authority.
unfoldable pub userinfo_text : Url → Bytes
userinfo_text u =
    if length u.username == 0 && length u.password == 0
    then []
    else (u.username ++ (if length u.password == 0 then [] else 0x3A ∷ u.password)) ++ 0x40 ∷ []

unfoldable pub host_text : Url → Bytes
host_text u = elim (index_of 0x3A u.hostname) [
  | none ↦ u.hostname
  | some _ ↦
      0x5B
      ∷ (u.hostname
          ++ ((if length u.zone == 0 then [] else 0x25 ∷ 0x32 ∷ 0x35 ∷ u.zone) ++ 0x5D ∷ []))
]

unfoldable pub base_authority : Url → Bytes
base_authority u =
    userinfo_text u ++ (host_text u ++ (if u.port == 0 then [] else 0x3A ∷ to_string u.port))

abbrev pub has_authority : Url → Bool
has_authority u = not (length u.hostname == 0)

-- The path of a reference and its query.
unfoldable pub cut_query : Bytes → Bytes × Option Bytes
cut_query rest = elim (index_of 0x3F rest) [
  | none ↦ (rest, none)
  | some q ↦ (take q rest, some (drop (q + 1) rest))
]

-- The same, without the fragment.
unfoldable pub split_query : Bytes → Bytes × Option Bytes
split_query reference = cut_query (text_before 0x23 reference)

-- The recomposed text: the authority with its slashes, if there is one, the path and the query.
abbrev pub query_text : Option Bytes → Bytes
query_text none = []
query_text (some query) = 0x3F ∷ query

unfoldable pub recompose : Bytes → Option Bytes → Bytes → Option Bytes → Bytes
recompose scheme authority path query =
    scheme
    ++ (0x3A
        ∷ ((elim authority [ none ↦ [] | some text ↦ 0x2F ∷ 0x2F ∷ text ])
            ++ (path ++ query_text query)))

-- The authority and the path of a network-path reference, behind its two slashes.
unfoldable pub network_path : Bytes → Bytes × Bytes
network_path text = elim (index_of 0x2F text) [
  | none ↦ (text, [])
  | some slash ↦ (take slash text, remove_dot_segments (drop slash text))
]

-- The path of a reference that is neither empty nor a network path.
unfoldable pub relative_path : Url → Bytes → Bytes
relative_path u rest =
    if is_absolute rest
    then remove_dot_segments rest
    else remove_dot_segments (merge_paths u.path (has_authority u) rest)

-- The base authority, if there is one.
abbrev pub inherited : Url → Option Bytes
inherited u = if has_authority u then some (base_authority u) else none

-- The query of an empty reference: its own, or that of the base.
unfoldable pub inherited_query : Url → Option Bytes → Option Bytes
inherited_query u (some query) = some query
inherited_query u none = if length u.query == 0 then none else some u.query

-- A network-path reference replaces the authority; `text` is what is behind its slashes.
unfoldable pub network_target : Url → Bytes → Option Bytes → Bytes
network_target u text query =
    recompose u.scheme (some (network_path text).0) (network_path text).1 query

-- The text of the target of a reference without a scheme.
unfoldable pub target_text : Url → Bytes → Bytes
target_text u reference =
    let parts = split_query reference in
    if same_bytes (take 2 parts.0) (0x2F ∷ 0x2F ∷ [])
    then network_target u (drop 2 parts.0) parts.1
    else if length parts.0 == 0
    then recompose u.scheme (inherited u) u.path (inherited_query u parts.1)
    else recompose u.scheme (inherited u) (relative_path u parts.0) parts.1

module _ (inet_pton : Version → Bytes → Option Bytes) where
  unfoldable pub resolve : Url → Bytes → Url
  resolve u reference =
      if not u.valid
      then parse_url inet_pton []
      else if has_scheme reference
      then parse_url inet_pton reference
      else parse_url inet_pton (target_text u reference)
