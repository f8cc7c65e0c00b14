-- ===== src/Url/Printed.antt =====
-- src/io/net/url.cpp: what `parse` makes of a text that is put together from its parts.
use samurai.Prelude.{
  ℕ, ◌≡◌, refl, sym, ap, ◌∙◌, true, false, Option, some, none, [], ◌∷◌, ◌++◌, map, append_assoc,
  arith, length, take-append_length, drop-append_length, ◌==◌, Bytes,
}
use samurai.InetAddress.{Version, no_address}
use samurai.Text.{ascii_lower}
use samurai.Text.Numbers.{is_digit}
use samurai.Text.Fields.{Lacks}
use samurai.Url.Parse.{
  Url, is_alpha, is_scheme_char, all_scheme_chars, is_scheme, going, text_before, or_root,
  take_query, take_path, set_host, finish_parse, parse_hierarchy, parse_url,
}
use samurai.Url.Find.{
  index_of_after, Undelimited-append, Lacks-append, StartsDelimiter, authority_end_lem, drop_next,
}
use samurai.Url.Parts.{
  Parts, marked, user_text, authority_text, tail_text, print, Undelimited, IsPlainUser, IsPlainPort,
  starts_path, IsPlain, port_number, text_of, name_of, password_of, host_of, members,
}
use samurai.Url.Stages.{
  digits_plain, named, take_userinfo_plain, take_host_plain, take_port_plain, before_fragment,
  take_query_plain,
}

-- The tests of a scheme do not look at the case of its letters.
is_alpha-lower : (c : ℕ) → is_alpha (ascii_lower c) ≡ is_alpha c
unfolding is_alpha ascii_lower
is_alpha-lower c = ground arith

is_scheme_char-lower : (c : ℕ) → is_scheme_char (ascii_lower c) ≡ is_scheme_char c
unfolding is_scheme_char is_alpha is_digit ascii_lower
is_scheme_char-lower c = ground arith

all_scheme_chars-lower :
    (text : Bytes) → all_scheme_chars (map ascii_lower text) ≡ all_scheme_chars text
unfolding all_scheme_chars
all_scheme_chars-lower [] = refl
all_scheme_chars-lower (c ∷ cs) = rw (is_scheme_char-lower c, all_scheme_chars-lower cs) refl

pub is_scheme-lower : (text : Bytes) → is_scheme (map ascii_lower text) ≡ is_scheme text
unfolding is_scheme
is_scheme-lower [] = refl
is_scheme-lower (c ∷ cs) = rw (is_alpha-lower c, all_scheme_chars-lower (c ∷ cs)) refl

colon_free : (c : ℕ) → is_scheme_char c ≡ true → (c == 0x3A) ≡ false
unfolding is_scheme_char is_alpha is_digit
colon_free c h = ground arith

pub scheme_chars-Lacks : (text : Bytes) → all_scheme_chars text ≡ true → Lacks 0x3A text
unfolding all_scheme_chars
scheme_chars-Lacks [] h = tt
scheme_chars-Lacks (c ∷ cs) h = (colon_free c (ground arith), scheme_chars-Lacks cs (ground arith))

pub is_scheme-chars :
    (text : Bytes)
    → is_scheme text ≡ true
    → (all_scheme_chars text ≡ true) × ((length text == 0) ≡ false)
unfolding is_scheme
is_scheme-chars [] h = cc
is_scheme-chars (c ∷ cs) h = (ground arith, ground arith)

user-Undelimited :
    (user : Option (Bytes × Option Bytes)) → IsPlainUser user → Undelimited (user_text user)
user-Undelimited none p = tt
user-Undelimited (some (name, none)) p =
    Undelimited-append (name ++ []) (0x40 ∷ []) (Undelimited-append name [] p.0 tt) (refl, tt)
user-Undelimited (some (name, some password)) p =
    Undelimited-append (name ++ 0x3A ∷ password) (0x40 ∷ [])
      (Undelimited-append name (0x3A ∷ password) p.0 (refl, p.2)) (refl, tt)

port-Undelimited : (port : Option Bytes) → IsPlainPort port → Undelimited (marked 0x3A port)
port-Undelimited none p = tt
port-Undelimited (some text) p = (refl, (digits_plain text p.0).0)

port-Lacks : (port : Option Bytes) → IsPlainPort port → Lacks 0x40 (marked 0x3A port)
port-Lacks none p = tt
port-Lacks (some text) p = (refl, (digits_plain text p.0).2)

authority-Undelimited : (p : Parts) → IsPlain p → Undelimited (authority_text p)
authority-Undelimited p h =
    Undelimited-append (user_text p.user) (p.hostname ++ marked 0x3A p.port)
      (user-Undelimited p.user h.user)
      (Undelimited-append p.hostname (marked 0x3A p.port) h.host_marks
        (port-Undelimited p.port h.port))

host-Lacks : (p : Parts) → IsPlain p → Lacks 0x40 (p.hostname ++ marked 0x3A p.port)
host-Lacks p h = Lacks-append 0x40 p.hostname _ h.host_at (port-Lacks p.port h.port)

marks_start :
    (query fragment : Option Bytes) → StartsDelimiter (marked 0x3F query ++ marked 0x23 fragment)
marks_start none none = tt
marks_start none (some fragment) = refl
marks_start (some query) fragment = refl

path_start :
    (path rest : Bytes)
    → starts_path path ≡ true
    → StartsDelimiter rest
    → StartsDelimiter (path ++ rest)
path_start [] rest p q = q
path_start (c ∷ cs) rest p q = ground arith

tail_start : (p : Parts) → IsPlain p → StartsDelimiter (tail_text p)
tail_start p h = path_start p.path _ h.path_start (marks_start p.query p.fragment)

-- The URL when its user information was read.
abbrev with_user : Parts → Url
with_user p = record (named (print p) (map ascii_lower p.scheme)) {
  username = name_of p.user;
  password = password_of p.user;
}

take_path_plain :
    (u : Url) (p : Parts)
    → IsPlain p
    → u.query ≡ []
    → take_path u (tail_text p) ≡ record u {
      path = or_root p.path;
      file = or_root (tail_text p);
      query = text_of p.query;
      valid = true;
    }
unfolding take_path
take_path_plain u p h e =
    let front = p.path ++ marked 0x3F p.query in
    let cut : text_before 0x23 (tail_text p) ≡ front =
      ap (text_before 0x23)
        (sym (append_assoc p.path (marked 0x3F p.query) (marked 0x23 p.fragment)))
      ∙ before_fragment front p.fragment (Lacks-append 0x23 p.path _ h.path_fragment h.query) in
    ap (λ (v : Url). record v { file = or_root (tail_text p); valid = true })
      (ap (take_query u) cut ∙ take_query_plain u p.path p.query h.path_query e)

module _ (inet_pton : Version → Bytes → Option Bytes) where
  -- A text with a scheme and two slashes goes on with its authority.
  parse_scheme :
      (scheme rest : Bytes)
      → is_scheme scheme ≡ true
      → parse_url inet_pton (scheme ++ 0x3A ∷ 0x2F ∷ 0x2F ∷ rest)
        ≡ parse_hierarchy inet_pton
            (named (scheme ++ 0x3A ∷ 0x2F ∷ 0x2F ∷ rest) (map ascii_lower scheme))
            rest
  unfolding parse_url
  parse_scheme scheme rest h =
      let text = 0x2F ∷ 0x2F ∷ rest in
      let chars = is_scheme-chars scheme h in
      rw
        (
          index_of_after 0x3A scheme text (scheme_chars-Lacks scheme chars.0),
          parse_url,
          chars.1,
          take-append_length scheme (0x3A ∷ text),
          is_scheme-lower scheme,
          h,
          drop_next scheme 0x3A text,
        )
        refl

  set_host_lem :
      (u : Url) (name : Bytes)
      → set_host inet_pton (record u { host = no_address; hostname = name })
        ≡ record u { host = host_of inet_pton name; hostname = name }
  unfolding set_host
  set_host_lem u [] = refl
  set_host_lem u (c ∷ cs) = ground arith

  -- From the host on.
  finish_parse_plain :
      (p : Parts)
      → IsPlain p
      → finish_parse inet_pton
          (going (record (with_user p) { hostname = p.hostname }) p.port)
          (tail_text p)
        ≡ members inet_pton p
  unfolding finish_parse
  finish_parse_plain p h =
      let u = record (with_user p) { hostname = p.hostname } in
      rw (take_port_plain u p.port h.port refl) (
        ap (λ (v : Url). take_path v (tail_text p))
          (set_host_lem (record u { port = port_number p.port }) p.hostname)
        ∙ take_path_plain
            (record u { port = port_number p.port; host = host_of inet_pton p.hostname }) p h refl)

  -- `parse` on a text that is put together from a scheme, maybe user information, a host that is a
  -- name or an IPv4 address or empty, maybe a port from 1 to 65535, a path, maybe a query and maybe
  -- a fragment, none of which has a byte in it that would end it, gives a valid URL with these
  -- members: the scheme in lower case, the port as a number, an empty path as a slash, and the
  -- request target with everything behind the authority.
  pub parse_url-print :
      (p : Parts) → IsPlain p → parse_url inet_pton (print p) ≡ members inet_pton p
  unfolding parse_hierarchy
  parse_url-print p h =
      let text = print p in
      let authority = authority_text p in
      let u = named text (map ascii_lower p.scheme) in
      parse_scheme p.scheme (authority ++ tail_text p) h.scheme
      ∙ rw
          (
            authority_end_lem authority (tail_text p) (authority-Undelimited p h) (tail_start p h),
            take-append_length authority (tail_text p),
            drop-append_length authority (tail_text p),
            take_userinfo_plain text (map ascii_lower p.scheme) p.user
                (p.hostname ++ marked 0x3A p.port) h.user (host-Lacks p h),
            take_host_plain (with_user p) p.hostname p.port h.host_colon h.host_name h.port,
          )
          (finish_parse_plain p h)
