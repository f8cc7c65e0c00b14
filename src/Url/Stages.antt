-- ===== src/Url/Stages.antt =====
-- src/io/net/url.cpp: what the stages of `parse` take off the text of the parts.
use samurai.Prelude.{
  ℕ, ◌≡◌, refl, ap, true, false, Option, some, none, [], ◌∷◌, ◌++◌, append-nil, append_assoc, arith,
  take-append_length, Bytes,
}
use samurai.Text.Numbers.{is_digit, all_digits}
use samurai.Text.Fields.{Lacks}
use samurai.Url.Parse.{
  Url, cleared, take_userinfo, going, take_name, take_host, take_port, text_before, or_root,
  take_query,
}
use samurai.Url.Find.{
  index_of_after, index_of_nowhere, last_index_of_nowhere, last_index_of_after, drop_next,
}
use samurai.Url.Parts.{
  marked, user_text, Undelimited, IsPlainUser, IsPlainPort, starts_literal, port_number, text_of,
  name_of, password_of,
}

-- Digits are none of the marks.
pub digits_plain :
    (text : Bytes) → all_digits text ≡ true → Undelimited text × Lacks 0x3A text × Lacks 0x40 text
unfolding all_digits is_digit
digits_plain [] h = (tt, tt, tt)
digits_plain (c ∷ cs) h =
    let rest = digits_plain cs (ground arith) in
    ((ground arith, rest.0), (ground arith, rest.1), (ground arith, rest.2))

-- The URL while its authority is read.
abbrev pub named : Bytes → Bytes → Url
named text scheme = record (cleared text) { scheme = scheme }

pub take_userinfo_none :
    (u : Url) (rest : Bytes) → Lacks 0x40 rest → take_userinfo u rest ≡ (u, rest)
unfolding take_userinfo
take_userinfo_none u rest l = rw (last_index_of_nowhere 0x40 rest l, take_userinfo) refl

pub take_userinfo_name :
    (u : Url) (name rest : Bytes)
    → Lacks 0x40 rest
    → Lacks 0x3A name
    → take_userinfo u (name ++ 0x40 ∷ rest) ≡ (record u { username = name }, rest)
unfolding take_userinfo
take_userinfo_name u name rest l m =
    rw
      (
        last_index_of_after 0x40 name rest l,
        take_userinfo,
        take-append_length name (0x40 ∷ rest),
        index_of_nowhere 0x3A name m,
        take-append_length name (0x40 ∷ rest),
        drop_next name 0x40 rest,
      )
      refl

pub take_userinfo_both :
    (u : Url) (name password rest : Bytes)
    → Lacks 0x40 rest
    → Lacks 0x3A name
    → take_userinfo u ((name ++ 0x3A ∷ password) ++ 0x40 ∷ rest)
      ≡ (record u { username = name; password = password }, rest)
unfolding take_userinfo
take_userinfo_both u name password rest l m =
    let info = name ++ 0x3A ∷ password in
    rw
      (
        last_index_of_after 0x40 info rest l,
        take_userinfo,
        take-append_length info (0x40 ∷ rest),
        index_of_after 0x3A name password m,
        take-append_length info (0x40 ∷ rest),
        drop_next info 0x40 rest,
        take-append_length name (0x3A ∷ password),
        drop_next name 0x3A password,
      )
      refl

-- The user information is taken off.
pub take_userinfo_plain :
    (text scheme : Bytes) (user : Option (Bytes × Option Bytes)) (rest : Bytes)
    → IsPlainUser user
    → Lacks 0x40 rest
    → take_userinfo (named text scheme) (user_text user ++ rest)
      ≡ (record (named text scheme) { username = name_of user; password = password_of user }, rest)
take_userinfo_plain text scheme none rest p l = take_userinfo_none (named text scheme) rest l
take_userinfo_plain text scheme (some (name, none)) rest p l =
    rw (append-nil name, append_assoc name (0x40 ∷ []) rest)
      (take_userinfo_name (named text scheme) name rest l p.1)
take_userinfo_plain text scheme (some (name, some password)) rest p l =
    rw (append_assoc (name ++ 0x3A ∷ password) (0x40 ∷ []) rest)
      (take_userinfo_both (named text scheme) name password rest l p.1)

pub take_name_plain :
    (u : Url) (hostname : Bytes) (port : Option Bytes)
    → Lacks 0x3A hostname
    → IsPlainPort port
    → take_name u (hostname ++ marked 0x3A port) ≡ going (record u { hostname = hostname }) port
unfolding take_name
take_name_plain u hostname none l p =
    rw (append-nil hostname, index_of_nowhere 0x3A hostname l, take_name, append-nil hostname) refl
take_name_plain u hostname (some text) l p =
    rw
      (
        index_of_after 0x3A hostname text l,
        take_name,
        drop_next hostname 0x3A text,
        index_of_nowhere 0x3A text (digits_plain text p.0).1,
        take-append_length hostname (0x3A ∷ text),
        drop_next hostname 0x3A text,
      )
      refl

pub take_host_plain :
    (u : Url) (hostname : Bytes) (port : Option Bytes)
    → Lacks 0x3A hostname
    → starts_literal hostname ≡ false
    → IsPlainPort port
    → take_host u (hostname ++ marked 0x3A port) ≡ going (record u { hostname = hostname }) port
unfolding take_host
take_host_plain u [] none l s p = take_name_plain u [] none l p
take_host_plain u [] (some text) l s p = take_name_plain u [] (some text) l p
take_host_plain u (c ∷ cs) port l s p = rw s (take_name_plain u (c ∷ cs) port l p)

pub take_port_plain :
    (u : Url) (port : Option Bytes)
    → IsPlainPort port
    → u.port ≡ 0
    → take_port u port ≡ (record u { port = port_number port }, true)
unfolding take_port
take_port_plain u none p e = ap (λ (n : ℕ). (record u { port = n }, true)) e
take_port_plain u (some text) p e = rw p.1 refl

-- The text before a mark.
pub before_marked : (c : ℕ) (xs ys : Bytes) → Lacks c xs → text_before c (xs ++ c ∷ ys) ≡ xs
unfolding text_before
before_marked c xs ys l =
    rw (index_of_after c xs ys l, text_before) (take-append_length xs (c ∷ ys))

pub before_end : (c : ℕ) (xs : Bytes) → Lacks c xs → text_before c xs ≡ xs
unfolding text_before
before_end c xs l = rw (index_of_nowhere c xs l, text_before) refl

pub before_fragment :
    (text : Bytes) (fragment : Option Bytes)
    → Lacks 0x23 text
    → text_before 0x23 (text ++ marked 0x23 fragment) ≡ text
before_fragment text none l = rw (append-nil text) (before_end 0x23 text l)
before_fragment text (some fragment) l = before_marked 0x23 text fragment l

pub take_query_plain :
    (u : Url) (path : Bytes) (query : Option Bytes)
    → Lacks 0x3F path
    → u.query ≡ []
    → take_query u (path ++ marked 0x3F query)
      ≡ record u { path = or_root path; query = text_of query }
unfolding take_query
take_query_plain u path none l e =
    rw (append-nil path, index_of_nowhere 0x3F path l, take_query, append-nil path)
      (ap (λ (q : Bytes). record u { path = or_root path; query = q }) e)
take_query_plain u path (some query) l e =
    rw
      (
        index_of_after 0x3F path query l,
        take_query,
        take-append_length path (0x3F ∷ query),
        drop_next path 0x3F query,
      )
      refl
