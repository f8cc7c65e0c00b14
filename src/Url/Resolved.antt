-- ===== src/Url/Resolved.antt =====
-- src/io/net/url.cpp: what `resolve` makes of a reference to a path.
use samurai.Prelude.{
  ℕ, ◌≡◌, refl, sym, ap, ◌∙◌, Bool, true, false, Option, none, some, [], ◌∷◌, ◌++◌, map, append-nil,
  append_assoc, arith, if◌then◌else◌, length, take-append_length, ◌==◌, Bytes,
}
use samurai.InetAddress.{Version}
use samurai.Text.{ascii_lower}
use samurai.Text.Fields.{Lacks}
use samurai.Url.Parse.{Url, or_root, text_before, parse_url}
use samurai.Url.Paths.{is_absolute, remove_dot_segments, merge_paths}
use samurai.Url.Resolve.{
  to_string, userinfo_text, host_text, base_authority, cut_query, split_query, query_text,
  recompose, relative_path, target_text, resolve,
}
use samurai.Url.Find.{index_of_after, index_of_nowhere, Lacks-append, drop_next}
use samurai.Url.Marks.{directory}
use samurai.Url.Parts.{
  Parts, marked, user_text, authority_text, print, IsPlain, IsPlainPort, port_number, name_of,
  password_of, members,
}
use samurai.Url.Printed.{parse_url-print}
use samurai.Url.Stages.{before_fragment}
use samurai.Url.Target.{
  reference_text, IsReference, kept_user, kept_port, merged, target, merge_paths_lem,
  target-IsPlain,
}

some_bytes : (c : ℕ) (cs : Bytes) → (length (c ∷ cs) == 0) ≡ false
some_bytes c cs = ground arith

userinfo_text_lem :
    (u : Url) (user : Option (Bytes × Option Bytes))
    → u.username ≡ name_of user
    → u.password ≡ password_of user
    → userinfo_text u ≡ user_text (kept_user user)
unfolding userinfo_text
userinfo_text_lem u none e f = rw (e, f) refl
userinfo_text_lem u (some ([], none)) e f = rw (e, f) refl
userinfo_text_lem u (some (c ∷ cs, none)) e f = rw (e, f, some_bytes c cs) refl
userinfo_text_lem u (some ([], some [])) e f = rw (e, f) refl
userinfo_text_lem u (some (c ∷ cs, some [])) e f = rw (e, f, some_bytes c cs) refl
userinfo_text_lem u (some ([], some (d ∷ ds))) e f = rw (e, f, some_bytes d ds) refl
userinfo_text_lem u (some (c ∷ cs, some (d ∷ ds))) e f =
    rw (e, f, some_bytes c cs, some_bytes d ds) refl

port_text_lem :
    (port : Option Bytes)
    → IsPlainPort port
    → (if port_number port == 0 then [] else 0x3A ∷ to_string (port_number port))
      ≡ marked 0x3A (kept_port port)
port_text_lem none p = refl
port_text_lem (some text) p = rw p.1 refl

cut_query_lem :
    (path : Bytes) (query : Option Bytes)
    → Lacks 0x3F path
    → cut_query (path ++ marked 0x3F query) ≡ (path, query)
unfolding cut_query
cut_query_lem path none l =
    rw (append-nil path, index_of_nowhere 0x3F path l, cut_query, append-nil path) refl
cut_query_lem path (some query) l =
    rw
      (
        index_of_after 0x3F path query l,
        cut_query,
        take-append_length path (0x3F ∷ query),
        drop_next path 0x3F query,
      )
      refl

pub split_query_lem :
    (path : Bytes) (query fragment : Option Bytes)
    → IsReference path query fragment
    → split_query (reference_text path query fragment) ≡ (path, query)
unfolding split_query
split_query_lem path query fragment r =
    ap cut_query (
      ap (text_before 0x23) (sym (append_assoc path (marked 0x3F query) (marked 0x23 fragment)))
      ∙ before_fragment (path ++ marked 0x3F query) fragment
          (Lacks-append 0x23 path _ r.path_fragment r.query_fragment))
    ∙ cut_query_lem path query r.path_query

host_text_lem : (u : Url) → Lacks 0x3A u.hostname → host_text u ≡ u.hostname
unfolding host_text
host_text_lem u l = rw (index_of_nowhere 0x3A u.hostname l, host_text) refl

removed_if :
    (b : Bool) (xs ys zs : Bytes)
    → ys ≡ zs
    → (if b then remove_dot_segments xs else remove_dot_segments ys)
      ≡ remove_dot_segments (if b then xs else zs)
removed_if true xs ys zs e = refl
removed_if false xs ys zs e = ap remove_dot_segments e

query_tail : (query : Option Bytes) → query_text query ≡ marked 0x3F query ++ []
query_tail none = refl
query_tail (some query) = ap (◌∷◌ 0x3F) (sym (append-nil query))

module _ (inet_pton : Version → Bytes → Option Bytes) where
  base_authority_lem :
      (p : Parts) (path : Bytes) (query : Option Bytes)
      → IsPlain p
      → base_authority (members inet_pton p) ≡ authority_text (target p path query)
  unfolding base_authority
  base_authority_lem p path query h =
      ap (λ (t : Bytes). t ++ (host_text u ++ port)) (userinfo_text_lem u p.user refl refl)
      ∙ (ap (λ (t : Bytes). user_text (kept_user p.user) ++ (t ++ port))
            (host_text_lem u h.host_colon)
          ∙ ap (λ (t : Bytes). user_text (kept_user p.user) ++ (p.hostname ++ t))
              (port_text_lem p.port h.port))
    where
      u : Url
      u = members inet_pton p

      port : Bytes
      port = if u.port == 0 then [] else 0x3A ∷ to_string u.port

  target_text_lem :
      (p : Parts) (path : Bytes) (query fragment : Option Bytes)
      → IsPlain p
      → (length p.hostname == 0) ≡ false
      → IsReference path query fragment
      → target_text (members inet_pton p) (reference_text path query fragment)
        ≡ print (target p path query)
  unfolding target_text recompose relative_path
  target_text_lem p path query fragment h host r =
      rw
        (
          split_query_lem path query fragment r,
          r.no_network,
          r.some_path,
          host,
          base_authority_lem p path query h,
        )
        (ap
          (λ (t : Bytes).
            map ascii_lower p.scheme
            ++ 0x3A ∷ 0x2F ∷ 0x2F ∷ (authority_text (target p path query) ++ t))
          (ap (λ (t : Bytes). t ++ query_text query)
              (removed_if (is_absolute path) path (merge_paths (or_root p.path) true path)
                (directory (or_root p.path) ++ path) (merge_paths_lem p.path path h.path_start))
            ∙ ap (λ (t : Bytes). remove_dot_segments (merged p.path path) ++ t) (query_tail query)))

  -- When `parse` gets the text of plain parts with a host that is a name or an IPv4 address, and
  -- `resolve` a reference with a path, and maybe a query and a fragment, that names no scheme and
  -- no authority: the result has the members of the URL with the scheme, the user information, the
  -- host and the port of the base, of which an empty password, an empty user name without a
  -- password and leading zeros of the port are left out, with the path of the reference, put behind
  -- the last slash of that of the base unless it starts with a slash, and with the dot segments
  -- taken out, with the query of the reference, and without a fragment.
  pub resolve-parse_url :
      (p : Parts) (path : Bytes) (query fragment : Option Bytes)
      → IsPlain p
      → (length p.hostname == 0) ≡ false
      → IsReference path query fragment
      → resolve inet_pton (parse_url inet_pton (print p)) (reference_text path query fragment)
        ≡ members inet_pton (target p path query)
  unfolding resolve
  resolve-parse_url p path query fragment h host r =
      rw
        (parse_url-print inet_pton p h, r.no_scheme, target_text_lem p path query fragment h host r)
        (parse_url-print inet_pton (target p path query) (target-IsPlain p path query fragment h r))
