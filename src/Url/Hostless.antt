-- ===== src/Url/Hostless.antt =====
-- src/io/net/url.cpp: what `resolve` makes of a base with no host, as in "file:///a".
use samurai.Prelude.{
  ◌≡◌, refl, ap, ◌∙◌, Bool, true, false, not, Option, none, some, List, [], ◌∷◌, ◌++◌, map,
  if_cases, length, take, take-append_length, ◌==◌, Bytes, same_bytes,
}
use samurai.InetAddress.{Version}
use samurai.Text.{ascii_lower}
use samurai.Url.Parse.{is_scheme, or_root, parse_url}
use samurai.Url.Paths.{is_absolute, is_empty, join_segments, remove_dot_segments, merge_paths}
use samurai.Url.Resolve.{query_text, recompose, relative_path, target_text, resolve}
use samurai.Url.Find.{index_of_after, drop_next}
use samurai.Url.Segments.{AllProper}
use samurai.Url.Clean.{IsClean, path_text, remove_dot_segments-IsClean}
use samurai.Url.Marks.{merge_paths_start}
use samurai.Url.Parts.{Parts, print, IsPlain, starts_path, members}
use samurai.Url.Printed.{is_scheme-lower, is_scheme-chars, scheme_chars-Lacks, parse_url-print}
use samurai.Url.Target.{IsReference, reference_text, or_root_start}
use samurai.Url.Resolved.{split_query_lem}

-- A text without slashes behind the colon of the scheme is no URL.
no_slashes :
    (inet_pton : Version → Bytes → Option Bytes) (scheme rest : Bytes)
    → is_scheme scheme ≡ true
    → same_bytes (take 2 rest) (0x2F ∷ 0x2F ∷ []) ≡ false
    → (parse_url inet_pton (scheme ++ 0x3A ∷ rest)).valid ≡ false
unfolding parse_url
no_slashes inet_pton scheme rest h other =
    let chars = is_scheme-chars scheme h in
    rw
      (
        index_of_after 0x3A scheme rest (scheme_chars-Lacks scheme chars.0),
        parse_url,
        chars.1,
        take-append_length scheme (0x3A ∷ rest),
        is_scheme-lower scheme,
        h,
        drop_next scheme 0x3A rest,
        other,
      )
      refl

-- A rooted clean path starts with one slash, and a query adds none.
one_slash :
    (segments : List Bytes) (slash : Bool) (query : Option Bytes)
    → AllProper segments
    → (is_empty segments ≡ true → slash ≡ false)
    → same_bytes (take 2 (path_text true segments slash ++ query_text query)) (0x2F ∷ 0x2F ∷ [])
      ≡ false
unfolding join_segments
one_slash [] slash none p e = rw (e refl) refl
one_slash [] slash (some query) p e = rw (e refl) refl
one_slash ([] ∷ more) slash query p e = let b : true ≡ false = p.0.some_byte in cc
one_slash ((c ∷ cs) ∷ []) slash query p e = rw p.0.no_slash.0 refl
one_slash ((c ∷ cs) ∷ t ∷ more) slash query p e = rw p.0.no_slash.0 refl

one_slash_clean :
    (path : Bytes) (query : Option Bytes)
    → IsClean true path
    → same_bytes (take 2 (path ++ query_text query)) (0x2F ∷ 0x2F ∷ []) ≡ false
one_slash_clean path query c =
    ap (λ (t : Bytes). same_bytes (take 2 (t ++ query_text query)) (0x2F ∷ 0x2F ∷ [])) c.form
    ∙ one_slash c.segments c.slash query c.proper c.root

base_start :
    (base path : Bytes) (authority : Bool)
    → starts_path base ≡ true
    → is_absolute (merge_paths (or_root base) authority path) ≡ true
base_start base path authority h =
    let root = or_root_start base h in rw root.1 (merge_paths_start root.0 path authority)

removed-IsClean : (path : Bytes) → is_absolute path ≡ true → IsClean true (remove_dot_segments path)
removed-IsClean path h = rw h at (remove_dot_segments-IsClean path)

module _ (inet_pton : Version → Bytes → Option Bytes) where
  relative_path-IsClean :
      (p : Parts) (path : Bytes)
      → IsPlain p
      → IsClean true (relative_path (members inet_pton p) path)
  unfolding relative_path
  relative_path-IsClean p path h =
      if_cases (IsClean true) (is_absolute path) (removed-IsClean path) (λ _.
        removed-IsClean (merge_paths (or_root p.path) (not (length p.hostname == 0)) path)
          (base_start p.path path (not (length p.hostname == 0)) h.path_start))

  -- When `parse` gets the text of plain parts with an empty host, and `resolve` a reference with a
  -- path that names no scheme and no authority, the result is not valid.
  pub resolve_hostless :
      (p : Parts) (path : Bytes) (query fragment : Option Bytes)
      → IsPlain p
      → (length p.hostname == 0) ≡ true
      → IsReference path query fragment
      → (resolve inet_pton
          (parse_url inet_pton (print p))
          (reference_text path query fragment)).valid
        ≡ false
  unfolding resolve target_text recompose
  resolve_hostless p path query fragment h host r =
      rw
        (
          parse_url-print inet_pton p h,
          r.no_scheme,
          split_query_lem path query fragment r,
          r.no_network,
          r.some_path,
          host,
        )
        (no_slashes inet_pton (map ascii_lower p.scheme)
          (relative_path (members inet_pton p) path ++ query_text query)
          (is_scheme-lower p.scheme ∙ h.scheme)
          (one_slash_clean _ query (relative_path-IsClean p path h)))
