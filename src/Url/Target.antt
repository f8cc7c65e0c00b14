-- ===== src/Url/Target.antt =====
-- src/io/net/url.cpp: the parts of the target of a reference to a path.
use samurai.Prelude.{
  ℕ, ◌≡◌, refl, ap, ◌∙◌, true, false, Option, none, some, [], ◌∷◌, ◌++◌, map, arith, if◌then◌else◌,
  if_cases, length, take, ◌==◌, Bytes, same_bytes,
}
use samurai.Text.{ascii_lower}
use samurai.Text.Numbers.{to_uint16}
use samurai.Text.Fields.{Lacks}
use samurai.Url.Parse.{or_root}
use samurai.Url.Paths.{is_absolute, remove_dot_segments, merge_paths}
use samurai.Url.Resolve.{to_string, has_scheme}
use samurai.Url.Find.{Lacks-append}
use samurai.Url.Ports.{all_digits-to_string, to_uint16-to_string, to_uint16-le}
use samurai.Url.Marks.{
  directory, merge_paths-directory, directory-Lacks, directory_start, remove_dot_segments-Lacks,
  remove_dot_segments_start,
}
use samurai.Url.Parts.{Parts, marked, IsPlain, IsPlainUser, IsPlainPort, starts_path}
use samurai.Url.Printed.{is_scheme-lower}

abbrev pub reference_text : Bytes → Option Bytes → Option Bytes → Bytes
reference_text path query fragment = path ++ (marked 0x3F query ++ marked 0x23 fragment)

-- A reference to a path: it is not empty and names no authority and no scheme.
pub record IsReference (path : Bytes) (query fragment : Option Bytes) : Type 0 where
  pub some_path : (length path == 0) ≡ false
  pub no_network : same_bytes (take 2 path) (0x2F ∷ 0x2F ∷ []) ≡ false
  pub path_query : Lacks 0x3F path
  pub path_fragment : Lacks 0x23 path
  pub query_fragment : Lacks 0x23 (marked 0x3F query)
  pub no_scheme : has_scheme (reference_text path query fragment) ≡ false

-- An empty user name and an empty password are left out.
abbrev pub kept_user : Option (Bytes × Option Bytes) → Option (Bytes × Option Bytes)
kept_user none = none
kept_user (some (name, some (c ∷ cs))) = some (name, some (c ∷ cs))
kept_user (some ([], _)) = none
kept_user (some (c ∷ cs, _)) = some (c ∷ cs, none)

-- The port in its shortest form.
abbrev pub kept_port : Option Bytes → Option Bytes
kept_port none = none
kept_port (some text) = some (to_string (to_uint16 text))

-- The path behind the last slash of the base is replaced.
abbrev pub merged : Bytes → Bytes → Bytes
merged base path = if is_absolute path then path else directory (or_root base) ++ path

-- The parts of the target.
abbrev pub target : Parts → Bytes → Option Bytes → Parts
target p path query = record {
  scheme = map ascii_lower p.scheme;
  user = kept_user p.user;
  hostname = p.hostname;
  port = kept_port p.port;
  path = remove_dot_segments (merged p.path path);
  query = query;
  fragment = none;
}

pub kept_user-IsPlainUser :
    (user : Option (Bytes × Option Bytes)) → IsPlainUser user → IsPlainUser (kept_user user)
kept_user-IsPlainUser none p = tt
kept_user-IsPlainUser (some (name, some (c ∷ cs))) p = p
kept_user-IsPlainUser (some ([], none)) p = tt
kept_user-IsPlainUser (some ([], some [])) p = tt
kept_user-IsPlainUser (some (c ∷ cs, none)) p = p
kept_user-IsPlainUser (some (c ∷ cs, some [])) p = (p.0, p.1)

pub kept_port-IsPlainPort : (port : Option Bytes) → IsPlainPort port → IsPlainPort (kept_port port)
kept_port-IsPlainPort none p = tt
kept_port-IsPlainPort (some text) p = (
  all_digits-to_string (to_uint16 text),
  rw (to_uint16-to_string (to_uint16 text) (to_uint16-le text)) p.1,
)

pub or_root_start :
    (path : Bytes) → starts_path path ≡ true → (cs : Bytes) × (or_root path ≡ 0x2F ∷ cs)
or_root_start [] h = ([], refl)
or_root_start (c ∷ cs) h = (cs, ap (λ (t : ℕ). t ∷ cs) (ground arith))

pub or_root-Lacks :
    (c : ℕ) (path : Bytes) → (0x2F == c) ≡ false → Lacks c path → Lacks c (or_root path)
or_root-Lacks c [] e l = (e, tt)
or_root-Lacks c (x ∷ xs) e l = l

pub merged-Lacks :
    (c : ℕ) (base path : Bytes)
    → (0x2F == c) ≡ false
    → Lacks c base
    → Lacks c path
    → Lacks c (merged base path)
merged-Lacks c base path e l m =
    if_cases (Lacks c) (is_absolute path) (λ _. m)
      (λ _.
        Lacks-append c (directory (or_root base)) path
          (directory-Lacks c (or_root base) (or_root-Lacks c base e l)) m)

pub merged_start :
    (base path : Bytes) → starts_path base ≡ true → is_absolute (merged base path) ≡ true
merged_start base path h =
    if_cases (λ (t : Bytes). is_absolute t ≡ true) (is_absolute path) (λ e. e)
      (λ _. let root = or_root_start base h in rw root.1 (directory_start root.0 path))

pub merge_paths_lem :
    (base path : Bytes)
    → starts_path base ≡ true
    → merge_paths (or_root base) true path ≡ directory (or_root base) ++ path
merge_paths_lem base path h =
    let root = or_root_start base h in rw root.1 (merge_paths-directory 0x2F root.0 path)

pub absolute_start : (path : Bytes) → is_absolute path ≡ true → starts_path path ≡ true
absolute_start [] h = cc
absolute_start (c ∷ cs) h = h

pub target-IsPlain :
    (p : Parts) (path : Bytes) (query fragment : Option Bytes)
    → IsPlain p
    → IsReference path query fragment
    → IsPlain (target p path query)
target-IsPlain p path query fragment h r = record {
  scheme = is_scheme-lower p.scheme ∙ h.scheme;
  user = kept_user-IsPlainUser p.user h.user;
  host_marks = h.host_marks;
  host_colon = h.host_colon;
  host_at = h.host_at;
  host_name = h.host_name;
  port = kept_port-IsPlainPort p.port h.port;
  path_start =
      absolute_start (remove_dot_segments (merged p.path path))
        (remove_dot_segments_start (merged p.path path) (merged_start p.path path h.path_start));
  path_query =
      remove_dot_segments-Lacks 0x3F refl _
        (merged-Lacks 0x3F p.path path refl h.path_query r.path_query);
  path_fragment =
      remove_dot_segments-Lacks 0x23 refl _
        (merged-Lacks 0x23 p.path path refl h.path_fragment r.path_fragment);
  query = r.query_fragment;
}
