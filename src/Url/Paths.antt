-- ===== src/Url/Paths.antt =====
-- src/io/net/url.cpp: remove_dot_segments and merge_paths.
use samurai.Prelude.{
  ℕ, zero, suc, ◌+◌, Bool, true, false, not, ◌&&◌, none, some, List, [], ◌∷◌, ◌++◌, if◌then◌else◌,
  length, take, drop, ◌==◌, Bytes, index_of, last_index_of, same_bytes,
}
use mathlib.Core.List.{reverse}

-- The vector of segments, with its last one first, and trailing_slash.
pub record Segments : Type 0 where
  pub out : List Bytes
  pub trailing_slash : Bool

-- pop_back, unless the vector is empty.
abbrev pub pop_segment : List Bytes → List Bytes
pop_segment [] = []
pop_segment (s ∷ out) = out

-- What the loop does with a segment.
unfoldable pub take_segment : Segments → Bytes → Segments
take_segment d segment =
    if same_bytes segment (0x2E ∷ [])
    then record d { trailing_slash = true }
    else if same_bytes segment (0x2E ∷ 0x2E ∷ [])
    then record { out = pop_segment d.out; trailing_slash = true }
    else if length segment == 0
    then record d { trailing_slash = true }
    else record { out = segment ∷ d.out; trailing_slash = false }

-- The loop, on the text from `pos`. Each round but the last takes a slash.
unfoldable pub segment_loop : ℕ → Bytes → Segments → Segments
segment_loop zero text d = d
segment_loop (suc fuel) text d = elim (index_of 0x2F text) [
  | none ↦ take_segment d text
  | some slash ↦ segment_loop fuel (drop (suc slash) text) (take_segment d (take slash text))
]

-- The segments with slashes between them.
unfoldable pub join_segments : List Bytes → Bytes
join_segments [] = []
join_segments (s ∷ []) = s
join_segments (s ∷ t ∷ out) = s ++ 0x2F ∷ join_segments (t ∷ out)

abbrev pub is_absolute : Bytes → Bool
is_absolute [] = false
is_absolute (c ∷ cs) = c == 0x2F

abbrev pub is_empty : List Bytes → Bool
is_empty [] = true
is_empty (s ∷ out) = false

unfoldable pub assemble : Bool → Segments → Bytes
assemble absolute d =
    (if absolute then 0x2F ∷ [] else [])
    ++ (join_segments (reverse d.out)
        ++ (if d.trailing_slash && not (absolute && is_empty d.out) then 0x2F ∷ [] else []))

abbrev pub no_segments : Segments
no_segments = record { out = []; trailing_slash = false }

unfoldable pub remove_dot_segments : Bytes → Bytes
remove_dot_segments path =
    let absolute = is_absolute path in
    assemble absolute
      (segment_loop (length path + 1) (if absolute then drop 1 path else path) no_segments)

unfoldable pub merge_paths : Bytes → Bool → Bytes → Bytes
merge_paths base_path base_has_authority reference =
    if base_has_authority && length base_path == 0
    then 0x2F ∷ reference
    else elim (last_index_of 0x2F base_path) [
      | none ↦ reference
      | some slash ↦ take (slash + 1) base_path ++ reference
    ]
