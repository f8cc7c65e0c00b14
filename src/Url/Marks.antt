-- ===== src/Url/Marks.antt =====
-- src/io/net/url.cpp: remove_dot_segments and merge_paths bring in no byte but the slash.
use samurai.Prelude.{
  ℕ, zero, suc, ◌+◌, none, some, ◌≡◌, refl, inl, inr, Bool, true, false, ◌&&◌, some, List, [], ◌∷◌,
  ◌++◌, arith, Bool-cases, Option-cases, if◌then◌else◌, length, take, drop, ◌==◌, Bytes, index_of,
  last_index_of, same_bytes,
}
use mathlib.Core.List.{reverse, reverse-append}
use samurai.Text.Fields.{Lacks, AllLack}
use samurai.Url.Paths.{
  Segments, pop_segment, take_segment, segment_loop, join_segments, is_absolute, assemble,
  no_segments, remove_dot_segments, merge_paths,
}
use samurai.Url.Clean.{remove_dot_segments-IsClean}
use samurai.Url.Find.{Lacks-append}

pub Lacks-take : (c n : ℕ) (xs : Bytes) → Lacks c xs → Lacks c (take n xs)
Lacks-take c zero xs l = tt
Lacks-take c (suc n) [] l = tt
Lacks-take c (suc n) (x ∷ xs) l = (l.0, Lacks-take c n xs l.1)

pub Lacks-drop : (c n : ℕ) (xs : Bytes) → Lacks c xs → Lacks c (drop n xs)
Lacks-drop c zero xs l = l
Lacks-drop c (suc n) [] l = tt
Lacks-drop c (suc n) (x ∷ xs) l = Lacks-drop c n xs l.1

-- The first or the last of two, by a test.
Lacks-if :
    (c : ℕ) (b : Bool) (xs ys : Bytes) → Lacks c xs → Lacks c ys → Lacks c (if b then xs else ys)
Lacks-if c true xs ys p q = p
Lacks-if c false xs ys p q = q

AllLack-pop_segment : (c : ℕ) (out : List Bytes) → AllLack c out → AllLack c (pop_segment out)
AllLack-pop_segment c [] l = tt
AllLack-pop_segment c (s ∷ out) l = l.1

AllLack-append : (c : ℕ) (xs ys : List Bytes) → AllLack c xs → AllLack c ys → AllLack c (xs ++ ys)
AllLack-append c [] ys p q = q
AllLack-append c (x ∷ xs) ys p q = (p.0, AllLack-append c xs ys p.1 q)

AllLack-reverse : (c : ℕ) (out : List Bytes) → AllLack c out → AllLack c (reverse out)
AllLack-reverse c [] l = tt
AllLack-reverse c (s ∷ out) l =
    rw (reverse-append (s ∷ []) out)
      (AllLack-append c (reverse out) (s ∷ []) (AllLack-reverse c out l.1) (l.0, tt))

module _ (c : ℕ) (no_slash : (0x2F == c) ≡ false) where
  take_segment-AllLack :
      (d : Segments) (s : Bytes) → Lacks c s → AllLack c d.out → AllLack c (take_segment d s).out
  unfolding take_segment
  take_segment-AllLack d s l p = elim (Bool-cases (same_bytes s (0x2E ∷ []))) [
    | inl dot ↦ rw dot p
    | inr one ↦ elim (Bool-cases (same_bytes s (0x2E ∷ 0x2E ∷ []))) [
      | inl dots ↦ rw (one, dots) (AllLack-pop_segment c d.out p)
      | inr two ↦ elim (Bool-cases (length s == 0)) [
        | inl nothing ↦ rw (one, two, nothing) p
        | inr bytes ↦ rw (one, two, bytes) (l, p)
      ]
    ]
  ]

  segment_loop-AllLack :
      (fuel : ℕ) (text : Bytes) (d : Segments)
      → Lacks c text
      → AllLack c d.out
      → AllLack c (segment_loop fuel text d).out
  unfolding segment_loop
  segment_loop-AllLack zero text d l p = p
  segment_loop-AllLack (suc fuel) text d l p = elim (Option-cases (index_of 0x2F text)) [
    | inl last ↦ rw (last, segment_loop) (take_segment-AllLack d text l p)
    | inr (slash, found) ↦
        rw (found, segment_loop)
          (segment_loop-AllLack fuel (drop (suc slash) text) (take_segment d (take slash text))
            (Lacks-drop c (suc slash) text l)
            (take_segment-AllLack d (take slash text) (Lacks-take c slash text l) p))
  ]

  join_segments-Lacks : (out : List Bytes) → AllLack c out → Lacks c (join_segments out)
  unfolding join_segments
  join_segments-Lacks [] l = tt
  join_segments-Lacks (s ∷ []) l = l.0
  join_segments-Lacks (s ∷ t ∷ out) l =
      Lacks-append c s (0x2F ∷ join_segments (t ∷ out)) l.0
        (no_slash, join_segments-Lacks (t ∷ out) l.1)

  pub remove_dot_segments-Lacks : (path : Bytes) → Lacks c path → Lacks c (remove_dot_segments path)
  unfolding remove_dot_segments assemble
  remove_dot_segments-Lacks path l =
      let from = if is_absolute path then drop 1 path else path in
      let d = segment_loop (length path + 1) from no_segments in
      let kept =
        segment_loop-AllLack (length path + 1) from no_segments
          (Lacks-if c (is_absolute path) (drop 1 path) path (Lacks-drop c 1 path l) l) tt in
      Lacks-append c _ _ (Lacks-if c (is_absolute path) (0x2F ∷ []) [] (no_slash, tt) tt) (
        Lacks-append c _ _ (join_segments-Lacks (reverse d.out) (AllLack-reverse c d.out kept))
          (Lacks-if c _ (0x2F ∷ []) [] (no_slash, tt) tt))

last_index_of_start : (cs : Bytes) → (i : ℕ) × (last_index_of 0x2F (0x2F ∷ cs) ≡ some i)
last_index_of_start cs = elim (Option-cases (last_index_of 0x2F cs)) [
  | inl nowhere ↦ (0, rw nowhere refl)
  | inr (i, found) ↦ (i + 1, rw found refl)
]

-- A path that starts with a slash keeps it.

pub merge_paths_start :
    (cs reference : Bytes) (authority : Bool)
    → is_absolute (merge_paths (0x2F ∷ cs) authority reference) ≡ true
unfolding merge_paths
merge_paths_start cs reference authority =
    let found = last_index_of_start cs in
    elim (Bool-cases (authority && length (0x2F ∷ cs) == 0)) [
      | inl empty ↦ rw empty refl
      | inr some_base ↦
          let e : found.0 + 1 ≡ suc found.0 = omega arith in
          rw (some_base, found.1, merge_paths, e) refl
    ]

pub remove_dot_segments_start :
    (path : Bytes) → is_absolute path ≡ true → is_absolute (remove_dot_segments path) ≡ true
remove_dot_segments_start path h =
    let clean = remove_dot_segments-IsClean path in rw clean.form (rw h refl)

-- A path up to its last slash, that included.
abbrev next_directory : ℕ → Bytes → Bytes
next_directory c [] = if c == 0x2F then c ∷ [] else []
next_directory c (d ∷ ds) = c ∷ d ∷ ds

abbrev pub directory : Bytes → Bytes
directory [] = []
directory (c ∷ cs) = next_directory c (directory cs)

directory-none : (xs : Bytes) → last_index_of 0x2F xs ≡ none → directory xs ≡ []
directory-none [] h = refl
directory-none (c ∷ cs) h = elim (Option-cases (last_index_of 0x2F cs)) [
  | inl nowhere ↦ rw (directory-none cs nowhere) (ground (arith, nowhere, h))
  | inr (i, found) ↦ let both : some (i + 1) ≡ none = rw found at h in cc
]

directory-some :
    (xs : Bytes) (i : ℕ) → last_index_of 0x2F xs ≡ some i → directory xs ≡ take (suc i) xs
directory-some [] i h = cc
directory-some (c ∷ []) i h = ground (arith, h)
directory-some (c ∷ d ∷ ds) i h = elim (Option-cases (last_index_of 0x2F (d ∷ ds))) [
  | inl nowhere ↦ rw (directory-none (d ∷ ds) nowhere) (ground (arith, nowhere, h))
  | inr (j, found) ↦
      let next : some (j + 1) ≡ some i = rw found at h in
      let e : i ≡ suc j = ground (arith, next) in rw (directory-some (d ∷ ds) j found, e) refl
]

-- The merged path of a base with an authority and a path.
pub merge_paths-directory :
    (c : ℕ) (cs reference : Bytes)
    → merge_paths (c ∷ cs) true reference ≡ directory (c ∷ cs) ++ reference
unfolding merge_paths
merge_paths-directory c cs reference =
    let some_base : (length (c ∷ cs) == 0) ≡ false = ground arith in
    elim (Option-cases (last_index_of 0x2F (c ∷ cs))) [
      | inl nowhere ↦ rw (some_base, nowhere, merge_paths, directory-none (c ∷ cs) nowhere) refl
      | inr (slash, found) ↦
          let e : slash + 1 ≡ suc slash = omega arith in
          rw (some_base, found, merge_paths, directory-some (c ∷ cs) slash found, e) refl
    ]

next_directory-Lacks :
    (c x : ℕ) (xs : Bytes) → (x == c) ≡ false → Lacks c xs → Lacks c (next_directory x xs)
next_directory-Lacks c x [] e l = Lacks-if c (x == 0x2F) (x ∷ []) [] (e, tt) tt
next_directory-Lacks c x (y ∷ ys) e l = (e, l)

pub directory-Lacks : (c : ℕ) (xs : Bytes) → Lacks c xs → Lacks c (directory xs)
directory-Lacks c [] l = tt
directory-Lacks c (x ∷ xs) l =
    next_directory-Lacks c x (directory xs) l.0 (directory-Lacks c xs l.1)

next_directory_start : (xs ys : Bytes) → is_absolute (next_directory 0x2F xs ++ ys) ≡ true
next_directory_start [] ys = refl
next_directory_start (x ∷ xs) ys = refl

-- A path that starts with a slash keeps it.
pub directory_start : (cs ys : Bytes) → is_absolute (directory (0x2F ∷ cs) ++ ys) ≡ true
directory_start cs ys = next_directory_start (directory cs) ys
