-- ===== src/Url/Clean.antt =====
-- src/io/net/url.cpp: what remove_dot_segments returns.
use samurai.Prelude.{
  ℕ, zero, suc, ◌+◌, ◌<◌, ◌≤◌, ◌≡◌, refl, sym, ap, ◌∙◌, inl, inr, Bool, true, false, not, ◌&&◌,
  List, [], ◌∷◌, ◌++◌, append_assoc, arith, Option-cases, if◌then◌else◌, length, length-append,
  length-drop, take, drop, Bytes, index_of,
}
use mathlib.Core.List.{reverse, reverse-append}
use samurai.Text.Fields.{index_of-Cut}
use samurai.Url.Paths.{
  Segments, take_segment, segment_loop, join_segments, is_absolute, is_empty, assemble, no_segments,
  remove_dot_segments,
}
use samurai.Url.Segments.{
  IsProper, AllProper, segment_loop-AllProper, slash_if, onto, segment_loop_kept, reverse-onto,
  AllProper-reverse,
}

-- The text of a list of segments: with a slash in front, and one behind.
abbrev pub path_text : Bool → List Bytes → Bool → Bytes
path_text rooted segments slash =
    (if rooted then 0x2F ∷ [] else []) ++ (join_segments segments ++ slash_if slash)

-- A path with no dot segments and no empty ones. With no segments it is one slash.
pub record IsClean (rooted : Bool) (text : Bytes) : Type 0 where
  pub segments : List Bytes
  pub slash : Bool
  pub proper : AllProper segments
  pub form : text ≡ path_text rooted segments slash
  pub root : is_empty segments ≡ true → slash ≡ not rooted

if_slash : (b : Bool) → (if b then 0x2F ∷ [] else []) ≡ slash_if b
if_slash true = refl
if_slash false = refl

is_empty-reverse : (out : List Bytes) → is_empty (reverse out) ≡ is_empty out
is_empty-reverse [] = refl
is_empty-reverse (s ∷ out) = rw (reverse-append (s ∷ []) out) (snoc (reverse out))
  where
    snoc : (xs : List Bytes) → is_empty (xs ++ s ∷ []) ≡ false
    snoc [] = refl
    snoc (x ∷ xs) = refl

assemble-IsClean :
    (absolute : Bool) (d : Segments)
    → AllProper d.out
    → (is_empty d.out ≡ true → d.trailing_slash ≡ true)
    → IsClean absolute (assemble absolute d)
unfolding assemble
assemble-IsClean absolute d p t = record {
  segments = reverse d.out;
  slash = d.trailing_slash && not (absolute && is_empty d.out);
  proper = AllProper-reverse d.out p;
  form = rw (if_slash (d.trailing_slash && not (absolute && is_empty d.out))) refl;
  root = λ e. let empty = sym (is_empty-reverse d.out) ∙ e in rw (empty, t empty) (ground arith);
}

-- Where no segment is kept, the last one was a dot segment or empty.
take_segment-trailing :
    (d : Segments) (s : Bytes)
    → is_empty (take_segment d s).out ≡ true
    → (take_segment d s).trailing_slash ≡ true
unfolding take_segment
take_segment-trailing d s = ground arith

segment_loop-trailing :
    (fuel : ℕ) (text : Bytes) (d : Segments)
    → length text < fuel
    → is_empty (segment_loop fuel text d).out ≡ true
    → (segment_loop fuel text d).trailing_slash ≡ true
unfolding segment_loop
segment_loop-trailing zero text d h = absurd (omega arith)
segment_loop-trailing (suc fuel) text d h = elim (Option-cases (index_of 0x2F text)) [
  | inl last ↦ rw (last, segment_loop) (take_segment-trailing d text)
  | inr (slash, found) ↦
      rw (found, segment_loop)
        (segment_loop-trailing fuel (drop (suc slash) text) (take_segment d (take slash text)) (
          omega (arith, length-drop (suc slash) text, (index_of-Cut 0x2F text slash found).inside)))
]

pub remove_dot_segments-IsClean :
    (path : Bytes) → IsClean (is_absolute path) (remove_dot_segments path)
unfolding remove_dot_segments
remove_dot_segments-IsClean path =
    assemble-IsClean (is_absolute path) _
      (segment_loop-AllProper (length path + 1) _ no_segments tt)
      (segment_loop-trailing (length path + 1) _ no_segments (shorter (is_absolute path) path))
  where
    shorter : (b : Bool) (text : Bytes) → length (if b then drop 1 text else text) < length text + 1
    shorter true text = omega (arith, length-drop 1 text)
    shorter false text = omega arith

-- Segments that are kept come back in their order.
assemble_kept :
    (rooted : Bool) (s : Bytes) (more : List Bytes) (slash : Bool)
    → assemble rooted (record { out = onto (s ∷ more) []; trailing_slash = slash })
      ≡ path_text rooted (s ∷ more) slash
unfolding assemble
assemble_kept rooted s more slash =
    rw (reverse-onto (s ∷ more) [], full)
      (ap (λ (t : Bytes). (if rooted then 0x2F ∷ [] else []) ++ (join_segments (s ∷ more) ++ t))
        (ends rooted slash))
  where
    full : is_empty (onto (s ∷ more) []) ≡ false
    full = sym (is_empty-reverse (onto (s ∷ more) [])) ∙ ap is_empty (reverse-onto (s ∷ more) [])

    ends : (r b : Bool) → (if b && not (r && false) then 0x2F ∷ [] else []) ≡ slash_if b
    ends true true = refl
    ends true false = refl
    ends false true = refl
    ends false false = refl

is_absolute_proper : (s rest : Bytes) → IsProper s → is_absolute (s ++ rest) ≡ false
is_absolute_proper [] rest p = let e : true ≡ false = p.some_byte in cc
is_absolute_proper (c ∷ cs) rest p = p.no_slash.0

start_of_segments :
    (s : Bytes) (more : List Bytes) (slash : Bool)
    → IsProper s
    → is_absolute (join_segments (s ∷ more) ++ slash_if slash) ≡ false
unfolding join_segments
start_of_segments s [] slash p = is_absolute_proper s (slash_if slash) p
start_of_segments s (t ∷ more) slash p =
    rw (append_assoc s (0x2F ∷ join_segments (t ∷ more)) (slash_if slash))
      (is_absolute_proper s (0x2F ∷ join_segments (t ∷ more) ++ slash_if slash) p)

remove_relative :
    (path : Bytes)
    → is_absolute path ≡ false
    → remove_dot_segments path ≡ assemble false (segment_loop (length path + 1) path no_segments)
unfolding remove_dot_segments
remove_relative path e = rw e refl

remove_root : remove_dot_segments (0x2F ∷ []) ≡ 0x2F ∷ []
unfolding remove_dot_segments segment_loop take_segment assemble join_segments
remove_root = refl

length_ends : (xs : Bytes) (slash : Bool) → length xs ≤ length (xs ++ slash_if slash)
length_ends xs slash = omega (arith, length-append xs (slash_if slash))

remove_kept :
    (rooted : Bool) (segments : List Bytes) (slash : Bool)
    → AllProper segments
    → (is_empty segments ≡ true → slash ≡ not rooted)
    → remove_dot_segments (path_text rooted segments slash) ≡ path_text rooted segments slash
unfolding remove_dot_segments join_segments
remove_kept true [] slash p r = rw (r refl) remove_root
remove_kept false [] slash p r = rw (r refl) remove_root
remove_kept true (s ∷ more) slash p r =
    ap (assemble true) (
      segment_loop_kept _ s more [] slash false p
        (omega (arith, length_ends (join_segments (s ∷ more)) slash)))
    ∙ assemble_kept true s more slash
remove_kept false (s ∷ more) slash p r =
    remove_relative _ (start_of_segments s more slash p.0)
    ∙ (ap (assemble false) (segment_loop_kept _ s more [] slash false p (omega arith))
        ∙ assemble_kept false s more slash)

-- A clean path stays as it is.
pub remove_dot_segments_clean :
    (rooted : Bool) (text : Bytes) → IsClean rooted text → remove_dot_segments text ≡ text
remove_dot_segments_clean rooted text c =
    ap remove_dot_segments c.form
    ∙ (remove_kept rooted c.segments c.slash c.proper c.root ∙ sym c.form)

-- Whatever the path, what remove_dot_segments returns is made of segments that are not empty, not
-- `.` and not `..`, with single slashes between them, maybe a slash at the end, and a slash in
-- front exactly when the path has one, or is one slash; and remove_dot_segments leaves that as it
-- is.
pub remove_dot_segments_lem :
    (path : Bytes)
    → IsClean (is_absolute path) (remove_dot_segments path)
      × (remove_dot_segments (remove_dot_segments path) ≡ remove_dot_segments path)
remove_dot_segments_lem path = (
  remove_dot_segments-IsClean path,
  remove_dot_segments_clean _ _ (remove_dot_segments-IsClean path),
)
