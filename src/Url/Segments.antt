-- ===== src/Url/Segments.antt =====
-- src/io/net/url.cpp: the segments that remove_dot_segments keeps.
use samurai.Prelude.{
  ℕ, zero, suc, ◌<◌, ◌≡◌, refl, sym, ap, ◌∙◌, inl, inr, Bool, true, false, List, [], ◌∷◌, ◌++◌,
  append-nil, append_assoc, arith, Bool-cases, Option-cases, length, length-append, take, drop,
  take-append_length, ◌==◌, Bytes, index_of, same_bytes,
}
use mathlib.Core.List.{reverse, reverse-append}
use samurai.Text.Fields.{Lacks, index_of-Cut, index_of-Lacks}
use samurai.Url.Paths.{Segments, pop_segment, take_segment, segment_loop, join_segments}
use samurai.Url.Find.{index_of_after, index_of_nowhere, drop-suc}

-- A segment that names something: not empty, not "." and not "..", with no slash in it.
pub record IsProper (s : Bytes) : Type 0 where
  pub no_slash : Lacks 0x2F s
  pub one_dot : same_bytes s (0x2E ∷ []) ≡ false
  pub two_dots : same_bytes s (0x2E ∷ 0x2E ∷ []) ≡ false
  pub some_byte : (length s == 0) ≡ false

abbrev pub AllProper : List Bytes → Type 0
AllProper [] = Unit
AllProper (s ∷ out) = IsProper s × AllProper out

pub pop_segment-AllProper : (out : List Bytes) → AllProper out → AllProper (pop_segment out)
pop_segment-AllProper [] p = tt
pop_segment-AllProper (s ∷ out) p = p.1

pub take_segment-AllProper :
    (d : Segments) (s : Bytes) → Lacks 0x2F s → AllProper d.out → AllProper (take_segment d s).out
unfolding take_segment
take_segment-AllProper d s l p = elim (Bool-cases (same_bytes s (0x2E ∷ []))) [
  | inl dot ↦ rw dot p
  | inr one ↦ elim (Bool-cases (same_bytes s (0x2E ∷ 0x2E ∷ []))) [
    | inl dots ↦ rw (one, dots) (pop_segment-AllProper d.out p)
    | inr two ↦ elim (Bool-cases (length s == 0)) [
      | inl none_there ↦ rw (one, two, none_there) p
      | inr bytes ↦
          rw (one, two, bytes)
            (record { no_slash = l; one_dot = one; two_dots = two; some_byte = bytes }, p)
    ]
  ]
]

pub segment_loop-AllProper :
    (fuel : ℕ) (text : Bytes) (d : Segments)
    → AllProper d.out
    → AllProper (segment_loop fuel text d).out
unfolding segment_loop
segment_loop-AllProper zero text d p = p
segment_loop-AllProper (suc fuel) text d p = elim (Option-cases (index_of 0x2F text)) [
  | inl last ↦
      rw (last, segment_loop) (take_segment-AllProper d text (index_of-Lacks 0x2F text last) p)
  | inr (slash, found) ↦
      rw (found, segment_loop)
        (segment_loop-AllProper fuel (drop (suc slash) text) (take_segment d (take slash text)) (
          take_segment-AllProper d (take slash text) (index_of-Cut 0x2F text slash found).before p))
]

-- A proper segment is taken as it is.
pub take_proper :
    (d : Segments) (s : Bytes)
    → IsProper s
    → take_segment d s ≡ record { out = s ∷ d.out; trailing_slash = false }
unfolding take_segment
take_proper d s p = rw (p.one_dot, p.two_dots, p.some_byte) refl

pub segment_loop_step :
    (fuel : ℕ) (s rest : Bytes) (d : Segments)
    → Lacks 0x2F s
    → segment_loop (suc fuel) (s ++ 0x2F ∷ rest) d ≡ segment_loop fuel rest (take_segment d s)
unfolding segment_loop
segment_loop_step fuel s rest d l =
    rw
      (
        index_of_after 0x2F s rest l,
        segment_loop,
        take-append_length s (0x2F ∷ rest),
        drop-suc s 0x2F rest,
      )
      refl

pub segment_loop_last :
    (fuel : ℕ) (s : Bytes) (d : Segments)
    → Lacks 0x2F s
    → segment_loop (suc fuel) s d ≡ take_segment d s
unfolding segment_loop
segment_loop_last fuel s d l = rw (index_of_nowhere 0x2F s l, segment_loop) refl

pub take_empty :
    (s : Bytes) (out : List Bytes)
    → take_segment (record { out = s ∷ out; trailing_slash = false }) []
      ≡ record { out = s ∷ out; trailing_slash = true }
unfolding take_segment
take_empty s out = refl

-- The end of the text: nothing, or a slash.
abbrev pub slash_if : Bool → Bytes
slash_if true = 0x2F ∷ []
slash_if false = []

-- Back to front, as the loop keeps them.
abbrev pub onto : List Bytes → List Bytes → List Bytes
onto [] out = out
onto (s ∷ more) out = onto more (s ∷ out)

pub join_some :
    (s : Bytes) (more : List Bytes) (rest : Bytes)
    → IsProper s
    → 0 < length (join_segments (s ∷ more) ++ rest)
unfolding join_segments
join_some [] more rest p = let e : true ≡ false = p.some_byte in cc
join_some (c ∷ cs) [] rest p = omega arith
join_some (c ∷ cs) (t ∷ more) rest p = omega arith

-- The loop on segments that stay leaves them.
pub segment_loop_kept :
    (fuel : ℕ) (s : Bytes) (more out : List Bytes) (slash trailing : Bool)
    → AllProper (s ∷ more)
    → length (join_segments (s ∷ more) ++ slash_if slash) < fuel
    → segment_loop fuel
        (join_segments (s ∷ more) ++ slash_if slash)
        (record { out = out; trailing_slash = trailing })
      ≡ record { out = onto (s ∷ more) out; trailing_slash = slash }
unfolding join_segments
segment_loop_kept zero s more out slash trailing p h = absurd (omega arith)
segment_loop_kept (suc zero) s more out slash trailing p h =
    absurd (omega (arith, join_some s more (slash_if slash) p.0))
segment_loop_kept (suc (suc fuel)) s [] out false trailing p h =
    rw append-nil (segment_loop_last (suc fuel) s _ p.0.no_slash ∙ take_proper _ s p.0)
segment_loop_kept (suc (suc fuel)) s [] out true trailing p h =
    segment_loop_step (suc fuel) s [] _ p.0.no_slash
    ∙ (ap (segment_loop (suc fuel) []) (take_proper _ s p.0)
        ∙ (segment_loop_last fuel [] _ tt ∙ take_empty s out))
segment_loop_kept (suc (suc fuel)) s (t ∷ more) out slash trailing p h =
    rw (append_assoc s (0x2F ∷ join_segments (t ∷ more)) (slash_if slash)) (
      segment_loop_step (suc fuel) s (join_segments (t ∷ more) ++ slash_if slash) _ p.0.no_slash
      ∙ (ap (segment_loop (suc fuel) (join_segments (t ∷ more) ++ slash_if slash))
            (take_proper _ s p.0)
          ∙ segment_loop_kept (suc fuel) t more (s ∷ out) slash false p.1
              (shorter s (join_segments (t ∷ more)) (slash_if slash) h)))
  where
    shorter :
        (xs ys zs : Bytes)
        → length ((xs ++ 0x2F ∷ ys) ++ zs) < suc (suc fuel)
        → length (ys ++ zs) < suc fuel
    shorter xs ys zs l = omega (
      arith,
      length-append (xs ++ 0x2F ∷ ys) zs,
      length-append xs (0x2F ∷ ys),
      length-append ys zs,
    )

pub reverse-onto : (more out : List Bytes) → reverse (onto more out) ≡ reverse out ++ more
reverse-onto [] out = sym (append-nil (reverse out))
reverse-onto (s ∷ more) out =
    reverse-onto more (s ∷ out)
    ∙ (ap (λ (t : List Bytes). t ++ more) (reverse-append (s ∷ []) out)
        ∙ append_assoc (reverse out) (s ∷ []) more)

pub AllProper-append : (xs ys : List Bytes) → AllProper xs → AllProper ys → AllProper (xs ++ ys)
AllProper-append [] ys p q = q
AllProper-append (x ∷ xs) ys p q = (p.0, AllProper-append xs ys p.1 q)

pub AllProper-reverse : (out : List Bytes) → AllProper out → AllProper (reverse out)
AllProper-reverse [] p = tt
AllProper-reverse (s ∷ out) p =
    rw (reverse-append (s ∷ []) out)
      (AllProper-append (reverse out) (s ∷ []) (AllProper-reverse out p.1) (p.0, tt))
