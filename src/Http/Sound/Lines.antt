-- ===== src/Http/Sound/Lines.antt =====
-- src/io/net/http/response.cpp: the loops over the lines of the header block and of the trailers.
use samurai.Prelude.{
  ℕ, zero, suc, ◌+◌, ◌<◌, ◌≡◌, refl, ap, true, false, not, ◌||◌, Option, none, some, [], ◌∷◌, inl,
  inr, arith, Bool-cases, if_cases, some_cases, length, leb, ◌==◌, Bytes, length-append, same_bytes,
}
use samurai.Buffer.{Buffer, size}
use samurai.Buffer.Room.{IsValid}
use samurai.Http.{header_block, body_trailers, Limits, ResponseParser, Outcome, fail}
use samurai.Http.Headers.{add}
use samurai.Http.Head.{Field, refused, added, read_field, is_continuation_line}
use samurai.Http.Parser.{
  is_ok, is_done, header_loop, parse_header_block, trailer_loop, parse_trailers, is_need_more,
}
use samurai.Http.Consume.{size-Consumed, Consumed, Consumed-Consumed}
use samurai.Text.{trim}
use samurai.Http.Sound.{IsSound, Rounds, rank_le, failed, completed}
use samurai.Text.{split_once}
use samurai.Http.Sound.Head.{line_Rounds, with_header_bytes, BodyFits-at}
use samurai.Http.Sound.Framing.{choose_body_framing-Round}

-- What a later line of the same loop leaves.
later :
    (limits : Limits) (p q : ResponseParser) (input rest : Buffer) (o : Option Outcome)
    → IsValid input
    → Consumed input rest
    → size rest < size input
    → Rounds limits q rest o
    → Rounds limits p input o
later limits p q input rest none v c less r = r
later limits p q input rest (some s) v c less r = record {
  kept = record {
    consumed = Consumed-Consumed input rest s.input v c r.kept.consumed;
    sound = r.kept.sound;
    tells = r.kept.tells;
  };
  progress = elim (Bool-cases (is_need_more s.result)) [
    | inl going ↦
        let shrunk = size-Consumed rest s.input c.valid r.kept.consumed in
        inr (omega (arith, shrunk, less, rank_le s.parser.state))
    | inr over ↦ inl (rw over refl)
  ];
}

-- A field leaves a parser that stays in the header block.
FieldFits : Limits → Field → Type 0
FieldFits limits (refused why) = is_ok why ≡ false
FieldFits limits (added more) =
    IsSound limits more × (is_ok more.status ≡ true) × (more.state ≡ header_block)

field_fits :
    (limits : Limits) (q : ResponseParser) (line : Bytes)
    → IsSound limits q
    → is_ok q.status ≡ true
    → q.state ≡ header_block
    → FieldFits limits (read_field q line)
unfolding read_field FieldFits add
field_fits limits q line sound good e =
    let P : Field → Type 0 = FieldFits limits in
    if_cases P (is_continuation_line line) (λ _. refl)
      (λ _. some_cases P (split_once line 0x3A) refl (λ named _.
        if_cases P (length named.0 == 0 || not (same_bytes (trim named.0) named.0)) (λ _. refl)
          (λ _.
            if_cases P (leb q.limits.max_header_count (length q.response.headers)) (λ _. refl)
              (λ room.
                let one = length-append q.response.headers ((named.0, trim named.1) ∷ []) in
                (
                  record {
                    same_limits = sound.same_limits;
                    few_headers = ground (arith, room, one);
                    body_fits = sound.body_fits;
                  },
                  good,
                  e,
                )))))

after_field :
    (limits : Limits) (fuel : ℕ) (p q : ResponseParser) (input rest : Buffer) (f : Field)
    → Consumed input rest
    → IsSound limits q
    → FieldFits limits f
    → ((more : ResponseParser)
        → IsSound limits more
        → is_ok more.status ≡ true
        → more.state ≡ header_block
        → Rounds limits p input (header_loop fuel more rest))
    → Rounds limits p input
        (elim f [ refused why ↦ some (fail q rest why) | added more ↦ header_loop fuel more rest ])
unfolding FieldFits
after_field limits fuel p q input rest (refused why) c sound fits next =
    failed limits p q input rest why c sound fits
after_field limits fuel p q input rest (added more) c sound fits next =
    let (s, good, e) = fits in next more s good e

header_loop-Rounds :
    (limits : Limits) (fuel : ℕ) (p : ResponseParser) (input : Buffer)
    → IsValid input
    → IsSound limits p
    → is_ok p.status ≡ true
    → p.state ≡ header_block
    → size input < fuel
    → Rounds limits p input (header_loop fuel p input)
unfolding header_loop
header_loop-Rounds limits zero p input v sound good e f = absurd (omega (arith, f))
header_loop-Rounds limits (suc fuel) p input v sound good e f =
    line_Rounds limits p input _ v sound good (ap is_done e) (λ h rest line c less.
      let q = record p { header_bytes = h } in
      let q_sound = with_header_bytes limits p h sound in
      elim (Bool-cases (length line == 0)) [
        | inl end ↦ rw end (
            choose_body_framing-Round limits p q input rest c less sound.same_limits
              sound.few_headers (BodyFits-at limits p header_block sound e) good q_sound)
        | inr more_fields ↦ rw more_fields (
            after_field limits fuel p q input rest (read_field q line) c q_sound
              (field_fits limits q line q_sound good e)
              (λ more s g e'.
                later limits p more input rest _ v c less (
                  header_loop-Rounds limits fuel more rest c.valid s g e'
                    (omega (arith, less, f)))))
      ])

trailer_loop-Rounds :
    (limits : Limits) (fuel : ℕ) (p : ResponseParser) (input : Buffer)
    → IsValid input
    → IsSound limits p
    → is_ok p.status ≡ true
    → p.state ≡ body_trailers
    → size input < fuel
    → Rounds limits p input (trailer_loop fuel p input)
unfolding trailer_loop
trailer_loop-Rounds limits zero p input v sound good e f = absurd (omega (arith, f))
trailer_loop-Rounds limits (suc fuel) p input v sound good e f =
    line_Rounds limits p input _ v sound good (ap is_done e) (λ h rest line c less.
      let q = record p { header_bytes = h } in
      let q_sound = with_header_bytes limits p h sound in
      elim (Bool-cases (length line == 0)) [
        | inl end ↦ rw end (
            completed limits p q input rest c sound.same_limits sound.few_headers
              (BodyFits-at limits p body_trailers sound e) good)
        | inr more_lines ↦ rw more_lines (
            later limits p q input rest _ v c less (
              trailer_loop-Rounds limits fuel q rest c.valid q_sound good e
                (omega (arith, less, f))))
      ])

pub parse_header_block-Rounds :
    (limits : Limits) (p : ResponseParser) (input : Buffer)
    → IsValid input
    → IsSound limits p
    → is_ok p.status ≡ true
    → p.state ≡ header_block
    → Rounds limits p input (parse_header_block p input)
unfolding parse_header_block
parse_header_block-Rounds limits p input v sound good e =
    header_loop-Rounds limits (size input + 1) p input v sound good e (omega arith)

pub parse_trailers-Rounds :
    (limits : Limits) (p : ResponseParser) (input : Buffer)
    → IsValid input
    → IsSound limits p
    → is_ok p.status ≡ true
    → p.state ≡ body_trailers
    → Rounds limits p input (parse_trailers p input)
unfolding parse_trailers
parse_trailers-Rounds limits p input v sound good e =
    trailer_loop-Rounds limits (size input + 1) p input v sound good e (omega arith)
