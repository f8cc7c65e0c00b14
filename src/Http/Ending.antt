-- ===== src/Http/Ending.antt =====
-- src/io/net/http/response.cpp: all the rounds of a call of `parse`.
use samurai.Prelude.{
  ℕ, zero, suc, ◌+◌, ◌*◌, ◌<◌, ◌≡◌, ◌⊎◌, refl, true, false, not, Option, none, some, inl, inr,
  arith, Bool-cases, if_cases,
}
use samurai.Buffer.{Buffer, size}
use samurai.Buffer.Room.{IsValid}
use samurai.Http.{
  State, status_line, header_block, body_length, body_chunk_size, body_chunk_data, body_chunk_crlf,
  body_trailers, body_until_close, done, Result, need_more, complete, error, Limits, ResponseParser,
  Outcome,
}
use samurai.Http.Parser.{is_ok, parse_state, returns, is_need_more}
use samurai.Http.Consume.{size-Consumed, Consumed, Consumed-nothing, Consumed-Consumed}
use samurai.Http.Sound.{IsSound, Tells, AreSmall, Kept, Round, Rounds, rank, rank_le, completed}
use samurai.Http.Parser.{parse_loop, parse}
use samurai.Http.Sound.Head.{parse_status_line-Rounds, BodyFits-at}
use samurai.Http.Sound.Lines.{parse_header_block-Rounds, parse_trailers-Rounds}
use samurai.Http.Sound.Body.{
  parse_chunk_header-Rounds, parse_chunk_crlf-Rounds, parse_body_length-Round,
  parse_chunk_data-Round, parse_body_until_close-Round,
}

parse_state-Rounds :
    (limits : Limits) (p : ResponseParser) (input : Buffer) (s : State)
    → IsValid input
    → IsSound limits p
    → is_ok p.status ≡ true
    → AreSmall limits input
    → p.state ≡ s
    → Rounds limits p input (parse_state s p input)
unfolding parse_state
parse_state-Rounds limits p input status_line v sound good small e =
    parse_status_line-Rounds limits p input v sound good e
parse_state-Rounds limits p input header_block v sound good small e =
    parse_header_block-Rounds limits p input v sound good e
parse_state-Rounds limits p input body_length v sound good small e =
    parse_body_length-Round limits p input v sound good e
parse_state-Rounds limits p input body_chunk_size v sound good small e =
    parse_chunk_header-Rounds limits p input v sound good e small
parse_state-Rounds limits p input body_chunk_data v sound good small e =
    parse_chunk_data-Round limits p input v sound good e
parse_state-Rounds limits p input body_chunk_crlf v sound good small e =
    parse_chunk_crlf-Rounds limits p input v sound good e
parse_state-Rounds limits p input body_trailers v sound good small e =
    parse_trailers-Rounds limits p input v sound good e
parse_state-Rounds limits p input body_until_close v sound good small e =
    parse_body_until_close-Round limits p input v sound good e small
parse_state-Rounds limits p input done v sound good small e =
    completed limits p p input input (Consumed-nothing input v) sound.same_limits sound.few_headers
      (BodyFits-at limits p done sound e) good

-- What a call of `parse` leaves.
abbrev pub Ends : Limits → Buffer → Option Outcome → Type 0
Ends limits input none = ⊥
Ends limits input (some s) = Kept limits input s

Ends-later :
    (limits : Limits) (input rest : Buffer) (o : Option Outcome)
    → IsValid input
    → Consumed input rest
    → Ends limits rest o
    → Ends limits input o
Ends-later limits input rest none v c k = k
Ends-later limits input rest (some s) v c k = record {
  consumed = Consumed-Consumed input rest s.input v c k.consumed;
  sound = k.sound;
  tells = k.tells;
}

-- The status while a round asks for more.
going_on :
    (s : Outcome)
    → Tells s.result s.parser
    → is_need_more s.result ≡ true
    → is_ok s.parser.status ≡ true
going_on s t e = elim_result s.result s.parser t e
  where
    elim_result :
        (r : Result) (p : ResponseParser)
        → Tells r p
        → is_need_more r ≡ true
        → is_ok p.status ≡ true
    elim_result need_more p t e = t.0
    elim_result complete p t e = t.0
    elim_result error p t e = absurd (ground (arith, e))

after_round :
    (limits : Limits) (fuel : ℕ) (p : ResponseParser) (input : Buffer) (o : Option Outcome)
    → IsValid input
    → ((s : Outcome)
        → Round limits p input s
        → returns p input s ≡ false
        → Ends limits s.input (parse_loop fuel s.parser s.input))
    → Rounds limits p input o
    → Ends limits input (elim o [
      | none ↦ none
      | some s ↦ elim (returns p input s) [
        | true ↦ some s
        | false ↦ parse_loop fuel s.parser s.input
      ]
    ])
after_round limits fuel p input none v next r = r
after_round limits fuel p input (some s) v next r = elim (Bool-cases (returns p input s)) [
  | inl back ↦ rw back r.kept
  | inr again ↦ rw again (Ends-later limits input s.input _ v r.kept.consumed (next s r again))
]

closer :
    (p : ResponseParser) (input : Buffer) (s : Outcome) (fuel : ℕ)
    → returns p input s ≡ false
    → 2 * size input + rank p.state < suc fuel
    → (returns p input s ≡ true)
      ⊎ (2 * size s.input + rank s.parser.state < 2 * size input + rank p.state)
    → 2 * size s.input + rank s.parser.state < fuel
closer p input s fuel again f (inl back) = absurd (ground (arith, again, back))
closer p input s fuel again f (inr less) = omega (arith, less, f)

parse_loop-Ends :
    (limits : Limits) (fuel : ℕ) (p : ResponseParser) (input : Buffer)
    → IsValid input
    → IsSound limits p
    → is_ok p.status ≡ true
    → AreSmall limits input
    → 2 * size input + rank p.state < fuel
    → Ends limits input (parse_loop fuel p input)
unfolding parse_loop
parse_loop-Ends limits zero p input v sound good small f = absurd (omega (arith, f))
parse_loop-Ends limits (suc fuel) p input v sound good small f =
    after_round limits fuel p input (parse_state p.state p input) v
      (λ s r again.
        let c = r.kept.consumed in
        parse_loop-Ends limits fuel s.parser s.input c.valid r.kept.sound
          (going_on s r.kept.tells (ground (arith, again)))
          (record {
            body = small.body;
            chunk = small.chunk;
            bytes = omega (arith, size-Consumed input s.input v c, small.bytes);
          })
          (closer p input s fuel again f r.progress))
      (parse_state-Rounds limits p input p.state v sound good small refl)

pub parse-Ends :
    (limits : Limits) (p : ResponseParser) (input : Buffer)
    → IsValid input
    → IsSound limits p
    → AreSmall limits input
    → Ends limits input (parse p input)
unfolding parse
parse-Ends limits p input v sound small =
    if_cases (Ends limits input) (not (is_ok p.status))
      (λ bad. record {
        consumed = Consumed-nothing input v;
        sound = sound;
        tells = ground (arith, bad);
      })
      (λ good.
        parse_loop-Ends limits (2 * size input + 2) p input v sound (ground (arith, good)) small
          (omega (arith, rank_le p.state)))
