-- ===== src/Http/Sound/Head.antt =====
-- src/io/net/http/response.cpp: the rounds over the status line and over the header block.
use samurai.Prelude.{
  ℕ, ◌-◌, ◌≤◌, ◌<◌, ◌≡◌, refl, ap, ◌∙◌, true, false, not, ◌||◌, Option, none, some, [], ◌∷◌, arith,
  if_cases, some_cases, drop, index_of, slice, length, ltb, ◌==◌, Bytes,
}
use samurai.Buffer.{Buffer, size}
use samurai.Buffer.Room.{IsValid}
use samurai.Http.{
  malformed_response, response_too_large, State, status_line, header_block, need_more, Response,
  Limits, ResponseParser, Outcome, fail,
}
use samurai.Http.Numbers.{parse_size}
use samurai.Http.Line.{take_line, with_line, move_to}
use samurai.Http.Head.{read_status_line, parse_status_line}
use samurai.Http.Parser.{is_ok, is_done}
use samurai.Http.Consume.{Consumed, with_line_cases}
use samurai.Text.{istarts_with}
use samurai.Http.Head.{status_response, code_and_reason, skip_blanks, http_slash, is_version}
use samurai.Http.Sound.{BodyFits, IsSound, Round, Rounds, failed, advanced, waiting}

pub with_header_bytes :
    (limits : Limits) (p : ResponseParser) (h : ℕ)
    → IsSound limits p
    → IsSound limits (record p { header_bytes = h })
with_header_bytes limits p h s = record {
  same_limits = s.same_limits;
  few_headers = s.few_headers;
  body_fits = s.body_fits;
}

-- A method that reads a line, by what its caller does with the line.
pub line_Rounds :
    (limits : Limits) (p : ResponseParser) (input : Buffer)
    (next : ResponseParser → Buffer → Bytes → Option Outcome)
    → IsValid input
    → IsSound limits p
    → is_ok p.status ≡ true
    → is_done p.state ≡ false
    → ((h : ℕ) (rest : Buffer) (line : Bytes)
        → Consumed input rest
        → size rest < size input
        → Rounds limits p input (next (record p { header_bytes = h }) rest line))
    → Rounds limits p input (with_line (take_line p input) next)
line_Rounds limits p input next v sound good going takes =
    with_line_cases (Rounds limits p input) p input next v
      (waiting limits p input v sound good going)
      (λ h rest c.
        failed limits p (record p { header_bytes = h }) input rest response_too_large c
          (with_header_bytes limits p h sound) refl)
      (λ h rest line c less _. takes h rest line c less)

status_response-kept :
    (r : Response) (value : ℕ) (reason : Option Bytes)
    → ((status_response r value reason).body ≡ r.body)
      × ((status_response r value reason).headers ≡ r.headers)
unfolding status_response
status_response-kept r value none = (refl, refl)
status_response-kept r value (some reason) = (refl, refl)

module _ (limits : Limits) (p q : ResponseParser) (input rest : Buffer) (c : Consumed input rest)
    (less : size rest < size input) (sound : IsSound limits q) (good : is_ok q.status ≡ true) where
  to_header_block :
      (r : Response)
      → r.body ≡ []
      → length r.headers ≤ q.limits.max_header_count
      → Round limits p input (move_to (record q { response = r }) rest header_block need_more)
  to_header_block r empty few =
      advanced limits p (record q { response = r; state = header_block }) input rest c less
        (record { same_limits = sound.same_limits; few_headers = few; body_fits = ap length empty })
        good refl

  read_status_line-Round :
      (line : Bytes) → q.response.body ≡ [] → Round limits p input (read_status_line q rest line)
  unfolding read_status_line
  read_status_line-Round line empty =
      let P : Outcome → Type 0 = Round limits p input in
      if_cases P (not (istarts_with line http_slash)) (λ _. malformed)
        (λ _. some_cases P (index_of 0x20 line) malformed (λ first _.
          let parts = code_and_reason (skip_blanks (drop first line)) in
          if_cases P (not (is_version (slice line 5 (first - 5)))) (λ _. malformed)
            (λ _.
              if_cases P (not (length parts.0 == 3)) (λ _. malformed)
                (λ _. some_cases P (parse_size parts.0) malformed (λ value _.
                  if_cases P (ltb value 100 || ltb 599 value) (λ _. malformed)
                    (λ _.
                      let (body, headers) = status_response-kept q.response value parts.1 in
                      to_header_block (status_response q.response value parts.1) (body ∙ empty)
                        (rw headers sound.few_headers)))))))
    where
      malformed : Round limits p input (fail q rest malformed_response)
      malformed = failed limits p q input rest malformed_response c sound refl

pub BodyFits-at :
    (limits : Limits) (p : ResponseParser) (s : State)
    → IsSound limits p
    → p.state ≡ s
    → BodyFits s (length p.response.body) p.body_remaining p.chunk_remaining p.limits.max_body
BodyFits-at limits p s sound e = rw (← e) sound.body_fits

no_bytes : (xs : Bytes) → length xs ≡ 0 → xs ≡ []
no_bytes [] e = refl
no_bytes (x ∷ xs) e = absurd (omega (arith, e))

pub parse_status_line-Rounds :
    (limits : Limits) (p : ResponseParser) (input : Buffer)
    → IsValid input
    → IsSound limits p
    → is_ok p.status ≡ true
    → p.state ≡ status_line
    → Rounds limits p input (parse_status_line p input)
unfolding parse_status_line
parse_status_line-Rounds limits p input v sound good e =
    line_Rounds limits p input _ v sound good (ap is_done e) (λ h rest line c less.
      read_status_line-Round limits p (record p { header_bytes = h }) input rest c less
        (with_header_bytes limits p h sound) good line
        (no_bytes p.response.body (BodyFits-at limits p status_line sound e)))
