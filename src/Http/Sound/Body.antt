-- ===== src/Http/Sound/Body.antt =====
-- src/io/net/http/response.cpp: the rounds over the body.
use samurai.Prelude.{
  ℕ, ◌+◌, ◌-◌, ◌≤◌, ◌<◌, ◌≡◌, refl, ap, ◌∙◌, true, not, inr, arith, if◌then◌else◌, if_cases,
  some_cases, length, ltb, ◌==◌, Bytes, wrap, length-append,
}
use samurai.Buffer.{Buffer, size, copy_range, remove}
use samurai.Buffer.Room.{IsValid}
use samurai.Http.{
  malformed_response, response_too_large, body_length, body_chunk_size, body_chunk_data,
  body_chunk_crlf, body_trailers, body_until_close, Limits, ResponseParser, Outcome,
}
use samurai.Http.Numbers.{parse_chunk_size}
use samurai.Http.Parser.{
  is_ok, is_done, add_body, parse_body_length, read_chunk_size, parse_chunk_header,
  parse_chunk_data, read_chunk_crlf, parse_chunk_crlf, until_closed, parse_body_until_close,
}
use samurai.Http.Consume.{
  size-remove, Consumed, Consumed-nothing, Consumed-remove, length-copy_range,
}
use samurai.Http.Sound.{IsSound, AreSmall, Round, Rounds, failed, completed, advanced, waiting}
use samurai.Http.Sound.Head.{line_Rounds, with_header_bytes, BodyFits-at}

read_chunk_size-Round :
    (limits : Limits) (p q : ResponseParser) (input rest : Buffer) (line : Bytes)
    → Consumed input rest
    → size rest < size input
    → IsSound limits q
    → is_ok q.status ≡ true
    → length q.response.body ≤ q.limits.max_body
    → AreSmall limits input
    → Round limits p input (read_chunk_size q rest line)
unfolding read_chunk_size
read_chunk_size-Round limits p q input rest line c less sound good fits small =
    let P : Outcome → Type 0 = Round limits p input in
    some_cases P (parse_chunk_size line)
      (failed limits p q input rest malformed_response c sound refl)
      (λ n _.
        if_cases P (ltb q.limits.max_chunk_size n)
          (λ _. failed limits p q input rest response_too_large c sound refl)
          (λ chunk_fits.
            if_cases P (ltb q.limits.max_body (wrap (length q.response.body + n)))
              (λ _. failed limits p q input rest response_too_large c sound refl)
              (λ body_fits.
                let sum : length q.response.body + n ≤ q.limits.max_body = ground (
                  arith,
                  chunk_fits,
                  body_fits,
                  fits,
                  small.body,
                  small.chunk,
                  ap (λ (l : Limits). l.max_body) sound.same_limits,
                  ap (λ (l : Limits). l.max_chunk_size) sound.same_limits,
                ) in
                if_cases P (n == 0)
                  (λ _.
                    advanced limits p (record q { state = body_trailers }) input rest c less
                      (record {
                        same_limits = sound.same_limits;
                        few_headers = sound.few_headers;
                        body_fits = fits;
                      })
                      good refl)
                  (λ _.
                    advanced limits p (record q { chunk_remaining = n; state = body_chunk_data })
                      input rest c less
                      (record {
                        same_limits = sound.same_limits;
                        few_headers = sound.few_headers;
                        body_fits = sum;
                      })
                      good refl))))

module _ (limits : Limits) (p : ResponseParser) (input : Buffer) (v : IsValid input)
    (sound : IsSound limits p) (good : is_ok p.status ≡ true) where
  pub parse_chunk_header-Rounds :
      p.state ≡ body_chunk_size
      → AreSmall limits input
      → Rounds limits p input (parse_chunk_header p input)
  unfolding parse_chunk_header
  parse_chunk_header-Rounds e small =
      line_Rounds limits p input _ v sound good (ap is_done e) (λ h rest line c less.
        read_chunk_size-Round limits p (record p { header_bytes = h }) input rest line c less
          (with_header_bytes limits p h sound) good (BodyFits-at limits p body_chunk_size sound e)
          small)

  read_chunk_crlf-Round :
      (h : ℕ) (rest : Buffer) (line : Bytes)
      → Consumed input rest
      → size rest < size input
      → p.state ≡ body_chunk_crlf
      → Round limits p input (read_chunk_crlf (record p { header_bytes = h }) rest line)
  unfolding read_chunk_crlf
  read_chunk_crlf-Round h rest line c less e =
      let q = record p { header_bytes = h } in
      let q_sound = with_header_bytes limits p h sound in
      if_cases (Round limits p input) (not (length line == 0))
        (λ _. failed limits p q input rest malformed_response c q_sound refl)
        (λ _.
          advanced limits p (record q { state = body_chunk_size }) input rest c less
            (record {
              same_limits = sound.same_limits;
              few_headers = sound.few_headers;
              body_fits = BodyFits-at limits p body_chunk_crlf sound e;
            })
            good refl)

  pub parse_chunk_crlf-Rounds :
      p.state ≡ body_chunk_crlf → Rounds limits p input (parse_chunk_crlf p input)
  unfolding parse_chunk_crlf
  parse_chunk_crlf-Rounds e =
      line_Rounds limits p input _ v sound good (ap is_done e)
        (λ h rest line c less. read_chunk_crlf-Round h rest line c less e)

  -- The body with the first bytes of the input behind it.
  abbrev longer : ℕ → ResponseParser
  longer n = add_body p (copy_range input 0 n)

  length-longer :
      (n : ℕ) → n ≤ size input → length (longer n).response.body ≡ length p.response.body + n
  length-longer n h =
      length-append p.response.body (copy_range input 0 n)
      ∙ ap (λ (k : ℕ). length p.response.body + k) (length-copy_range input n v h)

  pub parse_body_length-Round :
      p.state ≡ body_length → Round limits p input (parse_body_length p input)
  unfolding parse_body_length
  parse_body_length-Round e =
      let n = if ltb (size input) p.body_remaining then size input else p.body_remaining in
      let few : n ≤ size input = ground arith in
      let own : n ≤ p.body_remaining = ground arith in
      let fits = BodyFits-at limits p body_length sound e in
      let c = Consumed-remove input n v few in
      let grown = length-longer n few in
      let left = p.body_remaining - n in
      if_cases (Round limits p input) (size input == 0)
        (λ _. waiting limits p input v sound good (ap is_done e))
        (λ some_input.
          if_cases (Round limits p input) (not (left == 0))
            (λ more.
              advanced limits p (record (longer n) { body_remaining = left }) input (remove input n)
                c (ground (arith, some_input, more, size-remove input n v few))
                (record {
                  same_limits = sound.same_limits;
                  few_headers = sound.few_headers;
                  body_fits = rw e (omega (arith, grown, fits, own));
                })
                good (ap is_done e))
            (λ _.
              completed limits p (record (longer n) { body_remaining = left }) input
                (remove input n) c sound.same_limits sound.few_headers
                (omega (arith, grown, fits, own)) good))

  pub parse_chunk_data-Round :
      p.state ≡ body_chunk_data → Round limits p input (parse_chunk_data p input)
  unfolding parse_chunk_data
  parse_chunk_data-Round e =
      let n = if ltb (size input) p.chunk_remaining then size input else p.chunk_remaining in
      let few : n ≤ size input = ground arith in
      let own : n ≤ p.chunk_remaining = ground arith in
      let fits = BodyFits-at limits p body_chunk_data sound e in
      let c = Consumed-remove input n v few in
      let grown = length-longer n few in
      let left = p.chunk_remaining - n in
      let shrunk = size-remove input n v few in
      if_cases (Round limits p input) (size input == 0)
        (λ _. waiting limits p input v sound good (ap is_done e))
        (λ some_input.
          if_cases (Round limits p input) (not (left == 0))
            (λ more.
              advanced limits p (record (longer n) { chunk_remaining = left }) input
                (remove input n) c (ground (arith, some_input, more, shrunk))
                (record {
                  same_limits = sound.same_limits;
                  few_headers = sound.few_headers;
                  body_fits = rw e (omega (arith, grown, fits, own));
                })
                good (ap is_done e))
            (λ _. record {
              kept = record {
                consumed = c;
                sound = record {
                  same_limits = sound.same_limits;
                  few_headers = sound.few_headers;
                  body_fits = omega (arith, grown, fits, own);
                };
                tells = (good, refl);
              };
              progress = inr (rw e (omega (arith, shrunk)));
            }))

  pub parse_body_until_close-Round :
      p.state ≡ body_until_close
      → AreSmall limits input
      → Round limits p input (parse_body_until_close p input)
  unfolding parse_body_until_close until_closed
  parse_body_until_close-Round e small =
      let P : Outcome → Type 0 = Round limits p input in
      let all : size input ≤ size input = omega arith in
      let fits = BodyFits-at limits p body_until_close sound e in
      let c = Consumed-remove input (size input) v all in
      let grown = length-longer (size input) all in
      if_cases P (size input == 0)
        (λ _.
          if_cases P (not p.closed) (λ _. waiting limits p input v sound good (ap is_done e))
            (λ _.
              completed limits p p input input (Consumed-nothing input v) sound.same_limits
                sound.few_headers fits good))
        (λ some_input.
          if_cases P (ltb p.limits.max_body (wrap (length p.response.body + size input)))
            (λ _.
              failed limits p p input input response_too_large (Consumed-nothing input v) sound
                refl)
            (λ room.
              let sum : length (longer (size input)).response.body ≤ p.limits.max_body = ground (
                arith,
                room,
                grown,
                fits,
                small.body,
                small.bytes,
                ap (λ (l : Limits). l.max_body) sound.same_limits,
              ) in
              if_cases P (not p.closed)
                (λ _.
                  advanced limits p (longer (size input)) input (remove input (size input)) c
                    (ground (arith, some_input, size-remove input (size input) v all))
                    (record {
                      same_limits = sound.same_limits;
                      few_headers = sound.few_headers;
                      body_fits = rw e sum;
                    })
                    good (ap is_done e))
                (λ _.
                  completed limits p (longer (size input)) input (remove input (size input)) c
                    sound.same_limits sound.few_headers sum good)))
