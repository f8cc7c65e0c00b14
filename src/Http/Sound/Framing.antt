-- ===== src/Http/Sound/Framing.antt =====
-- src/io/net/http/response.cpp: the choice of the framing.
use samurai.Prelude.{
  ℕ, ◌≤◌, ◌<◌, ◌≡◌, refl, true, false, not, Option, none, some, arith, if◌then◌else◌, if_cases,
  some_cases, length, ltb, ◌==◌, Bytes,
}
use samurai.Buffer.{Buffer, size}
use samurai.Http.{
  malformed_response, response_too_large, State, body_length, body_chunk_size, body_until_close,
  done, need_more, complete, Limits, ResponseParser, Outcome, fail,
}
use samurai.Http.Headers.{get, has}
use samurai.Http.Numbers.{parse_size}
use samurai.Http.Line.{move_to}
use samurai.Http.Framing.{frame_length, frame_plain, agreed_length, choose_body_framing}
use samurai.Http.Parser.{is_ok, is_done}
use samurai.Http.Consume.{Consumed}
use samurai.Text.{iequals, trim}
use samurai.Http.Framing.{transfer_encoding, chunked, identity, content_length, has_no_body}
use samurai.Http.Sound.{BodyFits, IsSound, Round, failed, completed, advanced}

module _ (limits : Limits) (p q : ResponseParser) (input rest : Buffer) (c : Consumed input rest)
    (less : size rest < size input) (same : q.limits ≡ limits)
    (few : length q.response.headers ≤ q.limits.max_header_count)
    (empty : length q.response.body ≡ 0) (good : is_ok q.status ≡ true) where
  malformed : IsSound limits q → Round limits p input (fail q rest malformed_response)
  malformed sound = failed limits p q input rest malformed_response c sound refl

  fixed_length :
      (n : ℕ)
      → n ≤ q.limits.max_body
      → Round limits p input (
          if n == 0
          then move_to (record q { body_remaining = n }) rest done complete
          else move_to (record q { body_remaining = n }) rest body_length need_more)
  fixed_length n fits =
      if_cases (Round limits p input) (n == 0)
        (λ _.
          completed limits p (record q { body_remaining = n }) input rest c same few
            (omega (arith, empty)) good)
        (λ _.
          advanced limits p (record q { body_remaining = n; state = body_length }) input rest c less
            (record {
              same_limits = same;
              few_headers = few;
              body_fits = omega (arith, empty, fits);
            })
            good refl)

  frame_length-Round :
      (seen : Option (Option Bytes))
      → IsSound limits q
      → Round limits p input (frame_length q rest seen)
  unfolding frame_length
  frame_length-Round none sound = malformed sound
  frame_length-Round (some none) sound = malformed sound
  frame_length-Round (some (some seen)) sound =
      some_cases (Round limits p input) (parse_size (trim seen)) (malformed sound) (λ n _.
        if_cases (Round limits p input) (ltb q.limits.max_body n)
          (λ _. failed limits p q input rest response_too_large c sound refl)
          (λ fits. fixed_length n (ground (arith, fits))))

  -- A framing without a known length.
  open_framing :
      (s : State)
      → is_done s ≡ false
      → BodyFits s (length q.response.body) q.body_remaining q.chunk_remaining q.limits.max_body
      → Round limits p input (move_to q rest s need_more)
  open_framing s going fits =
      advanced limits p (record q { state = s }) input rest c less
        (record { same_limits = same; few_headers = few; body_fits = fits }) good going

  frame_plain-Round : IsSound limits q → Round limits p input (frame_plain q rest)
  unfolding frame_plain
  frame_plain-Round sound =
      if_cases (Round limits p input) (has q.response.headers content_length)
        (λ _. frame_length-Round (agreed_length q.response.headers none) sound)
        (λ _. open_framing body_until_close refl (omega (arith, empty)))

  pub choose_body_framing-Round :
      IsSound limits q → Round limits p input (choose_body_framing q rest)
  unfolding choose_body_framing
  choose_body_framing-Round sound =
      let P : Outcome → Type 0 = Round limits p input in
      if_cases P (has_no_body q)
        (λ _. completed limits p q input rest c same few (omega (arith, empty)) good)
        (λ _.
          some_cases P (get q.response.headers transfer_encoding) (frame_plain-Round sound)
            (λ encoding _.
              if_cases P (iequals (trim encoding) chunked)
                (λ _. open_framing body_chunk_size refl (omega (arith, empty)))
                (λ _.
                  if_cases P (not (iequals (trim encoding) identity)) (λ _. malformed sound)
                    (λ _. frame_plain-Round sound))))
