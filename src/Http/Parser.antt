-- ===== src/Http/Parser.antt =====
-- src/io/net/http/response.cpp: the loops of the header block and the trailers, the body, parse and
-- finish.
use samurai.Prelude.{
  ℕ, zero, suc, ◌+◌, ◌-◌, ◌*◌, Bool, true, false, not, ◌&&◌, ◌||◌, Option, none, some, ◌++◌,
  if◌then◌else◌, length, ltb, ◌==◌, Bytes, wrap,
}
use samurai.Buffer.{Buffer, size, copy_range, remove}
use samurai.Http.{
  Status, malformed_response, response_too_large, disconnected, ok, State, status_line,
  header_block, body_length, body_chunk_size, body_chunk_data, body_chunk_crlf, body_trailers,
  body_until_close, done, Result, need_more, complete, error, ResponseParser, Outcome, fail,
}
use samurai.Http.Numbers.{parse_chunk_size}
use samurai.Http.Line.{take_line, with_line, move_to}
use samurai.Http.Head.{refused, added, read_field, parse_status_line}
use samurai.Http.Framing.{choose_body_framing}

-- The loop of parseHeaderBlock. Each round takes a line.
unfoldable pub header_loop : ℕ → ResponseParser → Buffer → Option Outcome
header_loop zero p input = none
header_loop (suc fuel) p input = with_line (take_line p input) (λ q rest line.
    elim (length line == 0) [
      | true ↦ some (choose_body_framing q rest)
      | false ↦ elim (read_field q line) [
        | refused why ↦ some (fail q rest why)
        | added more ↦ header_loop fuel more rest
      ]
    ])

unfoldable pub parse_header_block : ResponseParser → Buffer → Option Outcome
parse_header_block p input = header_loop (size input + 1) p input

-- Bytes taken from the front of the input to the end of the body.
abbrev pub add_body : ResponseParser → Bytes → ResponseParser
add_body p bytes = record p { response = record p.response { body = p.response.body ++ bytes } }

unfoldable pub parse_body_length : ResponseParser → Buffer → Outcome
parse_body_length p input =
    let n = if ltb (size input) p.body_remaining then size input else p.body_remaining in
    let more = record (add_body p (copy_range input 0 n)) {
      body_remaining = p.body_remaining - n;
    } in
    if size input == 0
    then move_to p input p.state need_more
    else if not (more.body_remaining == 0)
    then move_to more (remove input n) p.state need_more
    else move_to more (remove input n) done complete

-- The rest of parseChunkSize, with the line.
unfoldable pub read_chunk_size : ResponseParser → Buffer → Bytes → Outcome
read_chunk_size p input line = elim (parse_chunk_size line) [
  | none ↦ fail p input malformed_response
  | some n ↦
      if ltb p.limits.max_chunk_size n
      then fail p input response_too_large
      else if ltb p.limits.max_body (wrap (length p.response.body + n))
      then fail p input response_too_large
      else if n == 0
      then move_to p input body_trailers need_more
      else move_to (record p { chunk_remaining = n }) input body_chunk_data need_more
]

unfoldable pub parse_chunk_header : ResponseParser → Buffer → Option Outcome
parse_chunk_header p input =
    with_line (take_line p input) (λ q rest line. some (read_chunk_size q rest line))

unfoldable pub parse_chunk_data : ResponseParser → Buffer → Outcome
parse_chunk_data p input =
    let n = if ltb (size input) p.chunk_remaining then size input else p.chunk_remaining in
    let more = record (add_body p (copy_range input 0 n)) {
      chunk_remaining = p.chunk_remaining - n;
    } in
    if size input == 0
    then move_to p input p.state need_more
    else if not (more.chunk_remaining == 0)
    then move_to more (remove input n) p.state need_more
    else move_to more (remove input n) body_chunk_crlf need_more

unfoldable pub read_chunk_crlf : ResponseParser → Buffer → Bytes → Outcome
read_chunk_crlf p input line =
    if not (length line == 0)
    then fail p input malformed_response
    else move_to p input body_chunk_size need_more

unfoldable pub parse_chunk_crlf : ResponseParser → Buffer → Option Outcome
parse_chunk_crlf p input =
    with_line (take_line p input) (λ q rest line. some (read_chunk_crlf q rest line))

-- The loop of parseTrailers.
unfoldable pub trailer_loop : ℕ → ResponseParser → Buffer → Option Outcome
trailer_loop zero p input = none
trailer_loop (suc fuel) p input = with_line (take_line p input) (λ q rest line.
    elim (length line == 0) [
      | true ↦ some (move_to q rest done complete)
      | false ↦ trailer_loop fuel q rest
    ])

unfoldable pub parse_trailers : ResponseParser → Buffer → Option Outcome
parse_trailers p input = trailer_loop (size input + 1) p input

-- The end of parseBodyUntilClose.
unfoldable pub until_closed : ResponseParser → Buffer → Outcome
until_closed p input =
    if not p.closed then move_to p input p.state need_more else move_to p input done complete

unfoldable pub parse_body_until_close : ResponseParser → Buffer → Outcome
parse_body_until_close p input =
    if size input == 0
    then until_closed p input
    else if ltb p.limits.max_body (wrap (length p.response.body + size input))
    then fail p input response_too_large
    else until_closed (add_body p (copy_range input 0 (size input))) (remove input (size input))

-- The switch of `parse`.
unfoldable pub parse_state : State → ResponseParser → Buffer → Option Outcome
parse_state status_line p input = parse_status_line p input
parse_state header_block p input = parse_header_block p input
parse_state body_length p input = some (parse_body_length p input)
parse_state body_chunk_size p input = parse_chunk_header p input
parse_state body_chunk_data p input = some (parse_chunk_data p input)
parse_state body_chunk_crlf p input = parse_chunk_crlf p input
parse_state body_trailers p input = parse_trailers p input
parse_state body_until_close p input = some (parse_body_until_close p input)
parse_state done p input = some (move_to p input done complete)

abbrev pub state_index : State → ℕ
state_index status_line = 0
state_index header_block = 1
state_index body_length = 2
state_index body_chunk_size = 3
state_index body_chunk_data = 4
state_index body_chunk_crlf = 5
state_index body_trailers = 6
state_index body_until_close = 7
state_index done = 8

abbrev pub is_need_more : Result → Bool
is_need_more need_more = true
is_need_more complete = false
is_need_more error = false

-- Whether a round returns: a result, or nothing that it changed.
abbrev pub returns : ResponseParser → Buffer → Outcome → Bool
returns p input s =
    not (is_need_more s.result)
    || (state_index s.parser.state == state_index p.state && size s.input == size input)

-- The loop of `parse`.
unfoldable pub parse_loop : ℕ → ResponseParser → Buffer → Option Outcome
parse_loop zero p input = none
parse_loop (suc fuel) p input = elim (parse_state p.state p input) [
  | none ↦ none
  | some s ↦ elim (returns p input s) [ true ↦ some s | false ↦ parse_loop fuel s.parser s.input ]
]

abbrev pub is_ok : Status → Bool
is_ok s = elim s [ ok ↦ true | _ ↦ false ]

-- Each round but the last takes a byte or goes from the data of a chunk to its end.
unfoldable pub parse : ResponseParser → Buffer → Option Outcome
parse p input =
    if not (is_ok p.status)
    then some (record { parser = p; input = input; result = error })
    else parse_loop (2 * size input + 2) p input

abbrev pub is_done : State → Bool
is_done s = state_index s == 8

unfoldable pub finish : ResponseParser → ResponseParser × Result
finish p =
    if not (is_ok p.status)
    then (p, error)
    else if is_done p.state
    then (p, complete)
    else if state_index p.state == 7
    then (record p { closed = true; state = done }, complete)
    else (record p { closed = true; status = disconnected }, error)
