-- ===== src/Http/Tests.antt =====
-- The theorems on the response parser at concrete inputs.
use samurai.Prelude.{
  ◌≡◌, refl, Option, some, none, [], ◌∷◌, arith, Bytes, length, if◌then◌else◌, ◌==◌, ◌≤◌, ◌<◌, ◌^◌,
}
use samurai.Buffer.{Buffer, remove}
use samurai.Buffer.Room.{IsValid}
use samurai.Http.{
  body_length, malformed_response, complete, error, Result, default_limits, ResponseParser, Outcome,
  fresh,
}
use samurai.Buffer.{settle, compact, copy_range, at}
use samurai.Buffer.Search.{find}
use samurai.Text.{trim, skip_spaces, drop_spaces, is_space, split_once, iequals, istarts_with}
use samurai.Text.Numbers.{is_digit, all_digits, decimal}
use samurai.Http.Headers.{add, get, has}
use samurai.Http.Numbers.{parse_size, parse_size_loop, capped, parse_size-decimal}
use samurai.Http.Line.{line_end, take_line, with_line}
use samurai.Http.Head.{
  skip_blanks, code_and_reason, status_response, read_status_line, parse_status_line, read_field,
}
use samurai.Http.Framing.{agreed_length, frame_length, frame_plain, choose_body_framing}
use samurai.Http.Parser.{
  header_loop, parse_header_block, parse_body_length, parse_state, parse_loop, parse, finish,
}
use samurai.Http.Sound.{IsSound, AreSmall, Kept}
use samurai.Http.Reached.{parse-Kept, start, parses, Reaches-bounds}
use samurai.Http.Calls.{result_stays, TakesBody, parse-TakesBody}

abbrev buffer_of : Bytes → Buffer
buffer_of bytes = record { buf = bytes; head = 0; len = length bytes; initial_capasity = 0 }

-- "HTTP/1.1 200 OK", "Content-Length: 2", an empty line and "hi!"
abbrev reply : Bytes
reply =
    0x48 ∷ 0x54 ∷ 0x54 ∷ 0x50 ∷ 0x2F ∷ 0x31 ∷ 0x2E ∷ 0x31 ∷ 0x20 ∷ 0x32 ∷ 0x30 ∷ 0x30 ∷ 0x20 ∷ 0x4F
    ∷ 0x4B ∷ 0x0D ∷ 0x0A ∷ 0x43 ∷ 0x6F ∷ 0x6E ∷ 0x74 ∷ 0x65 ∷ 0x6E ∷ 0x74 ∷ 0x2D ∷ 0x4C ∷ 0x65
    ∷ 0x6E ∷ 0x67 ∷ 0x74 ∷ 0x68 ∷ 0x3A ∷ 0x20 ∷ 0x32 ∷ 0x0D ∷ 0x0A ∷ 0x0D ∷ 0x0A ∷ 0x68 ∷ 0x69
    ∷ 0x21 ∷ []

-- A status line with a blank in the place of the version.
abbrev nonsense : Bytes
nonsense = 0x48 ∷ 0x54 ∷ 0x54 ∷ 0x50 ∷ 0x2F ∷ 0x20 ∷ 0x32 ∷ 0x0A ∷ []

abbrev body_of : Option Outcome → Option (Bytes × Result)
body_of none = none
body_of (some s) = some (s.parser.response.body, s.result)

test_reply :
    body_of (parse (fresh default_limits) (buffer_of reply)) ≡ some (0x68 ∷ 0x69 ∷ [], complete)
unfolding parse parse_loop parse_state parse_status_line parse_header_block header_loop with_line
    take_line line_end read_status_line status_response skip_blanks code_and_reason read_field
    choose_body_framing frame_plain frame_length agreed_length parse_body_length get has add
    parse_size parse_size_loop is_digit trim skip_spaces drop_spaces is_space split_once iequals
    istarts_with find remove settle compact copy_range at
test_reply = refl

-- What `parse` leaves of the nonsense.
abbrev refused : Outcome
refused = record {
  parser = record (fresh default_limits) { status = malformed_response; header_bytes = 8 };
  input = record (buffer_of nonsense) { len = 0 };
  result = error;
}

test_nonsense : parse (fresh default_limits) (buffer_of nonsense) ≡ some refused
unfolding parse parse_loop parse_state parse_status_line parse_header_block header_loop with_line
    take_line line_end read_status_line status_response skip_blanks code_and_reason read_field
    choose_body_framing frame_plain frame_length agreed_length parse_body_length get has add
    parse_size parse_size_loop is_digit trim skip_spaces drop_spaces is_space split_once iequals
    istarts_with find remove settle compact copy_range at
test_nonsense = refl

buffer_of-IsValid : (bytes : Bytes) → length bytes < 2 ^ 63 → IsValid (buffer_of bytes)
buffer_of-IsValid bytes h = record {
  resettable = omega arith;
  addressable = omega (arith, h);
  stored = omega arith;
  ordered = omega arith;
}

fresh-IsSound : IsSound default_limits (fresh default_limits)
fresh-IsSound = record { same_limits = refl; few_headers = omega arith; body_fits = refl }

small : (bytes : Bytes) → length bytes < 2 ^ 63 → AreSmall default_limits (buffer_of bytes)
small bytes h = record { body = omega arith; chunk = omega arith; bytes = omega (arith, h) }

parse_example :
    (s : Outcome) × ((parse (fresh default_limits) (buffer_of reply) ≡ some s)
      × Kept default_limits (buffer_of reply) s)
parse_example =
    parse-Kept default_limits (fresh default_limits) (buffer_of reply)
      (buffer_of-IsValid reply (omega arith)) fresh-IsSound (small reply (omega arith))

Reaches-bounds_example :
    (refused.parser.limits ≡ default_limits)
    × (length refused.parser.response.headers ≤ default_limits.max_header_count)
    × (length refused.parser.response.body ≤ default_limits.max_body)
Reaches-bounds_example = Reaches-bounds default_limits refused.parser (
    parses start (buffer_of nonsense) refused (buffer_of-IsValid nonsense (omega arith))
      (small nonsense (omega arith)) test_nonsense)

stays_example :
    (parse refused.parser (buffer_of reply)
      ≡ some (record { parser = refused.parser; input = buffer_of reply; result = error }))
    × (finish refused.parser ≡ (refused.parser, error))
stays_example =
    result_stays default_limits (fresh default_limits) (buffer_of nonsense) (buffer_of reply)
      refused (buffer_of-IsValid nonsense (omega arith)) fresh-IsSound
      (small nonsense (omega arith)) test_nonsense refl

-- A parser in front of a body of two bytes.
abbrev before_body : ResponseParser
before_body = record (fresh default_limits) { state = body_length; body_remaining = 2 }

parse-TakesBody_example : (s : Outcome) × TakesBody before_body (buffer_of (0x68 ∷ [])) s
parse-TakesBody_example =
    parse-TakesBody before_body (buffer_of (0x68 ∷ []))
      (buffer_of-IsValid (0x68 ∷ []) (omega arith)) refl refl (omega arith)

-- "42"
abbrev forty_two : Bytes
forty_two = 0x34 ∷ 0x32 ∷ []

parse_size_example :
    parse_size forty_two
    ≡ (if length forty_two == 0 then none else capped (all_digits forty_two) (decimal forty_two 0))
parse_size_example = parse_size-decimal forty_two
