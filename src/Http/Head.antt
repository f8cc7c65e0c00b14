-- ===== src/Http/Head.antt =====
-- src/io/net/http/response.cpp: the status line and the lines of the header block.
use samurai.Prelude.{
  ℕ, ◌+◌, ◌-◌, Bool, false, not, ◌||◌, Option, none, some, [], ◌∷◌, if◌then◌else◌, length, take,
  drop, ltb, leb, ◌==◌, Bytes, slice, same_bytes, index_of,
}
use samurai.Buffer.{Buffer}
use samurai.Text.{istarts_with, trim, split_once}
use samurai.Http.{
  Status, malformed_response, response_too_large, header_block, need_more, Response, ResponseParser,
  Outcome, fail,
}
use samurai.Http.Headers.{add}
use samurai.Http.Numbers.{parse_size}
use samurai.Http.Line.{take_line, with_line, move_to}

-- "HTTP/", "1.0" and "1.1"
abbrev pub http_slash : Bytes
http_slash = 0x48 ∷ 0x54 ∷ 0x54 ∷ 0x50 ∷ 0x2F ∷ []

abbrev pub is_version : Bytes → Bool
is_version v = same_bytes v (0x31 ∷ 0x2E ∷ 0x30 ∷ []) || same_bytes v (0x31 ∷ 0x2E ∷ 0x31 ∷ [])

-- The loop over the blanks in front of the status code.
unfoldable pub skip_blanks : Bytes → Bytes
skip_blanks [] = []
skip_blanks (c ∷ cs) = if c == 0x20 then skip_blanks cs else c ∷ cs

-- The status code and, behind a blank, the reason phrase.
unfoldable pub code_and_reason : Bytes → Bytes × Option Bytes
code_and_reason text = elim (index_of 0x20 text) [
  | none ↦ (text, none)
  | some second ↦ (take second text, some (trim (drop (second + 1) text)))
]

unfoldable pub status_response : Response → ℕ → Option Bytes → Response
status_response r value none = record r { status_code = value }
status_response r value (some reason) = record r { status_code = value; reason = reason }

-- The rest of parseStatusLine, with the line.
unfoldable pub read_status_line : ResponseParser → Buffer → Bytes → Outcome
read_status_line p input line =
    if not (istarts_with line http_slash)
    then fail p input malformed_response
    else elim (index_of 0x20 line) [
      | none ↦ fail p input malformed_response
      | some first ↦
          let parts = code_and_reason (skip_blanks (drop first line)) in
          if not (is_version (slice line 5 (first - 5)))
          then fail p input malformed_response
          else if not (length parts.0 == 3)
          then fail p input malformed_response
          else elim (parse_size parts.0) [
            | none ↦ fail p input malformed_response
            | some value ↦
                if ltb value 100 || ltb 599 value
                then fail p input malformed_response
                else move_to (record p { response = status_response p.response value parts.1 })
                    input header_block need_more
          ]
    ]

unfoldable pub parse_status_line : ResponseParser → Buffer → Option Outcome
parse_status_line p input =
    with_line (take_line p input) (λ q rest line. some (read_status_line q rest line))

-- A blank at the front of a line.
abbrev pub is_continuation_line : Bytes → Bool
is_continuation_line [] = false
is_continuation_line (c ∷ cs) = c == 0x20 || c == 0x09

-- A line of the header block: the parser with the field, or the status to fail with.
pub data Field : Type 0 where
  refused : Status → Field
  added : ResponseParser → Field

unfoldable pub read_field : ResponseParser → Bytes → Field
read_field p line =
    if is_continuation_line line then refused malformed_response else elim (split_once line 0x3A) [
      | none ↦ refused malformed_response
      | some (name, value) ↦
          if length name == 0 || not (same_bytes (trim name) name)
          then refused malformed_response
          else if leb p.limits.max_header_count (length p.response.headers)
          then refused response_too_large
          else added (record p {
            response = record p.response { headers = add p.response.headers name (trim value) };
          })
    ]
