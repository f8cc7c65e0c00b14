-- ===== src/Http/Framing.antt =====
-- src/io/net/http/response.cpp: chooseBodyFraming.
use samurai.Prelude.{
  Bool, false, not, ◌&&◌, ◌||◌, Option, none, some, [], ◌∷◌, if◌then◌else◌, ltb, leb, ◌==◌, Bytes,
  same_bytes,
}
use samurai.Buffer.{Buffer}
use samurai.Text.{iequals, trim}
use samurai.Http.{
  malformed_response, response_too_large, body_length, body_chunk_size, body_until_close, done,
  need_more, complete, Headers, ResponseParser, Outcome, fail,
}
use samurai.Http.Headers.{get, has}
use samurai.Http.Numbers.{parse_size}
use samurai.Http.Line.{move_to}

-- "Transfer-Encoding", "chunked", "identity" and "Content-Length"
abbrev pub transfer_encoding : Bytes
transfer_encoding =
    0x54 ∷ 0x72 ∷ 0x61 ∷ 0x6E ∷ 0x73 ∷ 0x66 ∷ 0x65 ∷ 0x72 ∷ 0x2D ∷ 0x45 ∷ 0x6E ∷ 0x63 ∷ 0x6F ∷ 0x64
    ∷ 0x69 ∷ 0x6E ∷ 0x67 ∷ []

abbrev pub chunked : Bytes
chunked = 0x63 ∷ 0x68 ∷ 0x75 ∷ 0x6E ∷ 0x6B ∷ 0x65 ∷ 0x64 ∷ []

abbrev pub identity : Bytes
identity = 0x69 ∷ 0x64 ∷ 0x65 ∷ 0x6E ∷ 0x74 ∷ 0x69 ∷ 0x74 ∷ 0x79 ∷ []

abbrev pub content_length : Bytes
content_length =
    0x43 ∷ 0x6F ∷ 0x6E ∷ 0x74 ∷ 0x65 ∷ 0x6E ∷ 0x74 ∷ 0x2D ∷ 0x4C ∷ 0x65 ∷ 0x6E ∷ 0x67 ∷ 0x74 ∷ 0x68
    ∷ []

-- Whether a value disagrees with the one seen before.
abbrev pub disagrees : Option Bytes → Bytes → Bool
disagrees none value = false
disagrees (some seen) value = not (same_bytes (trim seen) (trim value))

-- The loop over the Content-Length fields: none when two of them disagree.
unfoldable pub agreed_length : Headers → Option Bytes → Option (Option Bytes)
agreed_length [] seen = some seen
agreed_length ((key, value) ∷ fields) seen =
    let skipped = agreed_length fields seen in
    let taken = agreed_length fields (some value) in
    if not (iequals key content_length)
    then skipped
    else if disagrees seen value
    then none
    else taken

-- The block of chooseBodyFraming for a Content-Length, with the value that the fields agree on.
unfoldable pub frame_length : ResponseParser → Buffer → Option (Option Bytes) → Outcome
frame_length p input none = fail p input malformed_response
frame_length p input (some none) = fail p input malformed_response
frame_length p input (some (some seen)) = elim (parse_size (trim seen)) [
  | none ↦ fail p input malformed_response
  | some n ↦
      if ltb p.limits.max_body n
      then fail p input response_too_large
      else if n == 0
      then move_to (record p { body_remaining = n }) input done complete
      else move_to (record p { body_remaining = n }) input body_length need_more
]

-- The framing without a transfer coding that counts.
unfoldable pub frame_plain : ResponseParser → Buffer → Outcome
frame_plain p input =
    if has p.response.headers content_length
    then frame_length p input (agreed_length p.response.headers none)
    else move_to p input body_until_close need_more

abbrev pub has_no_body : ResponseParser → Bool
has_no_body p =
    let code = p.response.status_code in
    p.no_body || (leb 100 code && ltb code 200) || code == 204 || code == 304

unfoldable pub choose_body_framing : ResponseParser → Buffer → Outcome
choose_body_framing p input =
    if has_no_body p
    then move_to p input done complete
    else elim (get p.response.headers transfer_encoding) [
      | none ↦ frame_plain p input
      | some encoding ↦
          if iequals (trim encoding) chunked
          then move_to p input body_chunk_size need_more
          else if not (iequals (trim encoding) identity)
          then fail p input malformed_response
          else frame_plain p input
    ]
