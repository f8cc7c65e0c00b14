-- ===== src/Http.antt =====
-- src/io/net/http/response.cpp, include/samurai/io/net/http/response.h: the header fields and the
-- incremental parser of responses. The parser's methods return the parser, the buffer that they
-- leave and the result; `none` means that the fuel of a loop ran out.
pub mod Headers
pub mod Numbers
pub mod Line
pub mod Head
pub mod Framing
pub mod Parser
pub mod Consume
pub mod Sound
pub mod Ending
pub mod Reached
pub mod Calls
mod Tests
use samurai.Prelude.{ℕ, Bool, true, List, Bytes, [], false}
use samurai.Buffer.{Buffer}

pub data Status : Type 0 where
  ok : Status
  invalid_url : Status
  connect_failed : Status
  connect_timeout : Status
  request_timeout : Status
  disconnected : Status
  malformed_response : Status
  response_too_large : Status
  tls_failed : Status
  too_many_redirects : Status
  insecure_redirect : Status
  aborted : Status

pub data State : Type 0 where
  status_line : State
  header_block : State
  body_length : State
  body_chunk_size : State
  body_chunk_data : State
  body_chunk_crlf : State
  body_trailers : State
  body_until_close : State
  done : State

pub data Result : Type 0 where
  need_more : Result
  complete : Result
  error : Result

-- The fields of a header block: names and values.
abbrev pub Headers : Type 0
Headers = List (Bytes × Bytes)

pub record Response : Type 0 where
  pub status_code : ℕ
  pub reason : Bytes
  pub headers : Headers
  pub body : Bytes

pub record Limits : Type 0 where
  pub max_header_block : ℕ
  pub max_header_count : ℕ
  pub max_body : ℕ
  pub max_chunk_size : ℕ

pub record ResponseParser : Type 0 where
  pub limits : Limits
  pub state : State
  pub status : Status
  pub response : Response
  pub header_bytes : ℕ
  pub body_remaining : ℕ
  pub chunk_remaining : ℕ
  pub no_body : Bool
  pub closed : Bool

-- What a method leaves.
pub record Outcome : Type 0 where
  pub parser : ResponseParser
  pub input : Buffer
  pub result : Result

abbrev pub default_limits : Limits
default_limits = record {
  max_header_block = 32768;
  max_header_count = 100;
  max_body = 1048576;
  max_chunk_size = 1048576;
}

-- Response::clear
abbrev pub no_response : Response
no_response = record { status_code = 0; reason = []; headers = []; body = [] }

-- ResponseParser(const Limits&), and what `reset` leaves.
abbrev pub fresh : Limits → ResponseParser
fresh limits = record {
  limits = limits;
  state = status_line;
  status = ok;
  response = no_response;
  header_bytes = 0;
  body_remaining = 0;
  chunk_remaining = 0;
  no_body = false;
  closed = false;
}

abbrev pub reset : ResponseParser → ResponseParser
reset p = fresh p.limits

abbrev pub fail : ResponseParser → Buffer → Status → Outcome
fail p input why = record { parser = record p { status = why }; input = input; result = error }

abbrev pub expect_no_body : ResponseParser → ResponseParser
expect_no_body p = record p { no_body = true }
