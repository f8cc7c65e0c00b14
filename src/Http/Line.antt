-- ===== src/Http/Line.antt =====
-- src/io/net/http/response.cpp: takeLine, and what its callers do with it.
use samurai.Prelude.{
  ℕ, ◌+◌, ◌-◌, Bool, true, ◌&&◌, Option, none, some, if◌then◌else◌, ltb, ◌==◌, Bytes, wrap,
}
use samurai.Buffer.{Buffer, size, at, copy_range, remove}
use samurai.Buffer.Search.{find}
use samurai.Http.{response_too_large, State, Result, need_more, ResponseParser, Outcome, fail}

-- What takeLine leaves: `line` is none where it returns false.
pub record Taken : Type 0 where
  pub parser : ResponseParser
  pub input : Buffer
  pub line : Option Bytes
  pub too_long : Bool

-- The end of a line whose line feed stands at `lf`: a carriage return in front is no part of it.
unfoldable pub line_end : Buffer → ℕ → ℕ
line_end input lf = if ltb 0 lf && at input (lf - 1) == 0x0D then lf - 1 else lf

unfoldable pub take_line : ResponseParser → Buffer → Taken
take_line p input = elim (find input 0x0A 0) [
  | none ↦ record {
    parser = p;
    input = input;
    line = none;
    too_long = ltb p.limits.max_header_block (size input);
  }
  | some lf ↦
      if ltb p.limits.max_header_block lf
      then record { parser = p; input = input; line = none; too_long = true }
      else record {
        parser = record p { header_bytes = wrap (p.header_bytes + (lf + 1)) };
        input = remove input (lf + 1);
        line = some (copy_range input 0 (line_end input lf));
        too_long = ltb p.limits.max_header_block (wrap (p.header_bytes + (lf + 1)));
      }
]

-- The three lines that follow each call of takeLine, and the rest of its caller.
unfoldable pub with_line :
    Taken → (ResponseParser → Buffer → Bytes → Option Outcome) → Option Outcome
with_line t next = elim t.line [
  | none ↦ some (
      if t.too_long
      then fail t.parser t.input response_too_large
      else record { parser = t.parser; input = t.input; result = need_more })
  | some line ↦
      if t.too_long
      then some (fail t.parser t.input response_too_large)
      else next t.parser t.input line
]

abbrev pub move_to : ResponseParser → Buffer → State → Result → Outcome
move_to p input state result = record {
  parser = record p { state = state };
  input = input;
  result = result;
}
