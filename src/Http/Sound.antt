-- ===== src/Http/Sound.antt =====
-- src/io/net/http/response.cpp: what each method keeps.
pub mod Head
pub mod Framing
pub mod Lines
pub mod Body
use samurai.Prelude.{
  ℕ, ◌+◌, ◌-◌, ◌*◌, ◌^◌, ◌≤◌, ◌<◌, ◌≡◌, ◌⊎◌, refl, true, false, Option, none, some, inl, inr, arith,
  if◌then◌else◌, length, ◌==◌,
}
use samurai.Buffer.{Buffer, size}
use samurai.Buffer.Room.{IsValid}
use samurai.Http.{
  Status, State, status_line, header_block, body_length, body_chunk_size, body_chunk_data,
  body_chunk_crlf, body_trailers, body_until_close, done, Result, need_more, complete, error,
  Limits, ResponseParser, Outcome, fail,
}
use samurai.Http.Line.{move_to}
use samurai.Http.Parser.{is_ok, is_done, state_index, returns}
use samurai.Http.Consume.{Consumed, Consumed-nothing}

-- The bounds on the length of the body, on what is left of it, and on what is left of a chunk.
abbrev pub BodyFits : State → ℕ → ℕ → ℕ → ℕ → Type 0
BodyFits status_line body left chunk bound = body ≡ 0
BodyFits header_block body left chunk bound = body ≡ 0
BodyFits body_length body left chunk bound = body + left ≤ bound
BodyFits body_chunk_size body left chunk bound = body ≤ bound
BodyFits body_chunk_data body left chunk bound = body + chunk ≤ bound
BodyFits body_chunk_crlf body left chunk bound = body ≤ bound
BodyFits body_trailers body left chunk bound = body ≤ bound
BodyFits body_until_close body left chunk bound = body ≤ bound
BodyFits done body left chunk bound = body ≤ bound

pub BodyFits-le :
    (s : State) (body left chunk bound : ℕ) → BodyFits s body left chunk bound → body ≤ bound
BodyFits-le status_line body left chunk bound h = omega (arith, h)
BodyFits-le header_block body left chunk bound h = omega (arith, h)
BodyFits-le body_length body left chunk bound h = omega (arith, h)
BodyFits-le body_chunk_size body left chunk bound h = h
BodyFits-le body_chunk_data body left chunk bound h = omega (arith, h)
BodyFits-le body_chunk_crlf body left chunk bound h = h
BodyFits-le body_trailers body left chunk bound h = h
BodyFits-le body_until_close body left chunk bound h = h
BodyFits-le done body left chunk bound h = h

pub record IsSound (limits : Limits) (p : ResponseParser) : Type 0 where
  pub same_limits : p.limits ≡ limits
  pub few_headers : length p.response.headers ≤ p.limits.max_header_count
  pub body_fits :
      BodyFits p.state (length p.response.body) p.body_remaining p.chunk_remaining p.limits.max_body

-- The result tells the state.
abbrev pub Tells : Result → ResponseParser → Type 0
Tells need_more p = (is_ok p.status ≡ true) × (is_done p.state ≡ false)
Tells complete p = (is_ok p.status ≡ true) × (is_done p.state ≡ true)
Tells error p = is_ok p.status ≡ false

-- No sum of lengths that the parser compares wraps.
pub record AreSmall (limits : Limits) (input : Buffer) : Type 0 where
  pub body : limits.max_body < 2 ^ 63
  pub chunk : limits.max_chunk_size < 2 ^ 63
  pub bytes : size input < 2 ^ 63

-- What a method leaves of `input`.
pub record Kept (limits : Limits) (input : Buffer) (s : Outcome) : Type 0 where
  pub consumed : Consumed input s.input
  pub sound : IsSound limits s.parser
  pub tells : Tells s.result s.parser

-- A round from the data of a chunk to its end may take nothing.
abbrev pub rank : State → ℕ
rank s = if state_index s == 4 then 1 else 0

-- A round of `parse` returns, or comes closer to the end.
pub record Round (limits : Limits) (p : ResponseParser) (input : Buffer) (s : Outcome)
    : Type 0 where
  pub kept : Kept limits input s
  pub progress :
      (returns p input s ≡ true)
      ⊎ (2 * size s.input + rank s.parser.state < 2 * size input + rank p.state)

abbrev pub Rounds : Limits → ResponseParser → Buffer → Option Outcome → Type 0
Rounds limits p input none = ⊥
Rounds limits p input (some s) = Round limits p input s

pub rank_le : (s : State) → rank s ≤ 1
rank_le s = ground arith

pub failed :
    (limits : Limits) (p q : ResponseParser) (input rest : Buffer) (why : Status)
    → Consumed input rest
    → IsSound limits q
    → is_ok why ≡ false
    → Round limits p input (fail q rest why)
failed limits p q input rest why c sound bad = record {
  kept = record {
    consumed = c;
    sound = record {
      same_limits = sound.same_limits;
      few_headers = sound.few_headers;
      body_fits = sound.body_fits;
    };
    tells = bad;
  };
  progress = inl refl;
}

-- A round that ends the response.
pub completed :
    (limits : Limits) (p q : ResponseParser) (input rest : Buffer)
    → Consumed input rest
    → q.limits ≡ limits
    → length q.response.headers ≤ q.limits.max_header_count
    → length q.response.body ≤ q.limits.max_body
    → is_ok q.status ≡ true
    → Round limits p input (move_to q rest done complete)
completed limits p q input rest c same few fits good = record {
  kept = record {
    consumed = c;
    sound = record { same_limits = same; few_headers = few; body_fits = fits };
    tells = (good, refl);
  };
  progress = inl refl;
}

-- A round that took bytes.
pub advanced :
    (limits : Limits) (p q : ResponseParser) (input rest : Buffer)
    → Consumed input rest
    → size rest < size input
    → IsSound limits q
    → is_ok q.status ≡ true
    → is_done q.state ≡ false
    → Round limits p input (record { parser = q; input = rest; result = need_more })
advanced limits p q input rest c less sound good going = record {
  kept = record { consumed = c; sound = sound; tells = (good, going) };
  progress = inr (omega (arith, less, rank_le q.state));
}

-- A round that changed nothing.
pub waiting :
    (limits : Limits) (p : ResponseParser) (input : Buffer)
    → IsValid input
    → IsSound limits p
    → is_ok p.status ≡ true
    → is_done p.state ≡ false
    → Round limits p input (record { parser = p; input = input; result = need_more })
waiting limits p input v sound good going = record {
  kept = record { consumed = Consumed-nothing input v; sound = sound; tells = (good, going) };
  progress = inl (ground arith);
}
