-- ===== src/Http/Reached.antt =====
-- src/io/net/http/response.cpp: `parse` returns, and the parsers that calls in any order lead to.
use samurai.Prelude.{◌≤◌, ◌≡◌, refl, ap, not, Option, none, some, arith, if_cases, length, ◌==◌}
use samurai.Buffer.{Buffer}
use samurai.Buffer.Room.{IsValid}
use samurai.Http.{Result, Limits, ResponseParser, Outcome}
use samurai.Http.Parser.{is_ok, is_done, state_index}
use samurai.Http.Sound.{BodyFits-le, IsSound, AreSmall, Kept}
use samurai.Http.{fresh, reset, expect_no_body}
use samurai.Http.Parser.{parse, finish}
use samurai.Http.Ending.{Ends, parse-Ends}

-- On a valid buffer of less than 2^63 bytes, with a body bound and a chunk bound below 2^63,
-- `parse` of a parser within its bounds returns: the fuel of its three loops is enough, the buffer
-- that it leaves is valid and is what remains when bytes are taken from the front of the input, the
-- parser is within its bounds, and the result is Error when the status is not Ok, Complete when the
-- state is Done, and NeedMore otherwise.
pub parse-Kept :
    (limits : Limits) (p : ResponseParser) (input : Buffer)
    → IsValid input
    → IsSound limits p
    → AreSmall limits input
    → (s : Outcome) × ((parse p input ≡ some s) × Kept limits input s)
parse-Kept limits p input v sound small =
    returned (parse p input) refl (parse-Ends limits p input v sound small)
  where
    returned :
        (o : Option Outcome)
        → parse p input ≡ o
        → Ends limits input o
        → (s : Outcome) × ((parse p input ≡ some s) × Kept limits input s)
    returned none e k = absurd k
    returned (some s) e k = (s, (e, k))

-- The parsers that calls of the methods in any order lead to.
pub data Reaches (limits : Limits) : ResponseParser → Type 0 where
  start : Reaches limits (fresh limits)
  expects : {p : ResponseParser} → Reaches limits p → Reaches limits (expect_no_body p)
  resets : {p : ResponseParser} → Reaches limits p → Reaches limits (reset p)
  finishes : {p : ResponseParser} → Reaches limits p → Reaches limits (finish p).0
  parses :
      {p : ResponseParser}
      → Reaches limits p
      → (input : Buffer) (s : Outcome) → IsValid input
      → AreSmall limits input
      → parse p input ≡ some s
      → Reaches limits s.parser

fresh-IsSound : (limits : Limits) → IsSound limits (fresh limits)
fresh-IsSound limits = record { same_limits = refl; few_headers = omega arith; body_fits = refl }

Ends-some :
    (limits : Limits) (input : Buffer) (o : Option Outcome) (s : Outcome)
    → o ≡ some s
    → Ends limits input o
    → Kept limits input s
Ends-some limits input o s e k = let k' = rw e at k in k'

finish-IsSound :
    (limits : Limits) (p : ResponseParser) → IsSound limits p → IsSound limits (finish p).0
unfolding finish
finish-IsSound limits p sound =
    if_cases (λ (r : ResponseParser × Result). IsSound limits r.0) (not (is_ok p.status))
      (λ _. sound)
      (λ _.
        if_cases (λ (r : ResponseParser × Result). IsSound limits r.0) (is_done p.state)
          (λ _. sound)
          (λ _.
            if_cases (λ (r : ResponseParser × Result). IsSound limits r.0)
              (state_index p.state == 7)
              (λ _. record {
                same_limits = sound.same_limits;
                few_headers = sound.few_headers;
                body_fits =
                    BodyFits-le p.state (length p.response.body) p.body_remaining p.chunk_remaining
                      p.limits.max_body sound.body_fits;
              })
              (λ _. record {
                same_limits = sound.same_limits;
                few_headers = sound.few_headers;
                body_fits = sound.body_fits;
              })))

Reaches-IsSound : (limits : Limits) (p : ResponseParser) → Reaches limits p → IsSound limits p
Reaches-IsSound limits p start = fresh-IsSound limits
Reaches-IsSound limits p (expects {p = q} r) =
    let s = Reaches-IsSound limits q r in
    record { same_limits = s.same_limits; few_headers = s.few_headers; body_fits = s.body_fits }
Reaches-IsSound limits p (resets {p = q} r) =
    let s = Reaches-IsSound limits q r in rw s.same_limits (fresh-IsSound limits)
Reaches-IsSound limits p (finishes {p = q} r) = finish-IsSound limits q (Reaches-IsSound limits q r)
Reaches-IsSound limits p (parses {p = q} r input s v small e) =
    (Ends-some limits input (parse q input) s e
      (parse-Ends limits q input v (Reaches-IsSound limits q r) small)).sound

-- Every response parser that calls of parse (on a valid buffer of less than 2^63 bytes, with a body
-- bound and a chunk bound below 2^63), finish, reset and expectNoBody in any order lead to has the
-- limits it was made with, no more header fields than maxHeaderCount, and no longer a body than
-- maxBody.
pub Reaches-bounds :
    (limits : Limits) (p : ResponseParser)
    → Reaches limits p
    → (p.limits ≡ limits)
      × (length p.response.headers ≤ limits.max_header_count)
      × (length p.response.body ≤ limits.max_body)
Reaches-bounds limits p r =
    let s = Reaches-IsSound limits p r in
    (
      s.same_limits,
      omega (arith, s.few_headers, ap (λ (l : Limits). l.max_header_count) s.same_limits),
      omega (
        arith,
        BodyFits-le p.state (length p.response.body) p.body_remaining p.chunk_remaining
            p.limits.max_body s.body_fits,
        ap (λ (l : Limits). l.max_body) s.same_limits,
      ),
    )
