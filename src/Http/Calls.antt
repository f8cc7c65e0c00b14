-- ===== src/Http/Calls.antt =====
-- src/io/net/http/response.cpp: calls of parse and finish that follow one another.
use samurai.Prelude.{
  ℕ, zero, suc, ◌+◌, ◌-◌, ◌*◌, ◌≤◌, ◌<◌, ◌≡◌, refl, sym, ap, ◌∙◌, true, false, not, ◌||◌, some,
  ◌++◌, arith, subst, if_true, if_false, if◌then◌else◌, take, drop, length, length-drop, ◌⊎◌, inl,
  inr, Bool-cases, Bytes, take_all, drop_all, ltb, ◌==◌,
}
use mathlib.Core.Option.{some-injective}
use samurai.Buffer.{Buffer, size, copy_range, remove}
use samurai.Buffer.Room.{IsValid, contents, length-contents}
use samurai.Buffer.Fifo.{contents-remove, remove-IsValid}
use samurai.Buffer.Reads.{copy_range_lem}
use samurai.Http.{
  State, body_length, done, Result, need_more, complete, error, Limits, ResponseParser, Outcome,
}
use samurai.Http.Parser.{
  is_ok, is_done, returns, is_need_more, parse_body_length, parse_state, parse_loop, parse, finish,
}
use samurai.Http.Sound.{IsSound, AreSmall, Tells}
use samurai.Http.Reached.{parse-Kept}

done_state : (s : State) → is_done s ≡ true → s ≡ done
done_state s e = ground (arith, e)

-- A round that returns is the last one.
parse_loop-returns :
    (fuel : ℕ) (p : ResponseParser) (input : Buffer) (s : Outcome)
    → 0 < fuel
    → parse_state p.state p input ≡ some s
    → returns p input s ≡ true
    → parse_loop fuel p input ≡ some s
unfolding parse_loop
parse_loop-returns zero p input s f e back = absurd (omega (arith, f))
parse_loop-returns (suc fuel) p input s f e back = rw (e, back, parse_loop) refl

parse_state_at :
    (p : ResponseParser) (input : Buffer) (s : State)
    → p.state ≡ s
    → parse_state p.state p input ≡ parse_state s p input
parse_state_at p input s e = ap (λ (t : State). parse_state t p input) e

parse_loop_done :
    (fuel : ℕ) (p : ResponseParser) (input : Buffer)
    → p.state ≡ done
    → 0 < fuel
    → parse_loop fuel p input ≡ some (record { parser = p; input = input; result = complete })
unfolding parse_state
parse_loop_done fuel p input e f =
    parse_loop-returns fuel p input _ f
      (parse_state_at p input done e
        ∙ ap
            (λ (t : State).
              some (record { parser = record p { state = t }; input = input; result = complete }))
            (sym e))
      refl

stays :
    (r : Result) (p : ResponseParser) (more : Buffer)
    → Tells r p
    → is_need_more r ≡ false
    → (parse p more ≡ some (record { parser = p; input = more; result = r })) × (finish p ≡ (p, r))
unfolding parse finish
stays need_more p more t e = absurd (ground (arith, e))
stays complete p more t e =
    let ok_true : not (is_ok p.status) ≡ false = ap not t.0 in
    (
      if_false _ _ ok_true
          ∙ parse_loop_done (2 * size more + 2) p more (done_state p.state t.1) (omega arith),
      if_false _ _ ok_true ∙ if_true _ _ t.1,
    )
stays error p more t e =
    let bad : not (is_ok p.status) ≡ true = ap not t in (if_true _ _ bad, if_true _ _ bad)

-- When `parse` of a parser within its bounds, on a valid buffer and with small limits, returns
-- Complete or Error, a further call of parse on any buffer, and a call of finish, return the same
-- result and change neither the parser nor the buffer.
pub result_stays :
    (limits : Limits) (p : ResponseParser) (input more : Buffer) (s : Outcome)
    → IsValid input
    → IsSound limits p
    → AreSmall limits input
    → parse p input ≡ some s
    → is_need_more s.result ≡ false
    → (parse s.parser more ≡ some (record { parser = s.parser; input = more; result = s.result }))
      × (finish s.parser ≡ (s.parser, s.result))
result_stays limits p input more s v sound small e over =
    let (t, (e', k)) = parse-Kept limits p input v sound small in
    let same : t ≡ s = some-injective t s (sym e' ∙ e) in
    stays s.result s.parser more (subst (λ (u : Outcome). Tells u.result u.parser) same k.tells)
      over

front : (input : Buffer) (n : ℕ) → n ≤ size input → copy_range input 0 n ≡ take n (contents input)
front input n h =
    let inside : (ltb n 0 || ltb (size input) n) ≡ false = ground arith in
    let whole : n - 0 ≡ n = omega arith in rw (copy_range_lem input 0 n, inside, whole) refl

-- The parser with the first `n` bytes of the input in its body.
abbrev filled : ResponseParser → Buffer → ℕ → State → ResponseParser
filled p input n s = record p {
  response = record p.response { body = p.response.body ++ take n (contents input) };
  body_remaining = p.body_remaining - n;
  state = s;
}

body_length-rest :
    (p : ResponseParser) (input : Buffer)
    → 0 < size input
    → p.body_remaining ≤ size input
    → parse_body_length p input ≡ record {
      parser = filled p input p.body_remaining done;
      input = remove input p.body_remaining;
      result = complete;
    }
unfolding parse_body_length
body_length-rest p input some_input enough =
    let rem = p.body_remaining in
    let all_of_it : (if ltb (size input) rem then size input else rem) ≡ rem = ground arith in
    let nothing_left : rem - rem ≡ 0 = omega arith in
    let not_empty : (size input == 0) ≡ false = ground arith in
    rw (all_of_it, not_empty, nothing_left, front input rem enough) refl

body_length-part :
    (p : ResponseParser) (input : Buffer)
    → 0 < size input
    → size input < p.body_remaining
    → parse_body_length p input ≡ record {
      parser = filled p input (size input) p.state;
      input = remove input (size input);
      result = need_more;
    }
unfolding parse_body_length
body_length-part p input some_input short =
    let rem = p.body_remaining in
    let all_of_it : (if ltb (size input) rem then size input else rem) ≡ size input =
      ground arith in
    let more_to_come : (rem - size input == 0) ≡ false = ground arith in
    let not_empty : (size input == 0) ≡ false = ground arith in
    rw (all_of_it, not_empty, more_to_come, front input (size input) (omega arith)) refl

body_length_nothing :
    (p : ResponseParser) (input : Buffer)
    → size input ≡ 0
    → parse_body_length p input ≡ record { parser = p; input = input; result = need_more }
unfolding parse_body_length
body_length_nothing p input e =
    let empty : (size input == 0) ≡ true = ground (arith, e) in if_true _ _ empty

-- A round that does not return is followed by another.
parse_loop-again :
    (fuel : ℕ) (p : ResponseParser) (input : Buffer) (s : Outcome)
    → parse_state p.state p input ≡ some s
    → returns p input s ≡ false
    → parse_loop (suc fuel) p input ≡ parse_loop fuel s.parser s.input
unfolding parse_loop
parse_loop-again fuel p input s e again = rw (e, again, parse_loop) refl

-- What `parse` makes of a part of the body, or of the rest of it.
pub record TakesBody (p : ResponseParser) (input : Buffer) (s : Outcome) : Type 0 where
  pub parsed : parse p input ≡ some s
  pub body : s.parser.response.body ≡ p.response.body ++ take p.body_remaining (contents input)
  pub valid : IsValid s.input
  pub left : contents s.input ≡ drop p.body_remaining (contents input)
  pub ends :
      (p.body_remaining ≤ size input) × (s.result ≡ complete) × (s.parser.state ≡ done)
      ⊎ (size input < p.body_remaining)
        × (s.result ≡ need_more)
        × (s.parser.state ≡ body_length)
        × (s.parser.body_remaining ≡ p.body_remaining - size input)

parse-part :
    (p : ResponseParser) (input : Buffer)
    → IsValid input
    → is_ok p.status ≡ true
    → p.state ≡ body_length
    → 0 < size input
    → size input < p.body_remaining
    → parse p input
      ≡ some (record {
        parser = filled p input (size input) p.state;
        input = remove input (size input);
        result = need_more;
      })
unfolding parse parse_state
parse-part p input v good e some_input short =
    let rest = remove input (size input) in
    let q = filled p input (size input) p.state in
    let gone : size rest ≡ 0 = omega (
      arith,
      length-contents rest (remove-IsValid input (size input) v),
      ap length (contents-remove input (size input) v),
      length-drop (size input) (contents input),
      length-contents input v,
    ) in
    let rounds : 2 * size input + 2 ≡ suc (2 * size input + 1) = omega arith in
    if_false _ _ (ap not good)
    ∙ ap (λ (fuel : ℕ). parse_loop fuel p input) rounds
    ∙ parse_loop-again (2 * size input + 1) p input _
        (parse_state_at p input body_length e ∙ ap some (body_length-part p input some_input short))
        (ground (arith, gone, some_input))
    ∙ parse_loop-returns (2 * size input + 1) q rest _ (omega arith)
        (parse_state_at q rest body_length e ∙ ap some (body_length_nothing q rest gone))
        (ground arith)

parse-rest :
    (p : ResponseParser) (input : Buffer)
    → is_ok p.status ≡ true
    → p.state ≡ body_length
    → 0 < size input
    → p.body_remaining ≤ size input
    → parse p input
      ≡ some (record {
        parser = filled p input p.body_remaining done;
        input = remove input p.body_remaining;
        result = complete;
      })
unfolding parse parse_state
parse-rest p input good e some_input enough =
    if_false _ _ (ap not good)
    ∙ parse_loop-returns (2 * size input + 2) p input _ (omega arith)
        (parse_state_at p input body_length e
          ∙ ap some (body_length-rest p input some_input enough))
        refl

-- A parser without an error that waits for the rest of a body of a known length, and gets a valid
-- buffer that is not empty: `parse` returns, its body is what it had and as many of the live bytes
-- as are missing or as there are, and the buffer is valid and has the other live bytes left. If
-- there were enough, it completes; otherwise it asks for more, still waits for the body, and misses
-- that many bytes fewer.
pub parse-TakesBody :
    (p : ResponseParser) (input : Buffer)
    → IsValid input
    → is_ok p.status ≡ true
    → p.state ≡ body_length
    → 0 < size input
    → (s : Outcome) × TakesBody p input s
parse-TakesBody p input v good e some_input =
    elim (Bool-cases (ltb (size input) p.body_remaining)) [
      | inl more ↦
          let short : size input < p.body_remaining = ground (arith, more) in
          let all : length (contents input) ≤ size input = omega (arith, length-contents input v) in
          let all_left : length (contents input) ≤ p.body_remaining = omega (arith, all, short) in
          (
            _,
            record {
              parsed = parse-part p input v good e some_input short;
              body =
                  ap (λ (t : Bytes). p.response.body ++ t)
                    (take_all (size input) (contents input) all
                      ∙ sym (take_all p.body_remaining (contents input) all_left));
              valid = remove-IsValid input (size input) v;
              left =
                  contents-remove input (size input) v
                  ∙ drop_all (size input) (contents input) all
                  ∙ sym (drop_all p.body_remaining (contents input) all_left);
              ends = inr (short, refl, e, refl);
            },
          )
      | inr enough ↦
          let fits : p.body_remaining ≤ size input = ground (arith, enough) in
          (
            _,
            record {
              parsed = parse-rest p input good e some_input fits;
              body = refl;
              valid = remove-IsValid input p.body_remaining v;
              left = contents-remove input p.body_remaining v;
              ends = inl (fits, refl, refl);
            },
          )
    ]
