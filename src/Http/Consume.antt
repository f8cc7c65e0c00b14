-- ===== src/Http/Consume.antt =====
-- src/io/net/http/response.cpp: what takeLine and the reads of the body take from the input.
use samurai.Prelude.{
  ℕ, ◌+◌, ◌-◌, ◌≤◌, ◌<◌, ◌≡◌, refl, ap, ◌∙◌, false, ◌||◌, Option, some, inl, inr, arith,
  Option-cases, if_cases, length, drop, length-drop, length-take, drop-drop, ltb, Bytes, wrap,
}
use samurai.Buffer.{Buffer, size, copy_range, remove}
use samurai.Buffer.Room.{IsValid, contents, length-contents}
use samurai.Buffer.Fifo.{remove-IsValid, contents-remove}
use samurai.Buffer.Reads.{copy_range_lem}
use samurai.Buffer.Search.{find}
use samurai.Buffer.Search.Scan.{found_inside}
use samurai.Http.{response_too_large, need_more, ResponseParser, Outcome, fail}
use samurai.Http.Line.{Taken, line_end, take_line, with_line}

-- A buffer that is left when bytes are taken from the front of another.
pub record Consumed (input rest : Buffer) : Type 0 where
  pub valid : IsValid rest
  pub taken : ℕ
  pub few : taken ≤ size input
  pub front : contents rest ≡ drop taken (contents input)

pub size-Consumed :
    (input rest : Buffer)
    → IsValid input
    → (c : Consumed input rest) → size rest ≡ size input - c.taken
size-Consumed input rest v c = omega (
  arith,
  length-contents input v,
  length-contents rest c.valid,
  ap length c.front,
  length-drop c.taken (contents input),
)

pub Consumed-nothing : (input : Buffer) → IsValid input → Consumed input input
Consumed-nothing input v = record { valid = v; taken = 0; few = omega arith; front = refl }

pub Consumed-remove :
    (input : Buffer) (n : ℕ) → IsValid input → n ≤ size input → Consumed input (remove input n)
Consumed-remove input n v h = record {
  valid = remove-IsValid input n v;
  taken = n;
  few = h;
  front = contents-remove input n v;
}

pub Consumed-Consumed :
    (input middle rest : Buffer)
    → IsValid input
    → Consumed input middle
    → Consumed middle rest
    → Consumed input rest
Consumed-Consumed input middle rest v c d = record {
  valid = d.valid;
  taken = c.taken + d.taken;
  few = omega (arith, c.few, d.few, size-Consumed input middle v c);
  front =
      d.front
      ∙ ap (drop d.taken) c.front
      ∙ drop-drop d.taken c.taken (c.taken + d.taken) (contents input) refl;
}

-- copyRange from the front.
pub length-copy_range :
    (b : Buffer) (n : ℕ) → IsValid b → n ≤ size b → length (copy_range b 0 n) ≡ n
length-copy_range b n v h =
    let inside : (ltb n 0 || ltb (size b) n) ≡ false = ground (arith, h) in
    rw (copy_range_lem b 0 n, inside)
      (omega (arith, length-take (n - 0) (contents b), length-contents b v))

pub size-remove : (b : Buffer) (n : ℕ) → IsValid b → n ≤ size b → size (remove b n) ≡ size b - n
size-remove b n v h = omega (
  arith,
  length-contents b v,
  length-contents (remove b n) (remove-IsValid b n v),
  ap length (contents-remove b n v),
  length-drop n (contents b),
)

-- What holds behind each branch of takeLine and of its caller.
pub with_line_cases :
    (P : Option Outcome → Type 0) (p : ResponseParser) (input : Buffer)
    (next : ResponseParser → Buffer → Bytes → Option Outcome)
    → IsValid input
    → P (some (record { parser = p; input = input; result = need_more }))
    → ((h : ℕ) (rest : Buffer)
        → Consumed input rest
        → P (some (fail (record p { header_bytes = h }) rest response_too_large)))
    → ((h : ℕ) (rest : Buffer) (line : Bytes)
        → Consumed input rest
        → size rest < size input
        → h ≤ p.limits.max_header_block
        → P (next (record p { header_bytes = h }) rest line))
    → P (with_line (take_line p input) next)
unfolding with_line take_line
with_line_cases P p input next v waits fails takes = elim (Option-cases (find input 0x0A 0)) [
  | inl nowhere ↦
      rw (nowhere, take_line)
        (if_cases (λ (s : Outcome). P (some s)) (ltb p.limits.max_header_block (size input))
          (λ _. fails p.header_bytes input (Consumed-nothing input v)) (λ _. waits))
  | inr (lf, found) ↦
      let inside = found_inside input 0x0A lf found in
      let consumed = Consumed-remove input (lf + 1) v (omega (arith, inside)) in
      let total = wrap (p.header_bytes + (lf + 1)) in
      rw (found, take_line)
        (if_cases (λ (t : Taken). P (with_line t next)) (ltb p.limits.max_header_block lf)
          (λ _. fails p.header_bytes input (Consumed-nothing input v))
          (λ _.
            if_cases P (ltb p.limits.max_header_block total)
              (λ _. fails total (remove input (lf + 1)) consumed)
              (λ fits.
                takes total (remove input (lf + 1)) (copy_range input 0 (line_end input lf))
                  consumed
                  (omega (arith, size-remove input (lf + 1) v (omega (arith, inside)), inside))
                  (ground (arith, fits)))))
]
