-- ===== src/Buffer/Search/Agree.antt =====
-- src/io/buffer.cpp: the two bodies of rfind, and of the search of a string, compared.
use mathlib.Core.Option
use samurai.Prelude.{
  ℕ, zero, suc, ◌+◌, ◌-◌, ◌≤◌, ◌<◌, ◌≡◌, refl, sym, ap, ◌∙◌, inl, inr, true, false, [], ◌∷◌, Option,
  none, some, arith, Bool-cases, Option-cases, ltb, leb, ◌==◌, if◌then◌else◌, length, take, drop,
  get_or, Bytes, slice, index_of, last_index_of, same_bytes, length-take, length-drop, take_all,
  drop-drop, get_or-drop,
}
use samurai.Buffer.{Buffer, size}
use samurai.Buffer.Room.{IsValid, contents, length-contents}
use samurai.Buffer.Reads.{slice-contents}
use samurai.Buffer.Search.Scan.{
  index_of-bound, search-index_of, search-none, search_short, search_hit, search_next, take_last,
  last_index_of-concat, map_sum,
}
use samurai.Buffer.Search.{
  find, rfind, rfind_down, rfind_portable, search, find_string, find_string_from,
  find_string_portable,
}

module _ (b : Buffer) (v : IsValid b) where
  rest_lem :
      (o : ℕ) → o ≤ size b → slice b.buf (b.head + o) (b.len - b.head - o) ≡ drop o (contents b)
  rest_lem o h =
      slice-contents b o (b.len - b.head - o) (omega arith)
      ∙ take_all (b.len - b.head - o) (drop o (contents b))
          (omega (arith, length-drop o (contents b), length-contents b v))

  length-rest : (o : ℕ) → length (drop o (contents b)) ≡ size b - o
  length-rest o = omega (arith, length-drop o (contents b), length-contents b v)

  find_inside :
      (c o : ℕ)
      → o < size b
      → find b c o ≡ Option.map (λ i. o + i) (index_of c (drop o (contents b)))
  unfolding find
  find_inside c o h =
      let t : leb (b.len - b.head) o ≡ false = ground arith in
      rw (t, find) (rw (rest_lem o (omega arith)))

  find_past : (c o : ℕ) → size b ≤ o → find b c o ≡ none
  unfolding find
  find_past c o h = let t : leb (b.len - b.head) o ≡ true = ground arith in rw (t, find)

  module _ (c : ℕ) (cs : Bytes) where
    Meets : ℕ → Option ℕ → Type 0
    Meets p r = r ≡ Option.map (λ i. p + i) (search (c ∷ cs) (drop p (contents b)))

    -- The body of the loop behind the call of find.
    body : ℕ → Option ℕ → Option ℕ
    body found rest =
        if ltb (b.len - b.head - found) (length (c ∷ cs))
        then none
        else if same_bytes (slice b.buf (b.head + found) (length (c ∷ cs))) (c ∷ cs)
        then some found
        else rest

    body-Meets :
        (found : ℕ) (rest : Option ℕ)
        → found < size b
        → Meets (found + 1) rest
        → Meets found (body found rest)
    unfolding Meets body
    body-Meets found rest h ih =
        elim (Bool-cases (ltb (b.len - b.head - found) (length (c ∷ cs)))) [
          | inl short ↦ rw (
            short,
            search_short (c ∷ cs) (drop found (contents b)) (ground (arith, length-rest found)),
          )
          | inr long ↦
              rw (long, slice-contents b found (length (c ∷ cs)) (ground arith))
                (elim (Bool-cases
                  (same_bytes (take (length (c ∷ cs)) (drop found (contents b))) (c ∷ cs))) [
                    | inl hit ↦
                        rw
                          (
                            hit,
                            search_hit (c ∷ cs) (drop found (contents b))
                                (ground (arith, length-rest found)) hit,
                          )
                          (ap some (omega arith))
                    | inr miss ↦
                        rw
                          (
                            miss,
                            search_next (c ∷ cs) (drop found (contents b))
                                (ground (arith, length-rest found)) miss,
                          )
                          (ih
                            ∙ sym (
                                map_sum (λ k. found + k) (λ k. k + 1) (λ k. found + 1 + k) _
                                  (λ k. omega arith)
                                ∙ ap
                                    (λ (t : Bytes).
                                      Option.map (λ k. found + 1 + k) (search (c ∷ cs) t))
                                    (drop-drop 1 found (found + 1) (contents b) refl)))
                  ])
        ]

    from_none : (fuel p : ℕ) → find b c p ≡ none → find_string_from (suc fuel) b (c ∷ cs) p ≡ none
    unfolding find_string_from
    from_none fuel p e = rw (e, find_string_from)

    from_some :
        (fuel p found : ℕ)
        → find b c p ≡ some found
        → find_string_from (suc fuel) b (c ∷ cs) p
          ≡ body found (find_string_from fuel b (c ∷ cs) (found + 1))
    unfolding find_string_from body
    from_some fuel p found e = rw (e, find_string_from)

    from-Meets : (fuel p : ℕ) → size b - p < fuel → Meets p (find_string_from fuel b (c ∷ cs) p)
    unfolding Meets
    from-Meets zero p h = absurd (omega arith)
    from-Meets (suc fuel) p h = elim (Bool-cases (leb (size b) p)) [
      | inl past ↦ rw (
        from_none fuel p (find_past c p (ground arith)),
        search_short (c ∷ cs) (drop p (contents b)) (ground (arith, length-rest p)),
      )
      | inr inside ↦ elim (Option-cases (index_of c (drop p (contents b)))) [
        | inl nowhere ↦ rw (
          from_none fuel p (find_inside c p (ground arith) ∙ ap (Option.map (λ i. p + i)) nowhere),
          search-none c cs (drop p (contents b)) nowhere,
        )
        | inr (i, there) ↦
            let f = find_inside c p (ground arith) ∙ ap (Option.map (λ i. p + i)) there in
            let l = index_of-bound c (drop p (contents b)) there in
            from_some fuel p (p + i) f
            ∙ body-Meets (p + i) _ (ground (arith, length-rest p))
                (from-Meets fuel (p + i + 1) (ground (arith, length-rest p)))
            ∙ sym (
                ap (Option.map (λ k. p + k)) (search-index_of c cs (drop p (contents b)) i there)
                ∙ map_sum (λ k. p + k) (λ k. i + k) (λ k. p + i + k) _ (λ k. omega arith)
                ∙ ap (λ (t : Bytes). Option.map (λ k. p + i + k) (search (c ∷ cs) t))
                    (drop-drop i p (p + i) (contents b) refl))
      ]
    ]

  -- On a valid buffer, the search of a string that calls memmem and the portable loop give the same
  -- result for every string and offset.
  pub find_string_portable-find_string :
      (str : Bytes) (offset : ℕ) → find_string_portable b str offset ≡ find_string b str offset
  unfolding find_string_portable find_string Meets
  find_string_portable-find_string [] offset = refl
  find_string_portable-find_string (c ∷ cs) offset = elim (Bool-cases (leb (size b) offset)) [
    | inl past ↦ rw past
    | inr inside ↦
        rw (
          from-Meets c cs (b.len - b.head + 1) offset (omega arith),
          rest_lem offset (ground arith),
        )
  ]

  rfind_down-last_index_of :
      (c n : ℕ) → n ≤ size b → rfind_down b c n ≡ last_index_of c (take n (drop b.head b.buf))
  unfolding rfind_down
  rfind_down-last_index_of c zero h = refl
  rfind_down-last_index_of c (suc n) h =
      rw
        (
          take_last n (drop b.head b.buf) (omega (arith, length-drop b.head b.buf, v.stored)),
          last_index_of-concat c (take n (drop b.head b.buf)),
          get_or-drop b.head n (b.head + n) b.buf 0 refl,
          rfind_down-last_index_of c n (omega arith),
        )
        (ap
          (λ (k : ℕ).
            if get_or b.buf (b.head + n) 0 == c
            then some k
            else last_index_of c (take n (drop b.head b.buf)))
          (omega (arith, length-take n (drop b.head b.buf), length-drop b.head b.buf, v.stored)))

  -- On a valid buffer, the rfind that calls memrchr and the one that loops agree on every byte.
  pub rfind_portable-rfind : (c : ℕ) → rfind_portable b c ≡ rfind b c
  unfolding rfind_portable rfind
  rfind_portable-rfind c = rw (rfind_down-last_index_of c (size b) (omega arith))
