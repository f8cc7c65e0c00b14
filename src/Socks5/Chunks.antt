-- ===== src/Socks5/Chunks.antt =====
-- src/io/net/socks5.cpp: `feed` in terms of single bytes.
use mathlib.Core.List.{foldl-append}
use samurai.Prelude.{
  ℕ, zero, suc, ◌+◌, ◌-◌, ◌≤◌, ◌<◌, ◌≡◌, refl, sym, ap, ◌∙◌, true, false, ◌&&◌, [], ◌∷◌, ◌++◌,
  append_assoc, foldl, arith, inl, inr, Bool-cases, if_cases, if_false, if_true, if◌then◌else◌,
  length, take, drop, ltb, Bytes, AreBytes, AreBytes-append, AreBytes-take, AreBytes-drop,
  length-append, length-take, length-drop, drop_all, take-append-drop, wrap, word_mod,
}
use samurai.Socks5.{Handshake, Status, need_write, need_read, finished, failed, wanted}
use samurai.Socks5.Reply.{consume_step, is_need_read, taken, feed_loop, feed}
use samurai.Socks5.Invariant.{IsValid}
use samurai.Socks5.Preserve.{
  reading, taken-bounds, consume_step-IsNext, and_cases, no_bytes, feed-IsValid,
}

abbrev with_input : Handshake → Bytes → Handshake
with_input h bytes = record h { input = bytes }

-- One byte of the proxy.
unfoldable pub push : Handshake → ℕ → Handshake
push h x =
    let more = with_input h (h.input ++ x ∷ []) in
    if is_need_read h.status
    then (if ltb (length more.input) h.need then more else (consume_step more).0)
    else h

pub push_ended : (h : Handshake) (xs : Bytes) → is_need_read h.status ≡ false → foldl push h xs ≡ h
unfolding push
push_ended h [] e = refl
push_ended h (x ∷ xs) e =
    ap (λ (g : Handshake). foldl push g xs) (if_false _ h e) ∙ push_ended h xs e

push_more :
    (h : Handshake) (x : ℕ)
    → is_need_read h.status ≡ true
    → length (h.input ++ x ∷ []) < h.need
    → push h x ≡ with_input h (h.input ++ x ∷ [])
unfolding push
push_more h x e lt =
    let t : ltb (length (h.input ++ x ∷ [])) h.need ≡ true = ground arith in
    if_true _ h e ∙ if_true _ _ t

-- The bytes of one round, at once.
push_round :
    (xs : Bytes) (h : Handshake) (x : ℕ)
    → is_need_read h.status ≡ true
    → length h.input + length (x ∷ xs) ≤ h.need
    → foldl push h (x ∷ xs) ≡ (
        if ltb (length (h.input ++ x ∷ xs)) h.need
        then with_input h (h.input ++ x ∷ xs)
        else (consume_step (with_input h (h.input ++ x ∷ xs))).0)
unfolding push
push_round [] h x e le = if_true _ h e
push_round (y ∷ ys) h x e le =
    ap (λ (g : Handshake). foldl push g (y ∷ ys))
      (push_more h x e (omega (arith, length-append h.input (x ∷ []))))
    ∙ push_round ys (with_input h (h.input ++ x ∷ [])) y e
        (omega (arith, length-append h.input (x ∷ [])))
    ∙ ap
        (λ (b : Bytes).
          if ltb (length b) h.need then with_input h b else (consume_step (with_input h b)).0)
        (append_assoc h.input (x ∷ []) (y ∷ ys))

one_round :
    (h : Handshake) (xs : Bytes)
    → is_need_read h.status ≡ true
    → 0 < length xs
    → length h.input + length xs ≤ h.need
    → foldl push h xs ≡ (
        if ltb (length (h.input ++ xs)) h.need
        then with_input h (h.input ++ xs)
        else (consume_step (with_input h (h.input ++ xs))).0)
one_round h [] e pos le = absurd (omega arith)
one_round h (x ∷ xs) e pos le = push_round xs h x e le

feed_loop-push :
    (fuel : ℕ) (h : Handshake) (left : Bytes)
    → IsValid h
    → AreBytes left
    → length left ≤ fuel
    → (feed_loop fuel h left).0 ≡ foldl push h left
unfolding feed_loop
feed_loop-push zero h [] v p le = refl
feed_loop-push zero h (x ∷ xs) v p le = absurd (omega arith)
feed_loop-push (suc fuel) h left v p le =
    if_cases (λ (r : Handshake × Bytes). r.0 ≡ foldl push h left)
      (is_need_read h.status && ltb 0 (length left))
      (λ more_left.
        let (e, pos) = and_cases (is_need_read h.status) (ltb 0 (length left)) more_left in
        let (short, needed, request) = reading h h.status e v.status in
        let n = taken h (length left) in
        let (some_taken, few, fits, all) =
          taken-bounds h (length left) short v.need (ground (arith, pos)) in
        let more = with_input h (h.input ++ take n left) in
        let size : length (take n left) ≡ n = omega (arith, length-take n left) in
        let cut : foldl push h left ≡ foldl push (foldl push h (take n left)) (drop n left) =
          ap (foldl push h) (sym (take-append-drop n left))
          ∙ foldl-append push h (take n left) (drop n left) in
        let fed = one_round h (take n left) e (omega (arith, size)) (omega (arith, size)) in
        if_cases (λ (r : Handshake × Bytes). r.0 ≡ foldl push h left)
          (ltb (length more.input) h.need)
          (λ incomplete.
            let all_taken : drop n left ≡ [] = drop_all n left (
              omega (
                arith,
                all (ground (arith, incomplete, length-append h.input (take n left), size)),
              )) in
            sym (
              cut
              ∙ ap (λ (d : Bytes). foldl push (foldl push h (take n left)) d) all_taken
              ∙ fed
              ∙ if_true _ _ incomplete))
          (λ complete.
            let full : length more.input ≡ h.need =
              ground (arith, complete, length-append h.input (take n left), size, fits) in
            let bytes = AreBytes-append h.input (take n left) v.input (AreBytes-take n left p) in
            let next = consume_step-IsNext more full request bytes needed v.need in
            let stepped =
              cut
              ∙ ap (λ (g : Handshake). foldl push g (drop n left)) (fed ∙ if_false _ _ complete) in
            if_cases (λ (r : Handshake × Bytes). r.0 ≡ foldl push h left) (consume_step more).1
              (λ _.
                feed_loop-push fuel (consume_step more).0 (drop n left) next.valid
                  (AreBytes-drop n left p) (omega (arith, length-drop n left, some_taken, few))
                ∙ sym stepped)
              (λ ended. sym (stepped ∙ push_ended _ (drop n left) (next.ended ended)))))
      (λ over. elim (Bool-cases (is_need_read h.status)) [
        | inl e ↦ ap (foldl push h) (sym (no_bytes left (ground (arith, e, over))))
        | inr e ↦ sym (push_ended h left e)
      ])

-- `feed` is the fold of `push`.
pub feed-push :
    (h : Handshake) (bytes : Bytes)
    → IsValid h
    → AreBytes bytes
    → (feed h bytes).0 ≡ foldl push h bytes
unfolding feed
feed-push h bytes v p = feed_loop-push (length bytes) h bytes v p (omega arith)

-- Feeding a valid handshake two chunks of bytes in turn leaves it where feeding them as one chunk
-- does.
pub feed-feed :
    (h : Handshake) (xs ys : Bytes)
    → IsValid h
    → AreBytes xs
    → AreBytes ys
    → (feed (feed h xs).0 ys).0 ≡ (feed h (xs ++ ys)).0
feed-feed h xs ys v p q =
    feed-push (feed h xs).0 ys (feed-IsValid h xs v p).0 q
    ∙ ap (λ (g : Handshake). foldl push g ys) (feed-push h xs v p)
    ∙ sym (foldl-append push h xs ys)
    ∙ sym (feed-push h (xs ++ ys) v (AreBytes-append xs ys p q))

feed_loop_nil : (fuel : ℕ) (h : Handshake) → (feed_loop fuel h []).1 ≡ []
unfolding feed_loop
feed_loop_nil zero h = refl
feed_loop_nil (suc fuel) h =
    let t : (is_need_read h.status && ltb 0 (length {A = ℕ} [])) ≡ false = ground arith in
    ap (λ (r : Handshake × Bytes). r.1) (if_false _ _ t)

taken_all :
    (h : Handshake) (n : ℕ)
    → length h.input < h.need
    → h.need ≤ 255
    → length h.input + n ≤ h.need
    → taken h n ≡ n
taken_all h n short small le =
    let missing : wrap (h.need + (word_mod - length h.input)) ≡ h.need - length h.input =
      omega arith in
    rw missing (ground arith)

feed_loop-wanted :
    (fuel : ℕ) (h : Handshake) (left : Bytes)
    → length h.input < h.need
    → h.need ≤ 255
    → length h.input + length left ≤ h.need
    → length left ≤ fuel
    → is_need_read h.status ≡ true
    → (feed_loop fuel h left).1 ≡ []
unfolding feed_loop
feed_loop-wanted fuel h [] short small le f e = feed_loop_nil fuel h
feed_loop-wanted zero h (x ∷ xs) short small le f e = absurd (omega arith)
feed_loop-wanted (suc fuel) h (x ∷ xs) short small le f e =
    let left = x ∷ xs in
    let n = taken h (length left) in
    let P : Handshake × Bytes → Type 0 = λ r. r.1 ≡ [] in
    let more = with_input h (h.input ++ take n left) in
    let all_taken : drop n left ≡ [] =
      drop_all n left (omega (arith, taken_all h (length left) short small le)) in
    if_cases P (is_need_read h.status && ltb 0 (length left))
      (λ _.
        if_cases P (ltb (length more.input) h.need) (λ _. all_taken)
          (λ _.
            if_cases P (consume_step more).1
              (λ _.
                ap (λ (d : Bytes). (feed_loop fuel (consume_step more).0 d).1) all_taken
                ∙ feed_loop_nil fuel _)
              (λ _. all_taken)))
      (λ over. absurd (ground (arith, e, over)))

wanted_reading :
    (h : Handshake) (s : Status)
    → h.status ≡ s
    → is_need_read s ≡ true
    → length h.input < h.need
    → wanted h ≡ h.need - length h.input
unfolding wanted
wanted_reading h need_write e f lt = ground (arith, f)
wanted_reading h need_read e f lt = rw e (ground (arith, lt))
wanted_reading h finished e f lt = ground (arith, f)
wanted_reading h failed e f lt = ground (arith, f)

-- A valid handshake that reads and is fed no more bytes than `wanted` consumes every one of them.
pub feed-wanted :
    (h : Handshake) (bytes : Bytes)
    → IsValid h
    → is_need_read h.status ≡ true
    → length bytes ≤ wanted h
    → (feed h bytes).1 ≡ length bytes
unfolding feed
feed-wanted h bytes v e le =
    let (short, needed, request) = reading h h.status e v.status in
    rw
      (feed_loop-wanted (length bytes) h bytes short v.need
        (omega (arith, wanted_reading h h.status refl e short)) (omega arith) e)
      (omega arith)
