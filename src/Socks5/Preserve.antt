-- ===== src/Socks5/Preserve.antt =====
-- src/io/net/socks5.cpp: `feed`, consumeOutgoing, `closed` and `wanted` on valid handshakes.
use samurai.Prelude.{
  ℕ, zero, suc, ◌+◌, ◌-◌, ◌≤◌, ◌<◌, ◌≡◌, refl, Bool, true, false, ◌&&◌, [], ◌∷◌, ◌++◌, arith, subst,
  if_cases, if◌then◌else◌, length, take, drop, ltb, Bytes, AreBytes, AreBytes-append, AreBytes-take,
  AreBytes-drop, word_mod, wrap, length-append, length-take, length-drop, drop_all,
}
use samurai.Socks5.{
  Handshake, Status, need_write, need_read, finished, failed, Step, method_reply, auth_reply,
  reply_head, reply_addr_len, reply_addr, reply_port, consume_outgoing, consume_in, await_reply,
  closed, closed_in, wanted, proxy_protocol,
}
use samurai.Socks5.Reply.{consume_step, is_need_read, taken, feed_loop, feed}
use samurai.Socks5.Invariant.{
  needs, StatusValid, IsValid, IsNext, fail-IsValid, expect-IsValid, consume_at-IsNext,
}

pub reading :
    (h : Handshake) (s : Status)
    → is_need_read s ≡ true
    → StatusValid h s
    → (length h.input < h.need) × (needs h.step h.reply_atyp h.need ≡ true) × (0 < length h.request)
unfolding StatusValid
reading h need_write e v = ground (arith, e)
reading h need_read e v = v
reading h finished e v = ground (arith, e)
reading h failed e v = ground (arith, e)

still_reading :
    (h : Handshake) (s : Status)
    → is_need_read s ≡ true
    → length h.input < h.need
    → needs h.step h.reply_atyp h.need ≡ true
    → 0 < length h.request
    → StatusValid h s
unfolding StatusValid
still_reading h need_write e a b c = ground (arith, e)
still_reading h need_read e a b c = (a, b, c)
still_reading h finished e a b c = tt
still_reading h failed e a b c = ground (arith, e)

-- What `feed_loop` leaves: as long as the handshake reads, it has taken every byte.
pub record IsFed (r : Handshake × Bytes) : Type 0 where
  pub valid : IsValid r.0
  pub all_taken : is_need_read r.0.status ≡ true → r.1 ≡ []

pub no_bytes : (xs : Bytes) → ltb 0 (length xs) ≡ false → xs ≡ []
no_bytes [] e = refl
no_bytes (x ∷ xs) e = ground (arith, e)

pub and_cases : (a b : Bool) → (a && b) ≡ true → (a ≡ true) × (b ≡ true)
and_cases true true e = (refl, refl)
and_cases true false e = ground (arith, e)
and_cases false b e = ground (arith, e)

-- A round takes what is missing of the step, or all that is left.
pub taken-bounds :
    (h : Handshake) (n : ℕ)
    → length h.input < h.need
    → h.need ≤ 255
    → 0 < n
    → (0 < taken h n)
      × (taken h n ≤ n)
      × (length h.input + taken h n ≤ h.need)
      × (length h.input + taken h n < h.need → taken h n ≡ n)
taken-bounds h n short small pos =
    let missing : wrap (h.need + (word_mod - length h.input)) ≡ h.need - length h.input =
      omega arith in
    rw missing (ground arith, ground arith, ground arith, λ lt. ground arith)

pub consume_step-IsNext :
    (h : Handshake)
    → length h.input ≡ h.need
    → 0 < length h.request
    → AreBytes h.input
    → needs h.step h.reply_atyp h.need ≡ true
    → h.need ≤ 255
    → IsNext (consume_step h)
unfolding consume_step
consume_step-IsNext h full request p e small = consume_at-IsNext h full request p small h.step e

feed_loop-IsFed :
    (fuel : ℕ) (h : Handshake) (left : Bytes)
    → IsValid h
    → AreBytes left
    → length left ≤ fuel
    → IsFed (feed_loop fuel h left)
unfolding feed_loop
feed_loop-IsFed zero h [] v p le = record { valid = v; all_taken = λ e. refl }
feed_loop-IsFed zero h (x ∷ xs) v p le = absurd (omega arith)
feed_loop-IsFed (suc fuel) h left v p le =
    if_cases IsFed (is_need_read h.status && ltb 0 (length left))
      (λ more_left.
        let (e, pos) = and_cases (is_need_read h.status) (ltb 0 (length left)) more_left in
        let (short, needed, request) = reading h h.status e v.status in
        let n = taken h (length left) in
        let (some_taken, few, fits, all) =
          taken-bounds h (length left) short v.need (ground (arith, pos)) in
        let size : length (h.input ++ take n left) ≡ length h.input + n =
          omega (arith, length-append h.input (take n left), length-take n left) in
        let bytes = AreBytes-append h.input (take n left) v.input (AreBytes-take n left p) in
        if_cases IsFed (ltb (length (h.input ++ take n left)) h.need)
          (λ incomplete.
            let lt : length (h.input ++ take n left) < h.need = ground (arith, incomplete) in
            record {
              valid = record {
                status =
                    still_reading (record h { input = h.input ++ take n left }) h.status e lt needed
                      request;
                need = v.need;
                input = bytes;
              };
              all_taken = λ _. drop_all n left (omega (arith, all (omega (arith, lt, size))));
            })
          (λ complete.
            let full : length (h.input ++ take n left) ≡ h.need =
              ground (arith, complete, size, fits) in
            let next =
              consume_step-IsNext (record h { input = h.input ++ take n left }) full request bytes
                needed v.need in
            let goes_on = (consume_step (record h { input = h.input ++ take n left })).1 in
            if_cases IsFed goes_on
              (λ _.
                feed_loop-IsFed fuel _ (drop n left) next.valid (AreBytes-drop n left p)
                  (omega (arith, length-drop n left, some_taken, few)))
              (λ ended. record {
                valid = next.valid;
                all_taken = λ f. ground (arith, f, next.ended ended);
              })))
      (λ over. record { valid = v; all_taken = λ e. no_bytes left (ground (arith, e, over)) })

-- `feed` keeps the invariant, and a handshake that still reads behind it has consumed every byte.
pub feed-IsValid :
    (h : Handshake) (bytes : Bytes)
    → IsValid h
    → AreBytes bytes
    → IsValid (feed h bytes).0
      × (is_need_read (feed h bytes).0.status ≡ true → (feed h bytes).1 ≡ length bytes)
unfolding feed
feed-IsValid h bytes v p =
    let fed = feed_loop-IsFed (length bytes) h bytes v p (omega arith) in
    (fed.valid, λ e. rw (fed.all_taken e) (omega arith))

await_reply-IsValid : (s : Step) (h : Handshake) → 0 < length h.request → IsValid (await_reply s h)
unfolding needs
await_reply-IsValid method_reply h lt = expect-IsValid h method_reply 2 refl lt
await_reply-IsValid auth_reply h lt = expect-IsValid h auth_reply 2 refl lt
await_reply-IsValid reply_head h lt = expect-IsValid h reply_head 4 refl lt
await_reply-IsValid reply_addr_len h lt = expect-IsValid h reply_head 4 refl lt
await_reply-IsValid reply_addr h lt = expect-IsValid h reply_head 4 refl lt
await_reply-IsValid reply_port h lt = expect-IsValid h reply_head 4 refl lt

consume_in-IsValid :
    (h : Handshake) (sent : ℕ) (s : Status)
    → h.status ≡ s
    → IsValid h
    → IsValid (consume_in s h sent)
unfolding StatusValid
consume_in-IsValid h sent need_write e v =
    let (some_left, request) = subst (StatusValid h) e v.status in
    let total = wrap (h.out_sent + sent) in
    let next = record h { out_sent = if ltb (length h.out) total then length h.out else total } in
    if_cases IsValid (ltb next.out_sent (length h.out))
      (λ short. record {
        status = rw e (ground (arith, short), request);
        need = v.need;
        input = v.input;
      })
      (λ _. await_reply-IsValid h.step next request)
consume_in-IsValid h sent need_read e v = v
consume_in-IsValid h sent finished e v = v
consume_in-IsValid h sent failed e v = v

-- `consume_outgoing` keeps the invariant, whatever number the socket reports.
pub consume_outgoing-IsValid :
    (h : Handshake) (sent : ℕ) → IsValid h → IsValid (consume_outgoing h sent)
unfolding consume_outgoing
consume_outgoing-IsValid h sent v = consume_in-IsValid h sent h.status refl v

closed_in-IsValid : (h : Handshake) (s : Status) → IsValid h → IsValid (closed_in s h)
closed_in-IsValid h need_write v = fail-IsValid h proxy_protocol v.input
closed_in-IsValid h need_read v = fail-IsValid h proxy_protocol v.input
closed_in-IsValid h finished v = v
closed_in-IsValid h failed v = v

pub closed-IsValid : (h : Handshake) → IsValid h → IsValid (closed h)
unfolding closed
closed-IsValid h v = closed_in-IsValid h h.status v

wanted_in :
    (h : Handshake) (s : Status)
    → h.status ≡ s
    → IsValid h
    → (wanted h ≤ 255) × (is_need_read h.status ≡ true → 0 < wanted h)
unfolding wanted StatusValid
wanted_in h need_write e v = rw e (omega arith, λ f. ground (arith, f))
wanted_in h need_read e v =
    let (short, _, _) = subst (StatusValid h) e v.status in
    let small = v.need in rw e (ground (arith, small), λ f. ground (arith, short))
wanted_in h finished e v = rw e (omega arith, λ f. ground (arith, f))
wanted_in h failed e v = rw e (omega arith, λ f. ground (arith, f))

-- A valid handshake that reads wants at least one byte and at most 255, fewer than MAX_STEP.
pub wanted-bounds :
    (h : Handshake) → IsValid h → is_need_read h.status ≡ true → (0 < wanted h) × (wanted h ≤ 255)
wanted-bounds h v e = let w = wanted_in h h.status refl v in (w.1 e, w.0)
