-- ===== src/Socks5/Invariant.antt =====
-- src/io/net/socks5.cpp: the invariant of a handshake, and the steps of consumeStep.
use samurai.Prelude.{
  ℕ, zero, suc, ◌≤◌, ◌<◌, ◌≡◌, refl, ◌∙◌, Bool, true, false, not, ◌&&◌, [], ◌∷◌, arith, if_cases,
  if◌then◌else◌, get_or, length, ltb, ◌==◌, Bytes, AreBytes,
}
use samurai.Socks5.{
  Handshake, Status, need_write, need_read, finished, failed, Step, method_reply, auth_reply,
  reply_head, reply_addr_len, reply_addr, reply_port, SocketError, fail, expect, queue,
  has_credentials,
}
use samurai.Socks5.Reply.{
  encode_auth, send_request, consume_method, consume_auth, consume_head, consume_addr_len,
  consume_addr, consume_port, consume_at, input_at, is_need_read,
}

-- The bytes that a step waits for.
unfoldable pub needs : Step → ℕ → ℕ → Bool
needs method_reply atyp n = n == 2
needs auth_reply atyp n = n == 2
needs reply_head atyp n = n == 4
needs reply_addr_len atyp n = n == 1 && atyp == 0x03
needs reply_addr atyp n =
    if atyp == 0x01 then n == 4 else if atyp == 0x04 then n == 16 else ltb 0 n && ltb n 256
needs reply_port atyp n = n == 2

-- While it reads, the step is incomplete; while it writes, something is left to write; after a failure
-- nothing is.
unfoldable pub StatusValid : Handshake → Status → Type 0
StatusValid h need_write = (h.out_sent < length h.out) × (0 < length h.request)
StatusValid h need_read =
    (length h.input < h.need) × (needs h.step h.reply_atyp h.need ≡ true) × (0 < length h.request)
StatusValid h finished = Unit
StatusValid h failed = h.out ≡ []

pub record IsValid (h : Handshake) : Type 0 where
  pub status : StatusValid h h.status
  pub need : h.need ≤ 255
  pub input : AreBytes h.input

-- What a step of the grammar leaves, and that the loop ends only when nothing is to be read.
pub record IsNext (r : Handshake × Bool) : Type 0 where
  pub valid : IsValid r.0
  pub ended : r.1 ≡ false → is_need_read r.0.status ≡ false

pub fail-IsValid : (h : Handshake) (code : SocketError) → AreBytes h.input → IsValid (fail h code)
unfolding fail StatusValid
fail-IsValid h code p = record { status = refl; need = omega arith; input = p }

fail-IsNext : (h : Handshake) (code : SocketError) → AreBytes h.input → IsNext (fail h code, false)
unfolding fail
fail-IsNext h code p = record { valid = fail-IsValid h code p; ended = λ e. refl }

needs-bounds : (s : Step) (atyp n : ℕ) → needs s atyp n ≡ true → (0 < n) × (n ≤ 255)
unfolding needs
needs-bounds method_reply atyp n e = ground arith
needs-bounds auth_reply atyp n e = ground arith
needs-bounds reply_head atyp n e = ground arith
needs-bounds reply_addr_len atyp n e = ground arith
needs-bounds reply_addr atyp n e = ground arith
needs-bounds reply_port atyp n e = ground arith

pub expect-IsValid :
    (h : Handshake) (next : Step) (n : ℕ)
    → needs next h.reply_atyp n ≡ true
    → 0 < length h.request
    → IsValid (expect h next n)
unfolding expect StatusValid
expect-IsValid h next n e lt =
    let (pos, small) = needs-bounds next h.reply_atyp n e in
    record { status = (pos, e, lt); need = small; input = tt }

expect-IsNext :
    (h : Handshake) (next : Step) (n : ℕ)
    → needs next h.reply_atyp n ≡ true
    → 0 < length h.request
    → IsNext (expect h next n, true)
expect-IsNext h next n e lt = record {
  valid = expect-IsValid h next n e lt;
  ended = λ f. ground (arith, f);
}

pub queue-IsValid :
    (h : Handshake) (bytes : Bytes)
    → 0 < length bytes
    → 0 < length h.request
    → h.need ≤ 255
    → AreBytes h.input
    → IsValid (queue h bytes)
unfolding queue StatusValid
queue-IsValid h bytes pos lt need p = record { status = (pos, lt); need = need; input = p }

input_at-byte : (xs : Bytes) (i : ℕ) → AreBytes xs → get_or xs i 0 < 256
input_at-byte [] i p = omega arith
input_at-byte (x ∷ xs) zero p = p.0
input_at-byte (x ∷ xs) (suc i) p = input_at-byte xs i p.1

-- A step ends only when its bytes are there, so the guards on the length do not stop it.
guard_passes : (n k : ℕ) → n ≡ k → ltb n k ≡ true → ⊥
guard_passes n k e f = ground (arith, e, f)

module _ (h : Handshake) (full : length h.input ≡ h.need) (request : 0 < length h.request)
    (p : AreBytes h.input) (small : h.need ≤ 255) where
  send_request-IsNext : IsNext (send_request h)
  unfolding send_request queue StatusValid
  send_request-IsNext = record {
    valid = record { status = (request, request); need = small; input = p };
    ended = λ e. refl;
  }

  consume_auth-IsNext : h.need ≡ 2 → IsNext (consume_auth h)
  unfolding consume_auth
  consume_auth-IsNext n =
      if_cases IsNext (ltb (length h.input) 2) (λ short. absurd (guard_passes _ 2 (full ∙ n) short))
        (λ _.
          if_cases IsNext (not (input_at h 0 == 0x01)) (λ _. fail-IsNext h _ p)
            (λ _.
              if_cases IsNext (not (input_at h 1 == 0x00)) (λ _. fail-IsNext h _ p)
                (λ _. send_request-IsNext)))

  consume_method-IsNext : h.need ≡ 2 → IsNext (consume_method h)
  unfolding consume_method encode_auth queue StatusValid send_request
  consume_method-IsNext n =
      if_cases IsNext (ltb (length h.input) 2) (λ short. absurd (guard_passes _ 2 (full ∙ n) short))
        (λ _.
          if_cases IsNext (not (input_at h 0 == 0x05)) (λ _. fail-IsNext h _ p)
            (λ _.
              if_cases IsNext (input_at h 1 == 0xFF) (λ _. fail-IsNext _ _ p)
                (λ _.
                  if_cases IsNext (input_at h 1 == 0x00)
                    (λ _. record {
                      valid = record { status = (request, request); need = small; input = p };
                      ended = λ e. refl;
                    })
                    (λ _.
                      if_cases IsNext (input_at h 1 == 0x02 && has_credentials h.settings)
                        (λ _. record {
                          valid = record {
                            status = (omega arith, request);
                            need = small;
                            input = p;
                          };
                          ended = λ e. refl;
                        })
                        (λ _. fail-IsNext _ _ p)))))

  consume_head-IsNext : h.need ≡ 4 → IsNext (consume_head h)
  unfolding consume_head needs
  consume_head-IsNext n =
      if_cases IsNext (ltb (length h.input) 4) (λ short. absurd (guard_passes _ 4 (full ∙ n) short))
        (λ _.
          if_cases IsNext (not (input_at h 0 == 0x05)) (λ _. fail-IsNext h _ p)
            (λ _.
              if_cases IsNext (input_at h 3 == 0x01)
                (λ one. expect-IsNext _ reply_addr 4 (ground (arith, one)) request)
                (λ _.
                  if_cases IsNext (input_at h 3 == 0x04)
                    (λ four. expect-IsNext _ reply_addr 16 (ground (arith, four)) request)
                    (λ _.
                      if_cases IsNext (input_at h 3 == 0x03)
                        (λ three. expect-IsNext _ reply_addr_len 1 (ground (arith, three)) request)
                        (λ _. fail-IsNext _ _ p)))))

  consume_addr_len-IsNext :
      h.need ≡ 1
      → (h.reply_atyp == 0x01) ≡ false
      → (h.reply_atyp == 0x04) ≡ false
      → IsNext (consume_addr_len h)
  unfolding consume_addr_len needs
  consume_addr_len-IsNext n not_one not_four =
      if_cases IsNext (ltb (length h.input) 1) (λ short. absurd (guard_passes _ 1 (full ∙ n) short))
        (λ _.
          if_cases IsNext (input_at h 0 == 0) (λ _. fail-IsNext h _ p)
            (λ some_name.
              expect-IsNext h reply_addr (input_at h 0)
                (rw (not_one, not_four) (ground (arith, some_name, input_at-byte h.input 0 p)))
                request))

  consume_addr-IsNext : needs reply_addr h.reply_atyp h.need ≡ true → IsNext (consume_addr h)
  unfolding consume_addr needs
  consume_addr-IsNext e =
      if_cases IsNext (h.reply_atyp == 0x01)
        (λ one.
          if_cases IsNext (ltb (length h.input) 4)
            (λ short. absurd (guard_passes _ 4 (full ∙ ground (arith, e, one)) short))
            (λ _. expect-IsNext _ reply_port 2 refl request))
        (λ not_one.
          if_cases IsNext (h.reply_atyp == 0x04)
            (λ four.
              if_cases IsNext (ltb (length h.input) 16)
                (λ short.
                  absurd (guard_passes _ 16 (full ∙ ground (arith, e, not_one, four)) short))
                (λ _. expect-IsNext _ reply_port 2 refl request))
            (λ _. expect-IsNext _ reply_port 2 refl request))

  consume_port-IsNext : h.need ≡ 2 → IsNext (consume_port h)
  unfolding consume_port StatusValid
  consume_port-IsNext n =
      if_cases IsNext (ltb (length h.input) 2) (λ short. absurd (guard_passes _ 2 (full ∙ n) short))
        (λ _.
          if_cases IsNext (not (h.result.reply == 0x00)) (λ _. fail-IsNext _ _ tt)
            (λ _. record {
              valid = record { status = tt; need = omega arith; input = tt };
              ended = λ e. refl;
            }))

  -- The lemmas of the steps together; the length octet of a name is waited for only behind a reply of
  -- that type.
  pub consume_at-IsNext : (s : Step) → needs s h.reply_atyp h.need ≡ true → IsNext (consume_at s h)
  unfolding needs
  consume_at-IsNext method_reply e = consume_method-IsNext (ground (arith, e))
  consume_at-IsNext auth_reply e = consume_auth-IsNext (ground (arith, e))
  consume_at-IsNext reply_head e = consume_head-IsNext (ground (arith, e))
  consume_at-IsNext reply_addr_len e =
      consume_addr_len-IsNext (ground (arith, e)) (ground (arith, e)) (ground (arith, e))
  consume_at-IsNext reply_addr e = consume_addr-IsNext e
  consume_at-IsNext reply_port e = consume_port-IsNext (ground (arith, e))
