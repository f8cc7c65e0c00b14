-- ===== src/Socks5/Exchange.antt =====
-- src/io/net/socks5.cpp: whole exchanges, with the states that a driver reaches.
use samurai.Prelude.{
  ℕ, zero, suc, ◌+◌, ◌*◌, ◌<◌, ◌≡◌, refl, ap, ◌∙◌, false, Option, [], ◌∷◌, arith, length, ◌==◌,
  Bytes, AreBytes, replicate, List, get_or,
}
use samurai.InetAddress.{Version, ipv4, resolved}
use samurai.Socks5.{
  Handshake, need_read, finished, failed, reply_head, ProxySettings, Command, expect, SocketError,
  socket_unknown, net_unreachable, host_unreachable, connection_refused, connection_timeout,
  proxy_refused, consume_outgoing, closed,
}
use samurai.Socks5.Request.{make}
use samurai.Socks5.Reply.{consume_step, feed, classify_reply}
use samurai.Socks5.Invariant.{IsValid, needs, expect-IsValid}
use samurai.Socks5.Construct.{make-IsValid}
use samurai.Socks5.Preserve.{feed-IsValid, consume_outgoing-IsValid, closed-IsValid}
use samurai.Socks5.Chunks.{push, feed-push}

-- The handshakes that a driver reaches: whatever the socket accepts, delivers, or closes.
pub data Reaches (inet_pton : Version → Bytes → Option Bytes) : Handshake → Type 0 where
  started :
      (settings : ProxySettings) (command : Command) (target : Bytes) (port : ℕ)
      → Reaches inet_pton (make inet_pton settings command target port)
  sent : (h : Handshake) (n : ℕ) → Reaches inet_pton h → Reaches inet_pton (consume_outgoing h n)
  received :
      (h : Handshake) (bytes : Bytes)
      → AreBytes bytes
      → Reaches inet_pton h
      → Reaches inet_pton (feed h bytes).0
  hung_up : (h : Handshake) → Reaches inet_pton h → Reaches inet_pton (closed h)

-- Whatever inet_pton answers, every handshake that is reached from the constructor by sending any
-- number of bytes, feeding any bytes and closing is valid: while it reads, its step of the grammar
-- is incomplete and waits for the number of bytes that the grammar says, at most 255; while it
-- writes, something is left to write; after a failure nothing is.
pub Reaches-IsValid :
    (inet_pton : Version → Bytes → Option Bytes) (h : Handshake) → Reaches inet_pton h → IsValid h
Reaches-IsValid inet_pton _ (started settings command target port) =
    make-IsValid inet_pton settings command target port
Reaches-IsValid inet_pton _ (sent h n r) =
    consume_outgoing-IsValid h n (Reaches-IsValid inet_pton h r)
Reaches-IsValid inet_pton _ (received h bytes p r) =
    (feed-IsValid h bytes (Reaches-IsValid inet_pton h r) p).0
Reaches-IsValid inet_pton _ (hung_up h r) = closed-IsValid h (Reaches-IsValid inet_pton h r)

-- The errors that the codes of a reply stand for, from 0 on; any other code is a plain refusal.
abbrev pub refusals : List SocketError
refusals =
    proxy_refused ∷ socket_unknown ∷ proxy_refused ∷ net_unreachable ∷ host_unreachable
    ∷ connection_refused ∷ connection_timeout ∷ []

classify_reply-refusals : (reply : ℕ) → classify_reply reply ≡ get_or refusals reply proxy_refused
unfolding classify_reply
classify_reply-refusals zero = refl
classify_reply-refusals (suc zero) = refl
classify_reply-refusals (suc (suc zero)) = refl
classify_reply-refusals (suc (suc (suc zero))) = refl
classify_reply-refusals (suc (suc (suc (suc zero)))) = refl
classify_reply-refusals (suc (suc (suc (suc (suc zero))))) = refl
classify_reply-refusals (suc (suc (suc (suc (suc (suc zero)))))) = refl
classify_reply-refusals (suc (suc (suc (suc (suc (suc (suc n))))))) = ground arith

-- A handshake that waits for the reply, with nothing of it read.
module _ (h : Handshake) (request : 0 < length h.request) where
  abbrev waiting : Handshake
  waiting = expect h reply_head 4

  waiting-IsValid : IsValid waiting
  unfolding needs
  waiting-IsValid = expect-IsValid h reply_head 4 refl request

  -- A handshake that waits for the head of the reply, with a request that is not empty, is finished
  -- by a success reply with an IPv4 address, and its result is the address and the port of the
  -- reply, the port with its high byte first.
  pub feed_ipv4 :
      (reserved a b c d p q : ℕ)
      → AreBytes (reserved ∷ a ∷ b ∷ c ∷ d ∷ p ∷ q ∷ [])
      → (let done = (feed waiting (0x05 ∷ 0x00 ∷ reserved ∷ 0x01 ∷ a ∷ b ∷ c ∷ d ∷ p ∷ q ∷ [])).0 in
          (done.status ≡ finished)
          × (done.result ≡ record {
            reply = 0;
            address = record h.result.address {
              version = ipv4;
              bytes = a ∷ b ∷ c ∷ d ∷ replicate 12 0;
              resolve_state = resolved;
            };
            name = h.result.name;
            port = p * 256 + q;
          }))
  unfolding push consume_step expect needs
  feed_ipv4 reserved a b c d p q bytes =
      let fed =
        feed-push waiting (0x05 ∷ 0x00 ∷ reserved ∷ 0x01 ∷ a ∷ b ∷ c ∷ d ∷ p ∷ q ∷ [])
          waiting-IsValid (omega arith, (omega arith, (bytes.0, (omega arith, bytes.1)))) in
      (ap (λ (g : Handshake). g.status) fed, ap (λ (g : Handshake). g.result) fed)

  -- A handshake that waits for the head of the reply, with a request that is not empty, and is fed
  -- a reply with an IPv4 address and another code than 0, still reads after all its bytes but the
  -- last, and fails after the last. The error is that of the code: unknown for 1, no network for 3,
  -- no host for 4, a refused connection for 5, a timeout for 6, and a plain refusal for any other;
  -- the code is kept.
  pub feed_refusal :
      (reply reserved a b c d p q : ℕ)
      → 0 < reply
      → AreBytes (reply ∷ reserved ∷ [])
      → AreBytes (a ∷ b ∷ c ∷ d ∷ p ∷ q ∷ [])
      → (let early = (feed waiting (0x05 ∷ reply ∷ reserved ∷ 0x01 ∷ a ∷ b ∷ c ∷ d ∷ p ∷ [])).0 in
          let done =
            (feed waiting (0x05 ∷ reply ∷ reserved ∷ 0x01 ∷ a ∷ b ∷ c ∷ d ∷ p ∷ q ∷ [])).0 in
          (early.status ≡ need_read)
          × (done.status ≡ failed)
          × (done.error ≡ get_or refusals reply proxy_refused)
          × (done.result.reply ≡ reply))
  unfolding push consume_step expect needs
  feed_refusal reply reserved a b c d p q pos head bytes =
      let (pa, (pb, (pc, (pd, (pp, _))))) = bytes in
      let up_to : AreBytes (a ∷ b ∷ c ∷ d ∷ p ∷ []) = (pa, (pb, (pc, (pd, (pp, tt))))) in
      let begun =
        feed-push waiting (0x05 ∷ reply ∷ reserved ∷ 0x01 ∷ a ∷ b ∷ c ∷ d ∷ p ∷ []) waiting-IsValid
          (omega arith, (head.0, (head.1.0, (omega arith, up_to)))) in
      let fed =
        feed-push waiting (0x05 ∷ reply ∷ reserved ∷ 0x01 ∷ a ∷ b ∷ c ∷ d ∷ p ∷ q ∷ [])
          waiting-IsValid (omega arith, (head.0, (head.1.0, (omega arith, bytes)))) in
      let t : (reply == 0x00) ≡ false = ground arith in
      (
        ap (λ (g : Handshake). g.status) begun,
        ap (λ (g : Handshake). g.status) fed ∙ rw t refl,
        ap (λ (g : Handshake). g.error) fed ∙ rw t (classify_reply-refusals reply),
        ap (λ (g : Handshake). g.result.reply) fed ∙ rw t refl,
      )
