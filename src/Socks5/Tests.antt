-- ===== src/Socks5/Tests.antt =====
-- The theorems on the handshake at concrete exchanges.
use samurai.Prelude.{◌≡◌, refl, true, false, [], ◌∷◌, Option, none, arith, Bytes, replicate}
use samurai.InetAddress.{Version, ipv4, no_address, resolved}
use samurai.InetAddress.Ranges.{quad}
use samurai.Socks5.{
  need_read, connection_refused, ProxySettings, socks5, connect, finished, failed, reply_head,
  Handshake, expect, consume_outgoing,
}
use samurai.Socks5.Request.{make, blank, is_local_address}
use samurai.Socks5.Reply.{feed}
use samurai.Socks5.Invariant.{IsValid, needs, expect-IsValid}
use samurai.Socks5.Chunks.{feed-feed}
use samurai.Socks5.Exchange.{started, sent, received, Reaches-IsValid, feed_ipv4, feed_refusal}
use samurai.Socks5.Targets.{is_local_address-quad, is_local_address-ipv6, ipv6_address}

abbrev settings : ProxySettings
settings = record {
  kind = socks5;
  host = [];
  port = 9050;
  username = [];
  password = [];
  tor_extensions = false;
  allow_private = false;
}

-- "a.no" and "localhost"
abbrev target : Bytes
target = 0x61 ∷ 0x2E ∷ 0x6E ∷ 0x6F ∷ []

abbrev own_name : Bytes
own_name = 0x6C ∷ 0x6F ∷ 0x63 ∷ 0x61 ∷ 0x6C ∷ 0x68 ∷ 0x6F ∷ 0x73 ∷ 0x74 ∷ []

-- An inet_pton that takes no text.
abbrev no_literal : Version → Bytes → Option Bytes
no_literal v text = none

Reaches_example :
    IsValid (feed (consume_outgoing (make no_literal settings connect target 80) 3) (5 ∷ 0 ∷ [])).0
Reaches_example =
    Reaches-IsValid no_literal
      (feed (consume_outgoing (make no_literal settings connect target 80) 3) (5 ∷ 0 ∷ [])).0
      (received _ (5 ∷ 0 ∷ []) (omega arith, (omega arith, tt))
        (sent _ 3 (started settings connect target 80)))

-- A handshake that waits for the head of the reply.
abbrev asked : Handshake
asked = record (blank settings connect target 80) { request = 5 ∷ [] }

abbrev awaiting : Handshake
awaiting = expect asked reply_head 4

abbrev awaiting-IsValid : IsValid awaiting
unfolding needs
awaiting-IsValid = expect-IsValid asked reply_head 4 refl (omega arith)

feed-feed_example :
    (feed (feed awaiting (5 ∷ [])).0 (0 ∷ 0 ∷ [])).0 ≡ (feed awaiting (5 ∷ 0 ∷ 0 ∷ [])).0
feed-feed_example =
    feed-feed awaiting (5 ∷ []) (0 ∷ 0 ∷ []) awaiting-IsValid (omega arith, tt)
      (omega arith, (omega arith, tt))

feed_ipv4_example :
    (let done = (feed awaiting (5 ∷ 0 ∷ 0 ∷ 1 ∷ 10 ∷ 0 ∷ 0 ∷ 1 ∷ 0 ∷ 80 ∷ [])).0 in
      (done.status ≡ finished)
      × (done.result ≡ record {
        reply = 0;
        address = record no_address {
          version = ipv4;
          bytes = 10 ∷ 0 ∷ 0 ∷ 1 ∷ replicate 12 0;
          resolve_state = resolved;
        };
        name = [];
        port = 80;
      }))
feed_ipv4_example = feed_ipv4 asked (omega arith) 0 10 0 0 1 0 80 (
  omega arith,
  (omega arith, (omega arith, (omega arith, (omega arith, (omega arith, (omega arith, tt)))))),
)

feed_refusal_example :
    (let early = (feed awaiting (5 ∷ 5 ∷ 0 ∷ 1 ∷ 0 ∷ 0 ∷ 0 ∷ 0 ∷ 0 ∷ [])).0 in
      let done = (feed awaiting (5 ∷ 5 ∷ 0 ∷ 1 ∷ 0 ∷ 0 ∷ 0 ∷ 0 ∷ 0 ∷ 0 ∷ [])).0 in
      (early.status ≡ need_read)
      × (done.status ≡ failed)
      × (done.error ≡ connection_refused)
      × (done.result.reply ≡ 5))
feed_refusal_example =
    feed_refusal asked (omega arith) 5 0 0 0 0 0 0 0 (omega arith) (omega arith, (omega arith, tt))
      (omega arith, (omega arith, (omega arith, (omega arith, (omega arith, (omega arith, tt))))))

local_example : is_local_address (quad 172 20 1 1 [] []) ≡ true
local_example =
    is_local_address-quad 172 20 1 1 [] [] (omega arith) (omega arith) (omega arith) (omega arith)

-- fe80::1
ipv6_example : is_local_address (ipv6_address 0xFE 0x80 0 0 0 0 0 0 0 0 0 0 0 0 0 1 []) ≡ true
ipv6_example =
    is_local_address-ipv6 0xFE 0x80 0 0 0 0 0 0 0 0 0 0 0 0 0 1 [] (omega arith) (omega arith)
