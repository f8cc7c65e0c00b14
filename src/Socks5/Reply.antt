-- ===== src/Socks5/Reply.antt =====
-- src/io/net/socks5.cpp: `feed`, and the step of the grammar that a complete read ends.
use samurai.Prelude.{
  ℕ, zero, suc, ◌+◌, ◌-◌, ◌*◌, ◌%◌, Bool, true, false, not, ◌&&◌, [], ◌∷◌, ◌++◌, if◌then◌else◌,
  get_or, length, take, drop, ltb, ◌==◌, Bytes, word_mod, wrap,
}
use samurai.InetAddress.{Version, ipv4, ipv6, set_raw_address}
use samurai.Socks5.{
  Step, has_credentials, Status, need_write, need_read, finished, failed, method_reply, auth_reply,
  reply_head, reply_addr_len, reply_addr, reply_port, SocketError, connection_timeout,
  connection_refused, host_unreachable, net_unreachable, proxy_auth_failed, proxy_refused,
  proxy_protocol, socket_unknown, Handshake, fail, expect, queue,
}

unfoldable pub classify_reply : ℕ → SocketError
classify_reply reply =
    if reply == 0x01
    then socket_unknown
    else if reply == 0x03
    then net_unreachable
    else if reply == 0x04
    then host_unreachable
    else if reply == 0x05
    then connection_refused
    else if reply == 0x06
    then connection_timeout
    else proxy_refused

unfoldable pub encode_auth : Handshake → Handshake
encode_auth h = queue h (
    0x01
    ∷ length h.settings.username % 256
    ∷ (h.settings.username ++ length h.settings.password % 256 ∷ h.settings.password))

-- The cases of consumeStep, each with whether the loop of `feed` goes on. The bytes are `input`.
abbrev pub input_at : Handshake → ℕ → ℕ
input_at h i = get_or h.input i 0

unfoldable pub send_request : Handshake → Handshake × Bool
send_request h = (record (queue h h.request) { step = reply_head }, true)

unfoldable pub consume_method : Handshake → Handshake × Bool
consume_method h =
    let chosen = record h { method = input_at h 1 } in
    if ltb (length h.input) 2
    then (h, false)
    else if not (input_at h 0 == 0x05)
    then (fail h proxy_protocol, false)
    else if input_at h 1 == 0xFF
    then (fail chosen proxy_auth_failed, false)
    else if input_at h 1 == 0x00
    then send_request chosen
    else if input_at h 1 == 0x02 && has_credentials h.settings
    then (record (encode_auth chosen) { step = auth_reply }, true)
    else (fail chosen proxy_protocol, false)

unfoldable pub consume_auth : Handshake → Handshake × Bool
consume_auth h =
    if ltb (length h.input) 2
    then (h, false)
    else if not (input_at h 0 == 0x01)
    then (fail h proxy_protocol, false)
    else if not (input_at h 1 == 0x00)
    then (fail h proxy_auth_failed, false)
    else send_request h

unfoldable pub consume_head : Handshake → Handshake × Bool
consume_head h =
    let read = record h {
      result = record h.result { reply = input_at h 1 };
      reply_atyp = input_at h 3;
    } in
    if ltb (length h.input) 4
    then (h, false)
    else if not (input_at h 0 == 0x05)
    then (fail h proxy_protocol, false)
    else if input_at h 3 == 0x01
    then (expect read reply_addr 4, true)
    else if input_at h 3 == 0x04
    then (expect read reply_addr 16, true)
    else if input_at h 3 == 0x03
    then (expect read reply_addr_len 1, true)
    else (fail read proxy_protocol, false)

unfoldable pub consume_addr_len : Handshake → Handshake × Bool
consume_addr_len h =
    if ltb (length h.input) 1
    then (h, false)
    else if input_at h 0 == 0
    then (fail h proxy_protocol, false)
    else (expect h reply_addr (input_at h 0), true)

unfoldable pub consume_addr : Handshake → Handshake × Bool
consume_addr h =
    let raw = λ (n : ℕ) (v : Version). record h {
      result = record h.result {
        address = (set_raw_address h.result.address (take n h.input) v).0;
      };
    } in
    if h.reply_atyp == 0x01
    then (if ltb (length h.input) 4 then (h, false) else (expect (raw 4 ipv4) reply_port 2, true))
    else if h.reply_atyp == 0x04
    then (if ltb (length h.input) 16 then (h, false) else (expect (raw 16 ipv6) reply_port 2, true))
    else (expect (record h { result = record h.result { name = h.input } }) reply_port 2, true)

unfoldable pub consume_port : Handshake → Handshake × Bool
consume_port h =
    let read = record h {
      result = record h.result { port = input_at h 0 * 256 + input_at h 1 };
      input = [];
      need = 0;
    } in
    if ltb (length h.input) 2
    then (h, false)
    else if not (h.result.reply == 0x00)
    then (fail read (classify_reply h.result.reply), false)
    else (record read { status = finished }, false)

-- The switch of consumeStep.
abbrev pub consume_at : Step → Handshake → Handshake × Bool
consume_at method_reply h = consume_method h
consume_at auth_reply h = consume_auth h
consume_at reply_head h = consume_head h
consume_at reply_addr_len h = consume_addr_len h
consume_at reply_addr h = consume_addr h
consume_at reply_port h = consume_port h

unfoldable pub consume_step : Handshake → Handshake × Bool
unfolding fail expect queue has_credentials encode_auth send_request classify_reply set_raw_address
    consume_method consume_auth consume_head consume_addr_len consume_addr consume_port
consume_step h = consume_at h.step h

abbrev pub is_need_read : Status → Bool
is_need_read need_read = true
is_need_read need_write = false
is_need_read finished = false
is_need_read failed = false

-- What a round of the loop of `feed` takes of the bytes that are left.
abbrev pub taken : Handshake → ℕ → ℕ
taken h left =
    let missing = wrap (h.need + (word_mod - length h.input)) in
    if ltb left missing then left else missing

-- The loop of `feed` on the bytes that are left, and those it leaves.
unfoldable pub feed_loop : ℕ → Handshake → Bytes → Handshake × Bytes
unfolding consume_step
feed_loop zero h left = (h, left)
feed_loop (suc fuel) h left =
    let n = taken h (length left) in
    let more = record h { input = h.input ++ take n left } in
    let next = consume_step more in
    let rest = feed_loop fuel next.0 (drop n left) in
    if is_need_read h.status && ltb 0 (length left)
    then (if ltb (length more.input) h.need
        then (more, drop n left)
        else if next.1
        then rest
        else (next.0, drop n left))
    else (h, left)

-- The handshake after `feed`, and the bytes that it consumed. Each round takes at least one byte, so as
-- many rounds as bytes are enough.
unfoldable pub feed : Handshake → Bytes → Handshake × ℕ
unfolding feed_loop
feed h bytes = let done = feed_loop (length bytes) h bytes in (done.0, length bytes - length done.1)
