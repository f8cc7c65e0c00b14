-- ===== src/Socks5.antt =====
-- src/io/net/socks5.cpp and include/samurai/io/net/socks5.h: the client's side of a SOCKS5 handshake,
-- a state machine on bytes that has no socket. A std::string is the list of its bytes. The text of an
-- error message is not modelled; its code is. `socks5_pump`, which calls the operations for a socket,
-- is not modelled: `Socks5/Exchange` has the steps that it can make.
pub mod Request
pub mod Reply
pub mod Invariant
pub mod Preserve
pub mod Construct
pub mod Chunks
pub mod Exchange
pub mod Targets
mod Tests
use samurai.Prelude.{
  ℕ, ◌+◌, ◌-◌, Bool, not, ◌||◌, [], if◌then◌else◌, length, drop, ltb, leb, ◌==◌, Bytes, wrap,
}
use samurai.InetAddress.{InetAddress}

-- include/samurai/io/net/proxy.h
pub data Kind : Type 0 where
  direct : Kind
  socks5 : Kind

pub record ProxySettings : Type 0 where
  pub kind : Kind
  pub host : Bytes
  pub port : ℕ
  pub username : Bytes
  pub password : Bytes
  pub tor_extensions : Bool
  pub allow_private : Bool

pub has_credentials : ProxySettings → Bool
has_credentials s = not (length s.username == 0) || not (length s.password == 0)

pub data Command : Type 0 where
  connect : Command
  resolve : Command
  resolve_ptr : Command

abbrev pub command_byte : Command → ℕ
command_byte connect = 0x01
command_byte resolve = 0xF0
command_byte resolve_ptr = 0xF1

pub data Status : Type 0 where
  need_write : Status
  need_read : Status
  finished : Status
  failed : Status

pub data Step : Type 0 where
  method_reply : Step
  auth_reply : Step
  reply_head : Step
  reply_addr_len : Step
  reply_addr : Step
  reply_port : Step

-- include/samurai/io/net/socketbase.h
pub data SocketError : Type 0 where
  connection_timeout : SocketError
  connection_refused : SocketError
  host_unreachable : SocketError
  host_down : SocketError
  host_not_found : SocketError
  net_down : SocketError
  net_unreachable : SocketError
  socket_read : SocketError
  socket_write : SocketError
  socket_accept : SocketError
  proxy_auth_failed : SocketError
  proxy_refused : SocketError
  proxy_protocol : SocketError
  socket_unknown : SocketError

-- Socks5Handshake::Result
pub record Result : Type 0 where
  pub reply : ℕ
  pub address : InetAddress
  pub name : Bytes
  pub port : ℕ

-- The fields `status`, `in` and `error` of the class among them; `in` is `input`.
pub record Handshake : Type 0 where
  pub settings : ProxySettings
  pub command : Command
  pub target : Bytes
  pub target_port : ℕ
  pub status : Status
  pub step : Step
  pub out : Bytes
  pub out_sent : ℕ
  pub request : Bytes
  pub input : Bytes
  pub need : ℕ
  pub method : ℕ
  pub reply_atyp : ℕ
  pub result : Result
  pub error : SocketError

pub fail : Handshake → SocketError → Handshake
fail h code = record h { status = failed; error = code; out = []; out_sent = 0; need = 0 }

pub expect : Handshake → Step → ℕ → Handshake
expect h next bytes = record h { step = next; need = bytes; input = []; status = need_read }

pub queue : Handshake → Bytes → Handshake
queue h bytes = record h { out = bytes; out_sent = 0; status = need_write }

unfoldable pub outgoing : Handshake → Bytes
outgoing h = if leb (length h.out) h.out_sent then [] else drop h.out_sent h.out

-- Everything is sent: the reply that the step names is read.
abbrev pub await_reply : Step → Handshake → Handshake
await_reply method_reply h = expect h method_reply 2
await_reply auth_reply h = expect h auth_reply 2
await_reply _ h = expect h reply_head 4

abbrev pub consume_in : Status → Handshake → ℕ → Handshake
consume_in need_write h sent =
    let total = wrap (h.out_sent + sent) in
    let next = record h { out_sent = if ltb (length h.out) total then length h.out else total } in
    if ltb next.out_sent (length h.out) then next else await_reply h.step next
consume_in need_read h sent = h
consume_in finished h sent = h
consume_in failed h sent = h

pub consume_outgoing : Handshake → ℕ → Handshake
unfolding expect
consume_outgoing h sent = consume_in h.status h sent

unfoldable pub wanted : Handshake → ℕ
wanted h = elim h.status [
  | need_read ↦ if leb h.need (length h.input) then 0 else h.need - length h.input
  | need_write ↦ 0
  | finished ↦ 0
  | failed ↦ 0
]

abbrev pub closed_in : Status → Handshake → Handshake
closed_in need_write h = fail h proxy_protocol
closed_in need_read h = fail h proxy_protocol
closed_in finished h = h
closed_in failed h = h

pub closed : Handshake → Handshake
unfolding fail
closed h = closed_in h.status h
