-- ===== src/Socks5/Construct.antt =====
-- src/io/net/socks5.cpp: the constructor and the invariant.
use samurai.Prelude.{
  ℕ, ◌≤◌, ◌<◌, ◌≡◌, refl, Bool, true, false, not, ◌&&◌, ◌||◌, Option, [], ◌∷◌, arith, if_cases,
  if◌then◌else◌, length, ltb, ◌==◌, Bytes,
}
use samurai.InetAddress.{Version, unspecified, same_version, parse_address}
use samurai.Socks5.{Handshake, SocketError, ProxySettings, Command, fail}
use samurai.Socks5.Request.{
  make, blank, is_local_address, is_local_name, is_resolve_ptr, encode_request, encode_greeting,
}
use samurai.Socks5.Invariant.{StatusValid, IsValid, fail-IsValid, queue-IsValid}

-- What `encode_request` leaves of a handshake that has read nothing.
record IsEncoded (r : Handshake × Bool) : Type 0 where
  pub request : r.1 ≡ true → 0 < length r.0.request
  pub refused : r.1 ≡ false → IsValid r.0
  pub input : r.0.input ≡ []
  pub need : r.0.need ≤ 255

greeting-pos :
    (b : Bool)
    → 0 < length {A = ℕ} (if b then 0x05 ∷ 2 ∷ 0x00 ∷ 0x02 ∷ [] else 0x05 ∷ 1 ∷ 0x00 ∷ [])
greeting-pos b = ground arith

module _ (inet_pton : Version → Bytes → Option Bytes) where
  refuse-IsEncoded :
      (h : Handshake) (code : SocketError) → h.input ≡ [] → IsEncoded (fail h code, false)
  unfolding fail StatusValid
  refuse-IsEncoded h code e = record {
    request = λ f. ground (arith, f);
    refused = λ _. record { status = refl; need = omega arith; input = rw e tt };
    input = e;
    need = omega arith;
  }

  encode_request-IsEncoded :
      (h : Handshake) → h.input ≡ [] → h.need ≤ 255 → IsEncoded (encode_request inet_pton h)
  unfolding encode_request
  encode_request-IsEncoded h e small =
      let address = parse_address inet_pton h.target in
      let is_literal = not (same_version address.version unspecified) in
      if_cases IsEncoded (not h.settings.allow_private && is_literal && is_local_address address)
        (λ _. refuse-IsEncoded h _ e)
        (λ _.
          if_cases IsEncoded
            (not h.settings.allow_private && not is_literal && is_local_name h.target)
            (λ _. refuse-IsEncoded h _ e)
            (λ _.
              if_cases IsEncoded (not is_literal && is_resolve_ptr h.command)
                (λ _. refuse-IsEncoded h _ e)
                (λ _. record {
                  request = λ _. omega arith;
                  refused = λ f. ground (arith, f);
                  input = e;
                  need = small;
                })))

  -- The constructor leaves a valid handshake, for any settings, command, target and port, also when
  -- it refuses them.
  pub make-IsValid :
      (settings : ProxySettings) (command : Command) (target : Bytes) (port : ℕ)
      → IsValid (make inet_pton settings command target port)
  unfolding make encode_greeting
  make-IsValid settings command target port =
      let h = blank settings command target port in
      let encoded = encode_request-IsEncoded h refl (omega arith) in
      if_cases IsValid (length target == 0) (λ _. fail-IsValid h _ tt)
        (λ _.
          if_cases IsValid (ltb 255 (length target)) (λ _. fail-IsValid h _ tt)
            (λ _.
              if_cases IsValid
                (ltb 255 (length settings.username) || ltb 255 (length settings.password))
                (λ _. fail-IsValid h _ tt)
                (λ _.
                  if_cases IsValid (encode_request inet_pton h).1
                    (λ f.
                      queue-IsValid (encode_request inet_pton h).0 _ (greeting-pos _)
                        (encoded.request f) encoded.need (rw encoded.input tt))
                    (λ f. encoded.refused f))))
