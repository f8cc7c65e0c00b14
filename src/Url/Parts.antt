-- ===== src/Url/Parts.antt =====
-- src/io/net/url.cpp: the parts of a URL, their text and the members that go with them.
use samurai.Prelude.{ℕ, ◌≡◌, Bool, true, false, Option, some, none, [], ◌∷◌, ◌++◌, map, ◌==◌, Bytes}
use samurai.InetAddress.{Version, InetAddress, no_address, parse_address}
use samurai.Text.{ascii_lower}
use samurai.Text.Numbers.{all_digits, to_uint16}
use samurai.Text.Fields.{Lacks}
use samurai.Url.Parse.{Url, is_scheme, is_delimiter, or_root}

pub record Parts : Type 0 where
  pub scheme : Bytes
  pub user : Option (Bytes × Option Bytes)
  pub hostname : Bytes
  pub port : Option Bytes
  pub path : Bytes
  pub query : Option Bytes
  pub fragment : Option Bytes

-- A part behind its mark, if it is there.
abbrev pub marked : ℕ → Option Bytes → Bytes
marked c none = []
marked c (some text) = c ∷ text

abbrev pub user_text : Option (Bytes × Option Bytes) → Bytes
user_text none = []
user_text (some (name, password)) = (name ++ marked 0x3A password) ++ 0x40 ∷ []

abbrev pub authority_text : Parts → Bytes
authority_text p = user_text p.user ++ (p.hostname ++ marked 0x3A p.port)

-- What is behind the authority.
abbrev pub tail_text : Parts → Bytes
tail_text p = p.path ++ (marked 0x3F p.query ++ marked 0x23 p.fragment)

abbrev pub print : Parts → Bytes
print p = p.scheme ++ 0x3A ∷ 0x2F ∷ 0x2F ∷ (authority_text p ++ tail_text p)

-- No byte ends the authority.
abbrev pub Undelimited : Bytes → Type 0
Undelimited [] = Unit
Undelimited (c ∷ cs) = (is_delimiter c ≡ false) × Undelimited cs

abbrev pub IsPlainUser : Option (Bytes × Option Bytes) → Type 0
IsPlainUser none = Unit
IsPlainUser (some (name, none)) = Undelimited name × Lacks 0x3A name
IsPlainUser (some (name, some password)) = Undelimited name × Lacks 0x3A name × Undelimited password

abbrev pub IsPlainPort : Option Bytes → Type 0
IsPlainPort none = Unit
IsPlainPort (some text) = (all_digits text ≡ true) × ((to_uint16 text == 0) ≡ false)

abbrev pub starts_path : Bytes → Bool
starts_path [] = true
starts_path (c ∷ cs) = c == 0x2F

abbrev pub starts_literal : Bytes → Bool
starts_literal [] = false
starts_literal (c ∷ cs) = c == 0x5B

-- The parts have none of the marks that end them: a host that is a name or an IPv4 address.
pub record IsPlain (p : Parts) : Type 0 where
  pub scheme : is_scheme p.scheme ≡ true
  pub user : IsPlainUser p.user
  pub host_marks : Undelimited p.hostname
  pub host_colon : Lacks 0x3A p.hostname
  pub host_at : Lacks 0x40 p.hostname
  pub host_name : starts_literal p.hostname ≡ false
  pub port : IsPlainPort p.port
  pub path_start : starts_path p.path ≡ true
  pub path_query : Lacks 0x3F p.path
  pub path_fragment : Lacks 0x23 p.path
  pub query : Lacks 0x23 (marked 0x3F p.query)

abbrev pub port_number : Option Bytes → ℕ
port_number none = 0
port_number (some text) = to_uint16 text

abbrev pub text_of : Option Bytes → Bytes
text_of none = []
text_of (some text) = text

abbrev pub name_of : Option (Bytes × Option Bytes) → Bytes
name_of none = []
name_of (some (name, password)) = name

abbrev pub password_of : Option (Bytes × Option Bytes) → Bytes
password_of none = []
password_of (some (name, password)) = text_of password

abbrev pub host_of : (Version → Bytes → Option Bytes) → Bytes → InetAddress
host_of inet_pton [] = no_address
host_of inet_pton (c ∷ cs) = parse_address inet_pton (c ∷ cs)

-- The members that a URL of these parts has.
abbrev pub members : (Version → Bytes → Option Bytes) → Parts → Url
members inet_pton p = record {
  url = print p;
  scheme = map ascii_lower p.scheme;
  host = host_of inet_pton p.hostname;
  hostname = p.hostname;
  zone = [];
  port = port_number p.port;
  path = or_root p.path;
  username = name_of p.user;
  password = password_of p.user;
  file = or_root (tail_text p);
  query = text_of p.query;
  valid = true;
}
