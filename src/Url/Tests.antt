-- ===== src/Url/Tests.antt =====
-- The theorems on URLs at concrete texts.
use samurai.Prelude.{◌≡◌, refl, Bool, true, false, none, some, Option, [], ◌∷◌, Bytes}
use samurai.InetAddress.{Version, parse_address}
use samurai.Url.Parse.{
  Url, is_alpha, is_scheme_char, all_scheme_chars, is_scheme, authority_end, take_userinfo,
  take_zone, take_literal, take_name, take_host, take_port, text_before, take_query, take_path,
  set_host, finish_parse, parse_hierarchy, parse_url,
}
use samurai.Url.Paths.{
  take_segment, segment_loop, join_segments, assemble, is_absolute, remove_dot_segments,
  merge_paths,
}
use samurai.Url.Resolve.{
  to_string_loop, to_string, has_scheme, userinfo_text, host_text, base_authority, cut_query,
  split_query, recompose, relative_path, network_target, target_text, resolve,
}
use samurai.Url.Clean.{IsClean, remove_dot_segments_lem}
use samurai.Url.Parts.{Parts, print, IsPlain, members}
use samurai.Url.Printed.{parse_url-print}
use samurai.Url.Target.{IsReference, reference_text, target}
use samurai.Url.Resolved.{resolve-parse_url}
use samurai.Url.Hostless.{resolve_hostless}
use samurai.Text.{ascii_lower}
use samurai.Text.Percent.{percent_decode, decode_loop, hex_value, escaped_byte}
use samurai.Text.Numbers.{
  is_digit, all_digits, digits_loop, skip_ws_sign, take_sign, is_c_space, to_int64, to_uint16,
}

-- A stand-in for inet_pton that knows no literal.
abbrev no_literal : Version → Bytes → Option Bytes
no_literal version text = none

-- The zone of a URL, and whether that is valid.
abbrev get_zone : Url → Bytes × Bool
get_zone u = (u.zone, u.valid)

-- "/a/./b/../c/"
abbrev dotted : Bytes
dotted = 0x2F ∷ 0x61 ∷ 0x2F ∷ 0x2E ∷ 0x2F ∷ 0x62 ∷ 0x2F ∷ 0x2E ∷ 0x2E ∷ 0x2F ∷ 0x63 ∷ 0x2F ∷ []

test_remove_dot_segments : remove_dot_segments dotted ≡ 0x2F ∷ 0x61 ∷ 0x2F ∷ 0x63 ∷ 0x2F ∷ []
unfolding remove_dot_segments segment_loop take_segment assemble join_segments
test_remove_dot_segments = refl

remove_dot_segments_example :
    IsClean (is_absolute dotted) (remove_dot_segments dotted)
    × (remove_dot_segments (remove_dot_segments dotted) ≡ remove_dot_segments dotted)
remove_dot_segments_example = remove_dot_segments_lem dotted

-- HTTP://me:x@h:080/a/b?q#f
abbrev base : Parts
base = record {
  scheme = 0x48 ∷ 0x54 ∷ 0x54 ∷ 0x50 ∷ [];
  user = some (0x6D ∷ 0x65 ∷ [], some (0x78 ∷ []));
  hostname = 0x68 ∷ [];
  port = some (0x30 ∷ 0x38 ∷ 0x30 ∷ []);
  path = 0x2F ∷ 0x61 ∷ 0x2F ∷ 0x62 ∷ [];
  query = some (0x71 ∷ []);
  fragment = some (0x66 ∷ []);
}

base-IsPlain : IsPlain base
unfolding is_scheme all_scheme_chars is_scheme_char is_alpha is_digit all_digits to_uint16 to_int64
    skip_ws_sign take_sign is_c_space digits_loop
base-IsPlain = record {
  scheme = refl;
  user = ((refl, (refl, tt)), (refl, (refl, tt)), (refl, tt));
  host_marks = (refl, tt);
  host_colon = (refl, tt);
  host_at = (refl, tt);
  host_name = refl;
  port = (refl, refl);
  path_start = refl;
  path_query = (refl, (refl, (refl, (refl, tt))));
  path_fragment = (refl, (refl, (refl, (refl, tt))));
  query = (refl, (refl, tt));
}

parse_url-print_example : parse_url no_literal (print base) ≡ members no_literal base
parse_url-print_example = parse_url-print no_literal base base-IsPlain

-- "../c", "r" and "g"
abbrev up_c : Bytes
up_c = 0x2E ∷ 0x2E ∷ 0x2F ∷ 0x63 ∷ []

abbrev letter_r : Option Bytes
letter_r = some (0x72 ∷ [])

abbrev letter_g : Option Bytes
letter_g = some (0x67 ∷ [])

up_c-IsReference : IsReference up_c letter_r letter_g
unfolding has_scheme
up_c-IsReference = record {
  some_path = refl;
  no_network = refl;
  path_query = (refl, (refl, (refl, (refl, tt))));
  path_fragment = (refl, (refl, (refl, (refl, tt))));
  query_fragment = (refl, (refl, tt));
  no_scheme = refl;
}

resolve-parse_example :
    resolve no_literal (parse_url no_literal (print base)) (reference_text up_c letter_r letter_g)
    ≡ members no_literal (target base up_c letter_r)
resolve-parse_example =
    resolve-parse_url no_literal base up_c letter_r letter_g base-IsPlain refl up_c-IsReference

-- "http://me:x@h:80/c?r"
test_target :
    print (target base up_c letter_r)
    ≡ 0x68 ∷ 0x74 ∷ 0x74 ∷ 0x70 ∷ 0x3A ∷ 0x2F ∷ 0x2F ∷ 0x6D ∷ 0x65 ∷ 0x3A ∷ 0x78 ∷ 0x40 ∷ 0x68
      ∷ 0x3A ∷ 0x38 ∷ 0x30 ∷ 0x2F ∷ 0x63 ∷ 0x3F ∷ 0x72 ∷ []
unfolding ascii_lower to_uint16 all_digits is_digit to_int64 skip_ws_sign take_sign is_c_space
    digits_loop to_string to_string_loop merge_paths remove_dot_segments segment_loop take_segment
    assemble join_segments
test_target = refl

-- file:///a
abbrev local : Parts
local = record {
  scheme = 0x66 ∷ 0x69 ∷ 0x6C ∷ 0x65 ∷ [];
  user = none;
  hostname = [];
  port = none;
  path = 0x2F ∷ 0x61 ∷ [];
  query = none;
  fragment = none;
}

local-IsPlain : IsPlain local
unfolding is_scheme all_scheme_chars is_scheme_char is_alpha is_digit all_digits to_uint16 to_int64
    skip_ws_sign take_sign is_c_space digits_loop
local-IsPlain = record {
  scheme = refl;
  user = tt;
  host_marks = tt;
  host_colon = tt;
  host_at = tt;
  host_name = refl;
  port = tt;
  path_start = refl;
  path_query = (refl, (refl, tt));
  path_fragment = (refl, (refl, tt));
  query = tt;
}

resolve_hostless_example :
    (resolve no_literal
      (parse_url no_literal (print local))
      (reference_text up_c letter_r letter_g)).valid
    ≡ false
resolve_hostless_example =
    resolve_hostless no_literal local up_c letter_r letter_g local-IsPlain refl up_c-IsReference

-- "http://[f::1%25e%2F]/": the zone is "e/".
abbrev zoned : Bytes
zoned =
    0x68 ∷ 0x74 ∷ 0x74 ∷ 0x70 ∷ 0x3A ∷ 0x2F ∷ 0x2F ∷ 0x5B ∷ 0x66 ∷ 0x3A ∷ 0x3A ∷ 0x31 ∷ 0x25 ∷ 0x32
    ∷ 0x35 ∷ 0x65 ∷ 0x25 ∷ 0x32 ∷ 0x46 ∷ 0x5D ∷ 0x2F ∷ []

-- What URL::resolve makes of "/b" there is not valid: the zone is not escaped again.
test_zone :
    (get_zone (parse_url no_literal zoned) ≡ (0x65 ∷ 0x2F ∷ [], true))
    × ((resolve no_literal (parse_url no_literal zoned) (0x2F ∷ 0x62 ∷ [])).valid ≡ false)
unfolding resolve parse_url is_scheme all_scheme_chars is_scheme_char is_alpha is_digit
    parse_hierarchy authority_end take_userinfo take_host take_literal take_zone take_name take_port
    percent_decode decode_loop hex_value escaped_byte finish_parse take_path text_before take_query
    set_host ascii_lower has_scheme target_text split_query cut_query network_target base_authority
    userinfo_text host_text recompose relative_path remove_dot_segments segment_loop take_segment
    assemble join_segments parse_address
test_zone = (refl, refl)
