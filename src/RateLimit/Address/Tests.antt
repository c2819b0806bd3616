-- ===== src/RateLimit/Address/Tests.antt =====
-- Concrete addresses (ratelimit.ts): tests, and instances of the theorems.
use wickhunter_hub.Prelude.{
  ◌+◌, ◌*◌, ◌/◌, ◌^◌, ◌≤◌, ◌<◌, ◌≡◌, ◌↔◌, refl, true, false, none, some, [], ◌∷◌, arith,
}
use wickhunter_hub.RateLimit.Address.{
  Text, ipv4_to_int, ipv6_to_int, in_block, ip_matches_entry, ip_matches_allowlist, split_at,
  includes, all_codes, number_in, short_number, octet, octets, at_double_colon, to_hex,
  expand_v4_tail, groups_value, zeros, is_ipv6_shaped, groups_of, in_cidr, at_slash,
}
use wickhunter_hub.RateLimit.Address.Blocks.{in_block_iff, unparsed_refused}
use wickhunter_hub.RateLimit.Address.Families.{ipv4-not_ipv6}

-- 10.0.1.9
abbrev host : Text
host = b'1' ∷ b'0' ∷ b'.' ∷ b'0' ∷ b'.' ∷ b'1' ∷ b'.' ∷ b'9' ∷ []

-- 10.0.0.0/8
abbrev range : Text
range = b'1' ∷ b'0' ∷ b'.' ∷ b'0' ∷ b'.' ∷ b'0' ∷ b'.' ∷ b'0' ∷ b'/' ∷ b'8' ∷ []

-- ::ffff:10.0.1.9
abbrev mapped : Text
mapped = b':' ∷ b':' ∷ b'f' ∷ b'f' ∷ b'f' ∷ b'f' ∷ b':' ∷ host

abbrev unknown : Text
unknown = b'u' ∷ b'n' ∷ b'k' ∷ []

host-number : ipv4_to_int host ≡ some 167772425
unfolding ipv4_to_int split_at octets octet short_number all_codes number_in
host-number = refl

mapped-number : ipv6_to_int mapped ≡ some (65535 * 2 ^ 32 + 167772425)
unfolding ipv6_to_int groups_of groups_value is_ipv6_shaped at_double_colon expand_v4_tail to_hex
    zeros ipv4_to_int split_at octets octet short_number all_codes number_in includes
mapped-number = refl

host-in_range : ip_matches_entry host range ≡ true
unfolding ip_matches_entry at_slash in_cidr in_block ipv4_to_int split_at octets octet short_number
    all_codes number_in
host-in_range = refl

in_block_iff_example :
    (in_block 32 167772425 167772160 24 ≡ true)
    ↔ ((167772160 / 2 ^ 8 * 2 ^ 8 ≤ 167772425) × (167772425 < 167772160 / 2 ^ 8 * 2 ^ 8 + 2 ^ 8))
in_block_iff_example = in_block_iff 32 167772425 167772160 24 (omega arith)

unknown-no_ipv4 : ipv4_to_int unknown ≡ none
unfolding ipv4_to_int split_at
unknown-no_ipv4 = refl

unknown-no_ipv6 : ipv6_to_int unknown ≡ none
unfolding ipv6_to_int is_ipv6_shaped all_codes
unknown-no_ipv6 = refl

unparsed_refused_example :
    (ip_matches_allowlist unknown (range ∷ []) ≡ false) × (ip_matches_allowlist unknown [] ≡ true)
unparsed_refused_example = unparsed_refused unknown range [] unknown-no_ipv4 unknown-no_ipv6

ipv4-not_ipv6_example : ipv6_to_int host ≡ none
ipv4-not_ipv6_example = ipv4-not_ipv6 host 167772425 host-number
