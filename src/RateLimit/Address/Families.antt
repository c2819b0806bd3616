-- ===== src/RateLimit/Address/Families.antt =====
-- No text is an address of both families (`ipv4ToInt` and `ipv6ToBigInt`, ratelimit.ts).
use wickhunter_hub.Prelude.{
  ℕ, ◌+◌, ◌*◌, ◌%◌, ◌^◌, ◌≡◌, ◌≢◌, refl, ◌∙◌, Bool, true, false, ◌||◌, none, some, List, [], ◌∷◌,
  ◌==◌, arith, Bool-cases, Option-cases, inl, inr,
}
use wickhunter_hub.RateLimit.Address.{
  Text, glue, split_at, includes, all_codes, is_digit, short_number, octet, octets, ipv4_to_int,
  ipv6_to_int, is_ipv6_shaped,
}

abbrev any_includes : ℕ → List Text → Bool
any_includes c [] = false
any_includes c (part ∷ parts) = includes c part || any_includes c parts

glue-includes :
    (c d : ℕ) (parts : List Text) → any_includes c (glue d parts) ≡ (d == c || any_includes c parts)
unfolding includes
glue-includes c d [] = ground arith
glue-includes c d (part ∷ parts) = ground arith

split-includes :
    (c mark : ℕ) (s : Text) → c ≢ mark → includes c s ≡ any_includes c (split_at mark s)
unfolding includes split_at
split-includes c mark [] h = refl
split-includes c mark (d ∷ s) h = elim (Bool-cases (d == mark)) [
  | inl cut ↦ ground (arith, cut, split-includes c mark s h)
  | inr whole ↦
      ground (arith, whole, split-includes c mark s h, glue-includes c d (split_at mark s))
]

digits_only : (s : Text) → all_codes is_digit s ≡ true → includes b':' s ≡ false
unfolding all_codes includes
digits_only [] h = refl
digits_only (c ∷ s) h = ground (arith, digits_only s)

octet-no_colon : (s : Text) (v : ℕ) → octet s ≡ some v → includes b':' s ≡ false
unfolding octet short_number
octet-no_colon s v e = elim (Bool-cases (all_codes is_digit s)) [
  | inl digits ↦ digits_only s digits
  | inr other ↦ absurd (ground (arith, other, e))
]

octets-no_colon :
    (n : ℕ) (parts : List Text) (r : ℕ) → octets n parts ≡ some r → any_includes b':' parts ≡ false
unfolding octets
octets-no_colon n [] r e = refl
octets-no_colon n (part ∷ parts) r e = elim (Option-cases (octet part)) [
  | inl none_here ↦ absurd (ground (arith, none_here, e))
  | inr (v, here) ↦ ground (
    arith,
    octet-no_colon part v here,
    octets-no_colon ((n * 256 + v) % 2 ^ 32) parts r (ground (arith, here, e)),
  )
]

-- The families do not mix: a text that parses as an IPv4 address does not parse as an IPv6 address.
pub ipv4-not_ipv6 : (ip : Text) (n : ℕ) → ipv4_to_int ip ≡ some n → ipv6_to_int ip ≡ none
unfolding ipv4_to_int ipv6_to_int is_ipv6_shaped
ipv4-not_ipv6 ip n e =
    let parts : any_includes b':' (split_at b'.' ip) ≡ false =
      octets-no_colon 0 (split_at b'.' ip) n (ground (arith, e)) in
    let no_colon : includes b':' ip ≡ false =
      split-includes b':' b'.' ip (λ h. omega (arith, h)) ∙ parts in
    ground (arith, no_colon)
