-- ===== src/RateLimit/Address/Blocks.antt =====
-- What a CIDR range is (ratelimit.ts): a block of addresses.
use native.Mathlib.Nat.{div-add-mod, mod-lt, mul_comm, div-eq_of_lt-le, pow-le-pow_right}
use wickhunter_hub.Prelude.{
  ℕ, ◌+◌, ◌-◌, ◌*◌, ◌/◌, ◌%◌, ◌^◌, ◌≤◌, ◌<◌, ◌≡◌, ◌↔◌, refl, sym, ap, ◌∙◌, Bool, true, false,
  if◌then◌else◌, ◌==◌, arith, inl, inr, ==_iff, subst, Option, none, some, List, [], ◌∷◌, ◌⊎◌,
}
use wickhunter_hub.RateLimit.Address.{
  Text, in_block, ipv4_to_int, ipv6_to_int, octets, octet, ip_matches_entry, ip_matches_allowlist,
  some_entry, split_at,
}

same_quotient :
    (a b m : ℕ) → 1 ≤ m → ((a / m == b / m) ≡ true) ↔ ((b / m * m ≤ a) × (a < b / m * m + m))
same_quotient a b m pos = (
  (λ h.
      let same = (==_iff (a / m) (b / m)).0 h in
      let q = mul_comm m (b / m) in
      let d : m * (b / m) + a % m ≡ a = ap (λ x. m * x + a % m) (sym same) ∙ div-add-mod a m in
      let lt = mod-lt a pos in (omega (arith, q, d), omega (arith, q, d, lt))),
  (λ r. (==_iff (a / m) (b / m)).1 (div-eq_of_lt-le m r.0 (next r.1))),
)
  where
    next : a < b / m * m + m → a < (b / m + 1) * m
    next h = grind (arith, h)

pos_pow : (n : ℕ) → 1 ≤ 2 ^ n
pos_pow n = pow-le-pow_right {n = 2} (omega arith) {i = 0} {j = n} (omega arith)

-- A range of at least one prefix bit holds exactly the block of addresses of its size that the base
-- lies in: from the base with its low bits cleared, 2 ^ (width - bits) addresses.
pub in_block_iff :
    (width ip base bits : ℕ)
    → 1 ≤ bits
    → let size = 2 ^ (width - bits) in
      (in_block width ip base bits ≡ true)
      ↔ ((base / size * size ≤ ip) × (ip < base / size * size + size))
unfolding in_block
in_block_iff width ip base bits pos =
    let size = 2 ^ (width - bits) in
    let r = same_quotient ip base size (pos_pow (width - bits)) in
    subst (λ x. (x ≡ true) ↔ ((base / size * size ≤ ip) × (ip < base / size * size + size)))
      (sym (prefixed (bits == 0) (ground arith))) r
  where
    prefixed :
        (b : Bool)
        → b ≡ false
        → (if b then true else ip / 2 ^ (width - bits) == base / 2 ^ (width - bits))
          ≡ (ip / 2 ^ (width - bits) == base / 2 ^ (width - bits))
    prefixed b h = rw h refl

octets_bound :
    (n : ℕ) (parts : List Text) (r : ℕ) → n < 2 ^ 32 → octets n parts ≡ some r → r < 2 ^ 32
unfolding octets
octets_bound n [] r lt e = let same : n ≡ r = cc in omega (arith, same, lt)
octets_bound n (part ∷ parts) r lt e = elim (option_cases (octet part)) [
  | inl none_here ↦ absurd (ground (arith, none_here, e))
  | inr (v, here) ↦
      octets_bound ((n * 256 + v) % 2 ^ 32) parts r (omega arith) (ground (arith, here, e))
]
  where
    option_cases : (o : Option ℕ) → (o ≡ none) ⊎ ((v : ℕ) × (o ≡ some v))
    option_cases none = inl refl
    option_cases (some v) = inr (v, refl)

-- The number of an IPv4 address fits in 32 bits.
pub ipv4_to_int_bound : (ip : Text) (n : ℕ) → ipv4_to_int ip ≡ some n → n < 2 ^ 32
unfolding ipv4_to_int
ipv4_to_int_bound ip n e = octets_bound 0 (split_at b'.' ip) n (omega arith) (ground (arith, e))

-- it is refused by every list but the empty one.
unparsed_entry :
    (ip entry : Text)
    → ipv4_to_int ip ≡ none
    → ipv6_to_int ip ≡ none
    → ip_matches_entry ip entry ≡ false
unfolding ip_matches_entry
unparsed_entry ip entry four six = ground (arith, four, six)

unparsed_some :
    (ip : Text) (entries : List Text)
    → ipv4_to_int ip ≡ none
    → ipv6_to_int ip ≡ none
    → some_entry ip entries ≡ false
unfolding some_entry
unparsed_some ip [] four six = refl
unparsed_some ip (entry ∷ entries) four six =
    ground (arith, unparsed_entry ip entry four six, unparsed_some ip entries four six)

-- An allowlist fails closed: an address that is neither IPv4 nor IPv6 (such as "unknown") is refused by
-- every list but the empty one, and the empty one allows every address.
pub unparsed_refused :
    (ip entry : Text) (entries : List Text)
    → ipv4_to_int ip ≡ none
    → ipv6_to_int ip ≡ none
    → (ip_matches_allowlist ip (entry ∷ entries) ≡ false) × (ip_matches_allowlist ip [] ≡ true)
unfolding ip_matches_allowlist
unparsed_refused ip entry entries four six = (unparsed_some ip (entry ∷ entries) four six, refl)
