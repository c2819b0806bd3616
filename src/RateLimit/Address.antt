-- ===== src/RateLimit/Address.antt =====
-- The address tests of src/ratelimit.ts: `ipv4ToInt`, `ipv6ToBigInt` and the allowlist. A text is the
-- list of its character codes.
pub mod Blocks
pub mod Families
mod Tests
use wickhunter_hub.Prelude.{
  ℕ, suc, zero, ◌+◌, ◌-◌, ◌*◌, ◌/◌, ◌%◌, ◌^◌, Bool, true, false, not, ◌&&◌, ◌||◌, Option, none,
  some, List, [], ◌∷◌, ◌++◌, leb, ltb, ◌==◌, if◌then◌else◌, length,
}

abbrev pub Text : Type 0
Text = List ℕ

infixl 5 ◌>>=◌ ◌>>◌
abbrev pub ◌>>=◌ {ℓ₁ ℓ₂} :
    {A : Type ℓ₁} {B : Type ℓ₂} (o : Option A) (rest : A → Option B) → Option B
some a >>= rest = rest a
none >>= rest = none

abbrev pub ◌>>◌ {ℓ₁} : {B : Type ℓ₁} (checked : Option (Unit {0})) (rest : Option B) → Option B
checked >> rest = checked >>= λ _. rest

abbrev pub when : Bool → Option (Unit {0})
when true = some tt
when false = none

abbrev pub glue : ℕ → List Text → List Text
glue c [] = (c ∷ []) ∷ []
glue c (part ∷ parts) = (c ∷ part) ∷ parts

-- `text.split(mark)`
unfoldable pub split_at : ℕ → Text → List Text
split_at mark [] = [] ∷ []
split_at mark (c ∷ s) = let rest = split_at mark s in if c == mark then [] ∷ rest else glue c rest

unfoldable pub includes : ℕ → Text → Bool
includes mark [] = false
includes mark (c ∷ s) = c == mark || includes mark s

unfoldable pub all_codes : (ℕ → Bool) → Text → Bool
all_codes ok [] = true
all_codes ok (c ∷ s) = ok c && all_codes ok s

abbrev pub is_digit : ℕ → Bool
is_digit c = leb b'0' c && leb c b'9'

abbrev pub is_hex_digit : ℕ → Bool
is_hex_digit c = is_digit c || (leb b'a' c && leb c b'f') || (leb b'A' c && leb c b'F')

abbrev pub hex_value : ℕ → ℕ
hex_value c = if leb c b'9' then c - b'0' else (if leb c b'F' then c - 55 else c - 87)

unfoldable pub number_in : ℕ → (ℕ → ℕ) → ℕ → Text → ℕ
number_in base value n [] = n
number_in base value n (c ∷ s) = number_in base value (n * base + value c) s

-- /^\d{1,3}$/ and its number
unfoldable pub short_number : Text → Option ℕ
unfolding all_codes number_in
short_number s =
    if all_codes is_digit s && leb 1 (length s) && leb (length s) 3
    then some (number_in 10 (λ c. c - b'0') 0 s)
    else none

abbrev pub leads_with_zero : Text → Bool
leads_with_zero (c ∷ d ∷ s) = c == b'0'
leads_with_zero _ = false

unfoldable pub octet : Text → Option ℕ
unfolding short_number
octet s = do v ← short_number s; when (not (leads_with_zero s) && leb v 255); some v

-- `n = (n << 8) | v` in 32 bits
unfoldable pub octets : ℕ → List Text → Option ℕ
unfolding octet
octets n [] = some n
octets n (part ∷ parts) = elim (octet part) [
  | none ↦ none
  | some v ↦ octets ((n * 256 + v) % 2 ^ 32) parts
]

unfoldable pub ipv4_to_int : Text → Option ℕ
unfolding split_at octets
ipv4_to_int ip = let parts = split_at b'.' ip in if length parts == 4 then octets 0 parts else none

-- The texts before and after the first "::".
unfoldable pub at_double_colon : Text → Option (Text × Text)
at_double_colon [] = none
at_double_colon (c ∷ []) = none
at_double_colon (c ∷ d ∷ s) =
    let rest = at_double_colon (d ∷ s) in
    if c == b':' && d == b':'
    then some ([], s)
    else elim rest [ none ↦ none | some (head, tail) ↦ some (c ∷ head, tail) ]

abbrev hex_digit : ℕ → ℕ
hex_digit v = if ltb v 10 then v + b'0' else v + 87

-- `v.toString(16)` of a 16-bit number
unfoldable pub to_hex : ℕ → Text
to_hex v =
    let low = hex_digit (v % 16) ∷ [] in
    if ltb v 16
    then low
    else (if ltb v 256
        then hex_digit (v / 16) ∷ low
        else (if ltb v 4096
            then hex_digit (v / 256) ∷ hex_digit (v / 16 % 16) ∷ low
            else hex_digit (v / 4096) ∷ hex_digit (v / 256 % 16) ∷ hex_digit (v / 16 % 16) ∷ low))

-- A last part with a dot is an IPv4 address, and stands for two groups.
unfoldable pub expand_v4_tail : List Text → Option (List Text)
unfolding includes ipv4_to_int to_hex
expand_v4_tail [] = some []
expand_v4_tail (part ∷ []) =
    if includes b'.' part
    then elim (ipv4_to_int part) [
      | none ↦ none
      | some v ↦ some (to_hex (v / 65536) ∷ to_hex (v % 65536) ∷ [])
    ]
    else some (part ∷ [])
expand_v4_tail (part ∷ next ∷ parts) = elim (expand_v4_tail (next ∷ parts)) [
  | none ↦ none
  | some rest ↦ some (part ∷ rest)
]

unfoldable pub groups_value : ℕ → List Text → Option ℕ
unfolding all_codes number_in
groups_value n [] = some n
groups_value n (g ∷ gs) =
    let rest = groups_value (n * 65536 + number_in 16 hex_value 0 g) gs in
    if all_codes is_hex_digit g && leb 1 (length g) && leb (length g) 4 then rest else none

unfoldable pub zeros : ℕ → List Text
zeros zero = []
zeros (suc n) = (b'0' ∷ []) ∷ zeros n

abbrev parts_of : Text → List Text
parts_of [] = []
parts_of (c ∷ s) = split_at b':' (c ∷ s)

unfoldable pub is_ipv6_shaped : Text → Bool
unfolding all_codes includes
is_ipv6_shaped ip = all_codes (λ c. is_hex_digit c || c == b':' || c == b'.') ip && includes b':' ip

-- The groups of an address: eight of them, or as many zero groups as "::" stands for.
unfoldable pub groups_of : Text → Option (List Text)
unfolding at_double_colon expand_v4_tail zeros
groups_of ip = elim (at_double_colon ip) [
  | none ↦ do head ← expand_v4_tail (parts_of ip); when (length head == 8); some head
  | some (before, after) ↦ do
    when (elim (at_double_colon (b':' ∷ after)) [ none ↦ true | some _ ↦ false ])
    head ← expand_v4_tail (parts_of before)
    tail ← expand_v4_tail (parts_of after)
    when (leb (length head + length tail) 8)
    some (head ++ zeros (8 - length head - length tail) ++ tail)
]

unfoldable pub ipv6_to_int : Text → Option ℕ
unfolding is_ipv6_shaped groups_of groups_value
ipv6_to_int ip = do when (is_ipv6_shaped ip); groups ← groups_of ip; groups_value 0 groups

-- The common tail of `ipv4InCidr` and `ipv6InCidr`, for addresses of `width` bits.
unfoldable pub in_block : ℕ → ℕ → ℕ → ℕ → Bool
in_block width ip base bits =
    if bits == 0 then true else ip / 2 ^ (width - bits) == base / 2 ^ (width - bits)

unfoldable pub in_cidr : ℕ → (Text → Option ℕ) → Text → Text → ℕ → Bool
unfolding in_block
in_cidr width to_int ip base bits = if ltb width bits then false else elim (to_int ip) [
  | none ↦ false
  | some n ↦ elim (to_int base) [ none ↦ false | some m ↦ in_block width n m bits ]
]

-- The texts before and after the first slash.
unfoldable pub at_slash : Text → Option (Text × Text)
at_slash [] = none
at_slash (c ∷ s) =
    let rest = at_slash s in
    if c == b'/'
    then some ([], s)
    else elim rest [ none ↦ none | some (head, tail) ↦ some (c ∷ head, tail) ]

abbrev pub is_parsed : Option ℕ → Bool
is_parsed none = false
is_parsed (some n) = true

abbrev both_equal : Option ℕ → Option ℕ → Bool
both_equal (some n) (some m) = n == m
both_equal _ _ = false

unfoldable pub ip_matches_entry : Text → Text → Bool
unfolding at_slash in_cidr short_number
ip_matches_entry ip entry = elim (at_slash entry) [
  | none ↦
      if is_parsed (ipv4_to_int ip) && is_parsed (ipv4_to_int entry)
      then both_equal (ipv4_to_int ip) (ipv4_to_int entry)
      else both_equal (ipv6_to_int ip) (ipv6_to_int entry)
  | some (base, bits_raw) ↦ elim (short_number bits_raw) [
    | none ↦ false
    | some bits ↦
        if is_parsed (ipv4_to_int ip) && is_parsed (ipv4_to_int base)
        then in_cidr 32 ipv4_to_int ip base bits
        else (if is_parsed (ipv6_to_int ip) && is_parsed (ipv6_to_int base)
            then in_cidr 128 ipv6_to_int ip base bits
            else false)
  ]
]

unfoldable pub some_entry : Text → List Text → Bool
unfolding ip_matches_entry
some_entry ip [] = false
some_entry ip (entry ∷ entries) = ip_matches_entry ip entry || some_entry ip entries

unfoldable pub ip_matches_allowlist : Text → List Text → Bool
unfolding some_entry
ip_matches_allowlist ip [] = true
ip_matches_allowlist ip (entry ∷ entries) = some_entry ip (entry ∷ entries)
