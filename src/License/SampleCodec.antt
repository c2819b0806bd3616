-- ===== src/License/SampleCodec.antt =====
-- A codec that has the laws of `IsCodec`, for the concrete runs (license.ts): a payload as a list of
-- numbers, "signed" by a mark in front, with every number moved past the dot.
use Prim.Native.Nat.{Ordering, compare}
use Prim.Native.Char.{Char, char, code, nul, IsLt}
use text.Mathlib.TextEquality.{Char-path}
use wickhunter_hub.Prelude.{
  ℕ, zero, suc, ◌+◌, ◌-◌, ◌≡◌, ◌≢◌, refl, ap, ap₂, ◌∙◌, String, Option, none, some, [], ◌∷◌, All,
  arith,
}
use wickhunter_hub.License.Types.{
  Text, dot, LicensePayload, Codec, IsCodec, Parsed, object, parsed_of,
}
use wickhunter_hub.License.Text.{same_text, same_text_refl}

-- To be a Unicode scalar value, by the three comparisons of `Prim.Native.Char`.
abbrev Both : Ordering → Ordering → Type 0
Both Ordering.lt o = IsLt o
Both Ordering.eq _ = ⊥
Both Ordering.gt _ = ⊥

abbrev Scalar : Ordering → Ordering → Ordering → Type 0
Scalar Ordering.lt _ _ = Unit
Scalar Ordering.eq o p = Both o p
Scalar Ordering.gt o p = Both o p

abbrev pick_lt : (o : Ordering) → Option (IsLt o)
pick_lt Ordering.lt = some tt
pick_lt Ordering.eq = none
pick_lt Ordering.gt = none

abbrev pick_both : (o p : Ordering) → Option (Both o p)
pick_both Ordering.lt p = pick_lt p
pick_both Ordering.eq p = none
pick_both Ordering.gt p = none

abbrev pick : (o p q : Ordering) → Option (Scalar o p q)
pick Ordering.lt p q = some tt
pick Ordering.eq p q = pick_both p q
pick Ordering.gt p q = pick_both p q

picked_both : (o p : Ordering) → Both o p → (h : Both o p) × (pick_both o p ≡ some h)
picked_both Ordering.lt Ordering.lt h = (tt, refl)
picked_both Ordering.lt Ordering.eq h = absurd h
picked_both Ordering.lt Ordering.gt h = absurd h
picked_both Ordering.eq p h = absurd h
picked_both Ordering.gt p h = absurd h

picked : (o p q : Ordering) → Scalar o p q → (h : Scalar o p q) × (pick o p q ≡ some h)
picked Ordering.lt p q h = (tt, refl)
picked Ordering.eq p q h = picked_both p q h
picked Ordering.gt p q h = picked_both p q h

abbrev char_or_nul :
    (n : ℕ) → Option (Scalar (compare n 55296) (compare 57343 n) (compare n 1114112)) → Char
char_or_nul n none = nul
char_or_nul n (some h) = char n h

abbrev of_code : ℕ → Char
of_code n = char_or_nul n (pick (compare n 55296) (compare 57343 n) (compare n 1114112))

of_code-code : (c : Char) → of_code (code c) ≡ c
of_code-code (char n h) =
    let (g, e) = picked (compare n 55296) (compare 57343 n) (compare n 1114112) h in
    ap (char_or_nul n) e ∙ Char-path (char n g) (char n h) refl

-- A text in front of a list, closed by a zero.
abbrev pub pack : String → Text → Text
pack String.[] t = 0 ∷ t
pack (String.◌∷◌ c s) t = suc (code c) ∷ pack s t

abbrev put_char : Char → String × Text → String × Text
put_char c (s, t) = (String.◌∷◌ c s, t)

abbrev pub unpack : Text → String × Text
unpack [] = (String.[], [])
unpack (zero ∷ t) = (String.[], t)
unpack (suc n ∷ t) = put_char (of_code n) (unpack t)

pub unpack-pack : (s : String) (t : Text) → unpack (pack s t) ≡ (s, t)
unpack-pack String.[] t = refl
unpack-pack (String.◌∷◌ c s) t = ap₂ put_char (of_code-code c) (unpack-pack s t)

abbrev pub stringify : LicensePayload → Text
stringify p = p.v ∷ p.exp ∷ p.iat ∷ pack p.id (pack p.name (pack p.plan []))

abbrev pub parse : Text → Option Parsed
parse (v ∷ exp ∷ iat ∷ t) =
    let (id, t₁) = unpack t in
    let (name, t₂) = unpack t₁ in
    let (plan, _) = unpack t₂ in
    some (
      object
        (parsed_of (record { v = v; id = id; name = name; exp = exp; iat = iat; plan = plan })))
parse _ = none

abbrev pub shift : Text → Text
shift [] = []
shift (c ∷ t) = (c + 47) ∷ shift t

abbrev pub unshift : Text → Text
unshift [] = []
unshift (c ∷ t) = (c - 47) ∷ unshift t

unshift-shift : (t : Text) → unshift (shift t) ≡ t
unshift-shift [] = refl
unshift-shift (c ∷ t) = ap₂ ◌∷◌ (omega arith) (unshift-shift t)

shift-no_dot : (t : Text) → All (λ x. x ≢ dot) (shift t)
shift-no_dot [] = tt
shift-no_dot (c ∷ t) = ((λ e. omega arith), shift-no_dot t)

abbrev pub sample : Codec
sample = record {
  sign = λ b. 1 ∷ b;
  verify_signature = λ b s. same_text s (1 ∷ b);
  stringify = stringify;
  parse = parse;
  to_base64url = shift;
  from_base64url = unshift;
}

pub sample-IsCodec : IsCodec sample
sample-IsCodec = record {
  verify-sign = λ b. same_text_refl (1 ∷ b);
  parse-stringify = λ p.
      rw
        (
          unpack-pack p.id (pack p.name (pack p.plan [])),
          unpack-pack p.name (pack p.plan []),
          unpack-pack p.plan [],
        )
        refl;
  from-to = unshift-shift;
  no_dot = shift-no_dot;
}
