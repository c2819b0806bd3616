-- ===== src/License/Text.antt =====
-- The text tests of src/license.ts: `trim`, the plan and UUID patterns, and `split(".")`.
use Prim.Native.Char.{Char, code}
use wickhunter_hub.Prelude.{
  ℕ, zero, suc, ◌+◌, ◌≡◌, ◌≢◌, refl, String, Bool, true, false, ◌&&◌, ◌||◌, Option, none, some,
  List, [], ◌∷◌, ◌++◌, leb, ltb, ◌==◌, if◌then◌else◌, length, arith, All,
}
use wickhunter_hub.License.Types.{Text}

-- The white space and line terminators that `trim` removes.
is_space : ℕ → Bool
is_space c =
    (leb 9 c && leb c 13)
    || c == 32
    || c == 160
    || c == 5760
    || (leb 8192 c && leb c 8202)
    || c == 8232
    || c == 8233
    || c == 8239
    || c == 8287
    || c == 12288
    || c == 65279

trim_start : String → String
unfolding is_space
trim_start String.[] = String.[]
trim_start (String.◌∷◌ c s) = if is_space (code c) then trim_start s else String.◌∷◌ c s

keep_end : Char → String → String
unfolding is_space
keep_end c String.[] = if is_space (code c) then String.[] else String.◌∷◌ c String.[]
keep_end c (String.◌∷◌ d s) = String.◌∷◌ c (String.◌∷◌ d s)

trim_end : String → String
unfolding keep_end
trim_end String.[] = String.[]
trim_end (String.◌∷◌ c s) = keep_end c (trim_end s)

unfoldable pub trim : String → String
unfolding trim_start trim_end
trim s = trim_end (trim_start s)

-- `s.length`: a character outside the basic plane counts twice.
unfoldable pub utf16_length : String → ℕ
utf16_length String.[] = 0
utf16_length (String.◌∷◌ c s) = (if ltb 65535 (code c) then 2 else 1) + utf16_length s

unfoldable pub is_alnum : ℕ → Bool
is_alnum c = (leb b'A' c && leb c b'Z') || (leb b'a' c && leb c b'z') || (leb b'0' c && leb c b'9')

unfoldable pub all_chars : (ℕ → Bool) → Text → Bool
all_chars p [] = true
all_chars p (c ∷ s) = p c && all_chars p s

-- The character codes of a text.
unfoldable pub codes : String → Text
codes String.[] = []
codes (String.◌∷◌ c s) = code c ∷ codes s

-- /^[A-Za-z0-9][A-Za-z0-9._-]{0,63}$/
unfoldable pub plan_codes : Text → Bool
unfolding is_alnum all_chars
plan_codes [] = false
plan_codes (c ∷ s) =
    is_alnum c
    && leb (length s) 63
    && all_chars (λ d. is_alnum d || d == b'.' || d == b'_' || d == b'-') s

unfoldable pub is_plan : String → Bool
unfolding plan_codes codes
is_plan s = plan_codes (codes s)

unfoldable pub is_hex : ℕ → Bool
is_hex c = (leb b'a' c && leb c b'f') || (leb b'0' c && leb c b'9')

-- The rest after `n` units that pass the test.
run_of : (ℕ → Bool) → ℕ → Text → Option Text
run_of p zero s = some s
run_of p (suc n) [] = none
run_of p (suc n) (c ∷ s) = if p c then run_of p n s else none

infixl 5 ◌>>=◌
abbrev ◌>>=◌ {ℓ κ} : {A : Type ℓ} {B : Type κ} → Option A → (A → Option B) → Option B
none >>= f = none
some a >>= f = f a

uuid_rest : Text → Option Text
unfolding run_of is_hex
uuid_rest s = do
  a ← run_of is_hex 8 s
  b ← run_of (λ c. c == b'-') 1 a
  c ← run_of is_hex 4 b
  d ← run_of (λ c. c == b'-') 1 c
  e ← run_of (λ c. c == b'4') 1 d
  f ← run_of is_hex 3 e
  g ← run_of (λ c. c == b'-') 1 f
  h ← run_of (λ c. c == b'8' || c == b'9' || c == b'a' || c == b'b') 1 g
  i ← run_of is_hex 3 h
  j ← run_of (λ c. c == b'-') 1 i
  run_of is_hex 12 j

-- /^[a-f0-9]{8}-[a-f0-9]{4}-4[a-f0-9]{3}-[89ab][a-f0-9]{3}-[a-f0-9]{12}$/
unfoldable pub is_uuid : String → Bool
unfolding uuid_rest codes
is_uuid id = elim (uuid_rest (codes id)) [
  | none ↦ false
  | some r ↦ elim r [ [] ↦ true | _ ∷ _ ↦ false ]
]

unfoldable pub same_text : Text → Text → Bool
same_text [] [] = true
same_text (a ∷ s) (b ∷ t) = a == b && same_text s t
same_text _ _ = false

push_front : ℕ → List Text → List Text
push_front c [] = (c ∷ []) ∷ []
push_front c (p ∷ ps) = (c ∷ p) ∷ ps

-- `s.split(".")`
unfoldable pub split : ℕ → Text → List Text
unfolding push_front
split sep [] = [] ∷ []
split sep (c ∷ s) = if c == sep then [] ∷ split sep s else push_front c (split sep s)

pub split-last : (sep : ℕ) (a : Text) → All (λ x. x ≢ sep) a → split sep a ≡ a ∷ []
unfolding split
split-last sep [] h = refl
split-last sep (c ∷ a) h = ground (arith, split-last sep a h.1)

pub split-append :
    (sep : ℕ) (a s : Text) → All (λ x. x ≢ sep) a → split sep (a ++ sep ∷ s) ≡ a ∷ split sep s
unfolding split
split-append sep [] s h = ground arith
split-append sep (c ∷ a) s h = ground (arith, split-append sep a s h.1)

pub same_text_refl : (s : Text) → same_text s s ≡ true
unfolding same_text
same_text_refl [] = refl
same_text_refl (c ∷ s) = ground (arith, same_text_refl s)
