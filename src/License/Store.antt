-- ===== src/License/Store.antt =====
-- The methods of `LicenseStore` in src/license.ts.
use wickhunter_hub.Prelude.{
  ℕ, ◌+◌, ◌*◌, String, Bool, true, false, not, ◌&&◌, ◌||◌, Option, none, some, List, [], ◌∷◌, ◌++◌,
  Dict, lookup, insert, contains, leb, ltb, ◌==◌, str_eq, if◌then◌else◌,
}
use wickhunter_hub.License.Types.{
  Text, LicensePayload, LicenseRecord, format, signature, payload, expired, revoked, VerifyResult,
  valid, invalid, LicenseFiles, LicenseError, bad_days, bad_name, bad_plan, no_key,
  expiry_not_after, expiry_too_late, bad_reserved_id, reserved_id_taken, bad_date, Result, ok, err,
  string, number, Parsed, object, not_object, Codec, dot, day_ms, max_term_ms,
}
use wickhunter_hub.License.Text.{trim, utf16_length, is_plan, is_uuid, same_text, split}

-- A guard that throws.
abbrev pub throw_if : Bool → LicenseError → Result (Unit {0})
throw_if true why = err why
throw_if false why = ok tt

infixl 5 ◌>>◌ ◌>>=◌
-- An error thrown early skips the rest of the method.
abbrev pub ◌>>=◌ {ℓ₁ ℓ₂} :
    {A : Type ℓ₁} {B : Type ℓ₂} (r : Result A) (rest : A → Result B) → Result B
err why >>= rest = err why
ok a >>= rest = rest a

abbrev pub ◌>>◌ {ℓ₁} : {B : Type ℓ₁} (checked : Result (Unit {0})) (rest : Result B) → Result B
checked >> rest = checked >>= λ _. rest

abbrev pub token_prefix : Text
token_prefix = b'L' ∷ b'H' ∷ b'K' ∷ b'1' ∷ []

unfoldable pub is_revoked : LicenseFiles → String → Bool
is_revoked f id = contains id f.revocations

unfoldable pub is_known : LicenseFiles → String → Bool
is_known f id = contains id f.registry

unfoldable pub get : LicenseFiles → String → Option LicensePayload
unfolding is_revoked
get f id = if is_revoked f id then none else lookup id f.registry

abbrev pub put : LicenseFiles → LicensePayload → LicenseFiles
put f p = record f { registry = insert p.id p f.registry }

-- `typeof` of each member, and the two extra tests on `v` and `id`.
unfoldable pub shape : Parsed → Option LicensePayload
shape not_object = none
shape (object o) = elim o.v [
  | number v ↦ elim o.id [
    | string id ↦ elim o.name [
      | string name ↦ elim o.exp [
        | number exp ↦ elim o.iat [
          | number iat ↦ elim o.plan [
            | string plan ↦
                if v == 1 && not (str_eq id "")
                then some
                    (record { v = v; id = id; name = name; exp = exp; iat = iat; plan = plan })
                else none
            | _ ↦ none
          ]
          | _ ↦ none
        ]
        | _ ↦ none
      ]
      | _ ↦ none
    ]
    | _ ↦ none
  ]
  | _ ↦ none
]

-- The reserved id, if it is a fresh UUID; without one the random id.
unfoldable pub chosen_id : LicenseFiles → Option String → String → Result String
unfolding is_uuid is_known
chosen_id f none random_id = ok random_id
chosen_id f (some id) random_id = do
  throw_if (not (is_uuid id)) bad_reserved_id
  throw_if (is_known f id) reserved_id_taken
  ok id

module _ (c : Codec) where
  abbrev pub token_of : LicensePayload → Text
  token_of p =
      let bytes = c.stringify p in
      token_prefix ++ dot ∷ (c.to_base64url bytes ++ dot ∷ c.to_base64url (c.sign bytes))

  -- The genuine payload of a token, or why it has none. Reading the public key throws where there
  -- is no key, and is then caught as a bad signature.
  unfoldable pub decode : LicenseFiles → Text → VerifyResult
  unfolding shape
  decode f token = elim (split dot token) [
    | prefix ∷ body ∷ sig ∷ [] ↦
        let bytes = c.from_base64url body in
        if not (same_text prefix token_prefix)
        then invalid format
        else (if not (f.has_key && c.verify_signature bytes (c.from_base64url sig))
            then invalid signature
            else elim (c.parse bytes) [
              | none ↦ invalid payload
              | some parsed ↦ elim (shape parsed) [ none ↦ invalid payload | some p ↦ valid p ]
            ])
    | _ ↦ invalid format
  ]

  unfoldable pub verify : LicenseFiles → Text → ℕ → VerifyResult
  unfolding decode is_revoked
  verify f token now = elim (decode f token) [
    | invalid why ↦ invalid why
    | valid p ↦
        if leb p.exp now
        then invalid expired
        else (if is_revoked f p.id then invalid revoked else valid p)
  ]

  unfoldable pub decode_genuine : LicenseFiles → Text → Option LicensePayload
  unfolding decode
  decode_genuine f token = elim (decode f token) [ invalid why ↦ none | valid p ↦ some p ]

  unfoldable pub token_for : LicenseFiles → String → Option Text
  token_for f id = elim (lookup id f.registry) [
    | none ↦ none
    | some p ↦ if is_revoked f id then none else some (token_of p)
  ]

  abbrev pub mint :
      LicenseFiles
      → String
      → ℕ
      → String
      → ℕ
      → String
      → Result (LicensePayload × Text × LicenseFiles)
  mint f name exp plan now id =
      let p : LicensePayload = record {
        v = 1;
        id = id;
        name = name;
        exp = exp;
        iat = now;
        plan = plan;
      } in
      ok (p, token_of p, put f p)

  -- `random_id` is the id that `randomUUID` gives.
  unfoldable pub issue_until :
      LicenseFiles
      → String
      → ℕ
      → String
      → ℕ
      → Option String
      → String
      → Result (LicensePayload × Text × LicenseFiles)
  unfolding trim utf16_length is_plan chosen_id
  issue_until f name exp plan now reserved_id random_id = do
    let trimmed = trim name
    throw_if (str_eq trimmed "" || ltb 120 (utf16_length trimmed)) bad_name
    throw_if (not (is_plan plan)) bad_plan
    throw_if (not f.has_key) no_key
    throw_if (leb exp now) expiry_not_after
    throw_if (ltb (now + max_term_ms) exp) expiry_too_late
    id ← chosen_id f reserved_id random_id
    mint f trimmed exp plan now id

  unfoldable pub issue :
      LicenseFiles → String → ℕ → ℕ → String → Result (LicensePayload × Text × LicenseFiles)
  unfolding issue_until
  issue f name days now random_id = do
    throw_if (ltb days 1 || ltb 3650 days) bad_days
    issue_until f name (now + days * day_ms) "beta" now none random_id

-- The bounds of an expiry edit, measured from the issue.
abbrev pub expiry_error : LicensePayload → ℕ → Option LicenseError
expiry_error p exp =
    if leb exp p.iat
    then some expiry_not_after
    else (if ltb (p.iat + max_term_ms) exp then some expiry_too_late else none)

-- `none` for an unknown or revoked id.
unfoldable pub set_expiry :
    LicenseFiles → String → ℕ → Result (Option LicensePayload × LicenseFiles)
unfolding get
set_expiry f id exp = elim (get f id) [
  | none ↦ ok (none, f)
  | some p ↦ elim (expiry_error p exp) [
    | some e ↦ err e
    | none ↦ ok (
      some (record p { exp = exp }),
      record f { registry = insert id (record p { exp = exp }) f.registry },
    )
  ]
]

abbrev pub max_safe_integer : ℕ
max_safe_integer = 9007199254740991

unfoldable pub renew_lifetime_token :
    LicenseFiles → String → ℕ → Result (Option LicensePayload × LicenseFiles)
unfolding get
renew_lifetime_token f id now = do
  throw_if (leb now 0 || ltb max_safe_integer now) bad_date
  elim (get f id) [
    | none ↦ ok (none, f)
    | some p ↦
        let renewed = record p { exp = now + max_term_ms; iat = now } in
        if leb (now + max_term_ms) p.exp
        then ok (some p, f)
        else ok (some renewed, record f { registry = insert id renewed f.registry })
  ]

-- `revoked[id] ??= now`: a second revocation keeps the first timestamp.
unfoldable pub revoke : LicenseFiles → String → String → Bool × LicenseFiles
unfolding is_known is_revoked
revoke f id iso_now =
    if is_known f id
    then (
      true,
      if is_revoked f id then f else record f { revocations = insert id iso_now f.revocations },
    )
    else (false, f)

abbrev pub record_of : LicenseFiles → LicensePayload → LicenseRecord
record_of f p = record { payload = p; revoked_at = lookup p.id f.revocations }

-- `sort((a, b) => b.iat - a.iat)` is stable: newest first, ties in registry order.
unfoldable pub insert_sorted : LicenseRecord → List LicenseRecord → List LicenseRecord
insert_sorted r [] = r ∷ []
insert_sorted r (x ∷ xs) = if leb x.iat r.iat then r ∷ x ∷ xs else x ∷ insert_sorted r xs

unfoldable pub records : LicenseFiles → Dict LicensePayload → List LicenseRecord
unfolding insert_sorted
records f [] = []
records f ((k, p) ∷ d) = insert_sorted (record_of f p) (records f d)

unfoldable pub list : LicenseFiles → List LicenseRecord
unfolding records
list f = records f f.registry

pub record ExtendReport : Type 0 where
  pub files : LicenseFiles
  pub extended : List LicensePayload
  pub unchanged : ℕ
  pub refused : List (String × LicenseError)

abbrev pub is_some {ℓ} : {A : Type ℓ} → Option A → Bool
is_some none = false
is_some (some a) = true

-- One turn of the loop: the call of `setExpiry` and its `catch`.
unfoldable pub extend_one : ℕ → ExtendReport → LicenseRecord → ExtendReport
unfolding set_expiry
extend_one exp s rec =
    if is_some rec.revoked_at
    then s
    else (if leb exp rec.exp
        then record s { unchanged = s.unchanged + 1 }
        else elim (set_expiry s.files rec.id exp) [
          | err e ↦ record s { refused = s.refused ++ (rec.id, e) ∷ [] }
          | ok (none, f) ↦ record s { files = f }
          | ok (some p, f) ↦ record s { files = f; extended = s.extended ++ p ∷ [] }
        ])

unfoldable pub extend_each : ℕ → ExtendReport → List LicenseRecord → ExtendReport
extend_each exp s [] = s
extend_each exp s (rec ∷ recs) = extend_each exp (extend_one exp s rec) recs

unfoldable pub extend_all : LicenseFiles → ℕ → ExtendReport
unfolding extend_each list
extend_all f exp =
    extend_each exp (record { files = f; extended = []; unchanged = 0; refused = [] }) (list f)
