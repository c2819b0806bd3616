-- ===== src/License/Types.antt =====
-- The data of src/license.ts.
use wickhunter_hub.Prelude.{ℕ, ◌*◌, ◌≡◌, ◌≢◌, String, Bool, true, Option, some, List, Dict, All}

abbrev pub day_ms : ℕ
day_ms = 86400000

abbrev pub max_term_ms : ℕ
max_term_ms = 3650 * day_ms

-- Tokens, as lists of character codes.
abbrev pub Text : Type 0
Text = List ℕ

pub record LicensePayload : Type 0 where
  pub v : ℕ
  pub id : String
  pub name : String
  pub exp : ℕ
  pub iat : ℕ
  pub plan : String

pub record LicenseRecord : Type 0 where
  pub payload : LicensePayload
  pub open payload use *
  pub revoked_at : Option String

pub data Reason : Type 0 where
  format signature payload expired revoked : Reason

pub data VerifyResult : Type 0 where
  valid : LicensePayload → VerifyResult
  invalid : Reason → VerifyResult

-- The signing key, `licenses.json` and `revoked.json`.
pub record LicenseFiles : Type 0 where
  pub has_key : Bool
  pub registry : Dict LicensePayload
  pub revocations : Dict String

pub data LicenseError : Type 0 where
  bad_days bad_name bad_plan no_key expiry_not_after expiry_too_late bad_reserved_id
        reserved_id_taken bad_date :
      LicenseError

pub data Result {ℓ} (A : Type ℓ) : Type ℓ where
  ok : A → Result A
  err : LicenseError → Result A

-- What `JSON.parse` gives for one member: a string, a number, or anything else.
pub data Member : Type 0 where
  string : String → Member
  number : ℕ → Member
  other : Member

pub record ParsedObject : Type 0 where
  pub v : Member
  pub id : Member
  pub name : Member
  pub exp : Member
  pub iat : Member
  pub plan : Member

pub data Parsed : Type 0 where
  object : ParsedObject → Parsed
  not_object : Parsed

abbrev pub parsed_of : LicensePayload → ParsedObject
parsed_of p = record {
  v = number p.v;
  id = string p.id;
  name = string p.name;
  exp = number p.exp;
  iat = number p.iat;
  plan = string p.plan;
}

-- Ed25519 with the Hub's key pair, `JSON.stringify` of a payload in the pinned key order,
-- `JSON.parse` (`none` where it throws), and base64url.
pub record Codec : Type 0 where
  pub sign : List ℕ → List ℕ
  pub verify_signature : List ℕ → List ℕ → Bool
  pub stringify : LicensePayload → List ℕ
  pub parse : List ℕ → Option Parsed
  pub to_base64url : List ℕ → Text
  pub from_base64url : Text → List ℕ

abbrev pub dot : ℕ
dot = b'.'

-- What is relied on: a signature verifies over the bytes that it was made for; a payload parses
-- back to its members; base64url decodes what it encoded, and has no dot in its alphabet.
pub record IsCodec (c : Codec) : Type 0 where
  pub verify-sign : (bytes : List ℕ) → c.verify_signature bytes (c.sign bytes) ≡ true
  pub parse-stringify : (p : LicensePayload) → c.parse (c.stringify p) ≡ some (object (parsed_of p))
  pub from-to : (bytes : List ℕ) → c.from_base64url (c.to_base64url bytes) ≡ bytes
  pub no_dot : (bytes : List ℕ) → All (λ x. x ≢ dot) (c.to_base64url bytes)
