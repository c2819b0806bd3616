-- ===== src/Leases/Laws.antt =====
-- What license-leases.ts relies on in the code outside of it.
use wickhunter_hub.Prelude.{ℕ, ◌≤◌, ◌≡◌, ◌≢◌, String, true, some, List, Dict, lookup, length, All}
use wickhunter_hub.License.Types.{dot}
use wickhunter_hub.License.Text.{codes}
use wickhunter_hub.Leases.Types.{LicenseLeasePayload, LicenseLeaseConfig, Env, shaped}
use wickhunter_hub.Leases.Checks.{exact_b64u, raw_public_key_bytes, signature_bytes}

-- base64url decodes what it encoded, has no dot and is canonical; a signature has 64 bytes and verifies
-- under the public key that the keyring holds for the active key; a payload parses back.
pub record IsEnv (env : Env) (config : LicenseLeaseConfig) (keys : Dict String) : Type 0 where
  pub from-to : (bytes : List ℕ) → env.from_base64url (env.to_base64url bytes) ≡ bytes
  pub no_dot : (bytes : List ℕ) → All (λ x. x ≢ dot) (env.to_base64url bytes)
  pub exact :
      (bytes : List ℕ)
      → 1 ≤ length bytes
      → exact_b64u env (env.to_base64url bytes) (length bytes) ≡ true
  pub ed_sign-length : (bytes : List ℕ) → length (env.ed_sign bytes) ≡ signature_bytes
  pub parse-stringify :
      (p : LicenseLeasePayload) → env.parse_payload (env.stringify_payload p) ≡ some (shaped p)
  pub public_key : String
  pub active_key : lookup config.active_key_id keys ≡ some public_key
  pub key_exact : exact_b64u env (codes public_key) raw_public_key_bytes ≡ true
  pub verify-sign : (bytes : List ℕ) → env.ed_verify public_key bytes (env.ed_sign bytes) ≡ true
