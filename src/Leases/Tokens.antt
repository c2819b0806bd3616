-- ===== src/Leases/Tokens.antt =====
-- Lease tokens (license-leases.ts): `signLease`, `verifyLicenseLease` and `evaluateLicenseLease`.
-- A keyring is the dictionary of its public keys; `strictPublicKeyring` has accepted it.
use wickhunter_hub.Prelude.{
  ℕ, String, not, ◌&&◌, ◌||◌, none, some, List, [], ◌∷◌, ◌++◌, Dict, lookup, leb, ltb, str_eq,
  if◌then◌else◌,
}
use wickhunter_hub.License.Types.{Text}
use wickhunter_hub.License.Text.{split, same_text, codes}
use wickhunter_hub.Leases.Types.{
  LicenseLeasePayload, SignedLicenseLease, ParsedLease, shaped, unshaped, Env,
}
use wickhunter_hub.Leases.Checks.{
  exact_b64u, valid_lease_payload, raw_public_key_bytes, signature_bytes, max_safe_integer,
}

pub data RefusalReason : Type 0 where
  format unknown_key signature payload machine sequence : RefusalReason

pub data LeaseVerifyResult : Type 0 where
  genuine : LicenseLeasePayload → LeaseVerifyResult
  rejected : RefusalReason → LeaseVerifyResult

pub data ExitReason : Type 0 where
  expired clock : ExitReason

pub data LeasePolicyResult : Type 0 where
  active cached_grace : LicenseLeasePayload → LeasePolicyResult
  exit_only : LicenseLeasePayload → ExitReason → LeasePolicyResult
  refused : RefusalReason → LeasePolicyResult

-- "WHL1"
abbrev pub lease_token_prefix : Text
lease_token_prefix = b'W' ∷ b'H' ∷ b'L' ∷ b'1' ∷ []

-- "WICKHUNTER\0LICENSE_LEASE\0V1\0"
unfoldable pub lease_signature_domain : List ℕ
unfolding codes
lease_signature_domain = codes "WICKHUNTER" ++ 0 ∷ codes "LICENSE_LEASE" ++ 0 ∷ codes "V1" ++ 0 ∷ []

module _ (env : Env) where
  unfoldable pub lease_signing_bytes : List ℕ → List ℕ
  lease_signing_bytes bytes = lease_signature_domain ++ bytes

  unfoldable pub sign_lease : LicenseLeasePayload → SignedLicenseLease
  unfolding lease_signing_bytes
  sign_lease p =
      let bytes = env.stringify_payload p in
      let sig = env.to_base64url (env.ed_sign (lease_signing_bytes bytes)) in
      record {
        token = lease_token_prefix ++ b'.' ∷ (env.to_base64url bytes ++ b'.' ∷ sig);
        payload = p;
      }

  -- Where the payload has parsed: its shape, its key and its signature.
  unfoldable pub verify_parsed : Dict String → List ℕ → Text → ParsedLease → LeaseVerifyResult
  verify_parsed keys bytes sig unshaped = rejected payload
  verify_parsed keys bytes sig (shaped p) =
      if not (valid_lease_payload env p) then rejected payload else (elim (lookup p.kid keys) [
        | none ↦ rejected unknown_key
        | some key ↦
            if exact_b64u env (codes key) raw_public_key_bytes
              && env.ed_verify key (lease_signing_bytes bytes) (env.from_base64url sig)
            then genuine p
            else rejected signature
      ])

  unfoldable pub verify_license_lease : Dict String → Text → LeaseVerifyResult
  unfolding verify_parsed
  verify_license_lease keys token = elim (split b'.' token) [
    | prefix ∷ body ∷ sig ∷ [] ↦
        let bytes = env.from_base64url body in
        if not (same_text prefix lease_token_prefix)
        then rejected format
        else (if not (same_text (env.to_base64url bytes) body && exact_b64u env sig signature_bytes)
            then rejected format
            else (elim (env.parse_payload bytes) [
              | none ↦ rejected payload
              | some parsed ↦ verify_parsed keys bytes sig parsed
            ]))
    | _ ↦ rejected format
  ]

  unfoldable pub evaluate_license_lease : Dict String → Text → ℕ → String → ℕ → LeasePolicyResult
  unfolding verify_license_lease
  evaluate_license_lease keys token now_ms install_public_key minimum_sequence =
      elim (verify_license_lease keys token) [
        | rejected reason ↦ refused reason
        | genuine p ↦
            if not (str_eq p.install_public_key install_public_key)
            then refused machine
            else (if ltb max_safe_integer minimum_sequence || ltb p.sequence minimum_sequence
                then refused sequence
                else (if ltb max_safe_integer now_ms || ltb now_ms p.not_before_ms
                    then exit_only p clock
                    else (if ltb now_ms p.expires_at_ms
                        then active p
                        else (if leb now_ms p.policy.cached_grace_until_ms
                            then cached_grace p
                            else exit_only p expired))))
      ]
