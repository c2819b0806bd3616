-- ===== src/Leases/Verify.antt =====
-- A lease that the Hub signed verifies (license-leases.ts), and what it allows over time.
use wickhunter_hub.Prelude.{
  ℕ, ◌≡◌, refl, ap, ◌∙◌, subst, String, true, some, List, [], ◌∷◌, ◌++◌, Dict, lookup, arith,
}
use wickhunter_hub.License.Types.{dot}
use wickhunter_hub.License.Text.{split, same_text_refl, split-append, split-last}
use wickhunter_hub.Leases.Types.{LicenseLeasePayload, LicenseLeaseConfig, Env}
use wickhunter_hub.Leases.Checks.{exact_b64u, valid_lease_payload, signature_bytes}
use wickhunter_hub.Leases.Tokens.{
  genuine, sign_lease, lease_signing_bytes, lease_token_prefix, verify_parsed, verify_license_lease,
}
use wickhunter_hub.Leases.Laws.{IsEnv}

module _ (env : Env) (config : LicenseLeaseConfig) (keys : Dict String)
    (laws : IsEnv env config keys) where
  pub sig_exact :
      (bytes : List ℕ)
      → exact_b64u env (env.to_base64url (env.ed_sign bytes)) signature_bytes ≡ true
  sig_exact bytes =
      subst (λ n. exact_b64u env (env.to_base64url (env.ed_sign bytes)) n ≡ true)
        (laws.ed_sign-length bytes)
        (laws.exact (env.ed_sign bytes) (omega (arith, laws.ed_sign-length bytes)))

  split-lease :
      (p : LicenseLeasePayload)
      → split dot (sign_lease env p).token
        ≡ lease_token_prefix
          ∷ env.to_base64url (env.stringify_payload p)
          ∷ env.to_base64url (env.ed_sign (lease_signing_bytes env (env.stringify_payload p)))
          ∷ []
  unfolding sign_lease
  split-lease p =
      let bytes = env.stringify_payload p in
      let body = env.to_base64url bytes in
      let signed = env.ed_sign (lease_signing_bytes env bytes) in
      let sig = env.to_base64url signed in
      split-append dot lease_token_prefix (body ++ dot ∷ sig) (omega arith)
      ∙ ap (◌∷◌ lease_token_prefix) (
          split-append dot body sig (laws.no_dot bytes)
          ∙ ap (◌∷◌ body) (split-last dot sig (laws.no_dot signed)))

  -- A lease signed by the Hub verifies with exactly the payload that was signed, given that the payload
  -- is valid and names the active key.
  pub verify-sign_lease :
      (p : LicenseLeasePayload)
      → valid_lease_payload env p ≡ true
      → p.kid ≡ config.active_key_id
      → verify_license_lease env keys (sign_lease env p).token ≡ genuine p
  unfolding verify_license_lease verify_parsed
  verify-sign_lease p is_valid kid =
      let bytes = env.stringify_payload p in
      let message = lease_signing_bytes env bytes in
      let key : lookup p.kid keys ≡ some laws.public_key =
        ap (λ k. lookup k keys) kid ∙ laws.active_key in
      rw (split-lease p, verify_license_lease)
        (rw
          (
            same_text_refl lease_token_prefix,
            laws.from-to bytes,
            same_text_refl (env.to_base64url bytes),
            sig_exact message,
            laws.parse-stringify p,
            is_valid,
            key,
            laws.key_exact,
            laws.from-to (env.ed_sign message),
          )
          (rw (laws.from-to bytes, laws.verify-sign message) refl))
