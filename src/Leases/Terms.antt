-- ===== src/Leases/Terms.antt =====
-- The terms of an issued lease (license-leases.ts).
use wickhunter_hub.Prelude.{
  ℕ, ◌+◌, ◌-◌, ◌≤◌, ◌<◌, ◌≡◌, refl, sym, ap, ◌∙◌, subst, true, false, not, ◌&&◌, ◌||◌, none, some,
  lookup, leb, str_eq, if◌then◌else◌, arith, Option-cases, Bool-cases, inl, inr, min,
}
use wickhunter_hub.License.Types.{
  Text, LicenseFiles, LicensePayload, VerifyResult, valid, invalid, expired, revoked,
}
use wickhunter_hub.License.Store.{verify, decode, is_revoked, list}
use wickhunter_hub.Leases.Types.{
  LeaseActivation, LeasePurpose, to_deactivate, ReplayState, LicenseLeaseConfig, Env, Result, ok,
  err, ◌>>◌, throw_if, nonce_malformed, proof_malformed, challenge_not_found, challenge_expired,
  license_inactive, license_not_issued,
}
use wickhunter_hub.Leases.Checks.{
  exact_b64u, signature_bytes, valid_times, max_safe_integer, is_none,
}
use wickhunter_hub.Leases.Service.{
  Consumed, settle, server_now, authenticate, prove, binding_current, consume, purpose_eq,
  lease_payload, find_first,
}
use wickhunter_hub.Leases.Chain.{throw_if-ok, bind-ok, ok-injective}

settle-same : (s : ReplayState) (d c : Consumed) → settle s d ≡ ok c → d ≡ c
unfolding settle
settle-same s d c e = elim (Option-cases d.replay) [
  | inr (earlier, again) ↦ let this : ok d ≡ ok c = ground (arith, again, e) in ok-injective this
  | inl first ↦
      let this : (binding_current s d.license.id d.facts
            >> (throw_if (leb d.facts.expires_at_ms d.now) challenge_expired >> ok d))
          ≡ ok c =
        ground (arith, first, e) in
      let (_, _, e₁) = bind-ok (binding_current s d.license.id d.facts) _ this in
      ok-injective (throw_if-ok (leb d.facts.expires_at_ms d.now) challenge_expired (ok d) e₁).1
]

module _ (env : Env) (config : LicenseLeaseConfig) where
  verified-unlapsed :
      (files : LicenseFiles) (r : VerifyResult) (at : ℕ) (p : LicensePayload)
      → ◌≡◌ {A = VerifyResult}
          (elim r [
            | invalid why ↦ invalid why
            | valid q ↦
                if leb q.exp at
                then invalid expired
                else (if is_revoked files q.id then invalid revoked else valid q)
          ])
          (valid p)
      → leb p.exp at ≡ false
  verified-unlapsed files (invalid why) at p e = cc
  verified-unlapsed files (valid q) at p e = elim (Bool-cases (leb q.exp at)) [
    | inl late ↦ absurd (ground (arith, late, e))
    | inr live ↦ elim (Bool-cases (is_revoked files q.id)) [
      | inl gone ↦ absurd (ground (arith, live, gone, e))
      | inr kept ↦
          let same : valid q ≡ valid p = ground (arith, live, kept, e) in
          let q_p : q ≡ p = cc in subst (λ (x : LicensePayload). leb x.exp at ≡ false) q_p live
    ]
  ]

  standing-unlapsed :
      (files : LicenseFiles) (r : VerifyResult) (at : ℕ) (license : LicensePayload)
      → ((p : LicensePayload) → r ≡ valid p → leb p.exp at ≡ false)
      → ◌≡◌ {A = Result LicensePayload}
          (elim r [
            | invalid why ↦ err license_inactive
            | valid p ↦ elim (find_first (λ r. str_eq r.id p.id) (list files)) [
              | none ↦ err license_not_issued
              | some row ↦
                  if not (is_none row.revoked_at) || is_revoked files p.id || leb row.exp at
                  then err license_not_issued
                  else ok (record p { exp = min p.exp row.exp })
            ]
          ])
          (ok license)
      → at < license.exp
  standing-unlapsed files (invalid why) at license h e = cc
  standing-unlapsed files (valid p) at license h e =
      elim (Option-cases (find_first (λ r. str_eq r.id p.id) (list files))) [
        | inl n ↦ absurd (ground (arith, n, e))
        | inr (row, found) ↦
            elim (Bool-cases
              (not (is_none row.revoked_at) || is_revoked files p.id || leb row.exp at)) [
                | inl out ↦ absurd (ground (arith, found, out, e))
                | inr stands ↦
                    let same : ok (record p { exp = min p.exp row.exp }) ≡ ok license =
                      ground (arith, found, stands, e) in
                    subst (λ (x : LicensePayload). at < x.exp) (ok-injective same)
                      (ground (arith, stands, h p refl))
              ]
      ]

  -- The licence of a token that authenticates has not expired, whichever of the token and the registry
  -- ends first.
  authenticate_unlapsed :
      (files : LicenseFiles) (token : Text) (at : ℕ) (license : LicensePayload)
      → authenticate env config files token false at ≡ ok license
      → at < license.exp
  unfolding authenticate verify
  authenticate_unlapsed files token at license e =
      standing-unlapsed files (verify env.codec files token at) at license
        (λ p h. verified-unlapsed files (decode env.codec files token) at p h) e

  -- A lease for a licence that has not expired is well formed: it starts now, ends with the licence at
  -- the latest, and so does its grace.
  lease_payload-times :
      (license : LicensePayload) (a : LeaseActivation) (now : ℕ)
      → now < license.exp
      → license.exp ≤ max_safe_integer
      → 1 ≤ a.last_sequence
      → a.last_sequence ≤ max_safe_integer
      → 1 ≤ config.lease_duration_ms
      → config.max_clock_skew_ms ≤ max_safe_integer
      → valid_times env (lease_payload env config license a now) ≡ true
  unfolding valid_times lease_payload
  lease_payload-times license a now h₁ h₂ h₃ h₄ h₅ h₆ = ground (arith, h₁, h₂, h₃, h₄, h₅, h₆)

  -- What an operation other than a deactivation has consumed is for a licence that has not expired, so
  -- the lease that it issues on it is well formed: it starts now and neither it nor its grace outlasts the
  -- licence.
  pub issued-times :
      (files : LicenseFiles) (s : ReplayState) (raw : ℕ) (token : Text) (purpose : LeasePurpose)
      (nonce signature new_signature : Text) (c : Consumed) (a : LeaseActivation)
      → consume env config files s raw token purpose nonce signature new_signature ≡ ok c
      → purpose_eq purpose to_deactivate ≡ false
      → c.license.exp ≤ max_safe_integer
      → 1 ≤ a.last_sequence
      → a.last_sequence ≤ max_safe_integer
      → 1 ≤ config.lease_duration_ms
      → config.max_clock_skew_ms ≤ max_safe_integer
      → (c.now < c.license.exp)
        × (valid_times env (lease_payload env config c.license a c.now) ≡ true)
  unfolding consume
  issued-times files s raw token purpose nonce signature new_signature c a e lapsed safe first
        bounded long skew =
      let (_, e₁) = throw_if-ok (not (exact_b64u env nonce 32)) nonce_malformed _ e in
      let (_, e₂) =
        throw_if-ok (not (exact_b64u env signature signature_bytes)) proof_malformed _ e₁ in
      let at = server_now s raw in
      let (license, known, e₃) =
        bind-ok (authenticate env config files token (purpose_eq purpose to_deactivate) at) _ e₂ in
      let hash = env.sha256 nonce in
      let (facts, _, e₄) =
        bind-ok (elim (lookup hash s.challenges) [ none ↦ err challenge_not_found | some c ↦ ok c ])
          _ e₃ in
      let (_, e₅) =
        throw_if-ok (not (str_eq facts.license_id license.id && purpose_eq facts.purpose purpose))
          challenge_not_found _ e₄ in
      let (_, _, e₆) =
        bind-ok (prove env config purpose facts nonce signature new_signature) _ e₅ in
      let same =
        settle-same s
          (record {
            license = license;
            facts = facts;
            now =
                if purpose_eq purpose to_deactivate
                then min at (facts.issued_at_ms + min 1000 (config.challenge_ttl_ms - 1))
                else at;
            nonce_hash = hash;
            replay = lookup hash s.consumed;
          })
          c e₆ in
      let early =
        authenticate_unlapsed files token at license
          (ap (λ b. authenticate env config files token b at) (sym lapsed) ∙ known) in
      let live : c.now < c.license.exp =
        subst (λ (x : Consumed). x.now < x.license.exp) same (ground (arith, early, lapsed)) in
      (live, lease_payload-times c.license a c.now live safe first bounded long skew)
