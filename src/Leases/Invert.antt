-- ===== src/Leases/Invert.antt =====
-- What an operation that succeeded has checked (license-leases.ts): `consume` and `activationFor`.
use wickhunter_hub.Prelude.{
  ℕ, ◌+◌, ◌-◌, ◌<◌, ◌≡◌, refl, sym, ap, ◌∙◌, subst, String, true, not, ◌&&◌, Option, none, some,
  lookup, leb, str_eq, if◌then◌else◌, arith, Option-cases, inl, inr, min,
}
use wickhunter_hub.License.Types.{Text, LicenseFiles}
use wickhunter_hub.Leases.Types.{
  LeaseActivation, ChallengeFacts, LeasePurpose, to_deactivate, LeaseOperationResult, ReplayState,
  LicenseLeaseConfig, Env, Result, ok, err, throw_if, ◌>>◌, nonce_malformed, proof_malformed,
  challenge_not_found, challenge_expired,
}
use wickhunter_hub.Leases.Checks.{exact_b64u, signature_bytes}
use wickhunter_hub.Leases.Replay.{is_active, open_challenge}
use wickhunter_hub.Leases.Service.{
  settle, Consumed, server_now, authenticate, prove, binding_current, consume, activation_for,
  purpose_eq,
}
use wickhunter_hub.Leases.Chain.{throw_if-ok, bind-ok, ok-injective}

-- A first use of a challenge.
pub record Fresh (s : ReplayState) (purpose : LeasePurpose) (c : Consumed) : Type 0 where
  pub found : lookup c.nonce_hash s.challenges ≡ some c.facts
  pub unused : lookup c.nonce_hash s.consumed ≡ none
  pub for_license : str_eq c.facts.license_id c.license.id ≡ true
  pub for_purpose : purpose_eq c.facts.purpose purpose ≡ true
  pub bound : binding_current s c.license.id c.facts ≡ ok tt
  pub in_time : c.now < c.facts.expires_at_ms

pub Fresh-open :
    (s : ReplayState) (purpose : LeasePurpose) (c : Consumed)
    → Fresh s purpose c
    → open_challenge s c.nonce_hash ≡ some c.facts
Fresh-open s purpose c f = ground (arith, f.unused, f.found)

pub activation_for-ok :
    (s : ReplayState) (license_id : String) (id : Option String) (a : LeaseActivation)
    → activation_for s license_id id ≡ ok a
    → (k : String) × (id ≡ some k)
      × (lookup k s.activations ≡ some a)
      × (str_eq a.license_id license_id ≡ true)
      × (is_active a ≡ true)
unfolding activation_for
activation_for-ok s license_id none a e = cc
activation_for-ok s license_id (some k) a e = elim (Option-cases (lookup k s.activations)) [
  | inl n ↦ absurd (ground (arith, n, e))
  | inr (b, found) ↦
      let same : b ≡ a = ground (arith, found, e) in
      (k, refl, found ∙ ap some same, ground (arith, found, e), ground (arith, found, e))
]

settle-Fresh :
    (s : ReplayState) (purpose : LeasePurpose) (c d : Consumed)
    → lookup d.nonce_hash s.challenges ≡ some d.facts
    → str_eq d.facts.license_id d.license.id ≡ true
    → purpose_eq d.facts.purpose purpose ≡ true
    → d.replay ≡ lookup d.nonce_hash s.consumed
    → c.replay ≡ none
    → settle s d ≡ ok c
    → Fresh s purpose c
unfolding settle
settle-Fresh s purpose c d found license fits held first e = elim (Option-cases d.replay) [
  | inr (earlier, again) ↦
      let same : d ≡ c = ok-injective (sym (again_settles d earlier again) ∙ e) in
      absurd (ground (arith, again, first, ap (λ (x : Consumed). x.replay) same))
  | inl none_yet ↦
      let (_, bound, e₁) =
        bind-ok (binding_current s d.license.id d.facts) _ (sym (first_settles d none_yet) ∙ e) in
      let (late, e₂) = throw_if-ok (leb d.facts.expires_at_ms d.now) challenge_expired _ e₁ in
      subst (Fresh s purpose) (ok-injective e₂) (record {
        found = found;
        unused = sym held ∙ none_yet;
        for_license = license;
        for_purpose = fits;
        bound = bound;
        in_time = ground (arith, late);
      })
]
  where
    again_settles :
        (d : Consumed) (earlier : LeaseOperationResult)
        → d.replay ≡ some earlier
        → settle s d ≡ ok d
    again_settles d earlier h = ground (arith, h)

    first_settles :
        (d : Consumed)
        → d.replay ≡ none
        → settle s d ≡ (
            binding_current s d.license.id d.facts
            >> (throw_if (leb d.facts.expires_at_ms d.now) challenge_expired >> ok d))
    first_settles d h = ground (arith, h)

module _ (env : Env) (config : LicenseLeaseConfig) where
  pub consume-Fresh :
      (files : LicenseFiles) (s : ReplayState) (raw : ℕ) (token : Text) (purpose : LeasePurpose)
      (nonce signature new_signature : Text) (c : Consumed)
      → consume env config files s raw token purpose nonce signature new_signature ≡ ok c
      → c.replay ≡ none
      → Fresh s purpose c
  unfolding consume
  consume-Fresh files s raw token purpose nonce signature new_signature c e first =
      let (_, e₁) = throw_if-ok (not (exact_b64u env nonce 32)) nonce_malformed _ e in
      let (_, e₂) =
        throw_if-ok (not (exact_b64u env signature signature_bytes)) proof_malformed _ e₁ in
      let lapsed = purpose_eq purpose to_deactivate in
      let at = server_now s raw in
      let (license, _, e₃) = bind-ok (authenticate env config files token lapsed at) _ e₂ in
      let hash = env.sha256 nonce in
      let (facts, look, e₄) =
        bind-ok (elim (lookup hash s.challenges) [ none ↦ err challenge_not_found | some c ↦ ok c ])
          _ e₃ in
      let (fits, e₅) =
        throw_if-ok (not (str_eq facts.license_id license.id && purpose_eq facts.purpose purpose))
          challenge_not_found _ e₄ in
      let now =
        if lapsed
        then min at (facts.issued_at_ms + min 1000 (config.challenge_ttl_ms - 1))
        else at in
      let (_, _, e₆) =
        bind-ok (prove env config purpose facts nonce signature new_signature) _ e₅ in
      settle-Fresh s purpose c
        (record {
          license = license;
          facts = facts;
          now = now;
          nonce_hash = hash;
          replay = lookup hash s.consumed;
        })
        (found-eq hash facts look) (ground (arith, fits)) (ground (arith, fits)) refl first e₆
    where
      found-eq :
          (hash : String) (facts : ChallengeFacts)
          → ◌≡◌ {A = Result ChallengeFacts}
              (elim (lookup hash s.challenges) [ none ↦ err challenge_not_found | some c ↦ ok c ])
              (ok facts)
          → lookup hash s.challenges ≡ some facts
      found-eq hash facts look = elim (Option-cases (lookup hash s.challenges)) [
        | inl n ↦ absurd (ground (arith, n, look))
        | inr (d, here) ↦ here ∙ ap some (ground (arith, here, look))
      ]
