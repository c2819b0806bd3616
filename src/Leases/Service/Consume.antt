-- ===== src/Leases/Service/Consume.antt =====
-- `consume` of `LicenseLeaseService` (license-leases.ts): the proof of possession and the one use of a
-- challenge.
use wickhunter_hub.Prelude.{
  ℕ, ◌+◌, ◌-◌, min, String, not, ◌&&◌, Option, none, some, List, lookup, leb, str_eq, if◌then◌else◌,
}
use wickhunter_hub.License.Types.{Text, LicensePayload, LicenseFiles}
use wickhunter_hub.Leases.Types.{
  LeasePurpose, to_deactivate, to_rebind, ChallengeFacts, LeaseOperationResult, ReplayState,
  LicenseLeaseConfig, Env, nonce_malformed, proof_malformed, challenge_not_found, proof_refused,
  new_proof_refused, stale_challenge, challenge_expired, Result, ok, err, ◌>>=◌, ◌>>◌, throw_if,
}
use wickhunter_hub.Leases.Checks.{exact_b64u, signature_bytes, public_key_object}
use wickhunter_hub.Leases.Replay.{same_number}
use wickhunter_hub.Leases.Service.State.{server_now, purpose_eq, activation_for}
use wickhunter_hub.Leases.Service.Challenge.{authenticate}

-- What `consume` has established.
pub record Consumed : Type 0 where
  pub license : LicensePayload
  pub facts : ChallengeFacts
  pub now : ℕ
  pub nonce_hash : String
  pub replay : Option LeaseOperationResult

-- A challenge for a machine binding holds for the revision that it names.
unfoldable pub binding_current : ReplayState → String → ChallengeFacts → Result (Unit {0})
unfolding activation_for
binding_current s license_id facts = elim facts.activation_id [
  | none ↦ ok tt
  | some id ↦ activation_for s license_id (some id) >>= λ a.
      throw_if
        (not (
          same_number facts.activation_revision (some a.revision)
          && str_eq a.install_id facts.install_id
          && str_eq a.install_public_key facts.install_public_key))
        stale_challenge
]

-- The end of `consume`: a used nonce is answered again; a first use must be current and in time.
unfoldable pub settle : ReplayState → Consumed → Result Consumed
unfolding binding_current
settle s c = elim c.replay [
  | some earlier ↦ ok c
  | none ↦ do
    binding_current s c.license.id c.facts
    throw_if (leb c.facts.expires_at_ms c.now) challenge_expired
    ok c
]

module _ (env : Env) (config : LicenseLeaseConfig) where
  abbrev pub prove_replacement : LeasePurpose → ChallengeFacts → List ℕ → Text → Result (Unit {0})
  prove_replacement to_rebind facts bytes new_signature = elim facts.new_install_public_key [
    | none ↦ err new_proof_refused
    | some key ↦ do
      throw_if (not (exact_b64u env new_signature signature_bytes)) new_proof_refused
      public_key_object env key
      throw_if (not (env.ed_verify key bytes (env.from_base64url new_signature))) new_proof_refused
  ]
  prove_replacement _ facts bytes new_signature = ok tt

  -- Possession of the install's key, and of the replacement's for a rebind.
  unfoldable pub prove : LeasePurpose → ChallengeFacts → Text → Text → Text → Result (Unit {0})
  unfolding exact_b64u public_key_object
  prove purpose facts nonce signature new_signature = do
    let bytes = env.stringify_proof facts nonce
    public_key_object env facts.install_public_key
    throw_if (not (env.ed_verify facts.install_public_key bytes (env.from_base64url signature)))
        proof_refused
    prove_replacement purpose facts bytes new_signature

  unfoldable pub consume :
      LicenseFiles → ReplayState → ℕ → Text → LeasePurpose → Text → Text → Text → Result Consumed
  unfolding exact_b64u server_now authenticate prove settle
  consume files s raw token purpose nonce signature new_signature = do
    throw_if (not (exact_b64u env nonce 32)) nonce_malformed
    throw_if (not (exact_b64u env signature signature_bytes)) proof_malformed
    let lapsed = purpose_eq purpose to_deactivate
    let at = server_now s raw
    license ← authenticate env config files token lapsed at
    let nonce_hash = env.sha256 nonce
    facts ← elim (lookup nonce_hash s.challenges) [ none ↦ err challenge_not_found | some c ↦ ok c ]
    throw_if (not (str_eq facts.license_id license.id && purpose_eq facts.purpose purpose))
        challenge_not_found
    let now =
        if lapsed then min at (facts.issued_at_ms + min 1000 (config.challenge_ttl_ms - 1)) else at
    prove purpose facts nonce signature new_signature
    settle s (record {
      license = license;
      facts = facts;
      now = now;
      nonce_hash = nonce_hash;
      replay = lookup nonce_hash s.consumed;
    })
