-- ===== src/Leases/Service/Challenge.antt =====
-- `authenticate` and `challenge` of `LicenseLeaseService` (license-leases.ts).
use wickhunter_hub.Prelude.{
  ℕ, ◌+◌, ◌-◌, min, String, Bool, not, ◌&&◌, ◌||◌, Option, none, some, [], lookup, contains, leb,
  str_eq, if◌then◌else◌, or_else, length, filter, drop,
}
use wickhunter_hub.License.Types.{Text, LicensePayload, LicenseFiles, valid, invalid}
use wickhunter_hub.License.Store.{verify, decode_genuine, is_known, is_revoked, list}
use wickhunter_hub.Leases.Types.{
  LeasePurpose, to_deactivate, LeaseActivation, ChallengeFacts, challenge_issued, LeaseAuditEvent,
  ReplayState, LicenseLeaseConfig, Env, license_unknown, license_inactive, license_not_issued,
  install_mismatch, rebind_same, too_many_challenges, challenge_rate, nonce_source, nonce_repeated,
  Result, ok, err, ◌>>=◌, ◌>>◌, throw_if,
}
use wickhunter_hub.Leases.Checks.{
  exact_b64u, bounded_text, public_key_object, is_none, is_activate, is_rebind,
}
use wickhunter_hub.Leases.Service.State.{
  hour_ms, max_outstanding_challenges, max_challenges_per_license_per_hour, server_now, purpose_eq,
  lower_bound_challenge, find_first, activation_for,
}

pub record LeaseChallengeInput : Type 0 where
  pub purpose : LeasePurpose
  pub install_id : String
  pub install_public_key : String
  pub activation_id : Option String
  pub new_install_id : String
  pub new_install_public_key : String

module _ (env : Env) (config : LicenseLeaseConfig) where
  unfoldable pub authenticate : LicenseFiles → Text → Bool → ℕ → Result LicensePayload
  unfolding verify decode_genuine is_known is_revoked list
  authenticate files token allow_lapsed at =
      if allow_lapsed
      then (elim (decode_genuine env.codec files token) [
        | none ↦ err license_unknown
        | some p ↦ if is_known files p.id then ok p else err license_unknown
      ])
      else (elim (verify env.codec files token at) [
        | invalid why ↦ err license_inactive
        | valid p ↦ elim (find_first (λ r. str_eq r.id p.id) (list files)) [
          | none ↦ err license_not_issued
          | some row ↦
              if not (is_none row.revoked_at) || is_revoked files p.id || leb row.exp at
              then err license_not_issued
              else ok (record p { exp = min p.exp row.exp })
        ]
      ])

  -- The machine that a challenge other than an activation is for.
  unfoldable pub challenged_activation :
      ReplayState → String → LeaseChallengeInput → String → String → Result (Option LeaseActivation)
  unfolding activation_for
  challenged_activation s license_id input install_id key =
      if is_activate input.purpose
      then ok none
      else (activation_for s license_id input.activation_id >>= λ a.
          if str_eq a.install_id install_id && str_eq a.install_public_key key
          then ok (some a)
          else err install_mismatch)

  unfoldable pub challenged_replacement :
      LeaseChallengeInput → String → String → Result (Option (String × String))
  unfolding bounded_text public_key_object
  challenged_replacement input install_id key =
      if is_rebind input.purpose
      then (do
        new_id ← bounded_text input.new_install_id 128
        new_key ← bounded_text input.new_install_public_key 128
        public_key_object env new_key
        throw_if (str_eq new_id install_id && str_eq new_key key) rebind_same
        ok (some (new_id, new_key)))
      else ok none

  -- The two limits on the challenges of a licence.
  unfoldable pub challenge_limits : ReplayState → String → ℕ → Result (Unit {0})
  unfolding lower_bound_challenge
  challenge_limits s license_id now =
      let rows = or_else (lookup license_id s.challenges_by_license) [] in
      let unexpired_at = lower_bound_challenge rows now (λ c. c.expires_at_ms) in
      let outstanding =
        filter (λ c. not (contains c.nonce_hash s.consumed)) (drop unexpired_at rows) in
      let recent_at = lower_bound_challenge rows now (λ c. c.issued_at_ms + hour_ms) in
      (do
        throw_if (leb max_outstanding_challenges (length outstanding)) too_many_challenges
        throw_if (leb max_challenges_per_license_per_hour (length rows - recent_at)) challenge_rate)

  abbrev pub issued_facts :
      LeasePurpose
      → String
      → Option LeaseActivation
      → Option (String × String)
      → String
      → String
      → Text
      → ℕ
      → ChallengeFacts
  issued_facts purpose license_id bound new install_id key nonce now = record {
    nonce_hash = env.sha256 nonce;
    purpose = purpose;
    license_id = license_id;
    activation_id = elim bound [ none ↦ none | some a ↦ some a.id ];
    activation_revision = elim bound [ none ↦ none | some a ↦ some a.revision ];
    install_id = install_id;
    install_public_key = key;
    new_install_id = elim new [ none ↦ none | some r ↦ some r.0 ];
    new_install_public_key = elim new [ none ↦ none | some r ↦ some r.1 ];
    issued_at_ms = now;
    expires_at_ms = now + config.challenge_ttl_ms;
  }

  -- `nonce` is the text of the 32 random bytes, `event_id` a random id.
  unfoldable pub challenge :
      LicenseFiles
      → ReplayState
      → ℕ
      → Text
      → LeaseChallengeInput
      → Text
      → String
      → Result LeaseAuditEvent
  unfolding server_now authenticate bounded_text public_key_object challenged_activation
      challenged_replacement challenge_limits exact_b64u
  challenge files s raw token input nonce event_id = do
    let lapsed = purpose_eq input.purpose to_deactivate
    let at = server_now s raw
    license ← authenticate files token lapsed at
    let now = if lapsed then min at (s.max_server_time_ms + config.challenge_ttl_ms) else at
    install_id ← bounded_text input.install_id 128
    key ← bounded_text input.install_public_key 128
    public_key_object env key
    bound ← challenged_activation s license.id input install_id key
    new ← challenged_replacement input install_id key
    challenge_limits s license.id now
    throw_if (not (exact_b64u env nonce 32)) nonce_source
    throw_if (contains (env.sha256 nonce) s.challenges) nonce_repeated
    ok (record {
      event_id = event_id;
      at_ms = now;
      body =
          challenge_issued
            (issued_facts input.purpose license.id bound new install_id key nonce now);
    })
