-- ===== src/Leases/Service/Issue.antt =====
-- `leaseFor`, `activate`, `renew`, `deactivate` and `rebind` of `LicenseLeaseService`
-- (license-leases.ts).
use wickhunter_hub.Prelude.{
  ℕ, ◌+◌, ◌-◌, ◌/◌, min, max, String, false, not, ◌&&◌, ◌||◌, none, some, List, [], ◌∷◌, leb,
  str_eq, or_else, length, filter,
}
use wickhunter_hub.License.Types.{Text, LicensePayload, LicenseFiles}
use wickhunter_hub.Leases.Types.{
  to_activate, to_renew, to_deactivate, to_rebind, LicenseLeasePayload, SignedLicenseLease,
  LeaseActivation, active, deactivated, install, EventBody, activation_created, lease_renewed,
  activation_rebound, activation_deactivated, LeaseAuditEvent, LeaseOperationResult, ReplayState,
  LicenseLeaseConfig, Env, install_bound, recovery_locked, machine_limit, key_bound,
  replacement_bound, Result, ok, ◌>>=◌, ◌>>◌, throw_if,
}
use wickhunter_hub.Leases.Checks.{has_text, is_feature, is_none, sort_texts}
use wickhunter_hub.Leases.Tokens.{sign_lease}
use wickhunter_hub.Leases.Service.State.{active_of, find_first, activation_for, max_machines}
use wickhunter_hub.Leases.Service.Consume.{Consumed, consume}

-- What an operation answers: the result of an earlier use of the nonce, or a new result with the event
-- that it appends.
pub data Outcome : Type 0 where
  replayed_outcome : LeaseOperationResult → Outcome
  appends : LeaseAuditEvent → LeaseOperationResult → Outcome

module _ (env : Env) (config : LicenseLeaseConfig) where
  abbrev pub lease_end : LicensePayload → ℕ → ℕ
  lease_end license now = min license.exp (now + config.lease_duration_ms)

  unfoldable pub lease_features : String → List String
  unfolding is_feature has_text sort_texts
  lease_features license_id =
      sort_texts env (filter is_feature (once ("beta" ∷ env.features_for license_id)))
    where
      once : List String → List String
      once [] = []
      once (x ∷ xs) = x ∷ filter (λ y. not (str_eq y x)) (once xs)

  unfoldable pub lease_payload : LicensePayload → LeaseActivation → ℕ → LicenseLeasePayload
  unfolding lease_features
  lease_payload license a now =
      let expires = lease_end license now in
      record {
        kid = config.active_key_id;
        license_id = license.id;
        activation_id = a.id;
        install_public_key = a.install_public_key;
        features = lease_features license.id;
        issued_at_ms = now;
        not_before_ms = now - config.max_clock_skew_ms;
        expires_at_ms = expires;
        entitlement_expires_at_ms = license.exp;
        sequence = a.last_sequence;
        server_time_ms = now;
        policy = record {
          refresh_after_ms = min expires (now + max 60000 (config.lease_duration_ms / 2));
          cached_grace_until_ms = min license.exp (expires + config.cached_grace_ms);
          max_clock_skew_ms = config.max_clock_skew_ms;
        };
      }

  unfoldable pub lease_for : LicensePayload → LeaseActivation → ℕ → SignedLicenseLease
  unfolding sign_lease lease_payload
  lease_for license a now = sign_lease env (lease_payload license a now)

  abbrev pub issued : Consumed → LeaseActivation → LeaseOperationResult
  issued c a = record {
    replayed = false;
    activation = a;
    lease = some (lease_for c.license a c.now);
  }

  abbrev pub event_at : String → ℕ → EventBody → LeaseAuditEvent
  event_at event_id at body = record { event_id = event_id; at_ms = at; body = body }

  -- The next revision of an activation that gets a lease.
  abbrev pub next_revision : Consumed → LeaseActivation → LeaseActivation
  next_revision c a = record a {
    updated_at_ms = c.now;
    last_sequence = a.last_sequence + 1;
    last_lease_expires_at_ms = some (lease_end c.license c.now);
    revision = a.revision + 1;
  }

  abbrev pub first_revision : Consumed → String → LeaseActivation
  first_revision c id = record {
    id = id;
    license_id = c.license.id;
    install_id = c.facts.install_id;
    install_public_key = c.facts.install_public_key;
    status = active;
    created_at_ms = c.now;
    updated_at_ms = c.now;
    last_sequence = 1;
    last_lease_expires_at_ms = some (lease_end c.license c.now);
    deactivated_at_ms = none;
    deactivation_reason = none;
    revision = 1;
  }

  -- The body of `activate` after `consume`.
  unfoldable pub activate_consumed : ReplayState → Consumed → String → String → Result Outcome
  unfolding lease_for has_text
  activate_consumed s c activation_id event_id =
      let held = active_of s c.license.id in
      let duplicate = find_first (λ a. str_eq a.install_id c.facts.install_id) held in
      elim duplicate [
        | some d ↦ do
          throw_if (not (str_eq d.install_public_key c.facts.install_public_key)) install_bound
          let a = next_revision c d
          ok (
              appends
                (event_at event_id c.now
                  (lease_renewed c.nonce_hash a (lease_for c.license a c.now)))
                (issued c a))
        | none ↦ do
          throw_if (has_text c.license.id s.admin_recovery_locked) recovery_locked
          throw_if (leb (max_machines config s c.license.id) (length held)) machine_limit
          throw_if
              (not (
                is_none
                  (find_first (λ a. str_eq a.install_public_key c.facts.install_public_key) held)))
              key_bound
          let a = first_revision c activation_id
          ok (
              appends
                (event_at event_id c.now
                  (activation_created c.nonce_hash a (lease_for c.license a c.now)))
                (issued c a))
      ]

  unfoldable pub renew_consumed : ReplayState → Consumed → String → Result Outcome
  unfolding lease_for activation_for
  renew_consumed s c event_id = do
    current ← activation_for s c.license.id c.facts.activation_id
    let a = next_revision c current
    ok (
        appends
          (event_at event_id c.now (lease_renewed c.nonce_hash a (lease_for c.license a c.now)))
          (issued c a))

  abbrev pub by_install : String
  by_install = "deactivated by the bound install"

  abbrev pub ended : LeaseActivation → ℕ → String → LeaseActivation
  ended a now reason = record a {
    status = deactivated;
    updated_at_ms = now;
    deactivated_at_ms = some now;
    deactivation_reason = some reason;
    revision = a.revision + 1;
  }

  unfoldable pub deactivate_consumed : ReplayState → Consumed → String → Result Outcome
  unfolding activation_for
  deactivate_consumed s c event_id = do
    current ← activation_for s c.license.id c.facts.activation_id
    let a = ended current c.now by_install
    ok (
        appends
          (event_at event_id c.now
            (activation_deactivated (some c.nonce_hash) install by_install a))
          (record { replayed = false; activation = a; lease = none }))

  -- A rebind challenge has both new facts: `validateAuditEvent` let it in with them.
  unfoldable pub rebind_consumed : ReplayState → Consumed → String → Result Outcome
  unfolding lease_for activation_for
  rebind_consumed s c event_id = do
    current ← activation_for s c.license.id c.facts.activation_id
    let new_id = or_else c.facts.new_install_id ""
    let new_key = or_else c.facts.new_install_public_key ""
    throw_if
        (not (
          is_none (
            find_first
              (λ a.
                not (str_eq a.id current.id)
                && (str_eq a.install_id new_id || str_eq a.install_public_key new_key))
              (active_of s c.license.id))))
        replacement_bound
    let a = record (next_revision c current) { install_id = new_id; install_public_key = new_key }
    ok (
        appends
          (event_at event_id c.now
            (activation_rebound c.nonce_hash a (lease_for c.license a c.now)))
          (issued c a))

  abbrev pub unless_replayed : Consumed → Result Outcome → Result Outcome
  unless_replayed c next = elim c.replay [
    | some earlier ↦ ok (replayed_outcome earlier)
    | none ↦ next
  ]

  unfoldable pub activate :
      LicenseFiles → ReplayState → ℕ → Text → Text → Text → String → String → Result Outcome
  unfolding consume activate_consumed
  activate files s raw token nonce signature activation_id event_id =
      consume env config files s raw token to_activate nonce signature [] >>= λ c.
      unless_replayed c (activate_consumed s c activation_id event_id)

  unfoldable pub renew :
      LicenseFiles → ReplayState → ℕ → Text → Text → Text → String → Result Outcome
  unfolding consume renew_consumed
  renew files s raw token nonce signature event_id =
      consume env config files s raw token to_renew nonce signature [] >>= λ c.
      unless_replayed c (renew_consumed s c event_id)

  unfoldable pub deactivate :
      LicenseFiles → ReplayState → ℕ → Text → Text → Text → String → Result Outcome
  unfolding consume deactivate_consumed
  deactivate files s raw token nonce signature event_id =
      consume env config files s raw token to_deactivate nonce signature [] >>= λ c.
      unless_replayed c (deactivate_consumed s c event_id)

  unfoldable pub rebind :
      LicenseFiles → ReplayState → ℕ → Text → Text → Text → Text → String → Result Outcome
  unfolding consume rebind_consumed
  rebind files s raw token nonce signature new_signature event_id =
      consume env config files s raw token to_rebind nonce signature new_signature >>= λ c.
      unless_replayed c (rebind_consumed s c event_id)
