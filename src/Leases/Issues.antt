-- ===== src/Leases/Issues.antt =====
-- The events that the lease service issues in a state, one way per operation (license-leases.ts).
use wickhunter_hub.Prelude.{
  ◌≤◌, ℕ, ◌+◌, ◌≡◌, refl, sym, ap, ◌∙◌, subst, String, true, false, not, ◌&&◌, Option, none, some,
  [], lookup, contains, ltb, ◌==◌, str_eq, if◌then◌else◌, or_else, length, arith, min,
}
use wickhunter_hub.License.Types.{Text, LicenseFiles}
use wickhunter_hub.License.Store.{is_known}
use wickhunter_hub.Leases.Types.{
  LeaseActivation, LeasePurpose, to_activate, to_renew, to_deactivate, to_rebind, LeaseAuditEvent,
  LeaseOperationResult, admin, ReplayState, LicenseLeaseConfig, Env, ok, throw_if, ◌>>◌, ◌>>=◌,
  activation_revision_changed, license_unknown, audit_revision, limit_below_active, nonce_source,
  nonce_repeated, rebind_same,
}
use wickhunter_hub.Leases.Checks.{
  bounded_text, finite_int, public_key_object, is_none, exact_b64u, is_activate, is_rebind,
}
use wickhunter_hub.Leases.Service.{
  LeaseChallengeInput, appends, consume, activation_for, purpose_eq, activate, activate_consumed,
  renew, renew_consumed, deactivate, deactivate_consumed, rebind, rebind_consumed, admin_deactivate,
  set_seat_override, observe_revocation, ended, active_of, server_now, authenticate, challenge,
  challenged_activation, challenged_replacement, challenge_limits, issued_facts,
}
use wickhunter_hub.Leases.Chain.{throw_if-ok, bind-ok, ok-injective}
use wickhunter_hub.Leases.Moves.{Moves, challenged, ended_by, overridden, observed, IsState, sound}
use wickhunter_hub.Leases.Invert.{activation_for-ok, consume-Fresh}
use wickhunter_hub.Leases.Find.{own-lookup}
use wickhunter_hub.Leases.Issued.{first_use, activate_consumed-Moves}
use wickhunter_hub.Leases.Reissued.{
  renew_consumed-Moves, deactivate_consumed-Moves, rebind_consumed-Moves, ended-deactivation,
}

-- One event of one successful call. The id that `activate` draws is not in use.
pub data Issues (env : Env) (config : LicenseLeaseConfig) (s : ReplayState)
    : LeaseAuditEvent → Type 0 where
  by_challenge :
      (files : LicenseFiles) (raw : ℕ) (token : Text) (input : LeaseChallengeInput) (nonce : Text)
      (event_id : String) (e : LeaseAuditEvent)
      → challenge env config files s raw token input nonce event_id ≡ ok e
      → Issues env config s e
  by_activate :
      (files : LicenseFiles) (raw : ℕ) (token nonce signature : Text) (id event_id : String)
      (e : LeaseAuditEvent) (x : LeaseOperationResult)
      → contains id s.activations ≡ false
      → activate env config files s raw token nonce signature id event_id ≡ ok (appends e x)
      → Issues env config s e
  by_renew :
      (files : LicenseFiles) (raw : ℕ) (token nonce signature : Text) (event_id : String)
      (e : LeaseAuditEvent) (x : LeaseOperationResult)
      → renew env config files s raw token nonce signature event_id ≡ ok (appends e x)
      → Issues env config s e
  by_deactivate :
      (files : LicenseFiles) (raw : ℕ) (token nonce signature : Text) (event_id : String)
      (e : LeaseAuditEvent) (x : LeaseOperationResult)
      → deactivate env config files s raw token nonce signature event_id ≡ ok (appends e x)
      → Issues env config s e
  by_rebind :
      (files : LicenseFiles) (raw : ℕ) (token nonce signature new_signature : Text)
      (event_id : String) (e : LeaseAuditEvent) (x : LeaseOperationResult)
      → rebind env config files s raw token nonce signature new_signature event_id
        ≡ ok (appends e x)
      → Issues env config s e
  by_override :
      (files : LicenseFiles) (raw : ℕ) (license_id : String) (machines : Option ℕ) (reason : String)
      (expected_revision : ℕ) (event_id : String) (e : LeaseAuditEvent)
      → set_seat_override env config files s raw license_id machines reason expected_revision
          event_id
        ≡ ok e
      → Issues env config s e
  by_admin :
      (raw : ℕ) (license_id activation_id : String) (expected_revision : ℕ)
      (reason event_id : String) (e : LeaseAuditEvent)
      → admin_deactivate env config s raw license_id activation_id expected_revision reason event_id
        ≡ ok e
      → Issues env config s e
  by_revocation :
      (raw : ℕ) (license_id reason event_id : String) (e : LeaseAuditEvent)
      → observe_revocation env config s raw license_id reason event_id ≡ ok e
      → Issues env config s e

module _ (env : Env) (config : LicenseLeaseConfig) where
  challenged_activation-none :
      (s : ReplayState) (lic : String) (input : LeaseChallengeInput) (install_id key : String)
      (bound : Option LeaseActivation)
      → challenged_activation env config s lic input install_id key ≡ ok bound
      → is_activate input.purpose ≡ true
      → bound ≡ none
  unfolding challenged_activation
  challenged_activation-none s lic input install_id key bound h p =
      let this : ok none ≡ ok bound = ground (arith, h, p) in sym (ok-injective this)

  challenged_replacement-some :
      (input : LeaseChallengeInput) (install_id key : String) (new : Option (String × String))
      → challenged_replacement env config input install_id key ≡ ok new
      → is_rebind input.purpose ≡ true
      → is_none new ≡ false
  unfolding challenged_replacement
  challenged_replacement-some input install_id key new h p =
      let rest = λ (new_id : String). bounded_text input.new_install_public_key 128 >>= λ new_key.
      public_key_object env new_key
      >> (throw_if (str_eq new_id install_id && str_eq new_key key) rebind_same
          >> ok (some (new_id, new_key))) in
      let this : (bounded_text input.new_install_id 128 >>= rest) ≡ ok new = ground (arith, h, p) in
      let (new_id, _, h₁) = bind-ok (bounded_text input.new_install_id 128) rest this in
      let (new_key, _, h₂) = bind-ok (bounded_text input.new_install_public_key 128) _ h₁ in
      let (_, _, h₃) = bind-ok (public_key_object env new_key) _ h₂ in
      let (_, h₄) = throw_if-ok (str_eq new_id install_id && str_eq new_key key) rebind_same _ h₃ in
      ap is_none (sym (ok-injective h₄))

  sound-issued :
      (p : LeasePurpose) (lic : String) (bound : Option LeaseActivation)
      (new : Option (String × String)) (install_id key : String) (hash : Text) (now : ℕ)
      → (is_activate p ≡ true → bound ≡ none)
      → (is_rebind p ≡ true → is_none new ≡ false)
      → sound (issued_facts env config p lic bound new install_id key hash now) ≡ true
  sound-issued to_activate lic bound new install_id key hash now b n = ground (arith, b refl)
  sound-issued to_renew lic bound new install_id key hash now b n = refl
  sound-issued to_deactivate lic bound new install_id key hash now b n = refl
  sound-issued to_rebind lic bound none install_id key hash now b n =
      absurd (ground (arith, n refl))
  sound-issued to_rebind lic bound (some r) install_id key hash now b n = refl

  challenge-Moves :
      (files : LicenseFiles) (s : ReplayState) (raw : ℕ) (token : Text)
      (input : LeaseChallengeInput) (nonce : Text) (event_id : String) (e : LeaseAuditEvent)
      → challenge env config files s raw token input nonce event_id ≡ ok e
      → Moves env config s e.at_ms e.body
  unfolding challenge server_now
  challenge-Moves files s raw token input nonce event_id e h =
      let (license, _, h₁) =
        bind-ok
          (authenticate env config files token (purpose_eq input.purpose to_deactivate)
            (server_now s raw))
          _ h in
      let (install_id, _, h₂) = bind-ok (bounded_text input.install_id 128) _ h₁ in
      let (key, _, h₃) = bind-ok (bounded_text input.install_public_key 128) _ h₂ in
      let (_, _, h₄) = bind-ok (public_key_object env key) _ h₃ in
      let (bound, named, h₅) =
        bind-ok (challenged_activation env config s license.id input install_id key) _ h₄ in
      let (new, replacing, h₆) =
        bind-ok (challenged_replacement env config input install_id key) _ h₅ in
      let lapsed = purpose_eq input.purpose to_deactivate in
      let at = server_now s raw in
      let now = if lapsed then min at (s.max_server_time_ms + config.challenge_ttl_ms) else at in
      let (_, _, h₇) = bind-ok (challenge_limits env config s license.id now) _ h₆ in
      let (_, h₈) = throw_if-ok (not (exact_b64u env nonce 32)) nonce_source _ h₇ in
      let (fresh, h₉) =
        throw_if-ok (contains (env.sha256 nonce) s.challenges) nonce_repeated _ h₈ in
      let onwards : s.max_server_time_ms ≤ now = ground arith in
      subst (λ (y : LeaseAuditEvent). Moves env config s y.at_ms y.body) (ok-injective h₉)
        (challenged
          (issued_facts env config input.purpose license.id bound new install_id key nonce now)
          fresh
          (sound-issued input.purpose license.id bound new install_id key nonce now
            (challenged_activation-none s license.id input install_id key bound named)
            (challenged_replacement-some input install_id key new replacing))
          onwards refl)

  set_seat_override-Moves :
      (files : LicenseFiles) (s : ReplayState) (raw : ℕ) (license_id : String) (machines : Option ℕ)
      (reason : String) (expected_revision : ℕ) (event_id : String) (e : LeaseAuditEvent)
      → set_seat_override env config files s raw license_id machines reason expected_revision
          event_id
        ≡ ok e
      → Moves env config s e.at_ms e.body
  unfolding set_seat_override
  set_seat_override-Moves files s raw license_id machines reason expected_revision event_id e h =
      let (id, _, h₁) = bind-ok (bounded_text license_id 128) _ h in
      let (_, h₂) = throw_if-ok (not (is_known files id)) license_unknown _ h₁ in
      let (_, _, h₃) =
        bind-ok {0, 0} {A = Unit {0}} (elim machines [ none ↦ ok tt | some n ↦ finite_int n 1 64 ])
          _ h₂ in
      let (why, _, h₄) = bind-ok (bounded_text reason 500) _ h₃ in
      let (_, h₅) = throw_if-ok (not (expected_revision == length s.events)) audit_revision _ h₄ in
      let (room, h₆) =
        throw_if-ok (ltb (or_else machines config.default_max_machines) (length (active_of s id)))
          limit_below_active _ h₅ in
      subst (λ (y : LeaseAuditEvent). Moves env config s y.at_ms y.body) (ok-injective h₆)
        (overridden id machines why (ground (arith, room)))

  admin_deactivate-Moves :
      (s : ReplayState) (raw : ℕ) (license_id activation_id : String) (expected_revision : ℕ)
      (reason event_id : String) (e : LeaseAuditEvent)
      → IsState s
      → admin_deactivate env config s raw license_id activation_id expected_revision reason event_id
        ≡ ok e
      → Moves env config s e.at_ms e.body
  unfolding admin_deactivate
  admin_deactivate-Moves s raw license_id activation_id expected_revision reason event_id e v h =
      let (id, _, h₁) = bind-ok (bounded_text license_id 128) _ h in
      let (d, got, h₂) = bind-ok (activation_for s id (some activation_id)) _ h₁ in
      let (_, h₃) =
        throw_if-ok (not (d.revision == expected_revision)) activation_revision_changed _ h₂ in
      let (why, _, h₄) = bind-ok (bounded_text reason 500) _ h₃ in
      let (k, _, found, license, on) = activation_for-ok s id (some activation_id) d got in
      subst (λ (y : LeaseAuditEvent). Moves env config s y.at_ms y.body) (ok-injective h₄)
        (ended_by none admin why d (ended env config d (server_now s raw) why)
          (ap (λ j. lookup j s.activations) (own-lookup k d s.activations v.own found) ∙ found)
          (ended-deactivation env config d (server_now s raw) why on) refl refl)

  observe_revocation-Moves :
      (s : ReplayState) (raw : ℕ) (license_id reason event_id : String) (e : LeaseAuditEvent)
      → observe_revocation env config s raw license_id reason event_id ≡ ok e
      → Moves env config s e.at_ms e.body
  unfolding observe_revocation
  observe_revocation-Moves s raw license_id reason event_id e h =
      let (id, _, h₁) = bind-ok (bounded_text license_id 128) _ h in
      let (why, _, h₂) = bind-ok (bounded_text reason 500) _ h₁ in
      subst (λ (y : LeaseAuditEvent). Moves env config s y.at_ms y.body) (ok-injective h₂)
        (observed id why)

  -- Each operation that succeeds makes one of the changes that the rules of the ledger name.
  pub Issues-Moves :
      (s : ReplayState) (e : LeaseAuditEvent)
      → IsState s
      → Issues env config s e
      → Moves env config s e.at_ms e.body
  unfolding activate renew deactivate rebind
  Issues-Moves s _ v (by_challenge files raw token input nonce event_id e h) =
      challenge-Moves files s raw token input nonce event_id e h
  Issues-Moves s _ v (by_activate files raw token nonce signature id event_id e x new h) =
      let (c, got, first, h₁) =
        first_use env config (consume env config files s raw token to_activate nonce signature [])
          (λ c. activate_consumed env config s c id event_id) e x h in
      activate_consumed-Moves env config s c id event_id e x v new
        (consume-Fresh env config files s raw token to_activate nonce signature [] c got first) h₁
  Issues-Moves s _ v (by_renew files raw token nonce signature event_id e x h) =
      let (c, got, first, h₁) =
        first_use env config (consume env config files s raw token to_renew nonce signature [])
          (λ c. renew_consumed env config s c event_id) e x h in
      renew_consumed-Moves env config s c event_id e x v
        (consume-Fresh env config files s raw token to_renew nonce signature [] c got first) h₁
  Issues-Moves s _ v (by_deactivate files raw token nonce signature event_id e x h) =
      let (c, got, first, h₁) =
        first_use env config (consume env config files s raw token to_deactivate nonce signature [])
          (λ c. deactivate_consumed env config s c event_id) e x h in
      deactivate_consumed-Moves env config s c event_id e x v
        (consume-Fresh env config files s raw token to_deactivate nonce signature [] c got first) h₁
  Issues-Moves s _ v (by_rebind files raw token nonce signature new_signature event_id e x h) =
      let (c, got, first, h₁) =
        first_use env config
          (consume env config files s raw token to_rebind nonce signature new_signature)
          (λ c. rebind_consumed env config s c event_id) e x h in
      rebind_consumed-Moves env config s c event_id e x v
        (consume-Fresh env config files s raw token to_rebind nonce signature new_signature c got
          first)
        h₁
  Issues-Moves s _ v
        (by_override files raw license_id machines reason expected_revision event_id e h) =
      set_seat_override-Moves files s raw license_id machines reason expected_revision event_id e h
  Issues-Moves s _ v (by_admin raw license_id activation_id expected_revision reason event_id e h) =
      admin_deactivate-Moves s raw license_id activation_id expected_revision reason event_id e v h
  Issues-Moves s _ v (by_revocation raw license_id reason event_id e h) =
      observe_revocation-Moves s raw license_id reason event_id e h
