-- ===== src/Leases/Issued.antt =====
-- The event that an operation of the lease service answers is a change that `replay` accepts
-- (license-leases.ts).
use wickhunter_hub.Prelude.{
  ℕ, ◌≡◌, refl, sym, ◌∙◌, subst, String, true, false, not, Option, none, some, contains, leb,
  str_eq, eq_iff, or_else, length, arith, Option-cases, inl, inr,
}
use wickhunter_hub.License.Types.{LicensePayload}
use wickhunter_hub.Leases.Types.{
  LeaseActivation, LeasePurpose, to_activate, to_renew, to_deactivate, to_rebind, LeaseAuditEvent,
  LeaseOperationResult, activation_created, lease_renewed, ReplayState, LicenseLeaseConfig, Env,
  Result, ok, throw_if, ◌>>◌, ◌>>=◌, install_bound, recovery_locked, machine_limit, key_bound,
}
use wickhunter_hub.Leases.Checks.{has_text, is_none}
use wickhunter_hub.Leases.Replay.{is_active, renew_binding, same_option, is_renewal}
use wickhunter_hub.Leases.Service.{
  Consumed, Outcome, appends, unless_replayed, purpose_eq, activate_consumed, next_revision,
  first_revision, find_first, active_of, max_machines, lease_for, lease_payload, issued, event_at,
}
use wickhunter_hub.Leases.Chain.{throw_if-ok, bind-ok}
use wickhunter_hub.Leases.Moves.{Moves, Signed, created, renewed, IsState, sound, same_key}
use wickhunter_hub.Leases.Invert.{Fresh, Fresh-open}
use wickhunter_hub.Leases.Find.{All-lookup, find-active}

pub is_none-eq {ℓ} : {A : Type ℓ} (o : Option A) → is_none o ≡ true → o ≡ none
is_none-eq none h = refl
is_none-eq (some a) h = cc

pub purpose-rebind : (p : LeasePurpose) → purpose_eq p to_rebind ≡ true → p ≡ to_rebind
purpose-rebind to_rebind h = refl
purpose-rebind to_activate h = cc
purpose-rebind to_renew h = cc
purpose-rebind to_deactivate h = cc

pub purpose-renew : (p : LeasePurpose) → purpose_eq p to_renew ≡ true → p ≡ to_renew
purpose-renew to_renew h = refl
purpose-renew to_activate h = cc
purpose-renew to_rebind h = cc
purpose-renew to_deactivate h = cc

pub purpose-activate : (p : LeasePurpose) → purpose_eq p to_activate ≡ true → p ≡ to_activate
purpose-activate to_activate h = refl
purpose-activate to_renew h = cc
purpose-activate to_rebind h = cc
purpose-activate to_deactivate h = cc

pub purpose-deactivate : (p : LeasePurpose) → purpose_eq p to_deactivate ≡ true → p ≡ to_deactivate
purpose-deactivate to_deactivate h = refl
purpose-deactivate to_activate h = cc
purpose-deactivate to_rebind h = cc
purpose-deactivate to_renew h = cc

pub same_or_else :
    (o : Option String) → not (is_none o) ≡ true → same_option o (some (or_else o "")) ≡ true
same_or_else none h = cc
same_or_else (some a) h = (eq_iff a a).1 refl

pub appended :
    {e e' : LeaseAuditEvent} {x x' : LeaseOperationResult}
    → ok (appends e x) ≡ ok (appends e' x')
    → e ≡ e'
appended h = cc

module _ (env : Env) (config : LicenseLeaseConfig) where
  -- An operation that appends an event has used its challenge for the first time.
  pub first_use :
      (r : Result Consumed) (next : Consumed → Result Outcome) (e : LeaseAuditEvent)
      (x : LeaseOperationResult)
      → (r >>= λ c. unless_replayed env config c (next c)) ≡ ok (appends e x)
      → (c : Consumed) × (r ≡ ok c) × (c.replay ≡ none) × (next c ≡ ok (appends e x))
  first_use r next e x h =
      let (c, got, h₁) = bind-ok r (λ c. unless_replayed env config c (next c)) h in
      elim (Option-cases c.replay) [
        | inl first ↦ (c, got, first, ground (arith, first, h₁))
        | inr (earlier, again) ↦ absurd (ground (arith, again, h₁))
      ]

  pub lease_for-Signed :
      (license : LicensePayload) (a : LeaseActivation) (now : ℕ)
      → Signed env config (lease_for env config license a now)
  unfolding lease_for lease_payload
  lease_for-Signed license a now = (lease_payload env config license a now, refl, refl)

  pub next_renewal :
      (c : Consumed) (d : LeaseActivation)
      → is_active d ≡ true
      → renew_binding c.facts d (next_revision env config c d) ≡ true
      → c.facts.license_id ≡ d.license_id
      → c.facts.install_id ≡ d.install_id
      → c.facts.install_public_key ≡ d.install_public_key
      → is_renewal c.facts d (next_revision env config c d) ≡ true
  next_renewal c d on binding license same_id same_key = ground (
    arith,
    on,
    binding,
    eq_iff c.facts.license_id d.license_id,
    eq_iff c.facts.install_id d.install_id,
    eq_iff c.facts.install_public_key d.install_public_key,
    eq_iff d.install_id d.install_id,
    eq_iff d.install_public_key d.install_public_key,
    license,
    same_id,
    same_key,
  )

  first_binding :
      (s : ReplayState) (c : Consumed)
      → IsState s
      → Fresh s to_activate c
      → c.facts.purpose ≡ to_activate
      → c.facts.activation_revision ≡ none
  first_binding s c v f p =
      let fine =
        All-lookup (λ k. sound k ≡ true) c.nonce_hash c.facts s.challenges v.sound_challenges
          f.found in
      is_none-eq c.facts.activation_revision (ground (arith, fine, p))

  pub activate_consumed-Moves :
      (s : ReplayState) (c : Consumed) (id event_id : String) (e : LeaseAuditEvent)
      (x : LeaseOperationResult)
      → IsState s
      → contains id s.activations ≡ false
      → Fresh s to_activate c
      → activate_consumed env config s c id event_id ≡ ok (appends e x)
      → Moves env config s e.at_ms e.body
  unfolding activate_consumed
  activate_consumed-Moves s c id event_id e x v new f h =
      let p = purpose-activate c.facts.purpose f.for_purpose in
      let lic = (eq_iff c.facts.license_id c.license.id).0 f.for_license in
      let opened = Fresh-open s to_activate c f in
      let held = active_of s c.license.id in
      elim (Option-cases (find_first (λ a. str_eq a.install_id c.facts.install_id) held)) [
        | inr (d, found) ↦
            let (here, same, on) =
              find-active (λ a. str_eq a.install_id c.facts.install_id) c.license.id d s v found in
            let a = next_revision env config c d in
            let renewal : (throw_if (not (str_eq d.install_public_key c.facts.install_public_key))
                    install_bound
                  >> ok (
                      appends
                        (event_at env config event_id c.now
                          (lease_renewed c.nonce_hash a (lease_for env config c.license a c.now)))
                        (issued env config c a)))
                ≡ ok (appends e x) =
              ground (arith, found, h) in
            let (keyed, h₂) =
              throw_if-ok (not (str_eq d.install_public_key c.facts.install_public_key))
                install_bound _ renewal in
            subst (λ y. Moves env config s y.at_ms y.body) (appended h₂)
              (renewed c.nonce_hash c.facts d a (lease_for env config c.license a c.now) opened here
                (next_renewal c d (ground (arith, on)) (ground (arith, p))
                  (lic ∙ sym ((eq_iff d.license_id c.license.id).0 (ground (arith, on))))
                  (sym ((eq_iff d.install_id c.facts.install_id).0 same))
                  (sym (
                    (eq_iff d.install_public_key c.facts.install_public_key).0
                      (ground (arith, keyed)))))
                refl (ground (arith, on)) (lease_for-Signed c.license a c.now))
        | inl alone ↦
            let a = first_revision env config c id in
            let creation : (throw_if (has_text c.license.id s.admin_recovery_locked) recovery_locked
                  >> (throw_if (leb (max_machines config s c.license.id) (length held))
                        machine_limit
                      >> (throw_if
                            (not (
                              is_none (
                                find_first
                                  (λ a. str_eq a.install_public_key c.facts.install_public_key)
                                  held)))
                            key_bound
                          >> ok (
                              appends
                                (event_at env config event_id c.now (
                                  activation_created c.nonce_hash a
                                    (lease_for env config c.license a c.now)))
                                (issued env config c a)))))
                ≡ ok (appends e x) =
              ground (arith, alone, h) in
            let (free, h₂) =
              throw_if-ok (has_text c.license.id s.admin_recovery_locked) recovery_locked _
                creation in
            let (room, h₃) =
              throw_if-ok (leb (max_machines config s c.license.id) (length held)) machine_limit _
                h₂ in
            let (keys, h₄) =
              throw_if-ok
                (not (
                  is_none (
                    find_first (λ a. str_eq a.install_public_key c.facts.install_public_key) held)))
                key_bound _ h₃ in
            subst (λ y. Moves env config s y.at_ms y.body) (appended h₄)
              (created c.nonce_hash c.facts a (lease_for env config c.license a c.now) opened
                (ground (
                  arith,
                  p,
                  f.for_license,
                  first_binding s c v f p,
                  eq_iff c.facts.install_id c.facts.install_id,
                  eq_iff c.facts.install_public_key c.facts.install_public_key,
                ))
                new refl (lease_for-Signed c.license a c.now) free (ground (arith, room)) alone
                (is_none-eq _ (ground (arith, keys))))
      ]
