-- ===== src/Leases/Reissued.antt =====
-- The events of a renewal, a deactivation and a rebind are changes that `replay` accepts
-- (license-leases.ts).
use wickhunter_hub.Prelude.{
  ℕ, ◌≡◌, refl, sym, ap, ◌∙◌, subst, String, true, false, not, ◌&&◌, ◌||◌, Option, none, some,
  str_eq, eq_iff, or_else, arith,
}
use wickhunter_hub.Leases.Types.{
  LeaseActivation, ChallengeFacts, to_renew, to_deactivate, to_rebind, LeaseAuditEvent,
  LeaseOperationResult, lease_renewed, activation_rebound, activation_deactivated, install,
  ReplayState, LicenseLeaseConfig, Env, ok, throw_if, ◌>>◌, replacement_bound,
  bad_deactivation_challenge,
}
use wickhunter_hub.Leases.Checks.{is_none}
use wickhunter_hub.Leases.Replay.{is_active, is_deactivation, is_deactivation_challenge}
use wickhunter_hub.Leases.Service.{
  Consumed, appends, activation_for, renew_consumed, deactivate_consumed, rebind_consumed, ended,
  next_revision, find_first, active_of, lease_for, issued, event_at, by_install,
}
use wickhunter_hub.Leases.Chain.{throw_if-ok, bind-ok}
use wickhunter_hub.Leases.Moves.{Moves, renewed, rebound, ended_by, IsState, sound, collides}
use wickhunter_hub.Leases.Invert.{Fresh, Fresh-open}
use wickhunter_hub.Leases.Find.{All-lookup, bound-activation}
use wickhunter_hub.Leases.Issued.{
  is_none-eq, purpose-rebind, purpose-renew, purpose-deactivate, same_or_else, appended,
  lease_for-Signed, next_renewal,
}

module _ (env : Env) (config : LicenseLeaseConfig) where
  pub renew_consumed-Moves :
      (s : ReplayState) (c : Consumed) (event_id : String) (e : LeaseAuditEvent)
      (x : LeaseOperationResult)
      → IsState s
      → Fresh s to_renew c
      → renew_consumed env config s c event_id ≡ ok (appends e x)
      → Moves env config s e.at_ms e.body
  unfolding renew_consumed
  renew_consumed-Moves s c event_id e x v f h =
      let (d, got, h₁) =
        bind-ok (activation_for s c.license.id c.facts.activation_id)
          (λ d. ok (
            appends
              (event_at env config event_id c.now (
                lease_renewed c.nonce_hash (next_revision env config c d)
                  (lease_for env config c.license (next_revision env config c d) c.now)))
              (issued env config c (next_revision env config c d))))
          h in
      let (names, here, license, on) = bound-activation s c.license.id c.facts d v f.bound got in
      let lic = (eq_iff c.facts.license_id c.license.id).0 f.for_license in
      let a = next_revision env config c d in
      subst (λ y. Moves env config s y.at_ms y.body) (appended h₁)
        (renewed c.nonce_hash c.facts d a (lease_for env config c.license a c.now)
          (Fresh-open s to_renew c f) here
          (next_renewal env config c d on
            (ground (arith, names, purpose-renew c.facts.purpose f.for_purpose))
            (lic ∙ sym ((eq_iff d.license_id c.license.id).0 license))
            ((eq_iff c.facts.install_id d.install_id).0 (ground (arith, names)))
            ((eq_iff c.facts.install_public_key d.install_public_key).0 (ground (arith, names))))
          refl on (lease_for-Signed env config c.license a c.now))

  pub ended-deactivation :
      (d : LeaseActivation) (now : ℕ) (reason : String)
      → is_active d ≡ true
      → is_deactivation d (ended env config d now reason) ≡ true
  ended-deactivation d now reason on = ground (
    arith,
    on,
    eq_iff d.license_id d.license_id,
    eq_iff d.install_id d.install_id,
    eq_iff d.install_public_key d.install_public_key,
  )

  pub deactivate_consumed-Moves :
      (s : ReplayState) (c : Consumed) (event_id : String) (e : LeaseAuditEvent)
      (x : LeaseOperationResult)
      → IsState s
      → Fresh s to_deactivate c
      → deactivate_consumed env config s c event_id ≡ ok (appends e x)
      → Moves env config s e.at_ms e.body
  unfolding deactivate_consumed
  deactivate_consumed-Moves s c event_id e x v f h =
      let (d, got, h₁) =
        bind-ok (activation_for s c.license.id c.facts.activation_id)
          (λ d. ok (
            appends
              (event_at env config event_id c.now (
                activation_deactivated (some c.nonce_hash) install (by_install env config)
                  (ended env config d c.now (by_install env config))))
              (record {
                replayed = false;
                activation = ended env config d c.now (by_install env config);
                lease = none;
              })))
          h in
      let (names, here, license, on) = bound-activation s c.license.id c.facts d v f.bound got in
      let a = ended env config d c.now (by_install env config) in
      let lic =
        (eq_iff c.facts.license_id c.license.id).0 f.for_license
        ∙ sym ((eq_iff d.license_id c.license.id).0 license) in
      let fits = λ (o : Option ChallengeFacts).
        throw_if (not (elim o [ none ↦ false | some k ↦ is_deactivation_challenge k d ]))
          bad_deactivation_challenge in
      subst (λ y. Moves env config s y.at_ms y.body) (appended h₁)
        (ended_by (some c.nonce_hash) install (by_install env config) d a here
          (ended-deactivation d c.now (by_install env config) on) refl
          (ap fits (Fresh-open s to_deactivate c f)
            ∙ ground (
              arith,
              names,
              purpose-deactivate c.facts.purpose f.for_purpose,
              lic,
              eq_iff c.facts.license_id d.license_id,
            )))

  pub rebind_consumed-Moves :
      (s : ReplayState) (c : Consumed) (event_id : String) (e : LeaseAuditEvent)
      (x : LeaseOperationResult)
      → IsState s
      → Fresh s to_rebind c
      → rebind_consumed env config s c event_id ≡ ok (appends e x)
      → Moves env config s e.at_ms e.body
  unfolding rebind_consumed
  rebind_consumed-Moves s c event_id e x v f h =
      let new_id = or_else c.facts.new_install_id "" in
      let new_key = or_else c.facts.new_install_public_key "" in
      let next = λ (d : LeaseActivation). record (next_revision env config c d) {
        install_id = new_id;
        install_public_key = new_key;
      } in
      let taken = λ (d : LeaseActivation).
        find_first
          (λ a.
            not (str_eq a.id d.id)
            && (str_eq a.install_id new_id || str_eq a.install_public_key new_key))
          (active_of s c.license.id) in
      let answer = λ (d : LeaseActivation). ok (
        appends
          (event_at env config event_id c.now (
            activation_rebound c.nonce_hash (next d)
              (lease_for env config c.license (next d) c.now)))
          (issued env config c (next d))) in
      let (d, got, h₁) =
        bind-ok (activation_for s c.license.id c.facts.activation_id)
          (λ d. throw_if (not (is_none (taken d))) replacement_bound >> answer d) h in
      let (free, h₂) = throw_if-ok (not (is_none (taken d))) replacement_bound _ h₁ in
      let (names, here, license, on) = bound-activation s c.license.id c.facts d v f.bound got in
      let lic_d = (eq_iff d.license_id c.license.id).0 license in
      let lic = (eq_iff c.facts.license_id c.license.id).0 f.for_license ∙ sym lic_d in
      let p = purpose-rebind c.facts.purpose f.for_purpose in
      let fine =
        All-lookup (λ k. sound k ≡ true) c.nonce_hash c.facts s.challenges v.sound_challenges
          f.found in
      let both : not (is_none c.facts.new_install_id)
            && not (is_none c.facts.new_install_public_key)
          ≡ true =
        ground (arith, fine, p) in
      subst (λ y. Moves env config s y.at_ms y.body) (appended h₂)
        (rebound c.nonce_hash c.facts d (next d) (lease_for env config c.license (next d) c.now)
          (Fresh-open s to_rebind c f) here
          (ground (
            arith,
            p,
            on,
            names,
            lic,
            eq_iff c.facts.license_id d.license_id,
            same_or_else c.facts.new_install_id (ground (arith, both)),
            same_or_else c.facts.new_install_public_key (ground (arith, both)),
          ))
          refl on (lease_for-Signed env config c.license (next d) c.now)
          (ap (λ l. find_first (collides (next d)) (active_of s l)) lic_d
            ∙ is_none-eq (taken d) (ground (arith, free))))
