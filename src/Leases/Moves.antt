-- ===== src/Leases/Moves.antt =====
-- What an event of a running service does (license-leases.ts): the changes that the operations make,
-- each with what the operation has checked. `replay` accepts every one of them.
use wickhunter_hub.Prelude.{
  ◌+◌, ℕ, ◌≤◌, ◌<◌, ◌≡◌, refl, String, Bool, true, false, not, ◌&&◌, ◌||◌, Option, none, some,
  lookup, contains, str_eq, or_else, length, All, keys, Unique,
}
use wickhunter_hub.Leases.Types.{
  Env, LicenseLeasePayload, LeaseActivation, ChallengeFacts, to_activate, to_rebind,
  SignedLicenseLease, Actor, EventBody, challenge_issued, activation_created, lease_renewed,
  activation_rebound, activation_deactivated, seat_override_set, license_revocation_observed,
  ReplayState, LicenseLeaseConfig, ok,
}
use wickhunter_hub.Leases.Checks.{has_text, is_none}
use wickhunter_hub.Leases.Tokens.{sign_lease}
use wickhunter_hub.Leases.Replay.{
  is_active, open_challenge, is_first_activation, is_renewal, is_rebinding, is_deactivation,
  deactivates, transition,
}
use wickhunter_hub.Leases.Service.{active_of, find_first, max_machines}

-- What `validateAuditEvent` has made sure of in a stored challenge.
abbrev pub sound : ChallengeFacts → Bool
sound c = elim c.purpose [
  | to_activate ↦ is_none c.activation_revision
  | to_rebind ↦ not (is_none c.new_install_id) && not (is_none c.new_install_public_key)
  | _ ↦ true
]

-- Activations are stored once, under their own ids, and challenges are sound.
pub record IsState (s : ReplayState) : Type 0 where
  pub own : All (λ e. e.1.id ≡ e.0) s.activations
  pub unique : Unique (keys s.activations)
  pub sound_challenges : All (λ e. sound e.1 ≡ true) s.challenges

abbrev pub same_install : LeaseActivation → LeaseActivation → Bool
same_install a b = str_eq b.install_id a.install_id

abbrev pub same_key : LeaseActivation → LeaseActivation → Bool
same_key a b = str_eq b.install_public_key a.install_public_key

-- Another activation than `a` with its install id or its key.
abbrev pub collides : LeaseActivation → LeaseActivation → Bool
collides a b = not (str_eq b.id a.id) && (same_install a b || same_key a b)

-- The Hub has signed the lease under its active key.
abbrev pub Signed : Env → LicenseLeaseConfig → SignedLicenseLease → Type 0
Signed env config lease =
    (p : LicenseLeasePayload) × (lease ≡ sign_lease env p) × (p.kid ≡ config.active_key_id)

pub data Moves (env : Env) (config : LicenseLeaseConfig) (s : ReplayState)
    : ℕ → EventBody → Type 0 where
  challenged :
      (c : ChallengeFacts)
      → contains c.nonce_hash s.challenges ≡ false
      → sound c ≡ true
      → s.max_server_time_ms ≤ c.issued_at_ms
      → c.expires_at_ms ≡ c.issued_at_ms + config.challenge_ttl_ms
      → Moves env config s c.issued_at_ms (challenge_issued c)
  created :
      {at : ℕ} (hash : String) (c : ChallengeFacts) (a : LeaseActivation)
      (lease : SignedLicenseLease)
      → open_challenge s hash ≡ some c
      → is_first_activation c a ≡ true
      → contains a.id s.activations ≡ false
      → is_active a ≡ true
      → Signed env config lease
      → has_text a.license_id s.admin_recovery_locked ≡ false
      → length (active_of s a.license_id) < max_machines config s a.license_id
      → find_first (same_install a) (active_of s a.license_id) ≡ none
      → find_first (same_key a) (active_of s a.license_id) ≡ none
      → Moves env config s at (activation_created hash a lease)
  renewed :
      {at : ℕ} (hash : String) (c : ChallengeFacts) (prior a : LeaseActivation)
      (lease : SignedLicenseLease)
      → open_challenge s hash ≡ some c
      → lookup a.id s.activations ≡ some prior
      → is_renewal c prior a ≡ true
      → a.license_id ≡ prior.license_id
      → is_active a ≡ true
      → Signed env config lease
      → Moves env config s at (lease_renewed hash a lease)
  rebound :
      {at : ℕ} (hash : String) (c : ChallengeFacts) (prior a : LeaseActivation)
      (lease : SignedLicenseLease)
      → open_challenge s hash ≡ some c
      → lookup a.id s.activations ≡ some prior
      → is_rebinding c prior a ≡ true
      → a.license_id ≡ prior.license_id
      → is_active a ≡ true
      → Signed env config lease
      → find_first (collides a) (active_of s a.license_id) ≡ none
      → Moves env config s at (activation_rebound hash a lease)
  ended_by :
      {at : ℕ} (hash : Option String) (actor : Actor) (reason : String) (prior a : LeaseActivation)
      → lookup a.id s.activations ≡ some prior
      → is_deactivation prior a ≡ true
      → is_active a ≡ false
      → deactivates s hash actor a prior ≡ ok tt
      → Moves env config s at (activation_deactivated hash actor reason a)
  overridden :
      {at : ℕ} (id : String) (machines : Option ℕ) (reason : String)
      → length (active_of s id) ≤ or_else machines config.default_max_machines
      → Moves env config s at (seat_override_set id machines reason)
  observed :
      {at : ℕ} (id reason : String) → Moves env config s at (license_revocation_observed id reason)

-- The checks of `replay` let every such change pass.
pub Moves-transition :
    (env : Env) (config : LicenseLeaseConfig) (s : ReplayState) {at : ℕ} (b : EventBody)
    → Moves env config s at b
    → transition s b ≡ ok tt
unfolding transition
Moves-transition env config s _ (challenged c new h onwards ends) = rw new refl
Moves-transition env config s _
      (created hash c a lease opened first new on sealed free room no_id no_key) =
    rw (opened, first, new) refl
Moves-transition env config s _ (renewed hash c prior a lease opened here next license on sealed) =
    rw (opened, here, next) refl
Moves-transition env config s _
      (rebound hash c prior a lease opened here next license on sealed alone) =
    rw (opened, here, next) refl
Moves-transition env config s _ (ended_by hash actor reason prior a here next off passes) =
    rw (here, transition) (rw next passes)
Moves-transition env config s _ (overridden id machines reason room) = refl
Moves-transition env config s _ (observed id reason) = refl
