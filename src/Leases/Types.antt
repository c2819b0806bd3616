-- ===== src/Leases/Types.antt =====
-- The data of src/license-leases.ts, and the outside code that it relies on.
-- Literal members (`v`, `type`, `schemaVersion`, the three constants of a policy) are left out.
use wickhunter_hub.Prelude.{ℕ, String, Bool, true, false, Option, none, List, [], Dict}
use wickhunter_hub.License.Types.{Text, Codec}

pub data LeasePurpose : Type 0 where
  to_activate to_renew to_deactivate to_rebind : LeasePurpose

pub record LeasePolicyFacts : Type 0 where
  pub refresh_after_ms : ℕ
  pub cached_grace_until_ms : ℕ
  pub max_clock_skew_ms : ℕ

pub record LicenseLeasePayload : Type 0 where
  pub kid : String
  pub license_id : String
  pub activation_id : String
  pub install_public_key : String
  pub features : List String
  pub issued_at_ms : ℕ
  pub not_before_ms : ℕ
  pub expires_at_ms : ℕ
  pub entitlement_expires_at_ms : ℕ
  pub sequence : ℕ
  pub server_time_ms : ℕ
  pub policy : LeasePolicyFacts

pub record SignedLicenseLease : Type 0 where
  pub token : Text
  pub payload : LicenseLeasePayload

pub data Status : Type 0 where
  active deactivated : Status

pub record LeaseActivation : Type 0 where
  pub id : String
  pub license_id : String
  pub install_id : String
  pub install_public_key : String
  pub status : Status
  pub created_at_ms : ℕ
  pub updated_at_ms : ℕ
  pub last_sequence : ℕ
  pub last_lease_expires_at_ms : Option ℕ
  pub deactivated_at_ms : Option ℕ
  pub deactivation_reason : Option String
  pub revision : ℕ

pub record ChallengeFacts : Type 0 where
  pub nonce_hash : String
  pub purpose : LeasePurpose
  pub license_id : String
  pub activation_id : Option String
  pub activation_revision : Option ℕ
  pub install_id : String
  pub install_public_key : String
  pub new_install_id : Option String
  pub new_install_public_key : Option String
  pub issued_at_ms : ℕ
  pub expires_at_ms : ℕ

pub data Actor : Type 0 where
  install admin : Actor

-- The kinds of audit event with their members; `actor` is a member where both actors may stand.
pub data EventBody : Type 0 where
  ledger_initialized : EventBody
  challenge_issued : ChallengeFacts → EventBody
  activation_created lease_renewed activation_rebound :
      (nonce_hash : String) → LeaseActivation → SignedLicenseLease → EventBody
  activation_deactivated :
      (nonce_hash : Option String) → Actor → (reason : String) → LeaseActivation → EventBody
  seat_override_set : (license_id : String) → Option ℕ → (reason : String) → EventBody
  license_revocation_observed : (license_id reason : String) → EventBody

pub record LeaseAuditEvent : Type 0 where
  pub event_id : String
  pub at_ms : ℕ
  pub body : EventBody

pub record LedgerLine : Type 0 where
  pub kid : String
  pub previous_hash : Option String
  pub event : LeaseAuditEvent
  pub sig : Text

pub record LedgerHead : Type 0 where
  pub event_count : ℕ
  pub last_hash : String
  pub updated_at_ms : ℕ

pub record LeaseOperationResult : Type 0 where
  pub replayed : Bool
  pub activation : LeaseActivation
  pub lease : Option SignedLicenseLease

pub record ReplayState : Type 0 where
  pub activations : Dict LeaseActivation
  pub challenges : Dict ChallengeFacts
  pub challenges_by_license : Dict (List ChallengeFacts)
  pub consumed : Dict LeaseOperationResult
  pub seat_overrides : Dict ℕ
  pub events : List LeaseAuditEvent
  pub event_ids : List String
  pub admin_recovery_locked : List String
  pub last_hash : Option String
  pub max_server_time_ms : ℕ

abbrev pub empty_replay : ReplayState
empty_replay = record {
  activations = [];
  challenges = [];
  challenges_by_license = [];
  consumed = [];
  seat_overrides = [];
  events = [];
  event_ids = [];
  admin_recovery_locked = [];
  last_hash = none;
  max_server_time_ms = 0;
}

pub record LicenseLeaseConfig : Type 0 where
  pub active_key_id : String
  pub lease_duration_ms : ℕ
  pub cached_grace_ms : ℕ
  pub challenge_ttl_ms : ℕ
  pub max_clock_skew_ms : ℕ
  pub default_max_machines : ℕ
  pub ledger_max_bytes : ℕ

-- What `JSON.parse` gives for a lease payload: members of the types and with the literal values of
-- the interface, or anything else.
pub data ParsedLease : Type 0 where
  shaped : LicenseLeasePayload → ParsedLease
  unshaped : ParsedLease

-- Outside code: base64url, SHA-256 in hexadecimal, Ed25519 under a raw public key and with the key
-- of the store, JSON, the order of `sort()` on texts, the features of a licence, and what the licence
-- store relies on.
pub record Env : Type 0 where
  pub from_base64url : Text → List ℕ
  pub to_base64url : List ℕ → Text
  pub sha256 : List ℕ → String
  pub ed_verify : (public_key : String) → (bytes : List ℕ) → (sig : List ℕ) → Bool
  pub ed_sign : (bytes : List ℕ) → List ℕ
  pub stringify_payload : LicenseLeasePayload → List ℕ
  pub parse_payload : List ℕ → Option ParsedLease
  pub stringify_unsigned : String → Option String → LeaseAuditEvent → List ℕ
  pub stringify_line : LedgerLine → List ℕ
  pub stringify_proof : ChallengeFacts → Text → List ℕ
  pub precedes : String → String → Bool
  pub features_for : String → List String
  pub codec : Codec

pub data LeaseError : Type 0 where
  text_length number_range key_malformed activation_facts event_envelope challenge_hash
        challenge_binding challenge_replacement lease_to_deactivated lease_malformed
        lease_mismatch :
      LeaseError
  chain_broken unknown_key signature_malformed signature_invalid repeats_event_id lease_invalid
        bad_marker repeats_nonce bad_first_activation bad_renewal bad_rebind bad_deactivation
        bad_deactivation_challenge admin_nonce :
      LeaseError
  head_missing head_mismatch changed_concurrently event_too_large clock_jumped clock_backwards :
      LeaseError
  license_unknown license_inactive license_not_issued activation_id_missing activation_not_found
        activation_is_deactivated install_mismatch rebind_same too_many_challenges challenge_rate
        nonce_source nonce_repeated nonce_malformed proof_malformed challenge_not_found
        proof_refused new_proof_refused stale_challenge challenge_expired install_bound
        recovery_locked machine_limit key_bound replacement_bound limit_below_active audit_revision
        activation_revision_changed :
      LeaseError

pub data Result {ℓ} (A : Type ℓ) : Type ℓ where
  err : LeaseError → Result A
  ok : A → Result A

infixl 5 ◌>>=◌ ◌>>◌
abbrev pub ◌>>=◌ {ℓ₁ ℓ₂} :
    {A : Type ℓ₁} {B : Type ℓ₂} (r : Result A) (rest : A → Result B) → Result B
err why >>= rest = err why
ok a >>= rest = rest a

abbrev pub ◌>>◌ {ℓ₁} : {B : Type ℓ₁} (checked : Result (Unit {0})) (rest : Result B) → Result B
checked >> rest = checked >>= λ _. rest

abbrev pub throw_if : Bool → LeaseError → Result (Unit {0})
throw_if true why = err why
throw_if false why = ok tt
