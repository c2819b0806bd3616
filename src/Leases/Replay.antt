-- ===== src/Leases/Replay.antt =====
-- Reading the audit ledger (license-leases.ts): `replay`, and `cacheAppendedEvent`, which updates the
-- state of the last replay when a line is appended. Lines that are not JSON do not reach this model.
use wickhunter_hub.Prelude.{
  ℕ, ◌+◌, max, String, Bool, true, false, not, ◌&&◌, ◌||◌, Option, none, some, List, [], ◌∷◌, ◌++◌,
  Dict, lookup, contains, insert, erase, ◌==◌, str_eq, if◌then◌else◌, or_else, length,
}
use wickhunter_hub.License.Text.{codes, same_text as same_bytes}
use wickhunter_hub.Leases.Types.{
  to_activate, to_renew, to_deactivate, to_rebind, SignedLicenseLease, LeaseActivation, active,
  deactivated, ChallengeFacts, Actor, install, admin, EventBody, ledger_initialized,
  challenge_issued, activation_created, lease_renewed, activation_rebound, activation_deactivated,
  seat_override_set, license_revocation_observed, LeaseAuditEvent, LedgerLine, LedgerHead,
  ReplayState, empty_replay, Env, chain_broken, unknown_key, signature_malformed, signature_invalid,
  repeats_event_id, lease_invalid, bad_marker, repeats_nonce, bad_first_activation, bad_renewal,
  bad_rebind, bad_deactivation, bad_deactivation_challenge, admin_nonce, head_missing,
  head_mismatch, Result, ok, err, ◌>>=◌, ◌>>◌, throw_if,
}
use wickhunter_hub.Leases.Checks.{
  exact_b64u, has_text, signature_bytes, validate_audit_event, public_key_object,
}
use wickhunter_hub.Leases.Tokens.{verify_license_lease, genuine, rejected}

abbrev pub same_option : Option String → Option String → Bool
same_option none none = true
same_option (some a) (some b) = str_eq a b
same_option _ _ = false

abbrev pub same_number : Option ℕ → Option ℕ → Bool
same_number none none = true
same_number (some a) (some b) = a == b
same_number _ _ = false

abbrev pub is_active : LeaseActivation → Bool
is_active a = elim a.status [ active ↦ true | deactivated ↦ false ]

-- The event is recorded before the `switch`.
abbrev pub noted : ReplayState → LeaseAuditEvent → ReplayState
noted s e = record s {
  events = s.events ++ e ∷ [];
  event_ids = s.event_ids ++ e.event_id ∷ [];
  max_server_time_ms = max s.max_server_time_ms e.at_ms;
}

abbrev pub add_challenge : ReplayState → ChallengeFacts → ReplayState
add_challenge s c = record s {
  challenges = insert c.nonce_hash c s.challenges;
  challenges_by_license =
      insert c.license_id (or_else (lookup c.license_id s.challenges_by_license) [] ++ c ∷ [])
        s.challenges_by_license;
}

-- `activations.set` and `consumed.set` for an event that issues a lease.
abbrev pub add_lease : ReplayState → String → LeaseActivation → SignedLicenseLease → ReplayState
add_lease s nonce_hash a lease = record s {
  activations = insert a.id a s.activations;
  consumed =
      insert nonce_hash (record { replayed = true; activation = a; lease = some lease }) s.consumed;
}

abbrev pub consume_none : Option String → LeaseActivation → ReplayState → ReplayState
consume_none none a s = s
consume_none (some nonce_hash) a s = record s {
  consumed =
      insert nonce_hash (record { replayed = true; activation = a; lease = none }) s.consumed;
}

abbrev pub lock_recovery : Actor → String → ReplayState → ReplayState
lock_recovery install license_id s = s
lock_recovery admin license_id s = record s {
  admin_recovery_locked = license_id ∷ s.admin_recovery_locked;
}

abbrev pub set_override : String → Option ℕ → ReplayState → ReplayState
set_override license_id none s = record s { seat_overrides = erase license_id s.seat_overrides }
set_override license_id (some n) s = record s {
  seat_overrides = insert license_id n s.seat_overrides;
}

-- The `switch` of `cacheAppendedEvent`.
unfoldable pub update : ReplayState → EventBody → ReplayState
update s ledger_initialized = s
update s (challenge_issued c) = add_challenge s c
update s (activation_created nonce a lease) = add_lease s nonce a lease
update s (lease_renewed nonce a lease) = add_lease s nonce a lease
update s (activation_rebound nonce a lease) = add_lease s nonce a lease
update s (activation_deactivated hash actor reason a) =
    consume_none hash a
      (lock_recovery actor a.license_id (record s { activations = insert a.id a s.activations }))
update s (seat_override_set id max reason) = set_override id max s
update s (license_revocation_observed id reason) = s

unfoldable pub cache_appended_event : ReplayState → LeaseAuditEvent → String → ReplayState
unfolding update
cache_appended_event s e hash = record (update (noted s e) e.body) { last_hash = some hash }

abbrev pub is_first_activation : ChallengeFacts → LeaseActivation → Bool
is_first_activation c a =
    (elim c.purpose [ to_activate ↦ true | _ ↦ false ])
    && str_eq c.license_id a.license_id
    && (elim c.activation_revision [ none ↦ true | some _ ↦ false ])
    && str_eq c.install_id a.install_id
    && str_eq c.install_public_key a.install_public_key
    && a.last_sequence == 1
    && a.revision == 1

-- The next revision of an activation, with the next sequence.
abbrev pub is_next : LeaseActivation → LeaseActivation → Bool
is_next prior a =
    a.last_sequence == prior.last_sequence + 1
    && a.revision == prior.revision + 1
    && a.created_at_ms == prior.created_at_ms

abbrev pub renew_binding : ChallengeFacts → LeaseActivation → LeaseActivation → Bool
renew_binding c prior a = elim c.purpose [
  | to_activate ↦ true
  | to_renew ↦
      same_option c.activation_id (some a.id)
      && same_number c.activation_revision (some prior.revision)
  | _ ↦ false
]

abbrev pub is_renewal : ChallengeFacts → LeaseActivation → LeaseActivation → Bool
is_renewal c prior a =
    is_active prior
    && renew_binding c prior a
    && str_eq c.license_id a.license_id
    && str_eq c.install_id a.install_id
    && str_eq c.install_public_key a.install_public_key
    && str_eq a.install_id prior.install_id
    && str_eq a.install_public_key prior.install_public_key
    && is_next prior a

abbrev pub names_binding : ChallengeFacts → LeaseActivation → Bool
names_binding c prior =
    same_option c.activation_id (some prior.id)
    && same_number c.activation_revision (some prior.revision)
    && str_eq c.install_id prior.install_id
    && str_eq c.install_public_key prior.install_public_key

abbrev pub is_rebinding : ChallengeFacts → LeaseActivation → LeaseActivation → Bool
is_rebinding c prior a =
    (elim c.purpose [ to_rebind ↦ true | _ ↦ false ])
    && is_active prior
    && names_binding c prior
    && str_eq c.license_id a.license_id
    && same_option c.new_install_id (some a.install_id)
    && same_option c.new_install_public_key (some a.install_public_key)
    && is_next prior a

abbrev pub is_deactivation : LeaseActivation → LeaseActivation → Bool
is_deactivation prior a =
    is_active prior
    && str_eq a.license_id prior.license_id
    && str_eq a.install_id prior.install_id
    && str_eq a.install_public_key prior.install_public_key
    && a.last_sequence == prior.last_sequence
    && a.revision == prior.revision + 1
    && a.created_at_ms == prior.created_at_ms

abbrev pub is_deactivation_challenge : ChallengeFacts → LeaseActivation → Bool
is_deactivation_challenge c prior =
    (elim c.purpose [ to_deactivate ↦ true | _ ↦ false ])
    && names_binding c prior
    && str_eq c.license_id prior.license_id

-- The challenge of a nonce that is not consumed.
abbrev pub open_challenge : ReplayState → String → Option ChallengeFacts
open_challenge s nonce_hash =
    if contains nonce_hash s.consumed then none else lookup nonce_hash s.challenges

-- The challenge and the prior revision of an activation, where both are there.
abbrev pub with_prior :
    (ChallengeFacts → LeaseActivation → Bool)
    → Option ChallengeFacts
    → Option LeaseActivation
    → Bool
with_prior test (some c) (some prior) = test c prior
with_prior test _ _ = false

abbrev pub deactivates :
    ReplayState → Option String → Actor → LeaseActivation → LeaseActivation → Result (Unit {0})
deactivates s nonce install a prior =
    throw_if
      (not (elim nonce [
        | none ↦ false
        | some hash ↦ elim (open_challenge s hash) [
          | none ↦ false
          | some c ↦ is_deactivation_challenge c prior
        ]
      ]))
      bad_deactivation_challenge
deactivates s nonce admin a prior = throw_if (not (same_option nonce none)) admin_nonce

-- The checks of the `switch` of `replay`, on the state before the event.
unfoldable pub transition : ReplayState → EventBody → Result (Unit {0})
transition s ledger_initialized = elim s.events [ [] ↦ ok tt | _ ∷ _ ↦ err bad_marker ]
transition s (challenge_issued c) = throw_if (contains c.nonce_hash s.challenges) repeats_nonce
transition s (activation_created nonce a lease) =
    throw_if
      (not (elim (open_challenge s nonce) [ none ↦ false | some c ↦ is_first_activation c a ])
        || contains a.id s.activations)
      bad_first_activation
transition s (lease_renewed nonce a lease) =
    throw_if
      (not (
        with_prior (λ c prior. is_renewal c prior a) (open_challenge s nonce)
          (lookup a.id s.activations)))
      bad_renewal
transition s (activation_rebound nonce a lease) =
    throw_if
      (not (
        with_prior (λ c prior. is_rebinding c prior a) (open_challenge s nonce)
          (lookup a.id s.activations)))
      bad_rebind
transition s (activation_deactivated hash actor reason a) = elim (lookup a.id s.activations) [
  | none ↦ err bad_deactivation
  | some prior ↦ do
    throw_if (not (is_deactivation prior a)) bad_deactivation
    deactivates s hash actor a prior
]
transition s (seat_override_set id max reason) = ok tt
transition s (license_revocation_observed id reason) = ok tt

module _ (env : Env) where
  unfoldable pub line_hash : LedgerLine → String
  line_hash line = env.sha256 (env.stringify_line line)

  -- A signed lease verifies, and its token carries the payload beside it.
  abbrev pub check_lease : Dict String → SignedLicenseLease → Result (Unit {0})
  check_lease keys lease = elim (verify_license_lease env keys lease.token) [
    | rejected why ↦ err lease_invalid
    | genuine p ↦
        throw_if (not (same_bytes (env.stringify_payload p) (env.stringify_payload lease.payload)))
          lease_invalid
  ]

  unfoldable pub lease_of_event : Dict String → EventBody → Result (Unit {0})
  unfolding verify_license_lease
  lease_of_event keys body = elim body [
    | activation_created nonce a lease ↦ check_lease keys lease
    | lease_renewed nonce a lease ↦ check_lease keys lease
    | activation_rebound nonce a lease ↦ check_lease keys lease
    | _ ↦ ok tt
  ]

  -- One turn of the loop of `replay`.
  unfoldable pub replay_line : Dict String → ReplayState → LedgerLine → Result ReplayState
  unfolding exact_b64u validate_audit_event has_text lease_of_event transition update line_hash
      codes
  replay_line keys s line = do
    throw_if (not (same_option line.previous_hash s.last_hash)) chain_broken
    key ← elim (lookup line.kid keys) [ none ↦ err unknown_key | some key ↦ ok key ]
    throw_if (not (exact_b64u env line.sig signature_bytes)) signature_malformed
    public_key_object env key
    throw_if
        (not (
          env.ed_verify key (env.stringify_unsigned line.kid line.previous_hash line.event)
            (env.from_base64url line.sig)))
        signature_invalid
    validate_audit_event env line.event
    throw_if (has_text line.event.event_id s.event_ids) repeats_event_id
    lease_of_event keys line.event.body
    transition s line.event.body
    ok (record (update (noted s line.event) line.event.body) { last_hash = some (line_hash line) })

  unfoldable pub replay_lines : Dict String → ReplayState → List LedgerLine → Result ReplayState
  unfolding replay_line
  replay_lines keys s [] = ok s
  replay_lines keys s (line ∷ lines) = replay_line keys s line >>= λ t. replay_lines keys t lines

  -- The checkpoint names the number of events and the hash of the last line; its own signature has
  -- been verified.
  unfoldable pub replay : Dict String → List LedgerLine → Option LedgerHead → Result ReplayState
  unfolding replay_lines
  replay keys lines head = do
    s ← replay_lines keys empty_replay lines
    elim head [
      | none ↦ throw_if (not (length s.events == 0)) head_missing
      | some h ↦
          throw_if
            (not (length s.events == h.event_count && same_option s.last_hash (some h.last_hash)))
            head_mismatch
    ]
    ok s
