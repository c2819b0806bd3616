-- ===== src/Leases/Service/Admin.antt =====
-- The operations of an administrator, and `appendEvent` (license-leases.ts).
use wickhunter_hub.Prelude.{
  ℕ, ◌+◌, String, not, Option, none, some, leb, ltb, ◌==◌, or_else, length,
}
use wickhunter_hub.License.Types.{LicenseFiles}
use wickhunter_hub.License.Store.{is_known}
use wickhunter_hub.Leases.Types.{
  admin, activation_deactivated, seat_override_set, license_revocation_observed, LeaseAuditEvent,
  LedgerLine, LedgerHead, ReplayState, LicenseLeaseConfig, Env, changed_concurrently,
  event_too_large, license_unknown, limit_below_active, audit_revision, activation_revision_changed,
  repeats_event_id, Result, ok, ◌>>=◌, ◌>>◌, throw_if,
}
use wickhunter_hub.Leases.Checks.{bounded_text, finite_int, has_text, validate_audit_event}
use wickhunter_hub.Leases.Replay.{same_option, line_hash, cache_appended_event}
use wickhunter_hub.Leases.Service.State.{server_now, active_of, activation_for}
use wickhunter_hub.Leases.Service.Issue.{event_at, ended}

module _ (env : Env) (config : LicenseLeaseConfig) where
  unfoldable pub set_seat_override :
      LicenseFiles
      → ReplayState
      → ℕ
      → String
      → Option ℕ
      → String
      → ℕ
      → String
      → Result LeaseAuditEvent
  unfolding bounded_text is_known finite_int server_now
  set_seat_override files s raw license_id machines reason expected_revision event_id = do
    id ← bounded_text license_id 128
    throw_if (not (is_known files id)) license_unknown
    elim machines [ none ↦ ok tt | some n ↦ finite_int n 1 64 ]
    why ← bounded_text reason 500
    throw_if (not (expected_revision == length s.events)) audit_revision
    throw_if (ltb (or_else machines config.default_max_machines) (length (active_of s id)))
        limit_below_active
    ok (event_at env config event_id (server_now s raw) (seat_override_set id machines why))

  unfoldable pub admin_deactivate :
      ReplayState → ℕ → String → String → ℕ → String → String → Result LeaseAuditEvent
  unfolding bounded_text activation_for server_now
  admin_deactivate s raw license_id activation_id expected_revision reason event_id = do
    id ← bounded_text license_id 128
    current ← activation_for s id (some activation_id)
    throw_if (not (current.revision == expected_revision)) activation_revision_changed
    let now = server_now s raw
    why ← bounded_text reason 500
    ok (
        event_at env config event_id now
          (activation_deactivated none admin why (ended env config current now why)))

  unfoldable pub observe_revocation :
      ReplayState → ℕ → String → String → String → Result LeaseAuditEvent
  unfolding bounded_text server_now
  observe_revocation s raw license_id reason event_id = do
    id ← bounded_text license_id 128
    why ← bounded_text reason 500
    ok (event_at env config event_id (server_now s raw) (license_revocation_observed id why))

  -- `s` is the state of the replay under the lock, `expected` the hash that the operation started from.
  unfoldable pub append_event :
      ReplayState → LeaseAuditEvent → Option String → Result (LedgerLine × LedgerHead × ReplayState)
  unfolding validate_audit_event has_text line_hash cache_appended_event
  append_event s e expected = do
    throw_if (not (same_option s.last_hash expected)) changed_concurrently
    validate_audit_event env e
    throw_if (has_text e.event_id s.event_ids) repeats_event_id
    let bytes = env.stringify_unsigned config.active_key_id s.last_hash e
    let line : LedgerLine = record {
      kid = config.active_key_id;
      previous_hash = s.last_hash;
      event = e;
      sig = env.to_base64url (env.ed_sign bytes);
    }
    throw_if (leb config.ledger_max_bytes (length (env.stringify_line line) + 1)) event_too_large
    let hash = line_hash env line
    ok (
      line,
      record { event_count = length s.events + 1; last_hash = hash; updated_at_ms = e.at_ms },
      cache_appended_event s e hash,
    )
