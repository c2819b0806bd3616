-- ===== src/RateLimit/Backoff.antt =====
-- `AdminBackoffLimiter` of src/ratelimit.ts, and the gate in front of the admin API that uses it
-- (`adminApi` in src/server.ts). `boundedKey` reads the clock itself: that reading is `clock`.
pub mod Escalation
pub mod Gate
mod Tests
use wickhunter_hub.Prelude.{
  ℕ, ◌+◌, ◌-◌, ◌*◌, ◌/◌, max, min, String, Bool, true, false, not, ◌&&◌, ◌||◌, Option, none, some,
  List, [], Dict, lookup, insert, erase, contains, filter, or_else, leb, ltb, if◌then◌else◌,
}
use wickhunter_hub.RateLimit.Window.{
  RateDecision, allowed, ceil_seconds, default_max_keys, has_room, overflow,
}

pub record AdminBackoffRow : Type 0 where
  pub failures : ℕ
  pub blocked_until : ℕ
  pub lockout_ms : ℕ

pub record AdminBackoffLimiter : Type 0 where
  pub rows : Dict AdminBackoffRow
  pub failure_threshold : ℕ
  pub base_ms : ℕ
  pub max_ms : ℕ
  pub max_keys : ℕ

-- The constructor's checks.
unfoldable pub new_backoff : ℕ → ℕ → ℕ → Option ℕ → Option AdminBackoffLimiter
new_backoff failure_threshold base_ms max_ms max_keys =
    if leb 1 failure_threshold && leb 1 base_ms && leb base_ms max_ms
    then some (record {
      rows = [];
      failure_threshold = failure_threshold;
      base_ms = base_ms;
      max_ms = max_ms;
      max_keys = max 1 (or_else max_keys default_max_keys);
    })
    else none

unfoldable pub check : AdminBackoffLimiter → String → ℕ → RateDecision
check l key now = elim (lookup key l.rows) [
  | none ↦ allowed
  | some row ↦ if leb row.blocked_until now then allowed else record {
    ok = false;
    retry_after_seconds = max 1 (ceil_seconds (row.blocked_until - now));
  }
]

-- A row that is still failing, or still inside its lockout, is kept.
abbrev pub still_tracked : ℕ → ℕ → AdminBackoffRow → Bool
still_tracked threshold clock r = not (ltb r.failures threshold && leb r.blocked_until clock)

unfoldable pub bounded_key : AdminBackoffLimiter → String → ℕ → String × Dict AdminBackoffRow
unfolding has_room
bounded_key l raw_key clock =
    let purged = filter (λ e. still_tracked l.failure_threshold clock e.1) l.rows in
    if contains raw_key l.rows || has_room l.max_keys l.rows
    then (raw_key, l.rows)
    else (if contains raw_key purged || has_room l.max_keys purged
        then (raw_key, purged)
        else (overflow, purged))

abbrev pub clean_row : AdminBackoffRow
clean_row = record { failures = 0; blocked_until = 0; lockout_ms = 0 }

-- One more failure of a row.
unfoldable pub fail : AdminBackoffLimiter → AdminBackoffRow → ℕ → AdminBackoffRow
fail l row now =
    let failures = row.failures + 1 in
    let lockout = if ltb 0 row.lockout_ms then min l.max_ms (row.lockout_ms * 2) else l.base_ms in
    if leb l.failure_threshold failures
    then record { failures = failures; blocked_until = now + lockout; lockout_ms = lockout }
    else record row { failures = failures }

unfoldable pub record_failure : AdminBackoffLimiter → String → ℕ → ℕ → AdminBackoffLimiter
unfolding bounded_key fail
record_failure l raw_key now clock =
    let b = bounded_key l raw_key clock in
    record l { rows = insert b.0 (fail l (or_else (lookup b.0 b.1) clean_row) now) b.1 }

unfoldable pub record_success : AdminBackoffLimiter → String → AdminBackoffLimiter
record_success l raw_key = record l { rows = erase raw_key l.rows }
