-- ===== src/RateLimit/Window.antt =====
-- `SlidingWindowLimiter` of src/ratelimit.ts: at most `max` events of a key in a rolling window.
-- The Map is a dictionary in insertion order; times are milliseconds. `stamp > at - window` is
-- written `at < stamp + window`, which holds for the same instants. Callers pass a finite `now`.
pub mod Rows
pub mod Spec
pub mod Runs
pub mod Bounds
pub mod Retry
mod Tests
use wickhunter_hub.Prelude.{
  ℕ, ◌+◌, ◌-◌, ◌/◌, ◌%◌, max as max_nat, String, Bool, true, false, not, ◌&&◌, ◌||◌, Option, none,
  some, List, [], ◌∷◌, ◌++◌, Dict, lookup, insert, erase, contains, length, filter, or_else, leb,
  ltb, ◌==◌, if◌then◌else◌,
}

pub record RateDecision : Type 0 where
  pub ok : Bool
  pub retry_after_seconds : ℕ

abbrev pub allowed : RateDecision
allowed = record { ok = true; retry_after_seconds = 0 }

abbrev pub default_max_keys : ℕ
default_max_keys = 20000

pub record SlidingWindowLimiter : Type 0 where
  pub rows : Dict (List ℕ)
  pub max : ℕ
  pub window_ms : ℕ
  pub max_keys : ℕ
  pub attempts : ℕ

-- The constructor's checks; whole numbers are their own floor.
unfoldable pub new_limiter : ℕ → ℕ → Option ℕ → Option SlidingWindowLimiter
new_limiter max window_ms max_keys =
    if leb 1 max && leb 1 window_ms
    then some (record {
      rows = [];
      max = max;
      window_ms = window_ms;
      max_keys = max_nat 1 (or_else max_keys default_max_keys);
      attempts = 0;
    })
    else none

abbrev pub overflow : String
overflow = "!overflow"

-- Inside the window that ends at `at`.
abbrev pub live : ℕ → ℕ → ℕ → Bool
live window at stamp = ltb at (stamp + window) && leb stamp at

abbrev pub recent : ℕ → ℕ → List ℕ → List ℕ
recent window at = filter (live window at)

abbrev pub is_empty {ℓ} : {A : Type ℓ} → List A → Bool
is_empty [] = true
is_empty (x ∷ xs) = false

unfoldable pub has_room {ℓ} : {V : Type ℓ} → ℕ → Dict V → Bool
has_room max_keys rows = ltb (length rows) (max_keys - (if contains overflow rows then 0 else 1))

-- Drops the rows that have no stamp in the window.
abbrev pub purge : ℕ → ℕ → Dict (List ℕ) → Dict (List ℕ)
purge window at = filter (λ e. not (is_empty (recent window at e.1)))

-- The bucket of a key, and the rows that remain.
unfoldable pub bounded_key : SlidingWindowLimiter → String → ℕ → String × Dict (List ℕ)
unfolding has_room
bounded_key l raw_key at =
    let purged = purge l.window_ms at l.rows in
    if contains raw_key l.rows || has_room l.max_keys l.rows
    then (raw_key, l.rows)
    else (if contains raw_key purged || has_room l.max_keys purged
        then (raw_key, purged)
        else (overflow, purged))

-- Every row cut to its stamps in the window, and dropped if none is left.
unfoldable pub prune : ℕ → ℕ → Dict (List ℕ) → Dict (List ℕ)
prune window at [] = []
prune window at ((k, stamps) ∷ rows) =
    if is_empty (recent window at stamps)
    then prune window at rows
    else (k, recent window at stamps) ∷ prune window at rows

abbrev pub ceil_seconds : ℕ → ℕ
ceil_seconds ms = (ms + 999) / 1000

abbrev pub oldest : List ℕ → ℕ → ℕ
oldest [] d = d
oldest (s ∷ ss) d = s

unfoldable pub inspect :
    SlidingWindowLimiter → String → ℕ → Bool → RateDecision × SlidingWindowLimiter
unfolding bounded_key
inspect l raw_key at consume =
    let b = bounded_key l raw_key at in
    let key = b.0 in
    let rows = b.1 in
    let active = recent l.window_ms at (or_else (lookup key rows) []) in
    let wait = ceil_seconds (oldest active at + l.window_ms - at) in
    let refused : RateDecision = record { ok = false; retry_after_seconds = max_nat 1 wait } in
    let taken = insert key (active ++ at ∷ []) rows in
    let attempts = l.attempts + 1 in
    if leb l.max (length active)
    then (refused, record l { rows = insert key active rows })
    else (if consume
        then (
          allowed,
          record l {
            rows = if (attempts % 256) == 0 then prune l.window_ms at taken else taken;
            attempts = attempts;
          },
        )
        else (
          allowed,
          record l { rows = if is_empty active then erase key rows else insert key active rows },
        ))

unfoldable pub take : SlidingWindowLimiter → String → ℕ → RateDecision × SlidingWindowLimiter
unfolding inspect
take l raw_key now = inspect l raw_key now true

unfoldable pub peek : SlidingWindowLimiter → String → ℕ → RateDecision × SlidingWindowLimiter
unfolding inspect
peek l raw_key now = inspect l raw_key now false
