-- ===== src/Leases/Service/State.antt =====
-- What the operations read of a replayed state, and the clock (license-leases.ts).
use wickhunter_hub.Prelude.{
  ℕ, zero, suc, ◌+◌, ◌-◌, ◌*◌, ◌/◌, max, String, Bool, true, false, not, ◌&&◌, Option, none, some,
  List, [], ◌∷◌, Dict, lookup, leb, ltb, str_eq, if◌then◌else◌, or_else, length, filter, get_elem?,
}
use wickhunter_hub.Leases.Types.{
  LeasePurpose, to_activate, to_renew, to_deactivate, to_rebind, LeaseActivation, ChallengeFacts,
  ReplayState, LicenseLeaseConfig, clock_jumped, clock_backwards, activation_id_missing,
  activation_not_found, activation_is_deactivated, Result, ok, err, ◌>>◌, throw_if,
}
use wickhunter_hub.Leases.Checks.{finite_int, max_safe_integer}
use wickhunter_hub.Leases.Replay.{is_active}

abbrev pub hour_ms : ℕ
hour_ms = 60 * 60000

abbrev pub max_outstanding_challenges : ℕ
max_outstanding_challenges = 8

abbrev pub max_challenges_per_license_per_hour : ℕ
max_challenges_per_license_per_hour = 120

-- The readings of the two clocks when the service started.
pub record ClockAnchors : Type 0 where
  pub wall_clock_ms : ℕ
  pub monotonic_ms : ℕ

unfoldable pub raw_now : ClockAnchors → ℕ → ℕ → ℕ → Result ℕ
unfolding finite_int
raw_now anchors max_skew raw monotonic = do
  finite_int raw 0 max_safe_integer
  throw_if (ltb monotonic anchors.monotonic_ms) clock_backwards
  throw_if (ltb (anchors.wall_clock_ms + (monotonic - anchors.monotonic_ms) + max_skew) raw)
      clock_jumped
  ok raw

unfoldable pub server_now : ReplayState → ℕ → ℕ
server_now s raw = max raw s.max_server_time_ms

abbrev pub purpose_eq : LeasePurpose → LeasePurpose → Bool
purpose_eq to_activate to_activate = true
purpose_eq to_renew to_renew = true
purpose_eq to_deactivate to_deactivate = true
purpose_eq to_rebind to_rebind = true
purpose_eq _ _ = false

-- The binary search of `lowerBoundChallenge` between `lo` and `hi`; `fuel` is at least `hi - lo`.
unfoldable pub search_challenge : (ChallengeFacts → ℕ) → List ChallengeFacts → ℕ → ℕ → ℕ → ℕ → ℕ
search_challenge select rows value zero lo hi = lo
search_challenge select rows value (suc fuel) lo hi =
    let mid = lo + (hi - lo) / 2 in
    let right = search_challenge select rows value fuel (mid + 1) hi in
    let left = search_challenge select rows value fuel lo mid in
    if ltb lo hi
    then (elim (get_elem? rows mid) [
      | none ↦ lo
      | some row ↦ if leb (select row) value then right else left
    ])
    else lo

unfoldable pub lower_bound_challenge : List ChallengeFacts → ℕ → (ChallengeFacts → ℕ) → ℕ
unfolding search_challenge
lower_bound_challenge rows value select =
    search_challenge select rows value (length rows) 0 (length rows)

abbrev pub values {ℓ} : {V : Type ℓ} → Dict V → List V
values [] = []
values ((k, v) ∷ d) = v ∷ values d

-- The active activations of a licence.
abbrev pub active_on : String → LeaseActivation → Bool
active_on license_id a = str_eq a.license_id license_id && is_active a

abbrev pub active_of : ReplayState → String → List LeaseActivation
active_of s license_id = filter (active_on license_id) (values s.activations)

abbrev pub find_first {ℓ} : {A : Type ℓ} → (A → Bool) → List A → Option A
find_first p [] = none
find_first p (x ∷ xs) = if p x then some x else find_first p xs

unfoldable pub activation_for : ReplayState → String → Option String → Result LeaseActivation
activation_for s license_id none = err activation_id_missing
activation_for s license_id (some id) = elim (lookup id s.activations) [
  | none ↦ err activation_not_found
  | some a ↦ do
    throw_if (not (str_eq a.license_id license_id)) activation_not_found
    throw_if (not (is_active a)) activation_is_deactivated
    ok a
]

abbrev pub max_machines : LicenseLeaseConfig → ReplayState → String → ℕ
max_machines config s license_id =
    or_else (lookup license_id s.seat_overrides) config.default_max_machines
