-- ===== src/RateLimit/Backoff/Gate.antt =====
-- The gate in front of every admin route: the head of `adminApi` in src/server.ts, up to the point
-- where it looks at the method and the path. Whether the address is on the allowlist and whether
-- the presented token is the right one are arguments, computed by `ipMatchesAllowlist` and
-- `adminAuthorized`; `clock` is the clock that the limiter reads itself.
use wickhunter_hub.Prelude.{ℕ, ◌≡◌, String, Bool, true, false, not, if◌then◌else◌, arith}
use wickhunter_hub.RateLimit.Window.{RateDecision}
use wickhunter_hub.RateLimit.Backoff.{AdminBackoffLimiter, check, record_failure, record_success}

-- The answers 503, 403, 429 and 401, and the request that goes on to its route.
pub data GateAnswer : Type 0 where
  admin_disabled forbidden unauthorized passed : GateAnswer
  rate_limited : RateDecision → GateAnswer

unfoldable pub admin_gate :
    AdminBackoffLimiter → Bool → Bool → Bool → String → ℕ → ℕ → GateAnswer × AdminBackoffLimiter
admin_gate l token_set on_allowlist authorized ip now clock =
    if not token_set
    then (admin_disabled, l)
    else (if not on_allowlist
        then (forbidden, l)
        else (if not (check l ip now).ok
            then (rate_limited (check l ip now), l)
            else (if not authorized
                then (unauthorized, record_failure l ip now clock)
                else (passed, record_success l ip))))

-- While an address is locked out the answer and the limiter's state are the same for the right
-- token and for a wrong one, so a guess made during a lockout learns nothing and costs nothing.
pub gate_blocked :
    (l : AdminBackoffLimiter) (token_set on_allowlist authorized : Bool) (ip : String)
    (now clock : ℕ)
    → (check l ip now).ok ≡ false
    → (admin_gate l token_set on_allowlist authorized ip now clock
        ≡ admin_gate l token_set on_allowlist (not authorized) ip now clock)
      × ((admin_gate l token_set on_allowlist authorized ip now clock).1 ≡ l)
unfolding admin_gate
gate_blocked l token_set on_allowlist authorized ip now clock e = ground arith

abbrev pub is_passed : GateAnswer → Bool
is_passed passed = true
is_passed _ = false
