-- ===== src/RateLimit/Backoff/Tests.antt =====
-- Wrong tokens from one address, and from one that finds no row (ratelimit.ts, server.ts).
use wickhunter_hub.Prelude.{ℕ, ◌≡◌, refl, true, false, none, List, [], ◌∷◌, lookup, arith}
use wickhunter_hub.RateLimit.Window.{allowed, has_room}
use wickhunter_hub.RateLimit.Backoff.{
  AdminBackoffLimiter, AdminBackoffRow, check, bounded_key, record_failure, record_success,
}
use wickhunter_hub.RateLimit.Backoff.Escalation.{
  IsBackoff, failures, failures-check, record_success_lem, overflow_unblocked,
}
use wickhunter_hub.RateLimit.Backoff.Gate.{admin_gate, gate_blocked}

-- The default policy: five failures, one minute, one hour; one address besides the overflow row.
abbrev policy : AdminBackoffLimiter
policy = record {
  rows = [];
  failure_threshold = 5;
  base_ms = 60000;
  max_ms = 3600000;
  max_keys = 2;
}

policy-IsBackoff : IsBackoff policy
policy-IsBackoff = omega arith

abbrev guesses : List (ℕ × ℕ)
guesses = (1, 1) ∷ (2, 2) ∷ (3, 3) ∷ (4, 4) ∷ (5, 5) ∷ []

-- The sixth failure in a row, at 5 ms, blocks for two minutes.
failures-check_example :
    (check (failures policy "1.2.3.4" ((0, 0) ∷ guesses)) "1.2.3.4" 120004).ok ≡ false
unfolding has_room
failures-check_example =
    failures-check policy "1.2.3.4" 0 0 120004 guesses policy-IsBackoff refl refl

failures-open : (check (failures policy "1.2.3.4" ((0, 0) ∷ guesses)) "1.2.3.4" 120005).ok ≡ true
unfolding failures record_failure check
failures-open = refl

abbrev locked : AdminBackoffRow
locked = record { failures = 5; blocked_until = 60000; lockout_ms = 60000 }

abbrev full : AdminBackoffLimiter
full = record policy { rows = ("1.2.3.4", locked) ∷ [] }

record_success_lem_example :
    (lookup "1.2.3.4" (record_success full "1.2.3.4").rows ≡ none)
    × (check (record_success full "1.2.3.4") "1.2.3.4" 7 ≡ allowed)
record_success_lem_example = record_success_lem full "1.2.3.4" 7 (tt, tt)

overflow_unblocked_example : check (record_failure full "6.6.6.6" 10 10) "6.6.6.6" 11 ≡ allowed
unfolding bounded_key
overflow_unblocked_example = overflow_unblocked full "6.6.6.6" 10 10 11 refl refl

gate_blocked_example :
    (admin_gate full true true true "1.2.3.4" 10 10
      ≡ admin_gate full true true false "1.2.3.4" 10 10)
    × ((admin_gate full true true true "1.2.3.4" 10 10).1 ≡ full)
unfolding check
gate_blocked_example = gate_blocked full true true true "1.2.3.4" 10 10 refl
