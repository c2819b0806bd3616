-- ===== src/Hosting/Tests.antt =====
-- Concrete deadlines (hosting/deadlines.ts): tests, and instances of the theorems.
use wickhunter_hub.Prelude.{◌+◌, ◌*◌, ◌≡◌, refl, none, some, [], ◌∷◌, arith}
use wickhunter_hub.Prelude.Int.{pos, negsuc, ◌+ℤ◌, ◌≤ℤ◌}
use wickhunter_hub.Hosting.Deadlines.{
  HostingDeadlines, DeadlinePolicyHours, renewal_unpaid, intentional_cancellation, deadlines,
  deadlines_held, later, hour, deadlines_paused, deadlines_ordered,
}

abbrev policy : DeadlinePolicyHours
policy = record {
  renewal_grace_hours = 72;
  retention_hours = 168;
  reminder_hours_before_delete = 72 ∷ 24 ∷ [];
}

deadlines-negative : deadlines (pos 0) renewal_unpaid policy (negsuc 0) ≡ none
unfolding deadlines
deadlines-negative = refl

deadlines_paused_example :
    deadlines (pos 1000) renewal_unpaid policy (pos (5 + 7))
    ≡ some (later 7 (deadlines_held (pos 1000) renewal_unpaid policy 5))
deadlines_paused_example = deadlines_paused (pos 1000) renewal_unpaid policy 5 7

abbrev cancelled : HostingDeadlines
cancelled = deadlines_held (pos 1000) intentional_cancellation policy 0

cancelled-deadlines : deadlines (pos 1000) intentional_cancellation policy (pos 0) ≡ some cancelled
unfolding deadlines
cancelled-deadlines = refl

deadlines_ordered_example :
    (pos 1000 ≤ℤ cancelled.suspend_at)
    × (cancelled.suspend_at ≤ℤ cancelled.three_days_at)
    × (cancelled.three_days_at ≤ℤ cancelled.one_day_at)
    × (cancelled.one_day_at ≤ℤ cancelled.delete_at)
deadlines_ordered_example =
    deadlines_ordered (pos 1000) intentional_cancellation policy 0 cancelled cancelled-deadlines
      (omega arith) (omega arith)

-- By evaluation: a cancelled machine goes off at the end of what was paid, and is deleted a week later.
cancelled-delete : cancelled.delete_at ≡ pos (1000 + 168 * hour)
unfolding ◌+ℤ◌
cancelled-delete = refl
