-- ===== src/Hosting/Deadlines.antt =====
-- src/hosting/deadlines.ts: when a machine is powered off, deleted and warned about.
-- Instants are integers of milliseconds, so the tests for finite numbers hold; hours are whole.
use wickhunter_hub.Prelude.{ℕ, ◌+◌, ◌*◌, ◌≤◌, ◌≡◌, refl, Option, none, some, List, [], ◌∷◌, arith}
use wickhunter_hub.Prelude.Int.{ℤ, pos, negsuc, ◌+ℤ◌, ◌-ℤ◌, ◌≤ℤ◌, int_laws}

pub data HostingEndReason : Type 0 where
  renewal_unpaid intentional_cancellation : HostingEndReason

pub record HostingDeadlines : Type 0 where
  pub suspend_at : ℤ
  pub delete_at : ℤ
  pub three_days_at : ℤ
  pub one_day_at : ℤ

pub record DeadlinePolicyHours : Type 0 where
  pub renewal_grace_hours : ℕ
  pub retention_hours : ℕ
  pub reminder_hours_before_delete : List ℕ

abbrev pub hour : ℕ
hour = 60 * 60 * 1000

abbrev pub three_days_hours : List ℕ → ℕ
three_days_hours [] = 72
three_days_hours (a ∷ hours) = a

abbrev pub one_day_hours : List ℕ → ℕ
one_day_hours (a ∷ b ∷ hours) = b
one_day_hours _ = 24

abbrev pub grace : HostingEndReason → DeadlinePolicyHours → ℕ
grace renewal_unpaid policy = policy.renewal_grace_hours * hour
grace intentional_cancellation policy = 0

abbrev pub deadlines_held : ℤ → HostingEndReason → DeadlinePolicyHours → ℕ → HostingDeadlines
deadlines_held paid_through reason policy held =
    let suspend_at = paid_through +ℤ pos (grace reason policy) in
    let delete_at = suspend_at +ℤ pos (policy.retention_hours * hour) in
    let reminders = policy.reminder_hours_before_delete in
    record {
      suspend_at = suspend_at +ℤ pos held;
      delete_at = delete_at +ℤ pos held;
      three_days_at = delete_at -ℤ pos (three_days_hours reminders * hour) +ℤ pos held;
      one_day_at = delete_at -ℤ pos (one_day_hours reminders * hour) +ℤ pos held;
    }

-- `none` where the source throws, on a negative `heldForMs`.
unfoldable pub deadlines : ℤ → HostingEndReason → DeadlinePolicyHours → ℤ → Option HostingDeadlines
deadlines paid_through reason policy (pos held) =
    some (deadlines_held paid_through reason policy held)
deadlines paid_through reason policy (negsuc n) = none

-- All four instants `by` milliseconds later.
abbrev pub later : ℕ → HostingDeadlines → HostingDeadlines
later by d = record {
  suspend_at = d.suspend_at +ℤ pos by;
  delete_at = d.delete_at +ℤ pos by;
  three_days_at = d.three_days_at +ℤ pos by;
  one_day_at = d.one_day_at +ℤ pos by;
}

add_held : (a : ℤ) (held by : ℕ) → a +ℤ pos (held + by) ≡ a +ℤ pos held +ℤ pos by
unfolding ◌+ℤ◌
add_held a held by = ground arith

-- A hold pauses the countdown: holding for `by` milliseconds more moves all four instants by exactly
-- that, whatever the reason and the policy.
pub deadlines_paused :
    (paid_through : ℤ) (reason : HostingEndReason) (policy : DeadlinePolicyHours) (held by : ℕ)
    → deadlines paid_through reason policy (pos (held + by))
      ≡ some (later by (deadlines_held paid_through reason policy held))
unfolding deadlines
deadlines_paused paid_through reason policy held by =
    let suspend_at = paid_through +ℤ pos (grace reason policy) in
    let delete_at = suspend_at +ℤ pos (policy.retention_hours * hour) in
    let reminders = policy.reminder_hours_before_delete in
    rw
      (
        add_held suspend_at held by,
        add_held delete_at held by,
        add_held (delete_at -ℤ pos (three_days_hours reminders * hour)) held by,
        add_held (delete_at -ℤ pos (one_day_hours reminders * hour)) held by,
      )
      refl

-- The instants come in their order: power off no earlier than what was paid for, the three-day notice
-- no earlier than the power off, the final notice no earlier than that, and deletion last; given that
-- the notices are listed from the earlier to the later and fit in the retention.
pub deadlines_ordered :
    (paid_through : ℤ) (reason : HostingEndReason) (policy : DeadlinePolicyHours) (held : ℕ)
    (d : HostingDeadlines)
    → deadlines paid_through reason policy (pos held) ≡ some d
    → one_day_hours policy.reminder_hours_before_delete
      ≤ three_days_hours policy.reminder_hours_before_delete
    → three_days_hours policy.reminder_hours_before_delete ≤ policy.retention_hours
    → (paid_through ≤ℤ d.suspend_at)
      × (d.suspend_at ≤ℤ d.three_days_at)
      × (d.three_days_at ≤ℤ d.one_day_at)
      × (d.one_day_at ≤ℤ d.delete_at)
unfolding deadlines
deadlines_ordered paid_through reason policy held d e listed fits =
    let same : deadlines_held paid_through reason policy held ≡ d = cc in
    let suspend_at = paid_through +ℤ pos (grace reason policy) in
    let delete_at = suspend_at +ℤ pos (policy.retention_hours * hour) in
    let reminders = policy.reminder_hours_before_delete in
    rw (← same) (omega int_laws, omega int_laws, omega int_laws, omega int_laws)
