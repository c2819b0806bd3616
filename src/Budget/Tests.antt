-- ===== src/Budget/Tests.antt =====
-- Concrete budgets (marketcap/budget.ts): tests, and instances of the theorems.
use wickhunter_hub.Prelude.{
  ℕ, ◌≤◌, ◌<◌, ◌≡◌, refl, String, true, false, List, [], ◌∷◌, ltb, if◌then◌else◌, arith,
}
use wickhunter_hub.Budget.{
  derivative_pair_map, quotes, CreditLedger, empty_ledger, rolled, plan_refresh, Meter, spend,
  per_minute, credits_for_quote_call, estimate_monthly_credits, agreed_schedule, next_call_delay,
  sort, insert_time,
}
use wickhunter_hub.Budget.Ledger.{IsBalanced, Call, charge_all, plan_refresh-charge_all}
use wickhunter_hub.Budget.Pace.{Asked, spend_rate, calls_in_minute}

abbrev months : ℕ → String
months t = if ltb t 1000000 then "2026-01" else "2026-02"

abbrev used_up : CreditLedger
used_up = record (empty_ledger months 5) { used = 14990; by_kind = ("quotes", 14990) ∷ [] }

used_up-IsBalanced : IsBalanced used_up
used_up-IsBalanced = record { balanced = refl }

abbrev calls : List Call
calls =
    record { kind = quotes; credits = 7; at = 20 }
    ∷ record { kind = derivative_pair_map; credits = 1; at = 30 }
    ∷ []

plan_refresh-charge_all_example : (rolled months (charge_all months used_up calls) 10).used ≤ 15000
unfolding plan_refresh
plan_refresh-charge_all_example =
    plan_refresh-charge_all months used_up 8 15000 10 calls refl (refl, (refl, tt)) (omega arith)

-- Eleven credits do not fit any more; in the next month they do.
plan_refresh-full : (plan_refresh months used_up 11 15000 10).allowed ≡ false
unfolding plan_refresh
plan_refresh-full = refl

plan_refresh-next_month : (plan_refresh months used_up 11 15000 1000000).allowed ≡ true
unfolding plan_refresh
plan_refresh-next_month = refl

-- 700 assets are 7 credits, and the agreed schedule costs 6990 credits a month.
credits-700 : credits_for_quote_call 700 1 ≡ 7
unfolding credits_for_quote_call
credits-700 = refl

estimate-agreed : (estimate_monthly_credits agreed_schedule).total ≡ 6990
unfolding estimate_monthly_credits
estimate-agreed = refl

abbrev meter : Meter
meter = record { call_times = 1000 ∷ 2000 ∷ []; ledger = empty_ledger months 0 }

delay-full : next_call_delay (2000 ∷ 1000 ∷ []) 2 3000 ≡ 58000
unfolding next_call_delay sort insert_time
delay-full = refl

delay-spaced : next_call_delay (2000 ∷ 1000 ∷ []) 50 2500 ≡ 700
unfolding next_call_delay sort insert_time
delay-spaced = refl

spend_rate_example :
    let r = spend months 2 meter quotes 7 3000 5 in
    (calls_in_minute meter r.0 < per_minute 2) × (calls_in_minute r.1 r.0 ≤ per_minute 2)
spend_rate_example = spend_rate months 2 meter quotes 7 3000 5 (omega arith)

abbrev asked : List Asked
asked =
    record { kind = quotes; credits = 7; pause = 10; late = 0 }
    ∷ record { kind = quotes; credits = 7; pause = 0; late = 3 }
    ∷ record { kind = derivative_pair_map; credits = 1; pause = 5; late = 1 }
    ∷ []
