-- ===== src/Budget.antt =====
-- src/marketcap/budget.ts and the `spend` of src/marketcap/service.ts: the provider's monthly credits
-- and its requests a minute. A month is the text that `monthKey` makes of an instant: that reads the
-- UTC calendar, so it is a parameter.
pub mod Pace
pub mod Ledger
mod Tests
use wickhunter_hub.Prelude.{
  ℕ, ◌+◌, ◌-◌, ◌*◌, ◌/◌, max, String, Bool, true, false, Option, none, some, List, [], ◌∷◌, ◌++◌,
  Dict, lookup, insert, leb, ltb, ◌==◌, str_eq, if◌then◌else◌, length, filter, or_else,
}

pub data CallKind : Type 0 where
  derivative_exchange_list derivative_pair_map quotes coingecko : CallKind

abbrev pub kind_name : CallKind → String
kind_name derivative_exchange_list = "derivative-exchange-list"
kind_name derivative_pair_map = "derivative-pair-map"
kind_name quotes = "quotes"
kind_name coingecko = "coingecko"

abbrev pub quote_batch_size : ℕ
quote_batch_size = 100

unfoldable pub credits_for_quote_call : ℕ → ℕ → ℕ
credits_for_quote_call id_count converts =
    if id_count == 0
    then 0
    else ((id_count + quote_batch_size - 1) / quote_batch_size) * max 1 converts

unfoldable pub credits_for_call : CallKind → ℕ → ℕ
unfolding credits_for_quote_call
credits_for_call quotes id_count = credits_for_quote_call id_count 1
credits_for_call coingecko id_count = 0
credits_for_call derivative_exchange_list id_count = 1
credits_for_call derivative_pair_map id_count = 1

pub data Refusal : Type 0 where
  ceiling_is_zero : Refusal
  would_cross : (planned used ceiling remaining : ℕ) → Refusal

pub record CreditLedger : Type 0 where
  pub month : String
  pub used : ℕ
  pub by_kind : Dict ℕ
  pub updated_at : ℕ
  pub refusals : ℕ
  pub last_refusal : Option Refusal

pub record BudgetDecision : Type 0 where
  pub allowed : Bool
  pub would_be : ℕ
  pub remaining : ℕ
  pub reason : Option Refusal

module _ (month_key : ℕ → String) where
  abbrev pub empty_ledger : ℕ → CreditLedger
  empty_ledger now = record {
    month = month_key now;
    used = 0;
    by_kind = [];
    updated_at = now;
    refusals = 0;
    last_refusal = none;
  }

  unfoldable pub rolled : CreditLedger → ℕ → CreditLedger
  rolled l now = if str_eq l.month (month_key now) then l else empty_ledger now

  unfoldable pub plan_refresh : CreditLedger → ℕ → ℕ → ℕ → BudgetDecision
  unfolding rolled
  plan_refresh ledger planned ceiling now =
      let l = rolled ledger now in
      let would_be = l.used + planned in
      let remaining = ceiling - l.used in
      if ceiling == 0
      then record {
        allowed = false;
        would_be = would_be;
        remaining = 0;
        reason = some ceiling_is_zero;
      }
      else (if ltb ceiling would_be
          then record {
            allowed = false;
            would_be = would_be;
            remaining = remaining;
            reason = some (would_cross planned l.used ceiling remaining);
          }
          else record { allowed = true; would_be = would_be; remaining = remaining; reason = none })

  unfoldable pub charge : CreditLedger → CallKind → ℕ → ℕ → CreditLedger
  unfolding rolled
  charge ledger kind credits now =
      let l = rolled ledger now in
      let k = kind_name kind in
      record l {
        used = l.used + credits;
        by_kind = insert k (or_else (lookup k l.by_kind) 0 + credits) l.by_kind;
        updated_at = now;
      }

  unfoldable pub note_refusal : CreditLedger → Refusal → ℕ → CreditLedger
  unfolding rolled
  note_refusal ledger reason now =
      let l = rolled ledger now in
      record l { refusals = l.refusals + 1; last_refusal = some reason; updated_at = now }

abbrev pub minute : ℕ
minute = 60000

-- `now - t < 60_000`
abbrev pub in_minute : ℕ → ℕ → Bool
in_minute now t = ltb now (t + minute)

unfoldable pub insert_time : ℕ → List ℕ → List ℕ
insert_time t [] = t ∷ []
insert_time t (x ∷ xs) = if leb t x then t ∷ x ∷ xs else x ∷ insert_time t xs

unfoldable pub sort : List ℕ → List ℕ
unfolding insert_time
sort [] = []
sort (t ∷ ts) = insert_time t (sort ts)

abbrev pub last_or : ℕ → List ℕ → ℕ
last_or d [] = d
last_or d (x ∷ xs) = last_or x xs

-- `requestsPerMinute` as the whole number that `Math.floor` makes of it.
abbrev pub per_minute : ℕ → ℕ
per_minute requests = max 1 requests

abbrev pub spacing : ℕ → ℕ
spacing requests = (minute + per_minute requests - 1) / per_minute requests

-- From the sorted window. Subtraction on ℕ is the `Math.max(0, ...)`.
abbrev pub window_delay : List ℕ → ℕ → ℕ → ℕ
window_delay [] requests now = 0
window_delay (t ∷ ts) requests now =
    if ltb (length (t ∷ ts)) (per_minute requests)
    then last_or t ts + spacing requests - now
    else t + minute - now

unfoldable pub next_call_delay : List ℕ → ℕ → ℕ → ℕ
unfolding sort
next_call_delay recent requests now =
    window_delay (sort (filter (in_minute now) recent)) requests now

pub record Meter : Type 0 where
  pub call_times : List ℕ
  pub ledger : CreditLedger

-- The `spend` hook: wait, note the call's time and charge the ledger. `late` is how much later than
-- asked the clock reads after the sleep.
unfoldable pub spend : (ℕ → String) → ℕ → Meter → CallKind → ℕ → ℕ → ℕ → ℕ × Meter
unfolding charge next_call_delay
spend month_key requests m kind credits now late =
    let at = now + next_call_delay m.call_times requests now + late in
    (
      at,
      record {
        call_times = filter (in_minute at) m.call_times ++ at ∷ [];
        ledger = charge month_key m.ledger kind credits at;
      },
    )

pub record SchedulePlan : Type 0 where
  pub exchanges : ℕ
  pub pair_pages_per_exchange : ℕ
  pub unique_assets : ℕ
  pub targeted_remaps_per_month : ℕ
  pub mapping_refreshes_per_month : ℕ
  pub cap_refreshes_per_month : ℕ

abbrev pub agreed_schedule : SchedulePlan
agreed_schedule = record {
  exchanges = 4;
  pair_pages_per_exchange = 6;
  unique_assets = 700;
  targeted_remaps_per_month = 200;
  mapping_refreshes_per_month = 30;
  cap_refreshes_per_month = 24 * 30;
}

pub record CreditEstimate : Type 0 where
  pub mapping : ℕ
  pub targeted : ℕ
  pub caps : ℕ
  pub total : ℕ

unfoldable pub estimate_monthly_credits : SchedulePlan → CreditEstimate
unfolding credits_for_quote_call
estimate_monthly_credits plan =
    let per_mapping = plan.exchanges * plan.pair_pages_per_exchange + 1 in
    let mapping = per_mapping * plan.mapping_refreshes_per_month in
    let targeted = plan.targeted_remaps_per_month * plan.pair_pages_per_exchange in
    let caps = credits_for_quote_call plan.unique_assets 1 * plan.cap_refreshes_per_month in
    record {
      mapping = mapping;
      targeted = targeted;
      caps = caps;
      total = mapping + targeted + caps;
    }
