-- ===== src/Budget/Ledger.antt =====
-- The monthly credits (`planRefresh`, `charge`, `noteRefusal` and `rolled`, marketcap/budget.ts).
use wickhunter_hub.Prelude.{
  ℕ, ◌+◌, ◌≤◌, ◌≡◌, refl, ap, ◌∙◌, String, true, List, [], ◌∷◌, Dict, lookup, insert, str_eq,
  eq_iff, eq_refl, or_else, All, Bool-cases, inl, inr, arith,
}
use wickhunter_hub.Budget.{
  CreditLedger, CallKind, kind_name, rolled, plan_refresh, charge, note_refusal, Refusal,
}

abbrev pub total : Dict ℕ → ℕ
total [] = 0
total ((k, n) ∷ d) = n + total d

total-insert :
    (k : String) (n : ℕ) (d : Dict ℕ)
    → total (insert k (or_else (lookup k d) 0 + n) d) ≡ total d + n
total-insert k n [] = omega arith
total-insert k n ((j, m) ∷ d) = ground (arith, total-insert k n d)

-- The total is the sum of the kinds' totals.
pub record IsBalanced (l : CreditLedger) : Type 0 where
  pub balanced : total l.by_kind ≡ l.used

-- One provider call as the ledger sees it.
pub record Call : Type 0 where
  pub kind : CallKind
  pub credits : ℕ
  pub at : ℕ

abbrev pub cost : List Call → ℕ
cost [] = 0
cost (c ∷ cs) = c.credits + cost cs

module _ (month_key : ℕ → String) where
  rolled-IsBalanced :
      (l : CreditLedger) (now : ℕ) → IsBalanced l → IsBalanced (rolled month_key l now)
  unfolding rolled
  rolled-IsBalanced l now b = elim (Bool-cases (str_eq l.month (month_key now))) [
    | inl e ↦ rw e b
    | inr e ↦ rw e (record { balanced = refl })
  ]

  -- A charge and a refusal keep the total equal to the sum over the kinds of call, in the month that
  -- is running and in the first step of a new one.
  pub charge-IsBalanced :
      (l : CreditLedger) (kind : CallKind) (credits now : ℕ) (reason : Refusal)
      → IsBalanced l
      → IsBalanced (charge month_key l kind credits now)
        × IsBalanced (note_refusal month_key l reason now)
  unfolding charge note_refusal
  charge-IsBalanced l kind credits now reason b =
      let r = rolled-IsBalanced l now b in
      (
        record {
          balanced =
              total-insert (kind_name kind) credits (rolled month_key l now).by_kind
              ∙ ap (λ n. n + credits) r.balanced;
        },
        record { balanced = r.balanced },
      )

  unfoldable pub charge_all : CreditLedger → List Call → CreditLedger
  charge_all l [] = l
  charge_all l (c ∷ cs) = charge_all (charge month_key l c.kind c.credits c.at) cs

  rolled_twice :
      (l : CreditLedger) (now at : ℕ)
      → month_key at ≡ month_key now
      → (rolled month_key l at).used ≡ (rolled month_key l now).used
  unfolding rolled
  rolled_twice l now at e = rw e (ground arith)

  rolled_month : (l : CreditLedger) (now : ℕ) → (rolled month_key l now).month ≡ month_key now
  unfolding rolled
  rolled_month l now = ground (arith, eq_iff l.month (month_key now))

  charge_used :
      (l : CreditLedger) (kind : CallKind) (credits now at : ℕ)
      → month_key at ≡ month_key now
      → (rolled month_key (charge month_key l kind credits at) now).used
        ≡ (rolled month_key l now).used + credits
  unfolding charge rolled
  charge_used l kind credits now at e =
      rw e (ground (arith, eq_iff l.month (month_key now), eq_refl (month_key now)))

  charge_all_used :
      (l : CreditLedger) (now : ℕ) (calls : List Call)
      → All (λ c. month_key c.at ≡ month_key now) calls
      → (rolled month_key (charge_all l calls) now).used
        ≡ (rolled month_key l now).used + cost calls
  unfolding charge_all
  charge_all_used l now [] h = omega arith
  charge_all_used l now (c ∷ cs) h = omega (
    arith,
    charge_all_used (charge month_key l c.kind c.credits c.at) now cs h.1,
    charge_used l c.kind c.credits now c.at h.0,
  )

  -- A refresh that was allowed and whose calls, all in that month, cost no more than was planned
  -- leaves the month's total within the ceiling.
  pub plan_refresh-charge_all :
      (l : CreditLedger) (planned ceiling now : ℕ) (calls : List Call)
      → (plan_refresh month_key l planned ceiling now).allowed ≡ true
      → All (λ c. month_key c.at ≡ month_key now) calls
      → cost calls ≤ planned
      → (rolled month_key (charge_all l calls) now).used ≤ ceiling
  unfolding plan_refresh
  plan_refresh-charge_all l planned ceiling now calls allowed same within =
      let used = charge_all_used l now calls same in ground (arith, used, allowed)
