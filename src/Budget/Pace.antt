-- ===== src/Budget/Pace.antt =====
-- The requests a minute (`nextCallDelayMs`, marketcap/budget.ts, and `spend`, marketcap/service.ts).
use wickhunter_hub.Prelude.{
  ℕ, ◌+◌, ◌≤◌, ◌<◌, ◌≡◌, refl, ap, ◌∙◌, String, Bool, List, [], ◌∷◌, ◌++◌, ltb, ltb→lt, length,
  filter, length-append, length-filter-le, filter-append, Bool-cases, inl, inr, arith, subst,
}
use wickhunter_hub.Budget.{
  in_minute, insert_time, sort, window_delay, next_call_delay, per_minute, Meter, spend, CallKind,
}

count_insert :
    (p : ℕ → Bool) (t : ℕ) (ts : List ℕ)
    → length (filter p (insert_time t ts)) ≡ length (filter p (t ∷ ts))
unfolding insert_time
count_insert p t [] = refl
count_insert p t (x ∷ xs) = ground (arith, count_insert p t xs)

count_sort : (p : ℕ → Bool) (ts : List ℕ) → length (filter p (sort ts)) ≡ length (filter p ts)
unfolding sort
count_sort p [] = refl
count_sort p (t ∷ ts) = ground (arith, count_insert p t (sort ts), count_sort p ts)

length-insert_time : (t : ℕ) (ts : List ℕ) → length (insert_time t ts) ≡ length ts + 1
unfolding insert_time
length-insert_time t [] = refl
length-insert_time t (x ∷ xs) = ground (arith, length-insert_time t xs)

length-sort : (ts : List ℕ) → length (sort ts) ≡ length ts
unfolding sort
length-sort [] = refl
length-sort (t ∷ ts) = omega (arith, length-insert_time t (sort ts), length-sort ts)

-- What is in the minute before `u` was in the minute before an earlier `now`.
filter_twice :
    (now u : ℕ) (ts : List ℕ)
    → now ≤ u
    → filter (in_minute u) (filter (in_minute now) ts) ≡ filter (in_minute u) ts
filter_twice now u [] h = refl
filter_twice now u (t ∷ ts) h = ground (arith, filter_twice now u ts h)

-- A window that was waited for has room, given that it was not over the rate.
waited :
    (w : List ℕ) (requests now u : ℕ)
    → length w ≤ per_minute requests
    → now + window_delay w requests now ≤ u
    → length (filter (in_minute u) w) < per_minute requests
waited [] requests now u full wait = omega arith
waited (t ∷ ts) requests now u full wait =
    elim (Bool-cases (ltb (length (t ∷ ts)) (per_minute requests))) [
      | inl room ↦ omega (
        arith,
        length-filter-le (in_minute u) (t ∷ ts),
        ltb→lt (length (t ∷ ts)) (per_minute requests) room,
      )
      | inr none_left ↦ ground (arith, length-filter-le (in_minute u) ts)
    ]

-- The calls that are still in the minute before `at`.
abbrev pub calls_in_minute : Meter → ℕ → ℕ
calls_in_minute m at = length (filter (in_minute at) m.call_times)

one_more :
    (at : ℕ) (ts : List ℕ)
    → length (filter (in_minute at) (filter (in_minute at) ts ++ at ∷ []))
      ≡ length (filter (in_minute at) ts) + 1
one_more at ts =
    ap length (filter-append (in_minute at) (filter (in_minute at) ts) (at ∷ []))
    ∙ (length-append (filter (in_minute at) (filter (in_minute at) ts))
          (filter (in_minute at) (at ∷ []))
        ∙ ground (arith, filter_twice at at ts))

-- One call: its kind and price, how long after the previous one it is asked for, how late the
-- clock is after the wait.
pub record Asked : Type 0 where
  pub kind : CallKind
  pub credits : ℕ
  pub pause : ℕ
  pub late : ℕ

module _ (month_key : ℕ → String) (requests : ℕ) where
  spend_room :
      (ts : List ℕ) (now u : ℕ)
      → length (filter (in_minute now) ts) ≤ per_minute requests
      → now + next_call_delay ts requests now ≤ u
      → length (filter (in_minute u) ts) < per_minute requests
  unfolding next_call_delay
  spend_room ts now u full wait =
      let w = filter (in_minute now) ts in
      let sorted = waited (sort w) requests now u (rw (length-sort w) full) wait in
      let same = count_sort (in_minute u) w ∙ ap length (filter_twice now u ts (omega arith)) in
      subst (λ n. n < per_minute requests) same sorted

  -- A call waits first, so it finds fewer calls in its minute than the rate allows; and after it the
  -- minute holds no more than the rate.
  pub spend_rate :
      (m : Meter) (kind : CallKind) (credits now late : ℕ)
      → calls_in_minute m now ≤ per_minute requests
      → let r = spend month_key requests m kind credits now late in
        (calls_in_minute m r.0 < per_minute requests)
        × (calls_in_minute r.1 r.0 ≤ per_minute requests)
  unfolding spend
  spend_rate m kind credits now late full =
      let at = now + next_call_delay m.call_times requests now + late in
      let room = spend_room m.call_times now at full (omega arith) in
      (room, omega (arith, one_more at m.call_times))

  -- The meter and the instant after the calls.
  unfoldable pub spend_all : Meter → ℕ → List Asked → ℕ × Meter
  spend_all m now [] = (now, m)
  spend_all m now (a ∷ asked) =
      let r = spend month_key requests m a.kind a.credits (now + a.pause) a.late in
      spend_all r.1 r.0 asked
