-- ===== src/RateLimit/Window/Retry.antt =====
-- The Retry-After of a refused request (ratelimit.ts): waiting that long is enough.
use wickhunter_hub.Prelude.{
  ℕ, max, ◌+◌, ◌-◌, ◌*◌, ◌≤◌, ◌<◌, ◌≡◌, sym, ap, ◌∙◌, String, true, false, ◌&&◌, some, List, [],
  ◌∷◌, ◌++◌, lookup, insert, length, if◌then◌else◌, arith, subst, length-filter-le, ◌⊎◌, inl, inr,
  lookup-insert_self,
}
use wickhunter_hub.RateLimit.Window.{
  live, recent, bounded_key, SlidingWindowLimiter, overflow, inspect, take, peek, ceil_seconds,
  oldest,
}
use wickhunter_hub.RateLimit.Window.Rows.{row, recent-later, All-later}
use wickhunter_hub.RateLimit.Window.Spec.{Log, stamps, Agrees, bucket_of, inspect-Agrees, chosen}
use wickhunter_hub.RateLimit.Window.Runs.{Capped, inspect-config}

-- A key is in its own bucket, or shares the overflow bucket and has no row of its own.
bucket_cases :
    (l : SlidingWindowLimiter) (raw : String) (t : ℕ)
    → (bucket_of l raw t ≡ raw)
      ⊎ ((bucket_of l raw t ≡ overflow) × (row raw (bounded_key l raw t).1 ≡ []))
unfolding bounded_key
bucket_cases l raw t = ground arith

bucket_known :
    (l : SlidingWindowLimiter) (raw : String) (t : ℕ) (xs : List ℕ)
    → lookup raw l.rows ≡ some xs
    → bucket_of l raw t ≡ raw
unfolding bounded_key
bucket_known l raw t xs e = ground arith

-- With the oldest stamp expired, one place is free.
freed :
    (w t u n : ℕ) (xs : List ℕ)
    → length xs ≤ n
    → 1 ≤ n
    → oldest xs t + w ≤ u
    → t ≤ u
    → length (recent w u xs) < n
freed w t u n [] h p e le = omega arith
freed w t u n (x ∷ xs) h p e le = ground (arith, length-filter-le (live w u) xs)

refused_state :
    (l : SlidingWindowLimiter) (raw : String) (t : ℕ)
    → (take l raw t).0.ok ≡ false
    → let b = bounded_key l raw t in
      let active = recent l.window_ms t (row b.0 b.1) in
      ((take l raw t).1 ≡ record l { rows = insert b.0 active b.1 })
      × ((take l raw t).0.retry_after_seconds
          ≡ max 1 (ceil_seconds (oldest active t + l.window_ms - t)))
unfolding take
refused_state l raw t e = ground arith

-- The next look at a refused key, `u` after the refusal at `t`: its bucket has a free place.
retry_free :
    (l : SlidingWindowLimiter) (log : Log) (raw : String) (s t u : ℕ)
    → 1 ≤ l.max
    → s ≤ t
    → t ≤ u
    → Agrees l log s
    → Capped l.max l.window_ms t log
    → let b = bounded_key l raw t in
      oldest (recent l.window_ms t (row b.0 b.1)) t + l.window_ms ≤ u
      → (take l raw t).0.ok ≡ false
      → length (recent l.window_ms u (stamps (bucket_of (take l raw t).1 raw u) log)) < l.max
retry_free l log raw s t u pos st tu a capped old refusal =
    let w = l.window_ms in
    let b = bounded_key l raw t in
    let h = chosen l log raw s t st a in
    let past = λ (k : String). All-later s t (stamps k log) st (a.logged_past k) in
    let later : (k : String) → recent w u (recent w t (row k b.1)) ≡ recent w u (stamps k log) =
      λ k. ap (recent w u) (h.2 k) ∙ recent-later w t u (stamps k log) tu (past k) in
    let here : length (recent w u (stamps b.0 log)) < l.max =
      rw (← later b.0)
        (freed w t u l.max (recent w t (row b.0 b.1)) (rw (h.2 b.0) (capped b.0)) pos old tu) in
    let l' = (take l raw t).1 in
    let at = refused_state l raw t refusal in
    let active = recent w t (row b.0 b.1) in
    let known : lookup b.0 l'.rows ≡ some active =
      ap (λ (m : SlidingWindowLimiter). lookup b.0 m.rows) at.0
      ∙ lookup-insert_self b.0 active b.1 in
    elim (bucket_cases l raw t) [
      | inl own ↦
          let k : lookup raw l'.rows ≡ some active = ap (λ j. lookup j l'.rows) (sym own) ∙ known in
          rw (bucket_known l' raw u active k ∙ sym own) here
      | inr (shared, empty) ↦ elim (bucket_cases l' raw u) [
        | inl own ↦
            let none_left : recent w u (stamps raw log) ≡ [] =
              sym (later raw) ∙ ap (λ xs. recent w u (recent w t xs)) empty in
            rw (own, none_left) pos
        | inr (again, _) ↦ rw (again ∙ sym shared) here
      ]
    ]

-- Waiting for the Retry-After of a refused `take` is enough: with no other admission in between, a
-- `peek` of the same key that many seconds later, or at any later time, is allowed. The limiter's
-- rows agree with a log in which no bucket is over `max` (as they do in every run).
pub retry_after_suffices :
    (l : SlidingWindowLimiter) (log : Log) (raw : String) (s t u : ℕ)
    → 1 ≤ l.max
    → 1 ≤ l.window_ms
    → s ≤ t
    → Agrees l log s
    → Capped l.max l.window_ms t log
    → (take l raw t).0.ok ≡ false
    → t + 1000 * (take l raw t).0.retry_after_seconds ≤ u
    → (peek (take l raw t).1 raw u).0.ok ≡ true
unfolding take peek
retry_after_suffices l log raw s t u pos wpos st a capped refusal wait =
    let r = inspect l raw t true in
    let first = inspect-Agrees l log raw s t true wpos st a in
    let kept : Agrees r.1 log t =
      subst (λ o. Agrees r.1 (if true && o then log ++ (bucket_of l raw t, t) ∷ [] else log) t)
        refusal first.1 in
    let config = inspect-config l raw t true in
    let tu : t ≤ u = omega arith in
    let second = inspect-Agrees r.1 log raw t u false (rw config.1 wpos) tu kept in
    let free =
      retry_free l log raw s t u pos st tu a capped
        (omega (arith, (refused_state l raw t refusal).1)) refusal in
    ground (arith, second.0, config, free)
