-- ===== src/RateLimit/Backoff/Escalation.antt =====
-- How the lockouts of one key grow (ratelimit.ts).
use native.Mathlib.Nat.{pow-suc, pow-zero}
use native.Mathlib.Decide.{dec_le}
use wickhunter_hub.Prelude.{
  ℕ, zero, suc, ◌+◌, ◌-◌, ◌*◌, ◌^◌, ◌≤◌, ◌<◌, ◌≡◌, refl, ap, ◌∙◌, min, String, true, false, ◌||◌,
  none, some, List, [], ◌∷◌, Dict, lookup, insert, contains, or_else, leb, if◌then◌else◌, arith,
  lookup-insert_self, lookup-insert, eq_iff, ◌⊎◌, lookup-erase_self, keys, Unique, length, str_eq,
  inl, inr,
}
use wickhunter_hub.RateLimit.Window.{allowed, overflow, has_room}
use wickhunter_hub.RateLimit.Backoff.{
  AdminBackoffLimiter, AdminBackoffRow, check, bounded_key, clean_row, fail, record_failure,
  record_success,
}

-- Failures of one row at the given times.
abbrev pub failing : AdminBackoffLimiter → AdminBackoffRow → List ℕ → AdminBackoffRow
failing l row [] = row
failing l row (t ∷ ts) = failing l (fail l row t) ts

-- The lockout after the `k`-th failure past the threshold, from the constants alone.
abbrev pub lockout : AdminBackoffLimiter → ℕ → ℕ
lockout l k = min l.max_ms (l.base_ms * 2 ^ k)

-- What a row holds after `n` failures, the last at `t`.
pub record Failed (l : AdminBackoffLimiter) (n t : ℕ) (row : AdminBackoffRow) : Type 0 where
  pub counted : row.failures ≡ n
  pub before : n < l.failure_threshold → (row.lockout_ms ≡ 0) × (row.blocked_until ≡ 0)
  pub after :
      l.failure_threshold ≤ n
      → (row.lockout_ms ≡ lockout l (n - l.failure_threshold))
        × (row.blocked_until ≡ t + lockout l (n - l.failure_threshold))

pub record IsBackoff (l : AdminBackoffLimiter) : Type 0 where
  pub threshold_pos : 1 ≤ l.failure_threshold
  pub base_pos : 1 ≤ l.base_ms
  pub base_le_max : l.base_ms ≤ l.max_ms

lockout-zero : (l : AdminBackoffLimiter) → IsBackoff l → lockout l 0 ≡ l.base_ms
lockout-zero l v = rw pow-zero (omega arith)

lockout-suc : (l : AdminBackoffLimiter) (k : ℕ) → lockout l (suc k) ≡ min l.max_ms (lockout l k * 2)
lockout-suc l k = rw pow-suc (omega arith)

lockout_pos : (l : AdminBackoffLimiter) (k : ℕ) → IsBackoff l → 1 ≤ lockout l k
lockout_pos l zero v = omega (arith, lockout-zero l v, v.base_pos, v.base_le_max)
lockout_pos l (suc k) v =
    omega (arith, lockout-suc l k, lockout_pos l k v, v.base_pos, v.base_le_max)

fail-Failed :
    (l : AdminBackoffLimiter) (n s t : ℕ) (row : AdminBackoffRow)
    → IsBackoff l
    → Failed l n s row
    → Failed l (suc n) t (fail l row t)
unfolding fail
fail-Failed l n s t row v f = record {
  counted = ground (arith, f.counted);
  before = λ h. ground (arith, f.counted, f.before (omega arith));
  after = λ h. elim (dec_le l.failure_threshold n) [
    | yes again ↦
        let k = n - l.failure_threshold in
        let e : suc n - l.failure_threshold ≡ suc k = omega arith in
        rw e (ground (arith, lockout-suc l k, lockout_pos l k v, f.counted, f.after again))
    | no first ↦
        let e : suc n - l.failure_threshold ≡ 0 = omega arith in
        rw e (ground (arith, lockout-zero l v, f.counted, f.before (omega arith)))
  ];
}

abbrev pub last_of : ℕ → List ℕ → ℕ
last_of t [] = t
last_of t (u ∷ us) = last_of u us

failing-Failed :
    (l : AdminBackoffLimiter) (n s : ℕ) (row : AdminBackoffRow) (ts : List ℕ)
    → IsBackoff l
    → Failed l n s row
    → Failed l (n + length ts) (last_of s ts) (failing l row ts)
failing-Failed l n s row [] v f = let e : n + 0 ≡ n = omega arith in rw e f
failing-Failed l n s row (t ∷ ts) v f =
    let e : n + suc (length ts) ≡ suc n + length ts = omega arith in
    rw e (failing-Failed l (suc n) t (fail l row t) ts v (fail-Failed l n s t row v f))

-- Wrong tokens of one key: the times that the caller reports, and the clock that `boundedKey` reads.
unfoldable pub failures : AdminBackoffLimiter → String → List (ℕ × ℕ) → AdminBackoffLimiter
failures l key [] = l
failures l key ((now, clock) ∷ ts) = failures (record_failure l key now clock) key ts

abbrev pub times : List (ℕ × ℕ) → List ℕ
times [] = []
times ((now, clock) ∷ ts) = now ∷ times ts

failing-config :
    (l : AdminBackoffLimiter) (d : Dict AdminBackoffRow) (row : AdminBackoffRow) (ts : List ℕ)
    → failing (record l { rows = d }) row ts ≡ failing l row ts
unfolding fail
failing-config l d row [] = refl
failing-config l d row (t ∷ ts) = failing-config l d (fail l row t) ts

-- A key that has a row, or room for one.
abbrev pub HasPlace : AdminBackoffLimiter → String → Type 0
HasPlace l key = (contains key l.rows || has_room l.max_keys l.rows) ≡ true

record_failure_own :
    (l : AdminBackoffLimiter) (key : String) (now clock : ℕ)
    → HasPlace l key
    → record_failure l key now clock
      ≡ record l { rows = insert key (fail l (or_else (lookup key l.rows) clean_row) now) l.rows }
unfolding record_failure bounded_key
record_failure_own l key now clock h = rw h

failures-lookup :
    (l : AdminBackoffLimiter) (key : String) (ts : List (ℕ × ℕ)) (row : AdminBackoffRow)
    → lookup key l.rows ≡ some row
    → lookup key (failures l key ts).rows ≡ some (failing l row (times ts))
unfolding failures
failures-lookup l key [] row e = e
failures-lookup l key ((now, clock) ∷ ts) row e =
    let place : HasPlace l key = ground arith in
    let row' = fail l row now in
    let l' = record l { rows = insert key row' l.rows } in
    let step : record_failure l key now clock ≡ l' =
      record_failure_own l key now clock place
      ∙ ap (λ r. record l { rows = insert key (fail l r now) l.rows })
          (ap (λ o. or_else o clean_row) e) in
    ap (λ m. lookup key (failures m key ts).rows) step
    ∙ failures-lookup l' key ts row' (lookup-insert_self key row' l.rows)
    ∙ ap some (failing-config l (insert key row' l.rows) row' (times ts))

check_row :
    (l : AdminBackoffLimiter) (key : String) (now : ℕ) (row : AdminBackoffRow)
    → lookup key l.rows ≡ some row
    → (check l key now).ok ≡ leb row.blocked_until now
unfolding check
check_row l key now row e = ground arith

clean-Failed : (l : AdminBackoffLimiter) → IsBackoff l → Failed l 0 0 clean_row
clean-Failed l v = record {
  counted = refl;
  before = λ h. (refl, refl);
  after = λ h. absurd (omega (arith, v.threshold_pos));
}

first_Failed :
    (l : AdminBackoffLimiter) (now : ℕ) (ts : List ℕ)
    → IsBackoff l
    → Failed l (suc (length ts)) (last_of now ts) (failing l (fail l clean_row now) ts)
first_Failed l now ts v =
    let e : suc (length ts) ≡ 1 + length ts = omega arith in
    rw e (
      failing-Failed l 1 now (fail l clean_row now) ts v
        (fail-Failed l 0 0 now clean_row v (clean-Failed l v)))

length-times : (ts : List (ℕ × ℕ)) → length (times ts) ≡ length ts
length-times [] = refl
length-times ((now, clock) ∷ ts) = ap suc (length-times ts)

failures-first :
    (l : AdminBackoffLimiter) (key : String) (now clock : ℕ) (ts : List (ℕ × ℕ))
    → lookup key l.rows ≡ none
    → has_room l.max_keys l.rows ≡ true
    → lookup key (failures l key ((now, clock) ∷ ts)).rows
      ≡ some (failing l (fail l clean_row now) (times ts))
unfolding failures
failures-first l key now clock ts e room =
    let row = fail l clean_row now in
    let l' = record l { rows = insert key row l.rows } in
    let step : record_failure l key now clock ≡ l' =
      record_failure_own l key now clock (ground arith)
      ∙ ap (λ o. record l { rows = insert key (fail l (or_else o clean_row) now) l.rows }) e in
    ap (λ m. lookup key (failures m key ts).rows) step
    ∙ failures-lookup l' key ts row (lookup-insert_self key row l.rows)
    ∙ ap some (failing-config l (insert key row l.rows) row (times ts))

-- The lockouts of one key in closed form. Let a key that is not tracked, and for which there is
-- room, give a wrong token `n` times, the last at `t`. Below the threshold it is never blocked; from
-- the threshold on it is blocked exactly until `t + min max (base * 2 ^ (n - threshold))`.
pub failures-check :
    (l : AdminBackoffLimiter) (key : String) (now clock at : ℕ) (ts : List (ℕ × ℕ))
    → IsBackoff l
    → lookup key l.rows ≡ none
    → has_room l.max_keys l.rows ≡ true
    → let n = suc (length ts) in
      let t = last_of now (times ts) in
      (check (failures l key ((now, clock) ∷ ts)) key at).ok ≡ (
        if leb l.failure_threshold n
        then leb (t + lockout l (n - l.failure_threshold)) at
        else true)
unfolding failures
failures-check l key now clock at ts v e room =
    let row = failing l (fail l clean_row now) (times ts) in
    let f = first_Failed l now (times ts) v in
    let shown =
      check_row (failures l key ((now, clock) ∷ ts)) key at row
        (failures-first l key now clock ts e room) in
    elim (dec_le l.failure_threshold (suc (length (times ts)))) [
      | yes past ↦ ground (arith, shown, f.after past, length-times ts)
      | no short ↦ ground (arith, shown, f.before (omega arith), length-times ts)
    ]

-- One right token forgives the key completely: it is not blocked, and its next wrong token starts
-- from a clean row.
pub record_success_lem :
    (l : AdminBackoffLimiter) (key : String) (now : ℕ)
    → Unique (keys l.rows)
    → let l' = record_success l key in (lookup key l'.rows ≡ none) × (check l' key now ≡ allowed)
unfolding record_success check
record_success_lem l key now u = let e = lookup-erase_self key l.rows u in (e, ground (arith, e))

bucket_cases :
    (l : AdminBackoffLimiter) (key : String) (clock : ℕ)
    → let b = bounded_key l key clock in (b.0 ≡ key) ⊎ ((b.0 ≡ overflow) × (lookup key b.1 ≡ none))
unfolding bounded_key
bucket_cases l key clock = ground arith

-- A key that shares the overflow bucket is never blocked by its own failures: they are written to
-- the shared row, and `check` reads the row of the key itself.
pub overflow_unblocked :
    (l : AdminBackoffLimiter) (key : String) (now clock at : ℕ)
    → str_eq key overflow ≡ false
    → (bounded_key l key clock).0 ≡ overflow
    → check (record_failure l key now clock) key at ≡ allowed
unfolding record_failure check
overflow_unblocked l key now clock at ne e =
    let b = bounded_key l key clock in
    let row = fail l (or_else (lookup b.0 b.1) clean_row) now in
    elim (bucket_cases l key clock) [
      | inl own ↦ absurd (ground (arith, own, eq_iff key overflow))
      | inr shared ↦
          let h : lookup key (insert b.0 row b.1) ≡ none =
            lookup-insert b.0 key row b.1
            ∙ ground (arith, shared, eq_iff b.0 key, eq_iff key overflow) in
          ground (arith, h)
    ]
