-- ===== src/RateLimit/Window/Spec.antt =====
-- The sliding window limiter against a log of what it admitted (ratelimit.ts): over any run with a
-- clock that does not go back, a bucket is refused exactly when `max` admissions lie in its window.
use wickhunter_hub.Prelude.{
  ℕ, ◌+◌, ◌≤◌, ◌%◌, ◌≡◌, refl, sym, ap, ◌∙◌, String, Bool, ◌&&◌, List, [], ◌∷◌, ◌++◌, Dict, insert,
  erase, length, leb, ltb, ◌==◌, str_eq, eq_iff, All, if◌then◌else◌, arith, keys, Unique,
  Bool-cases, inl, inr, Unique-insert, Unique-erase,
}
use wickhunter_hub.RateLimit.Window.{
  recent, is_empty, prune, bounded_key, SlidingWindowLimiter, inspect, RateDecision,
}
use wickhunter_hub.RateLimit.Window.Rows.{
  row, recent-recent, recent-later, recent-snoc, row-prune, row-insert, row-erase, bounded_key_rows,
  bounded_key-All, is_empty-eq, All-recent, All-later, All-snoc, Unique-prune,
}

-- Admissions, oldest first: the bucket and the time.
abbrev pub Log : Type 0
Log = List (String × ℕ)

abbrev pub stamps : String → Log → List ℕ
stamps k [] = []
stamps k ((j, t) ∷ log) = if str_eq j k then t ∷ stamps k log else stamps k log

pub stamps-snoc :
    (k j : String) (t : ℕ) (log : Log)
    → stamps k (log ++ (j, t) ∷ []) ≡ (if str_eq j k then stamps k log ++ t ∷ [] else stamps k log)
stamps-snoc k j t [] = refl
stamps-snoc k j t ((i, s) ∷ log) = ground (arith, stamps-snoc k j t log)

-- The rows at time `t` hold, of every bucket, the logged admissions that are in the window.
pub record Agrees (l : SlidingWindowLimiter) (log : Log) (t : ℕ) : Type 0 where
  pub unique : Unique (keys l.rows)
  pub past : (k : String) → All (λ s. s ≤ t) (row k l.rows)
  pub logged_past : (k : String) → All (λ s. s ≤ t) (stamps k log)
  pub same :
      (k : String) → recent l.window_ms t (row k l.rows) ≡ recent l.window_ms t (stamps k log)

-- Rows that hold the logged admissions of the window, and nothing of the future.
abbrev pub Holds : ℕ → ℕ → Dict (List ℕ) → Log → Type 0
Holds w t d log =
    Unique (keys d)
    × ((k : String) → All (λ s. s ≤ t) (row k d))
    × ((k : String) → recent w t (row k d) ≡ recent w t (stamps k log))

-- After the bucket is chosen.
pub chosen :
    (l : SlidingWindowLimiter) (log : Log) (raw : String) (s t : ℕ)
    → s ≤ t
    → Agrees l log s
    → Holds l.window_ms t (bounded_key l raw t).1 log
chosen l log raw s t le a = (
  (bounded_key_rows l raw raw t a.unique).0,
  (λ k.
      bounded_key-All (λ x. x ≤ t) l raw k t a.unique (All-later s t (row k l.rows) le (a.past k))),
  λ k.
      (bounded_key_rows l raw k t a.unique).1
      ∙ sym (recent-later l.window_ms s t (row k l.rows) le (a.past k))
      ∙ ap (recent l.window_ms t) (a.same k)
      ∙ recent-later l.window_ms s t (stamps k log) le (a.logged_past k),
)

module _ (w t : ℕ) (b : String) (d : Dict (List ℕ)) (log : Log) (h : Holds w t d log) where
  kept : Holds w t (insert b (recent w t (row b d)) d) log
  kept = (
    Unique-insert b (recent w t (row b d)) d h.0,
    (λ k.
        rw (row-insert b k (recent w t (row b d)) d)
          (ground (arith, All-recent w t (row b d), h.1 k))),
    λ k.
        rw (row-insert b k (recent w t (row b d)) d)
          (ground (arith, eq_iff b k, recent-recent w t (row b d), h.2 k)),
  )

  dropped : recent w t (row b d) ≡ [] → Holds w t (erase b d) log
  dropped e = (
    Unique-erase b d h.0,
    (λ k. rw (row-erase b k d h.0) (ground (arith, h.1 k))),
    λ k. rw (row-erase b k d h.0) (ground (arith, eq_iff b k, h.2 k)),
  )

  added : 1 ≤ w → Holds w t (insert b (recent w t (row b d) ++ t ∷ []) d) (log ++ (b, t) ∷ [])
  added pos =
      let v = recent w t (row b d) ++ t ∷ [] in
      (
        Unique-insert b v d h.0,
        (λ k. rw (row-insert b k v d) (
            ground (
              arith,
              All-snoc (λ x. x ≤ t) t (recent w t (row b d)) (All-recent w t (row b d)),
              h.1 k,
            ))),
        λ k.
            rw (row-insert b k v d, stamps-snoc k b t log)
              (ground (
                arith,
                eq_iff b k,
                recent-snoc w t (recent w t (row b d)) pos,
                recent-snoc w t (stamps k log) pos,
                recent-recent w t (row b d),
                h.2 k,
              )),
      )

  pruned : Holds w t (prune w t d) log
  pruned = (
    Unique-prune w t d h.0,
    (λ k. rw (row-prune w t k d h.0) (All-recent w t (row k d))),
    λ k. rw (row-prune w t k d h.0) (recent-recent w t (row k d) ∙ h.2 k),
  )

abbrev pub bucket_of : SlidingWindowLimiter → String → ℕ → String
bucket_of l raw t = (bounded_key l raw t).0

-- What one call adds to the log.
abbrev pub logged : Log → String → ℕ → Bool → RateDecision → Log
logged log b t consume r = if consume && r.ok then log ++ (b, t) ∷ [] else log

logged_All :
    (log : Log) (b k : String) (t : ℕ)
    → All (λ s. s ≤ t) (stamps k log)
    → All (λ s. s ≤ t) (stamps k (log ++ (b, t) ∷ []))
logged_All log b k t h =
    rw (stamps-snoc k b t log)
      (ground (arith, h, All-snoc (λ s. s ≤ t) t (stamps k log) h (omega arith)))

Agrees-of :
    (l : SlidingWindowLimiter) (log : Log) (t : ℕ)
    → Holds l.window_ms t l.rows log
    → ((k : String) → All (λ s. s ≤ t) (stamps k log))
    → Agrees l log t
Agrees-of l log t h p = record { unique = h.0; past = h.1; logged_past = p; same = h.2 }

module _ (l : SlidingWindowLimiter) (log : Log) (b : String) (t : ℕ) (d : Dict (List ℕ))
    (h : Holds l.window_ms t d log) (past : (k : String) → All (λ s. s ≤ t) (stamps k log)) where
  taken_Agrees :
      1 ≤ l.window_ms
      → let taken = insert b (recent l.window_ms t (row b d) ++ t ∷ []) d in
        Agrees
          (record l {
            rows = if ((l.attempts + 1) % 256) == 0 then prune l.window_ms t taken else taken;
            attempts = l.attempts + 1;
          })
          (log ++ (b, t) ∷ [])
          t
  taken_Agrees pos =
      let g = added l.window_ms t b d log h pos in
      let later = λ (k : String). logged_All log b k t (past k) in
      elim (Bool-cases (((l.attempts + 1) % 256) == 0)) [
        | inl e ↦ rw e (Agrees-of _ _ t (pruned l.window_ms t b _ _ g) later)
        | inr e ↦ rw e (Agrees-of _ _ t g later)
      ]

  peeked_Agrees :
      let active = recent l.window_ms t (row b d) in
      Agrees (record l { rows = if is_empty active then erase b d else insert b active d }) log t
  peeked_Agrees = elim (Bool-cases (is_empty (recent l.window_ms t (row b d)))) [
    | inl e ↦ rw e (
        Agrees-of _ log t
          (dropped l.window_ms t b d log h (is_empty-eq (recent l.window_ms t (row b d)) e)) past)
    | inr e ↦ rw e (Agrees-of _ log t (kept l.window_ms t b d log h) past)
  ]

-- One call, `take` or `peek`, at a time not before the last one: it is allowed exactly when fewer
-- than `max` logged admissions of its bucket are in the window, and the rows agree with the log
-- afterwards.
pub inspect-Agrees :
    (l : SlidingWindowLimiter) (log : Log) (raw : String) (s t : ℕ) (consume : Bool)
    → 1 ≤ l.window_ms
    → s ≤ t
    → Agrees l log s
    → let r = inspect l raw t consume in
      let b = bucket_of l raw t in
      (r.0.ok ≡ ltb (length (recent l.window_ms t (stamps b log))) l.max)
      × Agrees r.1 (logged log b t consume r.0) t
unfolding inspect
inspect-Agrees l log raw s t consume pos le a =
    let b = bucket_of l raw t in
    let d = (bounded_key l raw t).1 in
    let h = chosen l log raw s t le a in
    let past = λ (k : String). All-later s t (stamps k log) le (a.logged_past k) in
    let active = recent l.window_ms t (row b d) in
    elim (Bool-cases (leb l.max (length active))) [
      | inl full ↦ rw full (
        ground (arith, h.2 b),
        elim (Bool-cases consume) [
          | inl c ↦ rw c (Agrees-of _ log t (kept l.window_ms t b d log h) past)
          | inr c ↦ rw c (Agrees-of _ log t (kept l.window_ms t b d log h) past)
        ],
      )
      | inr free ↦ rw free (elim (Bool-cases consume) [
        | inl c ↦ rw c (ground (arith, h.2 b), taken_Agrees l log b t d h past pos)
        | inr c ↦ rw c (ground (arith, h.2 b), peeked_Agrees l log b t d h past)
      ])
    ]
