-- ===== src/RateLimit/Window/Bounds.antt =====
-- The sliding window limiter's memory (ratelimit.ts): no run makes it track more than `max_keys`
-- buckets, the shared overflow bucket included.
use wickhunter_hub.Prelude.{
  ℕ, suc, max, ◌∙◌, ◌+◌, ◌≤◌, ◌<◌, ◌≡◌, String, Bool, true, not, ◌||◌, some, List, [], ◌∷◌, ◌++◌,
  Dict, lookup, insert, erase, contains, length, filter, str_eq, eq_iff, if◌then◌else◌, arith,
  length-filter-le, length-insert, Bool-cases, ◌⊎◌, inl, inr, or_else,
}
use wickhunter_hub.RateLimit.Window.{
  recent, is_empty, purge, prune, bounded_key, SlidingWindowLimiter, overflow, has_room, inspect,
  new_limiter,
}
use wickhunter_hub.RateLimit.Window.Runs.{Call, inspect-config}

-- The rows, with one place kept for the overflow bucket.
abbrev pub weight : Dict (List ℕ) → ℕ
weight d = length d + (if contains overflow d then 0 else 1)

weight-filter : (p : String × List ℕ → Bool) (d : Dict (List ℕ)) → weight (filter p d) ≤ weight d
weight-filter p [] = omega arith
weight-filter p (e ∷ d) = ground (arith, weight-filter p d, length-filter-le p d)

length-prune : (w t : ℕ) (d : Dict (List ℕ)) → length (prune w t d) ≤ length d
unfolding prune
length-prune w t [] = omega arith
length-prune w t ((k, xs) ∷ d) = ground (arith, length-prune w t d)

weight-prune : (w t : ℕ) (d : Dict (List ℕ)) → weight (prune w t d) ≤ weight d
unfolding prune
weight-prune w t [] = omega arith
weight-prune w t ((k, xs) ∷ d) = ground (arith, weight-prune w t d, length-prune w t d)

length-erase : (k : String) (d : Dict (List ℕ)) → length (erase k d) ≤ length d
length-erase k [] = omega arith
length-erase k ((j, xs) ∷ d) = ground (arith, length-erase k d)

weight-erase : (k : String) (d : Dict (List ℕ)) → weight (erase k d) ≤ weight d
weight-erase k [] = omega arith
weight-erase k ((j, xs) ∷ d) = elim (Bool-cases (str_eq j k)) [
  | inl e ↦ rw e (ground arith)
  | inr e ↦ rw e (ground (arith, weight-erase k d, length-erase k d))
]

weight-insert :
    (k : String) (v : List ℕ) (d : Dict (List ℕ))
    → weight (insert k v d)
      ≡ (if contains k d || str_eq k overflow then weight d else suc (weight d))
weight-insert k v [] = ground arith
weight-insert k v ((j, xs) ∷ d) = elim (Bool-cases (str_eq j k)) [
  | inl e ↦ rw e (ground arith)
  | inr e ↦ rw e (
      ground (
        arith,
        weight-insert k v d,
        length-insert k v d,
        eq_iff j k,
        eq_iff j overflow,
        eq_iff k overflow,
      ))
]

-- The chosen bucket has its place.
abbrev Fits : ℕ → String × Dict (List ℕ) → Type 0
Fits n (k, d) = (weight d ≤ n) × ((contains k d || str_eq k overflow ≡ true) ⊎ (weight d < n))

bounded_key-Fits :
    (l : SlidingWindowLimiter) (raw : String) (t : ℕ)
    → weight l.rows ≤ l.max_keys
    → Fits l.max_keys (bounded_key l raw t)
unfolding bounded_key
bounded_key-Fits l raw t h =
    let d = purge l.window_ms t l.rows in
    let f = weight-filter (λ e. not (is_empty (recent l.window_ms t e.1))) l.rows in
    elim (Bool-cases (contains raw l.rows || has_room l.max_keys l.rows)) [
      | inl e ↦ rw e (h, ground arith)
      | inr e ↦ elim (Bool-cases (contains raw d || has_room l.max_keys d)) [
        | inl g ↦ rw (e, g) (ground (arith, f), ground (arith, f))
        | inr g ↦ rw (e, g) (ground (arith, f), inl (ground arith))
      ]
    ]

inspect-weight :
    (l : SlidingWindowLimiter) (raw : String) (t : ℕ) (consume : Bool)
    → weight l.rows ≤ l.max_keys
    → weight (inspect l raw t consume).1.rows ≤ l.max_keys
unfolding inspect
inspect-weight l raw t consume h =
    let b = bounded_key l raw t in
    let active = recent l.window_ms t (or_else (lookup b.0 b.1) []) in
    let fits = bounded_key-Fits l raw t h in
    let taken = insert b.0 (active ++ t ∷ []) b.1 in
    ground (
      arith,
      fits,
      weight-insert b.0 active b.1,
      weight-insert b.0 (active ++ t ∷ []) b.1,
      weight-prune l.window_ms t taken,
      weight-erase b.0 b.1,
    )

-- The limiter after a run.
unfoldable pub final : SlidingWindowLimiter → List Call → SlidingWindowLimiter
final l [] = l
final l (c ∷ cs) = final (inspect l c.key c.now c.consume).1 cs

final-weight :
    (n : ℕ) (l : SlidingWindowLimiter) (cs : List Call)
    → l.max_keys ≡ n
    → weight l.rows ≤ n
    → weight (final l cs).rows ≤ n
unfolding final
final-weight n l [] e h = h
final-weight n l (c ∷ cs) e h =
    let k = inspect-config l c.key c.now c.consume in
    final-weight n (inspect l c.key c.now c.consume).1 cs (k.2 ∙ e)
      (rw (← e) (inspect-weight l c.key c.now c.consume (rw e h)))

-- Whatever keys are presented and whenever, a limiter built with the key bound `n` never holds more
-- than `max 1 n` rows, the shared overflow row included.
pub final-rows_bound :
    (m window n : ℕ) (l : SlidingWindowLimiter) (cs : List Call)
    → new_limiter m window (some n) ≡ some l
    → length (final l cs).rows ≤ max 1 n
unfolding new_limiter
final-rows_bound m window n l cs e =
    let r : l.rows ≡ [] = ground arith in
    let k : l.max_keys ≡ max 1 n = ground arith in
    let w : weight l.rows ≤ max 1 n = rw r (omega arith) in
    omega (arith, final-weight (max 1 n) l cs k w)
