-- ===== src/RateLimit/Window/Runs.antt =====
-- Runs of the sliding window limiter from its constructor (ratelimit.ts): exact answers, and at most
-- `max` admissions of a bucket in any window.
use wickhunter_hub.Prelude.{
  ℕ, ◌≤◌, ◌≡◌, refl, sym, ◌∙◌, String, Bool, ◌&&◌, Option, some, List, [], ◌∷◌, ◌++◌, length, ltb,
  if◌then◌else◌, arith, length-filter-le, length-append, All, Bool-cases, inl, inr, eq_iff,
}
use wickhunter_hub.RateLimit.Window.{
  live, recent, SlidingWindowLimiter, new_limiter, inspect, RateDecision,
}
use wickhunter_hub.RateLimit.Window.Rows.{recent-later, recent-snoc}
use wickhunter_hub.RateLimit.Window.Spec.{
  Log, stamps, stamps-snoc, Agrees, bucket_of, logged, inspect-Agrees,
}

-- A request: `take` if it consumes, `peek` if not.
pub record Call : Type 0 where
  pub key : String
  pub now : ℕ
  pub consume : Bool

pub record Outcome : Type 0 where
  pub bucket : String
  pub at : ℕ
  pub consume : Bool
  pub ok : Bool

unfoldable pub run : SlidingWindowLimiter → List Call → List Outcome
run l [] = []
run l (c ∷ cs) =
    let r = inspect l c.key c.now c.consume in
    record { bucket = bucket_of l c.key c.now; at = c.now; consume = c.consume; ok = r.0.ok }
    ∷ run r.1 cs

-- The clock does not go back.
abbrev pub Monotone : ℕ → List Call → Type 0
Monotone t [] = Unit
Monotone t (c ∷ cs) = (t ≤ c.now) × Monotone c.now cs

abbrev pub log_after : Log → Outcome → Log
log_after log o = if o.consume && o.ok then log ++ (o.bucket, o.at) ∷ [] else log

abbrev pub log_of : Log → List Outcome → Log
log_of log [] = log
log_of log (o ∷ os) = log_of (log_after log o) os

-- Answered from the log alone: allowed exactly when fewer than `max` admissions of the bucket are
-- younger than the window.
abbrev pub Conforms : ℕ → ℕ → Log → List Outcome → Type 0
Conforms max window log [] = Unit
Conforms max window log (o ∷ os) =
    (o.ok ≡ ltb (length (recent window o.at (stamps o.bucket log))) max)
    × Conforms max window (log_after log o) os

pub inspect-config :
    (l : SlidingWindowLimiter) (raw : String) (t : ℕ) (consume : Bool)
    → let l' = (inspect l raw t consume).1 in
      (l'.max ≡ l.max) × (l'.window_ms ≡ l.window_ms) × (l'.max_keys ≡ l.max_keys)
unfolding inspect
inspect-config l raw t consume = ground arith

run-Conforms_from :
    (max window : ℕ) (l : SlidingWindowLimiter) (log : Log) (t : ℕ) (cs : List Call)
    → l.max ≡ max
    → l.window_ms ≡ window
    → 1 ≤ window
    → Agrees l log t
    → Monotone t cs
    → Conforms max window log (run l cs)
unfolding run
run-Conforms_from max window l log t [] em ew pos a m = tt
run-Conforms_from max window l log t (c ∷ cs) em ew pos a m =
    let i = inspect-Agrees l log c.key t c.now c.consume (rw ew pos) m.0 a in
    let k = inspect-config l c.key c.now c.consume in
    (
      rw (← ew, ← em) i.0,
      run-Conforms_from max window (inspect l c.key c.now c.consume).1 _ c.now cs (k.0 ∙ em)
          (k.1 ∙ ew) pos i.1 m.1,
    )

pub start-Agrees :
    (max window : ℕ) (max_keys : Option ℕ) (l : SlidingWindowLimiter)
    → new_limiter max window max_keys ≡ some l
    → Agrees l [] 0 × (l.max ≡ max) × (l.window_ms ≡ window) × (1 ≤ window) × (1 ≤ max)
unfolding new_limiter
start-Agrees max window max_keys l e =
    let r : l.rows ≡ [] = ground arith in
    (
      record {
        unique = rw r tt;
        past = λ k. rw r tt;
        logged_past = λ k. tt;
        same = λ k. rw r refl;
      },
      ground arith,
      ground arith,
      ground arith,
      ground arith,
    )

-- Over every run of `take` and `peek` calls from the constructor, with a clock that does not go
-- back, each call is allowed exactly when fewer than `max` of the calls admitted before it in its
-- bucket lie in the window that ends at it.
pub run-Conforms :
    (max window : ℕ) (max_keys : Option ℕ) (l : SlidingWindowLimiter) (cs : List Call)
    → new_limiter max window max_keys ≡ some l
    → Monotone 0 cs
    → Conforms max window [] (run l cs)
run-Conforms max window max_keys l cs e m =
    let s = start-Agrees max window max_keys l e in
    run-Conforms_from max window l [] 0 cs s.1 s.2 s.3 s.0 m

-- No bucket has more than `max` logged admissions in the window.
abbrev pub Capped : ℕ → ℕ → ℕ → Log → Type 0
Capped max window t log = (k : String) → length (recent window t (stamps k log)) ≤ max

Capped-later :
    (max window s t : ℕ) (log : Log)
    → s ≤ t
    → ((k : String) → All (λ x. x ≤ s) (stamps k log))
    → Capped max window s log
    → Capped max window t log
Capped-later max window s t log le p c k =
    rw (sym (recent-later window s t (stamps k log) le (p k)))
      (omega (arith, c k, length-filter-le {0} (live window t) (recent window s (stamps k log))))

Capped-logged :
    (max window t : ℕ) (log : Log) (b : String) (consume : Bool) (r : RateDecision)
    → 1 ≤ window
    → r.ok ≡ ltb (length (recent window t (stamps b log))) max
    → Capped max window t log
    → Capped max window t (logged log b t consume r)
Capped-logged max window t log b consume r pos e c k = elim (Bool-cases (consume && r.ok)) [
  | inr h ↦ rw h (c k)
  | inl h ↦
      rw (h, stamps-snoc k b t log)
        (ground (
          arith,
          c k,
          eq_iff b k,
          recent-snoc window t (stamps k log) pos,
          length-append {0} (recent window t (stamps k log)) (t ∷ []),
        ))
]

abbrev pub last_now : ℕ → List Call → ℕ
last_now t [] = t
last_now t (c ∷ cs) = last_now c.now cs

run-Capped_from :
    (max window : ℕ) (l : SlidingWindowLimiter) (log : Log) (t : ℕ) (cs : List Call)
    → l.max ≡ max
    → l.window_ms ≡ window
    → 1 ≤ window
    → Agrees l log t
    → Capped max window t log
    → Monotone t cs
    → Capped max window (last_now t cs) (log_of log (run l cs))
unfolding run
run-Capped_from max window l log t [] em ew pos a c m = c
run-Capped_from max window l log t (q ∷ cs) em ew pos a c m =
    let r = inspect l q.key q.now q.consume in
    let i = inspect-Agrees l log q.key t q.now q.consume (rw ew pos) m.0 a in
    let k = inspect-config l q.key q.now q.consume in
    let later = Capped-later max window t q.now log m.0 a.logged_past c in
    run-Capped_from max window r.1 _ q.now cs (k.0 ∙ em) (k.1 ∙ ew) pos i.1
      (Capped-logged max window q.now log (bucket_of l q.key q.now) q.consume r.0 pos
        (rw (← ew, ← em) i.0) later)
      m.1

-- At the end of every run from the constructor with a clock that does not go back, whatever was
-- asked and whichever rows were dropped on the way, no bucket has more than `max` admissions inside
-- the window.
pub run-Capped :
    (max window : ℕ) (max_keys : Option ℕ) (l : SlidingWindowLimiter) (cs : List Call)
    → new_limiter max window max_keys ≡ some l
    → Monotone 0 cs
    → Capped max window (last_now 0 cs) (log_of [] (run l cs))
run-Capped max window max_keys l cs e m =
    let s = start-Agrees max window max_keys l e in
    run-Capped_from max window l [] 0 cs s.1 s.2 s.3 s.0 (λ k. omega arith) m
