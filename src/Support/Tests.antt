-- ===== src/Support/Tests.antt =====
-- Concrete support sessions (support-session-limiter.ts): tests, and an instance of the theorem.
use wickhunter_hub.Prelude.{ℕ, ◌≡◌, refl, String, List, [], ◌∷◌, str_eq, ◌==◌, if◌then◌else◌, arith}
use wickhunter_hub.Support.Sketch.{SupportSessionLimiter, admissions, admit_session, initial}
use wickhunter_hub.Support.Spacing.{Spaced, admissions-Spaced}

-- Two addresses that share one cell of the four.
abbrev small : SupportSessionLimiter
small = record {
  window_ms = 100;
  max_admissions = 2;
  width = 4;
  word = λ address i. if str_eq address "a" then 5 else (if i == 0 then 1 else 2);
}

abbrev calls : List (String × ℕ)
calls = ("a", 120) ∷ ("a", 60) ∷ ("b", 50) ∷ ("a", 30) ∷ ("b", 20) ∷ ("a", 10) ∷ []

-- The third call of "a" is within the window of its first, the last one is not.
admitted_a : (admissions small "a" calls).1 ≡ 120 ∷ 30 ∷ 10 ∷ []
unfolding admissions admit_session initial
admitted_a = refl

admissions-Spaced_example : Spaced 100 2 (admissions small "a" calls).1
admissions-Spaced_example = admissions-Spaced small (omega arith) "a" calls
