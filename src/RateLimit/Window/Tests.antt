-- ===== src/RateLimit/Window/Tests.antt =====
-- A limiter of two requests in a second, one row of its own and the overflow row (ratelimit.ts).
use wickhunter_hub.Prelude.{
  ℕ, ◌≡◌, refl, String, Bool, true, false, some, List, [], ◌∷◌, arith, map,
}
use wickhunter_hub.RateLimit.Window.{SlidingWindowLimiter, new_limiter, take, peek, inspect}
use wickhunter_hub.RateLimit.Window.Spec.{Agrees, inspect-Agrees, bucket_of, logged, Log}
use wickhunter_hub.RateLimit.Window.Runs.{
  Call, run, Conforms, run-Conforms, Capped, run-Capped, log_of, start-Agrees,
}
use wickhunter_hub.RateLimit.Window.Retry.{retry_after_suffices}

abbrev small : SlidingWindowLimiter
small = record { rows = []; max = 1; window_ms = 1000; max_keys = 2; attempts = 0 }

abbrev call : String → ℕ → Bool → Call
call key now consume = record { key = key; now = now; consume = consume }

-- `b` finds no room beside `a` and shares the overflow bucket with `c`.
abbrev calls : List Call
calls =
    call "a" 10 true
    ∷ call "a" 20 true
    ∷ call "b" 30 true
    ∷ call "c" 40 true
    ∷ call "a" 1010 false
    ∷ []

run-Conforms_example : Conforms 1 1000 [] (run small calls)
unfolding new_limiter
run-Conforms_example =
    run-Conforms 1 1000 (some 2) small calls refl
      (omega arith, (omega arith, (omega arith, (omega arith, (omega arith, tt)))))

answers : List Bool
answers = map (λ o. o.ok) (run small calls)

answers-eq : answers ≡ true ∷ false ∷ true ∷ false ∷ true ∷ []
unfolding answers run inspect
answers-eq = refl

run-Capped_example : Capped 1 1000 1010 (log_of [] (run small calls))
unfolding new_limiter
run-Capped_example =
    run-Capped 1 1000 (some 2) small calls refl
      (omega arith, (omega arith, (omega arith, (omega arith, (omega arith, tt)))))

abbrev used : SlidingWindowLimiter
used = record small { rows = ("a", 10 ∷ []) ∷ []; attempts = 1 }

abbrev used_log : Log
used_log = ("a", 10) ∷ []

small-Agrees : Agrees small [] 0
unfolding new_limiter
small-Agrees = (start-Agrees 1 1000 (some 2) small refl).0

used-Agrees : Agrees used used_log 10
unfolding inspect
used-Agrees = (inspect-Agrees small [] "a" 0 10 true (omega arith) (omega arith) small-Agrees).1

inspect-Agrees_example :
    let r = inspect used "a" 500 true in
    (r.0.ok ≡ false) × Agrees r.1 (logged used_log (bucket_of used "a" 500) 500 true r.0) 500
unfolding inspect
inspect-Agrees_example =
    inspect-Agrees used used_log "a" 10 500 true (omega arith) (omega arith) used-Agrees

used-Capped : Capped 1 1000 500 used_log
used-Capped k = ground arith

retry_after_suffices_example : (peek (take used "a" 500).1 "a" 1500).0.ok ≡ true
unfolding take
retry_after_suffices_example =
    retry_after_suffices used used_log "a" 10 500 1500 (omega arith) (omega arith) (omega arith)
      used-Agrees used-Capped refl (omega arith)
