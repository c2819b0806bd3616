-- ===== src/Sockets/Slices.antt =====
-- The slices of the symbols and the delays between attempts (net/socket-pool.ts).
use wickhunter_hub.Prelude.{ℕ, ◌+◌, ◌*◌, ◌/◌, ◌≤◌, ◌≡◌, String, List, [], ◌∷◌, ◌++◌, arith}
use wickhunter_hub.Sockets.{Adapter, backoff, jittered}

abbrev pub joined : List (List String) → List String
joined [] = []
joined (x ∷ xs) = x ++ joined xs

rounded :
    (w n : ℕ)
    → n ≤ 1000 * w
    → ((1000 * w + n + 1000) / 2000 ≤ w) × (w ≤ 2 * ((1000 * w + n + 1000) / 2000))
rounded w n le = (omega arith, omega arith)

times :
    (w j : ℕ) → j ≤ 1000 → (w * j ≤ 1000 * w) × (w * (1000 + j) + 1000 ≡ 1000 * w + w * j + 1000)
times w j le = (grind arith, grind arith)

-- The delay before an attempt is never above the ceiling, and at least half of the backoff, whatever
-- the random number (in thousandths).
pub jittered_bounds :
    (a : Adapter) (attempts jitter : ℕ)
    → jitter ≤ 1000
    → (jittered a (backoff a attempts) jitter ≤ a.reconnect_max_ms)
      × (backoff a attempts ≤ 2 * jittered a (backoff a attempts) jitter)
unfolding jittered backoff
jittered_bounds a attempts jitter le =
    let w = backoff a attempts in
    let (small, same) = times w jitter le in
    let r = rounded w (w * jitter) small in rw same (omega (arith, r.0), r.1)
