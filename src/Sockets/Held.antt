-- ===== src/Sockets/Held.antt =====
-- The sockets that a list of connections holds (net/socket-pool.ts).
use wickhunter_hub.Prelude.{
  ℕ, ◌≡◌, refl, ap, Bool, true, false, ◌||◌, some, List, [], ◌∷◌, ◌++◌, ◌==◌, Bool-cases, inl, inr,
  arith,
}
use wickhunter_hub.Sockets.{Conn, find_conn, store, socks_of, held}

abbrev pub has : ℕ → List ℕ → Bool
has s [] = false
has s (x ∷ xs) = x == s || has s xs

pub has-append : (s : ℕ) (xs ys : List ℕ) → has s (xs ++ ys) ≡ (has s xs || has s ys)
has-append s [] ys = refl
has-append s (x ∷ xs) ys = ground (arith, has-append s xs ys)

pub held-append :
    (s : ℕ) (cs ds : List Conn) → has s (held (cs ++ ds)) ≡ (has s (held cs) || has s (held ds))
unfolding held
held-append s [] ds = refl
held-append s (c ∷ cs) ds = ground (
  arith,
  held-append s cs ds,
  has-append s (socks_of c.sock) (held cs),
  has-append s (socks_of c.sock) (held (cs ++ ds)),
)

-- Storing a connection drops the socket of the one that it replaces, and no other.
pub held-store :
    (s : ℕ) (c old : Conn) (cs : List Conn)
    → find_conn c.key cs ≡ some old
    → has s (held cs) ≡ true
    → (has s (socks_of old.sock) || has s (held (store c cs))) ≡ true
unfolding held find_conn store
held-store s c old [] e h = cc
held-store s c old (d ∷ cs) e h = elim (Bool-cases (d.key == c.key)) [
  | inl here ↦
      let same : d ≡ old = ground (arith, here, e) in
      let same_sock : d.sock ≡ old.sock = ap (λ (x : Conn). x.sock) same in
      ground (
        arith,
        here,
        same_sock,
        has-append s (socks_of d.sock) (held cs),
        has-append s (socks_of c.sock) (held cs),
      )
  | inr later ↦ ground (
    arith,
    later,
    has-append s (socks_of d.sock) (held cs),
    has-append s (socks_of d.sock) (held (store c cs)),
    held-store s c old cs (ground (arith, later, e)),
  )
]

pub held-store_new :
    (s : ℕ) (c old : Conn) (cs : List Conn)
    → find_conn c.key cs ≡ some old
    → has s (socks_of c.sock) ≡ true
    → has s (held (store c cs)) ≡ true
unfolding held find_conn store
held-store_new s c old [] e h = cc
held-store_new s c old (d ∷ cs) e h = elim (Bool-cases (d.key == c.key)) [
  | inl here ↦ ground (arith, here, h, has-append s (socks_of c.sock) (held cs))
  | inr later ↦ ground (
    arith,
    later,
    has-append s (socks_of d.sock) (held (store c cs)),
    held-store_new s c old cs (ground (arith, later, e)) h,
  )
]
