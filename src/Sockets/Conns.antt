-- ===== src/Sockets/Conns.antt =====
-- Looking connections up and storing them (net/socket-pool.ts).
use wickhunter_hub.Prelude.{
  ℕ, ◌<◌, ◌≡◌, ◌≢◌, refl, sym, ap, ◌∙◌, true, some, List, [], ◌∷◌, ◌++◌, ◌==◌, All, Option-cases,
  Bool-cases, inl, inr, arith, subst,
}
use wickhunter_hub.Sockets.{Conn, Pool, find_conn, store, current}

pub find_conn-key : (k : ℕ) (cs : List Conn) (c : Conn) → find_conn k cs ≡ some c → c.key ≡ k
unfolding find_conn
find_conn-key k [] c e = cc
find_conn-key k (d ∷ cs) c e = elim (Bool-cases (d.key == k)) [
  | inl here ↦
      let same : d ≡ c = ground (arith, here, e) in
      ap (λ (x : Conn). x.key) (sym same) ∙ ground (arith, here)
  | inr later ↦ find_conn-key k cs c (ground (arith, later, e))
]

pub find_conn-store :
    (c old : Conn) (cs : List Conn)
    → find_conn c.key cs ≡ some old
    → find_conn c.key (store c cs) ≡ some c
unfolding find_conn store
find_conn-store c old [] e = cc
find_conn-store c old (d ∷ cs) e = elim (Bool-cases (d.key == c.key)) [
  | inl here ↦ ground (arith, here)
  | inr later ↦ ground (arith, later, find_conn-store c old cs (ground (arith, later, e)))
]

pub All-store {ℓ} :
    (P : Conn → Type ℓ) (c : Conn) (cs : List Conn) → All P cs → P c → All P (store c cs)
unfolding store
All-store P c [] h p = tt
All-store P c (d ∷ cs) h p = elim (Bool-cases (d.key == c.key)) [
  | inl here ↦ rw here (p, h.1)
  | inr later ↦ rw later (h.0, All-store P c cs h.1 p)
]

pub All-find {ℓ} :
    (P : Conn → Type ℓ) (k : ℕ) (cs : List Conn) (c : Conn)
    → All P cs
    → find_conn k cs ≡ some c
    → P c
unfolding find_conn
All-find P k [] c h e = cc
All-find P k (d ∷ cs) c h e = elim (Bool-cases (d.key == k)) [
  | inl here ↦ subst P (ground (arith, here, e)) h.0
  | inr later ↦ All-find P k cs c h.1 (ground (arith, later, e))
]

pub All-snoc {ℓ} :
    (P : Conn → Type ℓ) (c : Conn) (cs : List Conn) → All P cs → P c → All P (cs ++ c ∷ [])
All-snoc P c [] h p = (p, tt)
All-snoc P c (d ∷ cs) h p = (h.0, All-snoc P c cs h.1 p)

pub current-find :
    (p : Pool) (k g : ℕ) (c : Conn)
    → current p k g ≡ some c
    → (find_conn k p.conns ≡ some c) × (c.generation ≡ g) × (p.running ≡ true)
unfolding current
current-find p k g c e = elim (Option-cases (find_conn k p.conns)) [
  | inl n ↦ absurd (ground (arith, n, e))
  | inr (d, f) ↦
      let same : d ≡ c = ground (arith, f, e) in
      (
        f ∙ ap some same,
        ap (λ (x : Conn). x.generation) (sym same) ∙ ground (arith, f, e),
        ground (arith, f, e),
      )
]

-- A key that no connection has is found once it is pushed.
pub find_conn-fresh :
    (c : Conn) (cs : List Conn)
    → All (λ d. d.key < c.key) cs
    → find_conn c.key (cs ++ c ∷ []) ≡ some c
unfolding find_conn
find_conn-fresh c [] h = ground arith
find_conn-fresh c (d ∷ cs) h = ground (arith, h.0, find_conn-fresh c cs h.1)

pub find_conn-store_ne :
    (k : ℕ) (c : Conn) (cs : List Conn) → c.key ≢ k → find_conn k (store c cs) ≡ find_conn k cs
unfolding find_conn store
find_conn-store_ne k c [] h = refl
find_conn-store_ne k c (d ∷ cs) h = elim (Bool-cases (d.key == c.key)) [
  | inl here ↦ ground (arith, here, h)
  | inr later ↦ ground (arith, later, find_conn-store_ne k c cs h)
]

pub find_conn-snoc_ne :
    (k : ℕ) (c : Conn) (cs : List Conn) → c.key ≢ k → find_conn k (cs ++ c ∷ []) ≡ find_conn k cs
unfolding find_conn
find_conn-snoc_ne k c [] h = ground arith
find_conn-snoc_ne k c (d ∷ cs) h = ground (arith, find_conn-snoc_ne k c cs h)
