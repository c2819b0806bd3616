-- ===== src/RateLimit/Window/Rows.antt =====
-- What the limiter's housekeeping keeps of its rows (ratelimit.ts): every stamp in the window.
use wickhunter_hub.Prelude.{
  ℕ, ◌≤◌, ◌≡◌, refl, String, Bool, true, not, ◌||◌, List, [], ◌∷◌, ◌++◌, Dict, lookup, insert,
  erase, contains, filter, or_else, str_eq, eq_iff, All, if◌then◌else◌, arith, keys, Unique, Absent,
  Absent-filter, Unique-filter, lookup-Absent, filter-append, lookup-insert, lookup-erase_self,
  lookup-erase_ne, Bool-cases, inl, inr,
}
use wickhunter_hub.RateLimit.Window.{
  live, recent, is_empty, purge, prune, bounded_key, SlidingWindowLimiter, has_room,
}

-- The stamps of a bucket.
abbrev pub row : String → Dict (List ℕ) → List ℕ
row k rows = or_else (lookup k rows) []

pub recent-recent : (w t : ℕ) (xs : List ℕ) → recent w t (recent w t xs) ≡ recent w t xs
recent-recent w t [] = refl
recent-recent w t (x ∷ xs) = ground (arith, recent-recent w t xs)

-- A later window keeps nothing that the earlier one dropped.
pub recent-later :
    (w s t : ℕ) (xs : List ℕ)
    → s ≤ t
    → All (λ x. x ≤ s) xs
    → recent w t (recent w s xs) ≡ recent w t xs
recent-later w s t [] h a = refl
recent-later w s t (x ∷ xs) h a = ground (arith, recent-later w s t xs h a.1)

pub recent-snoc :
    (w t : ℕ) (xs : List ℕ) → 1 ≤ w → recent w t (xs ++ t ∷ []) ≡ recent w t xs ++ t ∷ []
recent-snoc w t xs h = rw (filter-append (live w t) xs (t ∷ [])) (ground arith)

pub is_empty-eq {ℓ} : {A : Type ℓ} (xs : List A) → is_empty xs ≡ true → xs ≡ []
is_empty-eq [] h = refl
is_empty-eq (x ∷ xs) h = cc

pub row-purge :
    (w t : ℕ) (k : String) (d : Dict (List ℕ))
    → Unique (keys d)
    → recent w t (row k (purge w t d)) ≡ recent w t (row k d)
row-purge w t k [] u = refl
row-purge w t k ((j, xs) ∷ d) u = ground (
  arith,
  eq_iff j k,
  row-purge w t k d u.1,
  is_empty-eq (recent w t xs),
  lookup-Absent j d u.0,
  lookup-Absent j (purge w t d) (Absent-filter (λ e. not (is_empty (recent w t e.1))) j d u.0),
)

pub Absent-prune :
    (w t : ℕ) (k : String) (d : Dict (List ℕ)) → Absent k (keys d) → Absent k (keys (prune w t d))
unfolding prune
Absent-prune w t k [] h = tt
Absent-prune w t k ((j, xs) ∷ d) h = ground (arith, Absent-prune w t k d h.1)

pub Unique-prune : (w t : ℕ) (d : Dict (List ℕ)) → Unique (keys d) → Unique (keys (prune w t d))
unfolding prune
Unique-prune w t [] u = tt
Unique-prune w t ((j, xs) ∷ d) u = ground (arith, Absent-prune w t j d u.0, Unique-prune w t d u.1)

pub row-prune :
    (w t : ℕ) (k : String) (d : Dict (List ℕ))
    → Unique (keys d)
    → row k (prune w t d) ≡ recent w t (row k d)
unfolding prune
row-prune w t k [] u = refl
row-prune w t k ((j, xs) ∷ d) u = ground (
  arith,
  eq_iff j k,
  row-prune w t k d u.1,
  is_empty-eq (recent w t xs),
  lookup-Absent j d u.0,
  lookup-Absent j (prune w t d) (Absent-prune w t j d u.0),
)

pub row-insert :
    (k j : String) (v : List ℕ) (d : Dict (List ℕ))
    → row j (insert k v d) ≡ (if str_eq k j then v else row j d)
row-insert k j v d = ground (arith, lookup-insert k j v d)

pub row-erase :
    (k j : String) (d : Dict (List ℕ))
    → Unique (keys d)
    → row j (erase k d) ≡ (if str_eq k j then [] else row j d)
row-erase k j d u = elim (Bool-cases (str_eq k j)) [
  | inl e ↦ ground (arith, eq_iff k j, lookup-erase_self k d u)
  | inr e ↦ ground (arith, eq_iff k j, lookup-erase_ne k j d)
]

-- Choosing a bucket drops expired rows at most.
pub bounded_key_rows :
    (l : SlidingWindowLimiter) (raw k : String) (t : ℕ)
    → Unique (keys l.rows)
    → let d = (bounded_key l raw t).1 in
      Unique (keys d) × (recent l.window_ms t (row k d) ≡ recent l.window_ms t (row k l.rows))
unfolding bounded_key
bounded_key_rows l raw k t u =
    let p = Unique-filter (λ e. not (is_empty (recent l.window_ms t e.1))) l.rows u in
    let q = row-purge l.window_ms t k l.rows u in
    let d = purge l.window_ms t l.rows in
    elim (Bool-cases (contains raw l.rows || has_room l.max_keys l.rows)) [
      | inl e ↦ rw e (u, refl)
      | inr e ↦ elim (Bool-cases (contains raw d || has_room l.max_keys d)) [
        | inl f ↦ rw (e, f) (p, q)
        | inr f ↦ rw (e, f) (p, q)
      ]
    ]

All-filter : (p : ℕ → Bool) (P : ℕ → Type 0) (xs : List ℕ) → All P xs → All P (filter p xs)
All-filter p P [] h = tt
All-filter p P (x ∷ xs) h = ground (arith, All-filter p P xs h.1)

row-purge-All :
    (P : ℕ → Type 0) (w t : ℕ) (k : String) (d : Dict (List ℕ))
    → Unique (keys d)
    → All P (row k d)
    → All P (row k (purge w t d))
row-purge-All P w t k [] u h = tt
row-purge-All P w t k ((j, xs) ∷ d) u h = ground (
  arith,
  eq_iff j k,
  row-purge-All P w t k d u.1,
  lookup-Absent j (purge w t d) (Absent-filter (λ e. not (is_empty (recent w t e.1))) j d u.0),
)

pub bounded_key-All :
    (P : ℕ → Type 0) (l : SlidingWindowLimiter) (raw k : String) (t : ℕ)
    → Unique (keys l.rows)
    → All P (row k l.rows)
    → All P (row k (bounded_key l raw t).1)
unfolding bounded_key
bounded_key-All P l raw k t u h =
    let q = row-purge-All P l.window_ms t k l.rows u h in
    let d = purge l.window_ms t l.rows in
    elim (Bool-cases (contains raw l.rows || has_room l.max_keys l.rows)) [
      | inl e ↦ rw e h
      | inr e ↦ elim (Bool-cases (contains raw d || has_room l.max_keys d)) [
        | inl f ↦ rw (e, f) q
        | inr f ↦ rw (e, f) q
      ]
    ]

pub All-recent : (w t : ℕ) (xs : List ℕ) → All (λ x. x ≤ t) (recent w t xs)
All-recent w t [] = tt
All-recent w t (x ∷ xs) = ground (arith, All-recent w t xs)

pub All-later : (s t : ℕ) (xs : List ℕ) → s ≤ t → All (λ x. x ≤ s) xs → All (λ x. x ≤ t) xs
All-later s t [] h a = tt
All-later s t (x ∷ xs) h a = (omega arith, All-later s t xs h a.1)

pub All-snoc : (P : ℕ → Type 0) (x : ℕ) (xs : List ℕ) → All P xs → P x → All P (xs ++ x ∷ [])
All-snoc P x [] h p = (p, tt)
All-snoc P x (y ∷ xs) h p = (h.0, All-snoc P x xs h.1 p)
