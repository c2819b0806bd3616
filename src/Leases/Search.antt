-- ===== src/Leases/Search.antt =====
-- `lowerBoundChallenge`, the binary search in the challenges of a licence (license-leases.ts), against
-- a scan of them.
use wickhunter_hub.Prelude.{
  ℕ, zero, suc, ◌+◌, ◌-◌, ◌/◌, ◌≤◌, ◌<◌, ◌≡◌, refl, ap, ◌∙◌, Bool, some, List, [], ◌∷◌, ltb, leb,
  length, filter, drop, get_elem?, All, arith, Bool-cases, inl, inr,
}
use wickhunter_hub.Leases.Types.{ChallengeFacts}
use wickhunter_hub.Leases.Service.{search_challenge, lower_bound_challenge}

-- The rows come in the order of a column.
abbrev pub Sorted : (ChallengeFacts → ℕ) → List ChallengeFacts → Type 0
Sorted select [] = Unit
Sorted select (r ∷ rows) = All (λ x. select r ≤ select x) rows × Sorted select rows

module _ (select : ChallengeFacts → ℕ) (value : ℕ) where
  abbrev up_to : ChallengeFacts → Bool
  up_to r = leb (select r) value

  abbrev later : ChallengeFacts → Bool
  later r = ltb value (select r)

  none_up_to :
      (r : ChallengeFacts) (rows : List ChallengeFacts)
      → value < select r
      → All (λ x. select r ≤ select x) rows
      → (filter up_to rows ≡ []) × (filter later rows ≡ rows)
  none_up_to r [] h a = (refl, refl)
  none_up_to r (x ∷ rows) h a = ground (arith, h, a.0, none_up_to r rows h a.1)

  get_elem-all :
      (P : ℕ) (rows : List ChallengeFacts) (i : ℕ) (x : ChallengeFacts)
      → All (λ y. P ≤ select y) rows
      → get_elem? rows i ≡ some x
      → P ≤ select x
  get_elem-all P [] i x a e = cc
  get_elem-all P (y ∷ rows) zero x a e = ground (arith, a.0, e)
  get_elem-all P (y ∷ rows) (suc i) x a e = get_elem-all P rows i x a.1 e

  -- A row is up to the value where it stands before the count of such rows.
  before_count :
      (rows : List ChallengeFacts) (i : ℕ) (x : ChallengeFacts)
      → Sorted select rows
      → get_elem? rows i ≡ some x
      → up_to x ≡ ltb i (length (filter up_to rows))
  before_count [] i x s e = cc
  before_count (r ∷ rows) zero x s e = elim (Bool-cases (up_to r)) [
    | inl low ↦ ground (arith, low, e)
    | inr high ↦ ground (arith, high, e, none_up_to r rows (ground (arith, high)) s.0)
  ]
  before_count (r ∷ rows) (suc i) x s e = elim (Bool-cases (up_to r)) [
    | inl low ↦ ground (arith, low, before_count rows i x s.1 e)
    | inr high ↦ ground (
      arith,
      high,
      none_up_to r rows (ground (arith, high)) s.0,
      get_elem-all (select r) rows i x s.0 e,
    )
  ]

  get_elem-some :
      (rows : List ChallengeFacts) (i : ℕ)
      → i < length rows
      → (x : ChallengeFacts) × (get_elem? rows i ≡ some x)
  get_elem-some [] i h = absurd (omega (arith, h))
  get_elem-some (r ∷ rows) zero h = (r, refl)
  get_elem-some (r ∷ rows) (suc i) h = get_elem-some rows i (omega (arith, h))

  search_challenge-count :
      (rows : List ChallengeFacts) (fuel lo hi : ℕ)
      → Sorted select rows
      → hi - lo ≤ fuel
      → lo ≤ length (filter up_to rows)
      → length (filter up_to rows) ≤ hi
      → hi ≤ length rows
      → search_challenge select rows value fuel lo hi ≡ length (filter up_to rows)
  unfolding search_challenge
  search_challenge-count rows zero lo hi s f a b c = omega (arith, f, a, b)
  search_challenge-count rows (suc fuel) lo hi s f a b c = elim (Bool-cases (ltb lo hi)) [
    | inr met ↦ ground (arith, met, a, b)
    | inl apart ↦
        let mid = lo + (hi - lo) / 2 in
        let less : lo < hi = ground (arith, apart) in
        let inside : mid < hi = omega (arith, less) in
        let (x, here) = get_elem-some rows mid (omega (arith, inside, c)) in
        let side = before_count rows mid x s here in
        elim (Bool-cases (up_to x)) [
          | inl low ↦
              rw (apart, here, low)
                (search_challenge-count rows fuel (mid + 1) hi s (omega (arith, f, less))
                  (ground (arith, side, low)) b c)
          | inr high ↦
              rw (apart, here, high)
                (search_challenge-count rows fuel lo mid s (omega (arith, f, less)) a
                  (ground (arith, side, high)) (omega (arith, inside, c)))
        ]
  ]

  count-length : (rows : List ChallengeFacts) → length (filter up_to rows) ≤ length rows
  count-length [] = omega arith
  count-length (r ∷ rows) = ground (arith, count-length rows)

  drop-count :
      (rows : List ChallengeFacts)
      → Sorted select rows
      → drop (length (filter up_to rows)) rows ≡ filter later rows
  drop-count [] s = refl
  drop-count (r ∷ rows) s = elim (Bool-cases (up_to r)) [
    | inl low ↦ ground (arith, low, drop-count rows s.1)
    | inr high ↦ ground (arith, high, none_up_to r rows (ground (arith, high)) s.0)
  ]

  -- On rows in the order of the column, the binary search ends, within one step for each row, at the
  -- number of rows that are up to the value; the rows from there on are exactly the later ones.
  pub lower_bound_challenge_lem :
      (rows : List ChallengeFacts)
      → Sorted select rows
      → (lower_bound_challenge rows value select ≡ length (filter (λ r. leb (select r) value) rows))
        × (drop (lower_bound_challenge rows value select) rows
            ≡ filter (λ r. ltb value (select r)) rows)
  unfolding lower_bound_challenge
  lower_bound_challenge_lem rows s =
      let found =
        search_challenge-count rows (length rows) 0 (length rows) s (omega arith) (omega arith)
          (count-length rows) (omega arith) in
      (found, ap (λ n. drop n rows) found ∙ drop-count rows s)
