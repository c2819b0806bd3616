-- ===== src/License/Records.antt =====
-- The records that `list` gives (license.ts) are those of the registry, in another order.
use wickhunter_hub.Prelude.{
  ◌≡◌, String, some, List, [], ◌∷◌, Dict, lookup, leb, str_eq, eq_iff, Bool-cases, inl, inr, arith,
  subst, Absent, All, keys, Unique,
}
use wickhunter_hub.License.Types.{LicensePayload, LicenseRecord, LicenseFiles}
use wickhunter_hub.License.Store.{records, insert_sorted, record_of}

-- The records of `list` are those of the registry.
All-insert_sorted {ℓ} :
    (P : LicenseRecord → Type ℓ) (r : LicenseRecord) (xs : List LicenseRecord)
    → P r
    → All P xs
    → All P (insert_sorted r xs)
unfolding insert_sorted
All-insert_sorted P r [] p h = (p, tt)
All-insert_sorted P r (x ∷ xs) p h = elim (Bool-cases (leb x.iat r.iat)) [
  | inl e ↦ rw e (p, h)
  | inr e ↦ rw e (h.0, All-insert_sorted P r xs p h.1)
]

All-inserted {ℓ} :
    (P : LicenseRecord → Type ℓ) (r : LicenseRecord) (xs : List LicenseRecord)
    → All P (insert_sorted r xs)
    → P r × All P xs
unfolding insert_sorted
All-inserted P r [] h = h
All-inserted P r (x ∷ xs) h = elim (Bool-cases (leb x.iat r.iat)) [
  | inl e ↦ rw e at h
  | inr e ↦
      let h' : P x × All P (insert_sorted r xs) = rw e at h in
      let (p, rest) = All-inserted P r xs h'.1 in (p, (h'.0, rest))
]

pub All-records {ℓ} :
    (P : LicenseRecord → Type ℓ) (f : LicenseFiles) (d : Dict LicensePayload)
    → All (λ e. P (record_of f e.1)) d
    → All P (records f d)
unfolding records
All-records P f [] h = tt
All-records P f ((k, p) ∷ d) h =
    All-insert_sorted P (record_of f p) (records f d) h.0 (All-records P f d h.1)

pub records-All {ℓ} :
    (P : LicenseRecord → Type ℓ) (f : LicenseFiles) (d : Dict LicensePayload) (id : String)
    (p : LicensePayload)
    → All P (records f d)
    → lookup id d ≡ some p
    → P (record_of f p)
unfolding records
records-All P f [] id p h e = cc
records-All P f ((k, q) ∷ d) id p h e =
    let (here, rest) = All-inserted P (record_of f q) (records f d) h in
    elim (Bool-cases (str_eq k id)) [
      | inl s ↦ let same : q ≡ p = ground (arith, s) in subst (λ x. P (record_of f x)) same here
      | inr s ↦ records-All P f d id p rest (ground (arith, s))
    ]

abbrev pub Own : Dict LicensePayload → String × LicensePayload → Type 0
Own full e = lookup e.0 full ≡ some e.1

Own-cons :
    (k : String) (p : LicensePayload) (full d : Dict LicensePayload)
    → Absent k (keys d)
    → All (Own full) d
    → All (Own ((k, p) ∷ full)) d
Own-cons k p full [] a h = tt
Own-cons k p full ((j, q) ∷ d) a h =
    (ground (arith, eq_iff k j, eq_iff j k, a.0, h.0), Own-cons k p full d a.1 h.1)

pub All-Own : (d : Dict LicensePayload) → Unique (keys d) → All (Own d) d
All-Own [] u = tt
All-Own ((k, p) ∷ d) u = (ground (arith, eq_iff k k), Own-cons k p d d u.0 (All-Own d u.1))
