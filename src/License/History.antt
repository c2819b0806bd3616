-- ===== src/License/History.antt =====
-- Histories of the licence store (license.ts): what holds after any sequence of operations.
use wickhunter_hub.Prelude.{
  ℕ, ◌≡◌, ◌≢◌, refl, sym, ap, ◌∙◌, String, true, Option, none, List, [], ◌∷◌, lookup, contains, inl,
  inr, arith, ◌⊎◌, subst,
}
use wickhunter_hub.License.Types.{
  Text, LicensePayload, LicenseFiles, LicenseRecord, Result, ok, err, Codec, valid,
}
use wickhunter_hub.License.Store.{
  verify, token_for, issue_until, is_revoked, get, set_expiry, renew_lifetime_token, revoke,
  extend_all, extend_each, extend_one, ExtendReport, list,
}
use wickhunter_hub.License.Tokens.{issue_until_ok}
use wickhunter_hub.License.Registry.{
  IsRegistry, insert-IsRegistry, set_expiry-IsRegistry, set_expiry_cases, renew-IsRegistry,
  renew_cases, revoke-registry, revoke_lem, after,
}
use wickhunter_hub.License.Extend.{extend_one-files}

pub data Operation : Type 0 where
  issues : String → ℕ → String → ℕ → Option String → String → Operation
  sets_expiry : String → ℕ → Operation
  renews : String → ℕ → Operation
  revokes : String → String → Operation
  extends : ℕ → Operation

extend_each-IsRegistry :
    (exp : ℕ) (s : ExtendReport) (recs : List LicenseRecord)
    → IsRegistry s.files
    → IsRegistry (extend_each exp s recs).files
unfolding extend_each
extend_each-IsRegistry exp s [] v = v
extend_each-IsRegistry exp s (rec ∷ recs) v =
    extend_each-IsRegistry exp (extend_one exp s rec) recs (elim (extend_one-files exp s rec) [
      | inl e ↦ subst IsRegistry (sym e) v
      | inr (_, e) ↦ subst IsRegistry (sym e) (set_expiry-IsRegistry s.files rec.id exp v)
    ])

set_expiry-revocations :
    (f : LicenseFiles) (id : String) (exp : ℕ)
    → (after f (set_expiry f id exp)).revocations ≡ f.revocations
set_expiry-revocations f id exp = elim (set_expiry_cases f id exp) [
  | inl (_, e) ↦ rw e refl
  | inr (p, g, inr (_, e)) ↦ rw e refl
  | inr (p, g, inl (_, _, e)) ↦ rw e refl
]

renew-revocations :
    (f : LicenseFiles) (id : String) (now : ℕ)
    → (after f (renew_lifetime_token f id now)).revocations ≡ f.revocations
renew-revocations f id now = elim (renew_cases f id now) [
  | inl e ↦ rw e refl
  | inr (p, g, _, e) ↦ rw e refl
]

extend_each-revocations :
    (exp : ℕ) (s : ExtendReport) (recs : List LicenseRecord)
    → (extend_each exp s recs).files.revocations ≡ s.files.revocations
unfolding extend_each
extend_each-revocations exp s [] = refl
extend_each-revocations exp s (rec ∷ recs) =
    extend_each-revocations exp (extend_one exp s rec) recs ∙ elim (extend_one-files exp s rec) [
      | inl e ↦ ap (λ (g : LicenseFiles). g.revocations) e
      | inr (_, e) ↦
          ap (λ (g : LicenseFiles). g.revocations) e ∙ set_expiry-revocations s.files rec.id exp
    ]

-- What `is_revoked` reads.
revoked_by :
    (f g : LicenseFiles) (id : String)
    → g.revocations ≡ f.revocations
    → is_revoked f id ≡ true
    → is_revoked g id ≡ true
unfolding is_revoked
revoked_by f g id e h = ap (contains id) e ∙ h

module _ (c : Codec) where
  -- A failed issue writes nothing.
  abbrev pub issued_files :
      LicenseFiles → Result (LicensePayload × Text × LicenseFiles) → LicenseFiles
  issued_files f (ok (p, token, f')) = f'
  issued_files f (err e) = f

  unfoldable pub step : LicenseFiles → Operation → LicenseFiles
  step f (issues name exp plan now reserved random_id) =
      issued_files f (issue_until c f name exp plan now reserved random_id)
  step f (sets_expiry id exp) = after f (set_expiry f id exp)
  step f (renews id now) = after f (renew_lifetime_token f id now)
  step f (revokes id iso_now) = (revoke f id iso_now).1
  step f (extends exp) = (extend_all f exp).files

  unfoldable pub run : LicenseFiles → List Operation → LicenseFiles
  run f [] = f
  run f (o ∷ os) = run (step f o) os

  issued_cases :
      (f : LicenseFiles) (r : Result (LicensePayload × Text × LicenseFiles))
      → (issued_files f r ≡ f)
        ⊎ ((p : LicensePayload) × (token : Text) × (f' : LicenseFiles) × (r ≡ ok (p, token, f'))
            × (issued_files f r ≡ f'))
  issued_cases f (ok (p, token, f')) = inr (p, token, f', refl, refl)
  issued_cases f (err e) = inl refl

  step-IsRegistry : (f : LicenseFiles) (o : Operation) → IsRegistry f → IsRegistry (step f o)
  unfolding step extend_all
  step-IsRegistry f (issues name exp plan now reserved random_id) v =
      elim (issued_cases f (issue_until c f name exp plan now reserved random_id)) [
        | inl e ↦ rw e v
        | inr (p, token, f', e, g) ↦
            let (_, files, _, _, iat, ex, lo, hi, _) =
              issue_until_ok c f f' name plan exp now reserved random_id p token e in
            rw (g, files)
              (insert-IsRegistry f p.id p v
                (record { own_id = refl; positive = omega arith; bounded = omega arith }))
      ]
  step-IsRegistry f (sets_expiry id exp) v = set_expiry-IsRegistry f id exp v
  step-IsRegistry f (renews id now) v = renew-IsRegistry f id now v
  step-IsRegistry f (revokes id iso_now) v =
      λ k p e. v k p (ap (lookup k) (sym (revoke-registry f id iso_now)) ∙ e)
  step-IsRegistry f (extends exp) v = extend_each-IsRegistry exp _ (list f) v

  -- After any history that starts from a well-formed registry, an empty one for example, every
  -- payload is stored under its own id and its term is between 1 ms and 3650 days.
  pub run-IsRegistry :
      (f : LicenseFiles) (os : List Operation) → IsRegistry f → IsRegistry (run f os)
  unfolding run
  run-IsRegistry f [] v = v
  run-IsRegistry f (o ∷ os) v = run-IsRegistry (step f o) os (step-IsRegistry f o v)

  step_keeps_revoked :
      (f : LicenseFiles) (o : Operation) (id : String)
      → is_revoked f id ≡ true
      → is_revoked (step f o) id ≡ true
  unfolding step extend_all
  step_keeps_revoked f (issues name exp plan now reserved random_id) id h =
      elim (issued_cases f (issue_until c f name exp plan now reserved random_id)) [
        | inl e ↦ rw e h
        | inr (p, token, f', e, g) ↦
            let files = (issue_until_ok c f f' name plan exp now reserved random_id p token e).1 in
            revoked_by f _ id (ap (λ (x : LicenseFiles). x.revocations) (g ∙ files)) h
      ]
  step_keeps_revoked f (sets_expiry id' exp) id h =
      revoked_by f _ id (set_expiry-revocations f id' exp) h
  step_keeps_revoked f (renews id' now) id h = revoked_by f _ id (renew-revocations f id' now) h
  step_keeps_revoked f (revokes id' iso_now) id h =
      (revoke_lem f id' id iso_now iso_now).1 ∙ ground (arith, h)
  step_keeps_revoked f (extends exp) id h =
      revoked_by f _ id (extend_each-revocations exp _ (list f)) h

  run_keeps_revoked :
      (f : LicenseFiles) (os : List Operation) (id : String)
      → is_revoked f id ≡ true
      → is_revoked (run f os) id ≡ true
  unfolding run
  run_keeps_revoked f [] id h = h
  run_keeps_revoked f (o ∷ os) id h =
      run_keeps_revoked (step f o) os id (step_keeps_revoked f o id h)

  -- Revocation is for good. Once an id is revoked, then after any further history no token of that
  -- id verifies, the Hub makes no copy of its token, and `get` does not find it.
  pub run_revoked :
      (f : LicenseFiles) (os : List Operation) (id : String) (token : Text) (now : ℕ)
      (p : LicensePayload)
      → is_revoked f id ≡ true
      → p.id ≡ id
      → let g = run f os in
        (verify c g token now ≢ valid p) × (token_for c g id ≡ none) × (get g id ≡ none)
  unfolding verify token_for get
  run_revoked f os id token now p h e =
      let g = run f os in
      let r = run_keeps_revoked f os id h in
      ((λ eq. ground (arith, r, e, eq)), ground (arith, r), ground (arith, r))
