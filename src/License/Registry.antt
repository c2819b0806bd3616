-- ===== src/License/Registry.antt =====
-- What every operation keeps of the registry and the revocations (license.ts).
use wickhunter_hub.Prelude.{
  ℕ, ◌+◌, ◌≤◌, ◌<◌, ◌≡◌, refl, sym, ap, ◌∙◌, String, false, ◌&&◌, ◌||◌, Option, none, some, lookup,
  contains, insert, lookup-insert, lookup-insert_self, leb, ltb, str_eq, eq_iff, if◌then◌else◌,
  Option-cases, Bool-cases, inl, inr, arith, ◌⊎◌,
}
use wickhunter_hub.License.Types.{LicensePayload, LicenseFiles, Result, ok, err, max_term_ms}
use wickhunter_hub.License.Store.{
  is_revoked, is_known, get, set_expiry, renew_lifetime_token, revoke, max_safe_integer,
}

-- Every payload is stored under its own id, and its term is positive and at most 3650 days.
pub record IsEntry (k : String) (p : LicensePayload) : Type 0 where
  pub own_id : p.id ≡ k
  pub positive : p.iat < p.exp
  pub bounded : p.exp ≤ p.iat + max_term_ms

abbrev pub IsRegistry : LicenseFiles → Type 0
IsRegistry f = (k : String) (p : LicensePayload) → lookup k f.registry ≡ some p → IsEntry k p

pub insert-IsRegistry :
    (f : LicenseFiles) (j : String) (q : LicensePayload)
    → IsRegistry f
    → IsEntry j q
    → IsRegistry (record f { registry = insert j q f.registry })
insert-IsRegistry f j q v n k p e = elim (Bool-cases (str_eq j k)) [
  | inl h ↦
      let same : q ≡ p = ground (arith, lookup-insert j k q f.registry) in
      let key : j ≡ k = (eq_iff j k).0 h in
      record {
        own_id = ap (λ (x : LicensePayload). x.id) (sym same) ∙ n.own_id ∙ key;
        positive = rw (← same) n.positive;
        bounded = rw (← same) n.bounded;
      }
  | inr h ↦ v k p (ground (arith, lookup-insert j k q f.registry))
]

-- The files after an operation that may have failed.
abbrev pub after : LicenseFiles → Result (Option LicensePayload × LicenseFiles) → LicenseFiles
after f (ok (o, f')) = f'
after f (err e) = f

pub get-lookup :
    (f : LicenseFiles) (id : String) (p : LicensePayload)
    → get f id ≡ some p
    → (lookup id f.registry ≡ some p) × (is_revoked f id ≡ false)
unfolding get
get-lookup f id p e = ground arith

-- Both edits of an expiry: refused, or stored under the same id, name, plan and version.
pub set_expiry_cases :
    (f : LicenseFiles) (id : String) (exp : ℕ)
    → ((get f id ≡ none) × (set_expiry f id exp ≡ ok (none, f)))
      ⊎ ((p : LicensePayload) × (get f id ≡ some p)
          × (((p.iat < exp)
                × (exp ≤ p.iat + max_term_ms)
                × (set_expiry f id exp
                    ≡ ok (
                      some (record p { exp = exp }),
                      record f { registry = insert id (record p { exp = exp }) f.registry },
                    )))
              ⊎ (((exp ≤ p.iat) ⊎ (p.iat + max_term_ms < exp))
                  × (after f (set_expiry f id exp) ≡ f))))
unfolding set_expiry
set_expiry_cases f id exp = elim (Option-cases (get f id)) [
  | inl e ↦ inl (e, rw (e, set_expiry))
  | inr (p, e) ↦ inr (p, e, ground (arith, e))
]

pub set_expiry_ok :
    (f : LicenseFiles) (id : String) (exp : ℕ) (p : LicensePayload)
    → get f id ≡ some p
    → p.iat < exp
    → exp ≤ p.iat + max_term_ms
    → set_expiry f id exp
      ≡ ok (
        some (record p { exp = exp }),
        record f { registry = insert id (record p { exp = exp }) f.registry },
      )
unfolding set_expiry
set_expiry_ok f id exp p e lo hi = ground (arith, e)

pub get_live :
    (f : LicenseFiles) (id : String) (p : LicensePayload)
    → lookup id f.registry ≡ some p
    → lookup id f.revocations ≡ none
    → get f id ≡ some p
unfolding get is_revoked
get_live f id p e h = ground (arith, e, h)

-- An expiry edit keeps every entry under its own id with a term of 1 ms to 3650 days.
pub set_expiry-IsRegistry :
    (f : LicenseFiles) (id : String) (exp : ℕ)
    → IsRegistry f
    → IsRegistry (after f (set_expiry f id exp))
set_expiry-IsRegistry f id exp v = elim (set_expiry_cases f id exp) [
  | inl (_, e) ↦ rw e v
  | inr (p, g, inr (_, e)) ↦ rw e v
  | inr (p, g, inl (lo, hi, e)) ↦
      let n = v id p (get-lookup f id p g).0 in
      rw e (
        insert-IsRegistry f id (record p { exp = exp }) v
          (record { own_id = n.own_id; positive = lo; bounded = hi }))
]

-- A Lifetime renewal leaves the files alone, or stores a later expiry for a live licence.
pub renew_cases :
    (f : LicenseFiles) (id : String) (now : ℕ)
    → (after f (renew_lifetime_token f id now) ≡ f)
      ⊎ ((p : LicensePayload) × (get f id ≡ some p)
          × (p.exp < now + max_term_ms)
          × (after f (renew_lifetime_token f id now) ≡ record f {
            registry = insert id (record p { exp = now + max_term_ms; iat = now }) f.registry;
          }))
unfolding renew_lifetime_token
renew_cases f id now = elim (Bool-cases (leb now 0 || ltb max_safe_integer now)) [
  | inl h ↦ inl (rw h refl)
  | inr h ↦ elim (Option-cases (get f id)) [
    | inl e ↦ inl (rw (h, e, renew_lifetime_token) refl)
    | inr (p, e) ↦ elim (Bool-cases (leb (now + max_term_ms) p.exp)) [
      | inl g ↦ inl (rw (h, e, renew_lifetime_token) (rw g refl))
      | inr g ↦ inr (p, e, ground arith, rw (h, e, renew_lifetime_token) (rw g refl))
    ]
  ]
]

pub renew-IsRegistry :
    (f : LicenseFiles) (id : String) (now : ℕ)
    → IsRegistry f
    → IsRegistry (after f (renew_lifetime_token f id now))
renew-IsRegistry f id now v = elim (renew_cases f id now) [
  | inl e ↦ rw e v
  | inr (p, g, _, e) ↦
      let n = v id p (get-lookup f id p g).0 in
      rw e (
        insert-IsRegistry f id (record p { exp = now + max_term_ms; iat = now }) v
          (record { own_id = n.own_id; positive = omega arith; bounded = omega arith }))
]

pub revoke-registry :
    (f : LicenseFiles) (id iso_now : String) → (revoke f id iso_now).1.registry ≡ f.registry
unfolding revoke
revoke-registry f id iso_now = ground arith

-- Revoking. An id that the Hub issued is revoked afterwards and one that it did not is refused; what
-- was revoked stays revoked, with its first timestamp, so revoking twice changes nothing.
pub revoke_lem :
    (f : LicenseFiles) (id other iso_now later : String)
    → let r = revoke f id iso_now in
      (r.0 ≡ is_known f id)
      × (is_revoked r.1 other ≡ (is_revoked f other || (str_eq id other && is_known f id)))
      × (lookup other r.1.revocations ≡ (
          if is_revoked f other
          then lookup other f.revocations
          else (if str_eq id other && is_known f id then some iso_now else none)))
      × (revoke r.1 id later ≡ r)
unfolding revoke is_revoked is_known
revoke_lem f id other iso_now later = elim (Bool-cases (contains id f.registry)) [
  | inl k ↦ elim (Bool-cases (contains id f.revocations)) [
    | inl h ↦
        rw (k, h)
          (
            refl,
            ground (arith, h, eq_iff id other),
            ground (arith, h, eq_iff id other),
            ground (arith, k, h),
          )
    | inr h ↦
        rw (k, h)
          (
            refl,
            ground (arith, h, eq_iff id other, lookup-insert id other iso_now f.revocations),
            ground (arith, h, eq_iff id other, lookup-insert id other iso_now f.revocations),
            ground (arith, k, h, lookup-insert_self id iso_now f.revocations),
          )
  ]
  | inr k ↦ rw k (refl, ground (arith, k), ground (arith, k), ground (arith, k))
]
