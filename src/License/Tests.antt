-- ===== src/License/Tests.antt =====
-- Concrete licences (license.ts): tests, and instances of the theorems.
use wickhunter_hub.Prelude.{
  ◌≤◌, ◌<◌, ◌≡◌, ◌≢◌, refl, true, none, some, List, [], ◌∷◌, lookup, arith, ◌⊎◌, str_eq, ◌&&◌, ◌||◌,
  if◌then◌else◌, Bool-cases, inl, inr, eq_iff,
}
use wickhunter_hub.License.Types.{
  LicensePayload, LicenseFiles, ok, err, valid, invalid, bad_days, expired,
}
use wickhunter_hub.License.Text.{split, same_text}
use wickhunter_hub.License.Store.{
  token_of, token_for, verify, issue, issue_until, is_revoked, is_known, get, revoke, extend_all,
  extend_one,
}
use wickhunter_hub.License.Tokens.{verify-issue_until}
use wickhunter_hub.License.Registry.{IsRegistry, revoke_lem}
use wickhunter_hub.License.Extend.{extend_all_never_shortens, extend_all_reaches}
use wickhunter_hub.License.History.{
  Operation, issues, sets_expiry, renews, extends, run, run-IsRegistry, run_revoked,
}
use wickhunter_hub.License.SampleCodec.{sample, sample-IsCodec}

abbrev ann : LicensePayload
ann = record { v = 1; id = "a"; name = "Ann"; exp = 2000; iat = 1000; plan = "beta" }

abbrev bob : LicensePayload
bob = record { v = 1; id = "b"; name = "Bob"; exp = 9000; iat = 1500; plan = "beta" }

abbrev hub : LicenseFiles
hub = record {
  has_key = true;
  registry = ("a", ann) ∷ ("b", bob) ∷ [];
  revocations = ("b", "then") ∷ [];
}

abbrev cy : LicensePayload
cy = record { v = 1; id = "c"; name = "Cy"; exp = 5000; iat = 3000; plan = "beta" }

abbrev hub_and_cy : LicenseFiles
hub_and_cy = record hub { registry = ("a", ann) ∷ ("b", bob) ∷ ("c", cy) ∷ [] }

issue_cy :
    issue_until sample hub " Cy " 5000 "beta" 3000 none "c"
    ≡ ok (cy, token_of sample cy, hub_and_cy)
unfolding issue_until
issue_cy = refl

verify-issue_until_example :
    (verify sample hub_and_cy (token_of sample cy) 4000 ≡ valid cy)
    × (token_for sample hub_and_cy "c" ≡ some (token_of sample cy))
unfolding is_revoked
verify-issue_until_example =
    verify-issue_until sample sample-IsCodec hub hub_and_cy " Cy " "beta" 5000 3000 4000 none "c" cy
      (token_of sample cy) refl issue_cy refl (omega arith)

-- Outside of the theorem's conditions.
verify-late : verify sample hub_and_cy (token_of sample cy) 5000 ≡ invalid expired
unfolding verify split same_text
verify-late = refl

issue-no_days : issue sample hub "Cy" 0 3000 "c" ≡ err bad_days
unfolding issue
issue-no_days = refl

hub-IsRegistry : IsRegistry hub
hub-IsRegistry k p e = elim (Bool-cases (str_eq "a" k)) [
  | inl h ↦
      let same : ann ≡ p = ground arith in
      let key : "a" ≡ k = (eq_iff "a" k).0 h in
      record {
        own_id = rw (← same, ← key) refl;
        positive = rw (← same) (omega arith);
        bounded = rw (← same) (omega arith);
      }
  | inr h ↦ elim (Bool-cases (str_eq "b" k)) [
    | inl g ↦
        let same : bob ≡ p = ground arith in
        let key : "b" ≡ k = (eq_iff "b" k).0 g in
        record {
          own_id = rw (← same, ← key) refl;
          positive = rw (← same) (omega arith);
          bounded = rw (← same) (omega arith);
        }
    | inr g ↦ absurd (ground (arith, e, h, g))
  ]
]

revoke_lem_example :
    let r = revoke hub "a" "now" in
    (r.0 ≡ is_known hub "a")
    × (is_revoked r.1 "a" ≡ (is_revoked hub "a" || (str_eq "a" "a" && is_known hub "a")))
    × (lookup "a" r.1.revocations ≡ (
        if is_revoked hub "a"
        then lookup "a" hub.revocations
        else (if str_eq "a" "a" && is_known hub "a" then some "now" else none)))
    × (revoke r.1 "a" "later" ≡ r)
revoke_lem_example = revoke_lem hub "a" "a" "now" "later"

abbrev history : List Operation
history =
    issues "Cy" 5000 "beta" 3000 none "c"
    ∷ renews "b" 6000
    ∷ sets_expiry "b" 7000
    ∷ extends 8000
    ∷ []

run-IsRegistry_example : IsRegistry (run sample hub history)
run-IsRegistry_example = run-IsRegistry sample hub history hub-IsRegistry

run_revoked_example :
    let g = run sample hub history in
    (verify sample g (token_of sample bob) 2000 ≢ valid bob)
    × (token_for sample g "b" ≡ none)
    × (get g "b" ≡ none)
unfolding is_revoked
run_revoked_example = run_revoked sample hub history "b" (token_of sample bob) 2000 bob refl refl

extend_all_never_shortens_example :
    ((extend_all hub 8000).files.revocations ≡ hub.revocations)
    × ((q : LicensePayload) × (lookup "b" (extend_all hub 8000).files.registry ≡ some q)
        × (q.iat ≡ 1500)
        × ((q.exp ≡ 9000) ⊎ ((q.exp ≡ 8000) × (9000 < 8000))))
extend_all_never_shortens_example =
    extend_all_never_shortens hub 8000 hub-IsRegistry ((refl, tt), (tt, tt)) "b" bob refl

extend_all_reaches_example :
    (q : LicensePayload) × (lookup "a" (extend_all hub 8000).files.registry ≡ some q)
    × (8000 ≤ q.exp)
unfolding is_revoked
extend_all_reaches_example =
    extend_all_reaches hub 8000 hub-IsRegistry ((refl, tt), (tt, tt)) "a" ann refl refl
      (omega arith) (omega arith)

-- The same extension by evaluation: Ann moves to the date, Bob is revoked and stays.
extend_all-hub : (extend_all hub 8000).extended ≡ record ann { exp = 8000 } ∷ []
unfolding extend_all extend_one
extend_all-hub = refl
