-- ===== src/Leases/Find.antt =====
-- Looking activations and challenges up in a replayed state (license-leases.ts).
use wickhunter_hub.Prelude.{
  ◌≡◌, sym, ap, ◌∙◌, subst, String, Bool, true, false, not, ◌&&◌, Option, none, some, [], ◌∷◌, Dict,
  lookup, insert, str_eq, eq_iff, filter, All, arith, keys, Unique, Absent, Bool-cases, inl, inr,
}
use wickhunter_hub.Leases.Types.{
  LeaseActivation, ReplayState, ChallengeFacts, ok, throw_if, ◌>>=◌, stale_challenge,
}
use wickhunter_hub.Leases.Chain.{bind-ok, ok-injective}
use wickhunter_hub.Leases.Replay.{is_active, names_binding, same_number}
use wickhunter_hub.Leases.Service.{
  values, active_on, active_of, find_first, activation_for, binding_current,
}
use wickhunter_hub.Leases.Moves.{IsState}
use wickhunter_hub.Leases.Invert.{activation_for-ok}

pub All-lookup {ℓ κ} :
    {V : Type ℓ} (P : V → Type κ) (k : String) (v : V) (d : Dict V)
    → All (λ e. P e.1) d
    → lookup k d ≡ some v
    → P v
All-lookup P k v [] h e = cc
All-lookup P k v ((j, w) ∷ d) h e = elim (Bool-cases (str_eq j k)) [
  | inl here ↦ subst P (ground (arith, here, e)) h.0
  | inr there ↦ All-lookup P k v d h.1 (ground (arith, there, e))
]

pub All-insert {ℓ κ} :
    {V : Type ℓ} (P : String × V → Type κ) (k : String) (v : V) (d : Dict V)
    → All P d
    → P (k, v)
    → ((j : String) → j ≡ k → P (j, v))
    → All P (insert k v d)
All-insert P k v [] h p same = (p, tt)
All-insert P k v ((j, w) ∷ d) h p same = elim (Bool-cases (str_eq j k)) [
  | inl here ↦ rw here (same j ((eq_iff j k).0 here), h.1)
  | inr there ↦ rw there (h.0, All-insert P k v d h.1 p same)
]

-- An activation is stored under its own id.
pub own-lookup :
    (k : String) (a : LeaseActivation) (d : Dict LeaseActivation)
    → All (λ e. e.1.id ≡ e.0) d
    → lookup k d ≡ some a
    → a.id ≡ k
own-lookup k a [] h e = cc
own-lookup k a ((j, b) ∷ d) h e = elim (Bool-cases (str_eq j k)) [
  | inl here ↦
      let same : b ≡ a = ground (arith, here, e) in
      ap (λ (x : LeaseActivation). x.id) (sym same) ∙ (h.0 ∙ (eq_iff j k).0 here)
  | inr there ↦ own-lookup k a d h.1 (ground (arith, there, e))
]

Absent-other :
    (k j : String) (a : LeaseActivation) (d : Dict LeaseActivation)
    → Absent k (keys d)
    → lookup j d ≡ some a
    → str_eq k j ≡ false
Absent-other k j a [] h e = cc
Absent-other k j a ((i, b) ∷ d) h e = elim (Bool-cases (str_eq i j)) [
  | inl here ↦ ground (arith, here, h.0, eq_iff i j, eq_iff k j, eq_iff i k)
  | inr there ↦ Absent-other k j a d h.1 (ground (arith, there, e))
]

-- What a search of the values finds is stored under its own id.
find-values :
    (p : LeaseActivation → Bool) (lic : String) (a : LeaseActivation) (d : Dict LeaseActivation)
    → All (λ e. e.1.id ≡ e.0) d
    → Unique (keys d)
    → find_first p (filter (active_on lic) (values d)) ≡ some a
    → (lookup a.id d ≡ some a) × (p a ≡ true) × (active_on lic a ≡ true)
find-values p lic a [] h u e = cc
find-values p lic a ((k, b) ∷ d) h u e = elim (Bool-cases (active_on lic b && p b)) [
  | inl here ↦
      let same : b ≡ a = ground (arith, here, e) in
      let key : k ≡ a.id = sym h.0 ∙ ap (λ (x : LeaseActivation). x.id) same in
      (
        ground (arith, eq_iff k a.id, key, same),
        subst (λ x. p x ≡ true) same (ground (arith, here)),
        subst (λ x. active_on lic x ≡ true) same (ground (arith, here)),
      )
  | inr there ↦
      let (found, fits, on) = find-values p lic a d h.1 u.1 (ground (arith, there, e)) in
      (ground (arith, found, Absent-other k a.id a d u.0), fits, on)
]

pub find-active :
    (p : LeaseActivation → Bool) (lic : String) (a : LeaseActivation) (s : ReplayState)
    → IsState s
    → find_first p (active_of s lic) ≡ some a
    → (lookup a.id s.activations ≡ some a) × (p a ≡ true) × (active_on lic a ≡ true)
find-active p lic a s v e = find-values p lic a s.activations v.own v.unique e

some-case {ℓ} :
    {A : Type ℓ} {r : A} (o : Option String) (k : String) (other : A) (next : String → A)
    → o ≡ some k
    → ◌≡◌ {A = A} (elim o [ none ↦ other | some j ↦ next j ]) r
    → next k ≡ r
some-case none k other next h e = cc
some-case (some j) k other next h e = let same : j ≡ k = cc in ap next (sym same) ∙ e

-- The machine that a challenge names, where its binding is current.
pub bound-activation :
    (s : ReplayState) (lic : String) (facts : ChallengeFacts) (a : LeaseActivation)
    → IsState s
    → binding_current s lic facts ≡ ok tt
    → activation_for s lic facts.activation_id ≡ ok a
    → (names_binding facts a ≡ true)
      × (lookup a.id s.activations ≡ some a)
      × (str_eq a.license_id lic ≡ true)
      × (is_active a ≡ true)
unfolding binding_current
bound-activation s lic facts a v bound e =
    let (k, id, found, license, on) = activation_for-ok s lic facts.activation_id a e in
    let key = own-lookup k a s.activations v.own found in
    let current = λ (b : LeaseActivation).
      same_number facts.activation_revision (some b.revision)
      && str_eq b.install_id facts.install_id
      && str_eq b.install_public_key facts.install_public_key in
    let named =
      some-case facts.activation_id k (ok tt)
        (λ j. activation_for s lic (some j) >>= λ b. throw_if (not (current b)) stale_challenge) id
        bound in
    let (b, got, fits) =
      bind-ok (activation_for s lic (some k)) (λ b. throw_if (not (current b)) stale_challenge)
        named in
    let same : b ≡ a = ok-injective (sym got ∙ (ap (activation_for s lic) (sym id) ∙ e)) in
    let true_of : current b ≡ true = ground (arith, fits) in
    let fits_a : current a ≡ true = ap current (sym same) ∙ true_of in
    (
      ground (
        arith,
        id,
        fits_a,
        key,
        eq_iff a.id k,
        eq_iff k a.id,
        eq_iff a.install_id facts.install_id,
        eq_iff facts.install_id a.install_id,
        eq_iff a.install_public_key facts.install_public_key,
        eq_iff facts.install_public_key a.install_public_key,
      ),
      ap (λ j. lookup j s.activations) key ∙ found,
      license,
      on,
    )
