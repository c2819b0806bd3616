-- ===== src/License/Extend.antt =====
-- `extendAll` (license.ts): one date for every live licence, never an earlier one.
use wickhunter_hub.Prelude.{
  ℕ, ◌+◌, ◌≤◌, ◌<◌, ◌≡◌, refl, sym, ap, ◌∙◌, String, true, false, Option, none, some, List, [], ◌∷◌,
  ◌++◌, Dict, lookup, insert, lookup-insert, lookup-insert_self, leb, str_eq, eq_iff, Bool-cases,
  inl, inr, arith, ◌⊎◌, subst, All, keys, Unique,
}
use wickhunter_hub.License.Types.{
  LicensePayload, LicenseRecord, LicenseFiles, Result, ok, err, max_term_ms,
}
use wickhunter_hub.License.Store.{
  is_revoked, get, set_expiry, ExtendReport, extend_one, extend_each, extend_all, list, record_of,
  is_some,
}
use wickhunter_hub.License.Registry.{
  IsRegistry, set_expiry_cases, set_expiry_ok, get_live, get-lookup, after,
}
use wickhunter_hub.License.Records.{All-records, records-All, Own, All-Own}

pub extend_one-files :
    (exp : ℕ) (s : ExtendReport) (rec : LicenseRecord)
    → ((extend_one exp s rec).files ≡ s.files)
      ⊎ ((rec.exp < exp)
          × ((extend_one exp s rec).files ≡ after s.files (set_expiry s.files rec.id exp)))
unfolding extend_one
extend_one-files exp s rec = elim (Bool-cases (is_some rec.revoked_at)) [
  | inl a ↦ inl (rw a refl)
  | inr a ↦ elim (Bool-cases (leb exp rec.exp)) [
    | inl b ↦ inl (rw (a, b) refl)
    | inr b ↦ inr (ground arith, rw (a, b) (stored (set_expiry s.files rec.id exp)))
  ]
]
  where
    stored :
        (r : Result (Option LicensePayload × LicenseFiles))
        → (let t : ExtendReport = elim r [
          | err e ↦ record s { refused = s.refused ++ (rec.id, e) ∷ [] }
          | ok (none, f) ↦ record s { files = f }
          | ok (some p, f) ↦ record s { files = f; extended = s.extended ++ p ∷ [] }
        ] in
            t.files)
          ≡ after s.files r
    stored (ok (none, f)) = refl
    stored (ok (some p, f)) = refl
    stored (err e) = refl

-- One turn leaves the files alone, or moves the expiry of its licence to the date.
pub extend_one_change :
    (exp : ℕ) (s : ExtendReport) (rec : LicenseRecord)
    → ((extend_one exp s rec).files ≡ s.files)
      ⊎ ((rec.exp < exp)
          × ((p : LicensePayload) × (get s.files rec.id ≡ some p)
              × ((extend_one exp s rec).files ≡ record s.files {
                registry = insert rec.id (record p { exp = exp }) s.files.registry;
              })))
extend_one_change exp s rec = elim (extend_one-files exp s rec) [
  | inl e ↦ inl e
  | inr (lt, e) ↦ elim (set_expiry_cases s.files rec.id exp) [
    | inl (_, g) ↦ inl (e ∙ ap (after s.files) g)
    | inr (p, g, inr (_, h)) ↦ inl (e ∙ h)
    | inr (p, g, inl (_, _, h)) ↦ inr (lt, (p, g, e ∙ ap (after s.files) h))
  ]
]

module _ (f : LicenseFiles) (exp : ℕ) where
  -- Every licence of `f` is still there, with its issue date, and expires when it did or at `exp`,
  -- the latter only where that is later.
  record Tracks (g : LicenseFiles) : Type 0 where
    same_revocations : g.revocations ≡ f.revocations
    kept :
        (id : String) (p : LicensePayload)
        → lookup id f.registry ≡ some p
        → (q : LicensePayload) × (lookup id g.registry ≡ some q)
          × (q.iat ≡ p.iat)
          × ((q.exp ≡ p.exp) ⊎ ((q.exp ≡ exp) × (p.exp < exp)))

  abbrev Listed : LicenseRecord → Type 0
  Listed rec =
      (lookup rec.id f.registry ≡ some rec.payload) × (rec.revoked_at ≡ lookup rec.id f.revocations)

  moved-Tracks :
      (g : LicenseFiles) (rec : LicenseRecord) (p : LicensePayload)
      → Listed rec
      → Tracks g
      → rec.exp < exp
      → get g rec.id ≡ some p
      → Tracks (record g { registry = insert rec.id (record p { exp = exp }) g.registry })
  moved-Tracks g rec p l t lt e = record {
    same_revocations = t.same_revocations;
    kept = λ id p₀ e₀.
        let (q, eq, iat, cases) = t.kept id p₀ e₀ in
        let moved = record p { exp = exp } in
        elim (Bool-cases (str_eq rec.id id)) [
          | inr other ↦ (q, ground (arith, lookup-insert rec.id id moved g.registry), iat, cases)
          | inl own ↦
              let key : rec.id ≡ id = (eq_iff rec.id id).0 own in
              let now : lookup id g.registry ≡ some p =
                ap (λ k. lookup k g.registry) (sym key) ∙ (get-lookup g rec.id p e).0 in
              let first : lookup id f.registry ≡ some rec.payload =
                ap (λ k. lookup k f.registry) (sym key) ∙ l.0 in
              (
                moved,
                ground (arith, lookup-insert rec.id id moved g.registry),
                ground (arith, now, eq, iat),
                inr (refl, ground (arith, first, e₀, lt)),
              )
        ];
  }

  extend_one-Tracks :
      (s : ExtendReport) (rec : LicenseRecord)
      → Listed rec
      → Tracks s.files
      → Tracks (extend_one exp s rec).files
  extend_one-Tracks s rec l t = elim (extend_one_change exp s rec) [
    | inl e ↦ subst Tracks (sym e) t
    | inr (lt, (p, g, e)) ↦ subst Tracks (sym e) (moved-Tracks s.files rec p l t lt g)
  ]

  extend_each-Tracks :
      (s : ExtendReport) (recs : List LicenseRecord)
      → All Listed recs
      → Tracks s.files
      → Tracks (extend_each exp s recs).files
  unfolding extend_each
  extend_each-Tracks s [] l t = t
  extend_each-Tracks s (rec ∷ recs) l t =
      extend_each-Tracks (extend_one exp s rec) recs l.1 (extend_one-Tracks s rec l.0 t)

  -- The licence with this id expires at the date at the earliest.
  abbrev Reached : String → LicenseFiles → Type 0
  Reached id g = (q : LicensePayload) × (lookup id g.registry ≡ some q) × (exp ≤ q.exp)

  extend_one-Reached :
      (s : ExtendReport) (rec : LicenseRecord) (id : String)
      → Reached id s.files
      → Reached id (extend_one exp s rec).files
  extend_one-Reached s rec id (q, e, le) = elim (extend_one_change exp s rec) [
    | inl same ↦ subst (Reached id) (sym same) (q, e, le)
    | inr (lt, (p, g, change)) ↦
        let moved = record p { exp = exp } in
        subst (Reached id) (sym change) (elim (Bool-cases (str_eq rec.id id)) [
          | inl own ↦
              (moved, ground (arith, lookup-insert rec.id id moved s.files.registry), omega arith)
          | inr other ↦ (q, ground (arith, lookup-insert rec.id id moved s.files.registry), le)
        ])
  ]

  extend_each-Reached :
      (s : ExtendReport) (recs : List LicenseRecord) (id : String)
      → Reached id s.files
      → Reached id (extend_each exp s recs).files
  unfolding extend_each
  extend_each-Reached s [] id r = r
  extend_each-Reached s (rec ∷ recs) id r =
      extend_each-Reached (extend_one exp s rec) recs id (extend_one-Reached s rec id r)

  -- The turn of a live licence whose term allows the date.
  turn-Reached :
      (s : ExtendReport) (rec : LicenseRecord)
      → Listed rec
      → Tracks s.files
      → rec.revoked_at ≡ none
      → rec.iat < exp
      → exp ≤ rec.iat + max_term_ms
      → Reached rec.id (extend_one exp s rec).files
  unfolding extend_one
  turn-Reached s rec l t live lo hi =
      let (q, e, iat, cases) = t.kept rec.id rec.payload l.0 in
      elim (Bool-cases (leb exp rec.exp)) [
        | inl past ↦ subst (Reached rec.id) (sym (skip past)) (q, e, ground (arith, past, cases))
        | inr short ↦
            subst (Reached rec.id)
              (sym (
                change q short (
                  set_expiry_ok s.files rec.id exp q
                    (get_live s.files rec.id q e
                      (ap (lookup rec.id) t.same_revocations ∙ sym l.1 ∙ live))
                    (omega arith) (omega arith))))
              (
                record q { exp = exp },
                lookup-insert_self rec.id (record q { exp = exp }) s.files.registry,
                omega arith,
              )
      ]
    where
      change :
          (q : LicensePayload)
          → leb exp rec.exp ≡ false
          → set_expiry s.files rec.id exp
            ≡ ok (
              some (record q { exp = exp }),
              record s.files { registry = insert rec.id (record q { exp = exp }) s.files.registry },
            )
          → (extend_one exp s rec).files
            ≡ record s.files { registry = insert rec.id (record q { exp = exp }) s.files.registry }
      change q h e = rw (live, h, e) refl

      skip : leb exp rec.exp ≡ true → (extend_one exp s rec).files ≡ s.files
      skip h = rw (live, h) refl

  -- What the loop has achieved for the records that it has seen.
  abbrev Settled : LicenseFiles → LicenseRecord → Type 0
  Settled g rec =
      rec.revoked_at ≡ none → rec.iat < exp → exp ≤ rec.iat + max_term_ms → Reached rec.id g

  extend_each-Settled :
      (s : ExtendReport) (recs : List LicenseRecord)
      → All Listed recs
      → Tracks s.files
      → All (Settled (extend_each exp s recs).files) recs
  unfolding extend_each
  extend_each-Settled s [] l t = tt
  extend_each-Settled s (rec ∷ recs) l t =
      let next = extend_one exp s rec in
      (
        (λ live lo hi. extend_each-Reached next recs rec.id (turn-Reached s rec l.0 t live lo hi)),
        extend_each-Settled next recs l.1 (extend_one-Tracks s rec l.0 t),
      )

unrevoked :
    (f : LicenseFiles) (id : String) → is_revoked f id ≡ false → lookup id f.revocations ≡ none
unfolding is_revoked
unrevoked f id h = ground arith

module _ (f : LicenseFiles) (exp : ℕ) (v : IsRegistry f) (u : Unique (keys f.registry)) where
  start-Tracks : Tracks f exp f
  start-Tracks = record { same_revocations = refl; kept = λ id p e. (p, e, refl, inl refl) }

  listed : All (Listed f exp) (list f)
  unfolding list
  listed = All-records (Listed f exp) f f.registry (each f.registry (All-Own f.registry u))
    where
      each :
          (d : Dict LicensePayload)
          → All (Own f.registry) d
          → All (λ e. Listed f exp (record_of f e.1)) d
      each [] h = tt
      each ((k, p) ∷ d) h =
          ((ap (λ j. lookup j f.registry) (v k p h.0).own_id ∙ h.0, refl), each d h.1)

  -- In a well-formed registry that lists each id once, extending every licence to one date drops no
  -- licence, shortens none, changes no revocation and
  -- sets no expiry but that date: each licence expires afterwards when it did before, or at the date
  -- where that is later.
  pub extend_all_never_shortens :
      (id : String) (p : LicensePayload)
      → lookup id f.registry ≡ some p
      → ((extend_all f exp).files.revocations ≡ f.revocations)
        × ((q : LicensePayload) × (lookup id (extend_all f exp).files.registry ≡ some q)
            × (q.iat ≡ p.iat)
            × ((q.exp ≡ p.exp) ⊎ ((q.exp ≡ exp) × (p.exp < exp))))
  unfolding extend_all
  extend_all_never_shortens id p e =
      let t = extend_each-Tracks f exp _ (list f) listed start-Tracks in
      (t.same_revocations, t.kept id p e)

  -- In a well-formed registry that lists each id once, and after extending to a date, every live
  -- licence for which the date lies in the term of 3650 days from its issue expires at the date or
  -- later.
  pub extend_all_reaches :
      (id : String) (p : LicensePayload)
      → lookup id f.registry ≡ some p
      → is_revoked f id ≡ false
      → p.iat < exp
      → exp ≤ p.iat + max_term_ms
      → (q : LicensePayload) × (lookup id (extend_all f exp).files.registry ≡ some q)
        × (exp ≤ q.exp)
  unfolding extend_all list
  extend_all_reaches id p e live lo hi =
      let own = (v id p e).own_id in
      let settled = extend_each-Settled f exp _ (list f) listed start-Tracks in
      subst (λ k. Reached f exp k (extend_all f exp).files) own
        (records-All (Settled f exp (extend_all f exp).files) f f.registry id p settled e
          (unrevoked f p.id (ap (is_revoked f) own ∙ live)) lo hi)
