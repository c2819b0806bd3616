-- ===== src/Leases/Bindings.antt =====
-- One machine, one seat (license-leases.ts): the active activations of a licence have different install
-- ids and different keys.
use wickhunter_hub.Prelude.{
  ℕ, ◌≡◌, ◌≢◌, sym, ap, ◌∙◌, subst, String, Bool, true, false, ◌||◌, none, some, List, [], ◌∷◌,
  Dict, lookup, insert, filter, arith, Bool-cases, inl, inr, str_eq, eq_iff, lookup-insert,
}
use wickhunter_hub.Leases.Types.{
  LeaseActivation, EventBody, install, admin, LedgerLine, LedgerHead, ReplayState, empty_replay,
  LicenseLeaseConfig, Env,
}
use wickhunter_hub.Leases.Replay.{is_active, update, line_hash, cache_appended_event}
use wickhunter_hub.Leases.Service.{values, active_on, find_first}
use wickhunter_hub.Leases.Moves.{
  Moves, challenged, created, renewed, rebound, ended_by, overridden, observed, IsState,
  same_install, same_key, collides,
}
use wickhunter_hub.Leases.Find.{own-lookup}
use wickhunter_hub.Leases.Issues.{Issues-Moves}
use wickhunter_hub.Leases.Reach.{
  Reaches, starts, writes, Reaches-IsState, append_event-ok, starts-state,
}
use wickhunter_hub.Leases.Limits.{noted-update}

-- Two entries of the activations, active on one licence, that are on one machine are one entry.
abbrev pub OnePerMachine : Dict LeaseActivation → Type 0
OnePerMachine d =
    (j k lic : String) (a b : LeaseActivation)
    → lookup j d ≡ some a
    → lookup k d ≡ some b
    → active_on lic a ≡ true
    → active_on lic b ≡ true
    → (same_install a b || same_key a b) ≡ true
    → j ≡ k

find_first-none :
    (p : LeaseActivation → Bool) (lic k : String) (b : LeaseActivation) (d : Dict LeaseActivation)
    → find_first p (filter (active_on lic) (values d)) ≡ none
    → lookup k d ≡ some b
    → active_on lic b ≡ true
    → p b ≡ false
find_first-none p lic k b [] h e on = cc
find_first-none p lic k b ((j, c) ∷ d) h e on = elim (Bool-cases (str_eq j k)) [
  | inl here ↦
      let same : c ≡ b = ground (arith, here, e) in
      let on_c : active_on lic c ≡ true = ap (active_on lic) same ∙ on in
      ap p (sym same) ∙ ground (arith, on_c, h)
  | inr there ↦ find_first-none p lic k b d (ground (arith, h)) (ground (arith, there, e)) on
]

same_machine_sym :
    (a b : LeaseActivation)
    → (same_install a b || same_key a b) ≡ true
    → (same_install b a || same_key b a) ≡ true
same_machine_sym a b h = ground (
  arith,
  h,
  eq_iff a.install_id b.install_id,
  eq_iff b.install_id a.install_id,
  eq_iff a.install_public_key b.install_public_key,
  eq_iff b.install_public_key a.install_public_key,
)

-- Storing an activation keeps the rule where it is on no machine of another active entry.
insert-OnePerMachine :
    (a : LeaseActivation) (d : Dict LeaseActivation)
    → OnePerMachine d
    → ((k lic : String) (b : LeaseActivation)
        → lookup k d ≡ some b
        → a.id ≢ k
        → active_on lic a ≡ true
        → active_on lic b ≡ true
        → (same_install a b || same_key a b) ≡ false)
    → OnePerMachine (insert a.id a d)
insert-OnePerMachine a d one alone j k lic x y ex ey on_x on_y same =
    elim (Bool-cases (str_eq a.id j)) [
      | inl at_j ↦ elim (Bool-cases (str_eq a.id k)) [
        | inl at_k ↦ sym ((eq_iff a.id j).0 at_j) ∙ (eq_iff a.id k).0 at_k
        | inr not_k ↦
            let is_a : a ≡ x = ground (arith, at_j, ex, lookup-insert a.id j a d) in
            let old : lookup k d ≡ some y = ground (arith, not_k, ey, lookup-insert a.id k a d) in
            let apart =
              alone k lic y old (λ e. ground (arith, not_k, e, eq_iff a.id k))
                (ap (active_on lic) is_a ∙ on_x) on_y in
            absurd (ground (arith, apart, same, ap (λ z. same_install z y || same_key z y) is_a))
      ]
      | inr not_j ↦ elim (Bool-cases (str_eq a.id k)) [
        | inl at_k ↦
            let is_a : a ≡ y = ground (arith, at_k, ey, lookup-insert a.id k a d) in
            let old : lookup j d ≡ some x = ground (arith, not_j, ex, lookup-insert a.id j a d) in
            let apart =
              alone j lic x old (λ e. ground (arith, not_j, e, eq_iff a.id j))
                (ap (active_on lic) is_a ∙ on_y) on_x in
            absurd (
              ground (
                arith,
                apart,
                same_machine_sym x a (ap (λ z. same_install x z || same_key x z) is_a ∙ same),
              ))
        | inr not_k ↦
            one j k lic x y (ground (arith, not_j, ex, lookup-insert a.id j a d))
              (ground (arith, not_k, ey, lookup-insert a.id k a d)) on_x on_y same
      ]
    ]

ended-OnePerMachine :
    (a : LeaseActivation) (d : Dict LeaseActivation)
    → OnePerMachine d
    → is_active a ≡ false
    → OnePerMachine (insert a.id a d)
ended-OnePerMachine a d one off =
    insert-OnePerMachine a d one (λ k lic b e ne on_a on_b. absurd (ground (arith, off, on_a)))

module _ (env : Env) (config : LicenseLeaseConfig) where
  update-OnePerMachine :
      (s : ReplayState) {at : ℕ} (b : EventBody)
      → IsState s
      → OnePerMachine s.activations
      → Moves env config s at b
      → OnePerMachine (update s b).activations
  unfolding update
  update-OnePerMachine s _ v one (challenged c new fine onwards ends) = one
  update-OnePerMachine s b v one
        (created hash c a lease opened first new on sealed free room no_id no_key) =
      insert-OnePerMachine a s.activations one (λ k lic b e ne on_a on_b.
        let here = (eq_iff a.license_id lic).0 (ground (arith, on_a)) in
        let on_b' = subst (λ l. active_on l b ≡ true) (sym here) on_b in
        ground (
          arith,
          find_first-none (same_install a) a.license_id k b s.activations no_id e on_b',
          find_first-none (same_key a) a.license_id k b s.activations no_key e on_b',
        ))
  update-OnePerMachine s b v one (renewed hash c prior a lease opened here next license on sealed) =
      insert-OnePerMachine a s.activations one (λ k lic b e ne on_a on_b.
        let on_p : active_on lic prior ≡ true = ground (arith, next, license, on_a) in
        let ids = (eq_iff a.install_id prior.install_id).0 (ground (arith, next)) in
        let keys =
          (eq_iff a.install_public_key prior.install_public_key).0 (ground (arith, next)) in
        elim (Bool-cases (same_install a b || same_key a b)) [
          | inl same ↦
              absurd
                (ne (one a.id k lic prior b here e on_p on_b (ground (arith, same, ids, keys))))
          | inr differs ↦ differs
        ])
  update-OnePerMachine s b v one
        (rebound hash c prior a lease opened here next license on sealed alone) =
      insert-OnePerMachine a s.activations one (λ k lic b e ne on_a on_b.
        let at_lic = (eq_iff a.license_id lic).0 (ground (arith, on_a)) in
        let on_b' = subst (λ l. active_on l b ≡ true) (sym at_lic) on_b in
        let apart = find_first-none (collides a) a.license_id k b s.activations alone e on_b' in
        let own = own-lookup k b s.activations v.own e in
        let other : str_eq b.id a.id ≡ false = ground (arith, eq_iff b.id a.id, own, ne) in
        ground (arith, apart, other))
  update-OnePerMachine s b v one (ended_by none install reason prior a here next off passes) =
      ended-OnePerMachine a s.activations one off
  update-OnePerMachine s b v one (ended_by none admin reason prior a here next off passes) =
      ended-OnePerMachine a s.activations one off
  update-OnePerMachine s b v one
        (ended_by (some hash) install reason prior a here next off passes) =
      ended-OnePerMachine a s.activations one off
  update-OnePerMachine s b v one (ended_by (some hash) admin reason prior a here next off passes) =
      ended-OnePerMachine a s.activations one off
  update-OnePerMachine s b v one (overridden id none reason room) = one
  update-OnePerMachine s b v one (overridden id (some n) reason room) = one
  update-OnePerMachine s b v one (observed id reason) = one

  -- In every state of a service, two entries that are active on one licence with one install id or with
  -- one key are the same entry: a machine holds at most one seat of a licence.
  pub Reaches-OnePerMachine :
      (lines : List LedgerLine) (head : LedgerHead) (s : ReplayState)
      → Reaches env config lines head s
      → OnePerMachine s.activations
  unfolding cache_appended_event
  Reaches-OnePerMachine _ _ _ (starts e line head t first h) =
      let (_, _, _, _, state) = append_event-ok env config empty_replay e none line head t h in
      subst (λ (x : ReplayState). OnePerMachine x.activations)
        (sym (starts-state env config e (line_hash env line) first) ∙ state)
        (λ j k lic a b ea eb on_a on_b same. absurd (ground (arith, ea)))
  Reaches-OnePerMachine _ _ _ (writes lines before s e expected line head t r i h) =
      let (_, _, _, _, state) = append_event-ok env config s e expected line head t h in
      let v = Reaches-IsState env config lines before s r in
      let after =
        update-OnePerMachine s e.body v (Reaches-OnePerMachine lines before s r)
          (Issues-Moves env config s e v i) in
      subst (λ (x : ReplayState). OnePerMachine x.activations) state
        (subst OnePerMachine (sym (noted-update s e e.body).0) after)
