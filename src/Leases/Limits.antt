-- ===== src/Leases/Limits.antt =====
-- How many activations of a licence are active at a time (license-leases.ts).
use wickhunter_hub.Prelude.{
  ℕ, ◌+◌, ◌≤◌, ◌≡◌, refl, sym, ◌∙◌, subst, String, Bool, true, false, Option, none, some, List, [],
  ◌∷◌, Dict, lookup, insert, erase, length, filter, arith, keys, Unique, Unique-insert,
  Unique-erase, lookup-erase_self, Bool-cases, inl, inr, str_eq, eq_iff, or_else, lookup-insert,
  lookup-erase_ne,
}
use wickhunter_hub.Leases.Types.{
  LeaseActivation, LeaseAuditEvent, EventBody, install, admin, LedgerLine, LedgerHead, ReplayState,
  empty_replay, LicenseLeaseConfig, Env, ledger_initialized, challenge_issued, activation_created,
  lease_renewed, activation_rebound, activation_deactivated, seat_override_set,
  license_revocation_observed,
}
use wickhunter_hub.Leases.Replay.{update, noted, line_hash, cache_appended_event}
use wickhunter_hub.Leases.Service.{values, active_on, active_of, max_machines}
use wickhunter_hub.Leases.Moves.{
  Moves, challenged, created, renewed, rebound, ended_by, overridden, observed,
}
use wickhunter_hub.Leases.Issues.{Issues-Moves}
use wickhunter_hub.Leases.Reach.{
  Reaches, starts, writes, Reaches-IsState, append_event-ok, starts-state,
}

abbrev pub one : Bool → ℕ
one true = 1
one false = 0

abbrev pub stood : String → Option LeaseActivation → ℕ
stood lic none = 0
stood lic (some b) = one (active_on lic b)

-- Storing an activation moves the number of active ones by it and by the one it replaces.
pub count-insert :
    (lic k : String) (a : LeaseActivation) (d : Dict LeaseActivation)
    → length (filter (active_on lic) (values (insert k a d))) + stood lic (lookup k d)
      ≡ length (filter (active_on lic) (values d)) + one (active_on lic a)
count-insert lic k a [] = ground arith
count-insert lic k a ((j, b) ∷ d) = elim (Bool-cases (str_eq j k)) [
  | inl here ↦ rw here (ground arith)
  | inr there ↦ rw there (ground (arith, count-insert lic k a d))
]

-- At most the allowed number of machines is active on every licence, whatever override it has.
pub record IsWithin (config : LicenseLeaseConfig) (s : ReplayState) : Type 0 where
  pub distinct : Unique (keys s.seat_overrides)
  pub within : (lic : String) → length (active_of s lic) ≤ max_machines config s lic

pub noted-update :
    (s : ReplayState) (e : LeaseAuditEvent) (b : EventBody)
    → ((update (noted s e) b).activations ≡ (update s b).activations)
      × ((update (noted s e) b).seat_overrides ≡ (update s b).seat_overrides)
      × ((update (noted s e) b).admin_recovery_locked ≡ (update s b).admin_recovery_locked)
unfolding update
noted-update s e ledger_initialized = (refl, refl, refl)
noted-update s e (challenge_issued c) = (refl, refl, refl)
noted-update s e (activation_created n a l) = (refl, refl, refl)
noted-update s e (lease_renewed n a l) = (refl, refl, refl)
noted-update s e (activation_rebound n a l) = (refl, refl, refl)
noted-update s e (activation_deactivated none install r a) = (refl, refl, refl)
noted-update s e (activation_deactivated (some n) install r a) = (refl, refl, refl)
noted-update s e (activation_deactivated none admin r a) = (refl, refl, refl)
noted-update s e (activation_deactivated (some n) admin r a) = (refl, refl, refl)
noted-update s e (seat_override_set id none r) = (refl, refl, refl)
noted-update s e (seat_override_set id (some n) r) = (refl, refl, refl)
noted-update s e (license_revocation_observed id r) = (refl, refl, refl)

-- `t` holds what `s` holds with `a` stored.
replaced-IsWithin :
    (config : LicenseLeaseConfig) (s t : ReplayState) (a : LeaseActivation)
    → IsWithin config s
    → t.activations ≡ insert a.id a s.activations
    → t.seat_overrides ≡ s.seat_overrides
    → ((lic : String)
        → length (active_of s lic) + one (active_on lic a)
          ≤ max_machines config s lic + stood lic (lookup a.id s.activations))
    → IsWithin config t
replaced-IsWithin config s t a w stored kept room = record {
  distinct = subst (λ d. Unique (keys d)) (sym kept) w.distinct;
  within = λ lic.
      subst (λ d. length (filter (active_on lic) (values d)) ≤ max_machines config t lic)
        (sym stored)
        (subst
          (λ d.
            length (filter (active_on lic) (values (insert a.id a s.activations)))
            ≤ or_else (lookup lic d) config.default_max_machines)
          (sym kept) (omega (arith, count-insert lic a.id a s.activations, room lic)));
}

same_seat :
    (config : LicenseLeaseConfig) (s : ReplayState) (a prior : LeaseActivation) (lic : String)
    → IsWithin config s
    → lookup a.id s.activations ≡ some prior
    → (active_on lic a ≡ true → active_on lic prior ≡ true)
    → length (active_of s lic) + one (active_on lic a)
      ≤ max_machines config s lic + stood lic (lookup a.id s.activations)
same_seat config s a prior lic w here seat = rw here (ground (arith, seat, w.within lic))

module _ (env : Env) (config : LicenseLeaseConfig) where
  update-IsWithin :
      (s : ReplayState) {at : ℕ} (b : EventBody)
      → IsWithin config s
      → Moves env config s at b
      → IsWithin config (update s b)
  unfolding update
  update-IsWithin s _ w (challenged c new fine onwards ends) = record {
    distinct = w.distinct;
    within = w.within;
  }
  update-IsWithin s b w (created hash c a lease opened first new on sealed free room no_id no_key) =
      replaced-IsWithin config s (update s b) a w refl refl
        (λ lic. ground (arith, new, on, room, w.within lic, eq_iff a.license_id lic))
  update-IsWithin s b w (renewed hash c prior a lease opened here next license on sealed) =
      replaced-IsWithin config s (update s b) a w refl refl
        (λ lic. same_seat config s a prior lic w here (ground (arith, license, next)))
  update-IsWithin s b w (rebound hash c prior a lease opened here next license on sealed alone) =
      replaced-IsWithin config s (update s b) a w refl refl
        (λ lic. same_seat config s a prior lic w here (ground (arith, license, next)))
  update-IsWithin s b w (ended_by none install reason prior a here next off passes) =
      replaced-IsWithin config s (update s b) a w refl refl
        (λ lic. same_seat config s a prior lic w here (ground (arith, off)))
  update-IsWithin s b w (ended_by none admin reason prior a here next off passes) =
      replaced-IsWithin config s (update s b) a w refl refl
        (λ lic. same_seat config s a prior lic w here (ground (arith, off)))
  update-IsWithin s b w (ended_by (some hash) install reason prior a here next off passes) =
      replaced-IsWithin config s (update s b) a w refl refl
        (λ lic. same_seat config s a prior lic w here (ground (arith, off)))
  update-IsWithin s b w (ended_by (some hash) admin reason prior a here next off passes) =
      replaced-IsWithin config s (update s b) a w refl refl
        (λ lic. same_seat config s a prior lic w here (ground (arith, off)))
  update-IsWithin s b w (overridden id none reason room) = record {
    distinct = Unique-erase id s.seat_overrides w.distinct;
    within = λ lic. elim (Bool-cases (str_eq id lic)) [
      | inl same ↦
          subst
            (λ k.
              length (active_of s k)
              ≤ or_else (lookup k (erase id s.seat_overrides)) config.default_max_machines)
            ((eq_iff id lic).0 same) (rw (lookup-erase_self id s.seat_overrides w.distinct) room)
      | inr other ↦ ground (
        arith,
        w.within lic,
        lookup-erase_ne id lic s.seat_overrides
            (λ e. absurd (ground (arith, other, e, eq_iff id lic))),
      )
    ];
  }
  update-IsWithin s b w (overridden id (some n) reason room) = record {
    distinct = Unique-insert id n s.seat_overrides w.distinct;
    within = λ lic. elim (Bool-cases (str_eq id lic)) [
      | inl same ↦
          ground (arith, same, lookup-insert id lic n s.seat_overrides, room, eq_iff id lic)
      | inr other ↦ ground (arith, other, lookup-insert id lic n s.seat_overrides, w.within lic)
    ];
  }
  update-IsWithin s _ w (observed id reason) = w

  pub Moves-IsWithin :
      (s : ReplayState) (e : LeaseAuditEvent) (hash : String)
      → IsWithin config s
      → Moves env config s e.at_ms e.body
      → IsWithin config (cache_appended_event s e hash)
  unfolding cache_appended_event
  Moves-IsWithin s e hash w m =
      let after = update-IsWithin s e.body w m in
      let (stored, overrides, _) = noted-update s e e.body in
      record {
        distinct = subst (λ d. Unique (keys d)) (sym overrides) after.distinct;
        within = λ lic.
            subst
              (λ d.
                length (filter (active_on lic) (values d))
                ≤ max_machines config (update (noted s e) e.body) lic)
              (sym stored)
              (subst
                (λ d.
                  length (active_of (update s e.body) lic)
                  ≤ or_else (lookup lic d) config.default_max_machines)
                (sym overrides) (after.within lic));
      }

  Reaches-IsWithin :
      (lines : List LedgerLine) (head : LedgerHead) (s : ReplayState)
      → Reaches env config lines head s
      → IsWithin config s
  Reaches-IsWithin _ _ _ (starts e line head t first h) =
      let (_, _, _, _, state) = append_event-ok env config empty_replay e none line head t h in
      subst (IsWithin config) (sym (starts-state env config e (line_hash env line) first) ∙ state)
        (record { distinct = tt; within = λ lic. omega arith })
  Reaches-IsWithin _ _ _ (writes lines before s e expected line head t r i h) =
      let (_, _, _, _, state) = append_event-ok env config s e expected line head t h in
      subst (IsWithin config) state (
        Moves-IsWithin s e (line_hash env line) (Reaches-IsWithin lines before s r)
          (Issues-Moves env config s e (Reaches-IsState env config lines before s r) i))

  -- In every state of a service, each licence has at most as many active activations as its override
  -- allows, and without one at most the default.
  pub Reaches-seats :
      (lines : List LedgerLine) (head : LedgerHead) (s : ReplayState) (lic : String)
      → Reaches env config lines head s
      → length (active_of s lic) ≤ or_else (lookup lic s.seat_overrides) config.default_max_machines
  Reaches-seats lines head s lic r = (Reaches-IsWithin lines head s r).within lic
