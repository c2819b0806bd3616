-- ===== src/Leases/Waits.antt =====
-- The two limits on the challenges of a licence (`challenge`, license-leases.ts), which the code tests
-- by binary search, against a scan of the licence's challenges.
use wickhunter_hub.Prelude.{
  ℕ, ◌+◌, ◌-◌, ◌≤◌, ◌≡◌, refl, sym, ◌∙◌, subst, String, Bool, true, false, not, none, some, List,
  [], ◌∷◌, ◌++◌, Dict, lookup, contains, ltb, leb, length, filter, All, arith, or_else,
  Option-cases, inl, inr, max,
}
use wickhunter_hub.Leases.Types.{
  ChallengeFacts, LeaseAuditEvent, EventBody, install, admin, LedgerLine, LedgerHead, ReplayState,
  empty_replay, LicenseLeaseConfig, Env, throw_if, ◌>>◌, ledger_initialized, challenge_issued,
  activation_created, lease_renewed, activation_rebound, activation_deactivated, seat_override_set,
  license_revocation_observed, too_many_challenges, challenge_rate,
}
use wickhunter_hub.Leases.Replay.{update, noted, line_hash, cache_appended_event}
use wickhunter_hub.Leases.Service.{challenge_limits, hour_ms}
use wickhunter_hub.Leases.Moves.{
  Moves, challenged, created, renewed, rebound, ended_by, overridden, observed,
}
use wickhunter_hub.Leases.Find.{All-lookup, All-insert}
use wickhunter_hub.Leases.Issues.{Issues-Moves}
use wickhunter_hub.Leases.Reach.{
  Reaches, starts, writes, Reaches-IsState, append_event-ok, starts-state,
}
use wickhunter_hub.Leases.Search.{Sorted, lower_bound_challenge_lem}

-- The challenges of a licence come in the order of their times, none after `last`, each for the same
-- length of time.
abbrev InTurn : LicenseLeaseConfig → ℕ → List ChallengeFacts → Type 0
InTurn config last rows =
    Sorted (λ c. c.issued_at_ms) rows
    × All
        (λ c.
          (c.expires_at_ms ≡ c.issued_at_ms + config.challenge_ttl_ms) × (c.issued_at_ms ≤ last))
        rows

abbrev IsTimed : LicenseLeaseConfig → ReplayState → Type 0
IsTimed config s = All (λ e. InTurn config s.max_server_time_ms e.1) s.challenges_by_license

module _ (config : LicenseLeaseConfig) where
  Sorted-shift :
      (n : ℕ) (rows : List ChallengeFacts)
      → Sorted (λ c. c.issued_at_ms) rows
      → Sorted (λ c. c.issued_at_ms + n) rows
  Sorted-shift n [] s = tt
  Sorted-shift n (r ∷ rows) s = (shifted r rows s.0, Sorted-shift n rows s.1)
    where
      shifted :
          (r : ChallengeFacts) (rows : List ChallengeFacts)
          → All (λ x. r.issued_at_ms ≤ x.issued_at_ms) rows
          → All (λ x. r.issued_at_ms + n ≤ x.issued_at_ms + n) rows
      shifted r [] a = tt
      shifted r (x ∷ rows) a = (omega (arith, a.0), shifted r rows a.1)

  Sorted-expiry :
      (last : ℕ) (rows : List ChallengeFacts)
      → InTurn config last rows
      → Sorted (λ c. c.expires_at_ms) rows
  Sorted-expiry last [] t = tt
  Sorted-expiry last (r ∷ rows) t =
      (later r rows t.1.0.0 t.0.0 t.1.1, Sorted-expiry last rows (t.0.1, t.1.1))
    where
      later :
          (r : ChallengeFacts) (rows : List ChallengeFacts)
          → r.expires_at_ms ≡ r.issued_at_ms + config.challenge_ttl_ms
          → All (λ x. r.issued_at_ms ≤ x.issued_at_ms) rows
          → All
              (λ c.
                (c.expires_at_ms ≡ c.issued_at_ms + config.challenge_ttl_ms)
                × (c.issued_at_ms ≤ last))
              rows
          → All (λ x. r.expires_at_ms ≤ x.expires_at_ms) rows
      later r [] e a t = tt
      later r (x ∷ rows) e a t = (omega (arith, e, a.0, t.0.0), later r rows e a.1 t.1)

  InTurn-later :
      (last last' : ℕ) (rows : List ChallengeFacts)
      → last ≤ last'
      → InTurn config last rows
      → InTurn config last' rows
  InTurn-later last last' [] h t = (tt, tt)
  InTurn-later last last' (r ∷ rows) h t =
      let rest = InTurn-later last last' rows h (t.0.1, t.1.1) in
      ((t.0.0, rest.0), ((t.1.0.0, omega (arith, h, t.1.0.1)), rest.1))

  InTurn-snoc :
      (last : ℕ) (rows : List ChallengeFacts) (c : ChallengeFacts)
      → InTurn config last rows
      → last ≤ c.issued_at_ms
      → c.expires_at_ms ≡ c.issued_at_ms + config.challenge_ttl_ms
      → InTurn config c.issued_at_ms (rows ++ c ∷ [])
  InTurn-snoc last [] c t h e = ((tt, tt), ((e, omega arith), tt))
  InTurn-snoc last (r ∷ rows) c t h e =
      let rest = InTurn-snoc last rows c (t.0.1, t.1.1) h e in
      ((first r rows t.0.0 t.1.0.1, rest.0), ((t.1.0.0, omega (arith, h, t.1.0.1)), rest.1))
    where
      first :
          (r : ChallengeFacts) (rows : List ChallengeFacts)
          → All (λ x. r.issued_at_ms ≤ x.issued_at_ms) rows
          → r.issued_at_ms ≤ last
          → All (λ x. r.issued_at_ms ≤ x.issued_at_ms) (rows ++ c ∷ [])
      first r [] a b = (omega (arith, b, h), tt)
      first r (x ∷ rows) a b = (a.0, first r rows a.1 b)

  IsTimed-later :
      (last last' : ℕ) (d : Dict (List ChallengeFacts))
      → last ≤ last'
      → All (λ e. InTurn config last e.1) d
      → All (λ e. InTurn config last' e.1) d
  IsTimed-later last last' [] h t = tt
  IsTimed-later last last' (x ∷ d) h t =
      (InTurn-later last last' x.1 h t.0, IsTimed-later last last' d h t.1)

  rows-InTurn :
      (last : ℕ) (lic : String) (d : Dict (List ChallengeFacts))
      → All (λ e. InTurn config last e.1) d
      → InTurn config last (or_else (lookup lic d) [])
  rows-InTurn last lic d t = elim (Option-cases (lookup lic d)) [
    | inl n ↦ rw n (tt, tt)
    | inr (rows, here) ↦ rw here (All-lookup (InTurn config last) lic rows d t here)
  ]

noted-times :
    (s : ReplayState) (e : LeaseAuditEvent) (b : EventBody)
    → ((update (noted s e) b).challenges_by_license ≡ (update s b).challenges_by_license)
      × ((update (noted s e) b).max_server_time_ms ≡ max s.max_server_time_ms e.at_ms)
unfolding update
noted-times s e ledger_initialized = (refl, refl)
noted-times s e (challenge_issued c) = (refl, refl)
noted-times s e (activation_created n a l) = (refl, refl)
noted-times s e (lease_renewed n a l) = (refl, refl)
noted-times s e (activation_rebound n a l) = (refl, refl)
noted-times s e (activation_deactivated none install r a) = (refl, refl)
noted-times s e (activation_deactivated (some n) install r a) = (refl, refl)
noted-times s e (activation_deactivated none admin r a) = (refl, refl)
noted-times s e (activation_deactivated (some n) admin r a) = (refl, refl)
noted-times s e (seat_override_set id none r) = (refl, refl)
noted-times s e (seat_override_set id (some n) r) = (refl, refl)
noted-times s e (license_revocation_observed id r) = (refl, refl)

abbrev kept_rows : EventBody → Bool
kept_rows (challenge_issued c) = false
kept_rows _ = true

update-rows :
    (s : ReplayState) (b : EventBody)
    → kept_rows b ≡ true
    → (update s b).challenges_by_license ≡ s.challenges_by_license
unfolding update
update-rows s ledger_initialized h = refl
update-rows s (challenge_issued c) h = cc
update-rows s (activation_created n a l) h = refl
update-rows s (lease_renewed n a l) h = refl
update-rows s (activation_rebound n a l) h = refl
update-rows s (activation_deactivated none install r a) h = refl
update-rows s (activation_deactivated (some n) install r a) h = refl
update-rows s (activation_deactivated none admin r a) h = refl
update-rows s (activation_deactivated (some n) admin r a) h = refl
update-rows s (seat_override_set id none r) h = refl
update-rows s (seat_override_set id (some n) r) h = refl
update-rows s (license_revocation_observed id r) h = refl

module _ (env : Env) (config : LicenseLeaseConfig) where
  kept-IsTimed :
      (s : ReplayState) (at : ℕ) (b : EventBody)
      → IsTimed config s
      → kept_rows b ≡ true
      → All
          (λ e. InTurn config (max s.max_server_time_ms at) e.1)
          (update s b).challenges_by_license
  kept-IsTimed s at b t kept =
      subst
        (All
          (λ (e : String × List ChallengeFacts). InTurn config (max s.max_server_time_ms at) e.1))
        (sym (update-rows s b kept))
        (IsTimed-later config s.max_server_time_ms (max s.max_server_time_ms at)
          s.challenges_by_license (omega arith) t)

  update-IsTimed :
      (s : ReplayState) (at : ℕ) (b : EventBody)
      → IsTimed config s
      → Moves env config s at b
      → All
          (λ e. InTurn config (max s.max_server_time_ms at) e.1)
          (update s b).challenges_by_license
  unfolding update
  update-IsTimed s _ _ t (challenged c new fine onwards ends) =
      let all =
        IsTimed-later config s.max_server_time_ms (max s.max_server_time_ms c.issued_at_ms)
          s.challenges_by_license (omega arith) t in
      let rows = or_else (lookup c.license_id s.challenges_by_license) [] in
      let longer =
        InTurn-later config c.issued_at_ms (max s.max_server_time_ms c.issued_at_ms)
          (rows ++ c ∷ []) (omega arith)
          (InTurn-snoc config s.max_server_time_ms rows c
            (rows-InTurn config s.max_server_time_ms c.license_id s.challenges_by_license t) onwards
            ends) in
      All-insert
        (λ (e : String × List ChallengeFacts).
          InTurn config (max s.max_server_time_ms c.issued_at_ms) e.1)
        c.license_id (rows ++ c ∷ []) s.challenges_by_license all longer (λ j. λ same. longer)
  update-IsTimed s at b t
        (created hash c a lease opened first new on sealed free room no_id no_key) =
      kept-IsTimed s at b t refl
  update-IsTimed s at b t (renewed hash c prior a lease opened here next license on sealed) =
      kept-IsTimed s at b t refl
  update-IsTimed s at b t (rebound hash c prior a lease opened here next license on sealed alone) =
      kept-IsTimed s at b t refl
  update-IsTimed s at b t (ended_by hash actor reason prior a here next off passes) =
      kept-IsTimed s at b t refl
  update-IsTimed s at b t (overridden id machines reason room) = kept-IsTimed s at b t refl
  update-IsTimed s at b t (observed id reason) = kept-IsTimed s at b t refl

  Reaches-IsTimed :
      (lines : List LedgerLine) (head : LedgerHead) (s : ReplayState)
      → Reaches env config lines head s
      → IsTimed config s
  unfolding cache_appended_event
  Reaches-IsTimed _ _ _ (starts e line head t first h) =
      let (_, _, _, _, state) = append_event-ok env config empty_replay e none line head t h in
      subst (IsTimed config) (sym (starts-state env config e (line_hash env line) first) ∙ state) tt
  Reaches-IsTimed _ _ _ (writes lines before s e expected line head t r i h) =
      let (_, _, _, _, state) = append_event-ok env config s e expected line head t h in
      let m = Issues-Moves env config s e (Reaches-IsState env config lines before s r) i in
      let (rows, time) = noted-times s e e.body in
      subst (IsTimed config) state (
        subst
          (λ n.
            All (λ (x : String × List ChallengeFacts). InTurn config n x.1)
              (update (noted s e) e.body).challenges_by_license)
          (sym time)
          (subst
            (All (λ (x : String × List ChallengeFacts).
              InTurn config (max s.max_server_time_ms e.at_ms) x.1))
            (sym rows) (update-IsTimed s e.at_ms e.body (Reaches-IsTimed lines before s r) m)))

  count-later :
      (select : ChallengeFacts → ℕ) (value : ℕ) (rows : List ChallengeFacts)
      → length rows - length (filter (λ c. leb (select c) value) rows)
        ≡ length (filter (λ c. ltb value (select c)) rows)
  count-later select value rows = omega (arith, split_count rows)
    where
      split_count :
          (rows : List ChallengeFacts)
          → length rows
            ≡ length (filter (λ c. leb (select c) value) rows)
              + length (filter (λ c. ltb value (select c)) rows)
      split_count [] = refl
      split_count (r ∷ rows) = ground (arith, split_count rows)

  -- In every state of a service the two limits on new challenges are exact: one is refused for a licence
  -- with eight challenges that are neither consumed nor expired, or with 120 of the last hour, counted
  -- over all of its challenges, and for no other reason.
  pub challenge_limits_lem :
      (lines : List LedgerLine) (head : LedgerHead) (s : ReplayState) (lic : String) (now : ℕ)
      → Reaches env config lines head s
      → challenge_limits env config s lic now ≡ (
          let rows = or_else (lookup lic s.challenges_by_license) [] in
          let outstanding =
            filter
              (λ c. not (contains c.nonce_hash s.consumed))
              (filter (λ c. ltb now c.expires_at_ms) rows) in
          let recent = filter (λ c. ltb now (c.issued_at_ms + hour_ms)) rows in
          (throw_if (leb 8 (length outstanding)) too_many_challenges
            >> throw_if (leb 120 (length recent)) challenge_rate))
  unfolding challenge_limits
  challenge_limits_lem lines head s lic now r =
      let rows = or_else (lookup lic s.challenges_by_license) [] in
      let timed =
        rows-InTurn config s.max_server_time_ms lic s.challenges_by_license
          (Reaches-IsTimed lines head s r) in
      let by_expiry =
        lower_bound_challenge_lem (λ c. c.expires_at_ms) now rows
          (Sorted-expiry config s.max_server_time_ms rows timed) in
      let by_issue =
        lower_bound_challenge_lem (λ c. c.issued_at_ms + hour_ms) now rows
          (Sorted-shift config hour_ms rows timed.0) in
      rw (by_expiry.1, by_issue.0, count-later (λ c. c.issued_at_ms + hour_ms) now rows) refl
