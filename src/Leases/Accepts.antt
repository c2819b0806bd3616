-- ===== src/Leases/Accepts.antt =====
-- `replay` of what a lease service has written gives the state that the service holds
-- (license-leases.ts).
use wickhunter_hub.Prelude.{
  ℕ, ◌+◌, ◌≡◌, refl, sym, ap, ◌∙◌, subst, String, true, not, Option, none, some, List, [], ◌∷◌,
  ◌++◌, Dict, length, length-append, arith, eq_iff,
}
use wickhunter_hub.License.Text.{same_text_refl}
use wickhunter_hub.Leases.Types.{
  LeaseAuditEvent, EventBody, SignedLicenseLease, LeaseActivation, LedgerLine, LedgerHead,
  ReplayState, empty_replay, LicenseLeaseConfig, Env, Result, ok, err, throw_if, ◌>>◌, ◌>>=◌,
  lease_to_deactivated, lease_malformed, event_envelope, lease_mismatch, active, deactivated,
}
use wickhunter_hub.Leases.Checks.{
  validate_audit_event, validate_body, validate_issue, validate_activation, valid_lease_payload,
  lease_matches, public_key_object,
}
use wickhunter_hub.Leases.Tokens.{sign_lease, verify_license_lease, genuine}
use wickhunter_hub.Leases.Replay.{
  same_option, replay_line, replay_lines, replay, line_hash, noted, lease_of_event, check_lease,
  transition, cache_appended_event,
}
use wickhunter_hub.Leases.Service.{append_event}
use wickhunter_hub.Leases.Laws.{IsEnv}
use wickhunter_hub.Leases.Verify.{verify-sign_lease, sig_exact}
use wickhunter_hub.Leases.Chain.{throw_if-ok, bind-ok, ok-injective, update-log}
use wickhunter_hub.Leases.Moves.{
  Moves, Moves-transition, Signed, challenged, created, renewed, rebound, ended_by, overridden,
  observed,
}
use wickhunter_hub.Leases.Issues.{Issues-Moves}
use wickhunter_hub.Leases.Reach.{Reaches, starts, writes, Reaches-IsState, append_event-ok}

same_option_refl : (o : Option String) → same_option o o ≡ true
same_option_refl none = refl
same_option_refl (some a) = (eq_iff a a).1 refl

bind-id {ℓ} : {A : Type ℓ} (r : Result A) → (r >>= λ v. ok v) ≡ r
bind-id (err why) = refl
bind-id (ok a) = refl

module _ (env : Env) (config : LicenseLeaseConfig) (keys : Dict String)
    (laws : IsEnv env config keys) where
  issue-valid :
      (a : LeaseActivation) (lease : SignedLicenseLease)
      → validate_issue env a lease ≡ ok tt
      → valid_lease_payload env lease.payload ≡ true
  issue-valid a lease h =
      let (_, _, h₁) = bind-ok (validate_activation env a) _ h in
      let (_, _, h₂) =
        bind-ok {0, 0} {A = Unit {0}}
          (elim a.status [ active ↦ ok tt | deactivated ↦ err lease_to_deactivated ])
          (λ _.
            throw_if (not (valid_lease_payload env lease.payload)) lease_malformed
            >> throw_if (not (lease_matches env a lease.payload)) lease_mismatch)
          h₁ in
      let (fine, _) =
        throw_if-ok (not (valid_lease_payload env lease.payload)) lease_malformed
          (throw_if (not (lease_matches env a lease.payload)) lease_mismatch) h₂ in
      ground (arith, fine)

  -- A lease that the Hub signed and that the event's own checks let in verifies on reading.
  Signed-verifies :
      (a : LeaseActivation) (lease : SignedLicenseLease)
      → Signed env config lease
      → validate_issue env a lease ≡ ok tt
      → check_lease env keys lease ≡ ok tt
  unfolding sign_lease
  Signed-verifies a lease (p, sealed, kid) h =
      let same : lease.payload ≡ p = ap (λ (l : SignedLicenseLease). l.payload) sealed in
      let fine = subst (λ q. valid_lease_payload env q ≡ true) same (issue-valid a lease h) in
      let read : verify_license_lease env keys lease.token ≡ genuine p =
        ap (λ (l : SignedLicenseLease). verify_license_lease env keys l.token) sealed
        ∙ verify-sign_lease env config keys laws p fine kid in
      rw (read, check_lease) (rw (same, same_text_refl (env.stringify_payload p)) refl)

  Moves-verifies :
      (s : ReplayState) {at : ℕ} (b : EventBody)
      → Moves env config s at b
      → validate_body env b ≡ ok tt
      → lease_of_event env keys b ≡ ok tt
  unfolding lease_of_event validate_body
  Moves-verifies s _ (challenged c new fine onwards ends) h = refl
  Moves-verifies s _ (created hash c a lease opened first new on sealed free room no_id no_key) h =
      Signed-verifies a lease sealed h
  Moves-verifies s _ (renewed hash c prior a lease opened here next license on sealed) h =
      Signed-verifies a lease sealed h
  Moves-verifies s _ (rebound hash c prior a lease opened here next license on sealed alone) h =
      Signed-verifies a lease sealed h
  Moves-verifies s _ (ended_by hash actor reason prior a here next off passes) h = refl
  Moves-verifies s _ (overridden id machines reason room) h = refl
  Moves-verifies s _ (observed id reason) h = refl

  body-valid :
      (e : LeaseAuditEvent) → validate_audit_event env e ≡ ok tt → validate_body env e.body ≡ ok tt
  unfolding validate_audit_event
  body-valid e h = (throw_if-ok _ event_envelope (validate_body env e.body) h).1

  -- `replay` reads back a line that `append_event` wrote.
  appended-replays :
      (s : ReplayState) (e : LeaseAuditEvent) (expected : Option String) (line : LedgerLine)
      (head : LedgerHead) (t : ReplayState)
      → append_event env config s e expected ≡ ok (line, head, t)
      → lease_of_event env keys e.body ≡ ok tt
      → transition s e.body ≡ ok tt
      → replay_line env keys s line ≡ ok t
  unfolding replay_line cache_appended_event public_key_object
  appended-replays s e expected line head t h leased passes =
      let (fine, new, same, _, state) = append_event-ok env config s e expected line head t h in
      let message = env.stringify_unsigned config.active_key_id s.last_hash e in
      ap (replay_line env keys s) (sym same)
      ∙ (rw
            (
              same_option_refl s.last_hash,
              laws.active_key,
              sig_exact env config keys laws message,
              laws.key_exact,
              laws.from-to (env.ed_sign message),
              laws.verify-sign message,
              fine,
              new,
              leased,
              passes,
              same,
            )
            refl
          ∙ ap ok state)

  pub replay_lines-append :
      (s t : ReplayState) (lines : List LedgerLine) (line : LedgerLine)
      → replay_lines env keys s lines ≡ ok t
      → replay_lines env keys s (lines ++ line ∷ []) ≡ replay_line env keys t line
  unfolding replay_lines
  replay_lines-append s t [] line h =
      ap (λ (u : ReplayState). replay_line env keys u line >>= λ v. ok v) (ok-injective h)
      ∙ bind-id (replay_line env keys t line)
  replay_lines-append s t (l ∷ lines) line h =
      let (u, first, rest) =
        bind-ok (replay_line env keys s l) (λ u. replay_lines env keys u lines) h in
      ap (λ (r : Result ReplayState). r >>= λ v. replay_lines env keys v (lines ++ line ∷ [])) first
      ∙ replay_lines-append u t lines line rest

  head-accepts :
      (lines : List LedgerLine) (head : LedgerHead) (s : ReplayState)
      → replay_lines env keys empty_replay lines ≡ ok s
      → length s.events ≡ head.event_count
      → s.last_hash ≡ some head.last_hash
      → replay env keys lines (some head) ≡ ok s
  unfolding replay
  head-accepts lines head s read count end =
      rw (read, count, end, same_option_refl (some head.last_hash)) (ground arith)

  counted :
      (s t : ReplayState) (e : LeaseAuditEvent) (line : LedgerLine) (head : LedgerHead)
      → record {
        event_count = length s.events + 1;
        last_hash = line_hash env line;
        updated_at_ms = e.at_ms;
      }
        ≡ head
      → cache_appended_event s e (line_hash env line) ≡ t
      → (length t.events ≡ head.event_count) × (t.last_hash ≡ some head.last_hash)
  unfolding cache_appended_event
  counted s t e line head summary state = (
    ap (λ (x : ReplayState). length x.events) (sym state)
        ∙ (ap length (update-log (noted s e) e.body).0
            ∙ (length-append s.events (e ∷ []) ∙ ap (λ (x : LedgerHead). x.event_count) summary)),
    ap (λ (x : ReplayState). x.last_hash) (sym state)
        ∙ ap (λ (x : LedgerHead). some x.last_hash) summary,
  )

  Reaches-replay_lines :
      (lines : List LedgerLine) (head : LedgerHead) (s : ReplayState)
      → Reaches env config lines head s
      → (replay_lines env keys empty_replay lines ≡ ok s)
        × (length s.events ≡ head.event_count)
        × (s.last_hash ≡ some head.last_hash)
  unfolding lease_of_event transition replay_lines
  Reaches-replay_lines _ _ _ (starts e line head t first h) =
      let (_, _, _, summary, state) =
        append_event-ok env config empty_replay e none line head t h in
      let fits = counted empty_replay t e line head summary state in
      let line_ok =
        appended-replays empty_replay e none line head t h (ap (lease_of_event env keys) first)
          (ap (transition empty_replay) first) in
      (replay_lines-append empty_replay empty_replay [] line refl ∙ line_ok, fits.0, fits.1)
  Reaches-replay_lines _ _ _ (writes lines before s e expected line head t r i h) =
      let (fine, _, _, summary, state) = append_event-ok env config s e expected line head t h in
      let fits = counted s t e line head summary state in
      let (read, _, _) = Reaches-replay_lines lines before s r in
      let m = Issues-Moves env config s e (Reaches-IsState env config lines before s r) i in
      let line_ok =
        appended-replays s e expected line head t h (Moves-verifies s e.body m (body-valid e fine))
          (Moves-transition env config s e.body m) in
      (replay_lines-append empty_replay s lines line read ∙ line_ok, fits.0, fits.1)

  -- The service reads back what it wrote: `replay` of every ledger that it appended event by event, under
  -- the checkpoint of the last append, succeeds and gives exactly the state that the service kept up to
  -- date in memory. The outside code has the laws of `IsEnv`, and an activation draws an id that is not
  -- in use.
  pub Reaches-replay :
      (lines : List LedgerLine) (head : LedgerHead) (s : ReplayState)
      → Reaches env config lines head s
      → replay env keys lines (some head) ≡ ok s
  Reaches-replay lines head s r =
      let (read, count, end) = Reaches-replay_lines lines head s r in
      head-accepts lines head s read count end
