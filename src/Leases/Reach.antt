-- ===== src/Leases/Reach.antt =====
-- The states of a lease service that has appended one event after another (license-leases.ts), and what
-- every one of them is.
use wickhunter_hub.Prelude.{
  ℕ, ◌+◌, ◌≡◌, refl, sym, ap, ◌∙◌, subst, String, true, false, not, Option, none, some, List, [],
  ◌∷◌, ◌++◌, insert, length, All, keys, Unique, Unique-insert,
}
use wickhunter_hub.Leases.Types.{
  LeaseActivation, ChallengeFacts, LeaseAuditEvent, EventBody, ledger_initialized, install, admin,
  LedgerLine, LedgerHead, ReplayState, empty_replay, LicenseLeaseConfig, Env, ok,
  changed_concurrently, repeats_event_id, event_too_large,
}
use wickhunter_hub.Leases.Checks.{has_text, validate_audit_event}
use wickhunter_hub.Leases.Replay.{same_option, update, noted, line_hash, cache_appended_event}
use wickhunter_hub.Leases.Service.{append_event}
use wickhunter_hub.Leases.Chain.{throw_if-ok, bind-ok, ok-injective}
use wickhunter_hub.Leases.Moves.{
  Moves, challenged, created, renewed, rebound, ended_by, overridden, observed, IsState, sound,
}
use wickhunter_hub.Leases.Find.{All-insert}
use wickhunter_hub.Leases.Issues.{Issues, Issues-Moves}

-- A ledger that a service has written with its checkpoint and its state: the marker first, then the
-- events of its operations.
pub data Reaches (env : Env) (config : LicenseLeaseConfig)
    : List LedgerLine → LedgerHead → ReplayState → Type 0 where
  starts :
      (e : LeaseAuditEvent) (line : LedgerLine) (head : LedgerHead) (t : ReplayState)
      → e.body ≡ ledger_initialized
      → append_event env config empty_replay e none ≡ ok (line, head, t)
      → Reaches env config (line ∷ []) head t
  writes :
      (lines : List LedgerLine) (before : LedgerHead) (s : ReplayState) (e : LeaseAuditEvent)
      (expected : Option String) (line : LedgerLine) (head : LedgerHead) (t : ReplayState)
      → Reaches env config lines before s
      → Issues env config s e
      → append_event env config s e expected ≡ ok (line, head, t)
      → Reaches env config (lines ++ line ∷ []) head t

module _ (env : Env) (config : LicenseLeaseConfig) where
  -- What `append_event` has checked and what it answers.
  pub append_event-ok :
      (s : ReplayState) (e : LeaseAuditEvent) (expected : Option String) (line : LedgerLine)
      (head : LedgerHead) (t : ReplayState)
      → append_event env config s e expected ≡ ok (line, head, t)
      → (validate_audit_event env e ≡ ok tt)
        × (has_text e.event_id s.event_ids ≡ false)
        × (record {
          kid = config.active_key_id;
          previous_hash = s.last_hash;
          event = e;
          sig =
              env.to_base64url
                (env.ed_sign (env.stringify_unsigned config.active_key_id s.last_hash e));
        }
            ≡ line)
        × (record {
          event_count = length s.events + 1;
          last_hash = line_hash env line;
          updated_at_ms = e.at_ms;
        }
            ≡ head)
        × (cache_appended_event s e (line_hash env line) ≡ t)
  unfolding append_event
  append_event-ok s e expected line head t h =
      let (_, h₁) = throw_if-ok (not (same_option s.last_hash expected)) changed_concurrently _ h in
      let (_, fine, h₂) = bind-ok (validate_audit_event env e) _ h₁ in
      let (new, h₃) = throw_if-ok (has_text e.event_id s.event_ids) repeats_event_id _ h₂ in
      let l : LedgerLine = record {
        kid = config.active_key_id;
        previous_hash = s.last_hash;
        event = e;
        sig =
            env.to_base64url
              (env.ed_sign (env.stringify_unsigned config.active_key_id s.last_hash e));
      } in
      let (_, h₄) = throw_if-ok _ event_too_large _ h₃ in
      let all = ok-injective h₄ in
      let same : l ≡ line = ap (λ x. x.0) all in
      (
        fine,
        new,
        same,
        ap
              (λ (m : LedgerLine). record {
                event_count = length s.events + 1;
                last_hash = line_hash env m;
                updated_at_ms = e.at_ms;
              })
              (sym same)
            ∙ ap (λ x. x.1) all,
        ap (λ (m : LedgerLine). cache_appended_event s e (line_hash env m)) (sym same)
            ∙ ap (λ x. x.2) all,
      )

  stored-IsState :
      (s t : ReplayState) (a : LeaseActivation)
      → IsState s
      → t.activations ≡ insert a.id a s.activations
      → t.challenges ≡ s.challenges
      → IsState t
  stored-IsState s t a v stored kept = record {
    own = subst (All (λ (x : String × LeaseActivation). x.1.id ≡ x.0)) (sym stored) (
        All-insert (λ (x : String × LeaseActivation). x.1.id ≡ x.0) a.id a s.activations v.own refl
          (λ j. λ same. sym same));
    unique =
        subst (λ d. Unique (keys d)) (sym stored) (Unique-insert a.id a s.activations v.unique);
    sound_challenges =
        subst (All (λ (x : String × ChallengeFacts). sound x.1 ≡ true)) (sym kept)
          v.sound_challenges;
  }

  kept-IsState :
      (s t : ReplayState)
      → IsState s
      → t.activations ≡ s.activations
      → t.challenges ≡ s.challenges
      → IsState t
  kept-IsState s t v same kept = record {
    own = subst (All (λ (x : String × LeaseActivation). x.1.id ≡ x.0)) (sym same) v.own;
    unique = subst (λ d. Unique (keys d)) (sym same) v.unique;
    sound_challenges =
        subst (All (λ (x : String × ChallengeFacts). sound x.1 ≡ true)) (sym kept)
          v.sound_challenges;
  }

  update-IsState :
      (s before : ReplayState) {at : ℕ} (b : EventBody)
      → IsState s
      → Moves env config before at b
      → IsState (update s b)
  unfolding update
  update-IsState s before _ v (challenged c new fine onwards ends) = record {
    own = v.own;
    unique = v.unique;
    sound_challenges =
        All-insert (λ (x : String × ChallengeFacts). sound x.1 ≡ true) c.nonce_hash c s.challenges
          v.sound_challenges fine (λ j. λ same. fine);
  }
  update-IsState s before b v
        (created hash c a lease opened first new on sealed free room no_id no_key) =
      stored-IsState s (update s b) a v refl refl
  update-IsState s before b v (renewed hash c prior a lease opened here next license on sealed) =
      stored-IsState s (update s b) a v refl refl
  update-IsState s before b v
        (rebound hash c prior a lease opened here next license on sealed alone) =
      stored-IsState s (update s b) a v refl refl
  update-IsState s before b v (ended_by none install reason prior a here next off passes) =
      stored-IsState s (update s b) a v refl refl
  update-IsState s before b v (ended_by none admin reason prior a here next off passes) =
      stored-IsState s (update s b) a v refl refl
  update-IsState s before b v (ended_by (some hash) install reason prior a here next off passes) =
      stored-IsState s (update s b) a v refl refl
  update-IsState s before b v (ended_by (some hash) admin reason prior a here next off passes) =
      stored-IsState s (update s b) a v refl refl
  update-IsState s before b v (overridden id none reason room) =
      kept-IsState s (update s b) v refl refl
  update-IsState s before b v (overridden id (some n) reason room) =
      kept-IsState s (update s b) v refl refl
  update-IsState s before b v (observed id reason) = v

  -- A change keeps the state well formed.
  pub Moves-IsState :
      (s : ReplayState) (e : LeaseAuditEvent) (hash : String)
      → IsState s
      → Moves env config s e.at_ms e.body
      → IsState (cache_appended_event s e hash)
  unfolding cache_appended_event
  Moves-IsState s e hash v m =
      let u = update (noted s e) e.body in
      kept-IsState u (record u { last_hash = some hash })
        (update-IsState (noted s e) s e.body (kept-IsState s (noted s e) v refl refl) m) refl refl

  pub starts-state :
      (e : LeaseAuditEvent) (hash : String)
      → e.body ≡ ledger_initialized
      → cache_appended_event empty_replay e hash
        ≡ record (noted empty_replay e) { last_hash = some hash }
  unfolding cache_appended_event update
  starts-state e hash h =
      ap (λ b. record (update (noted empty_replay e) b) { last_hash = some hash }) h

  pub Reaches-IsState :
      (lines : List LedgerLine) (head : LedgerHead) (s : ReplayState)
      → Reaches env config lines head s
      → IsState s
  Reaches-IsState _ _ _ (starts e line head t first h) =
      let (_, _, _, _, state) = append_event-ok empty_replay e none line head t h in
      subst IsState (sym (starts-state e (line_hash env line) first) ∙ state)
        (record { own = tt; unique = tt; sound_challenges = tt })
  Reaches-IsState _ _ _ (writes lines before s e expected line head t r i h) =
      let (_, _, _, _, state) = append_event-ok s e expected line head t h in
      let v = Reaches-IsState lines before s r in
      subst IsState state
        (Moves-IsState s e (line_hash env line) v (Issues-Moves env config s e v i))
