-- ===== src/Leases/Chain.antt =====
-- The signed checkpoint pins the whole ledger (`replay`, license-leases.ts).
use wickhunter_hub.Prelude.{
  ◌+◌, ◌≡◌, refl, sym, ap, ap₂, ◌∙◌, String, Bool, true, false, not, ◌&&◌, Option, none, some, List,
  [], ◌∷◌, Dict, lookup, length, length-append, ◌==◌, eq_iff, arith,
}
use wickhunter_hub.Leases.Types.{
  LedgerLine, LedgerHead, ReplayState, EventBody, ledger_initialized, challenge_issued,
  activation_created, lease_renewed, activation_rebound, activation_deactivated, seat_override_set,
  license_revocation_observed, install, admin, empty_replay, Env, Result, ok, err, ◌>>=◌, ◌>>◌,
  throw_if, LeaseError, chain_broken, signature_malformed, signature_invalid, repeats_event_id,
  unknown_key, head_mismatch,
}
use wickhunter_hub.Leases.Checks.{validate_audit_event, public_key_object}
use wickhunter_hub.Leases.Replay.{
  same_option, replay_line, replay_lines, replay, line_hash, update, noted, lease_of_event,
  transition,
}

-- Inversion of a guard and of a bind that succeeded.
pub throw_if-ok {ℓ} :
    {B : Type ℓ} (b : Bool) (why : LeaseError) (rest : Result B) {r : B}
    → (throw_if b why >> rest) ≡ ok r
    → (b ≡ false) × (rest ≡ ok r)
throw_if-ok true why rest e = cc
throw_if-ok false why rest e = (refl, e)

pub bind-ok {ℓ₁ ℓ₂} :
    {A : Type ℓ₁} {B : Type ℓ₂} (first : Result A) (next : A → Result B) {b : B}
    (e : (first >>= next) ≡ ok b)
    → (a : A) × (first ≡ ok a) × (next a ≡ ok b)
bind-ok (err why) next e = cc
bind-ok (ok a) next e = (a, refl, e)

pub ok-injective {ℓ} : {A : Type ℓ} {a b : A} → ok a ≡ ok b → a ≡ b
ok-injective e = cc

pub same_option-eq : (a b : Option String) → same_option a b ≡ true → a ≡ b
same_option-eq none none h = refl
same_option-eq (some a) (some b) h = ap some ((eq_iff a b).0 h)
same_option-eq none (some b) h = cc
same_option-eq (some a) none h = cc

pub update-log :
    (s : ReplayState) (b : EventBody)
    → ((update s b).events ≡ s.events) × ((update s b).event_ids ≡ s.event_ids)
unfolding update
update-log s ledger_initialized = (refl, refl)
update-log s (challenge_issued c) = (refl, refl)
update-log s (activation_created n a l) = (refl, refl)
update-log s (lease_renewed n a l) = (refl, refl)
update-log s (activation_rebound n a l) = (refl, refl)
update-log s (activation_deactivated none install r a) = (refl, refl)
update-log s (activation_deactivated (some n) install r a) = (refl, refl)
update-log s (activation_deactivated none admin r a) = (refl, refl)
update-log s (activation_deactivated (some n) admin r a) = (refl, refl)
update-log s (seat_override_set id none r) = (refl, refl)
update-log s (seat_override_set id (some n) r) = (refl, refl)
update-log s (license_revocation_observed id r) = (refl, refl)

-- The hash tells apart the lines that stand at the same place of two ledgers.
abbrev pub Apart : Env → List LedgerLine → List LedgerLine → Type 0
Apart env (l ∷ lines) (m ∷ others) =
    (line_hash env l ≡ line_hash env m → l ≡ m) × Apart env lines others
Apart env _ _ = Unit

module _ (env : Env) (keys : Dict String) where
  -- A line that replays continues the chain of the state, and is its new end.
  pub replay_line-chain :
      (s t : ReplayState) (line : LedgerLine)
      → replay_line env keys s line ≡ ok t
      → (line.previous_hash ≡ s.last_hash)
        × (t.last_hash ≡ some (line_hash env line))
        × (length t.events ≡ length s.events + 1)
  unfolding replay_line
  replay_line-chain s t line e =
      let (same, e₁) =
        throw_if-ok (not (same_option line.previous_hash s.last_hash)) chain_broken _ e in
      let (key, known, e₂) =
        bind-ok (elim (lookup line.kid keys) [ none ↦ err unknown_key | some key ↦ ok key ]) _ e₁ in
      let (_, e₃) = throw_if-ok _ signature_malformed _ e₂ in
      let (_, _, e₄) = bind-ok (public_key_object env key) _ e₃ in
      let (_, e₅) = throw_if-ok _ signature_invalid _ e₄ in
      let (_, _, e₆) = bind-ok (validate_audit_event env line.event) _ e₅ in
      let (_, e₇) = throw_if-ok _ repeats_event_id _ e₆ in
      let (_, _, e₈) = bind-ok (lease_of_event env keys line.event.body) _ e₇ in
      let (_, _, e₉) = bind-ok (transition s line.event.body) _ e₈ in
      let state : record (update (noted s line.event) line.event.body) {
        last_hash = some (line_hash env line);
      }
          ≡ t =
        ok-injective e₉ in
      (
        same_option-eq line.previous_hash s.last_hash (ground (arith, same)),
        ap (λ (x : ReplayState). x.last_hash) (sym state),
        ap (λ (x : ReplayState). length x.events) (sym state)
            ∙ (ap length (update-log (noted s line.event) line.event.body).0
                ∙ length-append s.events (line.event ∷ [])),
      )

  pub replay_lines-count :
      (s t : ReplayState) (lines : List LedgerLine)
      → replay_lines env keys s lines ≡ ok t
      → length t.events ≡ length s.events + length lines
  unfolding replay_lines
  replay_lines-count s t [] e =
      let same : s ≡ t = ok-injective e in
      omega (arith, ap (λ (x : ReplayState). length x.events) same)
  replay_lines-count s t (line ∷ lines) e =
      let (u, first, rest) =
        bind-ok (replay_line env keys s line) (λ u. replay_lines env keys u lines) e in
      omega (arith, replay_lines-count u t lines rest, (replay_line-chain s u line first).2)

  -- Two ledgers of one length that end in one hash are one ledger, from one hash on.
  same_end :
      (s t s' t' : ReplayState) (lines others : List LedgerLine)
      → Apart env lines others
      → replay_lines env keys s lines ≡ ok t
      → replay_lines env keys s' others ≡ ok t'
      → length lines ≡ length others
      → t.last_hash ≡ t'.last_hash
      → (lines ≡ others) × (s.last_hash ≡ s'.last_hash)
  unfolding replay_lines
  same_end s t s' t' [] [] inj e f len h =
      let a : s ≡ t = ok-injective e in
      let b : s' ≡ t' = ok-injective f in
      (
        refl,
        ap (λ (x : ReplayState). x.last_hash) a
            ∙ (h ∙ ap (λ (x : ReplayState). x.last_hash) (sym b)),
      )
  same_end s t s' t' [] (m ∷ others) inj e f len h = absurd (omega (arith, len))
  same_end s t s' t' (l ∷ lines) [] inj e f len h = absurd (omega (arith, len))
  same_end s t s' t' (l ∷ lines) (m ∷ others) inj e f len h =
      let (u, first, rest) =
        bind-ok (replay_line env keys s l) (λ u. replay_lines env keys u lines) e in
      let (u', first', rest') =
        bind-ok (replay_line env keys s' m) (λ u. replay_lines env keys u others) f in
      let (same, hashes) =
        same_end u t u' t' lines others inj.1 rest rest' (omega (arith, len)) h in
      let (from, to, _) = replay_line-chain s u l first in
      let (from', to', _) = replay_line-chain s' u' m first' in
      let line : l ≡ m = inj.0 (ground (arith, to, to', hashes)) in
      (ap₂ ◌∷◌ line same, sym from ∙ (ap (λ (x : LedgerLine). x.previous_hash) line ∙ from'))

  -- What a checkpoint accepts has its number of lines and ends in its hash.
  replay-head :
      (lines : List LedgerLine) (h : LedgerHead) (s : ReplayState)
      → replay env keys lines (some h) ≡ ok s
      → (replay_lines env keys empty_replay lines ≡ ok s)
        × (length lines ≡ h.event_count)
        × (s.last_hash ≡ some h.last_hash)
  unfolding replay
  replay-head lines h s e =
      let (u, read, e₁) = bind-ok (replay_lines env keys empty_replay lines) _ e in
      let (fits, e₂) =
        throw_if-ok
          (not (length u.events == h.event_count && same_option u.last_hash (some h.last_hash)))
          head_mismatch _ e₁ in
      let same : u ≡ s = ok-injective e₂ in
      let count = replay_lines-count empty_replay u lines read in
      (
        read ∙ ap ok same,
        ground (arith, fits, count),
        ap (λ (x : ReplayState). x.last_hash) (sym same)
            ∙ same_option-eq u.last_hash (some h.last_hash) (ground (arith, fits)),
      )

  -- Tampering shows: a checkpoint accepts one ledger at most, where the hash tells the lines of the two
  -- apart.
  pub replay_unique :
      (lines others : List LedgerLine) (h : LedgerHead) (s t : ReplayState)
      → Apart env lines others
      → replay env keys lines (some h) ≡ ok s
      → replay env keys others (some h) ≡ ok t
      → (lines ≡ others) × (s ≡ t)
  replay_unique lines others h s t inj e f =
      let (read, count, end) = replay-head lines h s e in
      let (read', count', end') = replay-head others h t f in
      let same =
        (same_end empty_replay s empty_replay t lines others inj read read'
          (omega (arith, count, count')) (end ∙ sym end')).0 in
      let states : ok s ≡ ok t = sym e ∙ (ap (λ ls. replay env keys ls (some h)) same ∙ f) in
      (same, ok-injective states)
