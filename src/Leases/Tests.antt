-- ===== src/Leases/Tests.antt =====
-- Concrete leases (license-leases.ts): tests, and instances of the theorems.
use wickhunter_hub.Prelude.{
  ℕ, ◌≤◌, ◌≡◌, refl, true, false, none, some, List, [], ◌∷◌, lookup, contains, length, arith,
  or_else, not, ltb, leb,
}
use wickhunter_hub.Leases.Search.{lower_bound_challenge_lem}
use wickhunter_hub.Leases.Waits.{challenge_limits_lem}
use wickhunter_hub.Leases.Terms.{issued-times}
use wickhunter_hub.Leases.Types.{
  ChallengeFacts, throw_if, ◌>>◌, too_many_challenges, challenge_rate,
}
use wickhunter_hub.Leases.Service.{
  Consumed, consume, lower_bound_challenge, challenge_limits, hour_ms, lease_payload,
  first_revision,
}
use wickhunter_hub.Leases.Checks.{valid_times}
use wickhunter_hub.Prelude.{◌<◌, ◌+◌, filter, drop}
use wickhunter_hub.License.Text.{split}
use wickhunter_hub.Leases.Types.{
  LicenseLeasePayload, to_activate, LedgerLine, Result, ok, err, recovery_locked,
}
use wickhunter_hub.Leases.Checks.{valid_lease_payload}
use wickhunter_hub.Leases.Tokens.{
  sign_lease, verify_license_lease, genuine, sequence, active as in_force,
}
use wickhunter_hub.Leases.Verify.{verify-sign_lease}
use wickhunter_hub.Leases.Moves.{Moves}
use wickhunter_hub.Leases.Replay.{replay}
use wickhunter_hub.Leases.Service.{challenge, activate, admin_deactivate, append_event, active_of}
use wickhunter_hub.Leases.Chain.{Apart, replay_unique}
use wickhunter_hub.Leases.Issues.{Issues-Moves, by_challenge, by_activate, by_admin}
use wickhunter_hub.Leases.Reach.{Reaches-IsState, Reaches, starts, writes}
use wickhunter_hub.Leases.Accepts.{Reaches-replay}
use wickhunter_hub.Leases.Limits.{Reaches-seats}
use wickhunter_hub.Leases.Bindings.{OnePerMachine, Reaches-OnePerMachine}
use wickhunter_hub.Leases.SampleEnv.{
  outside, settings, ring, outside-IsEnv, hub_key, encode, sign_sample,
}
use wickhunter_hub.Leases.Scenario.{
  ann, files, token, nonce_1, nonce_2, marker, state_of, head_of, line_of, event_of, outcome_event,
  succeeds, w_0, w_0-ok, asks, c_1, c_1-ok, w_1, w_1-ok, proof_1, a_2, x_2, a_2-ok, w_2, w_2-ok,
  d_3, d_3-ok, w_3, w_3-ok, w_4,
}

-- The locked licence gets no new machine.
locked_5 :
    activate outside settings files
      (state_of w_4)
      1025
      token
      nonce_2
      (encode (sign_sample (1020 ∷ [])))
      "act2"
      "e5"
    ≡ err recovery_locked
unfolding append_event challenge activate admin_deactivate split
locked_5 = refl

reached_0 : Reaches outside settings (line_of w_0 ∷ []) (head_of w_0) (state_of w_0)
reached_0 = starts marker (line_of w_0) (head_of w_0) (state_of w_0) refl w_0-ok

reached_1 : Reaches outside settings (line_of w_0 ∷ line_of w_1 ∷ []) (head_of w_1) (state_of w_1)
reached_1 =
    writes (line_of w_0 ∷ []) (head_of w_0) (state_of w_0) (event_of c_1) (state_of w_0).last_hash
      (line_of w_1) (head_of w_1) (state_of w_1) reached_0
      (by_challenge files 1001 token asks nonce_1 "e1" (event_of c_1) c_1-ok) w_1-ok

new_2 : contains "act1" (state_of w_1).activations ≡ false
unfolding append_event challenge split
new_2 = refl

abbrev lines_2 : List LedgerLine
lines_2 = line_of w_0 ∷ line_of w_1 ∷ line_of w_2 ∷ []

reached_2 : Reaches outside settings lines_2 (head_of w_2) (state_of w_2)
reached_2 =
    writes (line_of w_0 ∷ line_of w_1 ∷ []) (head_of w_1) (state_of w_1) (outcome_event a_2)
      (state_of w_1).last_hash (line_of w_2) (head_of w_2) (state_of w_2) reached_1
      (by_activate files 1005 token nonce_1 proof_1 "act1" "e2" (outcome_event a_2) x_2 new_2
        a_2-ok)
      w_2-ok

abbrev lines_3 : List LedgerLine
lines_3 = line_of w_0 ∷ line_of w_1 ∷ line_of w_2 ∷ line_of w_3 ∷ []

reached_3 : Reaches outside settings lines_3 (head_of w_3) (state_of w_3)
reached_3 =
    writes lines_2 (head_of w_2) (state_of w_2) (event_of d_3) (state_of w_2).last_hash
      (line_of w_3) (head_of w_3) (state_of w_3) reached_2
      (by_admin 1010 "a" "act1" 1 "stolen" "e3" (event_of d_3) d_3-ok) w_3-ok

Reaches-replay_example : replay outside ring lines_3 (some (head_of w_3)) ≡ ok (state_of w_3)
Reaches-replay_example =
    Reaches-replay outside settings ring outside-IsEnv lines_3 (head_of w_3) (state_of w_3)
      reached_3

Reaches-seats_example :
    length (active_of (state_of w_2) "a") ≤ or_else (lookup "a" (state_of w_2).seat_overrides) 1
Reaches-seats_example =
    Reaches-seats outside settings lines_2 (head_of w_2) (state_of w_2) "a" reached_2

Reaches-OnePerMachine_example : OnePerMachine (state_of w_2).activations
Reaches-OnePerMachine_example =
    Reaches-OnePerMachine outside settings lines_2 (head_of w_2) (state_of w_2) reached_2

refl_all : (lines : List LedgerLine) → Apart outside lines lines
refl_all [] = tt
refl_all (l ∷ lines) = ((λ e. refl), refl_all lines)

replay_unique_example : (lines_3 ≡ lines_3) × (state_of w_3 ≡ state_of w_3)
replay_unique_example =
    replay_unique outside ring lines_3 lines_3 (head_of w_3) (state_of w_3) (state_of w_3)
      (refl_all lines_3) Reaches-replay_example Reaches-replay_example

abbrev lease_2 : LicenseLeasePayload
lease_2 = record {
  kid = "k1";
  license_id = "a";
  activation_id = "act1";
  install_public_key = hub_key;
  features = "beta" ∷ [];
  issued_at_ms = 1005;
  not_before_ms = 995;
  expires_at_ms = 1305;
  entitlement_expires_at_ms = 2000;
  sequence = 1;
  server_time_ms = 1005;
  policy = record { refresh_after_ms = 1305; cached_grace_until_ms = 1405; max_clock_skew_ms = 10 };
}

lease_2-valid : valid_lease_payload outside lease_2 ≡ true
unfolding valid_lease_payload
lease_2-valid = refl

verify-sign_lease_example :
    verify_license_lease outside ring (sign_lease outside lease_2).token ≡ genuine lease_2
verify-sign_lease_example =
    verify-sign_lease outside settings ring outside-IsEnv lease_2 lease_2-valid refl

Issues-Moves_example :
    Moves outside settings (state_of w_1) (outcome_event a_2).at_ms (outcome_event a_2).body
Issues-Moves_example =
    Issues-Moves outside settings (state_of w_1) (outcome_event a_2)
      (Reaches-IsState outside settings (line_of w_0 ∷ line_of w_1 ∷ []) (head_of w_1)
        (state_of w_1) reached_1)
      (by_activate files 1005 token nonce_1 proof_1 "act1" "e2" (outcome_event a_2) x_2 new_2
        a_2-ok)

abbrev row : ℕ → ChallengeFacts
row at = record {
  nonce_hash = "";
  purpose = to_activate;
  license_id = "a";
  activation_id = none;
  activation_revision = none;
  install_id = "pc";
  install_public_key = hub_key;
  new_install_id = none;
  new_install_public_key = none;
  issued_at_ms = at;
  expires_at_ms = at + 50;
}

abbrev rows_3 : List ChallengeFacts
rows_3 = row 10 ∷ row 20 ∷ row 30 ∷ []

lower_bound_challenge_lem_example :
    (lower_bound_challenge rows_3 20 (λ c. c.issued_at_ms)
      ≡ length (filter (λ c. leb c.issued_at_ms 20) rows_3))
    × (drop (lower_bound_challenge rows_3 20 (λ c. c.issued_at_ms)) rows_3
        ≡ filter (λ c. ltb 20 c.issued_at_ms) rows_3)
lower_bound_challenge_lem_example =
    lower_bound_challenge_lem (λ c. c.issued_at_ms) 20 rows_3
      ((omega arith, (omega arith, tt)), ((omega arith, tt), (tt, tt)))

challenge_limits_lem_example : challenge_limits outside settings (state_of w_2) "a" 1010 ≡ (
    let rows = or_else (lookup "a" (state_of w_2).challenges_by_license) [] in
    let outstanding =
      filter
        (λ c. not (contains c.nonce_hash (state_of w_2).consumed))
        (filter (λ c. ltb 1010 c.expires_at_ms) rows) in
    let recent = filter (λ c. ltb 1010 (c.issued_at_ms + hour_ms)) rows in
    (throw_if (leb 8 (length outstanding)) too_many_challenges
      >> throw_if (leb 120 (length recent)) challenge_rate))
challenge_limits_lem_example =
    challenge_limits_lem outside settings lines_2 (head_of w_2) (state_of w_2) "a" 1010 reached_2

abbrev consumed_of : Result Consumed → Consumed
consumed_of (ok c) = c
consumed_of (err why) = record {
  license = ann;
  facts = row 0;
  now = 0;
  nonce_hash = "";
  replay = none;
}

found : (r : Result Consumed) → succeeds r ≡ true → r ≡ ok (consumed_of r)
found (ok c) h = refl
found (err why) h = cc

abbrev u_2 : Result Consumed
u_2 = consume outside settings files (state_of w_1) 1005 token to_activate nonce_1 proof_1 []

u_2-ok : u_2 ≡ ok (consumed_of u_2)
unfolding append_event challenge consume split
u_2-ok = found u_2 refl

u_2-exp : (consumed_of u_2).license.exp ≡ 2000
unfolding append_event challenge consume split
u_2-exp = refl

issued-times_example :
    ((consumed_of u_2).now < (consumed_of u_2).license.exp)
    × (valid_times outside (
          lease_payload outside settings
            (consumed_of u_2).license
            (first_revision outside settings (consumed_of u_2) "act1")
            (consumed_of u_2).now)
        ≡ true)
issued-times_example =
    issued-times outside settings files (state_of w_1) 1005 token to_activate nonce_1 proof_1 []
      (consumed_of u_2) (first_revision outside settings (consumed_of u_2) "act1") u_2-ok refl
      (omega (arith, u_2-exp)) (omega arith) (omega arith) (omega arith) (omega arith)
