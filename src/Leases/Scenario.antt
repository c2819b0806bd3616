-- ===== src/Leases/Scenario.antt =====
-- A run of the lease service on one licence (license-leases.ts): the marker, a challenge, an
-- activation, a deactivation by an administrator and one more challenge.
use wickhunter_hub.Prelude.{ℕ, zero, suc, ◌≡◌, refl, Bool, true, false, none, List, [], ◌∷◌, length}
use wickhunter_hub.License.Types.{LicensePayload, LicenseFiles, Text}
use wickhunter_hub.License.Store.{token_of}
use wickhunter_hub.License.Text.{split}
use wickhunter_hub.License.SampleCodec.{sample}
use wickhunter_hub.Leases.Types.{
  to_activate, LeaseAuditEvent, LeaseOperationResult, ledger_initialized, active, LedgerLine,
  LedgerHead, ReplayState, empty_replay, Result, ok, err,
}
use wickhunter_hub.Leases.Service.{
  LeaseChallengeInput, Outcome, appends, challenge, activate, admin_deactivate, append_event,
  active_of,
}
use wickhunter_hub.Leases.SampleEnv.{outside, settings, hub_key, encode, sign_sample}

abbrev pub ann : LicensePayload
ann = record { v = 1; id = "a"; name = "Ann"; exp = 2000; iat = 500; plan = "beta" }

abbrev pub files : LicenseFiles
files = record { has_key = true; registry = ("a", ann) ∷ []; revocations = [] }

abbrev pub token : Text
token = token_of sample ann

abbrev pub copies : ℕ → ℕ → List ℕ
copies zero x = []
copies (suc n) x = x ∷ copies n x

abbrev pub nonce_1 : Text
nonce_1 = encode (copies 32 1)

abbrev pub nonce_2 : Text
nonce_2 = encode (copies 32 2)

abbrev pub marker : LeaseAuditEvent
marker = record { event_id = "e0"; at_ms = 1000; body = ledger_initialized }

abbrev pub Written : Type 0
Written = Result (LedgerLine × LedgerHead × ReplayState)

abbrev pub state_of : Written → ReplayState
state_of (ok w) = w.2
state_of (err why) = empty_replay

abbrev pub head_of : Written → LedgerHead
head_of (ok w) = w.1
head_of (err why) = record { event_count = 0; last_hash = ""; updated_at_ms = 0 }

abbrev pub line_of : Written → LedgerLine
line_of (ok w) = w.0
line_of (err why) = record { kid = ""; previous_hash = none; event = marker; sig = [] }

abbrev pub event_of : Result LeaseAuditEvent → LeaseAuditEvent
event_of (ok e) = e
event_of (err why) = marker

abbrev pub outcome_event : Result Outcome → LeaseAuditEvent
outcome_event (ok (appends e x)) = e
outcome_event _ = marker

abbrev pub outcome_result : LeaseOperationResult → Result Outcome → LeaseOperationResult
outcome_result other (ok (appends e x)) = x
outcome_result other _ = other

abbrev pub succeeds {ℓ} : {A : Type ℓ} → Result A → Bool
succeeds (ok a) = true
succeeds (err why) = false

pub written : (w : Written) → succeeds w ≡ true → w ≡ ok (line_of w, head_of w, state_of w)
written (ok w) h = refl
written (err why) h = cc

pub made : (r : Result LeaseAuditEvent) → succeeds r ≡ true → r ≡ ok (event_of r)
made (ok e) h = refl
made (err why) h = cc

abbrev pub w_0 : Written
w_0 = append_event outside settings empty_replay marker none

pub w_0-ok : w_0 ≡ ok (line_of w_0, head_of w_0, state_of w_0)
unfolding append_event
w_0-ok = written w_0 refl

abbrev pub asks : LeaseChallengeInput
asks = record {
  purpose = to_activate;
  install_id = "pc";
  install_public_key = hub_key;
  activation_id = none;
  new_install_id = "";
  new_install_public_key = "";
}

abbrev pub c_1 : Result LeaseAuditEvent
c_1 = challenge outside settings files (state_of w_0) 1001 token asks nonce_1 "e1"

pub c_1-ok : c_1 ≡ ok (event_of c_1)
unfolding append_event challenge split
c_1-ok = made c_1 refl

abbrev pub w_1 : Written
w_1 = append_event outside settings (state_of w_0) (event_of c_1) (state_of w_0).last_hash

pub w_1-ok : w_1 ≡ ok (line_of w_1, head_of w_1, state_of w_1)
unfolding append_event challenge split
w_1-ok = written w_1 refl

abbrev pub proof_1 : Text
proof_1 = encode (sign_sample (1001 ∷ []))

abbrev pub a_2 : Result Outcome
a_2 = activate outside settings files (state_of w_1) 1005 token nonce_1 proof_1 "act1" "e2"

abbrev pub x_2 : LeaseOperationResult
x_2 = elim a_2 [
  | ok (appends e x) ↦ x
  | _ ↦ record {
    replayed = true;
    activation = record {
      id = "";
      license_id = "";
      install_id = "";
      install_public_key = "";
      status = active;
      created_at_ms = 0;
      updated_at_ms = 0;
      last_sequence = 0;
      last_lease_expires_at_ms = none;
      deactivated_at_ms = none;
      deactivation_reason = none;
      revision = 0;
    };
    lease = none;
  }
]

pub a_2-ok : a_2 ≡ ok (appends (outcome_event a_2) x_2)
unfolding append_event challenge activate split
a_2-ok = refl

abbrev pub w_2 : Written
w_2 = append_event outside settings (state_of w_1) (outcome_event a_2) (state_of w_1).last_hash

pub w_2-ok : w_2 ≡ ok (line_of w_2, head_of w_2, state_of w_2)
unfolding append_event challenge activate split
w_2-ok = written w_2 refl

pub seats_2 : length (active_of (state_of w_2) "a") ≡ 1
unfolding append_event challenge activate split
seats_2 = refl

abbrev pub d_3 : Result LeaseAuditEvent
d_3 = admin_deactivate outside settings (state_of w_2) 1010 "a" "act1" 1 "stolen" "e3"

pub d_3-ok : d_3 ≡ ok (event_of d_3)
unfolding append_event challenge activate admin_deactivate split
d_3-ok = made d_3 refl

abbrev pub w_3 : Written
w_3 = append_event outside settings (state_of w_2) (event_of d_3) (state_of w_2).last_hash

pub w_3-ok : w_3 ≡ ok (line_of w_3, head_of w_3, state_of w_3)
unfolding append_event challenge activate admin_deactivate split
w_3-ok = written w_3 refl

abbrev pub c_4 : Result LeaseAuditEvent
c_4 = challenge outside settings files (state_of w_3) 1020 token asks nonce_2 "e4"

pub c_4-ok : c_4 ≡ ok (event_of c_4)
unfolding append_event challenge activate admin_deactivate split
c_4-ok = made c_4 refl

abbrev pub w_4 : Written
w_4 = append_event outside settings (state_of w_3) (event_of c_4) (state_of w_3).last_hash

pub w_4-ok : w_4 ≡ ok (line_of w_4, head_of w_4, state_of w_4)
unfolding append_event challenge activate admin_deactivate split
w_4-ok = written w_4 refl
