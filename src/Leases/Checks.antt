-- ===== src/Leases/Checks.antt =====
-- The validation of texts, keys, activations and audit events (license-leases.ts).
use wickhunter_hub.Prelude.{
  ℕ, ◌+◌, String, Bool, true, false, not, ◌&&◌, ◌||◌, Option, none, some, List, [], ◌∷◌, leb, ltb,
  ◌==◌, str_eq, if◌then◌else◌, length,
}
use wickhunter_hub.License.Types.{Text}
use wickhunter_hub.License.Text.{
  trim, utf16_length, is_plan, is_alnum, is_hex, all_chars, codes, same_text,
}
use wickhunter_hub.Leases.Types.{
  LicenseLeasePayload, LeaseActivation, active, deactivated, ChallengeFacts, LeasePurpose,
  to_activate, to_rebind, EventBody, ledger_initialized, challenge_issued, activation_created,
  lease_renewed, activation_rebound, activation_deactivated, seat_override_set,
  license_revocation_observed, LeaseAuditEvent, SignedLicenseLease, Env, text_length, number_range,
  key_malformed, activation_facts, event_envelope, challenge_hash, challenge_binding,
  challenge_replacement, lease_to_deactivated, lease_malformed, lease_mismatch, Result, ok, err,
  ◌>>=◌, ◌>>◌, throw_if,
}

abbrev pub max_safe_integer : ℕ
max_safe_integer = 9007199254740991

abbrev pub raw_public_key_bytes : ℕ
raw_public_key_bytes = 32

abbrev pub signature_bytes : ℕ
signature_bytes = 64

unfoldable pub finite_int : ℕ → ℕ → ℕ → Result (Unit {0})
finite_int value min max = throw_if (ltb value min || ltb max value) number_range

-- The text without surrounding white space.
unfoldable pub bounded_text : String → ℕ → Result String
unfolding trim utf16_length
bounded_text value max = do
  let text = trim value
  throw_if (ltb (utf16_length text) 1 || ltb max (utf16_length text)) text_length
  ok text

-- A bound on a text whose trimmed form is not used.
abbrev pub check_text : String → ℕ → Result (Unit {0})
check_text value max = bounded_text value max >>= λ _. ok tt

-- /^[A-Za-z][A-Za-z0-9_.-]{0,63}$/
unfoldable pub is_feature : String → Bool
unfolding is_plan codes is_alnum
is_feature s =
    is_plan s && elim (codes s) [ [] ↦ false | c ∷ rest ↦ not (leb b'0' c && leb c b'9') ]

unfoldable pub has_text : String → List String → Bool
has_text s [] = false
has_text s (x ∷ xs) = str_eq x s || has_text s xs

unfoldable pub distinct_texts : List String → Bool
unfolding has_text
distinct_texts [] = true
distinct_texts (x ∷ xs) = not (has_text x xs) && distinct_texts xs

unfoldable pub same_texts : List String → List String → Bool
same_texts [] [] = true
same_texts (x ∷ xs) (y ∷ ys) = str_eq x y && same_texts xs ys
same_texts _ _ = false

unfoldable pub all_texts : (String → Bool) → List String → Bool
all_texts p [] = true
all_texts p (x ∷ xs) = p x && all_texts p xs

-- /^[a-f0-9]{64}$/
unfoldable pub is_digest : String → Bool
unfolding codes is_hex all_chars
is_digest s = all_chars is_hex (codes s) && length (codes s) == 64

abbrev pub is_activate : LeasePurpose → Bool
is_activate to_activate = true
is_activate _ = false

abbrev pub is_rebind : LeasePurpose → Bool
is_rebind to_rebind = true
is_rebind _ = false

abbrev pub is_none {ℓ} : {A : Type ℓ} → Option A → Bool
is_none none = true
is_none (some a) = false

module _ (env : Env) where
  unfoldable pub exact_b64u : Text → ℕ → Bool
  unfolding is_alnum all_chars same_text
  exact_b64u value bytes =
      let decoded = env.from_base64url value in
      not (length value == 0)
      && all_chars (λ c. is_alnum c || c == b'_' || c == b'-') value
      && length decoded == bytes
      && same_text (env.to_base64url decoded) value

  -- `publicKeyObject` throws on anything but a canonical key.
  unfoldable pub public_key_object : String → Result (Unit {0})
  unfolding exact_b64u codes
  public_key_object raw = throw_if (not (exact_b64u (codes raw) raw_public_key_bytes)) key_malformed

  unfoldable pub insert_text : String → List String → List String
  insert_text s [] = s ∷ []
  insert_text s (x ∷ xs) = if env.precedes x s then x ∷ insert_text s xs else s ∷ x ∷ xs

  unfoldable pub sort_texts : List String → List String
  unfolding insert_text
  sort_texts [] = []
  sort_texts (s ∷ xs) = insert_text s (sort_texts xs)

  -- The tests on the numbers of a lease payload and of its policy.
  unfoldable pub valid_times : LicenseLeasePayload → Bool
  valid_times p =
      leb p.expires_at_ms max_safe_integer
      && leb p.entitlement_expires_at_ms max_safe_integer
      && leb p.sequence max_safe_integer
      && leb p.policy.max_clock_skew_ms max_safe_integer
      && leb 1 p.sequence
      && leb p.not_before_ms p.issued_at_ms
      && p.issued_at_ms == p.server_time_ms
      && ltb p.issued_at_ms p.expires_at_ms
      && leb p.expires_at_ms p.entitlement_expires_at_ms
      && leb p.issued_at_ms p.policy.refresh_after_ms
      && leb p.policy.refresh_after_ms p.expires_at_ms
      && leb p.expires_at_ms p.policy.cached_grace_until_ms
      && leb p.policy.cached_grace_until_ms p.entitlement_expires_at_ms

  unfoldable pub valid_lease_payload : LicenseLeasePayload → Bool
  unfolding is_plan exact_b64u codes is_feature all_texts distinct_texts same_texts sort_texts
      valid_times
  valid_lease_payload p =
      is_plan p.kid
      && not (str_eq p.license_id "")
      && not (str_eq p.activation_id "")
      && exact_b64u (codes p.install_public_key) raw_public_key_bytes
      && all_texts is_feature p.features
      && distinct_texts p.features
      && same_texts p.features (sort_texts p.features)
      && valid_times p

  unfoldable pub validate_activation : LeaseActivation → Result (Unit {0})
  unfolding bounded_text public_key_object finite_int
  validate_activation a = do
    check_text a.id 128
    check_text a.license_id 128
    check_text a.install_id 128
    public_key_object a.install_public_key
    finite_int a.last_sequence 0 max_safe_integer
    finite_int a.revision 1 max_safe_integer
    finite_int a.created_at_ms 0 max_safe_integer
    finite_int a.updated_at_ms a.created_at_ms max_safe_integer
    elim a.last_lease_expires_at_ms [ none ↦ ok tt | some at ↦ finite_int at 0 max_safe_integer ]
    elim a.deactivated_at_ms [
      | none ↦ ok tt
      | some at ↦ finite_int at a.created_at_ms max_safe_integer
    ]
    elim a.status [
      | active ↦
          throw_if (not (is_none a.deactivated_at_ms && is_none a.deactivation_reason))
            activation_facts
      | deactivated ↦
          throw_if
            (is_none a.deactivated_at_ms
              || elim a.deactivation_reason [ none ↦ true | some why ↦ str_eq why "" ])
            activation_facts
    ]

  -- Only a rebind carries the facts of a replacement install.
  unfoldable pub replacement_facts : ChallengeFacts → Result (Unit {0})
  unfolding bounded_text public_key_object
  replacement_facts c =
      if is_rebind c.purpose
      then (elim c.new_install_id [
        | none ↦ err text_length
        | some id ↦ do
          check_text id 128
          elim c.new_install_public_key [
            | none ↦ err text_length
            | some key ↦ bounded_text key 128 >>= public_key_object
          ]
      ])
      else throw_if (not (is_none c.new_install_id && is_none c.new_install_public_key))
          challenge_replacement

  unfoldable pub validate_challenge : ChallengeFacts → Result (Unit {0})
  unfolding is_digest bounded_text public_key_object finite_int replacement_facts
  validate_challenge c = do
    throw_if (not (is_digest c.nonce_hash)) challenge_hash
    check_text c.license_id 128
    check_text c.install_id 128
    public_key_object c.install_public_key
    finite_int c.issued_at_ms 0 max_safe_integer
    finite_int c.expires_at_ms (c.issued_at_ms + 1) max_safe_integer
    throw_if
        (if is_activate c.purpose
          then not (is_none c.activation_id)
          else elim c.activation_id [ none ↦ true | some id ↦ str_eq id "" ])
        challenge_binding
    throw_if
        (if is_activate c.purpose
          then not (is_none c.activation_revision)
          else elim c.activation_revision [
            | none ↦ true
            | some r ↦ ltb r 1 || ltb max_safe_integer r
          ])
        challenge_binding
    replacement_facts c

  unfoldable pub lease_matches : LeaseActivation → LicenseLeasePayload → Bool
  lease_matches a p =
      str_eq p.license_id a.license_id
      && str_eq p.activation_id a.id
      && str_eq p.install_public_key a.install_public_key
      && p.sequence == a.last_sequence
      && elim a.last_lease_expires_at_ms [ none ↦ false | some at ↦ p.expires_at_ms == at ]

  abbrev pub validate_issue : LeaseActivation → SignedLicenseLease → Result (Unit {0})
  validate_issue a lease = do
    validate_activation a
    elim a.status [ active ↦ ok tt | deactivated ↦ err lease_to_deactivated ]
    throw_if (not (valid_lease_payload lease.payload)) lease_malformed
    throw_if (not (lease_matches a lease.payload)) lease_mismatch

  unfoldable pub validate_body : EventBody → Result (Unit {0})
  unfolding validate_challenge validate_activation valid_lease_payload lease_matches finite_int
      bounded_text
  validate_body ledger_initialized = ok tt
  validate_body (challenge_issued c) = validate_challenge c
  validate_body (activation_created nonce a lease) = validate_issue a lease
  validate_body (lease_renewed nonce a lease) = validate_issue a lease
  validate_body (activation_rebound nonce a lease) = validate_issue a lease
  validate_body (activation_deactivated hash actor reason a) = validate_activation a
  validate_body (seat_override_set id max reason) = do
    elim max [ none ↦ ok tt | some n ↦ finite_int n 1 64 ]
    check_text reason 500
  validate_body (license_revocation_observed id reason) = check_text reason 500

  unfoldable pub validate_audit_event : LeaseAuditEvent → Result (Unit {0})
  unfolding validate_body
  validate_audit_event e = do
    throw_if (str_eq e.event_id "" || ltb max_safe_integer e.at_ms) event_envelope
    validate_body e.body
