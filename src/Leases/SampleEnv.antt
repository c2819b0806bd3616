-- ===== src/Leases/SampleEnv.antt =====
-- Outside code with the laws of `IsEnv`, for the concrete runs (license-leases.ts): numbers written in
-- unary with two letters, a "hash" by length and a "signature" of 64 numbers.
use wickhunter_hub.Prelude.{
  ℕ, zero, suc, ◌+◌, ◌≤◌, ◌≡◌, ◌≢◌, refl, ap, ap₂, ◌∙◌, String, Bool, true, false, ◌||◌, Option,
  none, some, List, [], ◌∷◌, Dict, length, All, ◌==◌, if◌then◌else◌, arith,
}
use wickhunter_hub.License.Types.{Text, dot}
use wickhunter_hub.License.Text.{same_text, same_text_refl, all_chars, is_alnum, codes}
use wickhunter_hub.License.SampleCodec.{sample, pack, unpack, unpack-pack}
use wickhunter_hub.Leases.Types.{LicenseLeasePayload, LicenseLeaseConfig, Env, ParsedLease, shaped}
use wickhunter_hub.Leases.Checks.{exact_b64u}
use wickhunter_hub.Leases.Laws.{IsEnv}

abbrev unary : ℕ → Text → Text
unary zero t = b'B' ∷ t
unary (suc n) t = b'A' ∷ unary n t

abbrev pub encode : List ℕ → Text
encode [] = []
encode (n ∷ t) = unary n (encode t)

abbrev decode_from : ℕ → Text → List ℕ
decode_from k [] = []
decode_from k (c ∷ t) = elim (c == b'B') [
  | true ↦ k ∷ decode_from 0 t
  | false ↦ decode_from (suc k) t
]

decode-unary : (k n : ℕ) (t : Text) → decode_from k (unary n t) ≡ (k + n) ∷ decode_from 0 t
decode-unary k zero t = ap (λ m. m ∷ decode_from 0 t) (omega arith)
decode-unary k (suc n) t = decode-unary (suc k) n t ∙ ap (λ m. m ∷ decode_from 0 t) (omega arith)

decode-encode : (bytes : List ℕ) → decode_from 0 (encode bytes) ≡ bytes
decode-encode [] = refl
decode-encode (n ∷ t) = decode-unary 0 n (encode t) ∙ ap₂ ◌∷◌ (omega arith) (decode-encode t)

unary-no_dot : (n : ℕ) (t : Text) → All (λ x. x ≢ dot) t → All (λ x. x ≢ dot) (unary n t)
unary-no_dot zero t h = ((λ e. omega (arith, e)), h)
unary-no_dot (suc n) t h = ((λ e. omega (arith, e)), unary-no_dot n t h)

encode-no_dot : (bytes : List ℕ) → All (λ x. x ≢ dot) (encode bytes)
encode-no_dot [] = tt
encode-no_dot (n ∷ t) = unary-no_dot n (encode t) (encode-no_dot t)

abbrev url_char : ℕ → Bool
url_char c = is_alnum c || c == b'_' || c == b'-'

unary-chars :
    (n : ℕ) (t : Text) → all_chars url_char t ≡ true → all_chars url_char (unary n t) ≡ true
unfolding all_chars is_alnum
unary-chars zero t h = h
unary-chars (suc n) t h = unary-chars n t h

encode-chars : (bytes : List ℕ) → all_chars url_char (encode bytes) ≡ true
unfolding all_chars
encode-chars [] = refl
encode-chars (n ∷ t) = unary-chars n (encode t) (encode-chars t)

unary-length : (n : ℕ) (t : Text) → length (unary n t) == 0 ≡ false
unary-length zero t = ground arith
unary-length (suc n) t = ground arith

encode-length : (bytes : List ℕ) → 1 ≤ length bytes → length (encode bytes) == 0 ≡ false
encode-length [] h = absurd (omega (arith, h))
encode-length (n ∷ t) h = unary-length n (encode t)

abbrev sum : List ℕ → ℕ
sum [] = 0
sum (n ∷ t) = n + sum t

abbrev zeros : ℕ → List ℕ
zeros zero = []
zeros (suc n) = 0 ∷ zeros n

abbrev pub sign_sample : List ℕ → List ℕ
sign_sample bytes = length bytes ∷ zeros 63

abbrev sha_sample : List ℕ → String
sha_sample bytes =
    if length bytes == 64
    then "aaaaaaaaaaaaaaaaaaaaaaaaaaaaaaaaaaaaaaaaaaaaaaaaaaaaaaaaaaaaaaaa"
    else (if length bytes == 96
        then "bbbbbbbbbbbbbbbbbbbbbbbbbbbbbbbbbbbbbbbbbbbbbbbbbbbbbbbbbbbbbbbb"
        else "cccccccccccccccccccccccccccccccccccccccccccccccccccccccccccccccc")

abbrev pack_all : List String → Text → Text
pack_all [] t = 0 ∷ t
pack_all (s ∷ xs) t = 1 ∷ pack s (pack_all xs t)

abbrev unpack_all : ℕ → Text → List String × Text
unpack_all fuel [] = ([], [])
unpack_all fuel (zero ∷ t) = ([], t)
unpack_all zero (suc n ∷ t) = ([], t)
unpack_all (suc fuel) (suc n ∷ t) =
    let (s, t₁) = unpack t in let (xs, t₂) = unpack_all fuel t₁ in (s ∷ xs, t₂)

unpack_all-pack_all :
    (xs : List String) (t : Text) → unpack_all (length xs) (pack_all xs t) ≡ (xs, t)
unpack_all-pack_all [] t = refl
unpack_all-pack_all (s ∷ xs) t =
    rw (unpack-pack s (pack_all xs t)) (ap (λ r. (s ∷ r.0, r.1)) (unpack_all-pack_all xs t))

abbrev stringify_lease : LicenseLeasePayload → Text
stringify_lease p =
    p.issued_at_ms
    ∷ p.not_before_ms
    ∷ p.expires_at_ms
    ∷ p.entitlement_expires_at_ms
    ∷ p.sequence
    ∷ p.server_time_ms
    ∷ p.policy.refresh_after_ms
    ∷ p.policy.cached_grace_until_ms
    ∷ p.policy.max_clock_skew_ms
    ∷ length p.features
    ∷ pack p.kid (
        pack p.license_id
          (pack p.activation_id (pack p.install_public_key (pack_all p.features []))))

abbrev parse_lease : Text → Option ParsedLease
parse_lease (issued ∷ before ∷ expires ∷ ends ∷ number ∷ now ∷ refresh ∷ grace ∷ skew ∷ count ∷ t) =
    let (kid, t₁) = unpack t in
    let (license_id, t₂) = unpack t₁ in
    let (activation_id, t₃) = unpack t₂ in
    let (key, t₄) = unpack t₃ in
    let (features, _) = unpack_all count t₄ in
    some (
      shaped (record {
        kid = kid;
        license_id = license_id;
        activation_id = activation_id;
        install_public_key = key;
        features = features;
        issued_at_ms = issued;
        not_before_ms = before;
        expires_at_ms = expires;
        entitlement_expires_at_ms = ends;
        sequence = number;
        server_time_ms = now;
        policy = record {
          refresh_after_ms = refresh;
          cached_grace_until_ms = grace;
          max_clock_skew_ms = skew;
        };
      }))
parse_lease _ = none

parse-stringify_lease :
    (p : LicenseLeasePayload) → parse_lease (stringify_lease p) ≡ some (shaped p)
parse-stringify_lease p =
    let t₄ = pack_all p.features [] in
    let t₃ = pack p.install_public_key t₄ in
    let t₂ = pack p.activation_id t₃ in
    rw
      (
        unpack-pack p.kid (pack p.license_id t₂),
        unpack-pack p.license_id t₂,
        unpack-pack p.activation_id t₃,
        unpack-pack p.install_public_key t₄,
        unpack_all-pack_all p.features [],
      )
      refl

abbrev pub outside : Env
outside = record {
  from_base64url = decode_from 0;
  to_base64url = encode;
  sha256 = sha_sample;
  ed_verify = λ key bytes sig. same_text sig (sign_sample bytes);
  ed_sign = sign_sample;
  stringify_payload = stringify_lease;
  parse_payload = parse_lease;
  stringify_unsigned = λ kid hash e. e.at_ms ∷ [];
  stringify_line = λ line. line.event.at_ms ∷ [];
  stringify_proof = λ c nonce. c.issued_at_ms ∷ [];
  precedes = λ a b. false;
  features_for = λ id. [];
  codec = sample;
}

abbrev pub settings : LicenseLeaseConfig
settings = record {
  active_key_id = "k1";
  lease_duration_ms = 300;
  cached_grace_ms = 100;
  challenge_ttl_ms = 50;
  max_clock_skew_ms = 10;
  default_max_machines = 1;
  ledger_max_bytes = 4096;
}

-- 32 zeros.
abbrev pub hub_key : String
hub_key = "BBBBBBBBBBBBBBBBBBBBBBBBBBBBBBBB"

abbrev pub ring : Dict String
ring = ("k1", hub_key) ∷ []

pub outside-IsEnv : IsEnv outside settings ring
unfolding exact_b64u codes all_chars is_alnum same_text
outside-IsEnv = record {
  from-to = decode-encode;
  no_dot = encode-no_dot;
  exact = λ bytes h.
      rw (encode-length bytes h, decode-encode bytes)
        (rw (encode-chars bytes, same_text_refl (encode bytes)) (ground arith));
  ed_sign-length = λ bytes. refl;
  parse-stringify = parse-stringify_lease;
  public_key = hub_key;
  active_key = refl;
  key_exact = refl;
  verify-sign = λ bytes. same_text_refl (sign_sample bytes);
}
