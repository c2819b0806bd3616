-- ===== src/License/Tokens.antt =====
-- Tokens (license.ts): an issued token verifies until it expires or is revoked, and the Hub can
-- rebuild it from its registry.
use wickhunter_hub.Prelude.{
  ℕ, ◌+◌, ◌≤◌, ◌<◌, ◌≡◌, refl, sym, ap, ◌∙◌, String, Bool, true, false, not, ◌||◌, Option, none,
  some, [], ◌∷◌, ◌++◌, lookup, contains, lookup-insert_self, leb, ltb, str_eq, eq_iff, Bool-cases,
  inl, inr, arith,
}
use wickhunter_hub.License.Types.{
  Text, LicensePayload, LicenseFiles, Result, ok, err, Codec, IsCodec, dot, valid, object,
  parsed_of, max_term_ms, LicenseError, bad_reserved_id, reserved_id_taken, bad_name, bad_plan,
  no_key, expiry_not_after, expiry_too_late,
}
use wickhunter_hub.License.Text.{
  split, split-append, split-last, same_text_refl, trim, is_plan, is_uuid, utf16_length,
}
use wickhunter_hub.License.Store.{
  token_of, token_prefix, decode, verify, token_for, issue_until, is_revoked, shape, put, is_known,
  mint, chosen_id, throw_if, ◌>>=◌, ◌>>◌,
}

-- Inversion of a guard and of a bind that succeeded.
throw_if-ok {ℓ} :
    {B : Type ℓ} (b : Bool) (e : LicenseError) (k : Result B) {r : B}
    → (throw_if b e >> k) ≡ ok r
    → (b ≡ false) × (k ≡ ok r)
throw_if-ok true e k h = cc
throw_if-ok false e k h = (refl, h)

>>=-ok {ℓ₁ ℓ₂} :
    {A : Type ℓ₁} {B : Type ℓ₂} (r : Result A) (rest : A → Result B) {b : B}
    (e : (r >>= rest) ≡ ok b)
    → (a : A) × (r ≡ ok a) × (rest a ≡ ok b)
>>=-ok (err why) rest e = cc
>>=-ok (ok a) rest e = (a, refl, e)

shape-parsed_of :
    (p : LicensePayload) → p.v ≡ 1 → str_eq p.id "" ≡ false → shape (object (parsed_of p)) ≡ some p
unfolding shape
shape-parsed_of p v id = ground arith

module _ (c : Codec) where
  issued :
      (f f' : LicenseFiles) (q p : LicensePayload) (token : Text)
      → ◌≡◌ {A = Result (LicensePayload × Text × LicenseFiles)}
          (ok (q, token_of c q, put f q))
          (ok (p, token, f'))
      → (q ≡ p) × (f' ≡ put f p) × (token ≡ token_of c p)
  issued f f' q p token e =
      let same : q ≡ p = cc in
      let files : f' ≡ put f q = cc in
      let tok : token ≡ token_of c q = cc in
      (same, files ∙ ap (put f) same, tok ∙ ap (token_of c) same)

  -- What a successful issue has done.
  pub issue_until_ok :
      (f f' : LicenseFiles) (name plan : String) (exp now : ℕ) (reserved : Option String)
      (random_id : String) (p : LicensePayload) (token : Text)
      → issue_until c f name exp plan now reserved random_id ≡ ok (p, token, f')
      → (f.has_key ≡ true)
        × (f' ≡ put f p)
        × (token ≡ token_of c p)
        × (p.v ≡ 1)
        × (p.iat ≡ now)
        × (p.exp ≡ exp)
        × (now < exp)
        × (exp ≤ now + max_term_ms)
        × (chosen_id f reserved random_id ≡ ok p.id)
  unfolding issue_until
  issue_until_ok f f' name plan exp now reserved random_id p token e =
      let (_, e₁) =
        throw_if-ok (str_eq (trim name) "" || ltb 120 (utf16_length (trim name))) bad_name _ e in
      let (_, e₂) = throw_if-ok (not (is_plan plan)) bad_plan _ e₁ in
      let (key, e₃) = throw_if-ok (not f.has_key) no_key _ e₂ in
      let (after, e₄) = throw_if-ok (leb exp now) expiry_not_after _ e₃ in
      let (within, e₅) = throw_if-ok (ltb (now + max_term_ms) exp) expiry_too_late _ e₄ in
      let (id, chosen, e₆) =
        >>=-ok (chosen_id f reserved random_id) (mint c f (trim name) exp plan now) e₅ in
      let q : LicensePayload = record {
        v = 1;
        id = id;
        name = trim name;
        exp = exp;
        iat = now;
        plan = plan;
      } in
      let (same, files, tok) = issued f f' q p token e₆ in
      (
        ground (arith, key),
        files,
        tok,
        ap (λ (x : LicensePayload). x.v) (sym same),
        ap (λ (x : LicensePayload). x.iat) (sym same),
        ap (λ (x : LicensePayload). x.exp) (sym same),
        ground (arith, after),
        ground (arith, within),
        chosen ∙ ap (λ (x : LicensePayload). ok x.id) same,
      )

uuid-nonempty : ¬ (is_uuid "" ≡ true)
unfolding is_uuid
uuid-nonempty h = cc

module _ (c : Codec) (laws : IsCodec c) where
  split-token :
      (p : LicensePayload)
      → split dot (token_of c p)
        ≡ token_prefix
          ∷ c.to_base64url (c.stringify p)
          ∷ c.to_base64url (c.sign (c.stringify p))
          ∷ []
  split-token p =
      let body = c.to_base64url (c.stringify p) in
      let sig = c.to_base64url (c.sign (c.stringify p)) in
      split-append dot token_prefix (body ++ dot ∷ sig) (omega arith)
      ∙ ap (◌∷◌ token_prefix) (
          split-append dot body sig (laws.no_dot (c.stringify p))
          ∙ ap (◌∷◌ body) (split-last dot sig (laws.no_dot (c.sign (c.stringify p)))))

  -- A token made from a payload decodes to it, whatever the registry holds.
  pub decode-token :
      (f : LicenseFiles) (p : LicensePayload)
      → f.has_key ≡ true
      → p.v ≡ 1
      → str_eq p.id "" ≡ false
      → decode c f (token_of c p) ≡ valid p
  unfolding decode
  decode-token f p key v id =
      let bytes = c.stringify p in
      rw (split-token p, decode)
        (rw
          (
            same_text_refl token_prefix,
            laws.from-to bytes,
            laws.from-to (c.sign bytes),
            key,
            laws.verify-sign bytes,
            laws.parse-stringify p,
            shape-parsed_of p v id,
          )
          refl)

  chosen-nonempty :
      (f : LicenseFiles) (reserved : Option String) (random_id id : String)
      → str_eq random_id "" ≡ false
      → chosen_id f reserved random_id ≡ ok id
      → str_eq id "" ≡ false
  unfolding chosen_id
  chosen-nonempty f none random_id id r e =
      let same : random_id ≡ id = cc in ap (λ k. str_eq k "") (sym same) ∙ r
  chosen-nonempty f (some k) random_id id r e =
      let (uuid, e') = throw_if-ok (not (is_uuid k)) bad_reserved_id _ e in
      let (_, e″) = throw_if-ok (is_known f k) reserved_id_taken _ e' in
      let same : k ≡ id = cc in
      elim (Bool-cases (str_eq id "")) [
        | inr h ↦ h
        | inl h ↦
            let empty : k ≡ "" = same ∙ (eq_iff id "").0 h in
            absurd (uuid-nonempty (ap is_uuid (sym empty) ∙ ground (arith, uuid)))
      ]

  -- An issued token, shown to the Hub that issued it, verifies with exactly the payload that was
  -- issued, at every instant before its expiry and as long as its id is not revoked; and the Hub
  -- rebuilds that same token from its registry.
  pub verify-issue_until :
      (f f' : LicenseFiles) (name plan : String) (exp now later : ℕ) (reserved : Option String)
      (random_id : String) (p : LicensePayload) (token : Text)
      → str_eq random_id "" ≡ false
      → issue_until c f name exp plan now reserved random_id ≡ ok (p, token, f')
      → is_revoked f p.id ≡ false
      → later < exp
      → (verify c f' token later ≡ valid p) × (token_for c f' p.id ≡ some token)
  unfolding verify token_for is_revoked
  verify-issue_until f f' name plan exp now later reserved random_id p token r e live soon =
      let (key, files, tok, v, iat, ex, _, _, chosen) =
        issue_until_ok c f f' name plan exp now reserved random_id p token e in
      let genuine : decode c f' token ≡ valid p =
        ap (decode c f') tok
        ∙ decode-token f' p (ap (λ (g : LicenseFiles). g.has_key) files ∙ key) v
            (chosen-nonempty f reserved random_id p.id r chosen) in
      let kept : f'.revocations ≡ f.revocations = ap (λ (g : LicenseFiles). g.revocations) files in
      let stored : lookup p.id f'.registry ≡ some p =
        ap (λ (g : LicenseFiles). lookup p.id g.registry) files
        ∙ lookup-insert_self p.id p f.registry in
      let unrevoked : contains p.id f'.revocations ≡ false = ap (contains p.id) kept ∙ live in
      (ground (arith, genuine, unrevoked, ex), ground (arith, stored, unrevoked, tok))
