-- ===== src/Billing/Verifier.antt =====
-- src/modules/billing/infrastructure/hmac-webhook-verifier.adapter.ts: whether a webhook is authentic.
use nestjs_modular_monolith.Common.{
  ℕ, ◌%◌, ◌≡◌, refl, sym, ◌∙◌, ◌⊎◌, inl, inr, Bool, true, false, ◌&&◌, ◌||◌, not, Option, none,
  some, List, [], ◌∷◌, leb, ◌==◌, if◌then◌else◌, length, arith, Bool-cases,
}
use nestjs_modular_monolith.Errors.{Result, ok, throw, Thrown, forbidden_code}
use nestjs_modular_monolith.Errors.DomainErrors
use nestjs_modular_monolith.Text.{Text, text_eq, text_eq_refl, eq_of_text_eq, trim}
use nestjs_modular_monolith.Billing.Json.{Value, object, Fields}

-- What the adapter calls: the digest `createHmac('sha256', secret).update(payload, 'utf8')`,
-- `Buffer.from(_, 'hex')`, and `JSON.parse`, which is none where it throws.
pub record Crypto : Type 0 where
  pub hmac_sha256 : Text → Text → List ℕ
  pub from_hex : Text → List ℕ
  pub json_parse : Text → Option Value

-- `/^[0-9a-f]+$/i`
abbrev pub is_hex_digit : ℕ → Bool
is_hex_digit c = leb 48 c && leb c 57 || leb 97 c && leb c 102 || leb 65 c && leb c 70

abbrev pub is_hex : Text → Bool
is_hex [] = false
is_hex (c ∷ []) = is_hex_digit c
is_hex (c ∷ s) = is_hex_digit c && is_hex s

abbrev pub rejected : Thrown
rejected = DomainErrors.forbidden forbidden_code

module _ (crypto : Crypto) where
  open crypto use {hmac_sha256, from_hex, json_parse}

  unfoldable pub decode_signature : Text → Option (List ℕ)
  decode_signature signature =
      let trimmed = trim signature in
      if not (is_hex trimmed) || not (length trimmed % 2 == 0)
      then none
      else some (from_hex trimmed)

  abbrev pub as_object : Option Value → Result Fields
  as_object (some (object fs)) = ok fs
  as_object x = throw rejected

  unfoldable pub parse_json_object : Text → Result Fields
  parse_json_object payload = as_object (json_parse payload)

  -- `timingSafeEqual` compares the bytes.
  abbrev pub compare_digest : Option (List ℕ) → List ℕ → Text → Result Fields
  compare_digest none expected payload = throw rejected
  compare_digest (some provided) expected payload =
      if not (length provided == length expected)
      then throw rejected
      else if not (text_eq provided expected)
      then throw rejected
      else parse_json_object payload

  unfoldable pub verify : Text → Text → Text → Result Fields
  verify secret payload signature =
      compare_digest (decode_signature signature) (hmac_sha256 secret payload) payload

  abbrev pub IsAuthentic : Text → Text → Text → Fields → Type 0
  IsAuthentic secret payload signature fs =
      (decode_signature signature ≡ some (hmac_sha256 secret payload))
      × (json_parse payload ≡ some (object fs))

  as_object-cases :
      (x : Option Value)
      → ((fs : Fields) × (x ≡ some (object fs)) × (as_object x ≡ ok fs))
        ⊎ (as_object x ≡ throw rejected)
  as_object-cases (some (object fs)) = inl (fs, refl, refl)
  as_object-cases x = inr refl

  verify_authentic :
      (secret payload signature : Text) (fs : Fields)
      → IsAuthentic secret payload signature fs
      → verify secret payload signature ≡ ok fs
  unfolding verify parse_json_object
  verify_authentic secret payload signature fs (decoded, parsed) =
      let digest = hmac_sha256 secret payload in
      let same_length : length digest == length digest ≡ true = ground arith in
      rw (decoded, same_length, text_eq_refl digest, parsed) refl

  not_thrown : {e : Thrown} {fs : Fields} → ok fs ≡ throw e → ⊥
  not_thrown h = cc

  -- The comparison answers what the parser does, on the very digest, or rejects.
  compare_digest-cases :
      (provided : Option (List ℕ)) (expected : List ℕ) (payload : Text)
      → ((provided ≡ some expected)
          × (compare_digest provided expected payload ≡ parse_json_object payload))
        ⊎ (compare_digest provided expected payload ≡ throw rejected)
  compare_digest-cases none expected payload = inr refl
  compare_digest-cases (some provided) expected payload =
      elim (Bool-cases (text_eq provided expected)) [
        | inl same ↦
            let same_length : length expected == length expected ≡ true = ground arith in
            rw (eq_of_text_eq provided expected same, same_length, text_eq_refl expected)
              (inl (refl, refl))
        | inr other ↦ elim (Bool-cases (length provided == length expected)) [
          | inl e ↦ inr (rw (e, other) refl)
          | inr e ↦ inr (rw e refl)
        ]
      ]

  refused :
      (secret payload signature : Text)
      → verify secret payload signature ≡ throw rejected
      → (fs : Fields) → ¬ IsAuthentic secret payload signature fs
  refused secret payload signature h fs good =
      not_thrown (sym (verify_authentic secret payload signature fs good) ∙ h)

  -- A webhook is accepted, with the object that its body says, exactly where the signature decodes to
  -- the digest of the body as it arrived; every other one gets the same answer.
  pub verify_outcome :
      (secret payload signature : Text)
      → ((fs : Fields) × IsAuthentic secret payload signature fs
          × (verify secret payload signature ≡ ok fs))
        ⊎ (((fs : Fields) → ¬ IsAuthentic secret payload signature fs)
            × (verify secret payload signature ≡ throw rejected))
  unfolding verify parse_json_object
  verify_outcome secret payload signature =
      elim (compare_digest-cases (decode_signature signature) (hmac_sha256 secret payload)
        payload) [
          | inl (same, answers) ↦ elim (as_object-cases (json_parse payload)) [
            | inl (fs, parsed, _) ↦
                inl
                  (fs, (same, parsed), verify_authentic secret payload signature fs (same, parsed))
            | inr failed ↦
                inr (refused secret payload signature (answers ∙ failed), answers ∙ failed)
          ]
          | inr failed ↦ inr (refused secret payload signature failed, failed)
        ]
