-- ===== src/Observability/Examples.antt =====
-- The theorems on identifiers of requests and on URLs at concrete inputs.
use nestjs_modular_monolith.Common.{◌≡◌, refl, true, false, none, some, [], ◌∷◌, ◌++◌, ◌==◌, All}
use nestjs_modular_monolith.Text.{Text, literal}
use nestjs_modular_monolith.Observability.{
  RequestIdCarrier, absent, one, many, is_safe_id, safe_or, ensure_request_ids,
}
use nestjs_modular_monolith.Observability.Urls.{
  join, sanitise_url, same_part, hidden_value, no_parts, more_parts, sanitise_url-SameParts,
}
use nestjs_modular_monolith.Observability.Stamps.{ensure_request_ids-safe}

-- A header that would break a line of the log, inside a wrapper.
abbrev forged : RequestIdCarrier
forged = record {
  own = record { request_id_header = absent; correlation_id_header = absent; stamped = none };
  raw = some (record {
    request_id_header = one (literal "a b");
    correlation_id_header = many (literal "c-1" ∷ []);
    stamped = none;
  });
}

id-is_safe : is_safe_id (literal "0198") ≡ true
unfolding is_safe_id
id-is_safe = refl

ensure_request_ids-safe_example :
    let (ids, stamped) = ensure_request_ids forged true (literal "0198") in
    (is_safe_id ids.request_id ≡ true)
    × (is_safe_id ids.correlation_id ≡ true)
    × (ids.request_id ≡ safe_or (some (literal "a b")) (literal "0198"))
    × (ensure_request_ids stamped false (literal "0199") ≡ (ids, stamped))
ensure_request_ids-safe_example =
    ensure_request_ids-safe forged true false (literal "0198") (literal "0199") refl id-is_safe

abbrev same_case : Text → Text
same_case s = s

sanitise_url-SameParts_example :
    sanitise_url same_case (literal "/v" ++ 63 ∷ join (literal "token=a" ∷ literal "p=1" ∷ []))
    ≡ sanitise_url same_case (literal "/v" ++ 63 ∷ join (literal "token=b" ∷ literal "p=1" ∷ []))
sanitise_url-SameParts_example =
    sanitise_url-SameParts same_case (literal "/v") (literal "token=a") (literal "token=b")
      (literal "p=1" ∷ []) (literal "p=1" ∷ []) (refl, (refl, tt)) plain_parts plain_others
      (more_parts
        (hidden_value (literal "token") (literal "a") (literal "b")
          (refl, (refl, (refl, (refl, (refl, tt))))) refl)
        (more_parts (same_part (literal "p=1")) no_parts))
  where
    plain_parts : All (All (λ c. c == 38 ≡ false)) (literal "token=a" ∷ literal "p=1" ∷ [])
    plain_parts = (
      (refl, (refl, (refl, (refl, (refl, (refl, (refl, tt))))))),
      ((refl, (refl, (refl, tt))), tt),
    )

    plain_others : All (All (λ c. c == 38 ≡ false)) (literal "token=b" ∷ literal "p=1" ∷ [])
    plain_others = (
      (refl, (refl, (refl, (refl, (refl, (refl, (refl, tt))))))),
      ((refl, (refl, (refl, tt))), tt),
    )
