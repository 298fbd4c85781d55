-- ===== src/Observability/Urls.antt =====
-- src/platform/observability/sanitise-url.ts: what the logs keep of a URL.
use nestjs_modular_monolith.Common.{
  ℕ, ◌≡◌, refl, ap, ap₂, ◌∙◌, sym, Bool, true, false, Option, none, some, List, [], ◌∷◌, ◌++◌, map,
  ◌==◌, if◌then◌else◌, any, All, ==_refl,
}
use nestjs_modular_monolith.Text.{Text, text_eq, literal, split, split_none}
use nestjs_modular_monolith.Http.{starts_with}

abbrev pub sensitive_query_keys : List Text
sensitive_query_keys =
    literal "token"
    ∷ literal "code"
    ∷ literal "secret"
    ∷ literal "password"
    ∷ literal "access_token"
    ∷ literal "refresh_token"
    ∷ literal "id_token"
    ∷ literal "signature"
    ∷ literal "x-amz-signature"
    ∷ literal "x-amz-credential"
    ∷ literal "callbackurl"
    ∷ []

abbrev pub credential_path_prefixes : List Text
credential_path_prefixes =
    literal "/reset-password/" ∷ literal "/verify-email/" ∷ literal "/delete-user/callback/" ∷ []

abbrev pub redacted : Text
redacted = literal "[REDACTED]"

abbrev pub first_grown : ℕ → Text × Option Text → Text × Option Text
first_grown c (before, after) = (c ∷ before, after)

unfoldable pub split_once : Text → ℕ → Text × Option Text
split_once [] separator = ([], none)
split_once (c ∷ value) separator =
    let rest = split_once value separator in
    if c == separator then ([], some value) else first_grown c rest

abbrev pub grown : ℕ → Option Text → Option Text
grown c none = none
grown c (some s) = some (c ∷ s)

-- The path up to the prefix and with it, where the prefix stands in the path.
abbrev pub up_to : Text → Text → Option Text
up_to prefix [] = none
up_to prefix (c ∷ path) =
    let rest = up_to prefix path in
    if starts_with prefix (c ∷ path) then some prefix else grown c rest

abbrev pub redact_by : Option Text → Text → Text
redact_by none otherwise = otherwise
redact_by (some kept) otherwise = kept ++ redacted

abbrev pub redact_first : Text → List Text → Text
redact_first path [] = path
redact_first path (prefix ∷ prefixes) = redact_by (up_to prefix path) (redact_first path prefixes)

unfoldable pub redact_credential_segment : Text → Text
redact_credential_segment path = redact_first path credential_path_prefixes

-- `parts.join('&')`
abbrev pub join : List Text → Text
join [] = []
join (part ∷ []) = part
join (part ∷ parts) = part ++ 38 ∷ join parts

module _ (to_lower_case : Text → Text) where
  abbrev pub is_sensitive : Text → Bool
  is_sensitive key = any (text_eq (to_lower_case key)) sensitive_query_keys

  abbrev pub redact_value : Text → Text × Option Text → Text
  redact_value pair (key, none) = pair
  redact_value pair (key, some value) = if is_sensitive key then key ++ 61 ∷ redacted else pair

  unfoldable pub redact_pair : Text → Text
  redact_pair pair = redact_value pair (split_once pair 61)

  abbrev pub sanitise_parts : Text × Option Text → Text
  sanitise_parts (path, none) = redact_credential_segment path
  sanitise_parts (path, some query) =
      redact_credential_segment path ++ 63 ∷ join (map redact_pair (split (λ c. c == 38) query))

  unfoldable pub sanitise_url : Text → Text
  sanitise_url url = sanitise_parts (split_once url 63)

split_once-append :
    (a b : Text) (separator : ℕ)
    → All (λ c. c == separator ≡ false) a
    → split_once (a ++ separator ∷ b) separator ≡ (a, some b)
unfolding split_once
split_once-append [] b separator h = rw (==_refl separator) refl
split_once-append (c ∷ a) b separator h = rw (h.0, split_once-append a b separator h.1) refl

split-append :
    (a b : Text)
    → All (λ c. c == 38 ≡ false) a
    → split (λ c. c == 38) (a ++ 38 ∷ b) ≡ a ∷ split (λ c. c == 38) b
unfolding split
split-append [] b h = refl
split-append (c ∷ a) b h = rw (h.0, split-append a b h.1) refl

split-join :
    (part : Text) (parts : List Text)
    → All (All (λ c. c == 38 ≡ false)) (part ∷ parts)
    → split (λ c. c == 38) (join (part ∷ parts)) ≡ part ∷ parts
split-join part [] h = split_none (λ c. c == 38) part h.0
split-join part (next ∷ parts) h =
    split-append part (join (next ∷ parts)) h.0 ∙ ap (λ t. part ∷ t) (split-join next parts h.1)

module _ (to_lower_case : Text → Text) where
  -- Parts of a query that differ in the value of a sensitive key at most.
  pub data SamePart : Text → Text → Type 0 where
    same_part : (part : Text) → SamePart part part
    hidden_value :
        (key value value' : Text)
        → All (λ c. c == 61 ≡ false) key
        → is_sensitive to_lower_case key ≡ true
        → SamePart (key ++ 61 ∷ value) (key ++ 61 ∷ value')

  pub data SameParts : List Text → List Text → Type 0 where
    no_parts : SameParts [] []
    more_parts :
        {p q : Text} {ps qs : List Text}
        → SamePart p q
        → SameParts ps qs
        → SameParts (p ∷ ps) (q ∷ qs)

  redact_hidden :
      (key value : Text)
      → All (λ c. c == 61 ≡ false) key
      → is_sensitive to_lower_case key ≡ true
      → redact_pair to_lower_case (key ++ 61 ∷ value) ≡ key ++ 61 ∷ redacted
  unfolding redact_pair
  redact_hidden key value plain sensitive =
      rw (split_once-append key value 61 plain, sensitive) refl

  redact_pair-SamePart :
      {p q : Text} → SamePart p q → redact_pair to_lower_case p ≡ redact_pair to_lower_case q
  redact_pair-SamePart (same_part part) = refl
  redact_pair-SamePart (hidden_value key value value' plain sensitive) =
      redact_hidden key value plain sensitive ∙ sym (redact_hidden key value' plain sensitive)

  map-SameParts :
      {ps qs : List Text}
      → SameParts ps qs
      → map (redact_pair to_lower_case) ps ≡ map (redact_pair to_lower_case) qs
  map-SameParts no_parts = refl
  map-SameParts (more_parts same rest) =
      ap₂ (λ p ps. p ∷ ps) (redact_pair-SamePart same) (map-SameParts rest)

  sanitise_url-join :
      (path part : Text) (parts : List Text)
      → All (λ c. c == 63 ≡ false) path
      → All (All (λ c. c == 38 ≡ false)) (part ∷ parts)
      → sanitise_url to_lower_case (path ++ 63 ∷ join (part ∷ parts))
        ≡ redact_credential_segment path
          ++ 63 ∷ join (map (redact_pair to_lower_case) (part ∷ parts))
  unfolding sanitise_url
  sanitise_url-join path part parts plain apart =
      rw (split_once-append path (join (part ∷ parts)) 63 plain) (
        ap
          (λ (t : List Text).
            redact_credential_segment path ++ 63 ∷ join (map (redact_pair to_lower_case) t))
          (split-join part parts apart))

  -- Two URLs with the same path, whose queries differ in the values of sensitive keys at most, leave
  -- the same in the logs, where no part of a query has an ampersand and the path has no question mark.
  pub sanitise_url-SameParts :
      (path p q : Text) (ps qs : List Text)
      → All (λ c. c == 63 ≡ false) path
      → All (All (λ c. c == 38 ≡ false)) (p ∷ ps)
      → All (All (λ c. c == 38 ≡ false)) (q ∷ qs)
      → SameParts (p ∷ ps) (q ∷ qs)
      → sanitise_url to_lower_case (path ++ 63 ∷ join (p ∷ ps))
        ≡ sanitise_url to_lower_case (path ++ 63 ∷ join (q ∷ qs))
  sanitise_url-SameParts path p q ps qs plain h k same =
      sanitise_url-join path p ps plain h
      ∙ ap (λ (t : List Text). redact_credential_segment path ++ 63 ∷ join t) (map-SameParts same)
      ∙ sym (sanitise_url-join path q qs plain k)
