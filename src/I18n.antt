-- ===== src/I18n.antt =====
-- src/platform/i18n/i18n.service.ts: the language of an answer, and its messages.
pub mod Messages
pub mod Completeness
use nestjs_modular_monolith.Common.{Option, none, some, List, [], ◌∷◌, ◌++◌, ◌==◌, if◌then◌else◌}
use nestjs_modular_monolith.Text.{Text, text_eq, literal, trim, split}
use nestjs_modular_monolith.I18n.Messages.{english, vietnamese}

pub data Locale : Type 0 where
  en vi : Locale

abbrev pub default_locale : Locale
default_locale = en

abbrev pub messages : Locale → List (Text × Text)
messages en = english
messages vi = vietnamese

abbrev pub look_up : Text → List (Text × Text) → Option Text
look_up key [] = none
look_up key ((k, text) ∷ rows) = if text_eq k key then some text else look_up key rows

-- `a ?? b`
abbrev pub or_else : Option Text → Text → Text
or_else none b = b
or_else (some a) b = a

abbrev pub first_some : Option Text → Option Text → Option Text
first_some none b = b
first_some (some a) b = some a

-- `parts[0]`
abbrev pub first_part : List Text → Option Text
first_part [] = none
first_part (part ∷ parts) = some part

abbrev pub locale_of : Option Text → Locale
locale_of none = default_locale
locale_of (some candidate) =
    if text_eq candidate (literal "vi")
    then vi
    else (if text_eq candidate (literal "en") then en else default_locale)

abbrev pub primary_tag : (Text → Text) → Option Text → Option Text
primary_tag to_lower_case none = none
primary_tag to_lower_case (some range) =
    first_part (split (λ c. c == 45) (to_lower_case (trim range)))

-- The header is absent or a text.
unfoldable pub resolve : (Text → Text) → Option Text → Locale
resolve to_lower_case none = default_locale
resolve to_lower_case (some value) =
    locale_of (primary_tag to_lower_case (first_part (split (λ c. c == 44) value)))

unfoldable pub translate : Text → Locale → Text
translate key locale =
    or_else (first_some (look_up key (messages locale)) (look_up key (messages default_locale))) key

pub record FieldError : Type 0 where
  pub path : Text
  pub code : Text
  pub message : Text
  pub rule : Option Text

unfoldable pub translate_field_error : FieldError → Locale → FieldError
translate_field_error error locale =
    let key = literal "validation." ++ error.code in
    let translated = translate key locale in
    if text_eq translated key then error else record error { message = translated }
