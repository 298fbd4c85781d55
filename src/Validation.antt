-- ===== src/Validation.antt =====
-- src/bootstrap/http/validation-codes.ts and validation.pipe.ts: the errors of fields of a request.
pub mod Messages
pub mod Examples
use nestjs_modular_monolith.Common.{
  ℕ, Bool, true, false, not, ◌&&◌, Option, none, some, is_null, List, [], ◌∷◌, ◌++◌, map, leb,
  if◌then◌else◌, any,
}
use nestjs_modular_monolith.Text.{Text, text_eq, literal}
use nestjs_modular_monolith.I18n.{FieldError, look_up, or_else}

abbrev pub by_constraint : List (Text × Text)
by_constraint =
    (literal "isDefined", literal "required")
    ∷ (literal "isNotEmpty", literal "required")
    ∷ (literal "isNotEmptyObject", literal "required")
    ∷ (literal "isString", literal "wrong_type")
    ∷ (literal "isNumber", literal "wrong_type")
    ∷ (literal "isInt", literal "wrong_type")
    ∷ (literal "isBoolean", literal "wrong_type")
    ∷ (literal "isArray", literal "wrong_type")
    ∷ (literal "isObject", literal "wrong_type")
    ∷ (literal "isNumberString", literal "wrong_type")
    ∷ (literal "isLength", literal "invalid_length")
    ∷ (literal "minLength", literal "too_short")
    ∷ (literal "arrayMinSize", literal "too_short")
    ∷ (literal "maxLength", literal "too_long")
    ∷ (literal "arrayMaxSize", literal "too_long")
    ∷ (literal "min", literal "out_of_range")
    ∷ (literal "max", literal "out_of_range")
    ∷ (literal "isPositive", literal "out_of_range")
    ∷ (literal "isNegative", literal "out_of_range")
    ∷ (literal "isEmail", literal "invalid_email")
    ∷ (literal "isUuid", literal "invalid_uuid")
    ∷ (literal "isUrl", literal "invalid_url")
    ∷ (literal "isDate", literal "invalid_date")
    ∷ (literal "isDateString", literal "invalid_date")
    ∷ (literal "isIso8601", literal "invalid_date")
    ∷ (literal "isIn", literal "invalid_enum_value")
    ∷ (literal "isEnum", literal "invalid_enum_value")
    ∷ (literal "matches", literal "invalid_format")
    ∷ (literal "isAlphanumeric", literal "invalid_format")
    ∷ (literal "isJson", literal "invalid_format")
    ∷ (literal "whitelistValidation", literal "unknown_field")
    ∷ []

unfoldable pub validation_code_for : Text → Text
validation_code_for constraint = or_else (look_up constraint by_constraint) constraint

-- The errors of class-validator: those of one property, by constraint with a message each, the errors
-- below it, and the errors of the properties that follow.
pub data ValidationErrors : Type 0 where
  no_errors : ValidationErrors
  error :
      (property : Text) (constraints : List (Text × Text)) (children rest : ValidationErrors)
      → ValidationErrors

-- `/^\d+$/`
abbrev pub is_number : Text → Bool
is_number [] = false
is_number (c ∷ s) = not (any (λ d. not (leb 48 d && leb d 57)) (c ∷ s))

unfoldable pub join_path : Text → Text → Text
join_path [] property = property
join_path (c ∷ parent) property =
    if is_number property
    then c ∷ parent ++ (literal "[" ++ (property ++ literal "]"))
    else c ∷ parent ++ (literal "." ++ property)

abbrev pub field_error : Text → Text × Text → FieldError
field_error path (constraint, message) = record {
  path = path;
  code = validation_code_for constraint;
  message = message;
  rule = some constraint;
}

unfoldable pub to_field_errors : ValidationErrors → Text → List FieldError
to_field_errors no_errors parent_path = []
to_field_errors (error property constraints children rest) parent_path =
    let path = join_path parent_path property in
    map (field_error path) constraints
    ++ (to_field_errors children path ++ to_field_errors rest parent_path)
