-- ===== src/Validation/Examples.antt =====
-- The theorem on errors of fields at concrete errors.
use nestjs_modular_monolith.Common.{◌≡◌, refl, [], ◌∷◌}
use nestjs_modular_monolith.Text.{literal}
use nestjs_modular_monolith.I18n.{Locale}
use nestjs_modular_monolith.Validation.{ValidationErrors, no_errors, error, to_field_errors}
use nestjs_modular_monolith.Validation.Messages.{silence, translated, to_field_errors-silence}

-- The first of some items has no name, and its owner no address.
abbrev broken : ValidationErrors
broken =
    error (literal "items") []
      (error (literal "0") ((literal "isString", literal "name must be a string") ∷ [])
        (error (literal "owner") ((literal "isEmail", literal "owner must be an email") ∷ [])
          no_errors no_errors)
        no_errors)
      no_errors

to_field_errors-silence_example :
    translated Locale.vi (to_field_errors broken [])
    ≡ translated Locale.vi (to_field_errors (silence broken) [])
to_field_errors-silence_example =
    to_field_errors-silence broken [] Locale.vi (tt, ((refl, tt), ((refl, tt), tt, tt), tt), tt)
