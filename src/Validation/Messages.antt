-- ===== src/Validation/Messages.antt =====
-- That the messages of class-validator are not sent.
use mathlib.Core.Option.{some-injective}
use nestjs_modular_monolith.Common.{
  ◌≡◌, refl, sym, subst, ap, ap₂, ◌∙◌, inl, inr, Bool, true, false, Bool-cases, Option-cases, some,
  is_null, List, [], ◌∷◌, ◌++◌, map, any, All, arith,
}
use nestjs_modular_monolith.Text.{Text, text_eq, literal}
use nestjs_modular_monolith.I18n.{
  Locale, FieldError, look_up, or_else, translate, translate_field_error,
}
use nestjs_modular_monolith.Validation.{
  by_constraint, validation_code_for, ValidationErrors, no_errors, error, join_path, field_error,
  to_field_errors,
}

-- No message is there in the language, or in the default one.
abbrev is_untranslated : Locale → Text → Bool
is_untranslated locale code =
    text_eq (translate (literal "validation." ++ code) locale) (literal "validation." ++ code)

all_translated :
    (locale : Locale)
    → any (λ (row : Text × Text). is_untranslated locale row.1) by_constraint ≡ false
unfolding translate
all_translated Locale.en = refl
all_translated Locale.vi = refl

look_up-any :
    (p : Text → Bool) (key : Text) (rows : List (Text × Text)) {found : Text}
    → any (λ (row : Text × Text). p row.1) rows ≡ false
    → look_up key rows ≡ some found
    → p found ≡ false
look_up-any p key [] h e = cc
look_up-any p key ((k, text) ∷ rows) {found} h e = elim (Bool-cases (text_eq k key)) [
  | inl hit ↦ subst (λ t. p t ≡ false) (some-injective text found (rw hit at e)) (ground (arith, h))
  | inr miss ↦ look_up-any p key rows (ground (arith, h)) (rw miss at e)
]

-- A constraint of the table has a code with a message.
known_translated :
    (locale : Locale) (constraint : Text)
    → is_null (look_up constraint by_constraint) ≡ false
    → is_untranslated locale (validation_code_for constraint) ≡ false
unfolding validation_code_for
known_translated locale constraint known = elim (Option-cases (look_up constraint by_constraint)) [
  | inl unknown ↦ elim (clash (sym (subst (λ o. is_null o ≡ false) unknown known))) [ ]
  | inr (found, e) ↦
      subst (λ o. is_untranslated locale (or_else o constraint) ≡ false) (sym e)
        (look_up-any (is_untranslated locale) constraint by_constraint (all_translated locale) e)
]
  where
    clash : false ≡ true → ⊥
    clash e = cc

-- The same errors without their messages.
abbrev pub silent : List (Text × Text) → List (Text × Text)
silent = map (λ (c : Text × Text). (c.0, []))

abbrev pub silence : ValidationErrors → ValidationErrors
silence no_errors = no_errors
silence (error property constraints children rest) =
    error property (silent constraints) (silence children) (silence rest)

-- Every constraint that is broken stands in the table.
abbrev pub IsKnown : ValidationErrors → Type 0
IsKnown no_errors = Unit
IsKnown (error property constraints children rest) =
    All (λ (c : Text × Text). is_null (look_up c.0 by_constraint) ≡ false) constraints
    × IsKnown children
    × IsKnown rest

-- Errors in the language of the request.
abbrev pub translated : Locale → List FieldError → List FieldError
translated locale = map (λ e. translate_field_error e locale)

translated-append :
    (locale : Locale) (a b : List FieldError)
    → translated locale (a ++ b) ≡ translated locale a ++ translated locale b
translated-append locale [] b = refl
translated-append locale (e ∷ a) b =
    ap (λ t. translate_field_error e locale ∷ t) (translated-append locale a b)

constraints_private :
    (locale : Locale) (path : Text) (constraints : List (Text × Text))
    → All (λ (c : Text × Text). is_null (look_up c.0 by_constraint) ≡ false) constraints
    → translated locale (map (field_error path) constraints)
      ≡ translated locale (map (field_error path) (silent constraints))
unfolding translate_field_error
constraints_private locale path [] h = refl
constraints_private locale path ((constraint, message) ∷ constraints) h =
    rw (known_translated locale constraint h.0, constraints_private locale path constraints h.1)
      refl

-- The translated errors of a request whose broken constraints stand in the table do not depend on the
-- messages of class-validator, in either language.
pub to_field_errors-silence :
    (errors : ValidationErrors) (parent_path : Text) (locale : Locale)
    → IsKnown errors
    → translated locale (to_field_errors errors parent_path)
      ≡ translated locale (to_field_errors (silence errors) parent_path)
unfolding to_field_errors
to_field_errors-silence no_errors parent locale h = refl
to_field_errors-silence (error property constraints children rest) parent locale (h, k, l) =
    let path = join_path parent property in
    translated-append locale (map (field_error path) constraints) _
    ∙ ap₂ (λ a b. a ++ b) (constraints_private locale path constraints h)
        (translated-append locale (to_field_errors children path) _
          ∙ ap₂ (λ a b. a ++ b) (to_field_errors-silence children path locale k)
              (to_field_errors-silence rest parent locale l)
          ∙ sym (translated-append locale (to_field_errors (silence children) path) _))
    ∙ sym (translated-append locale (map (field_error path) (silent constraints)) _)
