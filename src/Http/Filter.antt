-- ===== src/Http/Filter.antt =====
-- src/bootstrap/http/domain-exception.filter.ts: the answer to an exception. The logging is left out.
use nestjs_modular_monolith.Common.{
  ℕ, Option, none, some, List, [], ◌∷◌, map, leb, ◌==◌, if◌then◌else◌,
}
use nestjs_modular_monolith.Errors.{DomainErrorKind, ErrorCode}
use nestjs_modular_monolith.Errors.Codes.{code_text}
use nestjs_modular_monolith.Text.{Text, text_eq, literal}
use nestjs_modular_monolith.Billing.Json.{Value, string, array, Items, no_items, item, Fields}
use nestjs_modular_monolith.I18n.{
  Locale, FieldError, translate, translate_field_error, resolve, or_else,
}
use nestjs_modular_monolith.I18n.Completeness.{detail_key}
use nestjs_modular_monolith.Http.{
  ProblemDetails, build_problem_details, generic_server_error, status_for_kind, map_prisma_error,
  MappedPrismaError, member_of, read_dependency_checks, entry,
}

pub record DomainError : Type 0 where
  pub kind : DomainErrorKind
  pub code : ErrorCode
  pub detail : Option Text
  pub errors : List FieldError

-- What is thrown: an object that `asProblemDetails` recognises, with the document it is; an instance of
-- either class of exceptions, with what the filter asks of it; any other object, with its members; or
-- a value that is no object.
pub data Exception : Type 0 where
  problem_document : ProblemDetails → Exception
  domain_exception : DomainError → Exception
  http_exception : (status : ℕ) (response : Value) (message : Text) → Exception
  other_object : Fields → Exception
  primitive : Exception

-- Before the first question mark.
unfoldable pub instance_path : Text → Text
instance_path [] = []
instance_path (c ∷ url) = if c == 63 then [] else c ∷ instance_path url

abbrev pub retry_after_seconds : List (ℕ × ℕ)
retry_after_seconds = (429, 60) ∷ (503, 5) ∷ []

unfoldable pub retry_after_seconds_for : ℕ → Option ℕ
retry_after_seconds_for status = entry status retry_after_seconds

abbrev pub code_by_status : List (ℕ × ErrorCode)
code_by_status =
    (401, ErrorCode.unauthenticated)
    ∷ (403, ErrorCode.forbidden_code)
    ∷ (404, ErrorCode.not_found_code)
    ∷ (409, ErrorCode.conflict_code)
    ∷ (429, ErrorCode.rate_limited)
    ∷ (413, ErrorCode.payload_too_large)
    ∷ (415, ErrorCode.unsupported_media_type)
    ∷ (408, ErrorCode.request_timeout)
    ∷ (422, ErrorCode.validation_failed)
    ∷ []

abbrev pub code_or_malformed : Option ErrorCode → ErrorCode
code_or_malformed none = ErrorCode.malformed_request
code_or_malformed (some code) = code

abbrev pub text_or : Value → Text → Text
text_or (string s) fallback = s
text_or _ fallback = fallback

unfoldable pub read_code : Value → ℕ → Text
read_code response status =
    text_or (member_of (literal "code") response)
      (code_text (code_or_malformed (entry status code_by_status)))

unfoldable pub read_detail : Value → Text → Text
read_detail response fallback =
    text_or (member_of (literal "detail") response)
      (text_or (member_of (literal "message") response) fallback)

abbrev pub text_member : Text → Value → Option Text
text_member name value = elim (member_of name value) [ string s ↦ some s | _ ↦ none ]

abbrev pub field_error_of :
    Option Text → Option Text → Option Text → Option Text → Option FieldError
field_error_of (some path) (some code) (some message) rule =
    some (record { path = path; code = code; message = message; rule = rule })
field_error_of _ _ _ rule = none

abbrev pub cons_some : Option FieldError → List FieldError → List FieldError
cons_some none errors = errors
cons_some (some error) errors = error ∷ errors

abbrev pub field_errors : Items → List FieldError
field_errors no_items = []
field_errors (item value items) =
    cons_some
      (field_error_of (text_member (literal "path") value) (text_member (literal "code") value)
        (text_member (literal "message") value) (text_member (literal "rule") value))
      (field_errors items)

abbrev pub array_errors : Value → Option (List FieldError)
array_errors (array items) = some (field_errors items)
array_errors _ = none

unfoldable pub read_field_errors : Value → Option (List FieldError)
read_field_errors response = array_errors (member_of (literal "errors") response)

-- What a request gives: its URL, the header of languages, and the identifier that it carries.
pub record Request : Type 0 where
  pub url : Text
  pub accept_language : Option Text
  pub request_id : Text

-- The status, the body, and the header that tells when to retry.
pub record Reply : Type 0 where
  pub status : ℕ
  pub body : ProblemDetails
  pub retry_after : Option ℕ

abbrev pub first_header : Option ℕ → Option ℕ → Option ℕ
first_header none b = b
first_header (some a) b = some a

module _ (status_codes : ℕ → Option Text) (to_lower_case : Text → Text) (now : ℕ) where
  abbrev pub build : Text → Text → ℕ → Text → Text → Option (List FieldError) → ProblemDetails
  build instance request_id status code detail errors =
      build_problem_details status_codes now (record {
        status = status;
        code = code;
        detail = detail;
        instance = instance;
        request_id = request_id;
        errors = errors;
        checks = none;
      })

  unfoldable pub translate_detail : Text → Option Text → Locale → Text
  translate_detail code fallback locale =
      let key = detail_key code in
      let translated = translate key locale in
      if text_eq translated key
      then or_else fallback (literal "The request could not be completed.")
      else translated

  abbrev pub internal_detail : Locale → Text
  internal_detail = translate (detail_key (literal "internal_error"))

  abbrev pub map_errors : Option (List FieldError) → Locale → Option (List FieldError)
  map_errors none locale = none
  map_errors (some errors) locale = some (map (λ e. translate_field_error e locale) errors)

  unfoldable pub from_http_exception : ℕ → Value → Text → Text → Text → Locale → ProblemDetails
  from_http_exception status response message instance request_id locale =
      if leb 500 status
      then generic_server_error status_codes now instance request_id status
          (if status == 503 then read_dependency_checks response else none) (internal_detail locale)
      else (let code = read_code response status in
          let key = detail_key code in
          let translated = translate key locale in
          build instance request_id status code
            (if text_eq translated key then read_detail response message else translated)
            (map_errors (read_field_errors response) locale))

  abbrev pub from_prisma : Option MappedPrismaError → Text → Text → Locale → ProblemDetails
  from_prisma none instance request_id locale =
      generic_server_error status_codes now instance request_id 500 none (internal_detail locale)
  from_prisma (some mapped) instance request_id locale =
      build instance request_id mapped.status (code_text mapped.code) mapped.detail none

  unfoldable pub to_problem : Exception → Text → Text → Locale → ProblemDetails
  to_problem (problem_document document) instance request_id locale = document
  to_problem (domain_exception e) instance request_id locale =
      build instance request_id (status_for_kind e.kind) (code_text e.code)
        (translate_detail (code_text e.code) e.detail locale) (map_errors (some e.errors) locale)
  to_problem (http_exception status response message) instance request_id locale =
      from_http_exception status response message instance request_id locale
  to_problem (other_object members) instance request_id locale =
      from_prisma (map_prisma_error members) instance request_id locale
  to_problem primitive instance request_id locale = from_prisma none instance request_id locale

  -- `set_before` is the header as an earlier hook has set it.
  unfoldable pub catch : Exception → Request → Option ℕ → Reply
  catch exception request set_before =
      let problem =
        to_problem exception (instance_path request.url) request.request_id
          (resolve to_lower_case request.accept_language) in
      record {
        status = problem.status;
        body = problem;
        retry_after = first_header set_before (retry_after_seconds_for problem.status);
      }
