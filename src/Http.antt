-- ===== src/Http.antt =====
-- src/bootstrap/http: problem-details.ts, prisma-error.mapper.ts and health-check-details.ts. A value of
-- type `unknown` is one of src/modules/billing's JSON values; times are milliseconds.
pub mod Filter
pub mod Privacy
pub mod Answers
pub mod Examples
use nestjs_modular_monolith.Common.{
  ℕ, suc, ◌+◌, Bool, true, false, ◌&&◌, ltb, Option, none, some, List, [], ◌∷◌, ◌++◌, map, take,
  ◌==◌, if◌then◌else◌,
}
use nestjs_modular_monolith.Errors.{DomainErrorKind, ErrorCode}
use nestjs_modular_monolith.Errors.Codes.{code_text}
use nestjs_modular_monolith.Text.{Text, text_eq, literal}
use nestjs_modular_monolith.Billing.Json.{
  Value, undefined, string, array, object, Items, no_items, item, Fields, no_fields, field, member,
}
use nestjs_modular_monolith.I18n.{FieldError, or_else}
use nestjs_modular_monolith.I18n.Completeness.{detail_key}

pub data DependencyState : Type 0 where
  up down : DependencyState

pub record DependencyCheck : Type 0 where
  pub name : Text
  pub status : DependencyState

pub record ProblemDetails : Type 0 where
  pub type : Text
  pub title : Text
  pub status : ℕ
  pub code : Text
  pub message_key : Text
  pub detail : Text
  pub instance : Text
  pub request_id : Text
  pub timestamp : ℕ
  pub errors : Option (List FieldError)
  pub checks : Option (List DependencyCheck)

abbrev pub status_for_kind : DomainErrorKind → ℕ
status_for_kind DomainErrorKind.malformed = 400
status_for_kind DomainErrorKind.validation = 422
status_for_kind DomainErrorKind.not_found = 404
status_for_kind DomainErrorKind.conflict = 409
status_for_kind DomainErrorKind.forbidden = 403

-- An entry of a table whose keys are numbers.
abbrev pub entry {ℓ} : {A : Type ℓ} → ℕ → List (ℕ × A) → Option A
entry n [] = none
entry n ((k, a) ∷ rows) = if k == n then some a else entry n rows

abbrev pub title_by_status : List (ℕ × Text)
title_by_status =
    (400, literal "Malformed request")
    ∷ (401, literal "Authentication required")
    ∷ (403, literal "Forbidden")
    ∷ (404, literal "Not found")
    ∷ (409, literal "Conflict")
    ∷ (413, literal "Payload too large")
    ∷ (415, literal "Unsupported media type")
    ∷ (422, literal "Validation failed")
    ∷ (429, literal "Too many requests")
    ∷ (408, literal "Request timeout")
    ∷ (500, literal "Internal server error")
    ∷ (503, literal "Service unavailable")
    ∷ []

abbrev pub dash : ℕ → ℕ
dash c = if c == 95 then 45 else c

unfoldable pub type_for_code : Text → Text
type_for_code code = literal "/errors/" ++ map dash code

-- An optional member is left out where its list is empty.
abbrev pub unless_empty {ℓ} : {A : Type ℓ} → Option (List A) → Option (List A)
unless_empty none = none
unless_empty (some []) = none
unless_empty (some (x ∷ xs)) = some (x ∷ xs)

pub record BuildProblemInput : Type 0 where
  pub status : ℕ
  pub code : Text
  pub detail : Text
  pub instance : Text
  pub request_id : Text
  pub errors : Option (List FieldError)
  pub checks : Option (List DependencyCheck)

-- `status_codes` is the table of node:http, and `now` the clock.
module _ (status_codes : ℕ → Option Text) (now : ℕ) where
  unfoldable pub title_for_status : ℕ → Text
  title_for_status status =
      or_else (entry status title_by_status) (or_else (status_codes status) (literal "Error"))

  unfoldable pub build_problem_details : BuildProblemInput → ProblemDetails
  build_problem_details input = record {
    type = type_for_code input.code;
    title = title_for_status input.status;
    status = input.status;
    code = input.code;
    message_key = detail_key input.code;
    detail = input.detail;
    instance = input.instance;
    request_id = input.request_id;
    timestamp = now;
    errors = unless_empty input.errors;
    checks = unless_empty input.checks;
  }

  unfoldable pub generic_server_error :
      Text → Text → ℕ → Option (List DependencyCheck) → Text → ProblemDetails
  generic_server_error instance request_id status checks detail = build_problem_details (record {
    status = status;
    code =
        code_text
          (if status == 503 then ErrorCode.service_unavailable else ErrorCode.internal_error);
    detail =
        if status == 503
        then literal "The service is temporarily unable to handle the request."
        else detail;
    instance = instance;
    request_id = request_id;
    errors = none;
    checks = checks;
  })

pub record MappedPrismaError : Type 0 where
  pub status : ℕ
  pub code : ErrorCode
  pub detail : Text

abbrev busy : MappedPrismaError
busy = record {
  status = 503;
  code = ErrorCode.service_unavailable;
  detail = literal "The service is busy. Retry shortly.";
}

abbrev pub by_prisma_code : List (Text × MappedPrismaError)
by_prisma_code =
    (
      literal "P2002",
      record {
        status = 409;
        code = ErrorCode.conflict_code;
        detail = literal "That value is already in use.";
      },
    )
    ∷ (
      literal "P2003",
      record {
        status = 409;
        code = ErrorCode.conflict_code;
        detail = literal "A related record prevents this change.";
      },
    )
    ∷ (
      literal "P2025",
      record { status = 404; code = ErrorCode.not_found_code; detail = literal "Not found." },
    )
    ∷ (
      literal "P2023",
      record {
        status = 400;
        code = ErrorCode.malformed_request;
        detail = literal "The request contained a value the server could not interpret.";
      },
    )
    ∷ (literal "P2024", busy)
    ∷ (literal "P2028", busy)
    ∷ []

abbrev pub mapped_code : Text → List (Text × MappedPrismaError) → Option MappedPrismaError
mapped_code code [] = none
mapped_code code ((k, mapped) ∷ rows) =
    if text_eq k code then some mapped else mapped_code code rows

abbrev pub starts_with : Text → Text → Bool
starts_with [] s = true
starts_with (c ∷ prefix) [] = false
starts_with (c ∷ prefix) (d ∷ s) = c == d && starts_with prefix s

abbrev pub unknown_prisma_error : MappedPrismaError
unknown_prisma_error = record {
  status = 500;
  code = ErrorCode.internal_error;
  detail = literal "The request could not be completed.";
}

abbrev pub known_or : Option MappedPrismaError → MappedPrismaError
known_or none = unknown_prisma_error
known_or (some mapped) = mapped

abbrev pub prisma_code : Value → MappedPrismaError
prisma_code (string code) = known_or (mapped_code code by_prisma_code)
prisma_code _ = unknown_prisma_error

abbrev pub prisma_named : Value → Value → Option MappedPrismaError
prisma_named (string name) code =
    if starts_with (literal "PrismaClient") name then some (prisma_code code) else none
prisma_named _ code = none

-- An object is given by its members, `name` and `code` among them.
unfoldable pub map_prisma_error : Fields → Option MappedPrismaError
map_prisma_error error =
    prisma_named (member (literal "name") error) (member (literal "code") error)

-- `asRecord(value)?.[name]`; of an array, only its indices and its length are members, and no key that
-- the callers read is one of these.
abbrev pub member_of : Text → Value → Value
member_of name (object fields) = member name fields
member_of name _ = undefined

abbrev pub state_of : Value → DependencyState
state_of (string s) = if text_eq s (literal "up") then up else down
state_of _ = down

abbrev pub read_state : Value → DependencyState
read_state value = state_of (member_of (literal "status") value)

abbrev pub checks_of : Fields → List DependencyCheck
checks_of no_fields = []
checks_of (field name value fields) =
    (record { name = name; status = read_state value }) ∷ checks_of fields

-- The index of an array's item as a key; the cut at `max_checks` leaves none that is longer.
abbrev pub index_text : ℕ → Text
index_text n = if ltb n 10 then (48 + n) ∷ [] else 49 ∷ (38 + n) ∷ []

abbrev pub item_checks : ℕ → Items → List DependencyCheck
item_checks n no_items = []
item_checks n (item value items) =
    (record { name = index_text n; status = read_state value }) ∷ item_checks (suc n) items

abbrev pub max_checks : ℕ
max_checks = 20

abbrev pub details_checks : Value → Option (List DependencyCheck)
details_checks (object details) = unless_empty (some (take max_checks (checks_of details)))
details_checks (array items) = unless_empty (some (take max_checks (item_checks 0 items)))
details_checks _ = none

unfoldable pub read_dependency_checks : Value → Option (List DependencyCheck)
read_dependency_checks response = details_checks (member_of (literal "details") response)
