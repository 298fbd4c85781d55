-- ===== src/Http/Answers.antt =====
-- The codes, the details and the headers of answers.
use mathlib.Core.Option.{some-injective}
use nestjs_modular_monolith.Common.{
  Option-cases, subst, ℕ, ◌≤◌, ◌≡◌, refl, ap, ◌∙◌, inl, inr, Bool, true, false, Bool-cases, Option,
  none, some, List, [], ◌∷◌, arith, leb, ◌==◌, if◌then◌else◌, All,
}
use nestjs_modular_monolith.Errors.{DomainErrorKind, ErrorCode}
use nestjs_modular_monolith.Errors.Codes.{code_text}
use nestjs_modular_monolith.Text.{Text, text_eq, literal}
use nestjs_modular_monolith.Billing.Json.{
  Value, null, undefined, other, number, boolean, array, object, Fields, string, member,
}
use nestjs_modular_monolith.I18n.{Locale, resolve}
use nestjs_modular_monolith.I18n.Completeness.{detail_key, translate-code_text}
use nestjs_modular_monolith.Http.{
  DependencyCheck, ProblemDetails, build_problem_details, generic_server_error, status_for_kind,
  map_prisma_error, MappedPrismaError, mapped_code, known_or, by_prisma_code, prisma_code,
  prisma_named, starts_with,
}
use nestjs_modular_monolith.Http.Filter.{
  DomainError, Exception, Request, catch, to_problem, from_http_exception, from_prisma,
  problem_document, domain_exception, http_exception, other_object, primitive,
  retry_after_seconds_for, first_header, instance_path,
}
use nestjs_modular_monolith.Http.Privacy.{translate_detail_known}

-- The code of an answer whose status is that of a server error.
abbrev pub server_code : ℕ → Text
server_code status =
    if status == 503
    then code_text ErrorCode.service_unavailable
    else code_text ErrorCode.internal_error

-- Of a server error, an answer gives a code that the status decides, and no errors of fields.
abbrev IsDiscreet : ProblemDetails → Type 0
IsDiscreet p = 500 ≤ p.status → (p.code ≡ server_code p.status) × (p.errors ≡ none)

abbrev Agrees : MappedPrismaError → Type 0
Agrees m = 500 ≤ m.status → code_text m.code ≡ server_code m.status

too_small : {A : Type 0} (status : ℕ) → leb 500 status ≡ false → 500 ≤ status → A
too_small status client h = elim (clash status client h) [ ]
  where
    clash : (status : ℕ) → leb 500 status ≡ false → 500 ≤ status → ⊥
    clash status client h = ground (arith, client, h)

known_or-Agrees :
    (code : Text) (rows : List (Text × MappedPrismaError))
    → All (λ (row : Text × MappedPrismaError). Agrees row.1) rows
    → Agrees (known_or (mapped_code code rows))
known_or-Agrees code [] h = λ _. refl
known_or-Agrees code ((k, m) ∷ rows) h = elim (Bool-cases (text_eq k code)) [
  | inl hit ↦ rw hit h.0
  | inr miss ↦ rw miss (known_or-Agrees code rows h.1)
]

by_prisma_code-Agrees : All (λ (row : Text × MappedPrismaError). Agrees row.1) by_prisma_code
by_prisma_code-Agrees = (
  too_small 409 refl,
  (
    too_small 409 refl,
    (too_small 404 refl, (too_small 400 refl, ((λ h. refl), ((λ h. refl), tt)))),
  ),
)

prisma_code-Agrees : (code : Value) → Agrees (prisma_code code)
prisma_code-Agrees (string code) = known_or-Agrees code by_prisma_code by_prisma_code-Agrees
prisma_code-Agrees null = λ _. refl
prisma_code-Agrees undefined = λ _. refl
prisma_code-Agrees other = λ _. refl
prisma_code-Agrees (number n) = λ _. refl
prisma_code-Agrees (boolean b) = λ _. refl
prisma_code-Agrees (array xs) = λ _. refl
prisma_code-Agrees (object fs) = λ _. refl

some_if : {A : Type 0} (b : Bool) (a a' : A) → (if b then some a else none) ≡ some a' → a ≡ a'
some_if true a a' e = some-injective a a' e
some_if false a a' e = cc

-- Where a name is recognised, what the code says of it.
prisma_named-some :
    (name code : Value) {m : MappedPrismaError}
    → prisma_named name code ≡ some m
    → prisma_code code ≡ m
prisma_named-some (string name) code e =
    some_if (starts_with (literal "PrismaClient") name) (prisma_code code) _ e
prisma_named-some null code e = cc
prisma_named-some undefined code e = cc
prisma_named-some other code e = cc
prisma_named-some (number n) code e = cc
prisma_named-some (boolean b) code e = cc
prisma_named-some (array xs) code e = cc
prisma_named-some (object fs) code e = cc

map_prisma_error-Agrees :
    (members : Fields) {m : MappedPrismaError} → map_prisma_error members ≡ some m → Agrees m
unfolding map_prisma_error
map_prisma_error-Agrees members e =
    let name = member (literal "name") members in
    let code = member (literal "code") members in
    subst Agrees (prisma_named-some name code e) (prisma_code-Agrees code)

leb-status_for_kind : (kind : DomainErrorKind) → leb 500 (status_for_kind kind) ≡ false
leb-status_for_kind DomainErrorKind.malformed = refl
leb-status_for_kind DomainErrorKind.validation = refl
leb-status_for_kind DomainErrorKind.not_found = refl
leb-status_for_kind DomainErrorKind.conflict = refl
leb-status_for_kind DomainErrorKind.forbidden = refl

retry_after_seconds_for-status_for_kind :
    (kind : DomainErrorKind) → retry_after_seconds_for (status_for_kind kind) ≡ none
unfolding retry_after_seconds_for
retry_after_seconds_for-status_for_kind DomainErrorKind.malformed = refl
retry_after_seconds_for-status_for_kind DomainErrorKind.validation = refl
retry_after_seconds_for-status_for_kind DomainErrorKind.not_found = refl
retry_after_seconds_for-status_for_kind DomainErrorKind.conflict = refl
retry_after_seconds_for-status_for_kind DomainErrorKind.forbidden = refl

first_header-none : (set_before : Option ℕ) → first_header set_before none ≡ set_before
first_header-none none = refl
first_header-none (some a) = refl

-- Whatever is thrown but a document.
abbrev is_raised : Exception → Bool
is_raised (problem_document _) = false
is_raised _ = true

module _ (status_codes : ℕ → Option Text) (to_lower_case : Text → Text) (now : ℕ) where
  generic_server_error-IsDiscreet :
      (instance request_id detail : Text) (status : ℕ) (checks : Option (List DependencyCheck))
      → IsDiscreet (generic_server_error status_codes now instance request_id status checks detail)
  unfolding generic_server_error build_problem_details
  generic_server_error-IsDiscreet i r detail status checks h = elim (Bool-cases (status == 503)) [
    | inl busy ↦ rw busy (refl, refl)
    | inr not_busy ↦ rw not_busy (refl, refl)
  ]

  from_http_exception-IsDiscreet :
      (status : ℕ) (response : Value) (message instance request_id : Text) (locale : Locale)
      → IsDiscreet (
          from_http_exception status_codes to_lower_case now status response message instance
            request_id locale)
  unfolding from_http_exception build_problem_details
  from_http_exception-IsDiscreet status response message i r l =
      elim (Bool-cases (leb 500 status)) [
        | inl server ↦ rw server (generic_server_error-IsDiscreet i r _ status _)
        | inr client ↦ rw client (too_small status client)
      ]

  from_prisma-IsDiscreet :
      (members : Fields) (instance request_id : Text) (locale : Locale)
      → IsDiscreet (
          from_prisma status_codes to_lower_case now
            (map_prisma_error members)
            instance
            request_id
            locale)
  unfolding build_problem_details
  from_prisma-IsDiscreet members i r l = elim (Option-cases (map_prisma_error members)) [
    | inl unknown ↦ rw unknown (generic_server_error-IsDiscreet i r _ 500 none)
    | inr (m, known) ↦ rw known (λ h. (map_prisma_error-Agrees members known h, refl))
  ]

  to_problem-IsDiscreet :
      (e : Exception) (instance request_id : Text) (locale : Locale)
      → is_raised e ≡ true
      → IsDiscreet (to_problem status_codes to_lower_case now e instance request_id locale)
  unfolding to_problem build_problem_details
  to_problem-IsDiscreet (problem_document p) i r l raised = cc
  to_problem-IsDiscreet (domain_exception e) i r l raised =
      too_small (status_for_kind e.kind) (leb-status_for_kind e.kind)
  to_problem-IsDiscreet (http_exception status response message) i r l raised =
      from_http_exception-IsDiscreet status response message i r l
  to_problem-IsDiscreet (other_object members) i r l raised = from_prisma-IsDiscreet members i r l
  to_problem-IsDiscreet primitive i r l raised = generic_server_error-IsDiscreet i r _ 500 none

  -- An answer that is a server error has the code that its status decides, that of an unavailable
  -- service for 503 and that of an internal error for any other, and no errors of fields, unless a
  -- problem document was thrown.
  pub catch_server_error :
      (e : Exception) (request : Request) (set_before : Option ℕ)
      → is_raised e ≡ true
      → 500 ≤ (catch status_codes to_lower_case now e request set_before).status
      → let reply = catch status_codes to_lower_case now e request set_before in
        (reply.body.code ≡ server_code reply.status) × (reply.body.errors ≡ none)
  unfolding catch
  catch_server_error e request set_before raised server =
      to_problem-IsDiscreet e _ _ _ raised server

  -- Of a domain exception, the answer has the status of its kind, its code, the message that its code
  -- has in the language of the request, which is never the key of the message, and the path of the
  -- request without the query; and it sets no time to retry.
  pub catch_domain :
      (e : DomainError) (request : Request) (set_before : Option ℕ)
      → let reply = catch status_codes to_lower_case now (domain_exception e) request set_before in
        (reply.status ≡ status_for_kind e.kind)
        × (reply.body.code ≡ code_text e.code)
        × (text_eq reply.body.detail reply.body.message_key ≡ false)
        × (reply.body.instance ≡ instance_path request.url)
        × (reply.retry_after ≡ set_before)
  unfolding catch to_problem build_problem_details
  catch_domain e request set_before =
      let locale = resolve to_lower_case request.accept_language in
      let known = translate_detail_known status_codes to_lower_case now e.code e.detail locale in
      (
        refl,
        refl,
        ap (λ detail. text_eq detail (detail_key (code_text e.code))) known
            ∙ translate-code_text e.code locale,
        refl,
        rw (retry_after_seconds_for-status_for_kind e.kind) (first_header-none set_before),
      )
