-- ===== src/Http/Privacy.antt =====
-- What an answer says of the exception behind it.
use nestjs_modular_monolith.Common.{ℕ, ◌≤◌, ◌≡◌, refl, true, Option, none, List, arith, leb}
use nestjs_modular_monolith.Errors.{DomainErrorKind, ErrorCode}
use nestjs_modular_monolith.Errors.Codes.{code_text}
use nestjs_modular_monolith.Text.{Text}
use nestjs_modular_monolith.Billing.Json.{Value, Fields}
use nestjs_modular_monolith.I18n.{Locale, FieldError, translate}
use nestjs_modular_monolith.I18n.Completeness.{detail_key, translate-code_text}
use nestjs_modular_monolith.Http.{map_prisma_error, read_dependency_checks}
use nestjs_modular_monolith.Http.Filter.{
  Exception, Request, catch, to_problem, translate_detail, from_http_exception, domain_exception,
  http_exception, other_object, primitive,
}

-- Exceptions that differ only in what an answer must not tell.
pub data Alike : Exception → Exception → Type 0 where
  -- The detail that the code gave.
  other_detail :
      (kind : DomainErrorKind) (code : ErrorCode) (errors : List FieldError)
      (detail detail' : Option Text)
      → Alike
          (domain_exception (record { kind = kind; code = code; detail = detail; errors = errors }))
          (domain_exception
            (record { kind = kind; code = code; detail = detail'; errors = errors }))
  -- The message and the response of a server error, less the checks that it reports.
  other_response :
      (status : ℕ) (response response' : Value) (message message' : Text)
      → 500 ≤ status
      → read_dependency_checks response ≡ read_dependency_checks response'
      → Alike (http_exception status response message) (http_exception status response' message')
  -- The members of an object, less the code of the database.
  other_members :
      (members members' : Fields)
      → map_prisma_error members ≡ map_prisma_error members'
      → Alike (other_object members) (other_object members')
  no_object :
      (members : Fields) → map_prisma_error members ≡ none → Alike (other_object members) primitive

module _ (status_codes : ℕ → Option Text) (to_lower_case : Text → Text) (now : ℕ) where
  pub translate_detail_known :
      (code : ErrorCode) (fallback : Option Text) (locale : Locale)
      → translate_detail status_codes to_lower_case now (code_text code) fallback locale
        ≡ translate (detail_key (code_text code)) locale
  unfolding translate_detail
  translate_detail_known code fallback locale = rw (translate-code_text code locale) refl

  from_http_exception_private :
      (status : ℕ) (response response' : Value) (message message' instance request_id : Text)
      (locale : Locale)
      → 500 ≤ status
      → read_dependency_checks response ≡ read_dependency_checks response'
      → from_http_exception status_codes to_lower_case now status response message instance
          request_id locale
        ≡ from_http_exception status_codes to_lower_case now status response' message' instance
            request_id locale
  unfolding from_http_exception
  from_http_exception_private status response response' message message' instance request_id locale
        server same =
      let is_server : leb 500 status ≡ true = ground arith in rw (is_server, same) refl

  to_problem-Alike :
      {e e' : Exception} (instance request_id : Text) (locale : Locale)
      → Alike e e'
      → to_problem status_codes to_lower_case now e instance request_id locale
        ≡ to_problem status_codes to_lower_case now e' instance request_id locale
  unfolding to_problem
  to_problem-Alike i r l (other_detail kind code errors detail detail') =
      rw (translate_detail_known code detail l, translate_detail_known code detail' l) refl
  to_problem-Alike i r l (other_response status response response' m m' server same) =
      from_http_exception_private status response response' m m' i r l server same
  to_problem-Alike i r l (other_members members members' same) = rw same refl
  to_problem-Alike i r l (no_object members unknown) = rw unknown refl

  -- Exceptions that are alike get the same answer: domain exceptions that differ in their detail, server
  -- errors that differ in their message and in what their response says beyond the checks it reports,
  -- and objects that the database errors map alike.
  pub catch-Alike :
      {e e' : Exception} (request : Request) (set_before : Option ℕ)
      → Alike e e'
      → catch status_codes to_lower_case now e request set_before
        ≡ catch status_codes to_lower_case now e' request set_before
  unfolding catch
  catch-Alike request set_before alike = rw (to_problem-Alike _ _ _ alike) refl
