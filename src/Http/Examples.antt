-- ===== src/Http/Examples.antt =====
-- The theorems on answers at concrete exceptions.
use nestjs_modular_monolith.Common.{ℕ, ◌≤◌, ◌≡◌, refl, Option, none, some, [], arith}
use nestjs_modular_monolith.Errors.{DomainErrorKind, ErrorCode}
use nestjs_modular_monolith.Text.{Text, literal}
use nestjs_modular_monolith.Billing.Json.{null}
use nestjs_modular_monolith.Http.{generic_server_error, build_problem_details}
use nestjs_modular_monolith.Http.Filter.{
  DomainError, Request, catch, to_problem, from_http_exception, domain_exception, http_exception,
}
use nestjs_modular_monolith.Http.Privacy.{catch-Alike, other_detail}
use nestjs_modular_monolith.Http.Answers.{catch_server_error, server_code}

abbrev no_codes : ℕ → Option Text
no_codes _ = none

abbrev same_case : Text → Text
same_case s = s

-- With a query that names a token, and languages of which the first is Vietnamese.
abbrev request : Request
request = record {
  url = literal "/v1/users?token=7";
  accept_language = some (literal "vi-VN,en");
  request_id = literal "r1";
}

abbrev no_user : Option Text → DomainError
no_user detail = record {
  kind = DomainErrorKind.not_found;
  code = ErrorCode.user_not_found;
  detail = detail;
  errors = [];
}

catch-Alike_example :
    catch no_codes same_case 0 (domain_exception (no_user none)) request none
    ≡ catch no_codes same_case 0
        (domain_exception (no_user (some (literal "No row 7."))))
        request
        none
catch-Alike_example = catch-Alike no_codes same_case 0 request none (
    other_detail DomainErrorKind.not_found ErrorCode.user_not_found [] none
      (some (literal "No row 7.")))

unavailable :
    500
    ≤ (catch no_codes same_case 0 (http_exception 503 null (literal "down")) request none).status
unfolding catch to_problem from_http_exception generic_server_error build_problem_details
unavailable = omega arith

catch_server_error_example :
    let answer =
      catch no_codes same_case 0 (http_exception 503 null (literal "down")) request none in
    (answer.body.code ≡ server_code answer.status) × (answer.body.errors ≡ none)
catch_server_error_example =
    catch_server_error no_codes same_case 0 (http_exception 503 null (literal "down")) request none
      refl unavailable
