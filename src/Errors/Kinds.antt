-- ===== src/Errors/Kinds.antt =====
-- src/shared/errors: the exceptions that the application throws, and results that may be one.
-- The human-readable `detail` and the per-field `errors` are left out: only the filter of exceptions reads
-- them, and Http/Filter has exceptions with them.
use nestjs_modular_monolith.Common.{ℕ, Bool}

pub data DomainErrorKind : Type 0 where
  malformed validation not_found conflict forbidden : DomainErrorKind

pub data ErrorCode : Type 0 where
  malformed_request validation_failed not_found_code conflict_code forbidden_code unauthenticated
        rate_limited request_timeout payload_too_large unsupported_media_type internal_error
        service_unavailable cursor_malformed user_not_found user_profile_not_found
        display_name_invalid user_role_invalid organization_invalid organization_not_found
        organization_access_denied invitation_invalid invitation_not_found member_not_found
        last_owner upload_not_found upload_already_confirmed upload_size_exceeded
        upload_mime_not_allowed upload_object_missing upload_content_mismatch
        upload_filename_invalid audit_entry_invalid :
      ErrorCode

pub record DomainException : Type 0 where
  pub kind : DomainErrorKind
  pub code : ErrorCode
  pub permanent : Bool

-- What a `throw` throws: a domain exception, an `HttpException` with its status, or any other `Error`.
pub data Thrown : Type 0 where
  domain : DomainException → Thrown
  http_exception : ℕ → Thrown
  plain_error : Thrown
