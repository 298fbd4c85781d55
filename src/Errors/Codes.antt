-- ===== src/Errors/Codes.antt =====
-- src/shared/errors/error-codes.ts: the codes as they are sent.
use nestjs_modular_monolith.Errors.Kinds.{ErrorCode}
use nestjs_modular_monolith.Text.{Text, literal}

abbrev pub code_text : ErrorCode → Text
code_text ErrorCode.malformed_request = literal "malformed_request"
code_text ErrorCode.validation_failed = literal "validation_failed"
code_text ErrorCode.not_found_code = literal "not_found"
code_text ErrorCode.conflict_code = literal "conflict"
code_text ErrorCode.forbidden_code = literal "forbidden"
code_text ErrorCode.unauthenticated = literal "unauthenticated"
code_text ErrorCode.rate_limited = literal "rate_limited"
code_text ErrorCode.request_timeout = literal "request_timeout"
code_text ErrorCode.payload_too_large = literal "payload_too_large"
code_text ErrorCode.unsupported_media_type = literal "unsupported_media_type"
code_text ErrorCode.internal_error = literal "internal_error"
code_text ErrorCode.service_unavailable = literal "service_unavailable"
code_text ErrorCode.cursor_malformed = literal "cursor_malformed"
code_text ErrorCode.user_not_found = literal "user_not_found"
code_text ErrorCode.user_profile_not_found = literal "user_profile_not_found"
code_text ErrorCode.display_name_invalid = literal "display_name_invalid"
code_text ErrorCode.user_role_invalid = literal "user_role_invalid"
code_text ErrorCode.organization_invalid = literal "organization_invalid"
code_text ErrorCode.organization_not_found = literal "organization_not_found"
code_text ErrorCode.organization_access_denied = literal "organization_access_denied"
code_text ErrorCode.invitation_invalid = literal "invitation_invalid"
code_text ErrorCode.invitation_not_found = literal "invitation_not_found"
code_text ErrorCode.member_not_found = literal "member_not_found"
code_text ErrorCode.last_owner = literal "last_owner"
code_text ErrorCode.upload_not_found = literal "upload_not_found"
code_text ErrorCode.upload_already_confirmed = literal "upload_already_confirmed"
code_text ErrorCode.upload_size_exceeded = literal "upload_size_exceeded"
code_text ErrorCode.upload_mime_not_allowed = literal "upload_mime_not_allowed"
code_text ErrorCode.upload_object_missing = literal "upload_object_missing"
code_text ErrorCode.upload_content_mismatch = literal "upload_content_mismatch"
code_text ErrorCode.upload_filename_invalid = literal "upload_filename_invalid"
code_text ErrorCode.audit_entry_invalid = literal "audit_entry_invalid"
