-- ===== src/I18n/Completeness.antt =====
-- That every error code has a message in every language.
use nestjs_modular_monolith.Common.{◌≡◌, refl, false, ◌++◌}
use nestjs_modular_monolith.Errors.{ErrorCode}
use nestjs_modular_monolith.Errors.Codes.{code_text}
use nestjs_modular_monolith.Text.{Text, text_eq, literal}
use nestjs_modular_monolith.I18n.{Locale, translate}

-- `errors.${code}.detail`
abbrev pub detail_key : Text → Text
detail_key code = literal "errors." ++ code ++ literal ".detail"

pub translate-code_text :
    (code : ErrorCode) (locale : Locale)
    → text_eq (translate (detail_key (code_text code)) locale) (detail_key (code_text code)) ≡ false
unfolding translate
translate-code_text ErrorCode.malformed_request Locale.en = refl
translate-code_text ErrorCode.malformed_request Locale.vi = refl
translate-code_text ErrorCode.validation_failed Locale.en = refl
translate-code_text ErrorCode.validation_failed Locale.vi = refl
translate-code_text ErrorCode.not_found_code Locale.en = refl
translate-code_text ErrorCode.not_found_code Locale.vi = refl
translate-code_text ErrorCode.conflict_code Locale.en = refl
translate-code_text ErrorCode.conflict_code Locale.vi = refl
translate-code_text ErrorCode.forbidden_code Locale.en = refl
translate-code_text ErrorCode.forbidden_code Locale.vi = refl
translate-code_text ErrorCode.unauthenticated Locale.en = refl
translate-code_text ErrorCode.unauthenticated Locale.vi = refl
translate-code_text ErrorCode.rate_limited Locale.en = refl
translate-code_text ErrorCode.rate_limited Locale.vi = refl
translate-code_text ErrorCode.request_timeout Locale.en = refl
translate-code_text ErrorCode.request_timeout Locale.vi = refl
translate-code_text ErrorCode.payload_too_large Locale.en = refl
translate-code_text ErrorCode.payload_too_large Locale.vi = refl
translate-code_text ErrorCode.unsupported_media_type Locale.en = refl
translate-code_text ErrorCode.unsupported_media_type Locale.vi = refl
translate-code_text ErrorCode.internal_error Locale.en = refl
translate-code_text ErrorCode.internal_error Locale.vi = refl
translate-code_text ErrorCode.service_unavailable Locale.en = refl
translate-code_text ErrorCode.service_unavailable Locale.vi = refl
translate-code_text ErrorCode.cursor_malformed Locale.en = refl
translate-code_text ErrorCode.cursor_malformed Locale.vi = refl
translate-code_text ErrorCode.user_not_found Locale.en = refl
translate-code_text ErrorCode.user_not_found Locale.vi = refl
translate-code_text ErrorCode.user_profile_not_found Locale.en = refl
translate-code_text ErrorCode.user_profile_not_found Locale.vi = refl
translate-code_text ErrorCode.display_name_invalid Locale.en = refl
translate-code_text ErrorCode.display_name_invalid Locale.vi = refl
translate-code_text ErrorCode.user_role_invalid Locale.en = refl
translate-code_text ErrorCode.user_role_invalid Locale.vi = refl
translate-code_text ErrorCode.organization_invalid Locale.en = refl
translate-code_text ErrorCode.organization_invalid Locale.vi = refl
translate-code_text ErrorCode.organization_not_found Locale.en = refl
translate-code_text ErrorCode.organization_not_found Locale.vi = refl
translate-code_text ErrorCode.organization_access_denied Locale.en = refl
translate-code_text ErrorCode.organization_access_denied Locale.vi = refl
translate-code_text ErrorCode.invitation_invalid Locale.en = refl
translate-code_text ErrorCode.invitation_invalid Locale.vi = refl
translate-code_text ErrorCode.invitation_not_found Locale.en = refl
translate-code_text ErrorCode.invitation_not_found Locale.vi = refl
translate-code_text ErrorCode.member_not_found Locale.en = refl
translate-code_text ErrorCode.member_not_found Locale.vi = refl
translate-code_text ErrorCode.last_owner Locale.en = refl
translate-code_text ErrorCode.last_owner Locale.vi = refl
translate-code_text ErrorCode.upload_not_found Locale.en = refl
translate-code_text ErrorCode.upload_not_found Locale.vi = refl
translate-code_text ErrorCode.upload_already_confirmed Locale.en = refl
translate-code_text ErrorCode.upload_already_confirmed Locale.vi = refl
translate-code_text ErrorCode.upload_size_exceeded Locale.en = refl
translate-code_text ErrorCode.upload_size_exceeded Locale.vi = refl
translate-code_text ErrorCode.upload_mime_not_allowed Locale.en = refl
translate-code_text ErrorCode.upload_mime_not_allowed Locale.vi = refl
translate-code_text ErrorCode.upload_object_missing Locale.en = refl
translate-code_text ErrorCode.upload_object_missing Locale.vi = refl
translate-code_text ErrorCode.upload_content_mismatch Locale.en = refl
translate-code_text ErrorCode.upload_content_mismatch Locale.vi = refl
translate-code_text ErrorCode.upload_filename_invalid Locale.en = refl
translate-code_text ErrorCode.upload_filename_invalid Locale.vi = refl
translate-code_text ErrorCode.audit_entry_invalid Locale.en = refl
translate-code_text ErrorCode.audit_entry_invalid Locale.vi = refl
