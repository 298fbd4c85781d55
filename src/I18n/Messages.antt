-- ===== src/I18n/Messages.antt =====
-- The tables `messages` of src/platform/i18n/i18n.service.ts.
use nestjs_modular_monolith.Common.{List, [], ◌∷◌}
use nestjs_modular_monolith.Text.{Text, literal}

abbrev pub english : List (Text × Text)
english =
    (literal "errors.malformed_request.detail", literal "The request could not be parsed.")
    ∷ (literal "errors.validation_failed.detail", literal "One or more fields are invalid.")
    ∷ (literal "errors.not_found.detail", literal "The requested resource was not found.")
    ∷ (literal "errors.conflict.detail", literal "The request conflicts with the current state.")
    ∷ (literal "errors.internal_error.detail", literal "The request could not be completed.")
    ∷ (literal "errors.unauthenticated.detail", literal "No valid session.")
    ∷ (
      literal "errors.forbidden.detail",
      literal "The caller is not allowed to perform this operation.",
    )
    ∷ (literal "errors.rate_limited.detail", literal "Too many requests. Retry later.")
    ∷ (literal "errors.request_timeout.detail", literal "The request took too long to complete.")
    ∷ (
      literal "errors.payload_too_large.detail",
      literal "The request payload exceeds the allowed size.",
    )
    ∷ (
      literal "errors.unsupported_media_type.detail",
      literal "The request media type is not supported.",
    )
    ∷ (
      literal "errors.service_unavailable.detail",
      literal "The service is temporarily unavailable.",
    )
    ∷ (literal "errors.cursor_malformed.detail", literal "The pagination cursor is invalid.")
    ∷ (literal "errors.user_not_found.detail", literal "The user does not exist.")
    ∷ (
      literal "errors.user_profile_not_found.detail",
      literal "The user profile does not exist yet.",
    )
    ∷ (literal "errors.display_name_invalid.detail", literal "The display name is invalid.")
    ∷ (literal "errors.user_role_invalid.detail", literal "The user role is invalid.")
    ∷ (
      literal "errors.organization_invalid.detail",
      literal "The organization name or slug is invalid.",
    )
    ∷ (
      literal "errors.organization_access_denied.detail",
      literal "The caller cannot access this organization.",
    )
    ∷ (
      literal "errors.organization_not_found.detail",
      literal "The organization does not exist or is unavailable.",
    )
    ∷ (
      literal "errors.invitation_invalid.detail",
      literal "The invitation could not be issued as requested.",
    )
    ∷ (
      literal "errors.invitation_not_found.detail",
      literal "That invitation is unknown, already used, or has expired.",
    )
    ∷ (
      literal "errors.member_not_found.detail",
      literal "That person is not a member of this organization.",
    )
    ∷ (literal "errors.last_owner.detail", literal "An organization must keep at least one owner.")
    ∷ (
      literal "errors.upload_not_found.detail",
      literal "No upload with that id belongs to the caller.",
    )
    ∷ (
      literal "errors.upload_already_confirmed.detail",
      literal "This upload was already confirmed.",
    )
    ∷ (
      literal "errors.upload_size_exceeded.detail",
      literal "The file size is outside the allowed range.",
    )
    ∷ (literal "errors.upload_mime_not_allowed.detail", literal "The file type is not allowed.")
    ∷ (
      literal "errors.upload_object_missing.detail",
      literal "No uploaded object was found for this file.",
    )
    ∷ (
      literal "errors.upload_content_mismatch.detail",
      literal "The uploaded bytes do not match the declaration.",
    )
    ∷ (literal "errors.upload_filename_invalid.detail", literal "The filename is invalid.")
    ∷ (literal "errors.audit_entry_invalid.detail", literal "The audit event contract is invalid.")
    ∷ (literal "validation.required", literal "This field is required.")
    ∷ (literal "validation.wrong_type", literal "This field has an invalid type.")
    ∷ (literal "validation.too_short", literal "This value is too short.")
    ∷ (literal "validation.too_long", literal "This value is too long.")
    ∷ (literal "validation.out_of_range", literal "This value is out of range.")
    ∷ (literal "validation.invalid_email", literal "Enter a valid email address.")
    ∷ (literal "validation.invalid_uuid", literal "Enter a valid identifier.")
    ∷ (literal "validation.invalid_url", literal "Enter a valid URL.")
    ∷ (literal "validation.invalid_date", literal "Enter a valid date.")
    ∷ (literal "validation.invalid_enum_value", literal "Choose one of the allowed values.")
    ∷ (literal "validation.invalid_format", literal "This value has an invalid format.")
    ∷ (literal "validation.invalid_length", literal "This value has an invalid length.")
    ∷ (literal "validation.unknown_field", literal "This field is not allowed.")
    ∷ []

abbrev pub vietnamese : List (Text × Text)
vietnamese =
    (literal "errors.malformed_request.detail", literal "Không thể phân tích yêu cầu.")
    ∷ (literal "errors.validation_failed.detail", literal "Một hoặc nhiều trường không hợp lệ.")
    ∷ (literal "errors.not_found.detail", literal "Không tìm thấy tài nguyên được yêu cầu.")
    ∷ (literal "errors.conflict.detail", literal "Yêu cầu xung đột với trạng thái hiện tại.")
    ∷ (literal "errors.internal_error.detail", literal "Yêu cầu không thể được hoàn tất.")
    ∷ (literal "errors.unauthenticated.detail", literal "Phiên đăng nhập không hợp lệ.")
    ∷ (literal "errors.forbidden.detail", literal "Bạn không có quyền thực hiện thao tác này.")
    ∷ (literal "errors.rate_limited.detail", literal "Có quá nhiều yêu cầu. Vui lòng thử lại sau.")
    ∷ (
      literal "errors.request_timeout.detail",
      literal "Yêu cầu mất quá nhiều thời gian để hoàn tất.",
    )
    ∷ (
      literal "errors.payload_too_large.detail",
      literal "Dữ liệu yêu cầu vượt quá kích thước cho phép.",
    )
    ∷ (
      literal "errors.unsupported_media_type.detail",
      literal "Loại nội dung của yêu cầu không được hỗ trợ.",
    )
    ∷ (literal "errors.service_unavailable.detail", literal "Dịch vụ tạm thời không khả dụng.")
    ∷ (literal "errors.cursor_malformed.detail", literal "Con trỏ phân trang không hợp lệ.")
    ∷ (literal "errors.user_not_found.detail", literal "Người dùng không tồn tại.")
    ∷ (literal "errors.user_profile_not_found.detail", literal "Hồ sơ người dùng chưa tồn tại.")
    ∷ (literal "errors.display_name_invalid.detail", literal "Tên hiển thị không hợp lệ.")
    ∷ (literal "errors.user_role_invalid.detail", literal "Vai trò người dùng không hợp lệ.")
    ∷ (
      literal "errors.organization_invalid.detail",
      literal "Tên hoặc slug của tổ chức không hợp lệ.",
    )
    ∷ (
      literal "errors.organization_access_denied.detail",
      literal "Bạn không có quyền truy cập tổ chức này.",
    )
    ∷ (
      literal "errors.organization_not_found.detail",
      literal "Tổ chức không tồn tại hoặc không còn khả dụng.",
    )
    ∷ (
      literal "errors.invitation_invalid.detail",
      literal "Không thể tạo lời mời với thông tin đã nhập.",
    )
    ∷ (
      literal "errors.invitation_not_found.detail",
      literal "Lời mời không tồn tại, đã được sử dụng hoặc đã hết hạn.",
    )
    ∷ (
      literal "errors.member_not_found.detail",
      literal "Người này không phải thành viên của tổ chức.",
    )
    ∷ (literal "errors.last_owner.detail", literal "Tổ chức phải luôn có ít nhất một chủ sở hữu.")
    ∷ (literal "errors.upload_not_found.detail", literal "Không tìm thấy tệp thuộc về bạn.")
    ∷ (
      literal "errors.upload_already_confirmed.detail",
      literal "Tệp tải lên này đã được xác nhận.",
    )
    ∷ (
      literal "errors.upload_size_exceeded.detail",
      literal "Kích thước tệp nằm ngoài phạm vi cho phép.",
    )
    ∷ (literal "errors.upload_mime_not_allowed.detail", literal "Loại tệp này không được phép.")
    ∷ (
      literal "errors.upload_object_missing.detail",
      literal "Không tìm thấy dữ liệu đã tải lên cho tệp này.",
    )
    ∷ (
      literal "errors.upload_content_mismatch.detail",
      literal "Dữ liệu tải lên không khớp với thông tin khai báo.",
    )
    ∷ (literal "errors.upload_filename_invalid.detail", literal "Tên tệp không hợp lệ.")
    ∷ (
      literal "errors.audit_entry_invalid.detail",
      literal "Hợp đồng sự kiện nhật ký không hợp lệ.",
    )
    ∷ (literal "validation.required", literal "Trường này là bắt buộc.")
    ∷ (literal "validation.wrong_type", literal "Trường này có kiểu dữ liệu không hợp lệ.")
    ∷ (literal "validation.too_short", literal "Giá trị này quá ngắn.")
    ∷ (literal "validation.too_long", literal "Giá trị này quá dài.")
    ∷ (literal "validation.out_of_range", literal "Giá trị này nằm ngoài phạm vi cho phép.")
    ∷ (literal "validation.invalid_email", literal "Hãy nhập địa chỉ email hợp lệ.")
    ∷ (literal "validation.invalid_uuid", literal "Hãy nhập mã định danh hợp lệ.")
    ∷ (literal "validation.invalid_url", literal "Hãy nhập URL hợp lệ.")
    ∷ (literal "validation.invalid_date", literal "Hãy nhập ngày hợp lệ.")
    ∷ (literal "validation.invalid_enum_value", literal "Hãy chọn một giá trị được phép.")
    ∷ (literal "validation.invalid_format", literal "Giá trị này có định dạng không hợp lệ.")
    ∷ (literal "validation.invalid_length", literal "Giá trị này có độ dài không hợp lệ.")
    ∷ (literal "validation.unknown_field", literal "Trường này không được phép.")
    ∷ []
