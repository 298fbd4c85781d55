-- ===== src/Upload/StoredFile.antt =====
-- src/modules/upload/domain/stored-file.entity.ts and stored-file.events.ts. Identifiers are UUIDs,
-- as the numbers that they stand for; dates are milliseconds since the epoch.
pub mod Filename
pub mod Lifecycle
use Prim.Native.String.{String, ◌++◌}
use text.Mathlib.Text.{◌==◌ as str_eq}
use nestjs_modular_monolith.Common.{
  ℕ, Bool, true, false, not, ◌&&◌, ◌||◌, Option, none, some, List, [], ◌∷◌, ltb, leb, ◌==◌,
  if◌then◌else◌, length, take, any, keep,
}
use nestjs_modular_monolith.Common
use nestjs_modular_monolith.Errors.{
  Result, ok, throw, M, upload_mime_not_allowed, upload_size_exceeded, upload_filename_invalid,
  upload_already_confirmed, upload_not_found, upload_content_mismatch,
}
use nestjs_modular_monolith.Errors.DomainErrors
use nestjs_modular_monolith.Text.{Text, literal, text_eq, trim, split, last}

pub data StoredFileStatus : Type 0 where
  pending confirmed discarded : StoredFileStatus

pub data DiscardReason : Type 0 where
  content_mismatch type_not_allowed never_uploaded : DiscardReason

pub record StoredFileConfirmed : Type 0 where
  pub file_id : ℕ
  pub organization_id : ℕ
  pub owner_id : ℕ
  pub storage_key : String
  pub mime_type : String
  pub size_bytes : ℕ
  pub confirmed_at : ℕ

pub record StoredFileDiscarded : Type 0 where
  pub file_id : ℕ
  pub storage_key : String
  pub reason : DiscardReason
  pub at : ℕ

pub data StoredFileEvent : Type 0 where
  was_confirmed : StoredFileConfirmed → StoredFileEvent
  was_discarded : StoredFileDiscarded → StoredFileEvent

pub record StoredFile : Type 0 where
  pub id : ℕ
  pub organization_id : ℕ
  pub owner_id : ℕ
  pub storage_key : String
  pub filename : Text
  pub declared_mime_type : String
  pub declared_size_bytes : ℕ
  pub status : StoredFileStatus
  pub created_at : ℕ
  pub verified_mime : Option String
  pub verified_size : Option ℕ
  pub confirmed_at : Option ℕ
  pub events : List StoredFileEvent

abbrev pub allowed_mime_types : List String
allowed_mime_types =
    "image/png" ∷ "image/jpeg" ∷ "image/webp" ∷ "image/gif" ∷ "application/pdf" ∷ []

-- `ALLOWED_MIME_TYPES.includes(mime)`
unfoldable pub is_allowed : String → Bool
is_allowed mime = any (str_eq mime) allowed_mime_types

abbrev pub status_eq : StoredFileStatus → StoredFileStatus → Bool
status_eq pending pending = true
status_eq confirmed confirmed = true
status_eq discarded discarded = true
status_eq _ _ = false

-- `/` or `\`
abbrev pub is_separator : ℕ → Bool
is_separator c = c == 92 || c == 47

abbrev pub is_safe_character : ℕ → Bool
is_safe_character c = leb 32 c && not (c == 127) && not (c == b'"')

pub strip_unsafe_characters : Text → Text
strip_unsafe_characters = keep is_safe_character

-- `parts.pop() ?? 'file'`
abbrev pub or_file : Option Text → Text
or_file none = literal "file"
or_file (some base) = base

-- The end of `sanitiseFilename`: refuse an empty name and the two dot names, cut the rest.
pub accept_name : Text → Result Text
accept_name cleaned =
    if text_eq cleaned (literal "")
      || text_eq cleaned (literal ".")
      || text_eq cleaned (literal "..")
    then throw (DomainErrors.validation upload_filename_invalid)
    else ok (take 255 cleaned)

unfoldable pub sanitise_filename : Text → Result Text
unfolding strip_unsafe_characters accept_name
sanitise_filename raw =
    accept_name (trim (strip_unsafe_characters (or_file (last (split is_separator raw)))))

pub record PresignInput : Type 0 where
  pub organization_id : ℕ
  pub owner_id : ℕ
  pub filename : Text
  pub mime_type : String
  pub size_bytes : ℕ
  pub max_size_bytes : ℕ

-- `uploads/${organizationId}/${ownerId}/${id}`, by the text form of a UUID.
abbrev pub storage_key_of : (ℕ → String) → ℕ → ℕ → ℕ → String
storage_key_of uuid_text organization owner id =
    "uploads/" ++ uuid_text organization ++ "/" ++ uuid_text owner ++ "/" ++ uuid_text id

-- The file that `presign` builds once the name has passed.
presigned : (ℕ → String) → PresignInput → ℕ → ℕ → Result Text → Result StoredFile
presigned uuid_text input id now (throw e) = throw e
presigned uuid_text input id now (ok filename) = ok (record {
  id = id;
  organization_id = input.organization_id;
  owner_id = input.owner_id;
  storage_key = storage_key_of uuid_text input.organization_id input.owner_id id;
  filename = filename;
  declared_mime_type = input.mime_type;
  declared_size_bytes = input.size_bytes;
  status = pending;
  created_at = now;
  verified_mime = none;
  verified_size = none;
  confirmed_at = none;
  events = [];
})

-- `id` is what `newId()` returns, and `now` the clock. A size below 0 has no place in ℕ.
unfoldable pub presign : (ℕ → String) → PresignInput → ℕ → ℕ → Result StoredFile
unfolding presigned
presign uuid_text input id now =
    if not (is_allowed input.mime_type)
    then throw (DomainErrors.validation upload_mime_not_allowed)
    else if input.size_bytes == 0 || ltb input.max_size_bytes input.size_bytes
    then throw (DomainErrors.validation upload_size_exceeded)
    else presigned uuid_text input id now (sanitise_filename input.filename)

unfoldable pub discard : DiscardReason → ℕ → StoredFile → StoredFile
discard reason now file = if not (status_eq file.status pending) then file else record file {
  status = discarded;
  events = Common.◌++◌ file.events (
      was_discarded
        (record { file_id = file.id; storage_key = file.storage_key; reason = reason; at = now })
      ∷ []);
}

-- `StoredObjectFacts` of file-storage.port.ts.
pub record ObjectFacts : Type 0 where
  pub size_bytes : ℕ
  pub detected_mime_type : Option String

-- The last lines of `confirm`.
unfoldable pub accept : String → ℕ → ℕ → StoredFile → StoredFile
accept mime_type size_bytes now file = record file {
  status = confirmed;
  verified_mime = some mime_type;
  verified_size = some size_bytes;
  confirmed_at = some now;
  events = Common.◌++◌ file.events (
      was_confirmed (record {
        file_id = file.id;
        organization_id = file.organization_id;
        owner_id = file.owner_id;
        storage_key = file.storage_key;
        mime_type = mime_type;
        size_bytes = size_bytes;
        confirmed_at = now;
      })
      ∷ []);
}

-- The two checks of the detected type, `null` first.
pub confirm_type : Option String → ℕ → ℕ → M StoredFile (Unit {0})
unfolding accept
confirm_type none size_bytes now file =
    (throw (DomainErrors.validation upload_mime_not_allowed), discard type_not_allowed now file)
confirm_type (some mime) size_bytes now file =
    if not (is_allowed mime)
    then (
      throw (DomainErrors.validation upload_mime_not_allowed),
      discard type_not_allowed now file,
    )
    else if not (str_eq mime file.declared_mime_type)
    then (
      throw (DomainErrors.validation upload_content_mismatch),
      discard content_mismatch now file,
    )
    else (ok tt, accept mime size_bytes now file)

unfoldable pub confirm : ObjectFacts → ℕ → M StoredFile (Unit {0})
unfolding confirm_type
confirm actual now file =
    if status_eq file.status confirmed
    then (throw (DomainErrors.conflict upload_already_confirmed true), file)
    else if not (status_eq file.status pending)
    then (throw (DomainErrors.conflict upload_not_found true), file)
    else if not (actual.size_bytes == file.declared_size_bytes)
    then (
      throw (DomainErrors.validation upload_content_mismatch),
      discard content_mismatch now file,
    )
    else confirm_type actual.detected_mime_type actual.size_bytes now file

unfoldable pub is_usable : StoredFile → Bool
is_usable file = status_eq file.status confirmed

-- `events.splice(0, events.length)`: the events, and the file without them.
unfoldable pub pull_events : StoredFile → List StoredFileEvent × StoredFile
pull_events file = (file.events, record file { events = [] })
