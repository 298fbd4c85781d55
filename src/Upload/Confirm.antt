-- ===== src/Upload/Confirm.antt =====
-- src/modules/upload/application/confirm-upload.use-case.ts. The call is cut where it awaits: it loads
-- the row, asks the storage, and then commits, with other requests in between.
pub mod Race
use Prim.Native.String.{String}
use nestjs_modular_monolith.Common.{
  ℕ, ◌≡◌, refl, Bool, true, false, not, Option, none, some, List, [], ◌∷◌, if◌then◌else◌,
}
use mathlib.Core.Option.{get_or}
use nestjs_modular_monolith.Text.{Text}
use nestjs_modular_monolith.Errors.{
  Result, ok, throw, M, ◌>>=◌, return, upload_not_found, upload_object_missing,
  upload_already_confirmed,
}
use nestjs_modular_monolith.Errors.DomainErrors
use nestjs_modular_monolith.Prisma.{PrismaClient}
use nestjs_modular_monolith.Contracts.Events.{
  IntegrationEvent, Moment, upload_confirmed, upload_confirmed_payload, create_integration_event,
}
use nestjs_modular_monolith.Contracts.Publisher.{publish_all}
use nestjs_modular_monolith.Upload.StoredFile.{
  StoredFile, StoredFileStatus, discarded, status_eq, StoredFileEvent, was_confirmed, was_discarded,
  ObjectFacts, confirm, pull_events,
}
use nestjs_modular_monolith.Upload.Repository.{find_by_id_for_owner, compare_and_save}
use nestjs_modular_monolith.Upload.Storage.{FileStorage}

-- The tables that the upload module writes.
pub record Tables : Type 0 where
  pub files : List StoredFile
  pub outbox : List IntegrationEvent

pub record ConfirmUploadInput : Type 0 where
  pub organization_id : ℕ
  pub caller_id : ℕ
  pub file_id : ℕ
  pub correlation_id : Option ℕ

-- `toIntegrationEvents` keeps the confirmations. A file has at most one, so one identifier serves.
unfoldable pub to_integration_events :
    List StoredFileEvent → Option ℕ → Moment → List IntegrationEvent
to_integration_events [] correlation_id m = []
to_integration_events (was_discarded _ ∷ es) correlation_id m =
    to_integration_events es correlation_id m
to_integration_events (was_confirmed e ∷ es) correlation_id m =
    create_integration_event upload_confirmed
      (upload_confirmed_payload (record {
        file_id = e.file_id;
        organization_id = e.organization_id;
        owner_id = e.owner_id;
        storage_key = e.storage_key;
        mime_type = e.mime_type;
        size_bytes = e.size_bytes;
        confirmed_at = e.confirmed_at;
      }))
      correlation_id m.event_id m.now
    ∷ to_integration_events es correlation_id m

-- The file is answered once its events are in the outbox.
abbrev pub after_publication : Result (Unit {0}) → StoredFile → Result StoredFile
after_publication (ok _) file = ok file
after_publication (throw e) file = throw e

-- src/modules/upload/application/stored-file.mapper.ts: `verified ?? declared`.
pub record StoredFileView : Type 0 where
  pub id : ℕ
  pub owner_id : ℕ
  pub filename : Text
  pub mime_type : String
  pub size_bytes : ℕ
  pub status : StoredFileStatus
  pub created_at : ℕ
  pub confirmed_at : Option ℕ

unfoldable pub to_stored_file_view : StoredFile → StoredFileView
to_stored_file_view file = record {
  id = file.id;
  owner_id = file.owner_id;
  filename = file.filename;
  mime_type = get_or file.verified_mime file.declared_mime_type;
  size_bytes = get_or file.verified_size file.declared_size_bytes;
  status = file.status;
  created_at = file.created_at;
  confirmed_at = file.confirmed_at;
}

module _ (prisma : PrismaClient) (parses : IntegrationEvent → Bool) where
  open prisma use {transaction}

  -- The body of the transaction.
  pub store_confirmation : StoredFile → StoredFileStatus → Option ℕ → Moment → M Tables StoredFile
  store_confirmation file previous_status correlation_id m w =
      let (stored, files) = compare_and_save prisma file previous_status w.files in
      if not stored
      then (throw (DomainErrors.conflict upload_already_confirmed true), record w { files = files })
      else (let (events, pulled) = pull_events file in
          let (published, outbox) =
            publish_all prisma parses (to_integration_events events correlation_id m) w.outbox in
          (after_publication published pulled, record w { files = files; outbox = outbox }))

  -- What follows `file.confirm`: the `catch`, or the transaction.
  pub settle_confirmation :
      Result (Unit {0}) → StoredFile → StoredFileStatus → Option ℕ → Moment → M Tables StoredFile
  settle_confirmation (throw e) file previous_status correlation_id m w =
      if status_eq file.status discarded
      then (throw e, record w { files = (compare_and_save prisma file previous_status w.files).1 })
      else (throw e, w)
  settle_confirmation (ok _) file previous_status correlation_id m w =
      transaction (store_confirmation file previous_status correlation_id m) w

  -- The call from the answer of the storage on, with the row as it was loaded.
  unfoldable pub commit : StoredFile → ObjectFacts → Option ℕ → Moment → M Tables StoredFile
  unfolding settle_confirmation store_confirmation
  commit loaded facts correlation_id m =
      let (result, file) = confirm facts m.now loaded in
      settle_confirmation result file loaded.status correlation_id m

  -- What follows `inspect`.
  pub commit_found :
      StoredFile → Result (Option ObjectFacts) → Option ℕ → Moment → M Tables StoredFile
  unfolding commit
  commit_found loaded (throw e) correlation_id m w = (throw e, w)
  commit_found loaded (ok none) correlation_id m w =
      (throw (DomainErrors.validation upload_object_missing), w)
  commit_found loaded (ok (some facts)) correlation_id m w = commit loaded facts correlation_id m w

  module _ (storage : FileStorage) (objects : storage.Objects) where
    -- The whole call with nothing in between.
    unfoldable pub execute : ConfirmUploadInput → Moment → M Tables StoredFileView
    unfolding commit_found
    execute input m w =
        elim (find_by_id_for_owner prisma input.organization_id input.caller_id input.file_id
          w.files) [
            | none ↦ (throw (DomainErrors.not_found upload_not_found), w)
            | some file ↦
                (commit_found file (storage.inspect file.storage_key objects) input.correlation_id m
                    >>= (λ f. return (to_stored_file_view f)))
                  w
          ]
