-- ===== src/Upload/Listing.antt =====
-- src/modules/upload/application: presign-upload.use-case.ts, list-my-uploads.use-case.ts and
-- count-user-uploads.use-case.ts. A cursor is taken as it is decoded.
use Prim.Native.String.{String}
use mathlib.Core.Option
use nestjs_modular_monolith.Common.{
  ℕ, ◌+◌, ◌≡◌, ap, ◌∙◌, Bool, Bool-cases, inl, inr, ◌&&◌, Option, none, some, List, [], ◌∷◌, ltb,
  if◌then◌else◌, min, length, take, map, keep, count, length-map, length-take, length-keep, arith,
}
use nestjs_modular_monolith.Errors.{Result, ok, M, continue}
use nestjs_modular_monolith.Prisma.{PrismaClient}
use nestjs_modular_monolith.Prisma.Rows.{length-perm}
use nestjs_modular_monolith.Upload.StoredFile.{StoredFile, PresignInput, presign}
use nestjs_modular_monolith.Upload.Repository.{
  Cursor, list_by_owner, count_by_owner, save, is_confirmed_of, is_after, newest_first,
  to_aggregate,
}
use nestjs_modular_monolith.Upload.Confirm.{StoredFileView, to_stored_file_view}

abbrev pub max_page_size : ℕ
max_page_size = 100

abbrev pub default_page_size : ℕ
default_page_size = 20

pub record ListMyUploadsInput : Type 0 where
  pub organization_id : ℕ
  pub owner_id : ℕ
  pub starting_after : Option Cursor
  pub limit : Option ℕ

pub record StoredFilePage : Type 0 where
  pub files : List StoredFileView
  pub has_more : Bool
  pub last_cursor : Option Cursor

-- `Math.min(input.limit ?? DEFAULT_PAGE_SIZE, MAX_PAGE_SIZE)`
abbrev pub page_limit : Option ℕ → ℕ
page_limit none = min default_page_size max_page_size
page_limit (some limit) = min limit max_page_size

abbrev pub cursor_of : StoredFile → Cursor
cursor_of file = record { sort_value = file.created_at; id = file.id }

-- `page.at(-1)`
abbrev pub last_file : List StoredFile → Option StoredFile
last_file [] = none
last_file (file ∷ []) = some file
last_file (_ ∷ page) = last_file page

-- The page of at most `limit` rows out of one more.
abbrev pub to_page : ℕ → List StoredFile → StoredFilePage
to_page limit rows =
    let has_more = ltb limit (length rows) in
    let page = if has_more then take limit rows else rows in
    record {
      files = map to_stored_file_view page;
      has_more = has_more;
      last_cursor = Option.map cursor_of (last_file page);
    }

-- The rows that a listing is about.
abbrev pub is_listed : ListMyUploadsInput → StoredFile → Bool
is_listed input r =
    is_confirmed_of input.organization_id input.owner_id r && is_after input.starting_after r

module _ (prisma : PrismaClient) where
  unfoldable pub list_my_uploads : ListMyUploadsInput → List StoredFile → StoredFilePage
  list_my_uploads input files =
      let limit = page_limit input.limit in
      to_page limit (
        list_by_owner prisma input.organization_id input.owner_id input.starting_after (limit + 1)
          files)

  unfoldable pub count_user_uploads : ℕ → ℕ → List StoredFile → ℕ
  count_user_uploads = count_by_owner prisma

  -- `uuid_text` and `id` are as in `presign`; `create_upload_policy` is the storage's.
  unfoldable pub presign_upload :
      {Policy : Type 0}
      → (ℕ → String)
      → (StoredFile → Result Policy)
      → PresignInput
      → ℕ
      → ℕ
      → M (List StoredFile) (ℕ × Policy)
  presign_upload uuid_text create_upload_policy input id now files =
      continue (presign uuid_text input id now, files)
        (λ file t. continue (save prisma file t) (λ _ saved.
          continue (create_upload_policy file, saved) (λ policy u. (ok (file.id, policy), u))))

  length-list_by_owner :
      (input : ListMyUploadsInput) (limit : ℕ) (files : List StoredFile)
      → length (
          list_by_owner prisma input.organization_id input.owner_id input.starting_after limit
            files)
        ≡ min limit (count (is_listed input) files)
  unfolding list_by_owner
  length-list_by_owner input limit files =
      length-map to_aggregate _
      ∙ length-take limit (prisma.order_by newest_first (keep (is_listed input) files))
      ∙ ap (min limit) (
          length-perm (prisma.order_by-perm newest_first (keep (is_listed input) files))
          ∙ length-keep (is_listed input) files)

  length-page :
      (limit total : ℕ) (rows : List StoredFile)
      → length rows ≡ min (limit + 1) total
      → (length (to_page limit rows).files ≡ min limit total)
        × ((to_page limit rows).has_more ≡ ltb limit total)
  length-page limit total rows e = elim (Bool-cases (ltb limit (length rows))) [
    | inl more ↦ (
      rw more (
          length-map to_stored_file_view (take limit rows)
          ∙ length-take limit rows
          ∙ ground (arith, e)),
      ground (arith, e),
    )
    | inr all ↦
        (rw all (length-map to_stored_file_view rows ∙ ground (arith, e)), ground (arith, e))
  ]

  -- A page holds as many files as match, up to the limit, which is at most 100; and it says that there
  -- are more exactly if more than the limit match.
  pub list_my_uploads_lem :
      (input : ListMyUploadsInput) (files : List StoredFile)
      → (length (list_my_uploads input files).files
          ≡ min (page_limit input.limit) (count (is_listed input) files))
        × ((list_my_uploads input files).has_more
            ≡ ltb (page_limit input.limit) (count (is_listed input) files))
  unfolding list_my_uploads
  list_my_uploads_lem input files =
      length-page (page_limit input.limit) (count (is_listed input) files) _
        (length-list_by_owner input (page_limit input.limit + 1) files)
