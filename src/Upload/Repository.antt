-- ===== src/Upload/Repository.antt =====
-- src/modules/upload/infrastructure/prisma-stored-file.repository.ts, over the table of its rows. A
-- row is a `StoredFile` whose events are left out.
use nestjs_modular_monolith.Common.{
  ℕ, ◌≡◌, ap, Bool, true, not, ◌&&◌, ◌||◌, Option, none, some, List, [], map, ltb, leb, ◌==◌, take,
  count, keep, patch, arith,
}
use package.text.Mathlib.Text.{◌==◌ as str_eq}
use package.text.Mathlib.TextEquality.{eq_iff}
use mathlib.Core.Option
use nestjs_modular_monolith.Errors.{M}
use nestjs_modular_monolith.Prisma.{PrismaClient}
use nestjs_modular_monolith.Upload.StoredFile.{
  StoredFile, StoredFileStatus, pending, confirmed, discarded, status_eq,
}

-- `StoredFile.rehydrate`: an aggregate that is loaded has no events.
abbrev pub to_aggregate : StoredFile → StoredFile
to_aggregate row = record row { events = [] }

-- `DecodedCursor` of src/shared/pagination.
pub record Cursor : Type 0 where
  pub sort_value : ℕ
  pub id : ℕ

abbrev pub oldest_first : StoredFile → StoredFile → Bool
oldest_first a b = leb a.created_at b.created_at

-- `[{ createdAt: 'desc' }, { id: 'desc' }]`
abbrev pub newest_first : StoredFile → StoredFile → Bool
newest_first a b = ltb b.created_at a.created_at || a.created_at == b.created_at && leb b.id a.id

abbrev pub is_after : Option Cursor → StoredFile → Bool
is_after none r = true
is_after (some c) r = ltb r.created_at c.sort_value || r.created_at == c.sort_value && ltb r.id c.id

-- The `where` and `data` of `compareAndSave`.
abbrev pub is_expected : StoredFile → StoredFileStatus → StoredFile → Bool
is_expected file expected r =
    r.id == file.id && r.organization_id == file.organization_id && status_eq r.status expected

abbrev pub write_outcome : StoredFile → StoredFile → StoredFile
write_outcome file r = record r {
  verified_mime = file.verified_mime;
  verified_size = file.verified_size;
  status = file.status;
  confirmed_at = file.confirmed_at;
}

abbrev pub is_confirmed_of : ℕ → ℕ → StoredFile → Bool
is_confirmed_of organization_id owner_id r =
    r.organization_id == organization_id && r.owner_id == owner_id && status_eq r.status confirmed

abbrev pub is_cleanup_candidate : ℕ → StoredFile → Bool
is_cleanup_candidate older_than r =
    status_eq r.status discarded || status_eq r.status pending && ltb r.created_at older_than

-- The primary key, and the unique index on `storage_key`.
abbrev pub collides : StoredFile → StoredFile → Bool
collides a b = a.id == b.id || str_eq a.storage_key b.storage_key

pub collides_comm : (a b : StoredFile) → collides a b ≡ collides b a
collides_comm a b =
    ground (arith, eq_iff a.storage_key b.storage_key, eq_iff b.storage_key a.storage_key)

module _ (prisma : PrismaClient) where
  open prisma use {
    find_first, order_by, create, update_many, update_many-eq, delete_many, delete_many-eq,
    count_rows,
  }

  unfoldable pub find_by_id_for_owner : ℕ → ℕ → ℕ → List StoredFile → Option StoredFile
  find_by_id_for_owner organization_id owner_id id files = Option.map to_aggregate (
      find_first (λ r. r.id == id && r.organization_id == organization_id && r.owner_id == owner_id)
        files)

  unfoldable pub save : StoredFile → M (List StoredFile) (Unit {0})
  save file files = create collides (to_aggregate file) files

  unfoldable pub compare_and_save :
      StoredFile → StoredFileStatus → List StoredFile → Bool × List StoredFile
  compare_and_save file expected files =
      let (written, n) = update_many (is_expected file expected) (write_outcome file) files in
      (n == 1, written)

  unfoldable pub list_by_owner : ℕ → ℕ → Option Cursor → ℕ → List StoredFile → List StoredFile
  list_by_owner organization_id owner_id cursor limit files = map to_aggregate (
      take limit (
        order_by newest_first
          (keep (λ r. is_confirmed_of organization_id owner_id r && is_after cursor r) files)))

  unfoldable pub count_by_owner : ℕ → ℕ → List StoredFile → ℕ
  count_by_owner organization_id owner_id files =
      count_rows (is_confirmed_of organization_id owner_id) files

  unfoldable pub find_cleanup_candidates : ℕ → ℕ → List StoredFile → List StoredFile
  find_cleanup_candidates older_than limit files =
      map to_aggregate
        (take limit (order_by oldest_first (keep (is_cleanup_candidate older_than) files)))

  unfoldable pub delete_by_id : ℕ → List StoredFile → List StoredFile
  delete_by_id id files = (delete_many (λ r. r.id == id) files).0

  unfoldable pub find_all_by_owner : ℕ → ℕ → List StoredFile → List StoredFile
  find_all_by_owner owner_id limit files =
      map to_aggregate
        (take limit (order_by oldest_first (keep (λ r. r.owner_id == owner_id) files)))

  -- What the client's laws make of the two writes.
  pub compare_and_save_lem :
      (file : StoredFile) (expected : StoredFileStatus) (files : List StoredFile)
      → compare_and_save file expected files ≡ (
        count (is_expected file expected) files == 1,
        patch (is_expected file expected) (write_outcome file) files,
      )
  unfolding compare_and_save
  compare_and_save_lem file expected files =
      rw (update_many-eq (is_expected file expected) (write_outcome file) files)

  pub delete_by_id_lem :
      (id : ℕ) (files : List StoredFile)
      → delete_by_id id files ≡ keep (λ r. not (r.id == id)) files
  unfolding delete_by_id
  delete_by_id_lem id files =
      ap (λ (p : List StoredFile × ℕ). p.0) (delete_many-eq (λ (r : StoredFile). r.id == id) files)
