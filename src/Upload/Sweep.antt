-- ===== src/Upload/Sweep.antt =====
-- src/modules/upload/application/expire-stale-uploads.use-case.ts and purge-user-files.use-case.ts.
pub mod Safety
pub mod Purge
pub mod Orphans
use nestjs_modular_monolith.Common.{
  ℕ, zero, suc, ◌+◌, ◌-◌, ◌*◌, ◌≡◌, refl, Bool, true, false, not, Option, none, some, List, [], ◌∷◌,
  ◌==◌, if◌then◌else◌,
}
use nestjs_modular_monolith.Errors.{Result, ok, throw, M, ◌>>=◌, continue, return, plain_error}
use nestjs_modular_monolith.Prisma.{PrismaClient}
use nestjs_modular_monolith.Upload.StoredFile.{
  StoredFile, pending, status_eq, never_uploaded, discard,
}
use nestjs_modular_monolith.Upload.Repository.{
  compare_and_save, delete_by_id, find_cleanup_candidates, find_all_by_owner,
}
use nestjs_modular_monolith.Upload.Storage.{FileStorage}

abbrev pub sweep_batch_size : ℕ
sweep_batch_size = 200

abbrev pub purge_batch_size : ℕ
purge_batch_size = 500

abbrev pub minute_ms : ℕ
minute_ms = 60000

-- The table and the object storage.
pub record World (Objects : Type 0) : Type 0 where
  pub files : List StoredFile
  pub objects : Objects

-- `previousHead === head`
abbrev pub is_head : Option ℕ → ℕ → Bool
is_head none id = false
is_head (some previous) id = previous == id

module _ (prisma : PrismaClient) where
  -- The `if` at the head of the loop's body, over the table; the answer says whether the body goes on
  -- to remove the file, and is false where the loop does `continue`.
  abbrev pub claim_stale : StoredFile → ℕ → List StoredFile → Bool × List StoredFile
  claim_stale file now files =
      if status_eq file.status pending
      then compare_and_save prisma (discard never_uploaded now file) pending files
      else (true, files)

module _ (prisma : PrismaClient) (storage : FileStorage) where
  -- `storage.remove`, then `files.deleteById` unless the storage failed.
  pub remove_file : StoredFile → M (World storage.Objects) (Unit {0})
  remove_file file w =
      let (removed, objects) = storage.remove file.storage_key w.objects in
      continue (removed, record w { objects = objects })
        (λ _ v. (ok tt, record v { files = delete_by_id prisma file.id v.files }))

  -- The body of the loop; the answer says whether the file was removed.
  unfoldable pub sweep_file : StoredFile → ℕ → M (World storage.Objects) Bool
  unfolding remove_file
  sweep_file file now w =
      let (goes_on, files) = claim_stale prisma file now w.files in
      if not goes_on
      then (ok false, record w { files = files })
      else continue (remove_file file (record w { files = files })) (λ _. return true)

  pub sweep : List StoredFile → ℕ → ℕ → M (World storage.Objects) ℕ
  sweep [] now removed w = (ok removed, w)
  sweep (file ∷ stale) now removed w =
      continue (sweep_file file now w)
        (λ swept. sweep stale now (if swept then removed + 1 else removed))

  -- `ExpireStaleUploadsUseCase.execute`. No row is created before the epoch, so a cutoff below 0 is 0.
  unfoldable pub expire_stale : ℕ → ℕ → M (World storage.Objects) ℕ
  unfolding sweep
  expire_stale pending_ttl_minutes now w =
      sweep
        (find_cleanup_candidates prisma (now - pending_ttl_minutes * minute_ms) sweep_batch_size
          w.files)
        now 0 w

  -- The inner loop of `PurgeUserFilesUseCase`.
  pub purge_batch : List StoredFile → ℕ → M (World storage.Objects) ℕ
  purge_batch [] purged w = (ok purged, w)
  purge_batch (file ∷ owned) purged w =
      continue (remove_file file w) (λ _. purge_batch owned (purged + 1))

  -- What follows the inner loop.
  pub purge_on :
      (Option ℕ → ℕ → World storage.Objects → Option (Result ℕ × World storage.Objects))
      → Option ℕ
      → Result ℕ × World storage.Objects
      → Option (Result ℕ × World storage.Objects)
  purge_on again head (ok purged, v) = again head purged v
  purge_on again head (throw e, v) = some (throw e, v)

  -- What follows `findAllByOwner` in a round; `again` is the next round.
  pub purge_round :
      (Option ℕ → ℕ → World storage.Objects → Option (Result ℕ × World storage.Objects))
      → List StoredFile
      → Option ℕ
      → ℕ
      → World storage.Objects
      → Option (Result ℕ × World storage.Objects)
  purge_round again [] previous_head purged w = some (ok purged, w)
  purge_round again (file ∷ rest) previous_head purged w =
      if is_head previous_head file.id
      then some (throw plain_error, w)
      else purge_on again (some file.id) (purge_batch (file ∷ rest) purged w)

  -- The `for (;;)` loop; `none` is a loop that has not ended within the fuel.
  pub purge_loop :
      ℕ → ℕ → Option ℕ → ℕ → World storage.Objects → Option (Result ℕ × World storage.Objects)
  purge_loop zero owner_id previous_head purged w = none
  purge_loop (suc fuel) owner_id previous_head purged w =
      purge_round (purge_loop fuel owner_id)
        (find_all_by_owner prisma owner_id purge_batch_size w.files) previous_head purged w

  unfoldable pub purge : ℕ → ℕ → World storage.Objects → Option (Result ℕ × World storage.Objects)
  unfolding purge_loop purge_round purge_on purge_batch
  purge fuel owner_id w = purge_loop fuel owner_id none 0 w
