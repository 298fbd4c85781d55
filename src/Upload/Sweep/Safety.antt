-- ===== src/Upload/Sweep/Safety.antt =====
-- What the sweep leaves alone: confirmed files, and rows whose object may still be there.
use package.text.Mathlib.TextEquality.{eq_iff}
use nestjs_modular_monolith.Common.{
  ℕ, ◌+◌, ◌-◌, ◌*◌, ◌≡◌, ◌≢◌, refl, sym, ap, ap₂, ◌∙◌, subst, inl, inr, Bool, true, false, not,
  Bool-cases, List, [], ◌∷◌, Memᴰ, arith, ◌==◌, if◌then◌else◌, count, All, All-map,
}
use nestjs_modular_monolith.Errors.{Result, Result-cases, ok, throw, continue}
use nestjs_modular_monolith.Prisma.{PrismaClient}
use nestjs_modular_monolith.Prisma.Rows.{
  IsUnique, unique_apart, All-image, All-perm, All-take, All-keep, All-self, mem-keep, mem-patch,
  patch_none,
}
use nestjs_modular_monolith.Upload.StoredFile.{
  StoredFile, pending, confirmed, status_eq, discard, never_uploaded, DiscardReason,
}
use nestjs_modular_monolith.Upload.Repository.{
  to_aggregate, collides, collides_comm, is_expected, write_outcome, compare_and_save,
  compare_and_save_lem, delete_by_id_lem, find_cleanup_candidates, oldest_first,
  is_cleanup_candidate,
}
use nestjs_modular_monolith.Upload.Storage.{FileStorage}
use nestjs_modular_monolith.Upload.Sweep.{
  World, remove_file, sweep_file, sweep, expire_stale, sweep_batch_size, minute_ms,
}

pub discard-id :
    (reason : DiscardReason) (now : ℕ) (file : StoredFile) → (discard reason now file).id ≡ file.id
unfolding discard
discard-id reason now file = ground arith

pub discard-storage_key :
    (reason : DiscardReason) (now : ℕ) (file : StoredFile)
    → (discard reason now file).storage_key ≡ file.storage_key
unfolding discard
discard-storage_key reason now file = ground arith

count_settled :
    (stale file : StoredFile) (files : List StoredFile)
    → stale.id ≡ file.id
    → All (λ y. y.id ≡ file.id → y.status ≢ pending) files
    → count (is_expected stale pending) files ≡ 0
count_settled stale file [] e h = refl
count_settled stale file (y ∷ files) e h = ground (arith, h.0, count_settled stale file files e h.1)

module _ (prisma : PrismaClient) (storage : FileStorage) where
  -- A pending file that somebody confirmed, or removed, after the sweep had listed it: the claim is
  -- lost, and neither a row nor an object changes.
  pub sweep_file_lost :
      (file : StoredFile) (now : ℕ) (w : World storage.Objects)
      → file.status ≡ pending
      → All (λ y. y.id ≡ file.id → y.status ≢ pending) w.files
      → sweep_file prisma storage file now w ≡ (ok false, w)
  unfolding sweep_file
  sweep_file_lost file now w p h =
      let stale = discard never_uploaded now file in
      let none_met = count_settled stale file w.files (discard-id never_uploaded now file) h in
      let met =
        compare_and_save_lem prisma stale pending w.files
        ∙ ap₂ (λ (n : ℕ) (t : List StoredFile). (n == 1, t)) none_met
            (patch_none (is_expected stale pending) (write_outcome stale) w.files none_met) in
      rw (ap (λ s. status_eq s pending) p, met)

  -- The row and the object of one file are as they were.
  record IsKept (r : StoredFile) (w v : World storage.Objects) : Type 0 where
    row : Memᴰ r v.files
    object : storage.inspect r.storage_key v.objects ≡ storage.inspect r.storage_key w.objects

  remove_file-IsKept :
      (r file : StoredFile) (w : World storage.Objects)
      → file.id ≢ r.id
      → file.storage_key ≢ r.storage_key
      → Memᴰ r w.files
      → IsKept r w (remove_file prisma storage file w).1
  unfolding remove_file
  remove_file-IsKept r file w i k m =
      let same = storage.remove_others file.storage_key r.storage_key w.objects k in
      elim (Result-cases (storage.remove file.storage_key w.objects).0) [
        | inl gone ↦ rw gone (record {
          row =
              subst (Memᴰ r) (sym (delete_by_id_lem prisma file.id w.files))
                (mem-keep (λ (y : StoredFile). not (y.id == file.id)) w.files m (ground arith));
          object = same;
        })
        | inr (e, failed) ↦ rw failed (record { row = m; object = same })
      ]

  continue-IsKept :
      (r : StoredFile) (w : World storage.Objects) (out : Result (Unit {0}) × World storage.Objects)
      → IsKept r w out.1
      → IsKept r w (continue {B = Bool} out (λ _ v. (ok true, v))).1
  continue-IsKept r w (ok _, v) h = h
  continue-IsKept r w (throw e, v) h = h

  IsKept-objects :
      (r : StoredFile) (w v u : World storage.Objects)
      → v.objects ≡ w.objects
      → IsKept r v u
      → IsKept r w u
  IsKept-objects r w v u e h = record {
    row = h.row;
    object = h.object ∙ ap (storage.inspect r.storage_key) e;
  }

  sweep_file-IsKept :
      (r file : StoredFile) (now : ℕ) (w : World storage.Objects)
      → file.id ≢ r.id
      → file.storage_key ≢ r.storage_key
      → Memᴰ r w.files
      → IsKept r w (sweep_file prisma storage file now w).1
  unfolding sweep_file
  sweep_file-IsKept r file now w i k m = elim (Bool-cases (status_eq file.status pending)) [
    | inl p ↦
        elim (Bool-cases
          (compare_and_save prisma (discard never_uploaded now file) pending w.files).0) [
            | inl won ↦
                rw (p, won)
                  (continue-IsKept r w _ (
                    IsKept-objects r w claimed _ refl (remove_file-IsKept r file claimed i k kept)))
            | inr lost ↦ rw (p, lost) (record { row = kept; object = refl })
          ]
    | inr q ↦ rw q (continue-IsKept r w _ (remove_file-IsKept r file w i k m))
  ]
    where
      claimed : World storage.Objects
      claimed = record w {
        files = (compare_and_save prisma (discard never_uploaded now file) pending w.files).1;
      }

      kept : Memᴰ r claimed.files
      kept = rw (compare_and_save_lem prisma (discard never_uploaded now file) pending w.files) (
          mem-patch (is_expected (discard never_uploaded now file) pending) _ w.files m
            (ground (arith, discard-id never_uploaded now file)))

  -- A candidate that shares neither identifier nor key with the row.
  abbrev IsApart : StoredFile → StoredFile → Type 0
  IsApart r f = (f.id ≢ r.id) × (f.storage_key ≢ r.storage_key)

  IsKept-trans :
      (r : StoredFile) (u v w : World storage.Objects) → IsKept r u v → IsKept r v w → IsKept r u w
  IsKept-trans r u v w h k = record { row = k.row; object = k.object ∙ h.object }

  sweep-IsKept :
      (r : StoredFile) (stale : List StoredFile) (now removed : ℕ) (w : World storage.Objects)
      → All (IsApart r) stale
      → Memᴰ r w.files
      → IsKept r w (sweep prisma storage stale now removed w).1
  unfolding sweep
  sweep-IsKept r [] now removed w h m = record { row = m; object = refl }
  sweep-IsKept r (f ∷ stale) now removed w h m =
      onwards (sweep_file prisma storage f now w) (sweep_file-IsKept r f now w h.0.0 h.0.1 m)
        (λ n v. sweep-IsKept r stale now n v h.1)
    where
      onwards :
          (out : Result Bool × World storage.Objects)
          → IsKept r w out.1
          → ((n : ℕ) (v : World storage.Objects)
              → Memᴰ r v.files
              → IsKept r v (sweep prisma storage stale now n v).1)
          → IsKept r w
              (continue out (λ swept.
                sweep prisma storage stale now (if swept then removed + 1 else removed))).1
      onwards (ok swept, v) kept ih =
          IsKept-trans r w v _ kept (ih (if swept then removed + 1 else removed) v kept.row)
      onwards (throw e, v) kept ih = kept

  candidate-ne-confirmed :
      (older_than : ℕ) (f : StoredFile)
      → is_cleanup_candidate older_than f ≡ true
      → f.status ≢ confirmed
  candidate-ne-confirmed older_than f e c = ground arith

  -- A row that is confirmed is no candidate, and shares nothing with one.
  candidates-IsApart :
      (r : StoredFile) (older_than : ℕ) (files : List StoredFile)
      → IsUnique collides files
      → Memᴰ r files
      → r.status ≡ confirmed
      → All (IsApart r) (find_cleanup_candidates prisma older_than sweep_batch_size files)
  unfolding find_cleanup_candidates
  candidates-IsApart r older_than files u m c = All-image (IsApart r) to_aggregate _ (
      All-take (IsApart r) sweep_batch_size _ (
        All-perm (IsApart r) (prisma.order_by-perm oldest_first _) (
          All-map apart _ (
            All-keep (λ f. Memᴰ f files) (is_cleanup_candidate older_than) files
              (All-self files)))))
    where
      apart :
          (f : StoredFile) → Memᴰ f files × (is_cleanup_candidate older_than f ≡ true) → IsApart r f
      apart f (n, e) = elim (unique_apart collides collides_comm files u n m) [
        | inl same ↦
            absurd
              (candidate-ne-confirmed older_than f e (ap (λ (y : StoredFile). y.status) same ∙ c))
        | inr distinct ↦ ground (arith, eq_iff f.storage_key r.storage_key)
      ]

-- A sweep never touches a confirmed file, however it ends: the row is still there, and the storage
-- answers for its object what it answered before.
pub expire_stale_keeps_confirmed :
    (prisma : PrismaClient) (storage : FileStorage) (pending_ttl_minutes now : ℕ)
    (w : World storage.Objects) (r : StoredFile)
    → IsUnique collides w.files
    → Memᴰ r w.files
    → r.status ≡ confirmed
    → let v = (expire_stale prisma storage pending_ttl_minutes now w).1 in
      Memᴰ r v.files
      × (storage.inspect r.storage_key v.objects ≡ storage.inspect r.storage_key w.objects)
unfolding expire_stale
expire_stale_keeps_confirmed prisma storage pending_ttl_minutes now w r u m c =
    let kept =
      sweep-IsKept prisma storage r _ now 0 w
        (candidates-IsApart prisma storage r (now - pending_ttl_minutes * minute_ms) w.files u m c)
        m in
    (kept.row, kept.object)
