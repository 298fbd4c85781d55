-- ===== src/Upload/Sweep/Orphans.antt =====
-- The sweep removes objects before rows, so no object is left without a row that points at it.
use package.text.Mathlib.TextEquality.{eq_iff}
use nestjs_modular_monolith.Common.{
  ℕ, ◌+◌, ◌-◌, ◌*◌, ◌≡◌, ◌⊎◌, refl, sym, ap, subst, inl, inr, Bool, true, not, Bool-cases, none,
  List, [], ◌∷◌, Memᴰ, arith, ◌==◌, if◌then◌else◌, ℕ_discrete, All, All-map,
}
use nestjs_modular_monolith.Errors.{Result, Result-cases, ok, throw, continue}
use nestjs_modular_monolith.Prisma.{PrismaClient}
use nestjs_modular_monolith.Prisma.Rows.{
  IsUnique, unique_apart, All-image, All-perm, All-take, All-keep, All-self, mem-keep,
  mem-patch_either,
}
use nestjs_modular_monolith.Upload.StoredFile.{
  StoredFile, pending, status_eq, discard, never_uploaded,
}
use nestjs_modular_monolith.Upload.Repository.{
  to_aggregate, collides, collides_comm, is_expected, write_outcome, compare_and_save,
  compare_and_save_lem, delete_by_id_lem, find_cleanup_candidates, oldest_first,
  is_cleanup_candidate,
}
use nestjs_modular_monolith.Upload.Storage.{FileStorage}
use nestjs_modular_monolith.Upload.Sweep.{
  World, remove_file, sweep_file, sweep, expire_stale, sweep_batch_size, minute_ms,
}

module _ (prisma : PrismaClient) (storage : FileStorage) where
  -- A row still points at the object, or the object is gone.
  abbrev pub IsTraced : StoredFile → World storage.Objects → Type 0
  IsTraced r w =
      ((y : StoredFile) × Memᴰ y w.files × (y.id ≡ r.id) × (y.storage_key ≡ r.storage_key))
      ⊎ (storage.inspect r.storage_key w.objects ≡ ok none)

  -- A listed file has the key of the row, if it has its identifier.
  abbrev Agrees : StoredFile → StoredFile → Type 0
  Agrees r f = f.id ≡ r.id → f.storage_key ≡ r.storage_key

  remove_file-IsTraced :
      (r file : StoredFile) (w : World storage.Objects)
      → Agrees r file
      → IsTraced r w
      → IsTraced r (remove_file prisma storage file w).1
  unfolding remove_file
  remove_file-IsTraced r file w agrees (inr none_there) =
      elim (Result-cases (storage.remove file.storage_key w.objects).0) [
        | inl gone ↦
            rw gone
              (inr (storage.remove_absent file.storage_key r.storage_key w.objects none_there))
        | inr (e, failed) ↦
            rw failed
              (inr (storage.remove_absent file.storage_key r.storage_key w.objects none_there))
      ]
  remove_file-IsTraced r file w agrees (inl (y, m, i, k)) =
      elim (Result-cases (storage.remove file.storage_key w.objects).0) [
        | inl gone ↦ rw gone (elim (ℕ_discrete file.id r.id) [
          | yes same ↦ inr (
              subst (λ j. storage.inspect j (storage.remove file.storage_key w.objects).1 ≡ ok none)
                (agrees same) (storage.remove_gone file.storage_key w.objects gone))
          | no other ↦ inl (
            y,
            subst (Memᴰ y) (sym (delete_by_id_lem prisma file.id w.files))
                (mem-keep (λ (z : StoredFile). not (z.id == file.id)) w.files m (ground arith)),
            i,
            k,
          )
        ])
        | inr (e, failed) ↦ rw failed (inl (y, m, i, k))
      ]

  continue-IsTraced :
      (r : StoredFile) (out : Result (Unit {0}) × World storage.Objects)
      → IsTraced r out.1
      → IsTraced r (continue {B = Bool} out (λ _ v. (ok true, v))).1
  continue-IsTraced r (ok _, v) h = h
  continue-IsTraced r (throw e, v) h = h

  claim-IsTraced :
      (r stale : StoredFile) (w : World storage.Objects)
      → IsTraced r w
      → IsTraced r (record w { files = (compare_and_save prisma stale pending w.files).1 })
  claim-IsTraced r stale w (inr gone) = inr gone
  claim-IsTraced r stale w (inl (y, m, i, k)) =
      rw (compare_and_save_lem prisma stale pending w.files)
        (elim (mem-patch_either (is_expected stale pending) (write_outcome stale) w.files m) [
          | inl as_it_was ↦ inl (y, as_it_was, i, k)
          | inr changed ↦ inl (write_outcome stale y, changed, i, k)
        ])

  sweep_file-IsTraced :
      (r file : StoredFile) (now : ℕ) (w : World storage.Objects)
      → Agrees r file
      → IsTraced r w
      → IsTraced r (sweep_file prisma storage file now w).1
  unfolding sweep_file
  sweep_file-IsTraced r file now w agrees h = elim (Bool-cases (status_eq file.status pending)) [
    | inl p ↦
        elim (Bool-cases
          (compare_and_save prisma (discard never_uploaded now file) pending w.files).0) [
            | inl won ↦
                rw (p, won)
                  (continue-IsTraced r _ (
                    remove_file-IsTraced r file _ agrees
                      (claim-IsTraced r (discard never_uploaded now file) w h)))
            | inr lost ↦ rw (p, lost) (claim-IsTraced r (discard never_uploaded now file) w h)
          ]
    | inr q ↦ rw q (continue-IsTraced r _ (remove_file-IsTraced r file w agrees h))
  ]

  sweep-IsTraced :
      (r : StoredFile) (stale : List StoredFile) (now removed : ℕ) (w : World storage.Objects)
      → All (Agrees r) stale
      → IsTraced r w
      → IsTraced r (sweep prisma storage stale now removed w).1
  unfolding sweep
  sweep-IsTraced r [] now removed w h t = t
  sweep-IsTraced r (f ∷ stale) now removed w h t =
      onwards (sweep_file prisma storage f now w) (sweep_file-IsTraced r f now w h.0 t)
        (λ n v. sweep-IsTraced r stale now n v h.1)
    where
      onwards :
          (out : Result Bool × World storage.Objects)
          → IsTraced r out.1
          → ((n : ℕ) (v : World storage.Objects)
              → IsTraced r v
              → IsTraced r (sweep prisma storage stale now n v).1)
          → IsTraced r
              (continue out (λ swept.
                sweep prisma storage stale now (if swept then removed + 1 else removed))).1
      onwards (ok swept, v) traced ih = ih (if swept then removed + 1 else removed) v traced
      onwards (throw e, v) traced ih = traced

  candidates-Agrees :
      (r : StoredFile) (older_than : ℕ) (files : List StoredFile)
      → IsUnique collides files
      → Memᴰ r files
      → All (Agrees r) (find_cleanup_candidates prisma older_than sweep_batch_size files)
  unfolding find_cleanup_candidates
  candidates-Agrees r older_than files u m = All-image (Agrees r) to_aggregate _ (
      All-take (Agrees r) sweep_batch_size _ (
        All-perm (Agrees r) (prisma.order_by-perm oldest_first _) (
          All-map agrees _ (
            All-keep (λ f. Memᴰ f files) (is_cleanup_candidate older_than) files
              (All-self files)))))
    where
      agrees :
          (f : StoredFile) → Memᴰ f files × (is_cleanup_candidate older_than f ≡ true) → Agrees r f
      agrees f (n, e) i = elim (unique_apart collides collides_comm files u n m) [
        | inl same ↦ ap (λ (y : StoredFile). y.storage_key) same
        | inr distinct ↦ absurd (ground (arith, eq_iff f.storage_key r.storage_key))
      ]

-- However a sweep ends, also where the storage fails half way: of every row that was there before,
-- the row is still there, or the storage has no object under its key any more.
pub expire_stale_no_orphan :
    (prisma : PrismaClient) (storage : FileStorage) (pending_ttl_minutes now : ℕ)
    (w : World storage.Objects) (r : StoredFile)
    → IsUnique collides w.files
    → Memᴰ r w.files
    → IsTraced prisma storage r (expire_stale prisma storage pending_ttl_minutes now w).1
unfolding expire_stale
expire_stale_no_orphan prisma storage pending_ttl_minutes now w r u m =
    sweep-IsTraced prisma storage r _ now 0 w
      (candidates-Agrees prisma storage r (now - pending_ttl_minutes * minute_ms) w.files u m)
      (inl (r, m, refl, refl))
