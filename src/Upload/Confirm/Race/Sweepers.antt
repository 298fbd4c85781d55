-- ===== src/Upload/Confirm/Race/Sweepers.antt =====
-- What writes of the table leave of a file that no request can confirm any more.
use nestjs_modular_monolith.Common.{
  ℕ, ◌+◌, ◌≤◌, ◌≡◌, refl, sym, ap, ◌∙◌, subst, ◌⊎◌, inl, inr, Bool, true, false, not, ◌&&◌, ◌||◌,
  Option, List, [], ◌∷◌, ◌++◌, Memᴰ, arith, ◌==◌, any, count, count-append, patch, keep, All,
  All-map, Bool-cases,
}
use nestjs_modular_monolith.Prisma.{PrismaClient}
use nestjs_modular_monolith.Prisma.Rows.{All-image, All-perm, All-take, All-keep, All-self}
use nestjs_modular_monolith.Upload.StoredFile.{
  StoredFile, StoredFileStatus, pending, discarded, status_eq, ObjectFacts, confirm, accept,
}
use nestjs_modular_monolith.Upload.Repository.{
  to_aggregate, is_expected, write_outcome, find_cleanup_candidates, is_cleanup_candidate,
  oldest_first, compare_and_save_lem, collides,
}
use nestjs_modular_monolith.Upload.Confirm.Race.{
  is_confirmed, IsFresh, ends, accepted, committed, commit-accepted,
}
use nestjs_modular_monolith.Upload.Confirm.{Tables, commit, settle_confirmation}
use nestjs_modular_monolith.Contracts.Events.{IntegrationEvent, Moment}
use nestjs_modular_monolith.Errors.{Thrown, Result-cases, throw}

abbrev pub has_id : ℕ → StoredFile → Bool
has_id id r = r.id == id

-- The row of this file, where it is confirmed or may still be.
abbrev pub is_live : ℕ → StoredFile → Bool
is_live id r = r.id == id && not (status_eq r.status discarded)

abbrev pub IsDead : List StoredFile → ℕ → Type 0
IsDead files id = count (is_live id) files ≡ 0

-- A write that adds no row, and after which a file that could not be confirmed still cannot.
abbrev pub Keeps : List StoredFile → List StoredFile → Type 0
Keeps before after =
    ((id : ℕ) → count (has_id id) after ≤ count (has_id id) before)
    × ((id : ℕ) → IsDead before id → IsDead after id)

pub Keeps-refl : (files : List StoredFile) → Keeps files files
Keeps-refl files = (λ id. omega arith, λ id h. h)

patch-has_id :
    (file : StoredFile) (expected : StoredFileStatus) (id : ℕ) (files : List StoredFile)
    → count (has_id id) (patch (is_expected file expected) (write_outcome file) files)
      ≤ count (has_id id) files
patch-has_id file expected id [] = omega arith
patch-has_id file expected id (r ∷ files) = ground (arith, patch-has_id file expected id files)

IsDead-pending :
    (file : StoredFile) (id : ℕ) (files : List StoredFile)
    → IsDead files id
    → IsDead (patch (is_expected file pending) (write_outcome file) files) id
IsDead-pending file id [] h = refl
IsDead-pending file id (r ∷ files) h = ground (arith, IsDead-pending file id files)

IsDead-discarded :
    (file : StoredFile) (expected : StoredFileStatus) (id : ℕ) (files : List StoredFile)
    → file.status ≡ discarded
    → IsDead files id
    → IsDead (patch (is_expected file expected) (write_outcome file) files) id
IsDead-discarded file expected id [] e h = refl
IsDead-discarded file expected id (r ∷ files) e h =
    ground (arith, IsDead-discarded file expected id files e)

-- The write of `compareAndSave`, over pending rows or of the status `discarded`.
pub patch-Keeps :
    (file : StoredFile) (expected : StoredFileStatus) (files : List StoredFile)
    → (expected ≡ pending) ⊎ (file.status ≡ discarded)
    → Keeps files (patch (is_expected file expected) (write_outcome file) files)
patch-Keeps file expected files (inl e) = (
  λ id. patch-has_id file expected id files,
  λ id h.
      subst (λ s. IsDead (patch (is_expected file s) (write_outcome file) files) id) (sym e)
        (IsDead-pending file id files h),
)
patch-Keeps file expected files (inr e) =
    (λ id. patch-has_id file expected id files, λ id. IsDead-discarded file expected id files e)

keep-has_id :
    (p : StoredFile → Bool) (id : ℕ) (files : List StoredFile)
    → count (has_id id) (keep p files) ≤ count (has_id id) files
keep-has_id p id [] = omega arith
keep-has_id p id (r ∷ files) = ground (arith, keep-has_id p id files)

IsDead-kept :
    (p : StoredFile → Bool) (id : ℕ) (files : List StoredFile)
    → IsDead files id
    → IsDead (keep p files) id
IsDead-kept p id [] h = refl
IsDead-kept p id (r ∷ files) h = ground (arith, IsDead-kept p id files)

pub keep-Keeps : (p : StoredFile → Bool) (files : List StoredFile) → Keeps files (keep p files)
keep-Keeps p files = (λ id. keep-has_id p id files, λ id. IsDead-kept p id files)

-- A file that cannot be confirmed any more is not confirmed.
pub confirmed_live :
    (id : ℕ) (files : List StoredFile) → count (is_confirmed id) files ≤ count (is_live id) files
confirmed_live id [] = omega arith
confirmed_live id (r ∷ files) = ground (arith, confirmed_live id files)

-- What the claim of a sweeper leaves: each row that it took is dead.
pub claimed_dead :
    (file : StoredFile) (expected : StoredFileStatus) (files : List StoredFile)
    → file.status ≡ discarded
    → count (is_live file.id) (patch (is_expected file expected) (write_outcome file) files)
        + count (is_expected file expected) files
      ≤ count (has_id file.id) files
claimed_dead file expected [] e = omega arith
claimed_dead file expected (r ∷ files) e = ground (arith, claimed_dead file expected files e)

live_has_id :
    (id : ℕ) (files : List StoredFile) → count (is_live id) files ≤ count (has_id id) files
live_has_id id [] = omega arith
live_has_id id (r ∷ files) = ground (arith, live_has_id id files)

discarded_dead :
    (file : StoredFile) {files : List StoredFile}
    → Memᴰ file files
    → file.status ≡ discarded
    → count (is_live file.id) files + 1 ≤ count (has_id file.id) files
discarded_dead file (Memᴰ.head {x} {xs} same) e =
    let same_id : x.id ≡ file.id = sym (ap (λ (y : StoredFile). y.id) same) in
    let same_status : x.status ≡ discarded = sym (ap (λ (y : StoredFile). y.status) same) ∙ e in
    ground (arith, live_has_id file.id xs, same_id, same_status)
discarded_dead file (Memᴰ.tail {x} {xs} m) e = ground (arith, discarded_dead file m e)

-- The sweeper's list: a row of it that is not pending cannot be confirmed.
abbrev pub IsSettled : List StoredFile → StoredFile → Type 0
IsSettled files f = status_eq f.status pending ≡ false → IsDead files f.id

pub candidates-IsSettled :
    (prisma : PrismaClient) (older_than limit : ℕ) (files : List StoredFile)
    → ((id : ℕ) → count (has_id id) files ≤ 1)
    → All (IsSettled files) (find_cleanup_candidates prisma older_than limit files)
unfolding find_cleanup_candidates
candidates-IsSettled prisma older_than limit files one =
    All-image (IsSettled files) to_aggregate _ (
      All-take (IsSettled files) limit _ (
        All-perm (IsSettled files) (prisma.order_by-perm oldest_first _) (
          All-map settled _ (
            All-keep (λ f. Memᴰ f files) (is_cleanup_candidate older_than) files
              (All-self files)))))
  where
    discarded_candidate :
        (f : StoredFile)
        → is_cleanup_candidate older_than f ≡ true
        → status_eq f.status pending ≡ false
        → f.status ≡ discarded
    discarded_candidate f c p = ground arith

    settled :
        (f : StoredFile)
        → Memᴰ f files × (is_cleanup_candidate older_than f ≡ true)
        → IsSettled files f
    settled f (m, c) p = ground (arith, discarded_dead f m (discarded_candidate f c p), one f.id)

-- A row that is added under an identifier that no row has.
pub has_id_added :
    (row : StoredFile) (id : ℕ) (files : List StoredFile)
    → any (collides row) files ≡ false
    → count (has_id id) files ≤ 1
    → count (has_id id) (files ++ row ∷ []) ≤ 1
has_id_added row id files fresh one =
    ground (arith, count-append (has_id id) files (row ∷ []), unmet files fresh)
  where
    unmet :
        (t : List StoredFile) → any (collides row) t ≡ false → row.id ≡ id → count (has_id id) t ≡ 0
    unmet [] e same = refl
    unmet (r ∷ t) e same = ground (arith, unmet t)

IsDead-added :
    (row : StoredFile) (id : ℕ) (files : List StoredFile)
    → (id == row.id) ≡ false
    → IsDead files id
    → IsDead (files ++ row ∷ []) id
IsDead-added row id files other h = ground (arith, count-append (is_live id) files (row ∷ []))

||-eq-false : (a b : Bool) → (a || b) ≡ false → (a ≡ false) × (b ≡ false)
||-eq-false a b h = ground arith

pub settled_added :
    (row : StoredFile) (files listed : List StoredFile)
    → any (λ (f : StoredFile). f.id == row.id) listed ≡ false
    → All (IsSettled files) listed
    → All (IsSettled (files ++ row ∷ [])) listed
settled_added row files [] new h = tt
settled_added row files (f ∷ listed) new h =
    let (other, rest) = ||-eq-false (f.id == row.id) _ new in
    (λ p. IsDead-added row f.id files other (h.0 p), settled_added row files listed rest h.1)

pub removals_added :
    (row : StoredFile) (files : List StoredFile) (removals : List ℕ)
    → any (λ id. id == row.id) removals ≡ false
    → All (IsDead files) removals
    → All (IsDead (files ++ row ∷ [])) removals
removals_added row files [] new h = tt
removals_added row files (id ∷ removals) new h =
    let (other, rest) = ||-eq-false (id == row.id) _ new in
    (IsDead-added row id files other h.0, removals_added row files removals rest h.1)

module _ (prisma : PrismaClient) (parses : IntegrationEvent → Bool) where
  commit_refused-Keeps :
      (loaded : StoredFile) (facts : ObjectFacts) (correlation_id : Option ℕ) (m : Moment)
      (w : Tables) (e : Thrown)
      → (confirm facts m.now loaded).0 ≡ throw e
      → Keeps w.files (commit prisma parses loaded facts correlation_id m w).1.files
  unfolding commit settle_confirmation
  commit_refused-Keeps loaded facts correlation_id m w e failed =
      let file = (confirm facts m.now loaded).1 in
      rw failed (elim (Bool-cases (status_eq file.status discarded)) [
        | inr other ↦ rw other (Keeps-refl w.files)
        | inl gone ↦
            rw (gone, compare_and_save_lem prisma file loaded.status w.files)
              (patch-Keeps file loaded.status w.files (inr (ground arith)))
      ])

  ends-Keeps :
      (met : ℕ) (parsed : Bool) (file : StoredFile) (after before : Tables)
      → Keeps before.files after.files
      → Keeps before.files (ends met parsed file after before).1.files
  ends-Keeps met true file after before k = elim (Bool-cases (met == 1)) [
    | inl one ↦ rw one k
    | inr other ↦ rw other (Keeps-refl before.files)
  ]
  ends-Keeps met false file after before k = elim (Bool-cases (met == 1)) [
    | inl one ↦ rw one (Keeps-refl before.files)
    | inr other ↦ rw other (Keeps-refl before.files)
  ]

  -- A commit of whatever copy brings no file back that could not be confirmed.
  pub commit-Keeps :
      (loaded : StoredFile) (facts : ObjectFacts) (correlation_id : Option ℕ) (m : Moment)
      (w : Tables)
      → loaded.events ≡ []
      → IsFresh m w
      → Keeps w.files (commit prisma parses loaded facts correlation_id m w).1.files
  unfolding accept
  commit-Keeps loaded facts correlation_id m w none_yet fresh =
      elim (Result-cases (confirm facts m.now loaded).0) [
        | inl passed ↦
            rw (commit-accepted prisma parses loaded facts correlation_id m w none_yet fresh passed)
              (ends-Keeps _ _ _ (committed prisma parses loaded correlation_id m w) w
                (patch-Keeps (accepted loaded m) pending w.files (inl refl)))
        | inr (e, failed) ↦ commit_refused-Keeps loaded facts correlation_id m w e failed
      ]
