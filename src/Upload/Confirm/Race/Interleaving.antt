-- ===== src/Upload/Confirm/Race/Interleaving.antt =====
-- Any number of requests and sweepers at once, as a relation of steps.
use nestjs_modular_monolith.Common.{
  ℕ, ◌≤◌, ◌≡◌, refl, inl, inr, Bool, true, false, Bool-cases, Option, List, [], ◌∷◌, ◌++◌, Memᴰ,
  arith, ◌==◌, if◌then◌else◌, any, count, count-append, patch, All, All-map, All-mem, All-append,
}
use nestjs_modular_monolith.Prisma.{PrismaClient}
use nestjs_modular_monolith.Contracts.Events.{IntegrationEvent, Moment}
use nestjs_modular_monolith.Upload.StoredFile.{
  StoredFile, pending, discarded, status_eq, ObjectFacts, discard, never_uploaded,
}
use nestjs_modular_monolith.Upload.Repository.{
  save, compare_and_save_lem, delete_by_id, delete_by_id_lem, find_cleanup_candidates, is_expected,
  write_outcome, to_aggregate, collides,
}
use nestjs_modular_monolith.Upload.Confirm.{Tables, commit}
use nestjs_modular_monolith.Upload.Sweep.{claim_stale}
use nestjs_modular_monolith.Upload.Confirm.Race.{
  IsBalanced, IsFresh, is_confirmed, count_removed, count_discarded, commit-IsBalanced,
}
use nestjs_modular_monolith.Upload.Confirm.Race.Sweepers.{
  has_id, IsDead, IsSettled, Keeps, patch-Keeps, keep-Keeps, confirmed_live, claimed_dead,
  has_id_added, settled_added, removals_added, candidates-IsSettled, commit-Keeps,
}

-- The tables of the module, and how far the sweepers are: `listed` has the rows that some sweeper has
-- loaded, as it loaded them, and `removals` the files for which the body of some sweeper's loop went
-- on. Neither ever shrinks, so that a sweeper may be slow for any time, or stop where the storage fails.
pub record System : Type 0 where
  pub tables : Tables
  pub listed : List StoredFile
  pub removals : List ℕ

abbrev pub with_files : System → List StoredFile → System
with_files s files = record s { tables = record s.tables { files = files } }

pub data Step (prisma : PrismaClient) (parses : IntegrationEvent → Bool)
    : System → System → Type 0 where
  -- A request commits a copy that it loaded earlier.
  commits :
      (loaded : StoredFile) (facts : ObjectFacts) (correlation_id : Option ℕ) (m : Moment)
      (s : System)
      → loaded.events ≡ []
      → IsFresh m s.tables
      → Step prisma parses s
          (record s { tables = (commit prisma parses loaded facts correlation_id m s.tables).1 })
  -- A new upload is presigned, under an identifier that no sweeper has met.
  presigns :
      (row : StoredFile) (s : System)
      → row.status ≡ pending
      → any (λ (f : StoredFile). f.id == row.id) s.listed ≡ false
      → any (λ id. id == row.id) s.removals ≡ false
      → Step prisma parses s (with_files s (save prisma row s.tables.files).1)
  -- A sweeper loads its candidates.
  lists :
      (older_than limit : ℕ) (s : System)
      → Step prisma parses s (record s {
        listed = find_cleanup_candidates prisma older_than limit s.tables.files ++ s.listed;
      })
  -- A sweeper goes through the head of its loop's body, with a file that it loaded; the answer decides
  -- whether it goes on to remove the file.
  claims :
      (file : StoredFile) (now : ℕ) (s : System)
      → Memᴰ file s.listed
      → Step prisma parses s (record (with_files s (claim_stale prisma file now s.tables.files).1) {
        removals =
            if (claim_stale prisma file now s.tables.files).0
            then file.id ∷ s.removals
            else s.removals;
      })
  -- A sweeper that went on deletes the row, whatever has happened since.
  removes :
      (id : ℕ) (s : System)
      → Memᴰ id s.removals
      → Step prisma parses s (with_files s (delete_by_id prisma id s.tables.files))

pub data Reach (prisma : PrismaClient) (parses : IntegrationEvent → Bool) (s : System)
    : System → Type 0 where
  here : Reach prisma parses s s
  next : {t u : System} → Reach prisma parses s t → Step prisma parses t u → Reach prisma parses s u

-- Besides the balance: identifiers are unique, and what a sweeper goes on to remove, or has found to be
-- discarded, cannot be confirmed any more.
record IsSafe (s : System) : Type 0 where
  balanced : IsBalanced s.tables
  one_row : (id : ℕ) → count (has_id id) s.tables.files ≤ 1
  listed : All (IsSettled s.tables.files) s.listed
  removals : All (IsDead s.tables.files) s.removals

Keeps-IsSafe :
    (s : System) (tables : Tables)
    → Keeps s.tables.files tables.files
    → IsBalanced tables
    → IsSafe s
    → IsSafe (record s { tables = tables })
Keeps-IsSafe s tables k b h = record {
  balanced = b;
  one_row = λ id. ground (arith, k.0 id, h.one_row id);
  listed =
      All-map {Q = IsSettled tables.files} (λ (f : StoredFile) settled p. k.1 f.id (settled p))
        s.listed h.listed;
  removals = All-map {Q = IsDead tables.files} (λ id. k.1 id) s.removals h.removals;
}

discard_pending :
    (file : StoredFile) (now : ℕ)
    → status_eq file.status pending ≡ true
    → ((discard never_uploaded now file).status ≡ discarded)
      × ((discard never_uploaded now file).id ≡ file.id)
unfolding discard
discard_pending file now p = rw p (refl, refl)

claimed-IsSafe :
    (s : System) (stale : StoredFile) (id : ℕ)
    → stale.status ≡ discarded
    → stale.id ≡ id
    → IsSafe s
    → let met = count (is_expected stale pending) s.tables.files in
      let files = patch (is_expected stale pending) (write_outcome stale) s.tables.files in
      IsSafe (record (with_files s files) {
        removals = if met == 1 then id ∷ s.removals else s.removals;
      })
claimed-IsSafe s stale id gone same h =
    let files = patch (is_expected stale pending) (write_outcome stale) s.tables.files in
    let kept : IsSafe (with_files s files) =
      Keeps-IsSafe s (record s.tables { files = files })
        (patch-Keeps stale pending s.tables.files (inl refl))
        (λ j. ground (arith, count_discarded stale pending j s.tables.files, h.balanced j)) h in
    elim (Bool-cases (count (is_expected stale pending) s.tables.files == 1)) [
      | inr other ↦ rw other kept
      | inl one ↦ rw one (record {
        balanced = kept.balanced;
        one_row = kept.one_row;
        listed = kept.listed;
        removals = (
          ground (arith, claimed_dead stale pending s.tables.files gone, h.one_row id),
          kept.removals,
        );
      })
    ]

module _ (prisma : PrismaClient) where
  save-IsSafe :
      (row : StoredFile) (s : System)
      → row.status ≡ pending
      → any (λ (f : StoredFile). f.id == row.id) s.listed ≡ false
      → any (λ id. id == row.id) s.removals ≡ false
      → IsSafe s
      → IsSafe (with_files s (save prisma row s.tables.files).1)
  unfolding save
  save-IsSafe row s p new_listed new_removals h =
      let created = prisma.create-eq collides (to_aggregate row) s.tables.files in
      elim (Bool-cases (any (collides (to_aggregate row)) s.tables.files)) [
        | inl clash ↦ rw (created, clash) h
        | inr fresh ↦
            rw (created, fresh)
              (record {
                balanced = λ id. ground (
                  arith,
                  count-append (is_confirmed id) s.tables.files (to_aggregate row ∷ []),
                  h.balanced id,
                );
                one_row =
                    λ id. has_id_added (to_aggregate row) id s.tables.files fresh (h.one_row id);
                listed =
                    settled_added (to_aggregate row) s.tables.files s.listed new_listed h.listed;
                removals =
                    removals_added (to_aggregate row) s.tables.files s.removals new_removals
                      h.removals;
              })
      ]

  claims-IsSafe :
      (file : StoredFile) (now : ℕ) (s : System)
      → IsSettled s.tables.files file
      → IsSafe s
      → IsSafe (record (with_files s (claim_stale prisma file now s.tables.files).1) {
        removals =
            if (claim_stale prisma file now s.tables.files).0
            then file.id ∷ s.removals
            else s.removals;
      })
  claims-IsSafe file now s settled h = elim (Bool-cases (status_eq file.status pending)) [
    | inr other ↦ rw other (record {
      balanced = h.balanced;
      one_row = h.one_row;
      listed = h.listed;
      removals = (settled other, h.removals);
    })
    | inl waiting ↦
        let (gone, same) = discard_pending file now waiting in
        let stale = discard never_uploaded now file in
        rw (waiting, compare_and_save_lem prisma stale pending s.tables.files)
          (claimed-IsSafe s stale file.id gone same h)
  ]

module _ {prisma : PrismaClient} {parses : IntegrationEvent → Bool} where
  Step-IsSafe : {s t : System} → Step prisma parses s t → IsSafe s → IsSafe t
  Step-IsSafe (commits loaded facts correlation_id m s e fresh) h =
      Keeps-IsSafe s _ (commit-Keeps prisma parses loaded facts correlation_id m s.tables e fresh)
        (commit-IsBalanced prisma parses loaded facts correlation_id m s.tables e fresh h.balanced)
        h
  Step-IsSafe (presigns row s p new_listed new_removals) h =
      save-IsSafe prisma row s p new_listed new_removals h
  Step-IsSafe (lists older_than limit s) h = record {
    balanced = h.balanced;
    one_row = h.one_row;
    listed =
        All-append (IsSettled s.tables.files)
          (find_cleanup_candidates prisma older_than limit s.tables.files) s.listed
          (candidates-IsSettled prisma older_than limit s.tables.files h.one_row) h.listed;
    removals = h.removals;
  }
  Step-IsSafe (claims file now s m) h =
      claims-IsSafe prisma file now s (All-mem (IsSettled s.tables.files) s.listed h.listed m) h
  Step-IsSafe (removes id s m) h =
      let dead = All-mem (IsDead s.tables.files) s.removals h.removals m in
      let none_confirmed : count (is_confirmed id) s.tables.files ≡ 0 =
        ground (arith, confirmed_live id s.tables.files) in
      rw (delete_by_id_lem prisma id s.tables.files) (
        Keeps-IsSafe s _ (keep-Keeps _ s.tables.files)
          (λ j. rw (count_removed id j s.tables.files none_confirmed) (h.balanced j)) h)

  -- However many requests confirm and presign and however many sweepers run at once, in any order: a
  -- file has as many `uploads.confirmed` events in the outbox as it has confirmed rows, where this was
  -- so, each file had one row, and no sweeper was under way. A sweeper deletes a row at any time after
  -- its claim was answered; the identifiers of new files and of new events are fresh.
  pub Reach-IsBalanced :
      {s t : System}
      → Reach prisma parses s t
      → IsBalanced s.tables
      → ((id : ℕ) → count (has_id id) s.tables.files ≤ 1)
      → s.listed ≡ []
      → s.removals ≡ []
      → IsBalanced t.tables
  Reach-IsBalanced r balanced one_row none_listed none_removed = IsSafe.balanced (
      all_safe r (record {
        balanced = balanced;
        one_row = one_row;
        listed = rw none_listed tt;
        removals = rw none_removed tt;
      }))
    where
      all_safe : {s t : System} → Reach prisma parses s t → IsSafe s → IsSafe t
      all_safe here h = h
      all_safe (next r step) h = Step-IsSafe step (all_safe r h)
