-- ===== src/Upload/Confirm/Race.antt =====
-- Confirmations that race: each request commits a copy of the row that it loaded at some earlier time.
pub mod Sweepers
pub mod Interleaving
use nestjs_modular_monolith.Common.{
  ℕ, ◌+◌, ◌≡◌, ◌≢◌, refl, ap, ◌∙◌, Bool, true, false, not, ◌&&◌, Bool-cases, inl, inr, Option, List,
  [], ◌∷◌, ◌++◌, arith, ◌==◌, if◌then◌else◌, any, count, count-append, patch, keep, ==_iff,
}
use nestjs_modular_monolith.Errors.{
  Thrown, Result, Result-cases, ok, throw, plain_error, upload_already_confirmed,
}
use nestjs_modular_monolith.Errors.DomainErrors
use nestjs_modular_monolith.Prisma.{PrismaClient, settle}
use nestjs_modular_monolith.Contracts.Events.{
  IntegrationEvent, Moment, Payload, upload_confirmed, upload_confirmed_payload,
  create_integration_event,
}
use nestjs_modular_monolith.Contracts.Publisher.{publish_all, publish_one, to_row}
use nestjs_modular_monolith.Upload.StoredFile.{
  StoredFile, StoredFileStatus, pending, confirmed, discarded, status_eq, ObjectFacts, confirm,
  accept, pull_events,
}
use nestjs_modular_monolith.Upload.StoredFile.Lifecycle.{confirm-eq_accept, confirm_confirmed}
use nestjs_modular_monolith.Upload.Repository.{
  compare_and_save, compare_and_save_lem, delete_by_id, delete_by_id_lem, is_expected,
  write_outcome,
}
use nestjs_modular_monolith.Upload.Confirm.{
  Tables, commit, settle_confirmation, store_confirmation, to_integration_events,
}

abbrev pub announces_payload : ℕ → Payload → Bool
announces_payload id (upload_confirmed_payload p) = p.file_id == id
announces_payload id _ = false

-- The event says that this file was confirmed.
abbrev pub announces : ℕ → IntegrationEvent → Bool
announces id e = announces_payload id e.payload

abbrev pub is_confirmed : ℕ → StoredFile → Bool
is_confirmed id r = r.id == id && status_eq r.status confirmed

-- Each file has as many announcements as confirmed rows.
abbrev pub IsBalanced : Tables → Type 0
IsBalanced w = (id : ℕ) → count (announces id) w.outbox ≡ count (is_confirmed id) w.files

-- A write of `confirmed` over pending rows.
count_accepted :
    (file : StoredFile) (id : ℕ) (files : List StoredFile)
    → file.status ≡ confirmed
    → count (is_confirmed id) (patch (is_expected file pending) (write_outcome file) files)
      ≡ count (is_confirmed id) files
        + (if file.id == id then count (is_expected file pending) files else 0)
count_accepted file id [] e = ground arith
count_accepted file id (r ∷ files) e = ground (arith, count_accepted file id files e)

-- A write of `discarded` over rows that are not confirmed.
count_discarded :
    (file : StoredFile) (expected : StoredFileStatus) (id : ℕ) (files : List StoredFile)
    → file.status ≡ discarded
    → expected ≢ confirmed
    → count (is_confirmed id) (patch (is_expected file expected) (write_outcome file) files)
      ≡ count (is_confirmed id) files
count_discarded file expected id [] e h = refl
count_discarded file expected id (r ∷ files) e h =
    ground (arith, count_discarded file expected id files e h)

count_removed :
    (id j : ℕ) (files : List StoredFile)
    → count (is_confirmed id) files ≡ 0
    → count (is_confirmed j) (keep (λ r. not (r.id == id)) files) ≡ count (is_confirmed j) files
count_removed id j [] h = refl
count_removed id j (r ∷ files) h = ground (arith, count_removed id j files)

-- The announcement of a file that was loaded and then confirmed.
pub announcement : StoredFile → Option ℕ → Moment → IntegrationEvent
announcement loaded correlation_id m =
    create_integration_event upload_confirmed
      (upload_confirmed_payload (record {
        file_id = loaded.id;
        organization_id = loaded.organization_id;
        owner_id = loaded.owner_id;
        storage_key = loaded.storage_key;
        mime_type = loaded.declared_mime_type;
        size_bytes = loaded.declared_size_bytes;
        confirmed_at = m.now;
      }))
      correlation_id m.event_id m.now

-- The row as it is written.
abbrev pub accepted : StoredFile → Moment → StoredFile
accepted loaded m = accept loaded.declared_mime_type loaded.declared_size_bytes m.now loaded

accepted-announcement :
    (loaded : StoredFile) (correlation_id : Option ℕ) (m : Moment)
    → loaded.events ≡ []
    → to_integration_events (pull_events (accepted loaded m)).0 correlation_id m
      ≡ announcement loaded correlation_id m ∷ []
unfolding to_integration_events pull_events accept announcement
accepted-announcement loaded correlation_id m e = rw e

-- No event of the outbox has the identifier of the moment.
abbrev pub IsFresh : Moment → Tables → Type 0
IsFresh m w = any (λ (e : IntegrationEvent). m.event_id == e.event_id) w.outbox ≡ false

announces-announcement :
    (id : ℕ) (loaded : StoredFile) (correlation_id : Option ℕ) (m : Moment)
    → announces id (announcement loaded correlation_id m) ≡ loaded.id == id
unfolding announcement create_integration_event
announces-announcement id loaded correlation_id m = refl

-- The three ends of a commit that passed: no row was pending any more, or the contract refuses the
-- event, or the file is stored.
abbrev pub ends : ℕ → Bool → StoredFile → Tables → Tables → Result StoredFile × Tables
ends met parsed file after before =
    if not (met == 1)
    then (throw (DomainErrors.conflict upload_already_confirmed true), before)
    else if parsed
    then (ok file, after)
    else (throw plain_error, before)

ends-IsBalanced :
    (met : ℕ) (parsed : Bool) (file : StoredFile) (after before : Tables)
    → (met ≡ 1 → IsBalanced after)
    → IsBalanced before
    → IsBalanced (ends met parsed file after before).1
ends-IsBalanced met true file after before g h = elim (Bool-cases (met == 1)) [
  | inl one ↦ rw one (g ((==_iff met 1).0 one))
  | inr other ↦ rw other h
]
ends-IsBalanced met false file after before g h = elim (Bool-cases (met == 1)) [
  | inl one ↦ rw one h
  | inr other ↦ rw other h
]

module _ (prisma : PrismaClient) (parses : IntegrationEvent → Bool) where
  -- The tables after a commit that went through.
  abbrev pub committed : StoredFile → Option ℕ → Moment → Tables → Tables
  committed loaded correlation_id m w = record {
    files = patch (is_expected loaded pending) (write_outcome (accepted loaded m)) w.files;
    outbox = w.outbox ++ to_row (announcement loaded correlation_id m) ∷ [];
  }

  publish_announcement :
      (loaded : StoredFile) (correlation_id : Option ℕ) (m : Moment) (w : Tables)
      → loaded.events ≡ []
      → IsFresh m w
      → publish_all prisma parses
          (to_integration_events (pull_events (accepted loaded m)).0 correlation_id m)
          w.outbox
        ≡ (if parses (announcement loaded correlation_id m)
            then (ok tt, w.outbox ++ to_row (announcement loaded correlation_id m) ∷ [])
            else (throw plain_error, w.outbox))
  unfolding announcement create_integration_event
  publish_announcement loaded correlation_id m w none_yet fresh =
      rw (accepted-announcement loaded correlation_id m none_yet)
        (publish_one prisma parses (announcement loaded correlation_id m) w.outbox fresh)

  store_confirmation_lem :
      (loaded : StoredFile) (correlation_id : Option ℕ) (m : Moment) (w : Tables)
      → loaded.events ≡ []
      → IsFresh m w
      → settle w (store_confirmation prisma parses (accepted loaded m) pending correlation_id m w)
        ≡ ends
            (count (is_expected loaded pending) w.files)
            (parses (announcement loaded correlation_id m))
            (record (accepted loaded m) { events = [] })
            (committed loaded correlation_id m w)
            w
  unfolding store_confirmation pull_events accept
  store_confirmation_lem loaded correlation_id m w none_yet fresh =
      rw (compare_and_save_lem prisma (accepted loaded m) pending w.files)
        (rw (publish_announcement loaded correlation_id m w none_yet fresh) (ground arith))

  -- A commit whose bytes pass, in full: it stores and announces the file if exactly one row is still
  -- pending, and otherwise writes nothing.
  pub commit-accepted :
      (loaded : StoredFile) (facts : ObjectFacts) (correlation_id : Option ℕ) (m : Moment)
      (w : Tables)
      → loaded.events ≡ []
      → IsFresh m w
      → (confirm facts m.now loaded).0 ≡ ok tt
      → commit prisma parses loaded facts correlation_id m w
        ≡ ends
            (count (is_expected loaded pending) w.files)
            (parses (announcement loaded correlation_id m))
            (record (accepted loaded m) { events = [] })
            (committed loaded correlation_id m w)
            w
  unfolding commit settle_confirmation
  commit-accepted loaded facts correlation_id m w none_yet fresh passed =
      let (was, now_is) = confirm-eq_accept facts m.now loaded passed in
      rw (passed, now_is)
        (ap
            (λ s.
              prisma.transaction
                (store_confirmation prisma parses (accepted loaded m) s correlation_id m) w)
            was
          ∙ prisma.transaction-eq
              (store_confirmation prisma parses (accepted loaded m) pending correlation_id m) w
          ∙ store_confirmation_lem loaded correlation_id m w none_yet fresh)

  committed-IsBalanced :
      (loaded : StoredFile) (correlation_id : Option ℕ) (m : Moment) (w : Tables)
      → count (is_expected loaded pending) w.files ≡ 1
      → IsBalanced w
      → IsBalanced (committed loaded correlation_id m w)
  unfolding accept
  committed-IsBalanced loaded correlation_id m w one h id = ground (
    arith,
    count-append (announces id) w.outbox (to_row (announcement loaded correlation_id m) ∷ []),
    announces-announcement id loaded correlation_id m,
    count_accepted (accepted loaded m) id w.files,
    h id,
  )

  -- A commit whose bytes do not pass leaves the announcements and the confirmed rows as they are.
  commit_refused :
      (loaded : StoredFile) (facts : ObjectFacts) (correlation_id : Option ℕ) (m : Moment)
      (w : Tables) (e : Thrown)
      → (confirm facts m.now loaded).0 ≡ throw e
      → IsBalanced w
      → IsBalanced (commit prisma parses loaded facts correlation_id m w).1
  unfolding commit settle_confirmation
  commit_refused loaded facts correlation_id m w e failed h id = rw failed (
      ground (
        arith,
        h id,
        confirm_confirmed facts m.now loaded,
        compare_and_save_lem prisma (confirm facts m.now loaded).1 loaded.status w.files,
        count_discarded (confirm facts m.now loaded).1 loaded.status id w.files,
      ))

  -- Announcements stay in step with confirmed rows across every commit, whatever copy of the row the
  -- request loaded and however long ago, whatever the storage answered: a copy with no events and a
  -- fresh event identifier are all that it needs.
  pub commit-IsBalanced :
      (loaded : StoredFile) (facts : ObjectFacts) (correlation_id : Option ℕ) (m : Moment)
      (w : Tables)
      → loaded.events ≡ []
      → IsFresh m w
      → IsBalanced w
      → IsBalanced (commit prisma parses loaded facts correlation_id m w).1
  commit-IsBalanced loaded facts correlation_id m w none_yet fresh h =
      elim (Result-cases (confirm facts m.now loaded).0) [
        | inl passed ↦ rw (commit-accepted loaded facts correlation_id m w none_yet fresh passed) (
            ends-IsBalanced _ _ _ _ w (λ one. committed-IsBalanced loaded correlation_id m w one h)
              h)
        | inr (e, failed) ↦ commit_refused loaded facts correlation_id m w e failed h
      ]
