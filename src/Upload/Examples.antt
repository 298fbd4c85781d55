-- ===== src/Upload/Examples.antt =====
-- The theorems on uploads at concrete files, tables and objects.
use Prim.Native.String.{String}
use package.text.Mathlib.Text.{◌==◌ as str_eq}
use package.text.Mathlib.TextEquality.{eq_iff}
use nestjs_modular_monolith.Common.{
  ℕ, ◌≡◌, refl, inl, inr, Bool, true, false, ◌||◌, ◌==◌, Bool-cases, none, some, List, [], ◌∷◌,
  ◌++◌, Memᴰ, arith, if◌then◌else◌, keep,
}
use nestjs_modular_monolith.Errors.{ok}
use nestjs_modular_monolith.Prisma.ListClient.{list_client}
use nestjs_modular_monolith.Prisma.Rows.{IsUnique}
use nestjs_modular_monolith.Text.{literal, trim, split, last}
use nestjs_modular_monolith.Contracts.Events.{IntegrationEvent, Moment, create_integration_event}
use nestjs_modular_monolith.Contracts.Publisher.{publish_all}
use nestjs_modular_monolith.Upload.StoredFile.{
  StoredFile, StoredFileStatus, pending, confirmed, ObjectFacts, PresignInput, presign, is_allowed,
  confirm, accept, pull_events, discard, never_uploaded, sanitise_filename,
}
use nestjs_modular_monolith.Upload.StoredFile.Filename.{IsSafeName, sanitise_filename-IsSafeName}
use nestjs_modular_monolith.Upload.StoredFile.Lifecycle.{
  Call, confirms, discards, pulls, run, IsConsistent, presign-run-IsConsistent,
}
use nestjs_modular_monolith.Upload.Repository.{compare_and_save, find_cleanup_candidates}
use nestjs_modular_monolith.Upload.Storage.{FileStorage}
use nestjs_modular_monolith.Upload.Confirm.{Tables, commit, to_integration_events}
use nestjs_modular_monolith.Upload.Confirm.Race.{IsBalanced, commit-IsBalanced}
use nestjs_modular_monolith.Upload.Confirm.Race.Interleaving.{
  System, with_files, Reach, here, next, commits, lists, claims, Reach-IsBalanced,
}
use nestjs_modular_monolith.Upload.Listing.{ListMyUploadsInput}
use nestjs_modular_monolith.Upload.Sweep.{World, claim_stale, expire_stale, purge}
use nestjs_modular_monolith.Upload.Sweep.Orphans.{IsTraced, expire_stale_no_orphan}
use nestjs_modular_monolith.Upload.Sweep.Purge.{is_other, purge_total}

abbrev facts : ObjectFacts
facts = record { size_bytes = 100; detected_mime_type = some "image/png" }

-- Objects as the set of their keys; all of them have the same content.
abbrev key_storage : FileStorage
key_storage = record {
  Objects = String → Bool;
  inspect = λ k o. ok (if o k then some facts else none);
  remove = λ k o. (ok tt, λ j. if str_eq k j then false else o j);
  remove_gone = λ k o e. ground (arith, eq_iff k k);
  remove_others = λ k j o h. ground (arith, eq_iff k j);
  remove_absent = λ k j o h. elim (Bool-cases (str_eq k j)) [
    | inl same ↦ rw same refl
    | inr other ↦ rw other h
  ];
}

abbrev file_of : ℕ → ℕ → String → StoredFileStatus → StoredFile
file_of id owner key status = record {
  id = id;
  organization_id = 7;
  owner_id = owner;
  storage_key = key;
  filename = literal "a.png";
  declared_mime_type = "image/png";
  declared_size_bytes = 100;
  status = status;
  created_at = 1000;
  verified_mime = none;
  verified_size = none;
  confirmed_at = none;
  events = [];
}

abbrev waiting : StoredFile
waiting = file_of 1 3 "k1" pending

abbrev done : StoredFile
done = file_of 2 4 "k2" confirmed

abbrev one_pending : Tables
one_pending = record { files = waiting ∷ []; outbox = [] }

abbrev noon : Moment
noon = record { now = 5000; event_id = 1 }

abbrev later : Moment
later = record { now = 6000; event_id = 2 }

abbrev accepts_all : IntegrationEvent → Bool
accepts_all e = true

abbrev first_commit : Tables
first_commit = (commit list_client accepts_all waiting facts none noon one_pending).1

-- Two requests and a sweeper have loaded the pending file before any of them writes.
abbrev start : System
start = record { tables = one_pending; listed = []; removals = [] }

abbrev loaded_by_all : System
loaded_by_all = record start {
  listed = find_cleanup_candidates list_client 2000 200 one_pending.files ++ [];
}

abbrev confirmed_first : System
confirmed_first = record loaded_by_all { tables = first_commit }

abbrev then_swept : System
then_swept =
    record (with_files confirmed_first
      (claim_stale list_client waiting 7000 first_commit.files).1) {
        removals =
            if (claim_stale list_client waiting 7000 first_commit.files).0 then 1 ∷ [] else [];
      }

abbrev confirmed_again : System
confirmed_again = record then_swept {
  tables = (commit list_client accepts_all waiting facts none later then_swept.tables).1;
}

race : Reach list_client accepts_all start confirmed_again
unfolding commit compare_and_save confirm accept publish_all create_integration_event pull_events
    is_allowed to_integration_events find_cleanup_candidates discard
race =
    next
      (next
        (next (next here (lists 2000 200 start))
          (commits waiting facts none noon loaded_by_all refl refl))
        (claims waiting 7000 confirmed_first (Memᴰ.head refl)))
      (commits waiting facts none later then_swept refl refl)

Reach-IsBalanced_example : IsBalanced confirmed_again.tables
Reach-IsBalanced_example = Reach-IsBalanced race (λ id. ground arith) (λ id. ground arith) refl refl

passes : (confirm facts 5000 waiting).0 ≡ ok tt
unfolding confirm is_allowed
passes = refl

commit-IsBalanced_example : IsBalanced first_commit
commit-IsBalanced_example =
    commit-IsBalanced list_client accepts_all waiting facts none noon one_pending refl refl
      (λ id. ground arith)

abbrev request : PresignInput
request = record {
  organization_id = 7;
  owner_id = 3;
  filename = literal "a.png";
  mime_type = "image/png";
  size_bytes = 100;
  max_size_bytes = 1000;
}

abbrev id_text : ℕ → String
id_text id = "id"

abbrev presigned_file : StoredFile
presigned_file = file_of 1 3 "uploads/id/id/id" pending

presigns_request : presign id_text request 1 1000 ≡ ok presigned_file
unfolding presign is_allowed sanitise_filename trim split last
presigns_request = refl

abbrev life : List Call
life = confirms facts 5000 ∷ pulls ∷ discards never_uploaded 6000 ∷ []

presign-run-IsConsistent_example : IsConsistent (run life presigned_file).0
presign-run-IsConsistent_example =
    presign-run-IsConsistent id_text request 1 1000 life presigns_request

passes_name : sanitise_filename (literal "x/a.png") ≡ ok (literal "a.png")
unfolding sanitise_filename trim split last
passes_name = refl

sanitise_filename-IsSafeName_example : IsSafeName (literal "a.png")
sanitise_filename-IsSafeName_example =
    sanitise_filename-IsSafeName (literal "x/a.png") (literal "a.png") passes_name

trimmed : trim (literal "a.png") ≡ literal "a.png"
unfolding trim
trimmed = refl

safe : IsSafeName (literal "a.png")
safe = sanitise_filename-IsSafeName (literal "x/a.png") (literal "a.png") passes_name

abbrev world : World key_storage.Objects
world = record { files = waiting ∷ done ∷ []; objects = λ k. true }

world-IsUnique : IsUnique (λ a b. a.id == b.id || str_eq a.storage_key b.storage_key) world.files
world-IsUnique = (refl, (refl, tt))

expire_stale_no_orphan_example :
    IsTraced list_client key_storage waiting (expire_stale list_client key_storage 0 9000 world).1
expire_stale_no_orphan_example =
    expire_stale_no_orphan list_client key_storage 0 9000 world waiting world-IsUnique
      (Memᴰ.head refl)

purge_total_example :
    (v : World key_storage.Objects) × (purge list_client key_storage 2 3 world ≡ some (ok 1, v))
    × (v.files ≡ keep (is_other 3) world.files)
purge_total_example =
    purge_total list_client key_storage 2 3 world (λ k o. refl) (refl, (refl, tt)) (omega arith)

abbrev listing : ListMyUploadsInput
listing = record { organization_id = 7; owner_id = 4; starting_after = none; limit = some 5 }
