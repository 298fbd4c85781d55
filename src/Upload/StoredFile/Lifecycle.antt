-- ===== src/Upload/StoredFile/Lifecycle.antt =====
-- The life of a stored file: every sequence of `confirm`, `discard` and `pullEvents`.
use Prim.Native.String.{String}
use package.text.Mathlib.TextEquality.{eq_iff}
use nestjs_modular_monolith.Common.{
  ℕ, ◌+◌, ◌≡◌, ◌≢◌, ◌↔◌, refl, sym, ◌∙◌, ap, Bool, true, false, Option, none, some, List, [], ◌∷◌,
  ◌++◌, arith, count, count-append,
}
use nestjs_modular_monolith.Errors.{Result, ok, throw}
use nestjs_modular_monolith.Text.{Text}
use nestjs_modular_monolith.Upload.StoredFile.{
  StoredFile, StoredFileStatus, pending, confirmed, DiscardReason, StoredFileEvent, was_confirmed,
  was_discarded, ObjectFacts, PresignInput, is_allowed, presign, discard, confirm, pull_events,
  confirm_type, accept, presigned, sanitise_filename, content_mismatch, type_not_allowed,
}

-- A call of the aggregate by its use cases.
pub data Call : Type 0 where
  confirms : ObjectFacts → ℕ → Call
  discards : DiscardReason → ℕ → Call
  pulls : Call

-- The file after a call, and the events that the call handed out.
pub step : Call → StoredFile → StoredFile × List StoredFileEvent
step (confirms actual now) file = ((confirm actual now file).1, [])
step (discards reason now) file = (discard reason now file, [])
step pulls file = let (events, rest) = pull_events file in (rest, events)

pub run : List Call → StoredFile → StoredFile × List StoredFileEvent
run [] file = (file, [])
run (c ∷ cs) file =
    let (next, out) = step c file in let (end, later) = run cs next in (end, out ++ later)

-- What is known of a file at each status.
pub record IsConsistent (file : StoredFile) : Type 0 where
  pub declared : is_allowed file.declared_mime_type ≡ true
  pub mime_verified : file.status ≡ confirmed → file.verified_mime ≡ some file.declared_mime_type
  pub size_verified : file.status ≡ confirmed → file.verified_size ≡ some file.declared_size_bytes
  pub dated : file.status ≡ confirmed → file.confirmed_at ≢ none
  pub unverified :
      file.status ≢ confirmed → (file.verified_mime ≡ none) × (file.verified_size ≡ none)

-- The last two checks pass exactly on the declared type, if that is an accepted one.
confirm_type-ok_iff :
    (mime : Option String) (size now : ℕ) (file : StoredFile)
    → ((confirm_type mime size now file).0 ≡ ok tt)
      ↔ ((mime ≡ some file.declared_mime_type) × (is_allowed file.declared_mime_type ≡ true))
unfolding confirm_type
confirm_type-ok_iff none size now file = (λ e. cc, λ e. cc)
confirm_type-ok_iff (some mime) size now file = ground (arith, eq_iff mime file.declared_mime_type)

-- `confirm` succeeds exactly on a pending file whose stored bytes have the declared size and the
-- declared type, that type being an accepted one.
pub confirm-ok_iff :
    (actual : ObjectFacts) (now : ℕ) (file : StoredFile)
    → ((confirm actual now file).0 ≡ ok tt) ↔ (
        (file.status ≡ pending)
        × (actual.size_bytes ≡ file.declared_size_bytes)
        × (actual.detected_mime_type ≡ some file.declared_mime_type)
        × (is_allowed file.declared_mime_type ≡ true))
unfolding confirm
confirm-ok_iff actual now file =
    ground (arith, confirm_type-ok_iff actual.detected_mime_type actual.size_bytes now file)

confirm_type-IsConsistent :
    (mime : Option String) (size now : ℕ) (file : StoredFile)
    → size ≡ file.declared_size_bytes
    → file.status ≡ pending
    → IsConsistent file
    → IsConsistent (confirm_type mime size now file).1
unfolding confirm_type discard
confirm_type-IsConsistent none size now file e p h = ground arith
confirm_type-IsConsistent (some mime) size now file e p h =
    ground (arith, eq_iff mime file.declared_mime_type)

step-IsConsistent :
    (c : Call) (file : StoredFile) → IsConsistent file → IsConsistent (step c file).0
unfolding step confirm discard pull_events
step-IsConsistent (confirms actual now) file h =
    ground (arith, confirm_type-IsConsistent actual.detected_mime_type actual.size_bytes now file)
step-IsConsistent (discards reason now) file h = ground arith
step-IsConsistent pulls file h = ground arith

run-IsConsistent :
    (cs : List Call) (file : StoredFile) → IsConsistent file → IsConsistent (run cs file).0
unfolding run
run-IsConsistent [] file h = h
run-IsConsistent (c ∷ cs) file h = run-IsConsistent cs (step c file).0 (step-IsConsistent c file h)

presigned-IsFresh :
    (uuid_text : ℕ → String) (input : PresignInput) (id now : ℕ) (name : Result Text)
    {file : StoredFile}
    → presigned uuid_text input id now name ≡ ok file
    → (file.status ≡ pending)
      × (file.events ≡ [])
      × (file.verified_mime ≡ none)
      × (file.verified_size ≡ none)
      × (file.declared_mime_type ≡ input.mime_type)
unfolding presigned
presigned-IsFresh uuid_text input id now (throw e) h = cc
presigned-IsFresh uuid_text input id now (ok name) h = ground arith

presign-IsFresh :
    (uuid_text : ℕ → String) (input : PresignInput) (id now : ℕ) {file : StoredFile}
    → presign uuid_text input id now ≡ ok file
    → (file.status ≡ pending) × (file.events ≡ []) × IsConsistent file
unfolding presign
presign-IsFresh uuid_text input id now {file} h = ground (
  arith,
  presigned-IsFresh uuid_text input id now (sanitise_filename input.filename) {file = file},
)

-- From `presign` on, whatever is called and in whatever order, a file that is confirmed has been
-- verified: its stored type and size are the declared ones, the type is accepted, the time is known.
-- A file that is not confirmed carries no verified type or size.
pub presign-run-IsConsistent :
    (uuid_text : ℕ → String) (input : PresignInput) (id now : ℕ) {file : StoredFile}
    (cs : List Call)
    → presign uuid_text input id now ≡ ok file
    → IsConsistent (run cs file).0
presign-run-IsConsistent uuid_text input id now {file} cs h =
    run-IsConsistent cs file (presign-IsFresh uuid_text input id now h).2

-- All of a file but the events that wait to be pulled.
abbrev pub without_events : StoredFile → StoredFile
without_events file = record file { events = [] }

step_settled :
    (c : Call) (file : StoredFile)
    → file.status ≢ pending
    → without_events (step c file).0 ≡ without_events file
unfolding step confirm discard pull_events
step_settled (confirms actual now) file h = ground arith
step_settled (discards reason now) file h = ground arith
step_settled pulls file h = ground arith

-- A confirmed or discarded file is settled: no sequence of calls changes anything of it but the
-- events that wait to be pulled.
pub run_settled :
    (cs : List Call) (file : StoredFile)
    → file.status ≢ pending
    → without_events (run cs file).0 ≡ without_events file
unfolding run
run_settled [] file h = refl
run_settled (c ∷ cs) file h =
    let same = step_settled c file h in
    run_settled cs (step c file).0 (λ e. h (sym (ap (λ (f : StoredFile). f.status) same) ∙ e))
    ∙ same

abbrev pub is_confirmation : StoredFileEvent → Bool
is_confirmation (was_confirmed _) = true
is_confirmation (was_discarded _) = false

-- How many confirmations the status accounts for.
abbrev pub owed : StoredFileStatus → ℕ
owed confirmed = 1
owed _ = 0

accept-status :
    (mime : String) (size now : ℕ) (file : StoredFile)
    → (accept mime size now file).status ≡ confirmed
unfolding accept
accept-status mime size now file = refl

discard_counts :
    (reason : DiscardReason) (now : ℕ) (file : StoredFile)
    → (count is_confirmation (discard reason now file).events ≡ count is_confirmation file.events)
      × (owed (discard reason now file).status ≡ owed file.status)
unfolding discard
discard_counts reason now file = ground (
  arith,
  count-append is_confirmation file.events (
      was_discarded
        (record { file_id = file.id; storage_key = file.storage_key; reason = reason; at = now })
      ∷ []),
)

accept_counts :
    (mime : String) (size now : ℕ) (file : StoredFile)
    → count is_confirmation (accept mime size now file).events
      ≡ count is_confirmation file.events + 1
unfolding accept
accept_counts mime size now file = rw (count-append is_confirmation file.events)

confirm_type_counts :
    (mime : Option String) (size now : ℕ) (file : StoredFile)
    → file.status ≡ pending
    → count is_confirmation (confirm_type mime size now file).1.events
      ≡ count is_confirmation file.events + owed (confirm_type mime size now file).1.status
unfolding confirm_type
confirm_type_counts none size now file p = ground (arith, discard_counts type_not_allowed now file)
confirm_type_counts (some mime) size now file p = ground (
  arith,
  discard_counts type_not_allowed now file,
  discard_counts content_mismatch now file,
  accept_counts mime size now file,
  accept-status mime size now file,
)

step_counts :
    (c : Call) (file : StoredFile)
    → count is_confirmation (step c file).1
        + count is_confirmation (step c file).0.events
        + owed file.status
      ≡ count is_confirmation file.events + owed (step c file).0.status
unfolding step confirm pull_events
step_counts (confirms actual now) file = ground (
  arith,
  discard_counts content_mismatch now file,
  confirm_type_counts actual.detected_mime_type actual.size_bytes now file,
)
step_counts (discards reason now) file = ground (arith, discard_counts reason now file)
step_counts pulls file = ground arith

run_counts :
    (cs : List Call) (file : StoredFile)
    → count is_confirmation (run cs file).1
        + count is_confirmation (run cs file).0.events
        + owed file.status
      ≡ count is_confirmation file.events + owed (run cs file).0.status
unfolding run
run_counts [] file = omega arith
run_counts (c ∷ cs) file = ground (
  arith,
  count-append is_confirmation (step c file).1 (run cs (step c file).0).1,
  step_counts c file,
  run_counts cs (step c file).0,
)

-- Over the whole life of a file, pulled and waiting events together hold one `StoredFileConfirmed` if
-- the file is confirmed, and none otherwise.
pub confirmed_once :
    (uuid_text : ℕ → String) (input : PresignInput) (id now : ℕ) {file : StoredFile}
    (cs : List Call)
    → presign uuid_text input id now ≡ ok file
    → let (end, pulled) = run cs file in
      count is_confirmation pulled + count is_confirmation end.events ≡ owed end.status
confirmed_once uuid_text input id now {file} cs h =
    ground (arith, presign-IsFresh uuid_text input id now h, run_counts cs file)

confirm_type-eq_accept :
    (mime : Option String) (size now : ℕ) (file : StoredFile)
    → (confirm_type mime size now file).0 ≡ ok tt
    → (confirm_type mime size now file).1 ≡ accept file.declared_mime_type size now file
unfolding confirm_type
confirm_type-eq_accept none size now file e = cc
confirm_type-eq_accept (some mime) size now file e =
    ground (arith, eq_iff mime file.declared_mime_type)

-- A confirmation that succeeds finds the file pending, and leaves it accepted as declared.
pub confirm-eq_accept :
    (actual : ObjectFacts) (now : ℕ) (file : StoredFile)
    → (confirm actual now file).0 ≡ ok tt
    → (file.status ≡ pending)
      × ((confirm actual now file).1
          ≡ accept file.declared_mime_type file.declared_size_bytes now file)
unfolding confirm
confirm-eq_accept actual now file e =
    ground (arith, confirm_type-eq_accept actual.detected_mime_type actual.size_bytes now file)

pub confirm_confirmed :
    (actual : ObjectFacts) (now : ℕ) (file : StoredFile)
    → file.status ≡ confirmed
    → (confirm actual now file).1 ≡ file
unfolding confirm
confirm_confirmed actual now file e = ground arith
