-- ===== src/Billing/Inbox/Traces.antt =====
-- Whole sequences of statements on the inbox table, against its state machine.
use nestjs_modular_monolith.Common.{
  ℕ, ◌≡◌, refl, sym, ◌∙◌, inl, inr, Bool, true, ◌&&◌, Bool-cases, Option, none, some, List, [], ◌∷◌,
  arith, if◌then◌else◌, is_null, patch, any, All-append,
}
use nestjs_modular_monolith.Errors.{ok}
use nestjs_modular_monolith.Prisma.{PrismaClient}
use nestjs_modular_monolith.Prisma.Rows.{IsUnique-snoc, IsUnique-patch, All-patch}
use nestjs_modular_monolith.Text.{Text, text_eq_refl, text_eq_comm}
use nestjs_modular_monolith.Billing.Json.{is_json_object}
use nestjs_modular_monolith.Billing.Inbox.{
  InboxEvent, ClaimInput, ClaimMoment, is_event, same_inbox_event, claim, new_event, is_reclaimable,
  set_reclaimed, is_claimed_by, set_processed, set_failed, mark_processed, mark_failed,
}
use nestjs_modular_monolith.Billing.Inbox.Views.{
  InboxState, processed, state_of, IsConsistent, IsConsistentRow, is_consistent,
}
use nestjs_modular_monolith.Billing.Inbox.Machine.{
  Command, claims, processes, fails, run, step, is_about, IsFresh,
}
use nestjs_modular_monolith.Billing.Inbox.Statements.{
  claim-eq, clash-event, mark_processed-eq, mark_failed-eq,
}
use nestjs_modular_monolith.Billing.Inbox.Refinement.{run-step}

failed_consistent :
    (now : ℕ) (a : Option ℕ) → is_null a ≡ true → is_consistent a (some now) none none ≡ true
failed_consistent now none h = refl
failed_consistent now (some a) h = cc

claimed_consistent :
    (token now : ℕ) (a : Option ℕ)
    → is_null a ≡ true
    → is_consistent a none (some token) (some now) ≡ true
claimed_consistent token now none h = refl
claimed_consistent token now (some a) h = cc

unprocessed : (here a c : Bool) → here && (a && c) ≡ true → a ≡ true
unprocessed here a c h = ground arith

same_swap : (a b : InboxEvent) → same_inbox_event a b ≡ same_inbox_event b a
same_swap a b = ground (
  arith,
  text_eq_comm a.provider b.provider,
  text_eq_comm a.provider_event_id b.provider_event_id,
)

module _ (prisma : PrismaClient) where
  -- An update of rows that changes no key and leaves each row that it meets consistent.
  patch-IsConsistent :
      (w : InboxEvent → Bool) (f : InboxEvent → InboxEvent) (rows : List InboxEvent)
      → ((a b : InboxEvent) → same_inbox_event a (f b) ≡ same_inbox_event a b)
      → ((a b : InboxEvent) → same_inbox_event (f a) b ≡ same_inbox_event a b)
      → ((r : InboxEvent) → w r ≡ true → IsConsistentRow (f r))
      → IsConsistent rows
      → IsConsistent (patch w f rows)
  patch-IsConsistent w f rows right left keeps h = (
    IsUnique-patch same_inbox_event w f rows right left h.0,
    All-patch IsConsistentRow w f (λ r hit _. keeps r hit) rows h.1,
  )

  pub mark_processed-IsConsistent :
      (q f : Text) (token now : ℕ) (rows : List InboxEvent)
      → IsConsistent rows
      → IsConsistent (mark_processed prisma q f token now rows)
  mark_processed-IsConsistent q f token now rows h =
      rw (mark_processed-eq prisma q f token now rows) (
        patch-IsConsistent (is_claimed_by q f token) (set_processed now) rows (λ a b. refl)
          (λ a b. refl) (λ r hit. refl) h)

  pub mark_failed-IsConsistent :
      (q f : Text) (token now : ℕ) (rows : List InboxEvent)
      → IsConsistent rows
      → IsConsistent (mark_failed prisma q f token now rows)
  mark_failed-IsConsistent q f token now rows h = rw (mark_failed-eq prisma q f token now rows) (
      patch-IsConsistent (is_claimed_by q f token) (set_failed now) rows (λ a b. refl) (λ a b. refl)
        (λ r hit. failed_consistent now r.processed_at (unprocessed _ _ _ hit)) h)

  pub claim-IsConsistent :
      (input : ClaimInput) (m : ClaimMoment) (rows : List InboxEvent)
      → IsConsistent rows
      → IsFresh (claims input m) rows
      → IsConsistent (claim prisma input m rows).1
  claim-IsConsistent input m rows h fresh =
      let made = claim-eq prisma input m rows h fresh in
      let again =
        patch-IsConsistent (is_reclaimable input.provider input.provider_event_id m.now)
          (set_reclaimed m input.payload) rows (λ a b. refl) (λ a b. refl)
          (λ r hit. claimed_consistent m.token m.now r.processed_at (unprocessed _ _ _ hit)) h in
      elim (Bool-cases (is_json_object input.payload)) [
        | inr bad ↦ rw (made, bad) h
        | inl good ↦
            elim (Bool-cases (any (is_event input.provider input.provider_event_id) rows)) [
              | inl known ↦ rw (made, good, known) again
              | inr new ↦
                  rw (made, good, new)
                    (
                      IsUnique-snoc same_inbox_event same_swap (new_event input m input.payload)
                          rows (clash-event prisma input m rows fresh ∙ new) h.0,
                      All-append IsConsistentRow rows _ h.1 (refl, tt),
                    )
            ]
      ]

  run-IsConsistent :
      (c : Command) (rows : List InboxEvent)
      → IsConsistent rows
      → IsFresh c rows
      → IsConsistent (run prisma c rows).1
  run-IsConsistent (claims input m) rows h fresh = claim-IsConsistent input m rows h fresh
  run-IsConsistent (processes q f token now) rows h fresh =
      mark_processed-IsConsistent q f token now rows h
  run-IsConsistent (fails q f token now) rows h fresh =
      mark_failed-IsConsistent q f token now rows h

  abbrev pub run_all : List Command → List InboxEvent → List InboxEvent
  run_all [] rows = rows
  run_all (c ∷ cs) rows = run_all cs (run prisma c rows).1

  -- Every identifier of a new row is new when it is made.
  abbrev pub AllFresh : List Command → List InboxEvent → Type 0
  AllFresh [] rows = Unit
  AllFresh (c ∷ cs) rows = IsFresh c rows × AllFresh cs (run prisma c rows).1

  pub run_all-IsConsistent :
      (cs : List Command) (rows : List InboxEvent)
      → IsConsistent rows
      → AllFresh cs rows
      → IsConsistent (run_all cs rows)
  run_all-IsConsistent [] rows h fresh = h
  run_all-IsConsistent (c ∷ cs) rows h fresh =
      run_all-IsConsistent cs _ (run-IsConsistent c rows h fresh.0) fresh.1

abbrev pub step_all : Text → Text → List Command → InboxState → InboxState
step_all p e [] s = s
step_all p e (c ∷ cs) s = step_all p e cs (if is_about p e c then step c s else s)

module _ (prisma : PrismaClient) where
  -- The repository refines the state machine: after any sequence of claims, completions and failures,
  -- of any events, with any tokens and at any times, the state of each event is the one that the state
  -- machine reaches, in a table that was consistent, where identifiers of new rows are new.
  pub run_all-step_all :
      (cs : List Command) (rows : List InboxEvent) (p e : Text)
      → IsConsistent rows
      → AllFresh prisma cs rows
      → state_of p e (run_all prisma cs rows) ≡ step_all p e cs (state_of p e rows)
  run_all-step_all [] rows p e h fresh = refl
  run_all-step_all (c ∷ cs) rows p e h fresh = rw (sym (run-step prisma c rows p e h fresh.0).0) (
      run_all-step_all cs (run prisma c rows).1 p e (run-IsConsistent prisma c rows h fresh.0)
        fresh.1)

  step-processed : (c : Command) → step c processed ≡ processed
  step-processed (claims input m) = elim (Bool-cases (is_json_object input.payload)) [
    | inl good ↦ rw good refl
    | inr bad ↦ rw bad refl
  ]
  step-processed (processes q f token now) = refl
  step-processed (fails q f token now) = refl

  step_all-processed : (p e : Text) (cs : List Command) → step_all p e cs processed ≡ processed
  step_all-processed p e [] = refl
  step_all-processed p e (c ∷ cs) = elim (Bool-cases (is_about p e c)) [
    | inl about ↦ rw (about, step-processed c) (step_all-processed p e cs)
    | inr apart ↦ rw apart (step_all-processed p e cs)
  ]

  -- An event that was processed is never claimed again: whatever happens to the inbox, every later
  -- delivery of it is a duplicate, in a consistent table where identifiers of new rows are new.
  pub processed_once :
      (cs : List Command) (input : ClaimInput) (m : ClaimMoment) (rows : List InboxEvent)
      → IsConsistent rows
      → AllFresh prisma cs rows
      → IsFresh (claims input m) (run_all prisma cs rows)
      → is_json_object input.payload ≡ true
      → state_of input.provider input.provider_event_id rows ≡ processed
      → (claim prisma input m (run_all prisma cs rows)).0 ≡ ok none
  processed_once cs input m rows h fresh new good done =
      let p = input.provider in
      let e = input.provider_event_id in
      let later = run_all-step_all cs rows p e h fresh in
      let answered =
        (run-step prisma (claims input m) (run_all prisma cs rows) p e
            (run_all-IsConsistent prisma cs rows h fresh) new).1
          (rw (text_eq_refl p, text_eq_refl e) refl) in
      answered ∙ rw (good, later, done, step_all-processed p e cs) refl
