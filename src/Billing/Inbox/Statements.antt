-- ===== src/Billing/Inbox/Statements.antt =====
-- What each statement on the inbox table does to the state of an event.
use nestjs_modular_monolith.Common.{
  ℕ, ◌≡◌, refl, ap, inl, inr, true, ◌&&◌, Bool-cases, none, some, List, [], ◌∷◌, ◌++◌,
  if◌then◌else◌, patch, any, count,
}
use nestjs_modular_monolith.Errors.{ok, throw, plain_error}
use nestjs_modular_monolith.Prisma.{PrismaClient}
use nestjs_modular_monolith.Text.{Text, text_eq, text_eq_comm}
use nestjs_modular_monolith.Billing.Json.{is_json_object, to_json_object_lem}
use nestjs_modular_monolith.Billing.Inbox.{
  InboxEvent, ClaimInput, ClaimMoment, is_event, same_inbox_event, claim, mark_processed,
  mark_failed, new_event, is_reclaimable, set_reclaimed, is_claimed_by, set_processed, set_failed,
}
use nestjs_modular_monolith.Billing.Inbox.Views.{
  InboxState, claimed, classify, state_of, IsConsistent, state_of-update, count-state_of,
}
use nestjs_modular_monolith.Billing.Inbox.Machine.{
  claims, is_due, is_held, IsFresh, reclaimable-is_due, due_open, held_open,
}

module _ (prisma : PrismaClient) where
  open prisma use {update_many-eq, create_many-eq}

  pub marked :
      (p e q f : Text) (token : ℕ) (change : InboxEvent → InboxEvent) (target : InboxState)
      → ((r : InboxEvent) → is_event p e (change r) ≡ is_event p e r)
      → ((r : InboxEvent) → is_held token (classify r) ≡ true → classify (change r) ≡ target)
      → (rows : List InboxEvent) → IsConsistent rows
      → state_of p e (patch (is_claimed_by q f token) change rows) ≡ (
          if (text_eq q p && text_eq f e) && is_held token (state_of p e rows)
          then target
          else state_of p e rows)
  marked p e q f token change target keeps hits rows h =
      state_of-update p e q f _ change (is_held token) target refl keeps
        (λ r. held_open token r.processed_at r.failed_at r.processing_token r.processing_at) hits
        rows h.1

  pub claimed_again :
      (p e : Text) (input : ClaimInput) (m : ClaimMoment) (rows : List InboxEvent)
      → IsConsistent rows
      → state_of p e (
          patch
            (is_reclaimable input.provider input.provider_event_id m.now)
            (set_reclaimed m input.payload)
            rows)
        ≡ (if (text_eq input.provider p && text_eq input.provider_event_id e)
              && is_due m.now (state_of p e rows)
            then claimed (some m.token) (some m.now)
            else state_of p e rows)
  claimed_again p e input m rows h =
      state_of-update p e input.provider input.provider_event_id _ (set_reclaimed m input.payload)
        (is_due m.now) (claimed (some m.token) (some m.now)) refl (λ r. refl)
        (λ r _.
          reclaimable-is_due m.now r.processed_at r.failed_at r.processing_token r.processing_at)
        (λ r. due_open m.now m.token r.processed_at r.failed_at r.processing_token r.processing_at)
        rows h.1

  pub claimed_count :
      (input : ClaimInput) (m : ClaimMoment) (rows : List InboxEvent)
      → IsConsistent rows
      → count (is_reclaimable input.provider input.provider_event_id m.now) rows
        ≡ (if is_due m.now (state_of input.provider input.provider_event_id rows) then 1 else 0)
  claimed_count input m rows h =
      count-state_of input.provider input.provider_event_id _ (is_due m.now) refl
        (λ r.
          reclaimable-is_due m.now r.processed_at r.failed_at r.processing_token r.processing_at)
        rows h.0

  -- On a new identifier, a row collides exactly on the event.
  pub clash-event :
      (input : ClaimInput) (m : ClaimMoment) (rows : List InboxEvent)
      → IsFresh (claims input m) rows
      → any (same_inbox_event (new_event input m input.payload)) rows
        ≡ any (is_event input.provider input.provider_event_id) rows
  clash-event input m [] h = refl
  clash-event input m (r ∷ rows) h =
      rw
        (
          h.0,
          clash-event input m rows h.1,
          text_eq_comm input.provider r.provider,
          text_eq_comm input.provider_event_id r.provider_event_id,
        )
        refl

  pub claim-eq :
      (input : ClaimInput) (m : ClaimMoment) (rows : List InboxEvent)
      → IsConsistent rows
      → IsFresh (claims input m) rows
      → claim prisma input m rows ≡ (
          if is_json_object input.payload
          then (if any (is_event input.provider input.provider_event_id) rows
              then (
                ok (
                    if is_due m.now (state_of input.provider input.provider_event_id rows)
                    then some m.token
                    else none),
                patch
                    (is_reclaimable input.provider input.provider_event_id m.now)
                    (set_reclaimed m input.payload)
                    rows,
              )
              else (ok (some m.token), rows ++ new_event input m input.payload ∷ []))
          else (throw plain_error, rows))
  unfolding claim
  claim-eq input m rows h fresh =
      let created = create_many-eq same_inbox_event (new_event input m input.payload) rows in
      let stored = to_json_object_lem input.payload in
      let clash = clash-event input m rows fresh in
      let updated =
        update_many-eq (is_reclaimable input.provider input.provider_event_id m.now)
          (set_reclaimed m input.payload) rows in
      let counted = claimed_count input m rows h in
      elim (Bool-cases (is_json_object input.payload)) [
        | inr bad ↦ rw (stored, bad) refl
        | inl good ↦
            elim (Bool-cases (any (is_event input.provider input.provider_event_id) rows)) [
              | inr new ↦ rw (stored, good, created, clash, new) refl
              | inl known ↦
                  elim (Bool-cases
                    (is_due m.now (state_of input.provider input.provider_event_id rows))) [
                      | inl due ↦
                          rw (stored, good, created, clash, known, updated, counted, due) refl
                      | inr held ↦
                          rw (stored, good, created, clash, known, updated, counted, held) refl
                    ]
            ]
      ]

  pub mark_processed-eq :
      (q f : Text) (token now : ℕ) (rows : List InboxEvent)
      → mark_processed prisma q f token now rows
        ≡ patch (is_claimed_by q f token) (set_processed now) rows
  unfolding mark_processed
  mark_processed-eq q f token now rows =
      ap (λ x. x.0) (update_many-eq (is_claimed_by q f token) (set_processed now) rows)

  pub mark_failed-eq :
      (q f : Text) (token now : ℕ) (rows : List InboxEvent)
      → mark_failed prisma q f token now rows
        ≡ patch (is_claimed_by q f token) (set_failed now) rows
  unfolding mark_failed
  mark_failed-eq q f token now rows =
      ap (λ x. x.0) (update_many-eq (is_claimed_by q f token) (set_failed now) rows)
