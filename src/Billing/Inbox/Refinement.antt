-- ===== src/Billing/Inbox/Refinement.antt =====
-- The statements on the inbox table implement the state machine: `PrismaBillingWebhookInboxRepository`
-- refines it.
use nestjs_modular_monolith.Common.{
  ◌≡◌, refl, sym, ◌∙◌, ap, inl, inr, true, false, ◌&&◌, Bool-cases, &&-eq-true, List, if◌then◌else◌,
  any,
}
use nestjs_modular_monolith.Prisma.{PrismaClient}
use nestjs_modular_monolith.Text.{Text, text_eq, text_eq_refl, eq_of_text_eq}
use nestjs_modular_monolith.Billing.Json.{is_json_object}
use nestjs_modular_monolith.Billing.Inbox.{
  InboxEvent, ClaimInput, ClaimMoment, is_event, claim, new_event, set_processed, set_failed,
}
use nestjs_modular_monolith.Billing.Inbox.Views.{
  failed, processed, state_of, IsConsistent, no_event, some_event, state_of-snoc_new,
  state_of-snoc_other,
}
use nestjs_modular_monolith.Billing.Inbox.Machine.{
  Command, claims, processes, fails, run, step, answer, is_about, IsFresh, held_unprocessed, nested,
  clash,
}
use nestjs_modular_monolith.Billing.Inbox.Statements.{
  marked, claimed_again, claim-eq, mark_processed-eq, mark_failed-eq,
}

module _ (prisma : PrismaClient) where
  -- A claim of the very event.
  pub claim_own :
      (input : ClaimInput) (m : ClaimMoment) (rows : List InboxEvent)
      → IsConsistent rows
      → IsFresh (claims input m) rows
      → (state_of input.provider input.provider_event_id (claim prisma input m rows).1
          ≡ step (claims input m) (state_of input.provider input.provider_event_id rows))
        × ((claim prisma input m rows).0
            ≡ answer (claims input m) (state_of input.provider input.provider_event_id rows))
  claim_own input m rows h fresh =
      let p = input.provider in
      let e = input.provider_event_id in
      let again = claimed_again prisma p e input m rows h in
      let same : text_eq p p && text_eq e e ≡ true = rw (text_eq_refl p, text_eq_refl e) refl in
      let made = claim-eq prisma input m rows h fresh in
      elim (Bool-cases (is_json_object input.payload)) [
        | inr bad ↦ rw (made, bad) (refl, refl)
        | inl good ↦ elim (Bool-cases (any (is_event p e) rows)) [
          | inl known ↦
              let present = some_event p e rows known in
              rw (made, good, known) (rw present (again ∙ (rw same refl)), rw present refl)
          | inr new ↦
              let missing = no_event p e rows new in
              let fresh_row =
                state_of-snoc_new p e rows (new_event input m input.payload) new same in
              rw (made, good, new) (rw missing fresh_row, rw missing refl)
        ]
      ]

  -- A claim of another event.
  claim_other :
      (input : ClaimInput) (m : ClaimMoment) (rows : List InboxEvent) (p e : Text)
      → IsConsistent rows
      → IsFresh (claims input m) rows
      → text_eq input.provider p && text_eq input.provider_event_id e ≡ false
      → state_of p e (claim prisma input m rows).1 ≡ state_of p e rows
  claim_other input m rows p e h fresh apart =
      let again = claimed_again prisma p e input m rows h in
      let made = claim-eq prisma input m rows h fresh in
      let added = state_of-snoc_other p e rows (new_event input m input.payload) apart in
      elim (Bool-cases (is_json_object input.payload)) [
        | inr bad ↦ rw (made, bad) refl
        | inl good ↦
            elim (Bool-cases (any (is_event input.provider input.provider_event_id) rows)) [
              | inl known ↦ rw (made, good, known) (again ∙ (rw apart refl))
              | inr new ↦ rw (made, good, new) added
            ]
      ]

  -- What each statement does to the state of each event, and what it answers, are what the state
  -- machine says, in a consistent table where the identifier of a new row is new.
  pub run-step :
      (c : Command) (rows : List InboxEvent) (p e : Text)
      → IsConsistent rows
      → IsFresh c rows
      → (state_of p e (run prisma c rows).1
          ≡ (if is_about p e c then step c (state_of p e rows) else state_of p e rows))
        × (is_about p e c ≡ true → (run prisma c rows).0 ≡ answer c (state_of p e rows))
  run-step (processes q f token now) rows p e h fresh = (
    ap (state_of p e) (mark_processed-eq prisma q f token now rows)
        ∙ marked prisma p e q f token (set_processed now) processed (λ r. refl) (λ r _. refl) rows h
        ∙ nested (text_eq q p && text_eq f e) _ _ _,
    λ _. refl,
  )
  run-step (fails q f token now) rows p e h fresh = (
    ap (state_of p e) (mark_failed-eq prisma q f token now rows)
        ∙ marked prisma p e q f token (set_failed now) failed (λ r. refl)
            (λ r.
              held_unprocessed token now r.processed_at r.failed_at r.processing_token
                r.processing_at)
            rows h
        ∙ nested (text_eq q p && text_eq f e) _ _ _,
    λ _. refl,
  )
  run-step (claims input m) rows p e h fresh =
      elim (Bool-cases (text_eq input.provider p && text_eq input.provider_event_id e)) [
        | inl same ↦
            let (hp, he) =
              &&-eq-true (text_eq input.provider p) (text_eq input.provider_event_id e) same in
            let own = claim_own input m rows h fresh in
            rw
              (
                same,
                sym (eq_of_text_eq input.provider p hp),
                sym (eq_of_text_eq input.provider_event_id e he),
              )
              (own.0, λ _. own.1)
        | inr apart ↦ (
          rw apart (claim_other input m rows p e h fresh apart),
          λ about. absurd (clash (sym about ∙ apart)),
        )
      ]
