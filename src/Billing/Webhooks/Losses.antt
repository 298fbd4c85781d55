-- ===== src/Billing/Webhooks/Losses.antt =====
-- A webhook whose job the queue did not take.
use nestjs_modular_monolith.Common.{
  ◌+◌, ◌≤◌, ◌≡◌, refl, sym, ◌∙◌, ap, inl, inr, true, false, Bool-cases, none, some, List, arith,
  ltb, length, any,
}
use nestjs_modular_monolith.Errors.{ok, throw, Thrown, continue}
use nestjs_modular_monolith.Prisma.{PrismaClient}
use nestjs_modular_monolith.Prisma.Rows.{patch_none}
use nestjs_modular_monolith.Text.{Text}
use nestjs_modular_monolith.Billing.Json.{Fields, is_json_object}
use nestjs_modular_monolith.Billing.Inbox.{
  InboxEvent, ClaimInput, ClaimMoment, is_event, processing_lease_ms, claim, is_reclaimable,
  set_reclaimed,
}
use nestjs_modular_monolith.Billing.Inbox.Views.{claimed, state_of, IsConsistent, no_event}
use nestjs_modular_monolith.Billing.Inbox.Machine.{claims, can_claim, is_due, IsFresh}
use nestjs_modular_monolith.Billing.Inbox.Statements.{claim-eq, claimed_count}
use nestjs_modular_monolith.Billing.Inbox.Refinement.{claim_own}
use nestjs_modular_monolith.Billing.Inbox.Traces.{claim-IsConsistent}
use nestjs_modular_monolith.Billing.Events.{ClaimedWebhook}
use nestjs_modular_monolith.Billing.Verifier.{Crypto, verify}
use nestjs_modular_monolith.Billing.Webhooks.{
  World, WebhookQueue, WebhookRequest, is_provider, receive, dispatch_claimed, dispatch_accepted,
  post, on_rows,
}

clash : true ≡ false → ⊥
clash h = cc

abbrev pub signed : Text → Text → Text → Text → WebhookRequest
signed p e body signature = record {
  provider = p;
  signature = some signature;
  event_id = some e;
  raw_body = some body;
}

module _ (prisma : PrismaClient) where
  -- A delivery of an event that is claimed or processed changes nothing.
  claim_refused :
      (input : ClaimInput) (m : ClaimMoment) (rows : List InboxEvent)
      → IsConsistent rows
      → IsFresh (claims input m) rows
      → is_json_object input.payload ≡ true
      → can_claim m.now (state_of input.provider input.provider_event_id rows) ≡ false
      → claim prisma input m rows ≡ (ok none, rows)
  claim_refused input m rows h fresh good refused =
      let p = input.provider in
      let e = input.provider_event_id in
      let waits : is_due m.now (state_of p e rows) ≡ false = ground arith in
      let counted = claimed_count prisma input m rows h ∙ (rw waits refl) in
      let same =
        patch_none (is_reclaimable p e m.now) (set_reclaimed m input.payload) rows counted in
      elim (Bool-cases (any (is_event p e) rows)) [
        | inl known ↦ rw (claim-eq prisma input m rows h fresh, good, known, waits, same) refl
        | inr new ↦ absurd (clash (sym (ap (can_claim m.now) (no_event p e rows new)) ∙ refused))
      ]

  module _ (crypto : Crypto) (key : Text) (queue : WebhookQueue) where
    -- A request that passes every guard is a claim and a dispatch.
    post_passed :
        (p e body signature : Text) (fs : Fields) (m : ClaimMoment) (w : World queue.Jobs)
        → is_provider p ≡ true
        → ltb 255 (length e) ≡ false
        → verify crypto key body signature ≡ ok fs
        → post prisma crypto (some key) queue (signed p e body signature) m w
          ≡ continue
              (on_rows w.rest (
                claim prisma
                  (record { provider = p; provider_event_id = e; payload = fs })
                  m
                  w.rows))
              (dispatch_accepted prisma crypto (some key) queue p e)
    unfolding post receive
    post_passed p e body signature fs m w named short authentic = rw (named, short, authentic) refl

    -- The webhook that the queue did not take is lost: where a request passes every guard, its payload
    -- is JSON and its event is claimed, but the dispatch throws, the request fails, and a redelivery
    -- within the lease of ten minutes is acknowledged although it queues nothing, in a consistent inbox
    -- where identifiers are new.
    pub post_undispatched :
        (p e body signature : Text) (fs : Fields) (m later : ClaimMoment) (w : World queue.Jobs)
        (x : Thrown)
        → is_provider p ≡ true
        → ltb 255 (length e) ≡ false
        → verify crypto key body signature ≡ ok fs
        → is_json_object fs ≡ true
        → IsConsistent w.rows
        → can_claim m.now (state_of p e w.rows) ≡ true
        → later.now ≤ m.now + processing_lease_ms
        → IsFresh (claims (record { provider = p; provider_event_id = e; payload = fs }) m) w.rows
        → IsFresh
            (claims (record { provider = p; provider_event_id = e; payload = fs }) later)
            (post prisma crypto (some key) queue (signed p e body signature) m w).1.rows
        → (queue.send
            (record { provider = p; provider_event_id = e; claim_token = m.token })
            m.token
            w.rest).0
          ≡ throw x
        → ((post prisma crypto (some key) queue (signed p e body signature) m w).0 ≡ throw x)
          × (post prisma crypto
                (some key)
                queue
                (signed p e body signature)
                later
                (post prisma crypto (some key) queue (signed p e body signature) m w).1
              ≡ (ok tt, (post prisma crypto (some key) queue (signed p e body signature) m w).1))
    unfolding dispatch_claimed
    post_undispatched p e body signature fs m later w x named short authentic good h open_ soon
          fresh fresh_later failed =
        let input : ClaimInput = record { provider = p; provider_event_id = e; payload = fs } in
        let own = claim_own prisma input m w.rows h fresh in
        let taken : (claim prisma input m w.rows).0 ≡ ok (some m.token) =
          own.1 ∙ (rw (good, open_) refl) in
        let first = post_passed p e body signature fs m w named short authentic in
        let rows = (claim prisma input m w.rows).1 in
        let job : ClaimedWebhook = record {
          provider = p;
          provider_event_id = e;
          claim_token = m.token;
        } in
        let next : World queue.Jobs = record {
          rows = rows;
          rest = (queue.send job m.token w.rest).1;
        } in
        let outcome : post prisma crypto (some key) queue (signed p e body signature) m w
            ≡ (throw x, next) =
          first ∙ (rw (taken, failed) refl) in
        let held : state_of p e rows ≡ claimed (some m.token) (some m.now) =
          own.0 ∙ (rw (good, open_) refl) in
        let waits : can_claim later.now (state_of p e rows) ≡ false = rw held (ground arith) in
        let refused =
          claim_refused input later rows (claim-IsConsistent prisma input m w.rows h fresh)
            (rw outcome at fresh_later) good waits in
        let second = post_passed p e body signature fs later next named short authentic in
        rw outcome (refl, second ∙ (rw refused refl))
