-- ===== src/Billing/Inbox.antt =====
-- src/modules/billing/infrastructure/prisma-billing-webhook.repository.ts: the inbox table of webhooks,
-- and src/modules/billing/application/prune-billing-webhook-inbox.use-case.ts.
pub mod Views
pub mod Machine
pub mod Statements
pub mod Refinement
pub mod Traces
pub mod Holders
use nestjs_modular_monolith.Common.{
  ℕ, ◌*◌, ◌-◌, ◌≡◌, Bool, true, false, not, ◌&&◌, ◌||◌, Option, none, some, List, [], ◌∷◌, ltb,
  ◌==◌, if◌then◌else◌, is_null, keep, take, map, any, length,
}
use nestjs_modular_monolith.Errors.{Result, ok, throw, Thrown, M, continue, plain_error}
use nestjs_modular_monolith.Prisma.{PrismaClient}
use nestjs_modular_monolith.Retention.{delete_batch, prune_passes}
use nestjs_modular_monolith.Text.{Text, text_eq}
use nestjs_modular_monolith.Billing.Json.{Fields, to_json_object}

abbrev pub processing_lease_ms : ℕ
processing_lease_ms = 600000

-- A row of `billing.webhook_inbox_event`; the text of the last error, which no code reads, is left
-- out.
pub record InboxEvent : Type 0 where
  pub id : ℕ
  pub provider : Text
  pub provider_event_id : Text
  pub payload : Fields
  pub received_at : ℕ
  pub processing_at : Option ℕ
  pub processing_token : Option ℕ
  pub processed_at : Option ℕ
  pub failed_at : Option ℕ

pub record ClaimInput : Type 0 where
  pub provider : Text
  pub provider_event_id : Text
  pub payload : Fields

-- The clock and the two `newId()` of a claim.
pub record ClaimMoment : Type 0 where
  pub now : ℕ
  pub id : ℕ
  pub token : ℕ

abbrev pub is_event : Text → Text → InboxEvent → Bool
is_event provider event_id r = text_eq r.provider provider && text_eq r.provider_event_id event_id

-- The primary key, and the unique index on the provider and its identifier.
abbrev pub same_inbox_event : InboxEvent → InboxEvent → Bool
same_inbox_event a b = a.id == b.id || is_event b.provider b.provider_event_id a

-- `{ lt: … }` of a column that may be null.
abbrev pub is_before : ℕ → Option ℕ → Bool
is_before limit none = false
is_before limit (some t) = ltb t limit

abbrev pub holds : ℕ → Option ℕ → Bool
holds token none = false
holds token (some t) = t == token

abbrev pub is_reclaimable : Text → Text → ℕ → InboxEvent → Bool
is_reclaimable provider event_id now r =
    is_event provider event_id r
    && (is_null r.processed_at
        && (not (is_null r.failed_at) || is_before (now - processing_lease_ms) r.processing_at))

abbrev pub set_reclaimed : ClaimMoment → Fields → InboxEvent → InboxEvent
set_reclaimed m payload r = record r {
  received_at = m.now;
  processing_at = some m.now;
  processing_token = some m.token;
  failed_at = none;
  payload = payload;
}

abbrev pub new_event : ClaimInput → ClaimMoment → Fields → InboxEvent
new_event input m payload = record {
  id = m.id;
  provider = input.provider;
  provider_event_id = input.provider_event_id;
  payload = payload;
  received_at = m.now;
  processing_at = some m.now;
  processing_token = some m.token;
  processed_at = none;
  failed_at = none;
}

abbrev pub is_claimed_by : Text → Text → ℕ → InboxEvent → Bool
is_claimed_by provider event_id token r =
    is_event provider event_id r && (is_null r.processed_at && holds token r.processing_token)

abbrev pub set_processed : ℕ → InboxEvent → InboxEvent
set_processed now r = record r {
  processing_at = none;
  processing_token = none;
  processed_at = some now;
  failed_at = none;
}

abbrev pub set_failed : ℕ → InboxEvent → InboxEvent
set_failed now r = record r { processing_at = none; processing_token = none; failed_at = some now }

-- `{ not: null, lt: cutoff }`, and the order of the oldest first.
abbrev pub is_processed_before : ℕ → InboxEvent → Bool
is_processed_before cutoff r = is_before cutoff r.processed_at

abbrev pub is_no_later : Option ℕ → Option ℕ → Bool
is_no_later none b = false
is_no_later (some a) none = true
is_no_later (some a) (some b) = not (ltb b a)

abbrev pub processed_first : InboxEvent → InboxEvent → Bool
processed_first a b = is_no_later a.processed_at b.processed_at

abbrev pub same_id : InboxEvent → InboxEvent → Bool
same_id a b = a.id == b.id

module _ (prisma : PrismaClient) where
  open prisma use {find_first, create_many, update_many}

  abbrev pub token_if : ℕ → List InboxEvent × ℕ → Result (Option ℕ) × List InboxEvent
  token_if token (rows, n) = (ok (if n == 1 then some token else none), rows)

  abbrev pub reclaim :
      ClaimInput → ClaimMoment → Fields → List InboxEvent × ℕ → Result (Option ℕ) × List InboxEvent
  reclaim input m payload (rows, created) =
      if created == 1
      then (ok (some m.token), rows)
      else token_if m.token (
          update_many (is_reclaimable input.provider input.provider_event_id m.now)
            (set_reclaimed m payload) rows)

  abbrev pub claim_payload :
      ClaimInput → ClaimMoment → Result Fields → M (List InboxEvent) (Option ℕ)
  claim_payload input m (throw e) rows = (throw e, rows)
  claim_payload input m (ok payload) rows =
      reclaim input m payload (create_many same_inbox_event (new_event input m payload) rows)

  unfoldable pub claim : ClaimInput → ClaimMoment → M (List InboxEvent) (Option ℕ)
  claim input m rows = claim_payload input m (to_json_object input.payload) rows

  abbrev pub payload_of : Option InboxEvent → Option Fields
  payload_of none = none
  payload_of (some r) = some r.payload

  unfoldable pub find_claimed : Text → Text → ℕ → List InboxEvent → Option Fields
  find_claimed provider event_id token rows =
      payload_of (find_first (is_claimed_by provider event_id token) rows)

  unfoldable pub mark_processed : Text → Text → ℕ → ℕ → List InboxEvent → List InboxEvent
  mark_processed provider event_id token now rows =
      (update_many (is_claimed_by provider event_id token) (set_processed now) rows).0

  unfoldable pub mark_failed : Text → Text → ℕ → ℕ → List InboxEvent → List InboxEvent
  mark_failed provider event_id token now rows =
      (update_many (is_claimed_by provider event_id token) (set_failed now) rows).0

  unfoldable pub delete_processed_before : ℕ → ℕ → List InboxEvent → ℕ × List InboxEvent
  delete_processed_before cutoff =
      delete_batch prisma same_id processed_first (is_processed_before cutoff)

  -- `PruneBillingWebhookInboxUseCase.execute`
  unfoldable pub prune_inbox : ℕ → ℕ → List InboxEvent → ℕ × List InboxEvent
  prune_inbox now retention_days =
      prune_passes (delete_processed_before (now - retention_days * 86400000) 5000) 5000 20 0
