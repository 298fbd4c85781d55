-- ===== src/Billing/Webhooks.antt =====
-- How a webhook is received and applied: src/modules/billing/http/billing-webhook.controller.ts,
-- application/billing-webhook-inbox.service.ts, application/apply-webhook-event.use-case.ts,
-- infrastructure/queue-webhook-dispatcher.adapter.ts and
-- infrastructure/listeners/apply-billing-webhook.listener.ts. Logging is left out.

pub mod Applications
pub mod Losses
use nestjs_modular_monolith.Common.{
  ℕ, Bool, true, false, ◌&&◌, ◌||◌, not, Option, none, some, List, [], ◌∷◌, leb, ltb, ◌==◌,
  if◌then◌else◌, length,
}
use nestjs_modular_monolith.Errors.{
  Result, ok, throw, M, continue, Thrown, plain_error, http_exception, validation_failed,
}
use nestjs_modular_monolith.Errors.DomainErrors
use nestjs_modular_monolith.Prisma.{PrismaClient, Answer, answered}
use nestjs_modular_monolith.Text.{Text}
use nestjs_modular_monolith.Billing.Json.{Value, Fields}
use nestjs_modular_monolith.Billing.Inbox.{
  InboxEvent, ClaimInput, ClaimMoment, claim, find_claimed, mark_processed, mark_failed,
}
use nestjs_modular_monolith.Billing.Events.{
  Formats, BillingWebhookEvent, ClaimedWebhook, parse_event, parse_job,
}
use nestjs_modular_monolith.Billing.Verifier.{Crypto, verify}

-- `JobQueuePort.send` to `billing.apply-webhook`: the job, and the token in its `singletonKey`.
pub record WebhookQueue : Type 1 where
  pub Jobs : Type 0
  pub send : ClaimedWebhook → ℕ → M Jobs (Unit {0})

-- `BillingEventApplierPort.apply`, over the state of billing that it changes.
abbrev pub Applier : Type 0 → Type 0
Applier Effects = Text → BillingWebhookEvent → M Effects (Unit {0})

-- The inbox, and what else the call changes: the queue, or what the applier changes.
pub record World (Rest : Type 0) : Type 0 where
  pub rows : List InboxEvent
  pub rest : Rest

abbrev pub on_rows : {Rest A : Type 0} → Rest → Result A × List InboxEvent → Result A × World Rest
on_rows rest (r, rows) = (r, record { rows = rows; rest = rest })

abbrev pub on_rest : {Rest A : Type 0} → List InboxEvent → Result A × Rest → Result A × World Rest
on_rest rows (r, rest) = (r, record { rows = rows; rest = rest })

-- `ServiceUnavailableException`
abbrev pub service_unavailable : Thrown
service_unavailable = http_exception 503

-- `/^[a-z0-9-]{1,32}$/`
abbrev pub is_provider_unit : ℕ → Bool
is_provider_unit c = leb 97 c && leb c 122 || leb 48 c && leb c 57 || c == 45

abbrev pub all_units : (ℕ → Bool) → Text → Bool
all_units p [] = true
all_units p (c ∷ s) = p c && all_units p s

abbrev pub is_provider : Text → Bool
is_provider s = leb 1 (length s) && leb (length s) 32 && all_units is_provider_unit s

-- The request; `raw_body` is the body's bytes read as UTF-8, where they were captured.
pub record WebhookRequest : Type 0 where
  pub provider : Text
  pub signature : Option Text
  pub event_id : Option Text
  pub raw_body : Option Text

pub data Outcome : Type 0 where
  processed claim_lost : Outcome

-- The service holds a verifier where a secret is configured.
module _ (prisma : PrismaClient) (crypto : Crypto) (secret : Option Text) where
  abbrev pub claim_verified :
      Text → Text → Result Fields → ClaimMoment → M (List InboxEvent) (Option ℕ)
  claim_verified provider event_id (throw e) m rows = (throw e, rows)
  claim_verified provider event_id (ok payload) m rows =
      claim prisma (record { provider = provider; provider_event_id = event_id; payload = payload })
        m rows

  -- `BillingWebhookInboxService.receive`: the token is none for a duplicate.
  abbrev pub receive_by :
      Option Text → Text → Text → Text → Text → ClaimMoment → M (List InboxEvent) (Option ℕ)
  receive_by none provider event_id body signature m rows = (throw plain_error, rows)
  receive_by (some key) provider event_id body signature m rows =
      claim_verified provider event_id (verify crypto key body signature) m rows

  unfoldable pub receive : Text → Text → Text → Text → ClaimMoment → M (List InboxEvent) (Option ℕ)
  receive = receive_by secret

  module _ (queue : WebhookQueue) where
    -- `QueueWebhookDispatcher.dispatchClaimed`
    unfoldable pub dispatch_claimed : ClaimedWebhook → M queue.Jobs (Unit {0})
    dispatch_claimed event = queue.send event event.claim_token

    abbrev pub dispatch_accepted : Text → Text → Option ℕ → M (World queue.Jobs) (Unit {0})
    dispatch_accepted provider event_id none w = (ok tt, w)
    dispatch_accepted provider event_id (some token) w = on_rest w.rows (
        dispatch_claimed
          (record { provider = provider; provider_event_id = event_id; claim_token = token })
          w.rest)

    abbrev pub post_body :
        Text → Text → Text → Option Text → ClaimMoment → M (World queue.Jobs) (Unit {0})
    post_body provider event_id signature none m w = (throw service_unavailable, w)
    post_body provider event_id signature (some body) m w =
        continue (on_rows w.rest (receive provider event_id body signature m w.rows))
          (dispatch_accepted provider event_id)

    abbrev pub post_signed :
        Text
        → Option Text
        → Option Text
        → Option Text
        → ClaimMoment
        → M (World queue.Jobs) (Unit {0})
    post_signed provider (some signature) (some event_id) body m w =
        if ltb 255 (length event_id)
        then (throw (DomainErrors.validation validation_failed), w)
        else post_body provider event_id signature body m w
    post_signed provider signature event_id body m w =
        (throw (DomainErrors.validation validation_failed), w)

    abbrev pub post_configured :
        Option Text → WebhookRequest → ClaimMoment → M (World queue.Jobs) (Unit {0})
    post_configured none request m w = (throw service_unavailable, w)
    post_configured (some key) request m w =
        if not (is_provider request.provider)
        then (throw (DomainErrors.validation validation_failed), w)
        else post_signed request.provider request.signature request.event_id request.raw_body m w

    -- `BillingWebhookController.receive`
    unfoldable pub post : WebhookRequest → ClaimMoment → M (World queue.Jobs) (Unit {0})
    post = post_configured secret

-- What becomes of `markProcessed` and `markFailed`.
pub record Marks : Type 0 where
  pub processing : Answer
  pub failing : Answer

module _ (prisma : PrismaClient) {Effects : Type 0} where
  -- What follows `markFailed` in the `catch`: the error, unless the call fails with its own.
  abbrev pub rethrow :
      Thrown → Effects → Result (Unit {0}) × List InboxEvent → Result Outcome × World Effects
  rethrow e effects (ok tt, rows) = (throw e, record { rows = rows; rest = effects })
  rethrow e effects (throw own, rows) = (throw own, record { rows = rows; rest = effects })

  -- The `catch`.
  abbrev pub catch_application :
      ClaimedWebhook
      → ℕ
      → Marks
      → List InboxEvent
      → Thrown
      → Effects
      → Result Outcome × World Effects
  catch_application job now marks rows e effects = rethrow e effects (
      answered marks.failing rows
        (ok tt, mark_failed prisma job.provider job.provider_event_id job.claim_token now rows))

  -- What follows `markProcessed`, within the `try`.
  abbrev pub finish_application :
      ClaimedWebhook
      → ℕ
      → Marks
      → Effects
      → Result (Unit {0}) × List InboxEvent
      → Result Outcome × World Effects
  finish_application job now marks effects (ok tt, rows) =
      (ok processed, record { rows = rows; rest = effects })
  finish_application job now marks effects (throw e, rows) =
      catch_application job now marks rows e effects

  -- What follows `handle`, within the `try`.
  abbrev pub settle_application :
      ClaimedWebhook
      → ℕ
      → Marks
      → List InboxEvent
      → Result (Unit {0}) × Effects
      → Result Outcome × World Effects
  settle_application job now marks rows (ok tt, effects) =
      finish_application job now marks effects (
        answered marks.processing rows (
          ok tt,
          mark_processed prisma job.provider job.provider_event_id job.claim_token now rows,
        ))
  settle_application job now marks rows (throw e, effects) =
      catch_application job now marks rows e effects

  abbrev pub apply_found :
      ClaimedWebhook
      → (Fields → M Effects (Unit {0}))
      → ℕ
      → Marks
      → Option Fields
      → M (World Effects) Outcome
  apply_found job handle now marks none w = (ok claim_lost, w)
  apply_found job handle now marks (some payload) w =
      settle_application job now marks w.rows (handle payload w.rest)

  -- `BillingWebhookInboxService.applyClaimed`
  unfoldable pub apply_claimed :
      ClaimedWebhook → (Fields → M Effects (Unit {0})) → ℕ → Marks → M (World Effects) Outcome
  apply_claimed job handle now marks w =
      apply_found job handle now marks
        (find_claimed prisma job.provider job.provider_event_id job.claim_token w.rows) w

  module _ (formats : Formats) (applier : Option (Applier Effects)) where
    abbrev pub apply_with :
        Option (Applier Effects) → Text → BillingWebhookEvent → M Effects (Unit {0})
    apply_with none provider event effects = (ok tt, effects)
    apply_with (some apply) provider event effects = apply provider event effects

    abbrev pub execute_parsed : Text → Option BillingWebhookEvent → M Effects (Unit {0})
    execute_parsed provider none effects = (ok tt, effects)
    execute_parsed provider (some event) effects = apply_with applier provider event effects

    -- `ApplyWebhookEventUseCase.execute`
    unfoldable pub execute : Text → Fields → M Effects (Unit {0})
    execute provider payload = execute_parsed provider (parse_event formats payload)

    abbrev pub handle_parsed : ℕ → Marks → Option ClaimedWebhook → M (World Effects) (Unit {0})
    handle_parsed now marks none w = (throw (DomainErrors.validation validation_failed), w)
    handle_parsed now marks (some job) w =
        continue (apply_claimed job (execute job.provider) now marks w) (λ outcome w. (ok tt, w))

    -- `ApplyBillingWebhookListener.handle`
    unfoldable pub handle : Value → ℕ → Marks → M (World Effects) (Unit {0})
    handle job_data now marks = handle_parsed now marks (parse_job formats job_data)
