-- ===== src/Billing/Events.antt =====
-- The schemas of billing: the event that a webhook is read as, in
-- src/modules/billing/application/apply-webhook-event.use-case.ts, and the job of
-- src/modules/billing/infrastructure/listeners/apply-billing-webhook.listener.ts.
use nestjs_modular_monolith.Common.{ℕ, Bool, ◌&&◌, Option, none, some, leb, if◌then◌else◌, length}
use nestjs_modular_monolith.Text.{Text, text_eq, literal}
use nestjs_modular_monolith.Billing.Json.{Value, string, undefined, object, Fields, member}

-- `z.uuid({ version: 'v7' })`, with the number that the identifier stands for, and
-- `z.iso.datetime()`.
pub record Formats : Type 0 where
  pub uuid_v7 : Text → Option ℕ
  pub is_iso_datetime : Text → Bool

pub data EventType : Type 0 where
  subscription_updated subscription_canceled : EventType

pub data SubscriptionStatus : Type 0 where
  trialing active past_due canceled paused : SubscriptionStatus

pub record BillingWebhookEvent : Type 0 where
  pub event_type : EventType
  pub organization_id : ℕ
  pub plan_code : Option Text
  pub status : Option SubscriptionStatus
  pub provider_ref : Option Text
  pub current_period_end : Option Text

pub record ClaimedWebhook : Type 0 where
  pub provider : Text
  pub provider_event_id : Text
  pub claim_token : ℕ

abbrev pub and_then : {A B : Type 0} → Option A → (A → Option B) → Option B
and_then none f = none
and_then (some a) f = f a

-- A schema of strings, with its bounds on `length`.
abbrev pub sized_string : ℕ → ℕ → Value → Option Text
sized_string least most (string s) =
    if leb least (length s) && leb (length s) most then some s else none
sized_string least most x = none

-- `.optional()`: what is undefined passes, as none.
abbrev pub optional : {A : Type 0} → (Value → Option A) → Value → Option (Option A)
optional schema undefined = some none
optional schema x = and_then (schema x) (λ a. some (some a))

-- `z.enum` of a list of words.
abbrev pub event_type_of : Value → Option EventType
event_type_of (string s) =
    if text_eq s (literal "subscription.updated")
    then some subscription_updated
    else if text_eq s (literal "subscription.canceled")
    then some subscription_canceled
    else none
event_type_of x = none

abbrev pub status_of : Value → Option SubscriptionStatus
status_of (string s) =
    if text_eq s (literal "trialing")
    then some trialing
    else if text_eq s (literal "active")
    then some active
    else if text_eq s (literal "past_due")
    then some past_due
    else if text_eq s (literal "canceled")
    then some canceled
    else if text_eq s (literal "paused")
    then some paused
    else none
status_of x = none

module _ (formats : Formats) where
  open formats use {uuid_v7, is_iso_datetime}

  abbrev pub uuid_of : Value → Option ℕ
  uuid_of (string s) = uuid_v7 s
  uuid_of x = none

  abbrev pub datetime_of : Value → Option Text
  datetime_of (string s) = if is_iso_datetime s then some s else none
  datetime_of x = none

  -- `webhookEventSchema.safeParse`
  unfoldable pub parse_event : Fields → Option BillingWebhookEvent
  parse_event fs = and_then (event_type_of (member (literal "type") fs)) (λ event_type.
      and_then (uuid_of (member (literal "organizationId") fs)) (λ organization_id.
        and_then (optional (sized_string 1 64) (member (literal "planCode") fs)) (λ plan_code.
          and_then (optional status_of (member (literal "status") fs)) (λ status.
            and_then (optional (sized_string 0 255) (member (literal "providerRef") fs))
              (λ provider_ref.
                and_then (optional datetime_of (member (literal "currentPeriodEnd") fs))
                  (λ current_period_end. some (record {
                    event_type = event_type;
                    organization_id = organization_id;
                    plan_code = plan_code;
                    status = status;
                    provider_ref = provider_ref;
                    current_period_end = current_period_end;
                  })))))))

  -- `jobSchema.safeParse`
  unfoldable pub parse_job : Value → Option ClaimedWebhook
  parse_job (object fs) = and_then (sized_string 1 32 (member (literal "provider") fs)) (λ provider.
      and_then (sized_string 1 255 (member (literal "providerEventId") fs)) (λ event_id.
        and_then (uuid_of (member (literal "claimToken") fs)) (λ token.
          some
            (record { provider = provider; provider_event_id = event_id; claim_token = token }))))
  parse_job x = none
