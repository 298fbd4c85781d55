-- ===== src/Billing/Examples.antt =====
-- The theorems on billing at a concrete inbox, queue and cache.
use nestjs_modular_monolith.Common.{
  ℕ, ◌+◌, ◌≡◌, ◌⊎◌, ◌≤◌, length, refl, true, false, none, some, List, [], ◌∷◌, arith,
}
use nestjs_modular_monolith.Errors.{ok, throw, M, plain_error}
use nestjs_modular_monolith.Prisma.{Answer, answers}
use nestjs_modular_monolith.Prisma.ListClient.{list_client}
use nestjs_modular_monolith.Text.{Text, literal, trim}
use nestjs_modular_monolith.Billing.Json.{
  Value, object, string, Fields, no_fields, field, is_json_object, to_json_object,
}
use nestjs_modular_monolith.Billing.Inbox.{InboxEvent, ClaimInput, ClaimMoment, claim, mark_failed}
use nestjs_modular_monolith.Billing.Inbox.Views.{state_of, processed}
use nestjs_modular_monolith.Billing.Inbox.Machine.{Command, claims, fails, run, IsFresh}
use nestjs_modular_monolith.Billing.Inbox.Traces.{run_all, step_all, run_all-step_all}
use nestjs_modular_monolith.Billing.Events.{Formats, ClaimedWebhook, parse_job}
use nestjs_modular_monolith.Billing.Verifier.{
  Crypto, verify, verify_outcome, decode_signature, parse_json_object, IsAuthentic, rejected,
}
use nestjs_modular_monolith.Billing.Webhooks.{
  World, Marks, WebhookQueue, WebhookRequest, Applier, processed as applied, handle, apply_claimed,
  post, receive, dispatch_claimed,
}
use nestjs_modular_monolith.Billing.Webhooks.Applications.{
  handle-handle, apply_claimed-claim, job_of,
}
use nestjs_modular_monolith.Billing.Webhooks.Losses.{post_undispatched, signed}
use nestjs_modular_monolith.Billing.Entitlements.{Subscription, max_cached_tenants}
use nestjs_modular_monolith.Billing.Entitlements.Cache.{AllRecent, ask_all, get_for_served}

abbrev pay : Text
pay = literal "pay"

abbrev event_1 : Text
event_1 = literal "e1"

abbrev input : ClaimInput
input = record { provider = pay; provider_event_id = event_1; payload = no_fields }

abbrev moment : ClaimMoment
moment = record { now = 1000; id = 1; token = 5 }

abbrev later : ClaimMoment
later = record { now = 2000; id = 2; token = 6 }

abbrev held_row : InboxEvent
held_row = record {
  id = 1;
  provider = pay;
  provider_event_id = event_1;
  payload = no_fields;
  received_at = 1000;
  processing_at = some 1000;
  processing_token = some 5;
  processed_at = none;
  failed_at = none;
}

abbrev failed_row : InboxEvent
failed_row = record held_row {
  processing_at = none;
  processing_token = none;
  failed_at = some 1500;
}

abbrev commands : List Command
commands = fails pay event_1 5 1500 ∷ claims input later ∷ []

is_json : is_json_object input.payload ≡ true
unfolding is_json_object
is_json = refl

fails-IsFresh :
    IsFresh (claims input later) (run list_client (fails pay event_1 5 1500) (held_row ∷ [])).1
unfolding mark_failed
fails-IsFresh = (refl, tt)

run_all-step_all_example :
    state_of pay event_1 (run_all list_client commands (held_row ∷ []))
    ≡ step_all pay event_1 commands (state_of pay event_1 (held_row ∷ []))
run_all-step_all_example =
    run_all-step_all list_client commands (held_row ∷ []) pay event_1 ((refl, tt), (refl, tt))
      (tt, (fails-IsFresh, tt))

abbrev formats : Formats
formats = record { uuid_v7 = λ s. some 5; is_iso_datetime = λ s. true }

abbrev job_data : Value
job_data = object (
    field (literal "provider") (string pay) (
      field (literal "providerEventId") (string event_1)
        (field (literal "claimToken") (string (literal "t")) no_fields)))

abbrev job : ClaimedWebhook
job = record { provider = pay; provider_event_id = event_1; claim_token = 5 }

parsed : parse_job formats job_data ≡ some job
unfolding parse_job
parsed = refl

abbrev world : World ℕ
world = record { rows = held_row ∷ []; rest = 0 }

abbrev failing : Applier ℕ
failing provider event effects = (throw plain_error, effects)

-- `markProcessed` is lost on its way, and `markFailed` is carried out.
abbrev lossy : Marks
lossy = record { processing = Answer.fails plain_error false; failing = answers }

handle-handle_example :
    handle list_client formats none job_data 3000 lossy
      (handle list_client formats (some failing) job_data 2000 lossy world).1
    ≡ (ok tt, (handle list_client formats (some failing) job_data 2000 lossy world).1)
handle-handle_example =
    handle-handle list_client formats (some failing) none job_data job 2000 3000 lossy lossy world
      parsed refl ((refl, tt), (refl, tt))

abbrev counts : Fields → M ℕ (Unit {0})
counts fs n = (ok tt, n + 1)

apply_claimed-claim_example :
    ((claim list_client input later (failed_row ∷ [])).0 ≡ ok (some 6))
    × ((apply_claimed list_client
          (job_of input 6)
          counts
          2500
          (record { processing = answers; failing = answers })
          (record { rows = (claim list_client input later (failed_row ∷ [])).1; rest = 0 })).0
        ≡ ok applied)
    × (state_of pay event_1
          (apply_claimed list_client
            (job_of input 6)
            counts
            2500
            (record { processing = answers; failing = answers })
            (record {
              rows = (claim list_client input later (failed_row ∷ [])).1;
              rest = 0;
            })).1.rows
        ≡ processed)
apply_claimed-claim_example =
    apply_claimed-claim list_client input later counts 2500 answers (failed_row ∷ []) 0
      ((refl, tt), (refl, tt)) (refl, tt) is_json refl (λ fs. refl)

abbrev crypto : Crypto
crypto = record {
  hmac_sha256 = λ key body. 1 ∷ 2 ∷ [];
  from_hex = λ s. 1 ∷ 2 ∷ [];
  json_parse = λ s. some (object no_fields);
}

abbrev key : Text
key = literal "key"

abbrev body : Text
body = literal "{}"

abbrev signature : Text
signature = literal " 0102 "

verify_outcome_example :
    ((fs : Fields) × IsAuthentic crypto key body signature fs
      × (verify crypto key body signature ≡ ok fs))
    ⊎ (((fs : Fields) → ¬ IsAuthentic crypto key body signature fs)
        × (verify crypto key body signature ≡ throw rejected))
verify_outcome_example = verify_outcome crypto key body signature

authentic : verify crypto key body signature ≡ ok no_fields
unfolding verify decode_signature parse_json_object trim
authentic = refl

abbrev broken_queue : WebhookQueue
broken_queue = record { Jobs = ℕ; send = λ event token jobs. (throw plain_error, jobs) }

abbrev request : WebhookRequest
request = signed pay event_1 body signature

post-IsFresh :
    IsFresh
      (claims input later)
      (post list_client crypto
        (some key)
        broken_queue
        request
        moment
        (record { rows = []; rest = 0 })).1.rows
unfolding post receive verify decode_signature parse_json_object trim claim to_json_object
    dispatch_claimed
post-IsFresh = (refl, tt)

post_undispatched_example :
    ((post list_client crypto
        (some key)
        broken_queue
        request
        moment
        (record { rows = []; rest = 0 })).0
      ≡ throw plain_error)
    × (post list_client crypto
          (some key)
          broken_queue
          request
          later
          (post list_client crypto
            (some key)
            broken_queue
            request
            moment
            (record { rows = []; rest = 0 })).1
        ≡ (
          ok tt,
          (post list_client crypto
              (some key)
              broken_queue
              request
              moment
              (record { rows = []; rest = 0 })).1,
        ))
post_undispatched_example =
    post_undispatched list_client crypto key broken_queue pay event_1 body signature no_fields
      moment later (record { rows = []; rest = 0 }) plain_error refl refl authentic is_json (tt, tt)
      refl (omega arith) tt post-IsFresh refl

abbrev no_subscriptions : ℕ → List Subscription
no_subscriptions t = []

get_for_served_example :
    AllRecent (λ n. true) list_client no_subscriptions ((3, 10) ∷ (3, 20) ∷ []) []
    × (length (ask_all (λ n. true) list_client no_subscriptions ((3, 10) ∷ (3, 20) ∷ []) [])
        ≤ max_cached_tenants)
get_for_served_example =
    get_for_served (λ n. true) list_client no_subscriptions ((3, 10) ∷ (3, 20) ∷ [])
      (omega arith, (omega arith, tt))
