-- ===== src/Queue.antt =====
-- src/platform/queue/bullmq.service.ts: the queues of the application over BullMQ. Connections, events,
-- logging and the shutdown are left out.
pub mod Definitions
pub mod Schedules
pub mod Backoff
pub mod Handlers
pub mod Examples
use mathlib.Core.List.{Permᴰ}
use nestjs_modular_monolith.Common.{
  ℕ, zero, suc, ◌+◌, ◌-◌, ◌*◌, ◌^◌, ◌≡◌, Bool, true, false, not, ◌&&◌, ◌||◌, Option, none, some,
  List, [], ◌∷◌, ◌++◌, ◌==◌, if◌then◌else◌, keep, min, length,
}
use nestjs_modular_monolith.Errors.{Result, ok, throw, M, plain_error}
use nestjs_modular_monolith.Text.{Text, text_eq, literal}
use nestjs_modular_monolith.Http.{starts_with}
use nestjs_modular_monolith.Queue.Definitions.{
  QueueName, queue_text, QueueDefinition, queue_definitions, CronSchedule, cron_schedules,
}

pub data BackoffType : Type 0 where
  bounded_exponential fixed : BackoffType

pub data Retention : Type 0 where
  -- Dropped at once.
  at_once : Retention
  -- For so many seconds, and at most so many jobs.
  up_to : (age count : ℕ) → Retention

-- The jitter is in per cent.
pub record DefaultJobOptions : Type 0 where
  pub attempts : ℕ
  pub backoff_type : BackoffType
  pub backoff_delay : ℕ
  pub jitter : Option ℕ
  pub remove_on_fail : Retention
  pub remove_on_complete : Retention

unfoldable pub default_job_options : QueueDefinition → DefaultJobOptions
default_job_options definition = record {
  attempts = definition.retry_limit + 1;
  backoff_type = if definition.retry_backoff then bounded_exponential else fixed;
  backoff_delay = definition.retry_delay_seconds * 1000;
  jitter = if definition.retry_backoff then some 20 else none;
  remove_on_fail = up_to definition.failed_job_retention_seconds 10000;
  remove_on_complete =
      if definition.completed_job_retention_seconds == 0
      then at_once
      else up_to definition.completed_job_retention_seconds 1000;
}

-- `backoffStrategy`; a difference below zero counts as zero, as `Math.max` has it.
unfoldable pub backoff_strategy : QueueDefinition → ℕ → BackoffType → ℕ
backoff_strategy definition attempts_made fixed = 0
backoff_strategy definition attempts_made bounded_exponential =
    min (definition.retry_delay_seconds * 1000 * 2 ^ (attempts_made - 1))
      (definition.retry_delay_max_seconds * 1000)

abbrev pub find_definition : Text → List QueueDefinition → Option QueueDefinition
find_definition queue [] = none
find_definition queue (d ∷ ds) =
    if text_eq (queue_text d.name) queue then some d else find_definition queue ds

pub record SendOptions : Type 0 where
  pub start_after_seconds : Option ℕ
  pub singleton_key : Option Text
  pub singleton_seconds : Option ℕ

pub record Deduplication : Type 0 where
  pub id : Text
  pub ttl : Option ℕ

pub record AddOptions : Type 0 where
  pub delay : Option ℕ
  pub deduplication : Option Deduplication

abbrev pub in_milliseconds : Option ℕ → Option ℕ
in_milliseconds none = none
in_milliseconds (some seconds) = some (seconds * 1000)

abbrev pub deduplication_of : Option Text → Option ℕ → Option Deduplication
deduplication_of none seconds = none
deduplication_of (some key) seconds = some (record { id = key; ttl = in_milliseconds seconds })

unfoldable pub add_options : SendOptions → AddOptions
add_options options = record {
  delay = in_milliseconds options.start_after_seconds;
  deduplication = deduplication_of options.singleton_key options.singleton_seconds;
}

-- `add` is BullMQ's; it answers the identifier of the job, which may be absent.
module _ {State Payload : Type 0} (add : Text → Payload → AddOptions → M State (Option Text)) where
  abbrev pub send_found :
      Option QueueDefinition → Text → Payload → SendOptions → M State (Option Text)
  send_found none queue payload options s = (throw plain_error, s)
  send_found (some definition) queue payload options s = add queue payload (add_options options) s

  unfoldable pub send : Text → Payload → SendOptions → M State (Option Text)
  send queue = send_found (find_definition queue queue_definitions) queue

pub data Repeat : Type 0 where
  pattern : Text → Repeat
  every : ℕ → Repeat

-- A key that is absent, or no text, is none.
pub record Scheduler : Type 0 where
  pub key : Option Text
  pub repeat : Repeat

abbrev pub has_key : Text → Option Text → Bool
has_key id none = false
has_key id (some key) = text_eq key id

-- The schedulers of one queue in Redis: `getJobSchedulers` lists them in some order,
-- `removeJobScheduler` drops the one under a key, and `upsertJobScheduler` writes one under a key, in the
-- place of one that was there.
pub record JobSchedulers : Type 1 where
  pub State : Type 0
  pub get_job_schedulers : State → List Scheduler
  pub remove_job_scheduler : Text → State → State
  pub upsert_job_scheduler : Text → Repeat → State → State
  pub get-remove :
      (id : Text) (s : State)
      → Permᴰ
          (get_job_schedulers (remove_job_scheduler id s))
          (keep (λ (x : Scheduler). not (has_key id x.key)) (get_job_schedulers s))
  pub get-upsert :
      (key : Text) (repeat : Repeat) (s : State)
      → Permᴰ (get_job_schedulers (upsert_job_scheduler key repeat s)) (
          (record { key = some key; repeat = repeat })
          ∷ keep (λ (x : Scheduler). not (has_key key x.key)) (get_job_schedulers s))

abbrev pub schedule_prefix : Text → Text
schedule_prefix queue = literal "schedule:" ++ queue

abbrev pub is_stale_key : Text → Text → Option Text → Bool
is_stale_key queue kept none = false
is_stale_key queue kept (some id) = not (text_eq id kept) && starts_with (schedule_prefix queue) id

abbrev pub key_or : Option Text → Text → Text
key_or none queue = schedule_prefix queue
key_or (some repeat_key) queue = repeat_key

module _ (schedulers : JobSchedulers) where
  open schedulers use {State, get_job_schedulers, remove_job_scheduler, upsert_job_scheduler}

  abbrev pub remove_if_stale : Text → Text → Option Text → State → State
  remove_if_stale queue kept none s = s
  remove_if_stale queue kept (some id) s =
      if is_stale_key queue kept (some id) then remove_job_scheduler id s else s

  abbrev pub remove_each : Text → Text → List Scheduler → State → State
  remove_each queue kept [] s = s
  remove_each queue kept (x ∷ xs) s = remove_each queue kept xs (remove_if_stale queue kept x.key s)

  unfoldable pub remove_stale_schedulers : Text → Text → State → State
  remove_stale_schedulers queue kept s = remove_each queue kept (get_job_schedulers s) s

  abbrev pub upsert_found :
      Option QueueDefinition → Text → Repeat → Option Text → M State (Unit {0})
  upsert_found none queue repeat repeat_key s = (throw plain_error, s)
  upsert_found (some definition) queue repeat repeat_key s =
      let key = key_or repeat_key queue in
      (ok tt, upsert_job_scheduler key repeat (remove_stale_schedulers queue key s))

  unfoldable pub upsert_schedule : Text → Repeat → Option Text → M State (Unit {0})
  upsert_schedule queue repeat repeat_key =
      upsert_found (find_definition queue queue_definitions) queue repeat repeat_key

  unfoldable pub schedule : Text → Text → Option Text → M State (Unit {0})
  schedule queue cron = upsert_schedule queue (pattern cron)

  unfoldable pub schedule_every : Text → ℕ → Option Text → M State (Unit {0})
  schedule_every queue every_seconds = upsert_schedule queue (every (every_seconds * 1000))

-- The failed jobs that are retried: none below one, otherwise the first so many.
unfoldable pub failed_range : ℕ → Option (ℕ × ℕ)
failed_range limit = if limit == 0 then none else some (0, limit - 1)
