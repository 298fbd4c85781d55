-- ===== src/Outbox.antt =====
-- src/platform/messaging/outbox-drain.service.ts and the `dispatch` of
-- src/platform/queue/bullmq-event-publisher.ts: how the rows of the outbox reach the queues.
mod Rows
pub mod Attempts
pub mod Delivery
pub mod Retention
mod Examples
use nestjs_modular_monolith.Common.{
  ℕ, zero, suc, ◌+◌, ◌-◌, ◌≡◌, Bool, true, false, not, ◌&&◌, ◌||◌, Option, none, some, List, [],
  ◌∷◌, ltb, leb, ◌==◌, if◌then◌else◌, is_null, length, take, any, keep, patch, map,
}
use nestjs_modular_monolith.Errors.{Result, ok, throw, M, continue, plain_error}
use nestjs_modular_monolith.Queue.Definitions.{
  QueueName, users_create_profile, users_delete_profile, audit_record_event, mail_send_welcome,
  upload_purge_user_files,
}
use nestjs_modular_monolith.Prisma.{PrismaClient}
use nestjs_modular_monolith.Contracts.Events.{
  IntegrationEventName, user_registered, user_email_verified, user_deleted, upload_confirmed,
  organization_archived, organization_restored, organization_purged, IntegrationEvent,
}

abbrev pub claim_lease_ms : ℕ
claim_lease_ms = 120000

abbrev pub max_relay_attempts : ℕ
max_relay_attempts = 10

abbrev pub max_passes_per_run : ℕ
max_passes_per_run = 20

-- A row of `messaging.outbox_events`; the text of the last error, which no code reads, is left out.
pub record OutboxRow : Type 0 where
  pub event : IntegrationEvent
  pub drained_at : Option ℕ
  pub dead_lettered_at : Option ℕ
  pub claimed_at : Option ℕ
  pub claim_token : Option ℕ
  pub attempt_count : ℕ

-- `BullMqService.send`, and whether a queue has accepted an event at some time.
pub record JobQueue : Type 1 where
  pub Jobs : Type 0
  pub send : QueueName → IntegrationEvent → M Jobs (Unit {0})
  pub accepted : QueueName → ℕ → Jobs → Bool
  pub send_accepted :
      (q : QueueName) (e : IntegrationEvent) (j : Jobs)
      → (send q e j).0 ≡ ok tt
      → accepted q e.event_id (send q e j).1 ≡ true
  pub send_keeps :
      (p q : QueueName) (id : ℕ) (e : IntegrationEvent) (j : Jobs)
      → accepted p id j ≡ true
      → accepted p id (send q e j).1 ≡ true

pub record World (Jobs : Type 0) : Type 0 where
  pub rows : List OutboxRow
  pub jobs : Jobs

-- `EVENT_SUBSCRIBERS` of src/platform/queue/queues.ts.
abbrev pub event_subscribers : IntegrationEventName → List QueueName
event_subscribers user_registered = users_create_profile ∷ audit_record_event ∷ []
event_subscribers user_email_verified = audit_record_event ∷ mail_send_welcome ∷ []
event_subscribers user_deleted =
    users_delete_profile ∷ audit_record_event ∷ upload_purge_user_files ∷ []
event_subscribers upload_confirmed = audit_record_event ∷ []
event_subscribers organization_archived = audit_record_event ∷ []
event_subscribers organization_restored = audit_record_event ∷ []
event_subscribers organization_purged = audit_record_event ∷ []

abbrev pub is_some_of : Option ℕ → ℕ → Bool
is_some_of none token = false
is_some_of (some t) token = t == token

-- `claimed_at IS NULL OR claimed_at < now() - lease`
abbrev pub is_lease_over : ℕ → Option ℕ → Bool
is_lease_over now none = true
is_lease_over now (some t) = ltb t (now - claim_lease_ms)

abbrev pub is_unsettled : OutboxRow → Bool
is_unsettled r = is_null r.drained_at && is_null r.dead_lettered_at

abbrev pub is_claimable : ℕ → OutboxRow → Bool
is_claimable now r =
    is_unsettled r && ltb r.attempt_count max_relay_attempts && is_lease_over now r.claimed_at

abbrev pub is_exhausted : ℕ → OutboxRow → Bool
is_exhausted now r =
    is_unsettled r && leb max_relay_attempts r.attempt_count && is_lease_over now r.claimed_at

-- Rows are told apart by the primary key, the identifier of the event.
abbrev pub is_row_of : List OutboxRow → OutboxRow → Bool
is_row_of rows r = any (λ (s : OutboxRow). s.event.event_id == r.event.event_id) rows

-- `ORDER BY occurred_at, event_id`
abbrev pub occurred_first : OutboxRow → OutboxRow → Bool
occurred_first a b =
    ltb a.event.occurred_at b.event.occurred_at
    || a.event.occurred_at == b.event.occurred_at && leb a.event.event_id b.event.event_id

abbrev pub set_claim : ℕ → ℕ → OutboxRow → OutboxRow
set_claim token now r = record r {
  claimed_at = some now;
  claim_token = some token;
  attempt_count = r.attempt_count + 1;
}

abbrev pub clear_claim : OutboxRow → OutboxRow
clear_claim r = record r { claimed_at = none; claim_token = none }

abbrev pub set_drained : ℕ → OutboxRow → OutboxRow
set_drained now r = record r { drained_at = some now; claimed_at = none; claim_token = none }

abbrev pub set_dead : ℕ → OutboxRow → OutboxRow
set_dead now r = record r { dead_lettered_at = some now; claimed_at = none; claim_token = none }

-- The statements. `now` is the clock of the database.
unfoldable pub quarantine_exhausted_rows : ℕ → List OutboxRow → List OutboxRow
quarantine_exhausted_rows now rows = patch (is_exhausted now) (set_dead now) rows

unfoldable pub mark_drained : ℕ → ℕ → ℕ → List OutboxRow → List OutboxRow
mark_drained event_id token now rows =
    patch
      (λ r.
        r.event.event_id == event_id
        && is_some_of r.claim_token token
        && is_null r.dead_lettered_at)
      (set_drained now) rows

unfoldable pub release_claim : ℕ → ℕ → List OutboxRow → List OutboxRow
release_claim event_id token rows =
    patch (λ r. r.event.event_id == event_id && is_some_of r.claim_token token) clear_claim rows

unfoldable pub quarantine_rows : List OutboxRow → ℕ → ℕ → List OutboxRow → List OutboxRow
quarantine_rows invalid token now rows =
    patch (λ r. is_row_of invalid r && is_some_of r.claim_token token) (set_dead now) rows

-- The rows that the statement returns, and the table. No other transaction holds a lock on a row.
unfoldable pub claim_batch :
    PrismaClient → ℕ → ℕ → ℕ → List OutboxRow → List OutboxRow × List OutboxRow
claim_batch prisma token batch_size now rows =
    let chosen = take batch_size (prisma.order_by occurred_first (keep (is_claimable now) rows)) in
    let met = λ (r : OutboxRow). is_claimable now r && is_row_of chosen r in
    (map (set_claim token now) (keep met rows), patch met (set_claim token now) rows)

module _ (parses : IntegrationEvent → Bool) (queue : JobQueue) where
  pub send_all : List QueueName → IntegrationEvent → M queue.Jobs (Unit {0})
  send_all [] event jobs = (ok tt, jobs)
  send_all (target ∷ targets) event jobs =
      continue (queue.send target event jobs) (λ _. send_all targets event)

  unfoldable pub dispatch : IntegrationEvent → M queue.Jobs (Unit {0})
  unfolding send_all
  dispatch event jobs =
      if not (parses event)
      then (throw plain_error, jobs)
      else send_all (event_subscribers event.name) event jobs

  -- The `try` and the `catch` of one row; the answer says whether it was dispatched.
  abbrev pub after_dispatch :
      ℕ → ℕ → ℕ → List OutboxRow → Result (Unit {0}) × queue.Jobs → Bool × World queue.Jobs
  after_dispatch event_id token now rows (ok _, jobs) =
      (true, record { rows = mark_drained event_id token now rows; jobs = jobs })
  after_dispatch event_id token now rows (throw _, jobs) =
      (false, record { rows = release_claim event_id token rows; jobs = jobs })

  pub relay : List OutboxRow → ℕ → ℕ → ℕ → World queue.Jobs → ℕ × World queue.Jobs
  relay [] token now dispatched w = (dispatched, w)
  relay (row ∷ publishable) token now dispatched w =
      let (sent, v) =
        after_dispatch row.event.event_id token now w.rows (dispatch row.event w.jobs) in
      relay publishable token now (if sent then dispatched + 1 else dispatched) v

  abbrev pub quarantine_some : List OutboxRow → ℕ → ℕ → List OutboxRow → List OutboxRow
  quarantine_some [] token now rows = rows
  quarantine_some (r ∷ invalid) token now rows = quarantine_rows (r ∷ invalid) token now rows

  -- What follows `claimBatch`, with `partitionByContract`.
  abbrev pub settle_claimed : List OutboxRow → ℕ → ℕ → World queue.Jobs → ℕ × World queue.Jobs
  settle_claimed rows token now w =
      let invalid = keep (λ (r : OutboxRow). not (parses r.event)) rows in
      let (dispatched, v) =
        relay (keep (λ (r : OutboxRow). parses r.event) rows) token now 0
          (record w { rows = quarantine_some invalid token now w.rows }) in
      (dispatched + length invalid, v)

  module _ (prisma : PrismaClient) (batch_size : ℕ) where
    -- `token` is what `newId()` returns.
    unfoldable pub drain_once : ℕ → ℕ → World queue.Jobs → ℕ × World queue.Jobs
    unfolding relay
    drain_once token now w =
        let (claimed, rows) =
          claim_batch prisma token batch_size now (quarantine_exhausted_rows now w.rows) in
        settle_claimed claimed token now (record w { rows = rows })

    -- The loop of `drainUntilIdle` with `passes` left; a pass reads the clock and draws a token.
    pub drain_passes : ℕ → (ℕ → ℕ) → (ℕ → ℕ) → ℕ → World queue.Jobs → ℕ × World queue.Jobs
    drain_passes zero tokens clock settled w = (settled, w)
    drain_passes (suc passes) tokens clock settled w =
        let (drained, v) = drain_once (tokens passes) (clock passes) w in
        if ltb drained batch_size
        then (settled + drained, v)
        else drain_passes passes tokens clock (settled + drained) v

    unfoldable pub drain_until_idle : (ℕ → ℕ) → (ℕ → ℕ) → World queue.Jobs → ℕ × World queue.Jobs
    unfolding drain_passes
    drain_until_idle tokens clock w = drain_passes max_passes_per_run tokens clock 0 w
