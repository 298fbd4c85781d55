-- ===== src/Outbox/Examples.antt =====
-- The theorems on the outbox at a concrete table and queue.
use nestjs_modular_monolith.Common.{
  ℕ, ◌+◌, ◌≡◌, keep, refl, Bool, true, false, ◌||◌, none, [], ◌∷◌, arith, ◌==◌,
}
use nestjs_modular_monolith.Errors.{ok}
use nestjs_modular_monolith.Prisma.ListClient.{list_client}
use nestjs_modular_monolith.Contracts.Events.{IntegrationEvent, user_deleted, user_deleted_payload}
use nestjs_modular_monolith.Outbox.{OutboxRow, JobQueue, World, drain_until_idle, is_unsettled}
use nestjs_modular_monolith.Outbox.Attempts.{IsBounded, drain_until_idle-IsBounded}
use nestjs_modular_monolith.Outbox.Retention.{
  prune_until_idle, count_undrained, prune_until_idle_keeps,
}
use nestjs_modular_monolith.Outbox.Delivery.{IsDelivered, drain_until_idle-IsDelivered}

-- Jobs as the set of the events that some queue has accepted.
abbrev event_queue : JobQueue
event_queue = record {
  Jobs = ℕ → Bool;
  send = λ q e j. (ok tt, λ i. e.event_id == i || j i);
  accepted = λ q i j. j i;
  send_accepted = λ q e j h. ground arith;
  send_keeps = λ p q i e j h. ground arith;
}

abbrev deleted : IntegrationEvent
deleted = record {
  event_id = 5;
  name = user_deleted;
  occurred_at = 1000;
  schema_version = 1;
  correlation_id = none;
  payload = user_deleted_payload 3 1000;
}

abbrev waiting : OutboxRow
waiting = record {
  event = deleted;
  drained_at = none;
  dead_lettered_at = none;
  claimed_at = none;
  claim_token = none;
  attempt_count = 9;
}

abbrev world : World event_queue.Jobs
world = record { rows = waiting ∷ []; jobs = λ i. false }

abbrev accepts_all : IntegrationEvent → Bool
accepts_all e = true

drain_until_idle-IsBounded_example :
    IsBounded
      (drain_until_idle accepts_all event_queue list_client 10
        (λ n. n + 1)
        (λ n. 5000)
        world).1.rows
drain_until_idle-IsBounded_example =
    drain_until_idle-IsBounded accepts_all event_queue list_client 10 (λ n. n + 1) (λ n. 5000) world
      (omega arith, tt)

drain_until_idle-IsDelivered_example :
    IsDelivered event_queue
      (drain_until_idle accepts_all event_queue list_client 10 (λ n. n + 1) (λ n. 5000) world).1
drain_until_idle-IsDelivered_example =
    drain_until_idle-IsDelivered accepts_all event_queue list_client 10 (λ n. n + 1) (λ n. 5000)
      world (refl, tt) (refl, tt)

prune_until_idle_keeps_example :
    (keep is_unsettled (prune_until_idle list_client 7 (λ n. 5000) (waiting ∷ [])).1
      ≡ keep is_unsettled (waiting ∷ []))
    × (count_undrained (prune_until_idle list_client 7 (λ n. 5000) (waiting ∷ [])).1
        ≡ count_undrained (waiting ∷ []))
prune_until_idle_keeps_example =
    prune_until_idle_keeps list_client 7 (λ n. 5000) (waiting ∷ []) (refl, tt)
