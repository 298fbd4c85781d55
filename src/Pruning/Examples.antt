-- ===== src/Pruning/Examples.antt =====
-- The theorems on pruning at concrete tables.
use nestjs_modular_monolith.Common.{refl, none, some, [], ◌∷◌}
use nestjs_modular_monolith.Prisma.ListClient.{list_client}
use nestjs_modular_monolith.Text.{literal}
use nestjs_modular_monolith.Billing.Json.{no_fields}
use nestjs_modular_monolith.Billing.Inbox.{InboxEvent, is_processed_before, prune_inbox}
use nestjs_modular_monolith.Retention.Loops.{IsPruned}
use nestjs_modular_monolith.Pruning.{prune_inbox-IsPruned}

abbrev done : InboxEvent
done = record {
  id = 1;
  provider = literal "pay";
  provider_event_id = literal "e1";
  payload = no_fields;
  received_at = 1000;
  processing_at = none;
  processing_token = none;
  processed_at = some 1500;
  failed_at = none;
}

prune_inbox-IsPruned_example :
    IsPruned
      (is_processed_before 13600000)
      100000
      0
      (done ∷ [])
      (prune_inbox list_client 100000000 1 (done ∷ []))
prune_inbox-IsPruned_example = prune_inbox-IsPruned list_client 100000000 1 (done ∷ []) (refl, tt)
