-- ===== src/Pruning.antt =====
-- What the nightly jobs delete: the pruning use cases of src/modules/billing, src/modules/notifications
-- and src/modules/audit-log.
pub mod Examples
use nestjs_modular_monolith.Common.{ℕ, ◌*◌, ◌-◌, ◌≡◌, Bool, true, List, arith, ltb, ◌==◌, ==_refl}
use nestjs_modular_monolith.Prisma.{PrismaClient}
use nestjs_modular_monolith.Prisma.Rows.{IsUnique}
use nestjs_modular_monolith.Text.{text_eq, text_eq_comm, text_eq_refl, eq_of_text_eq}
use nestjs_modular_monolith.Retention.{prune_passes}
use nestjs_modular_monolith.Retention.Batches.{delete_batch-IsBatch}
use nestjs_modular_monolith.Retention.Loops.{IsPruned, prune_passes-IsPruned}
use nestjs_modular_monolith.Billing.Inbox.{
  InboxEvent, same_id, is_processed_before, processed_first, prune_inbox, delete_processed_before,
}
use nestjs_modular_monolith.Notifications.{
  SentNotification, same_key, sent_first, is_sent_before, prune_ledger, delete_sent_before,
}
use nestjs_modular_monolith.AuditLog.{
  AuditEntry, same_entry, occurred_first, is_older_than, prune_entries, delete_older_than,
}

-- The inbox of webhooks keeps an event for so many days after it was processed: a run deletes up to a
-- hundred thousand of the events that were processed before, reports their number, and keeps every
-- other row, in a table with one row for each identifier.
pub prune_inbox-IsPruned :
    (prisma : PrismaClient) (now days : ℕ) (rows : List InboxEvent)
    → IsUnique same_id rows
    → IsPruned
        (is_processed_before (now - days * 86400000))
        100000
        0
        rows
        (prune_inbox prisma now days rows)
unfolding prune_inbox delete_processed_before
prune_inbox-IsPruned prisma now days rows u =
    prune_passes-IsPruned same_id (is_processed_before (now - days * 86400000)) _ 5000
      (λ t.
        delete_batch-IsBatch same_id (λ a b. ground arith) (λ a b c. ground arith)
          (λ a. ==_refl a.id) prisma processed_first _ 5000 t)
      20 0 rows (omega arith) u

-- The ledger of notifications and the audit log likewise, by the times at which a notification was
-- sent and at which an event occurred.
pub prune_ledger-prune_entries :
    (prisma : PrismaClient) (now days : ℕ) (sent : List SentNotification)
    (entries : List AuditEntry)
    → IsUnique same_key sent
    → IsUnique same_entry entries
    → IsPruned
        (is_sent_before (now - days * 86400000))
        100000
        0
        sent
        (prune_ledger prisma now days sent)
      × IsPruned
          (is_older_than (now - days * 86400000))
          100000
          0
          entries
          (prune_entries prisma days now entries)
unfolding prune_ledger delete_sent_before prune_entries delete_older_than
prune_ledger-prune_entries prisma now days sent entries u v = (
  prune_passes-IsPruned same_key _ _ 5000
      (λ t.
        delete_batch-IsBatch same_key (λ a b. text_eq_comm a.idempotency_key b.idempotency_key)
          joins (λ a. text_eq_refl a.idempotency_key) prisma sent_first _ 5000 t)
      20 0 sent (omega arith) u,
  prune_passes-IsPruned same_entry _ _ 5000
      (λ t.
        delete_batch-IsBatch same_entry (λ a b. ground arith) (λ a b c. ground arith)
          (λ a. ==_refl a.id) prisma occurred_first _ 5000 t)
      20 0 entries (omega arith) v,
)
  where
    joins :
        (a b c : SentNotification) → same_key a c ≡ true → same_key b c ≡ true → same_key a b ≡ true
    joins a b c h k =
        rw (eq_of_text_eq a.idempotency_key c.idempotency_key h)
          (rw (text_eq_comm c.idempotency_key b.idempotency_key) k)
