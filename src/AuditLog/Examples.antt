-- ===== src/AuditLog/Examples.antt =====
-- The theorem on the audit log at a concrete event.
use nestjs_modular_monolith.Common.{
  ℕ, ◌≡◌, refl, Bool, true, none, some, List, [], ◌∷◌, map, count, arith,
}
use nestjs_modular_monolith.Prisma.ListClient.{list_client}
use nestjs_modular_monolith.Text.{literal}
use nestjs_modular_monolith.Contracts.Events.{IntegrationEvent, user_deleted, user_deleted_payload}
use nestjs_modular_monolith.AuditLog.{AuditEntry, AuditEntryFilter, to_view, handle}
use nestjs_modular_monolith.AuditLog.Paging.{read_pages, read_pages-all}
use nestjs_modular_monolith.AuditLog.Recording.{is_of, handle-handle_audit}

abbrev event : IntegrationEvent
event = record {
  event_id = 5;
  name = user_deleted;
  occurred_at = 1000;
  schema_version = 1;
  correlation_id = none;
  payload = user_deleted_payload 3 1000;
}

abbrev accepts : IntegrationEvent → Bool
accepts e = true

handle-handle_audit_example :
    (count (is_of 5) (handle list_client accepts event 8 2000 []).1 ≡ 1)
    × (handle list_client accepts event 9 3000 (handle list_client accepts event 8 2000 []).1
        ≡ handle list_client accepts event 8 2000 [])
handle-handle_audit_example = handle-handle_audit list_client accepts event 8 9 2000 3000 [] refl tt

abbrev entry : ℕ → ℕ → AuditEntry
entry id occurred_at = record {
  id = id;
  occurred_at = occurred_at;
  actor_id = none;
  organization_id = none;
  action = literal "users.deleted";
  resource = literal "users";
  resource_id = none;
  request_id = none;
  schema_version = some 1;
}

abbrev any_entry : AuditEntryFilter
any_entry = record { organization_id = none; actor_id = none; resource = none }

-- Two of the entries occurred at once.
abbrev log : List AuditEntry
log = entry 1 1000 ∷ entry 2 2000 ∷ entry 3 1000 ∷ []

read_pages-all_example :
    read_pages list_client (some 1) any_entry log 4 none
    ≡ some (map to_view (entry 2 2000 ∷ entry 3 1000 ∷ entry 1 1000 ∷ []))
read_pages-all_example =
    read_pages-all list_client (some 1) any_entry log (omega arith) (refl, (refl, (refl, tt)))
