-- ===== src/AuditLog.antt =====
-- src/modules/audit-log: domain/audit-entry.ts, infrastructure/prisma-audit.repository.ts, the use cases
-- that record, list and prune, and infrastructure/listeners/record-integration-event.listener.ts.
-- A cursor is taken as it is decoded.
pub mod Recording
pub mod Paging
pub mod Examples
use nestjs_modular_monolith.Common.{
  ℕ, ◌+◌, ◌*◌, ◌-◌, Bool, true, false, not, ◌&&◌, ◌||◌, Option, none, some, List, [], ◌∷◌, leb, ltb,
  ◌==◌, if◌then◌else◌, keep, take, map, length, min,
}
use nestjs_modular_monolith.Errors.{Result, ok, throw, M, audit_entry_invalid}
use nestjs_modular_monolith.Errors.DomainErrors
use nestjs_modular_monolith.Prisma.{PrismaClient}
use nestjs_modular_monolith.Text.{Text, text_eq, literal, split}
use nestjs_modular_monolith.Contracts.Events.{
  IntegrationEvent, IntegrationEventName, user_registered, user_email_verified, user_deleted,
  upload_confirmed, organization_archived, organization_restored, organization_purged, Payload,
  user_registered_payload, user_email_verified_payload, user_deleted_payload,
  upload_confirmed_payload, organization_payload,
}
use nestjs_modular_monolith.Retention.{delete_batch, prune_passes}

-- Of the metadata, the one member that the source writes: the version of the event's schema.
pub record AuditEntry : Type 0 where
  pub id : ℕ
  pub occurred_at : ℕ
  pub actor_id : Option ℕ
  pub organization_id : Option ℕ
  pub action : Text
  pub resource : Text
  pub resource_id : Option ℕ
  pub request_id : Option ℕ
  pub schema_version : Option ℕ

pub record CreateAuditEntryInput : Type 0 where
  pub action : Text
  pub resource : Text
  pub actor_id : Option ℕ
  pub organization_id : Option ℕ
  pub resource_id : Option ℕ
  pub request_id : Option ℕ
  pub schema_version : Option ℕ
  pub occurred_at : Option ℕ
  pub id : Option ℕ

-- `a ?? b`
abbrev pub or_else : Option ℕ → ℕ → ℕ
or_else none b = b
or_else (some a) b = a

abbrev pub first_of : Option ℕ → Option ℕ → Option ℕ
first_of none b = b
first_of (some a) b = some a

-- `new_id` is what `newId()` returns, and `now` the clock.
unfoldable pub create_audit_entry : CreateAuditEntryInput → ℕ → ℕ → AuditEntry
create_audit_entry input new_id now = record {
  id = or_else input.id new_id;
  occurred_at = or_else input.occurred_at now;
  actor_id = input.actor_id;
  organization_id = input.organization_id;
  action = input.action;
  resource = input.resource;
  resource_id = input.resource_id;
  request_id = input.request_id;
  schema_version = input.schema_version;
}

abbrev pub same_entry : AuditEntry → AuditEntry → Bool
same_entry a b = a.id == b.id

pub record AuditEntryFilter : Type 0 where
  pub organization_id : Option ℕ
  pub actor_id : Option ℕ
  pub resource : Option Text

pub record Cursor : Type 0 where
  pub sort_value : ℕ
  pub id : ℕ

abbrev pub equals_some : Option ℕ → ℕ → Bool
equals_some none n = false
equals_some (some m) n = m == n

-- A condition that the filter may leave out.
abbrev pub filters : Option ℕ → Option ℕ → Bool
filters none column = true
filters (some wanted) column = equals_some column wanted

abbrev pub filters_text : Option Text → Text → Bool
filters_text none column = true
filters_text (some wanted) column = text_eq column wanted

abbrev pub is_after : Option Cursor → AuditEntry → Bool
is_after none r = true
is_after (some c) r =
    ltb r.occurred_at c.sort_value || r.occurred_at == c.sort_value && ltb r.id c.id

-- `orderBy: [{ occurredAt: 'desc' }, { id: 'desc' }]`
abbrev pub newest_first : AuditEntry → AuditEntry → Bool
newest_first a b =
    ltb b.occurred_at a.occurred_at || a.occurred_at == b.occurred_at && leb b.id a.id

abbrev pub matches : AuditEntryFilter → AuditEntry → Bool
matches f r =
    filters f.organization_id r.organization_id
    && filters f.actor_id r.actor_id
    && filters_text f.resource r.resource

abbrev pub occurred_first : AuditEntry → AuditEntry → Bool
occurred_first a b = leb a.occurred_at b.occurred_at

abbrev pub is_older_than : ℕ → AuditEntry → Bool
is_older_than cutoff r = ltb r.occurred_at cutoff

module _ (prisma : PrismaClient) where
  open prisma use {create_many, order_by}

  unfoldable pub record_if_absent : AuditEntry → List AuditEntry → Bool × List AuditEntry
  record_if_absent entry rows =
      let (written, n) = create_many same_entry entry rows in (ltb 0 n, written)

  unfoldable pub list_page :
      Option Cursor → ℕ → AuditEntryFilter → List AuditEntry → List AuditEntry
  list_page cursor limit f rows =
      take limit (order_by newest_first (keep (λ r. matches f r && is_after cursor r) rows))

  -- The statement's subquery takes the oldest, up to the limit.
  unfoldable pub delete_older_than : ℕ → ℕ → List AuditEntry → ℕ × List AuditEntry
  delete_older_than cutoff = delete_batch prisma same_entry occurred_first (is_older_than cutoff)

  -- `PruneAuditEntriesUseCase.execute`
  unfoldable pub prune_entries : ℕ → ℕ → List AuditEntry → ℕ × List AuditEntry
  prune_entries retention_days now =
      prune_passes (delete_older_than (now - retention_days * 86400000) 5000) 5000 20 0

  -- `RecordAuditEntryUseCase.execute`
  unfoldable pub record_entry :
      CreateAuditEntryInput → ℕ → ℕ → List AuditEntry → Bool × List AuditEntry
  record_entry input new_id now = record_if_absent (create_audit_entry input new_id now)

-- `INTEGRATION_EVENTS` of src/contracts/events/integration-events.ts.
abbrev pub name_text : IntegrationEventName → Text
name_text user_registered = literal "users.registered"
name_text user_email_verified = literal "users.email_verified"
name_text user_deleted = literal "users.deleted"
name_text upload_confirmed = literal "uploads.confirmed"
name_text organization_archived = literal "organizations.archived"
name_text organization_restored = literal "organizations.restored"
name_text organization_purged = literal "organizations.purged"

-- `readString` of `organizationId`, `actorId`, `userId` and `fileId`.
abbrev pub organization_in : Payload → Option ℕ
organization_in (upload_confirmed_payload u) = some u.organization_id
organization_in (organization_payload organization_id actor_id) = some organization_id
organization_in _ = none

abbrev pub actor_in : Payload → Option ℕ
actor_in (organization_payload organization_id actor_id) = some actor_id
actor_in _ = none

abbrev pub user_in : Payload → Option ℕ
user_in (user_registered_payload user_id email verified at) = some user_id
user_in (user_email_verified_payload user_id email at) = some user_id
user_in (user_deleted_payload user_id at) = some user_id
user_in _ = none

abbrev pub file_in : Payload → Option ℕ
file_in (upload_confirmed_payload u) = some u.file_id
file_in _ = none

-- `name.split('.')[0] ?? 'unknown'`
abbrev pub first_part : List Text → Text
first_part [] = literal "unknown"
first_part (part ∷ parts) = part

unfoldable pub entry_input : IntegrationEvent → CreateAuditEntryInput
entry_input e = record {
  action = name_text e.name;
  resource = first_part (split (λ c. c == 46) (name_text e.name));
  actor_id = first_of (actor_in e.payload) (user_in e.payload);
  organization_id = organization_in e.payload;
  resource_id =
      first_of (first_of (file_in e.payload) (user_in e.payload)) (organization_in e.payload);
  request_id = e.correlation_id;
  schema_version = some e.schema_version;
  occurred_at = some e.occurred_at;
  id = some e.event_id;
}

-- `RecordIntegrationEventListener.handle`; `parses` is the schema of the envelope.
unfoldable pub handle :
    PrismaClient
    → (IntegrationEvent → Bool)
    → IntegrationEvent
    → ℕ
    → ℕ
    → M (List AuditEntry) (Unit {0})
handle prisma parses e new_id now rows =
    if not (parses e)
    then (throw (DomainErrors.validation audit_entry_invalid), rows)
    else (ok tt, (record_entry prisma (entry_input e) new_id now rows).1)

abbrev pub max_page_size : ℕ
max_page_size = 100

abbrev pub default_page_size : ℕ
default_page_size = 20

abbrev pub page_limit : Option ℕ → ℕ
page_limit none = min default_page_size max_page_size
page_limit (some limit) = min limit max_page_size

pub record AuditEntryPage : Type 0 where
  pub entries : List AuditEntry
  pub has_more : Bool
  pub last_cursor : Option Cursor

abbrev pub last_cursor_of : List AuditEntry → Option Cursor
last_cursor_of [] = none
last_cursor_of (entry ∷ []) = some (record { sort_value = entry.occurred_at; id = entry.id })
last_cursor_of (_ ∷ page) = last_cursor_of page

-- Of the view, `toView` keeps the entry less its request.
abbrev pub to_view : AuditEntry → AuditEntry
to_view entry = record entry { request_id = none }

-- `ListAuditEntriesUseCase.execute`
unfoldable pub list_audit_entries :
    PrismaClient → Option Cursor → Option ℕ → AuditEntryFilter → List AuditEntry → AuditEntryPage
list_audit_entries prisma cursor input_limit f entries =
    let limit = page_limit input_limit in
    let rows = list_page prisma cursor (limit + 1) f entries in
    let has_more = ltb limit (length rows) in
    let page = if has_more then take limit rows else rows in
    record { entries = map to_view page; has_more = has_more; last_cursor = last_cursor_of page }
