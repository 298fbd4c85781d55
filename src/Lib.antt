-- ===== src/Lib.antt =====
-- Models and proofs for the NestJS modular monolith: its upload, organizations, users, billing,
-- notifications and audit-log modules, with the errors and integration events that they share, the
-- outbox, the queues, and what stands before the use cases: guards, validation, the answers to
-- exceptions, and the configuration.
--
-- How the parts interact. A request that passes the guards and the validation reaches a
-- controller, which calls a use case. A use case loads an aggregate by its repository, calls the
-- aggregate, and in one transaction writes the aggregate back and hands its events to the
-- publisher, which inserts them into the outbox. Whatever is thrown is answered by the filter of
-- exceptions. Sweeps run beside the requests.
--
-- State and operations. A table of the database is the list of its rows; a use case is a function
-- from its input, what the clock and newId() answer during the call, and the tables, to a result
-- (a value or what it throws) and the new tables. Calls that run at once are explicit: a request
-- commits a copy of a row that it loaded at an earlier time, and a step relation interleaves such
-- commits with the steps of sweepers.
--
--   Common, Text        numbers, tests and lists that all files share; strings as UTF-16 units
--   Errors              src/shared/errors: exceptions, and results that may be one
--   Prisma              the database client that the repositories call: a parameter, by its laws;
--                       Prisma/ListClient is an instance over plain lists; Prisma/Rows and
--                       Prisma/Orders have lemmas
--   Contracts/Events    src/contracts/events: the envelope and createIntegrationEvent
--   Contracts/Publisher src/platform/queue/bullmq-event-publisher.ts: publishAll
--   Upload/StoredFile   src/modules/upload/domain/stored-file.entity.ts: presign, confirm, discard,
--                       pullEvents, sanitiseFilename; theorems in StoredFile/Filename and
--                       StoredFile/Lifecycle
--   Upload/Repository   src/modules/upload/infrastructure/prisma-stored-file.repository.ts
--   Upload/Storage      src/modules/upload/domain/file-storage.port.ts: a parameter, by its laws
--   Upload/Confirm      src/modules/upload/application/confirm-upload.use-case.ts; races in Confirm/Race
--                       and Confirm/Race/Interleaving, what sweepers rely on in
--                       Confirm/Race/Sweepers
--   Upload/Sweep        expire-stale-uploads.use-case.ts and purge-user-files.use-case.ts beside it;
--                       theorems in Sweep/Safety, Sweep/Orphans and Sweep/Purge
--   Organizations/Entities, Organizations/Repository
--                       src/modules/organizations/domain/organization.ts and
--                       infrastructure/prisma-organization.repository.ts
--   Upload/Listing      presign-upload, list-my-uploads and count-user-uploads beside it
--   Organizations/Creation
--                       application/create-organization.use-case.ts
--   Organizations/Members
--                       application/manage-members.use-case.ts; Members/Owners has one transaction at a
--                       time, Members/Skew two that overlap
--   Organizations/Lifecycle
--                       application/change-organization-lifecycle.use-case.ts; Lifecycle/Changes has
--                       archiving and restoring, Lifecycle/Erasure the purge
--   Organizations/Invitations
--                       domain/organization-invitation.ts, infrastructure/prisma-invitation.repository.ts
--                       and the use cases that issue and accept; theorems in Invitations/Issue and
--                       Invitations/Accept
--   Outbox              src/platform/messaging/outbox-drain.service.ts and the dispatch of the publisher;
--                       theorems in Outbox/Delivery and Outbox/Attempts, by Outbox/Rows; pruning and
--                       counts in Outbox/Retention
--   Billing/Json        the payloads of webhooks
--   Billing/Inbox       src/modules/billing/infrastructure/prisma-billing-webhook.repository.ts; the state
--                       of an event in Inbox/Views, the state machine in Inbox/Machine, what a statement does
--                       to it in Inbox/Statements and Inbox/Refinement, sequences of
--                       statements in Inbox/Traces, tokens in Inbox/Holders
--   Billing/Events, Billing/Verifier, Billing/Webhooks
--                       the schemas, the signature (hmac-webhook-verifier.adapter.ts), and the way of a
--                       webhook from billing-webhook.controller.ts by billing-webhook-inbox.service.ts and
--                       the queue to apply-billing-webhook.listener.ts and apply-webhook-event.use-case.ts;
--                       theorems in Webhooks/Applications and Webhooks/Losses
--   Billing/Entitlements
--                       domain/entitlement.service.ts and infrastructure/prisma-billing.repository.ts; the
--                       cache in Entitlements/Cache
--   Notifications       src/modules/notifications: the ledger and the sender that keeps to it; theorems in
--                       Notifications/Delivery
--   AuditLog            src/modules/audit-log: entries, recording (AuditLog/Recording), listing
--                       (AuditLog/Paging), retention
--   Users               src/modules/users: display names, profiles, the use cases and, in Users/Listeners, the
--                       listeners; theorems in Users/Profiles and Users/Registration
--   Pagination          src/shared/pagination: cursors and the envelope of a page
--   I18n                src/platform/i18n/i18n.service.ts: the languages and their messages
--   Http                src/bootstrap/http: problem documents, errors of the database and checks of
--                       dependencies; Http/Filter is domain-exception.filter.ts; theorems in Http/Privacy
--                       and Http/Answers
--   Auth                the guards of every route, in the order of src/bootstrap/api.module.ts:
--                       src/platform/auth/auth.guards.ts, src/platform/tenant-context, the throttler and
--                       src/modules/organizations/http/tenant-context.guard.ts; theorems in Auth/Access
--   Auth/Retention      src/platform/auth/auth-retention.service.ts
--   Queue               src/platform/queue/bullmq.service.ts: options, backoff (Queue/Backoff), sending and
--                       schedules (Queue/Schedules); queues.ts is Queue/Definitions and
--                       queue-registrar.service.ts is Queue/Handlers
--   Observability       src/platform/observability/request-id.ts; theorems in Observability/Stamps;
--                       Observability/Urls is sanitise-url.ts beside it
--   Config              src/bootstrap/config/env.production.ts; theorems in Config/Production
--   Validation          src/bootstrap/http/validation-codes.ts and validation.pipe.ts; theorems in
--                       Validation/Messages
--   Retention, Pruning  the batches and the loop of the jobs that prune, in general (Retention/Batches and
--                       Retention/Loops) and for the three modules (Pruning)
--   Upload/Examples, Organizations/Examples, Outbox/Examples, Billing/Examples,
--   Notifications/Examples, AuditLog/Examples, Pruning/Examples, Users/Examples,
--   Pagination/Examples, Http/Examples, Auth/Examples, Queue/Examples, Observability/Examples,
--   Config/Examples, Validation/Examples
--                       the theorems at concrete tables
--
-- Bounds and fuel. Identifiers are UUIDs as the numbers that they stand for, and dates are
-- milliseconds since the epoch, as natural numbers. The loop of PurgeUserFilesUseCase runs on
-- fuel, one unit for each round, and answers none where it has not ended within it. drainUntilIdle
-- makes at most 20 passes, as in the source, and the loops that prune at most 20.
--
-- Parameters. The database client answers as PrismaClient says: a query for one row finds one that
-- matches if there is one, an ordered query is sorted, unique indexes refuse duplicates, and a
-- transaction drops its writes if its body throws. Of the statements outside transactions, the
-- claims and releases of the ledger of notifications and the marks of the inbox of webhooks may
-- fail, whether or not the database carried them out; the others are answered. The object storage
-- may fail on any call; a removal that succeeds leaves no object under its key and touches no
-- other. The job queue, the mail server, better-auth, the throttler and the applier of billing
-- events may fail on any call. Whether an event passes its zod schema, hashing, UTF-8,
-- hexadecimal, JSON.parse, UUIDs, lower case and the address check are functions of which nothing
-- more is assumed; of cursors, what base64url, dates and UUIDs encode is decoded to the same.
--
-- Not modelled: dependency injection, logging, metrics and the schemas of the configuration, since
-- they are input and output around libraries; the texts that a use case gives an exception; the
-- listing of users and the texts of notifications; in the outbox, rows with a name that no
-- contract declares, and a claim that meets rows which another worker has locked at that moment.
pub mod Common
pub mod Errors
pub mod Prisma
pub mod Text
pub mod Upload
pub mod Contracts
pub mod Organizations
pub mod Outbox
pub mod Billing
pub mod Retention
pub mod Notifications
pub mod AuditLog
pub mod Pruning
pub mod Users
pub mod Pagination
pub mod I18n
pub mod Http
pub mod Auth
pub mod Queue
pub mod Observability
pub mod Config
pub mod Validation
