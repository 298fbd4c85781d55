-- ===== src/Contracts/Publisher.antt =====
-- src/platform/queue/bullmq-event-publisher.ts: `publishAll`, which writes events to the outbox.
use nestjs_modular_monolith.Common.{
  ℕ, ◌≡◌, refl, ap, ◌∙◌, Bool, false, not, none, List, [], ◌∷◌, ◌++◌, ◌==◌, if◌then◌else◌, any,
  arith,
}
use nestjs_modular_monolith.Errors.{ok, throw, M, plain_error}
use nestjs_modular_monolith.Prisma.{PrismaClient}
use nestjs_modular_monolith.Contracts.Events.{IntegrationEvent}

-- The primary key of the outbox.
abbrev pub same_event : IntegrationEvent → IntegrationEvent → Bool
same_event e f = e.event_id == f.event_id

-- The row of an event: the table has no column for its correlation identifier.
abbrev pub to_row : IntegrationEvent → IntegrationEvent
to_row e = record e { correlation_id = none }

module _ (prisma : PrismaClient) (parses : IntegrationEvent → Bool) where
  open prisma use {create_many, create_many-eq}

  -- `createMany` over the events, in their order.
  insert_events : List IntegrationEvent → List IntegrationEvent → List IntegrationEvent
  insert_events [] outbox = outbox
  insert_events (e ∷ es) outbox = insert_events es (create_many same_event (to_row e) outbox).0

  -- An event that its contract refuses stops the whole call before anything is written.
  unfoldable pub publish_all : List IntegrationEvent → M (List IntegrationEvent) (Unit {0})
  unfolding insert_events
  publish_all events outbox =
      if any (λ e. not (parses e)) events
      then (throw plain_error, outbox)
      else (ok tt, insert_events events outbox)

  insert_one :
      (e : IntegrationEvent) (outbox : List IntegrationEvent)
      → any (same_event e) outbox ≡ false
      → insert_events (e ∷ []) outbox ≡ outbox ++ to_row e ∷ []
  unfolding insert_events
  insert_one e outbox fresh =
      ap (λ (p : List IntegrationEvent × ℕ). p.0) (create_many-eq same_event (to_row e) outbox)
      ∙ rw fresh refl

  -- The row of an event with a new identifier is appended, if its contract accepts it.
  pub publish_one :
      (e : IntegrationEvent) (outbox : List IntegrationEvent)
      → any (same_event e) outbox ≡ false
      → publish_all (e ∷ []) outbox
        ≡ (if parses e then (ok tt, outbox ++ to_row e ∷ []) else (throw plain_error, outbox))
  unfolding publish_all
  publish_one e outbox fresh = ground (arith, insert_one e outbox fresh)
