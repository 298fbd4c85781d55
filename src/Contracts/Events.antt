-- ===== src/Contracts/Events.antt =====
-- src/contracts/events: the integration events, their payloads and their envelope.
use Prim.Native.String.{String}
use nestjs_modular_monolith.Common.{ℕ, Bool, Option}
use nestjs_modular_monolith.Text.{Text}

pub data IntegrationEventName : Type 0 where
  user_registered user_email_verified user_deleted upload_confirmed organization_archived
        organization_restored organization_purged :
      IntegrationEventName

pub record UploadConfirmed : Type 0 where
  pub file_id : ℕ
  pub organization_id : ℕ
  pub owner_id : ℕ
  pub storage_key : String
  pub mime_type : String
  pub size_bytes : ℕ
  pub confirmed_at : ℕ

-- One constructor for each payload schema.
pub data Payload : Type 0 where
  user_registered_payload : (user_id : ℕ) (email : Text) (email_verified : Bool) (at : ℕ) → Payload
  user_email_verified_payload : (user_id : ℕ) (email : Text) (at : ℕ) → Payload
  user_deleted_payload : (user_id : ℕ) (at : ℕ) → Payload
  upload_confirmed_payload : UploadConfirmed → Payload
  organization_payload : (organization_id : ℕ) (actor_id : ℕ) → Payload

pub record IntegrationEvent : Type 0 where
  pub event_id : ℕ
  pub name : IntegrationEventName
  pub occurred_at : ℕ
  pub schema_version : ℕ
  pub correlation_id : Option ℕ
  pub payload : Payload

abbrev pub current_schema_version : ℕ
current_schema_version = 1

-- `event_id` is what `newId()` returns, and `now` the clock.
unfoldable pub create_integration_event :
    IntegrationEventName → Payload → Option ℕ → ℕ → ℕ → IntegrationEvent
create_integration_event name payload correlation_id event_id now = record {
  event_id = event_id;
  name = name;
  occurred_at = now;
  schema_version = current_schema_version;
  correlation_id = correlation_id;
  payload = payload;
}

-- What the clock and `newId()` answer during a call that publishes one event.
pub record Moment : Type 0 where
  pub now : ℕ
  pub event_id : ℕ
