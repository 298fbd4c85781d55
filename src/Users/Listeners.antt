-- ===== src/Users/Listeners.antt =====
-- src/modules/users/infrastructure/listeners: what the events of a user's life do to the profile.
use nestjs_modular_monolith.Common.{ℕ, Bool, none, if◌then◌else◌}
use nestjs_modular_monolith.Errors.{ok, throw, M, continue, validation_failed}
use nestjs_modular_monolith.Errors.DomainErrors
use nestjs_modular_monolith.Prisma.{PrismaClient}
use nestjs_modular_monolith.Contracts.Events.{
  IntegrationEvent, Payload, user_registered_payload, user_deleted_payload,
}
use nestjs_modular_monolith.Users.{Tables, ensure, delete_by_user_id}

module _ (prisma : PrismaClient) (parses : IntegrationEvent → Bool) where
  abbrev invalid : M Tables (Unit {0})
  invalid w = (throw (DomainErrors.validation validation_failed), w)

  -- An event of another name has another payload, and does not fit the contract.
  abbrev pub on_registered : Payload → ℕ → ℕ → M Tables (Unit {0})
  on_registered (user_registered_payload user_id email email_verified at) id now w =
      continue
        (ensure prisma (record { user_id = user_id; email = email; display_name = none }) id now w)
        (λ written v. (ok tt, v))
  on_registered _ id now w = invalid w

  -- `CreateProfileOnRegistrationListener.handle`
  unfoldable pub create_profile : IntegrationEvent → ℕ → ℕ → M Tables (Unit {0})
  create_profile e id now w = if parses e then on_registered e.payload id now w else invalid w

  abbrev pub on_deleted : Payload → M Tables (Unit {0})
  on_deleted (user_deleted_payload user_id at) w = (ok tt, (delete_by_user_id prisma user_id w).1)
  on_deleted _ w = invalid w

  -- `DeleteProfileOnUserDeletedListener.handle`
  unfoldable pub delete_profile : IntegrationEvent → M Tables (Unit {0})
  delete_profile e w = if parses e then on_deleted e.payload w else invalid w
