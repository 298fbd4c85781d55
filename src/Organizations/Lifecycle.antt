-- ===== src/Organizations/Lifecycle.antt =====
-- src/modules/organizations/application/change-organization-lifecycle.use-case.ts: archiving,
-- restoring and purging an organization.
pub mod Changes
pub mod Erasure
use nestjs_modular_monolith.Common.{
  ℕ, Bool, true, false, not, Option, none, some, List, [], ◌∷◌, if◌then◌else◌, is_null,
}
use nestjs_modular_monolith.Errors.{
  Result, ok, throw, M, continue, ◌>>=◌, ◌>>◌, organization_not_found, organization_access_denied,
  conflict_code,
}
use nestjs_modular_monolith.Errors.DomainErrors
use nestjs_modular_monolith.Prisma.{PrismaClient}
use nestjs_modular_monolith.Contracts.Events.{
  IntegrationEventName, organization_archived, organization_restored, organization_purged,
  organization_payload, IntegrationEvent, create_integration_event, Moment,
}
use nestjs_modular_monolith.Contracts.Publisher.{publish_all}
use nestjs_modular_monolith.Organizations.Entities.{
  owner, role_eq, Organization, Membership, Tables,
}
use nestjs_modular_monolith.Organizations.Repository as Repository
use nestjs_modular_monolith.Organizations.Repository.{
  find_membership_including_archived, find_by_id_including_archived, set_archived_at,
}

pub record LifecycleInput : Type 0 where
  pub organization_id : ℕ
  pub actor_id : ℕ

abbrev pub is_already_in_state : Option ℕ → Option ℕ → Bool
is_already_in_state none none = true
is_already_in_state (some _) (some _) = true
is_already_in_state _ _ = false

abbrev pub lifecycle_event : IntegrationEventName → LifecycleInput → Moment → IntegrationEvent
lifecycle_event name input m =
    create_integration_event name (organization_payload input.organization_id input.actor_id) none
      m.event_id m.now

abbrev pub check_owner : Option Membership → Result (Unit {0})
check_owner none = throw (DomainErrors.forbidden organization_access_denied)
check_owner (some membership) =
    if role_eq membership.role owner
    then ok tt
    else throw (DomainErrors.forbidden organization_access_denied)

abbrev pub check_archived : Option Organization → Result (Unit {0})
check_archived none = throw (DomainErrors.not_found organization_not_found)
check_archived (some organization) =
    if is_null organization.archived_at
    then throw (DomainErrors.conflict conflict_code false)
    else ok tt

module _ (prisma : PrismaClient) (parses : IntegrationEvent → Bool) where
  open prisma use {transaction}

  unfoldable pub require_owner : LifecycleInput → M Tables (Unit {0})
  require_owner input w = (
    check_owner
        (find_membership_including_archived prisma input.organization_id input.actor_id w.members),
    w,
  )

  -- The event of a transaction that did what it was for, or a conflict.
  abbrev pub announce : Bool → IntegrationEvent → M Tables (Unit {0})
  announce done event w =
      if done
      then (let (published, outbox) = publish_all prisma parses (event ∷ []) w.outbox in
          (published, record w { outbox = outbox }))
      else (throw (DomainErrors.conflict conflict_code false), w)

  -- The body of the transaction of `changeState`.
  abbrev pub write_state :
      LifecycleInput → Option ℕ → IntegrationEvent → Option Organization → M Tables (Unit {0})
  write_state input archived_at event none w =
      (throw (DomainErrors.not_found organization_not_found), w)
  write_state input archived_at event (some current) w =
      if is_already_in_state current.archived_at archived_at
      then (ok tt, w)
      else (let (done, organizations) =
            set_archived_at prisma input.organization_id archived_at w.organizations in
          announce done event (record w { organizations = organizations }))

  unfoldable pub change_state :
      LifecycleInput → Option ℕ → IntegrationEventName → Moment → M Tables (Unit {0})
  change_state input archived_at name m =
      require_owner input
      >> transaction (λ w.
        write_state input archived_at (lifecycle_event name input m)
          (find_by_id_including_archived prisma input.organization_id w.organizations) w)

  unfoldable pub archive : LifecycleInput → Moment → M Tables (Unit {0})
  archive input m = change_state input (some m.now) organization_archived m

  unfoldable pub restore : LifecycleInput → Moment → M Tables (Unit {0})
  restore input m = change_state input none organization_restored m

  unfoldable pub purge : LifecycleInput → Moment → M Tables (Unit {0})
  purge input m =
      require_owner input
      >> (λ w. (
        check_archived (find_by_id_including_archived prisma input.organization_id w.organizations),
        w,
      ))
      >> transaction (λ w.
        let (purged, v) = Repository.purge prisma input.organization_id w in
        announce purged (lifecycle_event organization_purged input m) v)
