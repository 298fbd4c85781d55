-- ===== src/Organizations/Lifecycle/Erasure.antt =====
-- Purging: what has to be gone before, and what is gone after.
use nestjs_modular_monolith.Common.{
  ℕ, ◌+◌, ◌≡◌, refl, ap, ◌∙◌, Bool, true, false, not, ◌&&◌, ◌||◌, Bool-cases, inl, inr, List, [],
  ◌∷◌, ◌++◌, Memᴰ, arith, leb, ◌==◌, if◌then◌else◌, is_null, keep, count, any, All, All-map,
}
use nestjs_modular_monolith.Errors.{ok, throw, plain_error, conflict_code}
use nestjs_modular_monolith.Errors.DomainErrors
use nestjs_modular_monolith.Prisma.{PrismaClient}
use nestjs_modular_monolith.Prisma.Rows.{IsUnique, count_one}
use nestjs_modular_monolith.Contracts.Events.{organization_purged, IntegrationEvent, Moment}
use nestjs_modular_monolith.Contracts.Publisher.{same_event, publish_one, to_row}
use nestjs_modular_monolith.Organizations.Entities.{
  Organization, Membership, Subscription, TenantFile, OrganizationInvitation, Tables,
}
use nestjs_modular_monolith.Organizations.Repository as Repository
use nestjs_modular_monolith.Organizations.Repository.{
  same_organization, find_by_id_including_archived, is_live, delete_tenant, purge_locked,
}
use nestjs_modular_monolith.Organizations.Lifecycle.{
  LifecycleInput, require_owner, announce, purge, lifecycle_event,
}
use nestjs_modular_monolith.Organizations.Lifecycle.Changes.{find-organization, only_organization}

-- What stands in the way of a purge: a subscription that still runs, or a file.
abbrev pub blockers : ℕ → Tables → ℕ
blockers id w =
    count (λ (r : Subscription). r.organization_id == id && is_live r.status) w.subscriptions
    + count (λ (r : TenantFile). r.organization_id == id) w.files

-- The tables without the rows of one organization, and with the event.
abbrev pub erased : ℕ → IntegrationEvent → Tables → Tables
erased id event w = record w {
  organizations = keep (λ (r : Organization). not (r.id == id)) w.organizations;
  members = keep (λ (r : Membership). not (r.organization_id == id)) w.members;
  invitations = keep (λ (r : OrganizationInvitation). not (r.organization_id == id)) w.invitations;
  subscriptions = keep (λ (r : Subscription). not (r.organization_id == id)) w.subscriptions;
  outbox = w.outbox ++ to_row event ∷ [];
}

abbrev is_archived_row : ℕ → Organization → Bool
is_archived_row id r = r.id == id && not (is_null r.archived_at)

keep_archived :
    (id : ℕ) (organizations : List Organization)
    → All (λ r. r.id ≡ id → is_null r.archived_at ≡ false) organizations
    → keep (λ r. not (is_archived_row id r)) organizations
      ≡ keep (λ (r : Organization). not (r.id == id)) organizations
keep_archived id [] h = refl
keep_archived id (r ∷ organizations) h = ground (arith, h.0, keep_archived id organizations h.1)

abbrev untied : ℕ → Tables → Tables
untied id w = record w {
  organizations = keep (λ (r : Organization). not (r.id == id)) w.organizations;
  members = keep (λ (r : Membership). not (r.organization_id == id)) w.members;
  invitations = keep (λ (r : OrganizationInvitation). not (r.organization_id == id)) w.invitations;
  subscriptions = keep (λ (r : Subscription). not (r.organization_id == id)) w.subscriptions;
}

module _ (prisma : PrismaClient) where
  delete_tenant_lem :
      (id : ℕ) (w : Tables) (o : Organization)
      → IsUnique same_organization w.organizations
      → Memᴰ o w.organizations
      → o.id ≡ id
      → is_null o.archived_at ≡ false
      → delete_tenant prisma id w ≡ (true, untied id w)
  unfolding delete_tenant
  delete_tenant_lem id w o u m e archived =
      rw
        (
          prisma.delete_many-eq (is_archived_row id) w.organizations,
          prisma.delete_many-eq (λ (r : Membership). r.organization_id == id) w.members,
          prisma.delete_many-eq (λ (r : OrganizationInvitation). r.organization_id == id)
              w.invitations,
          prisma.delete_many-eq (λ (r : Subscription). r.organization_id == id) w.subscriptions,
          count_one same_organization (is_archived_row id) (λ a b p q. ground arith) w.organizations
              u m (ground arith),
          keep_archived id w.organizations (
              All-map
                (λ r same f. ap (λ (x : Organization). is_null x.archived_at) (same f) ∙ archived)
                w.organizations (only_organization id w.organizations o u m e)),
        )
        refl

  purge_lem :
      (id : ℕ) (w : Tables) (o : Organization)
      → IsUnique same_organization w.organizations
      → Memᴰ o w.organizations
      → o.id ≡ id
      → is_null o.archived_at ≡ false
      → Repository.purge prisma id w
        ≡ (if leb 1 (blockers id w) then (false, w) else (true, untied id w))
  unfolding Repository.purge purge_locked find_by_id_including_archived
  purge_lem id w o u m e archived =
      rw
        (
          find-organization prisma id w.organizations o u m e,
          archived,
          prisma.count_rows-eq (λ (r : Subscription). r.organization_id == id && is_live r.status)
              w.subscriptions,
          prisma.count_rows-eq (λ (r : TenantFile). r.organization_id == id) w.files,
          delete_tenant_lem id w o u m e archived,
        )
        (ground arith)

module _ (prisma : PrismaClient) (parses : IntegrationEvent → Bool) where
  -- What a purge does for an owner, on every branch. The organization exists, the table is unique on
  -- its indexes and the identifier of the event is new. A live organization, and one that still has a
  -- running subscription or a file, is a conflict. Otherwise every row of the organization is deleted,
  -- no other row is, and one event is appended, unless its contract refuses it. What throws changes
  -- nothing.
  pub purge_outcome :
      (input : LifecycleInput) (m : Moment) (w : Tables) (o : Organization)
      → require_owner prisma parses input w ≡ (ok tt, w)
      → IsUnique same_organization w.organizations
      → Memᴰ o w.organizations
      → o.id ≡ input.organization_id
      → any (same_event (lifecycle_event organization_purged input m)) w.outbox ≡ false
      → purge prisma parses input m w ≡ (
          if is_null o.archived_at || leb 1 (blockers input.organization_id w)
          then (throw (DomainErrors.conflict conflict_code false), w)
          else if parses (lifecycle_event organization_purged input m)
          then (ok tt, erased input.organization_id (lifecycle_event organization_purged input m) w)
          else (throw plain_error, w))
  unfolding purge
  purge_outcome input m w o allowed u mem e fresh = elim (Bool-cases (is_null o.archived_at)) [
    | inl live ↦
        rw (allowed, find-organization prisma input.organization_id w.organizations o u mem e, live)
          refl
    | inr archived ↦
        rw
          (
            allowed,
            find-organization prisma input.organization_id w.organizations o u mem e,
            archived,
            prisma.transaction-eq
                (λ v.
                  let (purged, t) = Repository.purge prisma input.organization_id v in
                  announce prisma parses purged (lifecycle_event organization_purged input m) t)
                w,
            purge_lem prisma input.organization_id w o u mem e archived,
          )
          (elim (Bool-cases (leb 1 (blockers input.organization_id w))) [
            | inl blocked ↦ rw blocked refl
            | inr free ↦
                rw
                  (
                    free,
                    publish_one prisma parses (lifecycle_event organization_purged input m) w.outbox
                        fresh,
                  )
                  (elim (Bool-cases (parses (lifecycle_event organization_purged input m))) [
                    | inl good ↦ rw good refl
                    | inr bad ↦ rw bad refl
                  ])
          ])
  ]
