-- ===== src/Organizations/Repository.antt =====
-- src/modules/organizations/infrastructure/prisma-organization.repository.ts. `newId()` and the clock
-- of the database are arguments.
use nestjs_modular_monolith.Common.{
  ℕ, Bool, true, false, not, ◌&&◌, ◌||◌, Option, none, some, List, leb, ◌==◌, if◌then◌else◌,
  is_null, any,
}
use nestjs_modular_monolith.Errors.{ok, M, continue}
use nestjs_modular_monolith.Prisma.{PrismaClient}
use nestjs_modular_monolith.Text.{text_eq}
use nestjs_modular_monolith.Organizations.Entities.{
  OrganizationRole, owner, role_eq, Organization, Membership, SubscriptionStatus, canceled,
  Subscription, OrganizationInvitation, TenantFile, Tables,
}

pub data MembershipChangeOutcome : Type 0 where
  changed not_a_member would_orphan_organization : MembershipChangeOutcome

-- The primary key and the unique slug; the primary key and the unique pair of a membership.
abbrev pub same_organization : Organization → Organization → Bool
same_organization a b = a.id == b.id || text_eq a.slug b.slug

abbrev pub same_member : Membership → Membership → Bool
same_member a b = a.id == b.id || a.organization_id == b.organization_id && a.user_id == b.user_id

abbrev pub is_member : ℕ → ℕ → Membership → Bool
is_member organization_id user_id r = r.organization_id == organization_id && r.user_id == user_id

-- The owners other than one user.
abbrev pub is_other_owner : ℕ → ℕ → Membership → Bool
is_other_owner organization_id user_id r =
    r.organization_id == organization_id && role_eq r.role owner && not (r.user_id == user_id)

abbrev pub is_in_other_state : ℕ → Option ℕ → Organization → Bool
is_in_other_state id archived_at r =
    r.id == id
    && (if is_null archived_at then not (is_null r.archived_at) else is_null r.archived_at)

abbrev pub is_live : SubscriptionStatus → Bool
is_live canceled = false
is_live _ = true

module _ (prisma : PrismaClient) where
  open prisma use {
    find_first, order_by, create, create_many, update, update_many, delete_many, count_rows,
  }

  unfoldable pub find_by_id : ℕ → List Organization → Option Organization
  find_by_id id = find_first (λ r. r.id == id && is_null r.archived_at)

  unfoldable pub find_by_id_including_archived : ℕ → List Organization → Option Organization
  find_by_id_including_archived id = find_first (λ r. r.id == id)

  unfoldable pub find_membership_including_archived : ℕ → ℕ → List Membership → Option Membership
  find_membership_including_archived organization_id user_id =
      find_first (is_member organization_id user_id)

  -- A membership counts only while its organization is live.
  unfoldable pub find_membership : ℕ → ℕ → Tables → Option Membership
  find_membership organization_id user_id w =
      find_first
        (λ r.
          is_member organization_id user_id r
          && any (λ (o : Organization). o.id == r.organization_id && is_null o.archived_at)
              w.organizations)
        w.members

  -- The new membership is the owner's.
  unfoldable pub create_organization_with_owner : Organization → ℕ → ℕ → ℕ → M Tables (Unit {0})
  create_organization_with_owner organization owner_id member_id now w =
      let (made, organizations) = create same_organization organization w.organizations in
      continue (made, record w { organizations = organizations })
        (λ _ v.
          let (joined, members) =
            create same_member
              (record {
                id = member_id;
                organization_id = organization.id;
                user_id = owner_id;
                role = owner;
                created_at = now;
              })
              v.members in
          (joined, record v { members = members }))

  unfoldable pub add_member :
      ℕ → ℕ → OrganizationRole → ℕ → ℕ → List Membership → Bool × List Membership
  add_member organization_id user_id role member_id now members =
      let (written, n) =
        create_many same_member
          (record {
            id = member_id;
            organization_id = organization_id;
            user_id = user_id;
            role = role;
            created_at = now;
          })
          members in
      (n == 1, written)

  unfoldable pub is_last_owner : ℕ → ℕ → List Membership → Bool
  is_last_owner organization_id user_id members =
      count_rows (is_other_owner organization_id user_id) members == 0

  -- `mutateMembership`: lock one row, and hand it to the decision.
  abbrev pub on_locked :
      (Membership → M (List Membership) MembershipChangeOutcome)
      → Option Membership
      → M (List Membership) MembershipChangeOutcome
  on_locked decide none members = (ok not_a_member, members)
  on_locked decide (some current) members = decide current members

  abbrev pub mutate_membership :
      ℕ
      → ℕ
      → (Membership → M (List Membership) MembershipChangeOutcome)
      → List Membership
      → M (List Membership) MembershipChangeOutcome
  mutate_membership organization_id user_id decide seen members =
      on_locked decide (find_first (is_member organization_id user_id) seen) members

  -- `changeMemberRole` and `removeMember` as two tables see them: `seen` is what the statements of the
  -- transaction read, and the last table is the one that the write meets. They differ only where
  -- another transaction commits in between.
  unfoldable pub change_member_role_over :
      ℕ → ℕ → OrganizationRole → List Membership → M (List Membership) MembershipChangeOutcome
  unfolding is_last_owner
  change_member_role_over organization_id user_id role seen =
      mutate_membership organization_id user_id
        (λ current members.
          if role_eq current.role role
          then (ok changed, members)
          else if role_eq current.role owner && is_last_owner organization_id user_id seen
          then (ok would_orphan_organization, members)
          else continue
              (update (is_member organization_id user_id) (λ r. record r { role = role }) members)
              (λ _ written. (ok changed, written)))
        seen

  unfoldable pub remove_member_over :
      ℕ → ℕ → List Membership → M (List Membership) MembershipChangeOutcome
  unfolding is_last_owner
  remove_member_over organization_id user_id seen =
      mutate_membership organization_id user_id
        (λ current members.
          if role_eq current.role owner && is_last_owner organization_id user_id seen
          then (ok would_orphan_organization, members)
          else (ok changed, (delete_many (is_member organization_id user_id) members).0))
        seen

  -- The transactions alone in the database.
  unfoldable pub change_member_role :
      ℕ → ℕ → OrganizationRole → M (List Membership) MembershipChangeOutcome
  unfolding change_member_role_over
  change_member_role organization_id user_id role members =
      change_member_role_over organization_id user_id role members members

  unfoldable pub remove_member : ℕ → ℕ → M (List Membership) MembershipChangeOutcome
  unfolding remove_member_over
  remove_member organization_id user_id members =
      remove_member_over organization_id user_id members members

  -- Only a row in the other state is written.
  unfoldable pub set_archived_at : ℕ → Option ℕ → List Organization → Bool × List Organization
  set_archived_at id archived_at organizations =
      let (written, n) =
        update_many (is_in_other_state id archived_at) (λ r. record r { archived_at = archived_at })
          organizations in
      (n == 1, written)

  -- The four deletions of `purgeWithClient`.
  unfoldable pub delete_tenant : ℕ → Tables → Bool × Tables
  delete_tenant id w =
      let (organizations, n) =
        delete_many (λ (r : Organization). r.id == id && not (is_null r.archived_at))
          w.organizations in
      (
        n == 1,
        record w {
          subscriptions =
              (delete_many (λ (r : Subscription). r.organization_id == id) w.subscriptions).0;
          invitations =
              (delete_many (λ (r : OrganizationInvitation). r.organization_id == id)
                w.invitations).0;
          members = (delete_many (λ (r : Membership). r.organization_id == id) w.members).0;
          organizations = organizations;
        },
      )

  -- `purgeWithClient`, on the row that it locks.
  unfoldable pub purge_locked : ℕ → Option Organization → Tables → Bool × Tables
  unfolding delete_tenant
  purge_locked id none w = (false, w)
  purge_locked id (some locked) w =
      if is_null locked.archived_at
      then (false, w)
      else if leb 1 (
            count_rows (λ (r : Subscription). r.organization_id == id && is_live r.status)
              w.subscriptions)
          || leb 1 (count_rows (λ (r : TenantFile). r.organization_id == id) w.files)
      then (false, w)
      else delete_tenant id w

  unfoldable pub purge : ℕ → Tables → Bool × Tables
  unfolding purge_locked
  purge id w = purge_locked id (find_first (λ (r : Organization). r.id == id) w.organizations) w
