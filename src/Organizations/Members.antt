-- ===== src/Organizations/Members.antt =====
-- src/modules/organizations/application/manage-members.use-case.ts: role changes and removals.
pub mod Owners
pub mod Skew
use nestjs_modular_monolith.Common.{ℕ, List, true}
use nestjs_modular_monolith.Errors.{Result, ok, throw, M, continue, member_not_found, last_owner}
use nestjs_modular_monolith.Errors.DomainErrors
use nestjs_modular_monolith.Prisma.{PrismaClient}
use nestjs_modular_monolith.Organizations.Entities.{OrganizationRole, Membership}
use nestjs_modular_monolith.Organizations.Repository.{
  MembershipChangeOutcome, changed, not_a_member, would_orphan_organization, change_member_role,
  remove_member,
}

unfoldable pub settle : MembershipChangeOutcome → Result (Unit {0})
settle changed = ok tt
settle not_a_member = throw (DomainErrors.not_found member_not_found)
settle would_orphan_organization = throw (DomainErrors.conflict last_owner true)

module _ (prisma : PrismaClient) where
  -- `ChangeMemberRoleUseCase.execute` and `RemoveMemberUseCase.execute`.
  unfoldable pub execute_change : ℕ → ℕ → OrganizationRole → M (List Membership) (Unit {0})
  execute_change organization_id user_id role members =
      continue (change_member_role prisma organization_id user_id role members)
        (λ outcome written. (settle outcome, written))

  unfoldable pub execute_removal : ℕ → ℕ → M (List Membership) (Unit {0})
  execute_removal organization_id user_id members =
      continue (remove_member prisma organization_id user_id members)
        (λ outcome written. (settle outcome, written))
