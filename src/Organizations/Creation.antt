-- ===== src/Organizations/Creation.antt =====
-- src/modules/organizations/application/create-organization.use-case.ts and the `createWithOwner` of
-- the repository, which opens the transaction.
use nestjs_modular_monolith.Common.{
  ℕ, ◌≡◌, refl, ◌||◌, Bool-cases, inl, inr, [], ◌∷◌, ◌++◌, if◌then◌else◌, any,
}
use nestjs_modular_monolith.Errors.{ok, throw, M, continue, plain_error}
use nestjs_modular_monolith.Prisma.{PrismaClient}
use nestjs_modular_monolith.Text.{Text}
use nestjs_modular_monolith.Organizations.Entities.{owner, Organization, Membership, Tables, create}
use nestjs_modular_monolith.Organizations.Repository.{
  same_organization, same_member, create_organization_with_owner,
}

-- What `newId()` returns for the two rows, and the clock.
pub record CreationMoment : Type 0 where
  pub organization_id : ℕ
  pub member_id : ℕ
  pub now : ℕ

abbrev pub founder : Organization → ℕ → CreationMoment → Membership
founder organization owner_id m = record {
  id = m.member_id;
  organization_id = organization.id;
  user_id = owner_id;
  role = owner;
  created_at = m.now;
}

module _ (prisma : PrismaClient) where
  unfoldable pub create_with_owner : Organization → ℕ → CreationMoment → M Tables (Unit {0})
  create_with_owner organization owner_id m =
      prisma.transaction
        (create_organization_with_owner prisma organization owner_id m.member_id m.now)

  unfoldable pub create_organization : Text → Text → ℕ → CreationMoment → M Tables Organization
  create_organization slug name owner_id m w =
      continue (create slug name m.organization_id m.now, w)
        (λ organization v.
          continue (create_with_owner organization owner_id m v) (λ _ u. (ok organization, u)))

  -- A name and a slug that pass make an organization and its owner together, or nothing: where the
  -- slug, an identifier or the membership is taken, the call throws and the tables are as they were.
  pub create_organization_lem :
      (slug name : Text) (owner_id : ℕ) (m : CreationMoment) (w : Tables)
      (organization : Organization)
      → create slug name m.organization_id m.now ≡ ok organization
      → create_organization slug name owner_id m w ≡ (
          if any (same_organization organization) w.organizations
            || any (same_member (founder organization owner_id m)) w.members
          then (throw plain_error, w)
          else (
            ok organization,
            record w {
              organizations = w.organizations ++ organization ∷ [];
              members = w.members ++ founder organization owner_id m ∷ [];
            },
          ))
  unfolding create_organization create_with_owner create_organization_with_owner
  create_organization_lem slug name owner_id m w organization e =
      rw
        (
          e,
          prisma.transaction-eq
              (create_organization_with_owner prisma organization owner_id m.member_id m.now) w,
          prisma.create-eq same_organization organization w.organizations,
        )
        (elim (Bool-cases (any (same_organization organization) w.organizations)) [
          | inl taken ↦ rw taken refl
          | inr free ↦
              rw (free, prisma.create-eq same_member (founder organization owner_id m) w.members)
                (elim (Bool-cases (any (same_member (founder organization owner_id m)) w.members)) [
                  | inl joined ↦ rw joined refl
                  | inr apart ↦ rw apart refl
                ])
        ])
