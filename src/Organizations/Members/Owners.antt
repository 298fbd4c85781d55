-- ===== src/Organizations/Members/Owners.antt =====
-- An organization that has an owner keeps one.
use nestjs_modular_monolith.Common.{
  ℕ, ◌≤◌, ◌≡◌, ◌≢◌, refl, ap, inl, inr, Bool, true, false, not, ◌&&◌, Bool-cases, List, [], ◌∷◌,
  Memᴰ, arith, ◌==◌, ℕ_discrete, keep, patch, count, any, All, All-map,
}
use nestjs_modular_monolith.Errors.{ok, continue}
use nestjs_modular_monolith.Prisma.{PrismaClient}
use nestjs_modular_monolith.Prisma.Rows.{IsUnique, unique_apart, All-self}
use nestjs_modular_monolith.Organizations.Entities.{OrganizationRole, owner, role_eq, Membership}
use nestjs_modular_monolith.Organizations.Repository.{
  changed, same_member, is_member, is_other_owner, is_last_owner, change_member_role, remove_member,
  change_member_role_over, remove_member_over,
}

abbrev pub is_owner : ℕ → Membership → Bool
is_owner organization_id r = r.organization_id == organization_id && role_eq r.role owner

abbrev pub owners : ℕ → List Membership → ℕ
owners organization_id = count (is_owner organization_id)

same_member_comm : (a b : Membership) → same_member a b ≡ same_member b a
same_member_comm a b = ground arith

-- The row that a query for one member finds is the only one.
only_member :
    (organization_id user_id : ℕ) (members : List Membership) {current : Membership}
    → IsUnique same_member members
    → Memᴰ current members
    → is_member organization_id user_id current ≡ true
    → All (λ r. is_member organization_id user_id r ≡ true → r ≡ current) members
only_member organization_id user_id members {current} u m e = All-map one members (All-self members)
  where
    one :
        (r : Membership) → Memᴰ r members → is_member organization_id user_id r ≡ true → r ≡ current
    one r n f = elim (unique_apart same_member same_member_comm members u n m) [
      | inl same ↦ same
      | inr distinct ↦ absurd (ground arith)
    ]

-- Owners other than the member outlast a change of the member's row, and its deletion.
others-le-patch :
    (organization_id user_id : ℕ) (role : OrganizationRole) (members : List Membership)
    → count (is_other_owner organization_id user_id) members
      ≤ owners organization_id
          (patch (is_member organization_id user_id) (λ r. record r { role = role }) members)
others-le-patch organization_id user_id role [] = omega arith
others-le-patch organization_id user_id role (r ∷ members) =
    ground (arith, others-le-patch organization_id user_id role members)

others-le-keep :
    (organization_id user_id : ℕ) (members : List Membership)
    → count (is_other_owner organization_id user_id) members
      ≤ owners organization_id (keep (λ r. not (is_member organization_id user_id r)) members)
others-le-keep organization_id user_id [] = omega arith
others-le-keep organization_id user_id (r ∷ members) =
    ground (arith, others-le-keep organization_id user_id members)

-- Where the member is no owner, every owner is another one.
owners-le-others :
    (organization_id user_id : ℕ) (members : List Membership) (current : Membership)
    → All (λ r. is_member organization_id user_id r ≡ true → r ≡ current) members
    → role_eq current.role owner ≡ false
    → owners organization_id members ≤ count (is_other_owner organization_id user_id) members
owners-le-others organization_id user_id [] current h e = omega arith
owners-le-others organization_id user_id (r ∷ members) current h e =
    ground (arith, h.0, owners-le-others organization_id user_id members current h.1 e)

-- Other organizations are left alone.
owners-patch_other :
    (j organization_id user_id : ℕ) (role : OrganizationRole) (members : List Membership)
    → j ≢ organization_id
    → owners j (patch (is_member organization_id user_id) (λ r. record r { role = role }) members)
      ≡ owners j members
owners-patch_other j organization_id user_id role [] h = refl
owners-patch_other j organization_id user_id role (r ∷ members) h =
    ground (arith, owners-patch_other j organization_id user_id role members h)

owners-keep_other :
    (j organization_id user_id : ℕ) (members : List Membership)
    → j ≢ organization_id
    → owners j (keep (λ r. not (is_member organization_id user_id r)) members) ≡ owners j members
owners-keep_other j organization_id user_id [] h = refl
owners-keep_other j organization_id user_id (r ∷ members) h =
    ground (arith, owners-keep_other j organization_id user_id members h)

module _ (prisma : PrismaClient) (j organization_id user_id : ℕ) (members : List Membership)
    (u : IsUnique same_member members) (h : 1 ≤ owners j members) where
  Keeps : List Membership → Type 0
  Keeps t = 1 ≤ owners j t

  -- The guard of both operations: another owner is counted, or the member is no owner.
  others_remain :
      {current : Membership}
      → Memᴰ current members
      → is_member organization_id user_id current ≡ true
      → role_eq current.role owner && is_last_owner prisma organization_id user_id members ≡ false
      → j ≡ organization_id
      → 1 ≤ count (is_other_owner organization_id user_id) members
  unfolding is_last_owner
  others_remain {current} m e guard same = elim (Bool-cases (role_eq current.role owner)) [
    | inl is_one ↦
        ground (arith, prisma.count_rows-eq (is_other_owner organization_id user_id) members)
    | inr is_none ↦ ground (
      arith,
      ap (λ i. owners i members) same,
      owners-le-others organization_id user_id members current
          (only_member organization_id user_id members u m e) is_none,
    )
  ]

  patched :
      (role : OrganizationRole)
      → (j ≡ organization_id → 1 ≤ count (is_other_owner organization_id user_id) members)
      → Keeps (patch (is_member organization_id user_id) (λ r. record r { role = role }) members)
  unfolding Keeps
  patched role others = elim (ℕ_discrete j organization_id) [
    | yes same ↦
        ground (arith, same, others same, others-le-patch organization_id user_id role members)
    | no apart ↦ ground (arith, owners-patch_other j organization_id user_id role members apart)
  ]

  kept :
      (j ≡ organization_id → 1 ≤ count (is_other_owner organization_id user_id) members)
      → Keeps (keep (λ r. not (is_member organization_id user_id r)) members)
  unfolding Keeps
  kept others = elim (ℕ_discrete j organization_id) [
    | yes same ↦ ground (arith, same, others same, others-le-keep organization_id user_id members)
    | no apart ↦ ground (arith, owners-keep_other j organization_id user_id members apart)
  ]

  updated :
      (role : OrganizationRole)
      → (j ≡ organization_id → 1 ≤ count (is_other_owner organization_id user_id) members)
      → Keeps
          (continue
            (prisma.update
              (is_member organization_id user_id)
              (λ r. record r { role = role })
              members)
            (λ _ written. (ok changed, written))).1
  unfolding Keeps
  updated role others = elim (Bool-cases (any (is_member organization_id user_id) members)) [
    | inl hit ↦
        rw
          (
            prisma.update-eq (is_member organization_id user_id) (λ r. record r { role = role })
                members,
            hit,
          )
          (patched role others)
    | inr miss ↦
        rw
          (
            prisma.update-eq (is_member organization_id user_id) (λ r. record r { role = role })
                members,
            miss,
          )
          h
  ]

  -- A role change keeps the number of owners of every organization above zero, if the table is unique
  -- on its indexes and the organization has an owner before, and nothing else runs meanwhile.
  pub change_member_role_keeps_owner :
      (role : OrganizationRole)
      → 1 ≤ owners j (change_member_role prisma organization_id user_id role members).1
  unfolding change_member_role change_member_role_over Keeps
  change_member_role_keeps_owner role =
      elim (prisma.find_first-Finds (is_member organization_id user_id) members) [
        | inl (e, none_match) ↦ rw e h
        | inr (current, e, m, is_it) ↦
            rw e
              (elim (Bool-cases (
                role_eq current.role owner
                && is_last_owner prisma organization_id user_id members)) [
                  | inl last ↦ elim (Bool-cases (role_eq current.role role)) [
                    | inl same ↦ rw same h
                    | inr other ↦ rw (other, last) h
                  ]
                  | inr free ↦ elim (Bool-cases (role_eq current.role role)) [
                    | inl same ↦ rw same h
                    | inr other ↦ rw (other, free) (updated role (others_remain m is_it free))
                  ]
                ])
      ]

  -- A removal does too.
  pub remove_member_keeps_owner :
      1 ≤ owners j (remove_member prisma organization_id user_id members).1
  unfolding remove_member remove_member_over Keeps
  remove_member_keeps_owner =
      elim (prisma.find_first-Finds (is_member organization_id user_id) members) [
        | inl (e, none_match) ↦ rw e h
        | inr (current, e, m, is_it) ↦
            rw e
              (elim (Bool-cases (
                role_eq current.role owner
                && is_last_owner prisma organization_id user_id members)) [
                  | inl last ↦ rw last h
                  | inr free ↦
                      rw (free, prisma.delete_many-eq (is_member organization_id user_id) members)
                        (kept (others_remain m is_it free))
                ])
      ]
