-- ===== src/Organizations/Members/Skew.antt =====
-- Two removals at once. Each transaction locks its own row, while both count the owners on the table
-- as it was before either committed, which the default isolation of PostgreSQL allows.
use nestjs_modular_monolith.Common.{
  ℕ, ◌≤◌, ◌≡◌, ◌≢◌, ◌⊎◌, refl, sym, ap, ◌∙◌, subst, inl, inr, true, false, not, List, [], ◌∷◌, Memᴰ,
  arith, keep, count, All, All-mem,
}
use nestjs_modular_monolith.Errors.{Result, ok}
use nestjs_modular_monolith.Prisma.{PrismaClient}
use nestjs_modular_monolith.Organizations.Entities.{Membership}
use nestjs_modular_monolith.Organizations.Repository.{
  MembershipChangeOutcome, changed, is_member, is_other_owner, is_last_owner, remove_member_over,
}
use nestjs_modular_monolith.Organizations.Members.Owners.{is_owner, owners}

another_counts :
    (organization_id user_id : ℕ) (members : List Membership) {b : Membership}
    → Memᴰ b members
    → is_owner organization_id b ≡ true
    → b.user_id ≢ user_id
    → 1 ≤ count (is_other_owner organization_id user_id) members
another_counts organization_id user_id [] m e n = elim m [ ]
another_counts organization_id user_id (r ∷ members) {b} (Memᴰ.head f) e n =
    let counted : is_other_owner organization_id user_id b ≡ true = ground arith in
    rw (subst (λ y. is_other_owner organization_id user_id y ≡ true) f counted) (omega arith)
another_counts organization_id user_id (r ∷ members) (Memᴰ.tail m) e n =
    ground (arith, another_counts organization_id user_id members m e n)

both_gone :
    (organization_id u v : ℕ) (members : List Membership)
    → All (λ r. is_owner organization_id r ≡ true → (r.user_id ≡ u) ⊎ (r.user_id ≡ v)) members
    → owners organization_id (
        keep
          (λ r. not (is_member organization_id v r))
          (keep (λ r. not (is_member organization_id u r)) members))
      ≡ 0
both_gone organization_id u v [] h = refl
both_gone organization_id u v (r ∷ members) h =
    ground (arith, h.0, both_gone organization_id u v members h.1)

module _ (prisma : PrismaClient) where
  removed :
      (organization_id user_id : ℕ) (seen members : List Membership) {a b : Membership}
      → Memᴰ a seen
      → is_member organization_id user_id a ≡ true
      → Memᴰ b seen
      → is_owner organization_id b ≡ true
      → b.user_id ≢ user_id
      → remove_member_over prisma organization_id user_id seen members
        ≡ (ok changed, keep (λ r. not (is_member organization_id user_id r)) members)
  unfolding remove_member_over is_last_owner
  removed organization_id user_id seen members m e n f apart =
      elim (prisma.find_first-Finds (is_member organization_id user_id) seen) [
        | inl (_, none_match) ↦ absurd (
            ground
              (arith, All-mem (λ r. is_member organization_id user_id r ≡ false) seen none_match m))
        | inr (current, found, _, _) ↦ rw found (
            ground (
              arith,
              prisma.count_rows-eq (is_other_owner organization_id user_id) seen,
              another_counts organization_id user_id seen n f apart,
              prisma.delete_many-eq (is_member organization_id user_id) members,
            ))
      ]

  -- Two owners, the only ones of their organization, are removed by two transactions that both count
  -- the owners before either commits: both report a change, and no owner is left.
  pub concurrent_removals_no_owner :
      (organization_id : ℕ) (members : List Membership) (a b : Membership)
      → Memᴰ a members
      → Memᴰ b members
      → is_owner organization_id a ≡ true
      → is_owner organization_id b ≡ true
      → a.user_id ≢ b.user_id
      → All
          (λ r.
            is_owner organization_id r ≡ true → (r.user_id ≡ a.user_id) ⊎ (r.user_id ≡ b.user_id))
          members
      → let first = remove_member_over prisma organization_id a.user_id members members in
        let second = remove_member_over prisma organization_id b.user_id members first.1 in
        (first.0 ≡ ok changed) × (second.0 ≡ ok changed) × (owners organization_id second.1 ≡ 0)
  concurrent_removals_no_owner organization_id members a b m n e f apart only =
      let first =
        removed organization_id a.user_id members members m (ground arith) n f
          (λ p. apart (sym p)) in
      let second =
        removed organization_id b.user_id members
          (keep (λ r. not (is_member organization_id a.user_id r)) members) n (ground arith) m e
          apart in
      rw first (
        refl,
        ap (λ (p : Result MembershipChangeOutcome × List Membership). p.0) second,
        ap (λ (p : Result MembershipChangeOutcome × List Membership). owners organization_id p.1)
              second
            ∙ both_gone organization_id a.user_id b.user_id members only,
      )
