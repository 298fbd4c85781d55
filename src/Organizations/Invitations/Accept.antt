-- ===== src/Organizations/Invitations/Accept.antt =====
-- Accepting an invitation: every branch, and that a token is spent once.
use nestjs_modular_monolith.Common.{
  ℕ, ◌≡◌, refl, sym, ap, ◌∙◌, subst, true, false, not, Bool-cases, inl, inr, none, some, List, [],
  ◌∷◌, ◌++◌, Memᴰ, arith, ◌==◌, ==_refl, if◌then◌else◌, is_null, patch, count, any, All, All-map,
  All-mem,
}
use nestjs_modular_monolith.Errors.{Result, ok, throw, is_ok, invitation_not_found}
use nestjs_modular_monolith.Errors.DomainErrors
use nestjs_modular_monolith.Prisma.{PrismaClient}
use nestjs_modular_monolith.Prisma.Rows.{
  IsUnique, unique_apart, All-self, count_one, mem-patch_hit, IsUnique-patch,
}
use nestjs_modular_monolith.Text.{Text, text_eq, text_eq_comm, text_eq_refl}
use nestjs_modular_monolith.Organizations.Entities.{Membership, OrganizationInvitation, Tables}
use nestjs_modular_monolith.Organizations.Repository.{same_member, add_member}
use nestjs_modular_monolith.Organizations.Invitations.{
  TextLibrary, same_invitation, is_redeemable_at, is_claimable, set_accepted, matches_recipient,
  find_pending_by_token_hash, mark_accepted, claim, AcceptInvitationInput, AcceptedInvitation,
  accept,
}

pub same_invitation_comm :
    (a b : OrganizationInvitation) → same_invitation a b ≡ same_invitation b a
same_invitation_comm a b = ground (arith, text_eq_comm a.token_hash b.token_hash)

-- Nothing is left to claim once the only row with the identifier is accepted.
none_claimable :
    (id now later : ℕ) (rows : List OrganizationInvitation)
    → All (λ r. r.id ≡ id → is_redeemable_at now r ≡ true) rows
    → count (is_claimable id later) (patch (is_claimable id now) (set_accepted now) rows) ≡ 0
unfolding is_redeemable_at
none_claimable id now later [] h = refl
none_claimable id now later (r ∷ rows) h = ground (arith, h.0, none_claimable id now later rows h.1)

only_invitation :
    (rows : List OrganizationInvitation) (i : OrganizationInvitation)
    → IsUnique same_invitation rows
    → Memᴰ i rows
    → All (λ r. same_invitation r i ≡ true → r ≡ i) rows
only_invitation rows i u m = All-map one rows (All-self rows)
  where
    one : (r : OrganizationInvitation) → Memᴰ r rows → same_invitation r i ≡ true → r ≡ i
    one r n f = elim (unique_apart same_invitation same_invitation_comm rows u n m) [
      | inl same ↦ same
      | inr distinct ↦ absurd (ground arith)
    ]

-- The membership that an acceptance adds.
abbrev pub joined : OrganizationInvitation → ℕ → ℕ → ℕ → Membership
joined i user_id member_id now = record {
  id = member_id;
  organization_id = i.organization_id;
  user_id = user_id;
  role = i.role;
  created_at = now;
}

abbrev pub with_member : Membership → List Membership → List Membership
with_member r members = if any (same_member r) members then members else members ++ r ∷ []

abbrev pub accepted_tables : OrganizationInvitation → ℕ → ℕ → ℕ → Tables → Tables
accepted_tables i user_id member_id now w = record w {
  invitations = patch (is_claimable i.id now) (set_accepted now) w.invitations;
  members = with_member (joined i user_id member_id now) w.members;
}

module _ (prisma : PrismaClient) where
  find-invitation :
      (rows : List OrganizationInvitation) (i : OrganizationInvitation) (token_hash : Text)
      → IsUnique same_invitation rows
      → Memᴰ i rows
      → i.token_hash ≡ token_hash
      → find_pending_by_token_hash prisma token_hash rows
        ≡ (if is_null i.accepted_at then some i else none)
  unfolding find_pending_by_token_hash
  find-invitation rows i token_hash u m e =
      let hit : text_eq i.token_hash token_hash ≡ true = rw e (text_eq_refl token_hash) in
      elim (prisma.find_first-Finds
        (λ (r : OrganizationInvitation). text_eq r.token_hash token_hash) rows) [
          | inl (_, none_match) ↦ absurd (
              ground (
                arith,
                All-mem (λ (r : OrganizationInvitation). text_eq r.token_hash token_hash ≡ false)
                    rows none_match m,
              ))
          | inr (r, found, n, h) ↦
              rw
                (
                  found,
                  All-mem (λ r. same_invitation r i ≡ true → r ≡ i) rows
                      (only_invitation rows i u m) n (ground (arith, e)),
                )
                refl
        ]

  mark_accepted_lem :
      (id now : ℕ) (rows : List OrganizationInvitation)
      → mark_accepted prisma id now rows ≡ (
        count (is_claimable id now) rows == 1,
        patch (is_claimable id now) (set_accepted now) rows,
      )
  unfolding mark_accepted
  mark_accepted_lem id now rows =
      ap (λ (p : List OrganizationInvitation × ℕ). (p.1 == 1, p.0))
        (prisma.update_many-eq (is_claimable id now) (set_accepted now) rows)

  add_member_lem :
      (i : OrganizationInvitation) (user_id member_id now : ℕ) (members : List Membership)
      → (add_member prisma i.organization_id user_id i.role member_id now members).1
        ≡ with_member (joined i user_id member_id now) members
  unfolding add_member
  add_member_lem i user_id member_id now members =
      rw (prisma.create_many-eq same_member (joined i user_id member_id now) members)
        (elim (Bool-cases (any (same_member (joined i user_id member_id now)) members)) [
          | inl hit ↦ rw hit refl
          | inr miss ↦ rw miss refl
        ])

  claim_lem :
      (i : OrganizationInvitation) (user_id member_id now : ℕ) (w : Tables)
      → IsUnique same_invitation w.invitations
      → Memᴰ i w.invitations
      → is_redeemable_at now i ≡ true
      → prisma.transaction (claim prisma i user_id member_id now) w
        ≡ (ok tt, accepted_tables i user_id member_id now w)
  unfolding is_redeemable_at
  claim_lem i user_id member_id now w u m ready =
      rw
        (
          prisma.transaction-eq (claim prisma i user_id member_id now) w,
          mark_accepted_lem i.id now w.invitations,
          count_one same_invitation (is_claimable i.id now) (λ a b p q. ground arith) w.invitations
              u m (ground (arith, ==_refl i.id)),
          add_member_lem i user_id member_id now w.members,
        )
        refl

unspent :
    (now : ℕ) (i : OrganizationInvitation)
    → is_redeemable_at now i ≡ true
    → is_null i.accepted_at ≡ true
unfolding is_redeemable_at
unspent now i alive = ground arith

claimable :
    (now : ℕ) (i : OrganizationInvitation)
    → is_redeemable_at now i ≡ true
    → is_claimable i.id now i ≡ true
unfolding is_redeemable_at
claimable now i alive = ground (arith, ==_refl i.id)

IsUnique-after :
    (id now : ℕ) (rows : List OrganizationInvitation)
    → IsUnique same_invitation rows
    → IsUnique same_invitation (patch (is_claimable id now) (set_accepted now) rows)
IsUnique-after id now rows =
    IsUnique-patch same_invitation (is_claimable id now) (set_accepted now) rows (λ a b. refl)
      (λ a b. refl)

not_refused : {A : Type 0} {r : Result A} {a : A} → r ≡ ok a → is_ok r ≡ false → ⊥
not_refused {r = r} answered refused =
    (let answers : is_ok r ≡ true = ap is_ok answered in ground arith)

module _ (prisma : PrismaClient) (texts : TextLibrary) where
  -- What accepting does with a token that some invitation carries, on every branch, in a table that is
  -- unique on its indexes. Spent and expired invitations are not found, and another recipient is
  -- refused; neither changes anything. Otherwise the invitation is marked, and the user is a member in
  -- its role, or keeps the membership that they have.
  pub accept_outcome :
      (input : AcceptInvitationInput) (member_id now : ℕ) (w : Tables) (i : OrganizationInvitation)
      → IsUnique same_invitation w.invitations
      → Memᴰ i w.invitations
      → i.token_hash ≡ texts.sha256_hex input.token
      → accept prisma texts input member_id now w ≡ (
          if not (is_redeemable_at now i)
          then (throw (DomainErrors.not_found invitation_not_found), w)
          else if not (matches_recipient texts input.user_email i)
          then (throw (DomainErrors.forbidden invitation_not_found), w)
          else (
            ok (record { organization_id = i.organization_id; role = i.role }),
            accepted_tables i input.user_id member_id now w,
          ))
  unfolding accept
  accept_outcome input member_id now w i u m e =
      rw (find-invitation prisma w.invitations i (texts.sha256_hex input.token) u m e)
        (elim (Bool-cases (is_redeemable_at now i)) [
          | inl alive ↦
              rw (unspent now i alive, alive)
                (elim (Bool-cases (matches_recipient texts input.user_email i)) [
                  | inr other ↦ rw other refl
                  | inl mine ↦
                      rw (mine, claim_lem prisma i input.user_id member_id now w u m alive) refl
                ])
          | inr dead ↦ rw dead (elim (Bool-cases (is_null i.accepted_at)) [
            | inl pending ↦ rw (pending, dead) refl
            | inr spent ↦ rw spent refl
          ])
        ])

  accepted :
      (input : AcceptInvitationInput) (member_id now : ℕ) (w : Tables) (i : OrganizationInvitation)
      → IsUnique same_invitation w.invitations
      → Memᴰ i w.invitations
      → i.token_hash ≡ texts.sha256_hex input.token
      → is_redeemable_at now i ≡ true
      → matches_recipient texts input.user_email i ≡ true
      → accept prisma texts input member_id now w ≡ (
        ok (record { organization_id = i.organization_id; role = i.role }),
        accepted_tables i input.user_id member_id now w,
      )
  accepted input member_id now w i u m e alive mine =
      accept_outcome input member_id now w i u m e ∙ rw (alive, mine) refl

  spent_after :
      (input : AcceptInvitationInput) (member_id now : ℕ) (w : Tables) (i : OrganizationInvitation)
      → IsUnique same_invitation w.invitations
      → Memᴰ i w.invitations
      → i.token_hash ≡ texts.sha256_hex input.token
      → is_null i.accepted_at ≡ false
      → accept prisma texts input member_id now w
        ≡ (throw (DomainErrors.not_found invitation_not_found), w)
  unfolding is_redeemable_at
  spent_after input member_id now w i u m e spent =
      accept_outcome input member_id now w i u m e ∙ rw spent refl

  -- A token is spent once: after an acceptance that answered, every acceptance with the same token, by
  -- any user at any time, is not found and changes nothing.
  pub accept-accept :
      (input again : AcceptInvitationInput) (member_id now member_id' later : ℕ) (w : Tables)
      (i : OrganizationInvitation) (answer : AcceptedInvitation)
      → IsUnique same_invitation w.invitations
      → Memᴰ i w.invitations
      → i.token_hash ≡ texts.sha256_hex input.token
      → again.token ≡ input.token
      → (accept prisma texts input member_id now w).0 ≡ ok answer
      → accept prisma texts again member_id' later (accept prisma texts input member_id now w).1 ≡ (
        throw (DomainErrors.not_found invitation_not_found),
        (accept prisma texts input member_id now w).1,
      )
  accept-accept input again member_id now member_id' later w i answer u m e same answered =
      let first = accept_outcome input member_id now w i u m e in
      elim (Bool-cases (is_redeemable_at now i)) [
        | inr dead ↦ absurd (not_refused answered (ap (λ p. is_ok p.0) first ∙ rw dead refl))
        | inl alive ↦ elim (Bool-cases (matches_recipient texts input.user_email i)) [
          | inr other ↦
              absurd (not_refused answered (ap (λ p. is_ok p.0) first ∙ rw (alive, other) refl))
          | inl mine ↦
              subst
                (λ (p : Result AcceptedInvitation × Tables).
                  accept prisma texts again member_id' later p.1
                  ≡ (throw (DomainErrors.not_found invitation_not_found), p.1))
                (sym (accepted input member_id now w i u m e alive mine))
                (spent_after again member_id' later
                  (accepted_tables i input.user_id member_id now w) (set_accepted now i)
                  (IsUnique-after i.id now w.invitations u)
                  (mem-patch_hit (is_claimable i.id now) (set_accepted now) w.invitations m
                    (claimable now i alive))
                  (e ∙ ap texts.sha256_hex (sym same)) refl)
        ]
      ]

by_id : (r i : OrganizationInvitation) → r.id ≡ i.id → same_invitation r i ≡ true
by_id r i f = ground (arith, f)

-- Two acceptances that both read the invitation before either claimed it: whoever comes second meets
-- no row to claim, at any time, so its transaction throws and leaves the tables as they are. The first
-- one read an invitation that it could redeem.
pub claim-claim :
    (prisma : PrismaClient) (i : OrganizationInvitation)
    (user_id member_id now user_id' member_id' later : ℕ) (w : Tables)
    → IsUnique same_invitation w.invitations
    → Memᴰ i w.invitations
    → is_redeemable_at now i ≡ true
    → let v = (prisma.transaction (claim prisma i user_id member_id now) w).1 in
      (prisma.transaction (claim prisma i user_id member_id now) w ≡ (ok tt, v))
      × (prisma.transaction (claim prisma i user_id' member_id' later) v
          ≡ (throw (DomainErrors.not_found invitation_not_found), v))
claim-claim prisma i user_id member_id now user_id' member_id' later w u m ready =
    let gone = none_claimable i.id now later w.invitations (
      All-map (λ r same f. ap (is_redeemable_at now) (same (by_id r i f)) ∙ ready) w.invitations
        (only_invitation w.invitations i u m)) in
    rw (claim_lem prisma i user_id member_id now w u m ready) (
      refl,
      rw
          (
            prisma.transaction-eq (claim prisma i user_id' member_id' later)
                (accepted_tables i user_id member_id now w),
            mark_accepted_lem prisma i.id later
                (patch (is_claimable i.id now) (set_accepted now) w.invitations),
            gone,
          )
          refl,
    )
