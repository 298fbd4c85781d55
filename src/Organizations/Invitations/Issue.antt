-- ===== src/Organizations/Invitations/Issue.antt =====
-- Issuing an invitation, and what its recipient can do with it.
use nestjs_modular_monolith.Common.{
  ℕ, ◌+◌, ◌*◌, ◌<◌, ◌≡◌, refl, sym, ap, subst, is_null, ◌∙◌, true, false, Bool-cases, inl, inr,
  List, [], ◌∷◌, ◌++◌, Memᴰ, arith, any,
}
use nestjs_modular_monolith.Errors.{Result, Thrown, ok, throw}
use nestjs_modular_monolith.Prisma.{PrismaClient}
use nestjs_modular_monolith.Prisma.Rows.{IsUnique, IsUnique-snoc}
use nestjs_modular_monolith.Text.{Text, text_eq_refl, trim}
use nestjs_modular_monolith.Organizations.Entities.{
  OrganizationRole, owner, role_eq, OrganizationInvitation, Tables,
}
use nestjs_modular_monolith.Organizations.Invitations.{
  TextLibrary, InvitationMoment, IssuedInvitation, issue, save, same_invitation, is_redeemable_at,
  matches_recipient, constant_time_equals, default_ttl_days, day_ms, AcceptInvitationInput, accept,
}
use nestjs_modular_monolith.Organizations.Invitations.Accept.{
  accept_outcome, accepted_tables, same_invitation_comm,
}

mem-snoc : {A : Type 0} (r : A) (t : List A) → Memᴰ r (t ++ r ∷ [])
mem-snoc r [] = Memᴰ.head refl
mem-snoc r (x ∷ t) = Memᴰ.tail (mem-snoc r t)

-- What `issue` made, where it answered.
record IsIssued (texts : TextLibrary) (organization_id : ℕ) (email : Text) (role : OrganizationRole)
    (m : InvitationMoment) (issued : IssuedInvitation) : Type 0 where
  organization : issued.invitation.organization_id ≡ organization_id
  granted : issued.invitation.role ≡ role
  address : issued.invitation.email ≡ texts.to_lower_case (trim email)
  digest : issued.invitation.token_hash ≡ texts.sha256_hex issued.token
  expiry : issued.invitation.expires_at ≡ m.now + default_ttl_days * day_ms
  open_yet : is_null issued.invitation.accepted_at ≡ true
  grant_ok : role_eq role owner ≡ false

issue-IsIssued :
    (texts : TextLibrary) (organization_id : ℕ) (email : Text) (role : OrganizationRole)
    (m : InvitationMoment) (issued : IssuedInvitation)
    → issue texts organization_id email role m ≡ ok issued
    → IsIssued texts organization_id email role m issued
unfolding issue
issue-IsIssued texts organization_id email role m issued h =
    elim (Bool-cases (texts.is_email (texts.to_lower_case (trim email)))) [
      | inr bad ↦ absurd (not_issued (rw bad at h))
      | inl good ↦ elim (Bool-cases (role_eq role owner)) [
        | inl is_one ↦ absurd (not_issued (rw (good, is_one) at h))
        | inr is_none ↦
            subst (IsIssued texts organization_id email role m)
              (ok-injective (rw (good, is_none) at h))
              (record {
                organization = refl;
                granted = refl;
                address = refl;
                digest = refl;
                expiry = refl;
                open_yet = refl;
                grant_ok = is_none;
              })
      ]
    ]
  where
    not_issued : {e : Thrown} → Path (Result IssuedInvitation) (throw e) (ok issued) → ⊥
    not_issued e = cc

    ok-injective :
        {a : IssuedInvitation} → Path (Result IssuedInvitation) (ok a) (ok issued) → a ≡ issued
    ok-injective e = cc

module _ (prisma : PrismaClient) (texts : TextLibrary) where
  save_fresh :
      (i : OrganizationInvitation) (rows : List OrganizationInvitation)
      → any (same_invitation i) rows ≡ false
      → save prisma i rows ≡ (ok tt, rows ++ i ∷ [])
  unfolding save
  save_fresh i rows fresh = prisma.create-eq same_invitation i rows ∙ rw fresh refl

  module _ {organization_id : ℕ} {email : Text} {role : OrganizationRole} {m : InvitationMoment}
      {issued : IssuedInvitation} (is : IsIssued texts organization_id email role m issued) where
    matches :
        (user_email : Text)
        → texts.to_lower_case (trim user_email) ≡ texts.to_lower_case (trim email)
        → matches_recipient texts user_email issued.invitation ≡ true
    unfolding matches_recipient constant_time_equals
    matches user_email same =
        rw (is.address, same) (text_eq_refl (texts.utf8 (texts.to_lower_case (trim email))))

    redeemable :
        (later : ℕ) → later < m.now + 7 * 86400000 → is_redeemable_at later issued.invitation ≡ true
    unfolding is_redeemable_at
    redeemable later h = ground (arith, is.open_yet, is.expiry)

  -- An invitation that `issue` made for an address, once saved with an identifier and a digest that are
  -- new, is accepted within seven days by a user with its secret and with that address, up to case and
  -- surrounding spaces: the user is then a member of that organization in that role, which is not the
  -- owner's, or keeps the membership that they have.
  pub accept-save-issue :
      (organization_id : ℕ) (email : Text) (role : OrganizationRole) (m : InvitationMoment)
      (issued : IssuedInvitation) (input : AcceptInvitationInput) (member_id later : ℕ) (w : Tables)
      → issue texts organization_id email role m ≡ ok issued
      → IsUnique same_invitation w.invitations
      → any (same_invitation issued.invitation) w.invitations ≡ false
      → input.token ≡ issued.token
      → texts.to_lower_case (trim input.user_email) ≡ texts.to_lower_case (trim email)
      → later < m.now + 7 * 86400000
      → let v = record w { invitations = (save prisma issued.invitation w.invitations).1 } in
        (accept prisma texts input member_id later v ≡ (
          ok (record { organization_id = organization_id; role = role }),
          accepted_tables issued.invitation input.user_id member_id later v,
        ))
        × (issued.invitation.organization_id ≡ organization_id)
        × (issued.invitation.role ≡ role)
        × (role_eq role owner ≡ false)
  accept-save-issue organization_id email role m issued input member_id later w made u fresh secret
        mine timely =
      let i = issued.invitation in
      let is = issue-IsIssued texts organization_id email role m issued made in
      let alive = redeemable is later timely in
      let mine_too = matches is input.user_email mine in
      (
        rw (save_fresh i w.invitations fresh) (
            accept_outcome prisma texts input member_id later
              (record w { invitations = w.invitations ++ i ∷ [] }) i
              (IsUnique-snoc same_invitation same_invitation_comm i w.invitations fresh u)
              (mem-snoc i w.invitations) (is.digest ∙ ap texts.sha256_hex (sym secret))
            ∙ rw (alive, mine_too) (rw (is.organization, is.granted) refl)),
        is.organization,
        is.granted,
        is.grant_ok,
      )
