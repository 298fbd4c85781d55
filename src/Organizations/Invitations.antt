-- ===== src/Organizations/Invitations.antt =====
-- src/modules/organizations/domain/organization-invitation.ts, its repository
-- infrastructure/prisma-invitation.repository.ts, and the calls that issue and accept invitations,
-- application/invite-member.use-case.ts and application/accept-invitation.use-case.ts.
pub mod Issue
pub mod Accept
use nestjs_modular_monolith.Common.{
  ℕ, ◌+◌, ◌*◌, ◌≡◌, Bool, true, false, not, ◌&&◌, Option, none, some, List, leb, leb, ltb, keep,
  ◌==◌, if◌then◌else◌, is_null,
}
use nestjs_modular_monolith.Errors.{
  Result, ok, throw, M, continue, ◌>>=◌, ◌>>◌, return, organization_not_found, conflict_code,
  invitation_invalid, invitation_not_found,
}
use nestjs_modular_monolith.Errors.DomainErrors
use nestjs_modular_monolith.Prisma.{PrismaClient}
use nestjs_modular_monolith.Text.{Text, text_eq, trim}
use nestjs_modular_monolith.Organizations.Entities.{
  OrganizationRole, owner, role_eq, Organization, Membership, OrganizationInvitation, Tables,
}
use nestjs_modular_monolith.Organizations.Repository.{add_member, find_by_id}

-- What the code calls on texts: `toLowerCase`, `Buffer.from(_, 'utf8')`, SHA-256 in hexadecimal and
-- the address check `z.email().max(320)`.
pub record TextLibrary : Type 0 where
  pub to_lower_case : Text → Text
  pub utf8 : Text → List ℕ
  pub sha256_hex : Text → Text
  pub is_email : Text → Bool

abbrev pub default_ttl_days : ℕ
default_ttl_days = 7

abbrev pub day_ms : ℕ
day_ms = 86400000

-- The new rows' identifiers, the secret and the clock of a call.
pub record InvitationMoment : Type 0 where
  pub now : ℕ
  pub id : ℕ
  pub token : Text

pub record IssuedInvitation : Type 0 where
  pub invitation : OrganizationInvitation
  pub token : Text

-- The primary key and the unique digest.
abbrev pub same_invitation : OrganizationInvitation → OrganizationInvitation → Bool
same_invitation a b = if a.id == b.id then true else text_eq a.token_hash b.token_hash

unfoldable pub is_redeemable_at : ℕ → OrganizationInvitation → Bool
is_redeemable_at now i = is_null i.accepted_at && ltb now i.expires_at

-- `markAccepted`'s condition.
abbrev pub is_claimable : ℕ → ℕ → OrganizationInvitation → Bool
is_claimable id now r = r.id == id && is_null r.accepted_at && ltb now r.expires_at

abbrev pub set_accepted : ℕ → OrganizationInvitation → OrganizationInvitation
set_accepted now r = record r { accepted_at = some now }

module _ (texts : TextLibrary) where
  open texts use {to_lower_case, utf8, sha256_hex, is_email}

  -- `timingSafeEqual` compares the bytes.
  unfoldable pub constant_time_equals : Text → Text → Bool
  constant_time_equals left right = text_eq (utf8 left) (utf8 right)

  unfoldable pub matches_recipient : Text → OrganizationInvitation → Bool
  matches_recipient email i = constant_time_equals (to_lower_case (trim email)) i.email

  unfoldable pub issue : ℕ → Text → OrganizationRole → InvitationMoment → Result IssuedInvitation
  issue organization_id email role m =
      let address = to_lower_case (trim email) in
      if not (is_email address)
      then throw (DomainErrors.validation invitation_invalid)
      else if role_eq role owner
      then throw (DomainErrors.validation invitation_invalid)
      else ok (record {
        invitation = record {
          id = m.id;
          organization_id = organization_id;
          email = address;
          role = role;
          token_hash = sha256_hex m.token;
          expires_at = m.now + default_ttl_days * day_ms;
          accepted_at = none;
          created_at = m.now;
        };
        token = m.token;
      })

module _ (prisma : PrismaClient) where
  open prisma use {find_first, create, update_many, delete_many}

  unfoldable pub save : OrganizationInvitation → M (List OrganizationInvitation) (Unit {0})
  save = create same_invitation

  abbrev pub only_pending : Option OrganizationInvitation → Option OrganizationInvitation
  only_pending none = none
  only_pending (some row) = if is_null row.accepted_at then some row else none

  unfoldable pub find_pending_by_token_hash :
      Text → List OrganizationInvitation → Option OrganizationInvitation
  find_pending_by_token_hash token_hash rows =
      only_pending (find_first (λ r. text_eq r.token_hash token_hash) rows)

  unfoldable pub mark_accepted :
      ℕ → ℕ → List OrganizationInvitation → Bool × List OrganizationInvitation
  mark_accepted id now rows =
      let (written, n) = update_many (is_claimable id now) (set_accepted now) rows in
      (n == 1, written)

  unfoldable pub revoke : ℕ → ℕ → List OrganizationInvitation → Bool × List OrganizationInvitation
  revoke organization_id id rows =
      let (written, n) =
        delete_many
          (λ (r : OrganizationInvitation).
            r.id == id && r.organization_id == organization_id && is_null r.accepted_at)
          rows in
      (n == 1, written)

  abbrev pub newest_invitation_first : OrganizationInvitation → OrganizationInvitation → Bool
  newest_invitation_first a b = leb b.created_at a.created_at

  unfoldable pub list_pending : ℕ → ℕ → List OrganizationInvitation → List OrganizationInvitation
  list_pending organization_id now rows = prisma.order_by newest_invitation_first (
      keep
        (λ (r : OrganizationInvitation).
          r.organization_id == organization_id && is_null r.accepted_at && ltb now r.expires_at)
        rows)

  -- `RevokeInvitationUseCase.execute`.
  unfoldable pub revoke_invitation : ℕ → ℕ → M (List OrganizationInvitation) (Unit {0})
  revoke_invitation organization_id id rows =
      let (revoked, left) = revoke organization_id id rows in
      (if revoked then ok tt else throw (DomainErrors.not_found invitation_not_found), left)

  -- The body of the transaction of `AcceptInvitationUseCase.execute`.
  abbrev pub claim : OrganizationInvitation → ℕ → ℕ → ℕ → M Tables (Unit {0})
  claim invitation user_id member_id now w =
      let (claimed, invitations) = mark_accepted invitation.id now w.invitations in
      if claimed
      then (
        ok tt,
        record w {
          invitations = invitations;
          members =
              (add_member prisma invitation.organization_id user_id invitation.role member_id now
                w.members).1;
        },
      )
      else (
        throw (DomainErrors.not_found invitation_not_found),
        record w { invitations = invitations },
      )

pub record AcceptInvitationInput : Type 0 where
  pub token : Text
  pub user_id : ℕ
  pub user_email : Text

pub record AcceptedInvitation : Type 0 where
  pub organization_id : ℕ
  pub role : OrganizationRole

module _ (prisma : PrismaClient) (texts : TextLibrary) where
  -- What follows the lookup: the two refusals, then the transaction.
  abbrev pub accept_found :
      Option OrganizationInvitation → AcceptInvitationInput → ℕ → ℕ → M Tables AcceptedInvitation
  accept_found none input member_id now w = (throw (DomainErrors.not_found invitation_not_found), w)
  accept_found (some invitation) input member_id now w =
      if not (is_redeemable_at now invitation)
      then (throw (DomainErrors.not_found invitation_not_found), w)
      else if not (matches_recipient texts input.user_email invitation)
      then (throw (DomainErrors.forbidden invitation_not_found), w)
      else (prisma.transaction (claim prisma invitation input.user_id member_id now)
            >> return
                (record { organization_id = invitation.organization_id; role = invitation.role }))
          w

  unfoldable pub accept : AcceptInvitationInput → ℕ → ℕ → M Tables AcceptedInvitation
  accept input member_id now w =
      accept_found (find_pending_by_token_hash prisma (texts.sha256_hex input.token) w.invitations)
        input member_id now w

module _ (prisma : PrismaClient) (texts : TextLibrary) where
  -- `InviteMemberUseCase.execute`. `email_of` reads the address of a user; `send_invitation` is the
  -- notifier, which is called after the row is written.
  abbrev pub invite_to :
      Option Organization
      → Option Membership
      → ℕ
      → Text
      → OrganizationRole
      → InvitationMoment
      → (IssuedInvitation → Result (Unit {0}))
      → M Tables OrganizationInvitation
  invite_to none found organization_id email role m send_invitation w =
      (throw (DomainErrors.not_found organization_not_found), w)
  invite_to (some organization) (some already_a_member) organization_id email role m send_invitation
        w =
      (throw (DomainErrors.conflict conflict_code true), w)
  invite_to (some organization) none organization_id email role m send_invitation w =
      continue (issue texts organization_id email role m, w)
        (λ issued v.
          let (saved, rows) = save prisma issued.invitation v.invitations in
          continue (saved, record v { invitations = rows })
            (λ _ u. continue (send_invitation issued, u) (λ _ t. (ok issued.invitation, t))))

  unfoldable pub invite :
      (ℕ → Text)
      → ℕ
      → Text
      → OrganizationRole
      → InvitationMoment
      → (IssuedInvitation → Result (Unit {0}))
      → M Tables OrganizationInvitation
  invite email_of organization_id email role m send_invitation w =
      invite_to (find_by_id prisma organization_id w.organizations)
        (prisma.find_first
          (λ r.
            r.organization_id == organization_id
            && text_eq (email_of r.user_id) (texts.to_lower_case (trim email)))
          w.members)
        organization_id email role m send_invitation w
