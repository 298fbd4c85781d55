-- ===== src/Organizations/Examples.antt =====
-- The theorems on organizations at concrete tables.
use nestjs_modular_monolith.Common.{
  ℕ, ◌≤◌, ◌≡◌, refl, ap, inl, inr, Bool, true, false, ◌&&◌, ◌||◌, none, some, List, [], ◌∷◌, Memᴰ,
  arith, any, ◌==◌,
}
use nestjs_modular_monolith.Errors.{Result, ok, throw, invitation_not_found}
use nestjs_modular_monolith.Errors.DomainErrors
use nestjs_modular_monolith.Prisma.ListClient.{list_client}
use nestjs_modular_monolith.Prisma.Rows.{IsUnique}
use nestjs_modular_monolith.Text.{literal, trim}
use nestjs_modular_monolith.Contracts.Events.{
  IntegrationEvent, Moment, organization_archived, organization_restored, organization_purged,
  create_integration_event,
}
use nestjs_modular_monolith.Organizations.Entities.{
  create, parse_slug, parse_name, OrganizationRole, role_eq, owner, admin, member, Organization,
  Membership, OrganizationInvitation, Tables,
}
use nestjs_modular_monolith.Organizations.Repository.{
  changed, change_member_role, remove_member, remove_member_over,
  find_membership_including_archived,
}
use nestjs_modular_monolith.Organizations.Members.Owners.{
  owners, change_member_role_keeps_owner, remove_member_keeps_owner,
}
use nestjs_modular_monolith.Organizations.Members.Skew.{concurrent_removals_no_owner}
use nestjs_modular_monolith.Organizations.Lifecycle.{
  LifecycleInput, require_owner, archive, restore, purge, lifecycle_event,
}
use nestjs_modular_monolith.Organizations.Lifecycle.Changes.{restore-archive}
use nestjs_modular_monolith.Organizations.Lifecycle.Erasure.{purge_outcome, erased}
use nestjs_modular_monolith.Organizations.Invitations.{
  TextLibrary, InvitationMoment, IssuedInvitation, issue, save, is_redeemable_at, matches_recipient,
  AcceptInvitationInput, AcceptedInvitation, accept, constant_time_equals,
}
use nestjs_modular_monolith.Organizations.Creation.{CreationMoment}
use nestjs_modular_monolith.Organizations.Invitations.Issue.{accept-save-issue}
use nestjs_modular_monolith.Organizations.Invitations.Accept.{
  accepted_tables, accept_outcome, accept-accept,
}

abbrev member_of : ℕ → ℕ → OrganizationRole → Membership
member_of id user_id role = record {
  id = id;
  organization_id = 7;
  user_id = user_id;
  role = role;
  created_at = 1000;
}

abbrev two_owners : List Membership
two_owners = member_of 1 10 owner ∷ member_of 2 11 owner ∷ []

two_owners-IsUnique :
    IsUnique
      (λ a b. a.id == b.id || a.organization_id == b.organization_id && a.user_id == b.user_id)
      two_owners
two_owners-IsUnique = (refl, (refl, tt))

change_member_role_keeps_owner_example :
    1 ≤ owners 7 (change_member_role list_client 7 10 admin two_owners).1
change_member_role_keeps_owner_example =
    change_member_role_keeps_owner list_client 7 7 10 two_owners two_owners-IsUnique (omega arith)
      admin

remove_member_keeps_owner_example : 1 ≤ owners 7 (remove_member list_client 7 10 two_owners).1
remove_member_keeps_owner_example =
    remove_member_keeps_owner list_client 7 7 10 two_owners two_owners-IsUnique (omega arith)

concurrent_removals_no_owner_example :
    let first = remove_member_over list_client 7 10 two_owners two_owners in
    let second = remove_member_over list_client 7 11 two_owners first.1 in
    (first.0 ≡ ok changed) × (second.0 ≡ ok changed) × (owners 7 second.1 ≡ 0)
concurrent_removals_no_owner_example =
    concurrent_removals_no_owner list_client 7 two_owners (member_of 1 10 owner)
      (member_of 2 11 owner) (Memᴰ.head refl) (Memᴰ.tail (Memᴰ.head refl)) refl refl
      (λ e. omega (arith, e)) ((λ e. inl refl), ((λ e. inr refl), tt))

abbrev acme : Organization
acme = record {
  id = 7;
  slug = literal "acme";
  name = literal "Acme";
  created_at = 500;
  archived_at = none;
}

abbrev invited : OrganizationInvitation
invited = record {
  id = 30;
  organization_id = 7;
  email = literal "a@b.c";
  role = member;
  token_hash = literal "s3cret";
  expires_at = 9000;
  accepted_at = none;
  created_at = 1000;
}

abbrev tables : Tables
tables = record {
  organizations = acme ∷ [];
  members = two_owners;
  invitations = invited ∷ [];
  subscriptions = [];
  files = [];
  outbox = [];
}

abbrev tables_archived : Tables
tables_archived = record tables { organizations = record acme { archived_at = some 2000 } ∷ [] }

abbrev by_owner : LifecycleInput
by_owner = record { organization_id = 7; actor_id = 10 }

abbrev noon : Moment
noon = record { now = 5000; event_id = 1 }

abbrev later : Moment
later = record { now = 6000; event_id = 2 }

abbrev accepts_all : IntegrationEvent → Bool
accepts_all e = true

allowed : (require_owner list_client accepts_all by_owner tables) ≡ (ok tt, tables)
unfolding require_owner find_membership_including_archived
allowed = refl

allowed_archived :
    (require_owner list_client accepts_all by_owner tables_archived) ≡ (ok tt, tables_archived)
unfolding require_owner find_membership_including_archived
allowed_archived = refl

fresh_later :
    any
      (λ e. (lifecycle_event organization_restored by_owner later).event_id == e.event_id)
      (lifecycle_event organization_archived by_owner noon ∷ [])
    ≡ false
unfolding create_integration_event
fresh_later = refl

restore-archive_example :
    restore list_client accepts_all by_owner later
      (archive list_client accepts_all by_owner noon tables).1
    ≡ (
      ok tt,
      record tables {
        outbox =
            lifecycle_event organization_archived by_owner noon
            ∷ lifecycle_event organization_restored by_owner later
            ∷ [];
      },
    )
restore-archive_example =
    restore-archive list_client accepts_all by_owner noon later tables acme allowed (refl, tt)
      (Memᴰ.head refl) refl refl refl refl refl fresh_later

-- Texts on which the library's calls do nothing.
abbrev plain_texts : TextLibrary
plain_texts = record {
  to_lower_case = λ s. s;
  utf8 = λ s. s;
  sha256_hex = λ s. s;
  is_email = λ s. true;
}

abbrev drawn : InvitationMoment
drawn = record { now = 1000; id = 31; token = literal "t0ken" }

abbrev redeems : AcceptInvitationInput
redeems = record { token = literal "s3cret"; user_id = 12; user_email = literal "a@b.c" }

accepted_now : accept list_client plain_texts redeems 40 2000 tables ≡ (
  ok (record { organization_id = 7; role = member }),
  accepted_tables invited 12 40 2000 tables,
)
unfolding is_redeemable_at matches_recipient constant_time_equals trim
accepted_now =
    accept_outcome list_client plain_texts redeems 40 2000 tables invited (refl, tt)
      (Memᴰ.head refl) refl

accept_outcome_example : accept list_client plain_texts redeems 40 2000 tables ≡ (
  ok (record { organization_id = 7; role = member }),
  accepted_tables invited 12 40 2000 tables,
)
unfolding is_redeemable_at matches_recipient constant_time_equals trim
accept_outcome_example =
    accept_outcome list_client plain_texts redeems 40 2000 tables invited (refl, tt)
      (Memᴰ.head refl) refl

accept-accept_example :
    accept list_client plain_texts redeems 41 2500
      (accept list_client plain_texts redeems 40 2000 tables).1
    ≡ (
      throw (DomainErrors.not_found invitation_not_found),
      (accept list_client plain_texts redeems 40 2000 tables).1,
    )
accept-accept_example =
    accept-accept list_client plain_texts redeems redeems 40 2000 41 2500 tables invited
      (record { organization_id = 7; role = member }) (refl, tt) (Memᴰ.head refl) refl refl
      (ap (λ (p : Result AcceptedInvitation × Tables). p.0) accepted_now)

redeemable_now : is_redeemable_at 2000 invited ≡ true
unfolding is_redeemable_at
redeemable_now = refl

abbrev joins : AcceptInvitationInput
joins = record { token = literal "t0ken"; user_id = 12; user_email = literal "d@e.f" }

abbrev issued : IssuedInvitation
issued = record {
  invitation = record {
    id = drawn.id;
    organization_id = 7;
    email = literal "d@e.f";
    role = member;
    token_hash = plain_texts.sha256_hex drawn.token;
    expires_at = 604801000;
    accepted_at = none;
    created_at = drawn.now;
  };
  token = drawn.token;
}

issued_now : issue plain_texts 7 (literal "d@e.f") member drawn ≡ ok issued
unfolding issue trim
issued_now = refl

accept-save-issue_example :
    let i = issued.invitation in
    let v = record tables { invitations = (save list_client i tables.invitations).1 } in
    (accept list_client plain_texts joins 40 2000 v
      ≡ (ok (record { organization_id = 7; role = member }), accepted_tables i 12 40 2000 v))
    × (i.organization_id ≡ 7)
    × (i.role ≡ member)
    × (role_eq member owner ≡ false)
accept-save-issue_example =
    accept-save-issue list_client plain_texts 7 (literal "d@e.f") member drawn issued joins 40 2000
      tables issued_now (refl, tt) refl refl refl (omega arith)

abbrev founding : CreationMoment
founding = record { organization_id = 8; member_id = 50; now = 3000 }

abbrev beta : Organization
beta = record {
  id = 8;
  slug = literal "beta";
  name = literal "Beta";
  created_at = 3000;
  archived_at = none;
}

parses_beta : create (literal "beta") (literal "Beta") 8 3000 ≡ ok beta
unfolding create parse_slug parse_name trim
parses_beta = refl

purge_outcome_example :
    purge list_client accepts_all by_owner noon tables_archived
    ≡ (ok tt, erased 7 (lifecycle_event organization_purged by_owner noon) tables_archived)
purge_outcome_example =
    purge_outcome list_client accepts_all by_owner noon tables_archived
      (record acme { archived_at = some 2000 }) allowed_archived (refl, tt) (Memᴰ.head refl) refl
      refl
