-- ===== src/Organizations/Entities.antt =====
-- src/modules/organizations/domain/organization.ts: organizations, memberships, and the tables that
-- the repositories of the module read and write.
use nestjs_modular_monolith.Common.{
  ℕ, Bool, true, false, ◌&&◌, ◌||◌, Option, none, some, List, [], ◌∷◌, leb, ◌==◌, if◌then◌else◌,
  length,
}
use nestjs_modular_monolith.Errors.{Result, ok, throw, organization_invalid}
use nestjs_modular_monolith.Errors.DomainErrors
use nestjs_modular_monolith.Text.{Text, trim}
use nestjs_modular_monolith.Contracts.Events.{IntegrationEvent}

pub data OrganizationRole : Type 0 where
  owner admin member viewer : OrganizationRole

abbrev pub role_eq : OrganizationRole → OrganizationRole → Bool
role_eq owner owner = true
role_eq admin admin = true
role_eq member member = true
role_eq viewer viewer = true
role_eq _ _ = false

pub record Organization : Type 0 where
  pub id : ℕ
  pub slug : Text
  pub name : Text
  pub created_at : ℕ
  pub archived_at : Option ℕ

pub record Membership : Type 0 where
  pub id : ℕ
  pub organization_id : ℕ
  pub user_id : ℕ
  pub role : OrganizationRole
  pub created_at : ℕ

pub data SubscriptionStatus : Type 0 where
  trialing active past_due canceled paused : SubscriptionStatus

pub record Subscription : Type 0 where
  pub organization_id : ℕ
  pub status : SubscriptionStatus

-- `[a-z0-9]`
abbrev pub is_slug_unit : ℕ → Bool
is_slug_unit c = leb b'a' c && leb c b'z' || leb b'0' c && leb c b'9'

-- The regular expression `^[a-z0-9]+(?:-[a-z0-9]+)*$`; the flag says that the text before ends in a
-- letter or digit, so that a dash, or the end, may follow.
pub matches_slug : Bool → Text → Bool
matches_slug after [] = after
matches_slug after (c ∷ s) =
    let dashed = after && matches_slug false s in
    let plain = is_slug_unit c && matches_slug true s in if c == b'-' then dashed else plain

abbrev pub has_length : ℕ → ℕ → Text → Bool
has_length least most s = leb least (length s) && leb (length s) most

-- `slugSchema` and `nameSchema`: the trimmed text, if it passes.
unfoldable pub parse_slug : Text → Option Text
unfolding matches_slug
parse_slug raw =
    let s = trim raw in if has_length 3 80 s && matches_slug false s then some s else none

unfoldable pub parse_name : Text → Option Text
parse_name raw = let s = trim raw in if has_length 2 160 s then some s else none

-- `id` is what `newId()` returns, and `now` the clock.
pub create_parsed : Option Text → Option Text → ℕ → ℕ → Result Organization
create_parsed (some slug) (some name) id now =
    ok (record { id = id; slug = slug; name = name; created_at = now; archived_at = none })
create_parsed _ _ id now = throw (DomainErrors.validation organization_invalid)

unfoldable pub create : Text → Text → ℕ → ℕ → Result Organization
unfolding create_parsed
create slug name id now = create_parsed (parse_slug slug) (parse_name name) id now

-- An invitation as stored; `token_hash` is the digest of its secret.
pub record OrganizationInvitation : Type 0 where
  pub id : ℕ
  pub organization_id : ℕ
  pub email : Text
  pub role : OrganizationRole
  pub token_hash : Text
  pub expires_at : ℕ
  pub accepted_at : Option ℕ
  pub created_at : ℕ

-- A stored file, as far as an organization's purge looks at it.
pub record TenantFile : Type 0 where
  pub id : ℕ
  pub organization_id : ℕ

pub record Tables : Type 0 where
  pub organizations : List Organization
  pub members : List Membership
  pub invitations : List OrganizationInvitation
  pub subscriptions : List Subscription
  pub files : List TenantFile
  pub outbox : List IntegrationEvent
