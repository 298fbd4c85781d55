-- ===== src/Auth.antt =====
-- The guards of every route, in the order of src/bootstrap/api.module.ts: BetterAuthGuard, ApiThrottlerGuard,
-- RolesGuard, TenantContextGuard and TenantRolesGuard. Logging is left out.
pub mod Guards
pub mod Access
pub mod Retention
pub mod Examples
use nestjs_modular_monolith.Common.{
  ℕ, Bool, true, false, not, Option, none, some, List, [], ◌∷◌, ◌++◌, ◌==◌, if◌then◌else◌, length,
  any,
}
use nestjs_modular_monolith.Errors.{Result, ok, throw, M, return, Thrown, http_exception}
use nestjs_modular_monolith.Prisma.{PrismaClient}
use nestjs_modular_monolith.Text.{Text, text_eq, literal}
use nestjs_modular_monolith.Billing.Json.{Value, undefined, string, boolean}
use nestjs_modular_monolith.Http.{member_of}
use nestjs_modular_monolith.Organizations.Entities.{OrganizationRole, role_eq, Membership, Tables}
use nestjs_modular_monolith.Organizations.Repository.{find_membership}

pub record AuthenticatedSession : Type 0 where
  pub user_id : Text
  pub email : Text
  pub email_verified : Bool
  pub role : Text
  pub session_id : Text

abbrev pub unless_short : Text → Option Text
unless_short [] = none
unless_short (c ∷ s) = some (c ∷ s)

-- `z.string().min(1)`
abbrev pub some_text : Value → Option Text
some_text (string s) = unless_short s
some_text _ = none

abbrev pub some_boolean : Value → Option Bool
some_boolean (boolean b) = some b
some_boolean _ = none

-- `z.string().min(1).default('member')`
abbrev pub role_or_member : Value → Option Text
role_or_member undefined = some (literal "member")
role_or_member value = some_text value

abbrev pub session_of :
    Option Text
    → Option Text
    → Option Bool
    → Option Text
    → Option Text
    → Option AuthenticatedSession
session_of (some user_id) (some email) (some email_verified) (some role) (some session_id) =
    some (record {
      user_id = user_id;
      email = email;
      email_verified = email_verified;
      role = role;
      session_id = session_id;
    })
session_of _ _ _ _ _ = none

unfoldable pub to_authenticated_session : Value → Option AuthenticatedSession
to_authenticated_session raw =
    let user = member_of (literal "user") raw in
    session_of (some_text (member_of (literal "id") user))
      (some_text (member_of (literal "email") user))
      (some_boolean (member_of (literal "emailVerified") user))
      (role_or_member (member_of (literal "role") user))
      (some_text (member_of (literal "id") (member_of (literal "session") raw)))

pub record TenantContext : Type 0 where
  pub organization_id : ℕ
  pub user_id : Text
  pub role : OrganizationRole

-- What the decorators say of a route.
pub record Route : Type 0 where
  pub is_public : Option Bool
  pub roles : Option (List Text)
  pub tenant_required : Option Bool
  pub tenant_roles : Option (List OrganizationRole)

-- A header is absent or a text here; `headers` are all of them, as the session is read from them.
pub record Request : Type 0 where
  pub headers : Value
  pub ip : Text
  pub organization_id : Option Text
  pub auth_session : Option AuthenticatedSession
  pub tenant_context : Option TenantContext

abbrev pub is_true : Option Bool → Bool
is_true none = false
is_true (some b) = b

abbrev unauthorized : Thrown
unauthorized = http_exception 401

abbrev forbidden : Thrown
forbidden = http_exception 403

-- What the guards call: better-auth, the base class of the throttler with what it answers under a
-- tracker, and the check of a UUID of version 7, with the number that it stands for.
pub record Services : Type 0 where
  pub get_session : Value → Result Value
  pub handle_request : Text → Result Bool
  pub parse_uuid_v7 : Text → Option ℕ
  pub uuid_number : Text → ℕ

abbrev pub includes : List Text → Text → Bool
includes roles role = any (text_eq role) roles

abbrev pub includes_role : List OrganizationRole → OrganizationRole → Bool
includes_role roles role = any (role_eq role) roles

abbrev pub is_empty_list {ℓ} : {A : Type ℓ} → List A → Bool
is_empty_list [] = true
is_empty_list (_ ∷ _) = false

-- An `HttpException` has `getStatus`; no other error has.
abbrev pub is_throttled : Thrown → Bool
is_throttled (http_exception _) = true
is_throttled _ = false

abbrev pub fail_open : Result Bool → Result Bool
fail_open (ok b) = ok b
fail_open (throw e) = if is_throttled e then throw e else ok true

-- A guard that answers false refuses the request.
abbrev pub after_guard : M Request (Unit {0}) → Result Bool × Request → Result (Unit {0}) × Request
after_guard rest (ok true, request) = rest request
after_guard rest (ok false, request) = (throw forbidden, request)
after_guard rest (throw e, request) = (throw e, request)

abbrev pub guarded : M Request Bool → M Request (Unit {0}) → M Request (Unit {0})
guarded guard rest request = after_guard rest (guard request)

module _ (services : Services) where
  open services use {get_session, handle_request, parse_uuid_v7, uuid_number}

  abbrev pub on_session : Result (Option AuthenticatedSession) → M Request Bool
  on_session (throw e) request = (throw e, request)
  on_session (ok none) request = (throw unauthorized, request)
  on_session (ok (some session)) request = (ok true, record request { auth_session = some session })

  abbrev pub read_session : Result Value → Result (Option AuthenticatedSession)
  read_session (ok raw) = ok (to_authenticated_session raw)
  read_session (throw e) = throw e

  -- `BetterAuthGuard.canActivate`
  unfoldable pub authenticate : Route → M Request Bool
  authenticate route request =
      if is_true route.is_public
      then (ok true, request)
      else on_session (read_session (get_session request.headers)) request

  abbrev pub tracker : Request → Text
  tracker request = tracker_of request.auth_session
    where
      tracker_of : Option AuthenticatedSession → Text
      tracker_of none = literal "ip:" ++ request.ip
      tracker_of (some session) = literal "session:" ++ session.session_id

  -- `ApiThrottlerGuard.handleRequest`
  unfoldable pub throttle : M Request Bool
  throttle request = (fail_open (handle_request (tracker request)), request)

  abbrev pub check_role : List Text → Option AuthenticatedSession → Result Bool
  check_role required none = throw unauthorized
  check_role required (some session) =
      if includes required session.role then ok true else throw forbidden

  abbrev pub check_roles : Option (List Text) → Option AuthenticatedSession → Result Bool
  check_roles none session = ok true
  check_roles (some required) session =
      if is_empty_list required then ok true else check_role required session

  -- `RolesGuard.canActivate`
  unfoldable pub authorize : Route → M Request Bool
  authorize route request = (check_roles route.roles request.auth_session, request)

  -- Where there is nothing to set, a route that demands a tenant is refused.
  abbrev pub neutral : Route → Thrown → M Request Bool
  neutral route e request =
      if is_true route.tenant_required then (throw e, request) else (ok true, request)

  abbrev pub on_membership : Route → ℕ → Text → Option Membership → M Request Bool
  on_membership route organization_id user_id none request = neutral route forbidden request
  on_membership route organization_id user_id (some membership) request = (
    ok true,
    record request {
      tenant_context =
          some (record {
            organization_id = organization_id;
            user_id = user_id;
            role = membership.role;
          });
    },
  )

  module _ (prisma : PrismaClient) (tables : Tables) where
    abbrev pub for_user : Route → ℕ → Option AuthenticatedSession → M Request Bool
    for_user route organization_id none request = neutral route unauthorized request
    for_user route organization_id (some session) request =
        on_membership route organization_id session.user_id
          (find_membership prisma organization_id (uuid_number session.user_id) tables) request

    abbrev pub for_organization : Route → Option ℕ → M Request Bool
    for_organization route none request = neutral route unauthorized request
    for_organization route (some organization_id) request =
        for_user route organization_id request.auth_session request

    abbrev pub read_header : Option Text → Option ℕ
    read_header none = none
    read_header (some header) = parse_uuid_v7 header

    -- `TenantContextGuard.canActivate`
    unfoldable pub enter_tenant : Route → M Request Bool
    enter_tenant route request =
        for_organization route (read_header request.organization_id) request

    abbrev pub check_tenant_role : List OrganizationRole → Option TenantContext → Result Bool
    check_tenant_role required none = throw unauthorized
    check_tenant_role required (some tenant) =
        if includes_role required tenant.role then ok true else throw forbidden

    abbrev pub check_tenant_roles :
        Option (List OrganizationRole) → Option TenantContext → Result Bool
    check_tenant_roles none tenant = ok true
    check_tenant_roles (some required) tenant =
        if is_empty_list required then ok true else check_tenant_role required tenant

    -- `TenantRolesGuard.canActivate`
    unfoldable pub authorize_tenant : Route → M Request Bool
    authorize_tenant route request =
        (check_tenant_roles route.tenant_roles request.tenant_context, request)

    -- Every guard in its turn; the route's handler runs where all of them pass.
    unfoldable pub pass_guards : Route → M Request (Unit {0})
    pass_guards route = guarded (authenticate route) (
        guarded throttle (
          guarded (authorize route)
            (guarded (enter_tenant route) (guarded (authorize_tenant route) (return tt)))))
