-- ===== src/Auth/Examples.antt =====
-- The theorems on guards and on expired rows at concrete inputs.
use nestjs_modular_monolith.Common.{◌*◌, ◌≡◌, refl, true, none, some, [], ◌∷◌, arith}
use nestjs_modular_monolith.Errors.{ok}
use nestjs_modular_monolith.Prisma.ListClient.{list_client}
use nestjs_modular_monolith.Text.{literal}
use nestjs_modular_monolith.Billing.Json.{Value, null, string, boolean, object, no_fields, field}
use nestjs_modular_monolith.Organizations.Entities.{admin, owner, Tables}
use nestjs_modular_monolith.Organizations.Repository.{find_membership}
use nestjs_modular_monolith.Auth.{
  AuthenticatedSession, Route, Request, Services, to_authenticated_session, authenticate, throttle,
  authorize, enter_tenant, authorize_tenant, pass_guards,
}
use nestjs_modular_monolith.Auth.Access.{IsAuthenticated, IsAuthorized, IsTenanted, pass_guards-ok}
use nestjs_modular_monolith.Auth.Retention.{
  AuthTables, AuthRetentionOptions, expires_before, session_cutoff, prune_until_idle,
  prune_until_idle_lem,
}
use nestjs_modular_monolith.Retention.Loops.{IsPruned}

abbrev raw_session : Value
raw_session = object (
    field (literal "user")
      (object (
        field (literal "id") (string (literal "u")) (
          field (literal "email") (string (literal "u@a.b"))
            (field (literal "emailVerified") (boolean true) no_fields))))
      (field (literal "session") (object (field (literal "id") (string (literal "s")) no_fields))
        no_fields))

-- Every request is from user 9; a header names organization 7.
abbrev services : Services
services = record {
  get_session = λ headers. ok raw_session;
  handle_request = λ tracker. ok true;
  parse_uuid_v7 = λ header. some 7;
  uuid_number = λ id. 9;
}

abbrev route : Route
route = record {
  is_public = none;
  roles = some (literal "member" ∷ []);
  tenant_required = some true;
  tenant_roles = some (owner ∷ admin ∷ []);
}

abbrev arriving : Request
arriving = record {
  headers = null;
  ip = literal "::1";
  organization_id = some (literal "7");
  auth_session = none;
  tenant_context = none;
}

abbrev session : AuthenticatedSession
session = record {
  user_id = literal "u";
  email = literal "u@a.b";
  email_verified = true;
  role = literal "member";
  session_id = literal "s";
}

abbrev served : Request
served = record arriving {
  auth_session = some session;
  tenant_context = some (record { organization_id = 7; user_id = literal "u"; role = admin });
}

abbrev tables : Tables
tables = record {
  organizations =
      (record {
        id = 7;
        slug = literal "acme";
        name = literal "Acme";
        created_at = 500;
        archived_at = none;
      })
      ∷ [];
  members =
      (record { id = 1; organization_id = 7; user_id = 9; role = admin; created_at = 600 }) ∷ [];
  invitations = [];
  subscriptions = [];
  files = [];
  outbox = [];
}

passes : pass_guards services list_client tables route arriving ≡ (ok tt, served)
unfolding pass_guards authenticate throttle authorize enter_tenant authorize_tenant find_membership
    to_authenticated_session
passes = refl

pass_guards-ok_example :
    IsAuthenticated services list_client tables route arriving served
    × IsAuthorized services list_client tables route served
    × IsTenanted services list_client tables route arriving served
pass_guards-ok_example =
    pass_guards-ok services list_client tables route arriving served refl passes

abbrev options : AuthRetentionOptions
options = record { expired_session_grace_hours = 24; batch_size = 2 }

-- Both sessions have expired, one of them within the last day.
abbrev expired : AuthTables
expired = record {
  sessions =
      (record { id = 1; expires_at = 1000 }) ∷ (record { id = 2; expires_at = 100000000 }) ∷ [];
  verifications = (record { id = 3; expires_at = 1000 }) ∷ [];
}

prune_until_idle_lem_example :
    let (result, left) = prune_until_idle list_client options 100001000 expired in
    IsPruned
      (expires_before (session_cutoff list_client options 100001000))
      (20 * 2)
      0
      expired.sessions
      (result.sessions, left.sessions)
    × IsPruned
        (expires_before 100001000)
        (20 * 2)
        0
        expired.verifications
        (result.verifications, left.verifications)
prune_until_idle_lem_example =
    prune_until_idle_lem list_client options 100001000 expired (omega arith) (refl, (refl, tt))
      (refl, tt)
