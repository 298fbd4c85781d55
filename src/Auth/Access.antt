-- ===== src/Auth/Access.antt =====
-- What a handler may rely on: the facts that hold of a request which passed every guard.
use nestjs_modular_monolith.Common.{
  ℕ, ◌≡◌, sym, subst, ap, ◌∙◌, ◌⊎◌, inl, inr, true, false, none, some,
}
use nestjs_modular_monolith.Errors.{Result, ok, M, return}
use nestjs_modular_monolith.Prisma.{PrismaClient}
use nestjs_modular_monolith.Billing.Json.{Value}
use nestjs_modular_monolith.Organizations.Entities.{Membership, Tables}
use nestjs_modular_monolith.Organizations.Repository.{find_membership}
use nestjs_modular_monolith.Auth.Guards.{
  guarded_ok, listed, authenticate_ok, throttle_ok, authorize_ok, check_roles_ok, enter_tenant_ok,
  authorize_tenant_ok, check_tenant_roles-none, check_tenant_roles-some, tenant,
}
use nestjs_modular_monolith.Auth.{
  AuthenticatedSession, to_authenticated_session, Route, Request, Services, is_true, includes,
  includes_role, is_empty_list, authenticate, throttle, authorize, enter_tenant, read_header,
  authorize_tenant, check_tenant_roles, guarded, pass_guards,
}

module _ (services : Services) where
  open services use {get_session, parse_uuid_v7, uuid_number}

  module _ (prisma : PrismaClient) (tables : Tables) where
    -- The route is public, or better-auth has a session for the headers, and the request carries it.
    abbrev pub IsAuthenticated : Route → Request → Request → Type 0
    IsAuthenticated route r t =
        (is_true route.is_public ≡ true)
        ⊎ ((s : AuthenticatedSession) × (raw : Value) × (get_session r.headers ≡ ok raw)
            × (to_authenticated_session raw ≡ some s)
            × (t.auth_session ≡ some s))

    -- The route names no roles, or the session has one of them.
    abbrev pub IsAuthorized : Route → Request → Type 0
    IsAuthorized route t =
        (is_empty_list (listed route.roles) ≡ true)
        ⊎ ((s : AuthenticatedSession) × (t.auth_session ≡ some s)
            × (includes (listed route.roles) s.role ≡ true))

    -- The route demands no tenant and no role in one, or the request carries the live membership of
    -- the session's user in the organization of the header, with a role that the route names if it
    -- names any.
    abbrev pub IsTenanted : Route → Request → Request → Type 0
    IsTenanted route r t =
        ((is_true route.tenant_required ≡ false)
          × (is_empty_list (listed route.tenant_roles) ≡ true))
        ⊎ ((o : ℕ) × (s : AuthenticatedSession) × (m : Membership) × (read_header services prisma
                tables r.organization_id
              ≡ some o)
            × (t.auth_session ≡ some s)
            × (find_membership prisma o (uuid_number s.user_id) tables ≡ some m)
            × (t.tenant_context ≡ some (tenant services prisma tables o s m))
            × ((is_empty_list (listed route.tenant_roles) ≡ true)
                ⊎ (includes_role (listed route.tenant_roles) m.role ≡ true)))

    abbrev tenant_guards : Route → M Request (Unit {0})
    tenant_guards route =
        guarded (enter_tenant services prisma tables route)
          (guarded (authorize_tenant services prisma tables route) (return tt))

    abbrev later_guards : Route → M Request (Unit {0})
    later_guards route =
        guarded (throttle services) (guarded (authorize services route) (tenant_guards route))

    tenant_guards_ok :
        (route : Route) (r : Request) {t : Request}
        → r.tenant_context ≡ none
        → tenant_guards route r ≡ (ok tt, t)
        → IsTenanted route r t × (t.auth_session ≡ r.auth_session)
    tenant_guards_ok route r {t} fresh h =
        let (u, passed, rest) = guarded_ok (enter_tenant services prisma tables route) _ r h in
        let (v, checked, done) =
          guarded_ok (authorize_tenant services prisma tables route) (return tt) u rest in
        let (same, roles) = authorize_tenant_ok services prisma tables route u checked in
        let last : t ≡ u = ap (λ (x : Result (Unit {0}) × Request). x.1) (sym done) ∙ same in
        elim (enter_tenant_ok services prisma tables route r passed) [
          | inl (free, e) ↦ (
            inl (
              free,
              check_tenant_roles-none services prisma tables route.tenant_roles (
                  subst
                    (λ x. check_tenant_roles services prisma tables route.tenant_roles x ≡ ok true)
                    (ap (λ (x : Request). x.tenant_context) e ∙ fresh) roles),
            ),
            ap (λ (x : Request). x.auth_session) (last ∙ e),
          )
          | inr (o, s, m, (header, session, member), e) ↦ (
            inr (
              o,
              s,
              m,
              header,
              ap (λ (x : Request). x.auth_session) (last ∙ e) ∙ session,
              member,
              ap (λ (x : Request). x.tenant_context) (last ∙ e),
              check_tenant_roles-some services prisma tables route.tenant_roles
                  (tenant services prisma tables o s m)
                  (subst
                    (λ x. check_tenant_roles services prisma tables route.tenant_roles x ≡ ok true)
                    (ap (λ (x : Request). x.tenant_context) e) roles),
            ),
            ap (λ (x : Request). x.auth_session) (last ∙ e),
          )
        ]

    -- The guards after authentication.
    later_guards_ok :
        (route : Route) (r : Request) {t : Request}
        → r.tenant_context ≡ none
        → later_guards route r ≡ (ok tt, t)
        → IsAuthorized route t × IsTenanted route r t × (t.auth_session ≡ r.auth_session)
    later_guards_ok route r {t} fresh h =
        let (u, throttled, rest) = guarded_ok (throttle services) _ r h in
        let (v, permitted, rest') = guarded_ok (authorize services route) (tenant_guards route) r (
          subst (λ x. guarded (authorize services route) (tenant_guards route) x ≡ (ok tt, t))
            (throttle_ok services r throttled) rest) in
        let (same, roles) = authorize_ok services route r permitted in
        let (tenanted, kept) =
          tenant_guards_ok route r fresh
            (subst (λ x. tenant_guards route x ≡ (ok tt, t)) same rest') in
        (
          elim (check_roles_ok services route.roles r.auth_session roles) [
            | inl free ↦ inl free
            | inr (s, session, included) ↦ inr (s, kept ∙ session, included)
          ],
          tenanted,
          kept,
        )

    -- A request that passes every guard, and came without a tenant, may be relied on: unless the route
    -- is public, better-auth has a session for its headers, and the request carries it; unless the
    -- route names no roles, that session has one of them; and unless the route demands neither a tenant
    -- nor a role in one, the request carries the live membership of the session's user in the
    -- organization of the header, with one of the roles that the route names, if it names any.
    pub pass_guards-ok :
        (route : Route) (r t : Request)
        → r.tenant_context ≡ none
        → pass_guards services prisma tables route r ≡ (ok tt, t)
        → IsAuthenticated route r t × IsAuthorized route t × IsTenanted route r t
    unfolding pass_guards
    pass_guards-ok route r t fresh h =
        let (u, passed, rest) = guarded_ok (authenticate services route) (later_guards route) r h in
        elim (authenticate_ok services route r passed) [
          | inl (is_public, e) ↦
              let (authorized, tenanted, kept) =
                later_guards_ok route r fresh
                  (subst (λ x. later_guards route x ≡ (ok tt, t)) e rest) in
              (inl is_public, authorized, tenanted)
          | inr (s, raw, answer, parsed, e) ↦
              let (authorized, tenanted, kept) =
                later_guards_ok route (record r { auth_session = some s }) fresh
                  (subst (λ x. later_guards route x ≡ (ok tt, t)) e rest) in
              (inr (s, raw, answer, parsed, kept), authorized, tenanted)
        ]
