-- ===== src/Auth/Guards.antt =====
-- What each guard has seen where it lets a request pass.
use nestjs_modular_monolith.Common.{
  ℕ, ◌≡◌, refl, sym, ap, ◌⊎◌, inl, inr, Bool, true, false, Option, none, some, List, [], ◌∷◌,
  if◌then◌else◌,
}
use nestjs_modular_monolith.Errors.{Result, ok, throw, M, Thrown}
use nestjs_modular_monolith.Prisma.{PrismaClient}
use nestjs_modular_monolith.Text.{Text}
use nestjs_modular_monolith.Billing.Json.{Value}
use nestjs_modular_monolith.Organizations.Entities.{OrganizationRole, Membership, Tables}
use nestjs_modular_monolith.Organizations.Repository.{find_membership}
use nestjs_modular_monolith.Auth.{
  AuthenticatedSession, to_authenticated_session, TenantContext, Route, Request, Services, is_true,
  includes, includes_role, is_empty_list, authenticate, read_session, on_session, throttle,
  authorize, check_roles, enter_tenant, neutral, on_membership, for_user, for_organization,
  read_header, authorize_tenant, check_tenant_roles, after_guard, guarded,
}

-- A request that passed went through the guard and then the rest.
after_guard_ok :
    (rest : M Request (Unit {0})) (x : Result Bool × Request) {s : Request}
    → after_guard rest x ≡ (ok tt, s)
    → (t : Request) × (x ≡ (ok true, t)) × (rest t ≡ (ok tt, s))
after_guard_ok rest (ok true, t) e = (t, refl, e)
after_guard_ok rest (ok false, t) e = cc
after_guard_ok rest (throw err, t) e = cc

pub guarded_ok :
    (guard : M Request Bool) (rest : M Request (Unit {0})) (r : Request) {s : Request}
    → guarded guard rest r ≡ (ok tt, s)
    → (t : Request) × (guard r ≡ (ok true, t)) × (rest t ≡ (ok tt, s))
guarded_ok guard rest r h = after_guard_ok rest (guard r) h

either :
    (b : Bool) (r : Request) (x : Result Bool × Request) {t : Request}
    → (if b then (ok true, r) else x) ≡ (ok true, t)
    → ((b ≡ true) × (t ≡ r)) ⊎ (x ≡ (ok true, t))
either true r x h = inl (refl, ap (λ (x : Result Bool × Request). x.1) (sym h))
either false r x h = inr h

granted : (b : Bool) (e : Thrown) → (if b then ok true else throw e) ≡ ok true → b ≡ true
granted true e h = refl
granted false e h = cc

-- The list of a decorator, empty where there is none.
abbrev pub listed {ℓ} : {A : Type ℓ} → Option (List A) → List A
listed none = []
listed (some xs) = xs

module _ (services : Services) where
  open services use {get_session, parse_uuid_v7, uuid_number}

  on_session_ok :
      (found : Result (Option AuthenticatedSession)) (r : Request) {t : Request}
      → on_session services found r ≡ (ok true, t)
      → (s : AuthenticatedSession) × (found ≡ ok (some s))
        × (t ≡ record r { auth_session = some s })
  on_session_ok (throw e) r h = cc
  on_session_ok (ok none) r h = cc
  on_session_ok (ok (some s)) r h = (s, refl, ap (λ (x : Result Bool × Request). x.1) (sym h))

  read_session_ok :
      (answer : Result Value) {s : AuthenticatedSession}
      → read_session services answer ≡ ok (some s)
      → (raw : Value) × (answer ≡ ok raw) × (to_authenticated_session raw ≡ some s)
  read_session_ok (throw e) h = cc
  read_session_ok (ok raw) h = (raw, refl, cc)

  -- The requests before and after differ in the session at most.
  pub authenticate_ok :
      (route : Route) (r : Request) {t : Request}
      → authenticate services route r ≡ (ok true, t)
      → ((is_true route.is_public ≡ true) × (t ≡ r))
        ⊎ ((s : AuthenticatedSession) × (raw : Value) × (get_session r.headers ≡ ok raw)
            × (to_authenticated_session raw ≡ some s)
            × (t ≡ record r { auth_session = some s }))
  unfolding authenticate
  authenticate_ok route r h = elim (either (is_true route.is_public) r _ h) [
    | inl is_public ↦ inl is_public
    | inr asked ↦
        let (s, found, same) = on_session_ok _ r asked in
        let (raw, answer, parsed) = read_session_ok (get_session r.headers) found in
        inr (s, raw, answer, parsed, same)
  ]

  pub throttle_ok : (r : Request) {t : Request} → throttle services r ≡ (ok true, t) → t ≡ r
  unfolding throttle
  throttle_ok r h = ap (λ (x : Result Bool × Request). x.1) (sym h)

  pub check_roles_ok :
      (roles : Option (List Text)) (session : Option AuthenticatedSession)
      → check_roles services roles session ≡ ok true
      → (is_empty_list (listed roles) ≡ true)
        ⊎ ((s : AuthenticatedSession) × (session ≡ some s)
            × (includes (listed roles) s.role ≡ true))
  check_roles_ok none session h = inl refl
  check_roles_ok (some []) session h = inl refl
  check_roles_ok (some (x ∷ xs)) none h = cc
  check_roles_ok (some (x ∷ xs)) (some s) h = inr (s, refl, granted _ _ h)

  pub authorize_ok :
      (route : Route) (r : Request) {t : Request}
      → authorize services route r ≡ (ok true, t)
      → (t ≡ r) × (check_roles services route.roles r.auth_session ≡ ok true)
  unfolding authorize
  authorize_ok route r h =
      (ap (λ (x : Result Bool × Request). x.1) (sym h), ap (λ (x : Result Bool × Request). x.0) h)

  neutral_ok :
      (route : Route) (e : Thrown) (r : Request) {t : Request}
      → neutral services route e r ≡ (ok true, t)
      → (is_true route.tenant_required ≡ false) × (t ≡ r)
  neutral_ok route e r h = go (is_true route.tenant_required) h
    where
      go :
          (b : Bool) {t : Request}
          → Path (Result Bool × Request) (if b then (throw e, r) else (ok true, r)) (ok true, t)
          → (b ≡ false) × (t ≡ r)
      go true h = cc
      go false h = (refl, ap (λ (x : Result Bool × Request). x.1) (sym h))

  module _ (prisma : PrismaClient) (tables : Tables) where
    -- The organization of the header, the session's user, and its membership there.
    abbrev pub IsTenantOf : Request → ℕ → AuthenticatedSession → Membership → Type 0
    IsTenantOf r o s m =
        (read_header services prisma tables r.organization_id ≡ some o)
        × (r.auth_session ≡ some s)
        × (find_membership prisma o (uuid_number s.user_id) tables ≡ some m)

    abbrev pub tenant : ℕ → AuthenticatedSession → Membership → TenantContext
    tenant o s m = record { organization_id = o; user_id = s.user_id; role = m.role }

    abbrev pub Entered : Route → Request → Request → Type 0
    Entered route r t =
        ((is_true route.tenant_required ≡ false) × (t ≡ r))
        ⊎ ((o : ℕ) × (s : AuthenticatedSession) × (m : Membership) × IsTenantOf r o s m
            × (t ≡ record r { tenant_context = some (tenant o s m) }))

    on_membership_ok :
        (route : Route) (r : Request) (o : ℕ) (s : AuthenticatedSession) (found : Option Membership)
        {t : Request}
        → read_header services prisma tables r.organization_id ≡ some o
        → r.auth_session ≡ some s
        → find_membership prisma o (uuid_number s.user_id) tables ≡ found
        → on_membership services route o s.user_id found r ≡ (ok true, t)
        → Entered route r t
    on_membership_ok route r o s none header session e h = inl (neutral_ok route _ r h)
    on_membership_ok route r o s (some m) header session e h =
        inr (o, s, m, (header, session, e), ap (λ (x : Result Bool × Request). x.1) (sym h))

    for_user_ok :
        (route : Route) (r : Request) (o : ℕ) (session : Option AuthenticatedSession) {t : Request}
        → read_header services prisma tables r.organization_id ≡ some o
        → r.auth_session ≡ session
        → for_user services prisma tables route o session r ≡ (ok true, t)
        → Entered route r t
    for_user_ok route r o none header e h = inl (neutral_ok route _ r h)
    for_user_ok route r o (some s) header e h = on_membership_ok route r o s _ header e refl h

    for_organization_ok :
        (route : Route) (r : Request) (header : Option ℕ) {t : Request}
        → read_header services prisma tables r.organization_id ≡ header
        → for_organization services prisma tables route header r ≡ (ok true, t)
        → Entered route r t
    for_organization_ok route r none e h = inl (neutral_ok route _ r h)
    for_organization_ok route r (some o) e h = for_user_ok route r o r.auth_session e refl h

    pub enter_tenant_ok :
        (route : Route) (r : Request) {t : Request}
        → enter_tenant services prisma tables route r ≡ (ok true, t)
        → Entered route r t
    unfolding enter_tenant
    enter_tenant_ok route r h = for_organization_ok route r _ refl h

    pub authorize_tenant_ok :
        (route : Route) (r : Request) {t : Request}
        → authorize_tenant services prisma tables route r ≡ (ok true, t)
        → (t ≡ r)
          × (check_tenant_roles services prisma tables route.tenant_roles r.tenant_context
              ≡ ok true)
    unfolding authorize_tenant
    authorize_tenant_ok route r h =
        (ap (λ (x : Result Bool × Request). x.1) (sym h), ap (λ (x : Result Bool × Request). x.0) h)

    pub check_tenant_roles-none :
        (roles : Option (List OrganizationRole))
        → check_tenant_roles services prisma tables roles none ≡ ok true
        → is_empty_list (listed roles) ≡ true
    check_tenant_roles-none none h = refl
    check_tenant_roles-none (some []) h = refl
    check_tenant_roles-none (some (x ∷ xs)) h = cc

    pub check_tenant_roles-some :
        (roles : Option (List OrganizationRole)) (t : TenantContext)
        → check_tenant_roles services prisma tables roles (some t) ≡ ok true
        → (is_empty_list (listed roles) ≡ true) ⊎ (includes_role (listed roles) t.role ≡ true)
    check_tenant_roles-some none t h = inl refl
    check_tenant_roles-some (some []) t h = inl refl
    check_tenant_roles-some (some (x ∷ xs)) t h = inr (granted _ _ h)
