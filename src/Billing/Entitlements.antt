-- ===== src/Billing/Entitlements.antt =====
-- src/modules/billing/domain/entitlement.service.ts and infrastructure/prisma-billing.repository.ts: what
-- a tenant is entitled to, by its plan, with a cache of a process.
pub mod Cache
use nestjs_modular_monolith.Common.{
  ℕ, ◌+◌, ◌≤◌, ◌≡◌, Bool, true, false, ◌&&◌, ◌||◌, not, Option, none, some, List, [], ◌∷◌, ◌++◌,
  ltb, leb, ◌==◌, if◌then◌else◌, keep, any, length,
}
use nestjs_modular_monolith.Prisma.{PrismaClient}
use nestjs_modular_monolith.Text.{Text, text_eq, literal}
use nestjs_modular_monolith.Billing.Json.{
  Value, string, number, array, object, undefined, Items, no_items, item, Fields, no_fields, field,
  member,
}
use nestjs_modular_monolith.Billing.Events.{SubscriptionStatus, trialing, active, and_then}

-- `BillingEntitlementSet`; a limit as the bits of its number.
pub record EntitlementSet : Type 0 where
  pub features : List Text
  pub limits : List (Text × ℕ)

abbrev pub empty_set : EntitlementSet
empty_set = record { features = []; limits = [] }

-- A row of `billing.plan`, and one of `billing.subscription` with its plan.
pub record Plan : Type 0 where
  pub code : Text
  pub name : Text
  pub is_active : Bool
  pub entitlements : Value

pub record Subscription : Type 0 where
  pub organization_id : ℕ
  pub status : SubscriptionStatus
  pub provider : Text
  pub current_period_end : Option ℕ
  pub plan : Plan

pub record CurrentSubscription : Type 0 where
  pub organization_id : ℕ
  pub plan_code : Text
  pub plan_name : Text
  pub status : SubscriptionStatus
  pub provider : Text
  pub current_period_end : Option ℕ
  pub entitlements : EntitlementSet

abbrev pub strings_of : Items → Option (List Text)
strings_of no_items = some []
strings_of (item (string s) xs) = and_then (strings_of xs) (λ ss. some (s ∷ ss))
strings_of (item x xs) = none

-- `z.array(z.string()).default([])`
abbrev pub features_of : Value → Option (List Text)
features_of undefined = some []
features_of (array xs) = strings_of xs
features_of x = none

-- Whether the number of these bits is finite and not negative.
module _ (is_finite_nonnegative : ℕ → Bool) where
  abbrev pub limits_in : Fields → Option (List (Text × ℕ))
  limits_in no_fields = some []
  limits_in (field k (number n) fs) =
      let rest = limits_in fs in
      if is_finite_nonnegative n then and_then rest (λ ls. some ((k, n) ∷ ls)) else none
  limits_in (field k x fs) = none

  -- `z.record(z.string(), z.number().finite().nonnegative()).default({})`
  abbrev pub limits_of : Value → Option (List (Text × ℕ))
  limits_of undefined = some []
  limits_of (object fs) = limits_in fs
  limits_of x = none

  abbrev pub parse_set : Value → Option EntitlementSet
  parse_set (object fs) = and_then (features_of (member (literal "features") fs)) (λ features.
      and_then (limits_of (member (literal "limits") fs))
        (λ limits. some (record { features = features; limits = limits })))
  parse_set x = none

  abbrev pub set_or_empty : Option EntitlementSet → EntitlementSet
  set_or_empty none = empty_set
  set_or_empty (some s) = s

  unfoldable pub parse_entitlements : Value → EntitlementSet
  parse_entitlements value = set_or_empty (parse_set value)

  abbrev pub is_running : SubscriptionStatus → Bool
  is_running trialing = true
  is_running active = true
  is_running _ = false

  abbrev pub to_current : Option Subscription → Option CurrentSubscription
  to_current none = none
  to_current (some row) = some (record {
    organization_id = row.organization_id;
    plan_code = row.plan.code;
    plan_name = row.plan.name;
    status = row.status;
    provider = row.provider;
    current_period_end = row.current_period_end;
    entitlements = parse_entitlements row.plan.entitlements;
  })

  unfoldable pub find_current_subscription :
      PrismaClient → ℕ → List Subscription → Option CurrentSubscription
  find_current_subscription prisma organization_id rows = to_current (
      prisma.find_first
        (λ (r : Subscription).
          r.organization_id == organization_id && is_running r.status && r.plan.is_active)
        rows)

abbrev pub cache_ttl_ms : ℕ
cache_ttl_ms = 30000

abbrev pub max_cached_tenants : ℕ
max_cached_tenants = 10000

pub record CacheEntry : Type 0 where
  pub value : EntitlementSet
  pub fresh_until_ms : ℕ

-- A JavaScript `Map`: its entries in the order of their first insertion.
abbrev pub Cache : Type 0
Cache = List (ℕ × CacheEntry)

abbrev pub cache_get : ℕ → Cache → Option CacheEntry
cache_get k [] = none
cache_get k ((j, entry) ∷ cache) = if j == k then some entry else cache_get k cache

abbrev pub cache_set : ℕ → CacheEntry → Cache → Cache
cache_set k entry [] = (k, entry) ∷ []
cache_set k entry ((j, old) ∷ cache) =
    let rest = cache_set k entry cache in if j == k then (j, entry) ∷ cache else (j, old) ∷ rest

abbrev pub cache_delete : ℕ → Cache → Cache
cache_delete k [] = []
cache_delete k ((j, old) ∷ cache) =
    let rest = cache_delete k cache in if j == k then cache else (j, old) ∷ rest

-- The entry under `keys().next()` is deleted, where there is one.
abbrev pub delete_oldest : Cache → Cache
delete_oldest [] = []
delete_oldest ((j, old) ∷ cache) = cache_delete j ((j, old) ∷ cache)

unfoldable pub remember : ℕ → CacheEntry → Cache → Cache
remember k entry cache =
    cache_set k entry (if leb max_cached_tenants (length cache) then delete_oldest cache else cache)

module _ (is_finite_nonnegative : ℕ → Bool) (prisma : PrismaClient) where
  abbrev pub value_of : Option CurrentSubscription → EntitlementSet
  value_of none = empty_set
  value_of (some s) = s.entitlements

  -- What the database says that a tenant is entitled to.
  abbrev pub current : ℕ → List Subscription → EntitlementSet
  current organization_id rows =
      value_of (find_current_subscription is_finite_nonnegative prisma organization_id rows)

  abbrev pub fetch : ℕ → ℕ → List Subscription → Cache → EntitlementSet × Cache
  fetch organization_id now rows cache =
      let value = current organization_id rows in
      (
        value,
        remember organization_id (record { value = value; fresh_until_ms = now + cache_ttl_ms })
            cache,
      )

  abbrev pub get_cached :
      Option CacheEntry → ℕ → ℕ → List Subscription → Cache → EntitlementSet × Cache
  get_cached none organization_id now rows cache = fetch organization_id now rows cache
  get_cached (some entry) organization_id now rows cache =
      if ltb now entry.fresh_until_ms
      then (entry.value, cache)
      else fetch organization_id now rows cache

  -- `getFor`, and what GetEntitlementsUseCase.execute answers.
  unfoldable pub get_for : ℕ → ℕ → List Subscription → Cache → EntitlementSet × Cache
  get_for organization_id now rows cache =
      get_cached (cache_get organization_id cache) organization_id now rows cache

  unfoldable pub has_feature : ℕ → Text → ℕ → List Subscription → Cache → Bool × Cache
  has_feature organization_id feature now rows cache =
      let (set, cached) = get_for organization_id now rows cache in
      (any (λ f. text_eq f feature) set.features, cached)

  abbrev pub limit_in : Text → List (Text × ℕ) → Option ℕ
  limit_in metric [] = none
  limit_in metric ((k, n) ∷ limits) = if text_eq k metric then some n else limit_in metric limits

  unfoldable pub limit_for : ℕ → Text → ℕ → List Subscription → Cache → Option ℕ × Cache
  limit_for organization_id metric now rows cache =
      let (set, cached) = get_for organization_id now rows cache in
      (limit_in metric set.limits, cached)
