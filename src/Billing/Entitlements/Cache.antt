-- ===== src/Billing/Entitlements/Cache.antt =====
-- The cache of entitlements: how large it gets, and how old what it answers may be.
use mathlib.Core.Option.{some-injective}
use nestjs_modular_monolith.Common.{
  ℕ, suc, ◌+◌, ◌≤◌, ◌<◌, ◌≡◌, refl, sym, subst, inl, inr, Bool, Bool-cases, Option-cases, some,
  List, [], ◌∷◌, arith, ltb, leb, ◌==◌, ==_iff, length, All, All-map,
}
use nestjs_modular_monolith.Prisma.{PrismaClient}
use nestjs_modular_monolith.Billing.Entitlements.{
  EntitlementSet, Subscription, CacheEntry, Cache, cache_get, cache_set, cache_delete,
  delete_oldest, remember, current, get_for, cache_ttl_ms, max_cached_tenants,
}

length-cache_set :
    (k : ℕ) (entry : CacheEntry) (c : Cache) → length (cache_set k entry c) ≤ suc (length c)
length-cache_set k entry [] = omega arith
length-cache_set k entry ((j, old) ∷ c) = ground (arith, length-cache_set k entry c)

length-delete_oldest : (c : Cache) → 1 ≤ length c → suc (length (delete_oldest c)) ≡ length c
length-delete_oldest [] h = elim h [ ]
length-delete_oldest ((j, old) ∷ c) h = ground arith

length-remember :
    (k : ℕ) (entry : CacheEntry) (c : Cache)
    → length c ≤ max_cached_tenants
    → length (remember k entry c) ≤ max_cached_tenants
unfolding remember
length-remember k entry c h = elim (Bool-cases (leb max_cached_tenants (length c))) [
  | inl full ↦
      rw full (ground (arith, length-cache_set k entry (delete_oldest c), length-delete_oldest c))
  | inr free ↦ rw free (ground (arith, length-cache_set k entry c))
]

module _ (P : ℕ × CacheEntry → Type 0) where
  All-cache_set :
      (k : ℕ) (entry : CacheEntry) (c : Cache)
      → P (k, entry)
      → All P c
      → All P (cache_set k entry c)
  All-cache_set k entry [] new h = (new, tt)
  All-cache_set k entry ((j, old) ∷ c) new h = elim (Bool-cases (j == k)) [
    | inl same ↦ rw same (subst (λ i. P (i, entry)) (sym ((==_iff j k).0 same)) new, h.1)
    | inr other ↦ rw other (h.0, All-cache_set k entry c new h.1)
  ]

  All-cache_delete : (k : ℕ) (c : Cache) → All P c → All P (cache_delete k c)
  All-cache_delete k [] h = tt
  All-cache_delete k ((j, old) ∷ c) h = elim (Bool-cases (j == k)) [
    | inl same ↦ rw same h.1
    | inr other ↦ rw other (h.0, All-cache_delete k c h.1)
  ]

  All-remember :
      (k : ℕ) (entry : CacheEntry) (c : Cache) → P (k, entry) → All P c → All P (remember k entry c)
  unfolding remember
  All-remember k entry [] new h = All-cache_set k entry [] new h
  All-remember k entry ((j, old) ∷ c) new h =
      elim (Bool-cases (leb max_cached_tenants (length ((j, old) ∷ c)))) [
        | inl full ↦ rw full (All-cache_set k entry _ new (All-cache_delete j ((j, old) ∷ c) h))
        | inr free ↦ rw free (All-cache_set k entry ((j, old) ∷ c) new h)
      ]

  All-cache_get :
      (k : ℕ) (c : Cache) {entry : CacheEntry} → All P c → cache_get k c ≡ some entry → P (k, entry)
  All-cache_get k [] h e = cc
  All-cache_get k ((j, old) ∷ c) {entry} h e = elim (Bool-cases (j == k)) [
    | inl same ↦
        subst (λ i. P (i, entry)) ((==_iff j k).0 same)
          (subst (λ x. P (j, x)) (some-injective old entry (rw same at e)) h.0)
    | inr other ↦ All-cache_get k c h.1 (rw other at e)
  ]

module _ (is_finite_nonnegative : ℕ → Bool) (prisma : PrismaClient)
    (subscriptions : ℕ → List Subscription) where
  -- What the database said at a time not after `now`, and less than the window before it.
  abbrev pub IsRecent : ℕ → ℕ → EntitlementSet → Type 0
  IsRecent organization_id now value =
      (t : ℕ) × (t ≤ now)
      × (now < t + cache_ttl_ms)
      × (value ≡ current is_finite_nonnegative prisma organization_id (subscriptions t))

  -- Every entry says what the database said when its window began.
  abbrev pub IsFaithful : ℕ → Cache → Type 0
  IsFaithful now = All (λ ((k, entry) : ℕ × CacheEntry).
      (t : ℕ) × (t ≤ now)
      × (entry.fresh_until_ms ≡ t + cache_ttl_ms)
      × (entry.value ≡ current is_finite_nonnegative prisma k (subscriptions t)))

  get_for-IsRecent :
      (organization_id before now : ℕ) (c : Cache)
      → before ≤ now
      → length c ≤ max_cached_tenants
      → IsFaithful before c
      → IsRecent organization_id now
          (get_for is_finite_nonnegative prisma organization_id now (subscriptions now) c).0
        × IsFaithful now
            (get_for is_finite_nonnegative prisma organization_id now (subscriptions now) c).1
        × (length (get_for is_finite_nonnegative prisma organization_id now (subscriptions now) c).1
            ≤ max_cached_tenants)
  unfolding get_for
  get_for-IsRecent k before now c later small h =
      let value = current is_finite_nonnegative prisma k (subscriptions now) in
      let entry : CacheEntry = record { value = value; fresh_until_ms = now + cache_ttl_ms } in
      let older : IsFaithful now c = All-map (λ x (t, le, f, v). (t, omega arith, f, v)) c h in
      let fetched : IsRecent k now value
          × IsFaithful now (remember k entry c)
          × (length (remember k entry c) ≤ max_cached_tenants) =
        (
          (now, omega arith, omega arith, refl),
          All-remember _ k entry c (now, omega arith, refl, refl) older,
          length-remember k entry c small,
        ) in
      elim (Option-cases (cache_get k c)) [
        | inl missing ↦ rw missing fetched
        | inr (found, held) ↦ elim (Bool-cases (ltb now found.fresh_until_ms)) [
          | inr over ↦ rw (held, over) fetched
          | inl fresh ↦
              let (t, le, until, said) = All-cache_get _ k c older held in
              rw (held, fresh) ((t, le, ground arith, said), older, small)
        ]
      ]

  -- Calls in the order of their times, each with the tenant that it asks for.
  abbrev pub IsOrdered : ℕ → List (ℕ × ℕ) → Type 0
  IsOrdered before [] = Unit
  IsOrdered before ((organization_id, now) ∷ calls) = (before ≤ now) × IsOrdered now calls

  abbrev pub ask : ℕ × ℕ → Cache → EntitlementSet × Cache
  ask (organization_id, now) =
      get_for is_finite_nonnegative prisma organization_id now (subscriptions now)

  -- What the calls answer, and that each of the answers is recent.
  abbrev pub AllRecent : List (ℕ × ℕ) → Cache → Type 0
  AllRecent [] c = Unit
  AllRecent ((organization_id, now) ∷ calls) c =
      IsRecent organization_id now (ask (organization_id, now) c).0
      × AllRecent calls (ask (organization_id, now) c).1

  abbrev pub ask_all : List (ℕ × ℕ) → Cache → Cache
  ask_all [] c = c
  ask_all (call ∷ calls) c = ask_all calls (ask call c).1

  served :
      (calls : List (ℕ × ℕ)) (before : ℕ) (c : Cache)
      → IsOrdered before calls
      → length c ≤ max_cached_tenants
      → IsFaithful before c
      → AllRecent calls c × (length (ask_all calls c) ≤ max_cached_tenants)
  served [] before c ordered small h = (tt, small)
  served ((k, now) ∷ calls) before c ordered small h =
      let (recent, kept, bounded) = get_for-IsRecent k before now c ordered.0 small h in
      let (rest, at_last) = served calls now _ ordered.1 bounded kept in ((recent, rest), at_last)

  -- From the empty cache on, whatever is asked at whatever times in their order, and however the
  -- subscriptions change meanwhile: every answer is what the database said of the tenant at some time
  -- of the last thirty seconds, and the cache never holds more than ten thousand tenants.
  pub get_for_served :
      (calls : List (ℕ × ℕ))
      → IsOrdered 0 calls
      → AllRecent calls [] × (length (ask_all calls []) ≤ max_cached_tenants)
  get_for_served calls ordered = served calls 0 [] ordered (omega arith) tt
