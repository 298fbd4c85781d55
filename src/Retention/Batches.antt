-- ===== src/Retention/Batches.antt =====
-- What one batch deletes.
use nestjs_modular_monolith.Common.{
  ℕ, ◌+◌, ◌≡◌, refl, sym, ◌∙◌, ap, subst, inl, inr, Bool, true, false, not, ◌&&◌, ◌||◌, Bool-cases,
  List, [], ◌∷◌, Memᴰ, arith, ◌==◌, keep, take, any, count, length, min, length-keep, length-take,
  All, All-map,
}
use nestjs_modular_monolith.Prisma.{PrismaClient}
use nestjs_modular_monolith.Prisma.Rows.{
  IsUnique, unique_apart, count_one, any_of_All, All-perm, All-take, All-keep, All-self,
  IsUnique-keep, IsUnique-take, IsUnique-perm, length-perm,
}
use nestjs_modular_monolith.Retention.{delete_found, delete_batch}

module _ {Row : Type 0} where
  count_nothing : (t : List Row) → count (λ (r : Row). false) t ≡ 0
  count_nothing [] = refl
  count_nothing (r ∷ t) = count_nothing t

  keep_everything : (t : List Row) → keep (λ (r : Row). true) t ≡ t
  keep_everything [] = refl
  keep_everything (r ∷ t) = ap (λ u. r ∷ u) (keep_everything t)

  -- What a batch came to: it deleted as many old rows as the limit lets it, and no other row.
  abbrev pub IsBatch : (Row → Row → Bool) → (Row → Bool) → ℕ → List Row → ℕ × List Row → Type 0
  IsBatch same old limit t (deleted, left) =
      (deleted ≡ min limit (count old t))
      × (count old left + deleted ≡ count old t)
      × (keep (λ r. not (old r)) left ≡ keep (λ r. not (old r)) t)
      × IsUnique same left

  count-or :
      (w v : Row → Bool) (t : List Row)
      → All (λ r. w r && v r ≡ false) t
      → count (λ r. w r || v r) t ≡ count w t + count v t
  count-or w v [] h = refl
  count-or w v (r ∷ t) h = ground (arith, h.0, count-or w v t h.1)

  count-gone :
      (old gone : Row → Bool) (t : List Row)
      → All (λ r. gone r ≡ true → old r ≡ true) t
      → count old (keep (λ r. not (gone r)) t) + count gone t ≡ count old t
  count-gone old gone [] h = refl
  count-gone old gone (r ∷ t) h = ground (arith, h.0, count-gone old gone t h.1)

  keep-gone :
      (old gone : Row → Bool) (t : List Row)
      → All (λ r. gone r ≡ true → old r ≡ true) t
      → keep (λ r. not (old r)) (keep (λ r. not (gone r)) t) ≡ keep (λ r. not (old r)) t
  keep-gone old gone [] h = refl
  keep-gone old gone (r ∷ t) h = elim (Bool-cases (gone r)) [
    | inl lost ↦ rw (lost, h.0 lost) (keep-gone old gone t h.1)
    | inr kept ↦ elim (Bool-cases (old r)) [
      | inl aged ↦ rw (kept, aged) (keep-gone old gone t h.1)
      | inr young ↦ rw (kept, young) (ap (λ u. r ∷ u) (keep-gone old gone t h.1))
    ]
  ]

  module _ (same : Row → Row → Bool) (swap : (a b : Row) → same a b ≡ same b a)
      (joins : (a b c : Row) → same a c ≡ true → same b c ≡ true → same a b ≡ true)
      (itself : (a : Row) → same a a ≡ true) where
    -- The rows of a table under the keys of some of its rows.
    count_found :
        (c t : List Row)
        → IsUnique same t
        → IsUnique same c
        → All (λ r. Memᴰ r t) c
        → count (λ r. any (same r) c) t ≡ length c
    count_found [] t u v h = count_nothing t
    count_found (x ∷ c) t u v h =
        let one = count_one same (λ r. same r x) (λ a b. joins a b x) t u h.0 (itself x) in
        let rest = count_found c t u v.1 h.1 in
        let apart : All (λ r. same r x && any (same r) c ≡ false) t =
          All-map
            (λ r m. elim (unique_apart same swap t u m h.0) [
              | inl e ↦
                  let gone = subst (λ y. any (same y) c ≡ false) (sym e) v.0 in ground (arith, gone)
              | inr far ↦ rw far refl
            ])
            t (All-self t) in
        rw (count-or (λ r. same r x) (λ r. any (same r) c) t apart, one, rest) (omega arith)

    module _ (prisma : PrismaClient) (le : Row → Row → Bool) (old : Row → Bool) (limit : ℕ)
        (t : List Row) (u : IsUnique same t) where
      open prisma use {order_by, order_by-perm, delete_many-eq}

      abbrev found : List Row
      found = take limit (order_by le (keep old t))

      found-old : All (λ r. Memᴰ r t × (old r ≡ true)) found
      found-old =
          All-take _ limit (order_by le (keep old t)) (
            All-perm _ (order_by-perm le (keep old t))
              (All-keep (λ r. Memᴰ r t) old t (All-self t)))

      found-IsUnique : IsUnique same found
      found-IsUnique =
          IsUnique-take same limit (order_by le (keep old t))
            (IsUnique-perm same swap (order_by-perm le (keep old t)) (IsUnique-keep same old t u))

      length-found : length found ≡ min limit (count old t)
      length-found =
          length-take limit (order_by le (keep old t))
          ∙ ap (min limit) (length-perm (order_by-perm le (keep old t)) ∙ length-keep old t)

      -- A row whose key was found is old.
      gone_old : All (λ r. any (same r) found ≡ true → old r ≡ true) t
      gone_old =
          All-map
            (λ r m hit. elim (Bool-cases (old r)) [
              | inl aged ↦ aged
              | inr young ↦ absurd (
                  clash (
                    sym (any_of_All (same r) found (All-map (other r m young) found found-old))
                    ∙ hit))
            ])
            t (All-self t)
        where
          clash : false ≡ true → ⊥
          clash h = cc

          other :
              (r : Row) (m : Memᴰ r t)
              → old r ≡ false
              → (s : Row) → Memᴰ s t × (old s ≡ true)
              → same r s ≡ false
          other r m young s (n, aged) = elim (unique_apart same swap t u m n) [
            | inl e ↦ absurd (clash (sym young ∙ subst (λ y. old y ≡ true) (sym e) aged))
            | inr far ↦ far
          ]

      delete_found-eq :
          (c : List Row)
          → delete_found prisma same c t
            ≡ (count (λ r. any (same r) c) t, keep (λ r. not (any (same r) c)) t)
      delete_found-eq [] = rw (count_nothing t, keep_everything t) refl
      delete_found-eq (x ∷ c) = rw (delete_many-eq (λ r. any (same r) (x ∷ c)) t) refl

      pub delete_batch-IsBatch : IsBatch same old limit t (delete_batch prisma same le old limit t)
      delete_batch-IsBatch = elim (Bool-cases (limit == 0)) [
        | inl zero_limit ↦ rw zero_limit (ground arith, omega arith, refl, u)
        | inr positive ↦
            let deleted : count (λ r. any (same r) found) t ≡ min limit (count old t) =
              count_found found t u found-IsUnique (All-map (λ r x. x.0) found found-old)
              ∙ length-found in
            rw (positive, delete_found-eq found)
              (
                deleted,
                count-gone old (λ r. any (same r) found) t gone_old,
                keep-gone old (λ r. any (same r) found) t gone_old,
                IsUnique-keep same (λ r. not (any (same r) found)) t u,
              )
      ]
