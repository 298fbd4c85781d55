-- ===== src/Prisma.antt =====
-- The database client: what the repositories rely on of Prisma and PostgreSQL. A table is a list of
-- its rows; their order stands for nothing, since every read is ordered or looks for one row.
pub mod ListClient
pub mod Rows
pub mod Orders
use mathlib.Core.List.{Permᴰ}
use nestjs_modular_monolith.Common.{
  ℕ, ◌≡◌, ◌⊎◌, Bool, true, false, not, ◌||◌, Option, none, some, List, [], ◌∷◌, ◌++◌, Memᴰ,
  if◌then◌else◌, count, any, keep, patch, All,
}
use nestjs_modular_monolith.Errors.{Result, Thrown, ok, throw, M, plain_error}

-- A transaction keeps its writes if its body returns, and drops them if it throws.
abbrev pub settle : {S A : Type 0} → S → Result A × S → Result A × S
settle s (ok a, s') = (ok a, s')
settle s (throw e, s') = (throw e, s)

-- What becomes of a call of the database: it is answered, or it fails, where the database has carried
-- it out or has not.
pub data Answer : Type 0 where
  answers : Answer
  fails : Thrown → Bool → Answer

abbrev pub is_carried_out : Answer → Bool
is_carried_out answers = true
is_carried_out (fails e carried_out) = carried_out

abbrev pub answered : {S A : Type 0} → Answer → S → Result A × S → Result A × S
answered answers before (r, after) = (r, after)
answered (fails e carried_out) before (r, after) = (throw e, if carried_out then after else before)

-- What a query for one row answers.
abbrev pub Finds : {Row : Type 0} → (Row → Bool) → List Row → Option Row → Type 0
Finds {Row} w t found =
    ((found ≡ none) × All (λ r. w r ≡ false) t)
    ⊎ ((r : Row) × (found ≡ some r) × Memᴰ r t × (w r ≡ true))

-- Each row comes before those that follow it.
abbrev pub IsSorted : {Row : Type 0} → (Row → Row → Bool) → List Row → Type 0
IsSorted le [] = Unit
IsSorted le (r ∷ t) = All (λ s. le r s ≡ true) t × IsSorted le t

pub record PrismaClient : Type 1 where
  -- `findFirst` and `findUnique`.
  pub find_first : {Row : Type 0} → (Row → Bool) → List Row → Option Row
  pub find_first-Finds : {Row : Type 0} (w : Row → Bool) (t : List Row) → Finds w t (find_first w t)
  -- The `orderBy` of `findMany`.
  pub order_by : {Row : Type 0} → (Row → Row → Bool) → List Row → List Row
  pub order_by-perm :
      {Row : Type 0} (le : Row → Row → Bool) (t : List Row) → Permᴰ (order_by le t) t
  pub order_by-IsSorted :
      {Row : Type 0} (le : Row → Row → Bool)
      → ((a b : Row) → le a b || le b a ≡ true)
      → ((a b c : Row) → le a b ≡ true → le b c ≡ true → le a c ≡ true)
      → (t : List Row) → IsSorted le (order_by le t)
  -- `create` and `createMany` with `skipDuplicates`, of one row; the first argument says which rows
  -- collide on a unique index.
  pub create : {Row : Type 0} → (Row → Row → Bool) → Row → M (List Row) (Unit {0})
  pub create-eq :
      {Row : Type 0} (clash : Row → Row → Bool) (r : Row) (t : List Row)
      → create clash r t
        ≡ (if any (clash r) t then (throw plain_error, t) else (ok tt, t ++ r ∷ []))
  pub create_many : {Row : Type 0} → (Row → Row → Bool) → Row → List Row → List Row × ℕ
  pub create_many-eq :
      {Row : Type 0} (clash : Row → Row → Bool) (r : Row) (t : List Row)
      → create_many clash r t ≡ (if any (clash r) t then (t, 0) else (t ++ r ∷ [], 1))
  -- `update` of the row under a unique key throws where there is none.
  pub update : {Row : Type 0} → (Row → Bool) → (Row → Row) → M (List Row) (Unit {0})
  pub update-eq :
      {Row : Type 0} (w : Row → Bool) (f : Row → Row) (t : List Row)
      → update w f t ≡ (if any w t then (ok tt, patch w f t) else (throw plain_error, t))
  -- `upsert`; the second argument says whether the row's foreign key is met.
  pub upsert :
      {Row : Type 0}
      → (Row → Row → Bool)
      → (Row → Bool)
      → (Row → Bool)
      → (Row → Row)
      → Row
      → M (List Row) (Unit {0})
  pub upsert-eq :
      {Row : Type 0} (clash : Row → Row → Bool) (met w : Row → Bool) (f : Row → Row) (r : Row)
      (t : List Row)
      → upsert clash met w f r t ≡ (
          if any w t
          then (ok tt, patch w f t)
          else (if any (clash r) t || not (met r)
              then (throw plain_error, t)
              else (ok tt, t ++ r ∷ [])))
  -- `updateMany` and `deleteMany` return how many rows they met.
  pub update_many : {Row : Type 0} → (Row → Bool) → (Row → Row) → List Row → List Row × ℕ
  pub update_many-eq :
      {Row : Type 0} (w : Row → Bool) (f : Row → Row) (t : List Row)
      → update_many w f t ≡ (patch w f t, count w t)
  pub delete_many : {Row : Type 0} → (Row → Bool) → List Row → List Row × ℕ
  pub delete_many-eq :
      {Row : Type 0} (w : Row → Bool) (t : List Row)
      → delete_many w t ≡ (keep (λ r. not (w r)) t, count w t)
  pub count_rows : {Row : Type 0} → (Row → Bool) → List Row → ℕ
  pub count_rows-eq : {Row : Type 0} (w : Row → Bool) (t : List Row) → count_rows w t ≡ count w t
  pub transaction : {S A : Type 0} → M S A → M S A
  pub transaction-eq : {S A : Type 0} (m : M S A) (s : S) → transaction m s ≡ settle s (m s)
