-- ===== src/Retention.antt =====
-- The batches in which old rows are deleted, and the loop of the jobs that prune: the same in
-- src/modules/billing, src/modules/notifications and src/modules/audit-log.
pub mod Batches
pub mod Loops
use nestjs_modular_monolith.Common.{
  ℕ, zero, suc, ◌+◌, Bool, not, List, [], ◌∷◌, ltb, ◌==◌, if◌then◌else◌, keep, take, any,
}
use nestjs_modular_monolith.Prisma.{PrismaClient}

module _ {Row : Type 0} (prisma : PrismaClient) where
  open prisma use {order_by, delete_many}

  -- `deleteMany` of the candidates' keys; `same` compares the keys of two rows.
  abbrev pub delete_found : (Row → Row → Bool) → List Row → List Row → ℕ × List Row
  delete_found same [] rows = (0, rows)
  delete_found same (c ∷ cs) rows =
      let (left, n) = delete_many (λ r. any (same r) (c ∷ cs)) rows in (n, left)

  -- The oldest of the rows that are old, up to the limit.
  abbrev pub delete_batch :
      (Row → Row → Bool) → (Row → Row → Bool) → (Row → Bool) → ℕ → List Row → ℕ × List Row
  delete_batch same le is_old limit rows =
      if limit == 0
      then (0, rows)
      else delete_found same (take limit (order_by le (keep is_old rows))) rows

-- At most so many passes of a batch, until one is not full.
abbrev pub prune_passes :
    {Row : Type 0} → (List Row → ℕ × List Row) → ℕ → ℕ → ℕ → List Row → ℕ × List Row
prune_passes batch limit zero deleted rows = (deleted, rows)
prune_passes batch limit (suc passes) deleted rows =
    let (removed, left) = batch rows in
    let rest = prune_passes batch limit passes (deleted + removed) left in
    if ltb removed limit then (deleted + removed, left) else rest
