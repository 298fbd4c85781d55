-- ===== src/Retention/Loops.antt =====
-- What the loop of batches deletes.
use nestjs_modular_monolith.Common.{
  ℕ, zero, suc, ◌+◌, ◌*◌, ◌<◌, ◌≡◌, refl, ◌∙◌, inl, inr, Bool, not, Bool-cases, List, arith, ltb,
  keep, count, min,
}
use nestjs_modular_monolith.Prisma.Rows.{IsUnique}
use nestjs_modular_monolith.Retention.{prune_passes}
use nestjs_modular_monolith.Retention.Batches.{IsBatch}

-- What a run came to, after some were deleted already: as many old rows are gone as its batches hold,
-- and every other row is there, in its order.
abbrev pub IsPruned : {Row : Type 0} → (Row → Bool) → ℕ → ℕ → List Row → ℕ × List Row → Type 0
IsPruned old capacity deleted t (total, left) =
    (total ≡ deleted + min capacity (count old t))
    × (count old left + total ≡ deleted + count old t)
    × (keep (λ r. not (old r)) left ≡ keep (λ r. not (old r)) t)

module _ {Row : Type 0} (same : Row → Row → Bool) (old : Row → Bool)
    (batch : List Row → ℕ × List Row) (limit : ℕ)
    (deletes : (t : List Row) → IsUnique same t → IsBatch same old limit t (batch t)) where
  pub prune_passes-IsPruned :
      (passes deleted : ℕ) (t : List Row)
      → 0 < limit
      → IsUnique same t
      → IsPruned old (passes * limit) deleted t (prune_passes batch limit passes deleted t)
  prune_passes-IsPruned zero deleted t positive u = (omega arith, omega arith, refl)
  prune_passes-IsPruned (suc passes) deleted t positive u =
      let (removed, gone, kept, unique) = deletes t u in
      let (total, rest, others) =
        prune_passes-IsPruned passes (deleted + (batch t).0) (batch t).1 positive unique in
      elim (Bool-cases (ltb (batch t).0 limit)) [
        | inl idle ↦ rw idle (ground (arith, removed, gone), omega (arith, gone), kept)
        | inr full ↦
            rw full (ground (arith, removed, gone, total), omega (arith, gone, rest), others ∙ kept)
      ]
