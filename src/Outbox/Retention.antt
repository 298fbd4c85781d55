-- ===== src/Outbox/Retention.antt =====
-- The rest of src/platform/messaging/outbox-drain.service.ts: pruning old rows, and the counts.
use nestjs_modular_monolith.Common.{
  ℕ, zero, suc, ◌+◌, ◌*◌, ◌-◌, ◌≡◌, refl, sym, ◌∙◌, ap, inl, inr, Bool, true, false, not, ◌&&◌,
  ◌||◌, Bool-cases, Option, none, some, List, [], ◌∷◌, arith, ltb, ◌==◌, ==_refl, if◌then◌else◌,
  is_null, keep, count, length, length-keep,
}
use nestjs_modular_monolith.Prisma.{PrismaClient}
use nestjs_modular_monolith.Prisma.Rows.{IsUnique}
use nestjs_modular_monolith.Retention.{delete_batch}
use nestjs_modular_monolith.Retention.Batches.{delete_batch-IsBatch}
use nestjs_modular_monolith.Outbox.{OutboxRow, max_passes_per_run, is_unsettled}

abbrev pub prune_batch_size : ℕ
prune_batch_size = 5000

-- `at IS NOT NULL AND at < limit`
abbrev pub is_past : ℕ → Option ℕ → Bool
is_past limit none = false
is_past limit (some at) = ltb at limit

abbrev pub is_prunable : ℕ → OutboxRow → Bool
is_prunable limit r = is_past limit r.drained_at || is_past limit r.dead_lettered_at

abbrev pub same_row : OutboxRow → OutboxRow → Bool
same_row a b = a.event.event_id == b.event.event_id

abbrev pub retention_start : ℕ → ℕ → ℕ
retention_start retention_days now = now - retention_days * 86400000

module _ (prisma : PrismaClient) (retention_days : ℕ) where
  -- The subquery takes any of the rows, up to the limit; `now` is the clock of the database.
  unfoldable pub prune_once : ℕ → List OutboxRow → ℕ × List OutboxRow
  prune_once now =
      delete_batch prisma same_row (λ a b. true) (is_prunable (retention_start retention_days now))
        prune_batch_size

  -- The loop with `passes` left; a pass reads the clock.
  abbrev pub prune_loop : ℕ → (ℕ → ℕ) → ℕ → List OutboxRow → ℕ × List OutboxRow
  prune_loop zero clock deleted rows = (deleted, rows)
  prune_loop (suc passes) clock deleted rows =
      let (removed, left) = prune_once (clock passes) rows in
      let rest = prune_loop passes clock (deleted + removed) left in
      if ltb removed prune_batch_size then (deleted + removed, left) else rest

  unfoldable pub prune_until_idle : (ℕ → ℕ) → List OutboxRow → ℕ × List OutboxRow
  prune_until_idle clock rows = prune_loop max_passes_per_run clock 0 rows

unfoldable pub count_undrained : List OutboxRow → ℕ
count_undrained = count is_unsettled

unfoldable pub count_quarantined : List OutboxRow → ℕ
count_quarantined = count (λ (r : OutboxRow). not (is_null r.dead_lettered_at))

unsettled_stays :
    (limit : ℕ) (a b : Option ℕ)
    → is_null a && is_null b ≡ true
    → is_past limit a || is_past limit b ≡ false
unsettled_stays limit none none h = refl
unsettled_stays limit none (some b) h = cc
unsettled_stays limit (some a) b h = cc

-- A row that waits is not prunable.
keep-keep :
    (limit : ℕ) (rows : List OutboxRow)
    → keep is_unsettled (keep (λ r. not (is_prunable limit r)) rows) ≡ keep is_unsettled rows
keep-keep limit [] = refl
keep-keep limit (r ∷ rows) = elim (Bool-cases (is_unsettled r)) [
  | inl waits ↦
      rw (unsettled_stays limit r.drained_at r.dead_lettered_at waits, waits)
        (ap (λ t. r ∷ t) (keep-keep limit rows))
  | inr settled ↦ elim (Bool-cases (is_prunable limit r)) [
    | inl old ↦ rw (old, settled) (keep-keep limit rows)
    | inr young ↦ rw (young, settled) (keep-keep limit rows)
  ]
]

module _ (prisma : PrismaClient) (retention_days : ℕ) where
  prune_once_keeps :
      (now : ℕ) (rows : List OutboxRow)
      → IsUnique same_row rows
      → (keep is_unsettled (prune_once prisma retention_days now rows).1 ≡ keep is_unsettled rows)
        × IsUnique same_row (prune_once prisma retention_days now rows).1
  unfolding prune_once
  prune_once_keeps now rows u =
      let limit = retention_start retention_days now in
      let (_, _, others, unique) =
        delete_batch-IsBatch same_row (λ a b. ground arith) (λ a b c. ground arith)
          (λ a. ==_refl a.event.event_id) prisma (λ a b. true) (is_prunable limit) prune_batch_size
          rows u in
      (sym (keep-keep limit _) ∙ ap (keep is_unsettled) others ∙ keep-keep limit rows, unique)

  prune_loop_keeps :
      (passes : ℕ) (clock : ℕ → ℕ) (deleted : ℕ) (rows : List OutboxRow)
      → IsUnique same_row rows
      → keep is_unsettled (prune_loop prisma retention_days passes clock deleted rows).1
        ≡ keep is_unsettled rows
  prune_loop_keeps zero clock deleted rows u = refl
  prune_loop_keeps (suc passes) clock deleted rows u =
      let out = prune_once prisma retention_days (clock passes) rows in
      let (kept, unique) = prune_once_keeps (clock passes) rows u in
      let rest = prune_loop_keeps passes clock (deleted + out.0) out.1 unique in
      elim (Bool-cases (ltb out.0 prune_batch_size)) [
        | inl idle ↦ rw idle kept
        | inr full ↦ rw full (rest ∙ kept)
      ]

  -- Pruning loses no event: every row that is neither drained nor dead-lettered outlasts a run, at
  -- whatever times its passes are made, so that the count of undrained rows is as before, in a table
  -- with one row for each event.
  pub prune_until_idle_keeps :
      (clock : ℕ → ℕ) (rows : List OutboxRow)
      → IsUnique same_row rows
      → (keep is_unsettled (prune_until_idle prisma retention_days clock rows).1
          ≡ keep is_unsettled rows)
        × (count_undrained (prune_until_idle prisma retention_days clock rows).1
            ≡ count_undrained rows)
  unfolding prune_until_idle count_undrained
  prune_until_idle_keeps clock rows u =
      let kept = prune_loop_keeps max_passes_per_run clock 0 rows u in
      (
        kept,
        sym (
              length-keep is_unsettled
                (prune_loop prisma retention_days max_passes_per_run clock 0 rows).1)
            ∙ ap length kept
            ∙ length-keep is_unsettled rows,
      )
