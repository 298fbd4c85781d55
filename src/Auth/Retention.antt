-- ===== src/Auth/Retention.antt =====
-- src/platform/auth/auth-retention.service.ts: expired sessions and verifications are deleted together.
use nestjs_modular_monolith.Common.{
  ℕ, zero, suc, ◌+◌, ◌-◌, ◌*◌, ◌<◌, refl, ◌∙◌, inl, inr, Bool, ◌&&◌, &&-eq-true, Bool-cases, List,
  arith, ltb, leb, ◌==◌, ==_refl, if◌then◌else◌,
}
use nestjs_modular_monolith.Prisma.{PrismaClient}
use nestjs_modular_monolith.Prisma.Rows.{IsUnique}
use nestjs_modular_monolith.Retention.{delete_batch}
use nestjs_modular_monolith.Retention.Batches.{IsBatch, delete_batch-IsBatch}
use nestjs_modular_monolith.Retention.Loops.{IsPruned}

-- Of a row of `auth.session` or `auth.verification`, what the statements read.
pub record ExpiringRow : Type 0 where
  pub id : ℕ
  pub expires_at : ℕ

abbrev pub same_id : ExpiringRow → ExpiringRow → Bool
same_id a b = a.id == b.id

abbrev pub expires_before : ℕ → ExpiringRow → Bool
expires_before cutoff r = ltb r.expires_at cutoff

abbrev pub expires_first : ExpiringRow → ExpiringRow → Bool
expires_first a b = leb a.expires_at b.expires_at

pub record AuthRetentionOptions : Type 0 where
  pub expired_session_grace_hours : ℕ
  pub batch_size : ℕ

-- The two tables, and how many rows of each are gone.
pub record AuthTables : Type 0 where
  pub sessions : List ExpiringRow
  pub verifications : List ExpiringRow

pub record AuthPruneResult : Type 0 where
  pub sessions : ℕ
  pub verifications : ℕ

abbrev pub max_prune_passes : ℕ
max_prune_passes = 20

abbrev pub hour_ms : ℕ
hour_ms = 3600000

module _ (prisma : PrismaClient) (options : AuthRetentionOptions) where
  abbrev pub session_cutoff : ℕ → ℕ
  session_cutoff now = now - options.expired_session_grace_hours * hour_ms

  -- A statement's subquery takes the rows that expired first, up to the limit.
  abbrev pub delete_expired : ℕ → List ExpiringRow → ℕ × List ExpiringRow
  delete_expired cutoff =
      delete_batch prisma same_id expires_first (expires_before cutoff) options.batch_size

  unfoldable pub prune_expired : ℕ → AuthTables → AuthPruneResult × AuthTables
  prune_expired now tables =
      let (sessions, left) = delete_expired (session_cutoff now) tables.sessions in
      let (verifications, others) = delete_expired now tables.verifications in
      (
        record { sessions = sessions; verifications = verifications },
        record { sessions = left; verifications = others },
      )

  abbrev pub both_drained : AuthPruneResult → Bool
  both_drained removed =
      ltb removed.sessions options.batch_size && ltb removed.verifications options.batch_size

  abbrev pub plus : AuthPruneResult → AuthPruneResult → AuthPruneResult
  plus a b = record {
    sessions = a.sessions + b.sessions;
    verifications = a.verifications + b.verifications;
  }

  -- The loop with `passes` left.
  abbrev pub prune_rounds : ℕ → ℕ → AuthPruneResult → AuthTables → AuthPruneResult × AuthTables
  prune_rounds zero now total tables = (total, tables)
  prune_rounds (suc passes) now total tables =
      let (removed, left) = prune_expired now tables in
      let rest = prune_rounds passes now (plus total removed) left in
      if both_drained removed then (plus total removed, left) else rest

  unfoldable pub prune_until_idle : ℕ → AuthTables → AuthPruneResult × AuthTables
  prune_until_idle now =
      prune_rounds max_prune_passes now (record { sessions = 0; verifications = 0 })

  delete_expired-IsBatch :
      (cutoff : ℕ) (rows : List ExpiringRow)
      → IsUnique same_id rows
      → IsBatch same_id (expires_before cutoff) options.batch_size rows (delete_expired cutoff rows)
  delete_expired-IsBatch cutoff rows u =
      delete_batch-IsBatch same_id (λ a b. ground arith) (λ a b c. ground arith) (λ a. ==_refl a.id)
        prisma expires_first (expires_before cutoff) options.batch_size rows u

  abbrev BothPruned : ℕ → ℕ → AuthPruneResult → AuthTables → AuthPruneResult × AuthTables → Type 0
  BothPruned now capacity total tables (result, left) =
      IsPruned (expires_before (session_cutoff now)) capacity total.sessions tables.sessions
        (result.sessions, left.sessions)
      × IsPruned (expires_before now) capacity total.verifications tables.verifications
          (result.verifications, left.verifications)

  prune_rounds-BothPruned :
      (passes now : ℕ) (total : AuthPruneResult) (tables : AuthTables)
      → 0 < options.batch_size
      → IsUnique same_id tables.sessions
      → IsUnique same_id tables.verifications
      → BothPruned now
          (passes * options.batch_size)
          total
          tables
          (prune_rounds passes now total tables)
  unfolding prune_expired
  prune_rounds-BothPruned zero now total tables positive u v =
      ((omega arith, omega arith, refl), (omega arith, omega arith, refl))
  prune_rounds-BothPruned (suc passes) now total tables positive u v =
      let (removed, gone, kept, u') =
        delete_expired-IsBatch (session_cutoff now) tables.sessions u in
      let (removed', gone', kept', v') = delete_expired-IsBatch now tables.verifications v in
      let out = prune_expired now tables in
      let ((all, rest, others), (all', rest', others')) =
        prune_rounds-BothPruned passes now (plus total out.0) out.1 positive u' v' in
      elim (Bool-cases (both_drained out.0)) [
        | inl idle ↦
            let (few, few') =
              &&-eq-true (ltb out.0.sessions options.batch_size)
                (ltb out.0.verifications options.batch_size) idle in
            rw idle (
              (ground (arith, removed, gone, few), omega (arith, gone), kept),
              (ground (arith, removed', gone', few'), omega (arith, gone'), kept'),
            )
        | inr full ↦ rw full (
          (ground (arith, removed, gone, all), omega (arith, gone, rest), others ∙ kept),
          (ground (arith, removed', gone', all'), omega (arith, gone', rest'), others' ∙ kept'),
        )
      ]

  -- A run deletes as many expired sessions and verifications as twenty batches of each hold, reports
  -- their numbers, and keeps every other row, for batches that are not empty and tables with one row
  -- for each identifier.
  pub prune_until_idle_lem :
      (now : ℕ) (tables : AuthTables)
      → 0 < options.batch_size
      → IsUnique same_id tables.sessions
      → IsUnique same_id tables.verifications
      → let (result, left) = prune_until_idle now tables in
        IsPruned
          (expires_before (session_cutoff now))
          (20 * options.batch_size)
          0
          tables.sessions
          (result.sessions, left.sessions)
        × IsPruned
            (expires_before now)
            (20 * options.batch_size)
            0
            tables.verifications
            (result.verifications, left.verifications)
  unfolding prune_until_idle
  prune_until_idle_lem now tables positive u v =
      prune_rounds-BothPruned max_prune_passes now (record { sessions = 0; verifications = 0 })
        tables positive u v
