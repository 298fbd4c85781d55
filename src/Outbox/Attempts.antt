-- ===== src/Outbox/Attempts.antt =====
-- How often a row is claimed for the relay.
use nestjs_modular_monolith.Common.{ℕ, ◌≤◌, ◌≡◌, Bool, true, List, arith, All}
use nestjs_modular_monolith.Prisma.{PrismaClient}
use nestjs_modular_monolith.Contracts.Events.{IntegrationEvent}
use nestjs_modular_monolith.Outbox.{
  max_relay_attempts, OutboxRow, JobQueue, World, is_claimable, set_claim, drain_until_idle,
}
use nestjs_modular_monolith.Outbox.Rows.{AllRows, drain_until_idle-AllRows}

-- No row has been claimed more often than the relay may try.
abbrev pub IsBounded : List OutboxRow → Type 0
IsBounded rows = All (λ r. r.attempt_count ≤ max_relay_attempts) rows

-- Whatever fails, and however many passes a run makes, no row is claimed for the relay more than ten
-- times, if none was before.
pub drain_until_idle-IsBounded :
    (parses : IntegrationEvent → Bool) (queue : JobQueue) (prisma : PrismaClient) (batch_size : ℕ)
    (tokens clock : ℕ → ℕ) (w : World queue.Jobs)
    → IsBounded w.rows
    → IsBounded (drain_until_idle parses queue prisma batch_size tokens clock w).1.rows
unfolding AllRows
drain_until_idle-IsBounded parses queue =
    drain_until_idle-AllRows parses queue (λ j r. r.attempt_count ≤ max_relay_attempts) (λ r. Unit)
      (λ j r now b. b) (λ j r b. b) claims (λ e j r b. b) (λ row r j now k sent same b. b)
  where
    claims :
        (j : queue.Jobs) (r : OutboxRow) (token now : ℕ)
        → is_claimable now r ≡ true
        → r.attempt_count ≤ max_relay_attempts
        → ((set_claim token now r).attempt_count ≤ max_relay_attempts) × Unit {0}
    claims j r token now hit b = (ground arith, tt)
