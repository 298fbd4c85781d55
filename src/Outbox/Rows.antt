-- ===== src/Outbox/Rows.antt =====
-- A property of single rows that each statement keeps outlasts a whole run of the drain.
use nestjs_modular_monolith.Common.{
  ℕ, zero, suc, ◌+◌, ◌≡◌, Bool, true, ◌&&◌, Bool-cases, inl, inr, List, [], ◌∷◌, arith, ltb, ◌==◌,
  keep, patch, map, All, All-map,
}
use nestjs_modular_monolith.Errors.{Result-cases, ok}
use nestjs_modular_monolith.Prisma.{PrismaClient}
use nestjs_modular_monolith.Contracts.Events.{IntegrationEvent}
use nestjs_modular_monolith.Outbox.{
  max_passes_per_run, OutboxRow, JobQueue, World, is_claimable, is_exhausted, set_claim,
  clear_claim, set_drained, set_dead, quarantine_exhausted_rows, mark_drained, release_claim,
  quarantine_rows, claim_batch, dispatch, relay, after_dispatch, quarantine_some, drain_once,
  drain_passes, drain_until_idle,
}

patch-All :
    (P : OutboxRow → Type 0) (w : OutboxRow → Bool) (f : OutboxRow → OutboxRow)
    (rows : List OutboxRow)
    → ((r : OutboxRow) → w r ≡ true → P r → P (f r))
    → All P rows
    → All P (patch w f rows)
patch-All P w f [] keeps h = tt
patch-All P w f (r ∷ rows) keeps h = elim (Bool-cases (w r)) [
  | inl hit ↦ rw hit (keeps r hit h.0, patch-All P w f rows keeps h.1)
  | inr miss ↦ rw miss (h.0, patch-All P w f rows keeps h.1)
]

module _ (parses : IntegrationEvent → Bool) (queue : JobQueue) where
  -- A property of the world that every relayed row keeps.
  relay-keeps :
      (Q : World queue.Jobs → Type 0) (R : OutboxRow → Type 0) (token now : ℕ)
      → ((row : OutboxRow) (w : World queue.Jobs)
          → R row
          → Q w
          → Q
              (after_dispatch parses queue row.event.event_id token now w.rows
                (dispatch parses queue row.event w.jobs)).1)
      → (publishable : List OutboxRow) (dispatched : ℕ) (w : World queue.Jobs) → All R publishable
      → Q w
      → Q (relay parses queue publishable token now dispatched w).1
  unfolding relay
  relay-keeps Q R token now keeps [] dispatched w h q = q
  relay-keeps Q R token now keeps (row ∷ publishable) dispatched w h q =
      relay-keeps Q R token now keeps publishable _ _ h.1 (keeps row w h.0 q)

  module _ (prisma : PrismaClient) (batch_size : ℕ) where
    drain_passes-keeps :
        (Q : World queue.Jobs → Type 0)
        → ((token now : ℕ) (w : World queue.Jobs)
            → Q w
            → Q (drain_once parses queue prisma batch_size token now w).1)
        → (passes : ℕ) (tokens clock : ℕ → ℕ) (settled : ℕ) (w : World queue.Jobs) → Q w
        → Q (drain_passes parses queue prisma batch_size passes tokens clock settled w).1
    unfolding drain_passes
    drain_passes-keeps Q keeps zero tokens clock settled w q = q
    drain_passes-keeps Q keeps (suc passes) tokens clock settled w q =
        let out = drain_once parses queue prisma batch_size (tokens passes) (clock passes) w in
        let again =
          drain_passes-keeps Q keeps passes tokens clock (settled + out.0) out.1
            (keeps (tokens passes) (clock passes) w q) in
        elim (Bool-cases (ltb out.0 batch_size)) [
          | inl idle ↦ rw idle (keeps (tokens passes) (clock passes) w q)
          | inr busy ↦ rw busy again
        ]

-- A property of rows that each statement, and each dispatch, keeps.
module _ (parses : IntegrationEvent → Bool) (queue : JobQueue) (P : queue.Jobs → OutboxRow → Type 0)
    (R : OutboxRow → Type 0)
    (dies : (j : queue.Jobs) (r : OutboxRow) (now : ℕ) → P j r → P j (set_dead now r))
    (clears : (j : queue.Jobs) (r : OutboxRow) → P j r → P j (clear_claim r))
    (claims : (j : queue.Jobs) (r : OutboxRow) (token now : ℕ)
      → is_claimable now r ≡ true
      → P j r
      → P j (set_claim token now r) × R (set_claim token now r))
    (sends : (e : IntegrationEvent) (j : queue.Jobs) (r : OutboxRow)
      → P j r
      → P (dispatch parses queue e j).1 r)
    (drains : (row r : OutboxRow) (j : queue.Jobs) (now : ℕ)
      → R row
      → (dispatch parses queue row.event j).0 ≡ ok tt
      → r.event.event_id ≡ row.event.event_id
      → P (dispatch parses queue row.event j).1 r
      → P (dispatch parses queue row.event j).1 (set_drained now r)) where
  unfoldable pub AllRows : World queue.Jobs → Type 0
  AllRows w = All (P w.jobs) w.rows

  relay_row-AllRows :
      (token now : ℕ) (row : OutboxRow) (w : World queue.Jobs)
      → R row
      → AllRows w
      → AllRows
          (after_dispatch parses queue row.event.event_id token now w.rows
            (dispatch parses queue row.event w.jobs)).1
  unfolding AllRows mark_drained release_claim
  relay_row-AllRows token now row w known h =
      let later = All-map (λ r. sends row.event w.jobs r) w.rows h in
      elim (Result-cases (dispatch parses queue row.event w.jobs).0) [
        | inl sent ↦ rw sent (
            patch-All (P (dispatch parses queue row.event w.jobs).1) _ (set_drained now) w.rows
              (λ r hit. drains row r w.jobs now known sent (same_id r row _ _ hit)) later)
        | inr (e, failed) ↦ rw failed (
            patch-All (P (dispatch parses queue row.event w.jobs).1) _ clear_claim w.rows
              (λ r hit. clears (dispatch parses queue row.event w.jobs).1 r) later)
      ]
    where
      same_id :
          (r s : OutboxRow) (b c : Bool)
          → r.event.event_id == s.event.event_id && b && c ≡ true
          → r.event.event_id ≡ s.event.event_id
      same_id r s b c hit = ground arith

  quarantined :
      (invalid : List OutboxRow) (token now : ℕ) (j : queue.Jobs) (rows : List OutboxRow)
      → All (P j) rows
      → All (P j) (quarantine_some parses queue invalid token now rows)
  unfolding quarantine_rows
  quarantined [] token now j rows h = h
  quarantined (r ∷ invalid) token now j rows h =
      patch-All (P j) _ (set_dead now) rows (λ r hit. dies j r now) h

  claimed-All :
      (met : OutboxRow → Bool) (token now : ℕ) (j : queue.Jobs) (rows : List OutboxRow)
      → ((r : OutboxRow) → met r ≡ true → is_claimable now r ≡ true)
      → All (P j) rows
      → All R (map (set_claim token now) (keep met rows))
  claimed-All met token now j [] only h = tt
  claimed-All met token now j (r ∷ rows) only h = elim (Bool-cases (met r)) [
    | inl hit ↦
        rw hit
          ((claims j r token now (only r hit) h.0).1, claimed-All met token now j rows only h.1)
    | inr miss ↦ rw miss (claimed-All met token now j rows only h.1)
  ]

  keep-All : (v : OutboxRow → Bool) (rows : List OutboxRow) → All R rows → All R (keep v rows)
  keep-All v [] h = tt
  keep-All v (r ∷ rows) h = elim (Bool-cases (v r)) [
    | inl hit ↦ rw hit (h.0, keep-All v rows h.1)
    | inr miss ↦ rw miss (keep-All v rows h.1)
  ]

  first : (b c : Bool) → b && c ≡ true → b ≡ true
  first b c h = ground arith

  drain_once-AllRows :
      (prisma : PrismaClient) (batch_size token now : ℕ) (w : World queue.Jobs)
      → AllRows w
      → AllRows (drain_once parses queue prisma batch_size token now w).1
  unfolding drain_once claim_batch quarantine_exhausted_rows AllRows
  drain_once-AllRows prisma batch_size token now w h =
      let alive =
        patch-All (P w.jobs) (is_exhausted now) (set_dead now) w.rows (λ r hit. dies w.jobs r now)
          h in
      relay-keeps parses queue AllRows R token now (relay_row-AllRows token now) _ 0 _
        (keep-All _ _ (claimed-All _ token now w.jobs _ (λ r. first _ _) alive))
        (quarantined _ token now w.jobs _ (
          patch-All (P w.jobs) _ (set_claim token now) _
            (λ r hit b. (claims w.jobs r token now (first _ _ hit) b).0) alive))

  pub drain_until_idle-AllRows :
      (prisma : PrismaClient) (batch_size : ℕ) (tokens clock : ℕ → ℕ) (w : World queue.Jobs)
      → AllRows w
      → AllRows (drain_until_idle parses queue prisma batch_size tokens clock w).1
  unfolding drain_until_idle
  drain_until_idle-AllRows prisma batch_size tokens clock w =
      drain_passes-keeps parses queue prisma batch_size AllRows
        (drain_once-AllRows prisma batch_size) max_passes_per_run tokens clock 0 w
