-- ===== src/Outbox/Delivery.antt =====
-- That the events of drained rows have reached their queues.
use nestjs_modular_monolith.Common.{
  ℕ, ◌≡◌, refl, sym, subst, Bool, true, ◌&&◌, ◌||◌, Bool-cases, inl, inr, List, [], ◌∷◌, Memᴰ,
  arith, is_null, map, All, All-both, All-map,
}
use nestjs_modular_monolith.Errors.{Thrown, Result, Result-cases, ok, throw}
use nestjs_modular_monolith.Prisma.{PrismaClient}
use nestjs_modular_monolith.Prisma.Rows.{IsUnique, unique_apart}
use nestjs_modular_monolith.Contracts.Publisher.{same_event}
use nestjs_modular_monolith.Contracts.Events.{IntegrationEvent}
use nestjs_modular_monolith.Outbox.{
  OutboxRow, JobQueue, World, set_drained, send_all, dispatch, drain_until_idle, event_subscribers,
  QueueName,
}
use nestjs_modular_monolith.Outbox.Rows.{AllRows, drain_until_idle-AllRows}

-- All of the queues have accepted the event.
abbrev pub all_accepted : (queue : JobQueue) → List QueueName → ℕ → queue.Jobs → Bool
all_accepted queue [] id jobs = true
all_accepted queue (q ∷ qs) id jobs = queue.accepted q id jobs && all_accepted queue qs id jobs

and_true : {a b : Bool} → a ≡ true → b ≡ true → a && b ≡ true
and_true p q = ground arith

not_refused : {x : Thrown} → Path (Result (Unit {0})) (throw x) (ok tt) → ⊥
not_refused e = cc

module _ (queue : JobQueue) where
  send_all-keeps :
      (parses : IntegrationEvent → Bool) (q : QueueName) (id : ℕ) (targets : List QueueName)
      (e : IntegrationEvent) (j : queue.Jobs)
      → queue.accepted q id j ≡ true
      → queue.accepted q id (send_all parses queue targets e j).1 ≡ true
  unfolding send_all
  send_all-keeps parses q id [] e j h = h
  send_all-keeps parses q id (target ∷ targets) e j h =
      let kept = queue.send_keeps q target id e j h in
      elim (Result-cases (queue.send target e j).0) [
        | inl sent ↦ rw sent (send_all-keeps parses q id targets e (queue.send target e j).1 kept)
        | inr (x, failed) ↦ rw failed kept
      ]

  send_all-accepted :
      (parses : IntegrationEvent → Bool) (targets : List QueueName) (e : IntegrationEvent)
      (j : queue.Jobs)
      → (send_all parses queue targets e j).0 ≡ ok tt
      → all_accepted queue targets e.event_id (send_all parses queue targets e j).1 ≡ true
  unfolding send_all
  send_all-accepted parses [] e j h = refl
  send_all-accepted parses (target ∷ targets) e j h =
      elim (Result-cases (queue.send target e j).0) [
        | inl sent ↦
            let rest =
              send_all-accepted parses targets e (queue.send target e j).1 (rw sent at h) in
            let mine =
              send_all-keeps parses target e.event_id targets e (queue.send target e j).1
                (queue.send_accepted target e j sent) in
            rw sent (and_true mine rest)
        | inr (x, failed) ↦ absurd (not_refused (rw failed at h))
      ]

  all-keeps :
      (parses : IntegrationEvent → Bool) (qs : List QueueName) (id : ℕ) (e : IntegrationEvent)
      (j : queue.Jobs)
      → all_accepted queue qs id j ≡ true
      → all_accepted queue qs id (dispatch parses queue e j).1 ≡ true
  unfolding dispatch
  all-keeps parses [] id e j h = refl
  all-keeps parses (q ∷ qs) id e j h = elim (Bool-cases (parses e)) [
    | inl good ↦ ground (
      arith,
      good,
      send_all-keeps parses q id (event_subscribers e.name) e j,
      all-keeps parses qs id e j,
    )
    | inr bad ↦ rw bad h
  ]

  dispatch-accepted :
      (parses : IntegrationEvent → Bool) (e : IntegrationEvent) (j : queue.Jobs)
      → (dispatch parses queue e j).0 ≡ ok tt
      → all_accepted queue (event_subscribers e.name) e.event_id (dispatch parses queue e j).1
        ≡ true
  unfolding dispatch
  dispatch-accepted parses e j h = elim (Bool-cases (parses e)) [
    | inl good ↦ rw good (send_all-accepted parses (event_subscribers e.name) e j (rw good at h))
    | inr bad ↦ absurd (not_refused (rw bad at h))
  ]

-- The identifiers of the events are apart, as the primary key demands.
abbrev pub events : List OutboxRow → List IntegrationEvent
events = map (λ (r : OutboxRow). r.event)

-- Every queue that subscribes to the event of a drained row has accepted it.
abbrev pub IsDelivered : (queue : JobQueue) → World queue.Jobs → Type 0
IsDelivered queue w =
    All
      (λ r.
        is_null r.drained_at
          || all_accepted queue (event_subscribers r.event.name) r.event.event_id w.jobs
        ≡ true)
      w.rows

mem-events : (rows : List OutboxRow) → All (λ r. Memᴰ r.event (events rows)) rows
mem-events [] = tt
mem-events (r ∷ rows) = (Memᴰ.head refl, All-map (λ s m. Memᴰ.tail m) rows (mem-events rows))

-- Nothing is lost on the way from the outbox to the queues: after any run, whatever failed, every
-- queue that subscribes to the event of a drained row has accepted it, if that was so before, in a
-- table with one row for each event.
pub drain_until_idle-IsDelivered :
    (parses : IntegrationEvent → Bool) (queue : JobQueue) (prisma : PrismaClient) (batch_size : ℕ)
    (tokens clock : ℕ → ℕ) (w : World queue.Jobs)
    → IsUnique same_event (events w.rows)
    → IsDelivered queue w
    → IsDelivered queue (drain_until_idle parses queue prisma batch_size tokens clock w).1
unfolding AllRows
drain_until_idle-IsDelivered parses queue prisma batch_size tokens clock w unique h =
    All-map (λ r p. p.0) _
      (drain_until_idle-AllRows parses queue P R (λ j r now p. p) (λ j r p. p)
        (λ j r token now hit p. (p, p.1)) sends drains prisma batch_size tokens clock w
        (All-both
          (λ r.
            is_null r.drained_at
              || all_accepted queue (event_subscribers r.event.name) r.event.event_id w.jobs
            ≡ true)
          R w.rows h (mem-events w.rows)))
  where
    R : OutboxRow → Type 0
    R r = Memᴰ r.event (events w.rows)

    P : queue.Jobs → OutboxRow → Type 0
    P j r =
        (is_null r.drained_at
            || all_accepted queue (event_subscribers r.event.name) r.event.event_id j
          ≡ true)
        × R r

    sends :
        (e : IntegrationEvent) (j : queue.Jobs) (r : OutboxRow)
        → P j r
        → P (dispatch parses queue e j).1 r
    sends e j r (p, m) = (
      ground
          (arith, p, all-keeps queue parses (event_subscribers r.event.name) r.event.event_id e j),
      m,
    )

    drains :
        (row r : OutboxRow) (j : queue.Jobs) (now : ℕ)
        → R row
        → (dispatch parses queue row.event j).0 ≡ ok tt
        → r.event.event_id ≡ row.event.event_id
        → P (dispatch parses queue row.event j).1 r
        → P (dispatch parses queue row.event j).1 (set_drained now r)
    drains row r j now known sent same (p, m) =
        elim (unique_apart same_event (λ a b. ground arith) (events w.rows) unique m known) [
          | inl e ↦ (
            subst
                (λ (x : IntegrationEvent).
                  all_accepted queue (event_subscribers x.name) x.event_id
                    (dispatch parses queue row.event j).1
                  ≡ true)
                (sym e) (dispatch-accepted queue parses row.event j sent),
            m,
          )
          | inr apart ↦ absurd (ground arith)
        ]
