-- ===== src/Queue/Backoff.antt =====
-- How long a job waits before it is tried again.
use native.Mathlib.Nat.{one-le-pow, le-mul_of_pos_right, mul-le-mul_left, pow-le-pow_right}
use nestjs_modular_monolith.Common.{ℕ, ◌+◌, ◌-◌, ◌*◌, ◌≤◌, Memᴰ, arith, All, All-mem}
use nestjs_modular_monolith.Queue.Definitions.{QueueDefinition, queue_definitions}
use nestjs_modular_monolith.Queue.{backoff_strategy, bounded_exponential}

-- Waits that grow from one attempt to the next.
abbrev waits : QueueDefinition → ℕ → ℕ
waits d n = backoff_strategy d n bounded_exponential

abbrev IsOrdered : QueueDefinition → Type 0
IsOrdered d = d.retry_delay_seconds ≤ d.retry_delay_max_seconds

queue_definitions-IsOrdered : All IsOrdered queue_definitions
queue_definitions-IsOrdered = ground arith

-- For every queue of the application, the wait before a retry lies between the delay and the longest
-- delay of the queue, and is never shorter than the wait before the retry that came before it.
pub backoff_strategy-bounds :
    (d : QueueDefinition) (attempts_made : ℕ)
    → Memᴰ d queue_definitions
    → (d.retry_delay_seconds * 1000 ≤ backoff_strategy d attempts_made bounded_exponential)
      × (backoff_strategy d attempts_made bounded_exponential ≤ d.retry_delay_max_seconds * 1000)
      × (backoff_strategy d attempts_made bounded_exponential
          ≤ backoff_strategy d (attempts_made + 1) bounded_exponential)
unfolding backoff_strategy
backoff_strategy-bounds d n m =
    let delay = d.retry_delay_seconds * 1000 in
    let ordered = All-mem IsOrdered queue_definitions queue_definitions-IsOrdered m in
    let grows = le-mul_of_pos_right delay (one-le-pow (n - 1) 2 (omega arith)) in
    let doubles =
      mul-le-mul_left delay
        (pow-le-pow_right {n = 2} (omega arith) {i = n - 1} {j = n + 1 - 1} (omega arith)) in
    (omega (arith, grows, ordered), omega arith, omega (arith, doubles))
