-- ===== src/Queue/Examples.antt =====
-- The theorems on queues at concrete schedulers.
use mathlib.Core.List.{Permᴰ}
use mathlib.Core.List.Permᴰ
use nestjs_modular_monolith.Common.{
  ◌≡◌, ◌↔◌, refl, All, not, none, some, List, [], ◌∷◌, keep, true, false,
}
use nestjs_modular_monolith.Errors.{ok}
use nestjs_modular_monolith.Text.{literal}
use nestjs_modular_monolith.Queue.{Repeat, Scheduler, JobSchedulers, has_key, upsert_schedule}
use nestjs_modular_monolith.Queue.Schedules.{is_own, own_scheduler, upsert_schedule-perm}
use nestjs_modular_monolith.Billing.Json.{Value}
use nestjs_modular_monolith.Prisma.Rows.{IsUnique}
use nestjs_modular_monolith.Queue.Handlers.{
  Provider, DiscoveredHandler, discover_handlers, same_queue, is_usable, handlers_of,
  discover_handlers-ok_iff,
}

-- The schedulers of a queue as a list.
abbrev listed : JobSchedulers
listed = record {
  State = List Scheduler;
  get_job_schedulers = λ s. s;
  remove_job_scheduler = λ id s. keep (λ (x : Scheduler). not (has_key id x.key)) s;
  upsert_job_scheduler = λ key repeat s.
      (record { key = some key; repeat = repeat })
      ∷ keep (λ (x : Scheduler). not (has_key key x.key)) s;
  get-remove = λ id s. Permᴰ.refl _;
  get-upsert = λ key repeat s. Permᴰ.refl _;
}

-- The audit log's pruning, as an earlier version scheduled it, and a job of someone else.
abbrev before : List Scheduler
before =
    (record {
      key = some (literal "schedule:audit-log.prune:0 3 * * *");
      repeat = Repeat.pattern (literal "0 3 * * *");
    })
    ∷ (record { key = some (literal "report"); repeat = Repeat.every 1000 })
    ∷ []

upsert_schedule-perm_example :
    let (answer, after) =
      upsert_schedule listed
        (literal "audit-log.prune")
        (Repeat.pattern (literal "41 3 * * *"))
        none
        before in
    (answer ≡ ok tt)
    × Permᴰ
        (keep (is_own (literal "audit-log.prune")) after)
        (own_scheduler (literal "audit-log.prune") (Repeat.pattern (literal "41 3 * * *")) ∷ [])
    × Permᴰ
        (keep (λ x. not (is_own (literal "audit-log.prune") x)) after)
        (keep (λ x. not (is_own (literal "audit-log.prune") x)) before)
upsert_schedule-perm_example =
    upsert_schedule-perm listed (literal "audit-log.prune") (Repeat.pattern (literal "41 3 * * *"))
      before refl

abbrev providers : List Provider
providers =
    (record {
      metadata = some (Value.string (literal "audit-log.prune"));
      has_handle = true;
      instance = 1;
    })
    ∷ (record { metadata = none; has_handle = false; instance = 2 })
    ∷ (record {
      metadata = some (Value.string (literal "mailer.send-welcome"));
      has_handle = true;
      instance = 3;
    })
    ∷ []

abbrev handlers : List DiscoveredHandler
handlers =
    (record { queue = literal "audit-log.prune"; consumer = 1 })
    ∷ (record { queue = literal "mailer.send-welcome"; consumer = 3 })
    ∷ []

discovers : discover_handlers providers ≡ ok handlers
unfolding discover_handlers
discovers = refl

discover_handlers-ok_iff_example : (discover_handlers providers ≡ ok handlers) ↔ (
    (handlers ≡ handlers_of providers)
    × All (λ p. is_usable p ≡ true) providers
    × IsUnique same_queue handlers)
discover_handlers-ok_iff_example = discover_handlers-ok_iff providers handlers
