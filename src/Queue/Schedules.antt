-- ===== src/Queue/Schedules.antt =====
-- That a queue has one scheduler of its own after it was scheduled.
use mathlib.Core.List.{Permᴰ}
use mathlib.Core.List.Permᴰ
use nestjs_modular_monolith.Common.{
  ◌≡◌, refl, sym, subst, ap, ◌∙◌, inl, inr, Bool, true, false, not, ◌&&◌, ◌||◌, Bool-cases, Option,
  none, some, is_null, List, [], ◌∷◌, Memᴰ, arith, ==_refl, keep, any, &&-eq-true, All-map,
  keep-ext, keep_whole, any-mem, keep-keep, keep_nothing, All_every, keep-perm, perm_to,
}
use nestjs_modular_monolith.Errors.{ok}
use nestjs_modular_monolith.Text.{Text, text_eq, text_eq_refl, eq_of_text_eq}
use nestjs_modular_monolith.Prisma.Rows.{All-self}
use nestjs_modular_monolith.Http.{starts_with}
use nestjs_modular_monolith.Queue.Definitions.{QueueDefinition, queue_definitions}
use nestjs_modular_monolith.Queue.{
  Repeat, Scheduler, JobSchedulers, has_key, schedule_prefix, is_stale_key, remove_if_stale,
  remove_each, remove_stale_schedulers, upsert_found, upsert_schedule, find_definition,
}

-- The schedulers whose keys are the queue's.
abbrev own_key : Text → Option Text → Bool
own_key queue none = false
own_key queue (some id) = starts_with (schedule_prefix queue) id

abbrev pub is_own : Text → Scheduler → Bool
is_own queue x = own_key queue x.key

starts_with_refl : (s : Text) → starts_with s s ≡ true
starts_with_refl [] = refl
starts_with_refl (c ∷ s) = rw (==_refl c) (starts_with_refl s)

abbrev is_stale : Text → Text → Scheduler → Bool
is_stale queue kept x = is_stale_key queue kept x.key

abbrev same_key : Option Text → Option Text → Bool
same_key none key = false
same_key (some id) key = has_key id key

-- What the loop over `ys` drops.
abbrev is_hit : Text → Text → List Scheduler → Scheduler → Bool
is_hit queue kept ys x = any (λ (y : Scheduler). is_stale queue kept y && same_key y.key x.key) ys

same_key_eq : (a b : Option Text) → same_key a b ≡ true → a ≡ b
same_key_eq none b h = cc
same_key_eq (some id) none h = cc
same_key_eq (some id) (some key) h = ap some (sym (eq_of_text_eq key id h))

-- A stale key is one, and the same as itself.
stale_same :
    (queue kept : Text) (key : Option Text)
    → is_stale_key queue kept key ≡ true
    → same_key key key ≡ true
stale_same queue kept none h = cc
stale_same queue kept (some id) h = text_eq_refl id

and_refl : {a b : Bool} → a ≡ true → b ≡ true → (a && b) ≡ true
and_refl h k = rw (h, k) refl

-- The loop drops nothing but stale schedulers.
hit_stale :
    (queue kept : Text) (ys : List Scheduler) (x : Scheduler)
    → is_hit queue kept ys x ≡ true
    → is_stale queue kept x ≡ true
hit_stale queue kept [] x h = cc
hit_stale queue kept (y ∷ ys) x h =
    elim (Bool-cases (is_stale queue kept y && same_key y.key x.key)) [
      | inl hit ↦
          let (stale, same) = &&-eq-true (is_stale queue kept y) (same_key y.key x.key) hit in
          subst (λ key. is_stale_key queue kept key ≡ true) (same_key_eq y.key x.key same) stale
      | inr miss ↦ hit_stale queue kept ys x (ground (arith, h, miss))
    ]

-- The loop over all schedulers drops each that is stale.
hit-mem :
    (queue kept : Text) (ys : List Scheduler) (x : Scheduler)
    → Memᴰ x ys
    → not (is_hit queue kept ys x) ≡ not (is_stale queue kept x)
hit-mem queue kept ys x m = elim (Bool-cases (is_stale queue kept x)) [
  | inl stale ↦ ap not (
      any-mem (λ (y : Scheduler). is_stale queue kept y && same_key y.key x.key) ys m
        (and_refl stale (stale_same queue kept x.key stale))
      ∙ sym stale)
  | inr fresh ↦ elim (Bool-cases (is_hit queue kept ys x)) [
    | inl hit ↦ ap not (hit ∙ sym (hit_stale queue kept ys x hit))
    | inr kept_here ↦ ap not (kept_here ∙ sym fresh)
  ]
]

not_or : (a b : Bool) → (not a && not b) ≡ not (a || b)
not_or true b = refl
not_or false b = refl

module _ (schedulers : JobSchedulers) (queue kept : Text) where
  open schedulers use {State, get_job_schedulers, remove_job_scheduler, get-remove, get-upsert}

  -- A selection of what is there that drops nothing.
  unchanged : (s : State) → Permᴰ (get_job_schedulers s) (keep (λ x. true) (get_job_schedulers s))
  unchanged s =
      perm_to (Permᴰ.refl _)
        (sym (keep_whole (λ x. true) _ (All_every _ (λ x. refl) (get_job_schedulers s))))

  remove_if_stale-perm :
      (key : Option Text) (s : State)
      → Permᴰ (get_job_schedulers (remove_if_stale schedulers queue kept key s)) (
          keep
            (λ (x : Scheduler). not (is_stale_key queue kept key && same_key key x.key))
            (get_job_schedulers s))
  remove_if_stale-perm none s = unchanged s
  remove_if_stale-perm (some id) s = elim (Bool-cases (is_stale_key queue kept (some id))) [
    | inl stale ↦ rw stale (get-remove id s)
    | inr fresh ↦ rw fresh (unchanged s)
  ]

  remove_each-perm :
      (ys : List Scheduler) (s : State)
      → Permᴰ
          (get_job_schedulers (remove_each schedulers queue kept ys s))
          (keep (λ x. not (is_hit queue kept ys x)) (get_job_schedulers s))
  remove_each-perm [] s = unchanged s
  remove_each-perm (y ∷ ys) s =
      Permᴰ.trans (remove_each-perm ys (remove_if_stale schedulers queue kept y.key s)) (
        perm_to (keep-perm (λ x. not (is_hit queue kept ys x)) (remove_if_stale-perm y.key s)) (
          keep-keep (λ x. not (is_hit queue kept ys x)) _ (get_job_schedulers s)
          ∙ keep-ext _ _ _
              (All_every _ (λ x. not_or _ (is_hit queue kept ys x)) (get_job_schedulers s))))

  -- What is left after the stale schedulers are removed.
  remove_stale_schedulers-perm :
      (s : State)
      → Permᴰ
          (get_job_schedulers (remove_stale_schedulers schedulers queue kept s))
          (keep (λ x. not (is_stale queue kept x)) (get_job_schedulers s))
  unfolding remove_stale_schedulers
  remove_stale_schedulers-perm s = perm_to (remove_each-perm (get_job_schedulers s) s) (
      keep-ext _ _ (get_job_schedulers s) (
        All-map (λ x m. hit-mem queue kept (get_job_schedulers s) x m) _
          (All-self (get_job_schedulers s))))

-- The scheduler of a queue's own key.
abbrev pub own_scheduler : Text → Repeat → Scheduler
own_scheduler queue repeat = record { key = some (schedule_prefix queue); repeat = repeat }

abbrev is_replaced : Text → Option Text → Bool
is_replaced queue key = has_key (schedule_prefix queue) key

-- Of the queue's own keys, all but the one that is kept are stale.
own_gone :
    (queue : Text) (key : Option Text)
    → (not (is_stale_key queue (schedule_prefix queue) key)
        && (not (is_replaced queue key) && own_key queue key))
      ≡ false
own_gone queue none = refl
own_gone queue (some id) =
    go (text_eq id (schedule_prefix queue)) (starts_with (schedule_prefix queue) id)
  where
    go : (a b : Bool) → (not (not a && b) && (not a && b)) ≡ false
    go true b = refl
    go false true = refl
    go false false = refl

own_prefix :
    (queue id : Text)
    → text_eq id (schedule_prefix queue) ≡ true
    → starts_with (schedule_prefix queue) id ≡ true
own_prefix queue id e =
    subst (λ t. starts_with (schedule_prefix queue) t ≡ true)
      (sym (eq_of_text_eq id (schedule_prefix queue) e)) (starts_with_refl (schedule_prefix queue))

-- A key of another kind is neither stale nor replaced.
other_stays :
    (queue : Text) (key : Option Text)
    → (not (is_stale_key queue (schedule_prefix queue) key)
        && (not (is_replaced queue key) && not (own_key queue key)))
      ≡ not (own_key queue key)
other_stays queue none = refl
other_stays queue (some id) =
    go (text_eq id (schedule_prefix queue)) (starts_with (schedule_prefix queue) id)
      (own_prefix queue id)
  where
    go : (a b : Bool) → (a ≡ true → b ≡ true) → (not (not a && b) && (not a && not b)) ≡ not b
    go true true h = refl
    go true false h = ap not (sym (h refl))
    go false true h = refl
    go false false h = refl

module _ (schedulers : JobSchedulers) where
  open schedulers use {State, get_job_schedulers, upsert_job_scheduler, get-upsert}

  -- What a queue's schedule leaves in Redis.
  abbrev rescheduled : Text → Repeat → State → State
  rescheduled queue repeat s =
      upsert_job_scheduler (schedule_prefix queue) repeat
        (remove_stale_schedulers schedulers queue (schedule_prefix queue) s)

  upsert_found_eq :
      (queue : Text) (repeat : Repeat) (s : State) (found : Option QueueDefinition)
      → is_null found ≡ false
      → upsert_found schedulers found queue repeat none s ≡ (ok tt, rescheduled queue repeat s)
  upsert_found_eq queue repeat s none h = cc
  upsert_found_eq queue repeat s (some d) h = refl

  upsert_schedule_eq :
      (queue : Text) (repeat : Repeat) (s : State)
      → is_null (find_definition queue queue_definitions) ≡ false
      → upsert_schedule schedulers queue repeat none s ≡ (ok tt, rescheduled queue repeat s)
  unfolding upsert_schedule
  upsert_schedule_eq queue repeat s = upsert_found_eq queue repeat s _

  abbrev is_other : Text → Scheduler → Bool
  is_other queue x = not (is_own queue x)

  abbrev stays : Text → Scheduler → Bool
  stays queue x = not (is_replaced queue x.key)

  -- A selection of what is there afterwards, less the new scheduler.
  selected :
      (p : Scheduler → Bool) (queue : Text) (s : State)
      → Permᴰ
          (keep p (
            keep (stays queue) (
              get_job_schedulers
                (remove_stale_schedulers schedulers queue (schedule_prefix queue) s))))
          (keep
            (λ x. not (is_stale queue (schedule_prefix queue) x) && (stays queue x && p x))
            (get_job_schedulers s))
  selected p queue s =
      perm_to
        (keep-perm p (
          keep-perm (stays queue)
            (remove_stale_schedulers-perm schedulers queue (schedule_prefix queue) s)))
        (keep-keep p (stays queue)
            (keep (λ x. not (is_stale queue (schedule_prefix queue) x)) (get_job_schedulers s))
          ∙ keep-keep (λ x. stays queue x && p x)
              (λ x. not (is_stale queue (schedule_prefix queue) x)) (get_job_schedulers s))

  own_left :
      (queue : Text) (repeat : Repeat) (s : State)
      → Permᴰ
          (keep (is_own queue) (get_job_schedulers (rescheduled queue repeat s)))
          (own_scheduler queue repeat ∷ [])
  own_left queue repeat s =
      Permᴰ.trans (keep-perm (is_own queue) (get-upsert (schedule_prefix queue) repeat _)) (
        rw (starts_with_refl (schedule_prefix queue)) (
          Permᴰ.cons refl (
            perm_to (selected (is_own queue) queue s) (
              keep_nothing _ (get_job_schedulers s)
                (All_every _ (λ (x : Scheduler). own_gone queue x.key) (get_job_schedulers s))))))

  others_left :
      (queue : Text) (repeat : Repeat) (s : State)
      → Permᴰ
          (keep (is_other queue) (get_job_schedulers (rescheduled queue repeat s)))
          (keep (is_other queue) (get_job_schedulers s))
  others_left queue repeat s =
      Permᴰ.trans (keep-perm (is_other queue) (get-upsert (schedule_prefix queue) repeat _)) (
        rw (starts_with_refl (schedule_prefix queue)) (
          perm_to (selected (is_other queue) queue s) (
            keep-ext _ _ (get_job_schedulers s)
              (All_every _ (λ (x : Scheduler). other_stays queue x.key) (get_job_schedulers s)))))

  -- Once a queue of the application was scheduled under its own key, whatever was there before, it has
  -- one scheduler of its own, which is the new one, and the schedulers with other keys as before.
  pub upsert_schedule-perm :
      (queue : Text) (repeat : Repeat) (s : State)
      → is_null (find_definition queue queue_definitions) ≡ false
      → let (answer, s') = upsert_schedule schedulers queue repeat none s in
        (answer ≡ ok tt)
        × Permᴰ (keep (is_own queue) (get_job_schedulers s')) (own_scheduler queue repeat ∷ [])
        × Permᴰ
            (keep (λ x. not (is_own queue x)) (get_job_schedulers s'))
            (keep (λ x. not (is_own queue x)) (get_job_schedulers s))
  upsert_schedule-perm queue repeat s registered =
      rw (upsert_schedule_eq queue repeat s registered)
        (refl, own_left queue repeat s, others_left queue repeat s)
