-- ===== src/Billing/Webhooks/Applications.antt =====
-- How often a claimed webhook is applied.
use nestjs_modular_monolith.Common.{
  ℕ, ◌≡◌, refl, ◌∙◌, inl, inr, Bool, true, false, ◌&&◌, Bool-cases, Option-cases, Option, none,
  some, List, arith, is_null, not, ==_refl,
}
use nestjs_modular_monolith.Errors.{Result, Thrown, ok, throw, M, continue}
use nestjs_modular_monolith.Prisma.{PrismaClient, Answer, answers, is_carried_out}
use nestjs_modular_monolith.Text.{Text, text_eq, text_eq_refl}
use nestjs_modular_monolith.Billing.Json.{Value, Fields, is_json_object}
use nestjs_modular_monolith.Billing.Inbox.{
  InboxEvent, ClaimInput, ClaimMoment, claim, find_claimed, mark_processed, mark_failed,
}
use nestjs_modular_monolith.Billing.Inbox.Views.{
  InboxState, failed, processed, claimed, state_of, IsConsistent,
}
use nestjs_modular_monolith.Billing.Inbox.Machine.{
  claims, processes, fails, can_claim, IsFresh, run, is_held, leave,
}
use nestjs_modular_monolith.Billing.Inbox.Refinement.{claim_own, run-step}
use nestjs_modular_monolith.Billing.Inbox.Traces.{
  mark_processed-IsConsistent, mark_failed-IsConsistent, claim-IsConsistent,
}
use nestjs_modular_monolith.Billing.Inbox.Holders.{find_claimed-is_held}
use nestjs_modular_monolith.Billing.Events.{Formats, ClaimedWebhook, parse_job}
use nestjs_modular_monolith.Billing.Webhooks.{
  World, Marks, Applier, Outcome, settle_application, catch_application, claim_lost,
  processed as applied, apply_claimed, execute, handle,
}

leave_unheld :
    (token : ℕ) (target s : InboxState)
    → is_held token target ≡ false
    → is_held token (leave token target s) ≡ false
leave_unheld token target s h = elim (Bool-cases (is_held token s)) [
  | inl held ↦ rw held h
  | inr free ↦ rw free free
]

abbrev pub job_of : ClaimInput → ℕ → ClaimedWebhook
job_of input token = record {
  provider = input.provider;
  provider_event_id = input.provider_event_id;
  claim_token = token;
}

unheld : (b : Bool) → true ≡ not b → b ≡ false
unheld b h = ground arith

module _ (prisma : PrismaClient) where
  -- The state of the event of a job after a statement on it.
  settled_state :
      (p e : Text) (rows : List InboxEvent) (token now : ℕ)
      → IsConsistent rows
      → (is_held token (state_of p e (mark_processed prisma p e token now rows)) ≡ false)
        × (is_held token (state_of p e (mark_failed prisma p e token now rows)) ≡ false)
  settled_state p e rows token now h =
      let same : text_eq p p && text_eq e e ≡ true = rw (text_eq_refl p, text_eq_refl e) refl in
      (
        rw ((run-step prisma (processes p e token now) rows p e h tt).0, same)
            (leave_unheld token processed (state_of p e rows) refl),
        rw ((run-step prisma (fails p e token now) rows p e h tt).0, same)
            (leave_unheld token failed (state_of p e rows) refl),
      )

  lost : (o : Option Fields) → is_null o ≡ true → o ≡ none
  lost none h = refl
  lost (some a) h = cc

  -- What a token that holds nothing applies.
  apply_unheld :
      {Effects : Type 0} (job : ClaimedWebhook) (run : Fields → M Effects (Unit {0})) (now : ℕ)
      (marks : Marks) (w : World Effects)
      → IsConsistent w.rows
      → is_held job.claim_token (state_of job.provider job.provider_event_id w.rows) ≡ false
      → apply_claimed prisma job run now marks w ≡ (ok claim_lost, w)
  unfolding apply_claimed
  apply_unheld job run now marks w h free =
      let found =
        find_claimed-is_held job.provider job.provider_event_id prisma job.claim_token w.rows h in
      rw
        (lost (find_claimed prisma job.provider job.provider_event_id job.claim_token w.rows)
          (found ∙ rw free refl))
        refl

  -- A world whose inbox is consistent, and in which the token of the job holds nothing.
  abbrev IsReleased : {Effects : Type 0} → ClaimedWebhook → World Effects → Type 0
  IsReleased job w =
      IsConsistent w.rows
      × (is_held job.claim_token (state_of job.provider job.provider_event_id w.rows) ≡ false)

  catch-IsReleased :
      {Effects : Type 0} (job : ClaimedWebhook) (now : ℕ) (processing failing : Answer)
      (rows : List InboxEvent) (e : Thrown) (effects : Effects)
      → is_carried_out failing ≡ true
      → IsConsistent rows
      → IsReleased job
          (catch_application prisma job now
            (record { processing = processing; failing = failing })
            rows
            e
            effects).1
  catch-IsReleased job now processing failing rows e effects done h =
      by_answer failing done
        (mark_failed-IsConsistent prisma job.provider job.provider_event_id job.claim_token now rows
          h)
        (settled_state job.provider job.provider_event_id rows job.claim_token now h).1
    where
      by_answer :
          (a : Answer)
          → is_carried_out a ≡ true
          → IsConsistent
              (mark_failed prisma job.provider job.provider_event_id job.claim_token now rows)
          → is_held job.claim_token (
              state_of job.provider job.provider_event_id
                (mark_failed prisma job.provider job.provider_event_id job.claim_token now rows))
            ≡ false
          → IsReleased job
              (catch_application prisma job now
                (record { processing = processing; failing = a })
                rows
                e
                effects).1
      by_answer answers c k free = (k, free)
      by_answer (Answer.fails x true) c k free = (k, free)
      by_answer (Answer.fails x false) c k free = cc

  settle-IsReleased :
      {Effects : Type 0} (job : ClaimedWebhook) (now : ℕ) (processing failing : Answer)
      (rows : List InboxEvent) (r : Result (Unit {0}) × Effects)
      → is_carried_out failing ≡ true
      → IsConsistent rows
      → IsReleased job
          (settle_application prisma job now
            (record { processing = processing; failing = failing })
            rows
            r).1
  settle-IsReleased job now processing failing rows (throw e, effects) done h =
      catch-IsReleased job now processing failing rows e effects done h
  settle-IsReleased job now answers failing rows (ok tt, effects) done h = (
    mark_processed-IsConsistent prisma job.provider job.provider_event_id job.claim_token now rows
        h,
    (settled_state job.provider job.provider_event_id rows job.claim_token now h).0,
  )
  settle-IsReleased job now (Answer.fails x true) failing rows (ok tt, effects) done h =
      catch-IsReleased job now (Answer.fails x true) failing _ x effects done (
        mark_processed-IsConsistent prisma job.provider job.provider_event_id job.claim_token now
          rows h)
  settle-IsReleased job now (Answer.fails x false) failing rows (ok tt, effects) done h =
      catch-IsReleased job now (Answer.fails x false) failing rows x effects done h

  -- However an application ends whose `markFailed` would be carried out, it leaves a consistent inbox
  -- in which the token holds nothing.
  apply_claimed-IsReleased :
      {Effects : Type 0} (job : ClaimedWebhook) (run : Fields → M Effects (Unit {0})) (now : ℕ)
      (marks : Marks) (w : World Effects)
      → is_carried_out marks.failing ≡ true
      → IsConsistent w.rows
      → IsReleased job (apply_claimed prisma job run now marks w).1
  unfolding apply_claimed
  apply_claimed-IsReleased job run now marks w done h =
      let p = job.provider in
      let e = job.provider_event_id in
      let token = job.claim_token in
      let found = find_claimed-is_held p e prisma token w.rows h in
      elim (Option-cases (find_claimed prisma p e token w.rows)) [
        | inl gone ↦ rw gone (h, unheld (is_held token (state_of p e w.rows)) (rw gone at found))
        | inr (payload, held) ↦ rw held (
            settle-IsReleased job now marks.processing marks.failing w.rows (run payload w.rest)
              done h)
      ]

  after :
      {Effects : Type 0} (x : Result Outcome × World Effects)
      → Path
          (World Effects)
          (continue {A = Outcome} {B = Unit {0}} x (λ outcome w. (ok tt, w))).1
          x.1
  after (ok o, w) = refl
  after (throw e, w) = refl

  -- A claim is applied at most once: a job that fits its schema and runs again, whatever the first run
  -- came to, also where it threw or could not mark the event as processed, and whatever applier is
  -- configured then, answers without an error and changes nothing, in a consistent inbox, where
  -- marking the event as failed is carried out if the first run comes to it.
  pub handle-handle :
      {Effects : Type 0} (formats : Formats) (first second : Option (Applier Effects))
      (job_data : Value) (job : ClaimedWebhook) (now later : ℕ) (marks again : Marks)
      (w : World Effects)
      → parse_job formats job_data ≡ some job
      → is_carried_out marks.failing ≡ true
      → IsConsistent w.rows
      → handle prisma formats second job_data later again
          (handle prisma formats first job_data now marks w).1
        ≡ (ok tt, (handle prisma formats first job_data now marks w).1)
  unfolding handle
  handle-handle formats first second job_data job now later marks again w parsed done h =
      let run = execute prisma formats first job.provider in
      let rerun = execute prisma formats second job.provider in
      let (kept, free) = apply_claimed-IsReleased job run now marks w done h in
      let out = apply_claimed prisma job run now marks w in
      rw (parsed, after out, apply_unheld job rerun later again out.1 kept free) refl

  found_some : (o : Option Fields) → is_null o ≡ false → (fs : Fields) × (o ≡ some fs)
  found_some none h = cc
  found_some (some fs) h = (fs, refl)

  -- Delivery after delivery, an event gets processed: one that is new, that failed, or whose lease is
  -- over is claimed by the next delivery, if its payload is JSON, and where applying succeeds whatever
  -- the payload and marking is answered, the job of that claim leaves it processed, in a consistent inbox where the identifier
  -- of a new row is new.
  pub apply_claimed-claim :
      {Effects : Type 0} (input : ClaimInput) (m : ClaimMoment)
      (run : Fields → M Effects (Unit {0})) (now : ℕ) (failing : Answer) (rows : List InboxEvent)
      (effects : Effects)
      → IsConsistent rows
      → IsFresh (claims input m) rows
      → is_json_object input.payload ≡ true
      → can_claim m.now (state_of input.provider input.provider_event_id rows) ≡ true
      → ((fs : Fields) → (run fs effects).0 ≡ ok tt)
      → ((claim prisma input m rows).0 ≡ ok (some m.token))
        × ((apply_claimed prisma
              (job_of input m.token)
              run
              now
              (record { processing = answers; failing = failing })
              (record { rows = (claim prisma input m rows).1; rest = effects })).0
            ≡ ok applied)
        × (state_of input.provider input.provider_event_id
              (apply_claimed prisma
                (job_of input m.token)
                run
                now
                (record { processing = answers; failing = failing })
                (record { rows = (claim prisma input m rows).1; rest = effects })).1.rows
            ≡ processed)
  unfolding apply_claimed
  apply_claimed-claim input m run now failing rows effects h fresh good due succeeds =
      let p = input.provider in
      let e = input.provider_event_id in
      let next = (claim prisma input m rows).1 in
      let kept = claim-IsConsistent prisma input m rows h fresh in
      let own = claim_own prisma input m rows h fresh in
      let held : state_of p e next ≡ claimed (some m.token) (some m.now) =
        own.0 ∙ (rw (good, due) refl) in
      let same : text_eq p p && text_eq e e ≡ true = rw (text_eq_refl p, text_eq_refl e) refl in
      let (fs, found) =
        found_some (find_claimed prisma p e m.token next)
          (find_claimed-is_held p e prisma m.token next kept ∙ (rw (held, ==_refl m.token) refl)) in
      let settled = (run-step prisma (processes p e m.token now) next p e kept tt).0 in
      (
        own.1 ∙ (rw (good, due) refl),
        rw (found, succeeds fs) refl,
        rw (found, succeeds fs) (settled ∙ (rw (same, held, ==_refl m.token) refl)),
      )
