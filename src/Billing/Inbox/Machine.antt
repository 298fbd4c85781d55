-- ===== src/Billing/Inbox/Machine.antt =====
-- The state machine of one webhook, which the inbox table implements.
use nestjs_modular_monolith.Common.{
  ℕ, ◌-◌, ◌≡◌, refl, Bool, true, false, ◌&&◌, ◌||◌, not, Option, none, some, List, ◌==◌,
  if◌then◌else◌, is_null, All,
}
use nestjs_modular_monolith.Errors.{Result, ok, throw, plain_error}
use nestjs_modular_monolith.Prisma.{PrismaClient}
use nestjs_modular_monolith.Text.{Text, text_eq}
use nestjs_modular_monolith.Billing.Json.{is_json_object}
use nestjs_modular_monolith.Billing.Inbox.{
  InboxEvent, ClaimInput, ClaimMoment, is_before, holds, processing_lease_ms, claim, mark_processed,
  mark_failed,
}
use nestjs_modular_monolith.Billing.Inbox.Views.{
  InboxState, failed, processed, claimed, state, is_consistent, is_absent,
}

pub data Command : Type 0 where
  claims : ClaimInput → ClaimMoment → Command
  processes fails : Text → Text → ℕ → ℕ → Command

module _ (prisma : PrismaClient) where
  abbrev pub run : Command → List InboxEvent → Result (Option ℕ) × List InboxEvent
  run (claims input m) rows = claim prisma input m rows
  run (processes provider event_id token now) rows =
      (ok none, mark_processed prisma provider event_id token now rows)
  run (fails provider event_id token now) rows =
      (ok none, mark_failed prisma provider event_id token now rows)

-- The state machine: a failed event is claimed again at once, and a claimed one after the lease.
abbrev pub is_due : ℕ → InboxState → Bool
is_due now failed = true
is_due now (claimed token at) = is_before (now - processing_lease_ms) at
is_due now s = false

abbrev pub can_claim : ℕ → InboxState → Bool
can_claim now s = is_absent s || is_due now s

abbrev pub is_held : ℕ → InboxState → Bool
is_held token (claimed holder at) = holds token holder
is_held token s = false

abbrev pub leave : ℕ → InboxState → InboxState → InboxState
leave token target s = if is_held token s then target else s

abbrev pub step : Command → InboxState → InboxState
step (claims input m) s =
    if is_json_object input.payload && can_claim m.now s
    then claimed (some m.token) (some m.now)
    else s
step (processes provider event_id token now) s = leave token processed s
step (fails provider event_id token now) s = leave token failed s

abbrev pub answer : Command → InboxState → Result (Option ℕ)
answer (claims input m) s =
    if is_json_object input.payload
    then ok (if can_claim m.now s then some m.token else none)
    else throw plain_error
answer c s = ok none

abbrev pub is_about : Text → Text → Command → Bool
is_about p e (claims input m) = text_eq input.provider p && text_eq input.provider_event_id e
is_about p e (processes provider event_id token now) = text_eq provider p && text_eq event_id e
is_about p e (fails provider event_id token now) = text_eq provider p && text_eq event_id e

-- The identifier of a new row is new.
abbrev pub IsFresh : Command → List InboxEvent → Type 0
IsFresh (claims input m) rows = All (λ (r : InboxEvent). (m.id == r.id) ≡ false) rows
IsFresh c rows = Unit

pub reclaimable-is_due :
    (now : ℕ) (a b c d : Option ℕ)
    → is_null a && (not (is_null b) || is_before (now - processing_lease_ms) d)
      ≡ is_due now (state a b c d)
reclaimable-is_due now (some a) b c d = refl
reclaimable-is_due now none (some b) c d = refl
reclaimable-is_due now none none c d = refl

pub due_open :
    (now token : ℕ) (a b c d : Option ℕ)
    → is_due now (state a b c d) ≡ true
    → state a none (some token) (some now) ≡ claimed (some token) (some now)
due_open now token (some a) b c d h = cc
due_open now token none b c d h = refl

pub held_open :
    (token : ℕ) (a b c d : Option ℕ)
    → is_consistent a b c d ≡ true
    → is_null a && holds token c ≡ is_held token (state a b c d)
held_open token (some a) b c d h = refl
held_open token none (some b) none d h = refl
held_open token none (some b) (some c) d h = cc
held_open token none none c d h = refl

pub held_unprocessed :
    (token now : ℕ) (a b c d : Option ℕ)
    → is_held token (state a b c d) ≡ true
    → state a (some now) none none ≡ failed
held_unprocessed token now (some a) b c d h = cc
held_unprocessed token now none b c d h = refl

pub nested :
    (a d : Bool) (x y : InboxState)
    → (if a && d then x else y) ≡ (if a then (if d then x else y) else y)
nested true d x y = refl
nested false d x y = refl

pub clash : true ≡ false → ⊥
clash h = cc
