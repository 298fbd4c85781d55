-- ===== src/Queue/Handlers.antt =====
-- src/platform/queue/queue-registrar.service.ts: which handlers there are for the queues.
use nestjs_modular_monolith.Common.{
  ℕ, ◌≡◌, ◌↔◌, refl, sym, subst, ap, ◌∙◌, Bool, true, false, not, ◌||◌, Option, none, some, is_null,
  List, [], ◌∷◌, arith, if◌then◌else◌, any, All, All-map,
}
use nestjs_modular_monolith.Errors.{Result, ok, throw, plain_error}
use nestjs_modular_monolith.Text.{Text, text_eq, text_eq_comm}
use nestjs_modular_monolith.Billing.Json.{Value, string}
use nestjs_modular_monolith.Prisma.Rows.{IsUnique, any_of_All}
use nestjs_modular_monolith.Queue.Definitions.{QueueDefinition, queue_definitions, queue_text}

-- The metadata of the provider's class, none where it is no class; and whether its instance has a
-- method `handle`. A number stands for the instance.
pub record Provider : Type 0 where
  pub metadata : Option Value
  pub has_handle : Bool
  pub instance : ℕ

pub record DiscoveredHandler : Type 0 where
  pub queue : Text
  pub consumer : ℕ

-- The queues that have a definition are all that there are.
abbrev pub is_queue_name : Text → Bool
is_queue_name value =
    any (λ (d : QueueDefinition). text_eq (queue_text d.name) value) queue_definitions

abbrev pub queue_in : Value → Option Text
queue_in (string value) = if is_queue_name value then some value else none
queue_in _ = none

abbrev pub read_queue_metadata : Option Value → Option Text
read_queue_metadata none = none
read_queue_metadata (some value) = queue_in value

abbrev pub cons_handler :
    Text → ℕ → Result (List DiscoveredHandler) → Result (List DiscoveredHandler)
cons_handler queue consumer (throw e) = throw e
cons_handler queue consumer (ok handlers) =
    ok ((record { queue = queue; consumer = consumer }) ∷ handlers)

-- The rest of the loop, where the queues of `seen` have a handler already.
abbrev pub discover_one :
    Option Text
    → Provider
    → List Text
    → (List Text → Result (List DiscoveredHandler))
    → Result (List DiscoveredHandler)
discover_one none p seen rest = rest seen
discover_one (some queue) p seen rest =
    if not p.has_handle
    then throw plain_error
    else (if any (text_eq queue) seen
        then throw plain_error
        else cons_handler queue p.instance (rest (queue ∷ seen)))

abbrev pub discover : List Provider → List Text → Result (List DiscoveredHandler)
discover [] seen = ok []
discover (p ∷ ps) seen = discover_one (read_queue_metadata p.metadata) p seen (discover ps)

unfoldable pub discover_handlers : List Provider → Result (List DiscoveredHandler)
discover_handlers providers = discover providers []

abbrev pub same_queue : DiscoveredHandler → DiscoveredHandler → Bool
same_queue a b = text_eq a.queue b.queue

-- What is expected of the discovery, said without its loop: the queue that a provider names, with its
-- own instance as the consumer, in the order of the providers; the others are passed over.
abbrev pub handlers_for : Option Text → Provider → List DiscoveredHandler → List DiscoveredHandler
handlers_for none p rest = rest
handlers_for (some queue) p rest = (record { queue = queue; consumer = p.instance }) ∷ rest

abbrev pub handlers_of : List Provider → List DiscoveredHandler
handlers_of [] = []
handlers_of (p ∷ ps) = handlers_for (read_queue_metadata p.metadata) p (handlers_of ps)

-- A provider that names a queue has a method to handle its jobs.
abbrev pub is_usable : Provider → Bool
is_usable p = is_null (read_queue_metadata p.metadata) || p.has_handle

-- No handler is of a queue that was seen.
abbrev AreNew : List Text → List DiscoveredHandler → Type 0
AreNew seen hs = All (λ (h : DiscoveredHandler). any (text_eq h.queue) seen ≡ false) hs

abbrev Expected : List Provider → List Text → List DiscoveredHandler → Type 0
Expected ps seen hs =
    (hs ≡ handlers_of ps)
    × All (λ p. is_usable p ≡ true) ps
    × IsUnique same_queue hs
    × AreNew seen hs

cons_handler_ok :
    (queue : Text) (consumer : ℕ) (r : Result (List DiscoveredHandler))
    {hs : List DiscoveredHandler}
    → cons_handler queue consumer r ≡ ok hs
    → (rest : List DiscoveredHandler) × (r ≡ ok rest)
      × ((record { queue = queue; consumer = consumer }) ∷ rest ≡ hs)
cons_handler_ok queue consumer (throw e) h = cc
cons_handler_ok queue consumer (ok rest) h = (rest, refl, cc)

past_guard :
    (b : Bool) (r : Result (List DiscoveredHandler)) {hs : List DiscoveredHandler}
    → (if b then throw plain_error else r) ≡ ok hs
    → (b ≡ false) × (r ≡ ok hs)
past_guard true r h = cc
past_guard false r h = (refl, h)

||-eq-false : (a b : Bool) → (a || b) ≡ false → (a ≡ false) × (b ≡ false)
||-eq-false a b h = ground arith

not-eq-false : (b : Bool) → not b ≡ false → b ≡ true
not-eq-false b h = ground arith

new-add :
    (queue : Text) (seen : List Text) (hs : List DiscoveredHandler)
    → any (λ (h : DiscoveredHandler). text_eq queue h.queue) hs ≡ false
    → AreNew seen hs
    → AreNew (queue ∷ seen) hs
new-add queue seen [] apart new = tt
new-add queue seen (h ∷ hs) apart new =
    let (first, rest) = ||-eq-false (text_eq queue h.queue) _ apart in
    (rw (text_eq_comm h.queue queue, first) new.0, new-add queue seen hs rest new.1)

-- A handler of a queue that had none, before the others.
Expected-cons :
    (queue : Text) (p : Provider) (ps : List Provider) (seen : List Text)
    (rest : List DiscoveredHandler)
    → any (text_eq queue) seen ≡ false
    → p.has_handle ≡ true
    → Expected ps (queue ∷ seen) rest
    → ((record { queue = queue; consumer = p.instance }) ∷ rest
        ≡ handlers_for (some queue) p (handlers_of ps))
      × ((is_null (some queue) || p.has_handle) ≡ true)
      × All (λ q. is_usable q ≡ true) ps
      × IsUnique same_queue ((record { queue = queue; consumer = p.instance }) ∷ rest)
      × AreNew seen ((record { queue = queue; consumer = p.instance }) ∷ rest)
Expected-cons queue p ps seen rest new usable (same, all_usable, unique, fresh) =
    let apart =
      All-map
        (λ (h : DiscoveredHandler) e.
          ||-eq-false (text_eq h.queue queue) (any (text_eq h.queue) seen) e)
        rest fresh in
    (
      ap (λ l. (record { queue = queue; consumer = p.instance }) ∷ l) same,
      usable,
      all_usable,
      (
        any_of_All (same_queue (record { queue = queue; consumer = p.instance })) rest
            (All-map (λ (h : DiscoveredHandler) e. text_eq_comm queue h.queue ∙ e.0) rest apart),
        unique,
      ),
      (new, All-map (λ (h : DiscoveredHandler) e. e.1) rest apart),
    )

discover_one-Expected :
    (queue : Option Text) (p : Provider) (ps : List Provider) (seen : List Text)
    (hs : List DiscoveredHandler)
    → ((seen' : List Text) (rest : List DiscoveredHandler)
        → discover ps seen' ≡ ok rest
        → Expected ps seen' rest)
    → discover_one queue p seen (discover ps) ≡ ok hs
    → (hs ≡ handlers_for queue p (handlers_of ps))
      × ((is_null queue || p.has_handle) ≡ true)
      × All (λ q. is_usable q ≡ true) ps
      × IsUnique same_queue hs
      × AreNew seen hs
discover_one-Expected none p ps seen hs later h =
    let (same, usable, unique, fresh) = later seen hs h in (same, refl, usable, unique, fresh)
discover_one-Expected (some queue) p ps seen hs later h =
    let (usable, unseen) = past_guard (not p.has_handle) _ h in
    let (new, made) = past_guard (any (text_eq queue) seen) _ unseen in
    let (rest, found, same) = cons_handler_ok queue p.instance _ made in
    subst
      (λ (l : List DiscoveredHandler).
        (l ≡ handlers_for (some queue) p (handlers_of ps))
        × ((is_null (some queue) || p.has_handle) ≡ true)
        × All (λ q. is_usable q ≡ true) ps
        × IsUnique same_queue l
        × AreNew seen l)
      same
      (Expected-cons queue p ps seen rest new (not-eq-false p.has_handle usable)
        (later (queue ∷ seen) rest found))

discover-Expected :
    (ps : List Provider) (seen : List Text) (hs : List DiscoveredHandler)
    → discover ps seen ≡ ok hs
    → Expected ps seen hs
discover-Expected [] seen [] h = (refl, tt, tt, tt)
discover-Expected [] seen (x ∷ xs) h = cc
discover-Expected (p ∷ ps) seen hs h =
    let (same, usable, all_usable, unique, fresh) =
      discover_one-Expected (read_queue_metadata p.metadata) p ps seen hs
        (λ seen' rest found. discover-Expected ps seen' rest found) h in
    (same, (usable, all_usable), unique, fresh)

discover_one-ok :
    (queue : Option Text) (p : Provider) (ps : List Provider) (seen : List Text)
    → ((seen' : List Text)
        → IsUnique same_queue (handlers_of ps)
        → AreNew seen' (handlers_of ps)
        → discover ps seen' ≡ ok (handlers_of ps))
    → (is_null queue || p.has_handle) ≡ true
    → IsUnique same_queue (handlers_for queue p (handlers_of ps))
    → AreNew seen (handlers_for queue p (handlers_of ps))
    → discover_one queue p seen (discover ps) ≡ ok (handlers_for queue p (handlers_of ps))
discover_one-ok none p ps seen later usable unique new = later seen unique new
discover_one-ok (some queue) p ps seen later usable unique new =
    rw
      (
        usable,
        new.0,
        later (queue ∷ seen) unique.1 (new-add queue seen (handlers_of ps) unique.0 new.1),
      )
      refl

discover-ok :
    (ps : List Provider) (seen : List Text)
    → All (λ p. is_usable p ≡ true) ps
    → IsUnique same_queue (handlers_of ps)
    → AreNew seen (handlers_of ps)
    → discover ps seen ≡ ok (handlers_of ps)
discover-ok [] seen usable unique new = refl
discover-ok (p ∷ ps) seen usable unique new =
    discover_one-ok (read_queue_metadata p.metadata) p ps seen
      (λ seen' u n. discover-ok ps seen' usable.1 u n) usable.0 unique new

AreNew-nil : (hs : List DiscoveredHandler) → AreNew [] hs
AreNew-nil [] = tt
AreNew-nil (h ∷ hs) = (refl, AreNew-nil hs)

-- The discovery answers exactly where each provider that names a queue has a method to handle its jobs
-- and no two name the same queue; the answer has, in the order of the providers, for each that names a
-- queue that queue with the provider's own instance as its consumer, and nothing else.
pub discover_handlers-ok_iff :
    (providers : List Provider) (handlers : List DiscoveredHandler)
    → (discover_handlers providers ≡ ok handlers) ↔ (
        (handlers ≡ handlers_of providers)
        × All (λ p. is_usable p ≡ true) providers
        × IsUnique same_queue handlers)
unfolding discover_handlers
discover_handlers-ok_iff providers handlers = (
  λ h.
      let (same, usable, unique, _) = discover-Expected providers [] handlers h in
      (same, usable, unique),
  λ (same, usable, unique).
      discover-ok providers [] usable (subst (IsUnique same_queue) same unique)
        (AreNew-nil (handlers_of providers))
      ∙ ap ok (sym same),
)
