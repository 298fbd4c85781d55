-- ===== src/Notifications/Delivery.antt =====
-- That a notification is delivered at most once, and is not lost where a delivery fails.
use nestjs_modular_monolith.Common.{
  ℕ, ◌≡◌, refl, ◌∙◌, ap, inl, inr, true, false, not, Bool-cases, some, List, [], ◌∷◌, ◌++◌, arith,
  if◌then◌else◌, keep, any,
}
use nestjs_modular_monolith.Errors.{Result, Result-cases, ok, throw, Thrown}
use nestjs_modular_monolith.Prisma.{PrismaClient, Answer, answers, fails}
use nestjs_modular_monolith.Text.{Text, text_eq_refl, text_eq_comm, literal}
use nestjs_modular_monolith.Notifications.{
  OutgoingNotification, Mailer, World, SentNotification, has_key, same_key, prisma_ledger,
  ledger_claim, ledger_release, send, send_keyed, deliver, release_quietly,
}

abbrev sent_row : Text → ℕ → SentNotification
sent_row key now = record { idempotency_key = key; channel = literal "email"; sent_at = now }

-- The ledger after a delivery was claimed and came to a result: the key stays where the server took the
-- message, and where the release fails without having been carried out.
abbrev pub ledger_after :
    Text → ℕ → Answer → List SentNotification → Result (Unit {0}) → List SentNotification
ledger_after key now releases rows (ok tt) = rows ++ sent_row key now ∷ []
ledger_after key now answers rows (throw e) = rows
ledger_after key now (fails _ carried_out) rows (throw e) =
    if carried_out then rows else rows ++ sent_row key now ∷ []

-- The ledger after a claim.
abbrev pub claimed_rows : Text → ℕ → List SentNotification → List SentNotification
claimed_rows key now rows = if any (has_key key) rows then rows else rows ++ sent_row key now ∷ []

any-key :
    (key : Text) (now : ℕ) (rows : List SentNotification)
    → any (same_key (sent_row key now)) rows ≡ any (has_key key) rows
any-key key now [] = refl
any-key key now (r ∷ rows) = rw (text_eq_comm key r.idempotency_key, any-key key now rows) refl

-- A claim that is released leaves the ledger as it was.
keep-added :
    (key : Text) (now : ℕ) (rows : List SentNotification)
    → any (has_key key) rows ≡ false
    → keep (λ r. not (has_key key r)) (rows ++ sent_row key now ∷ []) ≡ rows
keep-added key now [] h = rw (text_eq_refl key) refl
keep-added key now (r ∷ rows) h = elim (Bool-cases (has_key key r)) [
  | inl hit ↦ cc
  | inr miss ↦ rw miss (ap (λ t. r ∷ t) (keep-added key now rows (rw miss at h)))
]

any-added :
    (key : Text) (now : ℕ) (rows : List SentNotification)
    → any (has_key key) (rows ++ sent_row key now ∷ []) ≡ true
any-added key now [] = rw (text_eq_refl key) refl
any-added key now (r ∷ rows) = ground (arith, any-added key now rows)

module _ (prisma : PrismaClient) (mailer : Mailer) where
  ledger_claim-eq :
      (now : ℕ) (key : Text) (rows : List SentNotification)
      → ledger_claim prisma now key (literal "email") rows ≡ (
          if any (has_key key) rows
          then (ok false, rows)
          else (ok true, rows ++ sent_row key now ∷ []))
  unfolding ledger_claim
  ledger_claim-eq now key rows =
      let created = prisma.create_many-eq same_key (sent_row key now) rows in
      elim (Bool-cases (any (has_key key) rows)) [
        | inl known ↦ rw (created, any-key key now rows, known) refl
        | inr new ↦ rw (created, any-key key now rows, new) refl
      ]

  -- What sending under a key comes to, by what becomes of the claim.
  abbrev pub outcome :
      OutgoingNotification
      → Text
      → ℕ
      → Answer
      → Answer
      → World (List SentNotification) mailer.Box
      → Result (Unit {0}) × World (List SentNotification) mailer.Box
  outcome n key now (fails e carried_out) releases w = (
    throw e,
    record { rows = if carried_out then claimed_rows key now w.rows else w.rows; box = w.box },
  )
  outcome n key now answers releases w = if any (has_key key) w.rows then (ok tt, w) else (
    (mailer.deliver n w.box).0,
    record {
      rows = ledger_after key now releases w.rows (mailer.deliver n w.box).0;
      box = (mailer.deliver n w.box).1;
    },
  )

  -- The `catch` of the sender, after the claim of a new key.
  release_outcome :
      (key : Text) (now : ℕ) (releases : Answer) (e : Thrown) (rows : List SentNotification)
      → any (has_key key) rows ≡ false
      → ((prisma_ledger prisma now answers releases).release key (rows ++ sent_row key now ∷ [])).1
        ≡ ledger_after key now releases rows (throw e)
  unfolding ledger_release
  release_outcome key now releases e rows new =
      let removed = prisma.delete_many-eq (has_key key) (rows ++ sent_row key now ∷ []) in
      by_answer releases (rw (removed, keep-added key now rows new) refl)
    where
      by_answer :
          (r : Answer)
          → (ledger_release prisma key (rows ++ sent_row key now ∷ [])).1 ≡ rows
          → ((prisma_ledger prisma now answers r).release key (rows ++ sent_row key now ∷ [])).1
            ≡ ledger_after key now r rows (throw e)
      by_answer answers h = h
      by_answer (fails f true) h = h
      by_answer (fails f false) h = refl

  keyed_outcome :
      (n : OutgoingNotification) (key : Text) (now : ℕ) (claims releases : Answer)
      (w : World (List SentNotification) mailer.Box)
      → send_keyed (prisma_ledger prisma now claims releases) mailer n (some key) w
        ≡ outcome n key now claims releases w
  unfolding deliver release_quietly
  keyed_outcome n key now (fails e carried_out) releases w =
      rw (ledger_claim-eq now key w.rows) (elim (Bool-cases (any (has_key key) w.rows)) [
        | inl known ↦ rw known refl
        | inr new ↦ rw new refl
      ])
  keyed_outcome n key now answers releases w =
      let claimed = ledger_claim-eq now key w.rows in
      elim (Bool-cases (any (has_key key) w.rows)) [
        | inl known ↦ rw (claimed, known) refl
        | inr new ↦ elim (Result-cases (mailer.deliver n w.box).0) [
          | inl sent ↦ rw (claimed, new, sent) refl
          | inr (e, failed) ↦
              rw (claimed, new, failed, release_outcome key now releases e w.rows new) refl
        ]
      ]

  -- What sending under a key does on every branch. Where the claim fails, its error is thrown and
  -- nothing is handed to the mail server. Where it is answered, a key that was claimed before is
  -- skipped; otherwise the message is handed to the mail server, whose answer or error is that of the
  -- call. The ledger then has the key if the server took the message, and also if it did not and the
  -- release failed without having been carried out; otherwise it is as before.
  pub send_outcome :
      (n : OutgoingNotification) (key : Text) (now : ℕ) (claims releases : Answer)
      (w : World (List SentNotification) mailer.Box)
      → n.idempotency_key ≡ some key
      → send (prisma_ledger prisma now claims releases) mailer n w
        ≡ outcome n key now claims releases w
  unfolding send
  send_outcome n key now claims releases w keyed =
      ap (λ o. send_keyed (prisma_ledger prisma now claims releases) mailer n o w) keyed
      ∙ keyed_outcome n key now claims releases w

  not_thrown : {e : Thrown} → Path (Result (Unit {0})) (throw e) (ok tt) → ⊥
  not_thrown h = cc

  outcome-sent :
      (n : OutgoingNotification) (key : Text) (now : ℕ) (claims releases : Answer)
      (w : World (List SentNotification) mailer.Box)
      → (outcome n key now claims releases w).0 ≡ ok tt
      → any (has_key key) (outcome n key now claims releases w).1.rows ≡ true
  outcome-sent n key now (fails e carried_out) releases w done = absurd (not_thrown done)
  outcome-sent n key now answers releases w done = elim (Bool-cases (any (has_key key) w.rows)) [
    | inl known ↦ rw known known
    | inr new ↦ elim (Result-cases (mailer.deliver n w.box).0) [
      | inl sent ↦ rw (new, sent) (any-added key now w.rows)
      | inr (e, failed) ↦ absurd (not_thrown (rw (new, failed) at done))
    ]
  ]

  -- What sending under a key that was claimed before answers.
  abbrev pub answer_of : Answer → Result (Unit {0})
  answer_of answers = ok tt
  answer_of (fails e carried_out) = throw e

  outcome-known :
      (n : OutgoingNotification) (key : Text) (now : ℕ) (claims releases : Answer)
      (w : World (List SentNotification) mailer.Box)
      → any (has_key key) w.rows ≡ true
      → outcome n key now claims releases w ≡ (answer_of claims, w)
  outcome-known n key now answers releases w known = rw known refl
  outcome-known n key now (fails e true) releases w known = rw known refl
  outcome-known n key now (fails e false) releases w known = refl

  -- A notification is delivered at most once: directly after a send that answered, a send under the
  -- same key, of whatever message and at whatever time, changes neither the ledger nor the mail server,
  -- and answers unless its own claim fails, whose error it then throws.
  pub send-send :
      (n again : OutgoingNotification) (key : Text) (now later : ℕ)
      (claims releases claims' releases' : Answer) (w : World (List SentNotification) mailer.Box)
      → n.idempotency_key ≡ some key
      → again.idempotency_key ≡ some key
      → (send (prisma_ledger prisma now claims releases) mailer n w).0 ≡ ok tt
      → send
          (prisma_ledger prisma later claims' releases')
          mailer
          again
          (send (prisma_ledger prisma now claims releases) mailer n w).1
        ≡ (answer_of claims', (send (prisma_ledger prisma now claims releases) mailer n w).1)
  send-send n again key now later claims releases claims' releases' w keyed keyed_again done =
      let first = send_outcome n key now claims releases w keyed in
      send_outcome again key later claims' releases' _ keyed_again
      ∙ outcome-known again key later claims' releases' _
          (rw first (outcome-sent n key now claims releases w (rw first at done)))
