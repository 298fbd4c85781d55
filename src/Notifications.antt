-- ===== src/Notifications.antt =====
-- src/modules/notifications: the ledger of what was sent,
-- infrastructure/prisma-notification-ledger.adapter.ts, and the sender that keeps to it,
-- infrastructure/idempotent-notification-sender.adapter.ts. Logging is left out.
pub mod Delivery
pub mod Examples
use nestjs_modular_monolith.Common.{
  ℕ, ◌*◌, ◌-◌, Bool, true, false, not, Option, none, some, List, leb, ltb, ◌==◌, if◌then◌else◌,
}
use nestjs_modular_monolith.Errors.{Result, ok, throw, M, continue}
use nestjs_modular_monolith.Prisma.{PrismaClient, Answer, answered}
use nestjs_modular_monolith.Text.{Text, text_eq, literal}
use nestjs_modular_monolith.Retention.{delete_batch, prune_passes}

pub record OutgoingNotification : Type 0 where
  pub to : Text
  pub subject : Text
  pub text : Text
  pub html : Option Text
  pub idempotency_key : Option Text

-- `MailerPort`: what it is to send a message, over the state of the mail server.
pub record Mailer : Type 1 where
  pub Box : Type 0
  pub deliver : OutgoingNotification → M Box (Unit {0})

-- `NotificationLedgerPort`, as the sender uses it; a call may fail.
pub record NotificationLedger : Type 1 where
  pub Rows : Type 0
  pub claim : Text → Text → M Rows Bool
  pub release : Text → M Rows (Unit {0})

pub record World (Rows Box : Type 0) : Type 0 where
  pub rows : Rows
  pub box : Box

module _ (ledger : NotificationLedger) (mailer : Mailer) where
  -- `MailerNotificationSender.send`
  unfoldable pub deliver : OutgoingNotification → M (World ledger.Rows mailer.Box) (Unit {0})
  deliver n w = let (r, box) = mailer.deliver n w.box in (r, record { rows = w.rows; box = box })

  -- Whatever becomes of it, the world after the release.
  unfoldable pub release_quietly :
      Text → World ledger.Rows mailer.Box → World ledger.Rows mailer.Box
  release_quietly key w = record { rows = (ledger.release key w.rows).1; box = w.box }

  -- The end of the `try`, or its `catch`.
  abbrev pub settle_delivery :
      Text
      → Result (Unit {0}) × World ledger.Rows mailer.Box
      → Result (Unit {0}) × World ledger.Rows mailer.Box
  settle_delivery key (ok tt, w) = (ok tt, w)
  settle_delivery key (throw e, w) = (throw e, release_quietly key w)

  abbrev pub after_claim :
      OutgoingNotification
      → Text
      → mailer.Box
      → Result Bool × ledger.Rows
      → Result (Unit {0}) × World ledger.Rows mailer.Box
  after_claim n key box (throw e, rows) = (throw e, record { rows = rows; box = box })
  after_claim n key box (ok false, rows) = (ok tt, record { rows = rows; box = box })
  after_claim n key box (ok true, rows) =
      settle_delivery key (deliver n (record { rows = rows; box = box }))

  abbrev pub send_keyed :
      OutgoingNotification → Option Text → M (World ledger.Rows mailer.Box) (Unit {0})
  send_keyed n none w = deliver n w
  send_keyed n (some key) w = after_claim n key w.box (ledger.claim key (literal "email") w.rows)

  -- `IdempotentNotificationSender.send`
  unfoldable pub send : OutgoingNotification → M (World ledger.Rows mailer.Box) (Unit {0})
  send n = send_keyed n n.idempotency_key

-- A row of `notifications.sent_notification`.
pub record SentNotification : Type 0 where
  pub idempotency_key : Text
  pub channel : Text
  pub sent_at : ℕ

abbrev pub has_key : Text → SentNotification → Bool
has_key key r = text_eq r.idempotency_key key

abbrev pub same_key : SentNotification → SentNotification → Bool
same_key a b = text_eq a.idempotency_key b.idempotency_key

abbrev pub sent_first : SentNotification → SentNotification → Bool
sent_first a b = leb a.sent_at b.sent_at

abbrev pub is_sent_before : ℕ → SentNotification → Bool
is_sent_before cutoff r = ltb r.sent_at cutoff

module _ (prisma : PrismaClient) where
  -- `PrismaNotificationLedger`; the clock is the database's.
  unfoldable pub ledger_claim : ℕ → Text → Text → M (List SentNotification) Bool
  ledger_claim now key channel rows =
      let (written, n) =
        prisma.create_many same_key
          (record { idempotency_key = key; channel = channel; sent_at = now }) rows in
      (ok (n == 1), written)

  unfoldable pub ledger_release : Text → M (List SentNotification) (Unit {0})
  ledger_release key rows = (ok tt, (prisma.delete_many (has_key key) rows).0)

  unfoldable pub delete_sent_before : ℕ → ℕ → List SentNotification → ℕ × List SentNotification
  delete_sent_before cutoff = delete_batch prisma same_key sent_first (is_sent_before cutoff)

  -- The ledger, with what becomes of its two calls.
  abbrev pub prisma_ledger : ℕ → Answer → Answer → NotificationLedger
  prisma_ledger now claims releases = record {
    Rows = List SentNotification;
    claim = λ key channel rows. answered claims rows (ledger_claim now key channel rows);
    release = λ key rows. answered releases rows (ledger_release key rows);
  }

  -- `PruneNotificationLedgerUseCase.execute`
  unfoldable pub prune_ledger : ℕ → ℕ → List SentNotification → ℕ × List SentNotification
  prune_ledger now retention_days =
      prune_passes (delete_sent_before (now - retention_days * 86400000) 5000) 5000 20 0
