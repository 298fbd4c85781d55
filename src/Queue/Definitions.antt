-- ===== src/Queue/Definitions.antt =====
-- src/platform/queue/queues.ts: the queues, what each is set to, and the schedules.
use nestjs_modular_monolith.Common.{ℕ, ◌*◌, Bool, true, List, [], ◌∷◌}
use nestjs_modular_monolith.Text.{Text, literal}

pub data QueueName : Type 0 where
  users_create_profile users_delete_profile audit_record_event audit_prune auth_prune_expired
        mail_send_welcome mail_send_auth_email organization_send_invitation
        notifications_prune_ledger billing_apply_webhook upload_purge_user_files
        upload_sweep_unconfirmed outbox_drain outbox_prune billing_webhook_prune :
      QueueName

abbrev pub queue_text : QueueName → Text
queue_text users_create_profile = literal "users.create-profile"
queue_text users_delete_profile = literal "users.delete-profile"
queue_text audit_record_event = literal "audit-log.record-event"
queue_text audit_prune = literal "audit-log.prune"
queue_text auth_prune_expired = literal "auth.prune-expired"
queue_text mail_send_welcome = literal "mailer.send-welcome"
queue_text mail_send_auth_email = literal "mailer.send-auth-email"
queue_text organization_send_invitation = literal "organizations.send-invitation"
queue_text notifications_prune_ledger = literal "notifications.prune-ledger"
queue_text billing_apply_webhook = literal "billing.apply-webhook"
queue_text upload_purge_user_files = literal "upload.purge-user-files"
queue_text upload_sweep_unconfirmed = literal "upload.sweep-unconfirmed"
queue_text outbox_drain = literal "messaging.outbox-drain"
queue_text outbox_prune = literal "messaging.outbox-prune"
queue_text billing_webhook_prune = literal "billing.webhook-prune"

pub record QueueDefinition : Type 0 where
  pub name : QueueName
  pub retry_limit : ℕ
  pub retry_delay_seconds : ℕ
  pub retry_delay_max_seconds : ℕ
  pub retry_backoff : Bool
  pub failed_job_retention_seconds : ℕ
  pub completed_job_retention_seconds : ℕ

abbrev pub one_hour : ℕ
one_hour = 3600

abbrev pub fifteen_minutes : ℕ
fifteen_minutes = 900

abbrev pub one_day : ℕ
one_day = 86400

abbrev pub three_days : ℕ
three_days = one_day * 3

abbrev pub thirty_days : ℕ
thirty_days = one_day * 30

abbrev pub defaults : QueueName → QueueDefinition
defaults name = record {
  name = name;
  retry_limit = 5;
  retry_delay_seconds = 5;
  retry_delay_max_seconds = one_hour;
  retry_backoff = true;
  failed_job_retention_seconds = thirty_days;
  completed_job_retention_seconds = three_days;
}

-- A sweep or a pruning job is tried once more, and kept for an hour where it failed.
abbrev brief : QueueName → QueueDefinition
brief name = record (defaults name) { retry_limit = 1; failed_job_retention_seconds = one_hour }

abbrev pub queue_definitions : List QueueDefinition
queue_definitions =
    defaults users_create_profile
    ∷ defaults users_delete_profile
    ∷ defaults audit_record_event
    ∷ (record (defaults mail_send_auth_email) {
      retry_limit = 5;
      retry_delay_max_seconds = fifteen_minutes;
      completed_job_retention_seconds = 0;
      failed_job_retention_seconds = fifteen_minutes;
    })
    ∷ (record (defaults organization_send_invitation) {
      retry_limit = 8;
      completed_job_retention_seconds = 0;
      failed_job_retention_seconds = one_hour;
    })
    ∷ (record (defaults mail_send_welcome) {
      retry_limit = 8;
      retry_delay_max_seconds = one_hour * 6;
    })
    ∷ defaults upload_purge_user_files
    ∷ brief upload_sweep_unconfirmed
    ∷ (record (defaults outbox_drain) {
      retry_limit = 3;
      retry_delay_seconds = 2;
      retry_delay_max_seconds = 60;
      failed_job_retention_seconds = one_hour;
    })
    ∷ brief outbox_prune
    ∷ defaults billing_apply_webhook
    ∷ brief billing_webhook_prune
    ∷ brief notifications_prune_ledger
    ∷ brief audit_prune
    ∷ brief auth_prune_expired
    ∷ []

pub record CronSchedule : Type 0 where
  pub queue : QueueName
  pub cron : Text

abbrev schedule : QueueName → Text → CronSchedule
schedule queue cron = record { queue = queue; cron = cron }

abbrev pub cron_schedules : List CronSchedule
cron_schedules =
    schedule upload_sweep_unconfirmed (literal "*/15 * * * *")
    ∷ schedule audit_prune (literal "41 3 * * *")
    ∷ schedule auth_prune_expired (literal "23 4 * * *")
    ∷ schedule billing_webhook_prune (literal "7 5 * * *")
    ∷ schedule notifications_prune_ledger (literal "53 4 * * *")
    ∷ []
