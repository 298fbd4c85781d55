-- ===== src/Notifications/Examples.antt =====
-- The theorems on notifications at a concrete mail server.
use nestjs_modular_monolith.Common.{ℕ, ◌+◌, ◌≡◌, refl, false, none, some, List, []}
use nestjs_modular_monolith.Errors.{ok, throw, plain_error}
use nestjs_modular_monolith.Prisma.{answers, fails}
use nestjs_modular_monolith.Prisma.ListClient.{list_client}
use nestjs_modular_monolith.Text.{Text, literal}
use nestjs_modular_monolith.Notifications.{
  OutgoingNotification, Mailer, World, SentNotification, prisma_ledger, ledger_claim, send, deliver,
}
use nestjs_modular_monolith.Notifications.Delivery.{outcome, send_outcome, send-send}

-- A mail server that counts what it took.
abbrev counter : Mailer
counter = record { Box = ℕ; deliver = λ n box. (ok tt, box + 1) }

abbrev key : Text
key = literal "welcome:7"

abbrev notification : OutgoingNotification
notification = record {
  to = literal "a@b.c";
  subject = literal "Welcome";
  text = literal "Hello";
  html = none;
  idempotency_key = some key;
}

abbrev world : World (List SentNotification) ℕ
world = record { rows = []; box = 0 }

-- A mail server that takes nothing.
abbrev refusing : Mailer
refusing = record { Box = ℕ; deliver = λ n box. (throw plain_error, box) }

-- The mail server refuses the message and the release fails: the key stays, and the error is the mail
-- server's.
send_outcome_example :
    send
      (prisma_ledger list_client 1000 answers (fails plain_error false))
      refusing
      notification
      world
    ≡ outcome list_client refusing notification key 1000 answers (fails plain_error false) world
send_outcome_example =
    send_outcome list_client refusing notification key 1000 answers (fails plain_error false) world
      refl

taken : (send (prisma_ledger list_client 1000 answers answers) counter notification world).0 ≡ ok tt
unfolding send deliver ledger_claim
taken = refl

send-send_example :
    send
      (prisma_ledger list_client 2000 answers answers)
      counter
      notification
      (send (prisma_ledger list_client 1000 answers answers) counter notification world).1
    ≡ (ok tt, (send (prisma_ledger list_client 1000 answers answers) counter notification world).1)
send-send_example =
    send-send list_client counter notification notification key 1000 2000 answers answers answers
      answers world refl refl taken
