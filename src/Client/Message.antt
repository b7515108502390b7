-- ===== src/Client/Message.antt =====
-- client/src/SMTP_message.c, client/include/SMTP_message.h: a mail that is to be sent. `none` is NULL.
-- Times are counted from the epoch and are not negative.
use pvs_kp.Base.{ℕ, ◌+◌, Bool, Option, List, ltb}
use pvs_kp.Client.Memory.{Alloc, malloc, made, ◌>>=◌}
use pvs_kp.Client.MString.{MString}

-- SMTP_message_t. A line is NULL where no memory was found for it.
pub record SmtpMessage : Type 0 where
  pub from_addr : List ℕ
  pub recipients_addr : List (List ℕ)
  pub recipients_count : ℕ
  pub msg : List (Option MString)
  pub msg_lines : ℕ
  pub attempt_start_time : ℕ
  pub last_attempt_time : ℕ
  pub max_attempts_time : ℕ
  pub min_interval_between_attempts : ℕ

-- The fields that are not set are those of the last argument.
unfoldable pub smtp_message_init : ℕ → ℕ → SmtpMessage → Alloc SmtpMessage
smtp_message_init max_attempts_time min_interval unset = do
  msg ← malloc 72
  made (record unset {
    msg_lines = 0;
    recipients_count = 0;
    max_attempts_time = max_attempts_time;
    min_interval_between_attempts = min_interval;
  })

unfoldable pub is_attempts_time_expired : ℕ → SmtpMessage → Bool
is_attempts_time_expired now message =
    ltb (message.attempt_start_time + message.max_attempts_time) now

unfoldable pub can_start_attempt_now : ℕ → SmtpMessage → Bool
can_start_attempt_now now message =
    ltb (message.last_attempt_time + message.min_interval_between_attempts) now
