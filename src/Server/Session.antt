-- ===== src/Server/Session.antt =====
-- server/src/client.c: the functions that are called for a connection when something happens to it.
-- `pcre_exec` stands for the compiled expressions, and `env.files.now` for time(NULL).
pub mod States
pub mod Memory
pub mod Receivers
use mathlib.Core.Option
use pvs_kp.Base.{
  ℕ, ◌+◌, ◌-◌, Bool, true, false, Option, none, some, List, [], ◌∷◌, leb, if◌then◌else◌, size_t,
  size_mod, memcpy, c_string,
}
use pvs_kp.Server.ErrorCode.{ErrorCode, ce_success, ce_common, ce_init_3rd, succeeded}
use pvs_kp.Server.Msg.{Msg, bytes, msg_init, msg_add_text, msg_clean, msg_destroy}
use pvs_kp.Server.State.{
  State, init, expected_msg_text_or_end_msg, done, Event, response, ehlo, helo, mail, rcpt, data_ev,
  msg_text, end_data, rset, quit, timeout_ev, shutdown_ev,
}
use pvs_kp.Server.SmtpCmd.{
  cmd_helo, cmd_ehlo, cmd_mail, cmd_rcpt, cmd_vrfy, cmd_rset, cmd_quit, cmd_data, cmd_end_data,
  MatchInfo, Pcre, no_match, smtp_cmd_check,
}
use pvs_kp.Server.MailWriter.{MailWriter}
use pvs_kp.Server.Client.{
  Client, Conn, Env, opening_msg, unknown_cmd_answer, not_implemented_answer,
}
use pvs_kp.Server.Stars.{respond}
use pvs_kp.Server.Fsm.{client_step}

-- The buffers as far as they could be allocated, in the order of the code. On a failure the caller
-- frees the client, so only the code is returned with `none`.
unfoldable pub client_init : Env → MailWriter → Option Client × ErrorCode
client_init env mail_writer =
    let (buffer, code) = msg_init env.calloc 100 in
    let opening = msg_add_text env.calloc buffer opening_msg in
    if succeeded code
    then (if succeeded opening.1
        then (
          some (record {
            current_state = init;
            ehlo = 0;
            need_send = true;
            greating_info = buffer;
            msg_for_sending = opening.0;
            from = buffer;
            to = [];
            msg_text = buffer;
            closed = false;
            mail_writer = mail_writer;
            timeout_start_time = env.stale_time;
          }),
          ce_success,
        )
        else (none, ce_common))
    else (none, ce_init_3rd)

-- msg->text[msg->size] = 0. Where the buffer is full this is a byte past its end.
unfoldable pub terminate : Msg → Msg
terminate msg = record msg { text = Option.map (λ t. memcpy t msg.size (0 ∷ [])) msg.text }

-- What a line asks for: a step of the machine, or an answer and no step.
pub data Action : Type 0 where
  step : Event → MatchInfo → Action
  say : List ℕ → Action

abbrev pub or_else : Option MatchInfo → (MatchInfo → Action) → Action → Action
or_else (some mi) f rest = f mi
or_else none f rest = rest

-- The chain of tests outside the text of a mail.
unfoldable pub recognise : Pcre → List ℕ → Action
recognise pcre line = or_else (smtp_cmd_check pcre cmd_ehlo line) (step ehlo) (
    or_else (smtp_cmd_check pcre cmd_helo line) (step helo) (
      or_else (smtp_cmd_check pcre cmd_mail line) (step mail) (
        or_else (smtp_cmd_check pcre cmd_rcpt line) (step rcpt) (
          or_else (smtp_cmd_check pcre cmd_quit line) (step quit) (
            or_else (smtp_cmd_check pcre cmd_rset line) (step rset) (
              or_else (smtp_cmd_check pcre cmd_vrfy line) (λ _. say not_implemented_answer)
                (or_else (smtp_cmd_check pcre cmd_data line) (step data_ev)
                  (say unknown_cmd_answer))))))))

-- Inside the text of a mail. The line that does not match is handed on as it is.
unfoldable pub recognise_text : Pcre → List ℕ → Action
recognise_text pcre line =
    or_else (smtp_cmd_check pcre cmd_end_data line) (step end_data)
      (step msg_text (record no_match { tested_line = line }))

unfoldable pub act : Env → Conn → Action → Conn × State
act env x (step e mi) = client_step env x.client.current_state e x mi
act env x (say answer) = (respond env x answer, x.client.current_state)

abbrev pub set_state : Conn × State → Conn
set_state (x, s) = record x { client = record x.client { current_state = s } }

-- client_start_timeout
abbrev pub start_timeout : Env → Conn → Conn
start_timeout env x = record x { client = record x.client { timeout_start_time = env.files.now } }

abbrev pub in_text : State → Bool
in_text expected_msg_text_or_end_msg = true
in_text _ = false

unfoldable pub client_process_recv : Env → Pcre → Conn → Msg → Conn
unfolding recognise recognise_text act terminate
client_process_recv env pcre x msg =
    let line = c_string (bytes (terminate msg).text) in
    let action =
      if in_text x.client.current_state then recognise_text pcre line else recognise pcre line in
    start_timeout env (set_state (act env x action))

abbrev pub close_if_done : State → Conn → Conn
close_if_done done x = record x { client = record x.client { closed = true } }
close_if_done _ x = x

unfoldable pub client_process_send : Env → Conn → Conn
client_process_send env x =
    let c = x.client in
    let sent = record x {
      client = record c { need_send = false; msg_for_sending = msg_clean c.msg_for_sending };
    } in
    let r = client_step env c.current_state response sent no_match in
    close_if_done r.1 (set_state r)

-- The difference of a time_t and a size_t is taken in size_t.
unfoldable pub client_process_check_timeout : Env → ℕ → Conn → Conn
client_process_check_timeout env timeout x =
    let c = x.client in
    if leb (size_t (env.files.now + size_mod - c.timeout_start_time)) timeout
    then x
    else set_state (client_step env c.current_state timeout_ev x no_match)

unfoldable pub client_process_shutdown : Env → Conn → Conn
client_process_shutdown env x =
    set_state (client_step env x.client.current_state shutdown_ev x no_match)

unfoldable pub client_destroy : Client → Client
unfolding msg_destroy
client_destroy c = record c {
  to = [];
  current_state = init;
  need_send = false;
  ehlo = 0;
  closed = true;
  greating_info = msg_destroy c.greating_info;
  from = msg_destroy c.from;
  msg_text = msg_destroy c.msg_text;
  msg_for_sending = msg_destroy c.msg_for_sending;
}

-- What can happen to a connection, each time in its own surroundings.
pub data Input : Type 0 where
  received : Env → Msg → Input
  answered : Env → Input
  checked : Env → ℕ → Input
  stopped : Env → Input

unfoldable pub handle : Pcre → Conn → Input → Conn
unfolding client_process_recv client_process_send client_process_check_timeout
    client_process_shutdown
handle pcre x (received env msg) = client_process_recv env pcre x msg
handle pcre x (answered env) = client_process_send env x
handle pcre x (checked env timeout) = client_process_check_timeout env timeout x
handle pcre x (stopped env) = client_process_shutdown env x

unfoldable pub run : Pcre → Conn → List Input → Conn
run pcre x [] = x
run pcre x (input ∷ inputs) = run pcre (handle pcre x input) inputs
