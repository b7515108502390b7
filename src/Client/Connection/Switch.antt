-- ===== src/Client/Connection/Switch.antt =====
-- client/src/SMTP_connection.c: the switch of generate_event over the states of a connection.
use pvs_kp.Base.{
  get_elem?, ℕ, ◌+◌, Bool, true, false, not, ◌&&◌, Option, none, some, List, [], ◌∷◌, ltb,
  if◌then◌else◌,
}
use pvs_kp.Client.Memory.{Memory, Alloc}
use pvs_kp.Client.MString.{MString, concat}
use pvs_kp.Client.Queue.{Queue, queue_pop_front, queue_peek, queue_is_empty}
use pvs_kp.Client.Peer.Send.{bind}
use pvs_kp.Client.Message.{SmtpMessage, is_attempts_time_expired, can_start_attempt_now}
use pvs_kp.Client.Commands.{
  helo_command, ehlo_command, mailfrom_command, rcptto_command, rset_command, data_command,
  enddata_command, quit_command,
}
use pvs_kp.Client.Fsm.State.{
  FsmState, init, sending_hello, hello_sended, sending_ehlo, ehlo_sended,
  get_next_message_and_sending_mail_or_quit, sending_mail_or_quit, mail_sended,
  sending_rcpt_or_data, rcpt_sended, data_sended, rset_sended, sending_msg_text_or_end_msg,
  msg_text_sended, end_data_sended, quit_sended, FsmEvent, none_ev, response_4xx, hello, ehlo, mail,
  rset, rcpt, data_ev, msg_text, end_data, quit,
}
use pvs_kp.Client.Connection.Reply.{parse_response_code, response_event}
use pvs_kp.Client.Connection.{SmtpConnection, System}

-- What the switch leaves: undefined behaviour, an early return, or the command, which may be NULL,
-- and the event.
pub data Switched : Type 0 where
  undefined_ : Switched
  returned : SmtpConnection → FsmEvent → Memory → Switched
  chosen : SmtpConnection → Option MString → FsmEvent → Memory → Switched

abbrev pub choose : SmtpConnection → FsmEvent → Option MString × Memory → Switched
choose conn event (command, mem) = chosen conn command event mem

abbrev pub send_command : SmtpConnection → FsmEvent → Option (Alloc MString) → Memory → Switched
send_command conn event none mem = undefined_
send_command conn event (some command) mem = choose conn event (command mem)

-- The first of the messages, changed in its place.
abbrev pub set_first : SmtpMessage → Queue SmtpMessage → Queue SmtpMessage
set_first message q = record q { nodes = put q.nodes }
  where
    put : List SmtpMessage → List SmtpMessage
    put [] = []
    put (old ∷ messages) = message ∷ messages

abbrev pub and_pop : (SmtpConnection → Memory → Switched) → SmtpConnection → Memory → Switched
and_pop next conn mem = popped (queue_pop_front conn.messages)
  where
    popped : Option (Queue SmtpMessage) → Switched
    popped none = undefined_
    popped (some messages) = next (record conn { messages = messages }) mem

abbrev pub is_4xx : FsmEvent → Bool
is_4xx response_4xx = true
is_4xx _ = false

-- case CLIENT_FSM_ST_SENDING_MAIL_OR_QUIT, for a message that is not NULL.
unfoldable pub start_mail : System → SmtpConnection → SmtpMessage → Memory → Switched
unfolding mailfrom_command can_start_attempt_now
start_mail system conn message mem =
    let again = is_4xx conn.last_event in
    let started : SmtpMessage =
      if again then message else record message { attempt_start_time = system.now } in
    let current = record started { last_attempt_time = system.now } in
    let conn1 : SmtpConnection = record conn {
      messages = set_first current conn.messages;
      current_rcpt = 0;
      current_msg_line = 0;
    } in
    if again && not (can_start_attempt_now system.now message)
    then returned conn none_ev mem
    else send_command conn1 mail (mailfrom_command message.from_addr) mem

unfoldable pub mail_or_quit : System → SmtpConnection → Memory → Switched
unfolding start_mail quit_command
mail_or_quit system conn mem =
    if queue_is_empty conn.messages
    then send_command conn quit quit_command mem
    else at_message (queue_peek conn.messages)
  where
    at_message : Option SmtpMessage → Switched
    at_message none = undefined_
    at_message (some message) = start_mail system conn message mem

-- A message whose time is over is popped, and the transaction is reset.
unfoldable pub drop_message : SmtpConnection → Memory → Switched
unfolding rset_command
drop_message = and_pop (λ conn mem. send_command conn rset rset_command mem)

-- case CLIENT_FSM_ST_SENDING_RCPT_OR_DATA, for the message that queue_peek gives.
unfoldable pub rcpt_or_data : System → SmtpConnection → Option SmtpMessage → Memory → Switched
unfolding drop_message is_attempts_time_expired rcptto_command data_command
rcpt_or_data system conn none mem = undefined_
rcpt_or_data system conn (some message) mem =
    if is_attempts_time_expired system.now message
    then drop_message conn mem
    else if ltb conn.current_rcpt message.recipients_count
    then to_rcpt (get_elem? message.recipients_addr conn.current_rcpt)
    else send_command conn data_ev data_command mem
  where
    to_rcpt : Option (List ℕ) → Switched
    to_rcpt none = undefined_
    to_rcpt (some recipient) =
        send_command (record conn { current_rcpt = conn.current_rcpt + 1 }) rcpt
          (rcptto_command recipient) mem

-- A line that is NULL, or an end of line that is NULL, is used.
abbrev pub with_endline : Option MString → Option (Option MString) → Option (Alloc MString)
with_endline (some endline) (some (some line)) = some (concat line endline)
with_endline endline line = none

-- case CLIENT_FSM_ST_SENDING_MSG_TEXT_OR_END_MSG.
unfoldable pub text_or_end :
    System → Option MString → SmtpConnection → Option SmtpMessage → Memory → Switched
unfolding drop_message is_attempts_time_expired enddata_command concat
text_or_end system endline conn none mem = undefined_
text_or_end system endline conn (some message) mem =
    if is_attempts_time_expired system.now message
    then drop_message conn mem
    else if ltb conn.current_msg_line message.msg_lines
    then send_command (record conn { current_msg_line = conn.current_msg_line + 1 }) msg_text
        (with_endline endline (get_elem? message.msg conn.current_msg_line)) mem
    else send_command conn end_data enddata_command mem

-- while (!queue_is_empty(...)) queue_pop_front(...), with the queue's nodes as its fuel.
unfoldable pub pop_all : List MString → Queue MString → Option (Queue MString)
unfolding queue_is_empty
pop_all [] q = if queue_is_empty q then some q else none
pop_all (x ∷ fuel) q =
    let rest = bind (λ left. pop_all fuel left) (queue_pop_front q) in
    if queue_is_empty q then some q else rest

-- The states that wait for a reply: the event of the first message, and all are popped.
unfoldable pub await_response : System → SmtpConnection → Memory → Switched
unfolding pop_all queue_peek parse_response_code response_event
await_response system conn mem =
    heard (queue_peek conn.peer.messages_out)
      (pop_all conn.peer.messages_out.nodes conn.peer.messages_out)
  where
    heard : Option MString → Option (Queue MString) → Switched
    heard none left = chosen conn none none_ev mem
    heard (some response) none = undefined_
    heard (some response) (some left) =
        chosen (record conn { peer = record conn.peer { messages_out = left } }) none
          (response_event (parse_response_code system.behind response)) mem

-- The switch over the states.
unfoldable pub switch : System → Option MString → SmtpConnection → FsmState → Memory → Switched
unfolding helo_command ehlo_command mail_or_quit rcpt_or_data text_or_end await_response
switch system endline conn sending_hello mem = send_command conn hello helo_command mem
switch system endline conn sending_ehlo mem = send_command conn ehlo ehlo_command mem
switch system endline conn get_next_message_and_sending_mail_or_quit mem =
    if queue_is_empty conn.messages
    then mail_or_quit system conn mem
    else and_pop (mail_or_quit system) conn mem
switch system endline conn sending_mail_or_quit mem = mail_or_quit system conn mem
switch system endline conn sending_rcpt_or_data mem =
    rcpt_or_data system conn (queue_peek conn.messages) mem
switch system endline conn sending_msg_text_or_end_msg mem =
    text_or_end system endline conn (queue_peek conn.messages) mem
switch system endline conn init mem = await_response system conn mem
switch system endline conn hello_sended mem = await_response system conn mem
switch system endline conn ehlo_sended mem = await_response system conn mem
switch system endline conn mail_sended mem = await_response system conn mem
switch system endline conn rcpt_sended mem = await_response system conn mem
switch system endline conn data_sended mem = await_response system conn mem
switch system endline conn rset_sended mem = await_response system conn mem
switch system endline conn quit_sended mem = await_response system conn mem
switch system endline conn msg_text_sended mem = await_response system conn mem
switch system endline conn end_data_sended mem = await_response system conn mem
switch system endline conn _ mem = chosen conn none none_ev mem
