-- ===== src/Client/Connection/Says.antt =====
-- The events of client/src/SMTP_connection.c that a state makes when no reply is there.
use pvs_kp.Base.{
  get_elem?, ◌+◌, ◌≡◌, refl, sym, inl, inr, arith, Bool, true, false, not, ◌&&◌, Option, none, some,
  Bool-cases, Option-cases, ltb, if◌then◌else◌,
}
use pvs_kp.Client.Memory.{Memory, Alloc}
use pvs_kp.Client.MString.{MString}
use pvs_kp.Client.Queue.{queue_peek, queue_is_empty, queue_pop_front}
use pvs_kp.Client.Message.{SmtpMessage, is_attempts_time_expired, can_start_attempt_now}
use pvs_kp.Client.Fsm.State.{
  FsmState, init, sending_hello, hello_sended, sending_ehlo, ehlo_sended,
  get_next_message_and_sending_mail_or_quit, sending_mail_or_quit, mail_sended,
  sending_rcpt_or_data, rcpt_sended, data_sended, rset_sended, sending_msg_text_or_end_msg,
  msg_text_sended, end_data_sended, sending_quit, quit_sended, closed_connection, invalid, done,
  FsmEvent, none_ev, close_connection, hello, ehlo, mail, rset, rcpt, data_ev, msg_text, end_data,
  quit, is_row,
}
use pvs_kp.Client.Fsm.{client_fsm_step}
use pvs_kp.Client.Connection.{SmtpConnection, System}
use pvs_kp.Client.Connection.Switch.{
  Switched, undefined_, returned, chosen, send_command, start_mail, mail_or_quit, drop_message,
  rcpt_or_data, text_or_end, await_response, switch, is_4xx, with_endline,
}
use pvs_kp.Client.Commands.{
  helo_command, ehlo_command, mailfrom_command, rcptto_command, rset_command, data_command,
  enddata_command, quit_command,
}

abbrev pub is_none {ℓ} : {A : Type ℓ} → Option A → Bool
is_none none = true
is_none (some a) = false

-- The states that wait for a reply.
abbrev pub awaits : FsmState → Bool
awaits init = true
awaits hello_sended = true
awaits ehlo_sended = true
awaits mail_sended = true
awaits rcpt_sended = true
awaits data_sended = true
awaits rset_sended = true
awaits quit_sended = true
awaits msg_text_sended = true
awaits end_data_sended = true
awaits _ = false

-- The events that a state makes when no reply is there.
abbrev pub emits : FsmState → FsmEvent → Bool
emits sending_hello hello = true
emits sending_ehlo ehlo = true
emits get_next_message_and_sending_mail_or_quit mail = true
emits get_next_message_and_sending_mail_or_quit quit = true
emits sending_mail_or_quit mail = true
emits sending_mail_or_quit quit = true
emits sending_mail_or_quit none_ev = true
emits sending_rcpt_or_data rcpt = true
emits sending_rcpt_or_data data_ev = true
emits sending_rcpt_or_data rset = true
emits sending_msg_text_or_end_msg msg_text = true
emits sending_msg_text_or_end_msg rset = true
emits sending_msg_text_or_end_msg end_data = true
emits closed_connection none_ev = true
emits s none_ev = awaits s
emits _ close_connection = true
emits _ _ = false

pub client_fsm_step-emits :
    (s : FsmState) (e : FsmEvent)
    → is_row s ≡ true
    → emits s e ≡ true
    → is_none (client_fsm_step s e) ≡ false
unfolding client_fsm_step
client_fsm_step-emits init e r h = ground arith
client_fsm_step-emits s e r h = ground arith

-- What the switch leaves has this state and one of its events.
abbrev pub Says : FsmState → Switched → Type 0
Says s undefined_ = Unit
Says s (returned conn e mem) = (conn.state ≡ s) × (emits s e ≡ true)
Says s (chosen conn command e mem) = (conn.state ≡ s) × (emits s e ≡ true)

send_command-Says :
    (s : FsmState) (conn : SmtpConnection) (e : FsmEvent) (command : Option (Alloc MString))
    (mem : Memory)
    → conn.state ≡ s
    → emits s e ≡ true
    → Says s (send_command conn e command mem)
send_command-Says s conn e none mem same h = tt
send_command-Says s conn e (some command) mem same h = (same, h)

if-Says :
    (s : FsmState) (b : Bool) (x y : Switched) → Says s x → Says s y → Says s (if b then x else y)
if-Says s true x y hx hy = hx
if-Says s false x y hx hy = hy

-- A state from which a mail is started; one of them may wait before it tries again.
abbrev starts : FsmState → FsmEvent → Bool
starts sending_mail_or_quit last = true
starts get_next_message_and_sending_mail_or_quit last = not (is_4xx last)
starts _ last = false

negated : (b : Bool) → not b ≡ true → b ≡ false
negated true h = sym h
negated false h = refl

quits : (s : FsmState) (e : FsmEvent) → starts s e ≡ true → emits s quit ≡ true
quits init e h = cc
quits sending_mail_or_quit e h = refl
quits get_next_message_and_sending_mail_or_quit e h = refl
quits s e h = cc

start_mail-Says :
    (system : System) (s : FsmState) (conn : SmtpConnection) (message : SmtpMessage) (mem : Memory)
    → conn.state ≡ s
    → starts s conn.last_event ≡ true
    → Says s (start_mail system conn message mem)
unfolding start_mail
start_mail-Says system sending_mail_or_quit conn message mem same h =
    if-Says sending_mail_or_quit
      (is_4xx conn.last_event && not (can_start_attempt_now system.now message)) _ _ (same, refl)
      (send_command-Says sending_mail_or_quit _ mail (mailfrom_command message.from_addr) mem same
        refl)
start_mail-Says system get_next_message_and_sending_mail_or_quit conn message mem same h =
    let first_try : is_4xx conn.last_event ≡ false = negated (is_4xx conn.last_event) h in
    rw first_try (
      send_command-Says get_next_message_and_sending_mail_or_quit _ mail
        (mailfrom_command message.from_addr) mem same refl)
start_mail-Says system init conn message mem same h = cc
start_mail-Says system s conn message mem same h = cc

mail_or_quit-Says :
    (system : System) (s : FsmState) (conn : SmtpConnection) (mem : Memory)
    → conn.state ≡ s
    → starts s conn.last_event ≡ true
    → Says s (mail_or_quit system conn mem)
unfolding mail_or_quit
mail_or_quit-Says system s conn mem same h = elim (Bool-cases (queue_is_empty conn.messages)) [
  | inl e ↦ rw e (send_command-Says s conn quit quit_command mem same (quits s conn.last_event h))
  | inr e ↦ elim (Option-cases (queue_peek conn.messages)) [
    | inl p ↦ rw e (rw p tt)
    | inr (message, p) ↦ rw e (rw p (start_mail-Says system s conn message mem same h))
  ]
]

drop_message-Says :
    (s : FsmState) (conn : SmtpConnection) (mem : Memory)
    → conn.state ≡ s
    → emits s rset ≡ true
    → Says s (drop_message conn mem)
unfolding drop_message
drop_message-Says s conn mem same h = elim (Option-cases (queue_pop_front conn.messages)) [
  | inl e ↦ rw e tt
  | inr (q, e) ↦
      rw e (send_command-Says s (record conn { messages = q }) rset rset_command mem same h)
]

rcpt_or_data-Says :
    (system : System) (conn : SmtpConnection) (message : Option SmtpMessage) (mem : Memory)
    → conn.state ≡ sending_rcpt_or_data
    → Says sending_rcpt_or_data (rcpt_or_data system conn message mem)
unfolding rcpt_or_data
rcpt_or_data-Says system conn none mem same = tt
rcpt_or_data-Says system conn (some message) mem same =
    if-Says sending_rcpt_or_data (is_attempts_time_expired system.now message) _ _
      (drop_message-Says sending_rcpt_or_data conn mem same refl)
      (if-Says sending_rcpt_or_data (ltb conn.current_rcpt message.recipients_count) _ _
        (elim (Option-cases (get_elem? message.recipients_addr conn.current_rcpt)) [
          | inl e ↦ rw e tt
          | inr (recipient, e) ↦ rw e (
              send_command-Says sending_rcpt_or_data
                (record conn { current_rcpt = conn.current_rcpt + 1 }) rcpt
                (rcptto_command recipient) mem same refl)
        ])
        (send_command-Says sending_rcpt_or_data conn data_ev data_command mem same refl))

text_or_end-Says :
    (system : System) (endline : Option MString) (conn : SmtpConnection)
    (message : Option SmtpMessage) (mem : Memory)
    → conn.state ≡ sending_msg_text_or_end_msg
    → Says sending_msg_text_or_end_msg (text_or_end system endline conn message mem)
unfolding text_or_end
text_or_end-Says system endline conn none mem same = tt
text_or_end-Says system endline conn (some message) mem same =
    if-Says sending_msg_text_or_end_msg (is_attempts_time_expired system.now message) _ _
      (drop_message-Says sending_msg_text_or_end_msg conn mem same refl)
      (if-Says sending_msg_text_or_end_msg (ltb conn.current_msg_line message.msg_lines) _ _
        (send_command-Says sending_msg_text_or_end_msg
          (record conn { current_msg_line = conn.current_msg_line + 1 }) msg_text
          (with_endline endline (get_elem? message.msg conn.current_msg_line)) mem same refl)
        (send_command-Says sending_msg_text_or_end_msg conn end_data enddata_command mem same refl))

await_response-Says :
    (system : System) (s : FsmState) (conn : SmtpConnection) (mem : Memory)
    → conn.state ≡ s
    → emits s none_ev ≡ true
    → queue_peek conn.peer.messages_out ≡ none
    → Says s (await_response system conn mem)
unfolding await_response
await_response-Says system s conn mem same h silent = rw silent (same, h)

-- The states and last events from which no turn without a reply ends the process: all states of the
-- table, but for the one that nothing leads to, and for a mail that is tried again behind another one.
abbrev pub lives : FsmState → FsmEvent → Bool
lives sending_quit last = false
lives invalid last = false
lives done last = false
lives get_next_message_and_sending_mail_or_quit last = not (is_4xx last)
lives s last = true

pub switch-Says :
    (system : System) (endline : Option MString) (s : FsmState) (conn : SmtpConnection)
    (mem : Memory)
    → conn.state ≡ s
    → lives s conn.last_event ≡ true
    → queue_peek conn.peer.messages_out ≡ none
    → Says s (switch system endline conn s mem)
unfolding switch
switch-Says system endline init conn mem same h silent =
    await_response-Says system init conn mem same refl silent
switch-Says system endline sending_hello conn mem same h silent =
    send_command-Says sending_hello conn hello helo_command mem same refl
switch-Says system endline sending_ehlo conn mem same h silent =
    send_command-Says sending_ehlo conn ehlo ehlo_command mem same refl
switch-Says system endline get_next_message_and_sending_mail_or_quit conn mem same h silent =
    if-Says get_next_message_and_sending_mail_or_quit (queue_is_empty conn.messages) _ _
      (mail_or_quit-Says system get_next_message_and_sending_mail_or_quit conn mem same h)
      (elim (Option-cases (queue_pop_front conn.messages)) [
        | inl e ↦ rw e tt
        | inr (q, e) ↦ rw e (
            mail_or_quit-Says system get_next_message_and_sending_mail_or_quit
              (record conn { messages = q }) mem same h)
      ])
switch-Says system endline sending_mail_or_quit conn mem same h silent =
    mail_or_quit-Says system sending_mail_or_quit conn mem same refl
switch-Says system endline sending_rcpt_or_data conn mem same h silent =
    rcpt_or_data-Says system conn (queue_peek conn.messages) mem same
switch-Says system endline sending_msg_text_or_end_msg conn mem same h silent =
    text_or_end-Says system endline conn (queue_peek conn.messages) mem same
switch-Says system endline sending_quit conn mem same h silent = cc
switch-Says system endline invalid conn mem same h silent = cc
switch-Says system endline done conn mem same h silent = cc
switch-Says system endline closed_connection conn mem same h silent = (same, refl)
switch-Says system endline hello_sended conn mem same h silent =
    await_response-Says system hello_sended conn mem same refl silent
switch-Says system endline s conn mem same h silent =
    await_response-Says system s conn mem same refl silent
