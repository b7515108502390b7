-- ===== src/Client/Fsm/Graph.antt =====
-- The transitions of client/src/client.def, and that client/src/client-fsm.c makes exactly those.
use pvs_kp.Base.{◌≡◌, true, arith, Option, none, some}
use pvs_kp.Client.Fsm.State.{
  FsmState, init, sending_hello, hello_sended, sending_ehlo, ehlo_sended,
  get_next_message_and_sending_mail_or_quit, sending_mail_or_quit, mail_sended,
  sending_rcpt_or_data, rcpt_sended, data_sended, rset_sended, sending_msg_text_or_end_msg,
  msg_text_sended, end_data_sended, quit_sended, closed_connection, invalid, done, FsmEvent,
  none_ev, close_connection, response_2xx, response_3xx, response_4xx, response_502, response_5xx,
  hello, ehlo, mail, rset, rcpt, data_ev, msg_text, end_data, quit, is_row,
}
use pvs_kp.Client.Fsm.{client_fsm_step}

-- `transition` of client.def, its lines in their order, the one with tst = '*' last. `none` where the
-- file gives no transition.
abbrev pub fsm_next : FsmState → FsmEvent → Option FsmState
fsm_next invalid _ = none
fsm_next done _ = none
fsm_next init response_2xx = some sending_ehlo
fsm_next init none_ev = some init
fsm_next sending_ehlo ehlo = some ehlo_sended
fsm_next sending_hello hello = some hello_sended
fsm_next sending_mail_or_quit mail = some mail_sended
fsm_next sending_mail_or_quit quit = some quit_sended
fsm_next sending_mail_or_quit none_ev = some sending_mail_or_quit
fsm_next get_next_message_and_sending_mail_or_quit mail = some mail_sended
fsm_next get_next_message_and_sending_mail_or_quit quit = some quit_sended
fsm_next sending_rcpt_or_data rcpt = some rcpt_sended
fsm_next sending_rcpt_or_data data_ev = some data_sended
fsm_next sending_rcpt_or_data rset = some rset_sended
fsm_next sending_msg_text_or_end_msg msg_text = some msg_text_sended
fsm_next sending_msg_text_or_end_msg rset = some rset_sended
fsm_next sending_msg_text_or_end_msg end_data = some end_data_sended
fsm_next hello_sended response_2xx = some sending_mail_or_quit
fsm_next hello_sended response_4xx = some hello_sended
fsm_next hello_sended response_502 = some sending_ehlo
fsm_next hello_sended response_5xx = some closed_connection
fsm_next hello_sended none_ev = some hello_sended
fsm_next ehlo_sended response_2xx = some sending_mail_or_quit
fsm_next ehlo_sended response_4xx = some ehlo_sended
fsm_next ehlo_sended response_5xx = some closed_connection
fsm_next ehlo_sended none_ev = some ehlo_sended
fsm_next mail_sended response_2xx = some sending_rcpt_or_data
fsm_next mail_sended response_4xx = some sending_mail_or_quit
fsm_next mail_sended response_5xx = some get_next_message_and_sending_mail_or_quit
fsm_next mail_sended none_ev = some mail_sended
fsm_next rcpt_sended response_2xx = some sending_rcpt_or_data
fsm_next rcpt_sended response_4xx = some sending_mail_or_quit
fsm_next rcpt_sended response_5xx = some get_next_message_and_sending_mail_or_quit
fsm_next rcpt_sended none_ev = some rcpt_sended
fsm_next data_sended response_3xx = some sending_msg_text_or_end_msg
fsm_next data_sended response_5xx = some get_next_message_and_sending_mail_or_quit
fsm_next data_sended none_ev = some data_sended
fsm_next rset_sended response_2xx = some get_next_message_and_sending_mail_or_quit
fsm_next rset_sended none_ev = some rset_sended
fsm_next msg_text_sended none_ev = some sending_msg_text_or_end_msg
fsm_next end_data_sended response_2xx = some get_next_message_and_sending_mail_or_quit
fsm_next end_data_sended response_4xx = some sending_mail_or_quit
fsm_next end_data_sended response_5xx = some get_next_message_and_sending_mail_or_quit
fsm_next end_data_sended none_ev = some end_data_sended
fsm_next quit_sended none_ev = some quit_sended
fsm_next quit_sended response_2xx = some closed_connection
fsm_next quit_sended response_4xx = some closed_connection
fsm_next quit_sended response_5xx = some closed_connection
fsm_next closed_connection none_ev = some closed_connection
fsm_next _ close_connection = some closed_connection
fsm_next _ _ = none

-- From each of the eighteen states of the table, on every event, client_fsm_step returns the state
-- that client.def names, and ends the process where client.def names none.
pub client_fsm_step-next :
    (s : FsmState) (e : FsmEvent) → is_row s ≡ true → client_fsm_step s e ≡ fsm_next s e
unfolding client_fsm_step
client_fsm_step-next invalid e h = cc
client_fsm_step-next done e h = cc
client_fsm_step-next init e h = ground arith
client_fsm_step-next _ e h = ground arith
