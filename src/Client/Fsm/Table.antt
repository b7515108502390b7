-- ===== src/Client/Fsm/Table.antt =====
-- client/src/client-fsm.c: `client_fsm_trans_table`, a function for each row. The last clause of each
-- stands for the entries { CLIENT_FSM_ST_INVALID, client_fsm_do_invalid }.
use pvs_kp.Client.Fsm.State.{
  FsmState, init, sending_hello, hello_sended, sending_ehlo, ehlo_sended,
  get_next_message_and_sending_mail_or_quit, sending_mail_or_quit, mail_sended,
  sending_rcpt_or_data, rcpt_sended, data_sended, rset_sended, sending_msg_text_or_end_msg,
  msg_text_sended, end_data_sended, sending_quit, quit_sended, closed_connection, invalid, done,
  FsmEvent, none_ev, close_connection, response_2xx, response_3xx, response_4xx, response_502,
  response_5xx, hello, ehlo, mail, rset, rcpt, data_ev, msg_text, end_data, quit,
}
use pvs_kp.Client.Fsm.Callbacks.{
  FsmCallback, exit_invalid, do_close_connection, do_init, do_sending_hello, do_hello_sended,
  do_sending_ehlo, do_ehlo_sended, do_get_next_message_and_sending_mail_or_quit,
  do_sending_mail_or_quit, do_mail_sended, do_sending_rcpt_or_data, do_rcpt_sended, do_data_sended,
  do_rset_sended, do_sending_msg_text_or_end_msg, do_msg_text_sended, do_end_data_sended,
  do_quit_sended, do_closed_connection,
}

-- struct transition: the next state and the callback.
abbrev pub FsmTransition : Type 0
FsmTransition = FsmState × FsmCallback

unfoldable pub init_entries : FsmEvent → FsmTransition
unfolding exit_invalid do_close_connection do_init
init_entries none_ev = (init, do_init none_ev)
init_entries close_connection = (closed_connection, do_close_connection init)
init_entries response_2xx = (sending_ehlo, do_init response_2xx)
init_entries _ = (invalid, exit_invalid)

unfoldable pub sending_hello_entries : FsmEvent → FsmTransition
unfolding exit_invalid do_close_connection do_sending_hello
sending_hello_entries close_connection = (closed_connection, do_close_connection sending_hello)
sending_hello_entries hello = (hello_sended, do_sending_hello hello)
sending_hello_entries _ = (invalid, exit_invalid)

unfoldable pub hello_sended_entries : FsmEvent → FsmTransition
unfolding exit_invalid do_close_connection do_hello_sended
hello_sended_entries none_ev = (hello_sended, do_hello_sended none_ev)
hello_sended_entries close_connection = (closed_connection, do_close_connection hello_sended)
hello_sended_entries response_2xx = (sending_mail_or_quit, do_hello_sended response_2xx)
hello_sended_entries response_4xx = (hello_sended, do_hello_sended response_4xx)
hello_sended_entries response_502 = (sending_ehlo, do_hello_sended response_502)
hello_sended_entries response_5xx = (closed_connection, do_hello_sended response_5xx)
hello_sended_entries _ = (invalid, exit_invalid)

unfoldable pub sending_ehlo_entries : FsmEvent → FsmTransition
unfolding exit_invalid do_close_connection do_sending_ehlo
sending_ehlo_entries close_connection = (closed_connection, do_close_connection sending_ehlo)
sending_ehlo_entries ehlo = (ehlo_sended, do_sending_ehlo ehlo)
sending_ehlo_entries _ = (invalid, exit_invalid)

unfoldable pub ehlo_sended_entries : FsmEvent → FsmTransition
unfolding exit_invalid do_close_connection do_ehlo_sended
ehlo_sended_entries none_ev = (ehlo_sended, do_ehlo_sended none_ev)
ehlo_sended_entries close_connection = (closed_connection, do_close_connection ehlo_sended)
ehlo_sended_entries response_2xx = (sending_mail_or_quit, do_ehlo_sended response_2xx)
ehlo_sended_entries response_4xx = (ehlo_sended, do_ehlo_sended response_4xx)
ehlo_sended_entries response_5xx = (closed_connection, do_ehlo_sended response_5xx)
ehlo_sended_entries _ = (invalid, exit_invalid)

unfoldable pub get_next_message_and_sending_mail_or_quit_entries : FsmEvent → FsmTransition
unfolding exit_invalid do_close_connection do_get_next_message_and_sending_mail_or_quit
get_next_message_and_sending_mail_or_quit_entries close_connection =
    (closed_connection, do_close_connection get_next_message_and_sending_mail_or_quit)
get_next_message_and_sending_mail_or_quit_entries mail =
    (mail_sended, do_get_next_message_and_sending_mail_or_quit mail)
get_next_message_and_sending_mail_or_quit_entries quit =
    (quit_sended, do_get_next_message_and_sending_mail_or_quit quit)
get_next_message_and_sending_mail_or_quit_entries _ = (invalid, exit_invalid)

unfoldable pub sending_mail_or_quit_entries : FsmEvent → FsmTransition
unfolding exit_invalid do_close_connection do_sending_mail_or_quit
sending_mail_or_quit_entries none_ev = (sending_mail_or_quit, do_sending_mail_or_quit none_ev)
sending_mail_or_quit_entries close_connection =
    (closed_connection, do_close_connection sending_mail_or_quit)
sending_mail_or_quit_entries mail = (mail_sended, do_sending_mail_or_quit mail)
sending_mail_or_quit_entries quit = (quit_sended, do_sending_mail_or_quit quit)
sending_mail_or_quit_entries _ = (invalid, exit_invalid)

unfoldable pub mail_sended_entries : FsmEvent → FsmTransition
unfolding exit_invalid do_close_connection do_mail_sended
mail_sended_entries none_ev = (mail_sended, do_mail_sended none_ev)
mail_sended_entries close_connection = (closed_connection, do_close_connection mail_sended)
mail_sended_entries response_2xx = (sending_rcpt_or_data, do_mail_sended response_2xx)
mail_sended_entries response_4xx = (sending_mail_or_quit, do_mail_sended response_4xx)
mail_sended_entries response_5xx =
    (get_next_message_and_sending_mail_or_quit, do_mail_sended response_5xx)
mail_sended_entries _ = (invalid, exit_invalid)

unfoldable pub sending_rcpt_or_data_entries : FsmEvent → FsmTransition
unfolding exit_invalid do_close_connection do_sending_rcpt_or_data
sending_rcpt_or_data_entries close_connection =
    (closed_connection, do_close_connection sending_rcpt_or_data)
sending_rcpt_or_data_entries rset = (rset_sended, do_sending_rcpt_or_data rset)
sending_rcpt_or_data_entries rcpt = (rcpt_sended, do_sending_rcpt_or_data rcpt)
sending_rcpt_or_data_entries data_ev = (data_sended, do_sending_rcpt_or_data data_ev)
sending_rcpt_or_data_entries _ = (invalid, exit_invalid)

unfoldable pub rcpt_sended_entries : FsmEvent → FsmTransition
unfolding exit_invalid do_close_connection do_rcpt_sended
rcpt_sended_entries none_ev = (rcpt_sended, do_rcpt_sended none_ev)
rcpt_sended_entries close_connection = (closed_connection, do_close_connection rcpt_sended)
rcpt_sended_entries response_2xx = (sending_rcpt_or_data, do_rcpt_sended response_2xx)
rcpt_sended_entries response_4xx = (sending_mail_or_quit, do_rcpt_sended response_4xx)
rcpt_sended_entries response_5xx =
    (get_next_message_and_sending_mail_or_quit, do_rcpt_sended response_5xx)
rcpt_sended_entries _ = (invalid, exit_invalid)

unfoldable pub data_sended_entries : FsmEvent → FsmTransition
unfolding exit_invalid do_close_connection do_data_sended
data_sended_entries none_ev = (data_sended, do_data_sended none_ev)
data_sended_entries close_connection = (closed_connection, do_close_connection data_sended)
data_sended_entries response_3xx = (sending_msg_text_or_end_msg, do_data_sended response_3xx)
data_sended_entries response_5xx =
    (get_next_message_and_sending_mail_or_quit, do_data_sended response_5xx)
data_sended_entries _ = (invalid, exit_invalid)

unfoldable pub rset_sended_entries : FsmEvent → FsmTransition
unfolding exit_invalid do_close_connection do_rset_sended
rset_sended_entries none_ev = (rset_sended, do_rset_sended none_ev)
rset_sended_entries close_connection = (closed_connection, do_close_connection rset_sended)
rset_sended_entries response_2xx =
    (get_next_message_and_sending_mail_or_quit, do_rset_sended response_2xx)
rset_sended_entries _ = (invalid, exit_invalid)

unfoldable pub sending_msg_text_or_end_msg_entries : FsmEvent → FsmTransition
unfolding exit_invalid do_close_connection do_sending_msg_text_or_end_msg
sending_msg_text_or_end_msg_entries close_connection =
    (closed_connection, do_close_connection sending_msg_text_or_end_msg)
sending_msg_text_or_end_msg_entries rset = (rset_sended, do_sending_msg_text_or_end_msg rset)
sending_msg_text_or_end_msg_entries msg_text =
    (msg_text_sended, do_sending_msg_text_or_end_msg msg_text)
sending_msg_text_or_end_msg_entries end_data =
    (end_data_sended, do_sending_msg_text_or_end_msg end_data)
sending_msg_text_or_end_msg_entries _ = (invalid, exit_invalid)

unfoldable pub msg_text_sended_entries : FsmEvent → FsmTransition
unfolding exit_invalid do_close_connection do_msg_text_sended
msg_text_sended_entries none_ev = (sending_msg_text_or_end_msg, do_msg_text_sended none_ev)
msg_text_sended_entries close_connection = (closed_connection, do_close_connection msg_text_sended)
msg_text_sended_entries _ = (invalid, exit_invalid)

unfoldable pub end_data_sended_entries : FsmEvent → FsmTransition
unfolding exit_invalid do_close_connection do_end_data_sended
end_data_sended_entries none_ev = (end_data_sended, do_end_data_sended none_ev)
end_data_sended_entries close_connection = (closed_connection, do_close_connection end_data_sended)
end_data_sended_entries response_2xx =
    (get_next_message_and_sending_mail_or_quit, do_end_data_sended response_2xx)
end_data_sended_entries response_4xx = (sending_mail_or_quit, do_end_data_sended response_4xx)
end_data_sended_entries response_5xx =
    (get_next_message_and_sending_mail_or_quit, do_end_data_sended response_5xx)
end_data_sended_entries _ = (invalid, exit_invalid)

unfoldable pub sending_quit_entries : FsmEvent → FsmTransition
unfolding exit_invalid do_close_connection
sending_quit_entries close_connection = (closed_connection, do_close_connection sending_quit)
sending_quit_entries _ = (invalid, exit_invalid)

unfoldable pub quit_sended_entries : FsmEvent → FsmTransition
unfolding exit_invalid do_close_connection do_quit_sended
quit_sended_entries none_ev = (quit_sended, do_quit_sended none_ev)
quit_sended_entries close_connection = (closed_connection, do_close_connection quit_sended)
quit_sended_entries response_2xx = (closed_connection, do_quit_sended response_2xx)
quit_sended_entries response_4xx = (closed_connection, do_quit_sended response_4xx)
quit_sended_entries response_5xx = (closed_connection, do_quit_sended response_5xx)
quit_sended_entries _ = (invalid, exit_invalid)

unfoldable pub closed_connection_entries : FsmEvent → FsmTransition
unfolding exit_invalid do_close_connection do_closed_connection
closed_connection_entries none_ev = (closed_connection, do_closed_connection none_ev)
closed_connection_entries close_connection =
    (closed_connection, do_close_connection closed_connection)
closed_connection_entries _ = (invalid, exit_invalid)

unfoldable pub client_fsm_trans_table : FsmState → FsmEvent → FsmTransition
unfolding init_entries sending_hello_entries hello_sended_entries sending_ehlo_entries
    ehlo_sended_entries get_next_message_and_sending_mail_or_quit_entries
    sending_mail_or_quit_entries mail_sended_entries sending_rcpt_or_data_entries
    rcpt_sended_entries data_sended_entries rset_sended_entries sending_msg_text_or_end_msg_entries
    msg_text_sended_entries end_data_sended_entries sending_quit_entries quit_sended_entries
    closed_connection_entries
client_fsm_trans_table init evt = init_entries evt
client_fsm_trans_table sending_hello evt = sending_hello_entries evt
client_fsm_trans_table hello_sended evt = hello_sended_entries evt
client_fsm_trans_table sending_ehlo evt = sending_ehlo_entries evt
client_fsm_trans_table ehlo_sended evt = ehlo_sended_entries evt
client_fsm_trans_table get_next_message_and_sending_mail_or_quit evt =
    get_next_message_and_sending_mail_or_quit_entries evt
client_fsm_trans_table sending_mail_or_quit evt = sending_mail_or_quit_entries evt
client_fsm_trans_table mail_sended evt = mail_sended_entries evt
client_fsm_trans_table sending_rcpt_or_data evt = sending_rcpt_or_data_entries evt
client_fsm_trans_table rcpt_sended evt = rcpt_sended_entries evt
client_fsm_trans_table data_sended evt = data_sended_entries evt
client_fsm_trans_table rset_sended evt = rset_sended_entries evt
client_fsm_trans_table sending_msg_text_or_end_msg evt = sending_msg_text_or_end_msg_entries evt
client_fsm_trans_table msg_text_sended evt = msg_text_sended_entries evt
client_fsm_trans_table end_data_sended evt = end_data_sended_entries evt
client_fsm_trans_table sending_quit evt = sending_quit_entries evt
client_fsm_trans_table quit_sended evt = quit_sended_entries evt
client_fsm_trans_table closed_connection evt = closed_connection_entries evt
client_fsm_trans_table invalid evt = (invalid, exit_invalid)
client_fsm_trans_table done evt = (invalid, exit_invalid)
