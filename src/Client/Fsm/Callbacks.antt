-- ===== src/Client/Fsm/Callbacks.antt =====
-- client/src/client-fsm.c: the callbacks. Every one but client_fsm_do_invalid is
-- `return maybe_next;`. The result `none` is that the process has ended.
use pvs_kp.Base.{Option, none, some}
use pvs_kp.Client.Fsm.State.{FsmState, FsmEvent}

-- client_fsm_callback_t: the arguments initial, maybe_next, trans_evt.
abbrev pub FsmCallback : Type 0
FsmCallback = FsmState → FsmState → FsmEvent → Option FsmState

unfoldable pub keep_next : FsmCallback
keep_next initial maybe_next evt = some maybe_next

-- exit(EXIT_FAILURE), after a message on stderr.
unfoldable pub exit_invalid : FsmCallback
exit_invalid initial maybe_next evt = none

-- client_fsm_do_S_close_connection, for each state S.
unfoldable pub do_close_connection : FsmState → FsmCallback
unfolding keep_next
do_close_connection state = keep_next

-- client_fsm_do_S_E for the events E that the state S has, a function for each state.
unfoldable pub do_init : FsmEvent → FsmCallback
unfolding keep_next
do_init evt = keep_next

unfoldable pub do_sending_hello : FsmEvent → FsmCallback
unfolding keep_next
do_sending_hello evt = keep_next

unfoldable pub do_hello_sended : FsmEvent → FsmCallback
unfolding keep_next
do_hello_sended evt = keep_next

unfoldable pub do_sending_ehlo : FsmEvent → FsmCallback
unfolding keep_next
do_sending_ehlo evt = keep_next

unfoldable pub do_ehlo_sended : FsmEvent → FsmCallback
unfolding keep_next
do_ehlo_sended evt = keep_next

unfoldable pub do_get_next_message_and_sending_mail_or_quit : FsmEvent → FsmCallback
unfolding keep_next
do_get_next_message_and_sending_mail_or_quit evt = keep_next

unfoldable pub do_sending_mail_or_quit : FsmEvent → FsmCallback
unfolding keep_next
do_sending_mail_or_quit evt = keep_next

unfoldable pub do_mail_sended : FsmEvent → FsmCallback
unfolding keep_next
do_mail_sended evt = keep_next

unfoldable pub do_sending_rcpt_or_data : FsmEvent → FsmCallback
unfolding keep_next
do_sending_rcpt_or_data evt = keep_next

unfoldable pub do_rcpt_sended : FsmEvent → FsmCallback
unfolding keep_next
do_rcpt_sended evt = keep_next

unfoldable pub do_data_sended : FsmEvent → FsmCallback
unfolding keep_next
do_data_sended evt = keep_next

unfoldable pub do_rset_sended : FsmEvent → FsmCallback
unfolding keep_next
do_rset_sended evt = keep_next

unfoldable pub do_sending_msg_text_or_end_msg : FsmEvent → FsmCallback
unfolding keep_next
do_sending_msg_text_or_end_msg evt = keep_next

unfoldable pub do_msg_text_sended : FsmEvent → FsmCallback
unfolding keep_next
do_msg_text_sended evt = keep_next

unfoldable pub do_end_data_sended : FsmEvent → FsmCallback
unfolding keep_next
do_end_data_sended evt = keep_next

unfoldable pub do_quit_sended : FsmEvent → FsmCallback
unfolding keep_next
do_quit_sended evt = keep_next

unfoldable pub do_closed_connection : FsmEvent → FsmCallback
unfolding keep_next
do_closed_connection evt = keep_next
