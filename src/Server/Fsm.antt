-- ===== src/Server/Fsm.antt =====
-- server/src/client-fsm.c: `client_step`, one step of the protocol machine of a connection.
pub mod Graph
pub mod Effects
pub mod Invariant
pub mod Replies
use pvs_kp.Server.State.{
  State, init, wait_hello_or_ehlo, hello_received, ehlo_received, client_inited, mail_received,
  expected_rcpt_or_data, rcpt_received, data_received, expected_msg_text_or_end_msg,
  end_data_received, quit_received, rset_received, vrfy_received, timeout, shutdown, invalid, done,
  Event, invalid_ev,
}
use pvs_kp.Server.SmtpCmd.{MatchInfo}
use pvs_kp.Server.Client.{Conn, Env}
use pvs_kp.Server.Callbacks.{do_invalid}
use pvs_kp.Server.Table.{
  Transition, init_row, wait_hello_or_ehlo_row, hello_received_row, ehlo_received_row,
  client_inited_row, mail_received_row, expected_rcpt_or_data_row, rcpt_received_row,
  data_received_row, expected_msg_text_or_end_msg_row, end_data_received_row, quit_received_row,
  rset_received_row, vrfy_received_row, timeout_row, shutdown_row,
}

-- The table, and the entry that an event out of range has in every row. The table has no rows for
-- the two terminal states.
unfoldable pub client_trans_table : State → Event → Transition
unfolding init_row wait_hello_or_ehlo_row hello_received_row ehlo_received_row client_inited_row
    mail_received_row expected_rcpt_or_data_row rcpt_received_row data_received_row
    expected_msg_text_or_end_msg_row end_data_received_row quit_received_row rset_received_row
    vrfy_received_row timeout_row shutdown_row
client_trans_table init evt = init_row evt
client_trans_table wait_hello_or_ehlo evt = wait_hello_or_ehlo_row evt
client_trans_table hello_received evt = hello_received_row evt
client_trans_table ehlo_received evt = ehlo_received_row evt
client_trans_table client_inited evt = client_inited_row evt
client_trans_table mail_received evt = mail_received_row evt
client_trans_table expected_rcpt_or_data evt = expected_rcpt_or_data_row evt
client_trans_table rcpt_received evt = rcpt_received_row evt
client_trans_table data_received evt = data_received_row evt
client_trans_table expected_msg_text_or_end_msg evt = expected_msg_text_or_end_msg_row evt
client_trans_table end_data_received evt = end_data_received_row evt
client_trans_table quit_received evt = quit_received_row evt
client_trans_table rset_received evt = rset_received_row evt
client_trans_table vrfy_received evt = vrfy_received_row evt
client_trans_table timeout evt = timeout_row evt
client_trans_table shutdown evt = shutdown_row evt
client_trans_table invalid evt = (invalid, do_invalid)
client_trans_table done evt = (invalid, do_invalid)

-- The lookup and the call of the callback, in a state below CLIENT_ST_INVALID.
unfoldable pub transition : Env → State → Event → Conn → MatchInfo → Conn × State
unfolding client_trans_table do_invalid
transition env state invalid_ev x mi = do_invalid env x mi state invalid invalid_ev
transition env state evt x mi =
    let (next, trans_proc) = client_trans_table state evt in trans_proc env x mi state next evt

-- The connection and the state that is returned. `current_state` is set by the caller.
unfoldable pub client_step : Env → State → Event → Conn → MatchInfo → Conn × State
unfolding transition
client_step env invalid evt x mi = (x, init)
client_step env done evt x mi = (x, init)
client_step env state evt x mi = transition env state evt x mi
