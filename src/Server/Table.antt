-- ===== src/Server/Table.antt =====
-- server/src/client-fsm.c: `client_trans_table`, a function for each row. The last clause of each
-- stands for the entries { CLIENT_ST_INVALID, client_do_invalid }.
use pvs_kp.Server.State.{
  State, wait_hello_or_ehlo, hello_received, ehlo_received, client_inited, mail_received,
  expected_rcpt_or_data, rcpt_received, data_received, expected_msg_text_or_end_msg,
  end_data_received, quit_received, rset_received, vrfy_received, timeout, invalid, done, Event,
  response, ehlo, helo, mail, rcpt, data_ev, msg_text, end_data, rset, quit, vrfy, timeout_ev,
  shutdown_ev, unknown,
}
use pvs_kp.Server.Stars.{
  Callback, star_init, star_wait_hello_or_ehlo, star_hello_received, star_ehlo_received,
  star_client_inited, star_mail_received, star_expected_rcpt_or_data, star_rcpt_received,
  star_data_received, star_expected_msg_text_or_end_msg, star_end_data_received, star_quit_received,
  star_rset_received, star_vrfy_received, star_timeout, star_shutdown,
}
use pvs_kp.Server.Callbacks.{
  do_client_inited_mail, do_client_inited_rset, do_client_inited_vrfy, do_data_received_response,
  do_ehlo_received_response, do_end_data_received_response,
  do_expected_msg_text_or_end_msg_end_data, do_expected_msg_text_or_end_msg_msg_text,
  do_expected_rcpt_or_data_data, do_expected_rcpt_or_data_rcpt, do_hello_received_response,
  do_init_response, do_mail_received_response, do_quit_received_response, do_rcpt_received_response,
  do_rset_received_response, do_shutdown_response, do_timeout_response, do_vrfy_received_response,
  do_wait_hello_or_ehlo_ehlo, do_wait_hello_or_ehlo_helo, do_invalid,
}

-- struct transition: the next state and the callback.
abbrev pub Transition : Type 0
Transition = State × Callback

unfoldable pub init_row : Event → Transition
unfolding star_init do_init_response do_invalid
init_row response = (wait_hello_or_ehlo, do_init_response)
init_row quit = (quit_received, star_init quit)
init_row timeout_ev = (timeout, star_init timeout_ev)
init_row shutdown_ev = (timeout, star_init shutdown_ev)
init_row unknown = (invalid, star_init unknown)
init_row _ = (invalid, do_invalid)

unfoldable pub wait_hello_or_ehlo_row : Event → Transition
unfolding star_wait_hello_or_ehlo do_wait_hello_or_ehlo_ehlo do_wait_hello_or_ehlo_helo do_invalid
wait_hello_or_ehlo_row ehlo = (ehlo_received, do_wait_hello_or_ehlo_ehlo)
wait_hello_or_ehlo_row helo = (hello_received, do_wait_hello_or_ehlo_helo)
wait_hello_or_ehlo_row quit = (quit_received, star_wait_hello_or_ehlo quit)
wait_hello_or_ehlo_row timeout_ev = (timeout, star_wait_hello_or_ehlo timeout_ev)
wait_hello_or_ehlo_row shutdown_ev = (timeout, star_wait_hello_or_ehlo shutdown_ev)
wait_hello_or_ehlo_row unknown = (invalid, star_wait_hello_or_ehlo unknown)
wait_hello_or_ehlo_row _ = (invalid, do_invalid)

unfoldable pub hello_received_row : Event → Transition
unfolding star_hello_received do_hello_received_response do_invalid
hello_received_row response = (client_inited, do_hello_received_response)
hello_received_row quit = (quit_received, star_hello_received quit)
hello_received_row timeout_ev = (timeout, star_hello_received timeout_ev)
hello_received_row shutdown_ev = (timeout, star_hello_received shutdown_ev)
hello_received_row unknown = (invalid, star_hello_received unknown)
hello_received_row _ = (invalid, do_invalid)

unfoldable pub ehlo_received_row : Event → Transition
unfolding star_ehlo_received do_ehlo_received_response do_invalid
ehlo_received_row response = (client_inited, do_ehlo_received_response)
ehlo_received_row quit = (quit_received, star_ehlo_received quit)
ehlo_received_row timeout_ev = (timeout, star_ehlo_received timeout_ev)
ehlo_received_row shutdown_ev = (timeout, star_ehlo_received shutdown_ev)
ehlo_received_row unknown = (invalid, star_ehlo_received unknown)
ehlo_received_row _ = (invalid, do_invalid)

unfoldable pub client_inited_row : Event → Transition
unfolding star_client_inited do_client_inited_mail do_client_inited_rset do_client_inited_vrfy
    do_invalid
client_inited_row mail = (mail_received, do_client_inited_mail)
client_inited_row rset = (rset_received, do_client_inited_rset)
client_inited_row quit = (quit_received, star_client_inited quit)
client_inited_row vrfy = (vrfy_received, do_client_inited_vrfy)
client_inited_row timeout_ev = (timeout, star_client_inited timeout_ev)
client_inited_row shutdown_ev = (timeout, star_client_inited shutdown_ev)
client_inited_row unknown = (invalid, star_client_inited unknown)
client_inited_row _ = (invalid, do_invalid)

unfoldable pub mail_received_row : Event → Transition
unfolding star_mail_received do_mail_received_response do_invalid
mail_received_row response = (expected_rcpt_or_data, do_mail_received_response)
mail_received_row quit = (quit_received, star_mail_received quit)
mail_received_row timeout_ev = (timeout, star_mail_received timeout_ev)
mail_received_row shutdown_ev = (timeout, star_mail_received shutdown_ev)
mail_received_row unknown = (invalid, star_mail_received unknown)
mail_received_row _ = (invalid, do_invalid)

unfoldable pub expected_rcpt_or_data_row : Event → Transition
unfolding star_expected_rcpt_or_data do_expected_rcpt_or_data_rcpt do_expected_rcpt_or_data_data
    do_invalid
expected_rcpt_or_data_row rcpt = (rcpt_received, do_expected_rcpt_or_data_rcpt)
expected_rcpt_or_data_row data_ev = (data_received, do_expected_rcpt_or_data_data)
expected_rcpt_or_data_row quit = (quit_received, star_expected_rcpt_or_data quit)
expected_rcpt_or_data_row timeout_ev = (timeout, star_expected_rcpt_or_data timeout_ev)
expected_rcpt_or_data_row shutdown_ev = (timeout, star_expected_rcpt_or_data shutdown_ev)
expected_rcpt_or_data_row unknown = (invalid, star_expected_rcpt_or_data unknown)
expected_rcpt_or_data_row _ = (invalid, do_invalid)

unfoldable pub rcpt_received_row : Event → Transition
unfolding star_rcpt_received do_rcpt_received_response do_invalid
rcpt_received_row response = (expected_rcpt_or_data, do_rcpt_received_response)
rcpt_received_row quit = (quit_received, star_rcpt_received quit)
rcpt_received_row timeout_ev = (timeout, star_rcpt_received timeout_ev)
rcpt_received_row shutdown_ev = (timeout, star_rcpt_received shutdown_ev)
rcpt_received_row unknown = (invalid, star_rcpt_received unknown)
rcpt_received_row _ = (invalid, do_invalid)

unfoldable pub data_received_row : Event → Transition
unfolding star_data_received do_data_received_response do_invalid
data_received_row response = (expected_msg_text_or_end_msg, do_data_received_response)
data_received_row quit = (quit_received, star_data_received quit)
data_received_row timeout_ev = (timeout, star_data_received timeout_ev)
data_received_row shutdown_ev = (timeout, star_data_received shutdown_ev)
data_received_row unknown = (invalid, star_data_received unknown)
data_received_row _ = (invalid, do_invalid)

unfoldable pub expected_msg_text_or_end_msg_row : Event → Transition
unfolding star_expected_msg_text_or_end_msg do_expected_msg_text_or_end_msg_msg_text
    do_expected_msg_text_or_end_msg_end_data do_invalid
expected_msg_text_or_end_msg_row msg_text =
    (expected_msg_text_or_end_msg, do_expected_msg_text_or_end_msg_msg_text)
expected_msg_text_or_end_msg_row end_data =
    (end_data_received, do_expected_msg_text_or_end_msg_end_data)
expected_msg_text_or_end_msg_row quit = (quit_received, star_expected_msg_text_or_end_msg quit)
expected_msg_text_or_end_msg_row timeout_ev =
    (timeout, star_expected_msg_text_or_end_msg timeout_ev)
expected_msg_text_or_end_msg_row shutdown_ev =
    (timeout, star_expected_msg_text_or_end_msg shutdown_ev)
expected_msg_text_or_end_msg_row unknown = (invalid, star_expected_msg_text_or_end_msg unknown)
expected_msg_text_or_end_msg_row _ = (invalid, do_invalid)

unfoldable pub end_data_received_row : Event → Transition
unfolding star_end_data_received do_end_data_received_response do_invalid
end_data_received_row response = (client_inited, do_end_data_received_response)
end_data_received_row quit = (quit_received, star_end_data_received quit)
end_data_received_row timeout_ev = (timeout, star_end_data_received timeout_ev)
end_data_received_row shutdown_ev = (timeout, star_end_data_received shutdown_ev)
end_data_received_row unknown = (invalid, star_end_data_received unknown)
end_data_received_row _ = (invalid, do_invalid)

unfoldable pub quit_received_row : Event → Transition
unfolding star_quit_received do_quit_received_response do_invalid
quit_received_row response = (done, do_quit_received_response)
quit_received_row quit = (quit_received, star_quit_received quit)
quit_received_row timeout_ev = (timeout, star_quit_received timeout_ev)
quit_received_row shutdown_ev = (timeout, star_quit_received shutdown_ev)
quit_received_row unknown = (invalid, star_quit_received unknown)
quit_received_row _ = (invalid, do_invalid)

unfoldable pub rset_received_row : Event → Transition
unfolding star_rset_received do_rset_received_response do_invalid
rset_received_row response = (client_inited, do_rset_received_response)
rset_received_row quit = (quit_received, star_rset_received quit)
rset_received_row timeout_ev = (timeout, star_rset_received timeout_ev)
rset_received_row shutdown_ev = (timeout, star_rset_received shutdown_ev)
rset_received_row unknown = (invalid, star_rset_received unknown)
rset_received_row _ = (invalid, do_invalid)

unfoldable pub vrfy_received_row : Event → Transition
unfolding star_vrfy_received do_vrfy_received_response do_invalid
vrfy_received_row response = (client_inited, do_vrfy_received_response)
vrfy_received_row quit = (quit_received, star_vrfy_received quit)
vrfy_received_row timeout_ev = (timeout, star_vrfy_received timeout_ev)
vrfy_received_row shutdown_ev = (timeout, star_vrfy_received shutdown_ev)
vrfy_received_row unknown = (invalid, star_vrfy_received unknown)
vrfy_received_row _ = (invalid, do_invalid)

unfoldable pub timeout_row : Event → Transition
unfolding star_timeout do_timeout_response do_invalid
timeout_row response = (done, do_timeout_response)
timeout_row quit = (quit_received, star_timeout quit)
timeout_row timeout_ev = (timeout, star_timeout timeout_ev)
timeout_row shutdown_ev = (timeout, star_timeout shutdown_ev)
timeout_row unknown = (invalid, star_timeout unknown)
timeout_row _ = (invalid, do_invalid)

unfoldable pub shutdown_row : Event → Transition
unfolding star_shutdown do_shutdown_response do_invalid
shutdown_row response = (done, do_shutdown_response)
shutdown_row quit = (quit_received, star_shutdown quit)
shutdown_row timeout_ev = (timeout, star_shutdown timeout_ev)
shutdown_row shutdown_ev = (timeout, star_shutdown shutdown_ev)
shutdown_row unknown = (invalid, star_shutdown unknown)
shutdown_row _ = (invalid, do_invalid)
