-- ===== src/Server/Callbacks.antt =====
-- server/src/client-fsm.c: the callbacks of the transitions that the protocol names.
use pvs_kp.Base.{Bool, not, ◌&&◌, ◌||◌, take, ◌==◌, if◌then◌else◌}
use pvs_kp.Server.ErrorCode.{ErrorCode, succeeded}
use pvs_kp.Server.State.{Event, response, unknown}
use pvs_kp.Server.Msg.{bytes}
use pvs_kp.Server.MailWriter.{is_ended}
use pvs_kp.Server.SmtpCmd.{smtp_cmd_get_substring}
use pvs_kp.Server.Client.{
  Client, Conn, Env, client_add_greating_info, client_add_mail_from, client_add_rcpt_to,
  client_add_msg_txt, client_data_end_process, success_answer, data_accepted_answer,
  not_implemented_answer, unknown_cmd_answer, bad_sequence_answer,
}
use pvs_kp.Server.Stars.{Callback, respond, return_maybe_next}

-- A function of client.c on the client of a connection, its result not looked at.
abbrev pub on_client : (Client → Client × ErrorCode) → Conn → Conn
on_client f x = record x { client = (f x.client).0 }

-- Whether printing the sender has read behind its buffer.
unfoldable pub overread : ErrorCode → Client → Bool
unfolding is_ended
overread code c = succeeded code && not (is_ended (bytes c.from.text))

-- `char buf[1000];` is not initialised: it holds `env.junk` where the copy fails.
unfoldable pub do_client_inited_mail : Callback
do_client_inited_mail env x mi initial maybe_next evt =
    let (buf, code) = smtp_cmd_get_substring mi 1 env.junk 1000 in
    let (client, set) = client_add_mail_from env x.client buf in
    let world = record x.world { faulted = x.world.faulted || overread set client } in
    let added : Conn = record { client = client; world = world } in
    (respond env (if succeeded code then added else x) success_answer, maybe_next)

unfoldable pub do_client_inited_rset : Callback
unfolding return_maybe_next
do_client_inited_rset = return_maybe_next

unfoldable pub do_client_inited_vrfy : Callback
do_client_inited_vrfy env x mi initial maybe_next evt =
    (respond env x not_implemented_answer, maybe_next)

unfoldable pub do_data_received_response : Callback
unfolding return_maybe_next
do_data_received_response = return_maybe_next

unfoldable pub do_ehlo_received_response : Callback
unfolding return_maybe_next
do_ehlo_received_response = return_maybe_next

unfoldable pub do_end_data_received_response : Callback
unfolding return_maybe_next
do_end_data_received_response = return_maybe_next

-- The text before the final dot is kept, and the mail is written.
unfoldable pub do_expected_msg_text_or_end_msg_end_data : Callback
do_expected_msg_text_or_end_msg_end_data env x mi initial maybe_next evt =
    let before = on_client (λ c. client_add_msg_txt env c (take mi.match_start mi.tested_line)) x in
    let kept = if mi.match_start == 0 then x else before in
    (respond env (client_data_end_process env kept).0 success_answer, maybe_next)

unfoldable pub do_expected_msg_text_or_end_msg_msg_text : Callback
do_expected_msg_text_or_end_msg_msg_text env x mi initial maybe_next evt =
    (on_client (λ c. client_add_msg_txt env c mi.tested_line) x, maybe_next)

unfoldable pub do_expected_rcpt_or_data_data : Callback
do_expected_rcpt_or_data_data env x mi initial maybe_next evt =
    (respond env x data_accepted_answer, maybe_next)

unfoldable pub do_expected_rcpt_or_data_rcpt : Callback
do_expected_rcpt_or_data_rcpt env x mi initial maybe_next evt =
    (respond env (on_client (λ c. client_add_rcpt_to env c mi) x) success_answer, maybe_next)

unfoldable pub do_hello_received_response : Callback
unfolding return_maybe_next
do_hello_received_response = return_maybe_next

unfoldable pub do_init_response : Callback
unfolding return_maybe_next
do_init_response = return_maybe_next

-- The reply to an event that has no transition. The log lines are left out.
invalid_answer : Event → Env → Conn → Conn
invalid_answer response env x = x
invalid_answer unknown env x = respond env x unknown_cmd_answer
invalid_answer _ env x = respond env x bad_sequence_answer

unfoldable pub do_invalid : Callback
unfolding invalid_answer
do_invalid env x mi initial maybe_next evt = (invalid_answer evt env x, initial)

unfoldable pub do_mail_received_response : Callback
unfolding return_maybe_next
do_mail_received_response = return_maybe_next

unfoldable pub do_quit_received_response : Callback
unfolding return_maybe_next
do_quit_received_response = return_maybe_next

unfoldable pub do_rcpt_received_response : Callback
unfolding return_maybe_next
do_rcpt_received_response = return_maybe_next

unfoldable pub do_rset_received_response : Callback
unfolding return_maybe_next
do_rset_received_response = return_maybe_next

unfoldable pub do_shutdown_response : Callback
unfolding return_maybe_next
do_shutdown_response = return_maybe_next

unfoldable pub do_timeout_response : Callback
unfolding return_maybe_next
do_timeout_response = return_maybe_next

unfoldable pub do_vrfy_received_response : Callback
unfolding return_maybe_next
do_vrfy_received_response = return_maybe_next

-- EHLO and HELO take the same group of their expression.
greet : Callback
greet env x mi initial maybe_next evt =
    let (buf, code) = smtp_cmd_get_substring mi 1 env.junk 1000 in
    let added = on_client (λ c. client_add_greating_info env c buf) x in
    (respond env (if succeeded code then added else x) success_answer, maybe_next)

unfoldable pub do_wait_hello_or_ehlo_ehlo : Callback
unfolding greet
do_wait_hello_or_ehlo_ehlo = greet

unfoldable pub do_wait_hello_or_ehlo_helo : Callback
unfolding greet
do_wait_hello_or_ehlo_helo = greet
