-- ===== src/Server/Stars.antt =====
-- server/src/client-fsm.c: the callbacks of the transitions that every state has, on QUIT, TIMEOUT,
-- SHUTDOWN and an unknown command. `star_s e` is `client_do_S_e` of the state S. A function that is
-- given `maybe_next` returns it, and four of them answer QUIT.
use pvs_kp.Base.{ℕ, List}
use pvs_kp.Server.State.{State, Event, quit}
use pvs_kp.Server.SmtpCmd.{MatchInfo}
use pvs_kp.Server.Client.{Conn, Env, client_set_response, quit_success_answer}

-- client_callback_t: the arguments client_ptr, match_info_ptr, initial, maybe_next, trans_evt.
abbrev pub Callback : Type 0
Callback = Env → Conn → MatchInfo → State → State → Event → Conn × State

-- client_set_response on the client of a connection; the callbacks do not look at its result.
abbrev pub respond : Env → Conn → List ℕ → Conn
respond env x answer = record x { client = (client_set_response env x.client answer).0 }

-- A body that is `return maybe_next;`.
unfoldable pub return_maybe_next : Callback
return_maybe_next env x mi initial maybe_next evt = (x, maybe_next)

-- A body that answers QUIT first.
unfoldable pub say_bye : Callback
say_bye env x mi initial maybe_next evt = (respond env x quit_success_answer, maybe_next)

unfoldable pub star_init : Event → Callback
unfolding return_maybe_next
star_init evt = return_maybe_next

unfoldable pub star_wait_hello_or_ehlo : Event → Callback
unfolding return_maybe_next
star_wait_hello_or_ehlo evt = return_maybe_next

unfoldable pub star_hello_received : Event → Callback
unfolding return_maybe_next
star_hello_received evt = return_maybe_next

unfoldable pub star_ehlo_received : Event → Callback
unfolding return_maybe_next say_bye
star_ehlo_received quit = say_bye
star_ehlo_received _ = return_maybe_next

unfoldable pub star_client_inited : Event → Callback
unfolding return_maybe_next say_bye
star_client_inited quit = say_bye
star_client_inited _ = return_maybe_next

unfoldable pub star_mail_received : Event → Callback
unfolding return_maybe_next
star_mail_received evt = return_maybe_next

unfoldable pub star_expected_rcpt_or_data : Event → Callback
unfolding return_maybe_next say_bye
star_expected_rcpt_or_data quit = say_bye
star_expected_rcpt_or_data _ = return_maybe_next

unfoldable pub star_rcpt_received : Event → Callback
unfolding return_maybe_next
star_rcpt_received evt = return_maybe_next

unfoldable pub star_data_received : Event → Callback
unfolding return_maybe_next say_bye
star_data_received quit = say_bye
star_data_received _ = return_maybe_next

unfoldable pub star_expected_msg_text_or_end_msg : Event → Callback
unfolding return_maybe_next
star_expected_msg_text_or_end_msg evt = return_maybe_next

unfoldable pub star_end_data_received : Event → Callback
unfolding return_maybe_next
star_end_data_received evt = return_maybe_next

unfoldable pub star_quit_received : Event → Callback
unfolding return_maybe_next
star_quit_received evt = return_maybe_next

unfoldable pub star_rset_received : Event → Callback
unfolding return_maybe_next
star_rset_received evt = return_maybe_next

unfoldable pub star_vrfy_received : Event → Callback
unfolding return_maybe_next
star_vrfy_received evt = return_maybe_next

unfoldable pub star_timeout : Event → Callback
unfolding return_maybe_next
star_timeout evt = return_maybe_next

unfoldable pub star_shutdown : Event → Callback
unfolding return_maybe_next
star_shutdown evt = return_maybe_next
