-- ===== src/Server/Fsm/Graph.antt =====
-- The transitions of server/src/client.def, and that server/src/client-fsm.c makes exactly those.
use pvs_kp.Base.{◌≡◌, true, arith, Option, none, some}
use mathlib.Core.Option.{get_or}
use pvs_kp.Server.State.{
  State, init, wait_hello_or_ehlo, hello_received, ehlo_received, client_inited, mail_received,
  expected_rcpt_or_data, rcpt_received, data_received, expected_msg_text_or_end_msg,
  end_data_received, quit_received, rset_received, vrfy_received, timeout, shutdown, invalid, done,
  Event, response, ehlo, helo, mail, rcpt, data_ev, msg_text, end_data, rset, quit, vrfy,
  timeout_ev, shutdown_ev, unknown, is_row,
}
use pvs_kp.Server.SmtpCmd.{MatchInfo}
use pvs_kp.Server.Client.{Conn, Env}
use pvs_kp.Server.Fsm.{client_step}

-- `transition` of client.def, its lines in their order, the four with tst = "*" last. `none` where
-- the file gives no transition.
abbrev pub next : State → Event → Option State
next invalid _ = none
next done _ = none
next init response = some wait_hello_or_ehlo
next wait_hello_or_ehlo ehlo = some ehlo_received
next ehlo_received response = some client_inited
next wait_hello_or_ehlo helo = some hello_received
next hello_received response = some client_inited
next client_inited mail = some mail_received
next mail_received response = some expected_rcpt_or_data
next expected_rcpt_or_data rcpt = some rcpt_received
next rcpt_received response = some expected_rcpt_or_data
next expected_rcpt_or_data data_ev = some data_received
next data_received response = some expected_msg_text_or_end_msg
next expected_msg_text_or_end_msg msg_text = some expected_msg_text_or_end_msg
next expected_msg_text_or_end_msg end_data = some end_data_received
next end_data_received response = some client_inited
next quit_received response = some done
next client_inited vrfy = some vrfy_received
next client_inited rset = some rset_received
next rset_received response = some client_inited
next vrfy_received response = some client_inited
next shutdown response = some done
next timeout response = some done
next _ quit = some quit_received
next _ timeout_ev = some timeout
next _ shutdown_ev = some timeout
next _ unknown = some invalid
next _ _ = none

-- From each of the sixteen states of the table, on every event and whatever else the callbacks do,
-- client_step returns the state that client.def names, and the same state where it names none.
pub client_step-next :
    (env : Env) (s : State) (e : Event) (x : Conn) (mi : MatchInfo)
    → is_row s ≡ true
    → (client_step env s e x mi).1 ≡ get_or (next s e) s
unfolding client_step
client_step-next env invalid e x mi h = cc
client_step-next env done e x mi h = cc
client_step-next env init e x mi h = ground arith
client_step-next env _ e x mi h = ground arith
