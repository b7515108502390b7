-- ===== src/Client/Connection/Generate.antt =====
-- client/src/SMTP_connection.c: generate_event, round its switch.
use mathlib.Core.Option
use pvs_kp.Base.{ℕ, not, Option, none, some, crlf, if◌then◌else◌}
use pvs_kp.Client.Memory.{Memory}
use pvs_kp.Client.MString.{MString, string_init2}
use pvs_kp.Client.Peer.{add_message}
use pvs_kp.Client.Fsm.State.{FsmState, closed_connection, FsmEvent, none_ev, close_connection}
use pvs_kp.Client.Connection.{
  SmtpConnection, System, can_reconnect_now, has_more_connection_attempts, smtp_connection_reinit,
}
use pvs_kp.Client.Connection.Switch.{Switched, chosen, returned, switch, undefined_}

abbrev pub Generated : Type 0
Generated = SmtpConnection × FsmEvent × Memory

-- Behind the switch: the command goes to the peer, and the end of line, if it is NULL, is used.
abbrev pub finish : Option MString → Switched → Option Generated
finish endline undefined_ = none
finish endline (returned conn event mem) = some (conn, event, mem)
finish none (chosen conn command event mem) = none
finish (some endline) (chosen conn none event mem) =
    some (record conn { last_event = event }, event, mem)
finish (some endline) (chosen conn (some command) event mem) =
    Option.map (λ r. (record conn { peer = r.0; last_event = event }, event, r.2))
      (add_message conn.peer command none mem)

unfoldable pub generate_switched : System → SmtpConnection → Memory → Option Generated
unfolding switch add_message string_init2
generate_switched system conn mem =
    let (endline, mem1) = string_init2 crlf 2 mem in
    finish endline (switch system endline conn conn.state mem1)

-- With no descriptor the connection is made anew, when its time has come.
unfoldable pub generate_connected : System → SmtpConnection → Option ℕ → Memory → Option Generated
unfolding generate_switched smtp_connection_reinit can_reconnect_now has_more_connection_attempts
generate_connected system conn (some fd) mem = generate_switched system conn mem
generate_connected system conn none mem =
    if not (has_more_connection_attempts conn)
    then some (conn, close_connection, mem)
    else if can_reconnect_now system conn
    then generate_switched system (smtp_connection_reinit system conn) mem
    else generate_switched system conn mem

unfoldable pub generate_in : System → SmtpConnection → FsmState → Memory → Option Generated
unfolding generate_connected
generate_in system conn closed_connection mem = some (conn, none_ev, mem)
generate_in system conn _ mem = generate_connected system conn conn.peer.fd mem

unfoldable pub generate_event : System → SmtpConnection → Memory → Option Generated
unfolding generate_in
generate_event system conn mem = generate_in system conn conn.state mem
