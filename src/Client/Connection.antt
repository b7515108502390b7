-- ===== src/Client/Connection.antt =====
-- client/src/SMTP_connection.c, client/include/SMTP_connection.h: a connection to a server, and how it
-- is made anew. What socket and connect give is a parameter, and so is the time, which stands still
-- within a call. The logs are left out.
pub mod Copy
pub mod Pushed
pub mod Reply
pub mod Switch
pub mod Generate
pub mod Turn
pub mod Steps
pub mod Says
pub mod Exits
pub mod Replies
pub mod Text
pub mod Expired
use mathlib.Core.Option
use pvs_kp.Base.{
  ℕ, zero, suc, ◌+◌, Bool, true, false, not, ◌&&◌, Option, none, some, List, [], ◌∷◌, crlf, ltb,
  ◌==◌, if◌then◌else◌,
}
use pvs_kp.Client.Memory.{Memory, Alloc}
use pvs_kp.Client.MString.{MString, string_init2, concat}
use pvs_kp.Client.Queue.{Queue, queue_pop_front, queue_peek, queue_is_empty}
use pvs_kp.Client.Peer.{Peer, add_message}
use pvs_kp.Client.Peer.Send.{bind}
use pvs_kp.Client.Message.{SmtpMessage, is_attempts_time_expired, can_start_attempt_now}
use pvs_kp.Client.Commands.{
  helo_command, ehlo_command, mailfrom_command, rcptto_command, rset_command, data_command,
  enddata_command, quit_command,
}
use pvs_kp.Client.Fsm.State.{
  FsmState, init, sending_hello, hello_sended, sending_ehlo, ehlo_sended,
  get_next_message_and_sending_mail_or_quit, sending_mail_or_quit, mail_sended,
  sending_rcpt_or_data, rcpt_sended, data_sended, rset_sended, sending_msg_text_or_end_msg,
  msg_text_sended, end_data_sended, quit_sended, closed_connection, FsmEvent, none_ev,
  close_connection, response_4xx, hello, ehlo, mail, rset, rcpt, data_ev, msg_text, end_data, quit,
}

-- AT_IPv4, AT_IPv6, AT_HOST.
pub data AddrType : Type 0 where
  at_ipv4 at_ipv6 at_host : AddrType

-- SMTP_connection_t.
pub record SmtpConnection : Type 0 where
  pub addr : List ℕ
  pub ip : Option MString
  pub ip_type : AddrType
  pub messages : Queue SmtpMessage
  pub state : FsmState
  pub last_event : FsmEvent
  pub peer : Peer
  pub current_rcpt : ℕ
  pub current_msg_line : ℕ
  pub current_connection_num : ℕ
  pub last_connection_time : ℕ
  pub max_connect_count : ℕ
  pub min_interval_between_connect : ℕ

-- What time says, what socket gives, whether connect succeeds at an address and a port, and the bytes
-- that stand behind the array `code` of parse_response_code.
pub record System : Type 0 where
  pub now : ℕ
  pub socket : Option ℕ
  pub connect : MString → ℕ → Bool
  pub behind : List ℕ

-- connect_server_ipv4 and connect_server_ipv6, which differ in the family of addresses; -1 is `none`.
unfoldable pub connect_server_ip : System → MString → ℕ → Option ℕ
connect_server_ip system ip port = if system.connect ip port then system.socket else none

unfoldable pub connect_server : System → Option MString → AddrType → Option ℕ
unfolding connect_server_ip
connect_server system none type_ = none
connect_server system (some ip) at_host = none
connect_server system (some ip) type_ = connect_server_ip system ip 25

unfoldable pub can_reconnect_now : System → SmtpConnection → Bool
can_reconnect_now system conn =
    ltb (conn.last_connection_time + conn.min_interval_between_connect) system.now

unfoldable pub has_more_connection_attempts : SmtpConnection → Bool
has_more_connection_attempts conn = ltb conn.current_connection_num conn.max_connect_count

unfoldable pub smtp_connection_reinit : System → SmtpConnection → SmtpConnection
unfolding connect_server
smtp_connection_reinit system conn = record conn {
  state = init;
  current_msg_line = 0;
  current_rcpt = 0;
  peer = record conn.peer { fd = connect_server system conn.ip conn.ip_type };
  current_connection_num = conn.current_connection_num + 1;
  last_connection_time = system.now;
}
