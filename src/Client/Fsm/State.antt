-- ===== src/Client/Fsm/State.antt =====
-- client/include/client-fsm.h: the states and the events of the relaying client.
use pvs_kp.Base.{Bool, true, false}

-- te_client_fsm_state.
pub data FsmState : Type 0 where
  init sending_hello hello_sended sending_ehlo ehlo_sended get_next_message_and_sending_mail_or_quit
        sending_mail_or_quit mail_sended sending_rcpt_or_data rcpt_sended data_sended rset_sended
        sending_msg_text_or_end_msg msg_text_sended end_data_sended sending_quit quit_sended
        closed_connection invalid done :
      FsmState

-- te_client_fsm_event. `invalid_ev` stands for every number out of range.
pub data FsmEvent : Type 0 where
  none_ev close_connection response_2xx response_3xx response_4xx response_502 response_5xx hello
        ehlo mail rset rcpt data_ev msg_text end_data quit invalid_ev :
      FsmEvent

-- The states that have a row in the table.
abbrev pub is_row : FsmState → Bool
is_row invalid = false
is_row done = false
is_row _ = true
