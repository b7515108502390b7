-- ===== src/Server/State.antt =====
-- server/include/client-fsm.h: the states and the events of the server's protocol machine.
use pvs_kp.Base.{Bool, true, false}

pub data State : Type 0 where
  init wait_hello_or_ehlo hello_received ehlo_received client_inited mail_received
        expected_rcpt_or_data rcpt_received data_received expected_msg_text_or_end_msg
        end_data_received quit_received rset_received vrfy_received timeout shutdown invalid done :
      State

-- CLIENT_EV_DATA, _TIMEOUT, _SHUTDOWN and _INVALID carry `_ev`, as the states' names are taken.
pub data Event : Type 0 where
  response ehlo helo mail rcpt data_ev msg_text end_data rset quit vrfy timeout_ev shutdown_ev
        unknown invalid_ev :
      Event

pub State-discrete : Discrete State
State-discrete = hlevel

-- state < CLIENT_ST_INVALID, the rows of the transition table
abbrev pub is_row : State → Bool
is_row invalid = false
is_row done = false
is_row _ = true
