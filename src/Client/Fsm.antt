-- ===== src/Client/Fsm.antt =====
-- client/src/client-fsm.c: `client_fsm_step`, one step of the relaying client's protocol machine.
pub mod State
pub mod Callbacks
pub mod Table
pub mod Graph
use pvs_kp.Base.{Option, some}
use pvs_kp.Client.Fsm.State.{FsmState, init, invalid, done, FsmEvent, invalid_ev}
use pvs_kp.Client.Fsm.Callbacks.{exit_invalid}
use pvs_kp.Client.Fsm.Table.{client_fsm_trans_table}

-- The lookup and the call of the callback, in a state below CLIENT_FSM_ST_INVALID.
unfoldable pub fsm_transition : FsmState → FsmEvent → Option FsmState
unfolding client_fsm_trans_table exit_invalid
fsm_transition state invalid_ev = exit_invalid state invalid invalid_ev
fsm_transition state evt =
    let (next, trans_proc) = client_fsm_trans_table state evt in trans_proc state next evt

-- The state that is returned, `none` where the process ends.
unfoldable pub client_fsm_step : FsmState → FsmEvent → Option FsmState
unfolding fsm_transition
client_fsm_step invalid evt = some init
client_fsm_step done evt = some init
client_fsm_step state evt = fsm_transition state evt
