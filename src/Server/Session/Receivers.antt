-- ===== src/Server/Session/Receivers.antt =====
-- The receivers of a connection over a whole session.
use pvs_kp.Base.{
  ◌+◌, ◌-◌, ◌≤◌, ◌≡◌, inl, inr, refl, false, List, [], ◌∷◌, arith, length, Bool-cases, c_string,
  leb, size_t, size_mod, if◌then◌else◌,
}
use pvs_kp.Server.Msg.{bytes, msg_clean}
use pvs_kp.Server.State.{State, done, Event, response, timeout_ev, shutdown_ev}
use pvs_kp.Server.SmtpCmd.{MatchInfo, Pcre, no_match}
use pvs_kp.Server.Client.{Conn, Env, client_set_response}
use pvs_kp.Server.Fsm.{client_step}
use pvs_kp.Server.Fsm.Effects.{client_step-receivers}
use pvs_kp.Server.Session.{
  Action, step, say, recognise, recognise_text, act, in_text, set_state, close_if_done, terminate,
  client_process_recv, client_process_send, client_process_check_timeout, client_process_shutdown,
  Input, received, answered, checked, stopped, handle, run,
}

-- From `x` to `y` no receiver goes.
abbrev Later : Conn → Conn → Type 0
Later x y = length x.client.to ≤ length y.client.to

step-Later :
    (env : Env) (s : State) (e : Event) (x : Conn) (mi : MatchInfo)
    → Later x (client_step env s e x mi).0
step-Later env s e x mi = elim (client_step-receivers env s e x mi) [
  | inl same ↦ omega (arith, same)
  | inr (_, _, more) ↦ omega (arith, more)
]

act-Later : (env : Env) (x : Conn) (a : Action) → Later x (act env x a).0
unfolding act client_set_response
act-Later env x (step e mi) = step-Later env x.client.current_state e x mi
act-Later env x (say answer) = ground arith

close_alike : (s : State) (x : Conn) → (close_if_done s x).client.to ≡ x.client.to
close_alike done x = refl
close_alike s x = refl

handle-Later : (pcre : Pcre) (x : Conn) (input : Input) → Later x (handle pcre x input)
unfolding handle client_process_recv client_process_send client_process_check_timeout
    client_process_shutdown
handle-Later pcre x (received env msg) =
    let line = c_string (bytes (terminate msg).text) in
    act-Later env x
      (if in_text x.client.current_state then recognise_text pcre line else recognise pcre line)
handle-Later pcre x (answered env) =
    let c = x.client in
    let sent = record x {
      client = record c { need_send = false; msg_for_sending = msg_clean c.msg_for_sending };
    } in
    let r = client_step env c.current_state response sent no_match in
    rw (close_alike r.1 (set_state r)) (step-Later env c.current_state response sent no_match)
handle-Later pcre x (checked env limit) =
    elim (Bool-cases
      (leb (size_t (env.files.now + size_mod - x.client.timeout_start_time)) limit)) [
        | inl early ↦ rw early (omega arith)
        | inr late ↦ rw late (step-Later env x.client.current_state timeout_ev x no_match)
      ]
handle-Later pcre x (stopped env) = step-Later env x.client.current_state shutdown_ev x no_match

-- Over a whole session the number of receivers never falls, whatever is received, also when a new
-- mail is begun or the session is reset.
pub run-receivers :
    (pcre : Pcre) (x : Conn) (inputs : List Input)
    → length x.client.to ≤ length (run pcre x inputs).client.to
unfolding run
run-receivers pcre x [] = omega arith
run-receivers pcre x (input ∷ inputs) =
    omega (arith, handle-Later pcre x input, run-receivers pcre (handle pcre x input) inputs)
