-- ===== src/Server/Session/States.antt =====
-- Which states a connection can come to, and how it is closed.
use pvs_kp.Base.{
  ◌≡◌, ◌⊎◌, ◌≢◌, ap, ◌∙◌, ◌↔◌, inl, inr, refl, Bool, true, false, some, List, [], ◌∷◌, arith, ℕ,
  ◌+◌, ◌-◌, Bool-cases, c_string, leb, size_t, size_mod,
}
use pvs_kp.Server.State.{
  State, init, quit_received, timeout, shutdown, invalid, done, Event, response, quit, unknown,
  invalid_ev, is_row, shutdown_ev, timeout_ev,
}
use pvs_kp.Server.SmtpCmd.{MatchInfo, Pcre, no_match}
use pvs_kp.Server.Msg.{Msg, bytes, msg_clean}
use pvs_kp.Server.Client.{
  quit_success_answer, Conn, Env, client_set_response, client_add_greating_info,
  client_add_mail_from, client_add_rcpt_to, client_add_msg_txt, client_data_end_process,
}
use pvs_kp.Server.Fsm.{client_step}
use mathlib.Core.Path.{subst}
use pvs_kp.Server.Msg.Content.{IsValid, content}
use pvs_kp.Server.Fsm.Replies.{answer, Answers, step-Answers}
use pvs_kp.Server.Fsm.Graph.{next, client_step-next}
use mathlib.Core.Option.{get_or}
use pvs_kp.Server.Session.{
  Action, step, say, recognise, recognise_text, act, client_process_recv, client_process_send,
  terminate, in_text, close_if_done, set_state, start_timeout, client_process_check_timeout,
  client_process_shutdown, Input, received, answered, checked, stopped, handle, run,
}

-- The states a connection is ever in: all but the mark of an error and the shutdown state.
abbrev pub served : State → Bool
served invalid = false
served shutdown = false
served _ = true

abbrev known : Event → Bool
known unknown = false
known invalid_ev = false
known _ = true

step_served :
    (env : Env) (s : State) (e : Event) (x : Conn) (mi : MatchInfo)
    → served s ≡ true
    → known e ≡ true
    → served (client_step env s e x mi).1 ≡ true
unfolding client_step
step_served env invalid e x mi h k = cc
step_served env init e x mi h k = ground arith
step_served env _ e x mi h k = ground arith

abbrev AsksKnown : Action → Type 0
AsksKnown (step e mi) = known e ≡ true
AsksKnown (say answer) = true ≡ true

recognise_known : (pcre : Pcre) (line : List ℕ) → AsksKnown (recognise pcre line)
unfolding recognise
recognise_known pcre line = ground arith

recognise_text_known : (pcre : Pcre) (line : List ℕ) → AsksKnown (recognise_text pcre line)
unfolding recognise_text
recognise_text_known pcre line = ground arith

act-served :
    (env : Env) (x : Conn) (a : Action)
    → served x.client.current_state ≡ true
    → AsksKnown a
    → served (act env x a).1 ≡ true
unfolding act
act-served env x (step e mi) h k = step_served env x.client.current_state e x mi h k
act-served env x (say answer) h k = h

close_keeps :
    (s : State) (x : Conn) → (close_if_done s x).client.current_state ≡ x.client.current_state
close_keeps done x = refl
close_keeps s x = ground arith

send_served :
    (env : Env) (x : Conn)
    → served x.client.current_state ≡ true
    → served (client_process_send env x).client.current_state ≡ true
unfolding client_process_send
send_served env x h =
    let c = x.client in
    let sent = record x {
      client = record c { need_send = false; msg_for_sending = msg_clean c.msg_for_sending };
    } in
    let r = client_step env c.current_state response sent no_match in
    rw (close_keeps r.1 (set_state r))
      (step_served env c.current_state response sent no_match h refl)

handle-served :
    (pcre : Pcre) (x : Conn) (input : Input)
    → served x.client.current_state ≡ true
    → served (handle pcre x input).client.current_state ≡ true
unfolding handle client_process_recv client_process_check_timeout client_process_shutdown
handle-served pcre x (received env msg) h =
    let text = recognise_text_known pcre (c_string (bytes (terminate msg).text)) in
    let command = recognise_known pcre (c_string (bytes (terminate msg).text)) in
    elim (Bool-cases (in_text x.client.current_state)) [
      | inl texts ↦
          rw texts
            (act-served env x (recognise_text pcre (c_string (bytes (terminate msg).text))) h text)
      | inr lines ↦
          rw lines
            (act-served env x (recognise pcre (c_string (bytes (terminate msg).text))) h command)
    ]
handle-served pcre x (answered env) h = send_served env x h
handle-served pcre x (checked env limit) h =
    elim (Bool-cases
      (leb (size_t (env.files.now + size_mod - x.client.timeout_start_time)) limit)) [
        | inl early ↦ rw early h
        | inr late ↦ rw late (step_served env x.client.current_state timeout_ev x no_match h refl)
      ]
handle-served pcre x (stopped env) h =
    step_served env x.client.current_state shutdown_ev x no_match h refl

-- Whatever arrives in whatever order, with whatever the expressions match and the allocator answers,
-- a connection never comes to the error state or to the shutdown state.
pub run-served :
    (pcre : Pcre) (x : Conn) (inputs : List Input)
    → served x.client.current_state ≡ true
    → served (run pcre x inputs).client.current_state ≡ true
unfolding run
run-served pcre x [] h = h
run-served pcre x (input ∷ inputs) h =
    run-served pcre (handle pcre x input) inputs (handle-served pcre x input h)

-- A connection that has quit, run out of time or been shut down.
abbrev pub ends : State → Bool
ends quit_received = true
ends timeout = true
ends shutdown = true
ends _ = false

step_closed :
    (env : Env) (s : State) (e : Event) (x : Conn) (mi : MatchInfo)
    → (client_step env s e x mi).0.client.closed ≡ x.client.closed
unfolding client_step client_set_response client_add_greating_info client_add_mail_from
    client_add_rcpt_to client_add_msg_txt client_data_end_process
step_closed env init e x mi = ground arith
step_closed env _ e x mi = ground arith

response_ends :
    (env : Env) (s : State) (x : Conn) (mi : MatchInfo)
    → let t = (client_step env s response x mi).1 in
      ((ends s ≡ true) × (t ≡ done)) ⊎ ((ends s ≡ false) × (t ≢ done))
unfolding client_step
response_ends env init x mi = ground arith
response_ends env _ x mi = ground arith

close_cases :
    (s : State) (x : Conn)
    → ((s ≡ done) × ((close_if_done s x).client.closed ≡ true))
      ⊎ ((s ≢ done) × ((close_if_done s x).client.closed ≡ x.client.closed))
close_cases done x = inl (refl, refl)
close_cases s x = inr (ground arith, refl)

-- Once an answer is sent, a connection is marked for closing exactly if it already was, or if it is
-- one that has quit, run out of time or been shut down.
pub client_process_send-closed :
    (env : Env) (x : Conn)
    → ((client_process_send env x).client.closed ≡ true)
      ↔ ((x.client.closed ≡ true) ⊎ (ends x.client.current_state ≡ true))
unfolding client_process_send
client_process_send-closed env x =
    let c = x.client in
    let sent = record x {
      client = record c { need_send = false; msg_for_sending = msg_clean c.msg_for_sending };
    } in
    let r = client_step env c.current_state response sent no_match in
    ground (
      arith,
      step_closed env c.current_state response sent no_match,
      response_ends env c.current_state sent no_match,
      close_cases r.1 (set_state r),
    )

-- The states where QUIT is answered lead to the one that has quit, and are not in a mail's text.
quit_next :
    (s : State)
    → answer s quit ≡ some quit_success_answer
    → (is_row s ≡ true) × (in_text s ≡ false) × (get_or (next s quit) s ≡ quit_received)
quit_next s h = ground arith

-- Where the memory that is asked for is given, in a state where QUIT is answered, a line that asks
-- to quit leaves exactly the answer of QUIT waiting to be sent, and once it is sent the
-- connection is closed.
pub run-quit :
    (pcre : Pcre) (env later : Env) (msg : Msg) (x : Conn) (mi : MatchInfo)
    → ((n : ℕ) → env.calloc n ≡ true)
    → IsValid x.client.msg_for_sending
    → answer x.client.current_state quit ≡ some quit_success_answer
    → recognise pcre (c_string (bytes (terminate msg).text)) ≡ step quit mi
    → let y = handle pcre x (received env msg) in
      (y.client.need_send ≡ true)
      × (content y.client.msg_for_sending ≡ quit_success_answer)
      × ((run pcre x (received env msg ∷ answered later ∷ [])).client.closed ≡ true)
unfolding run handle client_process_recv act
run-quit pcre env later msg x mi enough v answers asks =
    let s = x.client.current_state in
    let (row, command, goes_on) = quit_next s answers in
    let y = start_timeout env (set_state (client_step env s quit x mi)) in
    let goes : y.client.current_state ≡ quit_received =
      client_step-next env s quit x mi row ∙ goes_on in
    let z = (client_step env s quit x mi).0.client in
    let said : Answers (some quit_success_answer) x.client z =
      subst (λ a. Answers a x.client z) answers (step-Answers env enough s quit x mi row v) in
    rw command
      (rw asks (said.0, said.1, (client_process_send-closed later y).1 (inr (ap ends goes))))
