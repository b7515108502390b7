-- ===== src/Server/Fsm/Replies.antt =====
-- Which steps of the protocol machine answer the client, and with what.
use pvs_kp.Base.{
  ℕ, ◌+◌, ◌<◌, ◌≡◌, refl, ap, ◌∙◌, true, false, Option, none, some, List, ◌++◌, arith, length,
  size_mod, Bool-cases, inl, inr, take,
}
use pvs_kp.Server.ErrorCode.{succeeded}
use pvs_kp.Server.Msg.{bytes, msg_clean}
use pvs_kp.Server.Msg.Content.{IsValid, content, msg_clean-IsValid, msg_add_text-Appended}
use pvs_kp.Server.State.{
  State, init, wait_hello_or_ehlo, hello_received, ehlo_received, client_inited, mail_received,
  expected_rcpt_or_data, rcpt_received, data_received, expected_msg_text_or_end_msg,
  end_data_received, quit_received, rset_received, vrfy_received, timeout, shutdown, invalid, done,
  Event, response, ehlo, helo, mail, rcpt, data_ev, msg_text, end_data, rset, quit, vrfy,
  timeout_ev, shutdown_ev, unknown, is_row,
}
use pvs_kp.Server.SmtpCmd.{MatchInfo, smtp_cmd_get_substring}
use pvs_kp.Server.Client.{
  Client, Conn, Env, client_set_response, client_add_greating_info, client_add_mail_from,
  client_add_rcpt_to, client_add_msg_txt, client_data_end_process, success_answer,
  data_accepted_answer, quit_success_answer, not_implemented_answer, bad_sequence_answer,
}
use pvs_kp.Server.Stars.{respond}
use pvs_kp.Server.Callbacks.{
  do_client_inited_mail, do_expected_msg_text_or_end_msg_end_data,
  do_expected_msg_text_or_end_msg_msg_text, do_expected_rcpt_or_data_rcpt,
  do_wait_hello_or_ehlo_ehlo,
}
use pvs_kp.Server.Fsm.{client_step}

-- The reply of each step, `none` where nothing is sent. A command out of order is answered by 503;
-- QUIT is answered in four states.
abbrev pub answer : State → Event → Option (List ℕ)
answer wait_hello_or_ehlo ehlo = some success_answer
answer wait_hello_or_ehlo helo = some success_answer
answer client_inited mail = some success_answer
answer client_inited vrfy = some not_implemented_answer
answer client_inited rset = none
answer expected_rcpt_or_data rcpt = some success_answer
answer expected_rcpt_or_data data_ev = some data_accepted_answer
answer expected_msg_text_or_end_msg msg_text = none
answer expected_msg_text_or_end_msg end_data = some success_answer
answer ehlo_received quit = some quit_success_answer
answer client_inited quit = some quit_success_answer
answer expected_rcpt_or_data quit = some quit_success_answer
answer data_received quit = some quit_success_answer
answer _ quit = none
answer _ response = none
answer _ timeout_ev = none
answer _ shutdown_ev = none
answer _ unknown = none
answer _ _ = some bad_sequence_answer

-- `c'` is `c` with that answer waiting to be sent, or with what was waiting before.
abbrev pub Answers : Option (List ℕ) → Client → Client → Type 0
Answers none c c' = (c'.need_send ≡ c.need_send) × (c'.msg_for_sending ≡ c.msg_for_sending)
Answers (some a) c c' = (c'.need_send ≡ true) × (content c'.msg_for_sending ≡ a)

module _ (env : Env) (enough : (n : ℕ) → env.calloc n ≡ true) where
  client_set_response-Answers :
      (c d : Client) (a : List ℕ)
      → IsValid c.msg_for_sending
      → length a + 50 < size_mod
      → Answers (some a) d (client_set_response env c a).0
  unfolding client_set_response
  client_set_response-Answers c d a v small =
      let (cleaned, empty) = msg_clean-IsValid c.msg_for_sending v in
      let m = msg_clean c.msg_for_sending in
      elim (msg_add_text-Appended env.calloc m a cleaned (omega (arith, empty))) [
        | inl (code, added) ↦
            rw code (refl, added.contents ∙ ap (λ n. take n (bytes m.text) ++ a) empty)
        | inr (code, same, big, refused) ↦ cc (enough (m.size + length a + 50))
      ]

  -- A function of client.c that leaves the waiting answer alone, before the answer is set.
  after :
      (c d : Client) (a : List ℕ)
      → IsValid c.msg_for_sending
      → d.msg_for_sending ≡ c.msg_for_sending
      → length a + 50 < size_mod
      → Answers (some a) c (client_set_response env d a).0
  after c d a v same small = client_set_response-Answers d c a (rw same v) small

  module _ (x : Conn) (mi : MatchInfo) (s t : State) (e : Event)
      (v : IsValid x.client.msg_for_sending) where
    mail_answers :
        Answers (some success_answer) x.client (do_client_inited_mail env x mi s t e).0.client
    unfolding do_client_inited_mail client_add_mail_from
    mail_answers =
        let (buf, code) = smtp_cmd_get_substring mi 1 env.junk 1000 in
        elim (Bool-cases (succeeded code)) [
          | inl copied ↦ rw copied (after x.client _ success_answer v (ground arith) (omega arith))
          | inr not_copied ↦
              rw not_copied (after x.client x.client success_answer v refl (omega arith))
        ]

    greet_answers :
        Answers (some success_answer) x.client (do_wait_hello_or_ehlo_ehlo env x mi s t e).0.client
    unfolding do_wait_hello_or_ehlo_ehlo client_add_greating_info
    greet_answers =
        let (buf, code) = smtp_cmd_get_substring mi 1 env.junk 1000 in
        elim (Bool-cases (succeeded code)) [
          | inl copied ↦ rw copied (after x.client _ success_answer v (ground arith) (omega arith))
          | inr not_copied ↦
              rw not_copied (after x.client x.client success_answer v refl (omega arith))
        ]

    rcpt_answers :
        Answers
          (some success_answer)
          x.client
          (do_expected_rcpt_or_data_rcpt env x mi s t e).0.client
    unfolding do_expected_rcpt_or_data_rcpt client_add_rcpt_to
    rcpt_answers = after x.client _ success_answer v (ground arith) (omega arith)

    end_data_answers :
        Answers
          (some success_answer)
          x.client
          (do_expected_msg_text_or_end_msg_end_data env x mi s t e).0.client
    unfolding do_expected_msg_text_or_end_msg_end_data client_data_end_process client_add_msg_txt
    end_data_answers = after x.client _ success_answer v (ground arith) (omega arith)

    msg_text_answers :
        Answers none x.client (do_expected_msg_text_or_end_msg_msg_text env x mi s t e).0.client
    unfolding do_expected_msg_text_or_end_msg_msg_text client_add_msg_txt
    msg_text_answers = ground arith

module _ (env : Env) (enough : (n : ℕ) → env.calloc n ≡ true) where
  module _ (x : Conn) (v : IsValid x.client.msg_for_sending) where
    at_once :
        (a : List ℕ) → length a + 50 < size_mod → Answers (some a) x.client (respond env x a).client
    at_once a small = client_set_response-Answers env enough x.client x.client a v small

    bad : Answers (some bad_sequence_answer) x.client (respond env x bad_sequence_answer).client
    bad = at_once bad_sequence_answer (omega arith)

    bye : Answers (some quit_success_answer) x.client (respond env x quit_success_answer).client
    bye = at_once quit_success_answer (omega arith)

    go_on : Answers (some data_accepted_answer) x.client (respond env x data_accepted_answer).client
    go_on = at_once data_accepted_answer (omega arith)

    no_vrfy :
        Answers (some not_implemented_answer) x.client (respond env x not_implemented_answer).client
    no_vrfy = at_once not_implemented_answer (omega arith)

  pub step-Answers :
      (s : State) (e : Event) (x : Conn) (mi : MatchInfo)
      → is_row s ≡ true
      → IsValid x.client.msg_for_sending
      → Answers (answer s e) x.client (client_step env s e x mi).0.client
  unfolding client_step
  step-Answers invalid e x mi h v = cc
  step-Answers done e x mi h v = cc
  step-Answers init response x mi h v = ground arith
  step-Answers init e x mi h v = ground (arith, bad x v)
  step-Answers wait_hello_or_ehlo ehlo x mi h v =
      greet_answers env enough x mi wait_hello_or_ehlo wait_hello_or_ehlo ehlo v
  step-Answers wait_hello_or_ehlo helo x mi h v =
      greet_answers env enough x mi wait_hello_or_ehlo wait_hello_or_ehlo helo v
  step-Answers wait_hello_or_ehlo e x mi h v = ground (arith, bad x v)
  step-Answers hello_received response x mi h v = ground arith
  step-Answers hello_received e x mi h v = ground (arith, bad x v)
  step-Answers ehlo_received response x mi h v = ground arith
  step-Answers ehlo_received e x mi h v = ground (arith, bad x v, bye x v)
  step-Answers client_inited mail x mi h v =
      mail_answers env enough x mi client_inited client_inited mail v
  step-Answers client_inited e x mi h v = ground (arith, bad x v, bye x v, no_vrfy x v)
  step-Answers mail_received response x mi h v = ground arith
  step-Answers mail_received e x mi h v = ground (arith, bad x v)
  step-Answers expected_rcpt_or_data rcpt x mi h v =
      rcpt_answers env enough x mi expected_rcpt_or_data expected_rcpt_or_data rcpt v
  step-Answers expected_rcpt_or_data e x mi h v = ground (arith, bad x v, bye x v, go_on x v)
  step-Answers rcpt_received response x mi h v = ground arith
  step-Answers rcpt_received e x mi h v = ground (arith, bad x v)
  step-Answers data_received response x mi h v = ground arith
  step-Answers data_received e x mi h v = ground (arith, bad x v, bye x v)
  step-Answers expected_msg_text_or_end_msg end_data x mi h v =
      end_data_answers env enough x mi expected_msg_text_or_end_msg expected_msg_text_or_end_msg
        end_data v
  step-Answers expected_msg_text_or_end_msg msg_text x mi h v =
      msg_text_answers env enough x mi expected_msg_text_or_end_msg expected_msg_text_or_end_msg
        msg_text v
  step-Answers expected_msg_text_or_end_msg e x mi h v = ground (arith, bad x v)
  step-Answers end_data_received response x mi h v = ground arith
  step-Answers end_data_received e x mi h v = ground (arith, bad x v)
  step-Answers quit_received response x mi h v = ground arith
  step-Answers quit_received e x mi h v = ground (arith, bad x v)
  step-Answers rset_received response x mi h v = ground arith
  step-Answers rset_received e x mi h v = ground (arith, bad x v)
  step-Answers vrfy_received response x mi h v = ground arith
  step-Answers vrfy_received e x mi h v = ground (arith, bad x v)
  step-Answers timeout response x mi h v = ground arith
  step-Answers timeout e x mi h v = ground (arith, bad x v)
  step-Answers shutdown response x mi h v = ground arith
  step-Answers shutdown e x mi h v = ground (arith, bad x v)

  -- Where the memory that is asked for is given and the step reads nothing outside of it, every step
  -- from the sixteen states of the table leaves exactly its answer in `answer` waiting, byte for
  -- byte, and leaves what was waiting where there is none. The connection's buffer for answers is
  -- valid.
  pub client_step-Answers :
      (s : State) (e : Event) (x : Conn) (mi : MatchInfo)
      → is_row s ≡ true
      → IsValid x.client.msg_for_sending
      → (client_step env s e x mi).0.world.faulted ≡ false
      → Answers (answer s e) x.client (client_step env s e x mi).0.client
  client_step-Answers s e x mi row v read = step-Answers s e x mi row v
