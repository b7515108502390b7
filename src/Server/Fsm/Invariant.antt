-- ===== src/Server/Fsm/Invariant.antt =====
-- Every callback and every step of the protocol machine keeps the invariant of a connection.
use pvs_kp.Base.{
  ◌+◌, ◌<◌, arith, length, take, length-take_shorter, size_mod, ◌==◌, Bool-cases, inl, inr,
}
use pvs_kp.Server.ErrorCode.{succeeded}
use pvs_kp.Server.State.{
  State, init, wait_hello_or_ehlo, hello_received, ehlo_received, client_inited, mail_received,
  expected_rcpt_or_data, rcpt_received, data_received, expected_msg_text_or_end_msg,
  end_data_received, quit_received, rset_received, vrfy_received, timeout, shutdown, invalid, done,
  Event, response, invalid_ev,
}
use pvs_kp.Server.SmtpCmd.{MatchInfo, smtp_cmd_get_substring}
use pvs_kp.Server.Client.{Client, Conn, Env}
use pvs_kp.Server.Client.Valid.{
  IsValidClient, client_set_response-IsValid, client_add_greating_info-IsValid,
  client_add_msg_txt-IsValid, client_add_mail_from-IsValid, substring_short,
  client_add_rcpt_to-IsValid, client_data_end_process-IsValid,
}
use pvs_kp.Server.Stars.{Callback, return_maybe_next, say_bye}
use pvs_kp.Server.Callbacks.{
  do_client_inited_mail, do_client_inited_vrfy, do_expected_msg_text_or_end_msg_end_data,
  do_expected_msg_text_or_end_msg_msg_text, do_expected_rcpt_or_data_data,
  do_expected_rcpt_or_data_rcpt, do_invalid, do_wait_hello_or_ehlo_ehlo,
}
use pvs_kp.Server.Fsm.{client_trans_table, transition, client_step}

-- The sizes stay in size_t: what the step may append fits behind what there is.
pub record Fits (env : Env) (c : Client) (mi : MatchInfo) : Type 0 where
  pub greating : c.greating_info.size + 1050 < size_mod
  pub body : c.msg_text.size + length mi.tested_line + 50 < size_mod
  pub local_buffer : length env.junk < 1000
  pub domain : length c.mail_writer.domain + 51 < size_mod

record Keeps (f : Callback) : Type 0 where
  at :
      (env : Env) (x : Conn) (mi : MatchInfo) (s t : State) (e : Event)
      → IsValidClient x.client
      → Fits env x.client mi
      → IsValidClient (f env x mi s t e).0.client

Keeps-return : Keeps return_maybe_next
unfolding return_maybe_next
Keeps-return = record { at = λ env x mi s t e v fits. v }

Keeps-bye : Keeps say_bye
unfolding say_bye
Keeps-bye = record {
  at = λ env x mi s t e v fits. client_set_response-IsValid env x.client _ v (omega arith);
}

Keeps-mail : Keeps do_client_inited_mail
unfolding do_client_inited_mail
Keeps-mail = record {
  at = λ env x mi s t e v fits.
      let got = smtp_cmd_get_substring mi 1 env.junk 1000 in
      let short = substring_short env x.client mi 1 env.junk fits.local_buffer in
      elim (Bool-cases (succeeded got.1)) [
        | inl copied ↦ rw copied (
            client_set_response-IsValid env _ _
              (client_add_mail_from-IsValid env x.client got.0 v (omega arith)) (omega arith))
        | inr not_copied ↦
            rw not_copied (client_set_response-IsValid env x.client _ v (omega arith))
      ];
}

Keeps-greet : Keeps do_wait_hello_or_ehlo_ehlo
unfolding do_wait_hello_or_ehlo_ehlo
Keeps-greet = record {
  at = λ env x mi s t e v fits.
      let got = smtp_cmd_get_substring mi 1 env.junk 1000 in
      let short = substring_short env x.client mi 1 env.junk fits.local_buffer in
      elim (Bool-cases (succeeded got.1)) [
        | inl copied ↦ rw copied (
            client_set_response-IsValid env _ _
              (client_add_greating_info-IsValid env x.client got.0 v (omega (arith, fits.greating)))
              (omega arith))
        | inr not_copied ↦
            rw not_copied (client_set_response-IsValid env x.client _ v (omega arith))
      ];
}

Keeps-vrfy : Keeps do_client_inited_vrfy
unfolding do_client_inited_vrfy
Keeps-vrfy = record {
  at = λ env x mi s t e v fits. client_set_response-IsValid env x.client _ v (omega arith);
}

Keeps-data : Keeps do_expected_rcpt_or_data_data
unfolding do_expected_rcpt_or_data_data
Keeps-data = record {
  at = λ env x mi s t e v fits. client_set_response-IsValid env x.client _ v (omega arith);
}

Keeps-rcpt : Keeps do_expected_rcpt_or_data_rcpt
unfolding do_expected_rcpt_or_data_rcpt
Keeps-rcpt = record {
  at = λ env x mi s t e v fits.
      client_set_response-IsValid env _ _ (client_add_rcpt_to-IsValid env x.client mi v fits.domain)
        (omega arith);
}

Keeps-msg_text : Keeps do_expected_msg_text_or_end_msg_msg_text
unfolding do_expected_msg_text_or_end_msg_msg_text
Keeps-msg_text = record {
  at = λ env x mi s t e v fits. client_add_msg_txt-IsValid env x.client mi.tested_line v fits.body;
}

Keeps-end_data : Keeps do_expected_msg_text_or_end_msg_end_data
unfolding do_expected_msg_text_or_end_msg_end_data
Keeps-end_data = record {
  at = λ env x mi s t e v fits.
      let short = length-take_shorter mi.match_start mi.tested_line in
      let before = take mi.match_start mi.tested_line in
      let added = client_add_msg_txt-IsValid env x.client before v (omega (arith, fits.body)) in
      elim (Bool-cases (mi.match_start == 0)) [
        | inl nothing ↦ rw nothing (
            client_set_response-IsValid env _ _ (client_data_end_process-IsValid env _ v)
              (omega arith))
        | inr text ↦ rw text (
            client_set_response-IsValid env _ _ (client_data_end_process-IsValid env _ added)
              (omega arith))
      ];
}

Keeps-invalid : Keeps do_invalid
unfolding do_invalid
Keeps-invalid = record { at = invalid_at }
  where
    invalid_at :
        (env : Env) (x : Conn) (mi : MatchInfo) (s t : State) (e : Event)
        → IsValidClient x.client
        → Fits env x.client mi
        → IsValidClient (do_invalid env x mi s t e).0.client
    invalid_at env x mi s t response v fits = v
    invalid_at env x mi s t _ v fits = client_set_response-IsValid env x.client _ v (omega arith)

ruleset keep_rules = (
  Keeps-return, Keeps-bye, Keeps-mail, Keeps-greet, Keeps-vrfy, Keeps-data, Keeps-rcpt,
  Keeps-msg_text, Keeps-end_data, Keeps-invalid,
)

table-Keeps : (s : State) (e : Event) → Keeps (client_trans_table s e).1
unfolding client_trans_table
table-Keeps init response = search keep_rules
table-Keeps init _ = search keep_rules
table-Keeps wait_hello_or_ehlo response = search keep_rules
table-Keeps wait_hello_or_ehlo _ = search keep_rules
table-Keeps hello_received response = search keep_rules
table-Keeps hello_received _ = search keep_rules
table-Keeps ehlo_received response = search keep_rules
table-Keeps ehlo_received _ = search keep_rules
table-Keeps client_inited response = search keep_rules
table-Keeps client_inited _ = search keep_rules
table-Keeps mail_received response = search keep_rules
table-Keeps mail_received _ = search keep_rules
table-Keeps expected_rcpt_or_data response = search keep_rules
table-Keeps expected_rcpt_or_data _ = search keep_rules
table-Keeps rcpt_received response = search keep_rules
table-Keeps rcpt_received _ = search keep_rules
table-Keeps data_received response = search keep_rules
table-Keeps data_received _ = search keep_rules
table-Keeps expected_msg_text_or_end_msg response = search keep_rules
table-Keeps expected_msg_text_or_end_msg _ = search keep_rules
table-Keeps end_data_received response = search keep_rules
table-Keeps end_data_received _ = search keep_rules
table-Keeps quit_received response = search keep_rules
table-Keeps quit_received _ = search keep_rules
table-Keeps rset_received response = search keep_rules
table-Keeps rset_received _ = search keep_rules
table-Keeps vrfy_received response = search keep_rules
table-Keeps vrfy_received _ = search keep_rules
table-Keeps timeout response = search keep_rules
table-Keeps timeout _ = search keep_rules
table-Keeps shutdown response = search keep_rules
table-Keeps shutdown _ = search keep_rules
table-Keeps invalid response = search keep_rules
table-Keeps invalid _ = search keep_rules
table-Keeps done response = search keep_rules
table-Keeps done _ = search keep_rules

transition_keeps :
    (env : Env) (s : State) (e : Event) (x : Conn) (mi : MatchInfo)
    → IsValidClient x.client
    → Fits env x.client mi
    → IsValidClient (transition env s e x mi).0.client
unfolding transition
transition_keeps env s invalid_ev x mi v fits =
    Keeps-invalid.at env x mi s invalid invalid_ev v fits
transition_keeps env s e x mi v fits =
    (table-Keeps s e).at env x mi s (client_trans_table s e).0 e v fits

-- From a valid connection, while the sizes fit in size_t, every step of the machine, from every
-- state, on every event, whatever the allocator answers, leaves a valid connection: every buffer is
-- as long as recorded, its contents fit, and there are at most 100 receivers.
pub client_step-IsValid :
    (env : Env) (s : State) (e : Event) (x : Conn) (mi : MatchInfo)
    → IsValidClient x.client
    → Fits env x.client mi
    → IsValidClient (client_step env s e x mi).0.client
unfolding client_step
client_step-IsValid env invalid e x mi v fits = v
client_step-IsValid env done e x mi v fits = v
client_step-IsValid env s e x mi v fits = transition_keeps env s e x mi v fits
