-- ===== src/Server/Fsm/Effects.antt =====
-- What the steps of the protocol machine do to the receivers and to the files.
use pvs_kp.Base.{
  ◌+◌, ◌≡◌, ◌⊎◌, inl, ap, ◌∙◌, [], ◌∷◌, arith, length, take, length-append, ◌==◌, if◌then◌else◌,
}
use pvs_kp.Server.State.{
  State, expected_rcpt_or_data, expected_msg_text_or_end_msg, Event, rcpt, end_data,
}
use pvs_kp.Server.SmtpCmd.{MatchInfo}
use pvs_kp.Server.MailWriter.{write_mail}
use pvs_kp.Server.MailWriter.Links.{write_mail-length}
use pvs_kp.Server.Client.{
  Client, Conn, Env, client_set_response, client_add_greating_info, client_add_mail_from,
  rcpt_entry, client_add_rcpt_to, client_add_msg_txt, client_data_end_process,
}
use pvs_kp.Server.Fsm.{client_step}

-- The end of the text hands write_mail the receivers that the connection has and the body.
pub client_step-end_data :
    (env : Env) (x : Conn) (mi : MatchInfo)
    → let c = x.client in
      let body =
        if mi.match_start == 0
        then c.msg_text
        else (client_add_msg_txt env c (take mi.match_start mi.tested_line)).0.msg_text in
      let (to, w, code) = write_mail env.files c.mail_writer c.to body x.world in
      let y = (client_step env expected_msg_text_or_end_msg end_data x mi).0 in
      (y.world ≡ w) × (y.client.to ≡ to)
unfolding client_step client_data_end_process client_add_msg_txt client_set_response
client_step-end_data env x mi = ground arith

length-add_rcpt_to :
    (env : Env) (c : Client) (mi : MatchInfo)
    → let c' = (client_add_rcpt_to env c mi).0 in
      (length c'.to ≡ length c.to) ⊎ (length c'.to ≡ length c.to + 1)
unfolding client_add_rcpt_to
length-add_rcpt_to env c mi = ground (arith, length-append c.to (rcpt_entry env c mi ∷ []))

-- No step takes a receiver away: their number stays, but for RCPT where it is expected, which may
-- add one. So a second mail of a session goes to the receivers of the first one too.
pub client_step-receivers :
    (env : Env) (s : State) (e : Event) (x : Conn) (mi : MatchInfo)
    → let n = length x.client.to in
      let n' = length (client_step env s e x mi).0.client.to in
      (n' ≡ n) ⊎ ((s ≡ expected_rcpt_or_data) × (e ≡ rcpt) × (n' ≡ n + 1))
unfolding client_step client_set_response client_add_greating_info client_add_mail_from
    client_add_msg_txt client_data_end_process
client_step-receivers env expected_rcpt_or_data e x mi =
    ground (arith, length-add_rcpt_to env x.client mi)
client_step-receivers env expected_msg_text_or_end_msg end_data x mi =
    let c = x.client in
    inl (
      ap length (client_step-end_data env x mi).1
      ∙ write_mail-length env.files c.mail_writer c.to _ x.world)
client_step-receivers env expected_msg_text_or_end_msg e x mi = ground arith
client_step-receivers env s e x mi = ground arith
