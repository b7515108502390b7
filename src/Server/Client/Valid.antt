-- ===== src/Server/Client/Valid.antt =====
-- The invariant of a connection's state, and that the functions of client.c keep it.
use pvs_kp.Base.{
  ◌&&◌, ℕ, ◌+◌, ◌≤◌, ◌<◌, List, [], ◌∷◌, ◌++◌, arith, length, All, All-append, length-append,
  length-take_le, snprintf, codes, crlf, size_mod, ◌==◌, Bool-cases, inl, inr,
}
use pvs_kp.Server.ErrorCode.{succeeded}
use pvs_kp.Server.Msg.{Msg, msg_add_text, msg_clean, msg_init}
use pvs_kp.Server.Msg.Content.{IsValid, msg_clean-IsValid, msg_init-IsValid, msg_add_text-Appended}
use pvs_kp.Server.SmtpCmd.{MatchInfo, smtp_cmd_get_substring}
use pvs_kp.Server.MailWriter.{text_of}
use pvs_kp.Server.MailWriter.Links.{ValidReceiver, write_mail-valid}
use pvs_kp.Server.Client.{
  Client, Conn, Env, rcpt_max, client_set_response, client_add_greating_info, client_add_msg_txt,
  client_add_mail_from, rcpt_parts, rcpt_entry, client_add_rcpt_to, client_data_end_process,
}

-- Every buffer of the connection is valid, and the array of receivers is not overrun.
pub record IsValidClient (c : Client) : Type 0 where
  pub greating : IsValid c.greating_info
  pub sending : IsValid c.msg_for_sending
  pub sender : IsValid c.from
  pub body : IsValid c.msg_text
  pub receivers : All ValidReceiver c.to
  pub room : length c.to ≤ rcpt_max

pub msg_add_text-IsValid :
    (env : Env) (msg : Msg) (buf : List ℕ)
    → IsValid msg
    → msg.size + length buf + 50 < size_mod
    → IsValid (msg_add_text env.calloc msg buf).0
msg_add_text-IsValid env msg buf v small = elim (msg_add_text-Appended env.calloc msg buf v small) [
  | inl (code, a) ↦ a.valid
  | inr (code, same, big, refused) ↦ rw same v
]

pub client_set_response-IsValid :
    (env : Env) (c : Client) (buf : List ℕ)
    → IsValidClient c
    → length buf + 50 < size_mod
    → IsValidClient (client_set_response env c buf).0
unfolding client_set_response
client_set_response-IsValid env c buf v small =
    let (cleaned, empty) = msg_clean-IsValid c.msg_for_sending v.sending in
    let added =
      msg_add_text-IsValid env (msg_clean c.msg_for_sending) buf cleaned (omega (arith, empty)) in
    ground (arith, added)

pub client_add_greating_info-IsValid :
    (env : Env) (c : Client) (buf : List ℕ)
    → IsValidClient c
    → c.greating_info.size + length buf + 50 < size_mod
    → IsValidClient (client_add_greating_info env c buf).0
unfolding client_add_greating_info
client_add_greating_info-IsValid env c buf v small =
    let added = msg_add_text-IsValid env c.greating_info buf v.greating small in
    ground (arith, added)

pub client_add_msg_txt-IsValid :
    (env : Env) (c : Client) (buf : List ℕ)
    → IsValidClient c
    → c.msg_text.size + length buf + 50 < size_mod
    → IsValidClient (client_add_msg_txt env c buf).0
unfolding client_add_msg_txt
client_add_msg_txt-IsValid env c buf v small =
    let added = msg_add_text-IsValid env c.msg_text buf v.body small in ground (arith, added)

pub client_add_mail_from-IsValid :
    (env : Env) (c : Client) (buf : List ℕ)
    → IsValidClient c
    → length buf + 50 < size_mod
    → IsValidClient (client_add_mail_from env c buf).0
unfolding client_add_mail_from
client_add_mail_from-IsValid env c buf v small =
    let (cleaned, empty) = msg_clean-IsValid c.from v.sender in
    let m = msg_add_text env.calloc (msg_clean c.from) buf in
    let added = msg_add_text-IsValid env (msg_clean c.from) buf cleaned (omega (arith, empty)) in
    let (body, no_body) = msg_clean-IsValid c.msg_text v.body in
    let x_from = snprintf 200 (codes "X-mysmtp-from: " ++ (text_of m.0 ++ crlf)) in
    let short = length-take_le 199 (codes "X-mysmtp-from: " ++ (text_of m.0 ++ crlf)) in
    let started =
      msg_add_text-IsValid env (msg_clean c.msg_text) x_from body (omega (arith, no_body, short)) in
    ground (arith, added, started)

-- The parts of a new receiver are shorter than this.
module _ (env : Env) (c : Client) (mi : MatchInfo) where
  pub substring_short :
      (i : ℕ) (buf : List ℕ)
      → length buf < 1000
      → length (smtp_cmd_get_substring mi i buf 1000).0 < 1000
  unfolding smtp_cmd_get_substring
  substring_short i buf h = ground arith

  rcpt_parts_short :
      length c.mail_writer.domain + 51 < size_mod
      → let (local, domain, type) = rcpt_parts env c mi in
        (length local + 50 < size_mod) × (length domain + 50 < size_mod)
  unfolding rcpt_parts
  rcpt_parts_short own =
      let (b9, _) = smtp_cmd_get_substring mi 9 [] 1000 in
      let h9 = substring_short 9 [] (omega arith) in
      let (b3, _) = smtp_cmd_get_substring mi 3 b9 1000 in
      let h3 = substring_short 3 b9 h9 in
      let h29 = substring_short 29 b3 h3 in
      let h47 = substring_short 47 [] (omega arith) in
      let (v4, _) = smtp_cmd_get_substring mi 47 [] 1000 in
      let h58 = substring_short 58 v4 h47 in
      let (v6, _) = smtp_cmd_get_substring mi 58 v4 1000 in
      let h38 = substring_short 38 v6 h58 in
      ground (arith, h9, h3, h29, h47, h58, h38, length-append c.mail_writer.domain (0 ∷ []))

  pub client_add_rcpt_to-IsValid :
      IsValidClient c
      → length c.mail_writer.domain + 51 < size_mod
      → IsValidClient (client_add_rcpt_to env c mi).0
  unfolding client_add_rcpt_to rcpt_entry
  client_add_rcpt_to-IsValid v own =
      let (local, domain, type) = rcpt_parts env c mi in
      let (short, short') = rcpt_parts_short own in
      let m = (msg_init env.calloc 50).0 in
      let (fresh, empty) = msg_init-IsValid env.calloc 50 in
      let local_valid = msg_add_text-IsValid env m local fresh (omega (arith, empty)) in
      let domain_valid = msg_add_text-IsValid env m domain fresh (omega (arith, empty)) in
      let all =
        All-append ValidReceiver c.to (rcpt_entry env c mi ∷ []) v.receivers
          ((local_valid, domain_valid), tt) in
      elim (Bool-cases (length c.to == rcpt_max)) [
        | inl full ↦ rw full v
        | inr some_room ↦
            rw some_room
              (elim (Bool-cases (succeeded (msg_init env.calloc 50).1 && env.has_domain)) [
                | inl got ↦ rw got (record {
                  greating = v.greating;
                  sending = v.sending;
                  sender = v.sender;
                  body = v.body;
                  receivers = all;
                  room = ground (arith, length-append c.to (rcpt_entry env c mi ∷ []), v.room);
                })
                | inr refused ↦ rw refused v
              ])
      ]

pub client_data_end_process-IsValid :
    (env : Env) (x : Conn)
    → IsValidClient x.client
    → IsValidClient (client_data_end_process env x).0.client
unfolding client_data_end_process
client_data_end_process-IsValid env x v =
    let c = x.client in
    let (valid, len) =
      write_mail-valid env.files c.mail_writer c.to c.msg_text x.world v.receivers in
    record {
      greating = v.greating;
      sending = v.sending;
      sender = v.sender;
      body = v.body;
      receivers = valid;
      room = omega (arith, len);
    }
