-- ===== src/Server/Client.antt =====
-- server/src/client.c: the state of one connection, and the functions that the protocol machine
-- calls to change it. Session.antt has those that call the machine.
pub mod Valid
use pvs_kp.Base.{
  ◌&&◌, ℕ, Bool, true, List, [], ◌∷◌, ◌++◌, length, ◌==◌, if◌then◌else◌, codes, crlf, snprintf,
}
use pvs_kp.Server.ErrorCode.{
  ErrorCode, Calloc, ce_success, ce_common, ce_init_3rd, ce_max_size, succeeded,
}
use pvs_kp.Server.Msg.{Msg, msg_init, msg_add_text, msg_clean}
use pvs_kp.Server.State.{State}
use pvs_kp.Server.SmtpCmd.{MatchInfo, smtp_cmd_get_substring}
use pvs_kp.Server.MailWriter.{
  DomainType, ipv4, ipv6, host, Receiver, MailWriter, World, Files, text_of, write_mail,
}

-- `to` holds the first `to_count` entries of the array: `to_count` is its length.
pub record Client : Type 0 where
  pub current_state : State
  pub ehlo : ℕ
  pub need_send : Bool
  pub greating_info : Msg
  pub msg_for_sending : Msg
  pub from : Msg
  pub to : List Receiver
  pub msg_text : Msg
  pub closed : Bool
  pub mail_writer : MailWriter
  pub timeout_start_time : ℕ

-- A connection, and what its thread shares.
pub record Conn : Type 0 where
  pub client : Client
  pub world : World

-- The surroundings of a call: the allocator, the clock and the files, and what happens to stand in
-- memory that a function reads before it writes it (a local buffer, an array entry's type,
-- the start of a new client's timeout). `has_domain` is what calloc answers when a receiver's second
-- buffer, of the same size as the first, is asked for.
pub record Env : Type 0 where
  pub calloc : Calloc
  pub files : Files
  pub junk : List ℕ
  pub stale_type : DomainType
  pub stale_time : ℕ
  pub has_domain : Bool

abbrev pub rcpt_max : ℕ
rcpt_max = 100

abbrev pub opening_msg : List ℕ
opening_msg = codes "220 Service ready" ++ crlf

abbrev pub success_answer : List ℕ
success_answer = codes "250 OK" ++ crlf

abbrev pub data_accepted_answer : List ℕ
data_accepted_answer = codes "354 Start mail input" ++ crlf

abbrev pub quit_success_answer : List ℕ
quit_success_answer = codes "221 Bye" ++ crlf

abbrev pub unknown_cmd_answer : List ℕ
unknown_cmd_answer = codes "500 Syntax error, command unrecognized" ++ crlf

abbrev pub not_implemented_answer : List ℕ
not_implemented_answer = codes "502 Command not implemented" ++ crlf

abbrev pub bad_sequence_answer : List ℕ
bad_sequence_answer = codes "503 Bad sequence of command" ++ crlf

unfoldable pub client_set_response : Env → Client → List ℕ → Client × ErrorCode
client_set_response env c buf =
    let (m, code) = msg_add_text env.calloc (msg_clean c.msg_for_sending) buf in
    if succeeded code
    then (record c { msg_for_sending = m; need_send = true }, ce_success)
    else (record c { msg_for_sending = m }, ce_common)

unfoldable pub client_add_greating_info : Env → Client → List ℕ → Client × ErrorCode
client_add_greating_info env c buf =
    let (m, code) = msg_add_text env.calloc c.greating_info buf in
    (record c { greating_info = m }, if succeeded code then ce_success else ce_common)

unfoldable pub client_add_msg_txt : Env → Client → List ℕ → Client × ErrorCode
client_add_msg_txt env c buf =
    let (m, code) = msg_add_text env.calloc c.msg_text buf in
    (record c { msg_text = m }, if succeeded code then ce_success else ce_common)

-- `%s` reads the buffer as a C string.
unfoldable pub client_add_mail_from : Env → Client → List ℕ → Client × ErrorCode
client_add_mail_from env c buf =
    let (m, code) = msg_add_text env.calloc (msg_clean c.from) buf in
    let x_from = snprintf 200 (codes "X-mysmtp-from: " ++ (text_of m ++ crlf)) in
    let t = msg_add_text env.calloc (msg_clean c.msg_text) x_from in
    if succeeded code
    then (record c { from = m; msg_text = t.0 }, ce_success)
    else (record c { from = m }, ce_common)

abbrev pub postmaster : List ℕ
postmaster = codes "Postmaster"

-- The type and the text of the domain of a forward path, from the groups 47, 58 and 38.
forward_domain : MatchInfo → DomainType × List ℕ
forward_domain mi =
    let (v4, is_v4) = smtp_cmd_get_substring mi 47 [] 1000 in
    let (v6, is_v6) = smtp_cmd_get_substring mi 58 v4 1000 in
    let named = smtp_cmd_get_substring mi 38 v6 1000 in
    if succeeded is_v4 then (ipv4, v4) else if succeeded is_v6 then (ipv6, v6) else (host, named.0)

-- What is put into the new entry: the local part, the domain and its type, from the groups 9, 3
-- and 29. The entry's type is left as it was for a postmaster.
unfoldable pub rcpt_parts : Env → Client → MatchInfo → List ℕ × List ℕ × DomainType
unfolding forward_domain
rcpt_parts env c mi =
    let (b9, is_own) = smtp_cmd_get_substring mi 9 [] 1000 in
    let (b3, is_full) = smtp_cmd_get_substring mi 3 b9 1000 in
    let (local, _) = smtp_cmd_get_substring mi 29 b3 1000 in
    let (type, domain) = forward_domain mi in
    if succeeded is_own
    then (postmaster, c.mail_writer.domain ++ 0 ∷ [], env.stale_type)
    else if succeeded is_full
    then (postmaster, b3, env.stale_type)
    else (local, domain, type)

-- The new entry, once its two buffers are there.
unfoldable pub rcpt_entry : Env → Client → MatchInfo → Receiver
rcpt_entry env c mi =
    let (buffer, _) = msg_init env.calloc 50 in
    let (local_text, domain_text, type) = rcpt_parts env c mi in
    record {
      local_part = (msg_add_text env.calloc buffer local_text).0;
      domain = (msg_add_text env.calloc buffer domain_text).0;
      domain_type = type;
    }

-- The second msg_init(50) has an answer of its own. Where it fails the first buffer is freed again.
unfoldable pub client_add_rcpt_to : Env → Client → MatchInfo → Client × ErrorCode
client_add_rcpt_to env c mi =
    let (_, code) = msg_init env.calloc 50 in
    if length c.to == rcpt_max
    then (c, ce_max_size)
    else if succeeded code && env.has_domain
    then (record c { to = c.to ++ rcpt_entry env c mi ∷ [] }, ce_success)
    else (c, ce_init_3rd)

unfoldable pub client_data_end_process : Env → Conn → Conn × ErrorCode
client_data_end_process env x =
    let c = x.client in
    let (to, w, code) = write_mail env.files c.mail_writer c.to c.msg_text x.world in
    (record { client = record c { to = to }; world = w }, code)
