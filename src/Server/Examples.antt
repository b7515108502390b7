-- ===== src/Server/Examples.antt =====
-- Connections and messages on which the theorems about the server are applied.
use pvs_kp.Base.{
  ℕ, zero, suc, ◌+◌, ◌≤◌, ◌<◌, ◌≡◌, refl, ◌↔◌, ◌⊎◌, Bool, true, false, none, some, List, [], ◌∷◌,
  ◌++◌, arith, length, replicate, codes, c_string, memcpy, NoNul,
}
use pvs_kp.Server.ErrorCode.{ce_success, ce_alloc}
use pvs_kp.Server.Msg.{
  Msg, msg_add_text, msg_recv_one, msg_send_one, Received, chunk, would_block, Sent, took,
}
use pvs_kp.Server.Msg.Content.{IsValid, content, Appended, msg_add_text-Appended}
use pvs_kp.Server.Msg.Stream.{msg_send_one-content, msg_send_one-empties, msg_recv_one-content}
use pvs_kp.Server.State.{State, client_inited, expected_rcpt_or_data, mail_received, mail}
use pvs_kp.Server.SmtpCmd.{
  Pcre, cmd_quit, cmd_end_data, no_match, smtp_cmd_check, smtp_cmd_get_substring,
}
use pvs_kp.Server.MailWriter.{MailWriter, Receiver, ipv4, host, World, Files, write_mail}
use pvs_kp.Server.MailWriter.Hosts.{mail_ops, write_mail-ops}
use pvs_kp.Server.Client.{Client, Conn, Env, success_answer, quit_success_answer}
use pvs_kp.Server.Client.Valid.{IsValidClient}
use pvs_kp.Server.Fsm.{client_step}
use pvs_kp.Server.Fsm.Graph.{client_step-next}
use pvs_kp.Server.Fsm.Replies.{Answers, client_step-Answers}
use pvs_kp.Server.Session.{
  Input, received, answered, checked, stopped, terminate, recognise, handle, run,
}
use pvs_kp.Server.Session.States.{served, run-served, run-quit}
use pvs_kp.Server.Session.Memory.{terminate-IsValid, run-IsValid}
use pvs_kp.Server.Session.Receivers.{run-receivers}

abbrev pub calloc_all : ℕ → Bool
calloc_all n = true

-- A message of five bytes in a buffer of eight.
abbrev hello : Msg
hello = record { text = some (codes "hello" ++ 0 ∷ 0 ∷ 0 ∷ []); size = 5; max_size = 8 }

hello-IsValid : IsValid hello
hello-IsValid = record { allocated = refl; within = omega arith }

hello-NoNul : NoNul (content hello)
hello-NoNul = (omega arith, (omega arith, (omega arith, (omega arith, (omega arith, tt)))))

msg_add_text-Appended_example :
    let (r, code) = msg_add_text calloc_all hello (codes " world") in
    ((code ≡ ce_success) × Appended calloc_all hello (codes " world") r)
    ⊎ ((code ≡ ce_alloc) × (r ≡ hello) × (hello.max_size < 5 + 6) × (true ≡ false))
msg_add_text-Appended_example =
    msg_add_text-Appended calloc_all hello (codes " world") hello-IsValid (omega arith)

-- A socket that takes two bytes at a time.
abbrev takes_two : ℕ → Sent
takes_two k = took 2

msg_send_one-content_example :
    let (r, wire, code) = msg_send_one hello takes_two in
    IsValid r × (wire ++ content r ≡ codes "hello")
msg_send_one-content_example = msg_send_one-content hello takes_two hello-IsValid hello-NoNul

msg_send_one-empties_example :
    let (r, wire, code) = msg_send_one hello takes_two in
    (wire ≡ codes "hello") × (r.size ≡ 0) × (code ≡ ce_success)
msg_send_one-empties_example =
    msg_send_one-empties hello takes_two hello-IsValid hello-NoNul (omega arith) (λ k. (1, refl))

-- A socket that gives two chunks and then nothing.
abbrev two_chunks : ℕ → Received
two_chunks zero = chunk (codes " big")
two_chunks (suc zero) = chunk (codes " world")
two_chunks (suc (suc k)) = would_block

msg_recv_one-content_example :
    let r = (msg_recv_one calloc_all hello two_chunks).0 in
    IsValid r × (content r ≡ codes "hello big world")
msg_recv_one-content_example =
    msg_recv_one-content calloc_all (λ n. refl) hello two_chunks hello-IsValid (omega arith)

terminate-IsValid_example : IsValid (terminate hello) ↔ (5 < 8)
terminate-IsValid_example = terminate-IsValid (codes "hello" ++ 0 ∷ 0 ∷ 0 ∷ []) 5 8 hello-IsValid

-- A buffer of four bytes that holds a text.
abbrev pub short_msg : List ℕ → ℕ → Msg
short_msg text size = record { text = some text; size = size; max_size = 4 }

abbrev pub empty_msg : Msg
empty_msg = short_msg (replicate 4 0) 0

pub empty-IsValid : IsValid empty_msg
empty-IsValid = record { allocated = refl; within = omega arith }

abbrev pub writer : MailWriter
writer = record {
  domain = codes "here";
  local_maildir = codes "/mail/";
  client_maildir = codes "/queue/";
  pid = 7;
  tid = 1;
  hostname = codes "h";
}

-- The receiver a@b, by the host's name.
abbrev receiver : List ℕ → Receiver
receiver domain = record {
  local_part = short_msg (codes "a" ++ replicate 3 0) 1;
  domain = short_msg domain 2;
  domain_type = host;
}

abbrev remote : Receiver
remote = receiver (codes "bb" ++ replicate 2 0)

abbrev files : Files
files = record { now = 1000; can_open = true }

abbrev pub quiet : World
quiet = record { n = 0; ops = []; faulted = false }

abbrev pub client_in : State → List Receiver → Client
client_in s to = record {
  current_state = s;
  ehlo = 0;
  need_send = false;
  greating_info = empty_msg;
  msg_for_sending = empty_msg;
  from = empty_msg;
  to = to;
  msg_text = empty_msg;
  closed = false;
  mail_writer = writer;
  timeout_start_time = 0;
}

abbrev conn_in : State → List Receiver → Conn
conn_in s to = record { client = client_in s to; world = quiet }

abbrev pub env : Env
env = record {
  calloc = calloc_all;
  files = files;
  junk = [];
  stale_type = ipv4;
  stale_time = 0;
  has_domain = true;
}

short-IsValid : (a b c d : ℕ) → IsValid (short_msg (a ∷ b ∷ c ∷ d ∷ []) 2)
short-IsValid a b c d = record { allocated = refl; within = omega arith }

client-IsValid : (s : State) → IsValidClient (client_in s [])
client-IsValid s = record {
  greating = empty-IsValid;
  sending = empty-IsValid;
  sender = empty-IsValid;
  body = empty-IsValid;
  receivers = tt;
  room = omega arith;
}

-- Every line asks to quit, or ends a mail's text.
abbrev pub pcre : Pcre
pcre cmd_quit line = some no_match
pcre cmd_end_data line = some no_match
pcre _ line = none

write_mail-ops_example :
    let to = remote ∷ remote ∷ [] in
    (write_mail files writer to empty_msg quiet).1.ops ≡ mail_ops files writer to empty_msg quiet
write_mail-ops_example =
    write_mail-ops files writer (remote ∷ remote ∷ []) empty_msg quiet refl (omega arith)
      (omega arith, (omega arith, tt))

client_step-next_example :
    (client_step env client_inited mail (conn_in client_inited []) no_match).1 ≡ mail_received
client_step-next_example =
    client_step-next env client_inited mail (conn_in client_inited []) no_match refl

client_step-Answers_example :
    Answers
      (some success_answer)
      (client_in client_inited [])
      (client_step env client_inited mail (conn_in client_inited []) no_match).0.client
unfolding client_step smtp_cmd_get_substring
client_step-Answers_example =
    client_step-Answers env (λ n. refl) client_inited mail (conn_in client_inited []) no_match refl
      empty-IsValid refl

abbrev session : List Input
session = received env empty_msg ∷ answered env ∷ checked env 10 ∷ stopped env ∷ []

run-served_example :
    served (run pcre (conn_in client_inited []) session).client.current_state ≡ true
run-served_example = run-served pcre (conn_in client_inited []) session refl

run-quit_example :
    let y = handle pcre (conn_in client_inited []) (received env empty_msg) in
    (y.client.need_send ≡ true)
    × (content y.client.msg_for_sending ≡ quit_success_answer)
    × ((run pcre
          (conn_in client_inited [])
          (received env empty_msg ∷ answered env ∷ [])).client.closed
        ≡ true)
unfolding recognise smtp_cmd_check c_string terminate memcpy
run-quit_example =
    run-quit pcre env env empty_msg (conn_in client_inited []) no_match (λ n. refl) empty-IsValid
      refl refl

run-IsValid_example : IsValidClient (run pcre (conn_in client_inited []) session).client
run-IsValid_example =
    run-IsValid 0 1000 pcre (conn_in client_inited []) session
      (record {
        valid = client-IsValid client_inited;
        greating = omega arith;
        body = omega arith;
        domain = omega arith;
      })
      (omega arith)
      (
        (omega arith, empty-IsValid, omega arith, omega arith),
        (omega arith, (omega arith, (omega arith, tt))),
      )

run-receivers_example :
    length (remote ∷ [])
    ≤ length (run pcre (conn_in expected_rcpt_or_data (remote ∷ [])) session).client.to
run-receivers_example = run-receivers pcre (conn_in expected_rcpt_or_data (remote ∷ [])) session
