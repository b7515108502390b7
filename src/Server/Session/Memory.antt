-- ===== src/Server/Session/Memory.antt =====
-- Memory over a whole session: how fast the buffers grow, and where a write is out of bounds.
use pvs_kp.Base.{
  ℕ, suc, ◌+◌, ◌-◌, ◌*◌, ◌≤◌, ◌<◌, ◌≡◌, ◌↔◌, inl, inr, refl, ap, ◌∙◌, Bool, true, false, some, List,
  [], ◌∷◌, ◌++◌, arith, length, take, Bool-cases, c_string, memcpy, leb, size_t, size_mod, snprintf,
  codes, crlf, length-take_le, length-take_shorter, length-memcpy, All, drop, length-append,
  length-take,
}
use native.Mathlib.Nat.{mod-le}
use pvs_kp.Server.ErrorCode.{succeeded, Calloc}
use pvs_kp.Server.Msg.{Msg, bytes, msg_clean, msg_add_text, msg_resize, write_behind}
use pvs_kp.Server.Msg.Content.{IsValid, bytes-memcpy, msg_clean-IsValid}
use pvs_kp.Server.State.{
  State, init, wait_hello_or_ehlo, client_inited, done, expected_msg_text_or_end_msg, Event,
  response, ehlo, helo, mail, timeout_ev, shutdown_ev, msg_text, end_data,
}
use pvs_kp.Server.SmtpCmd.{MatchInfo, Pcre, no_match, smtp_cmd_check, smtp_cmd_get_substring}
use pvs_kp.Server.MailWriter.{text_of}
use pvs_kp.Server.Client.{
  Client, Conn, Env, client_set_response, client_add_greating_info, client_add_mail_from,
  client_add_rcpt_to, client_add_msg_txt, client_data_end_process,
}
use pvs_kp.Server.Client.Valid.{IsValidClient, substring_short, client_set_response-IsValid}
use pvs_kp.Server.Stars.{respond}
use pvs_kp.Server.Fsm.{client_step}
use pvs_kp.Server.Fsm.Invariant.{Fits, client_step-IsValid}
use pvs_kp.Server.Session.{
  terminate, Action, step, say, recognise, recognise_text, act, in_text, set_state, start_timeout,
  close_if_done, client_process_recv, client_process_send, client_process_check_timeout,
  client_process_shutdown, Input, received, answered, checked, stopped, handle, run,
}

size-msg_add_text_le :
    (calloc : Calloc) (msg : Msg) (buf : List ℕ)
    → (msg_add_text calloc msg buf).0.size ≤ msg.size + length buf
unfolding msg_add_text msg_resize write_behind
size-msg_add_text_le calloc msg buf = ground (arith, mod-le (msg.size + length buf) size_mod)

-- The two buffers that gather text, and the domain, which no step changes.
abbrev Grows : ℕ → Client → Client → Type 0
Grows k c c' =
    (c'.greating_info.size ≤ c.greating_info.size + k)
    × (c'.msg_text.size ≤ c.msg_text.size + k)
    × (c'.mail_writer ≡ c.mail_writer)

client_add_mail_from-Grows :
    (env : Env) (c : Client) (buf : List ℕ) → Grows 199 c (client_add_mail_from env c buf).0
unfolding client_add_mail_from msg_clean
client_add_mail_from-Grows env c buf =
    let m = (msg_add_text env.calloc (msg_clean c.from) buf).0 in
    let x_from = snprintf 200 (codes "X-mysmtp-from: " ++ (text_of m ++ crlf)) in
    let short : length x_from ≤ 199 =
      length-take_le 199 (codes "X-mysmtp-from: " ++ (text_of m ++ crlf)) in
    let grown : (msg_add_text env.calloc (msg_clean c.msg_text) x_from).0.size ≤ 0 + length x_from =
      size-msg_add_text_le env.calloc (msg_clean c.msg_text) x_from in
    elim (Bool-cases (succeeded (msg_add_text env.calloc (msg_clean c.from) buf).1)) [
      | inl added ↦ rw added (omega arith, omega (arith, grown, short), refl)
      | inr refused ↦ rw refused (omega arith, omega arith, refl)
    ]

step-Grows :
    (env : Env) (s : State) (e : Event) (x : Conn) (mi : MatchInfo)
    → length env.junk < 1000
    → Grows (length mi.tested_line + 1000) x.client (client_step env s e x mi).0.client
unfolding client_step client_set_response client_add_greating_info client_add_rcpt_to
    client_add_msg_txt client_data_end_process msg_clean
step-Grows env init e x mi junk = ground arith
step-Grows env wait_hello_or_ehlo ehlo x mi junk = ground (
  arith,
  substring_short env x.client mi 1 env.junk junk,
  size-msg_add_text_le env.calloc x.client.greating_info
      (smtp_cmd_get_substring mi 1 env.junk 1000).0,
)
step-Grows env wait_hello_or_ehlo helo x mi junk = ground (
  arith,
  substring_short env x.client mi 1 env.junk junk,
  size-msg_add_text_le env.calloc x.client.greating_info
      (smtp_cmd_get_substring mi 1 env.junk 1000).0,
)
step-Grows env client_inited mail x mi junk =
    ground
      (arith, client_add_mail_from-Grows env x.client (smtp_cmd_get_substring mi 1 env.junk 1000).0)
step-Grows env expected_msg_text_or_end_msg end_data x mi junk = ground (
  arith,
  length-take_shorter mi.match_start mi.tested_line,
  size-msg_add_text_le env.calloc x.client.msg_text (take mi.match_start mi.tested_line),
)
step-Grows env expected_msg_text_or_end_msg msg_text x mi junk =
    ground (arith, size-msg_add_text_le env.calloc x.client.msg_text mi.tested_line)
step-Grows env wait_hello_or_ehlo _ x mi junk = ground arith
step-Grows env client_inited _ x mi junk = ground arith
step-Grows env expected_msg_text_or_end_msg _ x mi junk = ground arith
step-Grows env _ e x mi junk = ground arith

-- A valid connection whose growing buffers have come to at most `n` bytes.
pub record Sized (n : ℕ) (c : Client) : Type 0 where
  pub valid : IsValidClient c
  pub greating : c.greating_info.size ≤ n
  pub body : c.msg_text.size ≤ n
  pub domain : length c.mail_writer.domain + 51 < size_mod

step-Sized :
    (n most : ℕ) (env : Env) (s : State) (e : Event) (x : Conn) (mi : MatchInfo)
    → Sized n x.client
    → n + (most + 2100) < size_mod
    → length env.junk < 1000
    → length mi.tested_line ≤ most
    → Sized (n + (most + 1000)) (client_step env s e x mi).0.client
step-Sized n most env s e x mi z small junk line =
    let (greating, body, writer) = step-Grows env s e x mi junk in
    let fits : Fits env x.client mi = record {
      greating = omega (arith, z.greating);
      body = omega (arith, z.body);
      local_buffer = junk;
      domain = z.domain;
    } in
    record {
      valid = client_step-IsValid env s e x mi z.valid fits;
      greating = omega (arith, greating, z.greating);
      body = omega (arith, body, z.body);
      domain = rw writer z.domain;
    }

abbrev AsksWithin : List ℕ → Action → Type 0
AsksWithin line (step e mi) = length mi.tested_line ≤ length line
AsksWithin line (say answer) = length answer ≤ 100

recognise_within : (pcre : Pcre) (line : List ℕ) → AsksWithin line (recognise pcre line)
unfolding recognise smtp_cmd_check
recognise_within pcre line = ground arith

recognise_text_within : (pcre : Pcre) (line : List ℕ) → AsksWithin line (recognise_text pcre line)
unfolding recognise_text smtp_cmd_check
recognise_text_within pcre line = ground arith

say-Sized :
    (n most : ℕ) (env : Env) (x : Conn) (answer : List ℕ)
    → Sized n x.client
    → length answer ≤ 100
    → Sized (n + (most + 1000)) (respond env x answer).client
unfolding client_set_response
say-Sized n most env x answer z short = record {
  valid = client_set_response-IsValid env x.client answer z.valid (omega arith);
  greating = ground (arith, z.greating);
  body = ground (arith, z.body);
  domain = ground (arith, z.domain);
}

act-Sized :
    (n most : ℕ) (env : Env) (x : Conn) (line : List ℕ) (a : Action)
    → Sized n x.client
    → n + (most + 2100) < size_mod
    → length env.junk < 1000
    → length line ≤ most
    → AsksWithin line a
    → Sized (n + (most + 1000)) (act env x a).0.client
unfolding act
act-Sized n most env x line (step e mi) z small junk short within =
    step-Sized n most env x.client.current_state e x mi z small junk (omega arith)
act-Sized n most env x line (say answer) z small junk short within =
    say-Sized n most env x answer z within

-- The fields that are not buffers do not matter.
marked-Sized :
    (n : ℕ) (c : Client) (s : State) (closed : Bool) (time : ℕ)
    → Sized n c
    → Sized n (record c { current_state = s; closed = closed; timeout_start_time = time })
marked-Sized n c s closed time z = record {
  valid = record {
    greating = z.valid.greating;
    sending = z.valid.sending;
    sender = z.valid.sender;
    body = z.valid.body;
    receivers = z.valid.receivers;
    room = z.valid.room;
  };
  greating = z.greating;
  body = z.body;
  domain = z.domain;
}

sent-Sized :
    (n : ℕ) (c : Client)
    → Sized n c
    → Sized n (record c { need_send = false; msg_for_sending = msg_clean c.msg_for_sending })
sent-Sized n c z = record {
  valid = record {
    greating = z.valid.greating;
    sending = (msg_clean-IsValid c.msg_for_sending z.valid.sending).0;
    sender = z.valid.sender;
    body = z.valid.body;
    receivers = z.valid.receivers;
    room = z.valid.room;
  };
  greating = z.greating;
  body = z.body;
  domain = z.domain;
}

close-Sized : (n : ℕ) (s : State) (x : Conn) → Sized n x.client → Sized n (close_if_done s x).client
close-Sized n done x z =
    marked-Sized n x.client x.client.current_state true x.client.timeout_start_time z
close-Sized n s x z = z

length-c_string_le : (cs : List ℕ) → length (c_string cs) ≤ length cs
unfolding c_string
length-c_string_le [] = omega arith
length-c_string_le (c ∷ cs) = ground (arith, length-c_string_le cs)

bytes-terminate :
    (msg : Msg)
    → IsValid msg
    → msg.size < msg.max_size
    → length (bytes (terminate msg).text) ≡ msg.max_size
unfolding terminate
bytes-terminate msg v room =
    let fits : msg.size + length {A = ℕ} (0 ∷ []) ≤ length (bytes msg.text) =
      omega (arith, v.allocated) in
    ap length (bytes-memcpy msg.text msg.size (0 ∷ []) fits)
    ∙ length-memcpy (bytes msg.text) msg.size (0 ∷ []) fits
    ∙ v.allocated

-- The zero byte that is put behind the received text stays in the buffer exactly if the text does
-- not fill it. The buffer is there and is valid before.
pub terminate-IsValid :
    (t : List ℕ) (n m : ℕ)
    → let msg : Msg = record { text = some t; size = n; max_size = m } in
      IsValid msg → IsValid (terminate msg) ↔ (n < m)
unfolding terminate memcpy
terminate-IsValid t n m v =
    let len : length (memcpy t n (0 ∷ [])) ≡ n + suc (length (drop (n + 1) t)) =
      length-append (take n t) (0 ∷ drop (n + 1) t)
      ∙ ap (λ k. k + suc (length (drop (n + 1) t)))
          (length-take n t (omega (arith, v.allocated, v.within))) in
    (
      λ w. omega (arith, w.allocated, len, v.within),
      λ room.
          let fits : n + length {A = ℕ} (0 ∷ []) ≤ length t = omega (arith, v.allocated) in
          record { allocated = length-memcpy t n (0 ∷ []) fits ∙ v.allocated; within = v.within },
    )

-- What a connection is passed: a buffer with room for the zero byte, of at most `most` bytes.
abbrev pub SmallInput : ℕ → Input → Type 0
SmallInput most (received env msg) =
    (length env.junk < 1000) × IsValid msg × (msg.size < msg.max_size) × (msg.max_size ≤ most)
SmallInput most (answered env) = length env.junk < 1000
SmallInput most (checked env limit) = length env.junk < 1000
SmallInput most (stopped env) = length env.junk < 1000

larger-Sized : (n most : ℕ) (c : Client) → Sized n c → Sized (n + (most + 1000)) c
larger-Sized n most c z = record {
  valid = z.valid;
  greating = omega (arith, z.greating);
  body = omega (arith, z.body);
  domain = z.domain;
}

handle-Sized :
    (n most : ℕ) (pcre : Pcre) (x : Conn) (input : Input)
    → Sized n x.client
    → n + (most + 2100) < size_mod
    → SmallInput most input
    → Sized (n + (most + 1000)) (handle pcre x input).client
unfolding handle client_process_recv client_process_send client_process_check_timeout
    client_process_shutdown
handle-Sized n most pcre x (received env msg) z small (junk, v, room, fits) =
    let line = c_string (bytes (terminate msg).text) in
    let short : length line ≤ most =
      omega (
        arith,
        length-c_string_le (bytes (terminate msg).text),
        bytes-terminate msg v room,
        fits,
      ) in
    elim (Bool-cases (in_text x.client.current_state)) [
      | inl texts ↦ rw texts (
          after_act (recognise_text pcre line)
            (act-Sized n most env x line _ z small junk short (recognise_text_within pcre line)))
      | inr lines ↦ rw lines (
          after_act (recognise pcre line)
            (act-Sized n most env x line _ z small junk short (recognise_within pcre line)))
    ]
  where
    after_act :
        (a : Action)
        → Sized (n + (most + 1000)) (act env x a).0.client
        → Sized (n + (most + 1000)) (start_timeout env (set_state (act env x a))).client
    after_act a w =
        marked-Sized (n + (most + 1000)) (act env x a).0.client (act env x a).1
          (act env x a).0.client.closed env.files.now w
handle-Sized n most pcre x (answered env) z small junk =
    let c = x.client in
    let sent = record x {
      client = record c { need_send = false; msg_for_sending = msg_clean c.msg_for_sending };
    } in
    let r = client_step env c.current_state response sent no_match in
    let w =
      step-Sized n most env c.current_state response sent no_match (sent-Sized n c z) small junk
        (omega arith) in
    close-Sized (n + (most + 1000)) r.1 (set_state r) (
      marked-Sized (n + (most + 1000)) r.0.client r.1 r.0.client.closed
        r.0.client.timeout_start_time w)
handle-Sized n most pcre x (checked env limit) z small junk =
    let r = client_step env x.client.current_state timeout_ev x no_match in
    let w =
      step-Sized n most env x.client.current_state timeout_ev x no_match z small junk
        (omega arith) in
    elim (Bool-cases
      (leb (size_t (env.files.now + size_mod - x.client.timeout_start_time)) limit)) [
        | inl early ↦ rw early (larger-Sized n most x.client z)
        | inr late ↦ rw late (
            marked-Sized (n + (most + 1000)) r.0.client r.1 r.0.client.closed
              r.0.client.timeout_start_time w)
      ]
handle-Sized n most pcre x (stopped env) z small junk =
    let r = client_step env x.client.current_state shutdown_ev x no_match in
    let w =
      step-Sized n most env x.client.current_state shutdown_ev x no_match z small junk
        (omega arith) in
    marked-Sized (n + (most + 1000)) r.0.client r.1 r.0.client.closed r.0.client.timeout_start_time
      w

-- Over a whole session, whatever is received and answered in whatever order, a valid connection whose
-- server's domain is of less than 2^64 - 51 bytes stays valid: every buffer is as long as recorded and there are at most 100 receivers. Its growing
-- buffers begin with at most `n` bytes; the buffer that is received is valid, has room for the zero
-- byte and is of at most `most` bytes; the uninitialised local buffers hold less than 1000 bytes
-- before a zero byte; and there are not so many inputs that a size could pass size_t.
pub run-IsValid :
    (n most : ℕ) (pcre : Pcre) (x : Conn) (inputs : List Input)
    → Sized n x.client
    → n + (most + 1000) * length inputs + (most + 2100) < size_mod
    → All (SmallInput most) inputs
    → IsValidClient (run pcre x inputs).client
unfolding run
run-IsValid n most pcre x [] z small ok = z.valid
run-IsValid n most pcre x (input ∷ inputs) z small ok =
    run-IsValid (n + (most + 1000)) most pcre (handle pcre x input) inputs
      (handle-Sized n most pcre x input z (omega arith) ok.0) (omega arith) ok.1
