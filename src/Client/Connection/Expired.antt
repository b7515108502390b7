-- ===== src/Client/Connection/Expired.antt =====
-- What becomes of the messages behind one whose time is over.
use pvs_kp.Base.{
  ℕ, suc, ◌+◌, ◌<◌, ◌≡◌, refl, arith, true, false, Option, none, some, List, [], ◌∷◌, ◌++◌, length,
  crlf, codes, lt→ltb, length-append, ==-suc_zero,
}
use pvs_kp.Client.Memory.{Memory, rest, Plenty}
use pvs_kp.Client.MString.{MString}
use pvs_kp.Client.MString.Contents.{str_of, string_init2-Plenty}
use pvs_kp.Client.Queue.{queue_is_empty}
use pvs_kp.Client.Queue.Contents.{queue_of, queue_peek-cons, queue_pop_front-cons}
use pvs_kp.Client.Peer.Send.Pending.{holding}
use pvs_kp.Client.Message.{SmtpMessage, is_attempts_time_expired}
use pvs_kp.Client.Commands.{rset_command, mailfrom_command}
use pvs_kp.Client.Fsm.State.{
  FsmState, FsmEvent, sending_rcpt_or_data, rset_sended, mail_sended, rset, mail, response_2xx,
  get_next_message_and_sending_mail_or_quit,
}
use pvs_kp.Client.Fsm.{client_fsm_step}
use pvs_kp.Client.Connection.{SmtpConnection, System}
use pvs_kp.Client.Connection.Switch.{
  chosen, switch, rcpt_or_data, drop_message, mail_or_quit, start_mail,
}
use pvs_kp.Client.Connection.Reply.{parse_response_code, response_event}
use pvs_kp.Client.Connection.Turn.{turn}
use pvs_kp.Client.Connection.Steps.{is_connected, turn-command}
use pvs_kp.Client.Connection.Replies.{turn-next}

-- The connection with these messages, these texts to be sent and these replies.
abbrev pub among :
    SmtpConnection
    → List SmtpMessage
    → FsmState
    → FsmEvent
    → List (List ℕ)
    → List MString
    → SmtpConnection
among conn messages s e texts replies = record conn {
  messages = queue_of messages;
  state = s;
  last_event = e;
  peer = holding (record conn.peer { messages_out = queue_of replies }) texts;
}

-- MAIL FROM for an address.
abbrev pub mail_from : List ℕ → List ℕ
mail_from addr = codes "MAIL FROM:" ++ (addr ++ crlf)

abbrev pub begun : ℕ → SmtpMessage → SmtpMessage
begun now message = record message { attempt_start_time = now; last_attempt_time = now }

queue_is_empty-cons :
    (m : SmtpMessage) (ms : List SmtpMessage) → queue_is_empty (queue_of (m ∷ ms)) ≡ false
unfolding queue_is_empty
queue_is_empty-cons m ms = ==-suc_zero (length ms)

module _ (system : System) (conn : SmtpConnection) where
  switch-expired :
      (m : SmtpMessage) (ms : List SmtpMessage) (e : FsmEvent) (texts : List (List ℕ))
      (mem : Memory)
      → is_attempts_time_expired system.now m ≡ true
      → Plenty mem
      → switch system
          (some (str_of crlf))
          (among conn (m ∷ ms) sending_rcpt_or_data e texts [])
          sending_rcpt_or_data
          mem
        ≡ chosen
            (among conn ms sending_rcpt_or_data e texts [])
            (some (str_of (codes "RSET" ++ crlf)))
            rset
            (rest (rest mem))
  unfolding switch rcpt_or_data drop_message rset_command
  switch-expired m ms e texts mem over plenty =
      let made_ = string_init2-Plenty (codes "RSET" ++ crlf) mem plenty in
      rw (queue_peek-cons m ms) (rw over (rw (queue_pop_front-cons m ms) (rw made_ refl)))

  switch-next :
      (m next : SmtpMessage) (ms : List SmtpMessage) (texts : List (List ℕ)) (mem : Memory)
      → length (mail_from next.from_addr) < 256
      → Plenty mem
      → switch system
          (some (str_of crlf))
          (among conn
            (m ∷ next ∷ ms)
            get_next_message_and_sending_mail_or_quit
            response_2xx
            texts
            [])
          get_next_message_and_sending_mail_or_quit
          mem
        ≡ chosen
            (record (among conn
              (begun system.now next ∷ ms)
              get_next_message_and_sending_mail_or_quit
              response_2xx
              texts
              []) { current_rcpt = 0; current_msg_line = 0 })
            (some (str_of (mail_from next.from_addr)))
            mail
            (rest (rest mem))
  unfolding switch mail_or_quit start_mail mailfrom_command
  switch-next m next ms texts mem short plenty =
      let made_ = string_init2-Plenty (mail_from next.from_addr) mem plenty in
      rw (queue_is_empty-cons m (next ∷ ms)) (
        rw (queue_pop_front-cons m (next ∷ ms)) (
          rw (queue_is_empty-cons next ms)
            (rw (lt→ltb (length (mail_from next.from_addr)) 256 short) (rw made_ refl))))

  turn-expired :
      (m : SmtpMessage) (ms : List SmtpMessage) (e : FsmEvent) (texts : List (List ℕ))
      (mem : Memory)
      → is_connected sending_rcpt_or_data conn.peer.fd ≡ true
      → is_attempts_time_expired system.now m ≡ true
      → length texts < 10000
      → Plenty mem
      → turn system (among conn (m ∷ ms) sending_rcpt_or_data e texts []) mem
        ≡ some (
          some (among conn ms rset_sended rset (texts ++ (codes "RSET" ++ crlf) ∷ []) []),
          (λ n. mem (suc (suc (suc (suc (suc (suc (suc n)))))))),
        )
  unfolding client_fsm_step
  turn-expired m ms e texts mem op over room plenty =
      turn-command system (among conn (m ∷ ms) sending_rcpt_or_data e texts [])
        (among conn ms sending_rcpt_or_data e texts [])
        (record conn.peer { messages_out = queue_of [] }) texts (codes "RSET" ++ crlf) rset
        rset_sended mem (λ n. mem (suc (suc (suc (suc n))))) op plenty
        (switch-expired m ms e texts (rest (rest mem)) over (λ n. plenty (suc (suc n)))) refl room
        (λ n. plenty (suc (suc (suc (suc n))))) refl

  turn-get_next :
      (m next : SmtpMessage) (ms : List SmtpMessage) (texts : List (List ℕ)) (mem : Memory)
      → is_connected get_next_message_and_sending_mail_or_quit conn.peer.fd ≡ true
      → length (mail_from next.from_addr) < 256
      → length texts < 10000
      → Plenty mem
      → turn system
          (among conn
            (m ∷ next ∷ ms)
            get_next_message_and_sending_mail_or_quit
            response_2xx
            texts
            [])
          mem
        ≡ some (
          some
              (record (among conn
                (begun system.now next ∷ ms)
                mail_sended
                mail
                (texts ++ mail_from next.from_addr ∷ [])
                []) { current_rcpt = 0; current_msg_line = 0 }),
          (λ n. mem (suc (suc (suc (suc (suc (suc (suc n)))))))),
        )
  unfolding client_fsm_step
  turn-get_next m next ms texts mem op short room plenty =
      turn-command system
        (among conn (m ∷ next ∷ ms) get_next_message_and_sending_mail_or_quit response_2xx texts [])
        (record (among conn (begun system.now next ∷ ms) get_next_message_and_sending_mail_or_quit
          response_2xx texts []) { current_rcpt = 0; current_msg_line = 0 })
        (record conn.peer { messages_out = queue_of [] }) texts (mail_from next.from_addr) mail
        mail_sended mem (λ n. mem (suc (suc (suc (suc n))))) op plenty
        (switch-next m next ms texts (rest (rest mem)) short (λ n. plenty (suc (suc n)))) refl room
        (λ n. plenty (suc (suc (suc (suc n))))) refl

-- On an open connection that may send RCPT or DATA, with a first message whose time is over and two
-- more behind it: a turn drops the first and sends RSET, the turn with a 2xx reply goes on to the next
-- message, and the third turn drops the second message too and sends MAIL for the third. Nothing is
-- sent of the second, if malloc finds memory, the queue has room and MAIL fits its array.
pub turn-expired_next :
    (system : System) (conn : SmtpConnection) (m m2 m3 : SmtpMessage) (ms : List SmtpMessage)
    (e : FsmEvent) (texts : List (List ℕ)) (reply : MString) (mem : Memory)
    → is_connected mail_sended conn.peer.fd ≡ true
    → is_attempts_time_expired system.now m ≡ true
    → response_event (parse_response_code system.behind reply) ≡ response_2xx
    → length (mail_from m3.from_addr) < 256
    → length texts + 1 < 10000
    → Plenty mem
    → let texts1 = texts ++ (codes "RSET" ++ crlf) ∷ [] in
      (mem1 mem2 mem3 : Memory) × (turn system
          (among conn (m ∷ m2 ∷ m3 ∷ ms) sending_rcpt_or_data e texts [])
          mem
        ≡ some (some (among conn (m2 ∷ m3 ∷ ms) rset_sended rset texts1 []), mem1))
      × (turn system (among conn (m2 ∷ m3 ∷ ms) rset_sended rset texts1 (reply ∷ [])) mem1
          ≡ some (
            some (
                among conn
                  (m2 ∷ m3 ∷ ms)
                  get_next_message_and_sending_mail_or_quit
                  response_2xx
                  texts1
                  []),
            mem2,
          ))
      × (turn system
            (among conn
              (m2 ∷ m3 ∷ ms)
              get_next_message_and_sending_mail_or_quit
              response_2xx
              texts1
              [])
            mem2
          ≡ some (
            some
                (record (among conn
                  (begun system.now m3 ∷ ms)
                  mail_sended
                  mail
                  (texts1 ++ mail_from m3.from_addr ∷ [])
                  []) { current_rcpt = 0; current_msg_line = 0 }),
            mem3,
          ))
turn-expired_next system conn m m2 m3 ms e texts reply mem opened over ok_reply short room plenty =
    let texts1 = texts ++ (codes "RSET" ++ crlf) ∷ [] in
    let mem1 : Memory = λ n. mem (suc (suc (suc (suc (suc (suc (suc n))))))) in
    let plenty1 : Plenty mem1 = λ n. plenty (suc (suc (suc (suc (suc (suc (suc n))))))) in
    let (op1, op2, op3) = opens conn.peer.fd opened in
    let heard =
      turn-next system (among conn (m2 ∷ m3 ∷ ms) rset_sended rset texts1 (reply ∷ [])) reply []
        mem1 refl op2 refl plenty1 in
    (
      mem1,
      rest (rest mem1),
      (λ n. mem1 (suc (suc (suc (suc (suc (suc (suc (suc (suc n)))))))))),
      turn-expired system conn m (m2 ∷ m3 ∷ ms) e texts mem op1 over (omega arith) plenty,
      rw ok_reply at heard,
      turn-get_next system conn m2 m3 ms texts1 (rest (rest mem1)) op3 short
          (omega (arith, length-append texts ((codes "RSET" ++ crlf) ∷ [])))
          (λ n. plenty1 (suc (suc n))),
    )
  where
    opens :
        (fd : Option ℕ)
        → is_connected mail_sended fd ≡ true
        → (is_connected sending_rcpt_or_data fd ≡ true)
          × (is_connected rset_sended fd ≡ true)
          × (is_connected get_next_message_and_sending_mail_or_quit fd ≡ true)
    opens none h = (h, h, h)
    opens (some fd) h = (refl, refl, refl)
