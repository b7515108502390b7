-- ===== src/Client/Connection/Text.antt =====
-- The lines of a mail that a connection sends.
use mathlib.Core.Option
use pvs_kp.Base.{
  get_elem?, ℕ, suc, ◌+◌, ◌*◌, ◌≤◌, ◌<◌, ◌≡◌, refl, sym, ap, ◌∙◌, arith, true, false, Option, none,
  some, List, [], ◌∷◌, ◌++◌, length, crlf, lt→ltb, le→ltb, length-append, append_assoc, append-nil,
}
use pvs_kp.Client.Memory.{Memory, rest, Plenty}
use pvs_kp.Client.MString.{MString}
use pvs_kp.Client.MString.Contents.{str_of, concat-Plenty, string_init2-Plenty}
use pvs_kp.Client.Queue.{queue_peek}
use pvs_kp.Client.Queue.Contents.{queue_of, queue_peek-cons}
use pvs_kp.Client.Peer.Lines.{ended, joined-ended}
use pvs_kp.Client.Peer.Parse.RoundTrip.{wire}
use pvs_kp.Client.Peer.Send.Pending.{holding, joined}
use pvs_kp.Client.Message.{SmtpMessage, is_attempts_time_expired}
use pvs_kp.Client.Commands.{enddata_command}
use pvs_kp.Client.Fsm.State.{
  FsmState, FsmEvent, sending_msg_text_or_end_msg, msg_text_sended, end_data_sended, none_ev,
  msg_text, end_data,
}
use pvs_kp.Client.Fsm.{client_fsm_step}
use pvs_kp.Client.Connection.{SmtpConnection, System}
use pvs_kp.Client.Connection.Switch.{chosen, switch, text_or_end, await_response}
use pvs_kp.Client.Connection.Generate.{finish, Generated}
use pvs_kp.Client.Connection.Turn.{stepped, turn, turns}
use pvs_kp.Client.Connection.Steps.{is_connected, turn-switch, turn-command}

-- The lines of a mail as parse_message leaves them.
abbrev pub lines_of : List (List ℕ) → List (Option MString)
lines_of [] = []
lines_of (line ∷ lines) = some (str_of line) ∷ lines_of lines

get_elem?-lines_of :
    (before after : List (List ℕ)) (line : List ℕ)
    → get_elem? (lines_of (before ++ line ∷ after)) (length before) ≡ some (some (str_of line))
get_elem?-lines_of [] after line = refl
get_elem?-lines_of (b ∷ before) after line = get_elem?-lines_of before after line

-- The connection with this message before the others, at line `k`, with these texts to be sent and
-- no reply.
abbrev pub at_line :
    SmtpConnection
    → SmtpMessage
    → List SmtpMessage
    → FsmState
    → FsmEvent
    → ℕ
    → List (List ℕ)
    → SmtpConnection
at_line conn message messages s e k texts = record conn {
  messages = queue_of (message ∷ messages);
  state = s;
  last_event = e;
  current_msg_line = k;
  peer = holding (record conn.peer { messages_out = queue_of [] }) texts;
}

switch-silent :
    (system : System) (endline : Option MString) (conn : SmtpConnection) (mem : Memory)
    → conn.peer.messages_out ≡ queue_of []
    → switch system endline conn msg_text_sended mem ≡ chosen conn none none_ev mem
unfolding switch await_response queue_peek
switch-silent system endline conn mem e = rw e refl

module _ (system : System) (conn : SmtpConnection) (message : SmtpMessage)
    (messages : List SmtpMessage)
    (opened : is_connected sending_msg_text_or_end_msg conn.peer.fd ≡ true)
    (in_time : is_attempts_time_expired system.now message ≡ false) where
  switch-line :
      (e : FsmEvent) (k : ℕ) (line : List ℕ) (texts : List (List ℕ)) (mem : Memory)
      → k < message.msg_lines
      → get_elem? message.msg k ≡ some (some (str_of line))
      → Plenty mem
      → switch system
          (some (str_of crlf))
          (at_line conn message messages sending_msg_text_or_end_msg e k texts)
          sending_msg_text_or_end_msg
          mem
        ≡ chosen
            (at_line conn message messages sending_msg_text_or_end_msg e (k + 1) texts)
            (some (str_of (line ++ crlf)))
            msg_text
            (rest (rest (rest mem)))
  unfolding switch text_or_end
  switch-line e k line texts mem more there plenty =
      let joined = concat-Plenty line crlf mem plenty in
      rw (queue_peek-cons message messages)
        (rw in_time (rw (lt→ltb k message.msg_lines more) (rw there (rw joined refl))))

  turn-line :
      (e : FsmEvent) (k : ℕ) (line : List ℕ) (texts : List (List ℕ)) (mem : Memory)
      → k < message.msg_lines
      → get_elem? message.msg k ≡ some (some (str_of line))
      → length texts < 10000
      → Plenty mem
      → (mem' : Memory) × Plenty mem'
        × (turn system (at_line conn message messages sending_msg_text_or_end_msg e k texts) mem
            ≡ some (
              some (
                  at_line conn message messages msg_text_sended msg_text
                    (k + 1)
                    (texts ++ (line ++ crlf) ∷ [])),
              mem',
            ))
  unfolding client_fsm_step
  turn-line e k line texts mem more there room plenty = (
    (λ n. mem (suc (suc (suc (suc (suc (suc (suc (suc n))))))))),
    (λ n. plenty (suc (suc (suc (suc (suc (suc (suc (suc n))))))))),
    turn-command system (at_line conn message messages sending_msg_text_or_end_msg e k texts)
        (at_line conn message messages sending_msg_text_or_end_msg e (k + 1) texts)
        (record conn.peer { messages_out = queue_of [] }) texts (line ++ crlf) msg_text
        msg_text_sended mem (λ n. mem (suc (suc (suc (suc (suc n)))))) opened plenty
        (switch-line e k line texts (rest (rest mem)) more there (λ n. plenty (suc (suc n)))) refl
        room (λ n. plenty (suc (suc (suc (suc (suc n)))))) refl,
  )

  -- After a line the machine goes on at once, when no reply is there.
  turn-sended :
      (k : ℕ) (texts : List (List ℕ)) (mem : Memory)
      → Plenty mem
      → turn system (at_line conn message messages msg_text_sended msg_text k texts) mem
        ≡ some (
          some (at_line conn message messages sending_msg_text_or_end_msg none_ev k texts),
          rest (rest mem),
        )
  unfolding client_fsm_step
  turn-sended k texts mem plenty =
      let waits = at_line conn message messages msg_text_sended msg_text k texts in
      turn-switch system waits mem (still_open conn.peer.fd opened) plenty
      ∙ ap (λ w. Option.map {A = Generated} stepped (finish (some (str_of crlf)) w))
          (switch-silent system (some (str_of crlf)) waits (rest (rest mem)) refl)
    where
      still_open :
          (fd : Option ℕ)
          → is_connected sending_msg_text_or_end_msg fd ≡ true
          → is_connected msg_text_sended fd ≡ true
      still_open none h = h
      still_open (some fd) h = refl

  switch-end :
      (e : FsmEvent) (k : ℕ) (texts : List (List ℕ)) (mem : Memory)
      → message.msg_lines ≤ k
      → Plenty mem
      → switch system
          (some (str_of crlf))
          (at_line conn message messages sending_msg_text_or_end_msg e k texts)
          sending_msg_text_or_end_msg
          mem
        ≡ chosen
            (at_line conn message messages sending_msg_text_or_end_msg e k texts)
            (some (str_of (46 ∷ crlf)))
            end_data
            (rest (rest mem))
  unfolding switch text_or_end enddata_command
  switch-end e k texts mem over plenty =
      let dot = string_init2-Plenty (46 ∷ crlf) mem plenty in
      rw (queue_peek-cons message messages)
        (rw in_time (rw (le→ltb k message.msg_lines over) (rw dot refl)))

  turn-end :
      (e : FsmEvent) (k : ℕ) (texts : List (List ℕ)) (mem : Memory)
      → message.msg_lines ≤ k
      → length texts < 10000
      → Plenty mem
      → (mem' : Memory) × (turn system
            (at_line conn message messages sending_msg_text_or_end_msg e k texts)
            mem
          ≡ some (
            some (
                at_line conn message messages end_data_sended end_data k
                  (texts ++ (46 ∷ crlf) ∷ [])),
            mem',
          ))
  unfolding client_fsm_step
  turn-end e k texts mem over room plenty = (
    (λ n. mem (suc (suc (suc (suc (suc (suc (suc n)))))))),
    turn-command system (at_line conn message messages sending_msg_text_or_end_msg e k texts)
        (at_line conn message messages sending_msg_text_or_end_msg e k texts)
        (record conn.peer { messages_out = queue_of [] }) texts (46 ∷ crlf) end_data end_data_sended
        mem (λ n. mem (suc (suc (suc (suc n))))) opened plenty
        (switch-end e k texts (rest (rest mem)) over (λ n. plenty (suc (suc n)))) refl room
        (λ n. plenty (suc (suc (suc (suc n))))) refl,
  )

  turns-from :
      (before after texts : List (List ℕ)) (e : FsmEvent) (mem : Memory)
      → message.msg ≡ lines_of (before ++ after)
      → message.msg_lines ≡ length (before ++ after)
      → length texts + length after < 10000
      → Plenty mem
      → (mem' : Memory) × (turns
            (2 * length after + 1)
            system
            (at_line conn message messages sending_msg_text_or_end_msg e (length before) texts)
            mem
          ≡ some (
            some (
                at_line conn message messages end_data_sended end_data
                  (length (before ++ after))
                  (texts ++ (ended after ++ (46 ∷ crlf) ∷ []))),
            mem',
          ))
  unfolding turns
  turns-from before [] texts e mem there count room plenty =
      let same : before ++ [] ≡ before = append-nil before in
      let over : message.msg_lines ≤ length before =
        omega (arith, count, length-append before []) in
      let (mem', last) = turn-end e (length before) texts mem over (omega arith) plenty in
      (mem', rw same (rw last refl))
  turns-from before (line ∷ after) texts e mem there count room plenty =
      let split : (before ++ line ∷ []) ++ after ≡ before ++ line ∷ after =
        append_assoc before (line ∷ []) after in
      let number : 2 * suc (length after) + 1 ≡ suc (suc (2 * length after + 1)) = omega arith in
      let reached : length before + 1 ≡ length (before ++ line ∷ []) =
        omega (arith, length-append before (line ∷ [])) in
      let found : get_elem? message.msg (length before) ≡ some (some (str_of line)) =
        ap (λ ls. get_elem? ls (length before)) there ∙ get_elem?-lines_of before after line in
      let (mem1, plenty1, sent) =
        turn-line e (length before) line texts mem
          (omega (arith, count, length-append before (line ∷ after))) found (omega arith) plenty in
      let went_on = turn-sended (length before + 1) (texts ++ (line ++ crlf) ∷ []) mem1 plenty1 in
      let (mem', ih) =
        turns-from (before ++ line ∷ []) after (texts ++ (line ++ crlf) ∷ []) none_ev
          (rest (rest mem1)) (rw split there) (rw split count)
          (omega (arith, length-append texts ((line ++ crlf) ∷ []))) (λ n. plenty1 (suc (suc n))) in
      let gathered : (texts ++ (line ++ crlf) ∷ []) ++ (ended after ++ (46 ∷ crlf) ∷ [])
          ≡ texts ++ (line ++ crlf) ∷ (ended after ++ (46 ∷ crlf) ∷ []) =
        append_assoc texts ((line ++ crlf) ∷ []) (ended after ++ (46 ∷ crlf) ∷ []) in
      (mem', rw number (rw sent (rw went_on (rw reached (ih ∙ rw gathered (rw split refl))))))

joined-append : (a b : List (List ℕ)) → joined (a ++ b) ≡ joined a ++ joined b
joined-append [] b = refl
joined-append (t ∷ a) b =
    ap (λ r. t ++ r) (joined-append a b) ∙ sym (append_assoc t (joined a) (joined b))

-- On an open connection that may send the text of a message, within the message's time, if malloc
-- finds memory and the queue has room: when no reply comes, two turns for each line and one more leave
-- the connection waiting for the reply to the end of the text, and have put behind what it has to
-- send all lines in their order, each with CR LF behind it, and then a dot and CR LF. Nothing is done
-- for a line that is itself a dot.
pub turns-wire :
    (system : System) (conn : SmtpConnection) (message : SmtpMessage) (messages : List SmtpMessage)
    (lines texts : List (List ℕ)) (e : FsmEvent) (mem : Memory)
    → is_connected sending_msg_text_or_end_msg conn.peer.fd ≡ true
    → is_attempts_time_expired system.now message ≡ false
    → message.msg ≡ lines_of lines
    → message.msg_lines ≡ length lines
    → length texts + length lines < 10000
    → Plenty mem
    → (mem' : Memory) × (sent : List (List ℕ)) × (turns
          (2 * length lines + 1)
          system
          (at_line conn message messages sending_msg_text_or_end_msg e 0 texts)
          mem
        ≡ some (
          some (
              at_line conn message messages end_data_sended end_data
                (length lines)
                (texts ++ sent)),
          mem',
        ))
      × (joined sent ≡ wire lines ++ 46 ∷ crlf)
turns-wire system conn message messages lines texts e mem opened in_time there count room plenty =
    let (mem', ran) =
      turns-from system conn message messages opened in_time [] lines texts e mem there count room
        plenty in
    (
      mem',
      ended lines ++ (46 ∷ crlf) ∷ [],
      ran,
      joined-append (ended lines) ((46 ∷ crlf) ∷ []) ∙ rw (joined-ended lines) refl,
    )
