-- ===== src/Client/Connection/Replies.antt =====
-- What a reply makes of a connection.
use mathlib.Core.Option
use pvs_kp.Base.{◌≡◌, refl, ap, ◌∙◌, true, Option, none, some, List, [], ◌∷◌, arith, crlf}
use pvs_kp.Client.Memory.{Memory, rest, Plenty}
use pvs_kp.Client.MString.{MString}
use pvs_kp.Client.MString.Contents.{str_of}
use pvs_kp.Client.Queue.Contents.{queue_of, queue_peek-cons}
use pvs_kp.Client.Fsm.State.{
  FsmState, init, hello_sended, ehlo_sended, mail_sended, rcpt_sended, data_sended, rset_sended,
  msg_text_sended, end_data_sended, quit_sended, is_row,
}
use pvs_kp.Client.Fsm.Graph.{fsm_next, client_fsm_step-next}
use pvs_kp.Client.Connection.{SmtpConnection, System}
use pvs_kp.Client.Connection.Switch.{chosen, switch, await_response}
use pvs_kp.Client.Connection.Generate.{finish, Generated}
use pvs_kp.Client.Connection.Reply.{parse_response_code, response_event}
use pvs_kp.Client.Connection.Turn.{stepped, turn}
use pvs_kp.Client.Connection.Says.{awaits}
use pvs_kp.Client.Connection.Steps.{is_connected, turn-switch, pop_all-queue_of}

switch-awaits :
    (system : System) (endline : Option MString) (conn : SmtpConnection) (s : FsmState)
    (mem : Memory)
    → awaits s ≡ true
    → switch system endline conn s mem ≡ await_response system conn mem
unfolding switch
switch-awaits system endline conn init mem h = refl
switch-awaits system endline conn hello_sended mem h = refl
switch-awaits system endline conn ehlo_sended mem h = refl
switch-awaits system endline conn mail_sended mem h = refl
switch-awaits system endline conn rcpt_sended mem h = refl
switch-awaits system endline conn data_sended mem h = refl
switch-awaits system endline conn rset_sended mem h = refl
switch-awaits system endline conn msg_text_sended mem h = refl
switch-awaits system endline conn end_data_sended mem h = refl
switch-awaits system endline conn quit_sended mem h = refl
switch-awaits system endline conn s mem h = cc

await_response-reply :
    (system : System) (conn : SmtpConnection) (reply : MString) (replies : List MString)
    (mem : Memory)
    → conn.peer.messages_out ≡ queue_of (reply ∷ replies)
    → await_response system conn mem
      ≡ chosen
          (record conn { peer = record conn.peer { messages_out = queue_of [] } })
          none
          (response_event (parse_response_code system.behind reply))
          mem
unfolding await_response
await_response-reply system conn reply replies mem out =
    rw out (rw (queue_peek-cons reply replies) (rw (pop_all-queue_of (reply ∷ replies)) refl))

awaits-is_row : (s : FsmState) → awaits s ≡ true → is_row s ≡ true
awaits-is_row init h = refl
awaits-is_row s h = ground arith

-- In a state that waits for a reply, on an open connection, a turn takes the event from the code of
-- the first of the replies, forgets all of them, and goes to the state that client.def names, or ends
-- the process where it names none, if malloc finds memory.
pub turn-next :
    (system : System) (conn : SmtpConnection) (reply : MString) (replies : List MString)
    (mem : Memory)
    → awaits conn.state ≡ true
    → is_connected conn.state conn.peer.fd ≡ true
    → conn.peer.messages_out ≡ queue_of (reply ∷ replies)
    → Plenty mem
    → let e = response_event (parse_response_code system.behind reply) in
      turn system conn mem
      ≡ some (
        Option.map
            (λ s. record conn {
              state = s;
              last_event = e;
              peer = record conn.peer { messages_out = queue_of [] };
            })
            (fsm_next conn.state e),
        rest (rest mem),
      )
turn-next system conn reply replies mem waits opened out plenty =
    let e = response_event (parse_response_code system.behind reply) in
    let reached : Option FsmState → Option (Option SmtpConnection × Memory) = λ o. some (
      Option.map
          (λ s. record conn {
            state = s;
            last_event = e;
            peer = record conn.peer { messages_out = queue_of [] };
          })
          o,
      rest (rest mem),
    ) in
    turn-switch system conn mem opened plenty
    ∙ ap (λ w. Option.map {A = Generated} stepped (finish (some (str_of crlf)) w))
        (switch-awaits system (some (str_of crlf)) conn conn.state (rest (rest mem)) waits
          ∙ await_response-reply system conn reply replies (rest (rest mem)) out)
    ∙ ap reached (client_fsm_step-next conn.state e (awaits-is_row conn.state waits))
