-- ===== src/Client/Connection/Steps.antt =====
-- A turn of a connection that has a descriptor, when malloc finds memory.
use mathlib.Core.Option
use pvs_kp.Base.{
  ℕ, ◌<◌, ◌≡◌, refl, ap, ◌∙◌, arith, Bool, true, false, Option, none, some, List, [], ◌∷◌, ◌++◌,
  length, crlf, ==-suc_zero,
}
use pvs_kp.Client.Errors.{success}
use pvs_kp.Client.Memory.{Memory, rest, Plenty}
use pvs_kp.Client.MString.{MString}
use pvs_kp.Client.MString.Contents.{str_of, string_init2-Plenty}
use pvs_kp.Client.Queue.{queue_is_empty}
use pvs_kp.Client.Queue.Contents.{
  queue_of, strings_of, queue_pop_front-cons, queue_push_back-Plenty, strings_of-append,
  length-strings_of,
}
use pvs_kp.Client.Peer.{Peer, add_message}
use pvs_kp.Client.Peer.Send.Pending.{holding}
use pvs_kp.Client.Fsm.State.{FsmState, FsmEvent, closed_connection, init}
use pvs_kp.Client.Fsm.{client_fsm_step}
use pvs_kp.Client.Connection.{SmtpConnection, System}
use pvs_kp.Client.Connection.Switch.{chosen, switch, pop_all}
use pvs_kp.Client.Connection.Generate.{
  finish, Generated, generate_switched, generate_connected, generate_in, generate_event,
}
use pvs_kp.Client.Connection.Turn.{stepped, turn}

-- A connection that is open: it has a descriptor, and it is not in the state of a closed one.
abbrev pub is_connected : FsmState → Option ℕ → Bool
is_connected closed_connection fd = false
is_connected s none = false
is_connected s (some fd) = true

generate_in-open :
    (system : System) (conn : SmtpConnection) (s : FsmState) (fd : Option ℕ) (mem : Memory)
    → conn.peer.fd ≡ fd
    → is_connected s fd ≡ true
    → generate_in system conn s mem ≡ generate_switched system conn mem
unfolding generate_in generate_connected
generate_in-open system conn closed_connection fd mem same h = cc
generate_in-open system conn init (some fd) mem same h = rw same refl
generate_in-open system conn init none mem same h = cc
generate_in-open system conn s (some fd) mem same h = rw same refl
generate_in-open system conn s none mem same h = cc

pub turn-switch :
    (system : System) (conn : SmtpConnection) (mem : Memory)
    → is_connected conn.state conn.peer.fd ≡ true
    → Plenty mem
    → turn system conn mem
      ≡ Option.map {A = Generated} stepped (
          finish
            (some (str_of crlf))
            (switch system (some (str_of crlf)) conn conn.state (rest (rest mem))))
unfolding turn generate_event generate_switched
turn-switch system conn mem h plenty =
    let endline = string_init2-Plenty crlf mem plenty in
    ap (Option.map {A = Generated} stepped)
      (generate_in-open system conn conn.state conn.peer.fd mem refl h ∙ rw endline refl)

pub pop_all-queue_of : (xs : List MString) → pop_all xs (queue_of xs) ≡ some (queue_of [])
unfolding pop_all queue_is_empty
pop_all-queue_of [] = refl
pop_all-queue_of (x ∷ xs) =
    rw (==-suc_zero (length xs)) (rw (queue_pop_front-cons x xs) (pop_all-queue_of xs))

-- A command without an end marker goes behind the other messages.
pub add_message-command :
    (p : Peer) (texts : List (List ℕ)) (text : List ℕ) (mem : Memory)
    → length texts < 10000
    → Plenty mem
    → add_message (holding p texts) (str_of text) none mem
      ≡ some (holding p (texts ++ text ∷ []), success, rest (rest (rest mem)))
unfolding add_message
add_message-command p texts text mem room plenty =
    let pushed =
      queue_push_back-Plenty (strings_of texts) text mem (omega (arith, length-strings_of texts))
        plenty in
    rw pushed (rw (strings_of-append texts text) refl)

-- A turn that sends a command.
pub turn-command :
    (system : System) (conn conn1 : SmtpConnection) (p : Peer) (texts : List (List ℕ))
    (text : List ℕ) (e : FsmEvent) (s : FsmState) (mem mem1 : Memory)
    → is_connected conn.state conn.peer.fd ≡ true
    → Plenty mem
    → switch system (some (str_of crlf)) conn conn.state (rest (rest mem))
      ≡ chosen conn1 (some (str_of text)) e mem1
    → conn1.peer ≡ holding p texts
    → length texts < 10000
    → Plenty mem1
    → client_fsm_step conn1.state e ≡ some s
    → turn system conn mem
      ≡ some (
        some (record conn1 { last_event = e; state = s; peer = holding p (texts ++ text ∷ []) }),
        rest (rest (rest mem1)),
      )
turn-command system conn conn1 p texts text e s mem mem1 h plenty switched at_peer room plenty1
      step =
    let added = add_message-command p texts text mem1 room plenty1 in
    turn-switch system conn mem h plenty
    ∙ ap (λ w. Option.map {A = Generated} stepped (finish (some (str_of crlf)) w)) switched
    ∙ rw at_peer (rw added (rw step refl))
