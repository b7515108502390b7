-- ===== src/Client/Connection/Exits.antt =====
-- When a turn of a connection ends the process of the worker.
use mathlib.Core.Option
use pvs_kp.Base.{
  ℕ, ◌≡◌, refl, sym, ap, ◌∙◌, inl, inr, arith, Bool, true, false, not, ◌&&◌, ◌||◌, Option, none,
  some, Bool-cases, Option-cases, ltb, leb, ◌==◌, crlf,
}
use pvs_kp.Client.Memory.{Memory}
use pvs_kp.Client.MString.{MString, string_init2}
use pvs_kp.Client.Queue.{queue_peek}
use pvs_kp.Client.Peer.{add_message}
use pvs_kp.Client.Fsm.State.{
  FsmState, init, hello_sended, data_sended, rset_sended, msg_text_sended, sending_quit,
  closed_connection, invalid, done, FsmEvent, close_connection, is_row,
}
use pvs_kp.Client.Fsm.{client_fsm_step}
use pvs_kp.Client.Connection.{
  SmtpConnection, System, smtp_connection_reinit, has_more_connection_attempts, can_reconnect_now,
}
use pvs_kp.Client.Connection.Switch.{Switched, undefined_, returned, chosen, switch}
use pvs_kp.Client.Connection.Generate.{
  finish, Generated, generate_switched, generate_connected, generate_in, generate_event,
}
use pvs_kp.Client.Connection.Reply.{response_event}
use pvs_kp.Client.Connection.Turn.{stepped, turn}
use pvs_kp.Client.Connection.Says.{
  is_none, awaits, emits, client_fsm_step-emits, Says, lives, switch-Says,
}

-- The replies that a state has a transition for, and the numbers that are no reply.
abbrev pub served : FsmState → ℕ → Bool
served s code = not (leb 200 code && ltb code 600) || in_range s
  where
    not_3xx : Bool
    not_3xx = not (leb 300 code && ltb code 400)

    in_range : FsmState → Bool
    in_range init = ltb code 300
    in_range hello_sended = not_3xx
    in_range data_sended = (leb 300 code && ltb code 400) || (leb 500 code && not (code == 502))
    in_range rset_sended = ltb code 300
    in_range msg_text_sended = false
    in_range _ = not_3xx && not (code == 502)

-- In a state that waits for a reply, the process ends on exactly these codes: all from 300 to 599 in
-- the initial state and behind RSET, where 2xx is served; 3xx and 502 behind EHLO, MAIL, RCPT, QUIT
-- and the end of a text; 3xx behind HELO; 2xx, 4xx and 502 behind DATA; and all behind a line of text.
pub client_fsm_step-served :
    (s : FsmState) (code : ℕ)
    → awaits s ≡ true
    → is_none (client_fsm_step s (response_event code)) ≡ not (served s code)
unfolding client_fsm_step response_event
client_fsm_step-served init code h = ground arith
client_fsm_step-served s code h = ground arith

-- What generate_event gives has a state of the table and one of its events.
abbrev Emitted : Option Generated → Type 0
Emitted none = Unit
Emitted (some (conn, e, mem)) = (is_row conn.state ≡ true) × (emits conn.state e ≡ true)

finish-Emitted :
    (s : FsmState) (endline : Option MString) (w : Switched)
    → is_row s ≡ true
    → Says s w
    → Emitted (finish endline w)
finish-Emitted s endline undefined_ row says = tt
finish-Emitted s endline (returned conn e mem) row (same, h) = (rw same row, rw same h)
finish-Emitted s none (chosen conn command e mem) row says = tt
finish-Emitted s (some endline) (chosen conn none e mem) row (same, h) = (rw same row, rw same h)
finish-Emitted s (some endline) (chosen conn (some command) e mem) row (same, h) =
    elim (Option-cases (add_message conn.peer command none mem)) [
      | inl p ↦ rw p tt
      | inr (r, p) ↦ rw p (rw same row, rw same h)
    ]

lives-is_row : (s : FsmState) (e : FsmEvent) → lives s e ≡ true → is_row s ≡ true
lives-is_row init e h = refl
lives-is_row invalid e h = cc
lives-is_row done e h = cc
lives-is_row sending_quit e h = cc
lives-is_row s e h = refl

generate_switched-Emitted :
    (system : System) (conn : SmtpConnection) (mem : Memory)
    → lives conn.state conn.last_event ≡ true
    → queue_peek conn.peer.messages_out ≡ none
    → Emitted (generate_switched system conn mem)
unfolding generate_switched
generate_switched-Emitted system conn mem h silent =
    let (endline, mem1) = string_init2 crlf 2 mem in
    finish-Emitted conn.state endline (switch system endline conn conn.state mem1)
      (lives-is_row conn.state conn.last_event h)
      (switch-Says system endline conn.state conn mem1 refl h silent)

emits-close_connection : (s : FsmState) → emits s close_connection ≡ true
emits-close_connection init = refl
emits-close_connection s = refl

smtp_connection_reinit-Emitted :
    (system : System) (conn : SmtpConnection) (mem : Memory)
    → queue_peek conn.peer.messages_out ≡ none
    → Emitted (generate_switched system (smtp_connection_reinit system conn) mem)
unfolding smtp_connection_reinit
smtp_connection_reinit-Emitted system conn mem silent =
    generate_switched-Emitted system (smtp_connection_reinit system conn) mem refl silent

generate_connected-Emitted :
    (system : System) (conn : SmtpConnection) (fd : Option ℕ) (mem : Memory)
    → lives conn.state conn.last_event ≡ true
    → queue_peek conn.peer.messages_out ≡ none
    → Emitted (generate_connected system conn fd mem)
unfolding generate_connected
generate_connected-Emitted system conn (some fd) mem h silent =
    generate_switched-Emitted system conn mem h silent
generate_connected-Emitted system conn none mem h silent =
    elim (Bool-cases (has_more_connection_attempts conn)) [
      | inr e ↦ rw e (lives-is_row conn.state conn.last_event h, emits-close_connection conn.state)
      | inl e ↦ elim (Bool-cases (can_reconnect_now system conn)) [
        | inl c ↦ rw e (rw c (smtp_connection_reinit-Emitted system conn mem silent))
        | inr c ↦ rw e (rw c (generate_switched-Emitted system conn mem h silent))
      ]
    ]

generate_in-Emitted :
    (system : System) (conn : SmtpConnection) (s : FsmState) (mem : Memory)
    → conn.state ≡ s
    → lives conn.state conn.last_event ≡ true
    → queue_peek conn.peer.messages_out ≡ none
    → Emitted (generate_in system conn s mem)
unfolding generate_in
generate_in-Emitted system conn closed_connection mem same h silent = (rw same refl, rw same refl)
generate_in-Emitted system conn init mem same h silent =
    generate_connected-Emitted system conn conn.peer.fd mem h silent
generate_in-Emitted system conn s mem same h silent =
    generate_connected-Emitted system conn conn.peer.fd mem h silent

is_none-map :
    (conn : SmtpConnection) (o : Option FsmState)
    → is_none (Option.map (λ s. record conn { state = s }) o) ≡ is_none o
is_none-map conn none = refl
is_none-map conn (some s) = refl

stepped-lives :
    (g : Option Generated) (r : Option SmtpConnection) (mem : Memory)
    → Emitted g
    → Option.map {A = Generated} stepped g ≡ some (r, mem)
    → is_none r ≡ false
stepped-lives none r mem em ran = cc
stepped-lives (some (conn, e, mem1)) r mem (row, em) ran =
    let same = Option.some-injective (stepped (conn, e, mem1)) (r, mem) ran in
    ap (λ p. is_none p.0) (sym same)
    ∙ is_none-map conn (client_fsm_step conn.state e)
    ∙ client_fsm_step-emits conn.state e row em

-- While no reply is there, no turn of a connection that is defined ends the process: from every state
-- that `lives` names, and whatever socket, connect and the clock give. These are all states
-- of the table but sending_quit, which nothing leads to, and the one that takes the next message if
-- the last event was a 4xx reply, which none of the transitions to it leave.
turn-lives :
    (system : System) (conn : SmtpConnection) (mem mem1 : Memory) (r : Option SmtpConnection)
    → lives conn.state conn.last_event ≡ true
    → queue_peek conn.peer.messages_out ≡ none
    → turn system conn mem ≡ some (r, mem1)
    → is_none r ≡ false
unfolding turn generate_event
turn-lives system conn mem mem1 r h silent ran =
    stepped-lives (generate_in system conn conn.state mem) r mem1
      (generate_in-Emitted system conn conn.state mem refl h silent) ran
