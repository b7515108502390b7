-- ===== src/Client/Examples.antt =====
-- A peer, a mail and a connection, on which the theorems about the client are applied.
use mathlib.Core.Option
use pvs_kp.Base.{
  ℕ, ◌+◌, ◌*◌, ◌<◌, ◌≡◌, ◌≢◌, refl, arith, Bool, true, false, not, ◌&&◌, none, some, List, [], ◌∷◌,
  ◌++◌, length, drop, replicate, length-replicate, codes, crlf, ltb, ◌==◌,
}
use pvs_kp.Client.Errors.{success, send_error}
use pvs_kp.Client.Memory.{Memory, rest, Plenty}
use pvs_kp.Client.MString.{MString}
use pvs_kp.Client.MString.Contents.{str_of}
use pvs_kp.Client.Queue.Contents.{queue_of, strings_of}
use pvs_kp.Client.Peer.{Peer, fdt_socket}
use pvs_kp.Client.Peer.Parse.{parse_buffer}
use pvs_kp.Client.Peer.Parse.RoundTrip.{IsLine, wire}
use pvs_kp.Client.Peer.Lines.{add_lines, add_lines-parse_buffer}
use pvs_kp.Client.Peer.Send.{peer_send}
use pvs_kp.Client.Peer.Send.Pending.{holding, joined, pending, IsSendable}
use pvs_kp.Client.Peer.Send.Sent.{peer_send-pending, peer_send-failed}
use pvs_kp.Client.Message.{SmtpMessage, is_attempts_time_expired}
use pvs_kp.Client.Fsm.State.{
  mail_sended, rset_sended, data_sended, none_ev, sending_msg_text_or_end_msg, end_data_sended,
  end_data, sending_rcpt_or_data, response_2xx, response_4xx, rset, mail,
  get_next_message_and_sending_mail_or_quit,
}
use pvs_kp.Client.Fsm.{client_fsm_step}
use pvs_kp.Client.Fsm.Graph.{fsm_next, client_fsm_step-next}
use pvs_kp.Client.Connection.{SmtpConnection, System, at_ipv4}
use pvs_kp.Client.Connection.Reply.{parse_response_code, response_event}
use pvs_kp.Client.Connection.Turn.{turn, turns}
use pvs_kp.Client.Connection.Says.{is_none}
use pvs_kp.Client.Connection.Exits.{served, client_fsm_step-served}
use pvs_kp.Client.Connection.Replies.{turn-next}
use pvs_kp.Client.Connection.Text.{lines_of, at_line, turns-wire}
use pvs_kp.Client.Connection.Expired.{among, begun, mail_from, turn-expired_next}

abbrev pub memory : Memory
memory n = some []

pub plenty : Plenty memory
plenty n e = cc

abbrev all_lines : List ℕ → Bool
all_lines [] = true
all_lines (c ∷ cs) = (ltb 0 c && not (c == 13)) && all_lines cs

line_byte :
    (c : ℕ) (rest : Bool)
    → ((ltb 0 c && not (c == 13)) && rest) ≡ true
    → (0 < c) × (c ≢ 13) × (rest ≡ true)
line_byte c rest h = ground arith

text-IsLine : (text : List ℕ) → all_lines text ≡ true → IsLine text
text-IsLine [] h = tt
text-IsLine (c ∷ cs) h =
    let (pos, not_cr, more) = line_byte c (all_lines cs) h in ((pos, not_cr), text-IsLine cs more)

abbrev peer : Peer
peer = record {
  fd = some 3;
  type_ = fdt_socket;
  messages_in = queue_of [];
  message_in_begin = 0;
  buffer_in = replicate 1024 0;
  buffer_in_size = 0;
  messages_out = queue_of [];
  buffer_out = replicate 1024 0;
  buffer_out_size = 0;
}

abbrev quit_text : List ℕ
quit_text = codes "QUIT" ++ crlf

peer-IsSendable : IsSendable peer (quit_text ∷ [])
peer-IsSendable = (length-replicate {A = ℕ} 1024 0, omega arith, omega arith)

abbrev two_lines : List (List ℕ)
two_lines = codes "250-mx" ∷ codes "250 OK" ∷ []

add_lines-parse_buffer_example :
    (texts : List (List ℕ)) × (mem' mem1' : Memory) × (add_lines two_lines (holding peer []) memory
      ≡ some (holding peer texts, mem'))
    × (parse_buffer (pending peer texts ++ codes "354") crlf memory
        ≡ some (some (queue_of (strings_of two_lines)), length (pending peer texts), mem1'))
add_lines-parse_buffer_example =
    add_lines-parse_buffer two_lines (codes "354") peer memory memory
      (text-IsLine (codes "250-mx") refl, (text-IsLine (codes "250 OK") refl, tt))
      (text-IsLine (codes "354") refl) (omega arith) refl refl plenty plenty

peer_send-pending_example :
    (p' : Peer) × (texts' : List (List ℕ)) × (peer_send
        (λ bytes. some 4)
        none
        (holding peer (quit_text ∷ []))
      ≡ some (holding p' texts', success))
    × (pending p' texts' ≡ drop 4 (pending peer (quit_text ∷ [])))
    × IsSendable p' texts'
    × (p'.fd ≡ peer.fd)
peer_send-pending_example =
    peer_send-pending (λ bytes. some 4) none peer (quit_text ∷ []) 4 peer-IsSendable (omega arith)
      (λ e. cc) refl (omega arith)

peer_send-failed_example :
    (p' : Peer) × (texts' : List (List ℕ)) × (peer_send
        (λ bytes. none)
        none
        (holding peer (quit_text ∷ []))
      ≡ some (holding p' texts', send_error))
    × (p'.fd ≡ none)
    × (pending p' texts' ≡ pending peer (quit_text ∷ []))
    × IsSendable p' texts'
peer_send-failed_example =
    peer_send-failed (λ bytes. none) none peer (quit_text ∷ []) peer-IsSendable (omega arith)
      (λ e. cc) refl

client_fsm_step-next_example :
    client_fsm_step mail_sended response_4xx ≡ fsm_next mail_sended response_4xx
client_fsm_step-next_example = client_fsm_step-next mail_sended response_4xx refl

client_fsm_step-served_example :
    is_none (client_fsm_step data_sended (response_event 451)) ≡ not (served data_sended 451)
client_fsm_step-served_example = client_fsm_step-served data_sended 451 refl

abbrev pub letter : List ℕ → SmtpMessage
letter from = record {
  from_addr = from;
  recipients_addr = codes "b@c" ∷ [];
  recipients_count = 1;
  msg = lines_of (codes "hi" ∷ codes "." ∷ []);
  msg_lines = 2;
  attempt_start_time = 0;
  last_attempt_time = 0;
  max_attempts_time = 60;
  min_interval_between_attempts = 5;
}

abbrev conn : SmtpConnection
conn = record {
  addr = codes "c";
  ip = some (str_of (codes "127.0.0.1"));
  ip_type = at_ipv4;
  messages = queue_of [];
  state = mail_sended;
  last_event = mail;
  peer = peer;
  current_rcpt = 0;
  current_msg_line = 0;
  current_connection_num = 1;
  last_connection_time = 0;
  max_connect_count = 3;
  min_interval_between_connect = 10;
}

-- The time is given; the system refuses connections.
abbrev at_time : ℕ → System
at_time now = record { now = now; socket = none; connect = (λ ip port. false); behind = 0 ∷ [] }

abbrev ok_text : MString
ok_text = str_of (codes "250 OK")

-- The connection when a reply is there.
abbrev answered : SmtpConnection
answered = record conn { peer = record peer { messages_out = queue_of (ok_text ∷ []) } }

turn-next_example :
    turn (at_time 5) answered memory
    ≡ some (
      Option.map
          (λ s. record answered {
            state = s;
            last_event = response_event (parse_response_code (0 ∷ []) ok_text);
            peer = record answered.peer { messages_out = queue_of [] };
          })
          (fsm_next mail_sended (response_event (parse_response_code (0 ∷ []) ok_text))),
      rest (rest memory),
    )
turn-next_example = turn-next (at_time 5) answered ok_text [] memory refl refl refl plenty

abbrev two_texts : List (List ℕ)
two_texts = codes "hi" ∷ codes "." ∷ []

turns-wire_example :
    (mem' : Memory) × (sent : List (List ℕ)) × (turns
        (2 * length two_texts + 1)
        (at_time 5)
        (at_line conn (letter (codes "a@c")) [] sending_msg_text_or_end_msg none_ev 0 [])
        memory
      ≡ some (
        some (
            at_line conn
              (letter (codes "a@c"))
              []
              end_data_sended
              end_data
              (length two_texts)
              ([] ++ sent)),
        mem',
      ))
    × (joined sent ≡ wire two_texts ++ 46 ∷ crlf)
unfolding is_attempts_time_expired
turns-wire_example =
    turns-wire (at_time 5) conn (letter (codes "a@c")) [] two_texts [] none_ev memory refl refl refl
      refl (omega arith) plenty

abbrev reset_text : List (List ℕ)
reset_text = [] ++ (codes "RSET" ++ crlf) ∷ []

turn-expired_next_example :
    (mem1 mem2 mem3 : Memory) × (turn
        (at_time 99)
        (among conn
          (letter (codes "a@c") ∷ letter (codes "d@c") ∷ letter (codes "e@c") ∷ [])
          sending_rcpt_or_data
          response_2xx
          []
          [])
        memory
      ≡ some (
        some (
            among conn
              (letter (codes "d@c") ∷ letter (codes "e@c") ∷ [])
              rset_sended
              rset
              reset_text
              []),
        mem1,
      ))
    × (turn
          (at_time 99)
          (among conn
            (letter (codes "d@c") ∷ letter (codes "e@c") ∷ [])
            rset_sended
            rset
            reset_text
            (ok_text ∷ []))
          mem1
        ≡ some (
          some (
              among conn
                (letter (codes "d@c") ∷ letter (codes "e@c") ∷ [])
                get_next_message_and_sending_mail_or_quit
                response_2xx
                reset_text
                []),
          mem2,
        ))
    × (turn
          (at_time 99)
          (among conn
            (letter (codes "d@c") ∷ letter (codes "e@c") ∷ [])
            get_next_message_and_sending_mail_or_quit
            response_2xx
            reset_text
            [])
          mem2
        ≡ some (
          some
              (record (among conn
                (begun 99 (letter (codes "e@c")) ∷ [])
                mail_sended
                mail
                (reset_text ++ mail_from (codes "e@c") ∷ [])
                []) { current_rcpt = 0; current_msg_line = 0 }),
          mem3,
        ))
unfolding is_attempts_time_expired parse_response_code response_event
turn-expired_next_example =
    turn-expired_next (at_time 99) conn (letter (codes "a@c")) (letter (codes "d@c"))
      (letter (codes "e@c")) [] response_2xx [] ok_text memory refl refl refl (omega arith)
      (omega arith) plenty
