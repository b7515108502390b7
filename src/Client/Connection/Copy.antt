-- ===== src/Client/Connection/Copy.antt =====
-- client/src/SMTP_connection.c, client/src/SMTP_message.c: connections made and copied. What the
-- resolver finds is a parameter: the text of the first record for a host. The fields that the code does
-- not set are those of an argument.
use pvs_kp.Base.{
  ℕ, zero, suc, ◌+◌, ◌-◌, ◌*◌, Bool, true, false, Option, none, some, List, [], ◌∷◌, length, drop,
  codes, c_string, ◌==◌, ◌||◌, if◌then◌else◌,
}
use pvs_kp.Client.Connection.{
  AddrType, at_ipv4, at_ipv6, at_host, SmtpConnection, System, connect_server,
}
use pvs_kp.Client.Errors.{Code, success, memory_error, queue_overflow}
use pvs_kp.Client.FileParser.{byte_at}
use pvs_kp.Client.Fsm.State.{init}
use pvs_kp.Client.Memory.{malloc}
use pvs_kp.Client.Message.{SmtpMessage}
use pvs_kp.Client.MString.{MString, string_init2, string_copy}
use pvs_kp.Client.Peer.{Peer, peer_init, peer_copy, fdt_socket}
use pvs_kp.Client.Queue.{Queue, queue_init, at_back}
use pvs_kp.Client.Unsafe.{Unsafe, ◌>>=◌, return, undefined, maybe, used, unless_null}

-- ns_t_mx, ns_t_a.
pub data RecordType : Type 0 where
  ns_t_mx ns_t_a : RecordType

-- The rows that ns_sprintrr prints, `none` where a call before it fails.
abbrev pub Resolver : Type 0
Resolver = List ℕ → RecordType → Option (List ℕ)

-- The loop down to the last blank or tab before a place; `none` is -1.
unfoldable pub space_from : List ℕ → ℕ → Option ℕ
space_from row zero = none
space_from row (suc n) =
    let before = space_from row n in
    if (byte_at row n == 32) || (byte_at row n == 9) then some n else before

abbrev behind_space : List ℕ → Option ℕ → Unsafe (Option MString)
behind_space row none = return none
behind_space row (some n) = maybe (string_init2 (drop (n + 1) row) (length row - (n + 1)))

abbrev pub row_string : Option (List ℕ) → Unsafe (Option MString)
row_string none = return none
row_string (some row) = behind_space row (space_from row (length row + 1))

unfoldable pub get_dns_record : Resolver → List ℕ → RecordType → Unsafe (Option MString)
unfolding space_from
get_dns_record resolver host type_ = row_string (resolver host type_)

-- strcmp of the host and localhost.
abbrev pub same_text : List ℕ → List ℕ → Bool
same_text [] [] = true
same_text (a ∷ as') (b ∷ bs) = let rest = same_text as' bs in if a == b then rest else false
same_text _ _ = false

unfoldable pub get_ip : Resolver → List ℕ → Unsafe (Option MString)
unfolding get_dns_record
get_ip resolver host =
    let localhost = maybe (string_init2 (codes "127.0.0.1") 9) in
    let resolved : Unsafe (Option MString) = (do
      mx ← get_dns_record resolver host ns_t_mx
      unless_null {A = MString} mx (λ mx. get_dns_record resolver (c_string mx.data_) ns_t_a)) in
    if same_text host (codes "localhost") then localhost else resolved

-- The type of the address that is connected to: a host is connected to by an address of IPv4, and
-- at_host stands for every number that is no type.
abbrev pub ip_type_of : ℕ → AddrType
ip_type_of n = if (n == 0) || (n == 2) then at_ipv4 else if n == 1 then at_ipv6 else at_host

abbrev pub ip_of : Resolver → List ℕ → ℕ → Unsafe (Option MString)
ip_of resolver addr type_ =
    let resolved = get_ip resolver addr in
    let given = maybe (string_init2 addr (length addr)) in if type_ == 2 then resolved else given

unfoldable pub smtp_connection_init :
    Resolver → System → ℕ → ℕ → SmtpConnection → List ℕ → ℕ → Unsafe (Option SmtpConnection)
unfolding get_ip connect_server
smtp_connection_init resolver system max_connect_count min_interval unset addr type_ = do
  conn ← maybe (malloc 120)
  unless_null {A = List ℕ} conn (λ conn. (do
    addr1 ← maybe (malloc (length addr + 1))
    unless_null {A = List ℕ} addr1 (λ addr1. (do
      messages ← maybe queue_init
      unless_null {A = Queue SmtpMessage} messages (λ messages. (do
        ip ← ip_of resolver addr type_
        let fd = connect_server system ip (ip_type_of type_)
        peer ← maybe (peer_init fd fdt_socket)
        unless_null {A = Peer} peer (λ peer. return (
            some (record unset {
              state = init;
              addr = addr;
              current_msg_line = 0;
              current_rcpt = 0;
              current_connection_num = 1;
              max_connect_count = max_connect_count;
              min_interval_between_connect = min_interval;
              messages = messages;
              ip = ip;
              ip_type = ip_type_of type_;
              last_connection_time = system.now;
              peer = peer;
            })))))))))

-- The first rows, each copied into memory of its own.
unfoldable pub copy_rows : ℕ → List (List ℕ) → Unsafe (List (List ℕ))
copy_rows zero rows = return []
copy_rows (suc n) [] = undefined
copy_rows (suc n) (row ∷ rows) = do
  to ← maybe (malloc (length row + 1))
  filled ← used to
  others ← copy_rows n rows
  return (row ∷ others)

-- The first lines. A copy that is NULL stays in the array.
unfoldable pub copy_lines : ℕ → List (Option MString) → Unsafe (List (Option MString))
unfolding string_copy
copy_lines zero lines = return []
copy_lines (suc n) [] = undefined
copy_lines (suc n) (line ∷ lines) = do
  other ← used line
  copy ← maybe (string_copy other)
  others ← copy_lines n lines
  return (copy ∷ others)

-- An array that is written to, if it has a place.
abbrev pub array_for : ℕ → Option (List ℕ) → Unsafe (List ℕ)
array_for zero array = return []
array_for (suc n) array = used array

-- The two times of the attempts are those of the first argument.
unfoldable pub smtp_message_copy : SmtpMessage → SmtpMessage → Unsafe (Option SmtpMessage)
unfolding copy_rows copy_lines
smtp_message_copy unset other = do
  copy ← maybe (malloc 72)
  unless_null {A = List ℕ} copy (λ copy. (do
    from ← maybe (malloc (length other.from_addr + 1))
    from_addr ← used from
    rows ← maybe (malloc (8 * other.recipients_count))
    array ← array_for other.recipients_count rows
    recipients_addr ← copy_rows other.recipients_count other.recipients_addr
    lines ← maybe (malloc (8 * other.msg_lines))
    array1 ← array_for other.msg_lines lines
    msg ← copy_lines other.msg_lines other.msg
    return (
        some (record unset {
          max_attempts_time = other.max_attempts_time;
          min_interval_between_attempts = other.min_interval_between_attempts;
          from_addr = other.from_addr;
          recipients_count = other.recipients_count;
          recipients_addr = recipients_addr;
          msg_lines = other.msg_lines;
          msg = msg;
        }))))

abbrev message_in_node :
    SmtpMessage
    → Queue SmtpMessage
    → SmtpMessage
    → Option (List ℕ)
    → Unsafe (Queue SmtpMessage × Code)
message_in_node unset queue message none = return (queue, memory_error)
message_in_node unset queue message (some node) = do
  value ← smtp_message_copy unset message
  λ mem. let (queue', code, mem') = at_back queue (value, mem) in return (queue', code) mem'

-- queue_push_back of a queue of messages.
unfoldable pub push_message_back :
    SmtpMessage → Queue SmtpMessage → SmtpMessage → Unsafe (Queue SmtpMessage × Code)
unfolding smtp_message_copy
push_message_back unset queue message =
    let pushed : Unsafe (Queue SmtpMessage × Code) = (do
      node ← maybe (malloc 8)
      message_in_node unset queue message node) in
    if queue.size == queue.max_size then return (queue, queue_overflow) else pushed

-- queue_push_all of a queue of messages: the loop goes on while the code is SUCCESS.
unfoldable pub push_messages :
    SmtpMessage → List SmtpMessage → Queue SmtpMessage × Code → Unsafe (Queue SmtpMessage × Code)
unfolding push_message_back
push_messages unset [] r = return r
push_messages unset (message ∷ messages) (queue, success) = do
  r ← push_message_back unset queue message
  push_messages unset messages r
push_messages unset (message ∷ messages) (queue, code) = return (queue, code)

-- The code of the messages is not read. The bytes in the peer's buffers are not copied.
unfoldable pub smtp_connection_copy : SmtpMessage → SmtpConnection → Unsafe (Option SmtpConnection)
unfolding push_messages
smtp_connection_copy unset other = do
  copy ← maybe (malloc 120)
  unless_null {A = List ℕ} copy (λ copy. (do
    addr ← maybe (malloc (length other.addr + 1))
    unless_null {A = List ℕ} addr (λ addr. (do
      messages ← maybe queue_init
      unless_null {A = Queue SmtpMessage} messages (λ messages. (do
        pushed ← push_messages unset other.messages.nodes (messages, success)
        other_ip ← used other.ip
        ip ← maybe (string_copy other_ip)
        peer ← maybe (peer_copy other.peer)
        unless_null {A = Peer} peer (λ peer.
            return (some (record other { messages = pushed.0; ip = ip; peer = peer })))))))))
