-- ===== src/Client/Peer/Parse.antt =====
-- client/src/peer.c: what is received, and the parsing of the messages out of the buffer.
pub mod RoundTrip
use mathlib.Core.Option
use pvs_kp.Base.{
  ℕ, ◌+◌, ◌-◌, ◌%◌, Bool, true, false, not, ◌&&◌, Option, none, some, List, [], ◌∷◌, ◌++◌, length,
  take, drop, memcpy, ltb, leb, ◌==◌, if◌then◌else◌, size_mod,
}
use pvs_kp.Client.Errors.{
  Code, success, memory_error, recv_error, unknown_fdt, recv_buffer_overflow,
}
use pvs_kp.Client.Memory.{Memory}
use pvs_kp.Client.MString.{MString, string_init2, string_copy}
use pvs_kp.Client.Queue.{Queue, queue_init, queue_push_back, queue_push_all}
use pvs_kp.Client.Peer.{FdType, fdt_socket, fdt_pipe, fdt_other, Peer}

-- The byte at the start of the list, 0 where there is none: the NUL behind a C string.
abbrev pub first_or_nul : List ℕ → ℕ
first_or_nul [] = 0
first_or_nul (c ∷ cs) = c

-- Is there a NUL byte in the buffer at this place.
abbrev pub nul_first : List ℕ → Bool
nul_first [] = false
nul_first (c ∷ cs) = c == 0

-- The variables of parse_buffer: i, j, message_begin, *parsed, messages.
pub record Parse : Type 0 where
  pub i : ℕ
  pub j : ℕ
  pub message_begin : ℕ
  pub parsed : ℕ
  pub messages : Queue MString

-- A message that is NULL is used.
abbrev pub push_message : Parse → Option MString × Memory → Option (Queue MString × Memory)
push_message s (none, mem) = none
push_message s (some message, mem) =
    let (queue, code, mem1) = queue_push_back string_copy s.messages message mem in
    some (queue, mem1)

-- What follows the end of a message at i, with the bytes of the buffer behind it.
abbrev pub message_ended : List ℕ → Parse → Queue MString × Memory → Parse × Memory
message_ended behind s (queue, mem) =
    let skip = if nul_first behind then 1 else 0 in
    (
      record {
        i = s.i + 1;
        j = 0;
        message_begin = s.i + 1 + skip;
        parsed = s.i + 1 + skip;
        messages = queue;
      },
      mem,
    )

-- A round of the loop, at the byte `c` and the bytes `behind` it. The size of a message that ends
-- before it begins would be a negative int: with an end marker that is not empty and has no NUL, it
-- never is.
unfoldable pub parse_byte : List ℕ → List ℕ → ℕ → List ℕ → Parse → Memory → Option (Parse × Memory)
unfolding queue_push_back string_copy string_init2
parse_byte buffer end_marker c behind s mem =
    let j = if c == first_or_nul (drop s.j end_marker) then s.j + 1 else 0 in
    let message_size = s.i + 1 - (length end_marker + s.message_begin) in
    if j == length end_marker
    then Option.map {A = Queue MString × Memory} (message_ended behind s)
        (push_message s (string_init2 (drop s.message_begin buffer) message_size mem))
    else some (record s { i = s.i + 1; j = j }, mem)

unfoldable pub parse_bytes :
    List ℕ → List ℕ → List ℕ → Option (Parse × Memory) → Option (Parse × Memory)
unfolding parse_byte
parse_bytes buffer end_marker [] r = r
parse_bytes buffer end_marker (c ∷ behind) none = none
parse_bytes buffer end_marker (c ∷ behind) (some (s, mem)) =
    parse_bytes buffer end_marker behind (parse_byte buffer end_marker c behind s mem)

-- The queue, which may be NULL, and *parsed.
abbrev pub parsed_of : Parse × Memory → Option (Queue MString) × ℕ × Memory
parsed_of (s, mem) = (some s.messages, s.parsed, mem)

abbrev pub parse_into :
    List ℕ → List ℕ → Option (Queue MString) × Memory → Option (Option (Queue MString) × ℕ × Memory)
parse_into buffer end_marker (none, mem) = some (none, 0, mem)
parse_into buffer end_marker (some messages, mem) =
    let s : Parse = record { i = 0; j = 0; message_begin = 0; parsed = 0; messages = messages } in
    Option.map {A = Parse × Memory} parsed_of (parse_bytes buffer end_marker buffer (some (s, mem)))

-- The buffer is the bytes up to buffer_size.
unfoldable pub parse_buffer :
    List ℕ → List ℕ → Memory → Option (Option (Queue MString) × ℕ × Memory)
unfolding queue_init parse_bytes
parse_buffer buffer end_marker mem = parse_into buffer end_marker (queue_init mem)

-- *buffer_size -= reduced, then the bytes behind are moved to the front.
unfoldable pub reduce_buffer : List ℕ → ℕ → ℕ → Option (List ℕ × ℕ)
unfolding memcpy
reduce_buffer buffer buffer_size reduced =
    let left = buffer_size - reduced in
    if leb reduced buffer_size
    then some (memcpy buffer 0 (take left (drop reduced buffer)), left)
    else none

abbrev pub messages_kept :
    Peer → Option (Queue MString) × ℕ × Memory → Option (Peer × Code × Memory)
messages_kept peer (new_messages, parsed, mem) = elim new_messages [
  | none ↦ reduced (peer, memory_error, mem)
  | some messages ↦
      let (queue, code, mem1) = queue_push_all string_copy peer.messages_out messages mem in
      reduced (record peer { messages_out = queue }, code, mem1)
]
  where
    reduced : Peer × Code × Memory → Option (Peer × Code × Memory)
    reduced (peer, code, mem) =
        Option.map {A = List ℕ × ℕ}
          (λ b. (record peer { buffer_out = b.0; buffer_out_size = b.1 }, code, mem))
          (reduce_buffer peer.buffer_out peer.buffer_out_size parsed)

unfoldable pub fill_messages_out : Peer → List ℕ → Memory → Option (Peer × Code × Memory)
unfolding parse_buffer queue_push_all reduce_buffer
fill_messages_out peer end_marker mem =
    if peer.buffer_out_size == 0
    then some (peer, success, mem)
    else bind (parse_buffer (take peer.buffer_out_size peer.buffer_out) end_marker mem)
  where
    bind : Option (Option (Queue MString) × ℕ × Memory) → Option (Peer × Code × Memory)
    bind none = none
    bind (some r) = messages_kept peer r

-- What recv or read has given: `none` is -1. The size of the buffer grows by what the call says, and
-- by what stands in the unset variable where the type is neither.
abbrev pub received_of : Peer → Code → List ℕ → Option ℕ → Peer × Code
received_of peer ret bytes none = (record peer { fd = none }, recv_error)
received_of peer ret bytes (some received) = (
  record peer {
    buffer_out = memcpy peer.buffer_out peer.buffer_out_size bytes;
    buffer_out_size = (peer.buffer_out_size + received) % size_mod;
  },
  ret,
)

abbrev pub system_read : Peer → Option (List ℕ) → Peer × Code
system_read peer none = received_of peer success [] none
system_read peer (some bytes) = received_of peer success bytes (some (length bytes))

unfoldable pub peer_receive : (ℕ → Option (List ℕ)) → Option ℕ → Peer → Peer × Code
unfolding memcpy
peer_receive read_ unset peer =
    let size = 1024 - peer.buffer_out_size in
    if size == 0 then (peer, recv_buffer_overflow) else by_type peer.type_ (read_ size)
  where
    by_type : FdType → Option (List ℕ) → Peer × Code
    by_type fdt_other bytes = received_of peer unknown_fdt [] unset
    by_type _ bytes = system_read peer bytes
