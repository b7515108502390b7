-- ===== src/Client/Peer.antt =====
-- client/src/peer.c, client/include/peer.h: the buffers between a descriptor and the queues of
-- messages. What send, write, recv and read return is a parameter, as is what stands in the variable
-- that no branch sets where the type is neither. The outer `none` is undefined behaviour: a write
-- behind a buffer, or the use of a message that is NULL. The logs are left out.
pub mod Parse
pub mod Send
pub mod Lines
use mathlib.Core.Option
use pvs_kp.Base.{
  ℕ, zero, suc, ◌+◌, ◌-◌, ◌≡◌, Bool, true, false, not, ◌&&◌, Option, none, some, List, [], ◌∷◌,
  ◌++◌, length, take, drop, memcpy, ltb, leb, ◌==◌, if◌then◌else◌, replicate,
}
use pvs_kp.Client.Errors.{
  Code, success, memory_error, send_error, recv_error, unknown_fdt, recv_buffer_overflow,
}
use pvs_kp.Client.Memory.{Memory, Alloc, malloc, made, ◌>>=◌, fill}
use pvs_kp.Client.MString.{MString, string_init2, string_copy, concat}
use pvs_kp.Client.Queue.{
  Queue, queue_init, queue_push_back, queue_push_all, queue_pop_front, queue_peek,
}

-- FDT_SOCKET, FDT_PIPE, or another char.
pub data FdType : Type 0 where
  fdt_socket fdt_pipe fdt_other : FdType

-- peer_t; `none` of fd is -1.
pub record Peer : Type 0 where
  pub fd : Option ℕ
  pub type_ : FdType
  pub messages_in : Queue MString
  pub message_in_begin : ℕ
  pub buffer_in : List ℕ
  pub buffer_in_size : ℕ
  pub messages_out : Queue MString
  pub buffer_out : List ℕ
  pub buffer_out_size : ℕ

-- The two arrays are the bytes that malloc gives behind the other fields.
unfoldable pub peer_init : Option ℕ → FdType → Alloc Peer
unfolding queue_init fill
peer_init fd type_ = do
  peer ← malloc 2112
  messages_in ← queue_init
  messages_out ← queue_init
  made (record {
    fd = fd;
    type_ = type_;
    messages_in = messages_in;
    message_in_begin = 0;
    buffer_in = fill 1024 peer;
    buffer_in_size = 0;
    messages_out = messages_out;
    buffer_out = fill 1024 (drop 1024 peer);
    buffer_out_size = 0;
  })

-- The queue, where the code is SUCCESS.
abbrev if_success : Queue MString × Code × Memory → Option (Queue MString) × Memory
if_success (queue, success, mem) = (some queue, mem)
if_success (queue, code, mem) = (none, mem)

-- The messages are copied, the buffers are not, but for their sizes.
unfoldable pub peer_copy : Peer → Alloc Peer
unfolding queue_init queue_push_all string_copy fill
peer_copy other = do
  peer ← malloc 2112
  new_in ← queue_init
  messages_in ← λ mem. if_success (queue_push_all string_copy new_in other.messages_in mem)
  new_out ← queue_init
  messages_out ← λ mem. if_success (queue_push_all string_copy new_out other.messages_out mem)
  made (record other {
    messages_in = messages_in;
    buffer_in = fill 1024 peer;
    messages_out = messages_out;
    buffer_out = fill 1024 (drop 1024 peer);
  })

-- Where concat gives NULL, string_clear is called twice on the same string, which is `none`.
unfoldable pub add_message :
    Peer → MString → Option (List ℕ) → Memory → Option (Peer × Code × Memory)
unfolding queue_push_back string_copy string_init2 concat
add_message peer message none mem =
    let (queue, code, mem1) = queue_push_back string_copy peer.messages_in message mem in
    some (record peer { messages_in = queue }, code, mem1)
add_message peer message (some end_marker) mem =
    ended (string_init2 end_marker (length end_marker) mem)
  where
    pushed : Option MString × Memory → Option (Peer × Code × Memory)
    pushed (none, mem1) = none
    pushed (some message_with_end, mem1) =
        let (queue, code, mem2) =
          queue_push_back string_copy peer.messages_in message_with_end mem1 in
        some (record peer { messages_in = queue }, code, mem2)

    ended : Option MString × Memory → Option (Peer × Code × Memory)
    ended (none, mem1) = some (peer, memory_error, mem1)
    ended (some end_marker_str, mem1) = pushed (concat message end_marker_str mem1)
