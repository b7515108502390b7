-- ===== src/Client/Peer/Send.antt =====
-- client/src/peer.c: the filling of the buffer from the queue of messages, and sending.
pub mod Pending
pub mod Sent
use mathlib.Core.Option
use pvs_kp.Base.{
  ℕ, zero, suc, ◌+◌, ◌-◌, Bool, true, false, Option, none, some, List, [], ◌∷◌, length, take, drop,
  memcpy, ltb, leb, ◌==◌, if◌then◌else◌,
}
use pvs_kp.Client.Errors.{Code, success, send_error, unknown_fdt}
use pvs_kp.Client.MString.{MString}
use pvs_kp.Client.Queue.{queue_pop_front, queue_peek}
use pvs_kp.Client.Peer.{FdType, fdt_socket, fdt_pipe, fdt_other, Peer}
use pvs_kp.Client.Peer.Parse.{reduce_buffer}

-- A copy that ends behind the buffer is `none`.
unfoldable pub add_data_to_buffer_in : Peer → List ℕ → ℕ → Option Peer
unfolding memcpy
add_data_to_buffer_in peer text size =
    if leb (peer.buffer_in_size + size) 1024
    then some (record peer {
      buffer_in = memcpy peer.buffer_in peer.buffer_in_size (take size text);
      buffer_in_size = peer.buffer_in_size + size;
    })
    else none

-- What follows the copy of `sent` bytes of a message: at its end it is popped.
abbrev pub message_moved : MString → ℕ → Peer → Option Peer
message_moved message sent peer =
    let begin = peer.message_in_begin + sent in
    if begin == message.size
    then Option.map (λ q. record peer { messages_in = q; message_in_begin = 0 })
        (queue_pop_front peer.messages_in)
    else some (record peer { message_in_begin = begin })

abbrev pub bind {ℓ ℓ'} : {A : Type ℓ} → {B : Type ℓ'} → (A → Option B) → Option A → Option B
bind f none = none
bind f (some a) = f a

unfoldable pub reduce_messages_in : Peer → MString → Option Peer
unfolding add_data_to_buffer_in queue_pop_front
reduce_messages_in peer message =
    let left = message.size - peer.message_in_begin in
    let available_to_send = if ltb 1024 left then 1024 else left in
    bind (message_moved message available_to_send)
      (add_data_to_buffer_in peer (drop peer.message_in_begin message.data_) available_to_send)

-- A round of the loop of fill_buffer_in, and the loop. Its fuel is one more than the number of messages; without fuel the
-- result is `none`.
abbrev pub next_round : Peer → Option MString → Option Peer → Option Peer
next_round peer none next = some peer
next_round peer (some message) next = if peer.buffer_in_size == 1024 then some peer else next

unfoldable pub fill_rounds : ℕ → Option Peer → Option Peer
unfolding reduce_messages_in queue_peek
fill_rounds zero r = none
fill_rounds (suc fuel) none = none
fill_rounds (suc fuel) (some peer) =
    let message = queue_peek peer.messages_in in
    next_round peer message (fill_rounds fuel (bind (reduce_messages_in peer) message))

unfoldable pub fill_buffer_in : Peer → Option Peer
unfolding fill_rounds
fill_buffer_in peer = fill_rounds (suc (length peer.messages_in.nodes)) (some peer)

abbrev pub reduced_by : ℕ → Peer → Code → Option (Peer × Code)
reduced_by sended peer ret =
    Option.map {A = List ℕ × ℕ} (λ b. (record peer { buffer_in = b.0; buffer_in_size = b.1 }, ret))
      (reduce_buffer peer.buffer_in peer.buffer_in_size sended)

-- What send or write has said, `none` being -1.
abbrev pub sent_of : Peer → Code → Option ℕ → Option (Peer × Code)
sent_of peer ret none = some (record peer { fd = none }, send_error)
sent_of peer ret (some sended) = reduced_by sended peer ret

abbrev pub send_by_type : FdType → (List ℕ → Option ℕ) → Option ℕ → Peer → Option (Peer × Code)
send_by_type fdt_other write_ unset peer = sent_of peer unknown_fdt unset
send_by_type _ write_ unset peer =
    sent_of peer success (write_ (take peer.buffer_in_size peer.buffer_in))

-- With what stands in the variable `sended` where no branch sets it.
unfoldable pub peer_send : (List ℕ → Option ℕ) → Option ℕ → Peer → Option (Peer × Code)
unfolding fill_buffer_in reduce_buffer
peer_send write_ unset peer =
    bind (λ filled. send_by_type filled.type_ write_ unset filled) (fill_buffer_in peer)
