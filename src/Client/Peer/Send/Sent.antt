-- ===== src/Client/Peer/Send/Sent.antt =====
-- What peer_send sends, what is left to send, and when it writes behind its buffer.
use pvs_kp.Base.{
  ℕ, ◌+◌, ◌-◌, ◌≤◌, ◌<◌, ◌≡◌, ◌≢◌, refl, sym, ap, ◌∙◌, arith, false, Option, none, some, List, ◌∷◌,
  length, take, drop, memcpy, ltb, ◌==◌, Bool-cases, length-take, length-drop, length-memcpy,
  take-memcpy_start, take-drop, append-nil, le→leb, lt→leb, inl, inr,
}
use pvs_kp.Client.Errors.{success, send_error}
use pvs_kp.Client.MString.Contents.{str_of}
use pvs_kp.Client.Queue.Contents.{strings_of, queue_peek-cons}
use pvs_kp.Client.Peer.{Peer, FdType, fdt_socket, fdt_pipe, fdt_other}
use pvs_kp.Client.Peer.Parse.{reduce_buffer}
use pvs_kp.Client.Peer.Send.{
  add_data_to_buffer_in, reduce_messages_in, fill_rounds, fill_buffer_in, send_by_type, sent_of,
  peer_send,
}
use pvs_kp.Client.Peer.Send.Pending.{holding, pending, IsSendable, fill_buffer_in-Filled}

-- The front of the buffer goes, and what stood behind it comes to the front.
pub reduce_buffer_lem :
    (buffer : List ℕ) (size reduced : ℕ)
    → size ≤ length buffer
    → reduced ≤ size
    → (left : List ℕ) × (reduce_buffer buffer size reduced ≡ some (left, size - reduced))
      × (length left ≡ length buffer)
      × (take (size - reduced) left ≡ drop reduced (take size buffer))
unfolding reduce_buffer
reduce_buffer_lem buffer size reduced within fits =
    let kept = take (size - reduced) (drop reduced buffer) in
    let length-kept : length kept ≡ size - reduced =
      length-take (size - reduced) (drop reduced buffer)
        (omega (arith, length-drop reduced buffer)) in
    let whole : reduced + (size - reduced) ≡ size = omega arith in
    (
      memcpy buffer 0 kept,
      rw (le→leb reduced size fits) refl,
      length-memcpy buffer 0 kept (omega arith),
      take-memcpy_start buffer kept (size - reduced) length-kept
          ∙ take-drop reduced (size - reduced) buffer
          ∙ ap (λ n. drop reduced (take n buffer)) whole,
    )

send_by_type-write :
    (write_ : List ℕ → Option ℕ) (unset : Option ℕ) (t : FdType) (p : Peer)
    → t ≢ fdt_other
    → send_by_type t write_ unset p ≡ sent_of p success (write_ (take p.buffer_in_size p.buffer_in))
send_by_type-write write_ unset fdt_socket p h = refl
send_by_type-write write_ unset fdt_pipe p h = refl
send_by_type-write write_ unset fdt_other p h = absurd (h refl)

-- Where all that a peer has to send fits in its buffer, peer_send offers it whole to send or write,
-- and if that takes `k` bytes, exactly those are gone from what is to be sent.
pub peer_send-pending :
    (write_ : List ℕ → Option ℕ) (unset : Option ℕ) (p : Peer) (texts : List (List ℕ)) (k : ℕ)
    → IsSendable p texts
    → length (pending p texts) ≤ 1024
    → p.type_ ≢ fdt_other
    → write_ (pending p texts) ≡ some k
    → k ≤ length (pending p texts)
    → (p' : Peer) × (texts' : List (List ℕ)) × (peer_send write_ unset (holding p texts)
        ≡ some (holding p' texts', success))
      × (pending p' texts' ≡ drop k (pending p texts))
      × IsSendable p' texts'
      × (p'.fd ≡ p.fd)
unfolding peer_send
peer_send-pending write_ unset p texts k valid room known taken within =
    let (q, texts', ran, (front, size, nothing, (lq, sq, bq), fd, type_)) =
      fill_buffer_in-Filled p texts valid room in
    let (left, reduced, l, kept) =
      reduce_buffer_lem q.buffer_in q.buffer_in_size k (omega arith) (omega arith) in
    let known_q : q.type_ ≢ fdt_other = λ e. known (sym type_ ∙ e) in
    (
      record q { buffer_in = left; buffer_in_size = q.buffer_in_size - k },
      texts',
      rw ran (
          rw (send_by_type-write write_ unset q.type_ (holding q texts') known_q)
            (rw front (rw taken (rw reduced refl)))),
      rw nothing (append-nil (take (q.buffer_in_size - k) left) ∙ kept ∙ ap (drop k) front),
      (l ∙ lq, omega arith, bq),
      fd,
    )

-- If send or write fails, the descriptor is closed and forgotten, and peer_send returns SEND_ERROR
-- with all that was to be sent still there, the start of a message that was sent in part not restored.
pub peer_send-failed :
    (write_ : List ℕ → Option ℕ) (unset : Option ℕ) (p : Peer) (texts : List (List ℕ))
    → IsSendable p texts
    → length (pending p texts) ≤ 1024
    → p.type_ ≢ fdt_other
    → write_ (pending p texts) ≡ none
    → (p' : Peer) × (texts' : List (List ℕ)) × (peer_send write_ unset (holding p texts)
        ≡ some (holding p' texts', send_error))
      × (p'.fd ≡ none)
      × (pending p' texts' ≡ pending p texts)
      × IsSendable p' texts'
unfolding peer_send
peer_send-failed write_ unset p texts valid room known refused =
    let (q, texts', ran, (front, size, nothing, valid_q, fd, type_)) =
      fill_buffer_in-Filled p texts valid room in
    let known_q : q.type_ ≢ fdt_other = λ e. known (sym type_ ∙ e) in
    (
      record q { fd = none },
      texts',
      rw ran (
          rw (send_by_type-write write_ unset q.type_ (holding q texts') known_q)
            (rw front (rw refused refl))),
      refl,
      rw nothing (append-nil (take q.buffer_in_size q.buffer_in) ∙ front),
      valid_q,
    )

reduce_messages_in-overflow :
    (p : Peer) (text : List ℕ) (texts : List (List ℕ))
    → 0 < p.buffer_in_size
    → 1024 < p.buffer_in_size + (length text - p.message_in_begin)
    → reduce_messages_in (holding p (text ∷ texts)) (str_of text) ≡ none
unfolding reduce_messages_in add_data_to_buffer_in
reduce_messages_in-overflow p text texts some_ long =
    let left = length text - p.message_in_begin in
    elim (Bool-cases (ltb 1024 left)) [
      | inl e ↦ rw e (rw (lt→leb (p.buffer_in_size + 1024) 1024 (omega arith)) refl)
      | inr e ↦ rw e (rw (lt→leb (p.buffer_in_size + left) 1024 long) refl)
    ]

fill_buffer_in-overflow :
    (p : Peer) (text : List ℕ) (texts : List (List ℕ))
    → 0 < p.buffer_in_size
    → p.buffer_in_size < 1024
    → 1024 < p.buffer_in_size + (length text - p.message_in_begin)
    → fill_buffer_in (holding p (text ∷ texts)) ≡ none
unfolding fill_buffer_in fill_rounds
fill_buffer_in-overflow p text texts some_ open_ long =
    let not_full : (p.buffer_in_size == 1024) ≡ false = ground arith in
    rw (queue_peek-cons (str_of text) (strings_of texts))
      (rw not_full (rw (reduce_messages_in-overflow p text texts some_ long) refl))

-- With bytes in the buffer, a message longer than the room behind them is written past the buffer's
-- end.
peer_send-overflow :
    (write_ : List ℕ → Option ℕ) (unset : Option ℕ) (p : Peer) (text : List ℕ)
    (texts : List (List ℕ))
    → 0 < p.buffer_in_size
    → p.buffer_in_size < 1024
    → 1024 < p.buffer_in_size + (length text - p.message_in_begin)
    → peer_send write_ unset (holding p (text ∷ texts)) ≡ none
unfolding peer_send fill_buffer_in
peer_send-overflow write_ unset p text texts some_ open_ long =
    rw (fill_buffer_in-overflow p text texts some_ open_ long) refl
