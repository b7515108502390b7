-- ===== src/Server/Msg.antt =====
-- server/src/msg.c: the growing byte buffer `msg_t`, which every text of the server passes through.
-- `text` is `none` for NULL and else the allocated bytes, as many as were allocated. What the
-- functions are given as `buf, size` is the list of those bytes. `recv` and `send` are the kernel's:
-- a function from the round of the loop to what the call returns.
pub mod Content
pub mod Stream
use pvs_kp.Base.{
  ℕ, zero, suc, ◌+◌, ◌-◌, Bool, true, false, Option, none, some, List, [], ◌++◌, length, take, drop,
  replicate, ltb, leb, if◌then◌else◌, ◌==◌, size_t, memcpy, strncpy,
}
use mathlib.Core.Option
use pvs_kp.Server.ErrorCode.{ErrorCode, Calloc, ce_success, ce_common, ce_alloc, succeeded}

pub record Msg : Type 0 where
  pub text : Option (List ℕ)
  pub size : ℕ
  pub max_size : ℕ

-- The bytes that are allocated; NULL has none.
abbrev pub bytes : Option (List ℕ) → List ℕ
bytes none = []
bytes (some t) = t

unfoldable pub msg_init : Calloc → ℕ → Msg × ErrorCode
msg_init calloc max_size =
    if calloc max_size
    then (record { text = some (replicate max_size 0); size = 0; max_size = max_size }, ce_success)
    else (record { text = none; size = 0; max_size = 0 }, ce_alloc)

unfoldable pub msg_resize : Calloc → Msg → ℕ → Msg × ErrorCode
msg_resize calloc msg new_max_size =
    if leb new_max_size msg.max_size
    then (msg, ce_success)
    else if calloc new_max_size
    then (
      record msg {
        text = some (memcpy (replicate new_max_size 0) 0 (take msg.size (bytes msg.text)));
        max_size = new_max_size;
      },
      ce_success,
    )
    else (msg, ce_alloc)

-- The `memcpy` behind the contents, and the new size.
unfoldable pub write_behind : Msg → List ℕ → ℕ → Msg
write_behind msg buf new_size = record msg {
  text = Option.map (λ t. memcpy t msg.size buf) msg.text;
  size = new_size;
}

unfoldable pub msg_add_text : Calloc → Msg → List ℕ → Msg × ErrorCode
msg_add_text calloc msg buf =
    let new_size = size_t (msg.size + length buf) in
    if ltb msg.max_size new_size
    then (let (resized, cerr) = msg_resize calloc msg (size_t (new_size + 50)) in
        if succeeded cerr then (write_behind resized buf new_size, ce_success) else (resized, cerr))
    else (write_behind msg buf new_size, ce_success)

-- memset(text, 0, max_size)
unfoldable pub msg_clean : Msg → Msg
msg_clean msg = record msg {
  text = Option.map (λ t. memcpy t 0 (replicate msg.max_size 0)) msg.text;
  size = 0;
}

-- The `strncpy` reads and writes the same buffer, forwards and with the target before the source.
unfoldable pub msg_rm_text : Msg → ℕ → Msg × ErrorCode
unfolding msg_clean
msg_rm_text msg size = if leb msg.size size then (msg_clean msg, ce_success) else (
  record msg {
    text = Option.map (λ t. memcpy t 0 (strncpy (msg.size - size) (drop size t))) msg.text;
    size = msg.size - size;
  },
  ce_success,
)

unfoldable pub msg_destroy : Msg → Msg
msg_destroy msg = record { text = none; size = 0; max_size = 0 }

-- What a `recv` on a non-blocking socket returns.
pub data Received : Type 0 where
  shut : Received
  chunk : List ℕ → Received
  would_block : Received
  failed : Received

-- The body of the loop at what `recv` returned, given the rounds that follow. The result of
-- `msg_add_text` is not looked at.
unfoldable pub recv_turn :
    (Msg → Msg × Bool × ErrorCode) → Calloc → Received → Msg → Msg × Bool × ErrorCode
recv_turn next calloc shut msg = (msg, true, ce_success)
recv_turn next calloc (chunk buf) msg = next (msg_add_text calloc msg buf).0
recv_turn next calloc would_block msg = (msg, false, ce_success)
recv_turn next calloc failed msg = (msg, false, ce_common)

-- The rounds left and the number of the round that comes next.
unfoldable pub recv_rounds : Calloc → (ℕ → Received) → ℕ → ℕ → Msg → Msg × Bool × ErrorCode
unfolding recv_turn
recv_rounds calloc recv zero i msg = (msg, false, ce_success)
recv_rounds calloc recv (suc left) i msg =
    recv_turn (recv_rounds calloc recv left (i + 1)) calloc (recv i) msg

-- The message, `*is_closed` and the code.
unfoldable pub msg_recv_one : Calloc → Msg → (ℕ → Received) → Msg × Bool × ErrorCode
unfolding recv_rounds
msg_recv_one calloc msg recv = recv_rounds calloc recv 100 0 msg

-- What a `send` returns: how many bytes it took.
pub data Sent : Type 0 where
  took : ℕ → Sent
  blocked : Sent
  broken : Sent

-- The body of the loop at what `send` returned. The second part of the result is what went over
-- the wire.
unfoldable pub send_turn :
    (Msg → List ℕ → Msg × List ℕ × ErrorCode) → Sent → Msg → List ℕ → Msg × List ℕ × ErrorCode
send_turn next (took n) msg wire =
    let rest = next (msg_rm_text msg n).0 (wire ++ take n (take msg.size (bytes msg.text))) in
    if n == 0 then (msg, wire, ce_success) else rest
send_turn next blocked msg wire = (msg, wire, ce_success)
send_turn next broken msg wire = (msg, wire, ce_common)

unfoldable pub send_rounds : (ℕ → Sent) → ℕ → ℕ → Msg → List ℕ → Msg × List ℕ × ErrorCode
unfolding send_turn
send_rounds send zero i msg wire = (msg, wire, ce_success)
send_rounds send (suc left) i msg wire =
    let turn = send_turn (send_rounds send left (i + 1)) (send i) msg wire in
    if msg.size == 0 then (msg, wire, ce_success) else turn

unfoldable pub msg_send_one : Msg → (ℕ → Sent) → Msg × List ℕ × ErrorCode
unfolding send_rounds
msg_send_one msg send = send_rounds send 500 0 msg []
