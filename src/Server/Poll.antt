-- ===== src/Server/Poll.antt =====
-- server/src/smtp_server.c: `process_poll`, a thread's round over its connections after poll().
pub mod Rounds
pub mod Examples
use mathlib.Core.Option
use pvs_kp.Base.{
  ℕ, Bool, true, false, not, ◌&&◌, ◌||◌, Option, none, some, List, [], ◌∷◌, if◌then◌else◌, ◌==◌,
}
use pvs_kp.Server.ErrorCode.{ErrorCode, Calloc, ce_success, ce_init_3rd, succeeded}
use pvs_kp.Server.Msg.{Msg, msg_init, Received, msg_recv_one, Sent, msg_send_one}
use pvs_kp.Server.SmtpCmd.{Pcre}
use pvs_kp.Server.MailWriter.{World}
use pvs_kp.Server.Client.{Client, Conn, Env}
use pvs_kp.Server.Session.{
  terminate, client_process_recv, client_process_send, client_process_check_timeout,
}
use pvs_kp.Server.ServerInfo.{Slot, ServerInfo, server_info_compress}

infixl 1 ◌>>=◌
abbrev ◌>>=◌ {ℓ ℓ'} : {A : Type ℓ} → {B : Type ℓ'} → Option A → (A → Option B) → Option B
none >>= f = none
(some a) >>= f = f a

-- What poll() says of a connection: whether there is any event, and POLLIN and POLLOUT; and what its
-- socket returns.
pub record Ready : Type 0 where
  pub woken : Bool
  pub readable : Bool
  pub writable : Bool
  pub recv : ℕ → Received
  pub send : ℕ → Sent
  pub env : Env

-- What a connection's turn leaves: itself, the round's message and world, and need_compress.
abbrev pub Turn : Type 0
Turn = Slot × Msg × World × Bool

-- A connection that is marked is closed, and the events of another one are set.
unfoldable pub close_or_listen : Slot → Conn → Msg → Turn
close_or_listen s x msg =
    let c = x.client in
    if c.closed
    then (record s { fd = none; client = some c }, msg, x.world, true)
    else (record s { wants_out = c.need_send; client = some c }, msg, x.world, false)

unfoldable pub poll_recv : Pcre → Ready → Slot → Msg → World → Option Turn
unfolding close_or_listen
poll_recv pcre ready s msg w =
    let (text, is_closed, code) = msg_recv_one ready.env.calloc msg ready.recv in
    let hear : Client → Turn = λ c.
      close_or_listen s (client_process_recv ready.env pcre (record { client = c; world = w }) text)
        (terminate text) in
    if not (succeeded code)
    then some (s, text, w, false)
    else if is_closed
    then some (record s { fd = none }, text, w, true)
    else Option.map {A = Client} hear s.client

-- A partial send stays with the connection.
unfoldable pub poll_send : Ready → Slot → Client → Msg → World → Turn
unfolding close_or_listen
poll_send ready s c msg w =
    let (left, wire, code) = msg_send_one c.msg_for_sending ready.send in
    let c' : Client = record c { msg_for_sending = left } in
    let sent = client_process_send ready.env (record { client = c'; world = w }) in
    if not (succeeded code)
    then (record s { client = some c' }, msg, w, false)
    else if not (left.size == 0)
    then (record s { client = some c' }, msg, w, false)
    else close_or_listen s sent msg

-- The events are not set anew.
unfoldable pub poll_timeout : ℕ → Ready → Slot → Client → Msg → World → Turn
poll_timeout timeout ready s c msg w =
    let x = client_process_check_timeout ready.env timeout (record { client = c; world = w }) in
    if x.client.closed
    then (record s { fd = none; client = some x.client }, msg, x.world, true)
    else (record s { client = some x.client }, msg, x.world, false)

unfoldable pub poll_slot : Pcre → ℕ → Ready → Slot → Msg → World → Option Turn
unfolding poll_recv poll_send poll_timeout
poll_slot pcre timeout ready s msg w =
    let answer : Client → Turn = λ c.
      if ready.writable && c.need_send
      then poll_send ready s c msg w
      else poll_timeout timeout ready s c msg w in
    if not ready.woken
    then some (s, msg, w, false)
    else if ready.readable
    then poll_recv pcre ready s msg w
    else Option.map {A = Client} answer s.client

-- The loop: the connections, the world, and whether one was closed.
unfoldable pub poll_slots :
    Pcre → ℕ → List (Ready × Slot) → Msg → World → Option (List Slot × World × Bool)
unfolding poll_slot
poll_slots pcre timeout [] msg w = some ([], w, false)
poll_slots pcre timeout ((ready, s) ∷ rest) msg w = do
  (s', msg', w', closed) ← poll_slot pcre timeout ready s msg w
  (rest', w'', others) ← poll_slots pcre timeout rest msg' w'
  some (s' ∷ rest', w'', closed || others)

-- `answers` are the server's connections with what poll() says of each.
unfoldable pub process_poll :
    Calloc
    → Pcre
    → ℕ
    → ServerInfo
    → List (Ready × Slot)
    → World
    → Option (ServerInfo × World × ErrorCode)
unfolding poll_slots
process_poll calloc pcre timeout server answers w =
    let (msg, code) = msg_init calloc 1000 in
    let finish : List Slot × World × Bool → Option (ServerInfo × World × ErrorCode) = λ r.
      let after : ServerInfo = record server { slots = r.0 } in
      let compressed =
        Option.map {A = ServerInfo} {B = ServerInfo × World × ErrorCode} (λ s. (s, r.1, ce_success))
          (server_info_compress after) in
      if r.2 then compressed else some (after, r.1, ce_success) in
    if not (succeeded code)
    then some (server, w, ce_init_3rd)
    else (poll_slots pcre timeout answers msg w >>= finish)
