-- ===== src/Server/ServerInfo.antt =====
-- server/src/server_info.c: the connections of a thread, two arrays of one size, here one list. The
-- result `none` is a use of memory that the program does not have.
pub mod Slots
pub mod Compressed
use mathlib.Core.Option
use pvs_kp.Base.{
  ℕ, ◌+◌, ◌-◌, ◌==◌, take, drop, Bool, true, false, not, ◌&&◌, Option, none, some, List, [], ◌∷◌,
  ◌++◌, length, leb, ltb, if◌then◌else◌,
}
use pvs_kp.Server.ErrorCode.{ErrorCode, ce_success, ce_alloc, succeeded}
use pvs_kp.Server.MailWriter.{MailWriter}
use pvs_kp.Server.Client.{Client, Env}
use pvs_kp.Server.Session.{client_init}

-- `fd` is `none` for -1, `wants_out` says whether POLLOUT is among the events, and `client` is
-- `none` for NULL.
pub record Slot : Type 0 where
  pub fd : Option ℕ
  pub wants_out : Bool
  pub client : Option Client

-- `size` is the length of `slots`.
pub record ServerInfo : Type 0 where
  pub slots : List Slot
  pub max_size : ℕ
  pub mail_writer : MailWriter

-- Whether there is memory for the array of descriptors and for that of the clients.
unfoldable pub server_info_init : MailWriter → ℕ → Bool → Bool → ServerInfo × ErrorCode
server_info_init mail_writer max_size has_fds has_clients =
    if has_fds && has_clients
    then (record { slots = []; max_size = max_size; mail_writer = mail_writer }, ce_success)
    else (record { slots = []; max_size = 0; mail_writer = mail_writer }, ce_alloc)

-- The test of the second allocation is the other way round than that of the first: with memory the
-- function gives up, and without it goes on to write through NULL.
unfoldable pub server_info_resize : ServerInfo → ℕ → Bool → Bool → Option (ServerInfo × ErrorCode)
server_info_resize server new_max_size has_fds has_clients =
    if leb new_max_size server.max_size
    then some (server, ce_success)
    else if not has_fds
    then some (server, ce_alloc)
    else if has_clients
    then some (server, ce_alloc)
    else none

-- The part behind the resizing. `has_client` says whether there is memory for the client. Where the
-- client cannot be initialised the connection is added with NULL.
unfoldable pub add_slot : Env → ServerInfo → ℕ → Bool → ServerInfo × ErrorCode
add_slot env server fd has_client =
    let (client, cerr) = client_init env server.mail_writer in
    let slot : Slot = record { fd = some fd; wants_out = true; client = client } in
    if has_client
    then (record server { slots = server.slots ++ slot ∷ [] }, ce_success)
    else (server, ce_alloc)

unfoldable pub server_info_add_client :
    Env → ServerInfo → ℕ → Bool → Bool → Bool → Option (ServerInfo × ErrorCode)
unfolding server_info_resize
server_info_add_client env server fd has_fds has_clients has_client =
    let new_size = length server.slots + 1 in
    let go_on : ServerInfo × ErrorCode → ServerInfo × ErrorCode =
      λ r. if succeeded r.1 then add_slot env r.0 fd has_client else r in
    if ltb server.max_size new_size
    then Option.map {A = ServerInfo × ErrorCode} go_on
        (server_info_resize server (new_size + 50) has_fds has_clients)
    else some (add_slot env server fd has_client)

abbrev pub is_open : Slot → Bool
is_open s = elim (s.fd) [ none ↦ false | some fd ↦ true ]

abbrev pub has_client : Slot → Bool
has_client s = elim (s.client) [ none ↦ false | some c ↦ true ]

-- memmove of `count` slots of both arrays, from the index `from` on to the index `to`.
unfoldable pub move_slots : List Slot → ℕ → ℕ → ℕ → List Slot
move_slots slots to from count =
    take to slots ++ (take count (drop from slots) ++ drop (to + count) slots)

-- The inner loop: from the index `j` on, with the slots that stand there, the index where it ends.
-- `fds[j]` is read before `j` is compared with the size, so also at the size, which is behind the
-- array where that is full. Of a closed slot that has a client `server->clients = NULL` loses the
-- array of the clients, which the next use of it meets.
unfoldable pub run_end : ℕ → ℕ → ℕ → List Slot → Option ℕ
run_end max_size size j [] = if j == size then (if ltb j max_size then some j else none) else none
run_end max_size size j (s ∷ rest) =
    let further = run_end max_size size (j + 1) rest in
    if j == size
    then (if ltb j max_size then some j else none)
    else if is_open s
    then some j
    else if has_client s
    then none
    else further

-- The slots of the arrays and the size.
abbrev pub Slots : Type 0
Slots = List Slot × ℕ

-- What is done with the run of closed slots from `i` to `j`.
unfoldable pub close_run :
    (List Slot → ℕ → Option Slots) → ℕ → List Slot → ℕ → Option ℕ → Option Slots
unfolding move_slots
close_run next i slots size none = none
close_run next i slots size (some j) =
    if j == size then some (slots, i) else next (move_slots slots i j (size - j)) (size - (j - i))

-- A round of the outer loop, with the slots from `i` on. The client of a closed one is destroyed
-- through its pointer.
unfoldable pub compress_turn :
    (List Slot → ℕ → Option Slots) → ℕ → ℕ → List Slot → ℕ → List Slot → Option Slots
unfolding run_end close_run
compress_turn next max_size i slots size [] = none
compress_turn next max_size i slots size (s ∷ rest) =
    let closed = close_run next i slots size (run_end max_size size (i + 1) rest) in
    if is_open s then next slots size else if has_client s then closed else none

-- The outer loop. The first number is how many rounds are left, as many as there are slots at first.
unfoldable pub compress_rounds : ℕ → ℕ → ℕ → List Slot → ℕ → Option Slots
unfolding compress_turn
compress_rounds ℕ.zero max_size i slots size = some (slots, size)
compress_rounds (ℕ.suc left) max_size i slots size =
    let turn =
      compress_turn (compress_rounds left max_size (i + 1)) max_size i slots size (drop i slots) in
    if ltb i size then turn else some (slots, size)

unfoldable pub server_info_compress : ServerInfo → Option ServerInfo
unfolding compress_rounds
server_info_compress server =
    Option.map {A = Slots} (λ r. record server { slots = take r.1 r.0 })
      (compress_rounds (length server.slots) server.max_size 0 server.slots (length server.slots))
