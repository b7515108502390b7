-- ===== src/Client/Select.antt =====
-- client/src/select_fd_storage.c, client/include/select_fd_storage.h: a round of select over the peers
-- of a process. What select returns is a parameter, as is what the reads and writes of each peer give.
-- The result `none` is undefined behaviour: a descriptor that no fd_set has a bit for, or a write behind
-- a buffer. The bits of an fd_set that was not zeroed are not looked at: the model starts without any.
pub mod Asked
pub mod Closed
pub mod Examples
use mathlib.Core.Option
use pvs_kp.Base.{
  ℕ, zero, suc, ◌+◌, Bool, true, false, not, Option, none, some, List, [], ◌∷◌, ltb, ◌==◌, ◌||◌,
  if◌then◌else◌,
}
use pvs_kp.Client.Errors.{Code}
use pvs_kp.Client.Memory.{Alloc, malloc, made, ◌>>=◌}
use pvs_kp.Client.Peer.{Peer}
use pvs_kp.Client.Peer.Parse.{peer_receive}
use pvs_kp.Client.Peer.Send.{bind, peer_send}
use pvs_kp.Client.Queue.{queue_is_empty}

-- The descriptors whose bits are set.
pub record Storage : Type 0 where
  pub read_fds : List ℕ
  pub write_fds : List ℕ

unfoldable pub storage_init : Alloc Storage
storage_init = do
  storage ← malloc 16
  read_fds ← malloc 128
  write_fds ← malloc 128
  made (record { read_fds = []; write_fds = [] })

-- FD_SET, of a set of 1024 bits.
abbrev pub set_fd : ℕ → List ℕ → Option (List ℕ)
set_fd fd fds = if ltb fd 1024 then some (fd ∷ fds) else none

abbrev pub has_fd : ℕ → List ℕ → Bool
has_fd fd [] = false
has_fd fd (n ∷ fds) = let rest = has_fd fd fds in fd == n || rest

-- FD_ISSET; `none` of the descriptor is -1.
abbrev pub is_set : Option ℕ → List ℕ → Option Bool
is_set none fds = none
is_set (some fd) fds = if ltb fd 1024 then some (has_fd fd fds) else none

-- What is there to send sets the bit for writing, too.
abbrev with_write : Peer → Storage → ℕ → List ℕ → Option Storage
with_write server storage fd read_fds =
    if not (queue_is_empty server.messages_in)
    then Option.map {A = List ℕ} (λ fds. record { read_fds = read_fds; write_fds = fds })
        (set_fd fd storage.write_fds)
    else some (record storage { read_fds = read_fds })

abbrev with_fd : Peer → Storage → Option ℕ → Option Storage
with_fd server storage none = some storage
with_fd server storage (some zero) = some storage
with_fd server storage (some (suc n)) =
    bind {A = List ℕ} (with_write server storage (suc n)) (set_fd (suc n) storage.read_fds)

unfoldable pub build_storage : Peer → Storage → Option Storage
build_storage server storage = with_fd server storage server.fd

abbrev pub zero_storage : Storage → Storage
zero_storage storage = record { read_fds = []; write_fds = [] }

-- The greater descriptor, `none` being -1.
abbrev pub larger : Option ℕ → Option ℕ → Option ℕ
larger none max_fd = max_fd
larger (some fd) none = some fd
larger (some fd) (some max_fd) = if ltb max_fd fd then some fd else some max_fd

unfoldable pub max_of : List Peer → Option ℕ → Option ℕ
max_of [] max_fd = max_fd
max_of (peer ∷ peers) max_fd = max_of peers (larger peer.fd max_fd)

unfoldable pub get_max_fd : List Peer → Option ℕ
unfolding max_of
get_max_fd peers = max_of peers none

unfoldable pub build_all : List Peer → Storage → Option Storage
unfolding build_storage
build_all [] storage = some storage
build_all (peer ∷ peers) storage = bind {A = Storage} (build_all peers) (build_storage peer storage)

-- What recv and send give a peer, and what stands in the variables that no branch sets.
pub record Io : Type 0 where
  pub read_ : ℕ → Option (List ℕ)
  pub unset_received : Option ℕ
  pub write_ : List ℕ → Option ℕ
  pub unset_sended : Option ℕ

module _ (io : Io) (fds : Storage) where
  abbrev written : Peer → Bool → Option Peer
  written peer true =
      Option.map {A = Peer × Code} (λ r. r.0) (peer_send io.write_ io.unset_sended peer)
  written peer false = some peer

  -- The bit is looked at with the descriptor that reading has left.
  abbrev wrote : Peer → Option Peer
  wrote peer = bind {A = Bool} (written peer) (is_set peer.fd fds.write_fds)

  abbrev received : Peer → Bool → Option Peer
  received peer true = wrote (peer_receive io.read_ io.unset_received peer).0
  received peer false = wrote peer

  -- A round of the second loop of select_step.
  unfoldable pub serve : Peer → Option Peer
  unfolding peer_receive peer_send
  serve peer = bind {A = Bool} (received peer) (is_set peer.fd fds.read_fds)

unfoldable pub serve_all : (ℕ → Io) → Storage → List Peer → Option (List Peer)
unfolding serve
serve_all io fds [] = some []
serve_all io fds (peer ∷ peers) =
    let others = serve_all (λ n. io (n + 1)) fds peers in
    bind {A = Peer} (λ served. Option.map {A = List Peer} (λ rest. served ∷ rest) others)
      (serve (io 0) fds peer)

-- From what is set and the count of descriptors to look at: how many are ready, and which.
abbrev pub SelectCall : Type 0
SelectCall = Storage → ℕ → Option (ℕ × Storage)

-- With the peers, what select_step returns: `none` is SELECT_ERROR.
abbrev pub selected : (ℕ → Io) → List Peer → Option (ℕ × Storage) → Option (List Peer × Option ℕ)
selected io peers none = some (peers, none)
selected io peers (some (ret, fds)) =
    Option.map {A = List Peer} (λ served. (served, some ret)) (serve_all io fds peers)

abbrev pub fd_count : Option ℕ → ℕ
fd_count none = 0
fd_count (some max_fd) = max_fd + 1

unfoldable pub select_step :
    SelectCall → (ℕ → Io) → Storage → List Peer → Option (List Peer × Option ℕ)
unfolding build_all get_max_fd serve_all
select_step select_ io storage peers =
    bind {A = Storage} (λ asked. selected io peers (select_ asked (fd_count (get_max_fd peers))))
      (build_all peers (zero_storage storage))
