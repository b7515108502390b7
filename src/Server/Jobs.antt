-- ===== src/Server/Jobs.antt =====
-- server/src/smtp_server.c: the sockets on their way from the listener, over the queue, to the threads.
-- A round of the listener and the first part of a round of a thread are steps, since the queue is
-- locked, and each thread has a server_info_t of its own. What poll, accept and the system return is
-- part of a step. The result `none` is a use of memory that the program does not have.
pub mod Contents
pub mod Order
pub mod Examples
use Prim.Native.Nat.{◌/◌}
use mathlib.Core.Option
use pvs_kp.Base.{
  ℕ, ◌+◌, ◌*◌, ◌%◌, Bool, true, false, Option, none, some, List, [], ◌∷◌, get_elem?, set,
  if◌then◌else◌,
}
use pvs_kp.Server.Client.{Env}
use pvs_kp.Server.ErrorCode.{ErrorCode, ce_success, ce_common, succeeded}
use pvs_kp.Server.Queue.{Os, Queue, queue_push_back, queue_try_pop_front}
use pvs_kp.Server.ServerInfo.{ServerInfo, server_info_add_client}

-- The four bytes of an int, the low one first, and the int in a variable of those bytes.
abbrev pub bytes_of : ℕ → List ℕ
bytes_of fd = (fd % 256) ∷ ((fd / 256) % 256) ∷ ((fd / 65536) % 256) ∷ ((fd / 16777216) % 256) ∷ []

abbrev pub int_of : List ℕ → ℕ
int_of (a ∷ b ∷ c ∷ d ∷ []) = a + 256 * b + 65536 * c + 16777216 * d
int_of _ = 0

-- What poll says of the listening socket; the flag is whether POLLIN is the event.
pub data PollResult : Type 0 where
  failed timed_out : PollResult
  ready : Bool → PollResult

-- What accept returns; `none` is -1.
abbrev pub process_listener : Option ℕ → Option ℕ × ErrorCode
process_listener none = (none, ce_common)
process_listener (some fd) = (some fd, ce_success)

-- The queue, and the socket that was put onto it.
abbrev pushed : ℕ → Queue × ErrorCode → Queue × Option ℕ
pushed fd (q, code) = (q, if succeeded code then some fd else none)

abbrev pub push_accepted : Os → Queue → Option ℕ × ErrorCode → Option (Queue × Option ℕ)
push_accepted os q (some fd, code) =
    Option.map {A = Queue × ErrorCode} (pushed fd) (queue_push_back os q (bytes_of fd))
push_accepted os q (none, code) = some (q, none)

-- A round of smtp_server.
unfoldable pub listen : Os → PollResult → Option ℕ → Queue → Option (Queue × Option ℕ)
unfolding queue_push_back
listen os (ready true) accepted q = push_accepted os q (process_listener accepted)
listen os _ accepted q = some (q, none)

-- What the system gives a thread that takes a socket.
pub record Room : Type 0 where
  pub env : Env
  pub has_fds : Bool
  pub has_clients : Bool
  pub has_client : Bool

-- The queue, the thread's connections, and the socket that the thread took. Whether it is added is not
-- looked at.
abbrev pub add_taken :
    Room → ServerInfo → Queue × List ℕ × ErrorCode → Option (Queue × ServerInfo × Option ℕ)
add_taken room server (q, bytes, ce_success) =
    Option.map {A = ServerInfo × ErrorCode} (λ r. (q, r.0, some (int_of bytes)))
      (server_info_add_client room.env server (int_of bytes) room.has_fds room.has_clients
        room.has_client)
add_taken room server (q, bytes, code) = some (q, server, none)

abbrev pub bind {ℓ ℓ'} : {A : Type ℓ} → {B : Type ℓ'} → (A → Option B) → Option A → Option B
bind f none = none
bind f (some a) = f a

-- The first part of a round of main_worker_func.
unfoldable pub take_client : Os → Room → Queue → ServerInfo → Option (Queue × ServerInfo × Option ℕ)
unfolding queue_try_pop_front server_info_add_client
take_client os room q server =
    bind {A = Queue × List ℕ × ErrorCode} (add_taken room server) (queue_try_pop_front os q 4)

pub record Jobs : Type 0 where
  pub job_queue : Queue
  pub threads : List ServerInfo

-- A step of the listener, or of the thread at this place.
pub data Step : Type 0 where
  listens : Os → PollResult → Option ℕ → Step
  takes : ℕ → Os → Room → Step

-- What a step moved: a socket onto the queue, or from it to a thread.
pub data Moved : Type 0 where
  nothing : Moved
  queued : ℕ → Moved
  taken : ℕ → ℕ → Moved

abbrev moved_in : Option ℕ → Moved
moved_in none = nothing
moved_in (some fd) = queued fd

abbrev moved_out : ℕ → Option ℕ → Moved
moved_out thread none = nothing
moved_out thread (some fd) = taken thread fd

unfoldable pub step : Jobs → Step → Option (Jobs × Moved)
unfolding listen take_client
step jobs (listens os polled accepted) =
    Option.map {A = Queue × Option ℕ} (λ r. (record jobs { job_queue = r.0 }, moved_in r.1))
      (listen os polled accepted jobs.job_queue)
step jobs (takes thread os room) =
    bind {A = ServerInfo}
      (λ server.
        Option.map {A = Queue × ServerInfo × Option ℕ}
          (λ r. (
            record { job_queue = r.0; threads = set jobs.threads thread r.1 },
            moved_out thread r.2,
          ))
          (take_client os room jobs.job_queue server))
      (get_elem? jobs.threads thread)

-- The steps of the listener and the threads in any order.
unfoldable pub steps : List Step → Jobs → Option (Jobs × List Moved)
unfolding step
steps [] jobs = some (jobs, [])
steps (s ∷ later) jobs =
    bind {A = Jobs × Moved}
      (λ r. Option.map {A = Jobs × List Moved} (λ rs. (rs.0, r.1 ∷ rs.1)) (steps later r.0))
      (step jobs s)
