-- ===== src/Client/Master.antt =====
-- client/src/master.c, client/include/master.h: the master process hands the files of the mail
-- directory out to the workers. What time returns is a parameter, as is whether malloc finds a node of
-- a tree: it finds memory for a worker_time_t, or the code writes through NULL. The result `none` is
-- undefined behaviour or a failed assert. A pointer to a peer is its place in the list of peers.
-- The processes, pipes and logs are left out.
pub mod Pick
pub mod Files
pub mod Examples
use mathlib.Core.Option
use pvs_kp.Base.{
  ℕ, ◌+◌, ◌%◌, Bool, true, false, Option, none, some, List, [], ◌∷◌, codes, c_string, get_elem?,
  set, ltb, ◌==◌, if◌then◌else◌,
}
use pvs_kp.Client.Errors.{Code, success}
use pvs_kp.Client.FileParser.{get_addr}
use pvs_kp.Client.Memory.{Memory, Alloc, malloc, made, ◌>>=◌}
use pvs_kp.Client.MString.{MString}
use pvs_kp.Client.Peer.{Peer, add_message}
use pvs_kp.Client.Peer.Send.{bind}
use pvs_kp.Client.Tree.{Tree, TreeCode, tree_init, tree_insert, tree_search, tree_delete}

pub record Worker : Type 0 where
  pub pid : ℕ
  pub peer_write : ℕ

pub record WorkerTime : Type 0 where
  pub worker : Worker
  pub last_time_working : ℕ

-- state_t. The values of the files are NULL, whatever their type.
pub record State : Type 0 where
  pub addr_vs_worker : Tree WorkerTime
  pub sended_files : Tree ℕ
  pub rr_index : ℕ

-- The fields of master_config_t that the modelled functions read.
pub record MasterConfig : Type 0 where
  pub workers_count : ℕ
  pub min_interval_working_with_addr : ℕ

unfoldable pub pick_worker_by_rr : State → List Worker → ℕ → Option (State × Worker)
pick_worker_by_rr state workers workers_count =
    let next : Worker → State × Worker =
      λ worker. (record state { rr_index = (state.rr_index + 1) % workers_count }, worker) in
    if workers_count == 0
    then none
    else Option.map {A = Worker} next (get_elem? workers state.rr_index)

unfoldable pub is_time_expired : ℕ → WorkerTime → ℕ → Bool
is_time_expired now worker_time min_interval_working_with_addr =
    ltb (worker_time.last_time_working + min_interval_working_with_addr) now

abbrev pub update_last_time_working : ℕ → WorkerTime → WorkerTime
update_last_time_working now worker_time = record worker_time { last_time_working = now }

unfoldable pub add_addr_vs_worker :
    Bool → ℕ → Tree WorkerTime → List ℕ → Worker → Option (Tree WorkerTime × TreeCode)
unfolding tree_insert
add_addr_vs_worker has_node now addr_vs_worker_map addr worker =
    tree_insert (λ value. value) has_node addr_vs_worker_map addr
      (some (record { worker = worker; last_time_working = now }))

module _ (now later : ℕ) (has_node : Bool) (workers : List Worker) (addr : List ℕ)
    (config : MasterConfig) where
  -- The worker by round robin, whom the map then has at the address. The code is not read.
  unfoldable pub pick_next : State → Option (State × Worker)
  unfolding pick_worker_by_rr add_addr_vs_worker
  pick_next state =
      bind {A = State × Worker}
        (λ picked.
          Option.map {A = Tree WorkerTime × TreeCode}
            (λ added. (record picked.0 { addr_vs_worker = added.0 }, picked.1))
            (add_addr_vs_worker has_node later picked.0.addr_vs_worker addr picked.1))
        (pick_worker_by_rr state workers config.workers_count)

  -- With the node's value. The copy of it is updated, the value is not.
  abbrev pub pick_found : State → Option (Option WorkerTime) → Option (State × Worker)
  pick_found state none = pick_next state
  pick_found state (some none) = none
  pick_found state (some (some worker_time)) =
      let expired = is_time_expired now worker_time config.min_interval_working_with_addr in
      let again =
        bind {A = Tree WorkerTime × TreeCode}
          (λ deleted. pick_next (record state { addr_vs_worker = deleted.0 }))
          (tree_delete (λ value. value) state.addr_vs_worker addr) in
      if expired then again else some (state, (update_last_time_working later worker_time).worker)

  unfoldable pub pick_worker : State → Option (State × Worker)
  unfolding pick_next is_time_expired tree_search tree_delete
  pick_worker state = pick_found state (tree_search state.addr_vs_worker addr)

unfoldable pub state_init : Alloc State
state_init = do
  state ← malloc 24
  sended_files ← malloc 48
  addr_vs_worker ← malloc 48
  made (record { addr_vs_worker = tree_init; sended_files = tree_init; rr_index = 0 })

-- What the variable `addr` of add_filenames_to_workers holds between two rounds.
pub data AddrVariable : Type 0 where
  unset null freed : AddrVariable

-- What the calls of time say in a round, and whether malloc finds the nodes.
pub record Answers : Type 0 where
  pub now : ℕ
  pub later : ℕ
  pub has_addr_node : Bool
  pub has_file_node : Bool

-- What a round of the loop changes.
pub record Scan : Type 0 where
  pub state : State
  pub peers : List Peer
  pub addr : AddrVariable
  pub mem : Memory

-- `addr` is freed without a call of get_addr in the same round.
abbrev pub free_again : Scan → AddrVariable → Option Scan
free_again scan null = some scan
free_again scan _ = none

module _ (answers : Answers) (workers : List Worker) (config : MasterConfig) (filename : MString)
    (scan : Scan) where
  abbrev record_file : Code → State → Option State
  record_file success state =
      Option.map {A = Tree ℕ × TreeCode} (λ added. record state { sended_files = added.0 })
        (tree_insert (λ value. value) answers.has_file_node state.sended_files
          (c_string filename.data_) none)
  record_file code state = some state

  abbrev sent_to : Worker → State → Peer × Code × Memory → Option Scan
  sent_to worker state (peer, code, mem) =
      Option.map {A = State}
        (λ state'. record {
          state = state';
          peers = set scan.peers worker.peer_write peer;
          addr = freed;
          mem = mem;
        })
        (record_file code state)

  unfoldable pub send_filename : Memory → State × Worker → Option Scan
  unfolding add_message tree_insert
  send_filename mem (state, worker) =
      bind {A = Peer}
        (λ peer.
          bind {A = Peer × Code × Memory} (sent_to worker state)
            (add_message peer filename (some (codes " ")) mem))
        (get_elem? scan.peers worker.peer_write)

  abbrev pub to_addr : Option (List ℕ × ℕ) × Memory → Option Scan
  to_addr (none, mem) = some (record scan { addr = null; mem = mem })
  to_addr (some (addr, type_), mem) = bind {A = State × Worker} (send_filename mem) (
      pick_worker answers.now answers.later answers.has_addr_node workers (c_string addr) config
        scan.state)

  -- With the node of the file that was already sent.
  abbrev pub to_file : Option (Option ℕ) → Option Scan
  to_file none = to_addr (get_addr filename scan.mem)
  to_file (some value) = free_again scan scan.addr

  -- A round of the loop over the files.
  unfoldable pub add_filename : Option Scan
  unfolding send_filename pick_worker get_addr tree_search
  add_filename = to_file (tree_search scan.state.sended_files (c_string filename.data_))

unfoldable pub add_filenames :
    (ℕ → Answers) → List Worker → MasterConfig → List MString → Scan → Option Scan
unfolding add_filename
add_filenames answers workers config [] scan = some scan
add_filenames answers workers config (filename ∷ filenames) scan =
    bind {A = Scan} (add_filenames (λ n. answers (n + 1)) workers config filenames)
      (add_filename (answers 0) workers config filename scan)

-- From the state, the peers and the calls of malloc, those after the loop.
unfoldable pub add_filenames_to_workers :
    (ℕ → Answers)
    → State
    → List MString
    → List Worker
    → MasterConfig
    → List Peer
    → Memory
    → Option Scan
unfolding add_filenames
add_filenames_to_workers answers state new_files workers config peers mem =
    add_filenames answers workers config new_files
      (record { state = state; peers = peers; addr = unset; mem = mem })
