-- ===== src/Client/Master/Examples.antt =====
-- A master with one worker, on which the theorems about it are applied.
use mathlib.Core.Path.{subst}
use pvs_kp.Base.{
  ℕ, zero, suc, ◌<◌, ◌≡◌, ◌⊎◌, refl, true, Option, none, some, List, [], ◌∷◌, length, get_elem?,
  codes, arith, c_string,
}
use pvs_kp.Client.Memory.{Memory}
use pvs_kp.Client.MString.{MString}
use pvs_kp.Client.MString.Contents.{str_of}
use pvs_kp.Client.Peer.{Peer, fdt_pipe}
use pvs_kp.Client.Queue.Contents.{queue_of}
use pvs_kp.Client.Tree.{tree_init, tree_search, nodes_to_array}
use pvs_kp.Client.Master.{
  Worker, State, MasterConfig, pick_worker, Answers, unset, Scan, add_filenames_to_workers,
}
use pvs_kp.Client.Master.Pick.{IsState, IsNext, IsHolder, IsFree, pick_worker-IsNext}
use pvs_kp.Client.Master.Files.{
  HasPeers, HasRoom, IsNew, IsGiven, file_name, add_filenames_to_workers-again,
}

abbrev worker : Worker
worker = record { pid = 7; peer_write = 0 }

abbrev workers : List Worker
workers = worker ∷ []

abbrev config : MasterConfig
config = record { workers_count = 1; min_interval_working_with_addr = 60 }

abbrev first_state : State
first_state = record { addr_vs_worker = tree_init; sended_files = tree_init; rr_index = 0 }

abbrev peers : List Peer
peers =
    record {
      fd = some 5;
      type_ = fdt_pipe;
      messages_in = queue_of [];
      message_in_begin = 0;
      buffer_in = [];
      buffer_in_size = 0;
      messages_out = queue_of [];
      buffer_out = [];
      buffer_out_size = 0;
    }
    ∷ []

abbrev memory : Memory
memory n = some []

abbrev answers : ℕ → Answers
answers n = record { now = 100; later = 100; has_addr_node = true; has_file_node = true }

first_state-IsState : IsState workers config first_state
unfolding nodes_to_array
first_state-IsState = ((tt, tt, refl, omega arith), omega arith, omega arith)

pick_worker-IsNext_example :
    (state' : State) × (worker' : Worker) × (pick_worker 100 100 true workers
        (codes "h")
        config
        first_state
      ≡ some (state', worker'))
    × IsState workers config state'
    × (state'.sended_files ≡ first_state.sended_files)
    × (IsHolder 100 (codes "h") config first_state state' worker'
        ⊎ (IsFree 100 (codes "h") config first_state
            × IsNext 100 workers (codes "h") config (codes "i") first_state state' worker'))
pick_worker-IsNext_example =
    pick_worker-IsNext 100 100 true workers (codes "h") config (codes "i") (omega arith) first_state
      first_state-IsState

abbrev OfPeer : Option Worker → Type 0
OfPeer none = Unit
OfPeer (some w) = w.peer_write < length peers

abbrev OfQueue : Option Peer → Type 0
OfQueue none = Unit
OfQueue (some peer) = (xs : List MString) × (peer.messages_in ≡ queue_of xs) × (length xs < 10000)

first_state-HasPeers : HasPeers workers first_state peers
unfolding tree_search
first_state-HasPeers = (by_turn, λ addr worker_time found. cc found)
  where
    by_turn : (n : ℕ) (w : Worker) → get_elem? workers n ≡ some w → w.peer_write < length peers
    by_turn zero w found = subst OfPeer found (omega arith)
    by_turn (suc n) w found = cc found

peers-HasRoom : HasRoom peers
peers-HasRoom zero peer found = subst OfQueue found ([], refl, omega arith)
peers-HasRoom (suc n) peer found = cc found

file-IsNew :
    IsNew
      (answers 0)
      workers
      config
      (codes "h.ru")
      (codes "T1")
      50
      (record { state = first_state; peers = peers; addr = unset; mem = memory })
unfolding tree_search c_string
file-IsNew = (
  refl,
  omega arith,
  omega arith,
  omega arith,
  (λ e. omega (arith, e), (λ e. omega (arith, e), tt)),
  refl,
  refl,
  λ n e. cc e,
)

add_filenames_to_workers-again_example :
    (scan : Scan) × (add_filenames_to_workers answers first_state
        (str_of (file_name (codes "h.ru") 50 (codes "T1")) ∷ [])
        workers
        config
        peers
        memory
      ≡ some scan)
    × IsGiven
        (answers 0)
        workers
        config
        (codes "h.ru")
        (codes "T1")
        50
        (record { state = first_state; peers = peers; addr = unset; mem = memory })
        scan
    × (add_filenames_to_workers answers scan.state
          (str_of (file_name (codes "h.ru") 50 (codes "T1")) ∷ [])
          workers
          config
          peers
          memory
        ≡ none)
add_filenames_to_workers-again_example =
    add_filenames_to_workers-again answers answers workers config (codes "h.ru") (codes "T1") 50
      first_state peers peers memory memory [] file-IsNew first_state-IsState first_state-HasPeers
      peers-HasRoom
