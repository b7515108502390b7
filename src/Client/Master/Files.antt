-- ===== src/Client/Master/Files.antt =====
-- The scans of add_filenames_to_workers of client/src/master.c.
use pvs_kp.Base.{
  ℕ, ◌≤◌, ◌<◌, ◌≡◌, ◌⊎◌, inl, inr, refl, true, false, none, some, List, [], ◌∷◌, ◌++◌, length,
  get_elem?, get_elem?-some, set, c_string, codes, ◌==◌,
}
use pvs_kp.Client.Errors.{success}
use pvs_kp.Client.FileParser.Addr.{NoDot, get_addr_lem}
use pvs_kp.Client.Memory.{Memory, Plenty, Plenty-rest, rest}
use pvs_kp.Client.MString.{MString}
use pvs_kp.Client.MString.Contents.{str_of, string_init2-Plenty, concat-Plenty}
use pvs_kp.Client.Peer.{Peer, add_message}
use pvs_kp.Client.Queue.Contents.{queue_of, queue_push_back-Plenty}
use pvs_kp.Client.Tree.{tree_search}
use pvs_kp.Client.Tree.Stored.{tree_insert-new}
use pvs_kp.Client.Master.{
  Worker, WorkerTime, State, MasterConfig, pick_worker, unset, freed, Answers, Scan, free_again,
  send_filename, add_filename, add_filenames, add_filenames_to_workers,
}
use pvs_kp.Client.Master.Pick.{IsState, IsNext, IsHolder, IsFree, pick_worker-IsNext}

add_message-Plenty :
    (peer : Peer) (xs : List MString) (text mark : List ℕ) (mem : Memory)
    → peer.messages_in ≡ queue_of xs
    → length xs < 10000
    → Plenty mem
    → (mem' : Memory) × (add_message peer (str_of text) (some mark) mem
        ≡ some (
          record peer { messages_in = queue_of (xs ++ str_of (text ++ mark) ∷ []) },
          success,
          mem',
        ))
unfolding add_message
add_message-Plenty peer xs text mark mem queue room plenty =
    let mem2 = rest (rest mem) in
    let mem5 = rest (rest (rest mem2)) in
    let plenty2 : Plenty mem2 = Plenty-rest (rest mem) (Plenty-rest mem plenty) in
    let plenty5 : Plenty mem5 =
      Plenty-rest (rest (rest mem2)) (Plenty-rest (rest mem2) (Plenty-rest mem2 plenty2)) in
    (
      rest (rest (rest mem5)),
      rw (string_init2-Plenty mark mem plenty) (
          rw (concat-Plenty text mark mem2 plenty2)
            (rw queue (rw (queue_push_back-Plenty xs (text ++ mark) mem5 room plenty5) refl))),
    )

-- Whoever has an address has a peer, and so has every worker, with room in its queue.
abbrev pub HasPeers : List Worker → State → List Peer → Type 0
HasPeers workers state peers =
    ((n : ℕ) (worker : Worker)
      → get_elem? workers n ≡ some worker
      → worker.peer_write < length peers)
    × ((addr : List ℕ) (worker_time : WorkerTime)
        → tree_search state.addr_vs_worker addr ≡ some (some worker_time)
        → worker_time.worker.peer_write < length peers)

abbrev pub HasRoom : List Peer → Type 0
HasRoom peers =
    (n : ℕ) (peer : Peer)
    → get_elem? peers n ≡ some peer
    → (xs : List MString) × (peer.messages_in ≡ queue_of xs) × (length xs < 10000)

-- The name of a mail's file: the address, its type, and the rest.
abbrev pub file_name : List ℕ → ℕ → List ℕ → List ℕ
file_name addr c meta = addr ++ 46 ∷ c ∷ 46 ∷ meta

module _ (answers : Answers) (workers : List Worker) (config : MasterConfig) (addr meta : List ℕ)
    (c : ℕ) (scan : Scan) where
  -- The file is new, its name has less than 255 bytes, and malloc and the limits leave room for it.
  abbrev pub IsNew : Type 0
  IsNew =
      (tree_search scan.state.sended_files (c_string (str_of (file_name addr c meta)).data_) ≡ none)
      × (length (c_string (str_of (file_name addr c meta)).data_) < 255)
      × (length (c_string addr) < 255)
      × (2 ≤ length addr)
      × NoDot meta
      × ((scan.state.sended_files.size == scan.state.sended_files.max_size) ≡ false)
      × (answers.has_file_node ≡ true)
      × Plenty scan.mem

  -- Reference: one peer has the name and the separator behind its other messages, and the file is
  -- among those that were sent. Which peer is the matter of pick_worker.
  abbrev pub IsGiven : Scan → Type 0
  IsGiven scan' =
      (worker : Worker) × (state : State) × (peer : Peer) × (xs : List MString) × (pick_worker
          answers.now answers.later answers.has_addr_node workers (c_string addr) config scan.state
        ≡ some (state, worker))
      × (get_elem? scan.peers worker.peer_write ≡ some peer)
      × (peer.messages_in ≡ queue_of xs)
      × (scan'.peers
          ≡ set scan.peers worker.peer_write (record peer {
            messages_in = queue_of (xs ++ str_of (file_name addr c meta ++ codes " ") ∷ []);
          }))
      × (scan'.state.addr_vs_worker ≡ state.addr_vs_worker)
      × (scan'.state.rr_index ≡ state.rr_index)
      × (tree_search scan'.state.sended_files (c_string (str_of (file_name addr c meta)).data_)
          ≡ some none)
      × (scan'.addr ≡ freed)

  has_peer :
      (state' : State) (worker : Worker)
      → HasPeers workers scan.state scan.peers
      → IsHolder answers.now (c_string addr) config scan.state state' worker
        ⊎ (IsFree answers.now (c_string addr) config scan.state
            × IsNext answers.later workers (c_string addr) config [] scan.state state' worker)
      → worker.peer_write < length scan.peers
  has_peer state' worker (by_turn, by_addr) (inl (worker_time, found, fresh, same, kept)) =
      rw same (by_addr (c_string addr) worker_time found)
  has_peer state' worker (by_turn, by_addr) (inr (free, (turn, index, map))) =
      by_turn scan.state.rr_index worker turn

  -- A new file is given to one peer.
  pub add_filename-IsGiven :
      IsNew
      → IsState workers config scan.state
      → HasPeers workers scan.state scan.peers
      → HasRoom scan.peers
      → (scan' : Scan) × (add_filename answers workers config (str_of (file_name addr c meta)) scan
          ≡ some scan')
        × IsGiven scan'
  unfolding add_filename send_filename
  add_filename-IsGiven (absent, short, addr_short, long, no_dot, space, has_node, plenty) good has
        room =
      let (state, worker, picked, good', files, how) =
        pick_worker-IsNext answers.now answers.later answers.has_addr_node workers (c_string addr)
          config [] addr_short scan.state good in
      let (peer, there) =
        get_elem?-some scan.peers worker.peer_write (has_peer state worker has how) in
      let (xs, queue, few) = room worker.peer_write peer there in
      let plenty1 : Plenty (rest scan.mem) = Plenty-rest scan.mem plenty in
      let (mem', added) =
        add_message-Plenty peer xs (file_name addr c meta) (codes " ") (rest scan.mem) queue few
          plenty1 in
      let (sended, run, found, size) =
        tree_insert-new (λ value. value) scan.state.sended_files
          (c_string (str_of (file_name addr c meta)).data_) none space short refl absent in
      let got = get_addr_lem addr meta c scan.mem no_dot long plenty in
      (
        record {
          state = record state { sended_files = sended };
          peers = set scan.peers worker.peer_write (record peer {
            messages_in = queue_of (xs ++ str_of (file_name addr c meta ++ codes " ") ∷ []);
          });
          addr = freed;
          mem = mem';
        },
        rw absent (rw got (rw picked (rw there (rw added (rw has_node (rw files (rw run refl))))))),
        (worker, state, peer, xs, picked, there, queue, refl, refl, refl, found, refl),
      )

-- A file that was sent, where the pointer is not NULL.
add_filename-known :
    (answers : Answers) (workers : List Worker) (config : MasterConfig) (filename : MString)
    (scan : Scan)
    → tree_search scan.state.sended_files (c_string filename.data_) ≡ some none
    → free_again scan scan.addr ≡ none
    → add_filename answers workers config filename scan ≡ none
unfolding add_filename
add_filename-known answers workers config filename scan known undefined_ = rw known undefined_

-- add_filenames_to_workers gives a new file to the peer of the worker that pick_worker picks, and to
-- no other: its name and the separator are the last of the messages there, and the file is one that
-- was sent. Where a later scan comes upon the file first, whatever else has happened to the peers
-- and to memory, it is undefined: it frees a pointer that no call has set.
pub add_filenames_to_workers-again :
    (answers answers' : ℕ → Answers) (workers : List Worker) (config : MasterConfig)
    (addr meta : List ℕ) (c : ℕ) (state : State) (peers peers' : List Peer) (mem mem' : Memory)
    (others : List MString)
    → IsNew
        (answers 0)
        workers
        config
        addr
        meta
        c
        (record { state = state; peers = peers; addr = unset; mem = mem })
    → IsState workers config state
    → HasPeers workers state peers
    → HasRoom peers
    → (scan : Scan) × (add_filenames_to_workers answers state
          (str_of (file_name addr c meta) ∷ [])
          workers
          config
          peers
          mem
        ≡ some scan)
      × IsGiven
          (answers 0)
          workers
          config
          addr
          meta
          c
          (record { state = state; peers = peers; addr = unset; mem = mem })
          scan
      × (add_filenames_to_workers answers' scan.state
            (str_of (file_name addr c meta) ∷ others)
            workers
            config
            peers'
            mem'
          ≡ none)
unfolding add_filenames_to_workers add_filenames
add_filenames_to_workers-again answers answers' workers config addr meta c state peers peers' mem
      mem' others new good has room =
    let start : Scan = record { state = state; peers = peers; addr = unset; mem = mem } in
    let (scan, run, given) =
      add_filename-IsGiven (answers 0) workers config addr meta c start new good has room in
    let (
      worker, picked_state, peer, xs, picked, there, queue, changed, map, index, known, addr_freed,
    ) =
      given in
    (
      scan,
      rw run refl,
      given,
      rw
          (add_filename-known (answers' 0) workers config (str_of (file_name addr c meta))
            (record { state = scan.state; peers = peers'; addr = unset; mem = mem' }) known refl)
          refl,
    )
