-- ===== src/Client/Master/Pick.antt =====
-- Which worker the master of client/src/master.c picks for an address.
use native.Mathlib.Nat.{mod-lt}
use pvs_kp.Base.{
  ℕ, ◌+◌, ◌%◌, ◌≤◌, ◌<◌, ◌≡◌, ◌⊎◌, inl, inr, refl, sym, ap, ◌∙◌, Bool, false, Option, none, some,
  List, length, get_elem?, get_elem?-some, ltb, ltb→lt, ltb→le, ◌==◌, Bool-cases, Option-cases,
  arith,
}
use pvs_kp.Client.Master.{
  Worker, WorkerTime, State, MasterConfig, pick_worker_by_rr, is_time_expired, add_addr_vs_worker,
  pick_next, pick_worker,
}
use pvs_kp.Client.Tree.{Tree, Sign, pick, negative, equal, positive, strcmp, tree_search}
use pvs_kp.Client.Tree.Order.{strcmp-equal, Sign-cases}
use pvs_kp.Client.Tree.Invariant.{IsTree, tree_delete-IsTree}
use pvs_kp.Client.Tree.Stored.{tree_insert-Stored, tree_search-Filled}

-- The map is a search tree of values that are there, and the index is that of a worker.
abbrev pub IsState : List Worker → MasterConfig → State → Type 0
IsState workers config state =
    IsTree state.addr_vs_worker
    × (state.rr_index < config.workers_count)
    × (config.workers_count ≤ length workers)

abbrev pub entry : ℕ → Worker → Option (Option WorkerTime)
entry time worker = some (some (record { worker = worker; last_time_working = time }))

module _ (later : ℕ) (workers : List Worker) (addr : List ℕ) (config : MasterConfig)
    (other : List ℕ) where
  -- Reference: the worker whose turn it is, and who has the address from now on. Where the tree has
  -- no room for it, nobody has.
  abbrev pub IsNext : State → State → Worker → Type 0
  IsNext state state' worker =
      (get_elem? workers state.rr_index ≡ some worker)
      × (state'.rr_index ≡ (state.rr_index + 1) % config.workers_count)
      × ((tree_search state'.addr_vs_worker other
            ≡ pick (strcmp other addr) (entry later worker) (tree_search state.addr_vs_worker other)
                (tree_search state.addr_vs_worker other))
          ⊎ (tree_search state'.addr_vs_worker other
              ≡ pick (strcmp other addr) none (tree_search state.addr_vs_worker other)
                  (tree_search state.addr_vs_worker other)))

module _ (now : ℕ) (addr : List ℕ) (config : MasterConfig) where
  -- Reference: the worker who has the address, and nothing changes.
  abbrev pub IsHolder : State → State → Worker → Type 0
  IsHolder state state' worker =
      (worker_time : WorkerTime) × (tree_search state.addr_vs_worker addr ≡ some (some worker_time))
      × (now ≤ worker_time.last_time_working + config.min_interval_working_with_addr)
      × (worker ≡ worker_time.worker)
      × (state' ≡ state)

  -- Nobody has the address, or not any more.
  abbrev pub IsFree : State → Type 0
  IsFree state =
      (tree_search state.addr_vs_worker addr ≡ none)
      ⊎ ((worker_time : WorkerTime) × (tree_search state.addr_vs_worker addr
            ≡ some (some worker_time))
          × (worker_time.last_time_working + config.min_interval_working_with_addr < now))

module _ {ℓ} {B : Type ℓ} where
  after_pick :
      (s : Sign) (value old x x' : Option B)
      → x ≡ pick s none old old
      → (x' ≡ pick s value x x) ⊎ (x' ≡ x)
      → (x' ≡ pick s value old old) ⊎ (x' ≡ pick s none old old)
  after_pick s value old x x' gone (inr same) = inr (same ∙ gone)
  after_pick equal value old x x' gone (inl h) = inl h
  after_pick negative value old x x' gone (inl h) = inl (h ∙ gone)
  after_pick positive value old x x' gone (inl h) = inl (h ∙ gone)

module _ (now later : ℕ) (has_node : Bool) (workers : List Worker) (addr : List ℕ)
    (config : MasterConfig) (other : List ℕ) (short : length addr < 255) where
  -- After the address was taken out of the map, where it was there.
  pick_next-IsNext :
      (state cleared : State)
      → IsState workers config cleared
      → cleared.rr_index ≡ state.rr_index
      → cleared.sended_files ≡ state.sended_files
      → tree_search cleared.addr_vs_worker other
        ≡ pick
            (strcmp other addr)
            none
            (tree_search state.addr_vs_worker other)
            (tree_search state.addr_vs_worker other)
      → (state' : State) × (worker : Worker) × (pick_next now later has_node workers addr config
            cleared
          ≡ some (state', worker))
        × IsState workers config state'
        × (state'.sended_files ≡ state.sended_files)
        × IsNext later workers addr config other state state' worker
  unfolding pick_next pick_worker_by_rr add_addr_vs_worker
  pick_next-IsNext state cleared (is_tree, bound, enough) index files gone =
      let some_workers : (config.workers_count == 0) ≡ false = ground (arith, bound) in
      let (worker, turn) = get_elem?-some workers cleared.rr_index (omega (arith, bound, enough)) in
      let (map, code, run, is_tree', at) =
        tree_insert-Stored (λ value. value) has_node cleared.addr_vs_worker addr
          (some (record { worker = worker; last_time_working = later })) other short refl is_tree in
      (
        record {
          addr_vs_worker = map;
          sended_files = cleared.sended_files;
          rr_index = (cleared.rr_index + 1) % config.workers_count;
        },
        worker,
        rw some_workers (rw turn (rw run refl)),
        (is_tree', mod-lt (cleared.rr_index + 1) (omega (arith, bound)), enough),
        files,
        (
          ap (get_elem? workers) (sym index) ∙ turn,
          ap (λ n. (n + 1) % config.workers_count) index,
          after_pick (strcmp other addr) (entry later worker)
              (tree_search state.addr_vs_worker other) (tree_search cleared.addr_vs_worker other)
              (tree_search map other) gone at,
        ),
      )

  absent-pick :
      (map : Tree WorkerTime)
      → tree_search map addr ≡ none
      → tree_search map other
        ≡ pick (strcmp other addr) none (tree_search map other) (tree_search map other)
  absent-pick map absent = elim (Sign-cases (strcmp other addr)) [
    | inl e ↦ rw e (ap (tree_search map) (strcmp-equal other addr e) ∙ absent)
    | inr (inl e) ↦ rw e refl
    | inr (inr e) ↦ rw e refl
  ]

  -- pick_worker, for an address of less than 255 bytes, returns: the worker who has the address, if
  -- he was given it no longer ago than the interval, and then nothing changes; otherwise the worker
  -- whose turn it is, who then has the address, or, where the tree has no room, nobody has it. What
  -- the map says of another address stays, and the invariant is kept.
  pub pick_worker-IsNext :
      (state : State)
      → IsState workers config state
      → (state' : State) × (worker : Worker) × (pick_worker now later has_node workers addr config
            state
          ≡ some (state', worker))
        × IsState workers config state'
        × (state'.sended_files ≡ state.sended_files)
        × (IsHolder now addr config state state' worker
            ⊎ (IsFree now addr config state
                × IsNext later workers addr config other state state' worker))
  unfolding pick_worker is_time_expired
  pick_worker-IsNext state (is_tree, bound, enough) =
      elim (Option-cases (tree_search state.addr_vs_worker addr)) [
        | inl absent ↦
            let (state', worker, run, good, files, next) =
              pick_next-IsNext state state (is_tree, bound, enough) refl refl
                (absent-pick state.addr_vs_worker absent) in
            (state', worker, rw absent run, good, files, inr (inl absent, next))
        | inr (none, found) ↦ absurd (tree_search-Filled state.addr_vs_worker addr is_tree.1 found)
        | inr (some worker_time, found) ↦
            elim (Bool-cases
              (ltb (worker_time.last_time_working + config.min_interval_working_with_addr) now)) [
                | inr fresh ↦ (
                  state,
                  worker_time.worker,
                  rw found (rw fresh refl),
                  (is_tree, bound, enough),
                  refl,
                  inl (worker_time, found, ltb→le _ _ fresh, refl, refl),
                )
                | inl expired ↦
                    elim (tree_delete-IsTree (λ value. value) state.addr_vs_worker addr other
                      (λ v. refl) is_tree) [
                        | inl (absent, fails) ↦ absurd (cc (found, absent))
                        | inr (cleared, deleted, is_tree', size, gone) ↦
                            let (state', worker, run, good, files, next) =
                              pick_next-IsNext state (record state { addr_vs_worker = cleared })
                                (is_tree', bound, enough) refl refl gone in
                            (
                              state',
                              worker,
                              rw found (rw expired (rw deleted run)),
                              good,
                              files,
                              inr (inr (worker_time, found, ltb→lt _ _ expired), next),
                            )
                      ]
              ]
      ]
