-- ===== src/Server/Queue.antt =====
-- server/src/queue.c, server/src/node.c: the queue of accepted sockets between the listener and the
-- threads, a list of nodes linked by pointers. A pointer is a number, and `cells` says what is
-- allocated there. `none` as a result is a use of memory that is not allocated. Between the lock and
-- the unlock of the mutex a call runs alone, so a call is one step.
pub mod Fifo
pub mod Taken
pub mod Examples
use mathlib.Core.Option
use pvs_kp.Base.{
  ℕ, ◌+◌, ◌-◌, Bool, true, false, not, ◌&&◌, Option, none, some, List, [], ◌∷◌, length, ◌==◌,
  if◌then◌else◌,
}
use pvs_kp.Server.ErrorCode.{
  ErrorCode, ce_success, ce_common, ce_not_inited, ce_alloc, ce_init_3rd, ce_lock, ce_max_size,
  succeeded,
}

pub record Node : Type 0 where
  pub value : Option (List ℕ)
  pub size : ℕ
  pub next : Option ℕ

abbrev pub Cells : Type 0
Cells = ℕ → Option Node

-- The system's answers during a call: whether the mutex can be locked, where malloc finds room for
-- a node, and whether it finds room for a value.
pub record Os : Type 0 where
  pub locks : Bool
  pub malloc : Cells → Option ℕ
  pub has_room : Bool

pub record Queue : Type 0 where
  pub front : Option ℕ
  pub back : Option ℕ
  pub size : ℕ
  pub max_size : ℕ
  pub cells : Cells

abbrev pub set : Cells → ℕ → Option Node → Cells
set cells a node b = if a == b then node else cells b

-- A node as malloc leaves it.
abbrev pub blank : Node
blank = record { value = none; size = 0; next = none }

unfoldable pub node_init_with_value : Os → Node → List ℕ → Node × ErrorCode
node_init_with_value os node value =
    if os.has_room
    then (record { value = some value; size = length value; next = none }, ce_success)
    else (record node { value = none }, ce_alloc)

-- The bytes that are copied to the caller, and the code.
unfoldable pub node_get_value : Node → ℕ → List ℕ × ErrorCode
node_get_value node size = elim (node.value) [
  | none ↦ ([], ce_not_inited)
  | some bytes ↦ if size == node.size then (bytes, ce_success) else ([], ce_common)
]

unfoldable pub node_set_value : Node → List ℕ → Node × ErrorCode
node_set_value node value = elim (node.value) [
  | none ↦ (node, ce_not_inited)
  | some bytes ↦
      if length value == node.size
      then (record node { value = some value }, ce_success)
      else (node, ce_common)
]

-- The flags say whether the mutex and the condition variable could be made.
unfoldable pub queue_init : Bool → Bool → Cells → Queue × ErrorCode
queue_init has_mtx has_cnd cells = (
  record { front = none; back = none; size = 0; max_size = 10000; cells = cells },
  if has_mtx && has_cnd then ce_success else ce_init_3rd,
)

-- The new node behind the last one. The queue's `cells` have it already.
unfoldable pub link_back : Queue → ℕ → Option Queue
link_back q a = elim (q.back) [
  | none ↦ some (record q { front = some a; back = some a; size = q.size + 1 })
  | some b ↦
      Option.map {A = Node}
        (λ last. record q {
          back = some a;
          size = q.size + 1;
          cells = set q.cells b (some (record last { next = some a }));
        })
        (q.cells b)
]

unfoldable pub queue_push_back : Os → Queue → List ℕ → Option (Queue × ErrorCode)
unfolding node_init_with_value
queue_push_back os q value =
    let with_node : ℕ → Option (Queue × ErrorCode) = λ a.
      let (node, err) = node_init_with_value os blank value in
      let held = record q { cells = set q.cells a (some node) } in
      if succeeded err
      then Option.map {A = Queue} (λ linked. (linked, ce_success)) (link_back held a)
      else some (held, err) in
    if not os.locks
    then some (q, ce_lock)
    else if q.size == q.max_size
    then some (q, ce_max_size)
    else elim (os.malloc q.cells) [ none ↦ some (q, ce_alloc) | some a ↦ with_node a ]

-- From a queue that is not empty. Where the value has another size than the caller's, the node is
-- freed and the queue still points at it.
unfoldable pub take_front : Queue → ℕ → Option (Queue × List ℕ × ErrorCode)
unfolding node_get_value
take_front q size =
    let with_node : ℕ → Node → Queue × List ℕ × ErrorCode = λ a node.
      let (value, err) = node_get_value node size in
      let freed = set q.cells a none in
      let shorter = record q { front = node.next; size = q.size - 1; cells = freed } in
      let emptied = record q { front = none; back = none; size = 0; cells = freed } in
      if not (succeeded err)
      then (record q { cells = freed }, value, err)
      else if q.size - 1 == 0
      then (emptied, value, ce_success)
      else (shorter, value, ce_success) in
    elim (q.front) [ none ↦ none | some a ↦ Option.map {A = Node} (with_node a) (q.cells a) ]

unfoldable pub queue_try_pop_front : Os → Queue → ℕ → Option (Queue × List ℕ × ErrorCode)
unfolding take_front
queue_try_pop_front os q size =
    if not os.locks
    then some (q, [], ce_lock)
    else if q.size == 0
    then some (q, [], ce_common)
    else take_front q size

-- `woken` is the queue as the other threads have made it when cnd_wait returns.
unfoldable pub queue_pop_front : Os → Queue → Queue → ℕ → Option (Queue × List ℕ × ErrorCode)
unfolding take_front
queue_pop_front os q woken size =
    if not os.locks
    then some (q, [], ce_lock)
    else if q.size == 0
    then (if woken.size == 0 then some (woken, [], ce_common) else take_front woken size)
    else take_front q size

-- The loop that frees the nodes from `front_node` on, on fuel, which is short where `none` is left.
unfoldable pub destroy_rounds : ℕ → Cells → Option ℕ → ℕ → Option (Cells × ℕ)
destroy_rounds fuel cells none size = some (cells, size)
destroy_rounds ℕ.zero cells (some a) size = none
destroy_rounds (ℕ.suc fuel) cells (some a) size = elim (cells a) [
  | none ↦ none
  | some node ↦ destroy_rounds fuel (set cells a none) node.next (size - 1)
]

unfoldable pub queue_destroy : ℕ → Queue → Option Queue
unfolding destroy_rounds
queue_destroy fuel q =
    Option.map {A = Cells × ℕ}
      (λ left. record q { front = none; back = none; size = left.1; cells = left.0 })
      (destroy_rounds fuel q.cells q.front q.size)
