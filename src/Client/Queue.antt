-- ===== src/Client/Queue.antt =====
-- client/src/queue.c, client/include/queue.h, client/include/copy_constructor.h: queues of values that
-- are copied on their way in. The linked nodes are a list, front first. queue_push_back asks malloc for
-- the size of a pointer where it needs that of a node: the model goes on as if the node had its room.
-- The result `none` of queue_pop_front is a failed assert.
pub mod Contents
use pvs_kp.Base.{
  ℕ, ◌+◌, ◌-◌, Bool, not, Option, none, some, List, [], ◌∷◌, ◌++◌, ◌==◌, if◌then◌else◌,
}
use pvs_kp.Client.Errors.{Code, success, memory_error, queue_overflow}
use pvs_kp.Client.Memory.{Memory, Alloc, malloc, made, ◌>>=◌}

pub record Queue {ℓ} (A : Type ℓ) : Type ℓ where
  pub nodes : List A
  pub size : ℕ
  pub max_size : ℕ

module _ {ℓ} {A : Type ℓ} where
  unfoldable pub queue_init : Alloc (Queue A)
  queue_init = do queue ← malloc 56; made (record { nodes = []; size = 0; max_size = 10000 })

  abbrev pub at_back : Queue A → Option A × Memory → Queue A × Code × Memory
  at_back queue (none, mem) = (queue, memory_error, mem)
  at_back queue (some value, mem) =
      (record queue { nodes = queue.nodes ++ value ∷ []; size = queue.size + 1 }, success, mem)

  abbrev in_node : (A → Alloc A) → A → Queue A → Option (List ℕ) × Memory → Queue A × Code × Memory
  in_node copy value queue (none, mem) = (queue, memory_error, mem)
  in_node copy value queue (some new_node, mem) = at_back queue (copy value mem)

  unfoldable pub queue_push_back : (A → Alloc A) → Queue A → A → Memory → Queue A × Code × Memory
  queue_push_back copy queue value mem =
      if queue.size == queue.max_size
      then (queue, queue_overflow, mem)
      else in_node copy value queue (malloc 8 mem)

  -- The loop goes on while the code is SUCCESS.
  unfoldable pub push_while :
      (A → Alloc A) → List A → Queue A × Code × Memory → Queue A × Code × Memory
  unfolding queue_push_back
  push_while copy [] r = r
  push_while copy (value ∷ values) (queue, success, mem) =
      push_while copy values (queue_push_back copy queue value mem)
  push_while copy (value ∷ values) (queue, code, mem) = (queue, code, mem)

  unfoldable pub queue_push_all :
      (A → Alloc A) → Queue A → Queue A → Memory → Queue A × Code × Memory
  unfolding push_while
  queue_push_all copy queue_dst queue_src mem =
      push_while copy queue_src.nodes (queue_dst, success, mem)

  -- queue->front of queues that have a node.
  abbrev front_value : List A → Option A
  front_value [] = none
  front_value (value ∷ values) = some value

  abbrev behind_front : List A → List A
  behind_front [] = []
  behind_front (value ∷ values) = values

  unfoldable pub queue_pop_front : Queue A → Option (Queue A)
  queue_pop_front queue =
      let left = queue.size - 1 in
      if queue.size == 0
      then none
      else some
          (record queue { nodes = if left == 0 then [] else behind_front queue.nodes; size = left })

  unfoldable pub queue_peek : Queue A → Option A
  queue_peek queue = if queue.size == 0 then none else front_value queue.nodes

  unfoldable pub queue_is_empty : Queue A → Bool
  queue_is_empty queue = queue.size == 0
