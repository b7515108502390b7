-- ===== src/Server/Queue/Examples.antt =====
-- A queue of two values, on which the theorems about the queue are applied.
use mathlib.Core.Option
use mathlib.Core.Path.{subst}
use pvs_kp.Base.{ℕ, ◌≡◌, refl, true, none, some, List, [], ◌∷◌, arith}
use pvs_kp.Server.ErrorCode.{ErrorCode}
use pvs_kp.Server.Queue.{Cells, Os, Queue, queue_push_back, queue_try_pop_front, queue_destroy}
use pvs_kp.Server.Queue.Fifo.{cell, Holds, Pushed, queue_push_back-Pushed}
use pvs_kp.Server.Queue.Taken.{Given, queue_try_pop_front-Given, queue_destroy-cells}

-- The values 5 and 6 in the nodes at 0 and 1.
abbrev cells : Cells
cells ℕ.zero = cell (5 ∷ []) (some 1)
cells (ℕ.suc ℕ.zero) = cell (6 ∷ []) none
cells (ℕ.suc (ℕ.suc a)) = none

abbrev queue : Queue
queue = record { front = some 0; back = some 1; size = 2; max_size = 10; cells = cells }

abbrev values : List (List ℕ)
values = (5 ∷ []) ∷ (6 ∷ []) ∷ []

abbrev os : Os
os = record { locks = true; malloc = λ c. some 2; has_room = true }

abbrev queue_held : Holds queue values
queue_held = record {
  items = (0, 5 ∷ []) ∷ (1, 6 ∷ []) ∷ [];
  front = refl;
  back = refl;
  size = refl;
  chain = (refl, ((λ e. absurd (omega (arith, e))), tt), (refl, tt, tt));
  holds = refl;
}

fresh_at_two : (a : ℕ) → os.malloc queue.cells ≡ some a → queue.cells a ≡ none
fresh_at_two a found = subst (λ n. cells n ≡ none) (Option.some-injective 2 a found) refl

queue_push_back-Pushed_example :
    (r : Queue) × (code : ErrorCode) × (queue_push_back os queue (7 ∷ []) ≡ some (r, code))
    × Pushed os queue values (7 ∷ []) r code
queue_push_back-Pushed_example =
    queue_push_back-Pushed os queue values (7 ∷ []) queue_held fresh_at_two

queue_try_pop_front-Given_example :
    (r : Queue) × (bytes : List ℕ) × (code : ErrorCode) × (queue_try_pop_front os queue 1
      ≡ some (r, bytes, code))
    × Given os values 1 r bytes code
queue_try_pop_front-Given_example = queue_try_pop_front-Given os queue values 1 queue_held

queue_destroy-cells_example :
    (r : Queue) × (queue_destroy 2 queue ≡ some r)
    × (r.size ≡ 0)
    × (r.front ≡ none)
    × (r.back ≡ none)
    × (r.cells 1 ≡ none)
queue_destroy-cells_example = queue_destroy-cells 2 queue values queue_held 1 (omega arith)
