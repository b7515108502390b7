-- ===== src/Server/Jobs/Examples.antt =====
-- A listener and a thread, on which the theorem about their steps is applied.
use mathlib.Core.Option
use mathlib.Core.Path.{subst}
use pvs_kp.Base.{ℕ, ◌≡◌, refl, true, Option, none, some, List, [], ◌∷◌, ◌++◌, length, All, arith}
use pvs_kp.Server.Examples.{env, writer}
use pvs_kp.Server.Queue.{Cells, Node, Os}
use pvs_kp.Server.Jobs.{Room, Jobs, Step, listens, takes, ready, Moved, steps}
use pvs_kp.Server.Jobs.Order.{IsJobs, IsFair, all_queued, all_taken, steps-order}

abbrev free_at : Option Node → Option ℕ
free_at none = some 0
free_at (some node) = none

abbrev os : Os
os = record { locks = true; malloc = λ cells. free_at (cells 0); has_room = true }

os-Fresh : (cells : Cells) (a : ℕ) → os.malloc cells ≡ some a → cells a ≡ none
os-Fresh cells a = go (cells 0) refl
  where
    go : (o : Option Node) → cells 0 ≡ o → free_at o ≡ some a → cells a ≡ none
    go none here e = subst (λ n. cells n ≡ none) (Option.some-injective 0 a e) here
    go (some node) here e = cc e

abbrev room : Room
room = record { env = env; has_fds = true; has_clients = true; has_client = true }

abbrev jobs : Jobs
jobs = record {
  job_queue = record { front = none; back = none; size = 0; max_size = 10000; cells = λ a. none };
  threads = record { slots = []; max_size = 50; mail_writer = writer } ∷ [];
}

abbrev two_steps : List Step
two_steps = listens os (ready true) (some 7) ∷ takes 0 os room ∷ []

jobs-IsJobs : IsJobs [] jobs
jobs-IsJobs = (
  record { items = []; front = refl; back = refl; size = refl; chain = tt; holds = refl },
  tt,
  (omega arith, tt),
)

two_steps-IsFair : All (IsFair (length jobs.threads)) two_steps
two_steps-IsFair = ((os-Fresh, omega arith), ((omega arith, refl), tt))

steps-order_example :
    (jobs' : Jobs) × (moves : List Moved) × (left : List ℕ) × (steps two_steps jobs
      ≡ some (jobs', moves))
    × IsJobs left jobs'
    × ([] ++ all_queued moves ≡ all_taken moves ++ left)
steps-order_example = steps-order two_steps [] jobs two_steps-IsFair jobs-IsJobs
