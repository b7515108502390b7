-- ===== src/Server/Jobs/Order.antt =====
-- The order in which sockets come from the listener of server/src/smtp_server.c to its threads.
use mathlib.Core.Path.{subst}
use pvs_kp.Base.{
  ℕ, ◌<◌, ◌≡◌, inl, inr, refl, sym, ap, ◌∙◌, true, false, none, some, List, [], ◌∷◌, ◌++◌,
  append-nil, append_assoc, length, length-set, All, All-append, get_elem?-some, set,
}
use pvs_kp.Server.Queue.{Cells, Os}
use pvs_kp.Server.Queue.Fifo.{Holds, queue_push_back-Pushed}
use pvs_kp.Server.Queue.Taken.{queue_try_pop_front-Given}
use pvs_kp.Server.Jobs.Contents.{
  queue_values, queue_values-append, int_of-bytes_of, queue_values-cons, HasRoom, All-set, All-get,
  added,
}
use pvs_kp.Server.Jobs.{
  bytes_of, int_of, failed, timed_out, ready, listen, Room, take_client, Jobs, Step, listens, takes,
  Moved, nothing, queued, taken, step, steps,
}

-- The queue holds these sockets.
abbrev pub IsJobs : List ℕ → Jobs → Type 0
IsJobs fds jobs =
    Holds jobs.job_queue (queue_values fds)
    × All (λ fd. fd < 4294967296) fds
    × All HasRoom jobs.threads

-- malloc gives only free memory, a socket is an int, there is such a thread, and there is memory where
-- the arrays are to grow.
abbrev pub IsFair : ℕ → Step → Type 0
IsFair threads (listens os polled none) =
    (cells : Cells) (a : ℕ) → os.malloc cells ≡ some a → cells a ≡ none
IsFair threads (listens os polled (some fd)) =
    ((cells : Cells) (a : ℕ) → os.malloc cells ≡ some a → cells a ≡ none) × (fd < 4294967296)
IsFair threads (takes thread os room) = (thread < threads) × (room.has_clients ≡ true)

-- Reference: the sockets in the queue before and after what a step moved.
abbrev pub Flows : List ℕ → Moved → List ℕ → Type 0
Flows fds nothing fds' = fds' ≡ fds
Flows fds (queued fd) fds' = fds' ≡ fds ++ fd ∷ []
Flows fds (taken thread fd) fds' = fds ≡ fd ∷ fds'

abbrev Stepped : List ℕ → Jobs → Step → Type 0
Stepped fds jobs s =
    (jobs' : Jobs) × (moved : Moved) × (fds' : List ℕ) × (step jobs s ≡ some (jobs', moved))
    × IsJobs fds' jobs'
    × (length jobs'.threads ≡ length jobs.threads)
    × Flows fds moved fds'

listens-Stepped :
    (os : Os) (fd : ℕ) (fds : List ℕ) (jobs : Jobs)
    → ((cells : Cells) (a : ℕ) → os.malloc cells ≡ some a → cells a ≡ none)
    → fd < 4294967296
    → IsJobs fds jobs
    → Stepped fds jobs (listens os (ready true) (some fd))
unfolding step listen
listens-Stepped os fd fds jobs fresh small (holds, ints, room) =
    let (q, code, run, pushed) =
      queue_push_back-Pushed os jobs.job_queue (queue_values fds) (bytes_of fd) holds
        (fresh jobs.job_queue.cells) in
    elim pushed [
      | inl (ok, locked, space, found, roomy, more) ↦ (
        record jobs { job_queue = q },
        queued fd,
        fds ++ fd ∷ [],
        rw run (rw ok refl),
        (
          subst (Holds q) (sym (queue_values-append fds fd)) more,
          All-append (λ n. n < 4294967296) fds (fd ∷ []) ints (small, tt),
          room,
        ),
        refl,
        refl,
      )
      | inr (inl (e, stuck, held)) ↦ (
        record jobs { job_queue = q },
        nothing,
        fds,
        rw run (rw e refl),
        (held, ints, room),
        refl,
        refl,
      )
      | inr (inr (inl (e, full, held))) ↦ (
        record jobs { job_queue = q },
        nothing,
        fds,
        rw run (rw e refl),
        (held, ints, room),
        refl,
        refl,
      )
      | inr (inr (inr (e, why, held))) ↦ (
        record jobs { job_queue = q },
        nothing,
        fds,
        rw run (rw e refl),
        (held, ints, room),
        refl,
        refl,
      )
    ]

module _ (thread : ℕ) (os : Os) (room : Room) (fds : List ℕ) (jobs : Jobs) where
  takes-Stepped :
      thread < length jobs.threads
      → room.has_clients ≡ true
      → IsJobs fds jobs
      → Stepped fds jobs (takes thread os room)
  unfolding step take_client
  takes-Stepped there memory (holds, ints, has) =
      let (server, at) = get_elem?-some jobs.threads thread there in
      let has_room = All-get jobs.threads thread server at has in
      let (q, bytes, code, run, given) =
        queue_try_pop_front-Given os jobs.job_queue (queue_values fds) 4 holds in
      let unmoved : Jobs = record { job_queue = q; threads = set jobs.threads thread server } in
      let same = All-set jobs.threads thread server has has_room in
      elim given [
        | inl (e, stuck, held) ↦ (
          unmoved,
          nothing,
          fds,
          rw at (rw run (rw e refl)),
          (held, ints, same),
          length-set jobs.threads thread server,
          refl,
        )
        | inr (inl (e, empty, held)) ↦ (
          unmoved,
          nothing,
          fds,
          rw at (rw run (rw e refl)),
          (subst (Holds q) (sym empty) held, ints, same),
          length-set jobs.threads thread server,
          refl,
        )
        | inr (inr (inl (e, rest, front, size, held))) ↦
            let (fd, more, first, is_fd, others) = queue_values-cons fds bytes rest front in
            let ints' = subst (All (λ n. n < 4294967296)) first ints in
            let (r, code', done, has') = added room server fd memory has_room in
            let the_int : int_of bytes ≡ fd = ap int_of (sym is_fd) ∙ int_of-bytes_of fd ints'.0 in
            (
              record { job_queue = q; threads = set jobs.threads thread r },
              taken thread fd,
              more,
              rw at (rw run (rw e (rw the_int (rw done refl)))),
              (subst (Holds q) (sym others) held, ints'.1, All-set jobs.threads thread r has has'),
              length-set jobs.threads thread r,
              first,
            )
        | inr (inr (inr (e, v, rest, front, size, a, points, freed))) ↦
            let (fd, more, first, is_fd, others) = queue_values-cons fds v rest front in
            absurd (size (ap length is_fd))
      ]

step-Stepped :
    (s : Step) (fds : List ℕ) (jobs : Jobs)
    → IsFair (length jobs.threads) s
    → IsJobs fds jobs
    → Stepped fds jobs s
unfolding step listen
step-Stepped (takes thread os room) fds jobs (there, memory) h =
    takes-Stepped thread os room fds jobs there memory h
step-Stepped (listens os (ready true) (some fd)) fds jobs (fresh, small) h =
    listens-Stepped os fd fds jobs fresh small h
step-Stepped (listens os (ready true) none) fds jobs fresh h =
    (jobs, nothing, fds, refl, h, refl, refl)
step-Stepped (listens os (ready false) accepted) fds jobs fresh h =
    (jobs, nothing, fds, refl, h, refl, refl)
step-Stepped (listens os failed accepted) fds jobs fresh h =
    (jobs, nothing, fds, refl, h, refl, refl)
step-Stepped (listens os timed_out accepted) fds jobs fresh h =
    (jobs, nothing, fds, refl, h, refl, refl)

-- The sockets that were put onto the queue, and those that threads took, in the order of the steps.
abbrev pub all_queued : List Moved → List ℕ
all_queued [] = []
all_queued (queued fd ∷ moves) = fd ∷ all_queued moves
all_queued (_ ∷ moves) = all_queued moves

abbrev pub all_taken : List Moved → List ℕ
all_taken [] = []
all_taken (taken thread fd ∷ moves) = fd ∷ all_taken moves
all_taken (_ ∷ moves) = all_taken moves

flow :
    (fds fds' left : List ℕ) (moved : Moved) (moves : List Moved)
    → Flows fds moved fds'
    → fds' ++ all_queued moves ≡ all_taken moves ++ left
    → fds ++ all_queued (moved ∷ moves) ≡ all_taken (moved ∷ moves) ++ left
flow fds fds' left nothing moves same h = ap (λ l. l ++ all_queued moves) (sym same) ∙ h
flow fds fds' left (queued fd) moves more h =
    sym (append_assoc fds (fd ∷ []) (all_queued moves))
    ∙ ap (λ l. l ++ all_queued moves) (sym more)
    ∙ h
flow fds fds' left (taken thread fd) moves first h =
    ap (λ l. l ++ all_queued moves) first ∙ ap (λ l. fd ∷ l) h

-- Whatever the order in which the listener and the threads take their steps, from a queue that holds
-- some sockets: no step uses memory that is not there, and the sockets that were in the queue, with
-- those that the listener put behind them, are the ones that the threads took, in the same order, and
-- then those that the queue holds in the end. So each is taken once at most, and the first is taken
-- first. The steps are such that malloc gives free memory, and that a thread gets memory where its
-- arrays are full.
pub steps-order :
    (all_steps : List Step) (fds : List ℕ) (jobs : Jobs)
    → All (IsFair (length jobs.threads)) all_steps
    → IsJobs fds jobs
    → (jobs' : Jobs) × (moves : List Moved) × (left : List ℕ) × (steps all_steps jobs
        ≡ some (jobs', moves))
      × IsJobs left jobs'
      × (fds ++ all_queued moves ≡ all_taken moves ++ left)
unfolding steps
steps-order [] fds jobs fair h = (jobs, [], fds, refl, h, append-nil fds)
steps-order (s ∷ later) fds jobs fair h =
    let (jobs1, moved, fds1, run, h1, same, flows) = step-Stepped s fds jobs fair.0 h in
    let (jobs2, moves, left, run', h2, order) =
      steps-order later fds1 jobs1 (rw same (fair.1)) h1 in
    (
      jobs2,
      moved ∷ moves,
      left,
      rw run (rw run' refl),
      h2,
      flow fds fds1 left moved moves flows order,
    )
