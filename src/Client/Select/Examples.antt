-- ===== src/Client/Select/Examples.antt =====
-- A worker with two peers, on which the theorems about select_step are applied.
use pvs_kp.Base.{ℕ, ◌≤◌, ◌<◌, ◌≡◌, ◌⊎◌, false, none, some, [], ◌∷◌, codes, arith, get_elem?}
use pvs_kp.Client.MString.Contents.{str_of}
use pvs_kp.Client.Peer.{Peer, fdt_pipe, fdt_socket}
use pvs_kp.Client.Queue.Contents.{queue_of}
use pvs_kp.Client.Select.{
  Storage, has_fd, get_max_fd, Io, SelectCall, selected, fd_count, select_step,
}
use pvs_kp.Client.Select.Asked.{any_reads, any_writes, select_step-asks}

abbrev pipe : Peer
pipe = record {
  fd = some 5;
  type_ = fdt_pipe;
  messages_in = queue_of (str_of (codes "m") ∷ []);
  message_in_begin = 0;
  buffer_in = [];
  buffer_in_size = 0;
  messages_out = queue_of [];
  buffer_out = [];
  buffer_out_size = 0;
}

abbrev closed : Peer
closed = record pipe { fd = none; type_ = fdt_socket }

abbrev none_ready : SelectCall
none_ready asked count = some (0, record { read_fds = []; write_fds = [] })

abbrev io : ℕ → Io
io n = record {
  read_ = λ size. none;
  unset_received = none;
  write_ = λ bytes. none;
  unset_sended = none;
}

abbrev storage : Storage
storage = record { read_fds = []; write_fds = [] }

select_step-asks_example :
    (asked : Storage) × (select_step none_ready io storage (pipe ∷ closed ∷ [])
      ≡ selected io
          (pipe ∷ closed ∷ [])
          (none_ready asked (fd_count (get_max_fd (pipe ∷ closed ∷ [])))))
    × (has_fd 5 asked.read_fds ≡ any_reads 5 (pipe ∷ closed ∷ []))
    × (has_fd 5 asked.write_fds ≡ any_writes 5 (pipe ∷ closed ∷ []))
    × ((any_reads 5 (pipe ∷ closed ∷ []) ≡ false)
        ⊎ (5 < fd_count (get_max_fd (pipe ∷ closed ∷ []))))
    × ((fd_count (get_max_fd (pipe ∷ closed ∷ [])) ≡ 0)
        ⊎ ((k : ℕ) × (peer : Peer) × (get_elem? (pipe ∷ closed ∷ []) k ≡ some peer)
            × (fd_count (get_max_fd (pipe ∷ closed ∷ [])) ≡ fd_count peer.fd)))
    × (fd_count (get_max_fd (pipe ∷ closed ∷ [])) ≤ 1024)
select_step-asks_example =
    select_step-asks none_ready io storage (pipe ∷ closed ∷ []) 5 (omega arith, (omega arith, tt))
