-- ===== src/Client/Select/Asked.antt =====
-- What select_step of client/src/select_fd_storage.c asks select for.
use pvs_kp.Base.{
  ℕ, zero, suc, ◌≤◌, ◌<◌, ◌≡◌, ◌⊎◌, inl, inr, refl, ap, ◌∙◌, Bool, true, false, not, ◌&&◌, ◌||◌,
  Option, none, some, List, [], ◌∷◌, All, get_elem?, ltb, lt→ltb, ◌==◌, Bool-cases, Option-cases,
  arith,
}
use pvs_kp.Client.Peer.{Peer}
use pvs_kp.Client.Queue.{queue_is_empty}
use pvs_kp.Client.Select.{
  Storage, has_fd, build_storage, zero_storage, larger, max_of, get_max_fd, build_all, Io,
  SelectCall, selected, fd_count, select_step,
}

-- The descriptor is the peer's, and not -1 or 0.
abbrev pub is_of : ℕ → Option ℕ → Bool
is_of n none = false
is_of n (some zero) = false
is_of n (some (suc fd)) = n == suc fd

-- Reference: some peer has the descriptor; some peer has it, and messages to send.
abbrev pub any_reads : ℕ → List Peer → Bool
any_reads n [] = false
any_reads n (peer ∷ peers) = let others = any_reads n peers in is_of n peer.fd || others

abbrev pub any_writes : ℕ → List Peer → Bool
any_writes n [] = false
any_writes n (peer ∷ peers) =
    let others = any_writes n peers in
    (is_of n peer.fd && not (queue_is_empty peer.messages_in)) || others

-- An fd_set has a bit for the descriptor.
abbrev pub IsSmall : Peer → Type 0
IsSmall peer = fd_count peer.fd ≤ 1024

or_swap : (a b c : Bool) → (b || (a || c)) ≡ ((a || b) || c)
or_swap true true c = refl
or_swap true false c = refl
or_swap false true c = refl
or_swap false false c = refl

-- One peer.
abbrev Built : ℕ → Peer → Storage → Type 0
Built n peer storage =
    (s' : Storage) × (build_storage peer storage ≡ some s')
    × (has_fd n s'.read_fds ≡ (is_of n peer.fd || has_fd n storage.read_fds))
    × (has_fd n s'.write_fds ≡ (
        (is_of n peer.fd && not (queue_is_empty peer.messages_in)) || has_fd n storage.write_fds))

build_storage-Built :
    (n : ℕ) (peer : Peer) (storage : Storage) → IsSmall peer → Built n peer storage
unfolding build_storage
build_storage-Built n peer storage small = elim (Option-cases peer.fd) [
  | inl e ↦ (storage, rw e refl, rw e refl, rw e refl)
  | inr (zero, e) ↦ (storage, rw e refl, rw e refl, rw e refl)
  | inr (suc fd, e) ↦
      let fits : ltb (suc fd) 1024 ≡ true = lt→ltb _ _ (omega (arith, rw e at small)) in
      elim (Bool-cases (queue_is_empty peer.messages_in)) [
        | inl empty ↦ (
          record storage { read_fds = suc fd ∷ storage.read_fds },
          rw e (rw fits (rw empty refl)),
          rw e refl,
          rw e (rw empty (and_false (n == suc fd) (has_fd n storage.write_fds))),
        )
        | inr waiting ↦ (
          record { read_fds = suc fd ∷ storage.read_fds; write_fds = suc fd ∷ storage.write_fds },
          rw e (rw fits (rw waiting (rw fits refl))),
          rw e refl,
          rw e (rw waiting (and_true (n == suc fd) (has_fd n storage.write_fds))),
        )
      ]
]
  where
    and_false : (b c : Bool) → c ≡ ((b && false) || c)
    and_false true c = refl
    and_false false c = refl

    and_true : (b c : Bool) → (b || c) ≡ ((b && true) || c)
    and_true true c = refl
    and_true false c = refl

build_all-any :
    (n : ℕ) (peers : List Peer) (storage : Storage)
    → All IsSmall peers
    → (s' : Storage) × (build_all peers storage ≡ some s')
      × (has_fd n s'.read_fds ≡ (any_reads n peers || has_fd n storage.read_fds))
      × (has_fd n s'.write_fds ≡ (any_writes n peers || has_fd n storage.write_fds))
unfolding build_all
build_all-any n [] storage small = (storage, refl, refl, refl)
build_all-any n (peer ∷ peers) storage small =
    let (s1, run, reads, writes) = build_storage-Built n peer storage small.0 in
    let (s2, run', reads', writes') = build_all-any n peers s1 small.1 in
    (
      s2,
      rw run run',
      reads'
          ∙ ap (λ b. any_reads n peers || b) reads
          ∙ or_swap (is_of n peer.fd) (any_reads n peers) (has_fd n storage.read_fds),
      writes'
          ∙ ap (λ b. any_writes n peers || b) writes
          ∙ or_swap (is_of n peer.fd && not (queue_is_empty peer.messages_in)) (any_writes n peers)
              (has_fd n storage.write_fds),
    )

larger-bound :
    (fd max_fd : Option ℕ)
    → (fd_count fd ≤ fd_count (larger fd max_fd))
      × (fd_count max_fd ≤ fd_count (larger fd max_fd))
      × ((fd_count (larger fd max_fd) ≡ fd_count fd)
          ⊎ (fd_count (larger fd max_fd) ≡ fd_count max_fd))
larger-bound none none = (omega arith, omega arith, inl refl)
larger-bound none (some m) = (omega arith, omega arith, inr refl)
larger-bound (some fd) none = (omega arith, omega arith, inl refl)
larger-bound (some fd) (some m) = elim (Bool-cases (ltb m fd)) [
  | inl e ↦ rw e (omega arith, ground (arith, e), inl refl)
  | inr e ↦ rw e (ground (arith, e), omega arith, inr refl)
]

is_of-bound : (n : ℕ) (fd : Option ℕ) → is_of n fd ≡ true → n < fd_count fd
is_of-bound n none e = cc e
is_of-bound n (some zero) e = cc e
is_of-bound n (some (suc fd)) e = ground (arith, e)

max_of-bound :
    (n : ℕ) (peers : List Peer) (max_fd : Option ℕ)
    → (fd_count max_fd ≤ fd_count (max_of peers max_fd))
      × ((any_reads n peers ≡ false) ⊎ (n < fd_count (max_of peers max_fd)))
unfolding max_of
max_of-bound n [] max_fd = (omega arith, inl refl)
max_of-bound n (peer ∷ peers) max_fd =
    let (above, later) = max_of-bound n peers (larger peer.fd max_fd) in
    let (fd_below, max_below, either) = larger-bound peer.fd max_fd in
    (
      omega (arith, above, max_below),
      elim (Bool-cases (is_of n peer.fd)) [
        | inl mine ↦ inr (omega (arith, is_of-bound n peer.fd mine, fd_below, above))
        | inr other ↦ rw other later
      ],
    )

max_of-small :
    (peers : List Peer) (max_fd : Option ℕ)
    → All IsSmall peers
    → fd_count max_fd ≤ 1024
    → fd_count (max_of peers max_fd) ≤ 1024
unfolding max_of
max_of-small [] max_fd small here = here
max_of-small (peer ∷ peers) max_fd small here =
    let (fd_below, max_below, either) = larger-bound peer.fd max_fd in
    max_of-small peers (larger peer.fd max_fd) small.1
      (elim either [ inl e ↦ rw e (small.0) | inr e ↦ rw e here ])

-- The greatest descriptor is some peer's, where it is not the one that the search starts with.
max_of-some :
    (peers : List Peer) (max_fd : Option ℕ)
    → (fd_count (max_of peers max_fd) ≡ fd_count max_fd)
      ⊎ ((k : ℕ) × (peer : Peer) × (get_elem? peers k ≡ some peer)
          × (fd_count (max_of peers max_fd) ≡ fd_count peer.fd))
unfolding max_of
max_of-some [] max_fd = inl refl
max_of-some (peer ∷ peers) max_fd =
    let (fd_below, max_below, either) = larger-bound peer.fd max_fd in
    elim (max_of-some peers (larger peer.fd max_fd)) [
      | inr (k, p, found, e) ↦ inr (suc k, p, found, e)
      | inl same ↦ elim either [
        | inl mine ↦ inr (0, peer, refl, same ∙ mine)
        | inr before ↦ inl (same ∙ before)
      ]
    ]

-- Where an fd_set has bits for all the descriptors, select_step asks select, for every descriptor but
-- -1 and 0, whether it can be read just where it is some peer's, and whether it can be written just
-- where that peer has messages to send; it lets select look at all those that it asks for, and at no
-- more than up to some peer's descriptor, or at none, and at 1024 at most. Then it goes on with what select answers.
pub select_step-asks :
    (select_ : SelectCall) (io : ℕ → Io) (storage : Storage) (peers : List Peer) (n : ℕ)
    → All IsSmall peers
    → (asked : Storage) × (select_step select_ io storage peers
        ≡ selected io peers (select_ asked (fd_count (get_max_fd peers))))
      × (has_fd n asked.read_fds ≡ any_reads n peers)
      × (has_fd n asked.write_fds ≡ any_writes n peers)
      × ((any_reads n peers ≡ false) ⊎ (n < fd_count (get_max_fd peers)))
      × ((fd_count (get_max_fd peers) ≡ 0)
          ⊎ ((k : ℕ) × (peer : Peer) × (get_elem? peers k ≡ some peer)
              × (fd_count (get_max_fd peers) ≡ fd_count peer.fd)))
      × (fd_count (get_max_fd peers) ≤ 1024)
unfolding select_step get_max_fd
select_step-asks select_ io storage peers n small =
    let (asked, run, reads, writes) = build_all-any n peers (zero_storage storage) small in
    (
      asked,
      rw run refl,
      reads ∙ or_false (any_reads n peers),
      writes ∙ or_false (any_writes n peers),
      (max_of-bound n peers none).1,
      max_of-some peers none,
      max_of-small peers none small (omega arith),
    )
  where
    or_false : (b : Bool) → (b || false) ≡ b
    or_false true = refl
    or_false false = refl
