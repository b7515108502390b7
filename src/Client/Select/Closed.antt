-- ===== src/Client/Select/Closed.antt =====
-- select_step of client/src/select_fd_storage.c where a peer's connection is closed.
use pvs_kp.Base.{
  ℕ, zero, suc, ◌+◌, ◌≡◌, ◌≢◌, inl, inr, refl, Option, none, some, List, [], ◌∷◌, get_elem?,
  Option-cases, ap, ◌∙◌,
}
use pvs_kp.Client.Peer.{Peer}
use pvs_kp.Client.Peer.Send.{bind}
use pvs_kp.Client.Select.{
  Storage, build_all, zero_storage, get_max_fd, Io, serve, serve_all, SelectCall, fd_count,
  select_step,
}

module _ {ℓ ℓ'} {A : Type ℓ} {B : Type ℓ'} where
  bind-none : (f : A → Option B) (o : Option A) → ((a : A) → f a ≡ none) → bind f o ≡ none
  bind-none f none h = refl
  bind-none f (some a) h = h a

serve-closed : (io : Io) (fds : Storage) (peer : Peer) → peer.fd ≡ none → serve io fds peer ≡ none
unfolding serve
serve-closed io fds peer closed = rw closed refl

abbrev fd_of : Option Peer → Option ℕ
fd_of none = none
fd_of (some peer) = peer.fd

serve_all-closed :
    (io : ℕ → Io) (fds : Storage) (peers : List Peer) (k : ℕ) (peer : Peer)
    → get_elem? peers k ≡ some peer
    → peer.fd ≡ none
    → serve_all io fds peers ≡ none
unfolding serve_all
serve_all-closed io fds [] k peer there closed = cc there
serve_all-closed io fds (p ∷ peers) zero peer there closed =
    rw (serve-closed (io 0) fds p (ap fd_of there ∙ closed)) refl
serve_all-closed io fds (p ∷ peers) (suc k) peer there closed =
    rw (serve_all-closed (λ n. io (n + 1)) fds peers k peer there closed)
      (bind-none _ (serve (io 0) fds p) (λ served. refl))

-- Where one of the peers has the descriptor -1, as after a connection that failed, and select does
-- not fail, select_step is undefined: it looks at the bit of -1.
pub select_step-closed :
    (select_ : SelectCall) (io : ℕ → Io) (storage : Storage) (peers : List Peer) (k : ℕ)
    (peer : Peer)
    → ((asked : Storage) (count : ℕ) → select_ asked count ≢ none)
    → get_elem? peers k ≡ some peer
    → peer.fd ≡ none
    → select_step select_ io storage peers ≡ none
unfolding select_step
select_step-closed select_ io storage peers k peer works there closed =
    bind-none _ (build_all peers (zero_storage storage)) (λ asked.
      elim (Option-cases (select_ asked (fd_count (get_max_fd peers)))) [
        | inl fails ↦ absurd (works asked (fd_count (get_max_fd peers)) fails)
        | inr (answer, e) ↦ rw e (rw (serve_all-closed io answer.1 peers k peer there closed) refl)
      ])
