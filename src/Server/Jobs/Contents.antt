-- ===== src/Server/Jobs/Contents.antt =====
-- The values in the queue of server/src/smtp_server.c, and the room of its threads.
use mathlib.Core.Path.{subst}
use pvs_kp.Base.{
  ℕ, zero, suc, ◌≤◌, ◌<◌, ◌≡◌, inl, inr, refl, sym, ap, ◌∙◌, true, Option, none, some, List, [],
  ◌∷◌, ◌++◌, length, length-append, All, get_elem?, set, arith,
}
use pvs_kp.Server.ErrorCode.{ErrorCode}
use pvs_kp.Server.ServerInfo.{ServerInfo, server_info_add_client}
use pvs_kp.Server.ServerInfo.Slots.{Added, server_info_add_client-Added}
use pvs_kp.Server.Jobs.{bytes_of, int_of, Room}

abbrev pub queue_values : List ℕ → List (List ℕ)
queue_values [] = []
queue_values (fd ∷ fds) = bytes_of fd ∷ queue_values fds

pub queue_values-append :
    (fds : List ℕ) (fd : ℕ) → queue_values (fds ++ fd ∷ []) ≡ queue_values fds ++ bytes_of fd ∷ []
queue_values-append [] fd = refl
queue_values-append (f ∷ fds) fd = ap (λ l. bytes_of f ∷ l) (queue_values-append fds fd)

pub int_of-bytes_of : (fd : ℕ) → fd < 4294967296 → int_of (bytes_of fd) ≡ fd
int_of-bytes_of fd small = omega (arith, small)

first_value : List (List ℕ) → List ℕ
first_value [] = []
first_value (v ∷ vs) = v

other_values : List (List ℕ) → List (List ℕ)
other_values [] = []
other_values (v ∷ vs) = vs

pub queue_values-cons :
    (fds : List ℕ) (v : List ℕ) (vs : List (List ℕ))
    → queue_values fds ≡ v ∷ vs
    → (fd : ℕ) × (more : List ℕ) × (fds ≡ fd ∷ more) × (bytes_of fd ≡ v) × (queue_values more ≡ vs)
unfolding first_value other_values
queue_values-cons [] v vs e = cc e
queue_values-cons (fd ∷ fds) v vs e = (fd, fds, refl, ap first_value e, ap other_values e)

-- Each thread has room in its arrays for the connections that it has.
abbrev pub HasRoom : ServerInfo → Type 0
HasRoom server = length server.slots ≤ server.max_size

pub All-set :
    (servers : List ServerInfo) (n : ℕ) (server : ServerInfo)
    → All HasRoom servers
    → HasRoom server
    → All HasRoom (set servers n server)
All-set [] n server h here = tt
All-set (s ∷ servers) zero server h here = (here, h.1)
All-set (s ∷ servers) (suc n) server h here = (h.0, All-set servers n server h.1 here)

pub All-get :
    (servers : List ServerInfo) (n : ℕ) (server : ServerInfo)
    → get_elem? servers n ≡ some server
    → All HasRoom servers
    → HasRoom server
All-get [] n server e h = cc e
All-get (s ∷ servers) zero server e h = subst OfRoom e h.0
  where
    OfRoom : Option ServerInfo → Type 0
    OfRoom none = Unit
    OfRoom (some s) = HasRoom s
All-get (s ∷ servers) (suc n) server e h = All-get servers n server e h.1

-- A thread's connections after a socket was taken.
pub added :
    (room : Room) (server : ServerInfo) (fd : ℕ)
    → room.has_clients ≡ true
    → HasRoom server
    → (r : ServerInfo) × (code : ErrorCode) × (server_info_add_client room.env server fd
          room.has_fds room.has_clients room.has_client
        ≡ some (r, code))
      × HasRoom r
added room server fd memory has =
    go (server_info_add_client room.env server fd room.has_fds room.has_clients room.has_client)
      refl
      (server_info_add_client-Added room.env server fd room.has_fds room.has_clients room.has_client
        has)
  where
    go :
        (o : Option (ServerInfo × ErrorCode))
        → server_info_add_client room.env server fd room.has_fds room.has_clients room.has_client
          ≡ o
        → Added server fd room.has_fds room.has_clients o
        → (r : ServerInfo) × (code : ErrorCode) × (server_info_add_client room.env server fd
              room.has_fds room.has_clients room.has_client
            ≡ some (r, code))
          × HasRoom r
    go none e (full, fds, clients) = cc (sym memory ∙ clients)
    go (some (r, code)) e (inl (ok, space, same, slot, is_fd, slots)) = (
      r,
      code,
      e,
      rw slots (rw same (omega (arith, length-append server.slots (slot ∷ []), space))),
    )
    go (some (r, code)) e (inr (refused, same)) = (r, code, e, rw same has)
