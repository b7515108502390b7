-- ===== src/Server/ServerInfo/Slots.antt =====
-- How many connections a thread can hold.
use mathlib.Core.Option
use pvs_kp.Base.{
  ℕ, ◌+◌, ◌≤◌, ◌<◌, ◌≡◌, ◌⊎◌, inl, inr, refl, Bool, true, false, not, ◌&&◌, Option, none, some, [],
  ◌∷◌, ◌++◌, arith, length, ltb, Bool-cases, if◌then◌else◌, ltb→lt, ltb→le,
}
use pvs_kp.Server.ErrorCode.{ErrorCode, ce_success, ce_alloc, succeeded}
use pvs_kp.Server.Client.{Env}
use pvs_kp.Server.ServerInfo.{
  Slot, ServerInfo, server_info_resize, add_slot, server_info_add_client,
}

-- The outcomes of taking a connection.
abbrev pub Added : ServerInfo → ℕ → Bool → Bool → Option (ServerInfo × ErrorCode) → Type 0
Added server fd has_fds has_clients none =
    (length server.slots ≡ server.max_size) × (has_fds ≡ true) × (has_clients ≡ false)
Added server fd has_fds has_clients (some (r, code)) =
    ((code ≡ ce_success)
      × (length server.slots < server.max_size)
      × (r.max_size ≡ server.max_size)
      × (slot : Slot) × (slot.fd ≡ some fd)
      × (r.slots ≡ server.slots ++ slot ∷ []))
    ⊎ ((code ≡ ce_alloc) × (r ≡ server))

add_slot-Added :
    (env : Env) (server : ServerInfo) (fd : ℕ) (has_fds has_clients room : Bool)
    → length server.slots < server.max_size
    → Added server fd has_fds has_clients (some (add_slot env server fd room))
unfolding add_slot
add_slot-Added env server fd has_fds has_clients true h = inl (refl, h, refl, _, refl, refl)
add_slot-Added env server fd has_fds has_clients false h = inr (refl, refl)

resize_never :
    (server : ServerInfo) (n : ℕ) (has_fds has_clients : Bool)
    → server.max_size < n
    → server_info_resize server n has_fds has_clients
      ≡ (if has_fds && not has_clients then none else some (server, ce_alloc))
unfolding server_info_resize
resize_never server n true true h = ground arith
resize_never server n true false h = ground arith
resize_never server n false has_clients h = ground arith

-- A thread takes a connection, behind those that it has, only where its arrays have room, and they
-- never grow: where they are full it returns CE_ALLOC and keeps what it has, or, where there is
-- memory for new descriptors and none for new clients, writes through NULL.
pub server_info_add_client-Added :
    (env : Env) (server : ServerInfo) (fd : ℕ) (has_fds has_clients room : Bool)
    → length server.slots ≤ server.max_size
    → Added server fd has_fds has_clients
        (server_info_add_client env server fd has_fds has_clients room)
unfolding server_info_add_client
server_info_add_client-Added env server fd has_fds has_clients room h =
    elim (Bool-cases (ltb server.max_size (length server.slots + 1))) [
      | inr fits ↦
          rw fits
            (add_slot-Added env server fd has_fds has_clients room (omega (arith, ltb→le _ _ fits)))
      | inl full ↦
          let more : server.max_size < length server.slots + 1 + 50 =
            omega (arith, h, ltb→lt _ _ full) in
          rw full (
            rw (resize_never server (length server.slots + 1 + 50) has_fds has_clients more)
              (refused has_fds has_clients (omega (arith, h, ltb→lt _ _ full))))
    ]
  where
    refused :
        (has_fds has_clients : Bool)
        → length server.slots ≡ server.max_size
        → Added server fd has_fds has_clients (
            Option.map {A = ServerInfo × ErrorCode} {B = ServerInfo × ErrorCode}
              (λ r. if succeeded r.1 then add_slot env r.0 fd room else r)
              (if has_fds && not has_clients then none else some (server, ce_alloc)))
    refused true true e = inr (refl, refl)
    refused true false e = (e, refl, refl)
    refused false has_clients e = inr (refl, refl)
