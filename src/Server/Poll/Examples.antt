-- ===== src/Server/Poll/Examples.antt =====
-- A thread with two connections, on which the theorems about its rounds are applied.
use pvs_kp.Base.{ℕ, ◌≡◌, refl, Bool, true, false, Option, none, some, List, [], ◌∷◌, arith, codes}
use pvs_kp.Server.Msg.{Received, chunk, would_block, took}
use pvs_kp.Server.State.{client_inited}
use pvs_kp.Server.Client.{Client}
use pvs_kp.Server.ServerInfo.{Slot, ServerInfo, server_info_add_client, server_info_compress}
use pvs_kp.Server.ServerInfo.Slots.{Added, server_info_add_client-Added}
use pvs_kp.Server.ServerInfo.Compressed.{
  open_slots, starts_closed, closed_neighbours, server_info_compress-slots,
}
use pvs_kp.Server.Poll.{Ready}
use pvs_kp.Server.Examples.{client_in, env, writer}

abbrev client : Client
client = client_in client_inited []

abbrev slot : Option ℕ → Slot
slot fd = record { fd = fd; wants_out = false; client = some client }

abbrev server : List Slot → ServerInfo
server slots = record { slots = slots; max_size = 3; mail_writer = writer }

-- A socket that gives "hi" and then nothing.
abbrev hi : ℕ → Received
hi ℕ.zero = chunk (codes "hi")
hi (ℕ.suc k) = would_block

abbrev ready : Bool → Ready
ready woken = record {
  woken = woken;
  readable = true;
  writable = false;
  recv = hi;
  send = λ k. took 1;
  env = env;
}

server_info_compress-slots_example :
    server_info_compress (server (slot none ∷ slot (some 4) ∷ []))
    ≡ some (server (slot (some 4) ∷ []))
unfolding open_slots starts_closed closed_neighbours
server_info_compress-slots_example =
    server_info_compress-slots (server (slot none ∷ slot (some 4) ∷ [])) (refl, (refl, tt))
      (omega arith)

server_info_add_client-Added_example :
    Added
      (server (slot (some 4) ∷ []))
      5
      true
      true
      (server_info_add_client env (server (slot (some 4) ∷ [])) 5 true true true)
server_info_add_client-Added_example =
    server_info_add_client-Added env (server (slot (some 4) ∷ [])) 5 true true true (omega arith)
