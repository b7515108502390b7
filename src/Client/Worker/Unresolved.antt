-- ===== src/Client/Worker/Unresolved.antt =====
-- A worker of client/src/worker.c that gets a mail for a host which the resolver does not know.
use pvs_kp.Base.{
  ℕ, ◌+◌, ◌≤◌, ◌≡◌, refl, false, Option, none, some, List, [], ◌∷◌, ◌++◌, length, drop, codes,
  c_string, ◌==◌,
}
use pvs_kp.Client.Connection.{SmtpConnection, System, at_ipv4, connect_server}
use pvs_kp.Client.Connection.Copy.{
  Resolver, ns_t_mx, get_dns_record, same_text, get_ip, smtp_connection_init, smtp_connection_copy,
}
use pvs_kp.Client.FileParser.Addr.{NoDot, get_addr_lem}
use pvs_kp.Client.Fsm.State.{init}
use pvs_kp.Client.Memory.{Memory, rest, fill, Plenty, Plenty-rest, Plenty-malloc}
use pvs_kp.Client.Message.{SmtpMessage}
use pvs_kp.Client.MString.{MString}
use pvs_kp.Client.MString.Contents.{str_of}
use pvs_kp.Client.Peer.{Peer, FdType, fdt_socket, peer_init}
use pvs_kp.Client.Queue.{queue_init}
use pvs_kp.Client.Queue.Contents.{queue_of}
use pvs_kp.Client.Tree.{tree_search}
use pvs_kp.Client.Unsafe.{Unsafe, go_on}
use pvs_kp.Client.Worker.{Hosts, Setup, insert_conn, get_conn_for_sending}

go_on-none {ℓ ℓ'} :
    {A : Type ℓ} {B : Type ℓ'} (f : A → Unsafe B) (o : Option (A × Memory))
    → ((a : A) (mem : Memory) → f a mem ≡ none)
    → go_on o f ≡ none
go_on-none f none h = refl
go_on-none f (some (a, mem)) h = h a mem

module _ {ℓ} {A : Type ℓ} where
  queue_init-Plenty :
      (mem : Memory) → Plenty mem → queue_init {A = A} mem ≡ (some (queue_of []), rest mem)
  unfolding queue_init
  queue_init-Plenty mem plenty = let (bytes, size, e) = Plenty-malloc 56 mem plenty in rw e refl

peer_init-Plenty :
    (fd : Option ℕ) (type_ : FdType) (mem : Memory)
    → Plenty mem
    → (peer : Peer) × (peer_init fd type_ mem ≡ (some peer, rest (rest (rest mem))))
unfolding peer_init
peer_init-Plenty fd type_ mem plenty =
    let (bytes, size, e) = Plenty-malloc 2112 mem plenty in
    let plenty1 = Plenty-rest mem plenty in
    let plenty2 = Plenty-rest (rest mem) plenty1 in
    (
      record {
        fd = fd;
        type_ = type_;
        messages_in = queue_of [];
        message_in_begin = 0;
        buffer_in = fill 1024 bytes;
        buffer_in_size = 0;
        messages_out = queue_of [];
        buffer_out = fill 1024 (drop 1024 bytes);
        buffer_out_size = 0;
      },
      rw e (
          rw (queue_init-Plenty {A = MString} (rest mem) plenty1)
            (rw (queue_init-Plenty {A = MString} (rest (rest mem)) plenty2) refl)),
    )

-- A connection whose host has no address is not copied: the code reads through NULL.
smtp_connection_copy-no_ip :
    (unset : SmtpMessage) (conn : SmtpConnection) (mem : Memory)
    → conn.ip ≡ none
    → Plenty mem
    → smtp_connection_copy unset conn mem ≡ none
unfolding smtp_connection_copy
smtp_connection_copy-no_ip unset conn mem no_ip plenty =
    let plenty1 = Plenty-rest mem plenty in
    let plenty2 = Plenty-rest (rest mem) plenty1 in
    let (bytes, size, e) = Plenty-malloc 120 mem plenty in
    let (bytes1, size1, e1) = Plenty-malloc (length conn.addr + 1) (rest mem) plenty1 in
    rw no_ip (
      rw e (
        rw e1 (
          rw (queue_init-Plenty {A = SmtpMessage} (rest (rest mem)) plenty2)
            (go_on-none _ _ (λ pushed mem'. refl)))))

module _ (resolver : Resolver) (system : System) (max_connect_count min_interval : ℕ)
    (unset : SmtpConnection) (addr : List ℕ) (mem : Memory) where
  smtp_connection_init-Unresolved :
      resolver addr ns_t_mx ≡ none
      → same_text addr (codes "localhost") ≡ false
      → Plenty mem
      → (conn : SmtpConnection) × (mem' : Memory) × (smtp_connection_init resolver system
            max_connect_count min_interval unset addr 2 mem
          ≡ some (some conn, mem'))
        × (conn.ip ≡ none)
        × Plenty mem'
  unfolding smtp_connection_init get_ip get_dns_record connect_server
  smtp_connection_init-Unresolved unknown other plenty =
      let mem1 = rest mem in
      let mem2 = rest mem1 in
      let mem3 = rest mem2 in
      let plenty1 : Plenty mem1 = Plenty-rest mem plenty in
      let plenty2 : Plenty mem2 = Plenty-rest mem1 plenty1 in
      let plenty3 : Plenty mem3 = Plenty-rest mem2 plenty2 in
      let plenty5 : Plenty (rest (rest mem3)) =
        Plenty-rest (rest mem3) (Plenty-rest mem3 plenty3) in
      let (bytes, size, e) = Plenty-malloc 120 mem plenty in
      let (bytes1, size1, e1) = Plenty-malloc (length addr + 1) mem1 plenty1 in
      let (peer, made) = peer_init-Plenty none fdt_socket mem3 plenty3 in
      (
        record unset {
          state = init;
          addr = addr;
          current_msg_line = 0;
          current_rcpt = 0;
          current_connection_num = 1;
          max_connect_count = max_connect_count;
          min_interval_between_connect = min_interval;
          messages = queue_of [];
          ip = none;
          ip_type = at_ipv4;
          last_connection_time = system.now;
          peer = peer;
        },
        rest (rest (rest mem3)),
        rw e (
            rw e1 (
              rw (queue_init-Plenty {A = SmtpMessage} mem2 plenty2)
                (rw other (rw unknown (rw made refl))))),
        refl,
        Plenty-rest (rest (rest mem3)) plenty5,
      )

-- Where the name of a file gives a host, other than localhost, for which no connection is in the tree
-- and which the resolver does not know, get_conn_for_sending is undefined, though malloc always finds
-- memory and the tree has room: it puts a copy of the connection into the tree, and the copy reads
-- through the address that is NULL.
pub get_conn_for_sending-Unresolved :
    (setup : Setup) (hosts : Hosts) (host meta : List ℕ) (mem : Memory)
    → NoDot meta
    → 2 ≤ length host
    → Plenty mem
    → tree_search hosts (c_string host) ≡ none
    → (hosts.size == hosts.max_size) ≡ false
    → setup.resolver (c_string host) ns_t_mx ≡ none
    → same_text (c_string host) (codes "localhost") ≡ false
    → get_conn_for_sending setup hosts (str_of (host ++ 46 ∷ 50 ∷ 46 ∷ meta)) mem ≡ none
unfolding get_conn_for_sending insert_conn
get_conn_for_sending-Unresolved setup hosts host meta mem no_dot long plenty absent space unknown
      other =
    let (conn, mem', made, no_ip, plenty') =
      smtp_connection_init-Unresolved setup.resolver setup.system setup.max_connect_count
        setup.min_interval_between_connect setup.unset_conn (c_string host) (rest mem) unknown other
        (Plenty-rest mem plenty) in
    let (bytes, size, e) = Plenty-malloc 280 mem' plenty' in
    rw (get_addr_lem host meta 50 mem no_dot long plenty) (
      rw absent (
        rw made (
          rw space (
            rw e (
              rw
                (smtp_connection_copy-no_ip setup.source.unset conn (rest mem') no_ip
                  (Plenty-rest mem' plenty'))
                refl)))))
