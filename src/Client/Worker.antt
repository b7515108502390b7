-- ===== src/Client/Worker.antt =====
-- client/src/worker.c: a worker takes the files that the master names to its connections. A pointer to
-- a connection is its key in the tree, and `none` is NULL. What the resolver, the sockets and the files
-- give is a parameter. The loop of worker_main and the logs are left out.
pub mod Unresolved
pub mod Queued
pub mod Examples
use mathlib.Core.Option
use pvs_kp.Base.{
  ℕ, Bool, true, false, Option, none, some, List, [], ◌∷◌, ◌++◌, length, take, c_string, ◌==◌,
  if◌then◌else◌,
}
use pvs_kp.Client.Connection.{SmtpConnection, System}
use pvs_kp.Client.Connection.Copy.{
  Resolver, smtp_connection_init, smtp_connection_copy, push_message_back,
}
use pvs_kp.Client.FileParser.{get_addr}
use pvs_kp.Client.FileParser.File.{Source, parse_message}
use pvs_kp.Client.Memory.{malloc}
use pvs_kp.Client.Message.{SmtpMessage}
use pvs_kp.Client.MString.{MString, string_init2, concat_with_sep}
use pvs_kp.Client.Tree.{
  Tree, TreeNode, null, node, TreeCode, strcmp, pick, tree_insert, tree_search,
}
use pvs_kp.Client.Unsafe.{Unsafe, ◌>>=◌, return, undefined, maybe, used}

abbrev pub Hosts : Type 0
Hosts = Tree SmtpConnection

-- What a worker is set up with: the parameters, the two numbers of its configuration that a connection
-- gets, and the fields that are not set.
pub record Setup : Type 0 where
  pub resolver : Resolver
  pub system : System
  pub max_connect_count : ℕ
  pub min_interval_between_connect : ℕ
  pub unset_conn : SmtpConnection
  pub source : Source

-- The tree, whatever the code.
abbrev inserted : Option (Hosts × TreeCode) → Unsafe Hosts
inserted none = undefined
inserted (some r) = return r.0

-- The tree with another connection at the key.
unfoldable pub put_conn :
    TreeNode SmtpConnection → List ℕ → SmtpConnection → TreeNode SmtpConnection
unfolding strcmp
put_conn null key conn = null
put_conn (node left k v right) key conn =
    let in_left = put_conn left key conn in
    let in_right = put_conn right key conn in
    pick (strcmp key k) (node left k (some conn) right) (node in_left k v right)
      (node left k v in_right)

module _ (setup : Setup) where
  abbrev conn_in_node : Hosts → List ℕ → SmtpConnection → Option (List ℕ) → Unsafe Hosts
  conn_in_node hosts addr conn none =
      inserted (tree_insert (λ value. value) false hosts addr (some conn))
  conn_in_node hosts addr conn (some new) = do
    copied ← smtp_connection_copy setup.source.unset conn
    inserted (tree_insert (λ value. copied) true hosts addr (some conn))

  -- tree_insert of an address that is not there, with its calls of malloc.
  unfoldable pub insert_conn : Hosts → List ℕ → SmtpConnection → Unsafe Hosts
  unfolding tree_insert smtp_connection_copy
  insert_conn hosts addr conn =
      let added : Unsafe Hosts = (do new ← maybe (malloc 280); conn_in_node hosts addr conn new) in
      if hosts.size == hosts.max_size
      then inserted (tree_insert (λ value. value) true hosts addr (some conn))
      else added

  -- The value of a node, NULL or the connection.
  abbrev conn_of : Hosts → List ℕ → Option SmtpConnection → Hosts × Option (List ℕ)
  conn_of hosts addr none = (hosts, none)
  conn_of hosts addr (some conn) = (hosts, some addr)

  abbrev new_conn : Hosts → List ℕ → Option SmtpConnection → Unsafe (Hosts × Option (List ℕ))
  new_conn hosts addr none = return (hosts, none)
  new_conn hosts addr (some conn) = do
    hosts1 ← insert_conn hosts addr conn
    value ← used (tree_search hosts1 addr)
    return (conn_of hosts1 addr value)

  abbrev pub conn_at :
      Hosts → List ℕ → ℕ → Option (Option SmtpConnection) → Unsafe (Hosts × Option (List ℕ))
  conn_at hosts addr addr_type (some value) = return (conn_of hosts addr value)
  conn_at hosts addr addr_type none = do
    conn ←
        smtp_connection_init setup.resolver setup.system setup.max_connect_count
          setup.min_interval_between_connect setup.unset_conn addr addr_type
    new_conn hosts addr conn

  -- The address is printed before it is compared with NULL.
  unfoldable pub get_conn_for_sending : Hosts → MString → Unsafe (Hosts × Option (List ℕ))
  unfolding get_addr tree_search insert_conn smtp_connection_init
  get_conn_for_sending hosts filename_value = do
    found ← maybe (get_addr filename_value)
    printed ← used found
    let addr = c_string printed.0
    conn_at hosts addr printed.1 (tree_search hosts addr)

  -- The path of the file that is removed.
  unfoldable pub remove_file : MString → Unsafe (List ℕ)
  unfolding string_init2 concat_with_sep
  remove_file filename = do
    dir ← maybe (string_init2 setup.source.queue_dir (length setup.source.queue_dir))
    queue_dir_str ← used dir
    full ← maybe (concat_with_sep queue_dir_str filename 47)
    full_filename ← used full
    return (take full_filename.size full_filename.data_)

  abbrev pushed_at : Hosts → List ℕ → SmtpMessage → Option (Option SmtpConnection) → Unsafe Hosts
  pushed_at hosts addr message (some (some conn)) = do
    r ← push_message_back setup.source.unset conn.messages message
    return (record hosts { root = put_conn hosts.root addr (record conn { messages = r.0 }) })
  pushed_at hosts addr message _ = undefined

  abbrev with_message : Hosts → List ℕ → Option SmtpMessage → Unsafe Hosts
  with_message hosts addr none = return hosts
  with_message hosts addr (some message) = pushed_at hosts addr message (tree_search hosts addr)

  abbrev pub for_peer : MString → Hosts × Option (List ℕ) → Unsafe Hosts
  for_peer filename (hosts, none) = return hosts
  for_peer filename (hosts, some addr) = do
    message ← parse_message setup.source filename
    with_message hosts addr message

  -- The loop over the filenames: the tree, and the files that were removed.
  unfoldable pub process_parent_messages : Hosts → List MString → Unsafe (Hosts × List (List ℕ))
  unfolding get_conn_for_sending remove_file put_conn push_message_back parse_message
  process_parent_messages hosts [] = return (hosts, [])
  process_parent_messages hosts (filename ∷ filenames) = do
    peer ← get_conn_for_sending hosts filename
    hosts1 ← for_peer filename peer
    removed ← remove_file filename
    r ← process_parent_messages hosts1 filenames
    return (r.0, removed ∷ r.1)
