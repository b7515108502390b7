-- ===== src/Client/Worker/Queued.antt =====
-- A worker of client/src/worker.c that gets a mail for a host to which it has a connection.
use mathlib.Core.Option
use pvs_kp.Base.{ℕ, ◌+◌, Option, some, List, [], ◌∷◌, ◌++◌, ◌==◌, if◌then◌else◌}
use pvs_kp.Client.Connection.{SmtpConnection}
use pvs_kp.Client.Memory.{Memory}
use pvs_kp.Client.Message.{SmtpMessage}
use pvs_kp.Client.MString.{MString}
use pvs_kp.Client.Queue.{Queue}
use pvs_kp.Client.Tree.{pick, strcmp, TreeNode, tree_node_search}

-- Reference: the map in which the key has another connection.
abbrev pub changed :
    TreeNode SmtpConnection → List ℕ → SmtpConnection → List ℕ → Option (Option SmtpConnection)
changed t key conn other =
    pick (strcmp other key) (some (some conn)) (tree_node_search t other) (tree_node_search t other)

-- The queue with the mail behind the others, or as it was where it is full.
abbrev pub queued : Queue SmtpMessage → SmtpMessage → Queue SmtpMessage
queued queue message =
    if queue.size == queue.max_size
    then queue
    else record queue { nodes = queue.nodes ++ message ∷ []; size = queue.size + 1 }
