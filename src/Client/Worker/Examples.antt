-- ===== src/Client/Worker/Examples.antt =====
-- A worker with a connection, on which the theorems about it are applied.
use pvs_kp.Base.{
  ℕ, List, ◌≡◌, refl, none, some, [], ◌∷◌, ◌++◌, codes, crlf, arith, c_string, false, true,
}
use pvs_kp.Client.Connection.{SmtpConnection, at_ipv4}
use pvs_kp.Client.Fsm.State.{mail_sended, mail}
use pvs_kp.Client.Memory.{Memory, Plenty}
use pvs_kp.Client.Message.{SmtpMessage}
use pvs_kp.Client.MString.Contents.{str_of}
use pvs_kp.Client.Peer.{Peer, fdt_socket}
use pvs_kp.Client.Queue.Contents.{queue_of}
use pvs_kp.Client.Tree.{strcmp, null, node, tree_search}
use pvs_kp.Client.Worker.{Hosts, Setup, get_conn_for_sending}
use pvs_kp.Client.Worker.Unresolved.{get_conn_for_sending-Unresolved}

abbrev memory : Memory
memory n = some []

plenty : Plenty memory
plenty n e = cc e

abbrev peer : Peer
peer = record {
  fd = some 5;
  type_ = fdt_socket;
  messages_in = queue_of [];
  message_in_begin = 0;
  buffer_in = [];
  buffer_in_size = 0;
  messages_out = queue_of [];
  buffer_out = [];
  buffer_out_size = 0;
}

abbrev conn : SmtpConnection
conn = record {
  addr = codes "c.ru";
  ip = some (str_of (codes "127.0.0.1"));
  ip_type = at_ipv4;
  messages = queue_of [];
  state = mail_sended;
  last_event = mail;
  peer = peer;
  current_rcpt = 0;
  current_msg_line = 0;
  current_connection_num = 1;
  last_connection_time = 0;
  max_connect_count = 3;
  min_interval_between_connect = 10;
}

abbrev unset : SmtpMessage
unset = record {
  from_addr = [];
  recipients_addr = [];
  recipients_count = 0;
  msg = [];
  msg_lines = 0;
  attempt_start_time = 0;
  last_attempt_time = 0;
  max_attempts_time = 0;
  min_interval_between_attempts = 0;
}

abbrev setup : Setup
setup = record {
  resolver = λ host type_. none;
  system = record { now = 5; socket = none; connect = λ ip port. false; behind = [] };
  max_connect_count = 3;
  min_interval_between_connect = 10;
  unset_conn = conn;
  source = record {
    fopen = λ path. some (
        (codes "X-mysmtp-to: <a@c.ru>" ++ crlf)
        ∷ (codes "X-mysmtp-from: <e@f.ru>" ++ crlf)
        ∷ (codes "hi" ++ crlf)
        ∷ []);
    queue_dir = codes "q";
    max_attempts_time = 60;
    min_interval_between_attempts = 5;
    unset = unset;
    behind = [];
    spare = λ n. true;
  };
}

abbrev hosts : Hosts
hosts = record { root = node null (codes "c.ru") (some conn) null; size = 1; max_size = 10000 }

get_conn_for_sending-Unresolved_example :
    get_conn_for_sending setup hosts (str_of (codes "x.ru" ++ 46 ∷ 50 ∷ 46 ∷ codes "T1")) memory
    ≡ none
unfolding tree_search strcmp c_string
get_conn_for_sending-Unresolved_example =
    get_conn_for_sending-Unresolved setup hosts (codes "x.ru") (codes "T1") memory
      ((λ e. omega (arith, e)), ((λ e. omega (arith, e)), tt)) (omega arith) plenty refl refl refl
      refl

abbrev name : List ℕ
name = codes "c.ru.2.T1"
