-- ===== src/Lib.antt =====
-- A verification library for the SMTP server and the SMTP client of this repository.
--
-- The server (server/) accepts mail: a thread polls sockets, reads a line into a message buffer, and
-- hands it to the connection, which recognises the command and steps a protocol machine. The machine
-- calls back into the connection to keep the sender, the receivers and the text and to set the
-- answer. At the end of a text the mail is written to a file, which is linked for its receivers.
-- The client (client/) takes the files that the server left for other hosts and relays them: a
-- worker keeps a connection for each host, whose replies are parsed out of the buffer of its peer and
-- make the events of the client's own protocol machine.
--
-- - Base: numbers, lists, bytes, and the functions of <string.h> and <stdio.h> that the code uses.
--   memcpy makes a buffer longer where C would write past its end, so that "the buffer is as long
--   as recorded" is memory safety.
-- - Server.ErrorCode: server/include/custom_errors.h, and the allocator as a parameter.
-- - Server.Msg: server/src/msg.c, function by function. What recv and send return are functions of
--   the round. The rounds are the loops' own bounds, 100 and 500, so no further fuel is chosen.
-- - Server.State, Server.Stars, Server.Callbacks, Server.Table, Server.Fsm:
--   server/src/client-fsm.c, its enumerations, its callbacks, its table and client_step.
-- - Server.SmtpCmd: server/src/smtp_cmd.c over pcre_exec, which is a parameter.
-- - Server.MailWriter: server/src/mail_writer.c. What it does to the file system is a list of calls
--   in their order. A read outside the array of receivers, or behind a text without a zero byte, sets a
--   mark, and nothing is known of what follows. The outer loop of write_mail has as many rounds as there are receivers.
-- - Server.Client, Server.Session: server/src/client.c, the functions that the machine calls and
--   those that the poll loop calls. `run` is any sequence of the latter.
-- - Server.Queue: server/src/queue.c and server/src/node.c, nodes on a heap of addresses. malloc is a
--   parameter that may fail. The loop of queue_destroy runs on fuel: the queue's size is enough.
-- - Server.ServerInfo: server/src/server_info.c. The two arrays are one list of slots, which
--   compressing moves by memmove (Server.ServerInfo.Compressed). Its loop has as many rounds as there
--   are slots, which is enough.
-- - Server.Poll: process_poll of server/src/smtp_server.c, with what poll, recv and send return as
--   parameters of each connection's turn.
-- - Server.Jobs: the listener and the threads of server/src/smtp_server.c around the queue, in steps
--   that any of them may take next. A thread's connections are those of Server.ServerInfo.
-- - Client.Tree: client/src/tree.c, but for clearing. Values are copied by a parameter. Client.Tree.Order
--   is the order of the keys, Client.Tree.Lookup and Client.Tree.Stored are about insertion,
--   Client.Tree.Delete, Client.Tree.Removed and Client.Tree.Refined about deletion, and
--   Client.Tree.Invariant about both.
-- - Client.Master: client/src/master.c, the choice of a worker for an address (Client.Master.Pick) and
--   the scans that hand files out (Client.Master.Files). It keeps two of the trees, and queues messages
--   at peers. The clock is a parameter.
-- - Client.Select: client/src/select_fd_storage.c over the peers of a process. What select returns is a
--   parameter.
-- - Client.Fsm: client/src/client-fsm.c, the enumerations, the table, its callbacks, client_fsm_step.
-- - Client.Memory: malloc, as the outcomes of its calls to come, and functions that return NULL where
--   one of them fails.
-- - Client.MString, Client.Queue: client/src/mstring.c and client/src/queue.c.
-- - Client.Peer: client/src/peer.c. Client.Peer.Parse receives and takes the messages out of the
--   buffer, Client.Peer.Send fills the other buffer and sends. The loop of fill_buffer_in runs on
--   fuel: one round more than there are messages is enough.
-- - Client.Message, Client.Commands, Client.Connection: client/src/SMTP_message.c,
--   client/src/SMTP_command_factory.c and client/src/SMTP_connection.c: Client.Connection makes a
--   connection anew, Client.Connection.Switch and Client.Connection.Generate are generate_event.
--   Client.Connection.Copy makes and copies connections
--   and mails, Client.Connection.Pushed is about the copy of a mail into a queue. Client.Connection.Turn is what worker_main of
--   client/src/worker.c does with the event.
-- - Client.Unsafe: functions that may read through NULL.
-- - Client.Worker: client/src/worker.c, how the files that the master names come to the connections,
--   which a tree holds by their hosts. What the resolver, the sockets and the files give is a parameter.
-- - Client.FileParser: client/src/fileparser.c. The lines that fgets gives are a parameter, as is
--   whether malloc's blocks have a byte more than was asked for, which the code writes a NUL to. The loop
--   over the receivers runs on fuel: the length of the line is enough.
-- - Server.Examples, Server.Queue.Examples, Server.Jobs.Examples, Server.Poll.Examples,
--   Client.Tree.Examples, Client.FileParser.Examples, Client.Master.Examples,
--   Client.Select.Examples, Client.Worker.Examples, Client.Examples: the theorems applied to
--   concrete values.
--
-- Sizes are natural numbers, taken modulo 2^64 where the code adds size_t, but for the client's
-- strings and queues, which are in memory together and so smaller. The counter of mails is an int and
-- is kept without its overflow. The text of an expression's groups and the contents of uninitialised
-- buffers are parameters.
--
-- Not modelled: the start and the loops of the client's processes, the resolver behind its look-up of
-- addresses, PCRE, the start of the programs and of the server's threads, their configuration, signals
-- and logs. These are calls of the system and of libraries.
pub mod Base
pub mod Server
pub mod Client
