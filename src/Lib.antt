-- ===== src/Lib.antt =====
-- ssyncd replicates two kinds of data of a Zevenet load balancer from a master node to its backups:
-- the tables of the kernel's recent match, and the HTTP sessions of the farms. This library models the
-- daemon and states what its parts promise. Paths are from the root of the repository.
--
-- The parts, and where they are modelled:
--   * Common: lists, Boolean tests, bytes, decimal numbers, std::map as an association list in the
--     order of its keys (Common.Map, Common.SortedMap), and the order that its keys need as an
--     interface (Common.Ordered). Numbers are the native natural numbers; where the code wraps around,
--     the remainder is written out (Common.Tests.unsigned_sub is `-` on unsigned int).
--   * Connection (src/connection): conn_packet (Packet); base_pkt_parser (PacketParser), which reads a
--     buffer through `*buffer_used` (Cursor); the reading of a ready socket and its loop over packets in
--     connection::receive_task (Receive); its epoll loop, with nodes that come and go (Events);
--     handle_send and send_packet (Send). Receive and Events take the parser as a parameter, as
--     set_parser does; what a client may rely on is the record Receive.Codec.
--   * Helpers (src/helpers): IP addresses as text and as bytes (Utils), and the queue that threads share,
--     as steps of any threads in any order (SafeQueue).
--   * XtRecent (src/xt_recent): entries, tables and actions (Entry, Action), their parser (Parser), the
--     reading of /proc/net/xt_recent (Proc), the differences between two readings (Updates), and the
--     thread that reads the directory again and again (Updates.Task).
--   * Http (src/http): sessions and actions (Session), their parser (Parser), and http_sync: the sockets of
--     the farms (Farms) and its epoll loop (Farms.Listening).
--   * Sync (src/sync): pkt_parser (PktParser), which fills the interface Receive.Codec; the data of
--     base_sync and the actions on it (RecentData, HttpData); its writes to /proc (Writes) and to the farms
--     (Writes.Sessions); sync_master (Master), sync_backup (Backup) and both at any pace (Cluster);
--     sync_controller (Controller, with its texts in Listing and the loop over the connections of the
--     control program in Controller.Task; the thread that runs that loop is the field command_thread).
--   * Ctl (src/ctl_interface): the commands and their parser (Command), the arguments of the control
--     program (Arguments), and its side of the socket (Client).
--   * Daemon (src/main.cpp): the options, and what they start.
--   * Tests: concrete inputs.
--
-- How the parts meet: an action that Updates queues is applied by a round of Master and given to
-- send_packet; PktParser turns it into bytes; Connection carries them; the loop of Receive cuts them into
-- packets; Backup applies them. Sync.Backup.Resync follows that way for a backup that connects, and
-- Sync.Cluster interleaves the rounds of the master with what the backup receives, each packet as it is
-- read from its bytes; there send_packet works and the connection lasts. A request on the
-- command line becomes a packet by Arguments, bytes by Command, and is obeyed by Controller.Task:
-- Sync.Controller.Task.Requests follows that way.
--
-- State is a record and an operation a function on it. A result of `Option`, or a type of its own, stands
-- for exceptions, for reads and moves outside of a buffer, for std::terminate() and for undefined
-- behaviour. What the environment decides is a parameter: the answers of system calls (Send.SendAnswer,
-- Events.Event, Farms.FarmSocket, Farms.Listening.Event, Task.Peer, Client.Reply, the functions `opens`
-- and `writes` of Writes), the files of a directory (Proc.Directory), RE2 (Proc), and what memory holds that the program leaves unset
-- (Indeterminate, Unset).
--
-- Fuel: Receive.drain counts rounds of its `while (true)`, since the loop of the code need not end.
-- Every packet takes a round and the last round finds none, so one more than the number of packets is
-- enough where packets fit the free space of the buffer; the theorems on the receive loop state it.
-- Http.Farms.drain_http counts likewise, and Farms.Listening passes its fuel on. All other loops are
-- recursions on lists.
--
-- Not modelled: the kernel module (src/kmodule), a patched copy of the kernel's own; the tests; the
-- logging macros; code that is calls of the system only, such as the set-up of sockets, daemonize and the
-- signal handler. Except for the queue, and for the loops of the two nodes in Sync.Cluster, an
-- operation runs as if alone: threads that share other data are not interleaved. The command WRITE_HTTP of
-- Controller leaves out the sends of base_sync::write_http_data, which Writes.Sessions models apart.
pub mod Common
pub mod Connection
pub mod Helpers
pub mod XtRecent
pub mod Http
pub mod Sync
pub mod Ctl
pub mod Daemon
pub mod Tests
