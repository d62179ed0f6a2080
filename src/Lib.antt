-- ===== src/Lib.antt =====
-- Network-Programming-C: a collection of network and systems programs in C.
--
-- The programs share no code, and each part of this library models one of them.
--
-- StopAndWait is N-Channel-StopNWait. A client sends a file over several channels, one packet on each,
-- waits for every acknowledgement, and sends a packet again after a timeout; a server drops packets
-- at random and writes the others to its file at their sequence numbers.
--   StopAndWait/Bytes, Packets, Chunks: utils.h. `htonll`, `ntohll`, the structs `Header` and
--     `Packet`, `get_next_chunk`.
--   StopAndWait/Server: `serve_connection` of server.c with the output file as a list of bytes.
--   StopAndWait/Loop: the loop of `main` in server.c over the channels; the rounds of `select` are a list.
--   StopAndWait/Client: `connection_loop` of client.c, cut where it waits for the network: the
--     sending of a round (`send_phase`), its acknowledgements (`await_from`), the last packet
--     (`finish`). The calls of `poll`, `read` and `write` are arguments of these functions.
--   StopAndWait/LinkedList: linked_list.c, which the two programs are linked with.
--   StopAndWait/Transfer: the two programs together. A packet is dropped any finite number of times
--     and then served, and a poll times out only where the packet was dropped. The bound on the
--     rounds is one more than the bytes of the file: a round that is not the last takes bytes off it.
-- SelectiveRepeat is FileTransfer-Selective-Repeat/server.c, relays.c and client.c. A relay drops
--   packets at random, sends the others to the server and its answers back; the server writes its
--   file as that of StopAndWait does. Their utils.h is not in the repository, so the packets and
--   what is done with their fields are a parameter (`Wire`). SelectiveRepeat/Content puts a relay and
--   the server together, and SelectiveRepeat/Delivered the client with them.
--   SelectiveRepeat/Client: `connection_loop` of the client, cut as that of StopAndWait; `get_next_chunk`
--     and the making of a packet are parameters as well (`Utils`), and `IsUtils` and `Reads` say what
--     the client relies on.
-- Sniffer is Sniffer/read_messages.c: what is printed for a packet (`print_tcp_packet` and the like,
--   `print_data`), and the counters of `process_packet` with the two loops that receive packets.
-- MyShell is MyShell/shell.c.
--   MyShell/Jobs: the job list, `insert`, `removeJob`, `findPID`, `findFG_STATUS`, `changeStatus`,
--     `getPIDfromname`, and the loop of `main` that takes finished jobs off the list. The fuel of that loop
--     is `n * n + n + 1` for `n` jobs: a job that is taken off sends the loop back behind the head.
--   MyShell/Commands: `shellfgCommand`, `shellbgCommand`, `shellkillCommand`, `exec_fg`, `exec_bg`,
--     `job_wait`, `insert_background_job`. Signals and printed messages are values (`Effect`), and
--     what the kernel answers is an argument (`Kernel`).
--   MyShell/Args: `getArgumentLength` and `initArgs`. The strings of the arguments are asked for with
--     one byte each; how many bytes of a block `malloc` makes usable is an argument (`usable`) here
--     and wherever a block is smaller than what is written to it, and a write behind them is `none`.
--   MyShell/Pipes: `count_pipes`, `pipe_filter`, `output_redirection`.
--   MyShell/Lines: `lineget`, the newlines of a line, `setPATH`, `replaceSubstring`. The line that
--     `lineget` reads is not bounded; its buffer is, and grows with `realloc`, which succeeds.
--   MyShell/Builtin: `builtin`, and the choice of the program in `execute_child`.
--   MyShell/Redirect: `redirection_with_pipes_and_ipc` and the choices of `execRedirect`.
--   MyShell/Execute: `executePipe` for commands with `|` between them. The shell and its children have
--     tables of descriptors (MyShell/Descriptors), and what a program writes for its input is an
--     argument (`Machine`), with what a pipe holds. A child that waits for ever is `none`.
--   MyShell/Shared: `shellMsgQ` and `shellShm`, with `popen_read` and `popen_write`. The fuel of the loop
--     over the output is its length: each piece takes off a byte at least.
--   MyShell/Daemon: the descriptors of `daemonizeProcess`.
--   MyShell/Prompt: the loop of `main`. `run_line` is one round of it: the line goes through Jobs (the
--     finished jobs), Args, Builtin, Pipes and Redirect, and what it leads to is a value (`Action`). The
--     globals that stay from a line to the next are a record (`Shell`), and what the system says
--     during a round is an argument (`World`). A fault of the program is `none` everywhere. Prompt/Piped
--     puts the loop and Execute together.
-- Engine is the trie of MyShell/engine.c: `insertTrie`, `searchTrie`, `recursiveInsert`, `completeWord`.
--   Engine/Editor: the editing loop of its `main` over the keys, on one row of the screen.
-- LoadBalancer is the queue of Load Balancer/load_balancer.h, over an explicit memory, and the loops
-- of the parent in Load Balancer/load_balancer.c.
-- ClusterShell is ClusterShell/clustershell_server.c and clustershell_client.c. The root is the list of
--   clients of the server (`addClient`, `removeClient`).
--   ClusterShell/Config: the reading of ipmap.cfg, from the lines that `getline` returns.
--   ClusterShell/Relay: the globals of the server, the accepting of a client, and `recvmg`, which a
--     thread of each client runs. ClusterShell/Relay/Runs puts the threads together: the steps of the
--     clients come in any order, and each message is handled as one step.
--   ClusterShell/Node: the client of a node: `initArgs`, `pipe_filter`, `REPL`, the loop of `main` over the
--     lines of the console (`console`) and `recvmg` (`hears`). What it shares with the shell is taken
--     from MyShell. Node/Remote puts a client, the server and a node together.
-- BigFileSystem is BigFileSystem/filenameserver.c, client.c, and dataserver.c, which has copies of the
--   functions of the name server: `path_split` and `hash`.
--   BigFileSystem/Tree: `find_node`, over nodes with a first son and a next sibling, and `insert_node`
--     as far as it comes. The global `root_node` is NULL, since `init_filetree` is never called.
--   BigFileSystem/Connections: the table `client_fds` of the two servers, with the loop of each over the
--     clients that disconnect.
--   BigFileSystem/Commands: `split_string`, the line of a user at a client, and the first message of a
--     new client at each server, which is the only one that they take for a command. Commands/Copies
--     puts a client and the two servers together.
--   BigFileSystem/Blocks: `init_inode_readonly` of the servers.
-- Chatter is UDPChatter/multicast_chat_client.c: a line of the user (`chat`) and a message that a thread
--   reads (`hears`), with the table of subjects that both use.
-- Voting is Voting System/vote.c: the votes of the children, the decision, the loop over the lines.
-- Http is HTTP Requests/client.c, with the making of the request of post.c. The loop that writes has as
--   much fuel as the request has bytes, and one more: each call of `write` takes a byte at least.
-- Prelude holds the names and lemmas that these share.
--
-- Not modelled: sockets, terminals and printing; the branch of `executePipe` for `#`, which runs
-- no command; the handlers of signals of the shell; ClusterShell/common.c, an older copy of the
-- shell that nothing uses, and its chat; the linked list of the selective-repeat transfer, which
-- no program calls; `send_files` of BigFileSystem, whose two threads share the position in the
-- file; what `free` keeps in a block that is written after it; the groups that the threads of
-- UDPChatter join; the small programs, which have no state of their own.
pub mod Prelude
pub mod StopAndWait
pub mod SelectiveRepeat
pub mod Sniffer
pub mod Chatter
pub mod MyShell
pub mod Engine
pub mod LoadBalancer
pub mod ClusterShell
pub mod BigFileSystem
pub mod Voting
pub mod Http
