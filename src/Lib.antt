-- ===== src/Lib.antt =====
-- ichatd, a chat server in C: what of it is modelled here, and what is shown.
--
-- The program. A single process waits in `select` (src/poller.c) for its clients: chat clients,
-- links to other servers, control clients, and the three listening sockets. What a client sends is
-- cut into messages (`*_read_op`); a chat message is dispatched to the chat clients and to the other
-- servers (src/ichat/proto/ichat_dispatch.c), which means that it is put into the queues of its
-- receivers (`*_add_message`), from where it is written when a socket is ready (`*_write_op`). Beside
-- that there are timed tasks and a configuration file. A round of the main loop (src/server.c) removes
-- a corrupt client, asks `select`, serves the clients that are ready, and runs the tasks whose time
-- has come.
--
-- Which file models which part:
--   Buffer: src/buffer.c. A buffer has a reference count, a length, a recorded capacity and a block
--     of bytes; what `realloc` puts into the new part of a block is an argument. Buffer/Laws holds
--     the well-formedness and the behaviour of each operation.
--   Queue: src/buffer_queue.c, as the list of its buffers and the offset into the first. Queue/Stream
--     gives its meaning, the bytes that wait; Queue/Write is about `buffer_queue_write`.
--   Memory: the buffers of src/buffer.c at their addresses, shared by counting references.
--     Memory/Queue, Memory/Messages, Memory/Impl, Memory/Deliver, Memory/Forwarding and
--     Memory/Control are the same functions of src/buffer_queue.c and of the three kinds of clients
--     as below, over these buffers: what they allocate, share and give up. Memory/Counts,
--     Memory/Refine, Memory/Advance, Memory/Write, Memory/Fill, Memory/Send, Memory/Sharing,
--     Memory/Sent, Memory/Delivered, Memory/Dispatched, Memory/Reading, Memory/Forwarded and
--     Memory/Writing are about the counts and the contents behind them; Memory/Broadcast,
--     Memory/Told and Memory/Everyone relate the loop over shared buffers to `ichat_broadcast` of
--     Dispatch; Memory/Life is about all clients over time.
--   Decimal: `number_len` of src/misc.c, with "%zu" and `strtol` as the code uses them; Libc:
--     `snprintf` and `sprintf` into a block.
--   Proto: src/ichat/proto, with Icc2s (icc2s.c), Ics2s and Login (ics2s.c), Signature (icmisc.c).
--   Frame: the framing of messages in the two `read_op` functions, one round of the loop.
--   Config: src/config.c and src/config.h, with Option (`parse_option`, `parse_s2s`) and File
--     (`parse_config`).
--   Task: src/task.c and the task queue of src/server.c.
--   Client: src/client.c with the private data of each kind of client; Client/Chat and Client/S2s:
--     their `add_message` functions and the creation of a link.
--   Server: `struct server` and its list of clients (src/server.c).
--   Dispatch: src/ichat/proto/ichat_dispatch.c; Dispatch/Delivery and Dispatch/Routing say who gets a
--     message, and as what.
--   Input: the loop of `ichat_client_read_op` and `ichat_s2s_client_read_op`; Input/Chat and
--     Input/S2s: the functions that process a message (src/ichat/client/ichat_client_ops.c,
--     src/ichat/s2s_client/ichat_s2s_client_ops.c), with Auth, Forward, Handshake and Short for the
--     links between servers.
--   Output: the `write_op` functions. Errors: the `error_op` functions.
--   Ctl: src/ctl/client/ctl_client_ops.c.
--   Log: src/log.c, with Log/Writer for the file and the lines of `print2log`.
--   Sockets: `IC_bind_server_socket` and `IC_nonblock_connect` of src/misc.c.
--   Misc: `IC_strdup` and `GetTimerMS` of src/misc.c, with the width of `long` as an argument.
--   World: what the server asks of the system while it runs, by the number of the question.
--   Link: how clients are made and destroyed: src/ichat/s2s_client/ichat_s2s_link.c, the creation of
--     each kind of client, and `client_destroy` with the destructor of a link.
--   Accept: the three listening sockets (src/ctl/server, src/ichat/server, src/ichat/s2s_server) and
--     `server_bind_ports`.
--   Schedule: `task_run` of src/task.c, the heartbeat, the links at the start and `server_schedule`.
--   Poller: a round of src/poller.c; Poller/Evict and Poller/Sets are about its first two loops,
--     Poller/Operations, Poller/Serve and Poller/Round
--     about the third and the whole round.
--   Daemon: the start and the end of the log, and `server_detach` (src/server.c); Daemon/Quiet follows
--     the log through them.
--   Command: `server_configure`. Run: the allocation, the start, the main loop and the shutdown of
--     src/server.c, and src/main.c; Run/Shutdown and Run/Main are about them.
--   Steps: the server as a state machine, by the kinds of steps that an operation can make: clients
--     that change their data, join or leave, tasks that are planned or run. Steps/Clients,
--     Steps/Messages, Steps/Reading, Steps/Rounds, Steps/Accepting, Steps/Polling and Steps/Running
--     relate the code to these steps, from single clients and the dispatcher up to the main loop;
--     Steps/Invariant, Steps/Links, Steps/Started and Steps/Heartbeat hold what the steps keep. Steps/Total
--     says where no assertion fails.
--   Common: the names and lemmas that the others share. Tests: the theorems at concrete inputs.
--
-- How code is modelled. A buffer is its bytes wherever only its contents matter, and an address
-- where it matters who shares it: Memory relates the two. No address is given out twice, so that
-- every use of a buffer that was freed is a fault. Which clients get a message (but in
-- Memory/Broadcast), and whether a signature changed, are arguments there. A C string is the bytes
-- before its zero byte. A failed assertion is `none`. A write through the address of a client is a
-- change of the client with this address in the list. Sizes are natural numbers, with the wrap-
-- around of `size_t` and of `int` written out where the code can meet it. The answers of `read`,
-- `writev`, `select`, `accept` and the calls that make a socket, the readings of the clock, the
-- text of `make_timestamp`, and memory that was not written are arguments. A new client gets an
-- address that no client had before. The `ticks` of the server tell the questions to the system
-- apart, and `closed` holds the descriptors that `client_destroy` has closed. The option `nullclients`
-- is read into the configuration and, as in the code, has no effect: every chat client is served alike,
-- identified or not.
--
-- Fuel. The loop of a `read_op` has one more than the bytes of its input, and each round takes at
-- least one; the loop over a configuration file has the file's length, and `fgets` takes at least one
-- byte; printing a number has the number itself. The main loop is as long as the list of the answers
-- to its rounds, and `server_schedule` has its fuel as an argument: one more than the tasks that are due is
-- enough while the clock does not run away.
--
-- Not modelled: failed allocations, but for an entry of a queue; the freeing of what is not a buffer
-- (the strings of the configuration, the clients and tasks themselves); which messages each function
-- logs, other than the start and the end of the log; `make_timestamp`, which reads the clock; the cipher of src/rc4.c, a copy of another project's code that the server does not call.
pub mod Common
pub mod Decimal
pub mod Buffer
pub mod Queue
pub mod Libc
pub mod Proto
pub mod Config
pub mod Task
pub mod Misc
pub mod Memory
pub mod Frame
pub mod Client
pub mod Server
pub mod Dispatch
pub mod Input
pub mod Output
pub mod Ctl
pub mod Errors
pub mod Log
pub mod Sockets
pub mod World
pub mod Link
pub mod Schedule
pub mod Accept
pub mod Poller
pub mod Command
pub mod Daemon
pub mod Run
pub mod Steps
pub mod Tests
