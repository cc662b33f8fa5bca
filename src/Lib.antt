-- ===== src/Lib.antt =====
-- A verification library for the chat server: a server with one thread for each client, a
-- broadcaster thread and a queue between them, and the line protocol that it speaks with its
-- clients.
--
-- The parts, and how they work together. A client thread (src/server/server.c) reads lines,
-- parses them (src/common/protocol.c) and calls a handler (src/server/commands.c). The handlers
-- check a password against the user database (src/server/auth.c), keep the registry of the
-- clients that are online (src/server/client_registry.c) and the rooms with their last messages
-- (src/server/room_manager.c), answer on the socket, and push events onto a queue
-- (src/common/message_queue.c), from which the broadcaster (src/server/broadcaster.c) takes them
-- and sends them to the users of the room. The main thread of the server accepts connections, up
-- to a limit, and starts a thread for each. The client program (src/client/client.c) has two
-- threads: one turns what is typed into requests, the other one displays what the server sends.
--
-- Which file models what.
--   Status             include/common.h: the codes and the sizes.
--   Text, Text/*       the functions of the C library on texts; Text/Trim is `trim_newline` of
--                      src/common/utils.c.
--   Port               `parse_port` of src/common/utils.c; Grammar states the texts that it
--                      takes.
--   Clock              `format_timestamp` of src/common/utils.c.
--   Protocol/Fields    the helpers of src/common/protocol.c for both directions.
--   Protocol/Client    `protocol_parse_client_line` and `protocol_build_client_*`; Grammar
--                      states the lines by themselves, Sound and RoundTrip relate them to the
--                      code.
--   Protocol/Server    `protocol_parse_server_line` and `protocol_build_server_*`.
--   Registry           src/server/client_registry.c; Directory is what it promises, and its
--                      Steps, Lookup and Refines show that it keeps that; Valid, Find, Names,
--                      Sequence and UserList are about its list.
--   Rooms              src/server/room_manager.c; Ring is about the ring of one room, Update,
--                      Place and History about all the rooms, Format about the text of a
--                      history.
--   Queue              src/common/message_queue.c on a heap; Fifo relates it to a list, Threads
--                      to threads that use it at the same time, Destroy is `mq_destroy`.
--   Auth               src/server/auth.c; Load and Entry are about the file, Verify about the
--                      check.
--   Net                `send_all`, `recv_line` and `set_socket_nonblocking` of
--                      src/common/utils.c, and the senders and readers of lines of
--                      src/server/server.c and src/client/client.c; Lines, Whole and Nonblocking
--                      are about them.
--   Server/State       `chat_server_t` of include/server.h, and actions on it.
--   Server/Reply       the helpers of src/server/commands.c.
--   Server/Commands    the handlers of src/server/commands.c, one function for each; Enter and
--                      Keep say what they do to the registry, Login, Deliver, Private, Move and
--                      Kick what else they do.
--   Server/Session     `client_handler` of src/server/server.c and the counter of connections.
--   Server/Broadcast   src/server/broadcaster.c; Fanout is about whom it sends a line, Drain and
--                      Ends about its loop.
--   Server/Accept      the loop of `server_run`, with the threads that it starts, the
--                      broadcaster and signals, one turn after another; Count and Keep are about
--                      the number of threads, Closed and Quiet about the connections that are
--                      closed, Roster, Turns, Listed, Sockets and Threads about those that are
--                      logged in, Ending about the end of the loop.
--   Server/Lifecycle   `server_init`, the start of `server_run`, `signal_handler`,
--                      `server_shutdown` and `server_destroy`; Start and Stop are about them.
--   Server/Program     `main` of src/server/main.c.
--   Client/State       `chat_client_t` of include/client.h, the helpers of src/client/client.c,
--                      the colours of include/colors.h and src/client/colors.c.
--   Client/Display     `display_server_message` and `print_history_payload`; History is about
--                      the second one.
--   Client/Input       `parse_at_pm` and the body of the loop of `client_run`; Pm, Sent, Request
--                      and LongRoom say what is sent for what is typed.
--   Client/Credentials `resolve_credentials`; Prompt is about what is typed for it.
--   Client/Threads     `receiver_thread` and the loop of `client_run`, one turn after another;
--                      Invariant and Start say what all steps keep, Stopped and Ending how they
--                      end, Bounds what is in the buffers.
--   Client/Life        `client_init`, `client_connect`, `client_run`, `client_disconnect` and
--                      `client_destroy`.
--   Client/Program     `main` of src/client/main.c; Sockets and Closed are about the sockets
--                      that it makes and closes.
--   Delivery           the way of a text from one client to another, through all the parts: Pm
--                      of a private message, Chat of a message to a room, Kick of a kick.
--   Tests              runs at concrete inputs, and an instance of each theorem with conditions.
-- The definitions have the names of the C functions. Where a C function is long, its tail or its
-- loop is a definition of its own, and the comment above says which part it is.
--
-- How the code is read.
--   A C string is the list of its bytes before the NUL, and a pointer to a string or a struct
--   that callers never pass as NULL is its value; the tests for NULL at the start of a function
--   are left out. `strncpy` that sets no NUL keeps what the memory behind holds
--   (`strncpy_over`), and that memory is a parameter. `snprintf` gives the text cut to the
--   buffer and says whether it was cut.
--   A descriptor is a natural number, and -1 for "none" is `none`. `size_t` counters wrap round
--   where the code decrements them; `count + 1` is under a test against MAX_CLIENTS or
--   MAX_ROOMS.
--   What stands between the lock and the unlock of a mutex is one step.
--   A linked list is the list of its nodes, the head first, except in Queue, where the nodes lie
--   on a heap, because its tail pointer aliases the last of them: there a write through a
--   dangling pointer is a fault.
--   What the outside decides is a parameter: whether `malloc` succeeds, what `localtime_r`,
--   `time` and OpenSSL give, whether a send succeeds. Server/State gathers them in `Env`.
--   Server/Session is a run of one thread that no other interrupts, over the lines that
--   `server_recv_line` gives it; behind the last line it fails. Server/Accept and Client/Threads
--   run the threads in any order: a list of turns says whose turn it is and what the call that
--   blocked gave. There a turn goes from one call that may block, or one test of `running`, to
--   the next, so that a line of a client is handled as a whole.
-- All recursion is on a list or a number, so every function is total. The loop of the
-- broadcaster has no end of its own and runs for a given number of rounds; one more than the
-- events queued is enough to handle them all. The loop over a history and the one that frees the
-- nodes of a queue run on fuel: one round more than the bytes, or than the nodes, is enough. A
-- run of either program is a list of turns, and gives `none` while the program has not ended.
--
-- What is not modelled: the socket calls themselves and `fcntl` (their results are parameters),
-- the results of `sigaction`, what the server prints but for `main`, handlers of two clients
-- that interleave between two locks, and the tests of the repository.
pub mod Base
pub mod Text
pub mod Status
pub mod Protocol
pub mod Registry
pub mod Client
pub mod Clock
pub mod Rooms
pub mod Queue
pub mod Auth
pub mod Net
pub mod Port
pub mod Server
pub mod Delivery
pub mod Tests
