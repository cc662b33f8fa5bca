-- ===== src/Server/Lifecycle.antt =====
-- src/server/server.c: `server_init`, `server_run` up to its loop, `signal_handler`, `server_shutdown` and
-- `server_destroy`; and `main` of src/server/main.c.
pub mod Start
pub mod Stop
use ai_chatbot.Base.{
  ℕ, Bool, true, false, not, ◌&&◌, List, [], ◌∷◌, ◌++◌, Option, none, some, is_some, if◌then◌else◌,
  ltb, length, get_elem?, ◌≡◌,
}
use ai_chatbot.Text.{Bytes, codes}
use ai_chatbot.Status.{Status, is_ok, default_port}
use ai_chatbot.Port.{parse_port}
use ai_chatbot.Auth.{User, auth_init}
use ai_chatbot.Registry.{Registry, registry_init}
use ai_chatbot.Rooms.{Manager, room_manager_init}
use ai_chatbot.Queue.{Message}
use ai_chatbot.Queue.Fifo.{Fifo, push_fifo}
use ai_chatbot.Server.State.{Env, Effect, Server}
use ai_chatbot.Server.Accept.{Host, Turn, AcceptPlace, BroadcasterPlace, run_turns}

-- Of which members of `chat_server_t` the mutex, and what else `pthread` gives them, is initialised and not destroyed.
pub record Parts : Type 0 where
  pub conn_lock : Bool
  pub registry : Bool
  pub broadcast_queue : Bool
  pub rooms : Bool
  pub auth : Bool

abbrev pub no_parts : Parts
no_parts = record {
  conn_lock = false;
  registry = false;
  broadcast_queue = false;
  rooms = false;
  auth = false;
}

-- What the machine decides about `server_init`: whether the mutex, the registry's and the queue's can be made,
-- and those of the rooms and the users; whether `calloc` succeeds for the lobby and `malloc` for the
-- users; and what the file of users holds.
pub record Setup : Type 0 where
  pub conn_lock_made : Bool
  pub registry_made : Bool
  pub queue_made : Bool
  pub rooms_made : Bool
  pub auth_made : Bool
  pub room_memory : Bool
  pub user_memory : ℕ → Bool
  pub users_file : Option Bytes

-- `registry_destroy`, `room_manager_destroy`, `auth_destroy` and `mq_destroy` on the lists.
unfoldable pub registry_destroy : Registry → Registry
registry_destroy reg = record reg { nodes = []; count = 0 }

unfoldable pub room_manager_destroy : Manager → Manager
room_manager_destroy mgr = record mgr { rooms = []; room_count = 0 }

unfoldable pub auth_destroy : List User → List User
auth_destroy db = []

unfoldable pub queue_destroy : Fifo → Fifo
queue_destroy q = record q { items = [] }

-- The struct behind `memset` and the four assignments.
unfoldable pub blank_host : ℕ → Host
blank_host port = record {
  server = record {
    active_connections = 0;
    registry = registry_init;
    broadcast_queue = record { items = []; closed = false };
    users = [];
    rooms = record { rooms = []; room_count = 0 };
    effects = [];
    tick = 0;
  };
  listen_fd = none;
  port = port;
  running = true;
  broadcaster = BroadcasterPlace.absent;
  main = AcceptPlace.left;
  threads = [];
}

abbrev pub set_rooms : Manager → Host → Host
set_rooms mgr h = record h { server = record h.server { rooms = mgr } }

abbrev pub set_users : List User → Host → Host
set_users db h = record h { server = record h.server { users = db } }

-- The tails of `server_init`, one for each part that it makes: the status, the struct and the parts. Where a
-- part cannot be made, those before it are destroyed, the last one first.

-- What a failed `auth_init` leaves: it destroys its mutex where the file was opened, and does not where `fopen`
-- failed.
abbrev pub auth_left : Setup → Bool
auth_left m = m.auth_made && not (is_some m.users_file)

unfoldable pub init_auth : Setup → Host → Parts → Status × Host × Parts
init_auth m h parts =
    let (rc, db) = auth_init m.user_memory m.users_file in
    if m.auth_made && is_ok rc then (Status.ok, set_users db h, record parts { auth = true }) else (
      Status.err,
      record h {
        server = record h.server {
          rooms = room_manager_destroy h.server.rooms;
          broadcast_queue = queue_destroy h.server.broadcast_queue;
          registry = registry_destroy h.server.registry;
        };
      },
      record parts {
        auth = auth_left m;
        rooms = false;
        broadcast_queue = false;
        registry = false;
        conn_lock = false;
      },
    )

-- A failed `room_manager_init` leaves its mutex where it was made, that is, where the `calloc` for the lobby failed.
unfoldable pub init_rooms : Setup → Host → Parts → Status × Host × Parts
init_rooms m h parts =
    let (rc, mgr) = room_manager_init m.room_memory in
    if m.rooms_made && is_ok rc
    then init_auth m (set_rooms mgr h) (record parts { rooms = true })
    else (
      Status.err,
      record h {
        server = record h.server {
          broadcast_queue = queue_destroy h.server.broadcast_queue;
          registry = registry_destroy h.server.registry;
        };
      },
      record parts {
        rooms = m.rooms_made;
        broadcast_queue = false;
        registry = false;
        conn_lock = false;
      },
    )

unfoldable pub init_queue : Setup → Host → Parts → Status × Host × Parts
init_queue m h parts =
    if m.queue_made then init_rooms m h (record parts { broadcast_queue = true }) else (
      Status.err,
      record h { server = record h.server { registry = registry_destroy h.server.registry } },
      record parts { registry = false; conn_lock = false },
    )

unfoldable pub server_init : Setup → ℕ → Status × Host × Parts
server_init m port =
    if not m.conn_lock_made
    then (Status.err, blank_host port, no_parts)
    else if not m.registry_made
    then (Status.err, blank_host port, no_parts)
    else init_queue m (blank_host port) (record no_parts { conn_lock = true; registry = true })

-- What the machine decides about the start of `server_run`.
pub record Listening : Type 0 where
  pub socket : Option ℕ
  pub setsockopt : Bool
  pub bind : Bool
  pub listen : Bool
  pub broadcaster_made : Bool

-- `close(srv->listen_fd); srv->listen_fd = -1`
abbrev pub close_listener : ℕ → Host → Host
close_listener fd h = record h {
  server = record h.server { effects = h.server.effects ++ Effect.closed fd ∷ [] };
  listen_fd = none;
}

-- The calls behind `socket`, up to the loop.
unfoldable pub open_listener : Listening → ℕ → Host → Status × Host
open_listener m fd h =
    if not m.setsockopt
    then (Status.err, close_listener fd h)
    else if not m.bind
    then (Status.err, close_listener fd h)
    else if not m.listen
    then (Status.err, close_listener fd h)
    else if not m.broadcaster_made
    then (Status.err, close_listener fd h)
    else (
      Status.ok,
      record h { broadcaster = BroadcasterPlace.looping; main = AcceptPlace.testing },
    )

unfoldable pub start_listening : Listening → Host → Status × Host
start_listening m h = elim m.socket [
  | none ↦ (Status.err, record h { listen_fd = none })
  | some fd ↦ open_listener m fd (record h { listen_fd = some fd })
]

-- `server_run`, with the turns that are taken; `none` while it has not returned.
unfoldable pub server_run : Env → Listening → List Turn → Host → Option (Status × Host)
server_run env m turns h =
    let (rc, h') = start_listening m h in
    if not (is_ok rc)
    then some (rc, h')
    else (let h'' = run_turns env turns h' in
        elim h''.main [ AcceptPlace.left ↦ some (Status.ok, h'') | _ ↦ none ])

-- `g_server = srv`; what the two calls of `sigaction` return is not looked at.
unfoldable pub server_install_signal_handlers : Host → Option Host
server_install_signal_handlers h = some h

-- `g_server->running = 0`, where the handlers are installed.
unfoldable pub signal_handler : Option Host → Option Host
signal_handler none = none
signal_handler (some h) = some (record h { running = false })

-- `close(srv->listen_fd); srv->listen_fd = -1`, if it is open.
unfoldable pub close_listen_fd : Option ℕ → Host → Host
close_listen_fd none h = h
close_listen_fd (some fd) h = close_listener fd h

-- `mq_signal_shutdown` and `mq_push`: the status of the push, which is not looked at. `mem` says whether its
-- `malloc` succeeds.
unfoldable pub wake_broadcaster : Bool → Message → Fifo → Status × Fifo
wake_broadcaster mem shutdown_msg q =
    let closed : Fifo = record q { closed = true } in
    if mem then push_fifo shutdown_msg closed else (Status.nomem, closed)

-- `server_shutdown` up to `pthread_join`.
unfoldable pub server_shutdown : Bool → Message → Host → Host
server_shutdown mem shutdown_msg h =
    let h' = close_listen_fd h.listen_fd (record h { running = false }) in
    record h' {
      server = record h'.server {
        broadcast_queue = (wake_broadcaster mem shutdown_msg h'.server.broadcast_queue).1;
      };
    }

unfoldable pub server_destroy : Host → Host
server_destroy h = close_listen_fd h.listen_fd (record h {
  server = record h.server {
    broadcast_queue = queue_destroy h.server.broadcast_queue;
    registry = registry_destroy h.server.registry;
    rooms = room_manager_destroy h.server.rooms;
    users = auth_destroy h.server.users;
  };
})
