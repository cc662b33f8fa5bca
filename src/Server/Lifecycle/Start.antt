-- ===== src/Server/Lifecycle/Start.antt =====
-- src/server/server.c: how `server_init` and the start of `server_run` succeed or fail.
use ai_chatbot.Base.{
  ◌&&◌, ℕ, ◌≡◌, refl, Bool, true, false, [], ◌∷◌, ◌++◌, none, some, arith, Option-cases, inl, inr,
  not, is_some, Option,
}
use mathlib.Core.List.{append-nil}
use ai_chatbot.Text.{Bytes}
use ai_chatbot.Status.{is_ok}
use ai_chatbot.Registry.Valid.{IsValid, registry_init-IsValid}
use ai_chatbot.Rooms.{room_manager_init, room_find_or_create, find_room}
use ai_chatbot.Auth.{auth_init}
use ai_chatbot.Server.State.{Effect}
use ai_chatbot.Server.Accept.{Host, BroadcasterPlace}
use ai_chatbot.Server.Accept.Count.{IsCounted}
use ai_chatbot.Server.Lifecycle.{
  set_users, set_rooms, Parts, no_parts, Setup, blank_host, init_auth, init_rooms, init_queue,
  server_init, Listening, open_listener, start_listening,
}

abbrev pub all_parts : Parts
all_parts = record {
  conn_lock = true;
  registry = true;
  broadcast_queue = true;
  rooms = true;
  auth = true;
}

-- A server that is ready: no client, an empty and open queue, the lobby, and the users of the file.
pub record IsReady (m : Setup) (h : Host) : Type 0 where
  pub is_counted : IsCounted h
  pub is_valid : IsValid h.server.registry
  pub queue_empty : h.server.broadcast_queue ≡ record { items = []; closed = false }
  pub has_rooms : h.server.rooms ≡ (room_manager_init m.room_memory).1
  pub has_users : h.server.users ≡ (auth_init m.user_memory m.users_file).1
  pub is_running : h.running ≡ true
  pub not_listening : h.listen_fd ≡ none

-- Each of the five parts can be made.
abbrev pub can_start : Setup → Bool
can_start m =
    m.conn_lock_made
    && m.registry_made
    && m.queue_made
    && (m.rooms_made && is_ok (room_manager_init m.room_memory).0)
    && (m.auth_made && is_ok (auth_init m.user_memory m.users_file).0)

-- The lobby needs memory, and nothing else.
room_manager_init-ok : (mem : Bool) → is_ok (room_manager_init mem).0 ≡ mem
unfolding room_manager_init room_find_or_create find_room
room_manager_init-ok true = refl
room_manager_init-ok false = refl

-- Without a file there are no users.
auth_init-closed :
    (mem : ℕ → Bool) (file : Option Bytes)
    → is_some file ≡ false
    → is_ok (auth_init mem file).0 ≡ false
unfolding auth_init
auth_init-closed mem none h = refl
auth_init-closed mem (some text) h = cc

blank_host-port : (port : ℕ) → (blank_host port).port ≡ port
unfolding blank_host
blank_host-port port = refl

ready :
    (m : Setup) (port : ℕ)
    → IsReady m (
        set_users
          (auth_init m.user_memory m.users_file).1
          (set_rooms (room_manager_init m.room_memory).1 (blank_host port)))
unfolding blank_host
ready m port = record {
  is_counted = record { counted = refl; bounded = omega arith };
  is_valid = registry_init-IsValid;
  queue_empty = refl;
  has_rooms = refl;
  has_users = refl;
  is_running = refl;
  not_listening = refl;
}

-- The parts in front of the rooms, and the rooms with them.
abbrev pub before_rooms : Setup → Bool
before_rooms m = m.conn_lock_made && m.registry_made && m.queue_made

abbrev pub before_auth : Setup → Bool
before_auth m = before_rooms m && (m.rooms_made && is_ok (room_manager_init m.room_memory).0)

-- What `server_init` leaves behind when it fails: the mutex of the rooms, or the one of the users.
abbrev pub left_over : Setup → Parts
left_over m = record no_parts {
  rooms = before_rooms m && (m.rooms_made && not m.room_memory);
  auth = before_auth m && (m.auth_made && not (is_some m.users_file));
}

-- `server_init` succeeds exactly when each of its five parts can be made. Then all five are there and the server
-- is ready on the port. Else every part that was made is destroyed again, but for two mutexes that are never
-- destroyed: the one of the rooms, when all that is made before it and itself are there and there is no memory for the
-- lobby, and the one of the users, when all that is made before it and itself are there and the file cannot be opened.
pub server_init_lem :
    (m : Setup) (port : ℕ)
    → let (rc, h, parts) = server_init m port in
      (is_ok rc ≡ can_start m)
      × (is_ok rc ≡ true → (parts ≡ all_parts) × IsReady m h × (h.port ≡ port))
      × (is_ok rc ≡ false → parts ≡ left_over m)
unfolding server_init init_queue init_rooms init_auth
server_init_lem m port =
    let fine = ready m port in
    let named : (blank_host port).port ≡ port = blank_host-port port in
    let lobby : is_ok (room_manager_init m.room_memory).0 ≡ m.room_memory =
      room_manager_init-ok m.room_memory in
    let unread = auth_init-closed m.user_memory m.users_file in ground arith

-- When the socket cannot be set up or the broadcaster not started, the socket is closed, if there is one, and the
-- server has no socket; else nothing is closed, and the server listens on the socket with the broadcaster in its loop.
pub start_listening_lem :
    (m : Listening) (h : Host)
    → let (rc, h') = start_listening m h in
      (is_ok rc ≡ false
        → (h'.listen_fd ≡ none)
          × (h'.server.effects
              ≡ h.server.effects ++ elim m.socket [ none ↦ [] | some fd ↦ Effect.closed fd ∷ [] ]))
      × (is_ok rc ≡ true
          → (h'.listen_fd ≡ m.socket)
            × (h'.server.effects ≡ h.server.effects)
            × (h'.broadcaster ≡ BroadcasterPlace.looping))
unfolding start_listening open_listener
start_listening_lem m h = elim (Option-cases m.socket) [
  | inl e ↦ rw (e, start_listening) (ground (arith, append-nil h.server.effects))
  | inr (fd, e) ↦ rw (e, start_listening) (ground arith)
]
