-- ===== src/Server/Accept.antt =====
-- src/server/server.c: the loop of `server_run`, which starts a thread for each client, together with those
-- threads and the broadcaster, as a machine that takes one turn after another. A turn of a client's thread
-- is the handling of one line, or one test of `running`.
pub mod Closed
pub mod Count
pub mod Ending
pub mod Keep
pub mod Listed
pub mod Quiet
pub mod Roster
pub mod Threads
pub mod Turns
pub mod Sockets
use ai_chatbot.Base.{
  ℕ, zero, suc, Bool, true, false, not, ◌&&◌, List, [], ◌∷◌, ◌++◌, Option, none, some, ◌==◌,
  if◌then◌else◌,
}
use ai_chatbot.Text.{Bytes, codes}
use ai_chatbot.Status.{max_line_len}
use ai_chatbot.Server.State.{Env, Effect, Server, Action, emit, ◌>>=◌, ◌>>◌, pure}
use ai_chatbot.Server.Reply.{reply_err}
use ai_chatbot.Server.Session.{
  Session, new_session, conn_track_increment, conn_track_decrement, conn_at_capacity,
  disconnect_client, session_step,
}
use ai_chatbot.Server.Broadcast.{Ended, broadcaster_thread}

-- Where the main thread stands: before the test of `running`, in `accept`, or not in its
-- loop.
pub data AcceptPlace : Type 0 where
  testing accepting left : AcceptPlace

-- The thread of the broadcaster: not started, in its loop, or behind it.
pub data BroadcasterPlace : Type 0 where
  absent looping ended : BroadcasterPlace

-- A thread of a client: its descriptor and its variables, and whether it stands in `server_recv_line` or
-- before the test of `running`.
pub record Thread : Type 0 where
  pub client_fd : ℕ
  pub session : Session
  pub receiving : Bool

-- `chat_server_t` with `running`, `port` and `listen_fd`, and the threads.
pub record Host : Type 0 where
  pub server : Server
  pub listen_fd : Option ℕ
  pub port : ℕ
  pub running : Bool
  pub broadcaster : BroadcasterPlace
  pub main : AcceptPlace
  pub threads : List Thread

-- What `accept` gives: a descriptor, -1 with EINTR, or -1 with another error; for a descriptor also whether
-- `malloc` and `pthread_create` succeed.
pub data Accepted : Type 0 where
  client : ℕ → Bool → Bool → Accepted
  interrupted failed : Accepted

pub data Turn : Type 0 where
  accept_loop : Accepted → Turn
  client_thread : ℕ → Option Bytes → Turn
  broadcaster : Turn
  signal : Turn

abbrev pub place_after : Ended → BroadcasterPlace
place_after Ended.left = BroadcasterPlace.ended
place_after _ = BroadcasterPlace.looping

-- `close(fd); conn_track_decrement(srv)`
abbrev give_up : ℕ → Action (Unit {0})
give_up fd = emit (Effect.closed fd) >> conn_track_decrement

abbrev new_thread : ℕ → Thread
new_thread fd = record { client_fd = fd; session = new_session; receiving = false }

unfoldable pub find_thread : ℕ → List Thread → Option Thread
find_thread fd [] = none
find_thread fd (t ∷ ts) = if t.client_fd == fd then some t else find_thread fd ts

-- The thread of the descriptor ends, or has new variables.
unfoldable pub end_thread : ℕ → List Thread → List Thread
end_thread fd [] = []
end_thread fd (t ∷ ts) = let rest = end_thread fd ts in if t.client_fd == fd then ts else t ∷ rest

unfoldable pub update_thread : Thread → List Thread → List Thread
update_thread new [] = []
update_thread new (t ∷ ts) =
    let rest = update_thread new ts in if t.client_fd == new.client_fd then new ∷ ts else t ∷ rest

module _ (env : Env) where
  -- The two ends of the body of the loop behind `accept`: there are enough clients, and a thread is to
  -- be made. Whether one runs afterwards.
  unfoldable pub reject : ℕ → Action Bool
  reject fd = do
    reply_err env fd (codes "server full (max 100 clients)")
    emit (Effect.closed fd)
    pure false

  unfoldable pub admit : ℕ → Bool → Bool → Action Bool
  admit fd has_memory thread_made = do
    conn_track_increment
    if has_memory && thread_made then pure true else do give_up fd; pure false

  unfoldable pub accept_client : ℕ → Bool → Bool → Action Bool
  accept_client fd has_memory thread_made = do
    full ← conn_at_capacity
    if full then reject fd else admit fd has_memory thread_made

  unfoldable pub accepted : Accepted → Host → Host
  accepted (Accepted.client fd has_memory thread_made) h =
      let (runs, s) = accept_client fd has_memory thread_made h.server in
      record h {
        server = s;
        main = AcceptPlace.testing;
        threads = if runs then new_thread fd ∷ h.threads else h.threads;
      }
  accepted Accepted.interrupted h = record h { main = AcceptPlace.testing }
  accepted Accepted.failed h = record h {
    main = if h.running then AcceptPlace.testing else AcceptPlace.left;
  }

  unfoldable pub main_turn : Accepted → Host → Host
  main_turn a h = elim h.main [
    | AcceptPlace.testing ↦ record h {
      main = if h.running then AcceptPlace.accepting else AcceptPlace.left;
    }
    | AcceptPlace.accepting ↦ accepted a h
    | AcceptPlace.left ↦ h
  ]

  -- `disconnect_client` at the end of `client_handler`.
  unfoldable pub leave : Thread → Host → Host
  leave t h = record h {
    server = (disconnect_client env t.client_fd t.session h.server).1;
    threads = end_thread t.client_fd h.threads;
  }

  -- What the thread does with what `server_recv_line` gave.
  unfoldable pub handle_line : Thread → Option Bytes → Host → Host
  handle_line t none h = leave t h
  handle_line t (some line) h =
      let (next, s) = session_step env t.client_fd t.session line h.server in
      elim next [
        | none ↦ leave t (record h { server = s })
        | some session ↦ record h {
          server = s;
          threads = update_thread (record t { session = session; receiving = false }) h.threads;
        }
      ]

  unfoldable pub thread_turn : Thread → Option Bytes → Host → Host
  thread_turn t line h =
      if t.receiving
      then handle_line t line h
      else if h.running
      then record h { threads = update_thread (record t { receiving = true }) h.threads }
      else leave t h

  -- One round of the broadcaster.
  unfoldable pub broadcaster_turn : Host → Host
  broadcaster_turn h = elim h.broadcaster [
    | BroadcasterPlace.looping ↦
        let (end, s) = broadcaster_thread env 1 h.server in
        record h { server = s; broadcaster = place_after end }
    | _ ↦ h
  ]

  unfoldable pub take_turn : Turn → Host → Host
  take_turn (Turn.accept_loop a) h = main_turn a h
  take_turn (Turn.client_thread fd line) h = elim (find_thread fd h.threads) [
    | none ↦ h
    | some t ↦ thread_turn t line h
  ]
  take_turn Turn.broadcaster h = broadcaster_turn h
  take_turn Turn.signal h = record h { running = false }

  unfoldable pub run_turns : List Turn → Host → Host
  run_turns [] h = h
  run_turns (turn ∷ turns) h = run_turns turns (take_turn turn h)
