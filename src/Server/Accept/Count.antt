-- ===== src/Server/Accept/Count.antt =====
-- src/server/server.c: the counter `active_connections` and the threads of the clients.
use ai_chatbot.Base.{
  ℕ, suc, ◌-◌, ◌≤◌, ◌≡◌, refl, ◌∙◌, Bool, true, false, ◌&&◌, List, [], ◌∷◌, ◌++◌, Option, none,
  if◌then◌else◌, ◌==◌, some, arith, length, Option-cases, Bool-cases, inl, inr, ==_iff, leb,
  some_inj, if_elim,
}
use ai_chatbot.Text.{Bytes, codes}
use ai_chatbot.Status.{max_clients, max_line_len}
use ai_chatbot.Protocol.Server.{build_server_err}
use ai_chatbot.Server.State.{Env, Effect, Server}
use ai_chatbot.Server.Commands.{cmd_disconnect_client, announce_leave}
use ai_chatbot.Server.Reply.{cmd_send_response, enqueue_room_event}
use ai_chatbot.Server.Session.{
  Session, disconnect_client, session_step, conn_track_increment, conn_track_decrement,
  conn_at_capacity,
}
use ai_chatbot.Server.Accept.{
  Host, Thread, Turn, Accepted, find_thread, end_thread, update_thread, reject, admit,
  accept_client, accepted, main_turn, leave, handle_line, thread_turn, broadcaster_turn, take_turn,
  run_turns,
}
use ai_chatbot.Server.Accept.Keep.{session_step-Counts, broadcaster-Counts}

-- The counter is the number of threads, which is at most MAX_CLIENTS.
pub record IsCounted (h : Host) : Type 0 where
  pub counted : h.server.active_connections ≡ length h.threads
  pub bounded : length h.threads ≤ max_clients

-- The thread that is found is among the threads.
pub data Has (t : Thread) : List Thread → Type 0 where
  here : {ts : List Thread} → Has t (t ∷ ts)
  there : {u : Thread} {ts : List Thread} → Has t ts → Has t (u ∷ ts)

pub find_thread_sound :
    (fd : ℕ) (ts : List Thread) {t : Thread}
    → find_thread fd ts ≡ some t
    → Has t ts × (t.client_fd ≡ fd)
unfolding find_thread
find_thread_sound fd [] e = cc
find_thread_sound fd (u ∷ ts) {t} e = elim (Bool-cases (u.client_fd == fd)) [
  | inl same ↦
      let this : u ≡ t = some_inj (rw same at e) in
      rw (← this) (Has.here, (==_iff u.client_fd fd).0 same)
  | inr other ↦ let (h, k) = find_thread_sound fd ts (rw other at e) in (Has.there h, k)
]

length-end_thread :
    (t : Thread) (ts : List Thread)
    → Has t ts
    → suc (length (end_thread t.client_fd ts)) ≡ length ts
unfolding end_thread
length-end_thread t _ Has.here = ground arith
length-end_thread t _ (Has.there {ts = ts} h) = ground (arith, length-end_thread t ts h)

length-update_thread : (new : Thread) (ts : List Thread) → length (update_thread new ts) ≡ length ts
unfolding update_thread
length-update_thread new [] = refl
length-update_thread new (u ∷ ts) = ground (arith, length-update_thread new ts)

disconnect_counts :
    (env : Env) (fd : ℕ) (session : Session) (s : Server)
    → (disconnect_client env fd session s).1.active_connections ≡ s.active_connections - 1
unfolding disconnect_client conn_track_decrement cmd_disconnect_client announce_leave
    enqueue_room_event
disconnect_counts env fd session s = ground arith

-- The reply to a connection that is one too many.
abbrev pub refusal : Env → ℕ → Server → Effect
refusal env fd s =
    let line = (build_server_err max_line_len (some (codes "server full (max 100 clients)"))).1 in
    if env.accepts s.tick fd line then Effect.sent fd line else Effect.lost fd line

-- What becomes of a connection: when there are MAX_CLIENTS it is told so and closed; when there is no memory or no
-- thread for it, it is closed; in both cases no thread runs and the counter is as before. Else a thread runs and
-- the counter is one more. The registry, the rooms and the queue are as they were.
pub accept_client_lem :
    (env : Env) (fd : ℕ) (has_memory thread_made : Bool) (s : Server)
    → let (runs, s') = accept_client env fd has_memory thread_made s in
      let full = leb max_clients s.active_connections in
      (s'.registry ≡ s.registry)
      × (s'.rooms ≡ s.rooms)
      × (s'.broadcast_queue ≡ s.broadcast_queue)
      × (full ≡ true
          → (runs ≡ false)
            × (s'.active_connections ≡ s.active_connections)
            × (s'.effects ≡ (s.effects ++ refusal env fd s ∷ []) ++ Effect.closed fd ∷ []))
      × (full ≡ false
          → has_memory && thread_made ≡ true
          → (runs ≡ true)
            × (s'.active_connections ≡ suc s.active_connections)
            × (s'.effects ≡ s.effects))
      × (full ≡ false
          → has_memory && thread_made ≡ false
          → (runs ≡ false)
            × (s'.active_connections ≡ s.active_connections)
            × (s'.effects ≡ s.effects ++ Effect.closed fd ∷ []))
unfolding accept_client reject admit conn_at_capacity conn_track_increment conn_track_decrement
    cmd_send_response
accept_client_lem env fd has_memory thread_made s = ground arith

module _ (env : Env) where
  leave-IsCounted :
      (t : Thread) (h : Host) → Has t h.threads → IsCounted h → IsCounted (leave env t h)
  unfolding leave
  leave-IsCounted t h found c = record {
    counted = omega (
      arith,
      disconnect_counts env t.client_fd t.session h.server,
      length-end_thread t h.threads found,
      c.counted,
    );
    bounded = omega (arith, length-end_thread t h.threads found, c.bounded);
  }

  handle_line-IsCounted :
      (t : Thread) (line : Option Bytes) (h : Host)
      → Has t h.threads
      → IsCounted h
      → IsCounted (handle_line env t line h)
  unfolding handle_line
  handle_line-IsCounted t none h found c = leave-IsCounted t h found c
  handle_line-IsCounted t (some line) h found c =
      let s : Server = (session_step env t.client_fd t.session line h.server).1 in
      let same = session_step-Counts env t.client_fd t.session line h.server in
      elim (Option-cases (session_step env t.client_fd t.session line h.server).0) [
        | inl over ↦
            rw (over, handle_line)
              (leave-IsCounted t (record h { server = s }) found
                (record { counted = same ∙ c.counted; bounded = c.bounded }))
        | inr (session, more) ↦
            rw (more, handle_line)
              (let new : Thread = record t { session = session; receiving = false } in
                record {
                  counted = omega (arith, same, c.counted, length-update_thread new h.threads);
                  bounded = omega (arith, c.bounded, length-update_thread new h.threads);
                })
      ]

  thread_turn-IsCounted :
      (t : Thread) (line : Option Bytes) (h : Host)
      → Has t h.threads
      → IsCounted h
      → IsCounted (thread_turn env t line h)
  unfolding thread_turn
  thread_turn-IsCounted t line h found c =
      let handled = handle_line-IsCounted t line h found c in
      let left = leave-IsCounted t h found c in
      let new : Thread = record t { receiving = true } in
      let started : IsCounted (record h { threads = update_thread new h.threads }) = record {
        counted = omega (arith, c.counted, length-update_thread new h.threads);
        bounded = omega (arith, c.bounded, length-update_thread new h.threads);
      } in
      if_elim IsCounted t.receiving (λ _. handled)
        (λ _. if_elim IsCounted h.running (λ _. started) (λ _. left))

  accepted-IsCounted : (a : Accepted) (h : Host) → IsCounted h → IsCounted (accepted env a h)
  unfolding accepted
  accepted-IsCounted Accepted.interrupted h c = record { counted = c.counted; bounded = c.bounded }
  accepted-IsCounted Accepted.failed h c = record { counted = c.counted; bounded = c.bounded }
  accepted-IsCounted (Accepted.client fd has_memory thread_made) h c =
      let facts = accept_client_lem env fd has_memory thread_made h.server in
      ground (arith, c.counted, c.bounded)

  take_turn-IsCounted : (turn : Turn) (h : Host) → IsCounted h → IsCounted (take_turn env turn h)
  unfolding take_turn main_turn broadcaster_turn
  take_turn-IsCounted (Turn.accept_loop a) h c = ground (arith, accepted-IsCounted a h c)
  take_turn-IsCounted (Turn.client_thread fd line) h c =
      elim (Option-cases (find_thread fd h.threads)) [
        | inl missing ↦ rw (missing, take_turn) c
        | inr (t, found) ↦
            rw (found, take_turn)
              (thread_turn-IsCounted t line h (find_thread_sound fd h.threads found).0 c)
      ]
  take_turn-IsCounted Turn.broadcaster h c = ground (arith, broadcaster-Counts env h.server)
  take_turn-IsCounted Turn.signal h c = record { counted = c.counted; bounded = c.bounded }

-- In every sequence of turns of the main thread, the threads of the clients, the broadcaster and signals, whatever
-- clients send and whatever fails, the counter is the number of the clients' threads, and they are never more
-- than MAX_CLIENTS.
pub run_turns-IsCounted :
    (env : Env) (turns : List Turn) (h : Host) → IsCounted h → IsCounted (run_turns env turns h)
unfolding run_turns
run_turns-IsCounted env [] h c = c
run_turns-IsCounted env (turn ∷ turns) h c =
    run_turns-IsCounted env turns (take_turn env turn h) (take_turn-IsCounted env turn h c)
