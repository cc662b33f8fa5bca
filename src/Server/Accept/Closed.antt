-- ===== src/Server/Accept/Closed.antt =====
-- src/server/server.c: the connections that `accept` gives, the threads that serve them, and the calls of `close`.
use ai_chatbot.Base.{
  ℕ, ◌+◌, ◌≡◌, refl, sym, ==_iff, ◌∙◌, ap, Bool, true, false, List, [], ◌∷◌, ◌++◌, Option, none,
  some, arith, ◌==◌, if◌then◌else◌, Option-cases, Bool-cases, inl, inr,
}
use ai_chatbot.Text.{Bytes}
use ai_chatbot.Server.State.{Env, Effect, Server}
use ai_chatbot.Server.Commands.{cmd_disconnect_client, announce_leave}
use ai_chatbot.Server.Session.{
  Session, session_step, disconnect_client, conn_track_decrement, conn_track_increment,
  conn_at_capacity,
}
use ai_chatbot.Server.Accept.{
  AcceptPlace, Host, Thread, Turn, Accepted, find_thread, end_thread, update_thread, accept_client,
  reject, admit, accepted, main_turn, leave, handle_line, thread_turn, broadcaster_turn, take_turn,
  run_turns,
}
use ai_chatbot.Server.Accept.Count.{Has, find_thread_sound}
use ai_chatbot.Server.Accept.Quiet.{
  closings, closings-append, closed_by, event-Quiet, send-Quiet, session_step-Quiet,
  broadcaster-Quiet,
}

-- One, when the descriptors are the same.
abbrev pub once : ℕ → ℕ → ℕ
once k fd = if k == fd then 1 else 0

-- How many threads serve the descriptor.
abbrev pub serving : ℕ → List Thread → ℕ
serving fd [] = 0
serving fd (t ∷ ts) = once t.client_fd fd + serving fd ts

-- How often the descriptor was closed, and how many threads serve it.
abbrev pub closed_or_served : ℕ → Host → ℕ
closed_or_served fd h = closed_by fd h.server + serving fd h.threads

-- Whether the turn gives the descriptor as a new connection: the main thread stands in `accept`.
abbrev given : ℕ → Accepted → ℕ
given fd (Accepted.client k _ _) = once k fd
given fd _ = 0

abbrev pub arrives : ℕ → Turn → Host → ℕ
arrives fd (Turn.accept_loop a) h = elim h.main [ AcceptPlace.accepting ↦ given fd a | _ ↦ 0 ]
arrives fd _ h = 0

serving-end_thread :
    (fd : ℕ) (t : Thread) (ts : List Thread)
    → Has t ts
    → serving fd (end_thread t.client_fd ts) + once t.client_fd fd ≡ serving fd ts
unfolding end_thread
serving-end_thread fd t _ Has.here = ground arith
serving-end_thread fd t _ (Has.there {u} {ts} h) =
    let ih = serving-end_thread fd t ts h in
    elim (Bool-cases (u.client_fd == t.client_fd)) [
      | inl same ↦ rw same (
          ap (λ k. serving fd ts + once k fd) (sym ((==_iff u.client_fd t.client_fd).0 same))
          ∙ omega arith)
      | inr other ↦ rw other (omega (arith, ih))
    ]

serving-update_thread :
    (fd : ℕ) (new : Thread) (ts : List Thread) → serving fd (update_thread new ts) ≡ serving fd ts
unfolding update_thread
serving-update_thread fd new [] = refl
serving-update_thread fd new (u ∷ ts) =
    let ih = serving-update_thread fd new ts in
    elim (Bool-cases (u.client_fd == new.client_fd)) [
      | inl same ↦
          rw same
            (ap (λ k. once k fd + serving fd ts) (sym ((==_iff u.client_fd new.client_fd).0 same)))
      | inr other ↦ rw other (omega (arith, ih))
    ]

closings-end :
    (fd k : ℕ) (es : List Effect)
    → closings fd (es ++ Effect.closed k ∷ []) ≡ closings fd es + once k fd
closings-end fd k es = closings-append fd es (Effect.closed k ∷ []) ∙ omega arith

module _ (env : Env) where
  disconnect_closes :
      (k fd : ℕ) (session : Session) (s : Server)
      → closed_by k (disconnect_client env fd session s).1 ≡ closed_by k s + once fd k
  unfolding disconnect_client conn_track_decrement cmd_disconnect_client announce_leave
  disconnect_closes k fd session s = grind (arith, event-Quiet, closings-end)

  accept_client_closes :
      (k fd : ℕ) (has_memory thread_made : Bool) (s : Server)
      → let (runs, s') = accept_client env fd has_memory thread_made s in
        closed_by k s' + (if runs then once fd k else 0) ≡ closed_by k s + once fd k
  unfolding accept_client reject admit conn_at_capacity conn_track_increment conn_track_decrement
  accept_client_closes k fd has_memory thread_made s = grind (arith, send-Quiet, closings-end)

  leave_lem :
      (fd : ℕ) (t : Thread) (h : Host)
      → Has t h.threads
      → closed_or_served fd (leave env t h) ≡ closed_or_served fd h
  unfolding leave
  leave_lem fd t h found = omega (
    arith,
    disconnect_closes fd t.client_fd t.session h.server,
    serving-end_thread fd t h.threads found,
  )

  handle_line_lem :
      (fd : ℕ) (t : Thread) (line : Option Bytes) (h : Host)
      → Has t h.threads
      → closed_or_served fd (handle_line env t line h) ≡ closed_or_served fd h
  unfolding handle_line
  handle_line_lem fd t none h found = leave_lem fd t h found
  handle_line_lem fd t (some line) h found =
      let s : Server = (session_step env t.client_fd t.session line h.server).1 in
      let same = session_step-Quiet env t.client_fd t.session line fd h.server in
      elim (Option-cases (session_step env t.client_fd t.session line h.server).0) [
        | inl over ↦
            rw (over, handle_line)
              (leave_lem fd t (record h { server = s }) found
                ∙ ap (λ n. n + serving fd h.threads) same)
        | inr (session, more) ↦
            let new : Thread = record t { session = session; receiving = false } in
            rw (more, handle_line) (omega (arith, same, serving-update_thread fd new h.threads))
      ]

  thread_turn_lem :
      (fd : ℕ) (t : Thread) (line : Option Bytes) (h : Host)
      → Has t h.threads
      → closed_or_served fd (thread_turn env t line h) ≡ closed_or_served fd h
  unfolding thread_turn
  thread_turn_lem fd t line h found =
      let line_ = handle_line_lem fd t line h found in
      let left = leave_lem fd t h found in
      let started = serving-update_thread fd (record t { receiving = true }) h.threads in
      ground arith

  accepted_lem :
      (fd : ℕ) (a : Accepted) (h : Host)
      → closed_or_served fd (accepted env a h) ≡ closed_or_served fd h + given fd a
  unfolding accepted
  accepted_lem fd Accepted.interrupted h = omega arith
  accepted_lem fd Accepted.failed h = omega arith
  accepted_lem fd (Accepted.client k has_memory thread_made) h =
      let closes = accept_client_closes fd k has_memory thread_made h.server in ground arith

  take_turn_lem :
      (fd : ℕ) (turn : Turn) (h : Host)
      → closed_or_served fd (take_turn env turn h) ≡ closed_or_served fd h + arrives fd turn h
  unfolding take_turn main_turn broadcaster_turn
  take_turn_lem fd (Turn.accept_loop a) h = let taken = accepted_lem fd a h in ground arith
  take_turn_lem fd (Turn.client_thread k line) h = elim (Option-cases (find_thread k h.threads)) [
    | inl missing ↦ rw (missing, take_turn) (omega arith)
    | inr (t, found) ↦
        let turned = thread_turn_lem fd t line h (find_thread_sound k h.threads found).0 in
        rw (found, take_turn) (omega (arith, turned))
  ]
  take_turn_lem fd Turn.broadcaster h = ground (arith, broadcaster-Quiet env fd h.server)
  take_turn_lem fd Turn.signal h = omega arith

-- How often the descriptor was given as a new connection.
abbrev pub arrivals : Env → ℕ → List Turn → Host → ℕ
arrivals env fd [] h = 0
arrivals env fd (turn ∷ turns) h = arrives fd turn h + arrivals env fd turns (take_turn env turn h)

-- In every sequence of turns of the main thread, the threads of the clients, the broadcaster and signals, whatever clients
-- send and whatever fails, each connection that `accept` gives is closed exactly once or still has the one thread that serves
-- it, and not both: for each descriptor, the calls of `close` and the threads that serve it have together become more by
-- the number of times that `accept` has given it.
pub run_turns-closed :
    (env : Env) (fd : ℕ) (turns : List Turn) (h : Host)
    → let end = run_turns env turns h in
      closings fd end.server.effects + serving fd end.threads
      ≡ (closings fd h.server.effects + serving fd h.threads) + arrivals env fd turns h
unfolding run_turns
run_turns-closed env fd [] h = omega arith
run_turns-closed env fd (turn ∷ turns) h =
    omega (arith, take_turn_lem env fd turn h, run_turns-closed env fd turns (take_turn env turn h))
