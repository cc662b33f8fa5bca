-- ===== src/Server/Accept/Ending.antt =====
-- src/server/server.c: how the loop of `server_run` ends when `running` is 0.
use ai_chatbot.Base.{
  ℕ, suc, ◌-◌, ◌≤◌, ◌≡◌, refl, false, List, [], ◌∷◌, Option, none, some, arith, Option-cases, inl,
  inr,
}
use ai_chatbot.Text.{Bytes}
use ai_chatbot.Server.State.{Env}
use ai_chatbot.Server.Accept.{
  Host, Thread, Turn, Accepted, AcceptPlace, find_thread, accepted, main_turn, leave, handle_line,
  thread_turn, broadcaster_turn, take_turn, run_turns,
}
use ai_chatbot.Server.Session.{session_step}

abbrev pub main_rank : AcceptPlace → ℕ
main_rank AcceptPlace.accepting = 2
main_rank AcceptPlace.testing = 1
main_rank AcceptPlace.left = 0

abbrev pub accept_turns : List Turn → ℕ
accept_turns [] = 0
accept_turns (Turn.accept_loop _ ∷ turns) = suc (accept_turns turns)
accept_turns (_ ∷ turns) = accept_turns turns

-- The server does not run, and its main thread leaves its loop within `m` turns of its own.
record IsEnding (m : ℕ) (h : Host) : Type 0 where
  not_running : h.running ≡ false
  main_left : main_rank h.main ≤ m

-- A turn of another thread leaves the main thread where it is.
abbrev SameMain : Host → Host → Type 0
SameMain h h' = (h'.running ≡ h.running) × (h'.main ≡ h.main)

module _ (env : Env) where
  handle_line_main :
      (t : Thread) (line : Option Bytes) (h : Host) → SameMain h (handle_line env t line h)
  unfolding handle_line leave
  handle_line_main t none h = (refl, refl)
  handle_line_main t (some line) h =
      elim (Option-cases (session_step env t.client_fd t.session line h.server).0) [
        | inl over ↦ rw (over, handle_line) (refl, refl)
        | inr (session, more) ↦ rw (more, handle_line) (refl, refl)
      ]

  thread_turn_main :
      (t : Thread) (line : Option Bytes) (h : Host) → SameMain h (thread_turn env t line h)
  unfolding thread_turn leave
  thread_turn_main t line h = let handled = handle_line_main t line h in ground arith

  client_turn_main :
      (fd : ℕ) (line : Option Bytes) (h : Host)
      → SameMain h (take_turn env (Turn.client_thread fd line) h)
  unfolding take_turn
  client_turn_main fd line h = elim (Option-cases (find_thread fd h.threads)) [
    | inl missing ↦ rw (missing, take_turn) (refl, refl)
    | inr (t, found) ↦ rw (found, take_turn) (thread_turn_main t line h)
  ]

  main_turn-IsEnding :
      (m : ℕ) (a : Accepted) (h : Host) → IsEnding m h → IsEnding (m - 1) (main_turn env a h)
  unfolding main_turn accepted
  main_turn-IsEnding m Accepted.interrupted h e = ground arith
  main_turn-IsEnding m Accepted.failed h e = ground arith
  main_turn-IsEnding m (Accepted.client fd has_memory thread_made) h e = ground arith

  broadcaster_turn_main : (h : Host) → SameMain h (broadcaster_turn env h)
  unfolding broadcaster_turn
  broadcaster_turn_main h = ground arith

  run_turns-IsEnding :
      (turns : List Turn) (m : ℕ) (h : Host)
      → IsEnding m h
      → IsEnding (m - accept_turns turns) (run_turns env turns h)
  unfolding run_turns take_turn
  run_turns-IsEnding [] m h e = record {
    not_running = e.not_running;
    main_left = omega (arith, e.main_left);
  }
  run_turns-IsEnding (Turn.accept_loop a ∷ turns) m h e =
      let rest =
        run_turns-IsEnding turns (m - 1) (main_turn env a h) (main_turn-IsEnding m a h e) in
      record { not_running = rest.not_running; main_left = omega (arith, rest.main_left) }
  run_turns-IsEnding (Turn.client_thread fd line ∷ turns) m h e =
      let (r, p) = client_turn_main fd line h in
      run_turns-IsEnding turns m _
        (record { not_running = rw r e.not_running; main_left = rw p e.main_left })
  run_turns-IsEnding (Turn.broadcaster ∷ turns) m h e =
      let (r, p) = broadcaster_turn_main h in
      run_turns-IsEnding turns m _
        (record { not_running = rw r e.not_running; main_left = rw p e.main_left })
  run_turns-IsEnding (Turn.signal ∷ turns) m h e =
      run_turns-IsEnding turns m _ (record { not_running = refl; main_left = e.main_left })

-- When a signal has been handled, the main thread is behind its loop, and `server_run` returns, once it has had two
-- turns, whatever connections come and whatever the other threads do.
pub signal_lem :
    (env : Env) (turns : List Turn) (h : Host)
    → 2 ≤ accept_turns turns
    → (run_turns env (Turn.signal ∷ turns) h).main ≡ AcceptPlace.left
unfolding run_turns take_turn
signal_lem env turns h k =
    let stopped : Host = record h { running = false } in
    let start : IsEnding 2 stopped = record { not_running = refl; main_left = ground arith } in
    let end = run_turns-IsEnding env turns 2 stopped start in
    let rank : main_rank (run_turns env turns stopped).main ≤ 0 = omega (arith, end.main_left) in
    ground arith
