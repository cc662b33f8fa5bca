-- ===== src/Server/Session/Registered.antt =====
-- What the thread of a client in src/server/server.c does to the registry of
-- src/server/client_registry.c.
use ai_chatbot.Base.{
  ℕ, suc, ◌≡◌, ◌∙◌, refl, Bool, true, false, List, [], ◌∷◌, ◌++◌, Option, none, some, arith,
  Option-cases, Bool-cases, inl, inr, take,
}
use ai_chatbot.Text.{Bytes, is_empty}
use ai_chatbot.Status.{Status, is_ok}
use ai_chatbot.Registry.{Registry, registry_remove}
use ai_chatbot.Rooms.{default_room}
use ai_chatbot.Auth.{auth_is_admin}
use ai_chatbot.Protocol.Client.{ClientCmd, parse_client_line}
use ai_chatbot.Server.State.{Env, Effect, Server}
use ai_chatbot.Server.Commands.{cmd_handle_auth, cmd_disconnect_client, announce_leave}
use ai_chatbot.Server.Reply.{enqueue_room_event}
use ai_chatbot.Server.Commands.Keep.{
  send_keep, msg_keep, pm_keep, list_keep, history_keep, kick_keep,
}
use ai_chatbot.Server.Session.{
  Session, new_session, conn_track_decrement, disconnect_client, run_command, log_in, session_step,
  client_loop, client_handler, go_on,
}
use ai_chatbot.Server.Commands.Enter.{
  auth_registry, Entered, add-Entered, remove-Entered, join_room-Entered,
}

record LoggedIn (fd : ℕ) (name : Bytes) (reg reg' : Registry) : Type 0 where
  named : is_empty name ≡ false
  here : Entered fd reg reg'

auth-LoggedIn :
    (env : Env) (fd : ℕ) (name password : Bytes) (s : Server)
    → let (rc, s') = cmd_handle_auth env fd name password s in
      (is_ok rc ≡ true → LoggedIn fd name s.registry s'.registry)
      × (is_ok rc ≡ false → s'.registry ≡ s.registry)
auth-LoggedIn env fd name password s =
    let (entry, failed) = auth_registry env fd name password s in
    let (ins, kept) =
      add-Entered (env.alloc s.tick) (env.spill (suc s.tick)) s.registry fd name default_room
        (auth_is_admin s.users name) in
    ((λ e. let (n, ok, same, _) = entry e in record { named = n; here = rw same (ins ok) }), failed)

-- What the registry is while the thread runs: as before, or with the user in front.
abbrev Held : ℕ → Session → Registry → Registry → Type 0
Held fd session reg reg' =
    (session.authenticated ≡ true → LoggedIn fd session.username reg reg')
    × (session.authenticated ≡ false → reg' ≡ reg)

command-Entered :
    (env : Env) (fd : ℕ) (c : ClientCmd) (arg1 arg2 : Bytes) (reg : Registry) (s : Server)
    → Entered fd reg s.registry
    → Entered fd reg (run_command env fd c arg1 arg2 s).1.registry
unfolding run_command
command-Entered env fd ClientCmd.unknown arg1 arg2 reg s h = rw (send_keep env fd _ s) h
command-Entered env fd ClientCmd.auth arg1 arg2 reg s h = rw (send_keep env fd _ s) h
command-Entered env fd ClientCmd.join_room arg1 arg2 reg s h = join_room-Entered env fd arg1 reg s h
command-Entered env fd ClientCmd.msg arg1 arg2 reg s h = rw (msg_keep env fd arg2 s) h
command-Entered env fd ClientCmd.pm arg1 arg2 reg s h = rw (pm_keep env fd arg1 arg2 s) h
command-Entered env fd ClientCmd.list arg1 arg2 reg s h = rw (list_keep env fd s) h
command-Entered env fd ClientCmd.history arg1 arg2 reg s h = rw (history_keep env fd s) h
command-Entered env fd ClientCmd.kick arg1 arg2 reg s h = rw (kick_keep env fd arg1 s) h
command-Entered env fd ClientCmd.quit arg1 arg2 reg s h = h

-- The session with which the loop goes on, or with which it is left.
abbrev next : Session → Option Session → Session
next session none = session
next session (some session') = session'

next-go_on : (session : Session) (rc : Option Status) → next session (go_on session rc) ≡ session
next-go_on session none = refl
next-go_on session (some rc) = ground arith

-- A command, and a reply that refuses the line, leave the two variables of the thread alone.
same-Held :
    (fd : ℕ) (session : Session) (reg reg' : Registry) (rc : Option Status)
    → Held fd session reg reg'
    → Held fd (next session (go_on session rc)) reg reg'
same-Held fd session reg reg' rc h = rw (next-go_on session rc) h

is_empty-take : (name : Bytes) → is_empty name ≡ false → is_empty (take 31 name) ≡ false
is_empty-take name h = ground arith

log_in-Held :
    (env : Env) (fd : ℕ) (session : Session) (c : ClientCmd) (arg1 arg2 : Bytes) (s : Server)
    → session.authenticated ≡ false
    → let (o, s') = log_in env fd session c arg1 arg2 s in
      Held fd (next session o) s.registry s'.registry
unfolding log_in
log_in-Held env fd session ClientCmd.auth arg1 arg2 s h =
    let (entry, failed) = auth-LoggedIn env fd arg1 arg2 s in
    elim (Bool-cases (is_ok (cmd_handle_auth env fd arg1 arg2 s).0)) [
      | inl ok ↦ rw ok (
        (λ _. let l = entry ok in record { named = is_empty-take arg1 l.named; here = l.here }),
        (λ e. cc),
      )
      | inr bad ↦ rw bad ((λ e. cc), (λ _. failed bad))
    ]
log_in-Held env fd session c arg1 arg2 s h =
    same-Held fd session s.registry _ (some _) ((λ e. cc), (λ _. send_keep env fd _ s))

session_step-Held :
    (env : Env) (fd : ℕ) (a : Bool) (name line : Bytes) (reg : Registry) (s : Server)
    → let session : Session = record { authenticated = a; username = name } in
      Held fd session reg s.registry
      → let (o, s') = session_step env fd session line s in Held fd (next session o) reg s'.registry
unfolding session_step
session_step-Held env fd false name line reg s h =
    let session : Session = record { authenticated = false; username = name } in
    let (status, c) = parse_client_line line in
    elim (Bool-cases (is_ok status)) [
      | inr bad ↦ rw bad (same-Held fd session reg _ (some _) (rw (send_keep env fd _ s) h))
      | inl ok ↦ rw ok (rw (← h.1 refl) (log_in-Held env fd session c.cmd c.arg1 c.arg2 s refl))
    ]
session_step-Held env fd true name line reg s h =
    let session : Session = record { authenticated = true; username = name } in
    let (status, c) = parse_client_line line in
    elim (Bool-cases (is_ok status)) [
      | inr bad ↦ rw bad (same-Held fd session reg _ (some _) (rw (send_keep env fd _ s) h))
      | inl ok ↦
          let l = h.0 refl in
          let here = command-Entered env fd c.cmd c.arg1 c.arg2 reg s l.here in
          let (rc, s') = run_command env fd c.cmd c.arg1 c.arg2 s in
          rw ok (
            same-Held fd session reg s'.registry rc
              ((λ _. record { named = l.named; here = here }), (λ e. cc)))
    ]

-- One round of the loop, by what comes of the line.
client_loop_step :
    (env : Env) (fd : ℕ) (session : Session) (line : Bytes) (lines : List Bytes) (s : Server)
    → let (o, s') = session_step env fd session line (record s { tick = suc s.tick }) in
      let after = client_loop env fd session (line ∷ lines) s in
      (env.running s.tick ≡ true → o ≡ none → after ≡ (session, s'))
      × ((session' : Session)
          → env.running s.tick ≡ true
          → o ≡ some session'
          → after ≡ client_loop env fd session' lines s')
unfolding client_loop
client_loop_step env fd session line lines s = (ground arith, λ session'. ground arith)

client_loop-Held :
    (env : Env) (fd : ℕ) (session : Session) (lines : List Bytes) (reg : Registry) (s : Server)
    → Held fd session reg s.registry
    → let (session', s') = client_loop env fd session lines s in Held fd session' reg s'.registry
unfolding client_loop
client_loop-Held env fd session [] reg s h = h
client_loop-Held env fd session (line ∷ lines) reg s h =
    let s1 : Server = record s { tick = suc s.tick } in
    let (o, s') = session_step env fd session line s1 in
    let step : Held fd (next session o) reg s'.registry =
      session_step-Held env fd session.authenticated session.username line reg s1 h in
    let (left, again) = client_loop_step env fd session line lines s in
    elim (Bool-cases (env.running s.tick)) [
      | inr stop ↦ rw stop h
      | inl run ↦ elim (Option-cases o) [
        | inl over ↦ rw (left run over) (rw over at step)
        | inr (session', more) ↦
            rw (again session' run more)
              (client_loop-Held env fd session' lines reg s' (rw more at step))
      ]
    ]

pub disconnect_registry :
    (env : Env) (fd : ℕ) (session : Session) (s : Server)
    → let s' = (disconnect_client env fd session s).1 in
      (session.authenticated ≡ true
        → is_empty session.username ≡ false
        → s'.registry ≡ (registry_remove s.registry fd).1)
      × (session.authenticated ≡ false → s'.registry ≡ s.registry)
unfolding disconnect_client conn_track_decrement cmd_disconnect_client announce_leave
    enqueue_room_event
disconnect_registry env fd session s = ground arith

disconnect_effects :
    (env : Env) (fd : ℕ) (session : Session) (s : Server)
    → (disconnect_client env fd session s).1.effects ≡ s.effects ++ Effect.closed fd ∷ []
unfolding disconnect_client conn_track_decrement cmd_disconnect_client announce_leave
    enqueue_room_event
disconnect_effects env fd session s = ground arith

disconnect-Held :
    (env : Env) (fd : ℕ) (session : Session) (reg : Registry) (s : Server)
    → Held fd session reg s.registry
    → (disconnect_client env fd session s).1.registry ≡ reg
disconnect-Held env fd session reg s h =
    let (on, off) = disconnect_registry env fd session s in
    elim (Bool-cases session.authenticated) [
      | inr out ↦ off out ∙ h.1 out
      | inl in_ ↦ let l = h.0 in_ in on in_ l.named ∙ remove-Entered fd reg s.registry l.here
    ]

-- Whatever lines a client sends and whatever fails, a run of the thread of a client that no other
-- thread interrupts ends, leaves the registry exactly as it found it, and closes the descriptor last.
pub client_handler_lem :
    (env : Env) (fd : ℕ) (lines : List Bytes) (s : Server)
    → let s' = (client_handler env fd lines s).1 in
      (s'.registry ≡ s.registry)
      × ((before : List Effect) × (s'.effects ≡ before ++ Effect.closed fd ∷ []))
unfolding client_handler
client_handler_lem env fd lines s =
    let (session, s') = client_loop env fd new_session lines s in
    let held : Held fd session s.registry s'.registry =
      client_loop-Held env fd new_session lines s.registry s ((λ e. cc), (λ _. refl)) in
    (
      disconnect-Held env fd session s.registry s' held,
      (s'.effects, disconnect_effects env fd session s'),
    )
