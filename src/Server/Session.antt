-- ===== src/Server/Session.antt =====
-- src/server/server.c: the counter of connections, and the thread of one client. The lines are what
-- `server_recv_line` gives; behind the last one it fails.
pub mod Locked
pub mod Registered
use ai_chatbot.Base.{
  ℕ, ◌-◌, ◌+◌, Bool, true, false, List, [], ◌∷◌, Option, none, some, if◌then◌else◌, not, leb, ltb,
}
use ai_chatbot.Text.{Bytes, codes, strncpy}
use ai_chatbot.Status.{Status, is_ok, max_clients, max_username_len, max_line_len}
use ai_chatbot.Protocol.Client.{ClientCmd, ParsedCmd, parse_client_line}
use ai_chatbot.Server.State.{Env, Server, Action, pure, gets, ask, ◌>>=◌, ◌>>◌}
use ai_chatbot.Server.Commands.{
  cmd_handle_auth, cmd_handle_join_room, cmd_handle_msg, cmd_handle_pm, cmd_handle_list,
  cmd_handle_history, cmd_handle_kick, cmd_disconnect_client,
}
use ai_chatbot.Server.Reply.{reply_err}

unfoldable pub conn_track_increment : Action (Unit {0})
conn_track_increment s = (tt, record s { active_connections = s.active_connections + 1 })

unfoldable pub conn_track_decrement : Action (Unit {0})
conn_track_decrement s =
    if ltb 0 s.active_connections
    then (tt, record s { active_connections = s.active_connections - 1 })
    else (tt, s)

unfoldable pub conn_at_capacity : Action Bool
conn_at_capacity = gets (λ s. leb max_clients s.active_connections)

-- The variables `authenticated` and `username` of the thread.
pub record Session : Type 0 where
  pub authenticated : Bool
  pub username : Bytes

abbrev pub new_session : Session
new_session = record { authenticated = false; username = [] }

-- `none` where the loop is left.
abbrev pub go_on : Session → Option Status → Option Session
go_on session none = none
go_on session (some rc) = if is_ok rc then some session else none

module _ (env : Env) where
  unfoldable pub disconnect_client : ℕ → Session → Action (Unit {0})
  disconnect_client fd session = do
    cmd_disconnect_client env fd session.username session.authenticated
    conn_track_decrement

  -- The `switch` on the command of an authenticated client; `none` where the code goes to `done`.
  unfoldable pub run_command : ℕ → ClientCmd → Bytes → Bytes → Action (Option Status)
  run_command fd ClientCmd.join_room arg1 arg2 = do
    rc ← cmd_handle_join_room env fd arg1
    pure (some rc)
  run_command fd ClientCmd.msg arg1 arg2 = do rc ← cmd_handle_msg env fd arg2; pure (some rc)
  run_command fd ClientCmd.pm arg1 arg2 = do rc ← cmd_handle_pm env fd arg1 arg2; pure (some rc)
  run_command fd ClientCmd.list arg1 arg2 = do rc ← cmd_handle_list env fd; pure (some rc)
  run_command fd ClientCmd.history arg1 arg2 = do rc ← cmd_handle_history env fd; pure (some rc)
  run_command fd ClientCmd.kick arg1 arg2 = do rc ← cmd_handle_kick env fd arg1; pure (some rc)
  run_command fd ClientCmd.quit arg1 arg2 = pure none
  run_command fd _ arg1 arg2 = do rc ← reply_err env fd (codes "unknown command"); pure (some rc)

  -- The branch `if (!authenticated)`.
  unfoldable pub log_in : ℕ → Session → ClientCmd → Bytes → Bytes → Action (Option Session)
  log_in fd session ClientCmd.auth arg1 arg2 = do
    rc ← cmd_handle_auth env fd arg1 arg2
    pure (
        go_on (record { authenticated = true; username = strncpy (max_username_len - 1) arg1 })
          (some rc))
  log_in fd session _ arg1 arg2 = do
    rc ← reply_err env fd (codes "authentication required: AUTH user pass")
    pure (go_on session (some rc))

  -- One round of the loop, on the line received.
  unfoldable pub session_step : ℕ → Session → Bytes → Action (Option Session)
  session_step fd session line =
      let (status, cmd) = parse_client_line line in
      if not (is_ok status)
      then (do rc ← reply_err env fd (codes "invalid command"); pure (go_on session (some rc)))
      else if not session.authenticated
      then log_in fd session cmd.cmd cmd.arg1 cmd.arg2
      else (do rc ← run_command fd cmd.cmd cmd.arg1 cmd.arg2; pure (go_on session rc))

  -- The session as the loop leaves it.
  unfoldable pub client_loop : ℕ → Session → List Bytes → Action Session
  client_loop fd session [] = do ask env.running; pure session
  client_loop fd session (line ∷ lines) = do
    running ← ask env.running
    if not running then pure session else do
      next ← session_step fd session line
      elim next [ none ↦ pure session | some session' ↦ client_loop fd session' lines ]

  unfoldable pub client_handler : ℕ → List Bytes → Action (Unit {0})
  client_handler fd lines = do
    session ← client_loop fd new_session lines
    disconnect_client fd session
