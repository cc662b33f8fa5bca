-- ===== src/Server/Accept/Quiet.antt =====
-- The handlers of src/server/commands.c and the broadcaster close no descriptor: only the functions of
-- src/server/server.c do.
use ai_chatbot.Base.{
  ◌+◌, ◌++◌, ◌==◌, ◌∙◌, if◌then◌else◌, Bool-cases, inl, inr, ℕ, ◌≡◌, refl, List, [], ◌∷◌, arith,
}
use ai_chatbot.Text.{Bytes}
use ai_chatbot.Registry.{Node, registry_foreach, foreach_loop}
use ai_chatbot.Queue.{EventType, Message}
use ai_chatbot.Protocol.Client.{ClientCmd}
use ai_chatbot.Server.State.{Env, Effect, Server, Action}
use ai_chatbot.Server.Commands.{
  welcome, cmd_handle_auth, change_room, cmd_handle_join_room, chat_event, publish, cmd_handle_msg,
  deliver_pm, cmd_handle_pm, cmd_handle_list, cmd_handle_history, kick_out, cmd_handle_kick,
}
use ai_chatbot.Server.Reply.{cmd_send_response, enqueue_room_event, room_history_send_to_client}
use ai_chatbot.Server.Session.{Session, run_command, log_in, session_step}
use ai_chatbot.Server.Broadcast.{
  send_to_client, broadcast_line_to_room, broadcast_event, handle_message, broadcaster_thread,
}

-- How often a descriptor was closed.
abbrev pub closings : ℕ → List Effect → ℕ
closings fd [] = 0
closings fd (Effect.closed k ∷ es) = (if k == fd then 1 else 0) + closings fd es
closings fd (_ ∷ es) = closings fd es

pub closings-append :
    (fd : ℕ) (xs ys : List Effect) → closings fd (xs ++ ys) ≡ closings fd xs + closings fd ys
closings-append fd [] ys = omega arith
closings-append fd (Effect.closed k ∷ xs) ys = omega (arith, closings-append fd xs ys)
closings-append fd (Effect.sent k l ∷ xs) ys = closings-append fd xs ys
closings-append fd (Effect.lost k l ∷ xs) ys = closings-append fd xs ys
closings-append fd (Effect.shut k ∷ xs) ys = closings-append fd xs ys

abbrev pub closed_by : ℕ → Server → ℕ
closed_by fd s = closings fd s.effects

-- The action closes nothing.
abbrev pub Quiet : {A : Type 0} → Action A → Type 0
Quiet act = (fd : ℕ) (s : Server) → closed_by fd (act s).1 ≡ closed_by fd s

module _ (env : Env) where
  pub send-Quiet : (fd : ℕ) (line : Bytes) → Quiet (cmd_send_response env fd line)
  unfolding cmd_send_response
  send-Quiet fd line k s = elim (Bool-cases (env.accepts s.tick fd line)) [
    | inl arrived ↦
        rw arrived (closings-append k s.effects (Effect.sent fd line ∷ []) ∙ omega arith)
    | inr gone ↦ rw gone (closings-append k s.effects (Effect.lost fd line ∷ []) ∙ omega arith)
  ]

  pub event-Quiet : (t : EventType) (name room : Bytes) → Quiet (enqueue_room_event env t name room)
  unfolding enqueue_room_event
  event-Quiet t name room k s = ground arith

  send_history-Quiet : (room : Bytes) (fd : ℕ) → Quiet (room_history_send_to_client env room fd)
  unfolding room_history_send_to_client
  send_history-Quiet room fd k s = grind (arith, send-Quiet)

  publish-Quiet : (fd : ℕ) (name room content : Bytes) → Quiet (publish env fd name room content)
  unfolding publish chat_event
  publish-Quiet fd name room content k s = grind (arith, send-Quiet)

  welcome-Quiet : (fd : ℕ) (name : Bytes) → Quiet (welcome env fd name)
  unfolding welcome
  welcome-Quiet fd name k s = grind (arith, send-Quiet, event-Quiet, send_history-Quiet)

  auth-Quiet : (fd : ℕ) (name password : Bytes) → Quiet (cmd_handle_auth env fd name password)
  unfolding cmd_handle_auth
  auth-Quiet fd name password k s = grind (arith, send-Quiet, welcome-Quiet)

  change_room-Quiet : (fd : ℕ) (name old room : Bytes) → Quiet (change_room env fd name old room)
  unfolding change_room
  change_room-Quiet fd name old room k s =
      grind (arith, send-Quiet, event-Quiet, send_history-Quiet)

  join-Quiet : (fd : ℕ) (room : Bytes) → Quiet (cmd_handle_join_room env fd room)
  unfolding cmd_handle_join_room
  join-Quiet fd room k s = grind (arith, send-Quiet, change_room-Quiet)

  pm-Quiet : (fd : ℕ) (target text : Bytes) → Quiet (cmd_handle_pm env fd target text)
  unfolding cmd_handle_pm deliver_pm
  pm-Quiet fd target text k s = grind (arith, send-Quiet)

  kick-Quiet : (fd : ℕ) (target : Bytes) → Quiet (cmd_handle_kick env fd target)
  unfolding cmd_handle_kick kick_out
  kick-Quiet fd target k s = grind (arith, send-Quiet, closings-append)

  run_command-Quiet :
      (fd : ℕ) (c : ClientCmd) (arg1 arg2 : Bytes) → Quiet (run_command env fd c arg1 arg2)
  unfolding run_command cmd_handle_msg cmd_handle_list cmd_handle_history
  run_command-Quiet fd ClientCmd.unknown arg1 arg2 k s = send-Quiet fd _ k s
  run_command-Quiet fd ClientCmd.auth arg1 arg2 k s = send-Quiet fd _ k s
  run_command-Quiet fd ClientCmd.join_room arg1 arg2 k s = join-Quiet fd arg1 k s
  run_command-Quiet fd ClientCmd.msg arg1 arg2 k s = grind (arith, send-Quiet, publish-Quiet)
  run_command-Quiet fd ClientCmd.pm arg1 arg2 k s = pm-Quiet fd arg1 arg2 k s
  run_command-Quiet fd ClientCmd.list arg1 arg2 k s = grind (arith, send-Quiet)
  run_command-Quiet fd ClientCmd.history arg1 arg2 k s =
      grind (arith, send-Quiet, send_history-Quiet)
  run_command-Quiet fd ClientCmd.kick arg1 arg2 k s = kick-Quiet fd arg1 k s
  run_command-Quiet fd ClientCmd.quit arg1 arg2 k s = refl

  log_in-Quiet :
      (fd : ℕ) (session : Session) (c : ClientCmd) (arg1 arg2 : Bytes)
      → Quiet (log_in env fd session c arg1 arg2)
  unfolding log_in
  log_in-Quiet fd session ClientCmd.auth arg1 arg2 k s = auth-Quiet fd arg1 arg2 k s
  log_in-Quiet fd session c arg1 arg2 k s = send-Quiet fd _ k s

  pub session_step-Quiet :
      (fd : ℕ) (session : Session) (line : Bytes) → Quiet (session_step env fd session line)
  unfolding session_step
  session_step-Quiet fd session line k s =
      grind (arith, send-Quiet, run_command-Quiet, log_in-Quiet)

  send_to_client-Quiet : (room line : Bytes) (n : Node) → Quiet (send_to_client env room line n)
  unfolding send_to_client
  send_to_client-Quiet room line n k s = grind (arith, send-Quiet)

  foreach-Quiet :
      (room line : Bytes) (ns : List Node) → Quiet (foreach_loop (send_to_client env room line) ns)
  unfolding foreach_loop
  foreach-Quiet room line [] k s = refl
  foreach-Quiet room line (n ∷ ns) k s = ground (
    arith,
    send_to_client-Quiet room line n k s,
    foreach-Quiet room line ns k (send_to_client env room line n s).1,
  )

  broadcast_event-Quiet :
      (t : EventType) (msg : Message) (ts : Bytes) → Quiet (broadcast_event env t msg ts)
  unfolding broadcast_event broadcast_line_to_room registry_foreach
  broadcast_event-Quiet t msg ts k s = grind (arith, foreach-Quiet)

  handle_message-Quiet : (msg : Message) → Quiet (handle_message env msg)
  unfolding handle_message
  handle_message-Quiet msg k s = grind (arith, broadcast_event-Quiet)

  pub broadcaster-Quiet : Quiet (broadcaster_thread env 1)
  unfolding broadcaster_thread
  broadcaster-Quiet k s = grind (arith, handle_message-Quiet)
