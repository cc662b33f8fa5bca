-- ===== src/Server/Accept/Keep.antt =====
-- Only the counter's own functions of src/server/server.c change `active_connections`: the handlers of
-- src/server/commands.c and the broadcaster leave it alone.
use ai_chatbot.Base.{ℕ, suc, ◌≡◌, refl, List, [], ◌∷◌, arith}
use ai_chatbot.Text.{Bytes}
use ai_chatbot.Registry.{
  Node, registry_get_username, registry_get_room, registry_foreach, foreach_loop,
}
use ai_chatbot.Queue.{EventType, Message}
use ai_chatbot.Protocol.Client.{ClientCmd, parse_client_line}
use ai_chatbot.Server.State.{Env, Server, Action}
use ai_chatbot.Server.Commands.{
  welcome, cmd_handle_auth, change_room, cmd_handle_join_room, chat_event, publish, cmd_handle_msg,
  deliver_pm, cmd_handle_pm, cmd_handle_list, cmd_handle_history, kick_out, cmd_handle_kick,
}
use ai_chatbot.Server.Reply.{cmd_send_response, enqueue_room_event, room_history_send_to_client}
use ai_chatbot.Server.Commands.Enter.{insertion}
use ai_chatbot.Server.Session.{Session, run_command, log_in, session_step}
use ai_chatbot.Server.Broadcast.{
  send_to_client, broadcast_line_to_room, broadcast_event, handle_message, broadcaster_thread,
}

abbrev pub Counts : {A : Type 0} → Action A → Type 0
Counts act = (s : Server) → (act s).1.active_connections ≡ s.active_connections

module _ (env : Env) where
  send_history-Counts : (room : Bytes) (fd : ℕ) → Counts (room_history_send_to_client env room fd)
  unfolding room_history_send_to_client cmd_send_response
  send_history-Counts room fd s = ground arith

  publish-Counts : (fd : ℕ) (name room content : Bytes) → Counts (publish env fd name room content)
  unfolding publish chat_event cmd_send_response
  publish-Counts fd name room content s = ground arith

  welcome-Counts : (fd : ℕ) (name : Bytes) → Counts (welcome env fd name)
  unfolding welcome cmd_send_response enqueue_room_event room_history_send_to_client
  welcome-Counts fd name s = ground arith

  auth-Counts : (fd : ℕ) (name password : Bytes) → Counts (cmd_handle_auth env fd name password)
  unfolding cmd_handle_auth cmd_send_response
  auth-Counts fd name password s =
      let (added, reg') = insertion env fd name s in
      let w = welcome-Counts fd name (record s { registry = reg'; tick = suc (suc s.tick) }) in
      ground arith

  change_room-Counts : (fd : ℕ) (name old room : Bytes) → Counts (change_room env fd name old room)
  unfolding change_room cmd_send_response enqueue_room_event room_history_send_to_client
  change_room-Counts fd name old room s = ground arith

  join-Counts : (fd : ℕ) (room : Bytes) → Counts (cmd_handle_join_room env fd room)
  unfolding cmd_handle_join_room cmd_send_response
  join-Counts fd room s =
      let name = (registry_get_username s.registry fd 32).1 in
      let old = (registry_get_room s.registry fd 32).1 in
      let moved = change_room-Counts fd name old room s in ground arith

  run_command-Counts :
      (fd : ℕ) (c : ClientCmd) (arg1 arg2 : Bytes) → Counts (run_command env fd c arg1 arg2)
  unfolding run_command cmd_send_response cmd_handle_msg cmd_handle_pm deliver_pm cmd_handle_list
      cmd_handle_history cmd_handle_kick kick_out
  run_command-Counts fd ClientCmd.unknown arg1 arg2 s = refl
  run_command-Counts fd ClientCmd.auth arg1 arg2 s = refl
  run_command-Counts fd ClientCmd.join_room arg1 arg2 s = join-Counts fd arg1 s
  run_command-Counts fd ClientCmd.msg arg1 arg2 s = ground (
    arith,
    publish-Counts fd (registry_get_username s.registry fd 32).1
        (registry_get_room s.registry fd 32).1 arg2 s,
  )
  run_command-Counts fd ClientCmd.pm arg1 arg2 s = ground arith
  run_command-Counts fd ClientCmd.list arg1 arg2 s = ground arith
  run_command-Counts fd ClientCmd.history arg1 arg2 s = grind (arith, send_history-Counts)
  run_command-Counts fd ClientCmd.kick arg1 arg2 s = ground arith
  run_command-Counts fd ClientCmd.quit arg1 arg2 s = refl

  log_in-Counts :
      (fd : ℕ) (session : Session) (c : ClientCmd) (arg1 arg2 : Bytes)
      → Counts (log_in env fd session c arg1 arg2)
  unfolding log_in cmd_send_response
  log_in-Counts fd session ClientCmd.auth arg1 arg2 s = auth-Counts fd arg1 arg2 s
  log_in-Counts fd session c arg1 arg2 s = refl

  pub session_step-Counts :
      (fd : ℕ) (session : Session) (line : Bytes) → Counts (session_step env fd session line)
  unfolding session_step cmd_send_response
  session_step-Counts fd session line s =
      let c = (parse_client_line line).1 in
      let run = run_command-Counts fd c.cmd c.arg1 c.arg2 s in
      let entry = log_in-Counts fd session c.cmd c.arg1 c.arg2 s in ground arith

  send_to_client-Counts : (room line : Bytes) (n : Node) → Counts (send_to_client env room line n)
  unfolding send_to_client cmd_send_response
  send_to_client-Counts room line n s = ground arith

  foreach-Counts :
      (room line : Bytes) (ns : List Node) → Counts (foreach_loop (send_to_client env room line) ns)
  unfolding foreach_loop
  foreach-Counts room line [] s = refl
  foreach-Counts room line (n ∷ ns) s = ground (
    arith,
    send_to_client-Counts room line n s,
    foreach-Counts room line ns (send_to_client env room line n s).1,
  )

  broadcast_event-Counts :
      (t : EventType) (msg : Message) (ts : Bytes) → Counts (broadcast_event env t msg ts)
  unfolding broadcast_event broadcast_line_to_room registry_foreach
  broadcast_event-Counts t msg ts s = grind (arith, foreach-Counts)

  handle_message-Counts : (msg : Message) → Counts (handle_message env msg)
  unfolding handle_message
  handle_message-Counts msg s = grind (arith, broadcast_event-Counts)

  pub broadcaster-Counts : Counts (broadcaster_thread env 1)
  unfolding broadcaster_thread
  broadcaster-Counts s = grind (arith, handle_message-Counts)
