-- ===== src/Server/Commands.antt =====
-- src/server/commands.c: the handlers of the client commands.
pub mod Enter
pub mod Keep
pub mod Kick
pub mod Login
pub mod Deliver
pub mod Move
pub mod Private
use ai_chatbot.Base.{
  ℕ, ◌≡◌, Bool, true, false, ◌||◌, ◌&&◌, List, [], ◌∷◌, ◌++◌, ◌-◌, Option, none, some,
  if◌then◌else◌, not,
}
use ai_chatbot.Text.{Bytes, codes, str_eq, is_empty, strncpy_over}
use ai_chatbot.Status.{
  Status, is_ok, max_username_len, max_room_name_len, max_msg_len, max_line_len, timestamp_len,
}
use ai_chatbot.Clock.{format_timestamp}
use ai_chatbot.Auth.{auth_verify, auth_is_admin}
use ai_chatbot.Registry.{
  registry_username_exists, registry_add, registry_remove, registry_get_username, registry_get_room,
  registry_set_room, registry_is_admin, registry_get_sockfd_by_username, registry_build_user_list,
}
use ai_chatbot.Rooms.{default_room, room_history_add, room_history_line}
use ai_chatbot.Queue.{EventType, Message}
use ai_chatbot.Queue.Fifo.{Fifo, push_fifo}
use ai_chatbot.Protocol.Server.{
  build_server_err, build_server_ok, build_server_welcome, build_server_room_joined,
  build_server_pm, build_server_list, build_server_kicked,
}
use ai_chatbot.Server.Reply.{
  push_event, cmd_send_response, send_built, reply_err, reply_ok, enqueue_room_event,
  room_history_send_to_client,
}
use ai_chatbot.Server.State.{
  Env, Effect, Server, Action, pure, gets, ask, ◌>>=◌, ◌>>◌, emit, on_registry, on_rooms, on_queue,
}

module _ (env : Env) where
  -- The handler behind the registration of the user.
  unfoldable pub welcome : ℕ → Bytes → Action Status
  welcome fd username = do
    rc ← send_built env fd (build_server_welcome max_line_len username)
    if not (is_ok rc) then (do on_registry (λ r. registry_remove r fd); pure Status.io) else do
      send_built env fd (build_server_room_joined max_line_len default_room)
      room_history_send_to_client env default_room fd
      reply_ok env fd (codes "authenticated")
      enqueue_room_event env EventType.join username default_room
      pure Status.ok

  unfoldable pub cmd_handle_auth : ℕ → Bytes → Bytes → Action Status
  cmd_handle_auth fd username password =
      if is_empty username || is_empty password
      then (do reply_err env fd (codes "username and password required"); pure Status.auth)
      else do
        verified ← gets (λ s. auth_verify env.evp s.users username password)
        if not (is_ok verified)
            then (do reply_err env fd (codes "invalid credentials"); pure Status.auth)
            else do
              online ← gets (λ s. registry_username_exists s.registry username)
              if online
                  then (do reply_err env fd (codes "user already online"); pure Status.auth)
                  else do
                    admin ← gets (λ s. auth_is_admin s.users username)
                    mem ← ask env.alloc
                    spill ← ask env.spill
                    added ←
                        on_registry (λ r. registry_add mem spill r fd username default_room admin)
                    if not (is_ok added)
                        then (do reply_err env fd (codes "server full"); pure Status.auth)
                        else welcome fd username

  -- The move itself, behind the guards of `cmd_handle_join_room`.
  unfoldable pub change_room : ℕ → Bytes → Bytes → Bytes → Action Status
  change_room fd username old_room room = do
    enqueue_room_event env EventType.leave username old_room
    on_registry (λ r. registry_set_room r fd room)
    send_built env fd (build_server_room_joined max_line_len room)
    room_history_send_to_client env room fd
    enqueue_room_event env EventType.join username room
    reply_ok env fd (codes "room changed")

  unfoldable pub cmd_handle_join_room : ℕ → Bytes → Action Status
  cmd_handle_join_room fd room =
      if is_empty room then reply_err env fd (codes "room name required") else do
        named ← gets (λ s. registry_get_username s.registry fd max_username_len)
        if not (is_ok named.0) then reply_err env fd (codes "authenticate first") else do
          placed ← gets (λ s. registry_get_room s.registry fd max_room_name_len)
          if not (is_ok placed.0)
              then pure Status.err
              else if str_eq placed.1 room
              then reply_err env fd (codes "already in that room")
              else change_room fd named.1 placed.1 room

  -- The event of a message, on the stack like the others.
  unfoldable pub chat_event : Bytes → Bytes → Bytes → ℕ → Action Message
  chat_event username room content now = do
    name ← ask (λ t. strncpy_over (max_username_len - 1) (env.junk t) username)
    place ← ask (λ t. strncpy_over (max_room_name_len - 1) (env.junk t) room)
    text ← ask (λ t. strncpy_over (max_msg_len - 1) (env.junk t) content)
    pure (record {
      type = EventType.chat;
      username = name;
      room = place;
      content = text;
      timestamp = now;
    })

  -- The message itself, behind the guards of `cmd_handle_msg`.
  unfoldable pub publish : ℕ → Bytes → Bytes → Bytes → Action Status
  publish fd username room content = do
    now ← ask env.now
    room_mem ← ask env.alloc
    on_rooms (λ m. room_history_add env.localtime room_mem m room username content now)
    evt ← chat_event username room content now
    mem ← ask env.alloc
    pushed ← push_event mem evt
    if not (is_ok pushed)
        then reply_err env fd (codes "broadcast queue error")
        else reply_ok env fd (codes "message sent")

  unfoldable pub cmd_handle_msg : ℕ → Bytes → Action Status
  cmd_handle_msg fd content = do
    named ← gets (λ s. registry_get_username s.registry fd max_username_len)
    if not (is_ok named.0) then reply_err env fd (codes "authenticate first") else do
      placed ← gets (λ s. registry_get_room s.registry fd max_room_name_len)
      if not (is_ok placed.0)
          then pure Status.err
          else if is_empty content
          then reply_err env fd (codes "empty message")
          else publish fd named.1 placed.1 content

  -- The delivery, behind the guards of `cmd_handle_pm`.
  unfoldable pub deliver_pm : ℕ → ℕ → Bytes → Bytes → Action Status
  deliver_pm fd target_fd from content = do
    now ← ask env.now
    rc ← send_built env target_fd (
        build_server_pm max_line_len from (format_timestamp env.localtime now timestamp_len)
          content)
    if not (is_ok rc)
        then reply_err env fd (codes "failed to deliver PM")
        else reply_ok env fd (codes "PM delivered")

  unfoldable pub cmd_handle_pm : ℕ → Bytes → Bytes → Action Status
  cmd_handle_pm fd target content = do
    named ← gets (λ s. registry_get_username s.registry fd max_username_len)
    if not (is_ok named.0)
        then reply_err env fd (codes "authenticate first")
        else if is_empty target || is_empty content
        then reply_err env fd (codes "usage: PM user message")
        else if str_eq named.1 target
        then reply_err env fd (codes "cannot PM yourself")
        else do
          target_fd ← gets (λ s. registry_get_sockfd_by_username s.registry target)
          elim target_fd [
            | none ↦ reply_err env fd (codes "user not online")
            | some to_fd ↦ deliver_pm fd to_fd named.1 content
          ]

  unfoldable pub cmd_handle_list : ℕ → Action Status
  cmd_handle_list fd = do
    named ← gets (λ s. registry_get_username s.registry fd max_username_len)
    if not (is_ok named.0) then reply_err env fd (codes "authenticate first") else do
      users ← gets (λ s. registry_build_user_list s.registry max_msg_len)
      if not (is_ok users.0)
          then reply_err env fd (codes "failed to build user list")
          else send_built env fd (build_server_list max_line_len (some users.1))

  unfoldable pub cmd_handle_history : ℕ → Action Status
  cmd_handle_history fd = do
    named ← gets (λ s. registry_get_username s.registry fd max_username_len)
    if not (is_ok named.0) then reply_err env fd (codes "authenticate first") else do
      placed ← gets (λ s. registry_get_room s.registry fd max_room_name_len)
      if not (is_ok placed.0) then pure Status.err else do
        rc ← room_history_send_to_client env placed.1 fd
        if not (is_ok rc)
            then reply_err env fd (codes "history unavailable")
            else reply_ok env fd (codes "history sent")

  -- The removal itself, behind the guards of `cmd_handle_kick`.
  unfoldable pub kick_out : ℕ → ℕ → Action Status
  kick_out fd target_fd = do
    send_built env target_fd (build_server_kicked max_line_len (some (codes "kicked by admin")))
    emit (Effect.shut target_fd)
    reply_ok env fd (codes "user kicked")

  unfoldable pub cmd_handle_kick : ℕ → Bytes → Action Status
  cmd_handle_kick fd target = do
    admin ← gets (λ s. registry_is_admin s.registry fd)
    if not admin
        then reply_err env fd (codes "admin privileges required")
        else if is_empty target
        then reply_err env fd (codes "username required")
        else do
          named ← gets (λ s. registry_get_username s.registry fd max_username_len)
          if is_ok named.0 && str_eq named.1 target
              then reply_err env fd (codes "cannot kick yourself")
              else do
                target_fd ← gets (λ s. registry_get_sockfd_by_username s.registry target)
                elim target_fd [
                  | none ↦ reply_err env fd (codes "user not online")
                  | some to_fd ↦ kick_out fd to_fd
                ]

  -- Says that the user left the room, when the descriptor is registered.
  unfoldable pub announce_leave : ℕ → Bytes → Action Status
  announce_leave fd username = do
    placed ← gets (λ s. registry_get_room s.registry fd max_room_name_len)
    if is_ok placed.0
        then enqueue_room_event env EventType.leave username placed.1
        else pure placed.0

  unfoldable pub cmd_disconnect_client : ℕ → Bytes → Bool → Action (Unit {0})
  cmd_disconnect_client fd username authenticated =
      if authenticated && not (is_empty username)
      then (do
        announce_leave fd username
        on_registry (λ r. registry_remove r fd)
        emit (Effect.closed fd))
      else emit (Effect.closed fd)
