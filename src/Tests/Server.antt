-- ===== src/Tests/Server.antt =====
-- The handlers and the threads of src/server.
use ai_chatbot.Base.{ℕ, ◌≡◌, ◌≢◌, ◌<◌, refl, true, false, List, [], ◌∷◌, ◌++◌, none, arith}
use ai_chatbot.Text.{Bytes, codes, str_eq, strchr}
use ai_chatbot.Status.{Status, is_ok, max_clients}
use ai_chatbot.Auth.{auth_verify, auth_is_admin}
use ai_chatbot.Queue.{EventType}
use ai_chatbot.Registry.{
  find_fd, find_name, registry_get_username, registry_get_room, registry_get_sockfd_by_username,
  registry_username_exists,
}
use ai_chatbot.Registry.Find.{Added}
use ai_chatbot.Rooms.{default_room}
use ai_chatbot.Protocol.Fields.{split_first_token}
use ai_chatbot.Protocol.Client.{ClientCmd, parse_client_line, dispatch_client}
use ai_chatbot.Server.State.{Effect}
use ai_chatbot.Server.Commands.{
  cmd_handle_auth, cmd_handle_msg, cmd_handle_kick, cmd_handle_join_room,
}
use ai_chatbot.Server.Commands.Login.{cmd_handle_auth_lem}
use ai_chatbot.Server.Commands.Deliver.{Present, chat_message, entry, cmd_handle_msg_lem}
use ai_chatbot.Server.Commands.Private.{MayWrite}
use ai_chatbot.Rooms.Ring.{push_bounded}
use ai_chatbot.Rooms.Update.{history_of, IsValid}
use ai_chatbot.Clock.{format_timestamp}
use ai_chatbot.Base.{inl, if◌then◌else◌}
use ai_chatbot.Server.Commands.Move.{event, cmd_handle_join_room_lem}
use ai_chatbot.Server.Commands.Kick.{shuts, MayKick, cmd_handle_kick_lem}
use ai_chatbot.Server.Session.{new_session, session_step, client_handler}
use ai_chatbot.Server.Session.Locked.{Same, session_step-Same}
use ai_chatbot.Server.Session.Registered.{client_handler_lem}
use ai_chatbot.Tests.Data.{alice, bob, carol, lobby, den, hello, env_up, server, no_rooms}

pub alice-Present : Present server 4 alice lobby
unfolding registry_get_username registry_get_room find_fd
alice-Present = record { named = refl; placed = refl }

abbrev session : List Bytes
session = codes "AUTH carol ab" ∷ codes "MSG hello all" ∷ codes "KICK bob" ∷ codes "QUIT" ∷ []

client_handler_lem_example :
    ((client_handler env_up 9 session server).1.registry ≡ server.registry)
    × ((before : List Effect) × ((client_handler env_up 9 session server).1.effects
          ≡ before ++ Effect.closed 9 ∷ []))
client_handler_lem_example = client_handler_lem env_up 9 session server

cmd_handle_auth_lem_example :
    (is_ok (cmd_handle_auth env_up 9 carol (codes "ab") server).0 ≡ true
      → (auth_verify env_up.evp server.users carol (codes "ab") ≡ Status.ok)
        × (registry_username_exists server.registry carol ≡ false)
        × (2 < max_clients)
        × Added server.registry
            (cmd_handle_auth env_up 9 carol (codes "ab") server).1.registry
            9
            carol
            default_room
            (auth_is_admin server.users carol))
    × (is_ok (cmd_handle_auth env_up 9 carol (codes "ab") server).0 ≡ false
        → (cmd_handle_auth env_up 9 carol (codes "ab") server).1.registry ≡ server.registry)
cmd_handle_auth_lem_example = cmd_handle_auth_lem env_up 9 carol (codes "ab") server (omega arith)

no_rooms-IsValid : IsValid no_rooms
no_rooms-IsValid = record { counted = refl; bounded = omega arith; rings = tt }

cmd_handle_msg_lem_example :
    let s' = (cmd_handle_msg env_up 4 hello server).1 in
    ((r : Bytes)
      → history_of s'.rooms r ≡ (
          if str_eq lobby r
          then push_bounded
              (entry alice hello (format_timestamp (λ t. none) 1700000000 32))
              (history_of no_rooms r)
          else history_of no_rooms r))
    × (s'.broadcast_queue.items ≡ chat_message alice lobby hello 1700000000 ∷ [])
cmd_handle_msg_lem_example =
    cmd_handle_msg_lem env_up 4 alice lobby hello server alice-Present no_rooms-IsValid
      (inl (omega arith)) refl (omega arith) (omega arith) (omega arith) refl (λ t. refl)

pub alice_to_bob : MayWrite server 4 alice bob 5
unfolding registry_get_username find_fd registry_get_sockfd_by_username find_name str_eq
alice_to_bob = record { named = refl; given = refl; other = λ e. cc; online = refl }

cmd_handle_join_room_lem_example :
    Present (cmd_handle_join_room env_up 4 den server).1 4 alice den
    × ((t1 t2 : ℕ) × ((cmd_handle_join_room env_up 4 den server).1.broadcast_queue.items
          ≡ event EventType.leave alice lobby (env_up.now t1)
            ∷ event EventType.join alice den (env_up.now t2)
            ∷ []))
cmd_handle_join_room_lem_example =
    cmd_handle_join_room_lem env_up 4 alice lobby den server alice-Present refl (λ e. cc)
      (omega arith) (omega arith) (omega arith) refl (λ t. refl)

cmd_handle_kick_lem_example :
    ((to_fd : ℕ)
      → MayKick server 4 bob to_fd
      → shuts (cmd_handle_kick env_up 4 bob server).1.effects ≡ to_fd ∷ [])
    × (((to_fd : ℕ) → ¬ MayKick server 4 bob to_fd)
        → shuts (cmd_handle_kick env_up 4 bob server).1.effects ≡ [])
cmd_handle_kick_lem_example = cmd_handle_kick_lem env_up 4 bob server

msg_before_auth : (parse_client_line (codes "MSG hello all")).1.cmd ≢ ClientCmd.auth
unfolding parse_client_line split_first_token dispatch_client strchr str_eq
msg_before_auth = λ e. cc

session_step-Same_example :
    Same server (session_step env_up 9 new_session (codes "MSG hello all") server).1
session_step-Same_example =
    session_step-Same env_up 9 new_session (codes "MSG hello all") server refl msg_before_auth
