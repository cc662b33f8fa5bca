-- ===== src/Server/Commands/Keep.antt =====
-- Which of the handlers of src/server/commands.c leave the registry alone, and how the others
-- change it.
use ai_chatbot.Base.{ℕ, ◌≡◌, refl, Bool, arith}
use ai_chatbot.Text.{Bytes}
use ai_chatbot.Registry.{registry_get_username, registry_get_room}
use ai_chatbot.Queue.{EventType, Message}
use ai_chatbot.Server.State.{Env, Server}
use ai_chatbot.Server.Commands.{
  chat_event, publish, cmd_handle_msg, deliver_pm, cmd_handle_pm, cmd_handle_list,
  cmd_handle_history, kick_out, cmd_handle_kick,
}
use ai_chatbot.Server.Reply.{
  push_event, cmd_send_response, enqueue_room_event, room_history_send_to_client,
}

push_event_keep :
    (mem : Bool) (m : Message) (s : Server) → (push_event mem m s).1.registry ≡ s.registry
push_event_keep mem m s = refl

pub send_keep :
    (env : Env) (fd : ℕ) (line : Bytes) (s : Server)
    → (cmd_send_response env fd line s).1.registry ≡ s.registry
unfolding cmd_send_response
send_keep env fd line s = refl

pub enqueue_keep :
    (env : Env) (t : EventType) (name room : Bytes) (s : Server)
    → (enqueue_room_event env t name room s).1.registry ≡ s.registry
unfolding enqueue_room_event
enqueue_keep env t name room s = refl

pub send_history_keep :
    (env : Env) (room : Bytes) (fd : ℕ) (s : Server)
    → (room_history_send_to_client env room fd s).1.registry ≡ s.registry
unfolding room_history_send_to_client cmd_send_response
send_history_keep env room fd s = ground arith

publish_keep :
    (env : Env) (fd : ℕ) (name room content : Bytes) (s : Server)
    → (publish env fd name room content s).1.registry ≡ s.registry
unfolding publish chat_event cmd_send_response
publish_keep env fd name room content s = ground arith

pub msg_keep :
    (env : Env) (fd : ℕ) (content : Bytes) (s : Server)
    → (cmd_handle_msg env fd content s).1.registry ≡ s.registry
unfolding cmd_handle_msg cmd_send_response
msg_keep env fd content s = ground (
  arith,
  publish_keep env fd (registry_get_username s.registry fd 32).1
      (registry_get_room s.registry fd 32).1 content s,
)

pub pm_keep :
    (env : Env) (fd : ℕ) (target content : Bytes) (s : Server)
    → (cmd_handle_pm env fd target content s).1.registry ≡ s.registry
unfolding cmd_handle_pm deliver_pm cmd_send_response
pm_keep env fd target content s = ground arith

pub list_keep :
    (env : Env) (fd : ℕ) (s : Server) → (cmd_handle_list env fd s).1.registry ≡ s.registry
unfolding cmd_handle_list cmd_send_response
list_keep env fd s = ground arith

pub history_keep :
    (env : Env) (fd : ℕ) (s : Server) → (cmd_handle_history env fd s).1.registry ≡ s.registry
unfolding cmd_handle_history cmd_send_response
history_keep env fd s = grind (arith, send_history_keep)

pub kick_keep :
    (env : Env) (fd : ℕ) (target : Bytes) (s : Server)
    → (cmd_handle_kick env fd target s).1.registry ≡ s.registry
unfolding cmd_handle_kick kick_out cmd_send_response
kick_keep env fd target s = ground arith
