-- ===== src/Server/Broadcast.antt =====
-- src/server/broadcaster.c: the thread that sends the queued events to the users of a room.
pub mod Fanout
pub mod Drain
pub mod Ends
use ai_chatbot.Base.{ℕ, zero, suc, Bool, true, false, some, if◌then◌else◌, not}
use ai_chatbot.Text.{Bytes, str_eq}
use ai_chatbot.Status.{Status, is_ok, max_line_len, timestamp_len}
use ai_chatbot.Clock.{format_timestamp}
use ai_chatbot.Registry.{Node, registry_foreach}
use ai_chatbot.Queue.{EventType, Message, Popped}
use ai_chatbot.Queue.Fifo.{pop_fifo}
use ai_chatbot.Protocol.Server.{
  build_server_broadcast, build_server_user_join, build_server_user_left,
}
use ai_chatbot.Server.State.{Env, Server, Action, pure, gets, ask, ◌>>=◌, ◌>>◌, on_queue}
use ai_chatbot.Server.Reply.{cmd_send_response}

-- How a run of the thread ends: it left the loop, it waits in `mq_pop`, or the rounds were used up.
pub data Ended : Type 0 where
  left waiting out_of_rounds : Ended

abbrev pub is_shutdown : EventType → Bool
is_shutdown EventType.shutdown = true
is_shutdown _ = false

module _ (env : Env) where
  unfoldable pub send_to_client : Bytes → Bytes → Node → Action Status
  send_to_client room line node = if not (str_eq node.room room) then pure Status.ok else do
    rc ← cmd_send_response env node.sockfd line
    pure (if not (is_ok rc) then Status.io else Status.ok)

  unfoldable pub broadcast_line_to_room : Bytes → Bytes → Action Status
  broadcast_line_to_room room line s = registry_foreach (send_to_client room line) s.registry s

  -- A line that was built in full is broadcast.
  abbrev pub broadcast_built : Bytes → Status × Bytes → Action Status
  broadcast_built room built =
      if is_ok built.0 then broadcast_line_to_room room built.1 else pure Status.ok

  -- The `switch` on the type of the event.
  unfoldable pub broadcast_event : EventType → Message → Bytes → Action Status
  broadcast_event EventType.chat msg ts =
      broadcast_built msg.room
        (build_server_broadcast max_line_len msg.username ts msg.room msg.content)
  broadcast_event EventType.join msg ts =
      broadcast_built msg.room (build_server_user_join max_line_len msg.username msg.room)
  broadcast_event EventType.room_join msg ts =
      broadcast_built msg.room (build_server_user_join max_line_len msg.username msg.room)
  broadcast_event EventType.leave msg ts =
      broadcast_built msg.room (build_server_user_left max_line_len msg.username msg.room)
  broadcast_event EventType.room_leave msg ts =
      broadcast_built msg.room (build_server_user_left max_line_len msg.username msg.room)
  broadcast_event EventType.shutdown msg ts = pure Status.ok

  -- What is done with the message that was popped; false where the loop is left.
  unfoldable pub handle_message : Message → Action Bool
  handle_message msg = if is_shutdown msg.type then pure false else do
    broadcast_event msg.type msg (format_timestamp env.localtime msg.timestamp timestamp_len)
    pure true

  -- The loop, for a number of rounds; a pop that waits ends the run.
  unfoldable pub broadcaster_thread : ℕ → Action Ended
  broadcaster_thread zero = pure Ended.out_of_rounds
  broadcaster_thread (suc rounds) = do
    running ← ask env.running
    if not running then pure Ended.left else do
      popped ← on_queue pop_fifo
      elim popped [
        | Popped.wait ↦ pure Ended.waiting
        | Popped.fail ↦ pure Ended.left
        | Popped.got msg ↦ do
          more ← handle_message msg
          elim more [ false ↦ pure Ended.left | true ↦ broadcaster_thread rounds ]
      ]
