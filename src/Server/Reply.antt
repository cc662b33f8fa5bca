-- ===== src/Server/Reply.antt =====
-- The functions of src/server/commands.c that the handlers share, and
-- `room_history_send_to_client` of src/server/room_manager.c.
use ai_chatbot.Base.{ℕ, Bool, [], ◌-◌, none, some, if◌then◌else◌}
use ai_chatbot.Text.{Bytes, strncpy_over}
use ai_chatbot.Status.{Status, max_username_len, max_room_name_len, max_line_len}
use ai_chatbot.Rooms.{room_history_line}
use ai_chatbot.Queue.{EventType, Message}
use ai_chatbot.Queue.Fifo.{push_fifo}
use ai_chatbot.Protocol.Server.{build_server_err, build_server_ok}
use ai_chatbot.Server.State.{Env, Effect, Action, pure, gets, ask, ◌>>=◌, ◌>>◌, emit, on_queue}

-- `mq_push`, where `mem` says whether there is memory for the node.
abbrev pub push_event : Bool → Message → Action Status
push_event mem evt = on_queue λ q. if mem then push_fifo evt q else (Status.nomem, q)

module _ (env : Env) where
  unfoldable pub cmd_send_response : ℕ → Bytes → Action Status
  cmd_send_response fd line = do
    arrived ← ask (λ t. env.accepts t fd line)
    emit (if arrived then Effect.sent fd line else Effect.lost fd line)
    pure (if arrived then Status.ok else Status.io)

  -- A line is sent as it was built; the handlers do not look at the status of a builder.
  abbrev pub send_built : ℕ → Status × Bytes → Action Status
  send_built fd built = cmd_send_response fd built.1

  -- `protocol_build_server_err(line, sizeof(line), text); return cmd_send_response(fd, line);`
  abbrev pub reply_err : ℕ → Bytes → Action Status
  reply_err fd text = send_built fd (build_server_err max_line_len (some text))

  abbrev pub reply_ok : ℕ → Bytes → Action Status
  reply_ok fd text = send_built fd (build_server_ok max_line_len (some text))

  -- The event lies on the stack, and the copies set no NUL behind a text that fills its field.
  unfoldable pub enqueue_room_event : EventType → Bytes → Bytes → Action Status
  enqueue_room_event type username room = do
    name ← ask (λ t. strncpy_over (max_username_len - 1) (env.junk t) username)
    place ← ask (λ t. strncpy_over (max_room_name_len - 1) (env.junk t) room)
    now ← ask env.now
    mem ← ask env.alloc
    push_event mem
        (record { type = type; username = name; room = place; content = []; timestamp = now })

  -- `room_history_send_to_client` with `cmd_send_response` for its `send_fn`.
  unfoldable pub room_history_send_to_client : Bytes → ℕ → Action Status
  room_history_send_to_client room fd = do
    line ← gets (λ s. room_history_line s.rooms room)
    elim line [ none ↦ pure Status.err | some l ↦ cmd_send_response fd l ]
