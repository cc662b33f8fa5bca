-- ===== src/Server/Broadcast/Ends.antt =====
-- The end of `broadcaster_thread` in src/server/broadcaster.c behind a shutdown.
use ai_chatbot.Base.{
  ℕ, suc, ◌<◌, ◌≤◌, ◌≡◌, refl, ◌∙◌, true, false, List, [], ◌∷◌, arith, Bool-cases, inl, inr,
}
use ai_chatbot.Text.{Bytes}
use ai_chatbot.Status.{Status}
use ai_chatbot.Clock.{format_timestamp}
use ai_chatbot.Registry.{Node, foreach_loop, registry_foreach}
use ai_chatbot.Queue.{EventType, Message}
use ai_chatbot.Server.State.{Env, Server}
use ai_chatbot.Server.Reply.{cmd_send_response}
use ai_chatbot.Server.Broadcast.{
  Ended, is_shutdown, send_to_client, broadcast_line_to_room, broadcast_event, broadcast_built,
  broadcaster_thread,
}
use ai_chatbot.Server.Broadcast.Drain.{handled, thread_step, thread_idle}

module _ (env : Env) where
  send_ticks :
      (room line : Bytes) (n : Node) (s : Server)
      → s.tick ≤ (send_to_client env room line n s).1.tick
  unfolding send_to_client cmd_send_response
  send_ticks room line n s = ground arith

  foreach_ticks :
      (room line : Bytes) (ns : List Node) (s : Server)
      → s.tick ≤ (foreach_loop (send_to_client env room line) ns s).1.tick
  unfolding foreach_loop
  foreach_ticks room line [] s = omega arith
  foreach_ticks room line (n ∷ ns) s = ground (
    arith,
    send_ticks room line n s,
    foreach_ticks room line ns (send_to_client env room line n s).1,
  )

  built_ticks :
      (room : Bytes) (built : Status × Bytes) (s : Server)
      → s.tick ≤ (broadcast_built env room built s).1.tick
  unfolding broadcast_line_to_room registry_foreach
  built_ticks room built s = ground (arith, foreach_ticks room built.1 s.registry.nodes s)

  -- Questions are counted, and not taken back.
  event_ticks :
      (type : EventType) (msg : Message) (ts : Bytes) (s : Server)
      → s.tick ≤ (broadcast_event env type msg ts s).1.tick
  unfolding broadcast_event
  event_ticks EventType.shutdown msg ts s = omega arith
  event_ticks type msg ts s = built_ticks msg.room _ s

  left_at_test :
      (rounds : ℕ) (s : Server)
      → env.running s.tick ≡ false
      → (broadcaster_thread env (suc rounds) s).0 ≡ Ended.left
  unfolding broadcaster_thread
  left_at_test rounds s off = ground arith

  ends_from :
      (items : List Message) (s : Server)
      → s.broadcast_queue.items ≡ items
      → s.broadcast_queue.closed ≡ true
      → env.running s.tick ≡ true
      → ((t : ℕ) → s.tick < t → env.running t ≡ false)
      → (broadcaster_thread env 2 s).0 ≡ Ended.left
  ends_from [] s e closed in_loop off =
      let (_, ended) = thread_idle env 1 s in_loop e in ended ∙ rw closed
  ends_from (m ∷ ms) s e closed in_loop off =
      let (over, again) = thread_step env 1 m ms s in_loop e in
      elim (Bool-cases (is_shutdown m.type)) [
        | inl last ↦ over last
        | inr more ↦
            let popped : Server = record s {
              broadcast_queue = record s.broadcast_queue { items = ms };
              tick = suc s.tick;
            } in
            let later =
              event_ticks m.type m (format_timestamp env.localtime m.timestamp 32) popped in
            rw (again more) (left_at_test 0 (handled env m ms s) (off _ (omega (arith, later))))
      ]

-- A broadcaster that stands in `mq_pop` when the queue is closed and `running` stays 0 leaves its loop: it handles one
-- more event at most, and waits no more, so that `pthread_join` in `server_shutdown` returns.
pub broadcaster_ends :
    (env : Env) (s : Server)
    → s.broadcast_queue.closed ≡ true
    → env.running s.tick ≡ true
    → ((t : ℕ) → s.tick < t → env.running t ≡ false)
    → (broadcaster_thread env 2 s).0 ≡ Ended.left
broadcaster_ends env s closed in_loop off =
    ends_from env s.broadcast_queue.items s refl closed in_loop off
