-- ===== src/Server/Broadcast/Drain.antt =====
-- The loop of `broadcaster_thread` in src/server/broadcaster.c against the queue.
use mathlib.Core.List.{append-nil, append_assoc}
use mathlib.Core.Path.{ap₂}
use ai_chatbot.Base.{
  sym, ◌++◌, ℕ, zero, suc, ◌<◌, ◌≡◌, refl, true, false, List, [], ◌∷◌, arith, length, if◌then◌else◌,
  ap, ◌∙◌,
}
use ai_chatbot.Text.{Bytes}
use ai_chatbot.Status.{Status}
use ai_chatbot.Clock.{format_timestamp}
use ai_chatbot.Registry.{Registry, Node, foreach_loop, registry_foreach}
use ai_chatbot.Queue.{EventType, Message}
use ai_chatbot.Server.State.{Env, Server}
use ai_chatbot.Server.Reply.{cmd_send_response}
use ai_chatbot.Server.Broadcast.Fanout.{Up, announces, announces_all, event_effects, event_registry}
use ai_chatbot.Server.Broadcast.{
  Ended, is_shutdown, send_to_client, broadcast_line_to_room, broadcast_event, broadcast_built,
  handle_message, broadcaster_thread,
}

-- Sending leaves the queue alone.
foreach_queue :
    (env : Env) (room line : Bytes) (ns : List Node) (s : Server)
    → (foreach_loop (send_to_client env room line) ns s).1.broadcast_queue ≡ s.broadcast_queue
unfolding foreach_loop send_to_client cmd_send_response
foreach_queue env room line [] s = refl
foreach_queue env room line (n ∷ ns) s =
    let (rc, s') = send_to_client env room line n s in
    ground (arith, foreach_queue env room line ns s', foreach_queue env room line ns s)

line_queue :
    (env : Env) (room line : Bytes) (s : Server)
    → (broadcast_line_to_room env room line s).1.broadcast_queue ≡ s.broadcast_queue
unfolding broadcast_line_to_room registry_foreach
line_queue env room line s = foreach_queue env room line s.registry.nodes s

built_queue :
    (env : Env) (room : Bytes) (built : Status × Bytes) (s : Server)
    → (broadcast_built env room built s).1.broadcast_queue ≡ s.broadcast_queue
built_queue env room built s = ground (arith, line_queue env room built.1 s)

event_queue :
    (env : Env) (type : EventType) (msg : Message) (ts : Bytes) (s : Server)
    → (broadcast_event env type msg ts s).1.broadcast_queue ≡ s.broadcast_queue
unfolding broadcast_event
event_queue env EventType.shutdown msg ts s = refl
event_queue env type msg ts s = built_queue env msg.room _ s

-- The state behind a round, with the queue as the pop left it.
abbrev pub handled : Env → Message → List Message → Server → Server
handled env m ms s =
    (broadcast_event env m.type m (format_timestamp env.localtime m.timestamp 32)
      (record s { broadcast_queue = record s.broadcast_queue { items = ms }; tick = suc s.tick })).1

pub thread_step :
    (env : Env) (rounds : ℕ) (m : Message) (ms : List Message) (s : Server)
    → env.running s.tick ≡ true
    → s.broadcast_queue.items ≡ m ∷ ms
    → (is_shutdown m.type ≡ true → (broadcaster_thread env (suc rounds) s).0 ≡ Ended.left)
      × (is_shutdown m.type ≡ false
          → broadcaster_thread env (suc rounds) s
            ≡ broadcaster_thread env rounds (handled env m ms s))
unfolding broadcaster_thread handle_message
thread_step env rounds m ms s run e = (λ d. ground arith, λ d. ground arith)

pub thread_idle :
    (env : Env) (rounds : ℕ) (s : Server)
    → env.running s.tick ≡ true
    → s.broadcast_queue.items ≡ []
    → let (ended, s') = broadcaster_thread env (suc rounds) s in
      (s'.broadcast_queue.items ≡ [])
      × (ended ≡ (if s.broadcast_queue.closed then Ended.left else Ended.waiting))
unfolding broadcaster_thread
thread_idle env rounds s run e = ground arith

idle_keeps :
    (env : Env) (rounds : ℕ) (s : Server)
    → env.running s.tick ≡ true
    → s.broadcast_queue.items ≡ []
    → let s' = (broadcaster_thread env (suc rounds) s).1 in
      (s'.effects ≡ s.effects) × (s'.registry ≡ s.registry)
unfolding broadcaster_thread
idle_keeps env rounds s run e = ground arith

abbrev pub NoShutdown : List Message → Type 0
NoShutdown [] = Unit
NoShutdown (m ∷ ms) = (is_shutdown m.type ≡ false) × NoShutdown ms

-- Whatever sends fail, the queue is emptied.
pub drain :
    (env : Env) (ms : List Message) (rounds : ℕ) (s : Server)
    → ((t : ℕ) → env.running t ≡ true)
    → s.broadcast_queue.items ≡ ms
    → NoShutdown ms
    → length ms < rounds
    → let (ended, s') = broadcaster_thread env rounds s in
      (s'.broadcast_queue.items ≡ [])
      × (ended ≡ (if s.broadcast_queue.closed then Ended.left else Ended.waiting))
drain env ms zero s run e n h = absurd (omega arith)
drain env [] (suc rounds) s run e n h = thread_idle env rounds s (run s.tick) e
drain env (m ∷ ms) (suc rounds) s run e (go, n) h =
    let (_, again) = thread_step env rounds m ms s (run s.tick) e in
    let s1 : Server = record s {
      broadcast_queue = record s.broadcast_queue { items = ms };
      tick = suc s.tick;
    } in
    let kept : (handled env m ms s).broadcast_queue ≡ s1.broadcast_queue =
      event_queue env m.type m (format_timestamp env.localtime m.timestamp 32) s1 in
    let (empty, ended) =
      drain env ms rounds (handled env m ms s) run (ap (λ q. q.items) kept) n (omega arith) in
    rw (again go) (empty, ended ∙ ap (λ q. if q.closed then Ended.left else Ended.waiting) kept)

-- The round of each event sends what the event is to be announced with.
drain_effects :
    (env : Env) (ms : List Message) (rounds : ℕ) (s : Server)
    → Up env
    → ((t : ℕ) → env.running t ≡ true)
    → s.broadcast_queue.items ≡ ms
    → NoShutdown ms
    → length ms < rounds
    → let s' = (broadcaster_thread env rounds s).1 in
      (s'.effects ≡ s.effects ++ announces_all env s.registry.nodes ms) × (s'.registry ≡ s.registry)
drain_effects env ms zero s up run e n h = absurd (omega arith)
drain_effects env [] (suc rounds) s up run e n h =
    let idle = idle_keeps env rounds s (run s.tick) e in
    (idle.0 ∙ sym (append-nil s.effects), idle.1)
drain_effects env (m ∷ ms) (suc rounds) s up run e (go, n) h =
    let (_, again) = thread_step env rounds m ms s (run s.tick) e in
    let time = format_timestamp env.localtime m.timestamp 32 in
    let s1 : Server = record s {
      broadcast_queue = record s.broadcast_queue { items = ms };
      tick = suc s.tick;
    } in
    let kept : (handled env m ms s).broadcast_queue ≡ s1.broadcast_queue =
      event_queue env m.type m time s1 in
    let sent = event_effects env m.type m time s1 up in
    let same : (handled env m ms s).registry ≡ s.registry = event_registry env m.type m time s1 in
    let rest =
      drain_effects env ms rounds (handled env m ms s) up run (ap (λ q. q.items) kept) n
        (omega arith) in
    rw (again go) (
      rest.0
          ∙ ap₂ (λ es (r : Registry). es ++ announces_all env r.nodes ms) sent same
          ∙ append_assoc s.effects (announces env s.registry.nodes m) _,
      rest.1 ∙ same,
    )

-- While the server runs, sends succeed and no shutdown event is queued, the broadcaster handles every event that is
-- queued, in one round each and one more to notice the end. With more rounds than events, the line of each event, if it
-- can be built, was sent to the users of the room of the event, the events in the order of the queue, and nothing else
-- was sent; the registry is as it was and the queue is empty; and the thread has left the loop if the queue is
-- closed and waits if not.
pub broadcaster_thread_lem :
    (env : Env) (rounds : ℕ) (s : Server)
    → Up env
    → ((t : ℕ) → env.running t ≡ true)
    → NoShutdown s.broadcast_queue.items
    → length s.broadcast_queue.items < rounds
    → let (ended, s') = broadcaster_thread env rounds s in
      (s'.effects ≡ s.effects ++ announces_all env s.registry.nodes s.broadcast_queue.items)
      × (s'.registry ≡ s.registry)
      × (s'.broadcast_queue.items ≡ [])
      × (ended ≡ (if s.broadcast_queue.closed then Ended.left else Ended.waiting))
broadcaster_thread_lem env rounds s up run n h =
    let ms = s.broadcast_queue.items in
    let (effects, same) = drain_effects env ms rounds s up run refl n h in
    let (empty, ended) = drain env ms rounds s run refl n h in (effects, same, empty, ended)
