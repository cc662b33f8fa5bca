-- ===== src/Server/Commands/Move.antt =====
-- What `cmd_handle_join_room` of src/server/commands.c announces.
use mathlib.Core.List.{append_assoc}
use ai_chatbot.Base.{
  ℕ, suc, ◌≡◌, ◌≢◌, refl, true, false, List, [], ◌∷◌, ◌++◌, arith, length, is_some, ◌∙◌, ap, ◌<◌,
}
use ai_chatbot.Text.{Bytes, is_empty, str_eq, str_eq_iff}
use ai_chatbot.Text.Split.{strncpy_over-short}
use ai_chatbot.Queue.{Message, EventType}
use ai_chatbot.Queue.Fifo.{Fifo}
use ai_chatbot.Registry.{registry_get_username, registry_set_room, find_fd}
use ai_chatbot.Protocol.Server.{build_server_room_joined}
use ai_chatbot.Server.State.{Env, Server}
use ai_chatbot.Server.Commands.{change_room, cmd_handle_join_room}
use ai_chatbot.Server.Reply.{
  cmd_send_response, send_built, enqueue_room_event, room_history_send_to_client,
}
use ai_chatbot.Registry.Find.{registry_set_room_lem}
use ai_chatbot.Server.Commands.Enter.{change_room_registry}
use ai_chatbot.Server.Commands.Deliver.{Present}

abbrev pub event : EventType → Bytes → Bytes → ℕ → Message
event type name room now = record {
  type = type;
  username = name;
  room = room;
  content = [];
  timestamp = now;
}

abbrev queued : Server → List Message → Fifo
queued s ms = record { items = s.broadcast_queue.items ++ ms; closed = false }

enqueue_lem :
    (env : Env) (type : EventType) (name room : Bytes) (s : Server)
    → length name < 31
    → length room < 31
    → s.broadcast_queue.closed ≡ false
    → ((t : ℕ) → env.alloc t ≡ true)
    → (enqueue_room_event env type name room s).1.broadcast_queue
      ≡ queued s (event type name room (env.now (suc (suc s.tick))) ∷ [])
unfolding enqueue_room_event
enqueue_lem env type name room s hn hr opened mem =
    let m = mem (suc (suc (suc s.tick))) in
    let e1 = strncpy_over-short 31 (env.junk s.tick) name hn in
    let e2 = strncpy_over-short 31 (env.junk (suc s.tick)) room hr in rw (m, e1, e2) (ground arith)

send_queue :
    (env : Env) (fd : ℕ) (line : Bytes) (s : Server)
    → (cmd_send_response env fd line s).1.broadcast_queue ≡ s.broadcast_queue
unfolding cmd_send_response
send_queue env fd line s = refl

send_history_queue :
    (env : Env) (room : Bytes) (fd : ℕ) (s : Server)
    → (room_history_send_to_client env room fd s).1.broadcast_queue ≡ s.broadcast_queue
unfolding room_history_send_to_client cmd_send_response
send_history_queue env room fd s = ground arith

-- A change of room: the state behind each of its steps.
change_room_lem :
    (env : Env) (fd : ℕ) (name old room : Bytes) (s : Server)
    → length name < 31
    → length old < 31
    → length room < 31
    → s.broadcast_queue.closed ≡ false
    → ((t : ℕ) → env.alloc t ≡ true)
    → (t1 t2 : ℕ) × ((change_room env fd name old room s).1.broadcast_queue.items
        ≡ s.broadcast_queue.items
          ++ event EventType.leave name old (env.now t1)
            ∷ event EventType.join name room (env.now t2)
            ∷ [])
unfolding change_room cmd_send_response
change_room_lem env fd name old room s hn ho hr opened mem =
    let s1 = (enqueue_room_event env EventType.leave name old s).1 in
    let s2 : Server = record s1 { registry = (registry_set_room s1.registry fd room).1 } in
    let s3 = (send_built env fd (build_server_room_joined 2048 room) s2).1 in
    let s4 = (room_history_send_to_client env room fd s3).1 in
    let e1 = enqueue_lem env EventType.leave name old s hn ho opened mem in
    let e4 : s4.broadcast_queue
        ≡ queued s (event EventType.leave name old (env.now (suc (suc s.tick))) ∷ []) =
      send_history_queue env room fd s3 ∙ e1 in
    let left = event EventType.leave name old (env.now (suc (suc s.tick))) in
    let joined = event EventType.join name room (env.now (suc (suc s4.tick))) in
    let e5 = enqueue_lem env EventType.join name room s4 hn hr (ap (λ q. q.closed) e4) mem in
    (
      suc (suc s.tick),
      suc (suc s4.tick),
      ap (λ q. q.items) e5
          ∙ ap (λ q. q.items ++ joined ∷ []) e4
          ∙ append_assoc s.broadcast_queue.items (left ∷ []) (joined ∷ []),
    )

Present-found :
    (s : Server) (fd : ℕ) (name room : Bytes)
    → Present s fd name room
    → is_some (find_fd fd s.registry.nodes) ≡ true
unfolding registry_get_username
Present-found s fd name room p = let e = p.named in ground arith

-- A registered client that asks for another room, with all names of at most 30 bytes, an open queue
-- and memory, is in that room afterwards, and the queue has got the leave of the old room and behind
-- it the join of the new one.
pub cmd_handle_join_room_lem :
    (env : Env) (fd : ℕ) (name old room : Bytes) (s : Server)
    → Present s fd name old
    → is_empty room ≡ false
    → old ≢ room
    → length name < 31
    → length old < 31
    → length room < 31
    → s.broadcast_queue.closed ≡ false
    → ((t : ℕ) → env.alloc t ≡ true)
    → let s' = (cmd_handle_join_room env fd room s).1 in
      Present s' fd name room
      × ((t1 t2 : ℕ) × (s'.broadcast_queue.items
            ≡ s.broadcast_queue.items
              ++ event EventType.leave name old (env.now t1)
                ∷ event EventType.join name room (env.now t2)
                ∷ []))
unfolding cmd_handle_join_room change_room cmd_send_response
cmd_handle_join_room_lem env fd name old room s p given ne hn ho hr opened mem =
    let apart : str_eq old room ≡ false = ground (arith, str_eq_iff old room, ne) in
    let (moved, _, found) = registry_set_room_lem s.registry fd room (omega arith) in
    let ok = found.1 (Present-found s fd name old p) in
    let (placed, named, _) = moved ok in
    rw (given, p.named, p.placed, apart)
      (
        rw (change_room_registry env fd name old room s)
            (record { named = named ∙ p.named; placed = placed }),
        change_room_lem env fd name old room s hn ho hr opened mem,
      )
