-- ===== src/Server/Broadcast/Fanout.antt =====
-- Whom src/server/broadcaster.c sends a line, and what they read.
use mathlib.Core.List.{append-nil, append_assoc}
use ai_chatbot.Base.{
  ℕ, suc, ◌≡◌, ◌≢◌, refl, true, false, List, [], ◌∷◌, ◌++◌, Bool-cases, inl, inr, ap, ◌∙◌, sym,
  arith, if◌then◌else◌,
}
use ai_chatbot.Text.{Bytes, str_eq}
use ai_chatbot.Text.Trim.{trim_newline, IsLine}
use ai_chatbot.Status.{Status, is_ok}
use ai_chatbot.Clock.{format_timestamp}
use ai_chatbot.Registry.{Node, foreach_loop, registry_foreach}
use ai_chatbot.Registry.UserList.{in_room}
use ai_chatbot.Queue.{EventType, Message}
use ai_chatbot.Protocol.Client.Grammar.{IsWord, IsRest}
use ai_chatbot.Protocol.Server.{
  build_server_broadcast, build_server_user_join, build_server_user_left, parse_server_line,
}
use ai_chatbot.Protocol.Server.RoundTrip.{Reply, meaning, parse-build_server}
use ai_chatbot.Server.State.{Env, Effect, Server}
use ai_chatbot.Server.Reply.{cmd_send_response}
use ai_chatbot.Server.Broadcast.{
  send_to_client, broadcast_line_to_room, broadcast_event, broadcast_built,
}

-- The line, sent to each of the nodes.
abbrev pub sends : Bytes → List Node → List Effect
sends line [] = []
sends line (n ∷ ns) = Effect.sent n.sockfd line ∷ sends line ns

abbrev pub Up : Env → Type 0
Up env = (t fd : ℕ) (line : Bytes) → env.accepts t fd line ≡ true

foreach_sends :
    (env : Env) (room line : Bytes) (ns : List Node) (s : Server)
    → Up env
    → (foreach_loop (send_to_client env room line) ns s).1.effects
      ≡ s.effects ++ sends line (in_room room ns)
unfolding foreach_loop send_to_client cmd_send_response
foreach_sends env room line [] s up = rw append-nil refl
foreach_sends env room line (n ∷ ns) s up = elim (Bool-cases (str_eq n.room room)) [
  | inr other ↦ rw other (foreach_sends env room line ns s up)
  | inl here ↦
      let first = Effect.sent n.sockfd line in
      let s1 : Server = record s { effects = s.effects ++ first ∷ []; tick = suc s.tick } in
      rw (here, up s.tick n.sockfd line)
        (foreach_sends env room line ns s1 up
          ∙ append_assoc s.effects (first ∷ []) (sends line (in_room room ns)))
]

-- While sends succeed, a chat event whose fields are one-line texts that fit, the name and the room
-- without a blank, is sent as one line to every user of its room, in the order of the registry, and
-- to nobody else, and a receiver reads from the line the name, the time, the room and exactly the
-- text of the event.
pub broadcast_event_lem :
    (env : Env) (msg : Message) (ts : Bytes) (s : Server)
    → IsWord 32 msg.username × IsLine msg.username
    → IsWord 32 ts × IsLine ts
    → IsWord 32 msg.room × IsLine msg.room
    → IsRest 512 msg.content × IsLine msg.content
    → ((t fd : ℕ) (line : Bytes) → env.accepts t fd line ≡ true)
    → let line = (build_server_broadcast 2048 msg.username ts msg.room msg.content).1 in
      ((broadcast_event env EventType.chat msg ts s).1.effects
        ≡ s.effects ++ sends line (in_room msg.room s.registry.nodes))
      × (parse_server_line (trim_newline line)
          ≡ (Status.ok, meaning (Reply.broadcast msg.username ts msg.room msg.content)))
unfolding broadcast_event broadcast_line_to_room registry_foreach
broadcast_event_lem env msg ts s u t r c up =
    let line = (build_server_broadcast 2048 msg.username ts msg.room msg.content).1 in
    let (built, read) =
      parse-build_server (Reply.broadcast msg.username ts msg.room msg.content) (u, t, r, c) in
    (rw built (foreach_sends env msg.room line s.registry.nodes s up), read)

-- None of the nodes has the descriptor.
abbrev pub AllOther : ℕ → List Node → Type 0
AllOther fd [] = Unit
AllOther fd (n ∷ ns) = (n.sockfd ≢ fd) × AllOther fd ns

-- Sends to the descriptor fail, and all others succeed.
pub record IsBroken (env : Env) (fd : ℕ) : Type 0 where
  pub fails : (t : ℕ) (line : Bytes) → env.accepts t fd line ≡ false
  pub others : (t other : ℕ) (line : Bytes) → other ≢ fd → env.accepts t other line ≡ true

foreach_stops :
    (env : Env) (room line : Bytes) (before after : List Node) (n : Node) (s : Server)
    → str_eq n.room room ≡ true
    → IsBroken env n.sockfd
    → AllOther n.sockfd before
    → (foreach_loop (send_to_client env room line) (before ++ n ∷ after) s).1.effects
      ≡ s.effects ++ (sends line (in_room room before) ++ Effect.lost n.sockfd line ∷ [])
unfolding foreach_loop send_to_client cmd_send_response
foreach_stops env room line [] after n s in_it b a = rw (in_it, b.fails s.tick line) refl
foreach_stops env room line (m ∷ before) after n s in_it b a =
    elim (Bool-cases (str_eq m.room room)) [
      | inr other ↦ rw other (foreach_stops env room line before after n s in_it b a.1)
      | inl same ↦
          let first = Effect.sent m.sockfd line in
          let s1 : Server = record s { effects = s.effects ++ first ∷ []; tick = suc s.tick } in
          rw (same, b.others s.tick m.sockfd line a.0)
            (foreach_stops env room line before after n s1 in_it b a.1
              ∙ append_assoc s.effects (first ∷ []) _)
    ]

-- When sends to one user of the room fail and all others succeed, the users of the room that stand before him in the
-- registry are sent the line, in their order, and the iteration stops at him: however many users of the room stand
-- behind him, none of them is sent the line.
pub broadcast_line_stops :
    (env : Env) (room line : Bytes) (before after : List Node) (n : Node) (s : Server)
    → s.registry.nodes ≡ before ++ n ∷ after
    → str_eq n.room room ≡ true
    → IsBroken env n.sockfd
    → AllOther n.sockfd before
    → (broadcast_line_to_room env room line s).1.effects
      ≡ s.effects ++ (sends line (in_room room before) ++ Effect.lost n.sockfd line ∷ [])
unfolding broadcast_line_to_room registry_foreach
broadcast_line_stops env room line before after n s e in_it b a =
    ap (λ z. (foreach_loop (send_to_client env room line) z s).1.effects) e
    ∙ foreach_stops env room line before after n s in_it b a

module _ (env : Env) where
  foreach_registry :
      (room line : Bytes) (ns : List Node) (s : Server)
      → (foreach_loop (send_to_client env room line) ns s).1.registry ≡ s.registry
  unfolding foreach_loop send_to_client cmd_send_response
  foreach_registry room line [] s = refl
  foreach_registry room line (n ∷ ns) s = ground (
    arith,
    foreach_registry room line ns s,
    foreach_registry room line ns (send_to_client env room line n s).1,
  )

  pub event_registry :
      (t : EventType) (msg : Message) (ts : Bytes) (s : Server)
      → (broadcast_event env t msg ts s).1.registry ≡ s.registry
  unfolding broadcast_event broadcast_line_to_room registry_foreach
  event_registry t msg ts s = grind (arith, foreach_registry)

-- The line that an event of the kind is announced with, if it can be built; a shutdown has none.
abbrev pub line_of : EventType → Message → Bytes → Status × Bytes
line_of EventType.chat m time = build_server_broadcast 2048 m.username time m.room m.content
line_of EventType.join m time = build_server_user_join 2048 m.username m.room
line_of EventType.room_join m time = build_server_user_join 2048 m.username m.room
line_of EventType.leave m time = build_server_user_left 2048 m.username m.room
line_of EventType.room_leave m time = build_server_user_left 2048 m.username m.room
line_of EventType.shutdown m time = (Status.err, [])

-- What is sent for one event, and for several, to the users that the list has.
abbrev pub announces : Env → List Node → Message → List Effect
announces env ns m =
    let (status, line) = line_of m.type m (format_timestamp env.localtime m.timestamp 32) in
    if is_ok status then sends line (in_room m.room ns) else []

abbrev pub announces_all : Env → List Node → List Message → List Effect
announces_all env ns [] = []
announces_all env ns (m ∷ ms) = announces env ns m ++ announces_all env ns ms

built_effects :
    (env : Env) (room : Bytes) (built : Status × Bytes) (s : Server)
    → Up env
    → (broadcast_built env room built s).1.effects
      ≡ s.effects ++ (if is_ok built.0 then sends built.1 (in_room room s.registry.nodes) else [])
unfolding broadcast_line_to_room registry_foreach
built_effects env room built s up = elim (Bool-cases (is_ok built.0)) [
  | inl whole ↦ rw whole (foreach_sends env room built.1 s.registry.nodes s up)
  | inr cut ↦ rw cut (sym (append-nil s.effects))
]

pub event_effects :
    (env : Env) (type : EventType) (m : Message) (time : Bytes) (s : Server)
    → Up env
    → let (status, line) = line_of type m time in
      (broadcast_event env type m time s).1.effects
      ≡ s.effects ++ (if is_ok status then sends line (in_room m.room s.registry.nodes) else [])
unfolding broadcast_event
event_effects env EventType.shutdown m time s up = sym (append-nil s.effects)
event_effects env type m time s up = built_effects env m.room (line_of type m time) s up
