-- ===== src/Server/Commands/Deliver.antt =====
-- What `cmd_handle_msg` of src/server/commands.c does to the rooms, to the queue and to sockets.
use ai_chatbot.Base.{ℕ, suc, ◌≡◌, ◌≢◌, true, false, [], ◌∷◌, ◌++◌, some, arith, length, ◌⊎◌, ◌<◌}
use ai_chatbot.Text.{Bytes, codes, is_empty, str_eq}
use ai_chatbot.Text.Split.{strncpy_over-short}
use ai_chatbot.Status.{Status}
use ai_chatbot.Clock.{format_timestamp}
use ai_chatbot.Queue.{EventType}
use ai_chatbot.Registry.{registry_get_username, registry_get_room}
use ai_chatbot.Rooms.{room_history_add}
use ai_chatbot.Protocol.Server.{build_server_ok}
use ai_chatbot.Server.State.{Env, Effect, Server}
use ai_chatbot.Server.Commands.{chat_event, publish, cmd_handle_msg}
use ai_chatbot.Server.Reply.{cmd_send_response}
use mathlib.Core.Path.{ap₂}
use ai_chatbot.Base.{refl, ap, ◌∙◌, Bool-cases, inl, inr, if◌then◌else◌, take_all, none, Option}
use ai_chatbot.Status.{is_ok, max_rooms}
use ai_chatbot.Clock.{Tm}
use ai_chatbot.Queue.{Message}
use ai_chatbot.Rooms.{Entry, Manager, new_entry, room_named}
use ai_chatbot.Rooms.Ring.{push_bounded}
use ai_chatbot.Rooms.Update.{history_of, IsValid}
use ai_chatbot.Rooms.History.{room_history_add_lem}

-- The client of `fd` is registered under the name, in the room.
pub record Present (s : Server) (fd : ℕ) (name room : Bytes) : Type 0 where
  pub named : registry_get_username s.registry fd 32 ≡ (Status.ok, name)
  pub placed : registry_get_room s.registry fd 32 ≡ (Status.ok, room)

-- The event of a message, and the entry for it in a history.
abbrev pub chat_message : Bytes → Bytes → Bytes → ℕ → Message
chat_message name room content now = record {
  type = EventType.chat;
  username = name;
  room = room;
  content = content;
  timestamp = now;
}

abbrev pub entry : Bytes → Bytes → Bytes → Entry
entry name content time = record { username = name; content = content; timestamp = time }

abbrev pub ok_line : Bytes → Bytes
ok_line text = (build_server_ok 2048 (some text)).1

publish_lem :
    (env : Env) (fd : ℕ) (name room content : Bytes) (s : Server)
    → length name < 31
    → length room < 31
    → length content < 511
    → s.broadcast_queue.closed ≡ false
    → ((t : ℕ) → env.alloc t ≡ true)
    → let s' = (publish env fd name room content s).1 in
      let now = env.now s.tick in
      (s'.rooms ≡ (room_history_add env.localtime true s.rooms room name content now).1)
      × (s'.broadcast_queue.items
          ≡ s.broadcast_queue.items ++ chat_message name room content now ∷ [])
unfolding publish chat_event cmd_send_response
publish_lem env fd name room content s hn hr hc opened mem =
    let t = s.tick in
    let m1 = mem (suc t) in
    let m2 = mem (suc (suc (suc (suc (suc t))))) in
    let e1 = strncpy_over-short 31 (env.junk (suc (suc t))) name hn in
    let e2 = strncpy_over-short 31 (env.junk (suc (suc (suc t)))) room hr in
    let e3 = strncpy_over-short 511 (env.junk (suc (suc (suc (suc t))))) content hc in
    rw (m1, m2, opened, e1, e2, e3) (ground arith)

-- Sends succeed: the client is told so, and nothing else is done to sockets.
publish_effects :
    (env : Env) (fd : ℕ) (name room content : Bytes) (s : Server)
    → s.broadcast_queue.closed ≡ false
    → ((t : ℕ) → env.alloc t ≡ true)
    → ((t j : ℕ) (l : Bytes) → env.accepts t j l ≡ true)
    → (publish env fd name room content s).1.effects
      ≡ s.effects ++ Effect.sent fd (ok_line (codes "message sent")) ∷ []
unfolding publish chat_event cmd_send_response
publish_effects env fd name room content s opened mem up =
    let t = s.tick in
    let m2 = mem (suc (suc (suc (suc (suc t))))) in
    let a = up (suc (suc (suc (suc (suc (suc t)))))) fd (ok_line (codes "message sent")) in
    rw (m2, opened, a) refl

pub cmd_handle_msg_effects :
    (env : Env) (fd : ℕ) (name room content : Bytes) (s : Server)
    → Present s fd name room
    → is_empty content ≡ false
    → s.broadcast_queue.closed ≡ false
    → ((t : ℕ) → env.alloc t ≡ true)
    → ((t j : ℕ) (l : Bytes) → env.accepts t j l ≡ true)
    → (cmd_handle_msg env fd content s).1.effects
      ≡ s.effects ++ Effect.sent fd (ok_line (codes "message sent")) ∷ []
unfolding cmd_handle_msg
cmd_handle_msg_effects env fd name room content s p given opened mem up =
    rw (p.named, p.placed, given) (publish_effects env fd name room content s opened mem up)

pub cmd_handle_msg_queue :
    (env : Env) (fd : ℕ) (name room content : Bytes) (s : Server)
    → Present s fd name room
    → is_empty content ≡ false
    → length name < 31
    → length room < 31
    → length content < 511
    → s.broadcast_queue.closed ≡ false
    → ((t : ℕ) → env.alloc t ≡ true)
    → let s' = (cmd_handle_msg env fd content s).1 in
      let now = env.now s.tick in
      (s'.rooms ≡ (room_history_add env.localtime true s.rooms room name content now).1)
      × (s'.broadcast_queue.items
          ≡ s.broadcast_queue.items ++ chat_message name room content now ∷ [])
unfolding cmd_handle_msg
cmd_handle_msg_queue env fd name room content s p given hn hr hc opened mem =
    rw (p.named, p.placed, given) (publish_lem env fd name room content s hn hr hc opened mem)

-- There is a place for a message to the room: the room is there, or one more can be made.
abbrev pub HasPlace : Manager → Bytes → Type 0
HasPlace mgr room = (mgr.room_count < max_rooms) ⊎ (room_named room mgr.rooms ≢ none)

-- With memory and a place the message is stored.
stored_history :
    (localtime : ℕ → Option Tm) (mgr : Manager) (room user content : Bytes) (ts : ℕ)
    → IsValid mgr
    → HasPlace mgr room
    → length room < 32
    → (name : Bytes)
    → history_of (room_history_add localtime true mgr room user content ts).1 name ≡ (
        if str_eq room name
        then push_bounded
            (new_entry user content (format_timestamp localtime ts 32))
            (history_of mgr name)
        else history_of mgr name)
stored_history localtime mgr room user content ts v place h =
    let (stored, refused) = room_history_add_lem localtime true mgr room user content ts v h in
    elim (Bool-cases (is_ok (room_history_add localtime true mgr room user content ts).0)) [
      | inl good ↦ stored (ground arith)
      | inr bad ↦
          let (_, why, missing) = refused (ground arith) in
          absurd (elim place [
            | inl free ↦ elim why [ inl full ↦ omega (arith, free, full) | inr no_memory ↦ cc ]
            | inr there ↦ there missing
          ])
    ]

-- When the queue is open, there is memory, the rooms are valid and there is a place for the room, a message of a
-- registered client, not empty and of at most 510 bytes, with a name and a room of at most 30, goes behind the
-- history of its room, of which the last 100 entries stay, and every other history is as before; and it is queued for
-- broadcasting behind the events that are queued. Both have the same name, text and time.
pub cmd_handle_msg_lem :
    (env : Env) (fd : ℕ) (name room content : Bytes) (s : Server)
    → Present s fd name room
    → IsValid s.rooms
    → HasPlace s.rooms room
    → is_empty content ≡ false
    → length name < 31
    → length room < 31
    → length content < 511
    → s.broadcast_queue.closed ≡ false
    → ((t : ℕ) → env.alloc t ≡ true)
    → let s' = (cmd_handle_msg env fd content s).1 in
      let now = env.now s.tick in
      let time = format_timestamp env.localtime now 32 in
      ((r : Bytes)
        → history_of s'.rooms r ≡ (
            if str_eq room r
            then push_bounded (entry name content time) (history_of s.rooms r)
            else history_of s.rooms r))
      × (s'.broadcast_queue.items
          ≡ s.broadcast_queue.items ++ chat_message name room content now ∷ [])
cmd_handle_msg_lem env fd name room content s p v place given hn hr hc opened mem =
    let (rooms, queued) =
      cmd_handle_msg_queue env fd name room content s p given hn hr hc opened mem in
    let now = env.now s.tick in
    let time = format_timestamp env.localtime now 32 in
    let whole =
      ap₂ (λ (u c : Bytes). entry u c time) (take_all 31 name (omega arith))
        (take_all 511 content (omega arith)) in
    (
      (λ r.
          ap (λ m. history_of m r) rooms
          ∙ stored_history env.localtime s.rooms room name content now v place (omega arith) r
          ∙ ap
              (λ e.
                if str_eq room r
                then push_bounded e (history_of s.rooms r)
                else history_of s.rooms r)
              whole),
      queued,
    )

-- A message without text, or of a client that is not registered, changes neither the rooms nor the
-- queue.
pub cmd_handle_msg_refused :
    (env : Env) (fd : ℕ) (content : Bytes) (s : Server)
    → ((registry_get_username s.registry fd 32).0 ≢ Status.ok) ⊎ (is_empty content ≡ true)
    → let s' = (cmd_handle_msg env fd content s).1 in
      (s'.rooms ≡ s.rooms) × (s'.broadcast_queue ≡ s.broadcast_queue)
unfolding cmd_handle_msg cmd_send_response
cmd_handle_msg_refused env fd content s h = ground arith
