-- ===== src/Delivery/Chat.antt =====
-- The way of a message to a room: src/client/client.c, then src/server/server.c and src/server/commands.c, then
-- src/server/broadcaster.c, then src/client/client.c.
use ai_chatbot.Base.{ℕ, suc, ◌≡◌, refl, ap, ◌∙◌, Bool, true, false, [], ◌∷◌, ◌++◌, some, arith}
use ai_chatbot.Text.{Bytes, codes, is_empty}
use ai_chatbot.Text.Trim.{trim_newline, IsLine}
use ai_chatbot.Status.{Status}
use ai_chatbot.Clock.{format_timestamp}
use ai_chatbot.Clock.Word.{format_timestamp-Word}
use ai_chatbot.Registry.UserList.{in_room}
use ai_chatbot.Queue.{Message}
use ai_chatbot.Protocol.Client.{ClientCmd, parsed, parse_client_line}
use ai_chatbot.Protocol.Client.Grammar.{IsWord, IsRest}
use ai_chatbot.Protocol.Server.{parse_server_line, build_server_broadcast}
use ai_chatbot.Protocol.Server.RoundTrip.{Reply, meaning}
use ai_chatbot.Server.State.{Env, Effect, Server}
use ai_chatbot.Server.Session.{Session, session_step, run_command}
use ai_chatbot.Server.Commands.{cmd_handle_msg}
use ai_chatbot.Server.Commands.Deliver.{
  Present, chat_message, ok_line, cmd_handle_msg_queue, cmd_handle_msg_effects,
}
use ai_chatbot.Registry.{Registry}
use mathlib.Core.Path.{ap₂}
use ai_chatbot.Server.Commands.Keep.{msg_keep}
use ai_chatbot.Server.Broadcast.{broadcaster_thread}
use ai_chatbot.Server.Broadcast.Drain.{thread_step}
use ai_chatbot.Server.Broadcast.Fanout.{Up, sends, broadcast_event_lem}
use ai_chatbot.Client.State.{Terminal, ChatClient, client_print, c_reset, c_bold, c_green}
use ai_chatbot.Client.Display.{display_server_message, display_as}
use ai_chatbot.Client.Input.{handle_input}
use ai_chatbot.Client.Request.{IsConnected, Typed, handle_input_lem}
use ai_chatbot.Client.Sent.{sent_by}
use ai_chatbot.Client.Threads.{received}

-- What a message to a room looks like.
abbrev pub chat_shown : Bool → Bytes → Bytes → Bytes → Bytes → Bytes
chat_shown colors time room name text =
    codes "\n"
    ++ c_green colors
    ++ codes "["
    ++ time
    ++ codes "] ["
    ++ room
    ++ codes "] "
    ++ c_bold colors
    ++ name
    ++ c_reset colors
    ++ codes ": "
    ++ text
    ++ c_reset colors
    ++ codes "\n> "

-- The thread of an authenticated client does what the handler of the command does.
msg_step :
    (env : Env) (fd : ℕ) (session : Session) (line text : Bytes) (s : Server)
    → session.authenticated ≡ true
    → parse_client_line line ≡ (Status.ok, parsed ClientCmd.msg [] text)
    → (session_step env fd session line s).1 ≡ (cmd_handle_msg env fd text s).1
unfolding session_step run_command
msg_step env fd session line text s known read = rw (read, known, session_step) refl

-- The receiver displays what it reads.
chat_received :
    (t : Terminal) (line name time room text : Bytes) (cli : ChatClient)
    → parse_server_line line ≡ (Status.ok, meaning (Reply.broadcast name time room text))
    → received t (some line) cli
      ≡ client_print (chat_shown t.colors_enabled time room name text) cli
unfolding received display_server_message display_as
chat_received t line name time room text cli read = rw (read, received) refl

-- The thread of the client `fd`, which has logged in under the name and is in the room; both are words, as all
-- names and rooms of the protocol but for its last fields.
pub record Speaks (s : Server) (fd : ℕ) (session : Session) (name room : Bytes) : Type 0 where
  pub known : session.authenticated ≡ true
  pub present : Present s fd name room
  pub name_word : IsWord 31 name
  pub name_line : IsLine name
  pub room_word : IsWord 31 room
  pub room_line : IsLine room

IsWord-32 : (w : Bytes) → IsWord 31 w → IsWord 32 w
IsWord-32 w h = record { no_blank = h.no_blank; not_nil = h.not_nil; fits = omega (arith, h.fits) }

IsRest-512 : (r : Bytes) → IsRest 511 r → IsRest 512 r
IsRest-512 r h = record { not_nil = h.not_nil; fits = omega (arith, h.fits) }

IsRest-filled : (size : ℕ) (r : Bytes) → IsRest size r → is_empty r ≡ false
IsRest-filled size r h = ground (arith, h.not_nil)

-- One round of the broadcaster on a queue that holds a chat event and nothing else.
round_effects :
    (env : Env) (name room text : Bytes) (now : ℕ) (s : Server)
    → IsWord 31 name × IsLine name
    → IsWord 31 room × IsLine room
    → IsRest 511 text × IsLine text
    → Up env
    → env.running s.tick ≡ true
    → s.broadcast_queue.items ≡ chat_message name room text now ∷ []
    → let time = format_timestamp env.localtime now 32 in
      let line = (build_server_broadcast 2048 name time room text).1 in
      ((broadcaster_thread env 1 s).1.effects
        ≡ s.effects ++ sends line (in_room room s.registry.nodes))
      × (parse_server_line (trim_newline line)
          ≡ (Status.ok, meaning (Reply.broadcast name time room text)))
unfolding broadcaster_thread
round_effects env name room text now s u r m up run e =
    let time = format_timestamp env.localtime now 32 in
    let msg : Message = chat_message name room text now in
    let popped : Server = record s {
      broadcast_queue = record s.broadcast_queue { items = [] };
      tick = suc s.tick;
    } in
    let (effects, read) =
      broadcast_event_lem env msg time popped (IsWord-32 name u.0, u.1)
        (format_timestamp-Word env.localtime now) (IsWord-32 room r.0, r.1)
        (IsRest-512 text m.0, m.1) up in
    (ap (λ x. x.1.effects) ((thread_step env 0 msg [] s run e).1 refl) ∙ effects, read)

-- A message of one line of at most 510 bytes, which begins with neither a slash nor an at sign, is typed in a client that
-- is connected and whose sends succeed. When the client is logged in on the server, with a name and a room of one word of
-- at most 30 bytes, the queue is open and empty, the server runs, has memory and all its sends succeed, then the client
-- sends one line; the thread of the client on the server and then one round of the broadcaster send a confirmation
-- to the sender, then one line to every user of the room, in the order of the registry, and nothing else to anybody; and
-- what a client prints for the line is the time, the room, the name and the text that was typed.
pub msg_delivered :
    (env : Env) (t u : Terminal) (sock fd : ℕ) (cli peer : ChatClient) (session : Session)
    (s : Server) (name room text : Bytes)
    → IsConnected t sock cli
    → Typed text ClientCmd.msg [] text
    → IsRest 511 text × IsLine text
    → Speaks s fd session name room
    → s.broadcast_queue ≡ record { items = []; closed = false }
    → Up env
    → ((k : ℕ) → env.alloc k ≡ true)
    → ((k : ℕ) → env.running k ≡ true)
    → let time = format_timestamp env.localtime (env.now s.tick) 32 in
      (request line : Bytes) × (sent_by (handle_input t text cli).1
        ≡ sent_by cli ++ (sock, request) ∷ [])
      × (let queued = (session_step env fd session (trim_newline request) s).1 in
          (broadcaster_thread env 1 queued).1.effects
          ≡ (s.effects ++ Effect.sent fd (ok_line (codes "message sent")) ∷ [])
            ++ sends line (in_room room s.registry.nodes))
      × (received u (some (trim_newline line)) peer
          ≡ client_print (chat_shown u.colors_enabled time room name text) peer)
msg_delivered env t u sock fd cli peer session s name room text c typed m p idle up mem run =
    let (request, sent, read) =
      handle_input_lem t sock cli c typed (refl, (IsRest-512 text m.0, m.1)) in
    let now = env.now s.tick in
    let time = format_timestamp env.localtime now 32 in
    let line : Bytes = (build_server_broadcast 2048 name time room text).1 in
    let queued : Server = (session_step env fd session (trim_newline request) s).1 in
    let step : queued ≡ (cmd_handle_msg env fd text s).1 =
      msg_step env fd session (trim_newline request) text s p.known read in
    let handled_msg =
      cmd_handle_msg_queue env fd name room text s p.present (IsRest-filled 511 text m.0)
        p.name_word.fits p.room_word.fits m.0.fits (ap (λ q. q.closed) idle) mem in
    let items : queued.broadcast_queue.items ≡ chat_message name room text now ∷ [] =
      ap (λ (x : Server). x.broadcast_queue.items) step
      ∙ handled_msg.1
      ∙ ap (λ q. q.items ++ chat_message name room text now ∷ []) idle in
    let same : queued.registry ≡ s.registry =
      ap (λ (x : Server). x.registry) step ∙ msg_keep env fd text s in
    let confirmed : queued.effects
        ≡ s.effects ++ Effect.sent fd (ok_line (codes "message sent")) ∷ [] =
      ap (λ (x : Server). x.effects) step
      ∙ cmd_handle_msg_effects env fd name room text s p.present (IsRest-filled 511 text m.0)
          (ap (λ q. q.closed) idle) mem up in
    let (effects, shown) =
      round_effects env name room text now queued (p.name_word, p.name_line)
        (p.room_word, p.room_line) m up (run queued.tick) items in
    (
      request,
      line,
      sent,
      effects ∙ ap₂ (λ es (r : Registry). es ++ sends line (in_room room r.nodes)) confirmed same,
      chat_received u (trim_newline line) name time room text peer shown,
    )
