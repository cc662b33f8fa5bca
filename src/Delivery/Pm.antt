-- ===== src/Delivery/Pm.antt =====
-- The way of a private message: src/client/client.c, then src/server/server.c and src/server/commands.c, then
-- src/client/client.c.
use ai_chatbot.Base.{ℕ, ◌≡◌, refl, ap, ◌∙◌, Bool, true, [], ◌∷◌, ◌++◌, some}
use ai_chatbot.Text.{Bytes, codes}
use ai_chatbot.Text.Trim.{trim_newline, IsLine}
use ai_chatbot.Status.{Status}
use ai_chatbot.Clock.{format_timestamp}
use ai_chatbot.Protocol.Client.{ClientCmd, parsed, parse_client_line}
use ai_chatbot.Protocol.Client.Grammar.{IsWord, IsRest}
use ai_chatbot.Protocol.Server.{parse_server_line}
use ai_chatbot.Protocol.Server.RoundTrip.{Reply, meaning}
use ai_chatbot.Server.State.{Env, Effect, Server}
use ai_chatbot.Server.Session.{Session, session_step, run_command}
use ai_chatbot.Server.Commands.{cmd_handle_pm}
use ai_chatbot.Server.Commands.Deliver.{ok_line}
use ai_chatbot.Server.Commands.Private.{MayWrite, cmd_handle_pm_lem, pm_line}
use ai_chatbot.Server.Broadcast.Fanout.{Up}
use ai_chatbot.Client.State.{Terminal, ChatClient, client_print, c_reset, c_bold, c_magenta}
use ai_chatbot.Client.Display.{display_server_message, display_as}
use ai_chatbot.Client.Input.{handle_input}
use ai_chatbot.Client.Request.{IsConnected, Typed, handle_input_lem}
use ai_chatbot.Client.Sent.{sent_by}
use ai_chatbot.Client.Threads.{received}

-- What a private message looks like.
abbrev pub pm_shown : Bool → Bytes → Bytes → Bytes → Bytes
pm_shown colors time from text =
    codes "\n"
    ++ c_magenta colors
    ++ codes "[PM "
    ++ time
    ++ codes "] "
    ++ c_bold colors
    ++ from
    ++ c_reset colors
    ++ codes ": "
    ++ text
    ++ c_reset colors
    ++ codes "\n> "

-- The thread of an authenticated client does what the handler of the command does.
pm_step :
    (env : Env) (fd : ℕ) (session : Session) (line target text : Bytes) (s : Server)
    → session.authenticated ≡ true
    → parse_client_line line ≡ (Status.ok, parsed ClientCmd.pm target text)
    → (session_step env fd session line s).1 ≡ (cmd_handle_pm env fd target text s).1
unfolding session_step run_command
pm_step env fd session line target text s known read = rw (read, known, session_step) refl

-- The receiver displays what it reads.
pm_received :
    (t : Terminal) (line from time text : Bytes) (cli : ChatClient)
    → parse_server_line line ≡ (Status.ok, meaning (Reply.pm from time text))
    → received t (some line) cli ≡ client_print (pm_shown t.colors_enabled time from text) cli
unfolding received display_server_message display_as
pm_received t line from time text cli read = rw (read, received) refl

-- A private message is typed for a target with a name of one word of at most 31 bytes, with a text of one line of at
-- most 511, in a client that is connected and whose sends succeed. When the client is logged in on the server, under a name
-- of one word of at most 31 bytes, the target is another user who is online, and all sends of the server succeed, then
-- the client sends one line; the thread of the client on the server sends one line to the descriptor of the target and a
-- confirmation to the sender, and nothing else; and what the receiver's client prints for the line is the name of the
-- sender, the time and the text that was typed.
pub pm_delivered :
    (env : Env) (t u : Terminal) (sock fd to_fd : ℕ) (cli peer : ChatClient) (session : Session)
    (s : Server) (from target text : Bytes)
    → IsConnected t sock cli
    → IsWord 32 target × IsLine target
    → IsRest 512 text × IsLine text
    → session.authenticated ≡ true
    → MayWrite s fd from target to_fd
    → IsWord 32 from × IsLine from
    → Up env
    → let time = format_timestamp env.localtime (env.now s.tick) 32 in
      (request line : Bytes) × (sent_by (handle_input t (b'@' ∷ (target ++ b' ' ∷ text)) cli).1
        ≡ sent_by cli ++ (sock, request) ∷ [])
      × ((session_step env fd session (trim_newline request) s).1.effects
          ≡ s.effects
            ++ Effect.sent to_fd line ∷ Effect.sent fd (ok_line (codes "PM delivered")) ∷ [])
      × (received u (some (trim_newline line)) peer
          ≡ client_print (pm_shown u.colors_enabled time from text) peer)
pm_delivered env t u sock fd to_fd cli peer session s from target text c g m known may w up =
    let (request, sent, read) =
      handle_input_lem t sock cli c (Typed.pm target text) (g.0, g.1, (m.0, m.1)) in
    let time = format_timestamp env.localtime (env.now s.tick) 32 in
    let line : Bytes = pm_line env (env.now s.tick) from text in
    let (effects, shown) =
      cmd_handle_pm_lem env fd to_fd from target text s may w.0 w.1 m.0 m.1 up in
    (
      request,
      line,
      sent,
      ap (λ (x : Server). x.effects)
            (pm_step env fd session (trim_newline request) target text s known read)
          ∙ effects,
      pm_received u (trim_newline line) from time text peer shown,
    )
