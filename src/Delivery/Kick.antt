-- ===== src/Delivery/Kick.antt =====
-- The way of a kick from the keyboard of an admin to the end of another client: src/client/client.c, then
-- src/server/server.c and src/server/commands.c, then the two threads of src/client/client.c.
use mathlib.Core.List.{append_assoc}
use ai_chatbot.Base.{
  ℕ, suc, ◌≤◌, ◌≡◌, refl, sym, ap, ◌∙◌, true, List, [], ◌∷◌, ◌++◌, some, some_inj, inl, inr, arith,
}
use ai_chatbot.Text.{Bytes, codes}
use ai_chatbot.Text.Trim.{trim_newline, IsLine}
use ai_chatbot.Status.{Status}
use ai_chatbot.Protocol.Client.{ClientCmd, parsed, parse_client_line}
use ai_chatbot.Protocol.Client.Grammar.{IsRest}
use ai_chatbot.Protocol.Server.{build_server_kicked}
use ai_chatbot.Protocol.Server.RoundTrip.{Reply, parse-build_server}
use ai_chatbot.Server.State.{Env, Effect, Server}
use ai_chatbot.Server.Reply.{cmd_send_response}
use ai_chatbot.Server.Session.{Session, session_step, run_command}
use ai_chatbot.Server.Commands.{kick_out, cmd_handle_kick}
use ai_chatbot.Server.Commands.Kick.{MayKick, kick_cases}
use ai_chatbot.Server.Commands.Deliver.{ok_line}
use ai_chatbot.Server.Broadcast.Fanout.{Up}
use ai_chatbot.Client.State.{Terminal, ChatClient}
use ai_chatbot.Client.Input.{handle_input}
use ai_chatbot.Client.Request.{IsConnected, Typed, handle_input_lem}
use ai_chatbot.Client.Sent.{sent_by}
use ai_chatbot.Client.Threads.{Threads, Turn, ReceiverPlace, main_turn, run_turns}
use ai_chatbot.Client.Ending.{HasEnded, keyboard_turns, socket_turns, kicked_lem}

abbrev kicked_line : Bytes
kicked_line = (build_server_kicked 2048 (some (codes "kicked by admin"))).1

-- What a kick that succeeds does to sockets.
abbrev pub kick_effects : ℕ → ℕ → Bytes → List Effect
kick_effects fd to_fd line =
    Effect.sent to_fd line ∷ Effect.shut to_fd ∷ Effect.sent fd (ok_line (codes "user kicked")) ∷ []

kick_out_lem :
    (env : Env) (fd to_fd : ℕ) (s : Server)
    → Up env
    → (kick_out env fd to_fd s).1.effects ≡ s.effects ++ kick_effects fd to_fd kicked_line
unfolding kick_out cmd_send_response
kick_out_lem env fd to_fd s up =
    let a = up s.tick to_fd kicked_line in
    let b = up (suc s.tick) fd (ok_line (codes "user kicked")) in rw (a, b) (simp append_assoc)

kick_lem :
    (env : Env) (fd to_fd : ℕ) (target : Bytes) (s : Server)
    → MayKick s fd target to_fd
    → Up env
    → (cmd_handle_kick env fd target s).1.effects ≡ s.effects ++ kick_effects fd to_fd kicked_line
kick_lem env fd to_fd target s may up = elim (kick_cases env fd target s) [
  | inl (found, (m, e)) ↦
      let same : found ≡ to_fd = some_inj (sym m.online ∙ may.online) in
      ap (λ (x : Server). x.effects) e
      ∙ ap (λ j. (kick_out env fd j s).1.effects) same
      ∙ kick_out_lem env fd to_fd s up
  | inr (never, _) ↦ absurd (never to_fd may)
]

kick_step :
    (env : Env) (fd : ℕ) (session : Session) (line target : Bytes) (s : Server)
    → session.authenticated ≡ true
    → parse_client_line line ≡ (Status.ok, parsed ClientCmd.kick target [])
    → (session_step env fd session line s).1 ≡ (cmd_handle_kick env fd target s).1
unfolding session_step run_command
kick_step env fd session line target s known read = rw (read, known, session_step) refl

-- A kick is typed, of a user with a name of one line of at most 31 bytes, in a client that is connected and whose sends
-- succeed. When the client is logged in on the server as an admin, the user is online and not the admin himself, and all
-- sends of the server succeed, then the client sends one line; the thread of the admin on the server sends one line to
-- the descriptor of the user, shuts its connection down and confirms it to the admin, and does nothing else to sockets; and
-- the user's client, if it waits for a line and gets that one, sends nothing any more and returns from `client_run`, once
-- each of its threads has had two more turns and the main thread one behind them.
pub kick_delivered :
    (env : Env) (t u : Terminal) (sock fd to_fd : ℕ) (cli : ChatClient) (peer : Threads)
    (turns : List Turn) (session : Session) (s : Server) (target : Bytes)
    → IsConnected t sock cli
    → IsRest 32 target × IsLine target
    → session.authenticated ≡ true
    → MayKick s fd target to_fd
    → Up env
    → peer.receiver ≡ ReceiverPlace.receiving
    → 2 ≤ keyboard_turns turns
    → 2 ≤ socket_turns turns
    → (request line : Bytes) × (sent_by (handle_input t (codes "/kick " ++ target) cli).1
        ≡ sent_by cli ++ (sock, request) ∷ [])
      × ((session_step env fd session (trim_newline request) s).1.effects
          ≡ s.effects ++ kick_effects fd to_fd line)
      × (let end = run_turns u (Turn.socket (some (trim_newline line)) ∷ turns) peer in
          (sent_by end.client ≡ sent_by peer.client) × HasEnded (main_turn u end))
kick_delivered env t u sock fd to_fd cli peer turns session s target c g known may up waits k l =
    let (request, sent, read) = handle_input_lem t sock cli c (Typed.kick target) (g, refl) in
    let (_, kicked) =
      parse-build_server (Reply.kicked (codes "kicked by admin"))
        (omega arith, record { no_lf = ground arith; no_cr = ground arith }) in
    let end = kicked_lem u turns (trim_newline kicked_line) peer waits kicked refl in
    (
      request,
      kicked_line,
      sent,
      ap (λ (x : Server). x.effects)
            (kick_step env fd session (trim_newline request) target s known read)
          ∙ kick_lem env fd to_fd target s may up,
      (end.0, end.1 k l),
    )
