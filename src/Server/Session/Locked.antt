-- ===== src/Server/Session/Locked.antt =====
-- The thread of a client in src/server/server.c before the client is authenticated.
use ai_chatbot.Base.{ℕ, ◌≡◌, ◌≢◌, refl, false, arith}
use ai_chatbot.Text.{Bytes}
use ai_chatbot.Protocol.Client.{ClientCmd, parse_client_line}
use ai_chatbot.Server.State.{Env, Server}
use ai_chatbot.Server.Reply.{cmd_send_response}
use ai_chatbot.Server.Session.{Session, log_in, session_step}

abbrev pub Same : Server → Server → Type 0
Same s s' =
    (s'.registry ≡ s.registry) × (s'.rooms ≡ s.rooms) × (s'.broadcast_queue ≡ s.broadcast_queue)

log_in-Same :
    (env : Env) (fd : ℕ) (session : Session) (c : ClientCmd) (arg1 arg2 : Bytes) (s : Server)
    → c ≢ ClientCmd.auth
    → Same s (log_in env fd session c arg1 arg2 s).1
unfolding log_in cmd_send_response
log_in-Same env fd session ClientCmd.auth arg1 arg2 s ne = absurd (ne refl)
log_in-Same env fd session c arg1 arg2 s ne = (refl, refl, refl)

-- Before a client is authenticated, a line that is no `AUTH` command changes neither the registry
-- nor the rooms nor the queue.
pub session_step-Same :
    (env : Env) (fd : ℕ) (session : Session) (line : Bytes) (s : Server)
    → session.authenticated ≡ false
    → (parse_client_line line).1.cmd ≢ ClientCmd.auth
    → Same s (session_step env fd session line s).1
unfolding session_step cmd_send_response
session_step-Same env fd session line s out ne =
    let (status, c) = parse_client_line line in
    let kept = log_in-Same env fd session c.cmd c.arg1 c.arg2 s ne in ground arith
