-- ===== src/Server/Commands/Private.antt =====
-- What `cmd_handle_pm` of src/server/commands.c sends, and what the addressee reads.
use mathlib.Core.List.{append_assoc}
use ai_chatbot.Base.{ℕ, suc, ◌≡◌, ◌≢◌, true, false, [], ◌∷◌, ◌++◌, some, arith}
use ai_chatbot.Text.{Bytes, codes, is_empty, str_eq, str_eq_iff}
use ai_chatbot.Text.Trim.{trim_newline, IsLine}
use ai_chatbot.Status.{Status}
use ai_chatbot.Clock.{format_timestamp}
use ai_chatbot.Clock.Word.{format_timestamp-Word}
use ai_chatbot.Protocol.Client.Grammar.{IsWord, IsRest}
use ai_chatbot.Registry.{registry_get_username, find_name, registry_get_sockfd_by_username}
use ai_chatbot.Protocol.Server.{parse_server_line, build_server_pm}
use ai_chatbot.Protocol.Server.RoundTrip.{Reply, meaning, parse-build_server}
use ai_chatbot.Server.State.{Env, Effect, Server}
use ai_chatbot.Server.Commands.{deliver_pm, cmd_handle_pm}
use ai_chatbot.Server.Reply.{cmd_send_response}
use ai_chatbot.Server.Commands.Deliver.{ok_line}

-- Who gets a private message: a registered client `fd` of the name `from` writes to another user,
-- whose descriptor is `to_fd`.
pub record MayWrite (s : Server) (fd : ℕ) (from target : Bytes) (to_fd : ℕ) : Type 0 where
  pub named : registry_get_username s.registry fd 32 ≡ (Status.ok, from)
  pub given : is_empty target ≡ false
  pub other : from ≢ target
  pub online : registry_get_sockfd_by_username s.registry target ≡ some to_fd

abbrev pub pm_line : Env → ℕ → Bytes → Bytes → Bytes
pm_line env now from content =
    (build_server_pm 2048 from (format_timestamp env.localtime now 32) content).1

deliver_pm_lem :
    (env : Env) (fd to_fd : ℕ) (from content : Bytes) (s : Server)
    → ((t j : ℕ) (l : Bytes) → env.accepts t j l ≡ true)
    → (deliver_pm env fd to_fd from content s).1.effects
      ≡ s.effects
        ++ Effect.sent to_fd (pm_line env (env.now s.tick) from content)
          ∷ Effect.sent fd (ok_line (codes "PM delivered"))
          ∷ []
unfolding deliver_pm cmd_send_response
deliver_pm_lem env fd to_fd from content s up =
    let now = env.now s.tick in
    let a = up (suc s.tick) to_fd (pm_line env now from content) in
    let b = up (suc (suc s.tick)) fd (ok_line (codes "PM delivered")) in
    rw (a, b) (simp append_assoc)

-- While sends succeed, a private message of a registered client to another user who is online,
-- with a name that is one word and a text of one line that fits, is sent to the descriptor of that
-- user and a confirmation to the sender, nothing else is sent, and the receiver's parser reads
-- from the line the sender's name, the time and exactly the text.
pub cmd_handle_pm_lem :
    (env : Env) (fd to_fd : ℕ) (from target content : Bytes) (s : Server)
    → MayWrite s fd from target to_fd
    → IsWord 32 from
    → IsLine from
    → IsRest 512 content
    → IsLine content
    → ((t j : ℕ) (l : Bytes) → env.accepts t j l ≡ true)
    → let time = format_timestamp env.localtime (env.now s.tick) 32 in
      let line = pm_line env (env.now s.tick) from content in
      ((cmd_handle_pm env fd target content s).1.effects
        ≡ s.effects
          ++ Effect.sent to_fd line ∷ Effect.sent fd (ok_line (codes "PM delivered")) ∷ [])
      × (parse_server_line (trim_newline line) ≡ (Status.ok, meaning (Reply.pm from time content)))
unfolding cmd_handle_pm registry_get_sockfd_by_username find_name
cmd_handle_pm_lem env fd to_fd from target content s may w l r k up =
    let time = format_timestamp env.localtime (env.now s.tick) 32 in
    (
      (let filled : is_empty content ≡ false = ground (arith, r.not_nil) in
          let apart : str_eq from target ≡ false =
            ground (arith, str_eq_iff from target, may.other) in
          rw (may.named, may.given, filled, apart, may.online)
            (rw may.named (deliver_pm_lem env fd to_fd from content s up))),
      (parse-build_server (Reply.pm from time content)
          ((w, l), format_timestamp-Word env.localtime (env.now s.tick), (r, k))).1,
    )
