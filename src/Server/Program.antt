-- ===== src/Server/Program.antt =====
-- `main` of src/server/main.c. The arguments are those behind the name of the program.
use ai_chatbot.Base.{
  ℕ, Bool, not, List, [], ◌∷◌, ◌++◌, Option, none, some, if◌then◌else◌, ltb, length,
}
use ai_chatbot.Text.{Bytes, codes}
use ai_chatbot.Status.{Status, is_ok, default_port}
use ai_chatbot.Port.{parse_port}
use ai_chatbot.Queue.{Message}
use ai_chatbot.Client.Life.{decimal}
use ai_chatbot.Client.Program.{Exit}
use ai_chatbot.Server.State.{Env}
use ai_chatbot.Server.Accept.{Host, Turn, BroadcasterPlace, run_turns}
use ai_chatbot.Server.Lifecycle.{
  Setup, Listening, server_init, server_run, server_shutdown, server_destroy,
}

-- What the machine decides in one run: the environment of the handlers, how `server_init` fares with a file of
-- users, how the socket is set up, the turns that are taken until `server_run` returns and from
-- then on until `pthread_join` does, whether the `malloc` of the shutdown event succeeds, and what its uninitialised
-- fields hold.
pub record Machine : Type 0 where
  pub env : Env
  pub setup : Bytes → Setup
  pub listening : Listening
  pub turns : List Turn
  pub late_turns : List Turn
  pub shutdown_mem : Bool
  pub shutdown_msg : Message

-- What `main` has printed, its exit status, and the server at the end, if there was one.
pub record Outcome : Type 0 where
  pub exit : Exit
  pub output : List Bytes
  pub host : Option Host

abbrev default_users_db : Bytes
default_users_db = codes "data/users.db"

unfoldable pub print_usage : Bytes → List Bytes
print_usage prog =
    (codes "Usage: " ++ prog ++ codes " [port] [users.db]\n")
    ∷ (codes "  port      TCP port (default: " ++ decimal 5 default_port ++ codes ")\n")
    ∷ (codes "  users.db  User database path (default: " ++ default_users_db ++ codes ")\n")
    ∷ []

-- The port of the first argument, or the default; `none` where it is invalid.
unfoldable pub port_argument : List Bytes → Option ℕ
port_argument [] = some default_port
port_argument (port ∷ _) = parse_port port

abbrev invalid_port : List Bytes → Bytes
invalid_port [] = []
invalid_port (port ∷ _) = codes "Invalid port: " ++ port ++ codes "\n"

abbrev users_argument : List Bytes → Bytes
users_argument (_ ∷ users_db ∷ _) = users_db
users_argument _ = default_users_db

module _ (m : Machine) where
  -- `server_shutdown` and `server_destroy`; `none` while `pthread_join` waits for the broadcaster.
  unfoldable pub stop : Host → Option Host
  stop h =
      let h' = run_turns m.env m.late_turns (server_shutdown m.shutdown_mem m.shutdown_msg h) in
      elim h'.broadcaster [ BroadcasterPlace.looping ↦ none | _ ↦ some (server_destroy h') ]

  -- `main` behind `server_run`.
  unfoldable pub finish : Status → Host → Option Outcome
  finish rc h = elim (stop h) [
    | none ↦ none
    | some h' ↦ some (
        if is_ok rc
        then record {
          exit = Exit.success;
          output = codes "Server shut down cleanly\n" ∷ [];
          host = some h';
        }
        else record { exit = Exit.failure; output = []; host = some h' })
  ]

  unfoldable pub serve : ℕ → Bytes → Option Outcome
  serve port users_db =
      let (made, h, _) = server_init (m.setup users_db) port in
      if not (is_ok made)
      then some (record {
        exit = Exit.failure;
        output =
            (codes "Failed to initialize server (check users db: " ++ users_db ++ codes ")\n") ∷ [];
        host = none;
      })
      else elim (server_run m.env m.listening m.turns h) [
        | none ↦ none
        | some (rc, h') ↦ finish rc h'
      ]

  -- `none` while a call waits.
  unfoldable pub server_main : Bytes → List Bytes → Option Outcome
  server_main prog args =
      if ltb 2 (length args)
      then some (record { exit = Exit.failure; output = print_usage prog; host = none })
      else elim (port_argument args) [
        | none ↦ some (record { exit = Exit.failure; output = invalid_port args ∷ []; host = none })
        | some port ↦ serve port (users_argument args)
      ]
