-- ===== src/Client/Program.antt =====
-- `main` of src/client/main.c. The arguments are those behind the name of the program.
use ai_chatbot.Base.{
  ℕ, Bool, not, List, [], ◌∷◌, ◌++◌, Option, none, some, if◌then◌else◌, ltb, length, get_elem?,
}
use ai_chatbot.Text.{Bytes, codes}
use ai_chatbot.Status.{is_ok, default_port}
use ai_chatbot.Port.{parse_port}
use ai_chatbot.Client.State.{Terminal, ChatClient}
use ai_chatbot.Client.Credentials.{print, report}
use ai_chatbot.Client.Threads.{Turn}
use ai_chatbot.Client.Life.{
  GetAddrInfo, blank_client, client_init, client_connect, client_run, client_destroy, decimal,
}

-- What the machine decides in one run: whether the two mutexes and the thread can be made, what
-- `getaddrinfo` gives, what is typed, and the turns that the threads take.
pub record Machine : Type 0 where
  pub terminal : Terminal
  pub lock_made : Bool
  pub io_lock_made : Bool
  pub getaddrinfo : GetAddrInfo
  pub thread_made : Bool
  pub stdin : Bytes
  pub turns : List Turn

-- The dash of the text, in UTF-8.
abbrev dash : Bytes
dash = 226 ∷ 128 ∷ 148 ∷ []

unfoldable pub print_usage : Bytes → ChatClient → ChatClient
print_usage prog cli =
    report (codes "  password  Optional " ++ dash ++ codes " prompt if omitted\n") (
      report (codes "  username  Optional " ++ dash ++ codes " prompt if omitted\n") (
        report (codes "  port      TCP port (default: " ++ decimal 5 default_port ++ codes ")\n") (
          report (codes "  host      Server IP/hostname (default: 127.0.0.1)\n") (
            report (codes "Usage: " ++ prog ++ codes " [host] [port] [username] [password]\n")
              cli))))

-- EXIT_SUCCESS or EXIT_FAILURE
pub data Exit : Type 0 where
  success failure : Exit

abbrev pub first_or : Bytes → List Bytes → Bytes
first_or d [] = d
first_or d (a ∷ _) = a

-- The port of the second argument, or the default; `none` where it is invalid.
unfoldable pub port_argument : List Bytes → Option ℕ
port_argument (_ ∷ port ∷ _) = parse_port port
port_argument _ = some default_port

abbrev invalid_port : List Bytes → Bytes
invalid_port args = elim (get_elem? args 1) [
  | none ↦ []
  | some a ↦ codes "Invalid port: " ++ a ++ codes "\n"
]

module _ (m : Machine) where
  -- `main` behind `client_connect`.
  unfoldable pub talk : Option Bytes → Option Bytes → ChatClient → Option (Exit × ChatClient)
  talk username password cli =
      elim (client_run m.terminal m.thread_made m.turns username password cli) [
        | none ↦ none
        | some (rc, cli') ↦ some (
            if is_ok rc
            then (Exit.success, print (codes "Disconnected.\n") (client_destroy cli'))
            else (Exit.failure, client_destroy cli'))
      ]

  -- `main` behind the arguments.
  unfoldable pub start : Bytes → ℕ → Option Bytes → Option Bytes → Option (Exit × ChatClient)
  start host port username password =
      let (made, cli) = client_init m.lock_made m.io_lock_made m.stdin in
      if not (is_ok made)
      then some (Exit.failure, cli)
      else (let (connected, cli') = client_connect m.getaddrinfo host port cli in
          if not (is_ok connected)
          then some (Exit.failure, client_destroy cli')
          else talk username password cli')

  -- `none` while `client_run` has not returned.
  unfoldable pub client_main : Bytes → List Bytes → Option (Exit × ChatClient)
  client_main prog args =
      let idle = blank_client m.stdin in
      if ltb 4 (length args)
      then some (Exit.failure, print_usage prog idle)
      else elim (port_argument args) [
        | none ↦ some (Exit.failure, report (invalid_port args) idle)
        | some port ↦
            start (first_or (codes "127.0.0.1") args) port (get_elem? args 2) (get_elem? args 3)
      ]
