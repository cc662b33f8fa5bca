-- ===== src/Client/Life.antt =====
-- src/client/client.c: `client_init`, `client_connect`, `client_run`, `client_disconnect` and
-- `client_destroy`; and `main` of src/client/main.c.
use ai_chatbot.Base.{
  ℕ, zero, suc, ◌+◌, ◌/◌, ◌%◌, Bool, true, false, not, List, [], ◌∷◌, ◌++◌, Option, none, some, ltb,
  if◌then◌else◌, ◌⊎◌, inl, inr,
}
use ai_chatbot.Text.{Bytes, codes}
use ai_chatbot.Status.{Status, is_ok, max_line_len}
use ai_chatbot.Protocol.Client.{build_client_auth}
use ai_chatbot.Client.State.{
  Event, Terminal, ChatClient, add_event, client_set_running, client_print, client_send_line,
  c_bold, c_reset,
}
use ai_chatbot.Client.Credentials.{report, resolve_credentials}
use ai_chatbot.Client.Threads.{Turn, MainPlace, ReceiverPlace, run_turns}

-- The struct behind `memset`, with what will be typed.
unfoldable pub blank_client : Bytes → ChatClient
blank_client stdin = record {
  sockfd = none;
  username = [];
  password = [];
  current_room = [];
  running = true;
  authenticated = false;
  joined = false;
  receiver_started = false;
  stdin = stdin;
  events = [];
  tick = 0;
}

-- On whether each of the two calls of `pthread_mutex_init` succeeds.
unfoldable pub client_init : Bool → Bool → Bytes → Status × ChatClient
client_init lock_made io_lock_made stdin =
    if not lock_made
    then (Status.err, blank_client stdin)
    else if not io_lock_made
    then (Status.err, blank_client stdin)
    else (Status.ok, blank_client stdin)

-- "%u" of a number of at most `n` digits.
unfoldable pub decimal : ℕ → ℕ → Bytes
decimal zero v = []
decimal (suc n) v =
    let front = decimal n (v / 10) in (if ltb v 10 then [] else front) ++ (b'0' + v % 10) ∷ []

-- One address that `getaddrinfo` gives: the socket that is made for it, if any, and whether `connect`
-- succeeds.
pub record Address : Type 0 where
  pub socket : Option ℕ
  pub connects : Bool

-- The loop over the addresses: the descriptor, if any.
unfoldable pub connect_loop : List Address → ChatClient → Option ℕ × ChatClient
connect_loop [] cli = (none, cli)
connect_loop (rp ∷ res) cli = elim rp.socket [
  | none ↦ connect_loop res cli
  | some fd ↦
      let rest = connect_loop res (add_event (Event.closed fd) cli) in
      if rp.connects then (some fd, cli) else rest
]

-- What `getaddrinfo` gives for a host and a port, and `gai_strerror` of its error.
abbrev pub GetAddrInfo : Type 0
GetAddrInfo = Bytes → Bytes → Bytes ⊎ List Address

-- `client_connect` behind its loop.
unfoldable pub connected : Bytes → ℕ → Option ℕ → ChatClient → Status × ChatClient
connected host port none cli = (
  Status.err,
  report (codes "Could not connect to " ++ host ++ codes ":" ++ decimal 5 port ++ codes "\n") cli,
)
connected host port (some fd) cli = (Status.ok, record cli { sockfd = some fd })

unfoldable pub client_connect : GetAddrInfo → Bytes → ℕ → ChatClient → Status × ChatClient
client_connect getaddrinfo host port cli = elim (getaddrinfo host (decimal 5 port)) [
  | inl error ↦ (Status.err, report (codes "getaddrinfo: " ++ error ++ codes "\n") cli)
  | inr res ↦ let (found, tried) = connect_loop res cli in connected host port found tried
]

module _ (t : Terminal) where
  abbrev pub greeting : Bytes
  greeting =
      c_bold t.colors_enabled
      ++ codes
          "Connected. Commands: message, @user PM, /users, /join room, /history, /kick user (admin), /quit"
      ++ c_reset t.colors_enabled
      ++ codes "\n> "

  -- `client_run` up to its loop, on whether `pthread_create` succeeds.
  unfoldable pub client_start :
      Bool → Option Bytes → Option Bytes → ChatClient → Status × ChatClient
  client_start created username_override password_override cli = elim cli.sockfd [
    | none ↦ (Status.err, cli)
    | some _ ↦
        let (resolved, named) = resolve_credentials username_override password_override cli in
        if not (is_ok resolved)
        then (Status.err, named)
        else (let (built, out) = build_client_auth max_line_len named.username named.password in
            if not (is_ok built)
            then (Status.io, named)
            else (let (sent, cli') = client_send_line t out named in
                if not (is_ok sent)
                then (Status.io, cli')
                else if not created
                then (Status.err, cli')
                else (Status.ok, client_print greeting (record cli' { receiver_started = true }))))
  ]

  -- `client_run`, with the turns that its threads take; `none` while it has not returned.
  unfoldable pub client_run :
      Bool → List Turn → Option Bytes → Option Bytes → ChatClient → Option (Status × ChatClient)
  client_run created turns username_override password_override cli =
      let (started, cli') = client_start created username_override password_override cli in
      if not (is_ok started)
      then some (started, cli')
      else (let s = run_turns t turns (record {
        client = cli';
        main = MainPlace.testing;
        receiver = ReceiverPlace.testing;
      }) in
          elim s.main [ MainPlace.returned ↦ some (Status.ok, s.client) | _ ↦ none ])

-- `close(cli->sockfd); cli->sockfd = -1`, if there is a socket.
unfoldable pub close_socket : Option ℕ → ChatClient → ChatClient
close_socket none cli = cli
close_socket (some fd) cli = record (add_event (Event.closed fd) cli) { sockfd = none }

unfoldable pub client_disconnect : ChatClient → ChatClient
client_disconnect cli = close_socket cli.sockfd (client_set_running false cli)

-- Behind it the two mutexes are destroyed.
unfoldable pub client_destroy : ChatClient → ChatClient
client_destroy cli = client_disconnect cli
