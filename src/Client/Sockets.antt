-- ===== src/Client/Sockets.antt =====
-- src/client/client.c: the sockets that the client makes and closes.
use mathlib.Core.List.{append-nil}
use ai_chatbot.Base.{
  ℕ, ◌≡◌, refl, sym, ap, ◌∙◌, Bool, true, false, List, [], ◌∷◌, ◌++◌, Option, none, some, arith,
  Option-cases, Bool-cases, inl, inr, some_inj,
}
use ai_chatbot.Text.{Bytes, codes}
use ai_chatbot.Status.{Status, is_ok}
use ai_chatbot.Client.State.{Event, ChatClient, add_event, client_set_running}
use ai_chatbot.Client.Start.{client_run-kept}
use mathlib.Core.List.{append_assoc}
use ai_chatbot.Client.Life.{
  blank_client, client_init, connected, close_socket, GetAddrInfo, decimal, Address, connect_loop,
  client_connect, client_run, client_disconnect, client_destroy,
}
use ai_chatbot.Client.Program.{Machine, Exit, talk, start}
use ai_chatbot.Client.Closed.{
  closed_in, closed_in-append, opened, HasSockets, other_event, HasSockets-IsStartInvariant,
}

-- The socket of a result, if any.
abbrev pub as_list : Option ℕ → List ℕ
as_list none = []
as_list (some fd) = fd ∷ []

-- The loop closes each socket that it makes, but for the one that connects, which it returns.
connect_loop_lem :
    (res : List Address) (cli : ChatClient)
    → closed_in (connect_loop res cli).1.events ++ as_list (connect_loop res cli).0
      ≡ closed_in cli.events ++ opened res
unfolding connect_loop
connect_loop_lem [] cli = refl
connect_loop_lem (rp ∷ res) cli = elim (Option-cases rp.socket) [
  | inl e ↦ rw (e, connect_loop, opened) (connect_loop_lem res cli)
  | inr (fd, e) ↦ elim (Bool-cases rp.connects) [
    | inl t ↦ rw (e, connect_loop, opened) (rw t)
    | inr f ↦
        rw (e, connect_loop, opened)
          (rw f (
            connect_loop_lem res (add_event (Event.closed fd) cli)
            ∙ ap (λ fds. fds ++ opened res) (closed_in-append cli.events (Event.closed fd ∷ []))
            ∙ append_assoc (closed_in cli.events) (fd ∷ []) (opened res)))
  ]
]

connect_loop-sockfd :
    (res : List Address) (cli : ChatClient) → (connect_loop res cli).1.sockfd ≡ cli.sockfd
unfolding connect_loop
connect_loop-sockfd [] cli = refl
connect_loop-sockfd (rp ∷ res) cli = elim (Option-cases rp.socket) [
  | inl e ↦ rw (e, connect_loop) (connect_loop-sockfd res cli)
  | inr (fd, e) ↦
      let rest = connect_loop-sockfd res (add_event (Event.closed fd) cli) in ground arith
]

-- The sockets that are closed, and then the one that is open.
abbrev all_sockets : ChatClient → List ℕ
all_sockets cli = closed_in cli.events ++ as_list cli.sockfd

connected_lem :
    (host : Bytes) (port : ℕ) (found : Option ℕ) (cli : ChatClient)
    → cli.sockfd ≡ none
    → all_sockets (connected host port found cli).1 ≡ closed_in cli.events ++ as_list found
unfolding connected
connected_lem host port none cli idle =
    let text : Bytes =
      codes "Could not connect to " ++ host ++ codes ":" ++ decimal 5 port ++ codes "\n" in
    let quiet =
      other_event (closed_in cli.events) none (Event.reported text) cli refl
        (record { has_closed = refl; has_open = idle }) in
    rw (quiet.has_closed, idle)
connected_lem host port (some fd) cli idle = refl

client_connect_lem :
    (getaddrinfo : GetAddrInfo) (host : Bytes) (port : ℕ) (cli : ChatClient) {res : List Address}
    → cli.sockfd ≡ none
    → getaddrinfo host (decimal 5 port) ≡ inr res
    → all_sockets (client_connect getaddrinfo host port cli).1 ≡ closed_in cli.events ++ opened res
unfolding client_connect
client_connect_lem getaddrinfo host port cli {res} idle e =
    let tried : ChatClient = (connect_loop res cli).1 in
    rw (e, client_connect)
      (connected_lem host port (connect_loop res cli).0 tried (connect_loop-sockfd res cli ∙ idle)
        ∙ connect_loop_lem res cli)

-- The client has closed the sockets of the list, each once, and has none open.
abbrev HasClosed : List ℕ → ChatClient → Type 0
HasClosed fds = HasSockets fds none

close_socket_lem :
    (fd : Option ℕ) (cli : ChatClient)
    → cli.sockfd ≡ fd
    → HasClosed (closed_in cli.events ++ as_list fd) (close_socket fd cli)
unfolding close_socket
close_socket_lem none cli e = record {
  has_closed = sym (append-nil (closed_in cli.events));
  has_open = e;
}
close_socket_lem (some fd) cli e = record {
  has_closed = closed_in-append cli.events (Event.closed fd ∷ []);
  has_open = refl;
}

client_destroy_lem : (cli : ChatClient) → HasClosed (all_sockets cli) (client_destroy cli)
unfolding client_destroy client_disconnect client_set_running
client_destroy_lem cli = close_socket_lem cli.sockfd (client_set_running false cli) refl

-- Once `client_run` has returned, `client_destroy` closes the socket that the client had before.
talk_lem :
    (m : Machine) (user pass : Option Bytes) (cli : ChatClient) {code : Exit} {cli' : ChatClient}
    → talk m user pass cli ≡ some (code, cli')
    → HasClosed (all_sockets cli) cli'
unfolding talk
talk_lem m user pass cli e =
    elim (Option-cases (client_run m.terminal m.thread_made m.turns user pass cli)) [
      | inl waits ↦ cc (rw (waits, talk) at e)
      | inr ((rc, end), done) ↦
          let start : HasSockets (closed_in cli.events) cli.sockfd cli = record {
            has_closed = refl;
            has_open = refl;
          } in
          let kept =
            client_run-kept m.terminal (HasSockets (closed_in cli.events) cli.sockfd)
              (HasSockets-IsStartInvariant _ _ m.terminal) m.thread_made m.turns user pass cli start
              done in
          let same : all_sockets end ≡ all_sockets cli = rw (kept.has_closed, kept.has_open) in
          let ended : HasClosed (all_sockets cli) (client_destroy end) =
            rw same at (client_destroy_lem end) in
          let farewell =
            other_event (all_sockets cli) none (Event.printed (codes "Disconnected.\n"))
              (client_destroy end) refl ended in
          let e' = some_inj (rw (done, talk) at e) in
          elim (Bool-cases (is_ok rc)) [
            | inl t ↦ rw (ap (λ (r : Exit × ChatClient). r.1) (rw t at e')) at farewell
            | inr f ↦ rw (ap (λ (r : Exit × ChatClient). r.1) (rw f at e')) at ended
          ]
    ]

client_init_ok :
    (lock_made io_lock_made : Bool) (stdin : Bytes)
    → lock_made ≡ true
    → io_lock_made ≡ true
    → client_init lock_made io_lock_made stdin ≡ (Status.ok, blank_client stdin)
unfolding client_init
client_init_ok lock_made io_lock_made stdin l k = ground arith

-- `main` of the client closes every socket that it makes, those on which `connect` fails and the one on which it
-- succeeds, each exactly once and in the order in which they were made, and has none open when it
-- ends, whether it fails or not and whatever its threads do.
pub start_lem :
    (m : Machine) (host : Bytes) (port : ℕ) (user pass : Option Bytes) {res : List Address}
    {code : Exit} {cli' : ChatClient}
    → m.lock_made ≡ true
    → m.io_lock_made ≡ true
    → m.getaddrinfo host (decimal 5 port) ≡ inr res
    → start m host port user pass ≡ some (code, cli')
    → HasClosed (opened res) cli'
unfolding start blank_client
start_lem m host port user pass {res} l k e h =
    let idle : ChatClient = blank_client m.stdin in
    let cli : ChatClient = (client_connect m.getaddrinfo host port idle).1 in
    let whole : all_sockets cli ≡ opened res =
      client_connect_lem m.getaddrinfo host port idle refl e in
    let h' = rw (client_init_ok m.lock_made m.io_lock_made m.stdin l k) at h in
    elim (Bool-cases (is_ok (client_connect m.getaddrinfo host port idle).0)) [
      | inl t ↦ rw whole at (talk_lem m user pass cli (rw t at h'))
      | inr f ↦
          rw (ap (λ (r : Exit × ChatClient). r.1) (some_inj (rw f at h')), whole) at
            (client_destroy_lem cli)
    ]
