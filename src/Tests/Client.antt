-- ===== src/Tests/Client.antt =====
-- The client of src/client.
use ai_chatbot.Base.{
  ℕ, ◌≡◌, ◌≤◌, ◌↔◌, refl, true, false, List, [], ◌∷◌, ◌++◌, none, some, arith, inr, replicate,
}
use ai_chatbot.Text.{Bytes, codes}
use ai_chatbot.Text.Trim.{trim_newline}
use ai_chatbot.Status.{Status}
use ai_chatbot.Port.{parse_port}
use ai_chatbot.Port.Grammar.{IsNumeral, parse_port_iff}
use ai_chatbot.Protocol.Fields.{build}
use ai_chatbot.Protocol.Client.{ClientCmd, parsed, parse_client_line, build_client_auth}
use ai_chatbot.Client.State.{
  Terminal, ChatClient, client_print, client_send_line, client_is_running, client_set_running,
}
use ai_chatbot.Client.Display.{print_history_payload}
use ai_chatbot.Client.History.{print_history_payload_lem}
use ai_chatbot.Client.Input.{handle_input, fgets}
use ai_chatbot.Client.Sent.{sent_by}
use ai_chatbot.Client.Request.{Typed, IsConnected, handle_input_lem}
use ai_chatbot.Client.Credentials.{resolve_credentials, resolve_username, resolve_password}
use ai_chatbot.Client.Threads.{
  Threads, Turn, MainPlace, ReceiverPlace, run_turns, take_turn, main_turn, receiver_turn, received,
  typed, leave_loop,
}
use ai_chatbot.Client.Life.{
  Address, connect_loop, connected, client_connect, client_init, blank_client, client_start,
  client_run,
}
use ai_chatbot.Client.Program.{Machine, Exit, talk, start}
use ai_chatbot.Client.Closed.{HasSockets}
use ai_chatbot.Client.Sockets.{start_lem}
use ai_chatbot.Tests.Data.{alice, den}

abbrev pub terminal : Terminal
terminal = record { accepts = λ tick fd line. true; colors_enabled = false }

-- A client on the socket 3, before `text` is typed.
abbrev pub client_before : Bytes → ChatClient
client_before text = record {
  sockfd = some 3;
  username = alice;
  password = codes "pw";
  current_room = [];
  running = true;
  authenticated = false;
  joined = false;
  receiver_started = true;
  stdin = text;
  events = [];
  tick = 0;
}

pub client_before-IsConnected : IsConnected terminal 3 (client_before [])
client_before-IsConnected = record {
  has_socket = refl;
  is_running = refl;
  all_accepted = λ line. refl;
}

handle_input_lem_example :
    (line : Bytes) × (sent_by (handle_input terminal (codes "/join " ++ den) (client_before [])).1
      ≡ (3, line) ∷ [])
    × (parse_client_line (trim_newline line) ≡ (Status.ok, parsed ClientCmd.join_room den []))
handle_input_lem_example =
    handle_input_lem terminal 3 (client_before []) client_before-IsConnected (Typed.join_room den) (
      (
        record { not_nil = λ e. cc; fits = omega arith },
        record { no_lf = ground arith; no_cr = ground arith },
      ),
      refl,
    )

abbrev pub threads : Threads
threads = record {
  client = client_before (codes "hello\n");
  main = MainPlace.reading;
  receiver = ReceiverPlace.receiving;
}

abbrev pub four_turns : List Turn
four_turns = Turn.keyboard ∷ Turn.socket none ∷ Turn.keyboard ∷ Turn.socket none ∷ []

print_history_payload_lem_example :
    print_history_payload false (codes "alice|2024-01-01T00:00:00|hi") (client_before [])
    ≡ client_print (codes "> ") (client_before [])
print_history_payload_lem_example =
    print_history_payload_lem false (codes "alice|2024-01-01T00:00:00|hi") (client_before [])
      (λ e. cc)

abbrev letters : ℕ → Bytes
letters n = replicate n b'r'

abbrev long_room : Bytes
long_room = letters 2040

abbrev typed_text : Bytes
typed_text = codes "alice\npw\nhello\n"

parse_port_iff_example :
    (parse_port (codes " +8080") ≡ some 8080)
    ↔ (IsNumeral (codes " +8080") 8080 × (1 ≤ 8080) × (8080 ≤ 65535))
parse_port_iff_example = parse_port_iff (codes " +8080") 8080

-- Two addresses, of which the second one answers.
abbrev addresses : List Address
addresses =
    record { socket = some 3; connects = false } ∷ record { socket = some 4; connects = true } ∷ []

abbrev machine : Machine
machine = record {
  terminal = terminal;
  lock_made = true;
  io_lock_made = true;
  getaddrinfo = λ host port. inr addresses;
  thread_made = true;
  stdin = [];
  turns = Turn.keyboard ∷ Turn.socket none ∷ Turn.keyboard ∷ Turn.socket none ∷ Turn.keyboard ∷ [];
}

abbrev final : ChatClient
final = elim (start machine (codes "host") 8080 (some alice) (some (codes "pw"))) [
  | none ↦ client_before []
  | some (code, cli) ↦ cli
]

start_ends :
    start machine (codes "host") 8080 (some alice) (some (codes "pw")) ≡ some (Exit.success, final)
unfolding start client_init blank_client client_connect connect_loop connected talk client_run
    client_start resolve_credentials resolve_username resolve_password client_send_line
    build_client_auth build run_turns take_turn main_turn receiver_turn received typed leave_loop
    fgets client_is_running client_print client_set_running
start_ends = refl

start_lem_example : HasSockets (3 ∷ 4 ∷ []) none final
start_lem_example =
    start_lem machine (codes "host") 8080 (some alice) (some (codes "pw")) refl refl refl start_ends
