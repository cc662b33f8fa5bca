-- ===== src/Tests/Delivery.antt =====
-- The way of a text through the program.
use ai_chatbot.Base.{◌≡◌, refl, true, false, [], ◌∷◌, some, none, arith}
use ai_chatbot.Text.{Bytes, codes}
use ai_chatbot.Text.Trim.{trim_newline, IsLine}
use ai_chatbot.Clock.{format_timestamp}
use ai_chatbot.Registry.UserList.{in_room}
use ai_chatbot.Protocol.Client.Grammar.{IsWord}
use ai_chatbot.Server.State.{Effect}
use ai_chatbot.Server.Commands.Deliver.{ok_line}
use ai_chatbot.Server.Session.{Session, session_step}
use ai_chatbot.Server.Broadcast.{broadcaster_thread}
use ai_chatbot.Server.Broadcast.Fanout.{sends}
use ai_chatbot.Client.State.{client_print}
use ai_chatbot.Client.Input.{handle_input}
use ai_chatbot.Client.Request.{Typed}
use ai_chatbot.Client.Sent.{sent_by}
use ai_chatbot.Client.Threads.{received}
use ai_chatbot.Delivery.Kick.{kick_effects, kick_delivered}
use ai_chatbot.Server.Commands.Kick.{MayKick}
use ai_chatbot.Registry.{
  find_fd, find_name, registry_get_username, registry_is_admin, registry_get_sockfd_by_username,
}
use ai_chatbot.Text.{str_eq}
use ai_chatbot.Client.Threads.{Turn, main_turn, run_turns}
use ai_chatbot.Client.Ending.{HasEnded}
use ai_chatbot.Delivery.Chat.{Speaks, chat_shown, msg_delivered}
use ai_chatbot.Delivery.Pm.{pm_shown, pm_delivered}
use ai_chatbot.Tests.Data.{alice, bob, lobby, hello, env_up, server, alice-IsWord, hello-IsRest}
use ai_chatbot.Tests.Client.{
  terminal, client_before, client_before-IsConnected, threads, four_turns,
}
use ai_chatbot.Tests.Server.{alice-Present, alice_to_bob}

abbrev in_ : Session
in_ = record { authenticated = true; username = alice }

bob-IsWord : IsWord 32 bob × IsLine bob
bob-IsWord = (
  record { no_blank = ground arith; not_nil = λ e. cc; fits = omega arith },
  record { no_lf = ground arith; no_cr = ground arith },
)

pm_delivered_example :
    (request line : Bytes) × (sent_by
        (handle_input terminal (codes "@bob hello all") (client_before [])).1
      ≡ (3, request) ∷ [])
    × ((session_step env_up 4 in_ (trim_newline request) server).1.effects
        ≡ Effect.sent 5 line ∷ Effect.sent 4 (ok_line (codes "PM delivered")) ∷ [])
    × (received terminal (some (trim_newline line)) (client_before [])
        ≡ client_print
            (pm_shown false (format_timestamp (λ t. none) 1700000000 32) alice hello)
            (client_before []))
pm_delivered_example =
    pm_delivered env_up terminal terminal 3 4 5 (client_before []) (client_before []) in_ server
      alice bob hello client_before-IsConnected bob-IsWord hello-IsRest refl alice_to_bob
      alice-IsWord (λ t fd line. refl)

alice-Speaks : Speaks server 4 in_ alice lobby
alice-Speaks = record {
  known = refl;
  present = alice-Present;
  name_word = record { no_blank = ground arith; not_nil = λ e. cc; fits = omega arith };
  name_line = record { no_lf = ground arith; no_cr = ground arith };
  room_word = record { no_blank = ground arith; not_nil = λ e. cc; fits = omega arith };
  room_line = record { no_lf = ground arith; no_cr = ground arith };
}

msg_delivered_example :
    (request line : Bytes) × (sent_by (handle_input terminal hello (client_before [])).1
      ≡ (3, request) ∷ [])
    × (let queued = (session_step env_up 4 in_ (trim_newline request) server).1 in
        (broadcaster_thread env_up 1 queued).1.effects
        ≡ Effect.sent 4 (ok_line (codes "message sent"))
          ∷ sends line (in_room lobby server.registry.nodes))
    × (received terminal (some (trim_newline line)) (client_before [])
        ≡ client_print
            (chat_shown false (format_timestamp (λ t. none) 1700000000 32) lobby alice hello)
            (client_before []))
msg_delivered_example =
    msg_delivered env_up terminal terminal 3 4 (client_before []) (client_before []) in_ server
      alice lobby hello client_before-IsConnected
      (Typed.msg 104 (codes "ello all") (λ e. cc) (λ e. cc))
      (record { not_nil = λ e. cc; fits = omega arith }, hello-IsRest.1) alice-Speaks refl
      (λ t fd line. refl) (λ k. refl) (λ k. refl)

alice_kicks_bob : MayKick server 4 bob 5
unfolding registry_get_username registry_is_admin find_fd registry_get_sockfd_by_username find_name
    str_eq
alice_kicks_bob = record { right = refl; given = refl; other = λ e. cc; online = refl }

kick_delivered_example :
    (request line : Bytes) × (sent_by
        (handle_input terminal (codes "/kick bob") (client_before [])).1
      ≡ (3, request) ∷ [])
    × ((session_step env_up 4 in_ (trim_newline request) server).1.effects ≡ kick_effects 4 5 line)
    × (let end = run_turns terminal (Turn.socket (some (trim_newline line)) ∷ four_turns) threads in
        (sent_by end.client ≡ []) × HasEnded (main_turn terminal end))
kick_delivered_example =
    kick_delivered env_up terminal terminal 3 4 5 (client_before []) threads four_turns in_ server
      bob client_before-IsConnected (record { not_nil = λ e. cc; fits = omega arith }, bob-IsWord.1)
      refl alice_kicks_bob (λ t fd line. refl) refl (omega arith) (omega arith)
