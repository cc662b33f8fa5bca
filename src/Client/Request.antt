-- ===== src/Client/Request.antt =====
-- src/client/client.c: from a typed line to the request that the server reads.
use ai_chatbot.Text.Trim.{trim_newline}
use ai_chatbot.Base.{suc, ℕ, ◌≡◌, ◌≢◌, refl, ◌∙◌, true, false, [], ◌∷◌, ◌++◌, some, arith, ◌==◌}
use ai_chatbot.Text.{Bytes, codes, str_eq}
use ai_chatbot.Status.{Status, max_username_len, max_msg_len, max_line_len}
use ai_chatbot.Protocol.Client.{
  ClientCmd, parsed, parse_client_line, build_client_pm, build_client_msg,
}
use ai_chatbot.Protocol.Client.RoundTrip.{build_client, IsRequest, parse-build_client}
use ai_chatbot.Client.State.{
  Event, Terminal, ChatClient, client_send_line, client_set_running, add_event,
}
use ai_chatbot.Client.Input.{handle_input, send_message, send_pm}
use ai_chatbot.Client.Pm.{IsPm, parse_at_pm_complete}
use ai_chatbot.Client.Sent.{sent_by, sent_lines-append, client_send_line_ok, sent_by-client_print}

-- What a user types, with the command and the arguments that it stands for: a command word, or a
-- message, which begins with neither a slash nor an at sign.
pub data Typed : Bytes → ClientCmd → Bytes → Bytes → Type 0 where
  quit : Typed (codes "/quit") ClientCmd.quit [] []
  exit : Typed (codes "/exit") ClientCmd.quit [] []
  users : Typed (codes "/users") ClientCmd.list [] []
  list : Typed (codes "/list") ClientCmd.list [] []
  history : Typed (codes "/history") ClientCmd.history [] []
  join_room : (r : Bytes) → Typed (codes "/join " ++ r) ClientCmd.join_room r []
  kick : (u : Bytes) → Typed (codes "/kick " ++ u) ClientCmd.kick u []
  pm : (target m : Bytes) → Typed (b'@' ∷ (target ++ b' ' ∷ m)) ClientCmd.pm target m
  msg : (c : ℕ) (m : Bytes) → c ≢ b'/' → c ≢ b'@' → Typed (c ∷ m) ClientCmd.msg [] (c ∷ m)

-- A client with the socket `fd` that runs, and whose sends succeed.
pub record IsConnected (t : Terminal) (fd : ℕ) (cli : ChatClient) : Type 0 where
  pub has_socket : cli.sockfd ≡ some fd
  pub is_running : cli.running ≡ true
  pub all_accepted : (line : Bytes) → t.accepts cli.tick fd line ≡ true

-- The line goes out behind those that were sent before.
pub client_send_line_sent :
    (t : Terminal) (line : Bytes) (cli : ChatClient) (fd : ℕ)
    → IsConnected t fd cli
    → sent_by (client_send_line t line cli).1 ≡ sent_by cli ++ (fd, line) ∷ []
client_send_line_sent t line cli fd h =
    rw (client_send_line_ok t line cli fd h.has_socket h.is_running (h.all_accepted line))
      (sent_lines-append cli.events (Event.sent fd line ∷ []))

send_pm_sent :
    (t : Terminal) (fd : ℕ) (cli : ChatClient) (target m : Bytes)
    → IsConnected t fd cli
    → IsRequest ClientCmd.pm target m
    → sent_by (send_pm t (b'@' ∷ (target ++ b' ' ∷ m)) cli).1
      ≡ sent_by cli ++ (fd, (build_client ClientCmd.pm target m).1) ∷ []
unfolding send_pm
send_pm_sent t fd cli target m h (w, l, (r, k)) =
    let pm : IsPm max_username_len max_msg_len (b'@' ∷ (target ++ b' ' ∷ m)) target m = record {
      shape = refl;
      is_word = w;
      is_rest = r;
    } in
    rw (parse_at_pm_complete max_username_len max_msg_len _ target m pm, send_pm)
      (client_send_line_sent t (build_client_pm max_line_len target m).1 cli fd h)

send_message_sent :
    (t : Terminal) (fd : ℕ) (cli : ChatClient) (m : Bytes)
    → IsConnected t fd cli
    → IsRequest ClientCmd.msg [] m
    → sent_by (send_message t m cli).1
      ≡ sent_by cli ++ (fd, (build_client ClientCmd.msg [] m).1) ∷ []
unfolding send_message
send_message_sent t fd cli m h r =
    let line : Bytes = (build_client_msg max_line_len m).1 in
    let ok = (parse-build_client ClientCmd.msg [] m r).0 in
    let sent = client_send_line_ok t line cli fd h.has_socket h.is_running (h.all_accepted line) in
    simp (ok, sent)
      (sent_by-client_print (codes "> ")
          (add_event (Event.sent fd line) (record cli { tick = suc cli.tick }))
        ∙ sent_lines-append cli.events (Event.sent fd line ∷ []))

ne-== : (a b : ℕ) → a ≢ b → (a == b) ≡ false
ne-== a b h = ground arith

-- What a typed line sends is what the builder of its command makes of its arguments.
handle_input_sent :
    (t : Terminal) (fd : ℕ) (cli : ChatClient) {input : Bytes} {c : ClientCmd} {a b : Bytes}
    → IsConnected t fd cli
    → Typed input c a b
    → IsRequest c a b
    → sent_by (handle_input t input cli).1 ≡ sent_by cli ++ (fd, (build_client c a b).1) ∷ []
unfolding handle_input str_eq client_set_running
handle_input_sent t fd cli h Typed.quit r = client_send_line_sent t _ cli fd h
handle_input_sent t fd cli h Typed.exit r = client_send_line_sent t _ cli fd h
handle_input_sent t fd cli h Typed.users r = client_send_line_sent t _ cli fd h
handle_input_sent t fd cli h Typed.list r = client_send_line_sent t _ cli fd h
handle_input_sent t fd cli h Typed.history r = client_send_line_sent t _ cli fd h
handle_input_sent t fd cli h (Typed.join_room a) r = client_send_line_sent t _ cli fd h
handle_input_sent t fd cli h (Typed.kick a) r = client_send_line_sent t _ cli fd h
handle_input_sent t fd cli h (Typed.pm target m) r = send_pm_sent t fd cli target m h r
handle_input_sent t fd cli h (Typed.msg c m x y) r =
    simp (ne-== c b'/' x, ne-== c b'@' y) (send_message_sent t fd cli (c ∷ m) h r)

-- The line that a connected client sends for what is typed, with arguments that are valid for the command, is
-- one that the server reads as exactly that command with exactly those arguments; it goes out behind the
-- lines sent before, and the client sends nothing else.
pub handle_input_lem :
    (t : Terminal) (fd : ℕ) (cli : ChatClient) {input : Bytes} {c : ClientCmd} {a b : Bytes}
    → IsConnected t fd cli
    → Typed input c a b
    → IsRequest c a b
    → (line : Bytes) × (sent_by (handle_input t input cli).1 ≡ sent_by cli ++ (fd, line) ∷ [])
      × (parse_client_line (trim_newline line) ≡ (Status.ok, parsed c a b))
handle_input_lem t fd cli {input} {c} {a} {b} h typed r =
    ((build_client c a b).1, handle_input_sent t fd cli h typed r, (parse-build_client c a b r).1)
