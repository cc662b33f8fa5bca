-- ===== src/Client/Sent.antt =====
-- src/client/client.c: the lines that the client has sent, in order.
use ai_chatbot.Base.{◌∙◌, ℕ, ◌≡◌, refl, ap, true, false, List, [], ◌∷◌, ◌++◌, some, arith, suc}
use mathlib.Core.List.{append-nil}
use ai_chatbot.Text.{Bytes}
use ai_chatbot.Status.{Status}
use ai_chatbot.Client.State.{Event, Terminal, ChatClient, client_send_line, client_print, add_event}

abbrev pub sent_lines : List Event → List (ℕ × Bytes)
sent_lines [] = []
sent_lines (Event.sent fd line ∷ events) = (fd, line) ∷ sent_lines events
sent_lines (_ ∷ events) = sent_lines events

pub sent_lines-append : (a b : List Event) → sent_lines (a ++ b) ≡ sent_lines a ++ sent_lines b
sent_lines-append [] b = refl
sent_lines-append (Event.sent fd line ∷ a) b = ap (λ ls. (fd, line) ∷ ls) (sent_lines-append a b)
sent_lines-append (Event.printed _ ∷ a) b = sent_lines-append a b
sent_lines-append (Event.reported _ ∷ a) b = sent_lines-append a b
sent_lines-append (Event.lost _ _ ∷ a) b = sent_lines-append a b
sent_lines-append (Event.shut _ ∷ a) b = sent_lines-append a b
sent_lines-append (Event.closed _ ∷ a) b = sent_lines-append a b

-- What a client has sent.
abbrev pub sent_by : ChatClient → List (ℕ × Bytes)
sent_by cli = sent_lines cli.events

pub sent_by-client_print :
    (text : Bytes) (cli : ChatClient) → sent_by (client_print text cli) ≡ sent_by cli
unfolding client_print
sent_by-client_print text cli =
    sent_lines-append cli.events (Event.printed text ∷ []) ∙ append-nil (sent_by cli)

-- A connected client that runs sends the line.
pub client_send_line_ok :
    (t : Terminal) (line : Bytes) (cli : ChatClient) (fd : ℕ)
    → cli.sockfd ≡ some fd
    → cli.running ≡ true
    → t.accepts cli.tick fd line ≡ true
    → client_send_line t line cli
      ≡ (Status.ok, add_event (Event.sent fd line) (record cli { tick = suc cli.tick }))
unfolding client_send_line
client_send_line_ok t line cli fd s r a = ground arith

-- A client that does not run sends nothing.
pub client_send_line_stopped :
    (t : Terminal) (line : Bytes) (cli : ChatClient)
    → cli.running ≡ false
    → client_send_line t line cli ≡ (Status.io, cli)
unfolding client_send_line
client_send_line_stopped t line cli r = ground arith
