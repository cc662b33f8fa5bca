-- ===== src/Client/Stopped.antt =====
-- src/client/client.c: the client behind the moment at which `running` is 0.
use mathlib.Core.List.{append-nil}
use ai_chatbot.Client.Invariant.{IsInvariant}
use ai_chatbot.Base.{ℕ, ◌≡◌, refl, ◌∙◌, false, List, [], ◌∷◌}
use ai_chatbot.Text.{Bytes}
use ai_chatbot.Client.State.{
  Event, Terminal, ChatClient, client_send_line, client_print, client_set_running,
}
use ai_chatbot.Client.Sent.{
  sent_by, sent_lines-append, sent_by-client_print, client_send_line_stopped,
}

-- The client does not run, and has sent `sent` and nothing else.
pub record IsStopped (sent : List (ℕ × Bytes)) (cli : ChatClient) : Type 0 where
  pub not_running : cli.running ≡ false
  pub has_sent : sent_by cli ≡ sent

module _ (sent : List (ℕ × Bytes)) where
  client_print-IsStopped :
      (text : Bytes) (cli : ChatClient)
      → IsStopped sent cli
      → IsStopped sent (client_print text cli)
  unfolding client_print
  client_print-IsStopped text cli h = record {
    not_running = h.not_running;
    has_sent = sent_by-client_print text cli ∙ h.has_sent;
  }

  pub client_set_running-IsStopped :
      (cli : ChatClient) → IsStopped sent cli → IsStopped sent (client_set_running false cli)
  unfolding client_set_running
  client_set_running-IsStopped cli h = record { not_running = refl; has_sent = h.has_sent }

  client_send_line-IsStopped :
      (t : Terminal) (line : Bytes) (cli : ChatClient)
      → IsStopped sent cli
      → IsStopped sent (client_send_line t line cli).1
  client_send_line-IsStopped t line cli h = rw (client_send_line_stopped t line cli h.not_running) h

  -- Every step of the client keeps it.
  pub IsStopped-IsInvariant : (t : Terminal) → IsInvariant t (IsStopped sent)
  IsStopped-IsInvariant t = record {
    on_print = client_print-IsStopped;
    on_stop = client_set_running-IsStopped;
    on_send = client_send_line-IsStopped t;
    on_welcome = λ name cli h. record { not_running = h.not_running; has_sent = h.has_sent };
    on_room = λ room cli h. record { not_running = h.not_running; has_sent = h.has_sent };
    on_read = λ rest cli h. record { not_running = h.not_running; has_sent = h.has_sent };
    on_shut = λ fd cli h. record {
      not_running = h.not_running;
      has_sent =
          sent_lines-append cli.events (Event.shut fd ∷ []) ∙ append-nil (sent_by cli) ∙ h.has_sent;
    };
    on_join = λ cli h. record { not_running = h.not_running; has_sent = h.has_sent };
  }
