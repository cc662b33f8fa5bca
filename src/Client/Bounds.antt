-- ===== src/Client/Bounds.antt =====
-- src/client/client.c: what is in the buffers of `chat_client_t` ends with a NUL inside them.
use ai_chatbot.Base.{
  ◌<◌, ◌≡◌, refl, Bool, false, true, List, Option, some, arith, length, length-take,
}
use ai_chatbot.Text.{Bytes}
use ai_chatbot.Status.{Status, max_username_len, max_password_len, max_room_name_len}
use ai_chatbot.Client.State.{
  Event, Terminal, ChatClient, add_event, client_send_line, client_print, client_set_running,
}
use ai_chatbot.Client.Credentials.{report}
use ai_chatbot.Client.Invariant.{IsInvariant}
use ai_chatbot.Client.Start.{IsStartInvariant, client_run-kept}
use ai_chatbot.Client.Threads.{Turn}
use ai_chatbot.Client.Life.{client_run}

-- The three strings fit their buffers.
pub record FitsBuffers (cli : ChatClient) : Type 0 where
  pub name_fits : length cli.username < max_username_len
  pub password_fits : length cli.password < max_password_len
  pub room_fits : length cli.current_room < max_room_name_len

-- Whatever else changes in the struct.
same_buffers :
    (a b : ChatClient)
    → a.username ≡ b.username
    → a.password ≡ b.password
    → a.current_room ≡ b.current_room
    → FitsBuffers a
    → FitsBuffers b
same_buffers a b u p r h = record {
  name_fits = rw u at (h.name_fits);
  password_fits = rw p at (h.password_fits);
  room_fits = rw r at (h.room_fits);
}

client_send_line-FitsBuffers :
    (t : Terminal) (line : Bytes) (cli : ChatClient)
    → FitsBuffers cli
    → FitsBuffers (client_send_line t line cli).1
unfolding client_send_line
client_send_line-FitsBuffers t line cli h = ground arith

FitsBuffers-IsInvariant : (t : Terminal) → IsInvariant t FitsBuffers
unfolding client_print client_set_running
FitsBuffers-IsInvariant t = record {
  on_print = λ text cli h. same_buffers cli (client_print text cli) refl refl refl h;
  on_stop = λ cli h. same_buffers cli (client_set_running false cli) refl refl refl h;
  on_send = client_send_line-FitsBuffers t;
  on_welcome = λ name cli h. record {
    name_fits = omega (arith, length-take 31 name);
    password_fits = h.password_fits;
    room_fits = h.room_fits;
  };
  on_room = λ room cli h. record {
    name_fits = h.name_fits;
    password_fits = h.password_fits;
    room_fits = omega (arith, length-take 31 room);
  };
  on_read = λ rest cli h. same_buffers cli (record cli { stdin = rest }) refl refl refl h;
  on_shut = λ fd cli h. same_buffers cli (add_event (Event.shut fd) cli) refl refl refl h;
  on_join = λ cli h. same_buffers cli (record cli { receiver_started = false }) refl refl refl h;
}

FitsBuffers-IsStartInvariant : (t : Terminal) → IsStartInvariant t FitsBuffers
FitsBuffers-IsStartInvariant t = record {
  on_turns = FitsBuffers-IsInvariant t;
  on_report = λ text cli h. same_buffers cli (report text cli) refl refl refl h;
  on_username = λ name rest cli fits h. record {
    name_fits = fits;
    password_fits = h.password_fits;
    room_fits = h.room_fits;
  };
  on_password = λ word rest cli fits h. record {
    name_fits = h.name_fits;
    password_fits = fits;
    room_fits = h.room_fits;
  };
  on_start = λ cli h. same_buffers cli (record cli { receiver_started = true }) refl refl refl h;
}

-- When `client_run` returns, the name, the password and the room that the client holds fit their buffers with the
-- NUL, as they did before, whatever was typed, given and received, and in whatever order the threads ran.
pub client_run-FitsBuffers :
    (t : Terminal) (created : Bool) (turns : List Turn) (user pass : Option Bytes)
    (cli : ChatClient) {rc : Status} {cli' : ChatClient}
    → FitsBuffers cli
    → client_run t created turns user pass cli ≡ some (rc, cli')
    → FitsBuffers cli'
client_run-FitsBuffers t created turns user pass cli h e =
    client_run-kept t FitsBuffers (FitsBuffers-IsStartInvariant t) created turns user pass cli h e
