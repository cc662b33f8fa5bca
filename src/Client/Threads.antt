-- ===== src/Client/Threads.antt =====
-- src/client/client.c: the two threads of the client, `receiver_thread` and the loop of `client_run`, as a
-- machine that takes one turn after another, of whichever thread. A turn runs from one call that may block,
-- or from one test of `running`, to the next.
use ai_chatbot.Base.{false, List, [], ◌∷◌, ◌++◌, Option, none, some, if◌then◌else◌}
use ai_chatbot.Text.{Bytes, codes}
use ai_chatbot.Text.Trim.{trim_newline}
use ai_chatbot.Status.{is_ok, max_line_len}
use ai_chatbot.Protocol.Server.{parse_server_line}
use ai_chatbot.Client.State.{
  Event, Terminal, ChatClient, add_event, client_set_running, client_is_running, client_print,
  c_red, c_reset,
}
use ai_chatbot.Client.Display.{display_server_message}
use ai_chatbot.Client.Input.{fgets, handle_input}

-- Where the main thread stands: before the test of `running`, in `fgets`, in `pthread_join`, or at the
-- end of `client_run`.
pub data MainPlace : Type 0 where
  testing reading joining returned : MainPlace

-- Where the receiver stands: before the test of `running`, in `client_recv_line`, or at its end.
pub data ReceiverPlace : Type 0 where
  testing receiving returned : ReceiverPlace

pub record Threads : Type 0 where
  pub client : ChatClient
  pub main : MainPlace
  pub receiver : ReceiverPlace

-- A turn of the main thread, or of the receiver, with what `client_recv_line` gives when it is blocked
-- there: the line, or `none` for an error.
pub data Turn : Type 0 where
  keyboard : Turn
  socket : Option Bytes → Turn

-- `shutdown(cli->sockfd, SHUT_RDWR)`, if there is a socket.
abbrev pub shut_down : ChatClient → ChatClient
shut_down cli = elim cli.sockfd [ none ↦ cli | some fd ↦ add_event (Event.shut fd) cli ]

-- Behind the loop of `client_run`, up to `pthread_join`.
unfoldable pub leave_loop : Threads → Threads
leave_loop s = record s { client = shut_down s.client; main = MainPlace.joining }

module _ (t : Terminal) where
  -- The main thread behind `fgets`.
  unfoldable pub typed : Threads → Threads
  typed s = elim (fgets max_line_len s.client.stdin) [
    | none ↦ leave_loop s
    | some (input, rest) ↦
        let (goes_on, cli) =
          handle_input t (trim_newline input) (record s.client { stdin = rest }) in
        if goes_on
        then record s { client = cli; main = MainPlace.testing }
        else leave_loop (record s { client = cli })
  ]

  unfoldable pub main_turn : Threads → Threads
  main_turn s = elim s.main [
    | MainPlace.testing ↦
        if client_is_running s.client then record s { main = MainPlace.reading } else leave_loop s
    | MainPlace.reading ↦ typed s
    | MainPlace.joining ↦ elim s.receiver [
      | ReceiverPlace.returned ↦ record s {
        client = record s.client { receiver_started = false };
        main = MainPlace.returned;
      }
      | _ ↦ s
    ]
    | MainPlace.returned ↦ s
  ]

  -- The receiver behind `client_recv_line`.
  unfoldable pub received : Option Bytes → ChatClient → ChatClient
  received none cli = client_set_running false (
      client_print
        (codes "\n"
          ++ c_red t.colors_enabled
          ++ codes "*** Server disconnected ***"
          ++ c_reset t.colors_enabled
          ++ codes "\n")
        cli)
  received (some line) cli =
      let (status, resp) = parse_server_line line in
      if is_ok status
      then display_server_message t.colors_enabled resp cli
      else client_print (codes "\n[server] " ++ line ++ codes "\n> ") cli

  -- Behind an error the loop is left by `break`, behind a line it is tested again.
  abbrev pub place_after : Option Bytes → ReceiverPlace
  place_after none = ReceiverPlace.returned
  place_after (some _) = ReceiverPlace.testing

  unfoldable pub receiver_turn : Option Bytes → Threads → Threads
  receiver_turn line s = elim s.receiver [
    | ReceiverPlace.testing ↦ record s {
      receiver =
          if client_is_running s.client then ReceiverPlace.receiving else ReceiverPlace.returned;
    }
    | ReceiverPlace.receiving ↦ record s {
      client = received line s.client;
      receiver = place_after line;
    }
    | _ ↦ s
  ]

  unfoldable pub take_turn : Turn → Threads → Threads
  take_turn Turn.keyboard s = main_turn s
  take_turn (Turn.socket line) s = receiver_turn line s

  unfoldable pub run_turns : List Turn → Threads → Threads
  run_turns [] s = s
  run_turns (turn ∷ turns) s = run_turns turns (take_turn turn s)
