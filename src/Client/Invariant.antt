-- ===== src/Client/Invariant.antt =====
-- src/client/client.c: what every step of the client keeps. A property of `chat_client_t` that the few
-- primitive updates keep is kept by each thread, and by any sequence of turns.
use ai_chatbot.Base.{
  ◌-◌, ℕ, Bool, true, false, List, [], ◌∷◌, ◌++◌, Option, none, some, arith, drop, Option-cases,
  inl, inr, if_elim,
}
use ai_chatbot.Text.{Bytes, codes, strncpy}
use ai_chatbot.Text.Trim.{trim_newline}
use ai_chatbot.Status.{max_username_len, max_msg_len, max_line_len, max_room_name_len}
use ai_chatbot.Protocol.Client.{
  build_client_quit, build_client_list, build_client_join_room, build_client_history,
  build_client_kick, build_client_msg,
}
use ai_chatbot.Protocol.Server.{ServerResp, ParsedResp, parse_server_line}
use ai_chatbot.Client.State.{
  Event, Terminal, ChatClient, add_event, client_send_line, client_print, client_set_running,
  client_is_running,
}
use ai_chatbot.Client.Display.{display_as, display_server_message, print_history_payload}
use ai_chatbot.Client.History.{print_history_payload_lem}
use ai_chatbot.Client.Input.{fgets, handle_input, send_message, send_pm, parse_at_pm}
use ai_chatbot.Client.Threads.{
  Threads, Turn, leave_loop, typed, main_turn, received, receiver_turn, take_turn, run_turns,
}

-- The property is kept by each primitive update.
pub record IsInvariant (t : Terminal) (P : ChatClient → Type 0) : Type 0 where
  pub on_print : (text : Bytes) (cli : ChatClient) → P cli → P (client_print text cli)
  pub on_stop : (cli : ChatClient) → P cli → P (client_set_running false cli)
  pub on_send : (line : Bytes) (cli : ChatClient) → P cli → P (client_send_line t line cli).1
  pub on_welcome :
      (name : Bytes) (cli : ChatClient)
      → P cli
      → P (record cli { authenticated = true; username = strncpy (max_username_len - 1) name })
  pub on_room :
      (room : Bytes) (cli : ChatClient)
      → P cli
      → P (record cli { current_room = strncpy (max_room_name_len - 1) room; joined = true })
  pub on_read : (rest : Bytes) (cli : ChatClient) → P cli → P (record cli { stdin = rest })
  pub on_shut : (fd : ℕ) (cli : ChatClient) → P cli → P (add_event (Event.shut fd) cli)
  pub on_join : (cli : ChatClient) → P cli → P (record cli { receiver_started = false })

module _ (t : Terminal) (P : ChatClient → Type 0) (inv : IsInvariant t P) where
  send_message-kept : (input : Bytes) (cli : ChatClient) → P cli → P (send_message t input cli).1
  unfolding send_message
  send_message-kept input cli h =
      let line : Bytes = (build_client_msg max_line_len input).1 in
      let cli' : ChatClient = (client_send_line t line cli).1 in
      let sent : P cli' = inv.on_send line cli h in
      ground (arith, inv.on_print (codes "> ") cli' sent, inv.on_stop cli' sent)

  send_pm-kept : (input : Bytes) (cli : ChatClient) → P cli → P (send_pm t input cli).1
  unfolding send_pm
  send_pm-kept input cli h = elim (Option-cases (parse_at_pm input max_username_len max_msg_len)) [
    | inl none_there ↦ rw (none_there, send_pm) (inv.on_print _ cli h)
    | inr ((target, msg), found) ↦ rw (found, send_pm) (inv.on_send _ cli h)
  ]

  pub handle_input-kept :
      (input : Bytes) (cli : ChatClient) → P cli → P (handle_input t input cli).1
  unfolding handle_input
  handle_input-kept input cli h =
      let line : (l : Bytes) → P (client_send_line t l cli).1 = λ l. inv.on_send l cli h in
      ground (
        arith,
        inv.on_stop (client_send_line t (build_client_quit max_line_len).1 cli).1
            (line (build_client_quit max_line_len).1),
        line (build_client_list max_line_len).1,
        line (build_client_join_room max_line_len (drop 6 input)).1,
        line (build_client_history max_line_len).1,
        line (build_client_kick max_line_len (drop 6 input)).1,
        inv.on_print (codes "> ") cli h,
        send_pm-kept input cli h,
        send_message-kept input cli h,
      )

  print_history_payload-kept :
      (colors : Bool) (payload : Bytes) (cli : ChatClient)
      → P cli
      → P (print_history_payload colors payload cli)
  unfolding print_history_payload
  print_history_payload-kept colors [] cli h = inv.on_print _ cli h
  print_history_payload-kept colors (c ∷ s) cli h =
      rw (print_history_payload_lem colors (c ∷ s) cli (λ e. cc)) (inv.on_print _ cli h)

  display_as-kept :
      (kind : ServerResp) (colors : Bool) (resp : ParsedResp) (cli : ChatClient)
      → P cli
      → P (display_as kind colors resp cli)
  unfolding display_as
  display_as-kept ServerResp.welcome colors resp cli h =
      inv.on_print _ _ (inv.on_welcome resp.username cli h)
  display_as-kept ServerResp.room_joined colors resp cli h =
      inv.on_print _ _ (inv.on_room resp.room cli h)
  display_as-kept ServerResp.broadcast colors resp cli h = inv.on_print _ cli h
  display_as-kept ServerResp.pm colors resp cli h = inv.on_print _ cli h
  display_as-kept ServerResp.user_join colors resp cli h = inv.on_print _ cli h
  display_as-kept ServerResp.user_left colors resp cli h = inv.on_print _ cli h
  display_as-kept ServerResp.list colors resp cli h = inv.on_print _ cli h
  display_as-kept ServerResp.err colors resp cli h = inv.on_print _ cli h
  display_as-kept ServerResp.unknown colors resp cli h = inv.on_print _ cli h
  display_as-kept ServerResp.history colors resp cli h =
      print_history_payload-kept colors resp.history_payload _ (inv.on_print _ cli h)
  display_as-kept ServerResp.kicked colors resp cli h = inv.on_stop _ (inv.on_print _ cli h)
  display_as-kept ServerResp.ok colors resp cli h = h

  pub received-kept : (line : Option Bytes) (cli : ChatClient) → P cli → P (received t line cli)
  unfolding received display_server_message
  received-kept none cli h = inv.on_stop _ (inv.on_print _ cli h)
  received-kept (some line) cli h = ground (
    arith,
    display_as-kept (parse_server_line line).1.type t.colors_enabled (parse_server_line line).1 cli
        h,
    inv.on_print (codes "\n[server] " ++ line ++ codes "\n> ") cli h,
  )

  pub leave_loop-kept : (s : Threads) → P s.client → P (leave_loop s).client
  unfolding leave_loop
  leave_loop-kept s h =
      elim s.client.sockfd
        as (λ x. P (elim x [ none ↦ s.client | some fd ↦ add_event (Event.shut fd) s.client ])) [
          | none ↦ h
          | some fd ↦ inv.on_shut fd s.client h
        ]

  typed-kept : (s : Threads) → P s.client → P (typed t s).client
  unfolding typed
  typed-kept s h = elim (Option-cases (fgets max_line_len s.client.stdin)) [
    | inl end ↦ rw (end, typed) (leave_loop-kept s h)
    | inr ((input, rest), found) ↦
        rw (found, typed)
          (let cli : ChatClient = record s.client { stdin = rest } in
            let handled =
              handle_input-kept (trim_newline input) cli (inv.on_read rest s.client h) in
            if_elim (λ (s' : Threads). P s'.client) (handle_input t (trim_newline input) cli).0
              (λ _. handled)
              (λ _.
                leave_loop-kept (record s { client = (handle_input t (trim_newline input) cli).1 })
                  handled))
  ]

  pub take_turn-kept : (turn : Turn) (s : Threads) → P s.client → P (take_turn t turn s).client
  unfolding take_turn main_turn receiver_turn client_is_running
  take_turn-kept Turn.keyboard s h =
      ground (arith, leave_loop-kept s h, typed-kept s h, inv.on_join s.client h)
  take_turn-kept (Turn.socket line) s h = ground (arith, received-kept line s.client h)

  pub run_turns-kept :
      (turns : List Turn) (s : Threads) → P s.client → P (run_turns t turns s).client
  unfolding run_turns
  run_turns-kept [] s h = h
  run_turns-kept (turn ∷ turns) s h =
      run_turns-kept turns (take_turn t turn s) (take_turn-kept turn s h)
