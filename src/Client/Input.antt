-- ===== src/Client/Input.antt =====
-- src/client/client.c: what the client does with a typed line, `parse_at_pm` and the body of the loop
-- of `client_run`; and `fgets`, as the program uses it.
use ai_chatbot.Base.{
  ℕ, zero, suc, ◌-◌, Bool, true, false, not, ◌||◌, [], ◌∷◌, ◌++◌, Option, none, some, ◌==◌, leb,
  if◌then◌else◌, length, take, drop,
}
use ai_chatbot.Text.{Bytes, codes, str_eq, strchr, strncpy, is_empty}
use ai_chatbot.Status.{Status, is_ok, max_username_len, max_msg_len, max_line_len}
use ai_chatbot.Net.{string_in}
use ai_chatbot.Protocol.Client.{
  build_client_quit, build_client_list, build_client_join_room, build_client_history,
  build_client_kick, build_client_pm, build_client_msg,
}
use ai_chatbot.Client.State.{
  Terminal, ChatClient, client_set_running, client_print, client_send_line, c_red, c_reset,
}

-- At most `n` bytes, up to a newline and with it, and what is left to read.
unfoldable pub read_upto : ℕ → Bytes → Bytes × Bytes
read_upto zero s = ([], s)
read_upto (suc n) [] = ([], [])
read_upto (suc n) (c ∷ s) =
    let (line, rest) = read_upto n s in if c == b'\n' then (c ∷ [], s) else (c ∷ line, rest)

-- `fgets(buf, size, stdin)`: the string in `buf`, and what is left to read; `none` is NULL.
unfoldable pub fgets : ℕ → Bytes → Option (Bytes × Bytes)
fgets size [] = none
fgets size (c ∷ s) = let (line, rest) = read_upto (size - 1) (c ∷ s) in some (string_in line, rest)

-- The target and the message; `none` is CHAT_ERR.
unfoldable pub parse_at_pm : Bytes → ℕ → ℕ → Option (Bytes × Bytes)
parse_at_pm [] tlen mlen = none
parse_at_pm (c ∷ input) tlen mlen = if not (c == b'@') then none else elim (strchr b' ' input) [
  | none ↦ none
  | some (name, body) ↦
      if length name == 0 || leb tlen (length name)
      then none
      else if is_empty body || leb mlen (length body)
      then none
      else some (name, strncpy (mlen - 1) body)
]

-- `strncmp(s, word, strlen(word)) == 0`
abbrev pub starts_with : Bytes → Bytes → Bool
starts_with word s = str_eq (take (length word) s) word

-- `input[0] == '@'`
abbrev pub is_at : Bytes → Bool
is_at [] = false
is_at (c ∷ _) = c == b'@'

module _ (t : Terminal) where
  -- `client_send_line(cli, out)` on the buffer that a builder has filled, whose status is not looked at,
  -- and `continue`.
  abbrev pub send_and_go_on : Status × Bytes → ChatClient → Bool × ChatClient
  send_and_go_on built cli = (true, (client_send_line t built.1 cli).1)

  -- The end of the body: a chat message.
  unfoldable pub send_message : Bytes → ChatClient → Bool × ChatClient
  send_message input cli =
      let (built, out) = build_client_msg max_line_len input in
      if not (is_ok built)
      then (true, cli)
      else (let (rc, cli') = client_send_line t out cli in
          if is_ok rc
          then (true, client_print (codes "> ") cli')
          else (false, client_set_running false cli'))

  -- The branch of a line that starts with '@'.
  unfoldable pub send_pm : Bytes → ChatClient → Bool × ChatClient
  send_pm input cli = elim (parse_at_pm input max_username_len max_msg_len) [
    | some (target, msg) ↦ send_and_go_on (build_client_pm max_line_len target msg) cli
    | none ↦ (
      true,
      client_print
          (c_red t.colors_enabled
            ++ codes "Usage: @username message"
            ++ c_reset t.colors_enabled
            ++ codes "\n> ")
          cli,
    )
  ]

  -- The body of the loop behind `trim_newline`; whether the loop goes on.
  unfoldable pub handle_input : Bytes → ChatClient → Bool × ChatClient
  handle_input input cli =
      if str_eq input (codes "/quit") || str_eq input (codes "/exit")
      then (
        false,
        client_set_running false (client_send_line t (build_client_quit max_line_len).1 cli).1,
      )
      else if str_eq input (codes "/users") || str_eq input (codes "/list")
      then send_and_go_on (build_client_list max_line_len) cli
      else if starts_with (codes "/join ") input
      then send_and_go_on (build_client_join_room max_line_len (drop 6 input)) cli
      else if str_eq input (codes "/history")
      then send_and_go_on (build_client_history max_line_len) cli
      else if starts_with (codes "/kick ") input
      then send_and_go_on (build_client_kick max_line_len (drop 6 input)) cli
      else if is_empty input
      then (true, client_print (codes "> ") cli)
      else if is_at input
      then send_pm input cli
      else send_message input cli
