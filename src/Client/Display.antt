-- ===== src/Client/Display.antt =====
-- src/client/client.c: what the receiver thread does with a line of the server,
-- `print_history_payload` and `display_server_message`.
use ai_chatbot.Base.{
  ℕ, zero, suc, ◌-◌, Bool, true, false, ◌||◌, [], ◌∷◌, ◌++◌, Option, none, some, ◌==◌,
  if◌then◌else◌, length,
}
use ai_chatbot.Text.{Bytes, codes, strncpy, is_empty}
use ai_chatbot.Status.{max_username_len, max_room_name_len, max_line_len, timestamp_len}
use ai_chatbot.Protocol.Server.{ServerResp, ParsedResp}
use ai_chatbot.Client.State.{
  ChatClient, client_set_running, client_print, c_reset, c_bold, c_green, c_cyan, c_yellow, c_red,
  c_magenta,
}

-- `strchr(delim, c) != NULL`
abbrev pub is_delimiter : Bytes → ℕ → Bool
is_delimiter [] c = false
is_delimiter (d ∷ ds) c = (d == c) || is_delimiter ds c

-- `s += strspn(s, delim)`
unfoldable pub skip_delimiters : Bytes → Bytes → Bytes
skip_delimiters ds [] = []
skip_delimiters ds (c ∷ s) =
    let rest = skip_delimiters ds s in if is_delimiter ds c then rest else c ∷ s

-- The text before the first byte of `ds`, and what stands behind that byte.
unfoldable pub cut_token : Bytes → Bytes → Bytes × Bytes
cut_token ds [] = ([], [])
cut_token ds (c ∷ s) =
    let (token, rest) = cut_token ds s in if is_delimiter ds c then ([], s) else (c ∷ token, rest)

-- `strtok_r(s, delim, &save)`: the token and what `save` points to. Every byte of `delim` ends a
-- token by itself.
unfoldable pub strtok_r : Bytes → Bytes → Option (Bytes × Bytes)
strtok_r ds s =
    let start = skip_delimiters ds s in if is_empty start then none else some (cut_token ds start)

-- The body of the loop over the entries: what it prints, if anything.
unfoldable pub print_entry : Bool → Bytes → ChatClient → ChatClient
print_entry colors entry cli = elim (strtok_r (codes "|") entry) [
  | none ↦ cli
  | some (user, s2) ↦ elim (strtok_r (codes "|") s2) [
    | none ↦ cli
    | some (ts, s3) ↦ elim (strtok_r (codes "|") s3) [
      | none ↦ cli
      | some (msg, s4) ↦
          client_print
            (c_cyan colors
              ++ codes "[history "
              ++ strncpy (timestamp_len - 1) ts
              ++ codes "] "
              ++ c_bold colors
              ++ strncpy (max_username_len - 1) user
              ++ c_reset colors
              ++ codes ": "
              ++ msg
              ++ codes "\n")
            cli
    ]
  ]
]

-- `while (entry != NULL)`, on fuel; `none` when that runs out.
unfoldable pub history_loop : ℕ → Bool → Bytes → ChatClient → Option ChatClient
history_loop zero colors save cli = none
history_loop (suc n) colors save cli = elim (strtok_r (codes "||") save) [
  | none ↦ some cli
  | some (entry, save') ↦ history_loop n colors save' (print_entry colors entry cli)
]

-- Each entry takes a byte at least, so one round more than the bytes is enough.
unfoldable pub print_history_payload : Bool → Bytes → ChatClient → ChatClient
print_history_payload colors payload cli =
    if is_empty payload
    then client_print (c_yellow colors ++ codes "(no history)" ++ c_reset colors ++ codes "\n> ")
        cli
    else (let buf = strncpy (max_line_len - 1) payload in
        elim (history_loop (suc (length buf)) colors buf cli) [
          | none ↦ cli
          | some cli' ↦ client_print (codes "> ") cli'
        ])

-- The `switch` on the kind of the response.
unfoldable pub display_as : ServerResp → Bool → ParsedResp → ChatClient → ChatClient
display_as ServerResp.welcome colors resp cli =
    client_print
      (codes "\n"
        ++ c_green colors
        ++ codes "*** Welcome, "
        ++ resp.username
        ++ codes "! ***"
        ++ c_reset colors
        ++ codes "\n> ")
      (record cli { authenticated = true; username = strncpy (max_username_len - 1) resp.username })
display_as ServerResp.room_joined colors resp cli =
    client_print
      (codes "\n"
        ++ c_cyan colors
        ++ codes "*** Joined room: "
        ++ resp.room
        ++ codes " ***"
        ++ c_reset colors
        ++ codes "\n> ")
      (record cli { current_room = strncpy (max_room_name_len - 1) resp.room; joined = true })
display_as ServerResp.broadcast colors resp cli =
    client_print
      (codes "\n"
        ++ c_green colors
        ++ codes "["
        ++ resp.timestamp
        ++ codes "] ["
        ++ resp.room
        ++ codes "] "
        ++ c_bold colors
        ++ resp.username
        ++ c_reset colors
        ++ codes ": "
        ++ resp.message
        ++ c_reset colors
        ++ codes "\n> ")
      cli
display_as ServerResp.pm colors resp cli =
    client_print
      (codes "\n"
        ++ c_magenta colors
        ++ codes "[PM "
        ++ resp.timestamp
        ++ codes "] "
        ++ c_bold colors
        ++ resp.from_user
        ++ c_reset colors
        ++ codes ": "
        ++ resp.message
        ++ c_reset colors
        ++ codes "\n> ")
      cli
display_as ServerResp.user_join colors resp cli =
    client_print
      (codes "\n"
        ++ c_yellow colors
        ++ codes "*** "
        ++ resp.username
        ++ codes " joined "
        ++ resp.room
        ++ codes " ***"
        ++ c_reset colors
        ++ codes "\n> ")
      cli
display_as ServerResp.user_left colors resp cli =
    client_print
      (codes "\n"
        ++ c_yellow colors
        ++ codes "*** "
        ++ resp.username
        ++ codes " left "
        ++ resp.room
        ++ codes " ***"
        ++ c_reset colors
        ++ codes "\n> ")
      cli
display_as ServerResp.list colors resp cli =
    client_print
      (codes "\n"
        ++ c_cyan colors
        ++ codes "*** Online: "
        ++ (if is_empty resp.user_list then codes "(none)" else resp.user_list)
        ++ codes " ***"
        ++ c_reset colors
        ++ codes "\n> ")
      cli
display_as ServerResp.history colors resp cli = print_history_payload colors resp.history_payload (
    client_print
      (codes "\n" ++ c_cyan colors ++ codes "--- Room history ---" ++ c_reset colors ++ codes "\n")
      cli)
display_as ServerResp.kicked colors resp cli = client_set_running false (
    client_print
      (codes "\n"
        ++ c_red colors
        ++ codes "*** KICKED: "
        ++ resp.message
        ++ codes " ***"
        ++ c_reset colors
        ++ codes "\n")
      cli)
display_as ServerResp.ok colors resp cli = cli
display_as ServerResp.err colors resp cli =
    client_print
      (codes "\n"
        ++ c_red colors
        ++ codes "[error] "
        ++ resp.message
        ++ c_reset colors
        ++ codes "\n> ")
      cli
display_as ServerResp.unknown colors resp cli =
    client_print (codes "\n[server] (unknown response)\n> ") cli

unfoldable pub display_server_message : Bool → ParsedResp → ChatClient → ChatClient
display_server_message colors resp cli = display_as resp.type colors resp cli
