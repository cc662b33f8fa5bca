-- ===== src/Protocol/Client.antt =====
-- The lines that a client sends: `protocol_parse_client_line` and the `protocol_build_client_*`
-- functions of src/common/protocol.c.
pub mod Grammar
pub mod RoundTrip
pub mod Sound
use ai_chatbot.Base.{
  ℕ, ◌-◌, ◌||◌, List, [], ◌∷◌, ◌++◌, Option, none, some, if◌then◌else◌, leb, length,
}
use ai_chatbot.Text.{Bytes, codes, str_eq, strncpy}
use ai_chatbot.Status.{Status, max_username_len, max_msg_len, max_room_name_len}
use ai_chatbot.Protocol.Fields.{split_first_token, bad_rest, parse_two_tokens, build}

-- `client_cmd_t`
pub data ClientCmd : Type 0 where
  unknown auth join_room msg pm list history kick quit : ClientCmd

-- `parsed_cmd_t`
pub record ParsedCmd : Type 0 where
  pub cmd : ClientCmd
  pub arg1 : Bytes
  pub arg2 : Bytes

abbrev pub parsed : ClientCmd → Bytes → Bytes → ParsedCmd
parsed c a b = record { cmd = c; arg1 = a; arg2 = b }

-- Two fields go into `arg1` and `arg2`, and the helper's status is passed on.
abbrev with_two_tokens : ClientCmd → Bytes → Status × ParsedCmd
with_two_tokens c rest =
    let (s, a, b) = parse_two_tokens rest max_username_len max_msg_len in (s, parsed c a b)

-- `char cmd[16]`
abbrev pub cmd_size : ℕ
cmd_size = 16

-- The chain of `strcmp` tests, on the command word and the rest of the line.
unfoldable pub dispatch_client : Bytes → Bytes → Status × ParsedCmd
dispatch_client cmd rest =
    if str_eq cmd (codes "AUTH")
    then with_two_tokens ClientCmd.auth rest
    else if str_eq cmd (codes "JOIN_ROOM")
    then (if bad_rest rest max_room_name_len
        then (Status.protocol, parsed ClientCmd.unknown [] [])
        else (Status.ok, parsed ClientCmd.join_room (strncpy (max_room_name_len - 1) rest) []))
    else if str_eq cmd (codes "MSG")
    then (if bad_rest rest max_msg_len
        then (Status.protocol, parsed ClientCmd.unknown [] [])
        else (Status.ok, parsed ClientCmd.msg [] (strncpy (max_msg_len - 1) rest)))
    else if str_eq cmd (codes "PM")
    then with_two_tokens ClientCmd.pm rest
    else if str_eq cmd (codes "LIST")
    then (Status.ok, parsed ClientCmd.list [] [])
    else if str_eq cmd (codes "HISTORY")
    then (Status.ok, parsed ClientCmd.history [] [])
    else if str_eq cmd (codes "KICK")
    then (if bad_rest rest max_username_len
        then (Status.protocol, parsed ClientCmd.unknown [] [])
        else (Status.ok, parsed ClientCmd.kick (strncpy (max_username_len - 1) rest) []))
    else if str_eq cmd (codes "QUIT")
    then (Status.ok, parsed ClientCmd.quit [] [])
    else (Status.protocol, parsed ClientCmd.unknown [] [])

-- The status, and what `*out` holds.
unfoldable pub parse_client_line : Bytes → Status × ParsedCmd
parse_client_line line = elim (split_first_token line cmd_size) [
  | none ↦ (Status.protocol, parsed ClientCmd.unknown [] [])
  | some (cmd, rest) ↦ dispatch_client cmd rest
]

unfoldable pub build_client_auth : ℕ → Bytes → Bytes → Status × Bytes
build_client_auth buflen username password =
    build buflen (codes "AUTH " ++ (username ++ (b' ' ∷ (password ++ (b'\n' ∷ [])))))

unfoldable pub build_client_join_room : ℕ → Bytes → Status × Bytes
build_client_join_room buflen room = build buflen (codes "JOIN_ROOM " ++ (room ++ (b'\n' ∷ [])))

unfoldable pub build_client_msg : ℕ → Bytes → Status × Bytes
build_client_msg buflen message = build buflen (codes "MSG " ++ (message ++ (b'\n' ∷ [])))

unfoldable pub build_client_pm : ℕ → Bytes → Bytes → Status × Bytes
build_client_pm buflen target message =
    build buflen (codes "PM " ++ (target ++ (b' ' ∷ (message ++ (b'\n' ∷ [])))))

unfoldable pub build_client_list : ℕ → Status × Bytes
build_client_list buflen = build buflen (codes "LIST\n")

unfoldable pub build_client_history : ℕ → Status × Bytes
build_client_history buflen = build buflen (codes "HISTORY\n")

unfoldable pub build_client_kick : ℕ → Bytes → Status × Bytes
build_client_kick buflen username = build buflen (codes "KICK " ++ (username ++ (b'\n' ∷ [])))

unfoldable pub build_client_quit : ℕ → Status × Bytes
build_client_quit buflen = build buflen (codes "QUIT\n")

-- `protocol_cmd_name`
unfoldable pub cmd_name : ClientCmd → Bytes
cmd_name ClientCmd.auth = codes "AUTH"
cmd_name ClientCmd.join_room = codes "JOIN_ROOM"
cmd_name ClientCmd.msg = codes "MSG"
cmd_name ClientCmd.pm = codes "PM"
cmd_name ClientCmd.list = codes "LIST"
cmd_name ClientCmd.history = codes "HISTORY"
cmd_name ClientCmd.kick = codes "KICK"
cmd_name ClientCmd.quit = codes "QUIT"
cmd_name _ = codes "UNKNOWN"
