-- ===== src/Protocol/Server.antt =====
-- The lines that the server sends: `protocol_parse_server_line` and the `protocol_build_server_*`
-- functions of src/common/protocol.c.
pub mod Fields
pub mod Blank
pub mod RoundTrip
use ai_chatbot.Base.{ℕ, ◌-◌, [], ◌∷◌, ◌++◌, Option, none, some, if◌then◌else◌}
use ai_chatbot.Text.{Bytes, codes, str_eq, strncpy, strchr}
use ai_chatbot.Text.Trim.{trim_newline}
use ai_chatbot.Status.{
  Status, max_username_len, max_msg_len, max_room_name_len, max_line_len, timestamp_len,
}
use ai_chatbot.Protocol.Fields.{split_first_token, bad_field, bad_rest, build}

-- `server_resp_t`
pub data ServerResp : Type 0 where
  unknown ok err welcome broadcast pm user_join user_left room_joined history kicked list :
      ServerResp

-- `parsed_resp_t`
pub record ParsedResp : Type 0 where
  pub type : ServerResp
  pub username : Bytes
  pub room : Bytes
  pub message : Bytes
  pub timestamp : Bytes
  pub user_list : Bytes
  pub history_payload : Bytes
  pub from_user : Bytes

-- `memset(out, 0, sizeof(*out)); out->type = t`
abbrev pub blank : ServerResp → ParsedResp
blank t = record {
  type = t;
  username = [];
  room = [];
  message = [];
  timestamp = [];
  user_list = [];
  history_payload = [];
  from_user = [];
}

-- Four fields: three that a blank ends, and the rest of the line.
unfoldable pub parse_four_fields_rest_msg :
    Bytes → ℕ → ℕ → ℕ → ℕ → Status × Bytes × Bytes × Bytes × Bytes
parse_four_fields_rest_msg rest n1 n2 n3 n4 = elim (strchr b' ' rest) [
  | none ↦ (Status.protocol, [], [], [], [])
  | some (f1, rest1) ↦
      if bad_field f1 n1 then (Status.protocol, [], [], [], []) else elim (strchr b' ' rest1) [
        | none ↦ (Status.protocol, f1, [], [], [])
        | some (f2, rest2) ↦
            if bad_field f2 n2
            then (Status.protocol, f1, [], [], [])
            else elim (strchr b' ' rest2) [
              | none ↦ (Status.protocol, f1, f2, [], [])
              | some (f3, msg) ↦
                  if bad_field f3 n3
                  then (Status.protocol, f1, f2, [], [])
                  else if bad_rest msg n4
                  then (Status.protocol, f1, f2, f3, [])
                  else (Status.ok, f1, f2, f3, strncpy (n4 - 1) msg)
            ]
      ]
]

-- One field, or two of which a blank ends the first.
unfoldable pub parse_two_fields : Bytes → ℕ → ℕ → Status × Bytes × Bytes
parse_two_fields rest n1 n2 = elim (strchr b' ' rest) [
  | none ↦
      if bad_rest rest n1 then (Status.protocol, [], []) else (Status.ok, strncpy (n1 - 1) rest, [])
  | some (f1, f2src) ↦
      if bad_field f1 n1
      then (Status.protocol, [], [])
      else if bad_rest f2src n2
      then (Status.protocol, f1, [])
      else (Status.ok, f1, strncpy (n2 - 1) f2src)
]

-- Three fields: two that a blank ends, and the rest of the line.
unfoldable pub parse_three_fields_msg : Bytes → ℕ → ℕ → ℕ → Status × Bytes × Bytes × Bytes
parse_three_fields_msg rest n1 n2 n3 = elim (strchr b' ' rest) [
  | none ↦ (Status.protocol, [], [], [])
  | some (f1, rest1) ↦
      if bad_field f1 n1 then (Status.protocol, [], [], []) else elim (strchr b' ' rest1) [
        | none ↦ (Status.protocol, f1, [], [])
        | some (f2, msg) ↦
            if bad_field f2 n2
            then (Status.protocol, f1, [], [])
            else if bad_rest msg n3
            then (Status.protocol, f1, f2, [])
            else (Status.ok, f1, f2, strncpy (n3 - 1) msg)
      ]
]

abbrev read_broadcast : Bytes → Status × ParsedResp
read_broadcast rest =
    let (s, u, t, r, m) =
      parse_four_fields_rest_msg rest max_username_len timestamp_len max_room_name_len
        max_msg_len in
    (s, record (blank ServerResp.broadcast) { username = u; timestamp = t; room = r; message = m })

abbrev read_pm : Bytes → Status × ParsedResp
read_pm rest =
    let (s, f, t, m) = parse_three_fields_msg rest max_username_len timestamp_len max_msg_len in
    (s, record (blank ServerResp.pm) { from_user = f; timestamp = t; message = m })

abbrev read_presence : ServerResp → Bytes → Status × ParsedResp
read_presence t rest =
    let (s, u, r) = parse_two_fields rest max_username_len max_room_name_len in
    (s, record (blank t) { username = u; room = r })

-- The chain of `strcmp` tests, on the command word and the rest of the line.
unfoldable pub dispatch_server : Bytes → Bytes → Status × ParsedResp
dispatch_server cmd rest =
    if str_eq cmd (codes "OK")
    then (Status.ok, record (blank ServerResp.ok) { message = strncpy (max_msg_len - 1) rest })
    else if str_eq cmd (codes "ERR")
    then (Status.ok, record (blank ServerResp.err) { message = strncpy (max_msg_len - 1) rest })
    else if str_eq cmd (codes "WELCOME")
    then (
      Status.ok,
      record (blank ServerResp.welcome) { username = strncpy (max_username_len - 1) rest },
    )
    else if str_eq cmd (codes "BROADCAST")
    then read_broadcast rest
    else if str_eq cmd (codes "PM")
    then read_pm rest
    else if str_eq cmd (codes "USER_JOIN")
    then read_presence ServerResp.user_join rest
    else if str_eq cmd (codes "USER_LEFT")
    then read_presence ServerResp.user_left rest
    else if str_eq cmd (codes "ROOM_JOINED")
    then (
      Status.ok,
      record (blank ServerResp.room_joined) { room = strncpy (max_room_name_len - 1) rest },
    )
    else if str_eq cmd (codes "HISTORY")
    then (
      Status.ok,
      record (blank ServerResp.history) { history_payload = strncpy (max_line_len - 1) rest },
    )
    else if str_eq cmd (codes "KICKED")
    then (Status.ok, record (blank ServerResp.kicked) { message = strncpy (max_msg_len - 1) rest })
    else if str_eq cmd (codes "LIST")
    then (Status.ok, record (blank ServerResp.list) { user_list = strncpy (max_msg_len - 1) rest })
    else (Status.protocol, blank ServerResp.unknown)

-- `char cmd[16]` and `char work[MAX_LINE_LEN]`; the status, and what `*out` holds.
unfoldable pub parse_server_line : Bytes → Status × ParsedResp
parse_server_line line =
    elim (split_first_token (trim_newline (strncpy (max_line_len - 1) line)) 16) [
      | none ↦ (Status.protocol, blank ServerResp.unknown)
      | some (cmd, rest) ↦ dispatch_server cmd rest
    ]

-- `msg != NULL ? msg : ""`
abbrev pub or_empty : Option Bytes → Bytes
or_empty none = []
or_empty (some s) = s

abbrev pub newline : Bytes
newline = b'\n' ∷ []

unfoldable pub build_server_ok : ℕ → Option Bytes → Status × Bytes
build_server_ok buflen msg = build buflen (codes "OK " ++ (or_empty msg ++ newline))

unfoldable pub build_server_err : ℕ → Option Bytes → Status × Bytes
build_server_err buflen msg = build buflen (codes "ERR " ++ (or_empty msg ++ newline))

unfoldable pub build_server_welcome : ℕ → Bytes → Status × Bytes
build_server_welcome buflen username = build buflen (codes "WELCOME " ++ (username ++ newline))

unfoldable pub build_server_broadcast : ℕ → Bytes → Bytes → Bytes → Bytes → Status × Bytes
build_server_broadcast buflen username timestamp room message = build buflen (
    codes "BROADCAST "
    ++ (username ++ b' ' ∷ (timestamp ++ b' ' ∷ (room ++ b' ' ∷ (message ++ newline)))))

unfoldable pub build_server_pm : ℕ → Bytes → Bytes → Bytes → Status × Bytes
build_server_pm buflen from_user timestamp message =
    build buflen (codes "PM " ++ (from_user ++ b' ' ∷ (timestamp ++ b' ' ∷ (message ++ newline))))

unfoldable pub build_server_user_join : ℕ → Bytes → Bytes → Status × Bytes
build_server_user_join buflen username room =
    build buflen (codes "USER_JOIN " ++ (username ++ b' ' ∷ (room ++ newline)))

unfoldable pub build_server_user_left : ℕ → Bytes → Bytes → Status × Bytes
build_server_user_left buflen username room =
    build buflen (codes "USER_LEFT " ++ (username ++ b' ' ∷ (room ++ newline)))

unfoldable pub build_server_room_joined : ℕ → Bytes → Status × Bytes
build_server_room_joined buflen room = build buflen (codes "ROOM_JOINED " ++ (room ++ newline))

unfoldable pub build_server_history : ℕ → Option Bytes → Status × Bytes
build_server_history buflen payload =
    build buflen (codes "HISTORY " ++ (or_empty payload ++ newline))

unfoldable pub build_server_kicked : ℕ → Option Bytes → Status × Bytes
build_server_kicked buflen reason = build buflen (codes "KICKED " ++ (or_empty reason ++ newline))

unfoldable pub build_server_list : ℕ → Option Bytes → Status × Bytes
build_server_list buflen user_list = build buflen (codes "LIST " ++ (or_empty user_list ++ newline))

-- `protocol_resp_name`
unfoldable pub resp_name : ServerResp → Bytes
resp_name ServerResp.ok = codes "OK"
resp_name ServerResp.err = codes "ERR"
resp_name ServerResp.welcome = codes "WELCOME"
resp_name ServerResp.broadcast = codes "BROADCAST"
resp_name ServerResp.pm = codes "PM"
resp_name ServerResp.user_join = codes "USER_JOIN"
resp_name ServerResp.user_left = codes "USER_LEFT"
resp_name ServerResp.room_joined = codes "ROOM_JOINED"
resp_name ServerResp.history = codes "HISTORY"
resp_name ServerResp.kicked = codes "KICKED"
resp_name ServerResp.list = codes "LIST"
resp_name _ = codes "UNKNOWN"
