-- ===== src/Status.antt =====
-- include/common.h: `chat_status_t` and the sizes of the buffers.
use ai_chatbot.Base.{ℕ, Bool, true, false}

pub data Status : Type 0 where
  ok err nomem protocol duplicate not_found io full auth forbidden : Status

abbrev pub is_ok : Status → Bool
is_ok Status.ok = true
is_ok _ = false

abbrev pub max_username_len : ℕ
max_username_len = 32

abbrev pub max_password_len : ℕ
max_password_len = 64

abbrev pub max_msg_len : ℕ
max_msg_len = 512

abbrev pub max_line_len : ℕ
max_line_len = 2048

abbrev pub max_clients : ℕ
max_clients = 100

abbrev pub max_room_name_len : ℕ
max_room_name_len = 32

abbrev pub max_room_history : ℕ
max_room_history = 100

abbrev pub max_rooms : ℕ
max_rooms = 64

-- `char timestamp[32]` of the structs
abbrev pub timestamp_len : ℕ
timestamp_len = 32

abbrev pub default_port : ℕ
default_port = 8080
