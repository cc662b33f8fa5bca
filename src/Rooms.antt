-- ===== src/Rooms.antt =====
-- src/server/room_manager.c: the rooms with the last MAX_ROOM_HISTORY messages of each, in a ring.
-- The mutex makes each function atomic. A pointer to a room is its position in the list.
pub mod Format
pub mod History
pub mod Place
pub mod Ring
pub mod Update
use mathlib.Core.Option
use ai_chatbot.Base.{
  ℕ, zero, suc, ◌+◌, ◌-◌, ◌%◌, Bool, true, false, List, [], ◌∷◌, ◌++◌, Option, none, some, ◌==◌,
  ltb, leb, if◌then◌else◌, length, not, set, get_or, replicate,
}
use ai_chatbot.Text.{Bytes, codes, str_eq, strncpy, snprintf}
use ai_chatbot.Status.{
  Status, max_username_len, max_room_name_len, max_msg_len, max_room_history, max_rooms,
  timestamp_len, max_line_len, is_ok,
}
use ai_chatbot.Clock.{Tm, format_timestamp}
use ai_chatbot.Protocol.Server.{build_server_history}

-- `history_entry_t`
pub record Entry : Type 0 where
  pub username : Bytes
  pub content : Bytes
  pub timestamp : Bytes

abbrev pub zero_entry : Entry
zero_entry = record { username = []; content = []; timestamp = [] }

-- `room_node_t`; `history` is the array.
pub record Room : Type 0 where
  pub name : Bytes
  pub history : List Entry
  pub count : ℕ
  pub start : ℕ

-- `room_manager_t`
pub record Manager : Type 0 where
  pub rooms : List Room
  pub room_count : ℕ

-- The position of the first room of the name.
unfoldable pub find_room : Bytes → List Room → Option ℕ
find_room name [] = none
find_room name (r ∷ rs) = if str_eq r.name name then some 0 else Option.map suc (find_room name rs)

-- The node that `calloc` zeroes, with its name.
unfoldable pub new_room : Bytes → Room
new_room name = record {
  name = strncpy (max_room_name_len - 1) name;
  history = replicate max_room_history zero_entry;
  count = 0;
  start = 0;
}

-- `room_find_or_create`; `mem` says whether `calloc` succeeds, and `none` is NULL.
unfoldable pub room_find_or_create : Bool → Manager → Bytes → Option ℕ × Manager
room_find_or_create mem mgr name = elim (find_room name mgr.rooms) [
  | some i ↦ (some i, mgr)
  | none ↦
      if leb max_rooms mgr.room_count
      then (none, mgr)
      else if not mem
      then (none, mgr)
      else (some 0, record { rooms = new_room name ∷ mgr.rooms; room_count = mgr.room_count + 1 })
]

abbrev pub default_room : Bytes
default_room = codes "lobby"

-- `room_manager_init`, where the mutex is made: the lobby is there from the start.
unfoldable pub room_manager_init : Bool → Status × Manager
room_manager_init mem =
    let (found, mgr) =
      room_find_or_create mem (record { rooms = []; room_count = 0 }) default_room in
    elim found [ none ↦ (Status.err, mgr) | some i ↦ (Status.ok, mgr) ]

-- The slot that the next entry takes, and the room with `count` and `start` moved on.
unfoldable pub take_slot : Room → ℕ × Room
take_slot rn =
    if ltb rn.count max_room_history
    then (rn.count, record rn { count = rn.count + 1 })
    else (rn.start, record rn { start = (rn.start + 1) % max_room_history })

abbrev pub new_entry : Bytes → Bytes → Bytes → Entry
new_entry username content timestamp = record {
  username = strncpy (max_username_len - 1) username;
  content = strncpy (max_msg_len - 1) content;
  timestamp = timestamp;
}

unfoldable pub add_entry : Entry → Room → Room
unfolding take_slot
add_entry entry rn =
    let (idx, rn') = take_slot rn in record rn' { history = set rn'.history idx entry }

-- The room at a position replaced by what `f` makes of it.
unfoldable pub update_room : ℕ → (Room → Room) → List Room → List Room
update_room i f [] = []
update_room zero f (r ∷ rs) = f r ∷ rs
update_room (suc i) f (r ∷ rs) = r ∷ update_room i f rs

-- The rest of `room_history_add`, once the room was looked for.
abbrev pub store_entry : Entry → Option ℕ × Manager → Status × Manager
store_entry entry (none, mgr) = (Status.full, mgr)
store_entry entry (some i, mgr) =
    (Status.ok, record mgr { rooms = update_room i (add_entry entry) mgr.rooms })

unfoldable pub room_history_add :
    (ℕ → Option Tm) → Bool → Manager → Bytes → Bytes → Bytes → ℕ → Status × Manager
room_history_add localtime mem mgr room username content ts =
    store_entry (new_entry username content (format_timestamp localtime ts timestamp_len))
      (room_find_or_create mem mgr room)

-- `"%s|%s|%s"` of the first entry, and `"||%s|%s|%s"` of the others.
abbrev pub entry_text : Entry → Bytes
entry_text e = e.username ++ b'|' ∷ (e.timestamp ++ b'|' ∷ e.content)

abbrev pub entry_piece : Bool → Entry → Bytes
entry_piece first e = if first then entry_text e else codes "||" ++ entry_text e

-- The entry that round `i` of the loop reads.
abbrev pub entry_at : Room → ℕ → Entry
entry_at rn i = get_or rn.history ((rn.start + i) % max_room_history) zero_entry

-- The loop with `n` rounds left, at round `i`; `buf` holds the `used` bytes written so far.
unfoldable pub format_loop : Room → ℕ → ℕ → ℕ → Bool → Bytes → Status × Bytes
format_loop rn buflen zero i first buf = (Status.ok, buf)
format_loop rn buflen (suc n) i first buf =
    let (cut, written) = snprintf (buflen - length buf) (entry_piece first (entry_at rn i)) in
    let rest = format_loop rn buflen n (i + 1) false (buf ++ written) in
    if cut then (Status.err, buf ++ written) else rest

-- The scan for a room by its name.
unfoldable pub room_named : Bytes → List Room → Option Room
room_named name [] = none
room_named name (r ∷ rs) = if str_eq r.name name then some r else room_named name rs

-- The status, and what the buffer of `buflen` bytes holds.
unfoldable pub room_history_format : Manager → Bytes → ℕ → Status × Bytes
room_history_format mgr room buflen =
    if buflen == 0 then (Status.err, []) else elim (room_named room mgr.rooms) [
      | none ↦ (Status.ok, [])
      | some rn ↦ format_loop rn buflen rn.count 0 true []
    ]

-- The line that `room_history_send_to_client` hands to `send_fn`; `none` is CHAT_ERR.
unfoldable pub room_history_line : Manager → Bytes → Option Bytes
room_history_line mgr room =
    let (s, payload) = room_history_format mgr room max_line_len in
    let (t, line) = build_server_history max_line_len (some payload) in
    if not (is_ok s) then none else if not (is_ok t) then none else some line
