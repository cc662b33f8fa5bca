-- ===== src/Rooms/History.antt =====
-- The history of each room by its name (src/server/room_manager.c), under `room_history_add`.
use ai_chatbot.Base.{
  ℕ, ◌≤◌, ◌<◌, ◌≡◌, ◌≢◌, refl, List, ◌∷◌, arith, if◌then◌else◌, length, ◌∙◌, sym, Bool, false,
  Bool-cases, inl, inr, none, some, Option-cases, ◌⊎◌, Option,
}
use ai_chatbot.Text.{Bytes, str_eq, str_eq_iff}
use ai_chatbot.Status.{Status, max_rooms}
use ai_chatbot.Clock.{Tm, format_timestamp}
use ai_chatbot.Rooms.{
  Entry, Room, Manager, add_entry, new_entry, new_room, find_room, room_named, update_room,
  room_find_or_create, room_history_add, store_entry,
}
use ai_chatbot.Rooms.Ring.{push_bounded, new_room-IsRing, entries-add_entry}
use ai_chatbot.Rooms.Update.{
  shown, history_of, AllRings, IsValid, update_room-AllRings, length-update_room, find_room-none,
  room_named-update, new_room-name,
}
use ai_chatbot.Rooms.Place.{
  room_named-IsRing, find_room-some, Outcome, find_or_create-Outcome, Placed, Outcome-Placed,
}

-- `room_find_or_create` makes at most one empty room, and answers with the place of the room.
find_or_create-IsValid :
    (mem : Bool) (mgr : Manager) (name : Bytes)
    → IsValid mgr
    → length name < 32
    → IsValid (room_find_or_create mem mgr name).1
unfolding room_find_or_create
find_or_create-IsValid mem mgr name v h = elim (Option-cases (find_room name mgr.rooms)) [
  | inl n ↦
      rw (n, room_find_or_create)
        (ground
          (arith, new_room-IsRing name, find_room-none name mgr.rooms n, new_room-name name h))
  | inr (i, f) ↦ rw (f, room_find_or_create) v
]

-- An insertion into the history of a room with a name of at most 31 bytes keeps the manager valid:
-- at most MAX_ROOMS rooms of different names, each a ring of at most MAX_ROOM_HISTORY entries.
pub room_history_add-IsValid :
    (localtime : ℕ → Option Tm) (mem : Bool) (mgr : Manager) (room user content : Bytes) (ts : ℕ)
    → IsValid mgr
    → length room < 32
    → IsValid (room_history_add localtime mem mgr room user content ts).1
unfolding room_history_add
room_history_add-IsValid localtime mem mgr room user content ts v h =
    let (found, mgr') = room_find_or_create mem mgr room in
    let w : IsValid mgr' = find_or_create-IsValid mem mgr room v h in
    let e = new_entry user content (format_timestamp localtime ts 32) in
    elim (Option-cases found) [
      | inl n ↦ rw (n, room_history_add) w
      | inr (i, f) ↦
          rw (f, room_history_add)
            (record {
              counted = w.counted ∙ sym (length-update_room e i mgr'.rooms);
              bounded = w.bounded;
              rings = update_room-AllRings e i mgr'.rooms w.rings;
            })
    ]

-- What is kept of a room after the entry `e` was written at its place.
shown-update :
    (name room : Bytes) (e : Entry) (rs : List Room) (i : ℕ)
    → AllRings rs
    → find_room room rs ≡ some i
    → shown (room_named name (update_room i (add_entry e) rs)) ≡ (
        if str_eq room name
        then push_bounded e (shown (room_named name rs))
        else shown (room_named name rs))
shown-update name room e rs i a h =
    rw (room_named-update name room e rs i h) (elim (Bool-cases (str_eq room name)) [
      | inr other ↦ rw other
      | inl this ↦
          let same = (str_eq_iff room name).0 this in
          let (rn, found) = find_room-some room rs i h in
          let found' : room_named name rs ≡ some rn = rw (← same) found in
          rw this (rw found' (entries-add_entry e rn (room_named-IsRing name rs rn a found')))
    ])

-- What a call that was to store `e` in `room` has done.
abbrev pub Stored : Bool → Manager → Bytes → Entry → Status × Manager → Type 0
Stored mem mgr room e (s, mgr') =
    (s ≡ Status.ok
      → (name : Bytes)
      → history_of mgr' name
        ≡ (if str_eq room name then push_bounded e (history_of mgr name) else history_of mgr name))
    × (s ≢ Status.ok
        → (mgr' ≡ mgr)
          × ((max_rooms ≤ mgr.room_count) ⊎ (mem ≡ false))
          × (room_named room mgr.rooms ≡ none))

Outcome-Stored :
    {mem : Bool} {mgr : Manager} {room : Bytes} {r : Option ℕ × Manager} (e : Entry)
    → Placed mgr room r
    → IsValid r.1
    → Outcome mem mgr room r
    → Stored mem mgr room e (store_entry e r)
Outcome-Stored {room = room} e p w (Outcome.present i f) =
    ((λ _ name. shown-update name room e _ i w.rings f), λ n. absurd (n refl))
Outcome-Stored {mgr = mgr} {room = room} e p w (Outcome.refused n why) =
    ((λ ok. cc), λ _. (refl, why, find_room-none room mgr.rooms n))
Outcome-Stored {mgr = mgr} {room = room} e p w (Outcome.created n lt m) = (
  (λ _ name.
      rw (← p.same name)
        (shown-update name room e (new_room room ∷ mgr.rooms) 0 w.rings (p.found 0 refl))),
  λ ne. absurd (ne refl),
)

-- In a valid manager a message that is stored, for a room with a name of at most 31 bytes, goes
-- behind the history of its room, of which the last 100 entries stay; every other history is as
-- before. The status is CHAT_OK unless the room is not there and cannot be made, for the number of
-- rooms or for memory, and then nothing is changed.
pub room_history_add_lem :
    (localtime : ℕ → Option Tm) (mem : Bool) (mgr : Manager) (room user content : Bytes) (ts : ℕ)
    → IsValid mgr
    → length room < 32
    → Stored mem mgr room
        (new_entry user content (format_timestamp localtime ts 32))
        (room_history_add localtime mem mgr room user content ts)
unfolding room_history_add
room_history_add_lem localtime mem mgr room user content ts v h =
    let o = find_or_create-Outcome mem mgr room in
    Outcome-Stored _ (Outcome-Placed h o) (find_or_create-IsValid mem mgr room v h) o
