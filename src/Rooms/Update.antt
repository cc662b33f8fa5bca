-- ===== src/Rooms/Update.antt =====
-- The invariant of the room manager (src/server/room_manager.c), and the look-up of a room by its
-- name after a write to one.
use mathlib.Core.Option
use ai_chatbot.Base.{
  ℕ, zero, suc, ◌≤◌, ◌<◌, ◌≡◌, ◌≢◌, refl, List, [], ◌∷◌, arith, if◌then◌else◌, length, ap, true,
  false, Bool-cases, inl, inr, Option, none, some, Option-cases, take_all,
}
use ai_chatbot.Text.{Bytes, str_eq, str_eq_iff}
use ai_chatbot.Status.{max_rooms}
use ai_chatbot.Rooms.{Entry, Room, Manager, add_entry, new_room, find_room, room_named, update_room}
use ai_chatbot.Rooms.Ring.{IsRing, entries, add_entry-IsRing}

abbrev pub shown : Option Room → List Entry
shown none = []
shown (some rn) = entries rn

-- What the manager keeps of a room, the oldest entry first; nothing of a room that is not there.
abbrev pub history_of : Manager → Bytes → List Entry
history_of mgr name = shown (room_named name mgr.rooms)

-- Every room is a ring, and no name is listed twice.
abbrev pub AllRings : List Room → Type 0
AllRings [] = Unit
AllRings (r ∷ rs) = IsRing r × (room_named r.name rs ≡ none) × AllRings rs

pub record IsValid (mgr : Manager) : Type 0 where
  pub counted : mgr.room_count ≡ length mgr.rooms
  pub bounded : mgr.room_count ≤ max_rooms
  pub rings : AllRings mgr.rooms

add_entry-name : (e : Entry) (r : Room) → (add_entry e r).name ≡ r.name
unfolding add_entry
add_entry-name e r = ground arith

room_named-update_none :
    (name : Bytes) (e : Entry) (i : ℕ) (rs : List Room)
    → room_named name rs ≡ none
    → room_named name (update_room i (add_entry e) rs) ≡ none
unfolding room_named update_room
room_named-update_none name e i [] h = refl
room_named-update_none name e zero (r ∷ rs) h = ground (arith, add_entry-name e r)
room_named-update_none name e (suc i) (r ∷ rs) h =
    ground (arith, room_named-update_none name e i rs)

pub update_room-AllRings :
    (e : Entry) (i : ℕ) (rs : List Room) → AllRings rs → AllRings (update_room i (add_entry e) rs)
unfolding update_room
update_room-AllRings e i [] h = tt
update_room-AllRings e zero (r ∷ rs) h =
    (add_entry-IsRing e r h.0, rw (add_entry-name e r) h.1, h.2)
update_room-AllRings e (suc i) (r ∷ rs) h =
    (h.0, room_named-update_none r.name e i rs h.1, update_room-AllRings e i rs h.2)

pub length-update_room :
    (e : Entry) (i : ℕ) (rs : List Room) → length (update_room i (add_entry e) rs) ≡ length rs
unfolding update_room
length-update_room e i [] = refl
length-update_room e zero (r ∷ rs) = refl
length-update_room e (suc i) (r ∷ rs) = ap suc (length-update_room e i rs)

-- What the position of a room says of the first room of the list.
abbrev FoundAt : Bytes → Room → List Room → ℕ → Type 0
FoundAt name r rs zero = str_eq r.name name ≡ true
FoundAt name r rs (suc i) = (str_eq r.name name ≡ false) × (find_room name rs ≡ some i)

find_room-FoundAt :
    (name : Bytes) (r : Room) (rs : List Room) (i : ℕ)
    → find_room name (r ∷ rs) ≡ some i
    → FoundAt name r rs i
unfolding find_room
find_room-FoundAt name r rs zero h = elim (Option-cases (find_room name rs)) [
  | inl n ↦ ground arith
  | inr (i, f) ↦ ground arith
]
find_room-FoundAt name r rs (suc j) h = elim (Option-cases (find_room name rs)) [
  | inl n ↦ ground arith
  | inr (i, f) ↦ ground arith
]

pub new_room-name : (name : Bytes) → length name < 32 → (new_room name).name ≡ name
unfolding new_room
new_room-name name h = take_all 31 name (omega arith)

pub find_room-none :
    (name : Bytes) (rs : List Room) → find_room name rs ≡ none → room_named name rs ≡ none
unfolding find_room room_named
find_room-none name [] h = refl
find_room-none name (r ∷ rs) h = elim (Option-cases (find_room name rs)) [
  | inl n ↦ ground (arith, find_room-none name rs n)
  | inr (i, f) ↦ ground arith
]

find_room-nil : (name : Bytes) (i : ℕ) → find_room name [] ≢ some i
unfolding find_room
find_room-nil name i h = cc

-- A name that is not `room`'s, while `name` is this room's.
differs_from :
    (a name room : Bytes) → str_eq a name ≡ true → str_eq a room ≡ false → str_eq room name ≡ false
differs_from a name room here differs =
    ground (arith, str_eq_iff a name, str_eq_iff room name, str_eq_iff a room)

-- The update at the place where `room` is found is seen under `room` alone.
pub room_named-update :
    (name room : Bytes) (e : Entry) (rs : List Room) (i : ℕ)
    → find_room room rs ≡ some i
    → room_named name (update_room i (add_entry e) rs) ≡ (
        if str_eq room name
        then Option.map (add_entry e) (room_named name rs)
        else room_named name rs)
unfolding room_named update_room
room_named-update name room e [] i h = absurd (find_room-nil room i h)
room_named-update name room e (r ∷ rs) zero h =
    let same = (str_eq_iff r.name room).0 (find_room-FoundAt room r rs zero h) in
    let here = ap (λ t. str_eq t name) same in
    let kept = ap (λ t. str_eq t name) (add_entry-name e r) in ground (arith, here, kept)
room_named-update name room e (r ∷ rs) (suc i) h =
    let (differs, later) = find_room-FoundAt room r rs (suc i) h in
    let ih = room_named-update name room e rs i later in
    elim (Bool-cases (str_eq r.name name)) [
      | inl here ↦ let other = differs_from r.name name room here differs in rw (here, other)
      | inr not_here ↦ rw not_here ih
    ]
