-- ===== src/Rooms/Place.antt =====
-- How `room_find_or_create` of src/server/room_manager.c ends, and where the room is afterwards.
use ai_chatbot.Base.{
  ℕ, ◌+◌, ◌≤◌, ◌<◌, ◌≡◌, refl, List, [], ◌∷◌, arith, leb, if◌then◌else◌, length, ap, ◌∙◌, sym, Bool,
  true, false, Bool-cases, inl, inr, none, some, Option-cases, ◌⊎◌, Option, leb→le, leb→gt,
}
use ai_chatbot.Text.{Bytes, str_eq, str_eq_iff}
use ai_chatbot.Status.{max_rooms}
use ai_chatbot.Rooms.{Room, Manager, new_room, find_room, room_named, room_find_or_create}
use ai_chatbot.Rooms.Ring.{IsRing, entries}
use ai_chatbot.Rooms.Update.{shown, history_of, AllRings, find_room-none, new_room-name}

pub room_named-IsRing :
    (name : Bytes) (rs : List Room) (rn : Room)
    → AllRings rs
    → room_named name rs ≡ some rn
    → IsRing rn
unfolding room_named
room_named-IsRing name [] rn a h = cc
room_named-IsRing name (r ∷ rs) rn a h = elim (Bool-cases (str_eq r.name name)) [
  | inl here ↦ let e : r ≡ rn = ground arith in rw (← e) a.0
  | inr other ↦ room_named-IsRing name rs rn a.2 (ground arith)
]

pub find_room-some :
    (name : Bytes) (rs : List Room) (i : ℕ)
    → find_room name rs ≡ some i
    → (rn : Room) × (room_named name rs ≡ some rn)
unfolding find_room room_named
find_room-some name [] i h = cc
find_room-some name (r ∷ rs) i h = elim (Bool-cases (str_eq r.name name)) [
  | inl here ↦ (r, rw here)
  | inr other ↦ elim (Option-cases (find_room name rs)) [
    | inl n ↦ cc (rw (other, n) at h)
    | inr (j, f) ↦ let (rn, found) = find_room-some name rs j f in (rn, rw other found)
  ]
]

-- The three ways in which `room_find_or_create` ends.
pub data Outcome (mem : Bool) (mgr : Manager) (name : Bytes) : Option ℕ × Manager → Type 0 where
  present : (i : ℕ) → find_room name mgr.rooms ≡ some i → Outcome mem mgr name (some i, mgr)
  refused :
      find_room name mgr.rooms ≡ none
      → (max_rooms ≤ mgr.room_count) ⊎ (mem ≡ false)
      → Outcome mem mgr name (none, mgr)
  created :
      find_room name mgr.rooms ≡ none
      → mgr.room_count < max_rooms
      → mem ≡ true
      → Outcome mem mgr name
          (some 0, record { rooms = new_room name ∷ mgr.rooms; room_count = mgr.room_count + 1 })

pub find_or_create-Outcome :
    (mem : Bool) (mgr : Manager) (name : Bytes)
    → Outcome mem mgr name (room_find_or_create mem mgr name)
unfolding room_find_or_create
find_or_create-Outcome mem mgr name = elim (Option-cases (find_room name mgr.rooms)) [
  | inr (i, f) ↦ rw (f, room_find_or_create) (Outcome.present i f)
  | inl n ↦
      rw (n, room_find_or_create)
        (elim (Bool-cases (leb max_rooms mgr.room_count)) [
          | inl full ↦ rw full (Outcome.refused n (inl (leb→le _ _ full)))
          | inr free ↦ rw free (elim (Bool-cases mem) [
            | inl ok ↦ rw ok (Outcome.created n (leb→gt _ _ free) refl)
            | inr out ↦ rw out (Outcome.refused n (inr refl))
          ])
        ])
]

-- Where the room is afterwards, and that no history is changed.
pub record Placed (mgr : Manager) (name : Bytes) (r : Option ℕ × Manager) : Type 0 where
  pub found : (i : ℕ) → r.0 ≡ some i → find_room name r.1.rooms ≡ some i
  pub missing : r.0 ≡ none → r.1 ≡ mgr
  pub same : (other : Bytes) → history_of r.1 other ≡ history_of mgr other

find_new :
    (name : Bytes) (rs : List Room)
    → length name < 32
    → find_room name (new_room name ∷ rs) ≡ some 0
unfolding find_room
find_new name rs h = rw (new_room-name name h) (ground (arith, str_eq_iff name name))

room_named_new :
    (name other : Bytes) (rs : List Room)
    → length name < 32
    → room_named other (new_room name ∷ rs)
      ≡ (if str_eq name other then some (new_room name) else room_named other rs)
unfolding room_named
room_named_new name other rs h =
    ap (λ t. if str_eq t other then some (new_room name) else room_named other rs)
      (new_room-name name h)

entries-new_room : (name : Bytes) → entries (new_room name) ≡ []
unfolding new_room
entries-new_room name = refl

-- An empty room shows as much as no room.
shown_new :
    (name other : Bytes) (rs : List Room)
    → length name < 32
    → find_room name rs ≡ none
    → shown (room_named other (new_room name ∷ rs)) ≡ shown (room_named other rs)
shown_new name other rs h absent =
    rw (room_named_new name other rs h) (elim (Bool-cases (str_eq name other)) [
      | inl this ↦
          let e = (str_eq_iff name other).0 this in
          rw this (
            entries-new_room name
            ∙ sym (ap shown (find_room-none name rs absent))
            ∙ ap (λ t. shown (room_named t rs)) e)
      | inr differs ↦ rw differs
    ])

pub Outcome-Placed :
    {mem : Bool} {mgr : Manager} {name : Bytes} {r : Option ℕ × Manager}
    → length name < 32
    → Outcome mem mgr name r
    → Placed mgr name r
Outcome-Placed h (Outcome.present i f) = record {
  found = λ j e. ground (arith, f);
  missing = λ e. refl;
  same = λ other. refl;
}
Outcome-Placed h (Outcome.refused n w) = record {
  found = λ j e. cc;
  missing = λ e. refl;
  same = λ other. refl;
}
Outcome-Placed {mgr = mgr} {name = name} h (Outcome.created n f w) = record {
  found = λ j e. ground (arith, find_new name mgr.rooms h);
  missing = λ e. cc;
  same = λ other. shown_new name other mgr.rooms h n;
}
