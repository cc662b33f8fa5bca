-- ===== src/Registry/Find.antt =====
-- What a look-up in the registry of src/server/client_registry.c sees of each update.
use ai_chatbot.Base.{
  ℕ, ◌<◌, ◌≡◌, ◌≢◌, refl, Bool, true, false, List, [], ◌∷◌, none, some, is_some, length, arith,
  Option-cases, inl, inr, ==_iff, ◌↔◌, ==_refl, take_all,
}
use ai_chatbot.Text.{Bytes, str_eq_iff, strncpy}
use ai_chatbot.Text.Split.{strncpy_over-short}
use ai_chatbot.Status.{Status, max_clients}
use ai_chatbot.Registry.{
  Node, Registry, Spill, find_fd, find_name, unlink, move_node, registry_add, registry_remove,
  registry_set_room, registry_username_exists, registry_get_room, registry_get_sockfd_by_username,
  registry_is_admin, registry_get_username,
}
use ai_chatbot.Registry.Valid.{IsValid, IsUnique}

pub find_fd-move_self :
    (fd : ℕ) (room : Bytes) (ns : List Node) (m : Node)
    → find_fd fd ns ≡ some m
    → find_fd fd (move_node fd room ns) ≡ some (record m { room = strncpy 31 room })
unfolding find_fd move_node
find_fd-move_self fd room [] m e = cc
find_fd-move_self fd room (n ∷ ns) m e = ground (arith, find_fd-move_self fd room ns m)

pub find_fd-move_ne :
    (j fd : ℕ) (room : Bytes) (ns : List Node)
    → j ≢ fd
    → find_fd j (move_node fd room ns) ≡ find_fd j ns
unfolding find_fd move_node
find_fd-move_ne j fd room [] ne = refl
find_fd-move_ne j fd room (n ∷ ns) ne = ground (arith, find_fd-move_ne j fd room ns ne)

pub find_fd-unlink_ne :
    (j fd : ℕ) (ns ms : List Node) → j ≢ fd → unlink fd ns ≡ some ms → find_fd j ms ≡ find_fd j ns
unfolding find_fd unlink
find_fd-unlink_ne j fd [] ms h e = cc
find_fd-unlink_ne j fd (n ∷ ns) ms h e = elim (Option-cases (unlink fd ns)) [
  | inl gone ↦ ground (arith)
  | inr (ks, found) ↦ ground (arith, find_fd-unlink_ne j fd ns ks h found)
]

pub find_fd-unlink_self :
    (fd : ℕ) (ns ms : List Node) → IsUnique ns → unlink fd ns ≡ some ms → find_fd fd ms ≡ none
unfolding find_fd unlink
find_fd-unlink_self fd [] ms u e = cc
find_fd-unlink_self fd (n ∷ ns) ms u e = elim (Option-cases (unlink fd ns)) [
  | inl gone ↦ ground (arith, ==_iff n.sockfd fd)
  | inr (ks, found) ↦ ground (arith, find_fd-unlink_self fd ns ks u.2 found)
]

pub unlink-none : (fd : ℕ) (ns : List Node) → unlink fd ns ≡ none → find_fd fd ns ≡ none
unfolding find_fd unlink
unlink-none fd [] e = refl
unlink-none fd (n ∷ ns) e = elim (Option-cases (unlink fd ns)) [
  | inl gone ↦ ground (arith, unlink-none fd ns gone)
  | inr (ks, found) ↦ ground (arith, found)
]

pub unlink-some :
    (fd : ℕ) (ns ms : List Node) → unlink fd ns ≡ some ms → is_some (find_fd fd ns) ≡ true
unfolding find_fd unlink
unlink-some fd [] ms e = cc
unlink-some fd (n ∷ ns) ms e = elim (Option-cases (unlink fd ns)) [
  | inl gone ↦ ground arith
  | inr (ks, found) ↦ ground (arith, unlink-some fd ns ks found)
]

-- An insertion succeeds exactly when there is memory, a free place and no user of that name; when it
-- fails the registry is as it was.
pub registry_add_iff :
    (mem : Bool) (spill : Spill) (reg : Registry) (fd : ℕ) (name room : Bytes) (admin : Bool)
    → let (s, reg') = registry_add mem spill reg fd name room admin in
      ((s ≡ Status.ok)
        ↔ ((mem ≡ true) × (reg.count < max_clients) × (registry_username_exists reg name ≡ false)))
      × (s ≢ Status.ok → reg' ≡ reg)
unfolding registry_add registry_username_exists
registry_add_iff mem spill reg fd name room admin = ground arith

-- A user is new in the second registry, and nobody else is.
pub record Added (reg reg' : Registry) (fd : ℕ) (name room : Bytes) (admin : Bool) : Type 0 where
  pub by_name : registry_get_sockfd_by_username reg' name ≡ some fd
  pub named : registry_get_username reg' fd 32 ≡ (Status.ok, name)
  pub placed : registry_get_room reg' fd 32 ≡ (Status.ok, room)
  pub right : registry_is_admin reg' fd ≡ admin
  pub other_names :
      (other : Bytes)
      → other ≢ name
      → registry_get_sockfd_by_username reg' other ≡ registry_get_sockfd_by_username reg other
  pub other_fds : (j : ℕ) → j ≢ fd → find_fd j reg'.nodes ≡ find_fd j reg.nodes

-- After a successful insertion of a name and a room of at most 30 bytes, the user is found under the
-- name and under the descriptor, with the room and the right, and every other name and descriptor
-- answers as before.
pub registry_add-Added :
    (mem : Bool) (spill : Spill) (reg : Registry) (fd : ℕ) (name room : Bytes) (admin : Bool)
    → length name < 31
    → length room < 31
    → (registry_add mem spill reg fd name room admin).0 ≡ Status.ok
    → Added reg (registry_add mem spill reg fd name room admin).1 fd name room admin
unfolding registry_add registry_get_sockfd_by_username registry_get_username registry_get_room
    registry_is_admin find_fd find_name
registry_add-Added mem spill reg fd name room admin hn hr e =
    let sn = strncpy_over-short 31 spill.username name hn in
    let sr = strncpy_over-short 31 spill.room room hr in
    let tn = take_all 31 name (omega arith) in
    let tr = take_all 31 room (omega arith) in
    record {
      by_name = ground (arith, sn, str_eq_iff name name);
      named = ground (arith, sn, tn, ==_refl fd);
      placed = ground (arith, sr, tr, ==_refl fd);
      right = ground (arith, ==_refl fd);
      other_names = λ other ne. ground (arith, sn, str_eq_iff name other);
      other_fds = λ j ne. ground (arith, ==_iff fd j);
    }

-- After the removal of a descriptor from a valid registry it answers to nothing, the other
-- descriptors answer as before, and a descriptor that is not listed is reported.
pub registry_remove_lem :
    (reg : Registry) (fd : ℕ)
    → IsValid reg
    → let (s, reg') = registry_remove reg fd in
      (find_fd fd reg'.nodes ≡ none)
      × ((j : ℕ) → j ≢ fd → find_fd j reg'.nodes ≡ find_fd j reg.nodes)
      × ((s ≡ Status.ok) ↔ (is_some (find_fd fd reg.nodes) ≡ true))
unfolding registry_remove
registry_remove_lem reg fd v = elim (Option-cases (unlink fd reg.nodes)) [
  | inl gone ↦
      let missing = unlink-none fd reg.nodes gone in
      rw (gone, registry_remove) (missing, (λ j ne. refl), ground (arith, missing))
  | inr (ms, found) ↦
      rw (found, registry_remove)
        (
          find_fd-unlink_self fd reg.nodes ms v.unique found,
          (λ j ne. find_fd-unlink_ne j fd reg.nodes ms ne found),
          ((λ _. unlink-some fd reg.nodes ms found), (λ _. refl)),
        )
]

-- A change to a room with a name of at most 31 bytes succeeds exactly when the descriptor is
-- registered; the look-up of that descriptor then gives the new room, with the same name and
-- right, and no other descriptor is affected.
pub registry_set_room_lem :
    (reg : Registry) (fd : ℕ) (room : Bytes)
    → length room < 32
    → let (s, reg') = registry_set_room reg fd room in
      (s ≡ Status.ok
        → (registry_get_room reg' fd 32 ≡ (Status.ok, room))
          × (registry_get_username reg' fd 32 ≡ registry_get_username reg fd 32)
          × (registry_is_admin reg' fd ≡ registry_is_admin reg fd))
      × ((j : ℕ) → j ≢ fd → find_fd j reg'.nodes ≡ find_fd j reg.nodes)
      × ((s ≡ Status.ok) ↔ (is_some (find_fd fd reg.nodes) ≡ true))
unfolding registry_set_room registry_get_room registry_get_username registry_is_admin
registry_set_room_lem reg fd room h =
    let t = take_all 31 room (omega arith) in
    elim (Option-cases (find_fd fd reg.nodes)) [
      | inl gone ↦ rw (gone, registry_set_room) ((λ e. cc), (λ j ne. refl), ground arith)
      | inr (n, found) ↦
          let moved = find_fd-move_self fd room reg.nodes n found in
          rw (found, registry_set_room)
            (
              (λ _. ground (arith, moved, found, t)),
              (λ j ne. find_fd-move_ne j fd room reg.nodes ne),
              ground arith,
            )
    ]
