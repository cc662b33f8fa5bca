-- ===== src/Registry/Valid.antt =====
-- The invariant of the registry of src/server/client_registry.c, and its operations.
use ai_chatbot.Base.{
  ℕ, suc, ◌≤◌, ◌<◌, ◌≡◌, refl, Bool, List, [], ◌∷◌, none, some, length, arith, Option-cases, inl,
  inr,
}
use ai_chatbot.Text.{Bytes}
use ai_chatbot.Text.Split.{strncpy_over-short}
use ai_chatbot.Status.{max_clients}
use ai_chatbot.Registry.{
  Node, Registry, Spill, find_fd, find_name, unlink, move_node, registry_init, registry_add,
  registry_remove, registry_set_room,
}

-- No user name and no descriptor is listed twice.
abbrev pub IsUnique : List Node → Type 0
IsUnique [] = Unit
IsUnique (n ∷ ns) = (find_name n.username ns ≡ none) × (find_fd n.sockfd ns ≡ none) × IsUnique ns

pub record IsValid (reg : Registry) : Type 0 where
  pub counted : reg.count ≡ length reg.nodes
  pub bounded : reg.count ≤ max_clients
  pub unique : IsUnique reg.nodes

pub registry_init-IsValid : IsValid registry_init
registry_init-IsValid = record { counted = refl; bounded = omega arith; unique = tt }

-- An insertion, whatever its outcome, keeps the registry valid when the name has at most 30 bytes and
-- the descriptor is not registered.
pub registry_add-IsValid :
    (mem : Bool) (spill : Spill) (reg : Registry) (fd : ℕ) (name room : Bytes) (admin : Bool)
    → IsValid reg
    → length name < 31
    → find_fd fd reg.nodes ≡ none
    → IsValid (registry_add mem spill reg fd name room admin).1
unfolding registry_add
registry_add-IsValid mem spill reg fd name room admin v short fresh =
    ground (arith, strncpy_over-short 31 spill.username name short)

find_name-unlink :
    (name : Bytes) (fd : ℕ) (ns ms : List Node)
    → find_name name ns ≡ none
    → unlink fd ns ≡ some ms
    → find_name name ms ≡ none
unfolding find_name unlink
find_name-unlink name fd [] ms h e = cc
find_name-unlink name fd (n ∷ ns) ms h e = elim (Option-cases (unlink fd ns)) [
  | inl gone ↦ ground (arith)
  | inr (ks, found) ↦ ground (arith, find_name-unlink name fd ns ks, found)
]

find_fd-unlink :
    (j fd : ℕ) (ns ms : List Node)
    → find_fd j ns ≡ none
    → unlink fd ns ≡ some ms
    → find_fd j ms ≡ none
unfolding find_fd unlink
find_fd-unlink j fd [] ms h e = cc
find_fd-unlink j fd (n ∷ ns) ms h e = elim (Option-cases (unlink fd ns)) [
  | inl gone ↦ ground (arith)
  | inr (ks, found) ↦ ground (arith, find_fd-unlink j fd ns ks, found)
]

pub unlink-IsUnique :
    (fd : ℕ) (ns ms : List Node)
    → IsUnique ns
    → unlink fd ns ≡ some ms
    → IsUnique ms × (length ns ≡ suc (length ms))
unfolding unlink
unlink-IsUnique fd [] ms u e = cc
unlink-IsUnique fd (n ∷ ns) ms u e = elim (Option-cases (unlink fd ns)) [
  | inl gone ↦ ground (arith)
  | inr (ks, found) ↦ ground (
    arith,
    unlink-IsUnique fd ns ks u.2 found,
    find_fd-unlink n.sockfd fd ns ks u.1 found,
    find_name-unlink n.username fd ns ks u.0 found,
  )
]

-- A removal, of a descriptor that is listed or not, keeps the registry valid.
pub registry_remove-IsValid :
    (reg : Registry) (fd : ℕ) → IsValid reg → IsValid (registry_remove reg fd).1
unfolding registry_remove
registry_remove-IsValid reg fd v = elim (Option-cases (unlink fd reg.nodes)) [
  | inl gone ↦ rw (gone, registry_remove) v
  | inr (ms, found) ↦
      let u = unlink-IsUnique fd reg.nodes ms v.unique found in
      rw (found, registry_remove)
        (record {
          counted = omega (arith, u.1, v.counted, v.bounded);
          bounded = omega (arith, v.bounded);
          unique = u.0;
        })
]

find_name-move_node :
    (name : Bytes) (fd : ℕ) (room : Bytes) (ns : List Node)
    → find_name name ns ≡ none
    → find_name name (move_node fd room ns) ≡ none
unfolding find_name move_node
find_name-move_node name fd room [] h = refl
find_name-move_node name fd room (n ∷ ns) h = ground (arith, find_name-move_node name fd room ns)

find_fd-move_node-none :
    (j fd : ℕ) (room : Bytes) (ns : List Node)
    → find_fd j ns ≡ none
    → find_fd j (move_node fd room ns) ≡ none
unfolding find_fd move_node
find_fd-move_node-none j fd room [] h = refl
find_fd-move_node-none j fd room (n ∷ ns) h = ground (arith, find_fd-move_node-none j fd room ns)

move_node-IsUnique :
    (fd : ℕ) (room : Bytes) (ns : List Node) → IsUnique ns → IsUnique (move_node fd room ns)
unfolding move_node
move_node-IsUnique fd room [] u = tt
move_node-IsUnique fd room (n ∷ ns) u = ground (
  arith,
  move_node-IsUnique fd room ns u.2,
  find_name-move_node n.username fd room ns u.0,
  find_fd-move_node-none n.sockfd fd room ns u.1,
)

length-move_node :
    (fd : ℕ) (room : Bytes) (ns : List Node) → length (move_node fd room ns) ≡ length ns
unfolding move_node
length-move_node fd room [] = refl
length-move_node fd room (n ∷ ns) = ground (arith, length-move_node fd room ns)

-- A change of room keeps the registry valid.
pub registry_set_room-IsValid :
    (reg : Registry) (fd : ℕ) (room : Bytes)
    → IsValid reg
    → IsValid (registry_set_room reg fd room).1
unfolding registry_set_room
registry_set_room-IsValid reg fd room v =
    ground
      (arith, move_node-IsUnique fd room reg.nodes v.unique, length-move_node fd room reg.nodes)
