-- ===== src/Registry/Directory.antt =====
-- What src/server/client_registry.c promises, without its list: a directory that gives the user of each
-- descriptor, with the number of the users, and the steps that the operations take on it.
pub mod Lookup
pub mod Refines
pub mod Steps
use mathlib.Core.Option
use mathlib.Core.Path.{fun_ext, subst}
use ai_chatbot.Base.{
  ℕ, ◌+◌, ◌<◌, ◌≤◌, ◌≡◌, ◌≢◌, refl, sym, ◌∙◌, ap, Bool, true, false, List, [], ◌∷◌, Option, none,
  some, is_some, length, arith, Option-cases, Bool-cases, inl, inr, ◌==◌, ==_iff, ==_refl, ◌↔◌,
  take, take_all, leb, leb→le, leb→gt, some_inj, if◌then◌else◌,
}
use ai_chatbot.Text.{Bytes, str_eq_iff, strncpy, str_eq}
use ai_chatbot.Text.Split.{strncpy_over-short}
use ai_chatbot.Status.{Status, max_clients}
use ai_chatbot.Registry.{
  Node, Registry, Spill, find_fd, find_name, unlink, move_node, registry_add, registry_remove,
  registry_set_room, registry_get_sockfd_by_username, registry_get_username, registry_get_room,
  registry_is_admin, new_node, decrement,
}
use ai_chatbot.Registry.Valid.{IsValid, IsUnique, unlink-IsUnique}
use ai_chatbot.Registry.Find.{
  find_fd-unlink_self, find_fd-unlink_ne, find_fd-move_self, find_fd-move_ne, unlink-none,
  unlink-some,
}
use ai_chatbot.Registry.Sequence.{
  Operation, run_operation, run_operations, IsAllowed, AllAllowed, run_operation-IsValid,
}

pub record User : Type 0 where
  pub name : Bytes
  pub room : Bytes
  pub admin : Bool

pub record Directory : Type 0 where
  pub user_of : ℕ → Option User
  pub size : ℕ

-- The directory with an answer for one descriptor replaced.
abbrev pub answer : ℕ → Option User → Directory → ℕ → Option User
answer fd u d j = if fd == j then u else d.user_of j

-- What a call may do to a directory, with the status that it returns.
pub data Step (d : Directory) : Operation → Status → Directory → Type 0 where
  added :
      (spill : Spill) (fd : ℕ) (name room : Bytes) (admin : Bool)
      → d.size < max_clients
      → ((j : ℕ) (u : User) → d.user_of j ≡ some u → u.name ≢ name)
      → Step d (Operation.add true spill fd name room admin) Status.ok (record {
        user_of = answer fd (some (record { name = name; room = room; admin = admin })) d;
        size = d.size + 1;
      })
  no_memory :
      (spill : Spill) (fd : ℕ) (name room : Bytes) (admin : Bool)
      → Step d (Operation.add false spill fd name room admin) Status.nomem d
  no_place :
      (spill : Spill) (fd : ℕ) (name room : Bytes) (admin : Bool)
      → max_clients ≤ d.size
      → Step d (Operation.add true spill fd name room admin) Status.full d
  taken :
      (spill : Spill) (fd : ℕ) (name room : Bytes) (admin : Bool) (j : ℕ) (u : User)
      → d.size < max_clients
      → d.user_of j ≡ some u
      → u.name ≡ name
      → Step d (Operation.add true spill fd name room admin) Status.duplicate d
  removed :
      (fd n : ℕ) (u : User)
      → d.user_of fd ≡ some u
      → d.size ≡ n + 1
      → Step d (Operation.remove fd) Status.ok (record { user_of = answer fd none d; size = n })
  moved :
      (fd : ℕ) (room : Bytes) (u : User)
      → d.user_of fd ≡ some u
      → Step d
          (Operation.set_room fd room)
          Status.ok
          (record d { user_of = answer fd (some (record u { room = room })) d })
  none_removed : (fd : ℕ) → d.user_of fd ≡ none → Step d (Operation.remove fd) Status.not_found d
  none_moved :
      (fd : ℕ) (room : Bytes)
      → d.user_of fd ≡ none
      → Step d (Operation.set_room fd room) Status.not_found d

-- The steps of a list of calls, one behind the other.
pub data Run : Directory → List (Operation × Status) → Directory → Type 0 where
  nothing : {d : Directory} → Run d [] d
  one_more :
      {d e f : Directory} (op : Operation) (rc : Status) (calls : List (Operation × Status))
      → Step d op rc e
      → Run e calls f
      → Run d ((op, rc) ∷ calls) f

-- The directory that a registry stands for.
abbrev pub user : Node → User
user n = record { name = n.username; room = n.room; admin = n.is_admin }

abbrev pub users_of : List Node → ℕ → Option User
users_of ns j = Option.map user (find_fd j ns)

abbrev pub directory : Registry → Directory
directory reg = record { user_of = users_of reg.nodes; size = reg.count }

-- The status that a call returns.
abbrev pub status_of : Operation → Registry → Status
status_of (Operation.add mem spill fd name room admin) reg =
    (registry_add mem spill reg fd name room admin).0
status_of (Operation.remove fd) reg = (registry_remove reg fd).0
status_of (Operation.set_room fd room) reg = (registry_set_room reg fd room).0

abbrev pub calls : List Operation → Registry → List (Operation × Status)
calls [] reg = []
calls (op ∷ ops) reg = (op, status_of op reg) ∷ calls ops (run_operation op reg)

-- The rooms fit their field.
abbrev pub FitsRoom : Operation → Type 0
FitsRoom (Operation.add _ _ _ _ room _) = length room < 31
FitsRoom (Operation.remove _) = Unit {0}
FitsRoom (Operation.set_room _ room) = length room < 32

abbrev pub AllFitRoom : List Operation → Type 0
AllFitRoom [] = Unit {0}
AllFitRoom (op ∷ ops) = FitsRoom op × AllFitRoom ops

-- What the look-ups of a registry answer is what its directory says.
pub record Answers (reg : Registry) : Type 0 where
  pub get_username :
      (fd : ℕ)
      → registry_get_username reg fd 32 ≡ elim (users_of reg.nodes fd) [
        | none ↦ (Status.not_found, [])
        | some u ↦ (Status.ok, take 31 u.name)
      ]
  pub get_room :
      (fd : ℕ)
      → registry_get_room reg fd 32 ≡ elim (users_of reg.nodes fd) [
        | none ↦ (Status.not_found, [])
        | some u ↦ (Status.ok, take 31 u.room)
      ]
  pub is_admin :
      (fd : ℕ)
      → registry_is_admin reg fd ≡ elim (users_of reg.nodes fd) [ none ↦ false | some u ↦ u.admin ]
  pub finds :
      (fd : ℕ) (u : User)
      → users_of reg.nodes fd ≡ some u
      → registry_get_sockfd_by_username reg u.name ≡ some fd
  pub found_only :
      (fd : ℕ) (name : Bytes)
      → registry_get_sockfd_by_username reg name ≡ some fd
      → (u : User) × (users_of reg.nodes fd ≡ some u) × (u.name ≡ name)
