-- ===== src/Registry/Directory/Steps.antt =====
-- Each operation of src/server/client_registry.c takes a step of the directory.
use mathlib.Core.Path.{subst}
use ai_chatbot.Base.{
  ℕ, ◌+◌, ◌<◌, sym, ap, Bool, true, false, is_some, length, arith, Option-cases, Bool-cases, inl,
  inr, leb, leb→le, leb→gt,
}
use ai_chatbot.Text.{Bytes}
use ai_chatbot.Status.{Status, max_clients}
use ai_chatbot.Registry.{
  Registry, Spill, find_fd, find_name, unlink, registry_add, registry_remove, registry_set_room,
  decrement,
}
use ai_chatbot.Registry.Valid.{IsValid, unlink-IsUnique}
use ai_chatbot.Registry.Find.{unlink-none, unlink-some}
use ai_chatbot.Registry.Sequence.{Operation, run_operation, IsAllowed}
use ai_chatbot.Registry.Directory.{Step, user, directory, status_of, FitsRoom}
use ai_chatbot.Registry.Directory.Lookup.{
  find_name-some, users_of-add, users_of-remove, users_of-move, found_user, no_user, other_users,
}

add-Step :
    (mem : Bool) (spill : Spill) (fd : ℕ) (name room : Bytes) (admin : Bool) (reg : Registry)
    → length name < 31
    → length room < 31
    → IsValid reg
    → let (rc, reg') = registry_add mem spill reg fd name room admin in
      Step (directory reg) (Operation.add mem spill fd name room admin) rc (directory reg')
unfolding registry_add
add-Step false spill fd name room admin reg hn hr v = Step.no_memory spill fd name room admin
add-Step true spill fd name room admin reg hn hr v = elim (Bool-cases (leb max_clients reg.count)) [
  | inl full ↦ rw full (Step.no_place spill fd name room admin (leb→le max_clients reg.count full))
  | inr place ↦ elim (Option-cases (find_name name reg.nodes)) [
    | inl free ↦
        rw (place, free)
          (subst
            (λ f.
              Step (directory reg) (Operation.add true spill fd name room admin) Status.ok
                (record { user_of = f; size = reg.count + 1 }))
            (sym (users_of-add spill fd name room admin reg hn hr))
            (Step.added spill fd name room admin (leb→gt max_clients reg.count place)
              (λ j u. other_users name reg.nodes j u free)))
    | inr (n, e) ↦
        rw (place, e)
          (let (found, same) = find_name-some name reg.nodes n v.unique e in
            Step.taken spill fd name room admin n.sockfd (user n)
              (leb→gt max_clients reg.count place) (found_user n.sockfd reg.nodes found) same)
  ]
]

remove-Step :
    (fd : ℕ) (reg : Registry)
    → IsValid reg
    → let (rc, reg') = registry_remove reg fd in
      Step (directory reg) (Operation.remove fd) rc (directory reg')
unfolding registry_remove
remove-Step fd reg v = elim (Option-cases (unlink fd reg.nodes)) [
  | inl gone ↦
      rw (gone, registry_remove)
        (Step.none_removed fd (no_user fd reg.nodes (unlink-none fd reg.nodes gone)))
  | inr (ms, e) ↦ elim (Option-cases (find_fd fd reg.nodes)) [
    | inl gone ↦ cc (ap is_some gone, unlink-some fd reg.nodes ms e)
    | inr (n, found) ↦
        let shorter = (unlink-IsUnique fd reg.nodes ms v.unique e).1 in
        rw (e, registry_remove)
          (subst
            (λ f.
              Step (directory reg) (Operation.remove fd) Status.ok
                (record { user_of = f; size = decrement reg.count }))
            (sym (users_of-remove reg fd ms v.unique e))
            (Step.removed fd (decrement reg.count) (user n) (found_user fd reg.nodes found)
              (omega (arith, shorter, v.counted, v.bounded))))
  ]
]

set_room-Step :
    (fd : ℕ) (room : Bytes) (reg : Registry)
    → length room < 32
    → let (rc, reg') = registry_set_room reg fd room in
      Step (directory reg) (Operation.set_room fd room) rc (directory reg')
unfolding registry_set_room
set_room-Step fd room reg h = elim (Option-cases (find_fd fd reg.nodes)) [
  | inl gone ↦ rw (gone, registry_set_room) (Step.none_moved fd room (no_user fd reg.nodes gone))
  | inr (n, found) ↦
      rw (found, registry_set_room)
        (subst
          (λ f.
            Step (directory reg) (Operation.set_room fd room) Status.ok
              (record { user_of = f; size = reg.count }))
          (sym (users_of-move reg fd room n h found))
          (Step.moved fd room (user n) (found_user fd reg.nodes found)))
]

pub operation-Step :
    (op : Operation) (reg : Registry)
    → IsAllowed op reg
    → FitsRoom op
    → IsValid reg
    → Step (directory reg) op (status_of op reg) (directory (run_operation op reg))
operation-Step (Operation.add mem spill fd name room admin) reg a h v =
    add-Step mem spill fd name room admin reg a.0 h v
operation-Step (Operation.remove fd) reg a h v = remove-Step fd reg v
operation-Step (Operation.set_room fd room) reg a h v = set_room-Step fd room reg h
