-- ===== src/Registry/Sequence.antt =====
-- Sequences of operations on the registry of src/server/client_registry.c.
use ai_chatbot.Base.{ℕ, ◌<◌, ◌≡◌, Bool, List, [], ◌∷◌, none, length}
use ai_chatbot.Text.{Bytes}
use ai_chatbot.Registry.{Registry, Spill, find_fd, registry_add, registry_remove, registry_set_room}
use ai_chatbot.Registry.Valid.{
  IsValid, registry_add-IsValid, registry_remove-IsValid, registry_set_room-IsValid,
}

-- A call of an operation, with its arguments.
pub data Operation : Type 0 where
  add : Bool → Spill → ℕ → Bytes → Bytes → Bool → Operation
  remove : ℕ → Operation
  set_room : ℕ → Bytes → Operation

abbrev pub run_operation : Operation → Registry → Registry
run_operation (Operation.add mem spill fd name room admin) reg =
    (registry_add mem spill reg fd name room admin).1
run_operation (Operation.remove fd) reg = (registry_remove reg fd).1
run_operation (Operation.set_room fd room) reg = (registry_set_room reg fd room).1

abbrev pub run_operations : List Operation → Registry → Registry
run_operations [] reg = reg
run_operations (op ∷ ops) reg = run_operations ops (run_operation op reg)

-- An insertion is of a name of at most 30 bytes and of a descriptor that is not listed.
abbrev pub IsAllowed : Operation → Registry → Type 0
IsAllowed (Operation.add _ _ fd name _ _) reg = (length name < 31) × (find_fd fd reg.nodes ≡ none)
IsAllowed _ reg = Unit {0}

abbrev pub AllAllowed : List Operation → Registry → Type 0
AllAllowed [] reg = Unit {0}
AllAllowed (op ∷ ops) reg = IsAllowed op reg × AllAllowed ops (run_operation op reg)

pub run_operation-IsValid :
    (op : Operation) (reg : Registry)
    → IsAllowed op reg
    → IsValid reg
    → IsValid (run_operation op reg)
run_operation-IsValid (Operation.add mem spill fd name room admin) reg a v =
    registry_add-IsValid mem spill reg fd name room admin v a.0 a.1
run_operation-IsValid (Operation.remove fd) reg a v = registry_remove-IsValid reg fd v
run_operation-IsValid (Operation.set_room fd room) reg a v = registry_set_room-IsValid reg fd room v

-- In every sequence of insertions, removals and changes of a room, whatever fails, in which a name that is inserted has at
-- most 30 bytes and its descriptor is not listed, the registry stays valid: its count is right and at most
-- MAX_CLIENTS, and no name and no descriptor is listed twice.
pub run_operations-IsValid :
    (ops : List Operation) (reg : Registry)
    → AllAllowed ops reg
    → IsValid reg
    → IsValid (run_operations ops reg)
run_operations-IsValid [] reg a v = v
run_operations-IsValid (op ∷ ops) reg a v =
    run_operations-IsValid ops (run_operation op reg) a.1 (run_operation-IsValid op reg a.0 v)
