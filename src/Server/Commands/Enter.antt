-- ===== src/Server/Commands/Enter.antt =====
-- How the handlers of src/server/commands.c insert, move and remove one node of the registry of
-- src/server/client_registry.c.
use ai_chatbot.Base.{ℕ, suc, ◌+◌, ◌≡◌, ◌<◌, refl, Bool, true, false, ◌∷◌, arith, ==_refl}
use ai_chatbot.Text.{Bytes, is_empty, strncpy}
use ai_chatbot.Status.{Status, is_ok, max_clients}
use ai_chatbot.Registry.{
  Registry, Node, Spill, registry_add, registry_set_room, registry_remove, registry_get_username,
  registry_get_room, find_fd, unlink, move_node, new_node,
}
use ai_chatbot.Rooms.{default_room}
use ai_chatbot.Auth.{auth_is_admin, auth_verify}
use ai_chatbot.Server.State.{Env, Server}
use ai_chatbot.Server.Commands.{welcome, cmd_handle_auth, change_room, cmd_handle_join_room}
use ai_chatbot.Server.Reply.{cmd_send_response, enqueue_room_event, room_history_send_to_client}

abbrev pub entered : Node → Registry → Registry
entered n reg = record { nodes = n ∷ reg.nodes; count = reg.count + 1 }

-- The registry with one node of the descriptor in front.
pub record Entered (fd : ℕ) (reg reg' : Registry) : Type 0 where
  pub node : Node
  pub own : node.sockfd ≡ fd
  pub spare : reg.count < max_clients
  pub front : reg' ≡ entered node reg

pub add-Entered :
    (mem : Bool) (spill : Spill) (reg : Registry) (fd : ℕ) (name room : Bytes) (admin : Bool)
    → let (rc, reg') = registry_add mem spill reg fd name room admin in
      (is_ok rc ≡ true → Entered fd reg reg') × (is_ok rc ≡ false → reg' ≡ reg)
unfolding registry_add
add-Entered mem spill reg fd name room admin = (
  (λ e. record {
    node = new_node spill fd name room admin;
    own = refl;
    spare = ground arith;
    front = ground arith;
  }),
  (λ e. ground arith),
)

remove-entered :
    (n : Node) (reg : Registry)
    → reg.count < max_clients
    → (registry_remove (entered n reg) n.sockfd).1 ≡ reg
unfolding registry_remove unlink
remove-entered n reg h = ground (arith, ==_refl n.sockfd)

pub remove-Entered :
    (fd : ℕ) (reg reg' : Registry) → Entered fd reg reg' → (registry_remove reg' fd).1 ≡ reg
remove-Entered fd reg reg' h = rw (h.front, ← h.own) (remove-entered h.node reg h.spare)

set_room-entered :
    (room : Bytes) (n : Node) (reg : Registry)
    → (registry_set_room (entered n reg) n.sockfd room).1
      ≡ entered (record n { room = strncpy 31 room }) reg
unfolding registry_set_room find_fd move_node
set_room-entered room n reg = ground (arith, ==_refl n.sockfd)

set_room-Entered :
    (fd : ℕ) (room : Bytes) (reg reg' : Registry)
    → Entered fd reg reg'
    → Entered fd reg (registry_set_room reg' fd room).1
set_room-Entered fd room reg reg' h = record {
  node = record h.node { room = strncpy 31 room };
  own = h.own;
  spare = h.spare;
  front = rw (h.front, ← h.own) (set_room-entered room h.node reg);
}

pub change_room_registry :
    (env : Env) (fd : ℕ) (name old room : Bytes) (s : Server)
    → (change_room env fd name old room s).1.registry ≡ (registry_set_room s.registry fd room).1
unfolding change_room cmd_send_response enqueue_room_event room_history_send_to_client
change_room_registry env fd name old room s = ground arith

pub join_room-Entered :
    (env : Env) (fd : ℕ) (room : Bytes) (reg : Registry) (s : Server)
    → Entered fd reg s.registry
    → Entered fd reg (cmd_handle_join_room env fd room s).1.registry
unfolding cmd_handle_join_room cmd_send_response
join_room-Entered env fd room reg s h =
    let name = (registry_get_username s.registry fd 32).1 in
    let old = (registry_get_room s.registry fd 32).1 in
    let moved = set_room-Entered fd room reg s.registry h in
    let e = change_room_registry env fd name old room s in ground arith

pub welcome_registry :
    (env : Env) (fd : ℕ) (name : Bytes) (s : Server)
    → let (rc, s') = welcome env fd name s in
      (is_ok rc ≡ true → s'.registry ≡ s.registry)
      × (is_ok rc ≡ false → s'.registry ≡ (registry_remove s.registry fd).1)
unfolding welcome cmd_send_response enqueue_room_event room_history_send_to_client
welcome_registry env fd name s = ground arith

-- The insertion that an authentication makes.
abbrev pub insertion : Env → ℕ → Bytes → Server → Status × Registry
insertion env fd name s =
    registry_add (env.alloc s.tick) (env.spill (suc s.tick)) s.registry fd name default_room
      (auth_is_admin s.users name)

pub auth_registry :
    (env : Env) (fd : ℕ) (name password : Bytes) (s : Server)
    → let (rc, s') = cmd_handle_auth env fd name password s in
      let (added, reg') = insertion env fd name s in
      (is_ok rc ≡ true
        → (is_empty name ≡ false)
          × (is_ok added ≡ true)
          × (s'.registry ≡ reg')
          × (auth_verify env.evp s.users name password ≡ Status.ok))
      × (is_ok rc ≡ false → s'.registry ≡ s.registry)
unfolding cmd_handle_auth cmd_send_response
auth_registry env fd name password s =
    let (added, reg') = insertion env fd name s in
    let (ins, kept) =
      add-Entered (env.alloc s.tick) (env.spill (suc s.tick)) s.registry fd name default_room
        (auth_is_admin s.users name) in
    let undone : is_ok added ≡ true → (registry_remove reg' fd).1 ≡ s.registry =
      λ e. remove-Entered fd s.registry reg' (ins e) in
    let w = welcome_registry env fd name (record s { registry = reg'; tick = suc (suc s.tick) }) in
    ground arith
