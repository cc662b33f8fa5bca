-- ===== src/Registry.antt =====
-- src/server/client_registry.c: the list of the users that are online. The mutex makes each
-- function atomic; `registry_foreach` gives it up around each call of its callback, and is modelled
-- for a list that nobody changes meanwhile. A socket descriptor is a natural number, and the -1 of
-- `registry_get_sockfd_by_username` is `none`.
pub mod Directory
pub mod Find
pub mod Names
pub mod Sequence
pub mod UserList
pub mod Valid
use ai_chatbot.Base.{
  ℕ, ◌+◌, ◌-◌, ◌%◌, ◌^◌, Bool, true, false, List, [], ◌∷◌, ◌++◌, Option, none, some, ◌==◌, leb,
  if◌then◌else◌, is_some, length, not,
}
use ai_chatbot.Text.{Bytes, str_eq, strncpy, strncpy_over, snprintf}
use ai_chatbot.Status.{Status, max_username_len, max_room_name_len, max_clients, is_ok}

-- `client_node_t`
pub record Node : Type 0 where
  pub sockfd : ℕ
  pub username : Bytes
  pub room : Bytes
  pub authenticated : Bool
  pub is_admin : Bool

-- `client_registry_t`: the linked list from `head`, and `count`.
pub record Registry : Type 0 where
  pub nodes : List Node
  pub count : ℕ

-- `registry_init`
abbrev pub registry_init : Registry
registry_init = record { nodes = []; count = 0 }

-- The scan of the list for a descriptor, and the one for a name.
unfoldable pub find_fd : ℕ → List Node → Option Node
find_fd fd [] = none
find_fd fd (n ∷ ns) = if n.sockfd == fd then some n else find_fd fd ns

unfoldable pub find_name : Bytes → List Node → Option Node
unfolding str_eq
find_name name [] = none
find_name name (n ∷ ns) = if str_eq n.username name then some n else find_name name ns

-- What the malloc'ed node holds behind the bytes that `strncpy` copies.
pub record Spill : Type 0 where
  pub username : Bytes
  pub room : Bytes

abbrev pub new_node : Spill → ℕ → Bytes → Bytes → Bool → Node
new_node spill fd username room is_admin = record {
  sockfd = fd;
  username = strncpy_over (max_username_len - 1) spill.username username;
  room = strncpy_over (max_room_name_len - 1) spill.room room;
  authenticated = true;
  is_admin = is_admin;
}

-- `mem` says whether `malloc` succeeds, and `spill` what its memory holds.
unfoldable pub registry_add : Bool → Spill → Registry → ℕ → Bytes → Bytes → Bool → Status × Registry
registry_add mem spill reg sockfd username room is_admin =
    if not mem
    then (Status.nomem, reg)
    else if leb max_clients reg.count
    then (Status.full, reg)
    else if is_some (find_name username reg.nodes)
    then (Status.duplicate, reg)
    else (
      Status.ok,
      record {
        nodes = new_node spill sockfd username room is_admin ∷ reg.nodes;
        count = reg.count + 1;
      },
    )

-- The list without the first node of the descriptor; `none` if there is none.
unfoldable pub unlink : ℕ → List Node → Option (List Node)
unlink fd [] = none
unlink fd (n ∷ ns) =
    if n.sockfd == fd
    then some ns
    else elim (unlink fd ns) [ none ↦ none | some ms ↦ some (n ∷ ms) ]

-- `count--` on a `size_t`
abbrev pub decrement : ℕ → ℕ
decrement n = (n + 2 ^ 64 - 1) % 2 ^ 64

unfoldable pub registry_remove : Registry → ℕ → Status × Registry
registry_remove reg sockfd = elim (unlink sockfd reg.nodes) [
  | none ↦ (Status.not_found, reg)
  | some ns ↦ (Status.ok, record { nodes = ns; count = decrement reg.count })
]

unfoldable pub registry_username_exists : Registry → Bytes → Bool
registry_username_exists reg username = is_some (find_name username reg.nodes)

-- The status, and what the buffer of `buflen` bytes holds.
unfoldable pub registry_get_username : Registry → ℕ → ℕ → Status × Bytes
registry_get_username reg sockfd buflen =
    if buflen == 0 then (Status.err, []) else elim (find_fd sockfd reg.nodes) [
      | none ↦ (Status.not_found, [])
      | some n ↦ (Status.ok, strncpy (buflen - 1) n.username)
    ]

unfoldable pub registry_get_room : Registry → ℕ → ℕ → Status × Bytes
registry_get_room reg sockfd buflen =
    if buflen == 0 then (Status.err, []) else elim (find_fd sockfd reg.nodes) [
      | none ↦ (Status.not_found, [])
      | some n ↦ (Status.ok, strncpy (buflen - 1) n.room)
    ]

-- The list with the room of the first node of the descriptor replaced.
unfoldable pub move_node : ℕ → Bytes → List Node → List Node
move_node fd room [] = []
move_node fd room (n ∷ ns) =
    if n.sockfd == fd
    then record n { room = strncpy (max_room_name_len - 1) room } ∷ ns
    else n ∷ move_node fd room ns

unfoldable pub registry_set_room : Registry → ℕ → Bytes → Status × Registry
registry_set_room reg sockfd room =
    if is_some (find_fd sockfd reg.nodes)
    then (Status.ok, record reg { nodes = move_node sockfd room reg.nodes })
    else (Status.not_found, reg)

unfoldable pub registry_is_admin : Registry → ℕ → Bool
registry_is_admin reg sockfd = elim (find_fd sockfd reg.nodes) [
  | none ↦ false
  | some n ↦ n.is_admin
]

unfoldable pub registry_get_sockfd_by_username : Registry → Bytes → Option ℕ
registry_get_sockfd_by_username reg username = elim (find_name username reg.nodes) [
  | none ↦ none
  | some n ↦ some n.sockfd
]

unfoldable pub registry_count : Registry → ℕ
registry_count reg = reg.count

-- The text of one round: `"%s"` for the first name and `",%s"` for the others.
abbrev pub list_piece : Bool → Node → Bytes
list_piece first n = if first then n.username else (b',' ∷ n.username)

-- The loop that appends names to the buffer; `buf` holds the `used` bytes written so far.
unfoldable pub user_list_loop : ℕ → Bool → Bytes → List Node → Status × Bytes
user_list_loop buflen first buf [] = (Status.ok, buf)
user_list_loop buflen first buf (n ∷ ns) =
    let (cut, written) = snprintf (buflen - length buf) (list_piece first n) in
    let rest = user_list_loop buflen false (buf ++ written) ns in
    if cut then (Status.err, buf ++ written) else rest

unfoldable pub registry_build_user_list : Registry → ℕ → Status × Bytes
unfolding user_list_loop
registry_build_user_list reg buflen =
    if buflen == 0 then (Status.err, []) else user_list_loop buflen true [] reg.nodes

-- The same loop, which passes over the nodes of other rooms.
unfoldable pub room_user_list_loop : Bytes → ℕ → Bool → Bytes → List Node → Status × Bytes
room_user_list_loop room buflen first buf [] = (Status.ok, buf)
room_user_list_loop room buflen first buf (n ∷ ns) =
    let skip = room_user_list_loop room buflen first buf ns in
    let (cut, written) = snprintf (buflen - length buf) (list_piece first n) in
    let rest = room_user_list_loop room buflen false (buf ++ written) ns in
    if not (str_eq n.room room) then skip else if cut then (Status.err, buf ++ written) else rest

unfoldable pub registry_build_room_user_list : Registry → Bytes → ℕ → Status × Bytes
registry_build_room_user_list reg room buflen =
    if buflen == 0 then (Status.err, []) else room_user_list_loop room buflen true [] reg.nodes

-- The callback runs on each node in turn, and its first failure ends the walk.
module _ {W : Type 0} (fn : Node → W → Status × W) where
  unfoldable pub foreach_loop : List Node → W → Status × W
  foreach_loop [] w = (Status.ok, w)
  foreach_loop (n ∷ ns) w =
      let (rc, w') = fn n w in let rest = foreach_loop ns w' in if is_ok rc then rest else (rc, w')

  unfoldable pub registry_foreach : Registry → W → Status × W
  registry_foreach reg w = foreach_loop reg.nodes w

  unfoldable pub foreach_in_room_loop : Bytes → List Node → W → Status × W
  foreach_in_room_loop room [] w = (Status.ok, w)
  foreach_in_room_loop room (n ∷ ns) w =
      let skip = foreach_in_room_loop room ns w in
      let (rc, w') = fn n w in
      let rest = foreach_in_room_loop room ns w' in
      if not (str_eq n.room room) then skip else if is_ok rc then rest else (rc, w')

  unfoldable pub registry_foreach_in_room : Registry → Bytes → W → Status × W
  registry_foreach_in_room reg room w = foreach_in_room_loop room reg.nodes w
