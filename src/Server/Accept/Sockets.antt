-- ===== src/Server/Accept/Sockets.antt =====
-- Which descriptors the registry of src/server/client_registry.c lists, and what the thread of a client in
-- src/server/server.c does to them, in any state of the server.
use ai_chatbot.Base.{
  ℕ, suc, ◌≡◌, refl, ap, ◌∙◌, Bool, true, false, ◌||◌, not, List, [], ◌∷◌, Option, none, some,
  arith, ◌==◌, Bool-cases, inl, inr, ◌⊎◌, if◌then◌else◌, take,
}
use ai_chatbot.Text.{Bytes, is_empty}
use ai_chatbot.Status.{Status, is_ok}
use ai_chatbot.Registry.{
  Node, Registry, move_node, unlink, registry_set_room, registry_remove, registry_get_username,
  registry_get_room,
}
use ai_chatbot.Rooms.{default_room}
use ai_chatbot.Auth.{auth_is_admin}
use ai_chatbot.Protocol.Client.{ClientCmd, parse_client_line}
use ai_chatbot.Server.State.{Env, Server, pure, ◌>>=◌}
use ai_chatbot.Server.Commands.{cmd_handle_auth, cmd_handle_join_room, change_room}
use ai_chatbot.Server.Commands.Enter.{auth_registry, add-Entered, change_room_registry}
use ai_chatbot.Server.Commands.Keep.{
  send_keep, msg_keep, pm_keep, list_keep, history_keep, kick_keep,
}
use ai_chatbot.Server.Reply.{cmd_send_response}
use ai_chatbot.Server.Session.Registered.{disconnect_registry}
use ai_chatbot.Server.Session.{Session, run_command, log_in, session_step, go_on, disconnect_client}

abbrev pub sockets_of : List Node → List ℕ
sockets_of [] = []
sockets_of (n ∷ ns) = n.sockfd ∷ sockets_of ns

abbrev pub sockets : Server → List ℕ
sockets s = sockets_of s.registry.nodes

abbrev pub member : ℕ → List ℕ → Bool
member fd [] = false
member fd (x ∷ xs) = (x == fd) || member fd xs

-- No descriptor stands twice in the list.
abbrev pub AllDistinct : List ℕ → Type 0
AllDistinct [] = Unit {0}
AllDistinct (x ∷ xs) = (member x xs ≡ false) × AllDistinct xs

-- The first occurrence goes.
abbrev pub without : ℕ → List ℕ → List ℕ
without fd [] = []
without fd (x ∷ xs) = if x == fd then xs else x ∷ without fd xs

move_node_sockets :
    (fd : ℕ) (room : Bytes) (ns : List Node) → sockets_of (move_node fd room ns) ≡ sockets_of ns
unfolding move_node
move_node_sockets fd room [] = refl
move_node_sockets fd room (n ∷ ns) = ground (arith, move_node_sockets fd room ns)

unlink_sockets :
    (fd : ℕ) (ns : List Node)
    → (elim (unlink fd ns) [ none ↦ sockets_of ns | some ms ↦ sockets_of ms ])
      ≡ without fd (sockets_of ns)
unfolding unlink
unlink_sockets fd [] = refl
unlink_sockets fd (n ∷ ns) = ground (arith, unlink_sockets fd ns)

set_room_sockets :
    (reg : Registry) (fd : ℕ) (room : Bytes)
    → sockets_of (registry_set_room reg fd room).1.nodes ≡ sockets_of reg.nodes
unfolding registry_set_room
set_room_sockets reg fd room = ground (arith, move_node_sockets fd room reg.nodes)

remove_sockets :
    (reg : Registry) (fd : ℕ)
    → sockets_of (registry_remove reg fd).1.nodes ≡ without fd (sockets_of reg.nodes)
unfolding registry_remove
remove_sockets reg fd = ground (arith, unlink_sockets fd reg.nodes)

module _ (env : Env) where
  join_sockets :
      (fd : ℕ) (room : Bytes) (s : Server)
      → sockets (cmd_handle_join_room env fd room s).1 ≡ sockets s
  unfolding cmd_handle_join_room cmd_send_response
  join_sockets fd room s =
      let name = (registry_get_username s.registry fd 32).1 in
      let old = (registry_get_room s.registry fd 32).1 in
      let moved : sockets (change_room env fd name old room s).1 ≡ sockets s =
        ap (λ (r : Registry). sockets_of r.nodes) (change_room_registry env fd name old room s)
        ∙ set_room_sockets s.registry fd room in
      ground arith

  sockets-run_command :
      (fd : ℕ) (c : ClientCmd) (arg1 arg2 : Bytes) (s : Server)
      → sockets (run_command env fd c arg1 arg2 s).1 ≡ sockets s
  unfolding run_command
  sockets-run_command fd ClientCmd.unknown arg1 arg2 s = rw (send_keep env fd _ s)
  sockets-run_command fd ClientCmd.auth arg1 arg2 s = rw (send_keep env fd _ s)
  sockets-run_command fd ClientCmd.join_room arg1 arg2 s = join_sockets fd arg1 s
  sockets-run_command fd ClientCmd.msg arg1 arg2 s = rw (msg_keep env fd arg2 s)
  sockets-run_command fd ClientCmd.pm arg1 arg2 s = rw (pm_keep env fd arg1 arg2 s)
  sockets-run_command fd ClientCmd.list arg1 arg2 s = rw (list_keep env fd s)
  sockets-run_command fd ClientCmd.history arg1 arg2 s = rw (history_keep env fd s)
  sockets-run_command fd ClientCmd.kick arg1 arg2 s = rw (kick_keep env fd arg1 s)
  sockets-run_command fd ClientCmd.quit arg1 arg2 s = refl

-- A round of the loop that lists no further descriptor, and leaves the variables of the thread alone.
pub record Stays (session : Session) (next : Option Session) (s s' : Server) : Type 0 where
  pub same_sockets : sockets s' ≡ sockets s
  pub same_session : (session' : Session) → next ≡ some session' → session' ≡ session

-- A round that lists the descriptor: the log-in of a thread that was not authenticated.
pub record Enters (fd : ℕ) (session : Session) (next : Option Session) (s s' : Server)
    : Type 0 where
  pub was_out : session.authenticated ≡ false
  pub session' : Session
  pub goes_on : next ≡ some session'
  pub is_in : session'.authenticated ≡ true
  pub has_name : is_empty session'.username ≡ false
  pub new_socket : sockets s' ≡ fd ∷ sockets s

abbrev pub Step : ℕ → Session → Option Session → Server → Server → Type 0
Step fd session next s s' = Stays session next s s' ⊎ Enters fd session next s s'

go_on-Stays :
    (session : Session) (rc : Option Status) (s s' : Server)
    → sockets s' ≡ sockets s
    → Stays session (go_on session rc) s s'
go_on-Stays session none s s' e = record { same_sockets = e; same_session = λ session' q. cc }
go_on-Stays session (some rc) s s' e = record {
  same_sockets = e;
  same_session = λ session' q. ground arith;
}

is_empty-take : (name : Bytes) → is_empty name ≡ false → is_empty (take 31 name) ≡ false
is_empty-take name h = ground arith

module _ (env : Env) where
  auth_step :
      (fd : ℕ) (session : Session) (name password : Bytes) (s : Server)
      → session.authenticated ≡ false
      → let (o, s') = log_in env fd session ClientCmd.auth name password s in Step fd session o s s'
  unfolding log_in
  auth_step fd session name password s out =
      let (entry, failed) = auth_registry env fd name password s in
      let (rc, s') = cmd_handle_auth env fd name password s in
      elim (Bool-cases (is_ok rc)) [
        | inl ok ↦
            let (named, added, same, _) = entry ok in
            let here =
              (add-Entered (env.alloc s.tick) (env.spill (suc s.tick)) s.registry fd name
                  default_room (auth_is_admin s.users name)).0
                added in
            let after : Session = record { authenticated = true; username = take 31 name } in
            rw ok (
              inr (record {
                was_out = out;
                session' = after;
                goes_on = refl;
                is_in = refl;
                has_name = is_empty-take name named;
                new_socket =
                    ap (λ (r : Registry). sockets_of r.nodes) same
                    ∙ ap (λ (r : Registry). sockets_of r.nodes) here.front
                    ∙ ap (λ x. x ∷ sockets s) here.own;
              }))
        | inr bad ↦ rw bad (
            inl (record {
              same_sockets = ap (λ (r : Registry). sockets_of r.nodes) (failed bad);
              same_session = λ session' q. cc;
            }))
      ]

  log_in_step :
      (fd : ℕ) (session : Session) (c : ClientCmd) (arg1 arg2 : Bytes) (s : Server)
      → session.authenticated ≡ false
      → let (o, s') = log_in env fd session c arg1 arg2 s in Step fd session o s s'
  unfolding log_in
  log_in_step fd session ClientCmd.auth arg1 arg2 s out = auth_step fd session arg1 arg2 s out
  log_in_step fd session c arg1 arg2 s out = inl (
      go_on-Stays session (some _) s _
        (ap (λ (r : Registry). sockets_of r.nodes) (send_keep env fd _ s)))

  -- The round behind a line that was parsed.
  known_step :
      (fd : ℕ) (a : Bool) (name : Bytes) (c : ClientCmd) (arg1 arg2 : Bytes) (s : Server)
      → let session : Session = record { authenticated = a; username = name } in
        let (o, s') =
          (if not a
              then log_in env fd session c arg1 arg2
              else (do rc ← run_command env fd c arg1 arg2; pure (go_on session rc)))
            s in
        Step fd session o s s'
  known_step fd false name c arg1 arg2 s =
      log_in_step fd (record { authenticated = false; username = name }) c arg1 arg2 s refl
  known_step fd true name c arg1 arg2 s = inl (
      go_on-Stays (record { authenticated = true; username = name }) _ s _
        (sockets-run_command env fd c arg1 arg2 s))

  step_of :
      (fd : ℕ) (a : Bool) (name line : Bytes) (s : Server)
      → let session : Session = record { authenticated = a; username = name } in
        let (o, s') = session_step env fd session line s in Step fd session o s s'
  unfolding session_step
  step_of fd a name line s =
      let session : Session = record { authenticated = a; username = name } in
      let (status, c) = parse_client_line line in
      elim (Bool-cases (is_ok status)) [
        | inr bad ↦ rw bad (
            inl (
              go_on-Stays session (some _) s _
                (ap (λ (r : Registry). sockets_of r.nodes) (send_keep env fd _ s))))
        | inl ok ↦ rw ok (known_step fd a name c.cmd c.arg1 c.arg2 s)
      ]

  pub session_step-Step :
      (fd : ℕ) (session : Session) (line : Bytes) (s : Server)
      → let (o, s') = session_step env fd session line s in Step fd session o s s'
  session_step-Step fd session line s = step_of fd session.authenticated session.username line s

  -- The end of a thread takes its descriptor off the list, if it was authenticated.
  pub disconnect_sockets :
      (fd : ℕ) (session : Session) (s : Server)
      → let s' = (disconnect_client env fd session s).1 in
        (session.authenticated ≡ true
          → is_empty session.username ≡ false
          → sockets s' ≡ without fd (sockets s))
        × (session.authenticated ≡ false → sockets s' ≡ sockets s)
  disconnect_sockets fd session s =
      let (on, off) = disconnect_registry env fd session s in
      (
        (λ a n. ap (λ (r : Registry). sockets_of r.nodes) (on a n) ∙ remove_sockets s.registry fd),
        (λ a. ap (λ (r : Registry). sockets_of r.nodes) (off a)),
      )
