-- ===== src/Server/Commands/Login.antt =====
-- What a successful `cmd_handle_auth` of src/server/commands.c has checked and done.
use ai_chatbot.Base.{ℕ, suc, ◌≡◌, true, false, arith, length, ◌<◌}
use ai_chatbot.Text.{Bytes}
use ai_chatbot.Status.{Status, is_ok, max_clients}
use ai_chatbot.Auth.{auth_verify, auth_is_admin}
use ai_chatbot.Registry.{registry_username_exists}
use ai_chatbot.Registry.Find.{Added, registry_add-Added, registry_add_iff}
use ai_chatbot.Rooms.{default_room}
use ai_chatbot.Server.State.{Env, Server}
use ai_chatbot.Server.Commands.{cmd_handle_auth}
use ai_chatbot.Server.Commands.Enter.{auth_registry}

is_ok_sound : (rc : Status) → is_ok rc ≡ true → rc ≡ Status.ok
is_ok_sound rc e = ground arith

-- When a client with a name of at most 30 bytes is let in, the password was verified, nobody of
-- that name was online, fewer than MAX_CLIENTS were, and the registry then holds the new user, in
-- the lobby and with the right that the file of users gives. When it is not let in, the registry is
-- as it was.
pub cmd_handle_auth_lem :
    (env : Env) (fd : ℕ) (name password : Bytes) (s : Server)
    → length name < 31
    → let (rc, s') = cmd_handle_auth env fd name password s in
      (is_ok rc ≡ true
        → (auth_verify env.evp s.users name password ≡ Status.ok)
          × (registry_username_exists s.registry name ≡ false)
          × (s.registry.count < max_clients)
          × Added s.registry s'.registry fd name default_room (auth_is_admin s.users name))
      × (is_ok rc ≡ false → s'.registry ≡ s.registry)
cmd_handle_auth_lem env fd name password s short =
    let admin = auth_is_admin s.users name in
    let (entry, failed) = auth_registry env fd name password s in
    let (why, _) =
      registry_add_iff (env.alloc s.tick) (env.spill (suc s.tick)) s.registry fd name default_room
        admin in
    let new =
      registry_add-Added (env.alloc s.tick) (env.spill (suc s.tick)) s.registry fd name default_room
        admin short (omega arith) in
    (
      (λ e.
          let (_, added, same, checked) = entry e in
          let ok = is_ok_sound _ added in
          let (_, spare, fresh) = why.0 ok in (checked, fresh, spare, rw same (new ok))),
      failed,
    )
