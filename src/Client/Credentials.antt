-- ===== src/Client/Credentials.antt =====
-- src/client/client.c: `resolve_credentials`.
use ai_chatbot.Base.{◌-◌, Bool, true, false, not, ◌||◌, ◌∷◌, Option, none, some, if◌then◌else◌}
use ai_chatbot.Text.{Bytes, codes, strncpy, is_empty}
use ai_chatbot.Text.Trim.{trim_newline}
use ai_chatbot.Status.{Status, max_username_len, max_password_len}
use ai_chatbot.Client.State.{Event, ChatClient, add_event}
use ai_chatbot.Client.Input.{fgets}

-- `printf` and `fprintf(stderr, ...)`
abbrev pub print : Bytes → ChatClient → ChatClient
print text cli = add_event (Event.printed text) cli

abbrev pub report : Bytes → ChatClient → ChatClient
report text cli = add_event (Event.reported text) cli

-- `fgets` into a field of the client; where it gives NULL the field is as it was.
unfoldable pub read_username : ChatClient → Bool × ChatClient
read_username cli = elim (fgets max_username_len cli.stdin) [
  | none ↦ (false, cli)
  | some (typed, rest) ↦ (true, record cli { username = trim_newline typed; stdin = rest })
]

unfoldable pub read_password : ChatClient → Bool × ChatClient
read_password cli = elim (fgets max_password_len cli.stdin) [
  | none ↦ (false, cli)
  | some (typed, rest) ↦ (true, record cli { password = trim_newline typed; stdin = rest })
]

-- The two halves: an argument that is there and not empty, or what is typed. `false` is the
-- `return CHAT_ERR`.
unfoldable pub resolve_username : Option Bytes → ChatClient → Bool × ChatClient
resolve_username (some (c ∷ s)) cli =
    (true, record cli { username = strncpy (max_username_len - 1) (c ∷ s) })
resolve_username _ cli = read_username (print (codes "Username: ") cli)

unfoldable pub resolve_password : Option Bytes → ChatClient → Bool × ChatClient
resolve_password (some (c ∷ s)) cli =
    (true, record cli { password = strncpy (max_password_len - 1) (c ∷ s) })
resolve_password _ cli = read_password (print (codes "Password: ") cli)

unfoldable pub resolve_credentials : Option Bytes → Option Bytes → ChatClient → Status × ChatClient
resolve_credentials user_override pass_override cli =
    let (has_name, named) = resolve_username user_override cli in
    if not has_name
    then (Status.err, named)
    else (let (has_password, full) = resolve_password pass_override named in
        if not has_password
        then (Status.err, full)
        else if is_empty full.username || is_empty full.password
        then (Status.err, report (codes "Username and password required\n") full)
        else (Status.ok, full))
