-- ===== src/Client/State.antt =====
-- `chat_client_t` of include/client.h, and the helpers at the top of src/client/client.c.
use ai_chatbot.Base.{
  ℕ, zero, suc, Bool, true, false, not, List, [], ◌∷◌, ◌++◌, Option, none, some, if◌then◌else◌,
}
use ai_chatbot.Text.{Bytes, codes}
use ai_chatbot.Status.{Status}

-- What the client does that others see: a text on `stdout` or on `stderr`, a line sent in full, a line whose
-- sending failed, `shutdown`, `close`.
pub data Event : Type 0 where
  printed reported : Bytes → Event
  sent lost : ℕ → Bytes → Event
  shut closed : ℕ → Event

-- Whether `client_send_all` of a line to a socket succeeds at the given attempt, and
-- `g_colors_enabled`.
pub record Terminal : Type 0 where
  pub accepts : ℕ → ℕ → Bytes → Bool
  pub colors_enabled : Bool

-- `sockfd` is `none` for -1; `stdin` is what will be typed and was not read yet.
pub record ChatClient : Type 0 where
  pub sockfd : Option ℕ
  pub username : Bytes
  pub password : Bytes
  pub current_room : Bytes
  pub running : Bool
  pub authenticated : Bool
  pub joined : Bool
  pub receiver_started : Bool
  pub stdin : Bytes
  pub events : List Event
  pub tick : ℕ

-- The escape sequences of include/colors.h.
abbrev escape : Bool → Bytes → Bytes
escape enabled code = if enabled then 27 ∷ b'[' ∷ code else []

unfoldable pub c_reset : Bool → Bytes
c_reset enabled = escape enabled (codes "0m")

unfoldable pub c_bold : Bool → Bytes
c_bold enabled = escape enabled (codes "1m")

unfoldable pub c_green : Bool → Bytes
c_green enabled = escape enabled (codes "32m")

unfoldable pub c_cyan : Bool → Bytes
c_cyan enabled = escape enabled (codes "36m")

unfoldable pub c_yellow : Bool → Bytes
c_yellow enabled = escape enabled (codes "33m")

unfoldable pub c_red : Bool → Bytes
c_red enabled = escape enabled (codes "31m")

unfoldable pub c_magenta : Bool → Bytes
c_magenta enabled = escape enabled (codes "35m")

-- `colors_init` of src/client/colors.c, on what `isatty(STDOUT_FILENO)` gives.
unfoldable pub colors_init : ℕ → Bool
colors_init zero = false
colors_init (suc _) = true

abbrev pub add_event : Event → ChatClient → ChatClient
add_event e cli = record cli { events = cli.events ++ e ∷ [] }

unfoldable pub client_set_running : Bool → ChatClient → ChatClient
client_set_running value cli = record cli { running = value }

unfoldable pub client_is_running : ChatClient → Bool
client_is_running cli = cli.running

unfoldable pub client_get_sockfd : ChatClient → Option ℕ
client_get_sockfd cli = cli.sockfd

-- The text that `vprintf` makes of the format and its arguments.
unfoldable pub client_print : Bytes → ChatClient → ChatClient
client_print text cli = add_event (Event.printed text) cli

unfoldable pub client_send_line : Terminal → Bytes → ChatClient → Status × ChatClient
client_send_line t line cli = elim cli.sockfd [
  | none ↦ (Status.io, cli)
  | some fd ↦
      if not cli.running
      then (Status.io, cli)
      else if t.accepts cli.tick fd line
      then (Status.ok, add_event (Event.sent fd line) (record cli { tick = suc cli.tick }))
      else (Status.io, add_event (Event.lost fd line) (record cli { tick = suc cli.tick }))
]
