-- ===== src/Tests/Data.antt =====
-- The inputs that the tests share: names, a machine on which everything succeeds, and a server with
-- two clients.
use ai_chatbot.Base.{ℕ, Bool, true, false, [], ◌∷◌, none, some, arith}
use ai_chatbot.Text.{Bytes, codes}
use ai_chatbot.Text.Trim.{IsLine}
use ai_chatbot.Protocol.Client.Grammar.{IsWord, IsRest}
use ai_chatbot.Auth.{Evp, User}
use ai_chatbot.Registry.{Node, Registry, Spill}
use ai_chatbot.Rooms.{Manager}
use ai_chatbot.Queue.{Message, EventType}
use ai_chatbot.Server.State.{Env, Server}

abbrev pub alice : Bytes
alice = codes "alice"

abbrev pub bob : Bytes
bob = codes "bob"

abbrev pub carol : Bytes
carol = codes "carol"

abbrev pub lobby : Bytes
lobby = codes "lobby"

abbrev pub den : Bytes
den = codes "den"

abbrev pub hello : Bytes
hello = codes "hello all"

abbrev pub client : ℕ → Bytes → Bool → Node
client fd name admin = record {
  sockfd = fd;
  username = name;
  room = lobby;
  authenticated = true;
  is_admin = admin;
}

abbrev pub two_clients : Registry
two_clients = record { nodes = client 5 bob false ∷ client 4 alice true ∷ []; count = 2 }

abbrev pub no_rooms : Manager
no_rooms = record { rooms = []; room_count = 0 }

abbrev pub clean : Spill
clean = record { username = []; room = [] }

-- A digest that is the text itself.
abbrev pub plain : Evp
plain = record { ctx_new = true; digest = λ p. some p }

abbrev pub env_up : Env
env_up = record {
  accepts = λ t fd line. true;
  now = λ t. 1700000000;
  alloc = λ t. true;
  spill = λ t. clean;
  junk = λ t. codes "junk";
  localtime = λ t. none;
  evp = plain;
  running = λ t. true;
}

-- The password of carol is "ab".
abbrev pub carol_record : User
carol_record = record { username = carol; password_hash = codes "6162"; is_admin = true }

abbrev pub server : Server
server = record {
  active_connections = 2;
  registry = two_clients;
  broadcast_queue = record { items = []; closed = false };
  users = carol_record ∷ [];
  rooms = no_rooms;
  effects = [];
  tick = 0;
}

abbrev pub some_message : Message
some_message = record {
  type = EventType.chat;
  username = alice;
  room = lobby;
  content = hello;
  timestamp = 7;
}

pub alice-IsWord : IsWord 32 alice × IsLine alice
alice-IsWord = (
  record { no_blank = ground arith; not_nil = λ e. cc; fits = omega arith },
  record { no_lf = ground arith; no_cr = ground arith },
)

pub lobby-IsWord : IsWord 32 lobby × IsLine lobby
lobby-IsWord = (
  record { no_blank = ground arith; not_nil = λ e. cc; fits = omega arith },
  record { no_lf = ground arith; no_cr = ground arith },
)

pub hello-IsRest : IsRest 512 hello × IsLine hello
hello-IsRest = (
  record { not_nil = λ e. cc; fits = omega arith },
  record { no_lf = ground arith; no_cr = ground arith },
)
