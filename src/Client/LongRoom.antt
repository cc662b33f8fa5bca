-- ===== src/Client/LongRoom.antt =====
-- src/client/client.c and src/server/server.c: the branch of "/join " in `client_run` for a name that no room can
-- have. The status of the builder is not looked at there.
use ai_chatbot.Base.{◌≡◌, List, [], ◌∷◌, some}
use ai_chatbot.Text.{Bytes}
use ai_chatbot.Status.{Status}
use ai_chatbot.Net.{Recv, server_recv_line}
use ai_chatbot.Protocol.Client.{parse_client_line}

-- The bytes of a line that is sent, and behind them what is sent next.
abbrev pub arriving : Bytes → List Recv → List Recv
arriving [] rest = rest
arriving (c ∷ s) rest = Recv.byte c ∷ arriving s rest

-- What the server makes of a line: it reads the body and leaves the rest, and refuses it.
pub record IsRefused (mem line : Bytes) (rest : List Recv) : Type 0 where
  pub body : Bytes
  pub read : server_recv_line mem 2048 (arriving line rest) ≡ (some (Status.ok, body), rest)
  pub refused : (parse_client_line body).0 ≡ Status.protocol
