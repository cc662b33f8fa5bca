-- ===== src/Server/State.antt =====
-- `chat_server_t` of include/server.h as the handlers of src/server see it, and the actions from
-- which they are composed. What the outside decides is an environment: it answers the questions of
-- the run in order, and `tick` counts them.
use ai_chatbot.Base.{ℕ, suc, Bool, List, [], ◌∷◌, ◌++◌, Option}
use ai_chatbot.Text.{Bytes}
use ai_chatbot.Clock.{Tm}
use ai_chatbot.Auth.{Evp, User}
use ai_chatbot.Registry.{Registry, Spill}
use ai_chatbot.Rooms.{Manager}
use ai_chatbot.Queue.Fifo.{Fifo}

-- What the handlers ask of the machine: whether `send_all` of a line to a socket succeeds, the time,
-- whether `malloc` succeeds, what fresh memory and an uninitialised event hold, OpenSSL, and what is
-- read of `srv->running`, which a signal sets to 0 at any time.
pub record Env : Type 0 where
  pub accepts : ℕ → ℕ → Bytes → Bool
  pub now : ℕ → ℕ
  pub alloc : ℕ → Bool
  pub spill : ℕ → Spill
  pub junk : ℕ → Bytes
  pub localtime : ℕ → Option Tm
  pub evp : Evp
  pub running : ℕ → Bool

-- What is done to sockets: a line sent in full, a line whose sending failed, `shutdown`, `close`.
pub data Effect : Type 0 where
  sent lost : ℕ → Bytes → Effect
  shut closed : ℕ → Effect

-- The queue is the list of `Queue.Fifo`.
pub record Server : Type 0 where
  pub active_connections : ℕ
  pub registry : Registry
  pub broadcast_queue : Fifo
  pub users : List User
  pub rooms : Manager
  pub effects : List Effect
  pub tick : ℕ

abbrev pub Action : Type 0 → Type 0
Action A = Server → A × Server

module _ {A : Type 0} where
  abbrev pub pure : A → Action A
  pure a s = (a, s)

  abbrev pub gets : (Server → A) → Action A
  gets f s = (f s, s)

  -- The answer of the environment to the next question.
  abbrev pub ask : (ℕ → A) → Action A
  ask f s = (f s.tick, record s { tick = suc s.tick })

infixl 5 ◌>>=◌ ◌>>◌
abbrev pub ◌>>=◌ : {A B : Type 0} → Action A → (A → Action B) → Action B
◌>>=◌ m f s = let (a, s') = m s in f a s'

abbrev pub ◌>>◌ : {A B : Type 0} → Action A → Action B → Action B
m >> k = m >>= λ _. k

abbrev pub emit : Effect → Action (Unit {0})
emit e s = (tt, record s { effects = s.effects ++ e ∷ [] })

-- An operation of the registry, of the rooms or of the queue, as an action.
abbrev pub on_registry : {A : Type 0} → (Registry → A × Registry) → Action A
on_registry f s = let (a, r) = f s.registry in (a, record s { registry = r })

abbrev pub on_rooms : {A : Type 0} → (Manager → A × Manager) → Action A
on_rooms f s = let (a, m) = f s.rooms in (a, record s { rooms = m })

abbrev pub on_queue : {A : Type 0} → (Fifo → A × Fifo) → Action A
on_queue f s = let (a, q) = f s.broadcast_queue in (a, record s { broadcast_queue = q })
