-- ===== src/Queue/Threads.antt =====
-- Threads at the queue of src/common/message_queue.c: client threads push, the broadcaster pops and
-- the main thread shuts down, in any order. Each call is one step, as the lock makes it.
use ai_chatbot.Base.{◌≡◌, none, some, ℕ, if◌then◌else◌, List, [], ◌∷◌, ◌++◌}
use ai_chatbot.Status.{Status, is_ok}
use ai_chatbot.Queue.{Message, Heap, Queue, mq_init, Popped, mq_push, mq_pop, mq_signal_shutdown}
use ai_chatbot.Queue.Fifo.{Fifo, Represents}

-- The memory and the queue, with what went in and what came out so far.
pub record World : Type 0 where
  pub heap : Heap
  pub queue : Queue
  pub accepted : List Message
  pub delivered : List Message

abbrev pub accept : Status → Message → List Message → List Message
accept s m ms = if is_ok s then ms ++ m ∷ [] else ms

abbrev pub deliver : Popped → List Message → List Message
deliver (Popped.got m) ms = ms ++ m ∷ []
deliver _ ms = ms

pub data Step (w : World) : World → Type 0 where
  push :
      (new : ℕ) (m : Message) (s : Status) (h : Heap) (q : Queue)
      → w.heap new ≡ none
      → mq_push (some new) m w.heap w.queue ≡ some (s, h, q)
      → Step w (record w { heap = h; queue = q; accepted = accept s m w.accepted })
  pop :
      (p : Popped) (h : Heap) (q : Queue)
      → mq_pop w.heap w.queue ≡ some (p, h, q)
      → Step w (record w { heap = h; queue = q; delivered = deliver p w.delivered })
  stop : Step w (record w { queue = mq_signal_shutdown w.queue })

pub data Reach (w : World) : World → Type 0 where
  here : Reach w w
  next : {u v : World} → Reach w u → Step u v → Reach w v

abbrev pub start : Heap → World
start h = record { heap = h; queue = mq_init; accepted = []; delivered = [] }

-- What is accepted is what was delivered and, behind it, what is still in the queue.
record Balanced (w : World) : Type 0 where
  fifo : Fifo
  represents : Represents w.heap w.queue fifo
  balance : w.accepted ≡ w.delivered ++ fifo.items
