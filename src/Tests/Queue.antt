-- ===== src/Tests/Queue.antt =====
-- The queue of src/common/message_queue.c.
use ai_chatbot.Base.{◌≡◌, refl, false, [], ◌∷◌, none, some, if◌then◌else◌, ◌==◌}
use ai_chatbot.Status.{Status}
use ai_chatbot.Queue.{Heap, Queue, mq_init, mq_push, mq_pop}
use ai_chatbot.Queue.Fifo.{
  Fifo, Represents, push_fifo, pop_fifo, mq_push-refines, mq_pop-refines, mq_init-Represents,
}
use ai_chatbot.Queue.Threads.{World}
use ai_chatbot.Tests.Data.{some_message}

abbrev empty_heap : Heap
empty_heap a = none

abbrev empty_fifo : Fifo
empty_fifo = record { items = []; closed = false }

abbrev Pushed : Heap → Queue → Fifo → Type 0
Pushed h q f =
    (h' : Heap) × (q' : Queue) × (mq_push (some 1) some_message h q
      ≡ some ((push_fifo some_message f).0, h', q'))
    × Represents h' q' (push_fifo some_message f).1

mq_push-refines_example : Pushed empty_heap mq_init empty_fifo
mq_push-refines_example =
    mq_push-refines 1 some_message empty_heap mq_init empty_fifo (mq_init-Represents empty_heap)
      refl

mq_pop-refines_example :
    (h' : Heap) × (q' : Queue) × (mq_pop empty_heap mq_init
      ≡ some ((pop_fifo empty_fifo).0, h', q'))
    × Represents h' q' (pop_fifo empty_fifo).1
mq_pop-refines_example =
    mq_pop-refines empty_heap mq_init empty_fifo (mq_init-Represents empty_heap)

-- One push onto the empty queue.
abbrev one_push : World
one_push = record {
  heap = λ b. if b == 1 then some (record { msg = some_message; next = none }) else none;
  queue = record { head = some 1; tail = some 1; count = 1; shutdown = false };
  accepted = some_message ∷ [];
  delivered = [];
}
