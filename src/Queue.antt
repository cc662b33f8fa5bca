-- ===== src/Queue.antt =====
-- src/common/message_queue.c: the queue between the client threads and the broadcaster, a linked
-- list with a tail pointer on an explicit heap. What stands between lock and unlock is one step; a
-- call of `mq_pop` that would wait for the condition variable gives `wait` and changes nothing.
pub mod Chain
pub mod Destroy
pub mod Fifo
pub mod Threads
use ai_chatbot.Base.{
  ℕ, suc, ◌+◌, ◌-◌, ◌%◌, ◌^◌, Bool, true, false, Option, none, some, ◌==◌, if◌then◌else◌,
}
use ai_chatbot.Text.{Bytes}
use ai_chatbot.Status.{Status}

-- `mq_event_type_t`
pub data EventType : Type 0 where
  chat join leave room_join room_leave shutdown : EventType

-- `mq_message_t`
pub record Message : Type 0 where
  pub type : EventType
  pub username : Bytes
  pub room : Bytes
  pub content : Bytes
  pub timestamp : ℕ

-- A pointer; `none` is NULL.
abbrev pub Ptr : Type 0
Ptr = Option ℕ

-- `mq_node_t`
pub record QNode : Type 0 where
  pub msg : Message
  pub next : Ptr

abbrev pub Heap : Type 0
Heap = ℕ → Option QNode

abbrev pub write : Heap → ℕ → Option QNode → Heap
write h a c b = if b == a then c else h b

-- `message_queue_t`
pub record Queue : Type 0 where
  pub head : Ptr
  pub tail : Ptr
  pub count : ℕ
  pub shutdown : Bool

-- `mq_init`
abbrev pub mq_init : Queue
mq_init = record { head = none; tail = none; count = 0; shutdown = false }

-- `count++` and `count--` on a `size_t`
abbrev pub increment : ℕ → ℕ
increment n = (n + 1) % 2 ^ 64

abbrev pub decrement : ℕ → ℕ
decrement n = (n + 2 ^ 64 - 1) % 2 ^ 64

-- The write `q->tail->next = node`; `none` is a fault, a write through a dangling pointer.
abbrev set_next : Heap → ℕ → ℕ → Option Heap
set_next h t node = elim (h t) [
  | none ↦ none
  | some n ↦ some (write h t (some (record n { next = some node })))
]

-- The part of `mq_push` behind the test of `shutdown`, with the node on the heap.
unfoldable pub link_node : ℕ → Heap → Queue → Option (Status × Heap × Queue)
link_node node h q = elim (q.tail) [
  | none ↦
      some
        (Status.ok, h, record q { head = some node; tail = some node; count = increment q.count })
  | some t ↦ elim (set_next h t node) [
    | none ↦ none
    | some h' ↦ some (Status.ok, h', record q { tail = some node; count = increment q.count })
  ]
]

-- `fresh` is what `malloc` returns. `none` is a fault.
unfoldable pub mq_push : Ptr → Message → Heap → Queue → Option (Status × Heap × Queue)
mq_push none msg h q = some (Status.nomem, h, q)
mq_push (some node) msg h q =
    let h' = write h node (some (record { msg = msg; next = none })) in
    if q.shutdown then some (Status.err, write h' node none, q) else link_node node h' q

pub data Popped : Type 0 where
  wait fail : Popped
  got : Message → Popped

-- The part of `mq_pop` behind the wait, with the node at the head.
unfoldable pub take_node : ℕ → Heap → Queue → Option (Popped × Heap × Queue)
take_node p h q = elim (h p) [
  | none ↦ none
  | some n ↦ some (
    Popped.got n.msg,
    write h p none,
    record q {
      head = n.next;
      tail = elim (n.next) [ none ↦ none | some _ ↦ q.tail ];
      count = decrement q.count;
    },
  )
]

unfoldable pub mq_pop : Heap → Queue → Option (Popped × Heap × Queue)
mq_pop h q = elim (q.head) [
  | none ↦ some (if q.shutdown then Popped.fail else Popped.wait, h, q)
  | some p ↦ take_node p h q
]

unfoldable pub mq_signal_shutdown : Queue → Queue
mq_signal_shutdown q = record q { shutdown = true }
