-- ===== src/Queue/Destroy.antt =====
-- `mq_destroy` of src/common/message_queue.c: the nodes are freed one after the other.
use ai_chatbot.Base.{
  if◌then◌else◌, ℕ, zero, suc, ◌<◌, ◌≡◌, refl, Option, none, some, [], arith, length,
}
use ai_chatbot.Queue.{Ptr, Heap, Queue, write}
use ai_chatbot.Queue.Chain.{Cells, has, Chain, nil, cons, Chain-write}
use ai_chatbot.Queue.Fifo.{IsQueue}

-- The loop, on fuel; `none` is a read through a dangling pointer, or fuel that ran out.
unfoldable pub mq_free_nodes : ℕ → Ptr → Heap → Option Heap
mq_free_nodes n none h = some h
mq_free_nodes zero (some a) h = none
mq_free_nodes (suc n) (some a) h = elim (h a) [
  | none ↦ none
  | some node ↦ mq_free_nodes n node.next (write h a none)
]

unfoldable pub mq_destroy : ℕ → Heap → Queue → Option (Heap × Queue)
mq_destroy n h q = elim (mq_free_nodes n q.head h) [
  | none ↦ none
  | some h' ↦ some (h', record { head = none; tail = none; count = 0; shutdown = q.shutdown })
]

-- The heap without the cells.
abbrev pub Freed : Cells → Heap → Heap → Type 0
Freed xs h h' = (a : ℕ) → h' a ≡ (if has a xs then none else h a)

mq_free_nodes_lem :
    (n : ℕ) {h : Heap} {p : Ptr} {xs : Cells}
    → Chain h p xs
    → length xs < n
    → (h' : Heap) × (mq_free_nodes n p h ≡ some h') × Freed xs h h'
unfolding mq_free_nodes
mq_free_nodes_lem n {h} nil k = (h, refl, λ a. refl)
mq_free_nodes_lem zero (cons e out s) k = absurd (omega arith)
mq_free_nodes_lem (suc n) {h} (cons {a = a} {m = m} {p = p} {xs = xs} e out s) k =
    let (h', run, freed) = mq_free_nodes_lem n (Chain-write a none s out) (omega arith) in
    (h', rw (e, mq_free_nodes) run, λ b. ground (arith, freed b))

-- Destroying a queue frees each of its nodes once and no other address, without a fault, when the rounds of
-- the loop are more than the nodes, and leaves the queue empty.
pub mq_destroy_lem :
    (n : ℕ) (h : Heap) (q : Queue) (xs : Cells)
    → IsQueue h q xs
    → length xs < n
    → (h' : Heap) × (q' : Queue) × (mq_destroy n h q ≡ some (h', q'))
      × Freed xs h h'
      × IsQueue h' q' []
unfolding mq_destroy
mq_destroy_lem n h q xs i k =
    let (h', run, freed) = mq_free_nodes_lem n i.chain k in
    (
      h',
      record { head = none; tail = none; count = 0; shutdown = q.shutdown },
      rw (run, mq_destroy),
      freed,
      record { chain = nil; tail = refl; counted = omega arith },
    )
