-- ===== src/Queue/Fifo.antt =====
-- The queue of src/common/message_queue.c against a FIFO list that can be closed: when the nodes on the
-- heap stand for the list, and the operations on both sides.
use ai_chatbot.Base.{
  ℕ, ◌%◌, ◌^◌, ◌≡◌, refl, Bool, true, false, none, some, if◌then◌else◌, List, [], ◌∷◌, ◌++◌, arith,
  ap, length, Bool-cases, inl, inr, length-append, sym, ◌∙◌,
}
use ai_chatbot.Status.{Status}
use ai_chatbot.Queue.{
  Message, Ptr, Heap, Queue, write, mq_init, Popped, link_node, mq_push, take_node, mq_pop,
  mq_signal_shutdown, increment, decrement,
}
use ai_chatbot.Queue.Chain.{
  Cells, messages, has, node, Chain, nil, cons, last_ptr, Chain-write, free-fresh, Chain-link,
  Chain-nil, Chain-cons,
}

pub record Fifo : Type 0 where
  pub items : List Message
  pub closed : Bool

abbrev pub push_fifo : Message → Fifo → Status × Fifo
push_fifo m f =
    if f.closed then (Status.err, f) else (Status.ok, record f { items = f.items ++ m ∷ [] })

abbrev pub pop_items : List Message → Fifo → Popped × Fifo
pop_items [] f = (if f.closed then Popped.fail else Popped.wait, f)
pop_items (m ∷ ms) f = (Popped.got m, record f { items = ms })

abbrev pub pop_fifo : Fifo → Popped × Fifo
pop_fifo f = pop_items f.items f

-- The cells that the heap holds for the queue.
pub record IsQueue (h : Heap) (q : Queue) (xs : Cells) : Type 0 where
  pub chain : Chain h q.head xs
  pub tail : q.tail ≡ last_ptr xs
  pub counted : q.count ≡ length xs % 2 ^ 64

pub record Represents (h : Heap) (q : Queue) (f : Fifo) : Type 0 where
  pub cells : Cells
  pub queue : IsQueue h q cells
  pub items : messages cells ≡ f.items
  pub closed : q.shutdown ≡ f.closed

messages-append : (xs ys : Cells) → messages (xs ++ ys) ≡ messages xs ++ messages ys
messages-append [] ys = refl
messages-append ((a, m) ∷ xs) ys = ap (λ t. m ∷ t) (messages-append xs ys)

last_ptr-append : (xs : Cells) (a : ℕ) (m : Message) → last_ptr (xs ++ (a, m) ∷ []) ≡ some a
last_ptr-append [] a m = refl
last_ptr-append ((b, n) ∷ []) a m = refl
last_ptr-append ((b, n) ∷ y ∷ xs) a m = last_ptr-append (y ∷ xs) a m

last_ptr-cons : (y : ℕ × Message) (xs : Cells) → (t : ℕ) × (last_ptr (y ∷ xs) ≡ some t)
last_ptr-cons (b, n) [] = (b, refl)
last_ptr-cons (b, n) (y ∷ xs) = last_ptr-cons y xs

-- The node is linked behind the cells, whatever their number.
link_node-IsQueue :
    (new : ℕ) (m : Message) (h : Heap) (q : Queue) (xs : Cells)
    → IsQueue h q xs
    → has new xs ≡ false
    → h new ≡ some (node m none)
    → (h' : Heap) × (q' : Queue) × (link_node new h q ≡ some (Status.ok, h', q'))
      × IsQueue h' q' (xs ++ (new, m) ∷ [])
      × (q'.shutdown ≡ q.shutdown)
unfolding link_node
link_node-IsQueue new m h q [] i out g = (
  h,
  record q { head = some new; tail = some new; count = increment q.count },
  rw (i.tail, link_node),
  record { chain = cons g refl nil; tail = refl; counted = omega (arith, i.counted) },
  refl,
)
link_node-IsQueue new m h q (y ∷ xs) i out g =
    let (t, last) = last_ptr-cons y xs in
    let (n, ht, c) = Chain-link t new m i.chain last out g in
    (
      write h t (some (record n { next = some new })),
      record q { tail = some new; count = increment q.count },
      rw (i.tail ∙ last, link_node) (rw ht),
      record {
        chain = c;
        tail = sym (last_ptr-append (y ∷ xs) new m);
        counted = omega (arith, i.counted, length-append xs ((new, m) ∷ []));
      },
      refl,
    )

-- A push onto a queue that stands for a list, with memory for the node, runs without a fault and
-- does to the list what the specification says.
pub mq_push-refines :
    (new : ℕ) (m : Message) (h : Heap) (q : Queue) (f : Fifo)
    → Represents h q f
    → h new ≡ none
    → (h' : Heap) × (q' : Queue) × (mq_push (some new) m h q ≡ some ((push_fifo m f).0, h', q'))
      × Represents h' q' (push_fifo m f).1
unfolding mq_push
mq_push-refines new m h q f r free =
    let h1 : Heap = write h new (some (node m none)) in
    let out = free-fresh new r.queue.chain free in
    let i1 : IsQueue h1 q r.cells = record {
      chain = Chain-write new _ r.queue.chain out;
      tail = r.queue.tail;
      counted = r.queue.counted;
    } in
    elim (Bool-cases q.shutdown) [
      | inl shut ↦
          let same : push_fifo m f ≡ (Status.err, f) = ground (arith, r.closed) in
          (
            write h1 new none,
            q,
            ground (arith, same),
            rw same (record {
              cells = r.cells;
              queue = record {
                chain = Chain-write new none i1.chain out;
                tail = i1.tail;
                counted = i1.counted;
              };
              items = r.items;
              closed = r.closed;
            }),
          )
      | inr running ↦
          let added : push_fifo m f ≡ (Status.ok, record f { items = f.items ++ m ∷ [] }) =
            ground (arith, r.closed) in
          let (h', q', run, i2, s) = link_node-IsQueue new m h1 q r.cells i1 out (ground arith) in
          (
            h',
            q',
            ground (arith, added, run),
            rw added (record {
              cells = r.cells ++ (new, m) ∷ [];
              queue = i2;
              items = messages-append r.cells ((new, m) ∷ []) ∙ ap (λ t. t ++ m ∷ []) r.items;
              closed = s ∙ r.closed;
            }),
          )
    ]

-- The `tail` of the queue after its head is taken off.
abbrev tail_after : Ptr → Ptr → Ptr
tail_after next tail = elim next [ none ↦ none | some _ ↦ tail ]

tail_after-last_ptr :
    {h : Heap} {next : Ptr} (y : ℕ × Message) (xs : Cells) (tail : Ptr)
    → Chain h next xs
    → tail ≡ last_ptr (y ∷ xs)
    → tail_after next tail ≡ last_ptr xs
tail_after-last_ptr y xs tail nil e = refl
tail_after-last_ptr y xs tail (cons x out s) e = e

-- The head of the queue is taken off.
take_node-IsQueue :
    (a : ℕ) (m : Message) (h : Heap) (q : Queue) (xs : Cells)
    → IsQueue h q ((a, m) ∷ xs)
    → (h' : Heap) × (q' : Queue) × (mq_pop h q ≡ some (Popped.got m, h', q'))
      × IsQueue h' q' xs
      × (q'.shutdown ≡ q.shutdown)
unfolding mq_pop take_node
take_node-IsQueue a m h q xs i =
    let (at_head, next, holds, out, rest) = Chain-cons i.chain in
    (
      write h a none,
      record q { head = next; tail = tail_after next q.tail; count = decrement q.count },
      rw (at_head, mq_pop) (rw (holds, take_node)),
      record {
        chain = Chain-write a none rest out;
        tail = tail_after-last_ptr (a, m) xs q.tail rest i.tail;
        counted = omega (arith, i.counted);
      },
      refl,
    )

pop_nonempty :
    (h : Heap) (q : Queue) (f : Fifo) (a : ℕ) (m : Message) (xs : Cells)
    → IsQueue h q ((a, m) ∷ xs)
    → m ∷ messages xs ≡ f.items
    → q.shutdown ≡ f.closed
    → (h' : Heap) × (q' : Queue) × (mq_pop h q ≡ some ((pop_fifo f).0, h', q'))
      × Represents h' q' (pop_fifo f).1
pop_nonempty h q f a m xs i items closed =
    let (h', q', run, i', s) = take_node-IsQueue a m h q xs i in
    let first : pop_fifo f ≡ (Popped.got m, record f { items = messages xs }) =
      ap (λ ms. pop_items ms f) (sym items) in
    (
      h',
      q',
      ground (arith, run, first),
      rw first (record { cells = xs; queue = i'; items = refl; closed = s ∙ closed }),
    )

pop_empty :
    (h : Heap) (q : Queue) (f : Fifo)
    → IsQueue h q []
    → [] ≡ f.items
    → q.shutdown ≡ f.closed
    → (h' : Heap) × (q' : Queue) × (mq_pop h q ≡ some ((pop_fifo f).0, h', q'))
      × Represents h' q' (pop_fifo f).1
unfolding mq_pop
pop_empty h q f i items closed =
    let stays : pop_fifo f ≡ (if f.closed then Popped.fail else Popped.wait, f) =
      ap (λ ms. pop_items ms f) (sym items) in
    (
      h,
      q,
      ground (arith, Chain-nil i.chain, stays, closed),
      rw stays (record { cells = []; queue = i; items = items; closed = closed }),
    )

pop_cells :
    (h : Heap) (q : Queue) (f : Fifo) (xs : Cells)
    → IsQueue h q xs
    → messages xs ≡ f.items
    → q.shutdown ≡ f.closed
    → (h' : Heap) × (q' : Queue) × (mq_pop h q ≡ some ((pop_fifo f).0, h', q'))
      × Represents h' q' (pop_fifo f).1
pop_cells h q f [] i e c = pop_empty h q f i e c
pop_cells h q f ((a, m) ∷ xs) i e c = pop_nonempty h q f a m xs i e c

-- A pop of a queue that stands for a list runs without a fault: it takes the first message, or fails
-- if the list is empty and closed, or waits if it is empty and open.
pub mq_pop-refines :
    (h : Heap) (q : Queue) (f : Fifo)
    → Represents h q f
    → (h' : Heap) × (q' : Queue) × (mq_pop h q ≡ some ((pop_fifo f).0, h', q'))
      × Represents h' q' (pop_fifo f).1
mq_pop-refines h q f r = pop_cells h q f r.cells r.queue r.items r.closed

pub mq_init-Represents : (h : Heap) → Represents h mq_init (record { items = []; closed = false })
mq_init-Represents h = record {
  cells = [];
  queue = record { chain = nil; tail = refl; counted = refl };
  items = refl;
  closed = refl;
}

pub mq_signal_shutdown-Represents :
    {h : Heap} {q : Queue} {f : Fifo}
    → Represents h q f
    → Represents h (mq_signal_shutdown q) (record f { closed = true })
unfolding mq_signal_shutdown
mq_signal_shutdown-Represents r = record {
  cells = r.cells;
  queue = record { chain = r.queue.chain; tail = r.queue.tail; counted = r.queue.counted };
  items = r.items;
  closed = refl;
}
