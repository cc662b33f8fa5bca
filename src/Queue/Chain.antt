-- ===== src/Queue/Chain.antt =====
-- The nodes of the queue of src/common/message_queue.c as a chain of pointers on the heap.
use ai_chatbot.Base.{
  ℕ, ◌≡◌, refl, Bool, true, false, ◌||◌, Option, none, some, ◌==◌, List, [], ◌∷◌, ◌++◌, arith,
}
use ai_chatbot.Queue.{Message, Ptr, QNode, Heap, write}

-- The address and the message of each node, in order.
abbrev pub Cells : Type 0
Cells = List (ℕ × Message)

abbrev pub messages : Cells → List Message
messages [] = []
messages ((a, m) ∷ xs) = m ∷ messages xs

abbrev pub has : ℕ → Cells → Bool
has a [] = false
has a ((b, _) ∷ xs) = (a == b) || has a xs

abbrev pub node : Message → Ptr → QNode
node m p = record { msg = m; next = p }

-- From `p` the pointers lead through the distinct cells to NULL.
pub data Chain (h : Heap) : Ptr → Cells → Type 0 where
  nil : Chain h none []
  cons :
      {a : ℕ} {m : Message} {p : Ptr} {xs : Cells}
      → h a ≡ some (node m p)
      → has a xs ≡ false
      → Chain h p xs
      → Chain h (some a) ((a, m) ∷ xs)

-- The address of the last cell.
abbrev pub last_ptr : Cells → Ptr
last_ptr [] = none
last_ptr ((a, _) ∷ []) = some a
last_ptr ((a, _) ∷ y ∷ xs) = last_ptr (y ∷ xs)

-- A chain survives each write outside of it.
pub Chain-write :
    {h : Heap} {p : Ptr} {xs : Cells} (a : ℕ) (c : Option QNode)
    → Chain h p xs
    → has a xs ≡ false
    → Chain (write h a c) p xs
Chain-write a c nil out = nil
Chain-write a c (cons {a = b} e fresh s) out =
    cons (ground (arith, e)) fresh (Chain-write a c s (ground arith))

-- A free address is not in a chain.
pub free-fresh :
    {h : Heap} {p : Ptr} {xs : Cells} (a : ℕ) → Chain h p xs → h a ≡ none → has a xs ≡ false
free-fresh a nil f = refl
free-fresh a (cons {a = b} e out s) f = ground (arith, free-fresh a s f, e)

has-last : (t : ℕ) (xs : Cells) → last_ptr xs ≡ some t → has t xs ≡ true
has-last t [] e = cc
has-last t ((a, m) ∷ []) e = ground (arith, e)
has-last t ((a, m) ∷ y ∷ xs) e = ground (arith, has-last t (y ∷ xs) e)

has-append :
    (a : ℕ) (xs ys : Cells) → has a xs ≡ false → has a ys ≡ false → has a (xs ++ ys) ≡ false
has-append a [] ys h k = k
has-append a ((b, m) ∷ xs) ys h k = ground (arith, has-append a xs ys)

has-flip : (a b : ℕ) → ((a == b) || false) ≡ false → ((b == a) || false) ≡ false
has-flip a b h = ground arith

-- The last node can be written, and links a new node behind the chain.
pub Chain-link :
    {h : Heap} {p : Ptr} {xs : Cells} (t new : ℕ) (m : Message)
    → Chain h p xs
    → last_ptr xs ≡ some t
    → has new xs ≡ false
    → h new ≡ some (node m none)
    → (n : QNode) × (h t ≡ some n)
      × Chain (write h t (some (record n { next = some new }))) p (xs ++ (new, m) ∷ [])
Chain-link t new m nil e f g = cc
Chain-link {h = h} t new m (cons {a = a} {m = m'} x out nil) e f g = (
  node m' none,
  ground (arith, x),
  cons (ground arith) (has-flip new a f) (cons (ground (arith, g)) refl nil),
)
Chain-link {h = h} t new m (cons {a = a} {m = m'} x out (cons {a = b} {m = m2} {xs = xs} y out2 s))
      e f g =
    let tail = (b, m2) ∷ xs in
    let (n, ht, c) = Chain-link t new m (cons {a = b} {xs = xs} y out2 s) e (ground arith) g in
    (
      n,
      ht,
      cons (ground (arith, x, has-last t tail e))
          (has-append a tail ((new, m) ∷ []) out (ground arith)) c,
    )

pub Chain-nil : {h : Heap} {p : Ptr} → Chain h p [] → p ≡ none
Chain-nil nil = refl

-- What the first cell of a chain says of the heap.
pub Chain-cons :
    {h : Heap} {p : Ptr} {a : ℕ} {m : Message} {xs : Cells}
    → Chain h p ((a, m) ∷ xs)
    → (p ≡ some a)
      × (next : Ptr) × (h a ≡ some (node m next))
      × (has a xs ≡ false)
      × Chain h next xs
Chain-cons (cons {p = next} e out s) = (refl, next, e, out, s)
