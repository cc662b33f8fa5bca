-- ===== src/Rooms/Ring.antt =====
-- The ring of one room (src/server/room_manager.c) against a list that keeps its last
-- MAX_ROOM_HISTORY entries.
use ai_chatbot.Base.{
  ℕ, zero, suc, ◌+◌, ◌%◌, ◌≤◌, ◌<◌, ◌≡◌, ◌≢◌, refl, List, [], ◌∷◌, ◌++◌, arith, ltb, if◌then◌else◌,
  length, set, get_or, drop, ap, ◌∙◌, sym, get_or-set_self, get_or-set_ne, length-set, Bool-cases,
  inl, inr,
}
use ai_chatbot.Text.{Bytes}
use ai_chatbot.Rooms.{Entry, zero_entry, Room, add_entry, new_room}

-- The `n` slots from `i` on, round the ring.
abbrev pub window : List Entry → ℕ → ℕ → List Entry
window h i zero = []
window h i (suc n) = get_or h (i % 100) zero_entry ∷ window h (i + 1) n

-- The entries of a room, the oldest first.
abbrev pub entries : Room → List Entry
entries rn = window rn.history rn.start rn.count

pub record IsRing (rn : Room) : Type 0 where
  pub size : length rn.history ≡ 100
  pub count_bound : rn.count ≤ 100
  pub start_bound : rn.start < 100
  pub filling : rn.count < 100 → rn.start ≡ 0

-- The specification: a new entry goes behind, and the oldest goes when there are 100.
abbrev pub push_bounded : Entry → List Entry → List Entry
push_bounded e es = (if ltb (length es) 100 then es else drop 1 es) ++ e ∷ []

pub length-window : (h : List Entry) (i n : ℕ) → length (window h i n) ≡ n
length-window h i zero = refl
length-window h i (suc n) = ap suc (length-window h (i + 1) n)

window_snoc :
    (h : List Entry) (i n : ℕ)
    → window h i (suc n) ≡ window h i n ++ get_or h ((i + n) % 100) zero_entry ∷ []
window_snoc h i zero = ap (λ k. get_or h (k % 100) zero_entry ∷ []) (omega arith)
window_snoc h i (suc n) =
    let k : (i + 1) + n ≡ i + suc n = omega arith in
    ap (λ es. get_or h (i % 100) zero_entry ∷ es)
      (window_snoc h (i + 1) n
        ∙ ap (λ k. window h (i + 1) n ++ get_or h (k % 100) zero_entry ∷ []) k)

-- A start index may be reduced.
window_mod : (h : List Entry) (i j n : ℕ) → i % 100 ≡ j % 100 → window h i n ≡ window h j n
window_mod h i j zero e = refl
window_mod h i j (suc n) e = rw (e, window_mod h (i + 1) (j + 1) n (omega arith))

-- A write outside the window is not seen.
window-set :
    (h : List Entry) (k i n : ℕ) (v : Entry)
    → ((m : ℕ) → m < n → k ≢ (i + m) % 100)
    → window (set h k v) i n ≡ window h i n
window-set h k i zero v out = refl
window-set h k i (suc n) v out =
    let here : k ≢ i % 100 = λ e. out 0 (omega arith) (e ∙ ap (λ t. t % 100) (omega arith)) in
    rw (get_or-set_ne h k (i % 100) v zero_entry here) (
      ap (λ es. get_or h (i % 100) zero_entry ∷ es)
        (window-set h k (i + 1) n v
          (λ m lt e. out (suc m) (omega arith) (e ∙ ap (λ t. t % 100) (omega arith)))))

pub new_room-IsRing : (name : Bytes) → IsRing (new_room name)
unfolding new_room
new_room-IsRing name = omega arith

pub add_entry-IsRing : (e : Entry) (rn : Room) → IsRing rn → IsRing (add_entry e rn)
unfolding add_entry
add_entry-IsRing e rn r =
    ground (arith, length-set rn.history rn.count e, length-set rn.history rn.start e, r.filling)

add_entry_filling :
    (e : Entry) (rn : Room)
    → rn.count < 100
    → add_entry e rn ≡ record rn { history = set rn.history rn.count e; count = rn.count + 1 }
unfolding add_entry
add_entry_filling e rn h = ground arith

add_entry_full :
    (e : Entry) (rn : Room)
    → rn.count ≡ 100
    → add_entry e rn
      ≡ record rn { history = set rn.history rn.start e; start = (rn.start + 1) % 100 }
unfolding add_entry
add_entry_full e rn h = ground arith

-- The slot behind the window is written.
window-set_end :
    (h : List Entry) (i n : ℕ) (e : Entry)
    → length h ≡ 100
    → n < 100
    → window (set h ((i + n) % 100) e) i (suc n) ≡ window h i n ++ e ∷ []
window-set_end h i n e size lt =
    let k = (i + n) % 100 in
    rw (window_snoc (set h k e) i n) (
      rw (window-set h k i n e (λ m less same. absurd (omega arith)))
        (rw (get_or-set_self h k e zero_entry (omega arith))))

entries_filling :
    (e : Entry) (rn : Room)
    → IsRing rn
    → rn.count < 100
    → entries (add_entry e rn) ≡ entries rn ++ e ∷ []
entries_filling e rn r h =
    let at_zero = r.filling h in
    let slot : rn.count ≡ (rn.start + rn.count) % 100 = omega (arith, at_zero) in
    let one : rn.count + 1 ≡ suc rn.count = omega arith in
    ap entries (add_entry_filling e rn h)
    ∙ ap (λ k. window (set rn.history rn.count e) rn.start k) one
    ∙ ap (λ k. window (set rn.history k e) rn.start (suc rn.count)) slot
    ∙ window-set_end rn.history rn.start rn.count e r.size h

entries_full :
    (e : Entry) (rn : Room)
    → IsRing rn
    → rn.count ≡ 100
    → entries (add_entry e rn) ≡ drop 1 (entries rn) ++ e ∷ []
entries_full e rn r full =
    let s = rn.start in
    let h' = set rn.history s e in
    let slot : s ≡ ((s + 1) + 99) % 100 = omega (arith, r.start_bound) in
    ap entries (add_entry_full e rn full)
    ∙ ap (λ k. window h' ((s + 1) % 100) k) full
    ∙ window_mod h' ((s + 1) % 100) (s + 1) 100 (omega arith)
    ∙ ap (λ k. window (set rn.history k e) (s + 1) 100) slot
    ∙ window-set_end rn.history (s + 1) 99 e r.size (omega arith)
    ∙ ap (λ k. drop 1 (window rn.history s k) ++ e ∷ []) (sym full)

-- Adding an entry to a ring adds it behind the entries that the ring stands for, and only the last
-- 100 stay.
pub entries-add_entry :
    (e : Entry) (rn : Room) → IsRing rn → entries (add_entry e rn) ≡ push_bounded e (entries rn)
entries-add_entry e rn r = elim (Bool-cases (ltb rn.count 100)) [
  | inl more ↦
      rw (length-window rn.history rn.start rn.count)
        (rw more (entries_filling e rn r (ground arith)))
  | inr full ↦
      rw (length-window rn.history rn.start rn.count)
        (rw full (entries_full e rn r (ground (arith, r.count_bound))))
]
