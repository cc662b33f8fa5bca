-- ===== src/Rooms/Format.antt =====
-- `room_history_format` of src/server/room_manager.c against the entries joined by "||".
use mathlib.Core.List.{append-nil, append_assoc}
use ai_chatbot.Base.{
  ℕ, zero, suc, ◌+◌, ◌-◌, ◌<◌, ◌≡◌, refl, List, [], ◌∷◌, ◌++◌, arith, leb, length, ap, Bool, true,
  false, Bool-cases, inl, inr, Option-cases, ◌==◌, leb→gt, length-append,
}
use ai_chatbot.Text.{Bytes, codes}
use ai_chatbot.Rooms.{
  Entry, Room, Manager, room_named, entry_text, entry_piece, entry_at, format_loop,
  room_history_format,
}
use ai_chatbot.Rooms.Ring.{window, entries}
use ai_chatbot.Rooms.Update.{history_of}
use ai_chatbot.Text.Write.{Wrote, cut-Wrote}

-- The texts of the entries, with "||" between each two.
abbrev pub payload : List Entry → Bytes
payload [] = []
payload (e ∷ []) = entry_text e
payload (e ∷ f ∷ es) = entry_text e ++ (codes "||" ++ payload (f ∷ es))

-- What the loop writes from a given round on.
pieces : Bool → List Entry → Bytes
pieces first [] = []
pieces first (e ∷ es) = entry_piece first e ++ pieces false es

pieces_more : (e : Entry) (es : List Entry) → pieces false (e ∷ es) ≡ codes "||" ++ payload (e ∷ es)
unfolding pieces
pieces_more e [] = rw append-nil
pieces_more e (f ∷ es) = rw (pieces_more f es)

pieces-payload : (es : List Entry) → pieces true es ≡ payload es
unfolding pieces
pieces-payload [] = refl
pieces-payload (e ∷ []) = rw append-nil
pieces-payload (e ∷ f ∷ es) = ap (λ t. entry_text e ++ t) (pieces_more f es)

format_loop-Wrote :
    (rn : Room) (buflen n i k : ℕ) (first : Bool) (buf : Bytes)
    → k ≡ rn.start + i
    → length buf < buflen
    → Wrote buflen
        (buf ++ pieces first (window rn.history k n))
        (format_loop rn buflen n i first buf)
unfolding format_loop pieces
format_loop-Wrote rn buflen zero i k first buf e h =
    rw append-nil (((λ _. h), (λ _. refl)), (λ _. refl))
format_loop-Wrote rn buflen (suc n) i k first buf e h = rw e (
    let p = entry_piece first (entry_at rn i) in
    elim (Bool-cases (leb (buflen - length buf) (length p))) [
      | inl cut ↦ rw cut (cut-Wrote buflen buf p _ _ cut)
      | inr fits ↦ rw fits (
          rw append_assoc at (
            format_loop-Wrote rn buflen n (i + 1) ((rn.start + i) + 1) false (buf ++ p)
              (omega arith) (omega (arith, leb→gt _ _ fits, length-append buf p))))
    ])

-- `room_history_format` ends with CHAT_OK exactly when the history of the room, its entries in the
-- order in which they were stored, and a NUL fit the buffer, and then the buffer holds it.
pub room_history_format_lem :
    (mgr : Manager) (room : Bytes) (buflen : ℕ)
    → 0 < buflen
    → Wrote buflen (payload (history_of mgr room)) (room_history_format mgr room buflen)
unfolding room_history_format
room_history_format_lem mgr room buflen h =
    let given : (buflen == 0) ≡ false = ground arith in
    rw given (elim (Option-cases (room_named room mgr.rooms)) [
      | inl n ↦ rw (n) (((λ _. h), (λ _. refl)), (λ _. refl))
      | inr (rn, f) ↦ rw f (
          rw (← pieces-payload (entries rn))
            (format_loop-Wrote rn buflen rn.count 0 rn.start true [] (omega arith) h))
    ])
