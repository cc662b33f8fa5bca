-- ===== src/Net/Whole.antt =====
-- What `send_all` of src/common/utils.c puts on the wire.
use mathlib.Core.List.{append_assoc}
use ai_chatbot.Base.{
  ℕ, zero, suc, ◌≡◌, refl, List, [], ◌∷◌, ◌++◌, Option, some, ap, ◌∙◌, sym, take, drop, length, ◌≤◌,
  ◌<◌, arith,
}
use ai_chatbot.Text.{Bytes}
use ai_chatbot.Status.{Status}
use ai_chatbot.Net.{Send, send_all}

take-drop : (n : ℕ) (xs : Bytes) → take n xs ++ drop n xs ≡ xs
take-drop zero xs = refl
take-drop (suc n) [] = refl
take-drop (suc n) (x ∷ xs) = ap (λ t. x ∷ t) (take-drop n xs)

-- The bytes that were sent and the status, against the text.
record IsSent (buf : Bytes) (r : Option Status × Bytes) : Type 0 where
  left : Bytes
  front : buf ≡ r.1 ++ left
  whole : r.0 ≡ some Status.ok → r.1 ≡ buf

send_all-IsSent : (buf : Bytes) (rs : List Send) → IsSent buf (send_all buf rs)
unfolding send_all
send_all-IsSent [] rs = record { left = []; front = refl; whole = λ e. refl }
send_all-IsSent (c ∷ buf) [] = record { left = c ∷ buf; front = refl; whole = λ e. cc }
send_all-IsSent (c ∷ buf) (Send.accepted zero ∷ rs) = record {
  left = c ∷ buf;
  front = refl;
  whole = λ e. cc;
}
send_all-IsSent (c ∷ buf) (Send.accepted (suc n) ∷ rs) =
    let (status, wire) = send_all (drop n buf) rs in
    let h = send_all-IsSent (drop n buf) rs in
    record {
      left = h.left;
      front =
          ap (λ t. c ∷ t)
            (sym (take-drop n buf)
              ∙ ap (λ t. take n buf ++ t) h.front
              ∙ sym (append_assoc (take n buf) wire h.left));
      whole = λ e. ap (λ t. c ∷ t) (ap (λ t. take n buf ++ t) (h.whole e) ∙ take-drop n buf);
    }
send_all-IsSent (c ∷ buf) (Send.send_interrupted ∷ rs) = send_all-IsSent (c ∷ buf) rs
send_all-IsSent (c ∷ buf) (Send.send_failed ∷ rs) = record {
  left = c ∷ buf;
  front = refl;
  whole = λ e. cc;
}

-- Each call takes a byte at least or is interrupted, and how many take some.
abbrev pub AllTake : List Send → Type 0
AllTake [] = Unit {0}
AllTake (Send.accepted n ∷ rs) = (0 < n) × AllTake rs
AllTake (Send.send_interrupted ∷ rs) = AllTake rs
AllTake (Send.send_failed ∷ rs) = ⊥

abbrev pub takes : List Send → ℕ
takes [] = 0
takes (Send.accepted _ ∷ rs) = suc (takes rs)
takes (_ ∷ rs) = takes rs

length-drop : (n : ℕ) (xs : Bytes) → length (drop n xs) ≤ length xs
length-drop zero xs = omega arith
length-drop (suc n) [] = omega arith
length-drop (suc n) (x ∷ xs) = omega (arith, length-drop n xs)

send_all_returns :
    (buf : Bytes) (rs : List Send)
    → AllTake rs
    → length buf ≤ takes rs
    → (send_all buf rs).0 ≡ some Status.ok
unfolding send_all
send_all_returns [] rs h e = refl
send_all_returns (c ∷ buf) [] h e = absurd (omega arith)
send_all_returns (c ∷ buf) (Send.accepted zero ∷ rs) h e = absurd (omega (arith, h.0))
send_all_returns (c ∷ buf) (Send.accepted (suc n) ∷ rs) h e =
    send_all_returns (drop n buf) rs h.1 (omega (arith, length-drop n buf))
send_all_returns (c ∷ buf) (Send.send_interrupted ∷ rs) h e = send_all_returns (c ∷ buf) rs h e
send_all_returns (c ∷ buf) (Send.send_failed ∷ rs) h e = absurd h

-- However many bytes each call of `send` takes, and however often a signal interrupts, what goes onto the wire is a
-- beginning of the text, and all of it when `send_all` ends with CHAT_OK. When no call fails or takes nothing, and as
-- many calls take something as the text has bytes, it does end with CHAT_OK.
pub send_all_lem :
    (buf : Bytes) (rs : List Send)
    → let (status, wire) = send_all buf rs in
      ((left : Bytes) × (buf ≡ wire ++ left))
      × (status ≡ some Status.ok → wire ≡ buf)
      × (AllTake rs → length buf ≤ takes rs → status ≡ some Status.ok)
send_all_lem buf rs =
    let h = send_all-IsSent buf rs in ((h.left, h.front), h.whole, send_all_returns buf rs)
