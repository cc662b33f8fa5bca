-- ===== src/Client/History.antt =====
-- src/client/client.c: `print_history_payload` on the payloads that the server sends. It takes
-- "||" for a separator of two bytes, and `strtok_r` takes it for a set of bytes.
use ai_chatbot.Base.{
  some_inj, if◌then◌else◌, ℕ, zero, suc, ◌≤◌, ◌<◌, ◌≡◌, ◌≢◌, refl, Bool, [], ◌∷◌, none, some, arith,
  Option-cases, inl, inr, length, take,
}
use ai_chatbot.Text.{Bytes, codes, is_empty}
use ai_chatbot.Text.Split.{Lacks}
use ai_chatbot.Client.State.{ChatClient, client_print}
use ai_chatbot.Client.Display.{
  skip_delimiters, cut_token, strtok_r, print_entry, history_loop, print_history_payload,
}

-- A token of the outer loop has no bar in it.
cut_token-Lacks : (s : Bytes) → Lacks b'|' (cut_token (codes "||") s).0
unfolding cut_token
cut_token-Lacks [] = tt
cut_token-Lacks (c ∷ s) = ground (arith, cut_token-Lacks s)

cut_token-length : (ds s : Bytes) → length (cut_token ds s).1 ≤ length s
unfolding cut_token
cut_token-length ds [] = omega arith
cut_token-length ds (c ∷ s) = ground (arith, cut_token-length ds s)

skip_delimiters-length : (ds s : Bytes) → length (skip_delimiters ds s) ≤ length s
unfolding skip_delimiters
skip_delimiters-length ds [] = omega arith
skip_delimiters-length ds (c ∷ s) = ground (arith, skip_delimiters-length ds s)

cut_token-whole : (s : Bytes) → Lacks b'|' s → cut_token (codes "|") s ≡ (s, [])
unfolding cut_token
cut_token-whole [] l = refl
cut_token-whole (c ∷ s) l = rw (cut_token-whole s l.1) (ground (arith, l.0))

strtok_r-whole :
    (c : ℕ) (s : Bytes) → Lacks b'|' (c ∷ s) → strtok_r (codes "|") (c ∷ s) ≡ some (c ∷ s, [])
unfolding strtok_r skip_delimiters
strtok_r-whole c s l = ground (arith, cut_token-whole (c ∷ s) l, l.0)

strtok_r-nil : (ds : Bytes) → strtok_r ds [] ≡ none
unfolding strtok_r skip_delimiters
strtok_r-nil ds = refl

-- An entry without a bar has a name and nothing else, and is passed over.
print_entry-Lacks :
    (colors : Bool) (entry : Bytes) (cli : ChatClient)
    → Lacks b'|' entry
    → print_entry colors entry cli ≡ cli
unfolding print_entry
print_entry-Lacks colors [] cli l = rw (strtok_r-nil (codes "|"), print_entry)
print_entry-Lacks colors (c ∷ s) cli l =
    rw (strtok_r-whole c s l, print_entry) (rw (strtok_r-nil (codes "|"), print_entry))

cut_token-shorter : (ds : Bytes) (c : ℕ) (s : Bytes) → length (cut_token ds (c ∷ s)).1 ≤ length s
unfolding cut_token
cut_token-shorter ds c s = ground (arith, cut_token-length ds s)

token_of :
    (start : Bytes) {token rest : Bytes}
    → (if is_empty start then none else some (cut_token (codes "||") start)) ≡ some (token, rest)
    → Lacks b'|' token × (length rest < length start)
token_of [] e = cc
token_of (c ∷ s) e =
    let found = some_inj e in
    let facts : Lacks b'|' (cut_token (codes "||") (c ∷ s)).0
        × (length (cut_token (codes "||") (c ∷ s)).1 < length (c ∷ s)) =
      (cut_token-Lacks (c ∷ s), omega (arith, cut_token-shorter (codes "||") c s)) in
    rw found at facts

-- A call of the outer loop that finds a token leaves a shorter text.
strtok_r_step :
    (s : Bytes) {token rest : Bytes}
    → strtok_r (codes "||") s ≡ some (token, rest)
    → Lacks b'|' token × (length rest < length s)
unfolding strtok_r
strtok_r_step s e =
    let (l, shorter) = token_of (skip_delimiters (codes "||") s) e in
    (l, omega (arith, skip_delimiters-length (codes "||") s))

-- With more rounds than bytes the loop ends, and it has printed nothing.
history_loop-silent :
    (n : ℕ) (colors : Bool) (save : Bytes) (cli : ChatClient)
    → length save < n
    → history_loop n colors save cli ≡ some cli
unfolding history_loop
history_loop-silent zero colors save cli h = absurd (omega arith)
history_loop-silent (suc n) colors save cli h = elim (Option-cases (strtok_r (codes "||") save)) [
  | inl end ↦ rw (end, history_loop)
  | inr ((token, rest), found) ↦
      let (l, shorter) = strtok_r_step save found in
      rw (found, history_loop)
        (rw (print_entry-Lacks colors token cli l)
          (history_loop-silent n colors rest cli (omega arith)))
]

-- Of a history that is not empty the client prints no entry, whatever the payload is: each entry is
-- cut at every bar, so that it has a name and neither a time nor a text, and what the user sees is the
-- prompt.
pub print_history_payload_lem :
    (colors : Bool) (payload : Bytes) (cli : ChatClient)
    → payload ≢ []
    → print_history_payload colors payload cli ≡ client_print (codes "> ") cli
unfolding print_history_payload
print_history_payload_lem colors [] cli h = absurd (h refl)
print_history_payload_lem colors (c ∷ s) cli h =
    let buf : Bytes = take 2047 (c ∷ s) in
    rw (history_loop-silent (suc (length buf)) colors buf cli (omega arith))
