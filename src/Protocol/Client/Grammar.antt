-- ===== src/Protocol/Client/Grammar.antt =====
-- The language of client lines as an inductive relation, independent of the parser, and the proof
-- that `parse_client_line` of src/common/protocol.c accepts all of it.
use ai_chatbot.Base.{
  ℕ, ◌-◌, ◌<◌, ◌≡◌, ◌≢◌, refl, [], ◌∷◌, ◌++◌, length, arith, Option-cases, inl, inr, Bool-cases, ap,
  false, take_all, ◌∙◌, ◌⊎◌, sym,
}
use ai_chatbot.Text.{Bytes, codes, str_eq, strchr}
use ai_chatbot.Text.Split.{Lacks, strchr-append, strchr_sound}
use ai_chatbot.Status.{Status, max_username_len, max_msg_len, max_room_name_len}
use ai_chatbot.Protocol.Fields.{split_first_token, bad_rest, bad_field, parse_two_tokens}
use ai_chatbot.Protocol.Client.{ClientCmd, ParsedCmd, parsed, dispatch_client, parse_client_line}

-- A field that a blank ends, for a buffer of `size` bytes.
pub record IsWord (size : ℕ) (s : Bytes) : Type 0 where
  pub no_blank : Lacks b' ' s
  pub not_nil : s ≢ []
  pub fits : length s < size

-- The line is the word alone, or the word, a blank and anything.
abbrev pub HasWord : Bytes → Bytes → Type 0
HasWord word line = (line ≡ word) ⊎ ((rest : Bytes) × (line ≡ word ++ b' ' ∷ rest))

-- A field that runs to the end of the line.
pub record IsRest (size : ℕ) (s : Bytes) : Type 0 where
  pub not_nil : s ≢ []
  pub fits : length s < size

pub IsWord-bad_field : (size : ℕ) (s : Bytes) → IsWord size s → bad_field s size ≡ false
IsWord-bad_field size [] w = absurd (w.not_nil refl)
IsWord-bad_field size (x ∷ s) w = ground (arith, w.fits)

pub IsRest-bad_rest : (size : ℕ) (s : Bytes) → IsRest size s → bad_rest s size ≡ false
IsRest-bad_rest size [] w = absurd (w.not_nil refl)
IsRest-bad_rest size (x ∷ s) w = ground (arith, w.fits)

pub bad_field-IsWord :
    (size : ℕ) (s : Bytes) → Lacks b' ' s → bad_field s size ≡ false → IsWord size s
bad_field-IsWord size [] l h = cc
bad_field-IsWord size (x ∷ s) l h = record { no_blank = l; not_nil = λ e. cc; fits = ground arith }

pub bad_rest-IsRest : (size : ℕ) (s : Bytes) → bad_rest s size ≡ false → IsRest size s
bad_rest-IsRest size [] h = cc
bad_rest-IsRest size (x ∷ s) h = record { not_nil = λ e. cc; fits = ground arith }

pub parse_two_tokens_complete :
    (m n : ℕ) (a b : Bytes)
    → IsWord m a
    → IsRest n b
    → parse_two_tokens (a ++ b' ' ∷ b) m n ≡ (Status.ok, a, b)
unfolding parse_two_tokens
parse_two_tokens_complete m n a b w r =
    rw (strchr-append b' ' a b w.no_blank, parse_two_tokens)
      (rw (IsWord-bad_field m a w)
        (rw (IsRest-bad_rest n b r) (rw (take_all (n - 1) b (omega (arith, r.fits))))))

pub parse_two_tokens_sound :
    (m n : ℕ) (rest : Bytes) {a b : Bytes}
    → parse_two_tokens rest m n ≡ (Status.ok, a, b)
    → (rest ≡ a ++ b' ' ∷ b) × IsWord m a × IsRest n b
unfolding parse_two_tokens
parse_two_tokens_sound m n rest {a} {b} e = elim (Option-cases (strchr b' ' rest)) [
  | inl missing ↦ cc (rw (missing, parse_two_tokens) at e)
  | inr ((p, q), found) ↦
      let e' = rw (found, parse_two_tokens) at e in
      let split = strchr_sound b' ' rest found in
      elim (Bool-cases (bad_field p m)) [
        | inl bad ↦ cc (rw bad at e')
        | inr good ↦ elim (Bool-cases (bad_rest q n)) [
          | inl bad ↦ cc (rw (good, bad) at e')
          | inr fine ↦
              let whole = bad_rest-IsRest n q fine in
              let done = rw (good, fine) at e' in
              let a_eq : p ≡ a = ap (λ t. t.1) done in
              let b_eq : q ≡ b =
                sym (take_all (n - 1) q (omega (arith, whole.fits))) ∙ ap (λ t. t.2) done in
              rw (← a_eq, ← b_eq) (split.0, bad_field-IsWord m p split.1 good, whole)
        ]
      ]
]

-- The lines that the server accepts, with what they ask for.
pub data Grammar (line : Bytes) : ParsedCmd → Type 0 where
  auth :
      (u p : Bytes)
      → IsWord max_username_len u
      → IsRest max_msg_len p
      → line ≡ codes "AUTH " ++ (u ++ b' ' ∷ p)
      → Grammar line (parsed ClientCmd.auth u p)
  join_room :
      (r : Bytes)
      → IsRest max_room_name_len r
      → line ≡ codes "JOIN_ROOM " ++ r
      → Grammar line (parsed ClientCmd.join_room r [])
  msg :
      (m : Bytes)
      → IsRest max_msg_len m
      → line ≡ codes "MSG " ++ m
      → Grammar line (parsed ClientCmd.msg [] m)
  pm :
      (t m : Bytes)
      → IsWord max_username_len t
      → IsRest max_msg_len m
      → line ≡ codes "PM " ++ (t ++ b' ' ∷ m)
      → Grammar line (parsed ClientCmd.pm t m)
  kick :
      (u : Bytes)
      → IsRest max_username_len u
      → line ≡ codes "KICK " ++ u
      → Grammar line (parsed ClientCmd.kick u [])
  list : HasWord (codes "LIST") line → Grammar line (parsed ClientCmd.list [] [])
  history : HasWord (codes "HISTORY") line → Grammar line (parsed ClientCmd.history [] [])
  quit : HasWord (codes "QUIT") line → Grammar line (parsed ClientCmd.quit [] [])

-- Every line of the grammar is accepted, and yields what it asks for.
pub parse_client_line_complete :
    {line : Bytes} {c : ParsedCmd} → Grammar line c → parse_client_line line ≡ (Status.ok, c)
unfolding parse_client_line split_first_token dispatch_client strchr str_eq
parse_client_line_complete (Grammar.auth u p w r e) =
    rw e (rw (parse_two_tokens_complete _ _ u p w r))
parse_client_line_complete (Grammar.join_room r w e) =
    rw e (rw (IsRest-bad_rest _ r w) (rw (take_all 31 r (omega (arith, w.fits)))))
parse_client_line_complete (Grammar.msg r w e) =
    rw e (rw (IsRest-bad_rest _ r w) (rw (take_all 511 r (omega (arith, w.fits)))))
parse_client_line_complete (Grammar.pm t m w r e) =
    rw e (rw (parse_two_tokens_complete _ _ t m w r))
parse_client_line_complete (Grammar.kick r w e) =
    rw e (rw (IsRest-bad_rest _ r w) (rw (take_all 31 r (omega (arith, w.fits)))))
parse_client_line_complete (Grammar.list (inl e)) = rw e
parse_client_line_complete (Grammar.list (inr (rest, e))) = rw e
parse_client_line_complete (Grammar.history (inl e)) = rw e
parse_client_line_complete (Grammar.history (inr (rest, e))) = rw e
parse_client_line_complete (Grammar.quit (inl e)) = rw e
parse_client_line_complete (Grammar.quit (inr (rest, e))) = rw e
