-- ===== src/Protocol/Client/Sound.antt =====
-- `parse_client_line` of src/common/protocol.c accepts nothing but the lines of the grammar.
use ai_chatbot.Base.{
  ℕ, ◌<◌, ◌≡◌, ◌≢◌, [], ◌∷◌, ◌++◌, some, if◌then◌else◌, leb, length, arith, Option-cases, inl, inr,
  Bool-cases, ap, true, take_all, ◌∙◌, ◌⊎◌, sym, if_elim, suc, take, ◌↔◌,
}
use ai_chatbot.Text.{Bytes, codes, str_eq, str_eq_iff, strchr}
use ai_chatbot.Text.Split.{strchr_sound}
use ai_chatbot.Status.{Status, max_username_len, max_msg_len}
use ai_chatbot.Protocol.Fields.{split_first_token, bad_rest}
use ai_chatbot.Protocol.Client.{
  ClientCmd, ParsedCmd, parsed, with_two_tokens, dispatch_client, parse_client_line,
}
use ai_chatbot.Protocol.Client.Grammar.{
  HasWord, IsWord, IsRest, bad_rest-IsRest, parse_two_tokens_sound, Grammar,
  parse_client_line_complete,
}

-- What is read as a command word and a rest.
abbrev Splits : Bytes → Bytes → Bytes → Type 0
Splits line cmd rest = ((line ≡ cmd) × (rest ≡ [])) ⊎ (line ≡ cmd ++ b' ' ∷ rest)

split_first_token-Splits :
    (line : Bytes) {cmd rest : Bytes}
    → split_first_token line 16 ≡ some (cmd, rest)
    → Splits line cmd rest
unfolding split_first_token
split_first_token-Splits line {cmd} {rest} e = elim (Option-cases (strchr b' ' line)) [
  | inl missing ↦ elim (Bool-cases (leb 16 (length line))) [
    | inl long ↦ cc (rw (missing, split_first_token) at e, long)
    | inr short ↦
        let e' = rw (missing, split_first_token) at e in
        let whole = take_all 15 line (ground arith) in ground (arith, whole, e')
  ]
  | inr ((p, q), found) ↦
      let e' = rw (found, split_first_token) at e in
      let split = strchr_sound b' ' line found in inr (ground arith)
]

-- What an accepted result says of the line.
record IsSound (line : Bytes) (r : Status × ParsedCmd) : Type 0 where
  at : (c : ParsedCmd) → r ≡ (Status.ok, c) → Grammar line c

refused-IsSound : (line : Bytes) (c : ParsedCmd) → IsSound line (Status.protocol, c)
refused-IsSound line c = record { at = λ d e. cc }

accepted-IsSound : (line : Bytes) (c : ParsedCmd) → Grammar line c → IsSound line (Status.ok, c)
accepted-IsSound line c g = record {
  at = λ d e. let same : c ≡ d = ap (λ t. t.1) e in rw (← same) g;
}

-- A non-empty rest stands behind a blank.
Splits-rest : (line cmd rest : Bytes) → Splits line cmd rest → rest ≢ [] → line ≡ cmd ++ b' ' ∷ rest
Splits-rest line cmd rest (inl (e, n)) h = absurd (h n)
Splits-rest line cmd rest (inr e) h = e

Splits-HasWord :
    (word line cmd rest : Bytes) → Splits line cmd rest → str_eq cmd word ≡ true → HasWord word line
Splits-HasWord word line cmd rest (inl (e, n)) h = inl (e ∙ (str_eq_iff cmd word).0 h)
Splits-HasWord word line cmd rest (inr e) h = inr (rest, rw (← (str_eq_iff cmd word).0 h) e)

one_field-IsSound :
    (c : ParsedCmd) (size : ℕ) (word line cmd rest : Bytes)
    → (IsRest size rest → line ≡ word ++ b' ' ∷ rest → Grammar line c)
    → Splits line cmd rest
    → str_eq cmd word ≡ true
    → IsSound line (
        if bad_rest rest size
        then (Status.protocol, parsed ClientCmd.unknown [] [])
        else (Status.ok, c))
one_field-IsSound c size word line cmd rest g s h =
    if_elim (IsSound line) (bad_rest rest size) (λ _. refused-IsSound line _)
      (λ fine.
        let w = bad_rest-IsRest size rest fine in
        accepted-IsSound line c
          (g w (rw (← (str_eq_iff cmd word).0 h) (Splits-rest line cmd rest s w.not_nil))))

append-ne-nil : (a b : Bytes) (x : ℕ) → a ++ x ∷ b ≢ []
append-ne-nil [] b x e = cc
append-ne-nil (y ∷ a) b x e = cc

two_fields-IsSound :
    (k : ClientCmd) (word line cmd rest : Bytes)
    → ((a b : Bytes)
        → IsWord max_username_len a
        → IsRest max_msg_len b
        → line ≡ word ++ b' ' ∷ (a ++ b' ' ∷ b)
        → Grammar line (parsed k a b))
    → Splits line cmd rest
    → str_eq cmd word ≡ true
    → IsSound line (with_two_tokens k rest)
two_fields-IsSound k word line cmd rest g s h = record {
  at = λ c e.
      let t =
        parse_two_tokens_sound max_username_len max_msg_len rest {a = c.arg1} {b = c.arg2}
          (λ i. ((e i).0, (e i).1.arg1, (e i).1.arg2)) in
      let same : parsed k c.arg1 c.arg2 ≡ c = λ i. parsed ((e i).1.cmd) c.arg1 c.arg2 in
      let full : rest ≢ [] = λ n. append-ne-nil c.arg1 c.arg2 b' ' (sym t.0 ∙ n) in
      rw (← same) (
        g c.arg1 c.arg2 t.1 t.2
          (rw (← t.0, ← (str_eq_iff cmd word).0 h) (Splits-rest line cmd rest s full)));
}

dispatch_client-IsSound :
    (line cmd rest : Bytes) → Splits line cmd rest → IsSound line (dispatch_client cmd rest)
unfolding dispatch_client
dispatch_client-IsSound line cmd rest s =
    if_elim (IsSound line) _
      (two_fields-IsSound ClientCmd.auth (codes "AUTH") line cmd rest Grammar.auth s)
      λ _.
        if_elim (IsSound line) _
          (one_field-IsSound _ 32 (codes "JOIN_ROOM") line cmd rest
            (λ w e. rw (whole 31 w.fits) (Grammar.join_room rest w e)) s)
          λ _.
            if_elim (IsSound line) _
              (one_field-IsSound _ 512 (codes "MSG") line cmd rest
                (λ w e. rw (whole 511 w.fits) (Grammar.msg rest w e)) s)
              λ _.
                if_elim (IsSound line) _
                  (two_fields-IsSound ClientCmd.pm (codes "PM") line cmd rest Grammar.pm s)
                  λ _. if_elim (IsSound line) _ (word (codes "LIST") Grammar.list) λ _.
                    if_elim (IsSound line) _ (word (codes "HISTORY") Grammar.history) λ _.
                      if_elim (IsSound line) _
                        (one_field-IsSound _ 32 (codes "KICK") line cmd rest
                          (λ w e. rw (whole 31 w.fits) (Grammar.kick rest w e)) s)
                        λ _.
                          if_elim (IsSound line) _ (word (codes "QUIT") Grammar.quit)
                            λ _. refused-IsSound line _
  where
    whole : (n : ℕ) → length rest < suc n → take n rest ≡ rest
    whole n h = take_all n rest (omega arith)

    word :
        {c : ParsedCmd} (w : Bytes)
        → (HasWord w line → Grammar line c)
        → str_eq cmd w ≡ true
        → IsSound line (Status.ok, c)
    word {c} w g h = accepted-IsSound line c (g (Splits-HasWord w line cmd rest s h))

-- A line is accepted only if it belongs to the grammar, and is read as what the grammar says.
pub parse_client_line_sound :
    (line : Bytes) {c : ParsedCmd} → parse_client_line line ≡ (Status.ok, c) → Grammar line c
unfolding parse_client_line
parse_client_line_sound line {c} e = elim (Option-cases (split_first_token line 16)) [
  | inl missing ↦ cc (rw (missing, parse_client_line) at e)
  | inr ((cmd, rest), found) ↦
      (dispatch_client-IsSound line cmd rest (split_first_token-Splits line found)).at c
        (rw (found, parse_client_line) at e)
]

-- `protocol_parse_client_line` decides the grammar: it returns CHAT_OK with `c` exactly when the line
-- belongs to the grammar with the meaning `c`.
pub parse_client_line_iff :
    (line : Bytes) (c : ParsedCmd) → (parse_client_line line ≡ (Status.ok, c)) ↔ Grammar line c
parse_client_line_iff line c = (parse_client_line_sound line, parse_client_line_complete)
