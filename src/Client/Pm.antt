-- ===== src/Client/Pm.antt =====
-- src/client/client.c: what `parse_at_pm` takes for a private message.
use ai_chatbot.Base.{
  ℕ, ◌-◌, ◌≡◌, sym, ap, ◌∙◌, [], ◌∷◌, ◌++◌, some, arith, ◌==◌, Option-cases, Bool-cases, inl, inr,
  some_inj, take_all, ◌↔◌, ==_iff,
}
use ai_chatbot.Text.{Bytes, strchr}
use ai_chatbot.Text.Split.{strchr-append, strchr_sound}
use ai_chatbot.Protocol.Fields.{bad_field, bad_rest}
use ai_chatbot.Protocol.Client.Grammar.{
  IsWord, IsRest, IsWord-bad_field, IsRest-bad_rest, bad_field-IsWord, bad_rest-IsRest,
}
use ai_chatbot.Client.Input.{parse_at_pm}

-- An at sign, a name, a blank and a text, for buffers of the two sizes.
pub record IsPm (tlen mlen : ℕ) (input target msg : Bytes) : Type 0 where
  pub shape : input ≡ b'@' ∷ (target ++ b' ' ∷ msg)
  pub is_word : IsWord tlen target
  pub is_rest : IsRest mlen msg

pub parse_at_pm_complete :
    (tlen mlen : ℕ) (input target msg : Bytes)
    → IsPm tlen mlen input target msg
    → parse_at_pm input tlen mlen ≡ some (target, msg)
unfolding parse_at_pm
parse_at_pm_complete tlen mlen input target msg p = rw p.shape (
    rw (strchr-append b' ' target msg p.is_word.no_blank, parse_at_pm)
      (rw (IsWord-bad_field tlen target p.is_word) (
        rw (IsRest-bad_rest mlen msg p.is_rest)
          (rw (take_all (mlen - 1) msg (omega (arith, p.is_rest.fits)))))))

parse_at_pm_sound :
    (tlen mlen : ℕ) (input target msg : Bytes)
    → parse_at_pm input tlen mlen ≡ some (target, msg)
    → IsPm tlen mlen input target msg
unfolding parse_at_pm
parse_at_pm_sound tlen mlen [] target msg e = cc
parse_at_pm_sound tlen mlen (c ∷ input) target msg e = elim (Bool-cases (c == b'@')) [
  | inr other ↦ cc (rw other at e)
  | inl at_sign ↦ elim (Option-cases (strchr b' ' input)) [
    | inl missing ↦ cc (rw (missing, parse_at_pm) at (rw at_sign at e))
    | inr ((name, body), found) ↦
        let e' = rw (found, parse_at_pm) at (rw at_sign at e) in
        let split = strchr_sound b' ' input found in
        elim (Bool-cases (bad_field name tlen)) [
          | inl bad ↦ cc (rw bad at e')
          | inr good ↦ elim (Bool-cases (bad_rest body mlen)) [
            | inl bad ↦ cc (rw (good, bad) at e')
            | inr fine ↦
                let whole = bad_rest-IsRest mlen body fine in
                let done = some_inj (rw (good, fine) at e') in
                let name_eq : name ≡ target = ap (λ t. t.0) done in
                let body_eq : body ≡ msg =
                  sym (take_all (mlen - 1) body (omega (arith, whole.fits))) ∙ ap (λ t. t.1) done in
                rw (← name_eq, ← body_eq)
                  (let pm : IsPm tlen mlen (c ∷ input) name body = record {
                    shape = rw ((==_iff c b'@').0 at_sign) (ap (λ s. b'@' ∷ s) split.0);
                    is_word = bad_field-IsWord tlen name split.1 good;
                    is_rest = whole;
                  } in
                    pm)
          ]
        ]
  ]
]

-- `parse_at_pm` accepts exactly the lines that are an at sign, a name without a blank that is not
-- empty, a blank and a text that is not empty, both short enough for their buffers, and gives that name
-- and that text.
pub parse_at_pm_iff :
    (tlen mlen : ℕ) (input target msg : Bytes)
    → (parse_at_pm input tlen mlen ≡ some (target, msg)) ↔ IsPm tlen mlen input target msg
parse_at_pm_iff tlen mlen input target msg =
    (parse_at_pm_sound tlen mlen input target msg, parse_at_pm_complete tlen mlen input target msg)
