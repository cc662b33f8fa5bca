-- ===== src/Client/Prompt.antt =====
-- src/client/client.c: from the name and the password that are typed to the request for authentication.
use ai_chatbot.Base.{
  ◌-◌, ℕ, zero, suc, ◌<◌, ◌≡◌, refl, ap, ◌∙◌, true, [], ◌∷◌, ◌++◌, some, arith, length,
}
use ai_chatbot.Text.{Bytes}
use ai_chatbot.Text.Split.{Lacks, strchr-Lacks}
use ai_chatbot.Text.Trim.{trim_newline, IsLine, trim_newline-id}
use ai_chatbot.Net.{string_in}
use ai_chatbot.Status.{Status, max_username_len}
use ai_chatbot.Client.State.{ChatClient}
use ai_chatbot.Client.Input.{read_upto, fgets}
use ai_chatbot.Client.Credentials.{read_username}

-- The first `n` bytes, when no newline is among them.
read_upto-full :
    (n : ℕ) (s rest : Bytes) → Lacks b'\n' s → length s ≡ n → read_upto n (s ++ rest) ≡ (s, rest)
unfolding read_upto
read_upto-full zero [] rest l h = refl
read_upto-full zero (c ∷ s) rest l h = absurd (omega arith)
read_upto-full (suc n) [] rest l h = absurd (omega arith)
read_upto-full (suc n) (c ∷ s) rest l h =
    rw (read_upto-full n s rest l.1 (omega arith)) (ground (arith, l.0))

string_in-Lacks : (s : Bytes) → Lacks 0 s → string_in s ≡ s
unfolding string_in
string_in-Lacks s l = rw (strchr-Lacks 0 s l, string_in)

-- What can be typed for a field of `size` bytes: a line without NUL.
pub record IsTyped (size : ℕ) (s : Bytes) : Type 0 where
  pub is_line : IsLine s
  pub no_nul : Lacks 0 s
  pub fits : suc (length s) < size

fgets_of :
    (size c : ℕ) (s : Bytes) {line rest : Bytes}
    → read_upto (size - 1) (c ∷ s) ≡ (line, rest)
    → Lacks 0 line
    → fgets size (c ∷ s) ≡ some (line, rest)
unfolding fgets
fgets_of size c s {line} e l = rw e (rw (string_in-Lacks line l))

read_username_of :
    (cli : ChatClient) {typed rest : Bytes}
    → fgets max_username_len cli.stdin ≡ some (typed, rest)
    → read_username cli ≡ (true, record cli { username = trim_newline typed; stdin = rest })
unfolding read_username
read_username_of cli e = rw (e, read_username)

-- Of a name of more than 31 bytes the first 31 are taken, and what was typed behind them is left to be read, so that
-- the password is read from it.
pub read_username_cut :
    (name rest : Bytes) (cli : ChatClient)
    → IsLine name
    → Lacks 0 name
    → length name ≡ 31
    → cli.stdin ≡ name ++ rest
    → read_username cli ≡ (true, record cli { username = name; stdin = rest })
read_username_cut [] rest cli l k h e = absurd (omega arith)
read_username_cut (c ∷ s) rest cli l k h e =
    let read : fgets max_username_len cli.stdin ≡ some (c ∷ s, rest) =
      ap (fgets max_username_len) e
      ∙ fgets_of 32 c (s ++ rest) (read_upto-full 31 (c ∷ s) rest l.no_lf h) k in
    read_username_of cli read
    ∙ ap (λ name. (true, record cli { username = name; stdin = rest })) (trim_newline-id (c ∷ s) l)
