-- ===== src/Client/Start.antt =====
-- src/client/client.c: what `client_run` keeps, from the credentials to its return.
use ai_chatbot.Base.{
  ℕ, zero, suc, ◌-◌, ◌≤◌, ◌<◌, ◌≡◌, ap, Bool, true, List, [], ◌∷◌, Option, none, some, arith,
  Option-cases, inl, inr, length, take, length-take, some_inj,
}
use ai_chatbot.Text.{Bytes, codes, strchr}
use ai_chatbot.Text.Split.{strchr-length}
use ai_chatbot.Text.Trim.{trim_newline, trim_newline_lem}
use ai_chatbot.Net.{string_in}
use ai_chatbot.Status.{Status, max_username_len, max_password_len, max_line_len}
use ai_chatbot.Protocol.Client.{build_client_auth}
use ai_chatbot.Client.State.{Terminal, ChatClient, client_send_line, client_print}
use ai_chatbot.Client.Input.{read_upto, fgets}
use ai_chatbot.Client.Credentials.{
  print, report, read_username, read_password, resolve_username, resolve_password,
  resolve_credentials,
}
use ai_chatbot.Client.Invariant.{IsInvariant, run_turns-kept}
use ai_chatbot.Client.Threads.{Threads, Turn, MainPlace, ReceiverPlace, run_turns}
use ai_chatbot.Client.Life.{greeting, client_start, client_run}

read_upto-length : (n : ℕ) (s : Bytes) → length (read_upto n s).0 ≤ n
unfolding read_upto
read_upto-length zero s = omega arith
read_upto-length (suc n) [] = omega arith
read_upto-length (suc n) (c ∷ s) = ground (arith, read_upto-length n s)

string_in-length : (s : Bytes) → length (string_in s) ≤ length s
unfolding string_in
string_in-length s = elim (Option-cases (strchr 0 s)) [
  | inl e ↦ rw (e, string_in) (omega arith)
  | inr ((a, b), e) ↦ rw (e, string_in) (omega (arith, strchr-length 0 s e))
]

-- What `fgets` reads fits its buffer with the NUL.
pub fgets-length :
    (size : ℕ) (s : Bytes) {line rest : Bytes}
    → 1 ≤ size
    → fgets size s ≡ some (line, rest)
    → length line < size
unfolding fgets
fgets-length size [] h e = cc
fgets-length size (c ∷ s) {line} h e =
    let read : Bytes = (read_upto (size - 1) (c ∷ s)).0 in
    let same : string_in read ≡ line = ap (λ (p : Bytes × Bytes). p.0) (some_inj e) in
    let bound : length line ≤ length read = rw (same) at (string_in-length read) in
    omega (arith, read_upto-length (size - 1) (c ∷ s))

pub trim_newline-length : (s : Bytes) → length (trim_newline s) ≤ length s
trim_newline-length s = let (n, e, _) = trim_newline_lem s in rw e (omega (arith, length-take n s))

-- The property is kept by what `client_run` does besides the turns of the threads.
pub record IsStartInvariant (t : Terminal) (P : ChatClient → Type 0) : Type 0 where
  pub on_turns : IsInvariant t P
  pub on_report : (text : Bytes) (cli : ChatClient) → P cli → P (report text cli)
  pub on_username :
      (name rest : Bytes) (cli : ChatClient)
      → length name < max_username_len
      → P cli
      → P (record cli { username = name; stdin = rest })
  pub on_password :
      (word rest : Bytes) (cli : ChatClient)
      → length word < max_password_len
      → P cli
      → P (record cli { password = word; stdin = rest })
  pub on_start : (cli : ChatClient) → P cli → P (record cli { receiver_started = true })

module _ (t : Terminal) (P : ChatClient → Type 0) (inv : IsStartInvariant t P) where
  print-kept : (text : Bytes) (cli : ChatClient) → P cli → P (print text cli)
  unfolding client_print
  print-kept text cli h = inv.on_turns.on_print text cli h

  read_username-kept : (cli : ChatClient) → P cli → P (read_username cli).1
  unfolding read_username
  read_username-kept cli h = elim (Option-cases (fgets max_username_len cli.stdin)) [
    | inl e ↦ rw (e, read_username) h
    | inr ((line, rest), e) ↦
        rw (e, read_username)
          (inv.on_username (trim_newline line) rest cli
            (omega (arith, trim_newline-length line, fgets-length 32 cli.stdin (omega arith) e)) h)
  ]

  read_password-kept : (cli : ChatClient) → P cli → P (read_password cli).1
  unfolding read_password
  read_password-kept cli h = elim (Option-cases (fgets max_password_len cli.stdin)) [
    | inl e ↦ rw (e, read_password) h
    | inr ((line, rest), e) ↦
        rw (e, read_password)
          (inv.on_password (trim_newline line) rest cli
            (omega (arith, trim_newline-length line, fgets-length 64 cli.stdin (omega arith) e)) h)
  ]

  resolve_username-kept :
      (given : Option Bytes) (cli : ChatClient) → P cli → P (resolve_username given cli).1
  unfolding resolve_username
  resolve_username-kept none cli h = read_username-kept _ (print-kept _ cli h)
  resolve_username-kept (some []) cli h = read_username-kept _ (print-kept _ cli h)
  resolve_username-kept (some (c ∷ s)) cli h =
      inv.on_username (take 31 (c ∷ s)) cli.stdin cli (omega (arith, length-take 31 (c ∷ s))) h

  resolve_password-kept :
      (given : Option Bytes) (cli : ChatClient) → P cli → P (resolve_password given cli).1
  unfolding resolve_password
  resolve_password-kept none cli h = read_password-kept _ (print-kept _ cli h)
  resolve_password-kept (some []) cli h = read_password-kept _ (print-kept _ cli h)
  resolve_password-kept (some (c ∷ s)) cli h =
      inv.on_password (take 63 (c ∷ s)) cli.stdin cli (omega (arith, length-take 63 (c ∷ s))) h

  resolve_credentials-kept :
      (user pass : Option Bytes) (cli : ChatClient)
      → P cli
      → P (resolve_credentials user pass cli).1
  unfolding resolve_credentials
  resolve_credentials-kept user pass cli h =
      let named = resolve_username-kept user cli h in
      let full = resolve_password-kept pass (resolve_username user cli).1 named in
      ground (arith, inv.on_report (codes "Username and password required\n") _ full)

  pub client_start-kept :
      (created : Bool) (user pass : Option Bytes) (cli : ChatClient)
      → P cli
      → P (client_start t created user pass cli).1
  unfolding client_start
  client_start-kept created user pass cli h =
      let named : ChatClient = (resolve_credentials user pass cli).1 in
      let kept : P named = resolve_credentials-kept user pass cli h in
      let line : Bytes = (build_client_auth max_line_len named.username named.password).1 in
      let sent : P (client_send_line t line named).1 = inv.on_turns.on_send line named kept in
      let begun =
        inv.on_turns.on_print (greeting t) _
          (inv.on_start (client_send_line t line named).1 sent) in
      ground arith

  -- `client_run` keeps it, whatever is typed and received, and in whatever order its threads run.
  pub client_run-kept :
      (created : Bool) (turns : List Turn) (user pass : Option Bytes) (cli : ChatClient)
      {rc : Status} {cli' : ChatClient}
      → P cli
      → client_run t created turns user pass cli ≡ some (rc, cli')
      → P cli'
  unfolding client_run
  client_run-kept created turns user pass cli h e =
      let begun : ChatClient = (client_start t created user pass cli).1 in
      let s : Threads = record {
        client = begun;
        main = MainPlace.testing;
        receiver = ReceiverPlace.testing;
      } in
      let first : P begun = client_start-kept created user pass cli h in
      let last : P (run_turns t turns s).client = run_turns-kept t P inv.on_turns turns s first in
      ground arith
