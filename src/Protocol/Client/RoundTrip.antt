-- ===== src/Protocol/Client/RoundTrip.antt =====
-- The lines that client.c builds with `protocol_build_client_*` before the server's
-- `protocol_parse_client_line`, with `trim_newline` of the receive loop between them.
use mathlib.Core.List.{append_assoc}
use ai_chatbot.Base.{
  ℕ, ◌<◌, ◌≡◌, refl, [], ◌∷◌, ◌++◌, arith, length, length-append, leb, leb_lt, false, inl,
}
use ai_chatbot.Text.{Bytes, codes}
use ai_chatbot.Text.Trim.{trim_newline, trim_newline-line, IsLine, IsLine-append, IsLine-blank}
use ai_chatbot.Status.{Status, max_username_len, max_msg_len, max_room_name_len, max_line_len}
use ai_chatbot.Protocol.Fields.{build}
use ai_chatbot.Protocol.Client.{
  ClientCmd, ParsedCmd, parsed, parse_client_line, build_client_auth, build_client_join_room,
  build_client_msg, build_client_pm, build_client_list, build_client_history, build_client_kick,
  build_client_quit,
}
use ai_chatbot.Protocol.Client.Grammar.{IsWord, IsRest, Grammar, parse_client_line_complete}

-- The builder of each command, into a buffer of MAX_LINE_LEN bytes as in client.c.
abbrev pub build_client : ClientCmd → Bytes → Bytes → Status × Bytes
build_client ClientCmd.auth a b = build_client_auth max_line_len a b
build_client ClientCmd.join_room a b = build_client_join_room max_line_len a
build_client ClientCmd.msg a b = build_client_msg max_line_len b
build_client ClientCmd.pm a b = build_client_pm max_line_len a b
build_client ClientCmd.list a b = build_client_list max_line_len
build_client ClientCmd.history a b = build_client_history max_line_len
build_client ClientCmd.kick a b = build_client_kick max_line_len a
build_client ClientCmd.quit a b = build_client_quit max_line_len
build_client ClientCmd.unknown a b = (Status.err, [])

-- A field that ends the line has no CR or LF in it.
abbrev IsLast : ℕ → Bytes → Type 0
IsLast size s = IsRest size s × IsLine s

-- The arguments with which a command can be sent; a field that it does not use is empty.
abbrev pub IsRequest : ClientCmd → Bytes → Bytes → Type 0
IsRequest ClientCmd.auth a b = IsWord max_username_len a × IsLine a × IsLast max_msg_len b
IsRequest ClientCmd.join_room a b = IsLast max_room_name_len a × (b ≡ [])
IsRequest ClientCmd.msg a b = (a ≡ []) × IsLast max_msg_len b
IsRequest ClientCmd.pm a b = IsWord max_username_len a × IsLine a × IsLast max_msg_len b
IsRequest ClientCmd.kick a b = IsLast max_username_len a × (b ≡ [])
IsRequest ClientCmd.unknown a b = ⊥
IsRequest _ a b = (a ≡ []) × (b ≡ [])

-- A text of one line that fits is built whole, and its newline is trimmed off again.
pub build-line :
    (body text : Bytes)
    → text ≡ body ++ b'\n' ∷ []
    → length body < 2047
    → IsLine body
    → ((build max_line_len text).0 ≡ Status.ok) × (trim_newline (build max_line_len text).1 ≡ body)
unfolding build
build-line body text e h l =
    let fits : leb 2048 (length text) ≡ false =
      leb_lt 2048 (length text) (rw e (omega (arith, length-append body (b'\n' ∷ [])))) in
    rw fits (refl, rw e (trim_newline-line body l))

abbrev pub Reads : Status × Bytes → ParsedCmd → Type 0
Reads (s, buf) c = (s ≡ Status.ok) × (parse_client_line (trim_newline buf) ≡ (Status.ok, c))

Grammar-Reads :
    (body text : Bytes) {c : ParsedCmd}
    → Grammar body c
    → text ≡ body ++ b'\n' ∷ []
    → length body < 2047
    → IsLine body
    → Reads (build max_line_len text) c
Grammar-Reads body text g e h l =
    let t = build-line body text e h l in (t.0, rw t.1 (parse_client_line_complete g))

two_tokens_end :
    (word a b : Bytes)
    → word ++ (a ++ b' ' ∷ (b ++ b'\n' ∷ [])) ≡ (word ++ (a ++ b' ' ∷ b)) ++ b'\n' ∷ []
two_tokens_end word a b = simp append_assoc

-- Any command with valid arguments is built in full, and the line parses back to the command and
-- the same arguments.
pub parse-build_client :
    (c : ClientCmd) (a b : Bytes) → IsRequest c a b → Reads (build_client c a b) (parsed c a b)
unfolding build_client_auth build_client_join_room build_client_msg build_client_pm
    build_client_list build_client_history build_client_kick build_client_quit
parse-build_client ClientCmd.auth a b (w, l, (r, k)) =
    Grammar-Reads (codes "AUTH " ++ (a ++ b' ' ∷ b)) _ (Grammar.auth a b w r refl)
      (two_tokens_end (codes "AUTH ") a b)
      (omega (arith, length-append a (b' ' ∷ b), w.fits, r.fits))
      (IsLine-append (codes "AUTH ") (a ++ b' ' ∷ b) (omega arith) (IsLine-blank a b l k))
parse-build_client ClientCmd.join_room a b ((r, k), e) = rw e (
    Grammar-Reads (codes "JOIN_ROOM " ++ a) _ (Grammar.join_room a r refl) refl
      (omega (arith, r.fits)) (IsLine-append (codes "JOIN_ROOM ") a (omega arith) k))
parse-build_client ClientCmd.msg a b (e, (r, k)) = rw e (
    Grammar-Reads (codes "MSG " ++ b) _ (Grammar.msg b r refl) refl (omega (arith, r.fits))
      (IsLine-append (codes "MSG ") b (omega arith) k))
parse-build_client ClientCmd.pm a b (w, l, (r, k)) =
    Grammar-Reads (codes "PM " ++ (a ++ b' ' ∷ b)) _ (Grammar.pm a b w r refl)
      (two_tokens_end (codes "PM ") a b) (omega (arith, length-append a (b' ' ∷ b), w.fits, r.fits))
      (IsLine-append (codes "PM ") (a ++ b' ' ∷ b) (omega arith) (IsLine-blank a b l k))
parse-build_client ClientCmd.kick a b ((r, k), e) = rw e (
    Grammar-Reads (codes "KICK " ++ a) _ (Grammar.kick a r refl) refl (omega (arith, r.fits))
      (IsLine-append (codes "KICK ") a (omega arith) k))
parse-build_client ClientCmd.list a b (d, e) =
    rw (d, e)
      (Grammar-Reads (codes "LIST") _ (Grammar.list (inl refl)) refl (omega arith) (omega arith))
parse-build_client ClientCmd.history a b (d, e) =
    rw (d, e)
      (Grammar-Reads (codes "HISTORY") _ (Grammar.history (inl refl)) refl (omega arith)
        (omega arith))
parse-build_client ClientCmd.quit a b (d, e) =
    rw (d, e)
      (Grammar-Reads (codes "QUIT") _ (Grammar.quit (inl refl)) refl (omega arith) (omega arith))
parse-build_client ClientCmd.unknown a b r = absurd r
