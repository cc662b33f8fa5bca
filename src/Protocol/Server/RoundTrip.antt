-- ===== src/Protocol/Server/RoundTrip.antt =====
-- The lines that the server builds with `protocol_build_server_*` before the client's
-- `protocol_parse_server_line` (src/common/protocol.c).
use mathlib.Core.List.{append_assoc}
use ai_chatbot.Base.{
  ℕ, ◌<◌, ◌≡◌, refl, ◌∷◌, ◌++◌, some, arith, length, length-append, take, take_all,
}
use ai_chatbot.Text.{Bytes, codes, str_eq, strchr}
use ai_chatbot.Text.Trim.{trim_newline, trim_newline-id, IsLine, IsLine-append, IsLine-blank}
use ai_chatbot.Status.{
  Status, max_username_len, max_msg_len, max_room_name_len, max_line_len, timestamp_len,
}
use ai_chatbot.Protocol.Fields.{build, split_first_token}
use ai_chatbot.Protocol.Client.Grammar.{IsWord, IsRest}
use ai_chatbot.Protocol.Client.RoundTrip.{build-line}
use ai_chatbot.Protocol.Server.{
  ServerResp, ParsedResp, blank, newline, dispatch_server, parse_server_line, build_server_ok,
  build_server_err, build_server_welcome, build_server_broadcast, build_server_pm,
  build_server_user_join, build_server_user_left, build_server_room_joined, build_server_history,
  build_server_kicked, build_server_list,
}
use ai_chatbot.Protocol.Server.Fields.{
  parse_four_fields_complete, parse_three_fields_complete, parse_two_fields_complete,
}

-- What the server has to say.
pub data Reply : Type 0 where
  ok err welcome room_joined history kicked list : Bytes → Reply
  user_join user_left : Bytes → Bytes → Reply
  pm : Bytes → Bytes → Bytes → Reply
  broadcast : Bytes → Bytes → Bytes → Bytes → Reply

-- The builder of each, into a buffer of MAX_LINE_LEN bytes as in commands.c and broadcaster.c.
abbrev pub build_reply : Reply → Status × Bytes
build_reply (Reply.ok m) = build_server_ok max_line_len (some m)
build_reply (Reply.err m) = build_server_err max_line_len (some m)
build_reply (Reply.welcome u) = build_server_welcome max_line_len u
build_reply (Reply.room_joined r) = build_server_room_joined max_line_len r
build_reply (Reply.history p) = build_server_history max_line_len (some p)
build_reply (Reply.kicked m) = build_server_kicked max_line_len (some m)
build_reply (Reply.list l) = build_server_list max_line_len (some l)
build_reply (Reply.user_join u r) = build_server_user_join max_line_len u r
build_reply (Reply.user_left u r) = build_server_user_left max_line_len u r
build_reply (Reply.pm f t m) = build_server_pm max_line_len f t m
build_reply (Reply.broadcast u t r m) = build_server_broadcast max_line_len u t r m

-- What the client's struct holds for each.
abbrev pub meaning : Reply → ParsedResp
meaning (Reply.ok m) = record (blank ServerResp.ok) { message = m }
meaning (Reply.err m) = record (blank ServerResp.err) { message = m }
meaning (Reply.welcome u) = record (blank ServerResp.welcome) { username = u }
meaning (Reply.room_joined r) = record (blank ServerResp.room_joined) { room = r }
meaning (Reply.history p) = record (blank ServerResp.history) { history_payload = p }
meaning (Reply.kicked m) = record (blank ServerResp.kicked) { message = m }
meaning (Reply.list l) = record (blank ServerResp.list) { user_list = l }
meaning (Reply.user_join u r) = record (blank ServerResp.user_join) { username = u; room = r }
meaning (Reply.user_left u r) = record (blank ServerResp.user_left) { username = u; room = r }
meaning (Reply.pm f t m) = record (blank ServerResp.pm) {
  from_user = f;
  timestamp = t;
  message = m;
}
meaning (Reply.broadcast u t r m) = record (blank ServerResp.broadcast) {
  username = u;
  timestamp = t;
  room = r;
  message = m;
}

-- A text of one line that fits its buffer.
abbrev Fits : ℕ → Bytes → Type 0
Fits size s = (length s < size) × IsLine s

abbrev Word : ℕ → Bytes → Type 0
Word size s = IsWord size s × IsLine s

abbrev Rest : ℕ → Bytes → Type 0
Rest size s = IsRest size s × IsLine s

-- The fields fit, and none but the last has a blank in it. The payload of a history must leave room
-- for the command word and the newline.
abbrev pub IsReply : Reply → Type 0
IsReply (Reply.ok m) = Fits max_msg_len m
IsReply (Reply.err m) = Fits max_msg_len m
IsReply (Reply.welcome u) = Fits max_username_len u
IsReply (Reply.room_joined r) = Fits max_room_name_len r
IsReply (Reply.history p) = Fits 2039 p
IsReply (Reply.kicked m) = Fits max_msg_len m
IsReply (Reply.list l) = Fits max_msg_len l
IsReply (Reply.user_join u r) = Word max_username_len u × Rest max_room_name_len r
IsReply (Reply.user_left u r) = Word max_username_len u × Rest max_room_name_len r
IsReply (Reply.pm f t m) = Word max_username_len f × Word timestamp_len t × Rest max_msg_len m
IsReply (Reply.broadcast u t r m) =
    Word max_username_len u × Word timestamp_len t × Word max_room_name_len r × Rest max_msg_len m

abbrev Reads : Status × Bytes → ParsedResp → Type 0
Reads (s, buf) c = (s ≡ Status.ok) × (parse_server_line (trim_newline buf) ≡ (Status.ok, c))

-- A line with the command word `word`, and what `dispatch_server` makes of the rest.
line-Reads :
    (word rest body text : Bytes) {c : ParsedResp}
    → split_first_token body 16 ≡ some (word, rest)
    → dispatch_server word rest ≡ (Status.ok, c)
    → text ≡ body ++ newline
    → length body < 2047
    → IsLine body
    → Reads (build max_line_len text) c
unfolding parse_server_line
line-Reads word rest body text split read e h l =
    let t = build-line body text e h l in
    let copied : take 2047 body ≡ body = take_all 2047 body (omega arith) in
    (
      t.0,
      rw t.1 (
          rw (copied, parse_server_line)
            (rw (trim_newline-id body l) (rw (split, parse_server_line) read))),
    )

-- Every well-formed reply is built in full, and the receiver's parse of the trimmed line yields the
-- kind of the reply and exactly its fields.
pub parse-build_server : (r : Reply) → IsReply r → Reads (build_reply r) (meaning r)
unfolding build_server_ok build_server_err build_server_welcome build_server_broadcast
    build_server_pm build_server_user_join build_server_user_left build_server_room_joined
    build_server_history build_server_kicked build_server_list split_first_token strchr
    dispatch_server str_eq
parse-build_server (Reply.ok m) (f, l) =
    line-Reads (codes "OK") m (codes "OK " ++ m) _ refl (rw (take_all 511 m (omega arith))) refl
      (omega arith) (IsLine-append (codes "OK ") m (omega arith) l)
parse-build_server (Reply.err m) (f, l) =
    line-Reads (codes "ERR") m (codes "ERR " ++ m) _ refl (rw (take_all 511 m (omega arith))) refl
      (omega arith) (IsLine-append (codes "ERR ") m (omega arith) l)
parse-build_server (Reply.welcome u) (f, l) =
    line-Reads (codes "WELCOME") u (codes "WELCOME " ++ u) _ refl (rw (take_all 31 u (omega arith)))
      refl (omega arith) (IsLine-append (codes "WELCOME ") u (omega arith) l)
parse-build_server (Reply.room_joined r) (f, l) =
    line-Reads (codes "ROOM_JOINED") r (codes "ROOM_JOINED " ++ r) _ refl
      (rw (take_all 31 r (omega arith))) refl (omega arith)
      (IsLine-append (codes "ROOM_JOINED ") r (omega arith) l)
parse-build_server (Reply.history p) (f, l) =
    line-Reads (codes "HISTORY") p (codes "HISTORY " ++ p) _ refl
      (rw (take_all 2047 p (omega arith))) refl (omega arith)
      (IsLine-append (codes "HISTORY ") p (omega arith) l)
parse-build_server (Reply.kicked m) (f, l) =
    line-Reads (codes "KICKED") m (codes "KICKED " ++ m) _ refl (rw (take_all 511 m (omega arith)))
      refl (omega arith) (IsLine-append (codes "KICKED ") m (omega arith) l)
parse-build_server (Reply.list m) (f, l) =
    line-Reads (codes "LIST") m (codes "LIST " ++ m) _ refl (rw (take_all 511 m (omega arith))) refl
      (omega arith) (IsLine-append (codes "LIST ") m (omega arith) l)
parse-build_server (Reply.user_join u r) ((w1, l1), (w2, l2)) =
    line-Reads (codes "USER_JOIN") (u ++ b' ' ∷ r) (codes "USER_JOIN " ++ (u ++ b' ' ∷ r)) _ refl
      (rw (parse_two_fields_complete _ _ u r w1 w2)) (simp append_assoc)
      (omega (arith, length-append {0}, w1.fits, w2.fits))
      (IsLine-append (codes "USER_JOIN ") _ (omega arith) (IsLine-blank u r l1 l2))
parse-build_server (Reply.user_left u r) ((w1, l1), (w2, l2)) =
    line-Reads (codes "USER_LEFT") (u ++ b' ' ∷ r) (codes "USER_LEFT " ++ (u ++ b' ' ∷ r)) _ refl
      (rw (parse_two_fields_complete _ _ u r w1 w2)) (simp append_assoc)
      (omega (arith, length-append {0}, w1.fits, w2.fits))
      (IsLine-append (codes "USER_LEFT ") _ (omega arith) (IsLine-blank u r l1 l2))
parse-build_server (Reply.pm f t m) ((w1, l1), (w2, l2), (w3, l3)) =
    line-Reads (codes "PM") (f ++ b' ' ∷ (t ++ b' ' ∷ m))
      (codes "PM " ++ (f ++ b' ' ∷ (t ++ b' ' ∷ m))) _ refl
      (rw (parse_three_fields_complete _ _ _ f t m w1 w2 w3)) (simp append_assoc)
      (omega (arith, length-append {0}, w1.fits, w2.fits, w3.fits))
      (IsLine-append (codes "PM ") _ (omega arith) (IsLine-blank f _ l1 (IsLine-blank t m l2 l3)))
parse-build_server (Reply.broadcast u t r m) ((w1, l1), (w2, l2), (w3, l3), (w4, l4)) =
    line-Reads (codes "BROADCAST") (u ++ b' ' ∷ (t ++ b' ' ∷ (r ++ b' ' ∷ m)))
      (codes "BROADCAST " ++ (u ++ b' ' ∷ (t ++ b' ' ∷ (r ++ b' ' ∷ m)))) _ refl
      (rw (parse_four_fields_complete _ _ _ _ u t r m w1 w2 w3 w4)) (simp append_assoc)
      (omega (arith, length-append {0}, w1.fits, w2.fits, w3.fits, w4.fits))
      (IsLine-append (codes "BROADCAST ") _ (omega arith)
        (IsLine-blank u _ l1 (IsLine-blank t _ l2 (IsLine-blank r m l3 l4))))
