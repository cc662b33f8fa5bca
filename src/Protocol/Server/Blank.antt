-- ===== src/Protocol/Server/Blank.antt =====
-- What `protocol_parse_server_line` of src/common/protocol.c reads from a broadcast of a room whose
-- name has a blank, which `JOIN_ROOM` accepts.
use mathlib.Core.List.{append_assoc}
use ai_chatbot.Base.{◌≡◌, ◌+◌, ◌<◌, ap, ◌∷◌, ◌++◌, arith, length, length-append}
use ai_chatbot.Text.{Bytes}
use ai_chatbot.Text.Trim.{trim_newline, IsLine, IsLine-blank}
use ai_chatbot.Status.{Status}
use ai_chatbot.Protocol.Client.Grammar.{IsWord, IsRest}
use ai_chatbot.Protocol.Server.{parse_server_line, build_server_broadcast}
use ai_chatbot.Protocol.Server.RoundTrip.{Reply, meaning, parse-build_server}

same_line :
    (user time r1 r2 text : Bytes)
    → build_server_broadcast 2048 user time (r1 ++ b' ' ∷ r2) text
      ≡ build_server_broadcast 2048 user time r1 (r2 ++ b' ' ∷ text)
unfolding build_server_broadcast
same_line user time r1 r2 text = simp append_assoc

-- Of a broadcast in the room `r1 r2`, with fields of one line that fit, the receiver reads that
-- the room is `r1` and the message is `r2`, a blank and the text: the rest of the name of the room
-- has become the head of the message.
pub broadcast_blank :
    (user time r1 r2 text : Bytes)
    → IsWord 32 user × IsLine user
    → IsWord 32 time × IsLine time
    → IsWord 32 r1 × IsLine r1
    → IsLine r2
    → IsRest 512 text × IsLine text
    → length r2 + length text < 511
    → let line = (build_server_broadcast 2048 user time (r1 ++ b' ' ∷ r2) text).1 in
      parse_server_line (trim_newline line)
      ≡ (Status.ok, meaning (Reply.broadcast user time r1 (r2 ++ b' ' ∷ text)))
broadcast_blank user time r1 r2 text wu wt wr l2 (rt, lt) fits =
    let rest : IsRest 512 (r2 ++ b' ' ∷ text) = record {
      not_nil = λ e. (let n = ap length e in absurd (omega (arith, length-append {0})));
      fits = omega (arith, length-append {0});
    } in
    rw (same_line user time r1 r2 text)
      (parse-build_server (Reply.broadcast user time r1 (r2 ++ b' ' ∷ text))
        (wu, wt, wr, (rest, IsLine-blank r2 text l2 lt))).1
