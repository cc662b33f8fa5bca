-- ===== src/Tests/Protocol.antt =====
-- Lines of the protocol (src/common/protocol.c).
use ai_chatbot.Base.{◌≡◌, ◌∷◌, ◌++◌, ◌↔◌, arith}
use ai_chatbot.Text.{codes}
use ai_chatbot.Text.Trim.{IsLine, trim_newline}
use ai_chatbot.Status.{Status}
use ai_chatbot.Protocol.Client.{ClientCmd, parsed, parse_client_line}
use ai_chatbot.Protocol.Client.Grammar.{Grammar}
use ai_chatbot.Protocol.Client.Sound.{parse_client_line_iff}
use ai_chatbot.Protocol.Client.RoundTrip.{Reads, build_client, parse-build_client}
use ai_chatbot.Protocol.Server.{parse_server_line, build_server_broadcast}
use ai_chatbot.Protocol.Server.RoundTrip.{Reply, build_reply, meaning, parse-build_server}
use ai_chatbot.Protocol.Server.Blank.{broadcast_blank}
use ai_chatbot.Protocol.Client.Grammar.{IsWord}
use ai_chatbot.Tests.Data.{alice, lobby, den, hello, alice-IsWord, lobby-IsWord, hello-IsRest}

parse_client_line_iff_example :
    (parse_client_line (codes "PM alice hello all") ≡ (Status.ok, parsed ClientCmd.pm alice hello))
    ↔ Grammar (codes "PM alice hello all") (parsed ClientCmd.pm alice hello)
parse_client_line_iff_example =
    parse_client_line_iff (codes "PM alice hello all") (parsed ClientCmd.pm alice hello)

parse-build_client_example :
    Reads (build_client ClientCmd.pm alice hello) (parsed ClientCmd.pm alice hello)
parse-build_client_example =
    parse-build_client ClientCmd.pm alice hello (alice-IsWord.0, alice-IsWord.1, hello-IsRest)

time-IsWord : IsWord 32 (codes "12:00") × IsLine (codes "12:00")
time-IsWord = (
  record { no_blank = ground arith; not_nil = λ e. cc; fits = omega arith },
  record { no_lf = ground arith; no_cr = ground arith },
)

parse-build_server_example :
    ((build_reply (Reply.broadcast alice (codes "12:00") lobby hello)).0 ≡ Status.ok)
    × (parse_server_line
          (trim_newline (build_reply (Reply.broadcast alice (codes "12:00") lobby hello)).1)
        ≡ (Status.ok, meaning (Reply.broadcast alice (codes "12:00") lobby hello)))
parse-build_server_example =
    parse-build_server (Reply.broadcast alice (codes "12:00") lobby hello)
      (alice-IsWord, time-IsWord, lobby-IsWord, hello-IsRest)

broadcast_blank_example :
    parse_server_line (
      trim_newline
        (build_server_broadcast 2048 alice (codes "alice") (lobby ++ b' ' ∷ den) hello).1)
    ≡ (Status.ok, meaning (Reply.broadcast alice (codes "alice") lobby (den ++ b' ' ∷ hello)))
broadcast_blank_example =
    broadcast_blank alice (codes "alice") lobby den hello alice-IsWord alice-IsWord lobby-IsWord
      (record { no_lf = ground arith; no_cr = ground arith }) hello-IsRest (omega arith)
