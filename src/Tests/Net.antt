-- ===== src/Tests/Net.antt =====
-- Lines on a socket (src/common/utils.c and the readers of the server and the client).
use ai_chatbot.Base.{◌≡◌, List, [], ◌∷◌, ◌++◌, some, arith, length, ◌≤◌}
use ai_chatbot.Text.{Bytes, codes}
use ai_chatbot.Text.Trim.{IsLine}
use ai_chatbot.Status.{Status}
use ai_chatbot.Net.{Recv, Send, send_all, string_in, recv_line, server_recv_line, client_recv_line}
use ai_chatbot.Net.Lines.{Arrives, recv_line_lem, recv_line_ended}
use ai_chatbot.Net.Whole.{AllTake, takes, send_all_lem}

-- "hi" with an interruption between the two bytes.
abbrev hi : Recv → List Recv
hi last = Recv.byte b'h' ∷ Recv.interrupted ∷ Recv.byte b'i' ∷ last ∷ []

hi-Arrives : (last : Recv) → Arrives last (codes "hi") (hi last) []
hi-Arrives last = Arrives.byte (Arrives.again (Arrives.byte Arrives.end))

hi-IsLine : IsLine (codes "hi")
hi-IsLine = record { no_lf = ground arith; no_cr = ground arith }

recv_line_lem_example :
    (recv_line 2048 (hi (Recv.byte b'\n')) ≡ (some (Status.ok, codes "hi"), []))
    × (server_recv_line (codes "QUIT") 2048 (hi (Recv.byte b'\n'))
        ≡ (some (Status.ok, codes "hi"), []))
    × (client_recv_line 2048 (hi (Recv.byte b'\n')) ≡ (some (Status.ok, codes "hi"), []))
recv_line_lem_example =
    recv_line_lem (codes "QUIT") (codes "hi") 2048 (hi (Recv.byte b'\n')) [] hi-IsLine
      (ground arith) (omega arith) (hi-Arrives (Recv.byte b'\n'))

recv_line_ended_example :
    (recv_line 2048 (hi Recv.eof) ≡ (some (Status.ok, codes "hi"), []))
    × (server_recv_line (codes "QUIT") 2048 (hi Recv.eof)
        ≡ (some (Status.ok, codes "hi" ++ string_in (codes "IT")), []))
    × (client_recv_line 2048 (hi Recv.eof) ≡ (some (Status.io, []), []))
recv_line_ended_example =
    recv_line_ended (codes "QUIT") (codes "hi") 2048 (hi Recv.eof) [] hi-IsLine (ground arith)
      (λ e. cc) (omega arith) (hi-Arrives Recv.eof)

abbrev two_sends : List Send
two_sends = Send.accepted 1 ∷ Send.send_interrupted ∷ Send.accepted 1 ∷ []

send_all_lem_example :
    ((left : Bytes) × (codes "hi" ≡ (send_all (codes "hi") two_sends).1 ++ left))
    × ((send_all (codes "hi") two_sends).0 ≡ some Status.ok
        → (send_all (codes "hi") two_sends).1 ≡ codes "hi")
    × (AllTake two_sends
        → length (codes "hi") ≤ takes two_sends
        → (send_all (codes "hi") two_sends).0 ≡ some Status.ok)
send_all_lem_example = send_all_lem (codes "hi") two_sends
