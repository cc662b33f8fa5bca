-- ===== src/Net/Lines.antt =====
-- What the readers of lines in src/common/utils.c, src/server/server.c and src/client/client.c make of
-- the bytes that arrive.
use mathlib.Core.List.{append_assoc, append-nil}
use ai_chatbot.Base.{
  ℕ, zero, suc, ◌+◌, ◌-◌, ◌<◌, ◌≡◌, ◌≢◌, refl, false, List, [], ◌∷◌, ◌++◌, some, arith, length,
  drop, ltb, ap,
}
use ai_chatbot.Text.{Bytes, strchr}
use ai_chatbot.Text.Split.{Lacks, strchr-Lacks, Lacks-append}
use ai_chatbot.Text.Trim.{IsLine, trim_newline-line, trim_newline-id}
use ai_chatbot.Status.{Status}
use ai_chatbot.Net.{
  Recv, Read, recv_loop, string_in, terminated, recv_result, recv_line, server_recv_result,
  server_recv_line, client_recv_result, client_recv_line,
}

-- The bytes of a text arrive, with interruptions between them, and behind them `last`.
pub data Arrives (last : Recv) : Bytes → List Recv → List Recv → Type 0 where
  end : {rest : List Recv} → Arrives last [] (last ∷ rest) rest
  byte :
      {c : ℕ} {s : Bytes} {rs rest : List Recv}
      → Arrives last s rs rest
      → Arrives last (c ∷ s) (Recv.byte c ∷ rs) rest
  again :
      {s : Bytes} {rs rest : List Recv}
      → Arrives last s rs rest
      → Arrives last s (Recv.interrupted ∷ rs) rest

loop_line :
    {s : Bytes} {rs rest : List Recv} (n : ℕ) (acc : Bytes)
    → Arrives (Recv.byte b'\n') s rs rest
    → Lacks b'\n' s
    → length s < n
    → recv_loop n acc rs ≡ (Read.line (acc ++ (s ++ b'\n' ∷ [])), rest)
unfolding recv_loop
loop_line zero acc a l h = absurd (omega arith)
loop_line (suc n) acc Arrives.end l h = refl
loop_line (suc n) acc (Arrives.byte {c} {s} a) l h = ground (
  arith,
  l.0,
  loop_line n (acc ++ c ∷ []) a l.1 (omega arith),
  append_assoc acc (c ∷ []) (s ++ b'\n' ∷ []),
)
loop_line (suc n) acc (Arrives.again a) l h = loop_line (suc n) acc a l h

loop_ended :
    {s : Bytes} {rs rest : List Recv} (n : ℕ) (acc : Bytes)
    → Arrives Recv.eof s rs rest
    → Lacks b'\n' s
    → length s < n
    → recv_loop n acc rs ≡ (Read.ended (acc ++ s), rest)
unfolding recv_loop
loop_ended zero acc a l h = absurd (omega arith)
loop_ended (suc n) acc Arrives.end l h = rw append-nil refl
loop_ended (suc n) acc (Arrives.byte {c} {s} a) l h =
    ground
      (arith, l.0, loop_ended n (acc ++ c ∷ []) a l.1 (omega arith), append_assoc acc (c ∷ []) s)
loop_ended (suc n) acc (Arrives.again a) l h = loop_ended (suc n) acc a l h

pub string_in-Lacks : (s : Bytes) → Lacks 0 s → string_in s ≡ s
unfolding string_in
string_in-Lacks s l = ground (arith, strchr-Lacks 0 s l)

string_in-append : (s t : Bytes) → Lacks 0 s → string_in (s ++ t) ≡ s ++ string_in t
unfolding string_in strchr
string_in-append [] t l = refl
string_in-append (c ∷ s) t l = ground (arith, l.0, string_in-append s t l.1)

terminated-line :
    (s : Bytes) → IsLine s → Lacks 0 s → terminated (s ++ b'\n' ∷ []) ≡ some (Status.ok, s)
terminated-line s l z =
    let whole =
      string_in-Lacks (s ++ b'\n' ∷ []) (Lacks-append 0 s (b'\n' ∷ []) z (omega arith, tt)) in
    rw whole (ap (λ t. some (Status.ok, t)) (trim_newline-line s l))

-- A text of one line without a NUL, with its newline shorter than the buffer, is received as it is
-- by each of the three readers, whatever the buffer held and however often a signal interrupts, and
-- what follows the newline is left for the next call.
pub recv_line_lem :
    (mem text : Bytes) (buflen : ℕ) (rs rest : List Recv)
    → IsLine text
    → Lacks 0 text
    → length text + 1 < buflen
    → Arrives (Recv.byte b'\n') text rs rest
    → (recv_line buflen rs ≡ (some (Status.ok, text), rest))
      × (server_recv_line mem buflen rs ≡ (some (Status.ok, text), rest))
      × (client_recv_line buflen rs ≡ (some (Status.ok, text), rest))
unfolding recv_line server_recv_line client_recv_line recv_result server_recv_result
    client_recv_result
recv_line_lem mem text buflen rs rest l z h a =
    let room : ltb buflen 2 ≡ false = ground arith in
    let read = loop_line (buflen - 1) [] a l.no_lf (omega arith) in
    let said = ap (λ r. (r, rest)) (terminated-line text l z) in
    (rw (room, read) said, rw (room, read) said, rw read said)

-- When the input ends behind a part of a line, `recv_line` gives that part, `client_recv_line` fails,
-- and `server_recv_line` gives the part with the string that the buffer held from there on.
pub recv_line_ended :
    (mem text : Bytes) (buflen : ℕ) (rs rest : List Recv)
    → IsLine text
    → Lacks 0 text
    → text ≢ []
    → length text + 1 < buflen
    → Arrives Recv.eof text rs rest
    → (recv_line buflen rs ≡ (some (Status.ok, text), rest))
      × (server_recv_line mem buflen rs
          ≡ (some (Status.ok, text ++ string_in (drop (length text) mem)), rest))
      × (client_recv_line buflen rs ≡ (some (Status.io, []), rest))
unfolding recv_line server_recv_line client_recv_line recv_result server_recv_result
    client_recv_result
recv_line_ended mem [] buflen rs rest l z ne h a = absurd (ne refl)
recv_line_ended mem (c ∷ s) buflen rs rest l z ne h a =
    let text = c ∷ s in
    let room : ltb buflen 2 ≡ false = ground arith in
    let read = loop_ended (buflen - 1) [] a l.no_lf (omega arith) in
    let whole = string_in-Lacks text z in
    let cut : terminated text ≡ some (Status.ok, text) =
      rw whole (ap (λ t. some (Status.ok, t)) (trim_newline-id text l)) in
    let stale = string_in-append text (drop (length text) mem) z in
    (
      rw (room, read) (ap (λ r. (r, rest)) cut),
      rw (room, read) (ap (λ t. (some (Status.ok, t), rest)) stale),
      rw read refl,
    )
