-- ===== src/Net.antt =====
-- Sending to a socket and reading a line from one: `send_all` and `recv_line` of
-- src/common/utils.c, `server_recv_line` of src/server/server.c and `client_recv_line` of
-- src/client/client.c. What the calls of `send` and `recv` give is a parameter, a list; behind its end
-- the call blocks.
pub mod Lines
pub mod Nonblocking
pub mod Whole
use ai_chatbot.Base.{
  ℕ, zero, suc, ◌-◌, List, [], ◌∷◌, ◌++◌, Option, none, some, ◌==◌, ltb, if◌then◌else◌, length,
  take, drop, Bool, true, false, ◌+◌, ◌/◌, ◌%◌,
}
use ai_chatbot.Text.{Bytes, strchr}
use ai_chatbot.Text.Trim.{trim_newline}
use ai_chatbot.Status.{Status}

-- One call of `recv` for one byte: the byte, -1 with EINTR, 0, or -1 with another error.
pub data Recv : Type 0 where
  byte : ℕ → Recv
  interrupted eof failed : Recv

-- How the loop ends, with the bytes that it wrote: behind a newline or the last place, at the end
-- of the input, with an error, or not yet.
pub data Read : Type 0 where
  line ended blocked : Bytes → Read
  failure : Read

-- The loop `while (pos < buflen - 1)`, with the number of places left.
unfoldable pub recv_loop : ℕ → Bytes → List Recv → Read × List Recv
recv_loop zero acc rs = (Read.line acc, rs)
recv_loop (suc n) acc [] = (Read.blocked acc, [])
recv_loop (suc n) acc (Recv.byte c ∷ rs) =
    let more = recv_loop n (acc ++ c ∷ []) rs in
    if c == b'\n' then (Read.line (acc ++ c ∷ []), rs) else more
recv_loop (suc n) acc (Recv.interrupted ∷ rs) = recv_loop (suc n) acc rs
recv_loop (suc n) acc (Recv.eof ∷ rs) = (Read.ended acc, rs)
recv_loop (suc n) acc (Recv.failed ∷ rs) = (Read.failure, rs)

-- The string that stands in a memory.
unfoldable pub string_in : Bytes → Bytes
string_in mem = elim (strchr 0 mem) [ none ↦ mem | some (s, _) ↦ s ]

-- The status and the string in `buf`; `none` while the call blocks.
abbrev pub Result : Type 0
Result = Option (Status × Bytes)

-- `buf[pos] = '\0'; trim_newline(buf); return CHAT_OK;`
abbrev pub terminated : Bytes → Result
terminated written = some (Status.ok, trim_newline (string_in written))

unfoldable pub recv_result : Read → Result
recv_result (Read.line acc) = terminated acc
recv_result (Read.ended []) = some (Status.io, [])
recv_result (Read.ended (c ∷ acc)) = terminated (c ∷ acc)
recv_result Read.failure = some (Status.io, [])
recv_result (Read.blocked acc) = none

unfoldable pub recv_line : ℕ → List Recv → Result × List Recv
recv_line buflen rs =
    if ltb buflen 2
    then (some (Status.err, []), rs)
    else (let (read, rest) = recv_loop (buflen - 1) [] rs in (recv_result read, rest))

-- At the end of the input the bytes stand in front of what `buf` held before.
unfoldable pub server_recv_result : Bytes → Read → Result
server_recv_result mem (Read.line acc) = terminated acc
server_recv_result mem (Read.ended []) = some (Status.io, [])
server_recv_result mem (Read.ended (c ∷ acc)) =
    some (Status.ok, string_in ((c ∷ acc) ++ drop (length (c ∷ acc)) mem))
server_recv_result mem Read.failure = some (Status.io, [])
server_recv_result mem (Read.blocked acc) = none

unfoldable pub server_recv_line : Bytes → ℕ → List Recv → Result × List Recv
server_recv_line mem buflen rs =
    if ltb buflen 2
    then (some (Status.err, []), rs)
    else (let (read, rest) = recv_loop (buflen - 1) [] rs in (server_recv_result mem read, rest))

unfoldable pub client_recv_result : Read → Result
client_recv_result (Read.line acc) = terminated acc
client_recv_result (Read.ended acc) = some (Status.io, [])
client_recv_result Read.failure = some (Status.io, [])
client_recv_result (Read.blocked acc) = none

-- The body behind the test of the descriptor.
unfoldable pub client_recv_line : ℕ → List Recv → Result × List Recv
client_recv_line buflen rs =
    let (read, rest) = recv_loop (buflen - 1) [] rs in (client_recv_result read, rest)

-- One call of `send`: the number of bytes taken, -1 with EINTR, or -1 with another error.
pub data Send : Type 0 where
  accepted : ℕ → Send
  send_interrupted send_failed : Send

-- `send_all` on the bytes that are left, with the bytes that `send` took; `none` while it blocks.
unfoldable pub send_all : Bytes → List Send → Option Status × Bytes
send_all [] rs = (some Status.ok, [])
send_all (c ∷ buf) [] = (none, [])
send_all (c ∷ buf) (Send.accepted zero ∷ rs) = (some Status.io, [])
send_all (c ∷ buf) (Send.accepted (suc n) ∷ rs) =
    let (status, wire) = send_all (drop n buf) rs in (status, c ∷ (take n buf ++ wire))
send_all (c ∷ buf) (Send.send_interrupted ∷ rs) = send_all (c ∷ buf) rs
send_all (c ∷ buf) (Send.send_failed ∷ rs) = (some Status.io, [])

-- The same loop, written out in src/server/server.c and src/client/client.c.
unfoldable pub server_send_all : Bytes → List Send → Option Status × Bytes
server_send_all buf rs = send_all buf rs

unfoldable pub client_send_all : Bytes → List Send → Option Status × Bytes
client_send_all buf rs = send_all buf rs

-- `flags |= O_NONBLOCK` and `flags &= ~O_NONBLOCK`, on the value that Linux gives O_NONBLOCK.
abbrev pub o_nonblock : ℕ
o_nonblock = 2048

unfoldable pub with_nonblock : Bool → ℕ → ℕ
with_nonblock true flags = if (flags / o_nonblock) % 2 == 0 then flags + o_nonblock else flags
with_nonblock false flags = if (flags / o_nonblock) % 2 == 0 then flags else flags - o_nonblock

-- On what `fcntl` with F_GETFL gives, and whether it takes the new flags: the status, and the flags that
-- the socket then has, if they were set.
unfoldable pub set_socket_nonblocking : Option ℕ → (ℕ → Bool) → Bool → Status × Option ℕ
set_socket_nonblocking none setfl enable = (Status.io, none)
set_socket_nonblocking (some flags) setfl enable =
    let new = with_nonblock enable flags in
    if setfl new then (Status.ok, some new) else (Status.io, none)
