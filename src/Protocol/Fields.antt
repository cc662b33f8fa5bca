-- ===== src/Protocol/Fields.antt =====
-- The static helpers of src/common/protocol.c that split a line into fields. The buffers that they
-- fill were zeroed by the caller's `memset`, so a field that is not written is the empty string.
use ai_chatbot.Base.{ℕ, ◌-◌, Bool, ◌||◌, [], Option, none, some, ◌==◌, leb, if◌then◌else◌, length}
use ai_chatbot.Text.{Bytes, strchr, strncpy, is_empty, snprintf}
use ai_chatbot.Status.{Status}

-- The command word and what stands behind the blank; `none` is CHAT_ERR_PROTOCOL.
unfoldable pub split_first_token : Bytes → ℕ → Option (Bytes × Bytes)
split_first_token line cmd_len = elim (strchr b' ' line) [
  | none ↦ if leb cmd_len (length line) then none else some (strncpy (cmd_len - 1) line, [])
  | some (cmd, rest) ↦ if leb cmd_len (length cmd) then none else some (cmd, rest)
]

-- `len == 0 || len >= size`, the test on each field that a blank ends.
abbrev pub bad_field : Bytes → ℕ → Bool
bad_field f size = length f == 0 || leb size (length f)

-- `msg[0] == '\0' || strlen(msg) >= size`, the test on the field that the line's end ends.
abbrev pub bad_rest : Bytes → ℕ → Bool
bad_rest msg size = is_empty msg || leb size (length msg)

unfoldable pub parse_two_tokens : Bytes → ℕ → ℕ → Status × Bytes × Bytes
parse_two_tokens rest a_len b_len = elim (strchr b' ' rest) [
  | none ↦ (Status.protocol, [], [])
  | some (a, msg) ↦
      if bad_field a a_len
      then (Status.protocol, [], [])
      else if bad_rest msg b_len
      then (Status.protocol, a, [])
      else (Status.ok, a, strncpy (b_len - 1) msg)
]

-- A line built by `snprintf(buf, buflen, ...)`: the status of the builder and the buffer.
unfoldable pub build : ℕ → Bytes → Status × Bytes
build buflen text =
    let (cut, buf) = snprintf buflen text in (if cut then Status.err else Status.ok, buf)
