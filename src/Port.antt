-- ===== src/Port.antt =====
-- `parse_port` of src/common/utils.c, with what it uses of `strtol`.
pub mod Grammar
use ai_chatbot.Base.{
  ℕ, ◌+◌, ◌-◌, ◌*◌, ◌%◌, ◌^◌, Bool, true, false, not, ◌&&◌, ◌||◌, [], ◌∷◌, Option, none, some, ◌==◌,
  leb, ltb, if◌then◌else◌,
}
use ai_chatbot.Text.{Bytes, is_empty, skip_space}

abbrev pub isdigit : ℕ → Bool
isdigit c = leb b'0' c && leb c b'9'

-- The value of the digits at the front behind those of `acc`, and what stands behind them.
unfoldable pub read_digits : ℕ → Bytes → ℕ × Bytes
read_digits acc [] = (acc, [])
read_digits acc (c ∷ s) =
    let more = read_digits (acc * 10 + (c - b'0')) s in if isdigit c then more else (acc, c ∷ s)

-- The digits behind the sign, if there is one at least: the sign, the value, and `*end`.
unfoldable pub read_number : Bool → Bytes → Option (Bool × ℕ × Bytes)
read_number negative [] = none
read_number negative (c ∷ s) =
    let (v, end) = read_digits 0 (c ∷ s) in if isdigit c then some (negative, v, end) else none

-- The digits behind white space, with a sign in front of them or none.
unfoldable pub read_signed : Bytes → Option (Bool × ℕ × Bytes)
read_signed [] = none
read_signed (c ∷ s) =
    if c == b'-'
    then read_number true s
    else if c == b'+'
    then read_number false s
    else read_number false (c ∷ s)

-- `strtol(s, &end, 10)` before the value is cut to a `long`; `none` is `end == s`.
unfoldable pub strtol : Bytes → Option (Bool × ℕ × Bytes)
strtol s = read_signed (skip_space s)

-- `errno != 0`: the value does not fit a `long` of 64 bits.
abbrev pub out_of_range : Bool → ℕ → Bool
out_of_range negative v = if negative then ltb (2 ^ 63) v else leb (2 ^ 63) v

-- The port in `*port_out`; `none` is CHAT_ERR.
unfoldable pub parse_port : Bytes → Option ℕ
parse_port s = elim (strtol s) [
  | none ↦ none
  | some (negative, v, end) ↦
      if out_of_range negative v || not (is_empty end)
      then none
      else if negative || v == 0 || ltb 65535 v
      then none
      else some (v % 2 ^ 16)
]
