-- ===== src/Text.antt =====
-- C strings as the code under src/ uses them: `strchr`, `strcmp`, `strncpy`, `snprintf` of the
-- common and server files, and `trim_newline` of src/common/utils.c.
-- A string is the list of its bytes before the terminating NUL.
pub mod Split
pub mod Trim
pub mod Write
use Prim.Native.Char.{code}
use Prim.Native.String.{String}
use ai_chatbot.Base.{
  ◌||◌, ℕ, ◌-◌, ◌≡◌, refl, Bool, true, false, ◌&&◌, ◌↔◌, List, [], ◌∷◌, ◌++◌, Option, none, some,
  arith, ◌==◌, ltb, leb, if◌then◌else◌, length, take,
}
use mathlib.Core.Option

abbrev pub Bytes : Type 0
Bytes = List ℕ

-- The bytes of a literal; every literal of the source is ASCII.
abbrev pub codes : String → Bytes
codes String.[] = []
codes (String.◌∷◌ c s) = code c ∷ codes s

-- `strcmp(a, b) == 0`
unfoldable pub str_eq : Bytes → Bytes → Bool
str_eq [] [] = true
str_eq (x ∷ a) (y ∷ b) = (x == y) && str_eq a b
str_eq _ _ = false

pub str_eq_iff : (a b : Bytes) → (str_eq a b ≡ true) ↔ (a ≡ b)
unfolding str_eq
str_eq_iff (x ∷ a) (y ∷ b) = ground (arith, str_eq_iff a b)
str_eq_iff _ _ = ground arith

-- `s[0] == '\0'`
abbrev pub is_empty : Bytes → Bool
is_empty [] = true
is_empty (_ ∷ _) = false

-- `strchr(s, c)`: the bytes before the first `c`, and those behind it.
unfoldable pub strchr : ℕ → Bytes → Option (Bytes × Bytes)
strchr c [] = none
strchr c (x ∷ s) = if x == c then some ([], s) else Option.map (λ (a, b). (x ∷ a, b)) (strchr c s)

-- `strncpy(dst, src, n)` where the byte `dst[n]` is NUL already, or is set to NUL afterwards.
abbrev pub strncpy : ℕ → Bytes → Bytes
strncpy n src = take n src

-- `strncpy(dst, src, n)` where nothing is written to `dst[n]`: a source of `n` bytes or more leaves
-- no NUL behind, and the string runs on with `spill`, the string that the memory holds at `dst + n`.
unfoldable pub strncpy_over : ℕ → Bytes → Bytes → Bytes
strncpy_over n spill src = if ltb (length src) n then src else take n src ++ spill

-- `snprintf(buf, buflen, ...)` of a text: what the buffer holds, and whether it was cut.
abbrev pub snprintf : ℕ → Bytes → Bool × Bytes
snprintf buflen text =
    if leb buflen (length text) then (true, take (buflen - 1) text) else (false, text)

-- `isspace` in the C locale: the blank, and tab, newline, vertical tab, form feed and return.
abbrev pub is_space : ℕ → Bool
is_space c = (c == b' ') || (leb 9 c && leb c 13)

unfoldable pub skip_space : Bytes → Bytes
skip_space [] = []
skip_space (c ∷ s) = if is_space c then skip_space s else c ∷ s
