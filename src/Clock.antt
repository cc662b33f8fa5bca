-- ===== src/Clock.antt =====
-- `format_timestamp` of src/common/utils.c. What `localtime_r` makes of a time depends on the time
-- zone of the machine, and is a parameter.
pub mod Word
use ai_chatbot.Base.{ℕ, ◌+◌, ◌/◌, ◌%◌, [], ◌∷◌, ◌++◌, Option, none, some}
use ai_chatbot.Text.{Bytes, codes, snprintf}

-- The fields of `struct tm` that are printed; the year and the month as they are printed.
pub record Tm : Type 0 where
  pub year : ℕ
  pub mon : ℕ
  pub mday : ℕ
  pub hour : ℕ
  pub min : ℕ
  pub sec : ℕ

abbrev pub digit : ℕ → ℕ
digit n = b'0' + n % 10

-- "%m", "%d", "%H", "%M" and "%S": two digits.
abbrev pub two_digits : ℕ → Bytes
two_digits n = digit (n / 10) ∷ digit n ∷ []

-- "%Y" of a year between 1000 and 9999.
abbrev pub four_digits : ℕ → Bytes
four_digits n = digit (n / 1000) ∷ digit (n / 100) ∷ digit (n / 10) ∷ digit n ∷ []

-- `strftime(buf, buflen, "%Y-%m-%dT%H:%M:%S", tm)` into 32 bytes, which always suffice.
unfoldable pub strftime : Tm → Bytes
strftime t =
    four_digits t.year
    ++ b'-'
      ∷ (two_digits t.mon
          ++ b'-'
            ∷ (two_digits t.mday
                ++ b'T'
                  ∷ (two_digits t.hour ++ b':' ∷ (two_digits t.min ++ b':' ∷ two_digits t.sec))))

unfoldable pub format_timestamp : (ℕ → Option Tm) → ℕ → ℕ → Bytes
format_timestamp localtime t buflen = elim (localtime t) [
  | none ↦ (snprintf buflen (codes "unknown")).1
  | some tm ↦ strftime tm
]
