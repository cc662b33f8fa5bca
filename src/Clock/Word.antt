-- ===== src/Clock/Word.antt =====
-- The text that `format_timestamp` of src/common/utils.c writes, as a field of a line.
use ai_chatbot.Base.{ℕ, ◌<◌, ◌≢◌, Option, arith, Option-cases, inl, inr}
use ai_chatbot.Text.Split.{Lacks}
use ai_chatbot.Text.Trim.{IsLine}
use ai_chatbot.Protocol.Client.Grammar.{IsWord}
use ai_chatbot.Clock.{Tm, digit, strftime, format_timestamp}

digit_ne : (c n : ℕ) → c < 48 → digit n ≢ c
digit_ne c n h = λ e. omega arith

strftime-Lacks : (c : ℕ) (t : Tm) → c < 45 → Lacks c (strftime t)
unfolding strftime
strftime-Lacks c t h =
    let d : (n : ℕ) → digit n ≢ c = λ n. digit_ne c n (omega arith) in ground (arith, d)

-- Whatever `localtime_r` gives, the text of a time is not empty, has fewer than 32 bytes, and has
-- no blank, no newline and no carriage return in it, so that it is one field of one line.
pub format_timestamp-Word :
    (localtime : ℕ → Option Tm) (t : ℕ)
    → IsWord 32 (format_timestamp localtime t 32) × IsLine (format_timestamp localtime t 32)
unfolding format_timestamp strftime
format_timestamp-Word localtime t = elim (Option-cases (localtime t)) [
  | inl n ↦
      rw (n, format_timestamp)
        (
          record { no_blank = ground arith; not_nil = λ e. cc; fits = omega arith },
          record { no_lf = ground arith; no_cr = ground arith },
        )
  | inr (tm, e) ↦
      rw (e, format_timestamp)
        (
          record {
            no_blank = strftime-Lacks 32 tm (omega arith);
            not_nil = λ e. cc;
            fits = omega arith;
          },
          record {
            no_lf = strftime-Lacks 10 tm (omega arith);
            no_cr = strftime-Lacks 13 tm (omega arith);
          },
        )
]
