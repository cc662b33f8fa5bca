-- ===== src/Protocol/Server/Fields.antt =====
-- The field helpers of the server lines of src/common/protocol.c on well-formed input, and lines
-- joined of fields.
use ai_chatbot.Base.{ℕ, ◌-◌, ◌<◌, ◌≡◌, ◌∷◌, ◌++◌, arith, length, take, take_all}
use ai_chatbot.Text.{Bytes}
use ai_chatbot.Text.Split.{strchr-append}
use ai_chatbot.Status.{Status}
use ai_chatbot.Protocol.Server.{
  parse_four_fields_rest_msg, parse_two_fields, parse_three_fields_msg,
}
use ai_chatbot.Protocol.Client.Grammar.{IsWord, IsRest, IsWord-bad_field, IsRest-bad_rest}

whole : (n : ℕ) (s : Bytes) → length s < n → take (n - 1) s ≡ s
whole n s h = take_all (n - 1) s (omega arith)

pub parse_four_fields_complete :
    (n1 n2 n3 n4 : ℕ) (a b c m : Bytes)
    → IsWord n1 a
    → IsWord n2 b
    → IsWord n3 c
    → IsRest n4 m
    → parse_four_fields_rest_msg (a ++ b' ' ∷ (b ++ b' ' ∷ (c ++ b' ' ∷ m))) n1 n2 n3 n4
      ≡ (Status.ok, a, b, c, m)
unfolding parse_four_fields_rest_msg
parse_four_fields_complete n1 n2 n3 n4 a b c m p q r s =
    rw (strchr-append b' ' a _ p.no_blank, parse_four_fields_rest_msg)
      (rw (IsWord-bad_field n1 a p) (
        rw (strchr-append b' ' b _ q.no_blank) (
          rw (IsWord-bad_field n2 b q) (
            rw (strchr-append b' ' c _ r.no_blank) (
              rw (IsWord-bad_field n3 c r)
                (rw (IsRest-bad_rest n4 m s) (rw (whole n4 m s.fits))))))))

pub parse_three_fields_complete :
    (n1 n2 n3 : ℕ) (a b m : Bytes)
    → IsWord n1 a
    → IsWord n2 b
    → IsRest n3 m
    → parse_three_fields_msg (a ++ b' ' ∷ (b ++ b' ' ∷ m)) n1 n2 n3 ≡ (Status.ok, a, b, m)
unfolding parse_three_fields_msg
parse_three_fields_complete n1 n2 n3 a b m p q s =
    rw (strchr-append b' ' a _ p.no_blank, parse_three_fields_msg)
      (rw (IsWord-bad_field n1 a p) (
        rw (strchr-append b' ' b _ q.no_blank)
          (rw (IsWord-bad_field n2 b q) (rw (IsRest-bad_rest n3 m s) (rw (whole n3 m s.fits))))))

pub parse_two_fields_complete :
    (n1 n2 : ℕ) (a m : Bytes)
    → IsWord n1 a
    → IsRest n2 m
    → parse_two_fields (a ++ b' ' ∷ m) n1 n2 ≡ (Status.ok, a, m)
unfolding parse_two_fields
parse_two_fields_complete n1 n2 a m p s =
    rw (strchr-append b' ' a _ p.no_blank, parse_two_fields)
      (rw (IsWord-bad_field n1 a p) (rw (IsRest-bad_rest n2 m s) (rw (whole n2 m s.fits))))
