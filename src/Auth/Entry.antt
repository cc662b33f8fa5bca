-- ===== src/Auth/Entry.antt =====
-- A line `user:hash:flag` of the database file, as src/server/auth.c reads it.
use ai_chatbot.Base.{
  ℕ, zero, suc, ◌≤◌, ◌≡◌, ◌≢◌, refl, false, [], ◌∷◌, ◌++◌, some, length, arith, ap, take_all,
}
use ai_chatbot.Text.{Bytes, is_empty, is_space, skip_space}
use ai_chatbot.Text.Split.{Lacks, strchr-Lacks}
use ai_chatbot.Text.Trim.{IsLine}
use ai_chatbot.Auth.{
  scan_field, scan_word, scan_user, parse_user, admin_of_flag, strip_line, is_comment, cut_at,
}

scan_field-append :
    (n : ℕ) (a rest : Bytes)
    → Lacks b':' a
    → length a ≤ n
    → scan_field n (a ++ b':' ∷ rest) ≡ (a, b':' ∷ rest)
unfolding scan_field
scan_field-append zero [] rest l h = refl
scan_field-append zero (c ∷ a) rest l h = absurd (omega arith)
scan_field-append (suc n) [] rest l h = refl
scan_field-append (suc n) (c ∷ a) rest l h = ground (arith, scan_field-append n a rest l.1, l.0)

-- No white space stands in the text.
abbrev pub NoSpace : Bytes → Type 0
NoSpace [] = Unit
NoSpace (c ∷ s) = (is_space c ≡ false) × NoSpace s

scan_word-NoSpace : (n : ℕ) (s : Bytes) → NoSpace s → length s ≤ n → scan_word n s ≡ s
unfolding scan_word
scan_word-NoSpace zero [] w h = refl
scan_word-NoSpace zero (c ∷ s) w h = absurd (omega arith)
scan_word-NoSpace (suc n) [] w h = refl
scan_word-NoSpace (suc n) (c ∷ s) w h =
    rw w.0 (ap (λ t. c ∷ t) (scan_word-NoSpace n s w.1 (omega arith)))

skip_space-NoSpace : (s : Bytes) → NoSpace s → skip_space s ≡ s
unfolding skip_space
skip_space-NoSpace [] w = refl
skip_space-NoSpace (c ∷ s) w = rw w.0

strip_line-IsLine : (s : Bytes) → IsLine s → strip_line s ≡ s
unfolding strip_line cut_at
strip_line-IsLine s l = ground (arith, strchr-Lacks b'\n' s l.no_lf, strchr-Lacks b'\r' s l.no_cr)

cut_at-Lacks : (c : ℕ) (s : Bytes) → Lacks c s → cut_at c s ≡ s
unfolding cut_at
cut_at-Lacks c s l = ground (arith, strchr-Lacks c s l)

-- A line that the program can read back.
pub record IsEntry (user hash flag : Bytes) : Type 0 where
  pub user_lacks : Lacks b':' user
  pub user_first : is_comment user ≡ false
  pub user_fits : length user ≤ 31
  pub hash_lacks : Lacks b':' hash
  pub hash_not_nil : hash ≢ []
  pub hash_fits : length hash ≤ 64
  pub flag_word : NoSpace flag
  pub flag_not_nil : flag ≢ []
  pub flag_fits : length flag ≤ 7
  pub line : IsLine (user ++ b':' ∷ (hash ++ b':' ∷ flag))
  pub no_nul : Lacks 0 (user ++ b':' ∷ (hash ++ b':' ∷ flag))

not_empty : (s : Bytes) → s ≢ [] → is_empty s ≡ false
not_empty [] h = absurd (h refl)
not_empty (c ∷ s) h = refl

scan_user-line :
    (user hash flag : Bytes)
    → IsEntry user hash flag
    → scan_user (user ++ b':' ∷ (hash ++ b':' ∷ flag)) ≡ some (user, hash, flag)
unfolding scan_user
scan_user-line [] hash flag e = cc (e.user_first)
scan_user-line (c ∷ user) hash flag e =
    let first = scan_field-append 31 (c ∷ user) (hash ++ b':' ∷ flag) e.user_lacks e.user_fits in
    let second = scan_field-append 64 hash flag e.hash_lacks e.hash_fits in
    rw first (
      rw second (
        rw (not_empty hash e.hash_not_nil) (
          rw (skip_space-NoSpace flag e.flag_word) (
            rw (scan_word-NoSpace 7 flag e.flag_word e.flag_fits)
              (rw (not_empty flag e.flag_not_nil) (λ i. some ((first i).0, (second i).0, flag)))))))

-- A well-formed line of the database is read as the user that it states: the name and the hash whole,
-- and the right that the flag gives.
pub parse_user-line :
    (user hash flag : Bytes)
    → IsEntry user hash flag
    → parse_user (user ++ b':' ∷ (hash ++ b':' ∷ flag))
      ≡ some (record { username = user; password_hash = hash; is_admin = admin_of_flag flag })
unfolding parse_user
parse_user-line [] hash flag e = cc (e.user_first)
parse_user-line (c ∷ user) hash flag e = rw (cut_at-Lacks 0 _ e.no_nul) (
    rw (strip_line-IsLine _ e.line) (
      rw e.user_first (
        rw (scan_user-line (c ∷ user) hash flag e)
          (rw (take_all 31 (c ∷ user) e.user_fits, take_all 64 hash e.hash_fits)))))
