-- ===== src/Tests/Auth.antt =====
-- The users of src/server/auth.c.
use ai_chatbot.Base.{◌≡◌, ◌↔◌, refl, true, false, [], ◌∷◌, ◌++◌, some, none, some_inj, arith}
use ai_chatbot.Text.{skip_space, Bytes, codes, str_eq, strchr}
use ai_chatbot.Status.{Status}
use ai_chatbot.Auth.{
  Evp, User, parse_user, auth_init, auth_verify, find_user, fgets_lines, hex, load_users, scan_user,
  scan_field, scan_word, strip_line, cut_at, auth_hash_password,
}
use ai_chatbot.Auth.Verify.{Verified, AreBytes, auth_verify_iff}
use ai_chatbot.Auth.Load.{last_user, auth_init_lem}
use ai_chatbot.Auth.Entry.{IsEntry}
use ai_chatbot.Tests.Data.{carol}

abbrev line : Bytes
line = codes "carol:6162:1"

carol-IsEntry : IsEntry carol (codes "6162") (codes "1")
carol-IsEntry = record {
  user_lacks = ground arith;
  user_first = refl;
  user_fits = omega arith;
  hash_lacks = ground arith;
  hash_not_nil = λ e. cc;
  hash_fits = omega arith;
  flag_word = ground arith;
  flag_not_nil = λ e. cc;
  flag_fits = omega arith;
  line = record { no_lf = ground arith; no_cr = ground arith };
  no_nul = ground arith;
}

started : (auth_init (λ n. true) (some line)).0 ≡ Status.ok
unfolding auth_init fgets_lines load_users parse_user scan_user scan_field scan_word skip_space
    strip_line cut_at strchr
started = refl

auth_init_lem_example :
    find_user carol (auth_init (λ n. true) (some line)).1
    ≡ last_user carol (fgets_lines [] 511 line)
auth_init_lem_example = auth_init_lem (λ n. true) line carol started

-- A digest that is always the same byte.
abbrev constant : Evp
constant = record { ctx_new = true; digest = λ p. some (b'a' ∷ []) }

abbrev dave : User
dave = record { username = codes "dave"; password_hash = codes "61"; is_admin = false }

dave_found : find_user (codes "dave") (dave ∷ []) ≡ some dave
unfolding find_user str_eq
dave_found = refl

dave_hash : codes "61" ≡ hex (b'a' ∷ [])
unfolding hex
dave_hash = refl

dave_verified : auth_verify constant (dave ∷ []) (codes "dave") (codes "pw") ≡ Status.ok
unfolding auth_verify auth_hash_password find_user hex str_eq
dave_verified = refl

byte-AreBytes : AreBytes (b'a' ∷ [])
byte-AreBytes = (omega arith, tt)

constant-AreBytes : (p e : Bytes) → constant.digest p ≡ some e → AreBytes e
constant-AreBytes p e h = rw (← some_inj h) byte-AreBytes

auth_verify_iff_example :
    (auth_verify constant (dave ∷ []) (codes "dave") (codes "pw") ≡ Status.ok)
    ↔ Verified constant (dave ∷ []) (codes "dave") (codes "pw")
auth_verify_iff_example =
    auth_verify_iff constant (dave ∷ []) (codes "dave") (codes "pw") constant-AreBytes

-- A line with a NUL has no third field behind it, and is passed over.
nul_skipped : parse_user (codes "bob:h2" ++ 0 ∷ codes ":1\n") ≡ none
unfolding parse_user scan_user scan_field scan_word skip_space strip_line cut_at strchr
nul_skipped = refl
