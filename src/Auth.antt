-- ===== src/Auth.antt =====
-- src/server/auth.c: the user database and the check of a password. OpenSSL is a parameter: a digest
-- of the password, or its failure.
pub mod Entry
pub mod Load
pub mod Verify
use ai_chatbot.Base.{
  ℕ, zero, suc, ◌+◌, ◌-◌, ◌/◌, ◌%◌, Bool, true, false, ◌&&◌, ◌||◌, List, [], ◌∷◌, ◌++◌, map, Option,
  none, some, ◌==◌, ltb, leb, if◌then◌else◌, length, not,
}
use ai_chatbot.Text.{is_space, skip_space, Bytes, codes, str_eq, strchr, strncpy, is_empty}
use ai_chatbot.Status.{Status, max_username_len, is_ok}

-- SHA256_HEX_LEN
abbrev pub sha256_hex_len : ℕ
sha256_hex_len = 65

-- What the code asks of OpenSSL: a context, and the digest of a text.
pub record Evp : Type 0 where
  pub ctx_new : Bool
  pub digest : Bytes → Option Bytes

-- `cut` at the first byte `c`, as `*nl = '\0'` does.
unfoldable pub cut_at : ℕ → Bytes → Bytes
cut_at c s = elim (strchr c s) [ none ↦ s | some (a, _) ↦ a ]

unfoldable pub strip_line : Bytes → Bytes
unfolding cut_at
strip_line s = cut_at b'\r' (cut_at b'\n' s)

abbrev pub hex_digit : ℕ → ℕ
hex_digit n = if ltb n 10 then b'0' + n else b'a' + (n - 10)

-- The loop of `snprintf(out_hex + i * 2, 3, "%02x", digest[i])`.
unfoldable pub hex : Bytes → Bytes
hex [] = []
hex (b ∷ bs) = hex_digit (b / 16) ∷ hex_digit (b % 16) ∷ hex bs

-- The status, and what `out_hex` holds.
unfoldable pub auth_hash_password : Evp → Bytes → ℕ → Status × Bytes
auth_hash_password evp password out_len =
    if ltb out_len sha256_hex_len
    then (Status.err, [])
    else if not evp.ctx_new
    then (Status.nomem, [])
    else elim (evp.digest password) [ none ↦ (Status.err, []) | some d ↦ (Status.ok, hex d) ]

-- `user_record_t`
pub record User : Type 0 where
  pub username : Bytes
  pub password_hash : Bytes
  pub is_admin : Bool

-- "%N[^:]" of scanf: up to `n` bytes that are not a colon, and what follows.
unfoldable pub scan_field : ℕ → Bytes → Bytes × Bytes
scan_field zero s = ([], s)
scan_field (suc n) [] = ([], [])
scan_field (suc n) (c ∷ s) =
    let (a, rest) = scan_field n s in if c == b':' then ([], c ∷ s) else (c ∷ a, rest)

-- "%Ns" behind the white space: up to `n` bytes that are no white space.
unfoldable pub scan_word : ℕ → Bytes → Bytes
scan_word zero s = []
scan_word (suc n) [] = []
scan_word (suc n) (c ∷ s) = if is_space c then [] else c ∷ scan_word n s

-- The literal ":" of the format, and then a field of at least one byte.
abbrev pub behind_colon : Bytes → Option Bytes
behind_colon [] = none
behind_colon (c ∷ s) = if c == b':' then some s else none

-- `sscanf(line, "%31[^:]:%64[^:]:%7s", ...) == 3`, with the three fields.
unfoldable pub scan_user : Bytes → Option (Bytes × Bytes × Bytes)
scan_user line =
    let (user, rest1) = scan_field 31 line in
    if is_empty user then none else elim (behind_colon rest1) [
      | none ↦ none
      | some s1 ↦
          let (hash, rest2) = scan_field 64 s1 in
          if is_empty hash then none else elim (behind_colon rest2) [
            | none ↦ none
            | some s2 ↦
                let flag = scan_word 7 (skip_space s2) in
                if is_empty flag then none else some (user, hash, flag)
          ]
    ]

abbrev pub to_lower : ℕ → ℕ
to_lower c = if leb b'A' c && leb c b'Z' then c + 32 else c

-- `strcasecmp(a, b) == 0`
abbrev pub case_eq : Bytes → Bytes → Bool
case_eq a b = str_eq (map to_lower a) (map to_lower b)

abbrev pub starts_with_one : Bytes → Bool
starts_with_one [] = false
starts_with_one (c ∷ _) = c == b'1'

unfoldable pub admin_of_flag : Bytes → Bool
admin_of_flag flag =
    starts_with_one flag
    || case_eq flag (codes "admin")
    || case_eq flag (codes "true")
    || case_eq flag (codes "yes")

-- `line[0] == '#' || line[0] == '\0'`
abbrev pub is_comment : Bytes → Bool
is_comment [] = true
is_comment (c ∷ _) = c == b'#'

-- One line of the file: a user, or nothing. `fgets` takes a NUL like any other byte, and the string in the
-- buffer ends there.
unfoldable pub parse_user : Bytes → Option User
parse_user line =
    let s = strip_line (cut_at 0 line) in
    if is_comment s then none else elim (scan_user s) [
      | none ↦ none
      | some (user, hash, flag) ↦ some (record {
        username = strncpy (max_username_len - 1) user;
        password_hash = strncpy (sha256_hex_len - 1) hash;
        is_admin = admin_of_flag flag;
      })
    ]

-- The lines that `fgets(line, 512, fp)` gives: each ends behind a newline, or after 511 bytes. `acc`
-- is what was read of the line, and `room` the number of bytes that it can still take.
unfoldable pub fgets_lines : Bytes → ℕ → Bytes → List Bytes
fgets_lines acc room [] = if is_empty acc then [] else acc ∷ []
fgets_lines acc room (c ∷ s) =
    let line = acc ++ c ∷ [] in
    let full = line ∷ fgets_lines [] 511 s in
    let more = fgets_lines line (room - 1) s in if c == b'\n' || leb room 1 then full else more

-- The loop over the lines; `mem` says whether the `malloc` for the user of that number succeeds, and
-- `none` is CHAT_ERR_NOMEM. The list has the user read last in front.
unfoldable pub load_users : (ℕ → Bool) → List Bytes → List User → Option (List User)
load_users mem [] users = some users
load_users mem (line ∷ lines) users = elim (parse_user line) [
  | none ↦ load_users mem lines users
  | some u ↦ elim (mem (length users)) [ false ↦ none | true ↦ load_users mem lines (u ∷ users) ]
]

-- `user_count == 0` is an error.
abbrev pub loaded : List User → Status × List User
loaded [] = (Status.err, [])
loaded (u ∷ us) = (Status.ok, u ∷ us)

-- `auth_init`: `file` is what the file holds, `none` if it cannot be opened.
unfoldable pub auth_init : (ℕ → Bool) → Option Bytes → Status × List User
auth_init mem none = (Status.err, [])
auth_init mem (some text) = elim (load_users mem (fgets_lines [] 511 text) []) [
  | none ↦ (Status.nomem, [])
  | some users ↦ loaded users
]

-- The scan of the list for a name.
unfoldable pub find_user : Bytes → List User → Option User
find_user name [] = none
find_user name (u ∷ us) = if str_eq u.username name then some u else find_user name us

unfoldable pub auth_verify : Evp → List User → Bytes → Bytes → Status
auth_verify evp db username password =
    let (rc, computed) = auth_hash_password evp password sha256_hex_len in
    if not (is_ok rc) then Status.err else elim (find_user username db) [
      | none ↦ Status.auth
      | some u ↦ if str_eq u.password_hash computed then Status.ok else Status.auth
    ]

unfoldable pub auth_is_admin : List User → Bytes → Bool
auth_is_admin db username = elim (find_user username db) [ none ↦ false | some u ↦ u.is_admin ]
