-- ===== src/Auth/Verify.antt =====
-- `auth_verify` of src/server/auth.c: who is let in.
use ai_chatbot.Base.{
  ℕ, ◌*◌, ◌/◌, ◌%◌, ◌<◌, ◌≡◌, refl, true, List, [], ◌∷◌, some, length, arith, Option-cases,
  Bool-cases, inl, inr, ◌↔◌, ap, sym, ◌∙◌, some_inj, ◌+◌, ◌++◌, ◌⊎◌, ◌≢◌, ltb,
}
use ai_chatbot.Text.{Bytes, str_eq, str_eq_iff}
use ai_chatbot.Status.{Status}
use ai_chatbot.Auth.{Evp, User, hex_digit, hex, auth_hash_password, find_user, auth_verify}

-- The text is a string of bytes.
abbrev pub AreBytes : Bytes → Type 0
AreBytes [] = Unit
AreBytes (b ∷ bs) = (b < 256) × AreBytes bs

pub length-hex : (bs : Bytes) → length (hex bs) ≡ 2 * length bs
unfolding hex
length-hex [] = refl
length-hex (b ∷ bs) = omega (arith, length-hex bs)

hex_digit-injective : (a b : ℕ) → a < 16 → b < 16 → hex_digit a ≡ hex_digit b → a ≡ b
hex_digit-injective a b h k e = ground arith

abbrev head_or : ℕ → Bytes → ℕ
head_or d [] = d
head_or d (c ∷ _) = c

abbrev tail_of : Bytes → Bytes
tail_of [] = []
tail_of (_ ∷ s) = s

-- Two digests with the same hexadecimal text are the same.
pub hex-injective : (xs bs : Bytes) → AreBytes xs → AreBytes bs → hex xs ≡ hex bs → xs ≡ bs
unfolding hex
hex-injective [] [] h k e = refl
hex-injective [] (b ∷ bs) h k e = cc
hex-injective (a ∷ xs) [] h k e = cc
hex-injective (a ∷ xs) (b ∷ bs) h k e =
    let hi =
      hex_digit-injective (a / 16) (b / 16) (omega (arith, h.0)) (omega (arith, k.0))
        (ap (head_or 0) e) in
    let lo =
      hex_digit-injective (a % 16) (b % 16) (omega arith) (omega arith)
        (ap (λ s. head_or 0 (tail_of s)) e) in
    let rest = hex-injective xs bs h.1 k.1 (ap (λ s. tail_of (tail_of s)) e) in
    let first : a ≡ b = omega arith in cc

-- What a successful check has found, in the terms of the code.
record Checked (evp : Evp) (db : List User) (name password : Bytes) : Type 0 where
  user : User
  digest : Bytes
  found : find_user name db ≡ some user
  context : evp.ctx_new ≡ true
  digested : evp.digest password ≡ some digest
  same : user.password_hash ≡ hex digest

auth_verify-Checked :
    (evp : Evp) (db : List User) (name password : Bytes)
    → (auth_verify evp db name password ≡ Status.ok) ↔ Checked evp db name password
unfolding auth_verify auth_hash_password
auth_verify-Checked evp db name password = (forth, back)
  where
    forth : auth_verify evp db name password ≡ Status.ok → Checked evp db name password
    forth e = elim (Bool-cases evp.ctx_new) [
      | inr failed ↦ ground arith
      | inl made ↦ elim (Option-cases (evp.digest password)) [
        | inl failed ↦ ground arith
        | inr (d, digested) ↦ elim (Option-cases (find_user name db)) [
          | inl failed ↦ ground arith
          | inr (u, found) ↦ record {
            user = u;
            digest = d;
            found = found;
            context = made;
            digested = digested;
            same = ground (arith, str_eq_iff u.password_hash (hex d));
          }
        ]
      ]
    ]

    back : Checked evp db name password → auth_verify evp db name password ≡ Status.ok
    back v = ground (
      arith,
      v.found,
      v.context,
      v.digested,
      str_eq_iff v.user.password_hash (hex v.digest),
      v.same,
    )

-- The byte is the hexadecimal digit of the number, in lower case.
abbrev pub IsDigit : ℕ → ℕ → Type 0
IsDigit c n = ((n < 10) × (c ≡ b'0' + n)) ⊎ ((9 < n) × (n < 16) × (c + 10 ≡ b'a' + n))

-- The text is the hexadecimal text of the bytes: two digits for each, the higher one first.
pub data IsHex : Bytes → Bytes → Type 0 where
  nil : IsHex [] []
  byte :
      (b hi lo c d : ℕ) (bs text : Bytes)
      → b ≡ 16 * hi + lo
      → IsDigit c hi
      → IsDigit d lo
      → IsHex bs text
      → IsHex (b ∷ bs) (c ∷ d ∷ text)

hex_digit-IsDigit : (n : ℕ) → n < 16 → IsDigit (hex_digit n) n
hex_digit-IsDigit n h = elim (Bool-cases (ltb n 10)) [
  | inl low ↦ inl (ground arith)
  | inr high ↦ inr (ground arith)
]

IsDigit-hex_digit : (c n : ℕ) → IsDigit c n → (n < 16) × (c ≡ hex_digit n)
IsDigit-hex_digit c n (inl h) = ground arith
IsDigit-hex_digit c n (inr h) = ground arith

hex-IsHex : (bs : Bytes) → AreBytes bs → IsHex bs (hex bs)
unfolding hex
hex-IsHex [] h = IsHex.nil
hex-IsHex (b ∷ bs) h =
    IsHex.byte b (b / 16) (b % 16) _ _ bs (hex bs) (omega arith)
      (hex_digit-IsDigit (b / 16) (omega (arith, h.0))) (hex_digit-IsDigit (b % 16) (omega arith))
      (hex-IsHex bs h.1)

IsHex-hex : {bs text : Bytes} → IsHex bs text → text ≡ hex bs
unfolding hex
IsHex-hex IsHex.nil = refl
IsHex-hex (IsHex.byte b hi lo c d bs text e u v h) =
    let (fu, eu) = IsDigit-hex_digit c hi u in
    let (fv, ev) = IsDigit-hex_digit d lo v in
    let ehi : hi ≡ b / 16 = omega (arith, e, fv) in
    let elo : lo ≡ b % 16 = omega (arith, e, fv) in cc (eu, ev, ehi, elo, IsHex-hex h)

-- The user is the first one of the list with the name.
abbrev pub NoneNamed : Bytes → List User → Type 0
NoneNamed name [] = Unit
NoneNamed name (u ∷ us) = (u.username ≢ name) × NoneNamed name us

pub record IsFirst (db : List User) (name : Bytes) (user : User) : Type 0 where
  pub before : List User
  pub after : List User
  pub split : db ≡ before ++ user ∷ after
  pub named : user.username ≡ name
  pub none_before : NoneNamed name before

find_user-IsFirst :
    (name : Bytes) (db : List User) (u : User) → find_user name db ≡ some u → IsFirst db name u
unfolding find_user
find_user-IsFirst name [] u e = cc
find_user-IsFirst name (v ∷ db) u e = elim (Bool-cases (str_eq v.username name)) [
  | inl same ↦
      let this : v ≡ u = some_inj (rw same at e) in
      record {
        before = [];
        after = db;
        split = ap (λ w. w ∷ db) this;
        named = ap (λ (w : User). w.username) (sym this) ∙ (str_eq_iff v.username name).0 same;
        none_before = tt;
      }
  | inr other ↦
      let f = find_user-IsFirst name db u (rw other at e) in
      record {
        before = v ∷ f.before;
        after = f.after;
        split = ap (λ ws. v ∷ ws) f.split;
        named = f.named;
        none_before = ((λ q. cc ((str_eq_iff v.username name).1 q, other)), f.none_before);
      }
]

find_user-append :
    (name : Bytes) (before after : List User) (u : User)
    → NoneNamed name before
    → u.username ≡ name
    → find_user name (before ++ u ∷ after) ≡ some u
unfolding find_user
find_user-append name [] after u none_before named = ground (arith, str_eq_iff u.username name)
find_user-append name (v ∷ before) after u (ne, rest) named =
    ground (arith, str_eq_iff v.username name, find_user-append name before after u rest named)

-- What a successful check has found.
pub record Verified (evp : Evp) (db : List User) (name password : Bytes) : Type 0 where
  pub user : User
  pub digest : Bytes
  pub first : IsFirst db name user
  pub context : evp.ctx_new ≡ true
  pub digested : evp.digest password ≡ some digest
  pub hashed : IsHex digest user.password_hash

-- When every digest of OpenSSL is a string of bytes, a check succeeds exactly when OpenSSL makes a context and yields a
-- digest of the password, and the first user in the list with that name has for a hash the text of the digest, two
-- hexadecimal digits in lower case for each byte.
pub auth_verify_iff :
    (evp : Evp) (db : List User) (name password : Bytes)
    → ((p d : Bytes) → evp.digest p ≡ some d → AreBytes d)
    → (auth_verify evp db name password ≡ Status.ok) ↔ Verified evp db name password
auth_verify_iff evp db name password are = (
  (λ e.
      let v = (auth_verify-Checked evp db name password).0 e in
      record {
        user = v.user;
        digest = v.digest;
        first = find_user-IsFirst name db v.user v.found;
        context = v.context;
        digested = v.digested;
        hashed = rw v.same (hex-IsHex v.digest (are password v.digest v.digested));
      }),
  (λ v.
      let f = v.first in
      (auth_verify-Checked evp db name password).1 (record {
        user = v.user;
        digest = v.digest;
        found = rw f.split (find_user-append name f.before f.after v.user f.none_before f.named);
        context = v.context;
        digested = v.digested;
        same = IsHex-hex v.hashed;
      })),
)

-- If OpenSSL gives bytes and the first user of the name was entered with the digest `d`, only a
-- password with the digest `d` is accepted.
pub auth_verify-digest :
    (evp : Evp) (db : List User) (name password d : Bytes) (u : User)
    → ((p e : Bytes) → evp.digest p ≡ some e → AreBytes e)
    → find_user name db ≡ some u
    → AreBytes d
    → u.password_hash ≡ hex d
    → auth_verify evp db name password ≡ Status.ok
    → evp.digest password ≡ some d
auth_verify-digest evp db name password d u bytes found are h e =
    let v = (auth_verify-Checked evp db name password).0 e in
    let same : v.user ≡ u = some_inj (sym v.found ∙ found) in
    let texts : hex v.digest ≡ hex d = sym v.same ∙ ap (λ w. w.password_hash) same ∙ h in
    v.digested ∙ ap some (hex-injective v.digest d (bytes password v.digest v.digested) are texts)
