-- ===== src/Auth/Load.antt =====
-- `auth_init` of src/server/auth.c: what the list holds when the file has been read.
use ai_chatbot.Base.{
  ℕ, ◌≡◌, refl, Bool, List, [], ◌∷◌, Option, none, some, if◌then◌else◌, length, arith, Option-cases,
  Bool-cases, inl, inr, ap, sym, ◌∙◌, some_inj,
}
use ai_chatbot.Text.{Bytes, str_eq}
use ai_chatbot.Status.{Status}
use ai_chatbot.Auth.{User, parse_user, fgets_lines, load_users, auth_init, find_user, loaded}

-- The last line for the name, of those that are well-formed.
abbrev pub last_user : Bytes → List Bytes → Option User
last_user name [] = none
last_user name (line ∷ lines) = elim (last_user name lines) [
  | some u ↦ some u
  | none ↦ elim (parse_user line) [
    | none ↦ none
    | some u ↦ if str_eq u.username name then some u else none
  ]
]

abbrev or_else : Option User → Option User → Option User
or_else (some u) o = some u
or_else none o = o

find_user-load :
    (mem : ℕ → Bool) (name : Bytes) (lines : List Bytes) (us db : List User)
    → load_users mem lines us ≡ some db
    → find_user name db ≡ or_else (last_user name lines) (find_user name us)
unfolding load_users find_user
find_user-load mem name [] us db e = ap (find_user name) (sym (some_inj e))
find_user-load mem name (line ∷ lines) us db e = elim (Option-cases (parse_user line)) [
  | inl skipped ↦
      let ih = find_user-load mem name lines us db (rw (skipped, load_users) at e) in
      ground (arith, ih, skipped)
  | inr (u, p) ↦ elim (Bool-cases (mem (length us))) [
    | inr out ↦ cc (rw (p, load_users) at e, out)
    | inl held ↦
        let ih = find_user-load mem name lines (u ∷ us) db (rw held at (rw (p, load_users) at e)) in
        ground (arith, ih, p)
  ]
]

loaded-list : (db : List User) → (loaded db).1 ≡ db
loaded-list [] = refl
loaded-list (u ∷ us) = refl

or_else-none : (o : Option User) → or_else o none ≡ o
or_else-none none = refl
or_else-none (some u) = refl

-- After a successful start every name has the record of the last well-formed line for it, and a name
-- without such a line has none.
pub auth_init_lem :
    (mem : ℕ → Bool) (text name : Bytes)
    → (auth_init mem (some text)).0 ≡ Status.ok
    → find_user name (auth_init mem (some text)).1 ≡ last_user name (fgets_lines [] 511 text)
unfolding auth_init find_user
auth_init_lem mem text name e = elim (Option-cases (load_users mem (fgets_lines [] 511 text) [])) [
  | inl out ↦ cc (rw (out, auth_init) at e)
  | inr (db, found) ↦
      rw (found, auth_init)
        (rw (loaded-list db) (find_user-load mem name _ [] db found ∙ or_else-none _))
]
