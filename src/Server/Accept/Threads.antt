-- ===== src/Server/Accept/Threads.antt =====
-- The list of the clients' threads of src/server/server.c: which of them are there and logged in, and how an
-- update and the end of one change that.
use ai_chatbot.Base.{
  ℕ, ◌≡◌, refl, Bool, true, false, ◌||◌, List, [], ◌∷◌, some, arith, ◌==◌, if◌then◌else◌,
  Bool-cases, inl, inr, some_inj, ==_iff,
}
use ai_chatbot.Text.{is_empty}
use ai_chatbot.Server.Session.{Session}
use ai_chatbot.Server.Accept.{Thread, find_thread, end_thread, update_thread}

abbrev pub has_thread : ℕ → List Thread → Bool
has_thread fd [] = false
has_thread fd (t ∷ ts) = (t.client_fd == fd) || has_thread fd ts

-- Whether the thread of the descriptor is there and authenticated.
abbrev pub logged_in : ℕ → List Thread → Bool
logged_in fd [] = false
logged_in fd (t ∷ ts) = if t.client_fd == fd then t.session.authenticated else logged_in fd ts

-- No two threads have the same descriptor.
abbrev pub OnePerSocket : List Thread → Type 0
OnePerSocket [] = Unit {0}
OnePerSocket (t ∷ ts) = (has_thread t.client_fd ts ≡ false) × OnePerSocket ts

-- An authenticated client has a name.
abbrev pub IsNamed : Session → Type 0
IsNamed session = session.authenticated ≡ true → is_empty session.username ≡ false

abbrev pub AllNamed : List Thread → Type 0
AllNamed [] = Unit {0}
AllNamed (t ∷ ts) = IsNamed t.session × AllNamed ts

pub record Found (fd : ℕ) (t : Thread) (ts : List Thread) : Type 0 where
  pub own : t.client_fd ≡ fd
  pub present : has_thread fd ts ≡ true
  pub same : logged_in fd ts ≡ t.session.authenticated
  pub named : AllNamed ts → IsNamed t.session

pub find_thread-Found :
    (fd : ℕ) (ts : List Thread) {t : Thread} → find_thread fd ts ≡ some t → Found fd t ts
unfolding find_thread
find_thread-Found fd [] e = cc
find_thread-Found fd (u ∷ ts) {t} e = elim (Bool-cases (u.client_fd == fd)) [
  | inl eq ↦
      let this : u ≡ t = some_inj (rw eq at e) in
      rw (← this) (record {
        own = (==_iff u.client_fd fd).0 eq;
        present = ground (arith, eq);
        same = ground (arith, eq);
        named = λ n. n.0;
      })
  | inr ne ↦
      let f = find_thread-Found fd ts (rw ne at e) in
      record {
        own = f.own;
        present = ground (arith, f.present);
        same = ground (arith, f.same);
        named = λ n. f.named n.1;
      }
]

pub has_thread-update :
    (fd : ℕ) (new : Thread) (ts : List Thread)
    → has_thread fd (update_thread new ts) ≡ has_thread fd ts
unfolding update_thread
has_thread-update fd new [] = refl
has_thread-update fd new (u ∷ ts) = ground (arith, has_thread-update fd new ts)

pub logged_in-update :
    (fd : ℕ) (new : Thread) (ts : List Thread)
    → has_thread new.client_fd ts ≡ true
    → logged_in fd (update_thread new ts)
      ≡ (if new.client_fd == fd then new.session.authenticated else logged_in fd ts)
unfolding update_thread
logged_in-update fd new [] h = cc
logged_in-update fd new (u ∷ ts) h = ground (arith, logged_in-update fd new ts)

pub OnePerSocket-update :
    (new : Thread) (ts : List Thread) → OnePerSocket ts → OnePerSocket (update_thread new ts)
unfolding update_thread
OnePerSocket-update new [] h = tt
OnePerSocket-update new (u ∷ ts) h = elim (Bool-cases (u.client_fd == new.client_fd)) [
  | inl eq ↦ rw eq (rw (← (==_iff u.client_fd new.client_fd).0 eq) h)
  | inr ne ↦
      rw ne
        (ground (arith, has_thread-update u.client_fd new ts, h.0), OnePerSocket-update new ts h.1)
]

pub AllNamed-update :
    (new : Thread) (ts : List Thread)
    → IsNamed new.session
    → AllNamed ts
    → AllNamed (update_thread new ts)
unfolding update_thread
AllNamed-update new [] k h = tt
AllNamed-update new (u ∷ ts) k h = elim (Bool-cases (u.client_fd == new.client_fd)) [
  | inl eq ↦ rw eq (k, h.1)
  | inr ne ↦ rw ne (h.0, AllNamed-update new ts k h.1)
]

pub has_thread-logged_in :
    (fd : ℕ) (ts : List Thread) → has_thread fd ts ≡ false → logged_in fd ts ≡ false
has_thread-logged_in fd [] h = refl
has_thread-logged_in fd (u ∷ ts) h = ground (arith, has_thread-logged_in fd ts)

pub has_thread-end :
    (fd gone : ℕ) (ts : List Thread)
    → has_thread fd ts ≡ false
    → has_thread fd (end_thread gone ts) ≡ false
unfolding end_thread
has_thread-end fd gone [] h = refl
has_thread-end fd gone (u ∷ ts) h = ground (arith, has_thread-end fd gone ts)

pub logged_in-end :
    (fd gone : ℕ) (ts : List Thread)
    → OnePerSocket ts
    → logged_in fd (end_thread gone ts) ≡ (if gone == fd then false else logged_in fd ts)
unfolding end_thread
logged_in-end fd gone [] h = ground arith
logged_in-end fd gone (u ∷ ts) h =
    ground (arith, logged_in-end fd gone ts h.1, has_thread-logged_in fd ts, h.0)

pub OnePerSocket-end :
    (gone : ℕ) (ts : List Thread) → OnePerSocket ts → OnePerSocket (end_thread gone ts)
unfolding end_thread
OnePerSocket-end gone [] h = tt
OnePerSocket-end gone (u ∷ ts) h = elim (Bool-cases (u.client_fd == gone)) [
  | inl eq ↦ rw eq h.1
  | inr ne ↦ rw ne (has_thread-end u.client_fd gone ts h.0, OnePerSocket-end gone ts h.1)
]

pub AllNamed-end : (gone : ℕ) (ts : List Thread) → AllNamed ts → AllNamed (end_thread gone ts)
unfolding end_thread
AllNamed-end gone [] h = tt
AllNamed-end gone (u ∷ ts) h = elim (Bool-cases (u.client_fd == gone)) [
  | inl eq ↦ rw eq h.1
  | inr ne ↦ rw ne (h.0, AllNamed-end gone ts h.1)
]
