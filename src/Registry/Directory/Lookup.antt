-- ===== src/Registry/Directory/Lookup.antt =====
-- The look-ups of src/server/client_registry.c against the directory.
use mathlib.Core.Option
use mathlib.Core.Path.{fun_ext}
use ai_chatbot.Base.{
  ℕ, ◌<◌, ◌≡◌, ◌≢◌, sym, ◌∙◌, ap, Bool, false, List, [], ◌∷◌, none, some, length, arith,
  Option-cases, Bool-cases, inl, inr, ◌==◌, ==_iff, ==_refl, take_all, some_inj,
}
use ai_chatbot.Text.{Bytes, str_eq_iff, str_eq}
use ai_chatbot.Text.Split.{strncpy_over-short}
use ai_chatbot.Registry.{
  Node, Registry, Spill, find_fd, find_name, unlink, move_node, registry_get_sockfd_by_username,
  registry_get_username, registry_get_room, registry_is_admin, new_node,
}
use ai_chatbot.Registry.Valid.{IsValid, IsUnique}
use ai_chatbot.Registry.Find.{
  find_fd-unlink_self, find_fd-unlink_ne, find_fd-move_self, find_fd-move_ne,
}
use ai_chatbot.Registry.Directory.{User, answer, user, users_of, directory, Answers}

pub find_name-none :
    (name : Bytes) (ns : List Node) (j : ℕ) (n : Node)
    → find_name name ns ≡ none
    → find_fd j ns ≡ some n
    → n.username ≢ name
unfolding find_name find_fd
find_name-none name [] j n h e = cc
find_name-none name (m ∷ ns) j n h e =
    ground (arith, find_name-none name ns j n, str_eq_iff m.username name)

pub find_name-some :
    (name : Bytes) (ns : List Node) (n : Node)
    → IsUnique ns
    → find_name name ns ≡ some n
    → (find_fd n.sockfd ns ≡ some n) × (n.username ≡ name)
unfolding find_name find_fd
find_name-some name [] n u h = cc
find_name-some name (m ∷ ns) n u h = elim (Bool-cases (str_eq m.username name)) [
  | inl same ↦ ground (arith, str_eq_iff m.username name, ==_refl m.sockfd, same)
  | inr other ↦
      let rest = find_name-some name ns n u.2 (rw other at h) in
      ground (arith, rest, ==_iff m.sockfd n.sockfd, u.1)
]

other_fd : (fd j : ℕ) → (fd == j) ≡ false → j ≢ fd
other_fd fd j h = ground (arith, ==_iff fd j, h)

-- The directory of the registry before and after each update.
pub users_of-add :
    (spill : Spill) (fd : ℕ) (name room : Bytes) (admin : Bool) (reg : Registry)
    → length name < 31
    → length room < 31
    → users_of (new_node spill fd name room admin ∷ reg.nodes)
      ≡ answer fd (some (record { name = name; room = room; admin = admin })) (directory reg)
unfolding find_fd
users_of-add spill fd name room admin reg hn hr = fun_ext λ j.
    ground (
      arith,
      strncpy_over-short 31 spill.username name hn,
      strncpy_over-short 31 spill.room room hr,
    )

pub users_of-remove :
    (reg : Registry) (fd : ℕ) (ms : List Node)
    → IsUnique reg.nodes
    → unlink fd reg.nodes ≡ some ms
    → users_of ms ≡ answer fd none (directory reg)
users_of-remove reg fd ms u e = fun_ext λ j. elim (Bool-cases (fd == j)) [
  | inl same ↦ rw same (
      ap (λ k. users_of ms k) (sym ((==_iff fd j).0 same))
      ∙ ap (λ o. Option.map user o) (find_fd-unlink_self fd reg.nodes ms u e))
  | inr other ↦
      rw other
        (ap (λ o. Option.map user o) (find_fd-unlink_ne j fd reg.nodes ms (other_fd fd j other) e))
]

pub users_of-move :
    (reg : Registry) (fd : ℕ) (room : Bytes) (n : Node)
    → length room < 32
    → find_fd fd reg.nodes ≡ some n
    → users_of (move_node fd room reg.nodes)
      ≡ answer fd
          (some (record { name = n.username; room = room; admin = n.is_admin }))
          (directory reg)
users_of-move reg fd room n h e = fun_ext λ j. elim (Bool-cases (fd == j)) [
  | inl same ↦ rw same (
      ap (λ k. users_of (move_node fd room reg.nodes) k) (sym ((==_iff fd j).0 same))
      ∙ ap (λ o. Option.map user o) (find_fd-move_self fd room reg.nodes n e)
      ∙ ap (λ r. some (record { name = n.username; room = r; admin = n.is_admin }))
          (take_all 31 room (omega (arith, h))))
  | inr other ↦
      rw other
        (ap (λ o. Option.map user o) (find_fd-move_ne j fd room reg.nodes (other_fd fd j other)))
]

pub found_user :
    (fd : ℕ) (ns : List Node) {n : Node} → find_fd fd ns ≡ some n → users_of ns fd ≡ some (user n)
found_user fd ns e = ap (λ o. Option.map user o) e

pub no_user : (fd : ℕ) (ns : List Node) → find_fd fd ns ≡ none → users_of ns fd ≡ none
no_user fd ns e = ap (λ o. Option.map user o) e

-- No user of the list has a name that the scan does not find.
pub other_users :
    (name : Bytes) (ns : List Node) (j : ℕ) (u : User)
    → find_name name ns ≡ none
    → users_of ns j ≡ some u
    → u.name ≢ name
other_users name ns j u free h = elim (Option-cases (find_fd j ns)) [
  | inl gone ↦ cc (no_user j ns gone, h)
  | inr (n, e) ↦
      let ne = find_name-none name ns j n free e in
      let same : user n ≡ u = some_inj (sym (found_user j ns e) ∙ h) in
      λ q. ne (ap (λ (v : User). v.name) same ∙ q)
]

finds_user :
    (ns : List Node) (fd : ℕ) (n : Node)
    → IsUnique ns
    → find_fd fd ns ≡ some n
    → (find_name n.username ns ≡ some n) × (n.sockfd ≡ fd)
unfolding find_fd find_name
finds_user [] fd n u h = cc
finds_user (m ∷ ns) fd n u h = elim (Bool-cases (m.sockfd == fd)) [
  | inl same ↦
      let e : m ≡ n = some_inj (rw same at h) in
      ground (
        arith,
        str_eq_iff m.username n.username,
        ==_iff m.sockfd fd,
        same,
        ap (λ (k : Node). k.username) e,
        ap (λ (k : Node). k.sockfd) e,
        e,
      )
  | inr other ↦
      let (found, own) = finds_user ns fd n u.2 (rw other at h) in
      ground (
        arith,
        found,
        own,
        find_name-none m.username ns fd n u.0 (rw other at h),
        str_eq_iff m.username n.username,
      )
]

pub registry-Answers : (reg : Registry) → IsValid reg → Answers reg
unfolding registry_get_username registry_get_room registry_is_admin registry_get_sockfd_by_username
registry-Answers reg v = record {
  get_username =
      λ fd. elim (Option-cases (find_fd fd reg.nodes)) [ inl e ↦ rw e | inr (n, e) ↦ rw e ];
  get_room = λ fd. elim (Option-cases (find_fd fd reg.nodes)) [ inl e ↦ rw e | inr (n, e) ↦ rw e ];
  is_admin = λ fd. elim (Option-cases (find_fd fd reg.nodes)) [
    | inl e ↦ rw (e, registry_is_admin)
    | inr (n, e) ↦ rw (e, registry_is_admin)
  ];
  finds = λ fd u h. elim (Option-cases (find_fd fd reg.nodes)) [
    | inl gone ↦ cc (no_user fd reg.nodes gone, h)
    | inr (n, e) ↦
        let same : user n ≡ u = some_inj (sym (found_user fd reg.nodes e) ∙ h) in
        let (found, own) = finds_user reg.nodes fd n v.unique e in
        ap (λ (w : User). registry_get_sockfd_by_username reg w.name) (sym same)
        ∙ rw (found, registry_get_sockfd_by_username) (ap some own)
  ];
  found_only = λ fd name h. elim (Option-cases (find_name name reg.nodes)) [
    | inl gone ↦ cc (rw (gone, registry_get_sockfd_by_username) at h)
    | inr (n, e) ↦
        let (found, own) = find_name-some name reg.nodes n v.unique e in
        let same : n.sockfd ≡ fd = some_inj (rw (e, registry_get_sockfd_by_username) at h) in
        (user n, rw same at (found_user n.sockfd reg.nodes found), own)
  ];
}
