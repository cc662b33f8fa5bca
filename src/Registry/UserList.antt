-- ===== src/Registry/UserList.antt =====
-- The list of names that `registry_build_user_list` and `registry_build_room_user_list` of
-- src/server/client_registry.c write, against the names joined by commas.
use mathlib.Core.List.{append-nil, append_assoc}
use ai_chatbot.Base.{
  ℕ, ◌-◌, ◌<◌, ◌≡◌, refl, Bool, true, false, List, [], ◌∷◌, ◌++◌, length, arith, inl, inr,
  Bool-cases, leb, length-append, if◌then◌else◌, ap, leb→gt, ◌==◌,
}
use ai_chatbot.Text.Write.{Wrote, cut-Wrote}
use ai_chatbot.Text.{Bytes, str_eq}
use ai_chatbot.Registry.{
  Node, Registry, list_piece, user_list_loop, room_user_list_loop, registry_build_user_list,
  registry_build_room_user_list,
}

-- The names, with a comma between each two.
abbrev pub joined : List Node → Bytes
joined [] = []
joined (n ∷ []) = n.username
joined (n ∷ m ∷ ns) = n.username ++ b',' ∷ joined (m ∷ ns)

-- The nodes of a room, in the order of the list.
abbrev pub in_room : Bytes → List Node → List Node
in_room room [] = []
in_room room (n ∷ ns) = if str_eq n.room room then n ∷ in_room room ns else in_room room ns

-- What the loop writes from a given round on.
pieces : Bool → List Node → Bytes
pieces first [] = []
pieces first (n ∷ ns) = list_piece first n ++ pieces false ns

pieces_more : (n : Node) (ns : List Node) → pieces false (n ∷ ns) ≡ b',' ∷ joined (n ∷ ns)
unfolding pieces
pieces_more n [] = rw append-nil
pieces_more n (m ∷ ns) = rw (pieces_more m ns)

pieces-joined : (ns : List Node) → pieces true ns ≡ joined ns
unfolding pieces
pieces-joined [] = refl
pieces-joined (n ∷ []) = rw append-nil
pieces-joined (n ∷ m ∷ ns) = ap (λ t. n.username ++ t) (pieces_more m ns)

user_list_loop-Wrote :
    (buflen : ℕ) (first : Bool) (buf : Bytes) (ns : List Node)
    → length buf < buflen
    → Wrote buflen (buf ++ pieces first ns) (user_list_loop buflen first buf ns)
unfolding user_list_loop pieces
user_list_loop-Wrote buflen first buf [] h = rw append-nil (((λ _. h), (λ _. refl)), (λ _. refl))
user_list_loop-Wrote buflen first buf (n ∷ ns) h =
    let p = list_piece first n in
    elim (Bool-cases (leb (buflen - length buf) (length p))) [
      | inl cut ↦ rw cut (cut-Wrote buflen buf p (pieces false ns) _ cut)
      | inr fits ↦ rw fits (
          rw append_assoc at (
            user_list_loop-Wrote buflen false (buf ++ p) ns
              (omega (arith, leb→gt _ _ fits, length-append buf p))))
    ]

-- `registry_build_user_list` ends with CHAT_OK exactly when the comma-separated names of all users
-- and a NUL fit the buffer, and then the buffer holds them.
pub registry_build_user_list_lem :
    (reg : Registry) (buflen : ℕ)
    → 0 < buflen
    → Wrote buflen (joined reg.nodes) (registry_build_user_list reg buflen)
unfolding registry_build_user_list
registry_build_user_list_lem reg buflen h =
    let given : (buflen == 0) ≡ false = ground arith in
    rw given (rw (← pieces-joined reg.nodes) (user_list_loop-Wrote buflen true [] reg.nodes h))

room_loop-eq :
    (room : Bytes) (buflen : ℕ) (first : Bool) (buf : Bytes) (ns : List Node)
    → room_user_list_loop room buflen first buf ns
      ≡ user_list_loop buflen first buf (in_room room ns)
unfolding room_user_list_loop user_list_loop
room_loop-eq room buflen first buf [] = refl
room_loop-eq room buflen first buf (n ∷ ns) = elim (Bool-cases (str_eq n.room room)) [
  | inl here ↦ rw here (rw (room_loop-eq room buflen false _ ns) refl)
  | inr elsewhere ↦ rw elsewhere (room_loop-eq room buflen first buf ns)
]

-- `registry_build_room_user_list` ends with CHAT_OK exactly when the comma-separated names of the
-- users of the room and a NUL fit the buffer, and then the buffer holds them.
pub registry_build_room_user_list_lem :
    (reg : Registry) (room : Bytes) (buflen : ℕ)
    → 0 < buflen
    → Wrote buflen (joined (in_room room reg.nodes)) (registry_build_room_user_list reg room buflen)
unfolding registry_build_room_user_list
registry_build_room_user_list_lem reg room buflen h =
    let given : (buflen == 0) ≡ false = ground arith in
    rw given (
      rw (room_loop-eq room buflen true [] reg.nodes, ← pieces-joined (in_room room reg.nodes))
        (user_list_loop-Wrote buflen true [] (in_room room reg.nodes) h))
