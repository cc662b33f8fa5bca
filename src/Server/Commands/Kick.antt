-- ===== src/Server/Commands/Kick.antt =====
-- Whom `cmd_handle_kick` of src/server/commands.c disconnects.
use mathlib.Core.List.{append-nil}
use ai_chatbot.Base.{
  ℕ, ◌≡◌, ◌≢◌, ◌⊎◌, refl, Bool, true, false, List, [], ◌∷◌, ◌++◌, ◌∙◌, ap, sym, some_inj, ◌&&◌,
  if◌then◌else◌, some, arith, Option-cases, inl, inr, Bool-cases,
}
use ai_chatbot.Text.{Bytes, codes, is_empty, str_eq, str_eq_iff}
use ai_chatbot.Status.{Status, is_ok}
use ai_chatbot.Registry.{
  registry_get_username, registry_is_admin, registry_get_sockfd_by_username, find_name,
}
use ai_chatbot.Protocol.Server.{build_server_kicked, build_server_err}
use ai_chatbot.Server.State.{Env, Effect, Server}
use ai_chatbot.Server.Commands.{kick_out, cmd_handle_kick}
use ai_chatbot.Server.Reply.{cmd_send_response, send_built}

-- The descriptors on which `shutdown` was called, in order.
abbrev pub shuts : List Effect → List ℕ
shuts [] = []
shuts (Effect.shut fd ∷ es) = fd ∷ shuts es
shuts (e ∷ es) = shuts es

shuts-append : (xs ys : List Effect) → shuts (xs ++ ys) ≡ shuts xs ++ shuts ys
shuts-append [] ys = refl
shuts-append (Effect.shut fd ∷ xs) ys = rw (shuts-append xs ys) refl
shuts-append (Effect.sent fd l ∷ xs) ys = shuts-append xs ys
shuts-append (Effect.lost fd l ∷ xs) ys = shuts-append xs ys
shuts-append (Effect.closed fd ∷ xs) ys = shuts-append xs ys

-- A kick by `fd` of the user `target` succeeds against the descriptor `to_fd`.
pub record MayKick (s : Server) (fd : ℕ) (target : Bytes) (to_fd : ℕ) : Type 0 where
  pub right : registry_is_admin s.registry fd ≡ true
  pub given : is_empty target ≡ false
  pub other : registry_get_username s.registry fd 32 ≢ (Status.ok, target)
  pub online : registry_get_sockfd_by_username s.registry target ≡ some to_fd

shuts-sent :
    (es : List Effect) (b : Bool) (fd : ℕ) (l : Bytes)
    → shuts (es ++ (if b then Effect.sent fd l else Effect.lost fd l) ∷ []) ≡ shuts es
shuts-sent es true fd l = shuts-append es (Effect.sent fd l ∷ []) ∙ (rw append-nil refl)
shuts-sent es false fd l = shuts-append es (Effect.lost fd l ∷ []) ∙ (rw append-nil refl)

send_shuts :
    (env : Env) (fd : ℕ) (line : Bytes) (s : Server)
    → shuts (cmd_send_response env fd line s).1.effects ≡ shuts s.effects
unfolding cmd_send_response
send_shuts env fd line s = shuts-sent s.effects (env.accepts s.tick fd line) fd line

shuts-kick_out :
    (env : Env) (fd to_fd : ℕ) (s : Server)
    → shuts (kick_out env fd to_fd s).1.effects ≡ shuts s.effects ++ to_fd ∷ []
unfolding kick_out
shuts-kick_out env fd to_fd s =
    let s1 =
      (send_built env to_fd (build_server_kicked 2048 (some (codes "kicked by admin"))) s).1 in
    send_shuts env fd _ (record s1 { effects = s1.effects ++ Effect.shut to_fd ∷ [] })
    ∙ shuts-append s1.effects (Effect.shut to_fd ∷ [])
    ∙ ap (λ es. es ++ to_fd ∷ []) (send_shuts env to_fd _ s)

abbrev err_line : Bytes → Bytes
err_line text = (build_server_err 2048 (some text)).1

abbrev Refused : Env → ℕ → Bytes → Server → Type 0
Refused env fd target s =
    ((to_fd : ℕ) → ¬ MayKick s fd target to_fd)
    × (shuts (cmd_handle_kick env fd target s).1.effects ≡ shuts s.effects)

-- What a kick comes to, by the tests of the handler.
pub kick_cases :
    (env : Env) (fd : ℕ) (target : Bytes) (s : Server)
    → ((to_fd : ℕ) × (MayKick s fd target to_fd
          × ((cmd_handle_kick env fd target s).1 ≡ (kick_out env fd to_fd s).1)))
      ⊎ Refused env fd target s
unfolding cmd_handle_kick registry_get_sockfd_by_username find_name
kick_cases env fd target s =
    let named = registry_get_username s.registry fd 32 in
    let said : (text : Bytes)
        → shuts (cmd_send_response env fd (err_line text) s).1.effects ≡ shuts s.effects =
      λ text. send_shuts env fd (err_line text) s in
    elim (Bool-cases (registry_is_admin s.registry fd)) [
      | inr h1 ↦
          inr ((λ t m. ground (arith, m.right)), rw h1 (said (codes "admin privileges required")))
      | inl h1 ↦ elim (Bool-cases (is_empty target)) [
        | inl h2 ↦
            inr ((λ t m. ground (arith, m.given)), rw (h1, h2) (said (codes "username required")))
        | inr h2 ↦ elim (Bool-cases (is_ok named.0 && str_eq named.1 target)) [
          | inl h3 ↦ inr (
            (λ t m. m.other (ground (arith, str_eq_iff named.1 target))),
            rw (h1, h2, h3) (said (codes "cannot kick yourself")),
          )
          | inr h3 ↦ elim (Option-cases (registry_get_sockfd_by_username s.registry target)) [
            | inl h4 ↦ inr (
              (λ t m. ground (arith, m.online)),
              rw (h1, h2, h3, h4) (said (codes "user not online")),
            )
            | inr (t, h4) ↦ inl (
              t,
              (
                record {
                  right = h1;
                  given = h2;
                  other = λ same. ground (arith, str_eq_iff named.1 target);
                  online = h4;
                },
                rw (h1, h2, h3, h4) refl,
              ),
            )
          ]
        ]
      ]
    ]

-- A kick calls `shutdown` once, on the descriptor of the named user, when the one who asks is an
-- admin and the name is not empty, not his own, and online; in every other case it calls
-- `shutdown` on none.
pub cmd_handle_kick_lem :
    (env : Env) (fd : ℕ) (target : Bytes) (s : Server)
    → let after = shuts (cmd_handle_kick env fd target s).1.effects in
      ((to_fd : ℕ) → MayKick s fd target to_fd → after ≡ shuts s.effects ++ to_fd ∷ [])
      × (((to_fd : ℕ) → ¬ MayKick s fd target to_fd) → after ≡ shuts s.effects)
cmd_handle_kick_lem env fd target s = elim (kick_cases env fd target s) [
  | inl (t, (m, e)) ↦ (
    (λ u n.
        let same : t ≡ u = some_inj (sym m.online ∙ n.online) in
        ap (λ z. shuts z.effects) e
        ∙ shuts-kick_out env fd t s
        ∙ ap (λ z. shuts s.effects ++ z ∷ []) same),
    (λ never. absurd (never t m)),
  )
  | inr (never, kept) ↦ ((λ u n. absurd (never u n)), (λ _. kept))
]
