-- ===== src/Registry/Names.antt =====
-- Names of 31 bytes in src/server/client_registry.c, which `registry_add` copies without a NUL into
-- memory that `malloc` did not clear.
use ai_chatbot.Base.{ℕ, ◌<◌, ◌≡◌, ◌≢◌, refl, Bool, true, false, [], ◌∷◌, ◌++◌, length, arith}
use ai_chatbot.Text.{Bytes, str_eq}
use ai_chatbot.Text.Split.{strncpy_over-full}
use ai_chatbot.Status.{Status, max_clients}
use ai_chatbot.Registry.{Registry, Spill, find_name, registry_add, registry_username_exists}

str_eq-append : (a b : Bytes) → b ≢ [] → str_eq (a ++ b) a ≡ false
unfolding str_eq
str_eq-append [] [] ne = absurd (ne refl)
str_eq-append [] (x ∷ b) ne = refl
str_eq-append (x ∷ a) b ne = ground (arith, str_eq-append a b ne)

-- A registration of a name of 31 bytes over memory that holds no NUL behind it succeeds, and the
-- user is not found by the name afterwards.
pub registry_add_unterminated :
    (spill : Spill) (reg : Registry) (fd : ℕ) (name room : Bytes) (admin : Bool)
    → length name ≡ 31
    → spill.username ≢ []
    → reg.count < max_clients
    → registry_username_exists reg name ≡ false
    → let (s, reg') = registry_add true spill reg fd name room admin in
      (s ≡ Status.ok) × (registry_username_exists reg' name ≡ false)
unfolding registry_add registry_username_exists find_name
registry_add_unterminated spill reg fd name room admin h dirty free absent =
    let full = strncpy_over-full 31 spill.username name h in
    let longer : str_eq (name ++ spill.username) name ≡ false =
      str_eq-append name spill.username dirty in
    ground (arith, full, longer)
