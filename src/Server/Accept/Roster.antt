-- ===== src/Server/Accept/Roster.antt =====
-- What src/server/client_registry.c lists, of the threads of src/server/server.c: where neither changes, and where
-- the broadcaster runs.
use ai_chatbot.Base.{
  ℕ, ◌≡◌, refl, ap, ◌∙◌, false, List, [], ◌∷◌, arith, ◌==◌, if◌then◌else◌, Bool-cases, inl, inr,
}
use ai_chatbot.Queue.{Message}
use ai_chatbot.Server.State.{Env, Server}
use ai_chatbot.Server.Broadcast.Fanout.{event_registry}
use ai_chatbot.Server.Broadcast.{handle_message, broadcaster_thread}
use ai_chatbot.Server.Accept.{Host}
use ai_chatbot.Server.Accept.Sockets.{sockets, member, AllDistinct, without}
use ai_chatbot.Server.Accept.Threads.{logged_in, OnePerSocket, AllNamed}

-- The registry lists exactly the descriptors of the threads that are authenticated, each once.
pub record IsListed (h : Host) : Type 0 where
  pub exact : (fd : ℕ) → member fd (sockets h.server) ≡ logged_in fd h.threads
  pub listed_once : AllDistinct (sockets h.server)
  pub one_thread : OnePerSocket h.threads
  pub all_named : AllNamed h.threads

-- What else may change in the server.
pub IsListed-server :
    (h : Host) (s : Server)
    → sockets s ≡ sockets h.server
    → IsListed h
    → IsListed (record h { server = s })
IsListed-server h s e c = record {
  exact = λ fd. ap (λ fds. member fd fds) e ∙ c.exact fd;
  listed_once = rw e c.listed_once;
  one_thread = c.one_thread;
  all_named = c.all_named;
}

pub member-without :
    (fd gone : ℕ) (xs : List ℕ)
    → AllDistinct xs
    → member fd (without gone xs) ≡ (if gone == fd then false else member fd xs)
member-without fd gone [] h = ground arith
member-without fd gone (x ∷ xs) h = ground (arith, member-without fd gone xs h.1, h.0)

member-without_absent :
    (fd gone : ℕ) (xs : List ℕ) → member fd xs ≡ false → member fd (without gone xs) ≡ false
member-without_absent fd gone [] h = refl
member-without_absent fd gone (x ∷ xs) h = ground (arith, member-without_absent fd gone xs)

pub AllDistinct-without : (gone : ℕ) (xs : List ℕ) → AllDistinct xs → AllDistinct (without gone xs)
AllDistinct-without gone [] h = tt
AllDistinct-without gone (x ∷ xs) h = elim (Bool-cases (x == gone)) [
  | inl eq ↦ rw eq h.1
  | inr ne ↦ rw ne (member-without_absent x gone xs h.0, AllDistinct-without gone xs h.1)
]

pub same_threads :
    (h h' : Host)
    → sockets h'.server ≡ sockets h.server
    → h'.threads ≡ h.threads
    → IsListed h
    → IsListed h'
same_threads h h' e f c = record {
  exact = λ fd. rw (e, f) (c.exact fd);
  listed_once = rw e c.listed_once;
  one_thread = rw f c.one_thread;
  all_named = rw f c.all_named;
}

module _ (env : Env) where
  handle_message_registry :
      (msg : Message) (s : Server) → (handle_message env msg s).1.registry ≡ s.registry
  unfolding handle_message
  handle_message_registry msg s = grind (arith, event_registry)

  pub broadcaster_registry : (s : Server) → (broadcaster_thread env 1 s).1.registry ≡ s.registry
  unfolding broadcaster_thread
  broadcaster_registry s = grind (arith, handle_message_registry)
