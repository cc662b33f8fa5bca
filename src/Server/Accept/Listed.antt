-- ===== src/Server/Accept/Listed.antt =====
-- The registry of src/server/client_registry.c against the threads of the clients of src/server/server.c.
use ai_chatbot.Base.{
  ◌≡◌, refl, sym, ap, ◌∙◌, false, List, [], ◌∷◌, if◌then◌else◌, Bool-cases, Option-cases, inl, inr,
}
use ai_chatbot.Registry.{Registry}
use ai_chatbot.Server.State.{Env}
use ai_chatbot.Server.Broadcast.{broadcaster_thread}
use ai_chatbot.Server.Accept.{
  place_after, AcceptPlace, BroadcasterPlace, Host, Turn, Accepted, find_thread, accept_client,
  accepted, main_turn, broadcaster_turn, take_turn, run_turns,
}
use ai_chatbot.Server.Accept.Count.{accept_client_lem}
use ai_chatbot.Server.Accept.Sockets.{sockets, sockets_of}
use ai_chatbot.Server.Accept.Threads.{has_thread-logged_in, has_thread, find_thread-Found}
use ai_chatbot.Server.Accept.Roster.{IsListed, IsListed-server, same_threads, broadcaster_registry}
use ai_chatbot.Server.Accept.Turns.{logged_in-if, thread_turn-IsListed}

-- What `accept` gives is a descriptor that no thread has.
abbrev pub IsNew : Accepted → Host → Type 0
IsNew (Accepted.client fd _ _) h = has_thread fd h.threads ≡ false
IsNew _ h = Unit {0}

abbrev pub NewSocket : Turn → Host → Type 0
NewSocket (Turn.accept_loop a) h = IsNew a h
NewSocket _ h = Unit {0}

module _ (env : Env) where
  accepted-IsListed :
      (a : Accepted) (h : Host) → IsNew a h → IsListed h → IsListed (accepted env a h)
  unfolding accepted
  accepted-IsListed Accepted.interrupted h n c = same_threads h _ refl refl c
  accepted-IsListed Accepted.failed h n c = same_threads h _ refl refl c
  accepted-IsListed (Accepted.client fd has_memory thread_made) h n c =
      let (runs, s) = accept_client env fd has_memory thread_made h.server in
      let same : sockets s ≡ sockets h.server =
        ap (λ (r : Registry). sockets_of r.nodes)
          (accept_client_lem env fd has_memory thread_made h.server).0 in
      let kept = IsListed-server h s same c in
      elim (Bool-cases runs) [
        | inr gone ↦ rw gone (same_threads (record h { server = s }) _ refl refl kept)
        | inl joined ↦ rw joined (record {
          exact = λ k.
              kept.exact k
              ∙ sym (logged_in-if fd k h.threads (has_thread-logged_in fd h.threads n));
          listed_once = kept.listed_once;
          one_thread = (n, c.one_thread);
          all_named = ((λ e. cc), c.all_named);
        })
      ]

  main_turn-IsListed :
      (a : Accepted) (h : Host) → IsNew a h → IsListed h → IsListed (main_turn env a h)
  unfolding main_turn
  main_turn-IsListed a h n c =
      elim h.main
        as (λ (x : AcceptPlace). IsListed (elim x [
          | AcceptPlace.testing ↦ record h {
            main = if h.running then AcceptPlace.accepting else AcceptPlace.left;
          }
          | AcceptPlace.accepting ↦ accepted env a h
          | AcceptPlace.left ↦ h
        ])) [
          | AcceptPlace.testing ↦ same_threads h _ refl refl c
          | AcceptPlace.accepting ↦ accepted-IsListed a h n c
          | AcceptPlace.left ↦ c
        ]

  broadcaster_turn-IsListed : (h : Host) → IsListed h → IsListed (broadcaster_turn env h)
  unfolding broadcaster_turn
  broadcaster_turn-IsListed h c =
      let (end, s) = broadcaster_thread env 1 h.server in
      elim h.broadcaster
        as (λ (x : BroadcasterPlace). IsListed (elim x [
          | BroadcasterPlace.looping ↦ record h { server = s; broadcaster = place_after end }
          | _ ↦ h
        ])) [
          | BroadcasterPlace.looping ↦
              same_threads h _
                (ap (λ (r : Registry). sockets_of r.nodes) (broadcaster_registry env h.server)) refl
                c
          | _ ↦ c
        ]

  take_turn-IsListed :
      (turn : Turn) (h : Host) → NewSocket turn h → IsListed h → IsListed (take_turn env turn h)
  unfolding take_turn
  take_turn-IsListed (Turn.accept_loop a) h n c = main_turn-IsListed a h n c
  take_turn-IsListed (Turn.client_thread fd line) h n c =
      elim (Option-cases (find_thread fd h.threads)) [
        | inl missing ↦ rw (missing, take_turn) c
        | inr (t, found) ↦
            rw (found, take_turn)
              (thread_turn-IsListed env fd t line h (find_thread-Found fd h.threads found) c)
      ]
  take_turn-IsListed Turn.broadcaster h n c = broadcaster_turn-IsListed h c
  take_turn-IsListed Turn.signal h n c = same_threads h _ refl refl c

-- Whenever `accept` gives a descriptor, it is one that no thread has.
abbrev pub AllNew : Env → List Turn → Host → Type 0
AllNew env [] h = Unit {0}
AllNew env (turn ∷ turns) h = NewSocket turn h × AllNew env turns (take_turn env turn h)

-- In every sequence of turns of the main thread, the threads of the clients, the broadcaster and signals, in which
-- `accept` gives no descriptor that a thread still has, the registry lists exactly the descriptors of the threads that
-- are logged in, each once: no user stays listed when his thread has ended, and none is lost before.
pub run_turns-IsListed :
    (env : Env) (turns : List Turn) (h : Host)
    → AllNew env turns h
    → IsListed h
    → IsListed (run_turns env turns h)
unfolding run_turns
run_turns-IsListed env [] h n c = c
run_turns-IsListed env (turn ∷ turns) h n c =
    run_turns-IsListed env turns (take_turn env turn h) n.1 (take_turn-IsListed env turn h n.0 c)
