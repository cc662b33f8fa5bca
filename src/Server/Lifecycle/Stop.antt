-- ===== src/Server/Lifecycle/Stop.antt =====
-- src/server/server.c: what `server_shutdown` and `server_destroy` do.
use ai_chatbot.Base.{
  ℕ, ◌≡◌, refl, ◌∙◌, Bool, if◌then◌else◌, true, false, List, [], ◌∷◌, ◌++◌, Option, none, some,
  arith,
}
use mathlib.Core.List.{append-nil}
use ai_chatbot.Status.{Status}
use ai_chatbot.Queue.{Message}
use ai_chatbot.Server.State.{Effect}
use ai_chatbot.Server.Accept.{Host}
use ai_chatbot.Server.Lifecycle.{
  close_listen_fd, wake_broadcaster, server_shutdown, server_destroy, registry_destroy,
  queue_destroy, room_manager_destroy, auth_destroy,
}

abbrev pub listener_closed : Option ℕ → List Effect
listener_closed none = []
listener_closed (some fd) = Effect.closed fd ∷ []

close_listen_fd_lem :
    (fd : Option ℕ) (h : Host)
    → h.listen_fd ≡ fd
    → let h' = close_listen_fd fd h in
      (h'.listen_fd ≡ none)
      × (h'.running ≡ h.running)
      × (h'.server.effects ≡ h.server.effects ++ listener_closed fd)
      × (h'.server.broadcast_queue ≡ h.server.broadcast_queue)
unfolding close_listen_fd
close_listen_fd_lem none h e = ground (arith, append-nil h.server.effects)
close_listen_fd_lem (some fd) h e = ground arith

-- `server_shutdown` closes the listening socket, if it is open, stops the server and closes the queue; the push of
-- the shutdown event behind that is always refused, with memory or without, so that the queue holds what it held, and no such event reaches
-- the broadcaster.
pub server_shutdown_lem :
    (mem : Bool) (shutdown_msg : Message) (h : Host)
    → let h' = server_shutdown mem shutdown_msg h in
      (h'.running ≡ false)
      × (h'.listen_fd ≡ none)
      × (h'.server.effects ≡ h.server.effects ++ listener_closed h.listen_fd)
      × ((wake_broadcaster mem shutdown_msg h.server.broadcast_queue).0
          ≡ (if mem then Status.err else Status.nomem))
      × (h'.server.broadcast_queue ≡ record h.server.broadcast_queue { closed = true })
unfolding server_shutdown wake_broadcaster
server_shutdown_lem mem shutdown_msg h =
    let closed = close_listen_fd_lem h.listen_fd (record h { running = false }) refl in ground arith

-- A server in which nothing is left.
pub record IsBare (h : Host) : Type 0 where
  pub no_clients : h.server.registry.nodes ≡ []
  pub no_messages : h.server.broadcast_queue.items ≡ []
  pub no_rooms : h.server.rooms.rooms ≡ []
  pub no_users : h.server.users ≡ []
  pub not_listening : h.listen_fd ≡ none

close_nothing : (fd : Option ℕ) (h : Host) → fd ≡ none → close_listen_fd fd h ≡ h
unfolding close_listen_fd
close_nothing none h e = refl
close_nothing (some fd) h e = cc

server_destroy_idle :
    (h : Host)
    → h.listen_fd ≡ none
    → IsBare (server_destroy h)
      × ((server_destroy h).server.effects ≡ h.server.effects)
      × ((server_destroy h).running ≡ h.running)
      × ((server_destroy h).threads ≡ h.threads)
unfolding server_destroy registry_destroy queue_destroy room_manager_destroy auth_destroy
server_destroy_idle h e = rw (close_nothing h.listen_fd _ e) (
  record {
    no_clients = refl;
    no_messages = refl;
    no_rooms = refl;
    no_users = refl;
    not_listening = e;
  },
  refl,
  refl,
  refl,
)

close_listen_fd-threads : (fd : Option ℕ) (h : Host) → (close_listen_fd fd h).threads ≡ h.threads
unfolding close_listen_fd
close_listen_fd-threads none h = refl
close_listen_fd-threads (some fd) h = refl

server_shutdown-threads :
    (mem : Bool) (shutdown_msg : Message) (h : Host)
    → (server_shutdown mem shutdown_msg h).threads ≡ h.threads
unfolding server_shutdown
server_shutdown-threads mem shutdown_msg h = close_listen_fd-threads h.listen_fd _

-- `server_shutdown` and then `server_destroy` stop the server, close the listening socket exactly once, if it is open, and
-- empty the lists. The push of the shutdown event is always refused: there is no memory for it, or the queue, which
-- is closed before it, takes it no more. No thread
-- of a client is ended: those that run go on, with a server that is destroyed.
pub server_destroy_lem :
    (mem : Bool) (shutdown_msg : Message) (h : Host)
    → let h' = server_destroy (server_shutdown mem shutdown_msg h) in
      IsBare h'
      × (h'.server.effects ≡ h.server.effects ++ listener_closed h.listen_fd)
      × (h'.running ≡ false)
      × ((wake_broadcaster mem shutdown_msg h.server.broadcast_queue).0
          ≡ (if mem then Status.err else Status.nomem))
      × (h'.threads ≡ h.threads)
server_destroy_lem mem shutdown_msg h =
    let h' : Host = server_shutdown mem shutdown_msg h in
    let (stopped, unlistened, effects, refused, _) = server_shutdown_lem mem shutdown_msg h in
    let (bare, same, running, threads) = server_destroy_idle h' unlistened in
    (
      bare,
      same ∙ effects,
      running ∙ stopped,
      refused,
      threads ∙ server_shutdown-threads mem shutdown_msg h,
    )
