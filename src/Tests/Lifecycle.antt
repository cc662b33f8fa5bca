-- ===== src/Tests/Lifecycle.antt =====
-- The life of the server of src/server/server.c.
use ai_chatbot.Base.{◌+◌, ◌≡◌, refl, true, false, List, [], ◌∷◌, none, some, arith, leb}
use ai_chatbot.Text.{codes}
use ai_chatbot.Status.{Status, is_ok}
use ai_chatbot.Server.State.{Env, Effect, Server}
use ai_chatbot.Server.Broadcast.{Ended, broadcaster_thread}
use ai_chatbot.Server.Broadcast.Ends.{broadcaster_ends}
use ai_chatbot.Server.Accept.{
  Host, Turn, Accepted, AcceptPlace, BroadcasterPlace, accept_client, accepted, admit, main_turn,
  take_turn, run_turns,
}
use ai_chatbot.Server.Accept.Count.{IsCounted, run_turns-IsCounted}
use ai_chatbot.Server.Accept.Roster.{IsListed}
use ai_chatbot.Server.Accept.Listed.{AllNew, run_turns-IsListed}
use ai_chatbot.Server.Accept.Quiet.{closings}
use ai_chatbot.Server.Accept.Closed.{serving, arrivals, run_turns-closed}
use ai_chatbot.Server.Accept.Ending.{signal_lem}
use ai_chatbot.Server.Session.{conn_at_capacity, conn_track_increment}
use ai_chatbot.Server.Lifecycle.{
  Setup, server_init, wake_broadcaster, server_shutdown, server_destroy,
}
use ai_chatbot.Server.Lifecycle.Start.{all_parts, IsReady, can_start, left_over, server_init_lem}
use ai_chatbot.Server.Lifecycle.Stop.{IsBare, server_destroy_lem}
use ai_chatbot.Tests.Data.{env_up, server, some_message}

-- A server that listens on the socket 3, before any client has come.
abbrev idle : Host
idle = record {
  server = record server { active_connections = 0; registry = record { nodes = []; count = 0 } };
  listen_fd = some 3;
  port = 8080;
  running = true;
  broadcaster = BroadcasterPlace.looping;
  main = AcceptPlace.testing;
  threads = [];
}

idle-IsCounted : IsCounted idle
idle-IsCounted = record { counted = refl; bounded = omega arith }

idle-IsListed : IsListed idle
idle-IsListed = record { exact = λ fd. refl; listed_once = tt; one_thread = tt; all_named = tt }

-- Two clients come, on the sockets 7 and 8; carol logs in on the first one, and leaves.
abbrev visits : List Turn
visits =
    Turn.accept_loop Accepted.interrupted
    ∷ Turn.accept_loop (Accepted.client 7 true true)
    ∷ Turn.accept_loop Accepted.interrupted
    ∷ Turn.accept_loop (Accepted.client 8 true true)
    ∷ Turn.client_thread 7 none
    ∷ Turn.client_thread 7 (some (codes "AUTH carol ab"))
    ∷ Turn.broadcaster
    ∷ Turn.client_thread 7 none
    ∷ Turn.client_thread 7 none
    ∷ []

visits-AllNew : AllNew env_up visits idle
unfolding take_turn main_turn accepted accept_client admit conn_at_capacity conn_track_increment
visits-AllNew = (tt, (refl, (tt, (refl, (tt, (tt, (tt, (tt, (tt, tt)))))))))

run_turns-IsCounted_example : IsCounted (run_turns env_up visits idle)
run_turns-IsCounted_example = run_turns-IsCounted env_up visits idle idle-IsCounted

run_turns-IsListed_example : IsListed (run_turns env_up visits idle)
run_turns-IsListed_example = run_turns-IsListed env_up visits idle visits-AllNew idle-IsListed

run_turns-closed_example :
    let end = run_turns env_up visits idle in
    closings 7 end.server.effects + serving 7 end.threads ≡ 0 + arrivals env_up 7 visits idle
run_turns-closed_example = run_turns-closed env_up 7 visits idle

signal_lem_example : (run_turns env_up (Turn.signal ∷ visits) idle).main ≡ AcceptPlace.left
signal_lem_example = signal_lem env_up visits idle (omega arith)

abbrev setup : Setup
setup = record {
  conn_lock_made = true;
  registry_made = true;
  queue_made = true;
  rooms_made = true;
  auth_made = true;
  room_memory = true;
  user_memory = λ n. true;
  users_file = some (codes "carol:6162:1\n");
}

server_init_lem_example :
    let (rc, h, parts) = server_init setup 8080 in
    (is_ok rc ≡ can_start setup)
    × (is_ok rc ≡ true → (parts ≡ all_parts) × IsReady setup h × (h.port ≡ 8080))
    × (is_ok rc ≡ false → parts ≡ left_over setup)
server_init_lem_example = server_init_lem setup 8080

server_destroy_lem_example :
    let h' = server_destroy (server_shutdown true some_message idle) in
    IsBare h'
    × (h'.server.effects ≡ Effect.closed 3 ∷ [])
    × (h'.running ≡ false)
    × ((wake_broadcaster true some_message idle.server.broadcast_queue).0 ≡ Status.err)
    × (h'.threads ≡ [])
server_destroy_lem_example = server_destroy_lem true some_message idle

-- `running` is 1 at the first test, and 0 from then on.
abbrev env_stopping : Env
env_stopping = record env_up { running = λ t. leb t 0 }

abbrev closed_server : Server
closed_server = record server {
  broadcast_queue = record { items = some_message ∷ []; closed = true };
}

broadcaster_ends_example : (broadcaster_thread env_stopping 2 closed_server).0 ≡ Ended.left
broadcaster_ends_example =
    broadcaster_ends env_stopping closed_server refl refl (λ t h. ground (arith, h))
