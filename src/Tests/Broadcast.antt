-- ===== src/Tests/Broadcast.antt =====
-- The thread of src/server/broadcaster.c.
use ai_chatbot.Base.{◌≡◌, ◌==◌, ◌++◌, not, refl, true, false, [], ◌∷◌, arith}
use ai_chatbot.Text.{str_eq}
use ai_chatbot.Server.State.{Env, Effect, Server}
use ai_chatbot.Server.Broadcast.{Ended, broadcast_line_to_room, broadcaster_thread}
use ai_chatbot.Server.Broadcast.Fanout.{IsBroken, sends, announces_all, broadcast_line_stops}
use ai_chatbot.Registry.UserList.{in_room}
use ai_chatbot.Server.Broadcast.Drain.{broadcaster_thread_lem}
use ai_chatbot.Tests.Data.{alice, bob, carol, lobby, hello, env_up, server, some_message, client}

-- A machine on which sends to alice fail.
abbrev env_broken : Env
env_broken = record env_up { accepts = λ t fd line. not (fd == 4) }

env_broken-IsBroken : IsBroken env_broken 4
env_broken-IsBroken = record {
  fails = λ t line. refl;
  others = λ t other line ne. ground (arith, ne);
}

abbrev queued : Server
queued = record server { broadcast_queue = record { items = some_message ∷ []; closed = false } }

-- Alice stands between bob and carol.
abbrev three : Server
three = record server {
  registry = record {
    nodes = client 5 bob false ∷ client 4 alice true ∷ client 6 carol false ∷ [];
    count = 3;
  };
}

alice_in_lobby : str_eq (client 4 alice true).room lobby ≡ true
unfolding str_eq
alice_in_lobby = refl

broadcast_line_stops_example :
    (broadcast_line_to_room env_broken lobby hello three).1.effects
    ≡ sends hello (in_room lobby (client 5 bob false ∷ [])) ++ Effect.lost 4 hello ∷ []
broadcast_line_stops_example =
    broadcast_line_stops env_broken lobby hello (client 5 bob false ∷ [])
      (client 6 carol false ∷ []) (client 4 alice true) three refl alice_in_lobby
      env_broken-IsBroken ((omega arith), tt)

broadcaster_thread_lem_example :
    let (ended, s') = broadcaster_thread env_up 2 queued in
    (s'.effects ≡ announces_all env_up server.registry.nodes (some_message ∷ []))
    × (s'.registry ≡ server.registry)
    × (s'.broadcast_queue.items ≡ [])
    × (ended ≡ Ended.waiting)
broadcaster_thread_lem_example =
    broadcaster_thread_lem env_up 2 queued (λ t fd line. refl) (λ t. refl) (refl, tt) (omega arith)
