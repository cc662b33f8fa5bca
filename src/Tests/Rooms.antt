-- ===== src/Tests/Rooms.antt =====
-- The rooms of src/server/room_manager.c.
use ai_chatbot.Base.{refl, true, none, arith}
use ai_chatbot.Text.{codes}
use ai_chatbot.Text.Write.{Wrote}
use ai_chatbot.Clock.{format_timestamp}
use ai_chatbot.Rooms.{Entry, new_room, new_entry, room_history_add, room_history_format}
use ai_chatbot.Rooms.Ring.{IsRing}
use ai_chatbot.Rooms.Update.{IsValid, history_of}
use ai_chatbot.Rooms.History.{Stored, room_history_add_lem}
use ai_chatbot.Rooms.Format.{payload, room_history_format_lem}
use ai_chatbot.Tests.Data.{alice, lobby, hello, no_rooms}

no_rooms-IsValid : IsValid no_rooms
no_rooms-IsValid = record { counted = refl; bounded = omega arith; rings = tt }

lobby-IsRing : IsRing (new_room lobby)
unfolding new_room
lobby-IsRing = record {
  size = refl;
  count_bound = omega arith;
  start_bound = omega arith;
  filling = λ _. refl;
}

abbrev entry : Entry
entry = record { username = alice; content = hello; timestamp = codes "noon" }

room_history_add_lem_example :
    Stored true no_rooms lobby
      (new_entry alice hello (format_timestamp (λ t. none) 7 32))
      (room_history_add (λ t. none) true no_rooms lobby alice hello 7)
room_history_add_lem_example =
    room_history_add_lem (λ t. none) true no_rooms lobby alice hello 7 no_rooms-IsValid
      (omega arith)

room_history_format_lem_example :
    Wrote 2048 (payload (history_of no_rooms lobby)) (room_history_format no_rooms lobby 2048)
room_history_format_lem_example = room_history_format_lem no_rooms lobby 2048 (omega arith)
